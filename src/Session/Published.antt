-- ===== src/Session/Published.antt =====
-- What a session publishes in its registry file is what is read from it.
use claude_code_socket_trans.Os.{Os}
use mathlib.Core.Path.{subst}
use mathlib.Core.Option
use claude_code_socket_trans.Json.Members.{
  fields_of, Members, meaning, AreScalars, some_injective, object_tokens, read_json-object_tokens,
}
use claude_code_socket_trans.Json.Tokens.{Token, string, literal, numeral, tokens}
use claude_code_socket_trans.Json.{Number, Fields, field, no_fields, boolean, number, null}
use claude_code_socket_trans.Json.Structs.{as_any, has_field, as_map, unmarshal_map, map_value}
use claude_code_socket_trans.Session.{
  lookup, Json, Number, text_of, Time, Session, session_of, read_session_file, time_value, str,
  int_value, int_of, Os, epoch_ms, read_small_file, max_registry_file_bytes,
}
use claude_code_socket_trans.Base.{
  Bytes, Option, some, none, ◌≡◌, ◌∷◌, false, true, refl, arith, Bool-cases, inl, ◌is◌, inr,
  is-cases, ◌∙◌, sym, [], if◌then◌else◌, ap, codes, ℕ, ok, ◌>>=◌,
}

abbrev or_else : Option Json → Option Json → Option Json
or_else none other = other
or_else (some v) other = some v

-- The value of the last member with exactly this name.
unfoldable pub last_value : Bytes → Members → Option Json
last_value k [] = none
last_value k (m ∷ ms) = or_else (last_value k ms) (if m.name is k then some m.value else none)

or_else-none : (o : Option Json) → or_else o none ≡ o
or_else-none none = refl
or_else-none (some v) = refl

lookup-absent : (k : Bytes) (fs : Fields) → has_field k fs ≡ false → lookup k fs ≡ none
unfolding lookup has_field
lookup-absent k no_fields h = refl
lookup-absent k (field j v fs) h = ground (arith, lookup-absent k fs)

lookup-present :
    (k : Bytes) (fs : Fields) → has_field k fs ≡ true → (v : Json) × (lookup k fs ≡ some v)
unfolding lookup has_field
lookup-present k no_fields h = absurd (ground arith)
lookup-present k (field j v fs) h = elim (Bool-cases (j is k)) [
  | inl b ↦ (v, rw b refl)
  | inr b ↦ let (w, e) = lookup-present k fs (ground arith) in (w, rw b e)
]

as_any-meaning :
    (convert : Bytes → Option Number) (tok : Token) (v : Json)
    → meaning convert tok ≡ some v
    → as_any v ≡ v
unfolding as_any
as_any-meaning convert (string s) v h = subst (λ w. as_any w ≡ w) (some_injective h) refl
as_any-meaning convert (literal null) v h = subst (λ w. as_any w ≡ w) (some_injective h) refl
as_any-meaning convert (literal (boolean b)) v h = subst (λ w. as_any w ≡ w) (some_injective h) refl
as_any-meaning convert (numeral s) v h = converted (convert s) h
  where
    converted : (o : Option Number) → Option.map number o ≡ some v → as_any v ≡ v
    converted none e = absurd (ground arith)
    converted (some n) e = subst (λ w. as_any w ≡ w) (some_injective e) refl
as_any-meaning convert _ v h = absurd (ground arith)

module _ (convert : Bytes → Option Number) where
  lookup-as_map :
      (k : Bytes) (ms : Members)
      → AreScalars convert ms
      → lookup k (as_map (fields_of ms)) ≡ last_value k ms
  unfolding lookup as_map fields_of last_value
  lookup-as_map k [] _ = refl
  lookup-as_map k (m ∷ ms) (h, hs) =
      let rest = lookup-as_map k ms hs in
      elim (Bool-cases (has_field m.name (as_map (fields_of ms)))) [
        | inl t ↦ rw t (elim (is-cases m.name k) [
          | inl (_, e) ↦
              let (v, p) =
                lookup-present k (as_map (fields_of ms))
                  (ap (λ j. has_field j (as_map (fields_of ms))) (sym e) ∙ t) in
              p ∙ ap (λ o. or_else o (if m.name is k then some m.value else none)) (sym p ∙ rest)
          | inr (b, _) ↦ rw b (rest ∙ sym (or_else-none (last_value k ms)))
        ])
        | inr f ↦ rw f (elim (is-cases m.name k) [
          | inl (b, e) ↦
              let p =
                lookup-absent k (as_map (fields_of ms))
                  (ap (λ j. has_field j (as_map (fields_of ms))) (sym e) ∙ f) in
              rw b (
                ap some (as_any-meaning convert m.token m.value h)
                ∙ ap (λ o. or_else o (some m.value)) (sym p ∙ rest))
          | inr (b, _) ↦ rw b (rest ∙ sym (or_else-none (last_value k ms)))
        ])
      ]

abbrev pub text_in : Members → Bytes → Bytes
text_in ms k = text_of (last_value k ms)

abbrev pub time_in : Members → Bytes → Time
time_in ms k = time_value (last_value k ms)

-- The session that the members of a registry file describe.
pub record Describes (os : Os) (ms : Members) (s : Session) : Type 0 where
  pub session_id : s.session_id ≡ text_in ms (codes "sessionId")
  pub socket_path : s.socket_path ≡ text_in ms (codes "messagingSocketPath")
  pub name : s.name ≡ text_in ms (codes "name")
  pub name_source : s.name_source ≡ text_in ms (codes "nameSource")
  pub cwd : s.cwd ≡ text_in ms (codes "cwd")
  pub kind : s.kind ≡ text_in ms (codes "kind")
  pub status : s.status ≡ text_in ms (codes "status")
  pub waiting_for : s.waiting_for ≡ text_in ms (codes "waitingFor")
  pub entrypoint : s.entrypoint ≡ text_in ms (codes "entrypoint")
  pub agent : s.agent ≡ text_in ms (codes "agent")
  pub job_id : s.job_id ≡ text_in ms (codes "jobId")
  pub log_path : s.log_path ≡ text_in ms (codes "logPath")
  pub tmux : s.tmux ≡ text_in ms (codes "tmux")
  pub proc_start : s.proc_start ≡ text_in ms (codes "procStart")
  pub peer_protocol : s.peer_protocol ≡ int_value os (last_value (codes "peerProtocol") ms)
  pub started_at : s.started_at ≡ time_in ms (codes "startedAt")
  pub updated_at : s.updated_at ≡ time_in ms (codes "updatedAt")
  pub status_updated_at : s.status_updated_at ≡ time_in ms (codes "statusUpdatedAt")

session_of-Describes :
    (os : Os) (path : Bytes) (pid : ℕ) (raw : Fields) (ms : Members)
    → ((k : Bytes) → lookup k raw ≡ last_value k ms)
    → Describes os ms (session_of os path pid raw)
unfolding session_of str int_of epoch_ms
session_of-Describes os path pid raw ms h = record {
  session_id = ap text_of (h (codes "sessionId"));
  socket_path = ap text_of (h (codes "messagingSocketPath"));
  name = ap text_of (h (codes "name"));
  name_source = ap text_of (h (codes "nameSource"));
  cwd = ap text_of (h (codes "cwd"));
  kind = ap text_of (h (codes "kind"));
  status = ap text_of (h (codes "status"));
  waiting_for = ap text_of (h (codes "waitingFor"));
  entrypoint = ap text_of (h (codes "entrypoint"));
  agent = ap text_of (h (codes "agent"));
  job_id = ap text_of (h (codes "jobId"));
  log_path = ap text_of (h (codes "logPath"));
  tmux = ap text_of (h (codes "tmux"));
  proc_start = ap text_of (h (codes "procStart"));
  peer_protocol = ap (int_value os) (h (codes "peerProtocol"));
  started_at = ap time_value (h (codes "startedAt"));
  updated_at = ap time_value (h (codes "updatedAt"));
  status_updated_at = ap time_value (h (codes "statusUpdatedAt"));
}

unmarshal_map-object_tokens :
    (convert : Bytes → Option Number) (s : Bytes) (ms : Members)
    → tokens 0 s ≡ some (object_tokens ms)
    → AreScalars convert ms
    → unmarshal_map convert s ≡ some (as_map (fields_of ms))
unfolding unmarshal_map
unmarshal_map-object_tokens convert s ms t h =
    ap map_value (read_json-object_tokens convert s ms t h)

-- From a file that can be read and is a JSON text of an object of scalars, readSessionFile gives the
-- session that its members describe.
pub read_session_file-Describes :
    (os : Os) (path : Bytes) (pid : ℕ) {s : Bytes} (ms : Members)
    → read_small_file os path max_registry_file_bytes ≡ ok s
    → tokens 0 s ≡ some (object_tokens ms)
    → AreScalars os.parse_float ms
    → (e : Session) × (read_session_file os path pid ≡ ok e) × (e.pid ≡ pid) × Describes os ms e
unfolding read_session_file
read_session_file-Describes os path pid {s} ms r t h = (
  session_of os path pid (as_map (fields_of ms)),
  rw (r, ◌>>=◌) (rw (unmarshal_map-object_tokens os.parse_float s ms t h) refl),
  unfold session_of in refl,
  session_of-Describes os path pid (as_map (fields_of ms)) ms
      (λ k. lookup-as_map os.parse_float k ms h),
)
