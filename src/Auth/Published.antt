-- ===== src/Auth/Published.antt =====
-- The token in a key file that a session published is the one that `LookupToken` gives.
use claude_code_socket_trans.Json.{text}
use claude_code_socket_trans.Json.Tokens.{tokens}
use claude_code_socket_trans.Utf8.{decode_rune}
use claude_code_socket_trans.Session.{read_small_file}
use claude_code_socket_trans.Os.{Os}
use claude_code_socket_trans.Json.Members.{
  fields_of, last_named, Texts, named, object_tokens, unmarshal_struct-texts, texts,
}
use claude_code_socket_trans.Json.Structs.{assign_all, names_field, fold_name, assign_more}
use claude_code_socket_trans.Auth.{
  hex_then, set_key_file, read_key_file, is_lower_hex, names_field, Os, KeyFile, read_small_file,
  max_key_file_bytes, unmarshal_key_file, is_peer_token,
}
use claude_code_socket_trans.Base.{
  ℕ, Bytes, ◌≤◌, length, ◌⊎◌, ◌≡◌, [], All, true, bytes_dec, ◌↔◌, codes, some, ◌∷◌, arith, ap, ok,
  suc, ◌∙◌, zero, refl, is-cases, inl, inr, Bool-cases, sym, ok_injective,
}

-- A well-formed token: 32 digits of lower-case hexadecimal.
abbrev pub IsLowerHex : ℕ → Type 0
IsLowerHex c = ((b'0' ≤ c) × (c ≤ b'9')) ⊎ ((b'a' ≤ c) × (c ≤ b'f'))

abbrev pub IsToken : Bytes → Type 0
IsToken token = (length token ≡ 32) × All IsLowerHex token

is_lower_hex_iff : (c : ℕ) → (is_lower_hex c ≡ true) ↔ IsLowerHex c
unfolding is_lower_hex
is_lower_hex_iff c = (λ h. ground arith, λ h. ground arith)

hex_then-All : (n : ℕ) (s : Bytes) → (hex_then n [] s ≡ true) ↔ ((length s ≡ n) × All IsLowerHex s)
unfolding hex_then bytes_dec
hex_then-All zero [] = (λ _. (refl, tt), λ _. refl)
hex_then-All zero (c ∷ s) = (λ h. absurd (ground arith), λ (l, _). absurd (omega arith))
hex_then-All (suc n) [] = (λ h. absurd (ground arith), λ (l, _). absurd (omega arith))
hex_then-All (suc n) (c ∷ s) =
    let (to, from) = hex_then-All n s in
    let (digit, shown) = is_lower_hex_iff c in
    (
      λ h. elim (Bool-cases (is_lower_hex c)) [
        | inl b ↦ let (l, hs) = to (ground arith) in (ap suc l, (digit b, hs))
        | inr b ↦ absurd (ground arith)
      ],
      λ (l, (h, hs)). let b = shown h in let more = from (omega arith, hs) in ground arith,
    )

set_key_file-text :
    (k s : Bytes) (kf : KeyFile)
    → set_key_file k (text s) kf
      ≡ some (record {
        peer_token = last_named (codes "peerToken") ((k, s) ∷ []) kf.peer_token;
        proc_start = last_named (codes "procStart") ((k, s) ∷ []) kf.proc_start;
      })
unfolding set_key_file names_field last_named bytes_dec fold_name decode_rune
set_key_file-text k s kf = elim (is-cases (fold_name 0 k) (fold_name 0 (codes "peerToken"))) [
  | inl (_, e) ↦ rw e refl
  | inr (b, _) ↦ rw b (elim (is-cases (fold_name 0 k) (fold_name 0 (codes "procStart"))) [
    | inl (_, e) ↦ rw e refl
    | inr (b, _) ↦ rw b refl
  ])
]

abbrev pub key_of : Texts → KeyFile → KeyFile
key_of ms kf = record {
  peer_token = last_named (codes "peerToken") ms kf.peer_token;
  proc_start = last_named (codes "procStart") ms kf.proc_start;
}

assign_all-key_of :
    (ms : Texts) (kf : KeyFile)
    → assign_all set_key_file (fields_of (texts ms)) kf ≡ some (key_of ms kf)
unfolding assign_all fields_of texts last_named
assign_all-key_of [] kf = refl
assign_all-key_of ((k, s) ∷ ms) kf =
    ap (assign_more set_key_file (assign_all set_key_file (fields_of (texts ms))))
      (set_key_file-text k s kf)
    ∙ assign_all-key_of ms (key_of ((k, s) ∷ []) kf)

-- What a key file says: its members of these names.
abbrev pub published : Texts → KeyFile
published ms = record {
  peer_token = named (codes "peerToken") ms;
  proc_start = named (codes "procStart") ms;
}

unmarshal_key_file-published :
    (s : Bytes) (ms : Texts)
    → tokens 0 s ≡ some (object_tokens (texts ms))
    → unmarshal_key_file s ≡ some (published ms)
unfolding unmarshal_key_file
unmarshal_key_file-published s ms t =
    unmarshal_struct-texts set_key_file _ s ms t ∙ assign_all-key_of ms _

is_peer_token_iff : (s : Bytes) → (is_peer_token s ≡ true) ↔ IsToken s
unfolding is_peer_token
is_peer_token_iff s = hex_then-All 32 s

-- readKeyFile gives a key from a file that it can read, and that is a JSON text of an object of
-- strings, exactly if the last member named peerToken is a token of 32 digits, and then it gives
-- this token and the last procStart.
pub read_key_file_iff :
    (os : Os) (path s : Bytes) (ms : Texts) (kf : KeyFile)
    → read_small_file os path max_key_file_bytes ≡ ok s
    → tokens 0 s ≡ some (object_tokens (texts ms))
    → (read_key_file os path ≡ ok kf)
      ↔ ((kf ≡ published ms) × IsToken (named (codes "peerToken") ms))
unfolding read_key_file
read_key_file_iff os path s ms kf r t = rw r (
    rw (unmarshal_key_file-published s ms t) (elim (Bool-cases (is_peer_token token)) [
      | inl b ↦
          rw b (λ h. (sym (ok_injective h), (is_peer_token_iff token).0 b), λ (e, _). ap ok (sym e))
      | inr b ↦ rw b (
        λ h. absurd (ground arith),
        λ (_, h). let t = (is_peer_token_iff token).1 h in absurd (ground arith),
      )
    ]))
  where
    token : Bytes
    token = named (codes "peerToken") ms
