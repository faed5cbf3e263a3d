-- ===== src/Auth.antt =====
-- auth.go: the inbox auth keys.
pub mod Rank
pub mod Best
pub mod Named
pub mod Published
pub mod Found
use claude_code_socket_trans.Json.Structs.{names_field, text_field, unmarshal_struct}
use claude_code_socket_trans.Json.{Json}
use mathlib.Core.Option
use claude_code_socket_trans.Base.{
  ℕ, Bool, Bytes, leb, Option, Result, ◌&&◌, ◌is◌, false, none, [], err, if◌then◌else◌, length,
  some, List, ok, ◌>>=◌, codes, ◌++◌, ◌||◌, suc, ◌∷◌, unparseable, drop, ltb, unreadable_dir, ◌==◌,
  no_token, not, ◌-◌, zero,
}
use claude_code_socket_trans.Os.{Os, Listing, missing, failed, names}
use claude_code_socket_trans.Session.{read_small_file, process_alive}
use claude_code_socket_trans.Paths.{sessions_dir, canonical_socket_path}
use claude_code_socket_trans.Decimal.{atoi, itoa, span_digits}
use claude_code_socket_trans.Message.Uuid.{hex_encode}
use claude_code_socket_trans.ProcStart.{process_start_token}
use claude_code_socket_trans.Filepath

abbrev pub max_key_file_bytes : ℕ
max_key_file_bytes = 4096

-- ".<sha256hex(canonical path)>.key"
unfoldable pub key_file_suffix : Os → Bytes → Result Bytes
key_file_suffix os path = do
  canonical ← canonical_socket_path os path
  ok (codes "." ++ (hex_encode (os.sha256 canonical) ++ codes ".key"))

unfoldable pub key_file_name : Os → ℕ → Bytes → Result Bytes
key_file_name os pid path = do suffix ← key_file_suffix os path; ok (itoa pid ++ suffix)

-- The class `[0-9a-f]`.
unfoldable pub is_lower_hex : ℕ → Bool
is_lower_hex c = (leb b'0' c && leb c b'9') || (leb b'a' c && leb c b'f')

-- `n` characters of the class, and then exactly `rest`.
unfoldable pub hex_then : ℕ → Bytes → Bytes → Bool
hex_then zero rest s = s is rest
hex_then (suc n) rest [] = false
hex_then (suc n) rest (c ∷ s) = is_lower_hex c && hex_then n rest s

abbrev pub hash_and_key : Bytes → Bool
hash_and_key [] = false
hash_and_key (c ∷ s) = c == b'.' && hex_then 64 (codes ".key") s

abbrev pub owner_digits : Bytes × Bytes → Option Bytes
owner_digits ([], rest) = none
owner_digits (d ∷ ds, rest) = if hash_and_key rest then some (d ∷ ds) else none

-- The submatch of `keyFileRe`, `^(\d+)\.[0-9a-f]{64}\.key$`.
unfoldable pub key_file_owner : Bytes → Option Bytes
key_file_owner name = owner_digits (span_digits name)

-- `peerTokenRe`, `^[0-9a-f]{32}$`.
unfoldable pub is_peer_token : Bytes → Bool
is_peer_token token = hex_then 32 [] token

pub record KeyFile : Type 0 where
  pub peer_token : Bytes
  pub proc_start : Bytes

-- The member `k` of a decoded key file.
unfoldable pub set_key_file : Bytes → Json → KeyFile → Option KeyFile
set_key_file k v kf =
    if names_field k (codes "peerToken")
    then Option.map (λ s. record kf { peer_token = s }) (text_field v kf.peer_token)
    else if names_field k (codes "procStart")
    then Option.map (λ s. record kf { proc_start = s }) (text_field v kf.proc_start)
    else some kf

unfoldable pub unmarshal_key_file : Bytes → Option KeyFile
unmarshal_key_file s = unmarshal_struct set_key_file (record { peer_token = []; proc_start = [] }) s

abbrev checked_key : Option KeyFile → Result KeyFile
checked_key none = err unparseable
checked_key (some kf) = if is_peer_token kf.peer_token then ok kf else err no_token

unfoldable pub read_key_file : Os → Bytes → Result KeyFile
read_key_file os path = do
  s ← read_small_file os path max_key_file_bytes
  checked_key (unmarshal_key_file s)

abbrev token_rank : Result Bytes → Bytes → ℕ
token_rank (err e) proc_start = 1
token_rank (ok actual) proc_start = if actual is proc_start then 2 else 0

unfoldable pub rank_key_owner : Os → ℕ → Bytes → ℕ
rank_key_owner os pid proc_start =
    if leb pid 1 || not (process_alive os pid)
    then 0
    else if proc_start is []
    then 1
    else token_rank (process_start_token os pid) proc_start

-- `strings.HasSuffix`
unfoldable pub has_suffix : Bytes → Bytes → Bool
has_suffix s suffix = leb (length suffix) (length s) && drop (length s - length suffix) s is suffix

-- A token with the rank of its owner: what one round of the loop weighs.
pub record Candidate : Type 0 where
  pub token : Bytes
  pub rank : ℕ

abbrev ranked : Os → ℕ → Result KeyFile → Option Candidate
ranked os pid (err e) = none
ranked os pid (ok kf) =
    some (record { token = kf.peer_token; rank = rank_key_owner os pid kf.proc_start })

abbrev owned : Os → Bytes → Option Bytes → Option Candidate
owned os path none = none
owned os path (some m) = elim (atoi m) [
  | none ↦ none
  | some pid ↦ ranked os pid (read_key_file os path)
]

-- The round for one name, up to the comparison; `none` is a `continue`.
unfoldable pub candidate : Os → Bytes → Bytes → Bytes → Option Candidate
candidate os dir suffix name =
    if has_suffix name suffix then owned os (Filepath.join dir name) (key_file_owner name) else none

-- The best so far; `none` is the empty token of rank -1.
abbrev pub better : Option Candidate → Candidate → Option Candidate
better none c = some c
better (some b) c = if ltb b.rank c.rank then some c else some b

abbrev pub weigh : Option Candidate → Option Candidate → Option Candidate
weigh best none = best
weigh best (some c) = better best c

-- The loop of `LookupToken` over the names of the directory.
unfoldable pub best_candidate :
    Os → Bytes → Bytes → List Bytes → Option Candidate → Option Candidate
best_candidate os dir suffix [] best = best
best_candidate os dir suffix (name ∷ more) best =
    best_candidate os dir suffix more (weigh best (candidate os dir suffix name))

abbrev pub token_of : Option Candidate → Bytes
token_of none = []
token_of (some c) = c.token

abbrev pub looked_up : Os → Bytes → Bytes → Listing → Result Bytes
looked_up os dir suffix missing = ok []
looked_up os dir suffix failed = err unreadable_dir
looked_up os dir suffix (names ns) = ok (token_of (best_candidate os dir suffix ns none))

unfoldable pub lookup_token : Os → Bytes → Result Bytes
lookup_token os path = do
  dir ← sessions_dir os
  suffix ← key_file_suffix os path
  looked_up os dir suffix (os.read_dir dir)
