-- ===== src/ProcStart.antt =====
-- procstart.go and the files procstart_*.go: the start token of a process.
pub mod Field
mod Tests
use claude_code_socket_trans.Base.{
  ℕ, Bool, Bytes, List, Option, bytes_dec, Result, none, ◌∷◌, get_elem?, err, some, if◌then◌else◌,
  short_stat, unparseable_stat, unreadable_stat, no_start_token, unsupported, [], ◌==◌, ok, ltb,
  ◌is◌, length, split,
}
use claude_code_socket_trans.Os.{Os, linux, darwin, other_unix, windows}
use claude_code_socket_trans.Utf8.{trim_space}

-- What stands behind the last `b`: `s[strings.LastIndex(s, b)+1:]`, and `none` for the index -1.
unfoldable pub after_last : ℕ → Bytes → Option Bytes
after_last b [] = none
after_last b (c ∷ s) = elim (after_last b s) [
  | some t ↦ some t
  | none ↦ if c == b then some s else none
]

abbrev pub field_of : List Bytes → Result Bytes
field_of fields = elim (get_elem? fields 19) [ none ↦ err short_stat | some f ↦ ok f ]

-- The index test `commEnd+2 > len(s)` says that nothing stands behind the parenthesis.
abbrev pub token_behind : Option Bytes → Result Bytes
token_behind none = err unparseable_stat
token_behind (some []) = err unparseable_stat
token_behind (some (c ∷ s)) =
    let fields = split b' ' s in if ltb (length fields) 20 then err short_stat else field_of fields

unfoldable pub token_of_stat : Bytes → Result Bytes
unfolding after_last split
token_of_stat s = token_behind (after_last b')' s)

unfoldable pub linux_token : Option Bytes → Result Bytes
unfolding token_of_stat
linux_token none = err unreadable_stat
linux_token (some s) = token_of_stat s

unfoldable pub darwin_token : Option Bytes → Result Bytes
unfolding trim_space bytes_dec
darwin_token none = err no_start_token
darwin_token (some out) =
    let token = trim_space out in if token is [] then err no_start_token else ok token

unfoldable pub process_start_token : Os → ℕ → Result Bytes
unfolding linux_token darwin_token
process_start_token os pid = elim os.platform [
  | linux ↦ linux_token (os.proc_stat pid)
  | darwin ↦ darwin_token (os.ps_lstart pid)
  | other_unix ↦ err unsupported
  | windows ↦ err unsupported
]
