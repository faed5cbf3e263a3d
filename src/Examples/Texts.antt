-- ===== src/Examples/Texts.antt =====
-- Addresses, names, numbers and identifiers.
use claude_code_socket_trans.Message.Length.{sanitize_name-IsTidy}
use claude_code_socket_trans.ProcStart.Field.{join_fields, token_of_stat_field}
use claude_code_socket_trans.Message.Envelope.{sanitize_name, max_from_name}
use claude_code_socket_trans.Message.Clean.{IsClean}
use claude_code_socket_trans.Message.Frame.{ControlFrame}
use claude_code_socket_trans.ProcStart.{token_of_stat}
use claude_code_socket_trans.Examples.Machine.{bytes_below, bytes_below-AllBytes, zeros}
use claude_code_socket_trans.Base.{
  ℕ, codes, AllBytes, ◌≡◌, ok, true, refl, [], Bytes, All, length, List, ◌↔◌, ◌∷◌, ◌++◌, ◌≤◌, suc,
  arith, zero, has_prefix,
}
use claude_code_socket_trans.Addr.{address, parse_address, valid_address, scheme}
use claude_code_socket_trans.Addr.RoundTrip.{parse_address-address, parse_address_normal}
use claude_code_socket_trans.Addr.Grammar.{valid_address_iff, IsEncoded}

abbrev spaced : Bytes
spaced = codes "/tmp/a b.sock"

spaced-AllBytes : AllBytes spaced
unfolding bytes_below
spaced-AllBytes = bytes_below-AllBytes spaced refl

abbrev uds_spaced : Bytes
uds_spaced = codes "uds:/tmp/a%20b.sock"

parse_address-address_example : parse_address (address spaced) ≡ ok spaced
parse_address-address_example = parse_address-address spaced spaced-AllBytes

valid_address_iff_example :
    (valid_address uds_spaced ≡ true) ↔ ((s : Bytes) × (uds_spaced ≡ scheme ++ s) × IsEncoded s)
valid_address_iff_example = valid_address_iff uds_spaced

zeros-AllBytes : AllBytes (zeros 16)
unfolding bytes_below
zeros-AllBytes = bytes_below-AllBytes (zeros 16) refl

abbrev stat_fields : ℕ → List Bytes
stat_fields zero = codes "1234" ∷ codes "0" ∷ []
stat_fields (suc n) = codes "S" ∷ stat_fields n

token_of_stat_field_example :
    token_of_stat (codes "7 (a) b" ++ (b')' ∷ b' ' ∷ join_fields (stat_fields 19)))
    ≡ ok (codes "1234")
token_of_stat_field_example =
    token_of_stat_field (codes "7 (a) b") (stat_fields 19) (codes "1234") (ground arith)
      (ground arith) (omega arith) refl

abbrev rename_frame : ControlFrame
rename_frame = record {
  msg_v = 1;
  msg_id = codes "m1";
  type = codes "control";
  action = codes "rename";
  name = codes "two\nlines";
  session_id = [];
}

sanitize_name-IsTidy_example :
    All IsClean (sanitize_name (codes "a\"<b>"))
    × (length (sanitize_name (codes "a\"<b>")) ≤ max_from_name)
sanitize_name-IsTidy_example = sanitize_name-IsTidy (codes "a\"<b>")

uds_spaced-parsed : parse_address uds_spaced ≡ ok spaced
unfolding parse_address has_prefix
uds_spaced-parsed = refl

uds_spaced-AllBytes : AllBytes uds_spaced
unfolding bytes_below
uds_spaced-AllBytes = bytes_below-AllBytes uds_spaced refl

parse_address_normal_example :
    (valid_address (address spaced) ≡ true) × (parse_address (address spaced) ≡ ok spaced)
parse_address_normal_example =
    parse_address_normal uds_spaced spaced uds_spaced-AllBytes uds_spaced-parsed
