-- ===== src/Examples/Machine.antt =====
-- A machine with one session, PID 12, in its registry.
use claude_code_socket_trans.Json.Strings.{string_body, string_piece}
use claude_code_socket_trans.Json.Tokens.{tokens, token_at}
use claude_code_socket_trans.Json.Reader.{read_json, run, step}
use claude_code_socket_trans.Json.Structs.{unmarshal_map, as_map, has_field}
use claude_code_socket_trans.Json.{Number, Fields, field, text, no_fields, append_field, Number}
use claude_code_socket_trans.Base.{
  ℕ, Bool, List, Bytes, codes, AllBytes, ltb, ◌&&◌, ◌≡◌, true, [], ◌∷◌, suc, some, false, arith,
  none, zero, ◌++◌, bytes_dec, Option, refl, pos,
}
use claude_code_socket_trans.Os.{Os, File}
use claude_code_socket_trans.Os.{linux, names, delivered}
use claude_code_socket_trans.Session.{Session, session_of}
use claude_code_socket_trans.Client.{Client, Net, unix_conn}

abbrev pub zeros : ℕ → Bytes
zeros zero = []
zeros (suc n) = 0 ∷ zeros n

abbrev pub registry_fields : Fields
registry_fields = field (codes "sessionId") (text (codes "s1")) (
    field (codes "name") (text (codes "api")) (
      field (codes "messagingSocketPath") (text (codes "/a.sock"))
        (field (codes "procStart") (text (codes "77")) no_fields)))

abbrev pub registry_text : Bytes
registry_text =
    codes "{\"sessionId\":\"s1\",\"name\":\"api\","
    ++ codes "\"messagingSocketPath\":\"/a.sock\",\"procStart\":\"77\"}"

abbrev pub small_file : File
small_file = record { stat = some (true, 78); contents = some registry_text }

abbrev pub sessions : Bytes
sessions = codes "/h/.claude/sessions"

abbrev pub listing : List Bytes
listing = codes "12.json" ∷ codes "notes" ∷ []

abbrev pub machine : Os
machine = record {
  platform = linux;
  getenv = λ k. [];
  home_dir = some (codes "/h");
  working_dir = some (codes "/w");
  temp_dir = codes "/tmp";
  uid = 1000;
  pid = 40;
  random = some (zeros 16);
  is_print_wide = λ r. true;
  sha256 = λ s. zeros 32;
  read_dir = λ d. names listing;
  open_no_follow = λ p. some small_file;
  kill = λ p. delivered;
  open_process = λ p. true;
  proc_stat = λ p. none;
  ps_lstart = λ p. none;
  accepts = λ p t. true;
  parse_float = λ s. none;
  wide_int = λ v. pos 0;
}

-- The same machine where no socket accepts connections yet.
abbrev pub quiet_machine : Os
quiet_machine = record machine { accepts = λ p t. false }

abbrev pub api : Session
api = session_of machine (codes "/h/.claude/sessions/12.json") 12 registry_fields

abbrev pub client : Client
client = record { timeout = 0; probe_timeout = 0; token = codes "t"; no_auth = false }

-- Every step on the connection succeeds.
abbrev pub open_net : Net
open_net = record {
  dial = λ p t. unix_conn;
  write_ok = λ p s. true;
  wait_cancelled = λ p. false;
  close_write_ok = λ p. true;
  drain_ok = λ p. true;
}

unfoldable pub bytes_below : Bytes → Bool
bytes_below [] = true
bytes_below (c ∷ s) = ltb c 256 && bytes_below s

pub bytes_below-AllBytes : (s : Bytes) → bytes_below s ≡ true → AllBytes s
unfolding bytes_below
bytes_below-AllBytes [] h = tt
bytes_below-AllBytes (c ∷ s) h = ground (arith, bytes_below-AllBytes s)

pub registry_decoded :
    (parse_float : Bytes → Option Number)
    → unmarshal_map parse_float registry_text ≡ some registry_fields
unfolding unmarshal_map read_json run step tokens token_at string_body string_piece as_map has_field
    append_field bytes_dec
registry_decoded parse_float = refl
