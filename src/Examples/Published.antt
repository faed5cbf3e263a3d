-- ===== src/Examples/Published.antt =====
-- What sessions publish, and what is found of it.
use claude_code_socket_trans.Auth.Best.{candidates}
use claude_code_socket_trans.Auth.Found.{lookup_token-published}
use claude_code_socket_trans.ProcStart.{process_start_token, linux_token, token_of_stat, after_last}
use claude_code_socket_trans.Examples.Lookups.{inbox, zeros-AllBytes}
use claude_code_socket_trans.Auth.Published.{IsToken}
use claude_code_socket_trans.Auth.{
  key_file_suffix, key_file_name, max_key_file_bytes, rank_key_owner, lookup_token,
}
use claude_code_socket_trans.Find.Published.{find_by_pid-published}
use claude_code_socket_trans.Session.Published.{Describes}
use claude_code_socket_trans.Decimal.{itoa, span_digits, is_digit}
use claude_code_socket_trans.Registry.Listed.{entry_file}
use claude_code_socket_trans.Find.{find_by_pid}
use claude_code_socket_trans.Examples.Machine.{zeros, machine, sessions}
use claude_code_socket_trans.Session.{
  read_small_file, Session, read_opened, max_registry_file_bytes, process_alive,
}
use claude_code_socket_trans.Paths.{sessions_dir, config_dir, canonical_socket_path, has_dotdot}
use claude_code_socket_trans.Os.{File, Os, names}
use claude_code_socket_trans.Message.Uuid.{hex_encode}
use claude_code_socket_trans.Json.{Number, text, null, number, boolean}
use claude_code_socket_trans.Filepath.{is_abs}
use claude_code_socket_trans.Base.{
  has_prefix, split, false, true, if◌then◌else◌, ok, ◌is◌, inr, inl, Has, All, ◌<◌,
}
use claude_code_socket_trans.Cli.Receipts.{wait, receives}
use claude_code_socket_trans.Utf8.{decode_rune}
use claude_code_socket_trans.Json.Strings.{string_body, string_piece}
use claude_code_socket_trans.Inbox.Reading.{handle, on_receipt}
use claude_code_socket_trans.Cli.Answers.{Settles, receipts_only, arriving, wait-status}
use claude_code_socket_trans.Inbox.Statuses.{IsStatus, receipt_of, NoMessage, handle-receipt}
use claude_code_socket_trans.Json.Structs.{names_field, fold_name}
use claude_code_socket_trans.Inbox.Framing.{IsFrameLine}
use claude_code_socket_trans.Json.Tokens.{
  tokens, token_at, is_number_byte, string, number_front, is_number, literal, is_unsigned, numeral,
}
use claude_code_socket_trans.Json.Members.{
  Texts, last_named, texts, more_tokens, object_tokens, Members, named,
}
use claude_code_socket_trans.Base.{Bytes, codes, arith, ◌++◌, ◌∷◌, [], bytes_dec, ◌≡◌, refl, some}
use claude_code_socket_trans.Filepath

-- A status frame as a receiver writes it, with blanks, and with a name in capitals.
abbrev status_line : Bytes
status_line =
    codes "{ \"type\":\"control\", \"action\": \"peer_message_status\",\"Status\":\"denied\","
    ++ codes "\"orig_msg_id\":\"m1\",\"from\":\"uds:/a.sock\",\"reason\":\"busy\" }"

abbrev status_members : Texts
status_members =
    (codes "type", codes "control")
    ∷ (codes "action", codes "peer_message_status")
    ∷ (codes "Status", codes "denied")
    ∷ (codes "orig_msg_id", codes "m1")
    ∷ (codes "from", codes "uds:/a.sock")
    ∷ (codes "reason", codes "busy")
    ∷ []

status_tokens : tokens 0 status_line ≡ some (object_tokens (texts status_members))
unfolding tokens token_at string_body string_piece texts more_tokens
status_tokens = refl

status-IsFrameLine : IsFrameLine status_line
status-IsFrameLine = record { one_line = omega arith; not_empty = λ e. cc; fits = omega arith }

status-NoMessage : NoMessage status_members
unfolding names_field fold_name decode_rune bytes_dec
status-NoMessage = (refl, (refl, (refl, (refl, (refl, (refl, tt))))))

line-IsStatus : IsStatus status_members
unfolding last_named names_field fold_name decode_rune bytes_dec
line-IsStatus = (refl, refl)

handle-receipt_example :
    (IsStatus status_members
      → handle receipts_only (status_line ++ (b'\n' ∷ []))
        ≡ on_receipt (receipt_of status_members) ∷ [])
    × (¬ (IsStatus status_members) → handle receipts_only (status_line ++ (b'\n' ∷ [])) ≡ [])
handle-receipt_example =
    handle-receipt receipts_only status_line status_members status-IsFrameLine status_tokens
      status-NoMessage refl

wait-status_example :
    Settles
      (receipt_of status_members)
      (wait [] [])
      (wait [] (arriving (status_line ++ (b'\n' ∷ [])) ++ (receives ∷ [])))
wait-status_example =
    wait-status status_line status_members [] status-IsFrameLine status_tokens status-NoMessage
      line-IsStatus

abbrev key_text : Bytes
key_text = codes "{\"peerToken\":\"0123456789abcdef0123456789abcdef\",\n \"procStart\":\"77\"}"

abbrev pub key_members : Texts
key_members =
    (codes "peerToken", codes "0123456789abcdef0123456789abcdef")
    ∷ (codes "procStart", codes "77")
    ∷ []

abbrev entry_text : Bytes
entry_text =
    codes "{\"sessionId\":\"s1\",\"name\":null,\"startedAt\":1700,\"name\":\"api\","
    ++ codes "\"messagingSocketPath\":\"/a.sock\",\"background\":true}"

abbrev instant : Number
instant = record { negative = false; whole = 1700; fraction = false }

abbrev pub entry_members : Members
entry_members =
    record { name = codes "sessionId"; token = string (codes "s1"); value = text (codes "s1") }
    ∷ record { name = codes "name"; token = literal null; value = null }
    ∷ record { name = codes "startedAt"; token = numeral (codes "1700"); value = number instant }
    ∷ record { name = codes "name"; token = string (codes "api"); value = text (codes "api") }
    ∷ record {
      name = codes "messagingSocketPath";
      token = string (codes "/a.sock");
      value = text (codes "/a.sock");
    }
    ∷ record { name = codes "background"; token = literal (boolean true); value = boolean true }
    ∷ []

abbrev key_suffix : Bytes
key_suffix = codes "." ++ (hex_encode (zeros 32) ++ codes ".key")

-- The file `<pid>.json` with the entry, and every other path with the key.
abbrev file_of : Bytes → Bytes → File
file_of path entry = record {
  stat = some (true, 99);
  contents = some (if path is entry then entry_text else key_text);
}

abbrev pub publishing : Os
publishing = record machine {
  read_dir = λ d. names ((itoa 12 ++ key_suffix) ∷ codes "12.json" ∷ []);
  open_no_follow = λ p. some (file_of p (codes "/h/.claude/sessions/12.json"));
  proc_stat = λ p. some (codes "12 (c) S 1 2 3 4 5 6 7 8 9 10 11 12 13 14 15 16 17 18 77 20 21");
  parse_float = λ s. some instant;
}

pub sessions-found : sessions_dir publishing ≡ ok sessions
unfolding sessions_dir config_dir Filepath.clean is_abs has_prefix Filepath.spell Filepath.push_all
    split Filepath.push
sessions-found = refl

pub entry-tokens : tokens 0 entry_text ≡ some (object_tokens entry_members)
unfolding tokens token_at string_body string_piece more_tokens is_number_byte number_front is_number
    is_unsigned span_digits is_digit has_prefix
entry-tokens = refl

pub entry-read :
    read_small_file publishing (Filepath.join sessions (entry_file 12)) max_registry_file_bytes
    ≡ ok entry_text
unfolding read_small_file read_opened itoa Filepath.join Filepath.clean is_abs has_prefix
    Filepath.spell Filepath.push_all split Filepath.push bytes_dec
entry-read = refl

pub entry-listed : Has (entry_file 12) ((itoa 12 ++ key_suffix) ∷ codes "12.json" ∷ [])
unfolding itoa
entry-listed = inr (inl refl)

find_by_pid-published_example :
    (e : Session) × (find_by_pid publishing 12 ≡ ok e)
    × (e.pid ≡ 12)
    × Describes publishing entry_members e
find_by_pid-published_example =
    find_by_pid-published publishing 12 entry_members sessions-found refl entry-listed (omega arith)
      entry-read entry-tokens (refl, (refl, (refl, (refl, (refl, (refl, tt))))))

pub key-suffix : key_file_suffix publishing inbox ≡ ok key_suffix
unfolding key_file_suffix canonical_socket_path has_dotdot split is_abs has_prefix Filepath.clean
    Filepath.spell Filepath.push_all Filepath.push
key-suffix = refl

pub key-named : key_file_name publishing 12 inbox ≡ ok (itoa 12 ++ key_suffix)
unfolding key_file_name
key-named = rw key-suffix refl

pub key-tokens : tokens 0 key_text ≡ some (object_tokens (texts key_members))
unfolding tokens token_at string_body string_piece texts more_tokens
key-tokens = refl

abbrev key_path : Bytes
key_path = Filepath.join sessions (itoa 12 ++ key_suffix)

pub key-read : read_small_file publishing key_path max_key_file_bytes ≡ ok key_text
unfolding read_small_file read_opened itoa hex_encode Filepath.join Filepath.clean is_abs has_prefix
    Filepath.spell Filepath.push_all split Filepath.push bytes_dec
key-read = refl

pub key-IsToken : IsToken (named (codes "peerToken") key_members)
unfolding last_named names_field fold_name decode_rune bytes_dec
key-IsToken = (refl, omega arith)

pub key-rank : rank_key_owner publishing 12 (named (codes "procStart") key_members) ≡ 2
unfolding last_named names_field fold_name decode_rune bytes_dec rank_key_owner process_alive
    process_start_token linux_token token_of_stat after_last split
key-rank = refl

pub none-before : All (λ c. c.rank < 2) (candidates publishing sessions key_suffix [])
unfolding candidates
none-before = tt

lookup_token-published_example :
    lookup_token publishing inbox ≡ ok (named (codes "peerToken") key_members)
lookup_token-published_example =
    lookup_token-published publishing 12 inbox [] (codes "12.json" ∷ []) key_members
      (λ s. (refl, zeros-AllBytes)) (omega arith) sessions-found key-suffix key-named refl
      none-before key-read key-tokens key-IsToken key-rank
