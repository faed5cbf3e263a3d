-- ===== src/Examples/Commands.antt =====
-- Runs of the command line on the example machine.
use claude_code_socket_trans.Cli.Handed.{OfMessage}
use claude_code_socket_trans.Cli.Given.{last_given, AreGiven}
use claude_code_socket_trans.Cli.Deadline.{
  Tick, passed, wait_for, passes, comes, turns_to_deadline, turns_to_channel, coming, wait_for-ends,
}
use claude_code_socket_trans.Json.{append_field}
use claude_code_socket_trans.Json.Strings.{string_body, string_piece}
use claude_code_socket_trans.Json.Tokens.{tokens, token_at}
use claude_code_socket_trans.Json.Reader.{read_json, step}
use claude_code_socket_trans.Json.Structs.{unmarshal_map, as_map, has_field}
use claude_code_socket_trans.Json.Reader
use claude_code_socket_trans.Cli.Exits.{EndedBy, run-Says}
use claude_code_socket_trans.Message.Envelope.{
  drop_breaking, wrap_envelope, attributes, quote, quote_from, quote_rune, is_print, escape_body,
  replace_all, sanitize_name, drop_breaking, limit_name,
}
use claude_code_socket_trans.Addr.{address, encode, addr_safe, valid_address, valid_from}
use claude_code_socket_trans.Message.Uuid.{new_uuid}
use claude_code_socket_trans.Wire.{
  marshal_user, json_string, json_from, json_ascii, marshal_payload, optional,
}
use claude_code_socket_trans.Message.Frame.{frame, resolve_priority, resolve_msg_id, content_of}
use claude_code_socket_trans.Find.{first_with_pid, find_by_pid, first_with_pid}
use claude_code_socket_trans.Cli.Run.{code_of, run}
use claude_code_socket_trans.Cli.Words.{send_cmd-written_flags, IsWritten}
use claude_code_socket_trans.Utf8.{
  trim_space, trim_left, trim_right, is_space, decode_rune, drop_controls,
}
use claude_code_socket_trans.Inbox.Binding.{listen_iff}
use claude_code_socket_trans.Filepath.{is_abs}
use claude_code_socket_trans.Decimal.{atoi, itoa}
use claude_code_socket_trans.Registry.{
  list_sessions, read_entries, registry_pid, sort, insert, pid_json,
}
use claude_code_socket_trans.Inbox.Listen.{inbox_path, listen, bind_socket, with_tight_umask}
use claude_code_socket_trans.Examples.Listens.{open_binding, private_dir}
use claude_code_socket_trans.Paths.{
  default_socket_path, sessions_dir, config_dir, ensure_socket_dir, check_socket_dir_ownership,
}
use claude_code_socket_trans.Session.{read_session_file, probe, session_of}
use claude_code_socket_trans.Base.{pos, ◌<◌}
use claude_code_socket_trans.Client.{
  timeout_of, self_socket_path, send, send_to_socket, stamp, write_frame, transmit, after_write,
  finish, resolve_token, timeout_of, line_of,
}
use claude_code_socket_trans.Examples.Machine.{
  quiet_machine, bytes_below, open_net, bytes_below-AllBytes,
}
use claude_code_socket_trans.Base.{
  List, Bytes, ◌∷◌, codes, [], length, some, All, bytes_dec, ◌++◌, ◌+◌, ◌≢◌, AllBytes, ◌≡◌, ◌≤◌,
  arith, ok, refl,
}
use claude_code_socket_trans.Filepath
use claude_code_socket_trans.Base.{has_prefix, split}
use claude_code_socket_trans.Cli.Flags.{
  Numerals, parse, argument, named_argument, cut_value, parse_bool,
}
use claude_code_socket_trans.Cli.Receipts.{
  wait, Happening, arrives, receives, expires, offer, ended, still_waiting, denied_or_expired,
  channel_size, exit_code, status_held, timed_out,
}
use claude_code_socket_trans.Cli.Arguments.{
  Assigns, none_left, one_more, text, written_flags, IsTail,
}
use claude_code_socket_trans.Cli.Waiting.{wait-Judges, Judges, IsHeld}
use claude_code_socket_trans.Cli.Fifo.{wait-IsPartOf, wait_lossless, IsPartOf, arrivals, kept}
use claude_code_socket_trans.Cli.Released.{send_cmd-IsReleased, IsReleased}
use claude_code_socket_trans.Cli.Replies.{send_cmd-IsAddressed, IsAddressed}
use claude_code_socket_trans.Cli.Send.{
  send_cmd, send_flags, send_defaults, send_is_bool, send_assign, with_reply, join_words, from_flag,
  dispatched, deliver, or_self, find_by_int, SendFlags,
}
use claude_code_socket_trans.Inbox.Reading.{Receipt}

abbrev receipt : Bytes → Receipt
receipt status = record { status = status; orig_msg_id = codes "m1"; from = []; reason = [] }

abbrev happenings : List Happening
happenings =
    arrives (receipt (codes "held"))
    ∷ receives
    ∷ arrives (receipt (codes "denied"))
    ∷ receives
    ∷ expires
    ∷ []

denial : (wait [] happenings).outcome ≡ ended (some (denied_or_expired (codes "denied")))
unfolding wait offer bytes_dec
denial = refl

wait-Judges_example : Judges (wait [] happenings).outcome (wait [] happenings).received
wait-Judges_example = wait-Judges [] happenings

wait-IsPartOf_example : IsPartOf (kept (wait [] happenings)) ([] ++ arrivals happenings)
wait-IsPartOf_example = wait-IsPartOf [] happenings

few_arrivals : length {A = Receipt} [] + length (arrivals happenings) ≤ channel_size
unfolding arrivals
few_arrivals = omega arith

wait_lossless_example :
    (rest : List Receipt) × ([] ++ arrivals happenings ≡ (wait [] happenings).received ++ rest)
wait_lossless_example = wait_lossless [] happenings few_arrivals

abbrev numerals : Numerals
numerals = record { parse_int = λ s. some (pos 12); parse_duration = λ s. some (pos 30) }

abbrev arguments : List Bytes
arguments = codes "--pid=12" ∷ codes "--wait-receipt=30s" ∷ codes "--no-auth" ∷ codes "hello" ∷ []

send_cmd-IsReleased_example :
    IsReleased
      (send_cmd quiet_machine open_net numerals open_binding happenings arguments).failure
      (send_cmd quiet_machine open_net numerals open_binding happenings arguments).acts
send_cmd-IsReleased_example =
    send_cmd-IsReleased quiet_machine open_net numerals open_binding happenings arguments

self_bytes : AllBytes (self_socket_path quiet_machine)
unfolding self_socket_path
self_bytes = tt

inbox_bytes : AllBytes (inbox_path quiet_machine)
unfolding bytes_below default_socket_path Filepath.is_abs has_prefix Filepath.clean Filepath.spell
    Filepath.push_all split Filepath.push
inbox_bytes = bytes_below-AllBytes (inbox_path quiet_machine) refl

argument_bytes : All AllBytes arguments
argument_bytes = omega arith

send_cmd-IsAddressed_example :
    All IsAddressed
      (send_cmd quiet_machine open_net numerals open_binding happenings arguments).acts
send_cmd-IsAddressed_example =
    send_cmd-IsAddressed quiet_machine open_net self_bytes inbox_bytes numerals open_binding
      happenings arguments argument_bytes

-- The flag behind the text is text.
abbrev late_flag : List Bytes
late_flag = codes "hello" ∷ codes "--wait-receipt" ∷ codes "30s" ∷ []

-- Of two names the last counts.
abbrev given_flags : List (Bytes × Bytes)
given_flags =
    (codes "name-as", codes "a") ∷ (codes "pid", codes "12") ∷ (codes "name-as", codes "b") ∷ []

abbrev named_a : SendFlags
named_a = record send_defaults { name_as = codes "a" }

abbrev given_values : SendFlags
given_values = record send_defaults { pid = pos 12; name_as = codes "b" }

flags_given : Assigns (send_flags numerals) given_flags send_defaults given_values
unfolding send_is_bool send_assign bytes_dec send_defaults
flags_given = one_more {t = named_a} (omega arith) refl refl (
    one_more {t = record named_a { pid = pos 12 }} (omega arith) refl refl
      (one_more {t = given_values} (omega arith) refl refl none_left))

hello_text : IsTail late_flag late_flag
unfolding argument
hello_text = text (codes "hello") (codes "--wait-receipt" ∷ codes "30s" ∷ []) refl

late_text : trim_space (join_words late_flag) ≢ []
unfolding trim_space join_words
late_text = λ e. cc

send_cmd-written_flags_example :
    AreGiven numerals (last_given given_flags) given_values
    × (send_cmd quiet_machine open_net numerals open_binding happenings
          (written_flags given_flags late_flag)
        ≡ with_reply quiet_machine open_net open_binding happenings given_values
            (trim_space (join_words late_flag))
            (from_flag given_values.from))
    × All
        (OfMessage (IsWritten given_flags (trim_space (join_words late_flag))))
        (send_cmd quiet_machine open_net numerals open_binding happenings
          (written_flags given_flags late_flag)).acts
send_cmd-written_flags_example =
    send_cmd-written_flags quiet_machine open_net numerals open_binding happenings flags_given
      hello_text late_text

-- The inbox of the runs is bound.
bound_inbox : (listen quiet_machine open_binding).result ≡ ok (inbox_path quiet_machine)
unfolding probe
bound_inbox = (listen_iff quiet_machine open_binding (inbox_path quiet_machine)).1 (
  refl,
  refl,
  (
    private_dir,
    refl,
    record { on_unix = λ e. cc; is_dir = refl; known = refl; owned = refl; closed = refl },
  ),
  refl,
  refl,
  refl,
)

denied_code :
    code_of
      (run quiet_machine open_net numerals open_binding happenings
        (codes "send" ∷ arguments)).outcome
    ≡ some 2
unfolding unmarshal_map read_json Reader.run step tokens token_at string_body string_piece as_map
    has_field append_field run exit_code send_cmd parse argument named_argument cut_value
    send_is_bool send_assign send_defaults parse_bool trim_space trim_left trim_right is_space
    join_words from_flag listen ensure_socket_dir check_socket_dir_ownership probe bind_socket
    with_tight_umask dispatched deliver or_self find_by_int find_by_pid first_with_pid list_sessions
    sessions_dir config_dir read_entries registry_pid read_session_file sort insert pid_json atoi
    itoa Filepath.join Filepath.clean is_abs has_prefix Filepath.spell Filepath.push_all split
    Filepath.push session_of send send_to_socket stamp frame resolve_priority resolve_msg_id
    content_of write_frame transmit after_write finish resolve_token timeout_of line_of marshal_user
    json_string json_from json_ascii decode_rune marshal_payload optional bytes_dec new_uuid wait
    offer address encode addr_safe default_socket_path valid_address valid_from wrap_envelope
    attributes quote quote_from quote_rune is_print escape_body replace_all sanitize_name
    drop_breaking drop_controls limit_name
denied_code = refl

run-Says_example :
    (status : Bytes) × EndedBy
      (denied_or_expired status)
      (run quiet_machine open_net numerals open_binding happenings
        (codes "send" ∷ arguments)).report
run-Says_example =
    run-Says quiet_machine open_net numerals open_binding happenings (codes "send" ∷ arguments) 2
      denied_code

-- A held receipt, before and after the deadline of ten nanoseconds.
abbrev held_receipt : Receipt
held_receipt = record { status = status_held; orig_msg_id = []; from = []; reason = [] }

abbrev ticks : List Tick
ticks = passes 4 ∷ comes held_receipt ∷ turns_to_deadline ∷ turns_to_channel ∷ passes 6 ∷ []

four_passed : passed (passes 4 ∷ comes held_receipt ∷ turns_to_deadline ∷ []) < 10
unfolding passed
four_passed = omega arith

ten_passed : 10 ≤ passed ticks
unfolding passed
ten_passed = omega arith

wait_for-ends_example :
    ((wait_for 10 (passes 4 ∷ comes held_receipt ∷ turns_to_deadline ∷ [])).outcome
      ≢ ended (some timed_out))
    × ((wait_for 10 (ticks ++ (turns_to_deadline ∷ []))).outcome ≢ still_waiting)
    × (All IsHeld (coming ticks)
        → (wait_for 10 (ticks ++ (turns_to_deadline ∷ []))).outcome ≡ ended (some timed_out))
wait_for-ends_example =
    wait_for-ends 10 (passes 4 ∷ comes held_receipt ∷ turns_to_deadline ∷ []) ticks [] four_passed
      ten_passed
