-- ===== src/Cli/Receipts.antt =====
-- cmd/cc-send/main.go: the channel of receipts, and the loop of `sendCmd` that waits on it.
use claude_code_socket_trans.Base.{
  ℕ, List, Option, Bytes, ◌∷◌, Error, some, codes, if◌then◌else◌, ltb, ◌is◌, [], none, length, ◌||◌,
  ◌++◌,
}
use claude_code_socket_trans.Inbox.Reading.{Receipt}

-- An error of a command: any other, or an `exitError` with its exit code.
pub data Failure : Type 0 where
  plain : Error → Failure
  denied_or_expired : Bytes → Failure
  timed_out : Failure

-- The exit code of `main`.
unfoldable pub exit_code : Option Failure → ℕ
exit_code none = 0
exit_code (some (plain e)) = 1
exit_code (some (denied_or_expired status)) = 2
exit_code (some timed_out) = 3

-- The constants of type `ReceiptStatus`.
abbrev pub status_held : Bytes
status_held = codes "held"

abbrev pub status_denied : Bytes
status_denied = codes "denied"

abbrev pub status_expired : Bytes
status_expired = codes "expired"

abbrev pub status_delivered : Bytes
status_delivered = codes "delivered"

abbrev pub channel_size : ℕ
channel_size = 16

-- `OnReceipt`: a send into the channel that does not block, and drops the receipt where it is full.
unfoldable pub offer : Receipt → List Receipt → List Receipt
offer r channel = if ltb (length channel) channel_size then channel ++ (r ∷ []) else channel

-- What happens next: a receipt arrives at the inbox, the loop takes its turn at the channel, or it
-- takes its turn at the deadline.
pub data Happening : Type 0 where
  arrives : Receipt → Happening
  receives expires : Happening

-- Where the loop is at the end of what happened.
pub data Outcome : Type 0 where
  still_waiting : Outcome
  ended : Option Failure → Outcome

-- The outcome, the receipts that were received and printed, and those left in the channel.
pub record Waited : Type 0 where
  pub outcome : Outcome
  pub received : List Receipt
  pub channel : List Receipt

abbrev pub also_received : Receipt → Waited → Waited
also_received r w = record w { received = r ∷ w.received }

-- The switch over the status of a received receipt.
abbrev pub answered : Receipt → List Receipt → Waited → Waited
answered r channel next = also_received r (
    if r.status is status_held
    then next
    else if r.status is status_denied || r.status is status_expired
    then record {
      outcome = ended (some (denied_or_expired r.status));
      received = [];
      channel = channel;
    }
    else record { outcome = ended none; received = []; channel = channel })

unfoldable pub wait : List Receipt → List Happening → Waited
wait channel [] = record { outcome = still_waiting; received = []; channel = channel }
wait channel (arrives r ∷ hs) = wait (offer r channel) hs
wait [] (receives ∷ hs) = wait [] hs
wait (r ∷ channel) (receives ∷ hs) = answered r channel (wait channel hs)
wait channel (expires ∷ hs) = record {
  outcome = ended (some timed_out);
  received = [];
  channel = channel;
}
