-- ===== src/Cli/Rows.antt =====
-- The rows of `listCmd`.
use claude_code_socket_trans.Registry.{list_sessions}
use claude_code_socket_trans.Cli.Flags.{parse}
use claude_code_socket_trans.Find.{select}
use claude_code_socket_trans.Base.{Bool, List, ◌∷◌, ◌||◌, ◌≡◌, ap, false, [], refl, true, Bytes, ok}
use claude_code_socket_trans.Session.{Session, reachable}
use claude_code_socket_trans.Cli.Listing.{
  rows, probes, row_of, list_cmd, ListFlags, list_flags, shown_as,
}
use claude_code_socket_trans.Os.{Os}
use mathlib.Core.List.{map}

-- The sessions with a row.
unfoldable pub shown : Os → Bool → List Session → List Session
shown os all = select (λ s. reachable os s 300_000_000 || all)

-- A row for every shown session, in order, marked as it was probed.
rows_lem :
    (os : Os) (all : Bool) (ss : List Session)
    → rows all ss (probes os ss)
      ≡ map (λ s. row_of s (reachable os s 300_000_000)) (shown os all ss)
unfolding rows probes shown select
rows_lem os all [] = refl
rows_lem os all (s ∷ ss) = by_test (reachable os s 300_000_000) refl all (rows_lem os all ss)
  where
    by_test :
        (live : Bool)
        → reachable os s 300_000_000 ≡ live
        → (every : Bool)
        → rows every ss (probes os ss)
          ≡ map (λ s. row_of s (reachable os s 300_000_000)) (shown os every ss)
        → rows every (s ∷ ss) (probes os (s ∷ ss))
          ≡ map (λ s. row_of s (reachable os s 300_000_000)) (shown os every (s ∷ ss))
    by_test true e every h = rw e (rw e (ap (◌∷◌ (row_of s true)) h))
    by_test false e true h = rw e (rw e (ap (◌∷◌ (row_of s false)) h))
    by_test false e false h = rw e h

-- If the flags of listCmd parse and ListSessions succeeds, the rows that it shows, as JSON or in
-- the table, are those of the sessions that are reachable, or of all with --all, in the order of
-- the listing and marked as their probe within 300 milliseconds came out.
pub list_cmd_lem :
    (os : Os) (args : List Bytes) (f : ListFlags) (words : List Bytes) (ss : List Session)
    → parse list_flags (record { as_json = false; all = false }) args ≡ ok (f, words)
    → list_sessions os ≡ ok ss
    → list_cmd os args
      ≡ ok (
          shown_as f.as_json (map (λ s. row_of s (reachable os s 300_000_000)) (shown os f.all ss)))
unfolding list_cmd
list_cmd_lem os args f words ss p q =
    rw p (rw q (ap (λ rs. ok (shown_as f.as_json rs)) (rows_lem os f.all ss)))
