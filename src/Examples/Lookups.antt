-- ===== src/Examples/Lookups.antt =====
-- The registry, key files and lookups of the example machine.
use claude_code_socket_trans.Registry.Precedes.{IsOrdered}
use claude_code_socket_trans.Json.{append_field}
use claude_code_socket_trans.Json.Strings.{string_body, string_piece}
use claude_code_socket_trans.Json.Tokens.{tokens, token_at}
use claude_code_socket_trans.Json.Reader.{read_json, step}
use claude_code_socket_trans.Json.Structs.{unmarshal_map, as_map, has_field}
use claude_code_socket_trans.Json.Reader
use claude_code_socket_trans.Find.Chosen.{IsChosen, find_by_key-IsChosen}
use claude_code_socket_trans.Registry.Unique.{listed-Reordered, swapped}
use claude_code_socket_trans.Os.{names}
use claude_code_socket_trans.Registry.Sorted.{list_sessions-IsOrdered}
use claude_code_socket_trans.Filepath.{slash, is_abs}
use claude_code_socket_trans.Paths.Bounds.{length-default_socket_path}
use claude_code_socket_trans.Registry.Listed.{entry_file, DistinctNames}
use claude_code_socket_trans.Auth.Best.{IsBest, candidates, lookup_token-IsBest}
use claude_code_socket_trans.Decimal.{itoa, atoi, max_int}
use claude_code_socket_trans.Message.Uuid.{hex_encode}
use claude_code_socket_trans.Registry.{
  list_sessions, sort, read_entries, registry_pid, insert, listed,
}
use claude_code_socket_trans.Find.{pick_one, find_by_pid, find_by_session_id, find_by_name}
use claude_code_socket_trans.Session.{Session, session_of, read_session_file, reachable}
use claude_code_socket_trans.Examples.Machine.{
  bytes_below, api, machine, sessions, zeros, bytes_below-AllBytes, listing,
}
use claude_code_socket_trans.Auth.{key_file_suffix, Candidate, lookup_token, token_of}
use claude_code_socket_trans.Base.{
  codes, ◌≡◌, ok, refl, [], Bytes, Option, length, ◌++◌, AllBytes, ◌∷◌, Has, true, arith, ◌↔◌,
  ◌>>=◌, ◌≤◌, split, err, not_found, List, ◌is◌,
}
use claude_code_socket_trans.Paths.{
  sessions_dir, directory, config_dir, canonical_socket_path, DirInfo, default_socket_path,
  max_socket_path_bytes,
}
use claude_code_socket_trans.Find.ByPid.{find_by_pid_iff}
use claude_code_socket_trans.Filepath
use claude_code_socket_trans.Find.{pick_one, find_by_pid, first_with_pid}
use claude_code_socket_trans.Paths.{has_dotdot}
use claude_code_socket_trans.Filepath.{is_abs}
use claude_code_socket_trans.Base.{has_prefix, split}
use claude_code_socket_trans.Registry.{pid_json}
use mathlib.Core.List.{Perm}

abbrev pub inbox : Bytes
inbox = codes "/a.sock"

abbrev suffix : Bytes
suffix = codes "." ++ (hex_encode (zeros 32) ++ codes ".key")

located : sessions_dir machine ≡ ok sessions
unfolding sessions_dir config_dir Filepath.clean is_abs has_prefix Filepath.spell Filepath.push_all
    split Filepath.push
located = refl

inbox-canonical : canonical_socket_path machine inbox ≡ ok inbox
unfolding canonical_socket_path has_dotdot split is_abs has_prefix Filepath.clean Filepath.spell
    Filepath.push_all Filepath.push
inbox-canonical = refl

inbox-suffix : key_file_suffix machine inbox ≡ ok suffix
unfolding key_file_suffix
inbox-suffix = rw inbox-canonical refl

pub zeros-AllBytes : AllBytes (zeros 32)
unfolding bytes_below
zeros-AllBytes = bytes_below-AllBytes (zeros 32) refl

lookup_token-IsBest_example :
    (b : Option Candidate) × IsBest (candidates machine sessions suffix listing) b
    × (lookup_token machine inbox ≡ ok (token_of b))
lookup_token-IsBest_example = lookup_token-IsBest machine inbox located inbox-suffix refl

listing-DistinctNames : DistinctNames listing
listing-DistinctNames = ((λ e. cc, tt), (tt, tt))

list_sessions-IsOrdered_example :
    (ss : List Session) × (list_sessions machine ≡ ok ss)
    × IsOrdered ss
    × Perm ss (read_entries machine sessions listing)
list_sessions-IsOrdered_example = list_sessions-IsOrdered machine located refl listing-DistinctNames

find_by_pid_iff_example : (find_by_pid machine 12 ≡ ok api) ↔ (
    Has (entry_file 12) listing
    × (12 ≤ max_int)
    × (read_session_file machine (Filepath.join sessions (entry_file 12)) 12 ≡ ok api))
find_by_pid_iff_example = find_by_pid_iff machine located refl 12 api

listed_api : list_sessions machine ≡ ok (api ∷ [])
unfolding unmarshal_map read_json Reader.run step tokens token_at string_body string_piece as_map
    has_field append_field list_sessions read_entries registry_pid read_session_file sort insert
    pid_json atoi itoa Filepath.join Filepath.clean is_abs has_prefix Filepath.spell
    Filepath.push_all split Filepath.push
listed_api = rw (located, ◌>>=◌) refl

missing_pid : find_by_pid machine 5 ≡ err not_found
unfolding find_by_pid first_with_pid session_of
missing_pid = rw (listed_api, ◌>>=◌) refl

found_api : find_by_session_id machine (codes "s1") 0 ≡ ok api
unfolding find_by_session_id session_of pick_one
found_api = rw (listed_api, ◌>>=◌) refl

named_api : find_by_name machine (codes "api") 0 ≡ ok api
unfolding find_by_name session_of pick_one
named_api = rw (listed_api, ◌>>=◌) refl

find_by_key-IsChosen_example :
    IsChosen
      (λ s. s.session_id is codes "s1")
      (λ s. reachable machine s 9)
      (api ∷ [])
      (find_by_session_id machine (codes "s1") 9)
    × IsChosen
        (λ s. s.name is codes "s1")
        (λ s. reachable machine s 9)
        (api ∷ [])
        (find_by_name machine (codes "s1") 9)
find_by_key-IsChosen_example =
    find_by_key-IsChosen machine (codes "s1") 9 (api ∷ []) listed_api (λ e. cc)

length-default_socket_path_example : length (default_socket_path machine 12) ≤ max_socket_path_bytes
length-default_socket_path_example =
    length-default_socket_path machine 12 refl (omega arith) (omega arith)

abbrev private_dir : DirInfo
private_dir = record { kind = directory; has_stat = true; owner = 1000; perm = 0o700 }

listed-Reordered_example :
    listed machine sessions (names (codes "12.json" ∷ codes "notes" ∷ []))
    ≡ listed machine sessions (names (codes "notes" ∷ codes "12.json" ∷ []))
listed-Reordered_example =
    listed-Reordered machine sessions (codes "12.json" ∷ codes "notes" ∷ [])
      (codes "notes" ∷ codes "12.json" ∷ []) (swapped (codes "12.json") (codes "notes"))
      listing-DistinctNames
