-- ===== src/ProcStart/Tests.antt =====
-- Runs on lines of /proc/<pid>/stat.
use claude_code_socket_trans.Base.{codes, ◌≡◌, ok, err, short_stat, refl}
use claude_code_socket_trans.ProcStart.{token_of_stat}

odd_command :
    token_of_stat (codes "42 (a) b) S 1 2 3 4 5 6 7 8 9 10 11 12 13 14 15 16 17 18 9000 20 21")
    ≡ ok (codes "9000")
unfolding token_of_stat
odd_command = refl

few_fields : token_of_stat (codes "42 (sh) S 1 2") ≡ err short_stat
unfolding token_of_stat
few_fields = refl
