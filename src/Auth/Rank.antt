-- ===== src/Auth/Rank.antt =====
-- What the ranks of key owners mean.
use claude_code_socket_trans.ProcStart.{process_start_token}
use claude_code_socket_trans.Session.{process_alive}
use claude_code_socket_trans.Os.{Os}
use claude_code_socket_trans.Base.{
  ℕ, ◌<◌, Bytes, ◌≡◌, true, ◌↔◌, ◌≢◌, [], ok, ◌⊎◌, err, ◌≤◌, Result, arith, refl,
}
use claude_code_socket_trans.Auth.{rank_key_owner, Os, process_alive, process_start_token}

-- The owner runs.
abbrev pub IsAlive : Os → ℕ → Type 0
IsAlive os pid = (1 < pid) × (process_alive os pid ≡ true)

abbrev pub Fails : Result Bytes → Type 0
Fails (ok s) = ⊥
Fails (err e) = Unit

-- A key file has rank 2 exactly if its owner is alive and has the recorded start token, and rank 1
-- exactly if it is alive and no token was recorded or none can be read; no rank is above 2.
pub rank_key_owner_cases :
    (os : Os) (pid : ℕ) (start : Bytes)
    → ((rank_key_owner os pid start ≡ 2)
        ↔ (IsAlive os pid × (start ≢ []) × (process_start_token os pid ≡ ok start)))
      × ((rank_key_owner os pid start ≡ 1)
          ↔ (IsAlive os pid × ((start ≡ []) ⊎ Fails (process_start_token os pid))))
      × (rank_key_owner os pid start ≤ 2)
unfolding rank_key_owner
rank_key_owner_cases os pid start = by_token (process_start_token os pid) refl
  where
    by_token :
        (r : Result Bytes)
        → process_start_token os pid ≡ r
        → ((rank_key_owner os pid start ≡ 2)
            ↔ (IsAlive os pid × (start ≢ []) × (process_start_token os pid ≡ ok start)))
          × ((rank_key_owner os pid start ≡ 1)
              ↔ (IsAlive os pid × ((start ≡ []) ⊎ Fails (process_start_token os pid))))
          × (rank_key_owner os pid start ≤ 2)
    by_token (ok s) e = (
      (λ h. ground arith, λ h. ground arith),
      (λ h. ground arith, λ h. ground arith),
      ground arith,
    )
    by_token (err f) e = (
      (λ h. ground arith, λ h. ground arith),
      (λ h. ground arith, λ h. ground arith),
      ground arith,
    )
