-- ===== src/Base/Results.antt =====
-- Results of fallible code: a value, or the error that the source returns.
use mathlib.Core.Logic.{◌≢◌}
use mathlib.Core.Path.{◌≡◌, refl}
use mathlib.Core.Bool.{Bool, true, false}

-- One constructor for each `fmt.Errorf`, `errors.New` or passed-on error that a caller can see.
-- `not_found` and `ambiguous` stand for all errors that wrap `ErrNotFound` and `ErrAmbiguous`.
pub data Error : Type 0 where
  empty_text unknown_priority malformed_from no_random : Error
  bad_address : Error
  empty_socket_path dotdot_segment no_cwd no_home : Error
  not_found ambiguous unreadable_dir not_small_file unparseable no_token : Error
  no_inbox_socket empty_name frame_too_long encoding connecting : Error
  writing not_unix waiting_cancelled half_closing awaiting_close : Error
  making_dir checking_dir is_symlink not_directory : Error
  wrong_owner accessible unverifiable unsupported : Error
  already_live binding restricting : Error
  unreadable_stat unparseable_stat short_stat no_start_token : Error
  no_command unknown_command bad_flags no_message no_new_name no_target : Error

pub data Result {ℓ} (A : Type ℓ) : Type ℓ where
  ok : A → Result A
  err : Error → Result A

-- `if !test { return err }`
abbrev pub guard : Bool → Error → Result (Unit {0})
guard b reason = elim b [ true ↦ ok tt | false ↦ err reason ]

infixl 5 ◌>>=◌
abbrev pub ◌>>=◌ {ℓ κ} : {A : Type ℓ} {B : Type κ} → Result A → (A → Result B) → Result B
err reason >>= next = err reason
ok a >>= next = next a

-- What a `do` block that succeeds went through.
pub >>=-eq-ok {ℓ κ} :
    {A : Type ℓ} {B : Type κ} (r : Result A) (next : A → Result B) {result : B}
    → (r >>= next) ≡ ok result
    → (a : A) × (r ≡ ok a) × (next a ≡ ok result)
>>=-eq-ok (err reason) next h = cc
>>=-eq-ok (ok a) next h = (a, refl, h)

infixl 5 ◌>>◌
abbrev pub ◌>>◌ {ℓ} : {B : Type ℓ} → Result (Unit {0}) → Result B → Result B
first >> second = first >>= λ _. second

-- What never fails gives a value.
pub ok_of_no_err {ℓ} :
    {A : Type ℓ} (r : Result A) → ((e : Error) → r ≢ err e) → (a : A) × (r ≡ ok a)
ok_of_no_err (ok a) h = (a, refl)
ok_of_no_err (err e) h = absurd (h e refl)

-- A result holds one value.
pub ok_injective {ℓ} : {A : Type ℓ} {a b : A} → ok a ≡ ok b → a ≡ b
ok_injective e = cc
