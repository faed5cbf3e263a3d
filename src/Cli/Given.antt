-- ===== src/Cli/Given.antt =====
-- What the flags of `sendCmd` say, by the arguments that are given.
use claude_code_socket_trans.Cli.Arguments.{Assigns, one_more, none_left}
use mathlib.Core.Path.{subst}
use claude_code_socket_trans.Cli.Send.{SendFlags, send_assign, send_defaults, send_flags}
use claude_code_socket_trans.Cli.Flags.{Numerals, parse_bool}
use claude_code_socket_trans.Base.{
  List, ◌∷◌, Bytes, Option, none, ◌≡◌, some, ◌is◌, if◌then◌else◌, [], true, Bool-cases, codes, pos,
  false, inl, arith, inr, sym, refl,
}

-- The value of the last flag with this name, and what was given before where there is none.
unfoldable pub given_after : List (Bytes × Bytes) → (Bytes → Option Bytes) → Bytes → Option Bytes
given_after [] g = g
given_after ((name, v) ∷ flags) g = given_after flags (λ j. if name is j then some v else g j)

abbrev pub last_given : List (Bytes × Bytes) → Bytes → Option Bytes
last_given flags = given_after flags (λ k. none)

-- What a flag with the given text, if any, stands for.
abbrev pub Stands : {A : Type 0} → (Bytes → Option A) → A → Option Bytes → A → Type 0
Stands read default none x = x ≡ default
Stands read default (some v) x = read v ≡ some x

-- The flags, by the text that is given for each name.
pub record AreGiven (n : Numerals) (given : Bytes → Option Bytes) (f : SendFlags) : Type 0 where
  pub session : Stands some [] (given (codes "session")) f.session
  pub pid : Stands n.parse_int (pos 0) (given (codes "pid")) f.pid
  pub name : Stands some [] (given (codes "name")) f.name
  pub to : Stands some [] (given (codes "to")) f.to
  pub priority : Stands some (codes "next") (given (codes "priority")) f.priority
  pub name_as : Stands some [] (given (codes "name-as")) f.name_as
  pub from : Stands some [] (given (codes "from")) f.from
  pub wait_receipt : Stands n.parse_duration (pos 0) (given (codes "wait-receipt")) f.wait_receipt
  pub no_auth : Stands parse_bool false (given (codes "no-auth")) f.no_auth
  pub timeout : Stands n.parse_duration (pos 5_000_000_000) (given (codes "timeout")) f.timeout

-- What an assignment to the flag `name` makes of the field of the flag `k`.
abbrev Moves : {A : Type 0} → Bytes → Bytes → Bytes → (Bytes → Option A) → A → A → Type 0
Moves name k v read x y = ((name is k) ≡ true → read v ≡ some y) × ((name is k) ≡ false → y ≡ x)

Stands-moved :
    {A : Type 0} (name k v : Bytes) (read : Bytes → Option A) (default x y : A) (o : Option Bytes)
    → Moves name k v read x y
    → Stands read default o x
    → Stands read default (if name is k then some v else o) y
Stands-moved name k v read default x y o (hit, miss) h = elim (Bool-cases (name is k)) [
  | inl t ↦ rw t (hit t)
  | inr f ↦ rw f (subst (Stands read default o) (sym (miss f)) h)
]

module _ (n : Numerals) (name v : Bytes) (s t : SendFlags)
    (e : send_assign n name v s ≡ some t) where
  session_moved : Moves name (codes "session") v some s.session t.session
  unfolding send_assign
  session_moved = (λ b. ground arith, λ b. ground arith)

  pid_moved : Moves name (codes "pid") v n.parse_int s.pid t.pid
  unfolding send_assign
  pid_moved = (λ b. ground arith, λ b. ground arith)

  name_moved : Moves name (codes "name") v some s.name t.name
  unfolding send_assign
  name_moved = (λ b. ground arith, λ b. ground arith)

  to_moved : Moves name (codes "to") v some s.to t.to
  unfolding send_assign
  to_moved = (λ b. ground arith, λ b. ground arith)

  priority_moved : Moves name (codes "priority") v some s.priority t.priority
  unfolding send_assign
  priority_moved = (λ b. ground arith, λ b. ground arith)

  name_as_moved : Moves name (codes "name-as") v some s.name_as t.name_as
  unfolding send_assign
  name_as_moved = (λ b. ground arith, λ b. ground arith)

  from_moved : Moves name (codes "from") v some s.from t.from
  unfolding send_assign
  from_moved = (λ b. ground arith, λ b. ground arith)

  wait_receipt_moved :
      Moves name (codes "wait-receipt") v n.parse_duration s.wait_receipt t.wait_receipt
  unfolding send_assign
  wait_receipt_moved = (λ b. ground arith, λ b. ground arith)

  no_auth_moved : Moves name (codes "no-auth") v parse_bool s.no_auth t.no_auth
  unfolding send_assign
  no_auth_moved = (λ b. ground arith, λ b. ground arith)

  timeout_moved : Moves name (codes "timeout") v n.parse_duration s.timeout t.timeout
  unfolding send_assign
  timeout_moved = (λ b. ground arith, λ b. ground arith)

  -- An assignment is to the flag that it names.
  send_assign-AreGiven :
      (g : Bytes → Option Bytes)
      → AreGiven n g s
      → AreGiven n (λ k. if name is k then some v else g k) t
  send_assign-AreGiven g h = record {
    session =
        Stands-moved name (codes "session") v some _ s.session t.session _ session_moved h.session;
    pid = Stands-moved name (codes "pid") v n.parse_int _ s.pid t.pid _ pid_moved h.pid;
    name = Stands-moved name (codes "name") v some _ s.name t.name _ name_moved h.name;
    to = Stands-moved name (codes "to") v some _ s.to t.to _ to_moved h.to;
    priority =
        Stands-moved name (codes "priority") v some _ s.priority t.priority _ priority_moved
          h.priority;
    name_as =
        Stands-moved name (codes "name-as") v some _ s.name_as t.name_as _ name_as_moved h.name_as;
    from = Stands-moved name (codes "from") v some _ s.from t.from _ from_moved h.from;
    wait_receipt =
        Stands-moved name (codes "wait-receipt") v n.parse_duration _ s.wait_receipt t.wait_receipt
          _ wait_receipt_moved h.wait_receipt;
    no_auth =
        Stands-moved name (codes "no-auth") v parse_bool _ s.no_auth t.no_auth _ no_auth_moved
          h.no_auth;
    timeout =
        Stands-moved name (codes "timeout") v n.parse_duration _ s.timeout t.timeout _ timeout_moved
          h.timeout;
  }

send_defaults-AreGiven : (n : Numerals) → AreGiven n (λ k. none) send_defaults
unfolding send_defaults
send_defaults-AreGiven n = record {
  session = refl;
  pid = refl;
  name = refl;
  to = refl;
  priority = refl;
  name_as = refl;
  from = refl;
  wait_receipt = refl;
  no_auth = refl;
  timeout = refl;
}

Assigns-AreGiven :
    (n : Numerals) {flags : List (Bytes × Bytes)} {s t : SendFlags} (g : Bytes → Option Bytes)
    → Assigns (send_flags n) flags s t
    → AreGiven n g s
    → AreGiven n (given_after flags g) t
unfolding given_after
Assigns-AreGiven n g none_left h = h
Assigns-AreGiven n g (one_more {name} {value} {flags} {s} {t} {u} {b} _ _ a r) h =
    Assigns-AreGiven n _ r (send_assign-AreGiven n name value s t a g h)

-- Flags that exist and take their values have the values that are given last.
pub Assigns-last_given :
    (n : Numerals) {flags : List (Bytes × Bytes)} {f : SendFlags}
    → Assigns (send_flags n) flags send_defaults f
    → AreGiven n (last_given flags) f
Assigns-last_given n a = Assigns-AreGiven n (λ k. none) a (send_defaults-AreGiven n)
