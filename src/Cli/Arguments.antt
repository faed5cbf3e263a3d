-- ===== src/Cli/Arguments.antt =====
-- What package flag makes of the arguments.
use claude_code_socket_trans.Base.{
  Bool, List, Option, Result, Bytes, ◌∷◌, AllBytes, All, some, Bool-cases, ◌≡◌, ◌==◌, err, codes,
  none, inl, ◌||◌, inr, ok, [], ◌is◌, true, refl, false, if◌then◌else◌, not, ◌++◌, Lacks, ◌≢◌,
  bytes_dec, ◌∙◌,
}
use claude_code_socket_trans.Cli.Flags.{
  FlagSet, parse, parsed, flag_given, assigned, argument, named_argument, cut_value, Argument,
}
use claude_code_socket_trans.Cli.Flags.{positional, terminator, malformed, named}
use native.Mathlib.Omega.{arith}

-- The value that stands in an argument is of bytes, as the argument is.
abbrev pub ValueBytes : Argument → Type 0
ValueBytes (named name (some v)) = AllBytes v
ValueBytes (named name none) = Unit
ValueBytes positional = Unit
ValueBytes terminator = Unit
ValueBytes malformed = Unit

abbrev MaybeBytes : Option Bytes → Type 0
MaybeBytes none = Unit
MaybeBytes (some v) = AllBytes v

cut_value-MaybeBytes : (s : Bytes) → AllBytes s → MaybeBytes (cut_value s).1
unfolding cut_value
cut_value-MaybeBytes [] _ = tt
cut_value-MaybeBytes (c ∷ s) (h, hs) = elim (Bool-cases (c == b'=')) [
  | inl t ↦ rw t hs
  | inr f ↦ rw f (cut_value-MaybeBytes s hs)
]

named-ValueBytes : (name : Bytes) (v : Option Bytes) → MaybeBytes v → ValueBytes (named name v)
named-ValueBytes name none h = h
named-ValueBytes name (some v) h = h

named_argument-ValueBytes : (s : Bytes) → AllBytes s → ValueBytes (named_argument s)
unfolding named_argument
named_argument-ValueBytes [] _ = tt
named_argument-ValueBytes (c ∷ s) h = elim (Bool-cases (c == b'-' || c == b'=')) [
  | inl t ↦ rw t tt
  | inr f ↦ rw f (
      named-ValueBytes (cut_value (c ∷ s)).0 (cut_value (c ∷ s)).1 (cut_value-MaybeBytes (c ∷ s) h))
]

either-ValueBytes :
    (b : Bool) (x y : Argument) → ValueBytes x → ValueBytes y → ValueBytes (if b then x else y)
either-ValueBytes true x y h k = h
either-ValueBytes false x y h k = k

argument-ValueBytes : (s : Bytes) → AllBytes s → ValueBytes (argument s)
unfolding argument
argument-ValueBytes [] _ = tt
argument-ValueBytes (c ∷ []) _ = tt
argument-ValueBytes (c ∷ d ∷ s) (_, (hd, hs)) =
    either-ValueBytes (not (c == b'-')) positional _ tt (
      either-ValueBytes (not (d == b'-')) (named_argument (d ∷ s)) _
        (named_argument-ValueBytes (d ∷ s) (hd, hs))
        (either-ValueBytes (s is []) terminator (named_argument s) tt
          (named_argument-ValueBytes s hs)))

module _ {S : Type 0} (fs : FlagSet S) (P : S → Type 0)
    (assign_kept : (name v : Bytes) (s t : S)
      → AllBytes v
      → fs.assign name v s ≡ some t
      → P s
      → P t) where
  -- What parsing gives, if it gives anything, has the property.
  abbrev pub Kept : Result (S × List Bytes) → Type 0
  Kept (err e) = Unit
  Kept (ok (s, rest)) = P s

  abbrev KeptTaking : Option (Bytes × (S → Result (S × List Bytes))) → Type 0
  KeptTaking none = Unit
  KeptTaking (some (v, after)) = AllBytes v × ((t : S) → P t → Kept (after t))

  assigned-Kept :
      (name v : Bytes) (s : S) (next : S → Result (S × List Bytes))
      → AllBytes v
      → P s
      → ((t : S) → P t → Kept (next t))
      → Kept (assigned fs (fs.assign name v s) next)
  assigned-Kept name v s next h p k = by_assign (fs.assign name v s) refl
    where
      by_assign : (o : Option S) → fs.assign name v s ≡ o → Kept (assigned fs o next)
      by_assign none e = tt
      by_assign (some t) e = k t (assign_kept name v s t h e p)

  flag_given-Kept :
      (name : Bytes) (b : Option Bool) (v : Option Bytes) (s : S)
      (next : S → Result (S × List Bytes)) (taking : Option (Bytes × (S → Result (S × List Bytes))))
      → MaybeBytes v
      → P s
      → ((t : S) → P t → Kept (next t))
      → KeptTaking taking
      → Kept (flag_given fs name b v s next taking)
  flag_given-Kept name none v s next taking h p k kt = tt
  flag_given-Kept name (some b) (some v) s next taking h p k kt = assigned-Kept name v s next h p k
  flag_given-Kept name (some true) none s next taking h p k kt =
      assigned-Kept name (codes "true") s next (omega arith) p k
  flag_given-Kept name (some false) none s next none h p k kt = tt
  flag_given-Kept name (some false) none s next (some (v, after)) h p k (hv, ka) =
      assigned-Kept name v s after hv p ka

  parsed-Kept :
      (a : Argument) (s : S) (all rest : List Bytes) (next : S → Result (S × List Bytes))
      (taking : Option (Bytes × (S → Result (S × List Bytes))))
      → ValueBytes a
      → P s
      → ((t : S) → P t → Kept (next t))
      → KeptTaking taking
      → Kept (parsed fs a s all rest next taking)
  parsed-Kept positional s all rest next taking h p k kt = p
  parsed-Kept terminator s all rest next taking h p k kt = p
  parsed-Kept malformed s all rest next taking h p k kt = tt
  parsed-Kept (named name none) s all rest next taking h p k kt =
      flag_given-Kept name (fs.is_bool name) none s next taking h p k kt
  parsed-Kept (named name (some v)) s all rest next taking h p k kt =
      flag_given-Kept name (fs.is_bool name) (some v) s next taking h p k kt

  -- A property that every assignment of bytes keeps holds of what parsing gives.
  pub parse-Kept : (args : List Bytes) → All AllBytes args → (s : S) → P s → Kept (parse fs s args)
  unfolding parse
  parse-Kept [] h s p = p
  parse-Kept (a ∷ []) (h, _) s p =
      parsed-Kept (argument a) s (a ∷ []) [] (λ t. parse fs t []) none (argument-ValueBytes a h) p
        (parse-Kept [] tt) tt
  parse-Kept (a ∷ v ∷ rest) (h, (hv, hs)) s p =
      parsed-Kept (argument a) s (a ∷ v ∷ rest) (v ∷ rest) (λ t. parse fs t (v ∷ rest))
        (some (v, λ t. parse fs t rest)) (argument-ValueBytes a h) p
        (parse-Kept (v ∷ rest) (hv, hs)) (hv, parse-Kept rest hs)

-- A flag written with its value, `--name=value`.
unfoldable pub written_flag : Bytes → Bytes → Bytes
written_flag name value = b'-' ∷ b'-' ∷ (name ++ (b'=' ∷ value))

-- The name of a flag: not empty, with no `=`, and not beginning with `-`.
abbrev pub IsFlagName : Bytes → Type 0
IsFlagName [] = ⊥
IsFlagName (c ∷ s) = (c ≢ b'-') × Lacks b'=' (c ∷ s)

cut_value-append :
    (name value : Bytes) → Lacks b'=' name → cut_value (name ++ (b'=' ∷ value)) ≡ (name, some value)
unfolding cut_value
cut_value-append [] value _ = refl
cut_value-append (c ∷ name) value (h, hs) = ground (arith, cut_value-append name value hs)

argument-written_flag :
    (name value : Bytes)
    → IsFlagName name
    → argument (written_flag name value) ≡ named name (some value)
unfolding argument written_flag bytes_dec
argument-written_flag [] value h = absurd h
argument-written_flag (c ∷ name) value (d, (h, hs)) = ground (arith, cut_value-append name value hs)

unfoldable pub written_flags : List (Bytes × Bytes) → List Bytes → List Bytes
written_flags [] tail = tail
written_flags ((name, value) ∷ flags) tail = written_flag name value ∷ written_flags flags tail

-- How the flags end: at `--`, at the first word that is no flag, or with the arguments.
pub data IsTail : List Bytes → List Bytes → Type 0 where
  dashes : (words : List Bytes) → IsTail ((b'-' ∷ b'-' ∷ []) ∷ words) words
  text : (w : Bytes) (ws : List Bytes) → argument w ≡ positional → IsTail (w ∷ ws) (w ∷ ws)
  end : IsTail [] []

module _ {S : Type 0} (fs : FlagSet S) where
  -- Each of the flags exists and takes its value, one after the other.
  pub data Assigns : List (Bytes × Bytes) → S → S → Type 0 where
    none_left : {s : S} → Assigns [] s s
    one_more :
        {name value : Bytes} {flags : List (Bytes × Bytes)} {s t u : S} {b : Bool}
        → IsFlagName name
        → fs.is_bool name ≡ some b
        → fs.assign name value s ≡ some t
        → Assigns flags t u
        → Assigns ((name, value) ∷ flags) s u

  parse_flag :
      (a name value : Bytes) (b : Bool) (s t : S) (rest : List Bytes)
      → argument a ≡ named name (some value)
      → fs.is_bool name ≡ some b
      → fs.assign name value s ≡ some t
      → parse fs s (a ∷ rest) ≡ parse fs t rest
  unfolding parse
  parse_flag a name value b s t [] h k e = rw h (rw k (rw e refl))
  parse_flag a name value b s t (v ∷ rest) h k e = rw h (rw k (rw e refl))

  parse-tail :
      (s : S) {tail words : List Bytes} → IsTail tail words → parse fs s tail ≡ ok (s, words)
  unfolding parse argument bytes_dec
  parse-tail s (dashes []) = refl
  parse-tail s (dashes (w ∷ ws)) = refl
  parse-tail s (text w [] h) = rw h refl
  parse-tail s (text w (x ∷ ws) h) = rw h refl
  parse-tail s end = refl

  -- Flags written as --name=value, each of which exists and takes its value, and then `--`, a word
  -- that is no flag, or the end, are parsed to their values, and every further argument is a word.
  pub parse-written_flags :
      {flags : List (Bytes × Bytes)} {s t : S} {tail words : List Bytes}
      → Assigns flags s t
      → IsTail tail words
      → parse fs s (written_flags flags tail) ≡ ok (t, words)
  unfolding written_flags
  parse-written_flags none_left e = parse-tail _ e
  parse-written_flags {tail} (one_more {name} {value} {flags} {s} {t} {u} {b} n k a r) e =
      parse_flag (written_flag name value) name value b s t (written_flags flags tail)
        (argument-written_flag name value n) k a
      ∙ parse-written_flags r e
