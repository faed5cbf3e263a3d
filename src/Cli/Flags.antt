-- ===== src/Cli/Flags.antt =====
-- What cmd/cc-send uses of package flag: `Parse` with `ContinueOnError`, on any set of flags.
use claude_code_socket_trans.Base.{
  Bool, List, Option, Result, Bytes, ◌∷◌, if◌then◌else◌, none, err, ok, ◌is◌, ◌==◌, not, bad_flags,
  some, codes, [], ◌||◌, true, false,
}
use claude_code_socket_trans.Base.{ℤ}

-- What package flag reads a value with: `strconv.ParseInt(s, 0, strconv.IntSize)`, and
-- `time.ParseDuration` with its outcome in nanoseconds.
pub record Numerals : Type 0 where
  pub parse_int : Bytes → Option ℤ
  pub parse_duration : Bytes → Option ℤ

-- `strconv.ParseBool`
unfoldable pub parse_bool : Bytes → Option Bool
parse_bool s =
    if s is codes "1"
      || s is codes "t"
      || s is codes "T"
      || s is codes "true"
      || s is codes "TRUE"
      || s is codes "True"
    then some true
    else if s is codes "0"
        || s is codes "f"
        || s is codes "F"
        || s is codes "false"
        || s is codes "FALSE"
        || s is codes "False"
    then some false
    else none

-- A set of flags over the values `S`: which flags there are, the Boolean ones marked, and how a text
-- is assigned to one.
pub record FlagSet (S : Type 0) : Type 0 where
  pub is_bool : Bytes → Option Bool
  pub assign : Bytes → Bytes → S → Option S

-- What an argument is to the parser.
pub data Argument : Type 0 where
  positional terminator malformed : Argument
  named : Bytes → Option Bytes → Argument

-- A text cut at its first `=`.
unfoldable pub cut_value : Bytes → Bytes × Option Bytes
cut_value [] = ([], none)
cut_value (c ∷ s) =
    let (name, value) = cut_value s in if c == b'=' then ([], some s) else (c ∷ name, value)

unfoldable pub named_argument : Bytes → Argument
unfolding cut_value
named_argument [] = malformed
named_argument (c ∷ s) =
    let (name, value) = cut_value (c ∷ s) in
    if c == b'-' || c == b'=' then malformed else named name value

unfoldable pub argument : Bytes → Argument
unfolding named_argument
argument [] = positional
argument (c ∷ []) = positional
argument (c ∷ d ∷ s) =
    if not (c == b'-')
    then positional
    else if not (d == b'-')
    then named_argument (d ∷ s)
    else if s is []
    then terminator
    else named_argument s

module _ {S : Type 0} (fs : FlagSet S) where
  -- An assignment, and what follows it.
  abbrev pub assigned : Option S → (S → Result (S × List Bytes)) → Result (S × List Bytes)
  assigned none next = err bad_flags
  assigned (some s) next = next s

  -- A flag, by its kind and the value that is written behind `=`. With no such value a flag that is
  -- not Boolean takes the next argument, if there is one. `ErrHelp` is one of the errors.
  abbrev pub flag_given :
      Bytes
      → Option Bool
      → Option Bytes
      → S
      → (S → Result (S × List Bytes))
      → Option (Bytes × (S → Result (S × List Bytes)))
      → Result (S × List Bytes)
  flag_given name none value s next taking = err bad_flags
  flag_given name (some b) (some v) s next taking = assigned (fs.assign name v s) next
  flag_given name (some true) none s next taking = assigned (fs.assign name (codes "true") s) next
  flag_given name (some false) none s next none = err bad_flags
  flag_given name (some false) none s next (some (v, after)) = assigned (fs.assign name v s) after

  abbrev pub parsed :
      Argument
      → S
      → List Bytes
      → List Bytes
      → (S → Result (S × List Bytes))
      → Option (Bytes × (S → Result (S × List Bytes)))
      → Result (S × List Bytes)
  parsed positional s all rest next taking = ok (s, all)
  parsed terminator s all rest next taking = ok (s, rest)
  parsed malformed s all rest next taking = err bad_flags
  parsed (named name value) s all rest next taking =
      flag_given name (fs.is_bool name) value s next taking

  -- `fs.Parse(args)`: the values, and `fs.Args()`.
  unfoldable pub parse : S → List Bytes → Result (S × List Bytes)
  parse s [] = ok (s, [])
  parse s (a ∷ []) = parsed (argument a) s (a ∷ []) [] (λ t. parse t []) none
  parse s (a ∷ v ∷ rest) =
      parsed (argument a) s (a ∷ v ∷ rest) (v ∷ rest) (λ t. parse t (v ∷ rest))
        (some (v, λ t. parse t rest))
