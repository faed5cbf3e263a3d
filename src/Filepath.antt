-- ===== src/Filepath.antt =====
-- What the code uses of package path/filepath, on unix: `Clean`, `Join`, `Abs` and `Dir`.
pub mod Length
mod Tests
use claude_code_socket_trans.Base.{
  ℕ, Bool, Bytes, bytes_dec, List, has_prefix, Option, codes, if◌then◌else◌, ◌∷◌, [], Result, none,
  ◌is◌, ◌++◌, ok, some, ◌||◌, err, ◌==◌, ◌&&◌, no_cwd, not, split,
}

abbrev pub slash : ℕ
slash = b'/'

abbrev pub dot : Bytes
dot = codes "."

abbrev pub dotdot : Bytes
dotdot = codes ".."

unfoldable pub is_abs : Bytes → Bool
is_abs s = has_prefix s (codes "/")

-- The kept segments, the last one first, with one more segment. `rooted` says whether the path is.
unfoldable pub push : Bool → List Bytes → Bytes → List Bytes
unfolding bytes_dec
push rooted [] seg =
    if seg is [] || seg is dot then [] else if seg is dotdot && rooted then [] else seg ∷ []
push rooted (top ∷ kept) seg =
    if seg is [] || seg is dot
    then top ∷ kept
    else if seg is dotdot && not (top is dotdot)
    then kept
    else seg ∷ top ∷ kept

unfoldable pub push_all : Bool → List Bytes → List Bytes → List Bytes
push_all rooted kept [] = kept
push_all rooted kept (seg ∷ segs) = push_all rooted (push rooted kept seg) segs

-- The segments in order, a slash between each two, behind `out`.
unfoldable pub spell : List Bytes → Bytes → Bytes
spell [] out = out
spell (seg ∷ []) out = seg ++ out
spell (seg ∷ top ∷ kept) out = spell (top ∷ kept) (slash ∷ (seg ++ out))

abbrev pub spell_relative : List Bytes → Bytes
spell_relative [] = dot
spell_relative (seg ∷ segs) = spell (seg ∷ segs) []

unfoldable pub clean : Bytes → Bytes
clean path =
    let kept = push_all (is_abs path) [] (split slash path) in
    if is_abs path then slash ∷ spell kept [] else spell_relative kept

-- `filepath.Join(a, b)`
unfoldable pub join : Bytes → Bytes → Bytes
unfolding bytes_dec
join a b = if a is [] then if b is [] then [] else clean b else clean (a ++ (slash ∷ b))

unfoldable pub abs : Option Bytes → Bytes → Result Bytes
abs working_dir path =
    if is_abs path
    then ok (clean path)
    else elim working_dir [ none ↦ err no_cwd | some wd ↦ ok (join wd path) ]

-- What stands up to the last slash.
unfoldable pub up_to_last : ℕ → Bytes → Option Bytes
up_to_last b [] = none
up_to_last b (c ∷ s) = elim (up_to_last b s) [
  | some t ↦ some (c ∷ t)
  | none ↦ if c == b then some (c ∷ []) else none
]

unfoldable pub dir : Bytes → Bytes
unfolding up_to_last
dir path = elim (up_to_last slash path) [ none ↦ clean [] | some s ↦ clean s ]
