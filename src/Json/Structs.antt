-- ===== src/Json/Structs.antt =====
-- encoding/json: `Unmarshal` into a struct, and into a `map[string]any`.
use claude_code_socket_trans.Json.Reader.{read_json}
use claude_code_socket_trans.Json.{
  Fields, Number, Json, text, object, field, array, boolean, no_fields, number, null, Items, item,
  no_items,
}
use claude_code_socket_trans.Utf8.{decode_rune, encode_rune}
use claude_code_socket_trans.Base.{
  ℕ, Bytes, Option, if◌then◌else◌, suc, Bool, leb, ◌==◌, ◌∷◌, ◌is◌, ◌&&◌, [], ◌-◌, ltb, ◌++◌, zero,
  false, some, none, ◌||◌,
}

-- `foldName`, as far as a comparison with an ASCII name tells: the long s and the Kelvin sign fold to
-- ASCII letters, and no other rune above ASCII does.
abbrev pub upper : ℕ → ℕ
upper c = if leb b'a' c && leb c b'z' then c - 32 else c

abbrev pub fold_rune : ℕ → Bytes
fold_rune r = if r == 0x17f then b'S' ∷ [] else if r == 0x212a then b'K' ∷ [] else encode_rune r

unfoldable pub fold_name : ℕ → Bytes → Bytes
fold_name skip [] = []
fold_name (suc skip) (c ∷ s) = fold_name skip s
fold_name zero (c ∷ s) =
    let d = decode_rune c s in
    let rest = fold_name (d.width - 1) s in
    if ltb c 0x80 then upper c ∷ rest else fold_rune d.rune ++ rest

-- A member's name stands for a field with this name in its tag.
unfoldable pub names_field : Bytes → Bytes → Bool
names_field k name = fold_name 0 k is fold_name 0 name

-- A string field, by the value of its member and its own before: `null` leaves it, and another value
-- is a type error.
abbrev pub text_field : Json → Bytes → Option Bytes
text_field (text s) old = some s
text_field null old = some old
text_field _ old = none

-- A number that is not read.
abbrev pub any_number : Bytes → Option Number
any_number s = some (record { negative = false; whole = 0; fraction = false })

module _ {S : Type 0} (assign : Bytes → Json → S → Option S) where
  abbrev pub assign_more : (S → Option S) → Option S → Option S
  assign_more next none = none
  assign_more next (some s) = next s

  -- The members one after the other. A type error makes `Unmarshal` fail.
  unfoldable pub assign_all : Fields → S → Option S
  assign_all no_fields s = some s
  assign_all (field k v fs) s = assign_more (assign_all fs) (assign k v s)

  abbrev pub assign_object : Json → S → Option S
  assign_object (object fs) s = assign_all fs s
  assign_object null s = some s
  assign_object _ s = none

  abbrev pub unmarshal_value : S → Option Json → Option S
  unmarshal_value zero_value none = none
  unmarshal_value zero_value (some v) = assign_object v zero_value

  -- `json.Unmarshal(data, &s)` of a zero struct. A number is read only where a field takes it, which
  -- none here does.
  unfoldable pub unmarshal_struct : S → Bytes → Option S
  unmarshal_struct zero_value s = unmarshal_value zero_value (read_json any_number s)

unfoldable pub has_field : Bytes → Fields → Bool
has_field k no_fields = false
has_field k (field j v fs) = j is k || has_field k fs

-- The map of an object's members: of those with the same name the last stays.
unfoldable mutual
  pub as_any : Json → Json
  as_any (array vs) = array (items_as_any vs)
  as_any (object fs) = object (as_map fs)
  as_any null = null
  as_any (boolean b) = boolean b
  as_any (number n) = number n
  as_any (text s) = text s

  pub items_as_any : Items → Items
  items_as_any no_items = no_items
  items_as_any (item v vs) = item (as_any v) (items_as_any vs)

  pub as_map : Fields → Fields
  as_map no_fields = no_fields
  as_map (field k v fs) =
      let rest = as_map fs in let w = as_any v in if has_field k rest then rest else field k w rest

abbrev pub map_value : Option Json → Option Fields
map_value (some (object fs)) = some (as_map fs)
map_value (some null) = some no_fields
map_value _ = none

-- `json.Unmarshal(data, &m)` of a nil map. `parse_float` is what `strconv.ParseFloat` makes of a
-- well-formed number.
unfoldable pub unmarshal_map : (Bytes → Option Number) → Bytes → Option Fields
unmarshal_map parse_float s = map_value (read_json parse_float s)
