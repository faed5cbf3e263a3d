-- ===== src/Json/Reader.antt =====
-- encoding/json: the value that the tokens of a text denote. Like the scanner of the package this is a
-- machine with a stack of the arrays and objects that are open.
use claude_code_socket_trans.Json.Tokens.{
  Token, literal, string, tokens, numeral, begin_object, begin_array, end_array, end_object, colon,
  comma,
}
use claude_code_socket_trans.Json.{
  Items, Fields, Number, Json, append_item, number, array, append_field, no_items, text, object,
  no_fields,
}
use claude_code_socket_trans.Base.{
  List, ℕ, Option, Bytes, if◌then◌else◌, ltb, length, some, ◌∷◌, none, [],
}

-- An array or an object that waits for a value: what it holds already, and the name of the member.
pub data Open : Type 0 where
  in_array : Items → Open
  in_member : Fields → Bytes → Open

pub data State : Type 0 where
  wants_value begins_array begins_object : List Open → State
  wants_key : Fields → List Open → State
  wants_colon : Fields → Bytes → List Open → State
  behind_item : Items → List Open → State
  behind_member : Fields → List Open → State
  finished : Json → State
  refused : State

-- A value is complete.
abbrev pub put : Json → List Open → State
put v [] = finished v
put v (in_array vs ∷ st) = behind_item (append_item vs v) st
put v (in_member fs k ∷ st) = behind_member (append_field fs k v) st

abbrev pub max_nesting_depth : ℕ
max_nesting_depth = 10000

abbrev pub opened : List Open → State → State
opened st s = if ltb (length st) max_nesting_depth then s else refused

abbrev pub put_number : Option Number → List Open → State
put_number none st = refused
put_number (some n) st = put (number n) st

-- `convert` reads a number that is well formed; `none` refuses the text.
module _ (convert : Bytes → Option Number) where
  abbrev pub value_step : List Open → Token → State
  value_step st begin_object = opened st (begins_object st)
  value_step st begin_array = opened st (begins_array st)
  value_step st (literal v) = put v st
  value_step st (numeral s) = put_number (convert s) st
  value_step st (string s) = put (text s) st
  value_step st end_object = refused
  value_step st end_array = refused
  value_step st colon = refused
  value_step st comma = refused

  abbrev pub key_step : Fields → List Open → Token → State
  key_step fs st (string k) = wants_colon fs k st
  key_step fs st _ = refused

  unfoldable pub step : State → Token → State
  step (wants_value st) tok = value_step st tok
  step (begins_array st) end_array = put (array no_items) st
  step (begins_array st) tok = value_step (in_array no_items ∷ st) tok
  step (begins_object st) end_object = put (object no_fields) st
  step (begins_object st) tok = key_step no_fields st tok
  step (wants_key fs st) tok = key_step fs st tok
  step (wants_colon fs k st) colon = wants_value (in_member fs k ∷ st)
  step (wants_colon fs k st) _ = refused
  step (behind_item vs st) comma = wants_value (in_array vs ∷ st)
  step (behind_item vs st) end_array = put (array vs) st
  step (behind_item vs st) _ = refused
  step (behind_member fs st) comma = wants_key fs st
  step (behind_member fs st) end_object = put (object fs) st
  step (behind_member fs st) _ = refused
  step (finished v) tok = refused
  step refused tok = refused

  unfoldable pub run : State → List Token → State
  unfolding step
  run s [] = s
  run s (tok ∷ toks) = run (step s tok) toks

  abbrev pub value_of : State → Option Json
  value_of (finished v) = some v
  value_of _ = none

  abbrev pub read_tokens : Option (List Token) → Option Json
  read_tokens none = none
  read_tokens (some toks) = value_of (run (wants_value []) toks)

  unfoldable pub read_json : Bytes → Option Json
  read_json s = read_tokens (tokens 0 s)
