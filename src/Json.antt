-- ===== src/Json.antt =====
-- What the code uses of encoding/json: decoding. Here the values that a JSON text denotes.
pub mod Strings
pub mod Tokens
pub mod Reader
pub mod Structs
pub mod Members
mod Tests
use claude_code_socket_trans.Base.{ℕ, Bool, Bytes, true, false, if◌then◌else◌, ◌is◌}

-- A number of a decoded JSON text, seen as the code sees a `float64`: its sign, the whole part of
-- its magnitude, and whether a fraction is left.
pub record Number : Type 0 where
  pub negative : Bool
  pub whole : ℕ
  pub fraction : Bool

mutual
  pub data Json : Type 0 where
    null : Json
    boolean : Bool → Json
    number : Number → Json
    text : Bytes → Json
    array : Items → Json
    object : Fields → Json

  pub data Items : Type 0 where
    no_items : Items
    item : Json → Items → Items

  pub data Fields : Type 0 where
    no_fields : Fields
    field : Bytes → Json → Fields → Fields

-- One more item, or one more member, behind the others.
unfoldable pub append_item : Items → Json → Items
append_item no_items v = item v no_items
append_item (item w ws) v = item w (append_item ws v)

unfoldable pub append_field : Fields → Bytes → Json → Fields
append_field no_fields k v = field k v no_fields
append_field (field j w fs) k v = field j w (append_field fs k v)
