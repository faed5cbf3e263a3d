-- ===== src/Json/Members.antt =====
-- encoding/json: an object without objects and arrays in it, in any JSON text of it.
use claude_code_socket_trans.Json.Structs.{
  unmarshal_struct, names_field, assign_all, unmarshal_value, any_number,
}
use mathlib.Core.Option
use claude_code_socket_trans.Json.Reader.{
  step, wants_value, run, in_member, behind_member, finished, read_json, read_tokens, value_of,
  put_number,
}
use claude_code_socket_trans.Json.Tokens.{
  Token, end_object, begin_object, comma, string, colon, numeral, literal, tokens,
}
use claude_code_socket_trans.Json.{
  Fields, append_field, no_fields, Json, field, Number, text, object, number, boolean, null,
}
use claude_code_socket_trans.Base.{
  Bytes, List, ◌∷◌, Option, ◌≡◌, [], ◌∙◌, All, refl, ap, some, if◌then◌else◌, none, arith,
}

-- A member by its name, the token of its value, and the value.
pub record Member : Type 0 where
  pub name : Bytes
  pub token : Token
  pub value : Json

abbrev pub Members : Type 0
Members = List Member

unfoldable pub more_tokens : Members → List Token
more_tokens [] = end_object ∷ []
more_tokens (m ∷ ms) = comma ∷ string m.name ∷ colon ∷ m.token ∷ more_tokens ms

-- The tokens of an object of these members.
abbrev pub object_tokens : Members → List Token
object_tokens [] = begin_object ∷ end_object ∷ []
object_tokens (m ∷ ms) = begin_object ∷ string m.name ∷ colon ∷ m.token ∷ more_tokens ms

unfoldable pub fields_of : Members → Fields
fields_of [] = no_fields
fields_of (m ∷ ms) = field m.name m.value (fields_of ms)

append_fields : Fields → Members → Fields
append_fields fs [] = fs
append_fields fs (m ∷ ms) = append_fields (append_field fs m.name m.value) ms

append_fields-field :
    (k : Bytes) (v : Json) (fs : Fields) (ms : Members)
    → append_fields (field k v fs) ms ≡ field k v (append_fields fs ms)
unfolding append_fields append_field
append_fields-field k v fs [] = refl
append_fields-field k v fs (m ∷ ms) = append_fields-field k v (append_field fs m.name m.value) ms

append_fields-fields_of : (ms : Members) → append_fields no_fields ms ≡ fields_of ms
unfolding append_fields append_field fields_of
append_fields-fields_of [] = refl
append_fields-fields_of (m ∷ ms) =
    append_fields-field m.name m.value no_fields ms
    ∙ ap (field m.name m.value) (append_fields-fields_of ms)

pub some_injective {ℓ} : {A : Type ℓ} {a b : A} → some a ≡ some b → a ≡ b
some_injective e = cc

module _ (convert : Bytes → Option Number) where
  -- The value that a single token stands for, if any.
  abbrev pub meaning : Token → Option Json
  meaning (string s) = some (text s)
  meaning (numeral s) = Option.map number (convert s)
  meaning (literal null) = some null
  meaning (literal (boolean b)) = some (boolean b)
  meaning _ = none

  abbrev pub AreScalars : Members → Type 0
  AreScalars = All (λ m. meaning m.token ≡ some m.value)

  run-value :
      (fs : Fields) (k : Bytes) (tok : Token) (v : Json)
      → meaning tok ≡ some v
      → step convert (wants_value (in_member fs k ∷ [])) tok
        ≡ behind_member (append_field fs k v) []
  unfolding step
  run-value fs k (string s) v e =
      ap (λ w. behind_member (append_field fs k w) []) (some_injective e)
  run-value fs k (literal null) v e =
      ap (λ w. behind_member (append_field fs k w) []) (some_injective e)
  run-value fs k (literal (boolean b)) v e =
      ap (λ w. behind_member (append_field fs k w) []) (some_injective e)
  run-value fs k (numeral s) v e = converted (convert s) e
    where
      converted :
          (o : Option Number)
          → Option.map number o ≡ some v
          → put_number o (in_member fs k ∷ []) ≡ behind_member (append_field fs k v) []
      converted none e = absurd (ground arith)
      converted (some n) e = ap (λ w. behind_member (append_field fs k w) []) (some_injective e)
  run-value fs k _ v e = absurd (ground arith)

  run-more_tokens :
      (fs : Fields) (ms : Members)
      → AreScalars ms
      → run convert (behind_member fs []) (more_tokens ms) ≡ finished (object (append_fields fs ms))
  unfolding run step more_tokens append_fields
  run-more_tokens fs [] _ = refl
  run-more_tokens fs (m ∷ ms) (h, hs) =
      ap (λ q. run convert q (more_tokens ms)) (run-value fs m.name m.token m.value h)
      ∙ run-more_tokens (append_field fs m.name m.value) ms hs

  run-object_tokens :
      (ms : Members)
      → AreScalars ms
      → run convert (wants_value []) (object_tokens ms) ≡ finished (object (fields_of ms))
  unfolding run step fields_of append_field
  run-object_tokens [] _ = refl
  run-object_tokens (m ∷ ms) (h, hs) =
      ap (λ q. run convert q (more_tokens ms)) (run-value no_fields m.name m.token m.value h)
      ∙ run-more_tokens (field m.name m.value no_fields) ms hs
      ∙ ap (λ fs. finished (object fs))
          (append_fields-field m.name m.value no_fields ms
            ∙ ap (field m.name m.value) (append_fields-fields_of ms))

  -- What is read from any JSON text of such an object.
  pub read_json-object_tokens :
      (s : Bytes) (ms : Members)
      → tokens 0 s ≡ some (object_tokens ms)
      → AreScalars ms
      → read_json convert s ≡ some (object (fields_of ms))
  unfolding read_json
  read_json-object_tokens s ms t h =
      ap (read_tokens convert) t ∙ ap (value_of convert) (run-object_tokens ms h)

-- Members whose values are strings, by name and value.
abbrev pub Texts : Type 0
Texts = List (Bytes × Bytes)

unfoldable pub texts : Texts → Members
texts [] = []
texts ((k, s) ∷ ms) = record { name = k; token = string s; value = text s } ∷ texts ms

texts-AreScalars : (convert : Bytes → Option Number) (ms : Texts) → AreScalars convert (texts ms)
unfolding texts
texts-AreScalars convert [] = tt
texts-AreScalars convert ((k, s) ∷ ms) = (refl, texts-AreScalars convert ms)

-- The value of the last member that stands for the field `name`, and `old` where none does.
unfoldable pub last_named : Bytes → Texts → Bytes → Bytes
last_named name [] old = old
last_named name ((k, s) ∷ ms) old = last_named name ms (if names_field k name then s else old)

abbrev pub named : Bytes → Texts → Bytes
named name ms = last_named name ms []

pub unmarshal_struct-texts :
    {S : Type 0} (assign : Bytes → Json → S → Option S) (zero_value : S) (s : Bytes) (ms : Texts)
    → tokens 0 s ≡ some (object_tokens (texts ms))
    → unmarshal_struct assign zero_value s ≡ assign_all assign (fields_of (texts ms)) zero_value
unfolding unmarshal_struct
unmarshal_struct-texts assign zero_value s ms t =
    ap (unmarshal_value assign zero_value)
      (read_json-object_tokens any_number s (texts ms) t (texts-AreScalars any_number ms))
