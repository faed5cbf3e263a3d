-- ===== src/Message/Version.antt =====
-- The form of the identifiers that `newUUID` makes.
use claude_code_socket_trans.Message.Envelope.{hex_lower}
use Prim.Native.Nat.{bit_and, bit_or}
use claude_code_socket_trans.Base.{
  ℕ, Bool, length, leb, if◌then◌else◌, Bytes, ◌<◌, ◌/◌, ◌&&◌, ◌==◌, codes, ◌≡◌, ◌%◌, ◌||◌, true,
  ==_iff, AllBytes, arith, refl, [], ◌∷◌,
}
use claude_code_socket_trans.Base.Tables.{all_below, all_below_sound}
use claude_code_socket_trans.Message.Uuid.{format_uuid, version_four, variant_ten}

unfoldable pub is_hex : ℕ → Bool
is_hex c = (leb b'0' c && leb c b'9') || (leb b'a' c && leb c b'f')

-- A template: `x` stands for a hexadecimal digit, `y` for one of 8, 9, a and b, any other byte for
-- itself.
abbrev pub Fits : ℕ → ℕ → Type 0
Fits t c =
    if t == b'x'
    then is_hex c ≡ true
    else if t == b'y'
    then (c == b'8' || c == b'9' || c == b'a' || c == b'b') ≡ true
    else c ≡ t

abbrev pub Follows : Bytes → Bytes → Type 0
Follows [] [] = Unit
Follows (t ∷ ts) (c ∷ s) = Fits t c × Follows ts s
Follows _ _ = ⊥

abbrev pub uuid_template : Bytes
uuid_template = codes "xxxxxxxx-xxxx-4xxx-yxxx-xxxxxxxxxxxx"

is_hex-hex_lower : (n : ℕ) → n < 16 → is_hex (hex_lower n) ≡ true
unfolding is_hex hex_lower
is_hex-hex_lower n h = ground arith

high : (b : ℕ) → b < 256 → is_hex (hex_lower (b / 16)) ≡ true
high b h = is_hex-hex_lower (b / 16) (omega arith)

low : (b : ℕ) → is_hex (hex_lower (b % 16)) ≡ true
low b = is_hex-hex_lower (b % 16) (omega arith)

version_table : all_below 256 (λ b. bit_or (bit_and b 0x0f) 0x40 / 16 == 4) ≡ true
unfolding all_below
version_table = refl

version_nibble : (b : ℕ) → b < 256 → bit_or (bit_and b 0x0f) 0x40 / 16 ≡ 4
version_nibble b h = (==_iff _ _).0 (all_below_sound 256 _ b h version_table)

version_digit : (b : ℕ) → b < 256 → hex_lower (bit_or (bit_and b 0x0f) 0x40 / 16) ≡ b'4'
unfolding hex_lower
version_digit b h = ground (arith, version_nibble b h)

variant_table :
    all_below 256
      (λ b. leb 8 (bit_or (bit_and b 0x3f) 0x80 / 16) && leb (bit_or (bit_and b 0x3f) 0x80 / 16) 11)
    ≡ true
unfolding all_below
variant_table = refl

variant_digit :
    (n : ℕ)
    → (leb 8 n && leb n 11) ≡ true
    → (hex_lower n == b'8' || hex_lower n == b'9' || hex_lower n == b'a' || hex_lower n == b'b')
      ≡ true
unfolding hex_lower
variant_digit n h = ground arith

infixr 1 ◌&◌
abbrev ◌&◌ {ℓ κ} : {A : Type ℓ} {B : Type κ} → A → B → A × B
a & b = (a, b)

-- An identifier made from sixteen random bytes is a UUID of version 4 and variant 10, in lower
-- case.
pub format_uuid-Follows :
    (b : Bytes) → length b ≡ 16 → AllBytes b → Follows uuid_template (format_uuid b)
unfolding format_uuid
format_uuid-Follows
      (b0 ∷ b1 ∷ b2 ∷ b3 ∷ b4 ∷ b5 ∷ b6 ∷ b7 ∷ b8 ∷ b9 ∷ b10 ∷ b11 ∷ b12 ∷ b13 ∷ b14 ∷ b15 ∷ []) n
      (
        h0,
        (
          h1,
          (
            h2,
            (h3, (h4, (h5, (h6, (h7, (h8, (h9, (h10, (h11, (h12, (h13, (h14, (h15, _))))))))))))),
          ),
        ),
      ) =
    high b0 h0
    & low b0
    & high b1 h1
    & low b1
    & high b2 h2
    & low b2
    & high b3 h3
    & low b3
    & refl
    & high b4 h4
    & low b4
    & high b5 h5
    & low b5
    & refl
    & version_digit b6 h6
    & low (version_four b6)
    & high b7 h7
    & low b7
    & refl
    & variant_digit (variant_ten b8 / 16) (all_below_sound 256 _ b8 h8 variant_table)
    & low (variant_ten b8)
    & high b9 h9
    & low b9
    & refl
    & high b10 h10
    & low b10
    & high b11 h11
    & low b11
    & high b12 h12
    & low b12
    & high b13 h13
    & low b13
    & high b14 h14
    & low b14
    & high b15 h15
    & low b15
    & tt
format_uuid-Follows b n h = absurd (omega arith)
