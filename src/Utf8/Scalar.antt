-- ===== src/Utf8/Scalar.antt =====
-- What is decoded has an encoding, and texts that are made of encodings.
use mathlib.Core.Path.{subst}
use claude_code_socket_trans.Utf8.{
  decode_rune, drop_controls, rune_error, decode_two, decode_three, decode_four, encode_rune,
  between, is_control,
}
use claude_code_socket_trans.Utf8.Encoding.{IsScalar, IsUtf8, empty, next_rune}
use claude_code_socket_trans.Base.{
  ℕ, Bytes, ◌≤◌, Bool-cases, arith, ltb, ◌++◌, inr, inl, suc, ◌∷◌, sym, append-nil, append_assoc,
  ◌-◌, [], zero,
}

decode_two-IsScalar : (b : ℕ) (s : Bytes) → b ≤ 0xdf → IsScalar (decode_two b s).rune
decode_two-IsScalar b [] h = record { in_range = omega arith; no_surrogate = inr (omega arith) }
decode_two-IsScalar b (c ∷ s) h = record { in_range = ground arith; no_surrogate = ground arith }

decode_three-IsScalar : (b : ℕ) (s : Bytes) → 0xe0 ≤ b → b ≤ 0xef → IsScalar (decode_three b s).rune
decode_three-IsScalar b [] l h = record { in_range = omega arith; no_surrogate = inr (omega arith) }
decode_three-IsScalar b (c ∷ []) l h = record {
  in_range = omega arith;
  no_surrogate = inr (omega arith);
}
decode_three-IsScalar b (c ∷ d ∷ s) l h = record {
  in_range = ground arith;
  no_surrogate = ground arith;
}

decode_four-IsScalar : (b : ℕ) (s : Bytes) → 0xf0 ≤ b → b ≤ 0xf4 → IsScalar (decode_four b s).rune
decode_four-IsScalar b [] l h = record { in_range = omega arith; no_surrogate = inr (omega arith) }
decode_four-IsScalar b (c ∷ []) l h = record {
  in_range = omega arith;
  no_surrogate = inr (omega arith);
}
decode_four-IsScalar b (c ∷ d ∷ []) l h = record {
  in_range = omega arith;
  no_surrogate = inr (omega arith);
}
decode_four-IsScalar b (c ∷ d ∷ e ∷ s) l h = record {
  in_range = ground arith;
  no_surrogate = ground arith;
}

error-IsScalar : IsScalar rune_error
error-IsScalar = record { in_range = omega arith; no_surrogate = inr (omega arith) }

pub decode_rune-IsScalar : (b : ℕ) (s : Bytes) → IsScalar (decode_rune b s).rune
unfolding decode_rune
decode_rune-IsScalar b s = elim (Bool-cases (ltb b 0x80)) [
  | inl t ↦ rw t (record { in_range = ground arith; no_surrogate = inl (ground arith) })
  | inr f ↦ rw f (elim (Bool-cases (between 0xc2 0xdf b)) [
    | inl t ↦ rw t (decode_two-IsScalar b s (ground arith))
    | inr f ↦ rw f (elim (Bool-cases (between 0xe0 0xef b)) [
      | inl t ↦ rw t (decode_three-IsScalar b s (ground arith) (ground arith))
      | inr f ↦ rw f (elim (Bool-cases (between 0xf0 0xf4 b)) [
        | inl t ↦ rw t (decode_four-IsScalar b s (ground arith) (ground arith))
        | inr f ↦ rw f error-IsScalar
      ])
    ])
  ])
]

pub IsUtf8-append : {a b : Bytes} → IsUtf8 a → IsUtf8 b → IsUtf8 (a ++ b)
IsUtf8-append empty h = h
IsUtf8-append {b} (next_rune r {s} k t) h =
    subst IsUtf8 (sym (append_assoc (encode_rune r) s b)) (next_rune r k (IsUtf8-append t h))

pub rune-IsUtf8 : (r : ℕ) → IsScalar r → IsUtf8 (encode_rune r)
rune-IsUtf8 r h = subst IsUtf8 (append-nil (encode_rune r)) (next_rune r h empty)

pub drop_controls-IsUtf8 : (skip : ℕ) (s : Bytes) → IsUtf8 (drop_controls skip s)
unfolding drop_controls
drop_controls-IsUtf8 zero [] = empty
drop_controls-IsUtf8 (suc skip) [] = empty
drop_controls-IsUtf8 (suc skip) (c ∷ s) = drop_controls-IsUtf8 skip s
drop_controls-IsUtf8 zero (c ∷ s) =
    let rest = drop_controls-IsUtf8 ((decode_rune c s).width - 1) s in
    elim (Bool-cases (is_control (decode_rune c s).rune)) [
      | inl t ↦ rw t rest
      | inr f ↦ rw f (next_rune (decode_rune c s).rune (decode_rune-IsScalar c s) rest)
    ]
