-- ===== src/Message/Uuid.antt =====
-- message.go: `newUUID`.
use Prim.Native.Nat.{bit_and, bit_or}
use claude_code_socket_trans.Base.{
  ℕ, Bytes, Result, ◌∷◌, take, ◌++◌, none, suc, codes, err, ◌/◌, ◌-◌, drop, no_random, ◌%◌, [],
  some, zero, ok,
}
use claude_code_socket_trans.Message.Envelope.{hex_lower}
use claude_code_socket_trans.Os.{Os}

-- `b[i] = f(b[i])`
unfoldable pub modify : ℕ → (ℕ → ℕ) → Bytes → Bytes
modify i f [] = []
modify zero f (c ∷ s) = f c ∷ s
modify (suc i) f (c ∷ s) = c ∷ modify i f s

-- `hex.EncodeToString`
unfoldable pub hex_encode : Bytes → Bytes
unfolding hex_lower
hex_encode [] = []
hex_encode (c ∷ s) = hex_lower (c / 16) ∷ hex_lower (c % 16) ∷ hex_encode s

-- `h[from:to]`
abbrev pub slice : ℕ → ℕ → Bytes → Bytes
slice from to h = take (to - from) (drop from h)

abbrev pub version_four : ℕ → ℕ
version_four b = bit_or (bit_and b 0x0f) 0x40

abbrev pub variant_ten : ℕ → ℕ
variant_ten b = bit_or (bit_and b 0x3f) 0x80

unfoldable pub format_uuid : Bytes → Bytes
unfolding modify hex_encode
format_uuid b =
    let h = hex_encode (modify 8 variant_ten (modify 6 version_four b)) in
    slice 0 8 h
    ++ (codes "-"
        ++ (slice 8 12 h
            ++ (codes "-"
                ++ (slice 12 16 h
                    ++ (codes "-" ++ (slice 16 20 h ++ (codes "-" ++ slice 20 32 h)))))))

unfoldable pub new_uuid : Os → Result Bytes
unfolding format_uuid
new_uuid os = elim os.random [ none ↦ err no_random | some b ↦ ok (format_uuid b) ]
