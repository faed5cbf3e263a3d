-- ===== src/Utf8/Tests.antt =====
-- Runs of the text functions.
use claude_code_socket_trans.Utf8.{trim_space}
use claude_code_socket_trans.Base.{refl, codes, ◌∷◌, [], ◌≡◌}

trimmed : trim_space (codes " \t a b \n") ≡ codes "a b"
unfolding trim_space
trimmed = refl

wide_trimmed :
    trim_space (0xe2 ∷ 0x80 ∷ 0x83 ∷ b'x' ∷ 0xc3 ∷ 0xa9 ∷ 0xc2 ∷ 0xa0 ∷ [])
    ≡ b'x' ∷ 0xc3 ∷ 0xa9 ∷ []
unfolding trim_space
wide_trimmed = refl
