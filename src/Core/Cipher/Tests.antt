-- ===== src/Core/Cipher/Tests.antt =====
-- The tests of tests/core/test_cipher.cpp, and an input at which the theorem about the cipher applies.
use mpcc.Common.{◌≡◌, refl, [], ◌∷◌, codes}
use mpcc.Core.Cipher.{default_cipher, encrypt}

hides_text : encrypt default_cipher (codes "Hi") ≡ 0x12 ∷ 0x33 ∷ []
unfolding encrypt
hides_text = refl
