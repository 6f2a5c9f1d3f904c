-- ===== src/Core/Cipher.antt =====
-- include/mpcc/core/cipher.h, src/core/cipher.cpp and the interface IEncrypt of interfaces.h.
mod Xor
pub mod Laws
mod Tests
use Prim.Native.Nat.{bit_xor}
use mpcc.Common.{ℕ, List, [], ◌∷◌, Bytes}

-- MAX_USERNAME_LEN, MAX_PASS_LEN, MAX_MSG_LEN and DEFAULT_XOR_KEY.
abbrev pub max_username_len : ℕ
max_username_len = 64

abbrev pub max_pass_len : ℕ
max_pass_len = 128

abbrev pub max_msg_len : ℕ
max_msg_len = 4096

abbrev pub default_xor_key : ℕ
default_xor_key = 0x5A

-- The state of a `Cipher` is its key, a byte.
pub record Cipher : Type 0 where
  pub key : ℕ

abbrev pub default_cipher : Cipher
default_cipher = record { key = default_xor_key }

-- out.push_back(c ^ key_) for each byte. Both operands are bytes, so the cast to `char` loses nothing.
unfoldable pub encrypt : Cipher → Bytes → Bytes
encrypt k [] = []
encrypt k (c ∷ s) = bit_xor c k.key ∷ encrypt k s

unfoldable pub decrypt : Cipher → Bytes → Bytes
unfolding encrypt
decrypt k s = encrypt k s
