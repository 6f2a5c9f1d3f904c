-- ===== src/Core/Cipher/Laws.antt =====
-- What the callers of IEncrypt rely on, and that `Cipher` provides it.
use Prim.Native.Nat.{bit_xor}
use mpcc.Common.{◌<◌, ◌≡◌, refl, ap, ap₂, [], ◌∷◌, ◌++◌, arith, Bytes, IsByteString, length}
use mpcc.Core.Cipher.{Cipher, encrypt, decrypt}
use mpcc.Core.Cipher.Xor.{bit_xor_byte}

-- IEncrypt with its contract. `encrypt-append` is what the two `recv_line` loops need on top of
-- the round trip: they decrypt a frame one byte at a time.
pub record IEncrypt : Type 0 where
  pub encrypt : Bytes → Bytes
  pub decrypt : Bytes → Bytes
  pub decrypt-encrypt : (s : Bytes) → IsByteString s → decrypt (encrypt s) ≡ s
  pub encrypt-IsByteString : (s : Bytes) → IsByteString s → IsByteString (encrypt s)
  pub length-encrypt : (s : Bytes) → length (encrypt s) ≡ length s
  pub encrypt-append : (s t : Bytes) → encrypt (s ++ t) ≡ encrypt s ++ encrypt t
  pub decrypt-append : (s t : Bytes) → decrypt (s ++ t) ≡ decrypt s ++ decrypt t

module _ (k : Cipher) where
  -- Encryption keeps the number of bytes.
  pub length-encrypt : (s : Bytes) → length (encrypt k s) ≡ length s
  unfolding encrypt
  length-encrypt [] = refl
  length-encrypt (c ∷ s) = omega (arith, length-encrypt s)

  -- The cipher works byte by byte, so a stream may be cut anywhere.
  pub encrypt-append : (s t : Bytes) → encrypt k (s ++ t) ≡ encrypt k s ++ encrypt k t
  unfolding encrypt
  encrypt-append [] t = refl
  encrypt-append (c ∷ s) t = ap (◌∷◌ (bit_xor c k.key)) (encrypt-append s t)

  pub decrypt-append : (s t : Bytes) → decrypt k (s ++ t) ≡ decrypt k s ++ decrypt k t
  unfolding decrypt
  decrypt-append s t = encrypt-append s t

-- With a byte for a key, decryption undoes encryption on every byte string, and the ciphertext is
-- a byte string again.
pub decrypt-encrypt :
    (k : Cipher) (s : Bytes)
    → k.key < 256
    → IsByteString s
    → (decrypt k (encrypt k s) ≡ s) × IsByteString (encrypt k s)
unfolding decrypt
decrypt-encrypt k [] hk hs = (refl, tt)
decrypt-encrypt k (c ∷ s) hk (hc, hs) =
    let (rest, bytes) = decrypt-encrypt k s hk hs in
    let (undone, byte) = bit_xor_byte c k.key hc hk in (ap₂ ◌∷◌ undone rest, (byte, bytes))

-- `Cipher` implements IEncrypt.
abbrev pub cipher-IEncrypt : (k : Cipher) → k.key < 256 → IEncrypt
cipher-IEncrypt k hk = record {
  encrypt = encrypt k;
  decrypt = decrypt k;
  decrypt-encrypt = λ s hs. (decrypt-encrypt k s hk hs).0;
  encrypt-IsByteString = λ s hs. (decrypt-encrypt k s hk hs).1;
  length-encrypt = length-encrypt k;
  encrypt-append = encrypt-append k;
  decrypt-append = decrypt-append k;
}
