-- ===== src/Server/ClientHandler/Frames.antt =====
-- What recv_line reads from an encrypted stream.
use mpcc.Common.{
  ℕ, suc, ◌<◌, ◌≡◌, refl, sym, ap, ◌∙◌, Bool, true, false, List, [], ◌∷◌, ◌++◌, append_assoc,
  append-nil, Bytes, IsByteString, Lacks, arith, nat_eq_of_ne, if◌then◌else◌, length,
}
use mpcc.Core.Cipher.Laws.{IEncrypt}
use mpcc.Server.ClientHandler.{Received, byte, interrupted, first_char, read_line}

-- The stream in which `wire` arrives, with an interruption in front of some bytes: of the i-th byte,
-- if `at i`.
abbrev pub arriving : (ℕ → Bool) → ℕ → Bytes → List Received → List Received
arriving at i [] rest = rest
arriving at i (c ∷ wire) rest =
    let later = byte c ∷ arriving at (suc i) wire rest in
    if at i then interrupted ∷ later else later

module _ (cipher : IEncrypt) where
  -- A byte that was encrypted by itself.
  one : (c : ℕ) → c < 256 → first_char (cipher.decrypt (cipher.encrypt (c ∷ []))) ≡ c
  one c h = ap first_char (cipher.decrypt-encrypt (c ∷ []) (h, tt))

  one_byte : (s : Bytes) → length s ≡ 1 → (d : ℕ) × (s ≡ d ∷ [])
  one_byte [] h = absurd (omega (arith, h))
  one_byte (d ∷ []) h = (d, refl)
  one_byte (d ∷ c ∷ s) h = absurd (omega (arith, h))

  -- The byte in which a character arrives.
  cut :
      (c : ℕ) (s : Bytes)
      → c < 256
      → (d : ℕ) × (cipher.encrypt (c ∷ s) ≡ d ∷ cipher.encrypt s)
        × (first_char (cipher.decrypt (d ∷ [])) ≡ c)
  cut c s h =
      let (d, e) = one_byte (cipher.encrypt (c ∷ [])) (cipher.length-encrypt (c ∷ [])) in
      (
        d,
        cipher.encrypt-append (c ∷ []) s ∙ ap (λ x. x ++ cipher.encrypt s) e,
        ap (λ x. first_char (cipher.decrypt x)) (sym e) ∙ one c h,
      )

  read_after :
      (b : Bool) (buf : Bytes) (d : ℕ) (later : List Received)
      → read_line cipher buf (if b then interrupted ∷ byte d ∷ later else byte d ∷ later)
        ≡ read_line cipher buf (byte d ∷ later)
  unfolding read_line
  read_after true buf d later = refl
  read_after false buf d later = refl

  read_line-arriving :
      (at : ℕ → Bool) (i : ℕ) (line buf : Bytes) (rest : List Received)
      → IsByteString line
      → Lacks b'\n' line
      → cipher.encrypt [] ≡ []
      → read_line cipher buf (arriving at i (cipher.encrypt (line ++ b'\n' ∷ [])) rest)
        ≡ (buf ++ line, rest)
  unfolding read_line
  read_line-arriving at i [] buf rest bytes lacks nothing =
      let (d, e, back) = cut b'\n' [] (omega arith) in
      rw (e, nothing, read_after (at i) buf d rest, back)
        (ap (λ b. (b, rest)) (sym (append-nil buf)))
  read_line-arriving at i (c ∷ line) buf rest (byte_c, bytes) (no_newline, lacks) nothing =
      let (d, e, back) = cut c (line ++ b'\n' ∷ []) byte_c in
      rw
        (
          e,
          read_after (at i) buf d (arriving at (suc i) (cipher.encrypt (line ++ b'\n' ∷ [])) rest),
          back,
          nat_eq_of_ne c b'\n' no_newline,
        )
        (read_line-arriving at (suc i) line (buf ++ c ∷ []) rest bytes lacks nothing
          ∙ ap (λ b. (b, rest)) (append_assoc buf (c ∷ []) line))

-- With any cipher that has the laws of IEncrypt: a line of bytes without a newline, sent encrypted
-- with a newline behind it, is read back as it was, byte by byte, wherever ::recv is interrupted,
-- and what arrives behind it is left for the next read.
pub read_line_frame :
    (cipher : IEncrypt) (at : ℕ → Bool) (line : Bytes) (rest : List Received)
    → IsByteString line
    → Lacks b'\n' line
    → read_line cipher [] (arriving at 0 (cipher.encrypt (line ++ b'\n' ∷ [])) rest) ≡ (line, rest)
read_line_frame cipher at line rest bytes lacks =
    read_line-arriving cipher at 0 line [] rest bytes lacks
      (empty (cipher.encrypt []) (cipher.length-encrypt []))
  where
    empty : (s : Bytes) → length s ≡ 0 → s ≡ []
    empty [] h = refl
    empty (c ∷ s) h = absurd (omega (arith, h))
