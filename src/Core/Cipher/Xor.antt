-- ===== src/Core/Cipher/Xor.antt =====
-- Exclusive or on bytes, by a table over all pairs of bytes.
use Prim.Native.Nat.{bit_xor}
use mpcc.Common.{ℕ, zero, suc, ◌<◌, ◌≡◌, refl, Bool, true, ◌&&◌, arith, ltb, nat_eq}

-- Xor with `k` undoes itself on `x` and stays a byte.
undoes : ℕ → ℕ → Bool
undoes k x = nat_eq (bit_xor (bit_xor x k) k) x && ltb (bit_xor x k) 256

-- One row of the table for a key, up to a byte, and the rows up to a key.
row : ℕ → ℕ → Bool
row k zero = true
row k (suc x) = row k x && undoes k x

rows : ℕ → Bool
rows zero = true
rows (suc k) = rows k && row k 256

row-undoes : (k size x : ℕ) → x < size → row k size ≡ true → undoes k x ≡ true
unfolding row
row-undoes k (suc size) x lt h = ground (arith, row-undoes k size x)
row-undoes k zero x lt h = absurd (omega arith)

rows-row : (size k : ℕ) → k < size → rows size ≡ true → row k 256 ≡ true
unfolding rows
rows-row (suc size) k lt h = ground (arith, rows-row size k)
rows-row zero k lt h = absurd (omega arith)

whole_table : rows 256 ≡ true
unfolding rows row undoes
whole_table = refl

pub bit_xor_byte :
    (x k : ℕ) → x < 256 → k < 256 → (bit_xor (bit_xor x k) k ≡ x) × (bit_xor x k < 256)
unfolding undoes
bit_xor_byte x k hx hk = ground (arith, row-undoes k 256 x hx (rows-row 256 k hk whole_table))
