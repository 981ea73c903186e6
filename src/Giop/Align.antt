-- ===== src/Giop/Align.antt =====
-- ALIGN_VALUE of include/matecorba/util/matecorba-util.h: a bound rounded up by a mask.
use Prim.Native.Nat.{bit_and}
use mate_corba.Prelude.{
  ℕ, ◌+◌, ◌-◌, ◌*◌, ◌/◌, ◌%◌, ◌≤◌, ◌<◌, ◌≡◌, ◌⊎◌, inl, inr, arith, u64_mod, bit_and-high,
}

-- (this + (boundary - 1)) & ~(boundary - 1), on a 64-bit gulong.
unfoldable pub align_value : ℕ → ℕ → ℕ
align_value this boundary =
    bit_and ((this + (boundary - 1)) % u64_mod) (u64_mod - 1 - (boundary - 1))

-- The boundaries that the marshalling code asks for.
abbrev pub IsBoundary : ℕ → Type 0
IsBoundary b = (b ≡ 2) ⊎ (b ≡ 4) ⊎ (b ≡ 8)

pub align_value-two : (x : ℕ) → x + 8 ≤ u64_mod → align_value x 2 ≡ (x + 1) / 2 * 2
unfolding align_value
align_value-two x h = omega (arith, bit_and-high ((x + 1) % u64_mod) 1 63)

pub align_value-four : (x : ℕ) → x + 8 ≤ u64_mod → align_value x 4 ≡ (x + 3) / 4 * 4
unfolding align_value
align_value-four x h = omega (arith, bit_and-high ((x + 3) % u64_mod) 2 62)

pub align_value-eight : (x : ℕ) → x + 8 ≤ u64_mod → align_value x 8 ≡ (x + 7) / 8 * 8
unfolding align_value
align_value-eight x h = omega (arith, bit_and-high ((x + 7) % u64_mod) 3 61)

-- For a boundary of two, four or eight and a value at least eight below 2^64, the mask rounds
-- up to the next multiple of the boundary: the result is a multiple, not below the value, and
-- less than a boundary above it.
pub align_value_lem :
    (x b : ℕ)
    → IsBoundary b
    → x + 8 ≤ u64_mod
    → (align_value x b % b ≡ 0) × (x ≤ align_value x b) × (align_value x b < x + b)
align_value_lem x b (inl e) h = rw e (omega (arith, align_value-two x h))
align_value_lem x b (inr (inl e)) h = rw e (omega (arith, align_value-four x h))
align_value_lem x b (inr (inr e)) h = rw e (omega (arith, align_value-eight x h))
