-- ===== src/Prelude/Words.antt =====
-- Machine words as native numbers: their bytes in either order, and the effect of the masks that
-- keep the low bits or clear them.
use Prim.Native.Nat.{
  ℕ, zero, suc, ◌+◌, ◌-◌, ◌*◌, ◌/◌, ◌%◌, ◌^◌, ◌≤◌, ◌<◌, min, bit_and, digits, bit_and-bitwise,
}
use mathlib.Core.Path.{◌≡◌, refl, ◌∙◌}
use mathlib.Core.Bool.{Bool, true, false}
use mathlib.Core.List.{List, [], ◌∷◌, ◌++◌}
use native.Mathlib.Omega.{arith}
use native.Mathlib.Nat.{pow-succ', div-div-eq-div-mul, div-one, zero-div, zero-mod}
use mate_corba.Prelude.Tests.{if◌then◌else◌}
use mate_corba.Prelude.Lists.{length, get_or}

abbrev pub u32_mod : ℕ
u32_mod = 2 ^ 32

abbrev pub u64_mod : ℕ
u64_mod = 2 ^ 64

abbrev and_digits : ℕ → ℕ → ℕ → ℕ
and_digits n a b = digits (λ b. zero) min n a b

pow_pos : (k : ℕ) → 1 ≤ 2 ^ k
pow_pos zero = omega arith
pow_pos (suc k) = omega (arith, pow-succ' 2 k, pow_pos k)

digits-zero : (n a : ℕ) → and_digits n a 0 ≡ 0
digits-zero zero a = refl
digits-zero (suc n) zero = refl
digits-zero (suc n) (suc a) = omega (arith, digits-zero n (suc a / 2))

-- One step of the remainder by a power of two.
mod_step : (a p : ℕ) → 1 ≤ p → a / 2 % p * 2 + a % 2 ≡ a % (2 * p)
mod_step a p h = grind arith

low-zero : (a p : ℕ) → a ≤ 0 → 1 ≤ p → 0 ≡ a % p
low-zero zero p h k = omega arith
low-zero (suc a) p h k = absurd (omega arith)

half_mask : (p : ℕ) → 1 ≤ p → ((2 * p - 1) / 2 ≡ p - 1) × ((2 * p - 1) % 2 ≡ 1)
half_mask p h = omega arith

digits-low : (n k a : ℕ) → a ≤ n → and_digits n a (2 ^ k - 1) ≡ a % 2 ^ k
digits-low zero k a h = low-zero a (2 ^ k) h (pow_pos k)
digits-low (suc n) k zero h = low-zero 0 (2 ^ k) (omega arith) (pow_pos k)
digits-low (suc n) zero (suc a) h = omega (arith, digits-zero n (suc a / 2))
digits-low (suc n) (suc k) (suc a) h =
    rw
      (
        pow-succ' 2 k,
        (half_mask (2 ^ k) (pow_pos k)).0,
        (half_mask (2 ^ k) (pow_pos k)).1,
        digits-low n k (suc a / 2) (omega arith),
      )
      (omega (arith, mod_step (suc a) (2 ^ k) (pow_pos k)))

double_half : (p m : ℕ) → (2 * p * m / 2 ≡ p * m) × (2 * p * m % 2 ≡ 0)
double_half p m = omega arith

-- Nothing is left of zero.
high-zero : (a p q : ℕ) → a ≤ 0 → 1 ≤ q → 0 ≡ a / p % q * p
high-zero zero p q h k = rw (zero-div p, zero-mod q) (omega arith)
high-zero (suc a) p q h k = absurd (omega arith)

double_product : (d p : ℕ) → d * p * 2 + 0 ≡ d * (2 * p)
double_product d p = omega arith

digits-high :
    (n j k a : ℕ) → a ≤ n → and_digits n a (2 ^ j * (2 ^ k - 1)) ≡ a / 2 ^ j % 2 ^ k * 2 ^ j
digits-high n zero k a h =
    let e : 2 ^ 0 * (2 ^ k - 1) ≡ 2 ^ k - 1 = omega arith in
    rw (e, div-one a) (omega (arith, digits-low n k a h))
digits-high zero (suc j) k a h = high-zero a (2 ^ suc j) (2 ^ k) h (pow_pos k)
digits-high (suc n) (suc j) k zero h = high-zero 0 (2 ^ suc j) (2 ^ k) (omega arith) (pow_pos k)
digits-high (suc n) (suc j) k (suc a) h =
    rw
      (
        pow-succ' 2 j,
        (double_half (2 ^ j) (2 ^ k - 1)).0,
        (double_half (2 ^ j) (2 ^ k - 1)).1,
        digits-high n j k (suc a / 2) (omega arith),
        div-div-eq-div-mul (suc a) 2 (2 ^ j),
      )
      (omega arith)

pub bit_and-low : (a k : ℕ) → bit_and a (2 ^ k - 1) ≡ a % 2 ^ k
bit_and-low a k = bit_and-bitwise a (2 ^ k - 1) ∙ digits-low a k a (omega arith)

pub bit_and-high : (a j k : ℕ) → bit_and a (2 ^ j * (2 ^ k - 1)) ≡ a / 2 ^ j % 2 ^ k * 2 ^ j
bit_and-high a j k = bit_and-bitwise a (2 ^ j * (2 ^ k - 1)) ∙ digits-high a j k a (omega arith)

-- The order of the bytes of a word in memory.
pub data Endian : Type 0 where
  big little : Endian

-- Whether two orders differ.
abbrev pub differ : Endian → Endian → Bool
differ big big = false
differ big little = true
differ little big = true
differ little little = false

-- The four bytes of a 32-bit word, as a host of that order keeps them.
unfoldable pub u32_bytes : Endian → ℕ → List ℕ
u32_bytes little v = (v % 256) ∷ (v / 256 % 256) ∷ (v / 65536 % 256) ∷ (v / 16777216 % 256) ∷ []
u32_bytes big v = (v / 16777216 % 256) ∷ (v / 65536 % 256) ∷ (v / 256 % 256) ∷ (v % 256) ∷ []

unfoldable pub u16_bytes : Endian → ℕ → List ℕ
u16_bytes little v = (v % 256) ∷ (v / 256 % 256) ∷ []
u16_bytes big v = (v / 256 % 256) ∷ (v % 256) ∷ []

-- `*(guint32 *) cur` on a host of that order, where `xs` is the memory from `cur` on.
unfoldable pub u32_of : Endian → List ℕ → ℕ
u32_of little xs =
    get_or xs 0 0 + 256 * get_or xs 1 0 + 65536 * get_or xs 2 0 + 16777216 * get_or xs 3 0
u32_of big xs =
    get_or xs 3 0 + 256 * get_or xs 2 0 + 65536 * get_or xs 1 0 + 16777216 * get_or xs 0 0

unfoldable pub u16_of : Endian → List ℕ → ℕ
u16_of little xs = get_or xs 0 0 + 256 * get_or xs 1 0
u16_of big xs = get_or xs 1 0 + 256 * get_or xs 0 0

-- GUINT32_SWAP_LE_BE and GUINT16_SWAP_LE_BE.
unfoldable pub swap32 : ℕ → ℕ
swap32 v = v % 256 * 16777216 + v / 256 % 256 * 65536 + v / 65536 % 256 * 256 + v / 16777216 % 256

unfoldable pub swap16 : ℕ → ℕ
swap16 v = v % 256 * 256 + v / 256 % 256

abbrev pub read_u32 : Endian → Bool → List ℕ → ℕ
read_u32 host swap xs = if swap then swap32 (u32_of host xs) else u32_of host xs

abbrev pub read_u16 : Endian → Bool → List ℕ → ℕ
read_u16 host swap xs = if swap then swap16 (u16_of host xs) else u16_of host xs

pub length-u32_bytes : (e : Endian) (v : ℕ) → length (u32_bytes e v) ≡ 4
unfolding u32_bytes
length-u32_bytes big v = refl
length-u32_bytes little v = refl

pub length-u16_bytes : (e : Endian) (v : ℕ) → length (u16_bytes e v) ≡ 2
unfolding u16_bytes
length-u16_bytes big v = refl
length-u16_bytes little v = refl

-- A word is read back whatever the orders of the writer and of the reader are.
pub read_u32-u32_bytes :
    (host sender : Endian) (v : ℕ) (rest : List ℕ)
    → v < u32_mod
    → read_u32 host (differ sender host) (u32_bytes sender v ++ rest) ≡ v
unfolding u32_bytes u32_of swap32
read_u32-u32_bytes big big v rest h = omega arith
read_u32-u32_bytes big little v rest h = omega arith
read_u32-u32_bytes little big v rest h = omega arith
read_u32-u32_bytes little little v rest h = omega arith

pub read_u16-u16_bytes :
    (host sender : Endian) (v : ℕ) (rest : List ℕ)
    → v < 65536
    → read_u16 host (differ sender host) (u16_bytes sender v ++ rest) ≡ v
unfolding u16_bytes u16_of swap16
read_u16-u16_bytes big big v rest h = omega arith
read_u16-u16_bytes big little v rest h = omega arith
read_u16-u16_bytes little big v rest h = omega arith
read_u16-u16_bytes little little v rest h = omega arith
