-- ===== src/Any/Words.antt =====
-- Words of any number of bytes: a value in memory in the order of a host, and giop_byteswap of
-- corba-any.c, which turns the bytes of a word round.
pub mod RoundTrip
use mathlib.Core.List.{reverse}
use mate_corba.Prelude.{
  ℕ, zero, suc, ◌+◌, ◌*◌, ◌/◌, ◌%◌, ◌^◌, ◌<◌, ◌≡◌, refl, ap, ◌∙◌, arith, List, [], ◌∷◌, ◌++◌,
  length, take, Bool, if◌then◌else◌, Endian, big, little, differ,
}

-- The bytes of a word, the lowest first, and the word of such bytes.
unfoldable pub low_bytes : ℕ → ℕ → List ℕ
low_bytes zero v = []
low_bytes (suc n) v = (v % 256) ∷ low_bytes n (v / 256)

unfoldable pub low_value : List ℕ → ℕ
low_value [] = 0
low_value (x ∷ xs) = x + 256 * low_value xs

-- The bytes of a word of `n` bytes in the memory of a host, and what the host reads from them.
unfoldable pub word_bytes : Endian → ℕ → ℕ → List ℕ
word_bytes little n v = low_bytes n v
word_bytes big n v = reverse (low_bytes n v)

unfoldable pub word_of : Endian → List ℕ → ℕ
word_of little xs = low_value xs
word_of big xs = low_value (reverse xs)

-- giop_byteswap
unfoldable pub giop_byteswap : List ℕ → List ℕ
giop_byteswap xs = reverse xs

-- *ptr = *cur, or giop_byteswap (ptr, cur, n) where a conversion is needed.
unfoldable pub read_word : Endian → Bool → ℕ → List ℕ → ℕ
read_word host swap n memory =
    word_of host (if swap then giop_byteswap (take n memory) else take n memory)
