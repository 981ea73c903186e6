-- ===== src/Any/Words/RoundTrip.antt =====
-- A word is read back whatever the orders of the writer and of the reader are.
use mathlib.Core.List.{reverse, reverse-cons, reverse-reverse}
use native.Mathlib.Nat.{pow-succ'}
use mate_corba.Prelude.{
  ℕ, zero, suc, ◌*◌, ◌/◌, ◌^◌, ◌<◌, ◌≡◌, refl, ap, ◌∙◌, arith, List, [], ◌∷◌, ◌++◌, length, take,
  take-append, length-append, if◌then◌else◌, Endian, big, little, differ,
}
use mate_corba.Any.Words.{low_bytes, low_value, word_bytes, word_of, giop_byteswap, read_word}

pub length-reverse : (xs : List ℕ) → length (reverse xs) ≡ length xs
length-reverse [] = refl
length-reverse (x ∷ xs) =
    rw (reverse-cons x xs) (omega (arith, length-append (reverse xs) (x ∷ []), length-reverse xs))

length-low_bytes : (n v : ℕ) → length (low_bytes n v) ≡ n
unfolding low_bytes
length-low_bytes zero v = refl
length-low_bytes (suc n) v = ap suc (length-low_bytes n (v / 256))

pub length-word_bytes : (host : Endian) (n v : ℕ) → length (word_bytes host n v) ≡ n
unfolding word_bytes
length-word_bytes little n v = length-low_bytes n v
length-word_bytes big n v = length-reverse (low_bytes n v) ∙ length-low_bytes n v

below : (v p : ℕ) → v < 256 * p → v / 256 < p
below v p h = omega arith

low_value-low_bytes : (n v : ℕ) → v < 256 ^ n → low_value (low_bytes n v) ≡ v
unfolding low_bytes low_value
low_value-low_bytes zero v h = omega arith
low_value-low_bytes (suc n) v h =
    omega (
      arith,
      low_value-low_bytes n (v / 256) (below v (256 ^ n) (omega (arith, h, pow-succ' 256 n))),
    )

words_back :
    (host sender : Endian) (n v : ℕ)
    → v < 256 ^ n
    → word_of host (
        if differ sender host then giop_byteswap (word_bytes sender n v) else word_bytes sender n v)
      ≡ v
unfolding word_bytes word_of giop_byteswap
words_back big big n v h = rw (reverse-reverse (low_bytes n v)) (low_value-low_bytes n v h)
words_back big little n v h = rw (reverse-reverse (low_bytes n v)) (low_value-low_bytes n v h)
words_back little big n v h = rw (reverse-reverse (low_bytes n v)) (low_value-low_bytes n v h)
words_back little little n v h = low_value-low_bytes n v h

pub read_word-word_bytes :
    (host sender : Endian) (n v : ℕ) (rest : List ℕ)
    → v < 256 ^ n
    → read_word host (differ sender host) n (word_bytes sender n v ++ rest) ≡ v
unfolding read_word
read_word-word_bytes host sender n v rest h =
    let e : take n (word_bytes sender n v ++ rest) ≡ word_bytes sender n v =
      rw (length-word_bytes sender n v) at (take-append (word_bytes sender n v) rest) in
    rw e (words_back host sender n v h)
