-- ===== src/Corbaloc/Texts.antt =====
-- C strings as lists of character codes, without the NUL, and the functions of the C library and
-- of GLib that corba-loc.c calls on them.
use mate_corba.Prelude.{
  ℕ, zero, suc, ◌+◌, ◌-◌, ◌*◌, ◌/◌, ◌%◌, List, [], ◌∷◌, ◌++◌, Bool, true, false, ◌&&◌, ◌||◌, ltb,
  leb, ◌==◌, if◌then◌else◌, Option, none, some, u32_mod,
}

-- Going on unless the pointer is NULL.
unfoldable pub unless_null : {A B : Type 0} → Option A → (A → Option B) → Option B
unless_null none k = none
unless_null (some a) k = k a

-- !strncmp (text, prefix, strlen (prefix))
unfoldable pub starts_with : List ℕ → List ℕ → Bool
starts_with [] text = true
starts_with (p ∷ ps) [] = false
starts_with (p ∷ ps) (c ∷ cs) = (c == p) && starts_with ps cs

abbrev pub in_front : ℕ → Option (List ℕ × List ℕ) → Option (List ℕ × List ℕ)
in_front x none = none
in_front x (some (a, b)) = some (x ∷ a, b)

-- strchr, and the end of the text put where it points: what stands before the first `c`, and
-- behind it.
unfoldable pub strchr : ℕ → List ℕ → Option (List ℕ × List ℕ)
strchr c [] = none
strchr c (x ∷ xs) = let rest = strchr c xs in if x == c then some ([], xs) else in_front x rest

-- strrchr, in the same way.
abbrev pub last_of : ℕ → ℕ → List ℕ → Option (List ℕ × List ℕ) → Option (List ℕ × List ℕ)
last_of c x xs none = if x == c then some ([], xs) else none
last_of c x xs (some (a, b)) = some (x ∷ a, b)

unfoldable pub strrchr : ℕ → List ℕ → Option (List ℕ × List ℕ)
strrchr c [] = none
strrchr c (x ∷ xs) = last_of c x xs (strrchr c xs)

-- strchr as a test.
unfoldable pub contains : ℕ → List ℕ → Bool
contains c [] = false
contains c (x ∷ xs) = (x == c) || contains c xs

abbrev pub is_empty : List ℕ → Bool
is_empty [] = true
is_empty (x ∷ xs) = false

-- g_strsplit at a character, which gives no piece of an empty text.
abbrev pub before_pieces : ℕ → List (List ℕ) → List (List ℕ)
before_pieces x [] = (x ∷ []) ∷ []
before_pieces x (p ∷ ps) = (x ∷ p) ∷ ps

unfoldable pub pieces : ℕ → List ℕ → List (List ℕ)
pieces c [] = [] ∷ []
pieces c (x ∷ xs) = let rest = pieces c xs in if x == c then [] ∷ rest else before_pieces x rest

unfoldable pub strsplit : ℕ → List ℕ → List (List ℕ)
strsplit c [] = []
strsplit c (x ∷ xs) = pieces c (x ∷ xs)

-- isdigit and isxdigit in the C locale.
abbrev pub is_digit : ℕ → Bool
is_digit c = leb 48 c && leb c 57

abbrev pub is_xdigit : ℕ → Bool
is_xdigit c = is_digit c || ((leb 97 c && leb c 102) || (leb 65 c && leb c 70))

unfoldable pub all_digits : List ℕ → Bool
all_digits [] = true
all_digits (c ∷ cs) = is_digit c && all_digits cs

-- The number that digits stand for.
unfoldable pub atoi_from : ℕ → List ℕ → ℕ
atoi_from n [] = n
atoi_from n (c ∷ cs) = atoi_from (n * 10 + (c - 48)) cs

-- atoi of digits, as (int) strtol: a number that a long cannot hold becomes the largest long, and the
-- int keeps 32 bits of it, of which the upper half are negative. What atoi makes of other texts
-- does not matter here: they are refused behind it.
unfoldable pub atoi : List ℕ → ℕ
atoi text =
    let n = atoi_from 0 text in
    (if ltb 0x7fffffffffffffff n then 0x7fffffffffffffff else n) % u32_mod

-- %d of a number of at most `fuel` digits.
unfoldable pub decimal : ℕ → ℕ → List ℕ
decimal zero n = []
decimal (suc fuel) n =
    let rest = decimal fuel (n / 10) in (if ltb n 10 then [] else rest) ++ ((48 + n % 10) ∷ [])

-- %02x of an octet.
abbrev pub xdigit : ℕ → ℕ
xdigit n = if ltb n 10 then 48 + n else 87 + n

abbrev pub hex : ℕ → List ℕ
hex n = xdigit (n / 16) ∷ xdigit (n % 16) ∷ []
