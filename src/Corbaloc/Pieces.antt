-- ===== src/Corbaloc/Pieces.antt =====
-- What the text functions find in a text that was put together.
use mate_corba.Prelude.{
  ℕ, zero, suc, ◌+◌, ◌-◌, ◌*◌, ◌/◌, ◌%◌, ◌^◌, ◌≤◌, ◌<◌, ◌≡◌, ◌⊎◌, refl, ap, ◌∙◌, arith, List, [],
  ◌∷◌, ◌++◌, Bool, Bool-cases, true, false, inl, inr, ◌&&◌, ◌||◌, ltb, ◌==◌, if◌then◌else◌, Option,
  none, some, All, All-append,
}
use mate_corba.Corbaloc.Texts.{
  strchr, in_front, strrchr, last_of, contains, pieces, before_pieces, strsplit, is_digit,
  is_xdigit, all_digits, atoi_from, atoi, decimal, xdigit,
}
use mate_corba.Corbaloc.Parse.{from_xdigit, decoded, url_decode}
use mate_corba.Corbaloc.Print.{url_encode}

-- A character does not stand in a text.
abbrev pub Lacks : ℕ → List ℕ → Type 0
Lacks c text = All (λ x. (x == c) ≡ false) text

pub strchr-append : (c : ℕ) (a b : List ℕ) → Lacks c a → strchr c (a ++ (c ∷ b)) ≡ some (a, b)
unfolding strchr
strchr-append c [] b h = let same : (c == c) ≡ true = ground arith in rw same refl
strchr-append c (x ∷ a) b (h, hs) = rw h (ap (λ r. in_front x r) (strchr-append c a b hs))

pub strrchr-none : (c : ℕ) (text : List ℕ) → Lacks c text → strrchr c text ≡ none
unfolding strrchr
strrchr-none c [] h = refl
strrchr-none c (x ∷ xs) (h, hs) =
    ap (λ r. last_of c x xs r) (strrchr-none c xs hs)
    ∙ ap (λ b. if b then some ([], xs) else none) h

pub strrchr-append : (c : ℕ) (a b : List ℕ) → Lacks c b → strrchr c (a ++ (c ∷ b)) ≡ some (a, b)
unfolding strrchr
strrchr-append c [] b h =
    let same : (c == c) ≡ true = ground arith in
    ap (λ r. last_of c c b r) (strrchr-none c b h) ∙ ap (λ x. if x then some ([], b) else none) same
strrchr-append c (x ∷ a) b h = ap (λ r. last_of c x (a ++ (c ∷ b)) r) (strrchr-append c a b h)

pub contains-append : (c : ℕ) (a b : List ℕ) → contains c (a ++ (c ∷ b)) ≡ true
unfolding contains
contains-append c [] b = let same : (c == c) ≡ true = ground arith in rw same refl
contains-append c (x ∷ a) b = ap (λ r. (x == c) || r) (contains-append c a b) ∙ or_true (x == c)
  where
    or_true : (b : Bool) → (b || true) ≡ true
    or_true true = refl
    or_true false = refl

pieces-Lacks : (c : ℕ) (text : List ℕ) → Lacks c text → pieces c text ≡ text ∷ []
unfolding pieces
pieces-Lacks c [] h = refl
pieces-Lacks c (x ∷ xs) (h, hs) = rw h (ap (λ r. before_pieces x r) (pieces-Lacks c xs hs))

pieces-append : (c : ℕ) (a b : List ℕ) → Lacks c a → pieces c (a ++ (c ∷ b)) ≡ a ∷ pieces c b
unfolding pieces
pieces-append c [] b h = let same : (c == c) ≡ true = ground arith in rw same refl
pieces-append c (x ∷ a) b (h, hs) = rw h (ap (λ r. before_pieces x r) (pieces-append c a b hs))

pub strsplit-append :
    (c x : ℕ) (a b : List ℕ)
    → Lacks c (x ∷ a)
    → strsplit c ((x ∷ a) ++ (c ∷ b)) ≡ (x ∷ a) ∷ pieces c b
unfolding strsplit
strsplit-append c x a b h = pieces-append c (x ∷ a) b h

pub strsplit-Lacks :
    (c x : ℕ) (text : List ℕ) → Lacks c (x ∷ text) → strsplit c (x ∷ text) ≡ (x ∷ text) ∷ []
unfolding strsplit
strsplit-Lacks c x text h = pieces-Lacks c (x ∷ text) h

-- The digits of a number.
abbrev pub IsDigits : List ℕ → Type 0
IsDigits text = All (λ c. (48 ≤ c) × (c < 58)) text

pub decimal-IsDigits : (fuel n : ℕ) → IsDigits (decimal fuel n)
unfolding decimal
decimal-IsDigits zero n = tt
decimal-IsDigits (suc fuel) n =
    let last : (48 ≤ 48 + n % 10) × (48 + n % 10 < 58) = (omega arith, omega arith) in
    elim (Bool-cases (ltb n 10)) [
      | inl e ↦ rw e (last, tt)
      | inr e ↦
          rw e
            (All-append (λ c. (48 ≤ c) × (c < 58)) _ _ (decimal-IsDigits fuel (n / 10)) (last, tt))
    ]

pub IsDigits-Lacks : (c : ℕ) (text : List ℕ) → (c < 48) ⊎ (57 < c) → IsDigits text → Lacks c text
IsDigits-Lacks c [] out h = tt
IsDigits-Lacks c (x ∷ xs) out ((l, u), hs) = (ground arith, IsDigits-Lacks c xs out hs)

pub all_digits-IsDigits : (text : List ℕ) → IsDigits text → all_digits text ≡ true
unfolding all_digits
all_digits-IsDigits [] h = refl
all_digits-IsDigits (c ∷ cs) ((l, u), hs) =
    let e : is_digit c ≡ true = ground arith in rw (e, all_digits-IsDigits cs hs) refl

atoi_from-append :
    (n : ℕ) (a : List ℕ) (c : ℕ) → atoi_from n (a ++ (c ∷ [])) ≡ atoi_from n a * 10 + (c - 48)
unfolding atoi_from
atoi_from-append n [] c = refl
atoi_from-append n (x ∷ a) c = atoi_from-append (n * 10 + (x - 48)) a c

atoi_from-decimal : (fuel n : ℕ) → n < 10 ^ suc fuel → atoi_from 0 (decimal (suc fuel) n) ≡ n
unfolding decimal atoi_from
atoi_from-decimal zero n h = let e : ltb n 10 ≡ true = ground arith in rw e (omega arith)
atoi_from-decimal (suc fuel) n h = elim (Bool-cases (ltb n 10)) [
  | inl e ↦ let small : n < 10 = ground arith in rw e (omega (arith, small))
  | inr e ↦ rw e (
      atoi_from-append 0 (decimal (suc fuel) (n / 10)) (48 + n % 10)
      ∙ ap (λ x. x * 10 + (48 + n % 10 - 48)) (atoi_from-decimal fuel (n / 10) (omega (arith, h)))
      ∙ omega arith)
]

pub atoi-decimal : (fuel n : ℕ) → n < 10 ^ suc fuel → n < 65536 → atoi (decimal (suc fuel) n) ≡ n
unfolding atoi
atoi-decimal fuel n h small =
    let e = atoi_from-decimal fuel n h in
    let fits : ltb 0x7fffffffffffffff n ≡ false = ground arith in
    rw (e, fits) (omega (arith, small))

-- A hexadecimal digit is read back, and so is a key.
xdigit_lem : (n : ℕ) → n < 16 → (is_xdigit (xdigit n) ≡ true) × (from_xdigit (xdigit n) ≡ n)
unfolding from_xdigit
xdigit_lem n h = (ground arith, ground arith)

url_decode-escaped :
    (d e : ℕ) (rest : List ℕ)
    → is_xdigit d ≡ true
    → is_xdigit e ≡ true
    → url_decode (37 ∷ d ∷ e ∷ rest)
      ≡ decoded (from_xdigit d * 16 + from_xdigit e) (url_decode rest)
unfolding url_decode
url_decode-escaped d e rest h k =
    ap
      (λ b. elim b as (λ x. Option (List ℕ)) [
        | true ↦ decoded (from_xdigit d * 16 + from_xdigit e) (url_decode rest)
        | false ↦ none
      ])
      (ap (λ b. b && is_xdigit e) h ∙ k)

pub url_decode-url_encode :
    (key : List ℕ) → All (λ c. c < 256) key → url_decode (url_encode key) ≡ some key
unfolding url_decode url_encode
url_decode-url_encode [] h = refl
url_decode-url_encode (c ∷ cs) (h, hs) =
    let (a, p) = xdigit_lem (c / 16) (omega (arith, h)) in
    let (b, q) = xdigit_lem (c % 16) (omega arith) in
    url_decode-escaped (xdigit (c / 16)) (xdigit (c % 16)) (url_encode cs) a b
    ∙ ap (λ x. decoded (x * 16 + from_xdigit (xdigit (c % 16))) (url_decode (url_encode cs))) p
    ∙ ap (λ x. decoded (c / 16 * 16 + x) (url_decode (url_encode cs))) q
    ∙ ap (λ r. decoded (c / 16 * 16 + c % 16) r) (url_decode-url_encode cs hs)
    ∙ ap (λ x. some (x ∷ cs)) (omega arith)

pub url_encode-Lacks :
    (x : ℕ) (key : List ℕ)
    → 37 < x
    → x < 97
    → (x < 48) ⊎ (57 < x)
    → All (λ c. c < 256) key
    → Lacks x (url_encode key)
unfolding url_encode
url_encode-Lacks x [] low high out h = tt
url_encode-Lacks x (c ∷ cs) low high out (h, hs) =
    (ground arith, (ground arith, (ground arith, url_encode-Lacks x cs low high out hs)))
