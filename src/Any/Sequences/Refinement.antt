-- ===== src/Any/Sequences/Refinement.antt =====
-- The sequence functions, as functions on the list of a sequence's elements.
use Prim.Native.Nat.{max}
use native.Mathlib.Nat.{mul-le-mul_left}
use mate_corba.Prelude.{
  ℕ, zero, suc, ◌+◌, ◌-◌, ◌*◌, ◌%◌, ◌≤◌, ◌<◌, ◌≡◌, ◌⊎◌, refl, sym, ap, ◌∙◌, arith, List, [], ◌∷◌,
  ◌++◌, length, take, drop, replicate, Bool, Bool-cases, true, false, inl, inr, ltb, ◌==◌, ==_iff,
  ◌||◌, Option, none, some, u32_mod, length-append, length-take, length-drop, length-replicate,
  take-append, append_assoc, append-nil,
}
use mate_corba.Any.Sequences.{
  Sequence, or_abort, fits, realloc_tcval, grow, shrink, set_size, put_last, sequence_append,
  sequence_remove, append_all, sequence_concat,
}

-- The elements.
abbrev pub elements : {A : Type 0} → Sequence A → List A
elements s = take s.len s.buffer

pub record IsValid {A : Type 0} (element_size : ℕ) (s : Sequence A) : Type 0 where
  pub whole : length s.buffer ≡ s.maximum
  pub within : s.len ≤ s.maximum
  pub small : s.maximum < u32_mod
  pub sized : element_size * s.maximum < u32_mod

-- The code went on, with a result that meets `Q`.
abbrev pub Ensures : {A : Type 0} → (A → Type 0) → Option A → Type 0
Ensures Q none = ⊥
Ensures Q (some a) = Q a

-- A well-formed sequence of those elements.
abbrev pub Holds : {A : Type 0} → ℕ → List A → Sequence A → Type 0
Holds element_size xs s = IsValid element_size s × (elements s ≡ xs)

pub Ensures-or_abort :
    {A B : Type 0} (Q : A → Type 0) (R : B → Type 0) (m : Option A) (k : A → Option B)
    → Ensures Q m
    → ((a : A) → Q a → Ensures R (k a))
    → Ensures R (or_abort m k)
unfolding or_abort
Ensures-or_abort Q R none k q f = absurd q
Ensures-or_abort Q R (some a) k q f = f a q

module _ {A : Type 0} where
  -- What stands before the end of the first part.
  take-front : (n : ℕ) (xs ys : List A) → n ≤ length xs → take n (xs ++ ys) ≡ take n xs
  take-front zero xs ys h = refl
  take-front (suc n) [] ys h = absurd (omega arith)
  take-front (suc n) (x ∷ xs) ys h = ap (◌∷◌ x) (take-front n xs ys (omega arith))

  take-take : (n m : ℕ) (xs : List A) → n ≤ m → take n (take m xs) ≡ take n xs
  take-take zero m xs h = refl
  take-take (suc n) zero xs h = absurd (omega arith)
  take-take (suc n) (suc m) [] h = refl
  take-take (suc n) (suc m) (x ∷ xs) h = ap (◌∷◌ x) (take-take n m xs (omega arith))

  drop-take : (k n m : ℕ) (xs : List A) → n ≡ k + m → drop k (take n xs) ≡ take m (drop k xs)
  drop-take zero n m xs e = ap (λ l. take l xs) (omega (arith, e))
  drop-take (suc k) zero m xs e = absurd (omega (arith, e))
  drop-take (suc k) (suc n) zero [] e = refl
  drop-take (suc k) (suc n) (suc m) [] e = refl
  drop-take (suc k) (suc n) m (x ∷ xs) e = drop-take k n m xs (omega (arith, e))

  take-last :
      (n : ℕ) (xs : List A) (x : A) (ys : List A)
      → length xs ≡ n
      → take (suc n) (xs ++ (x ∷ ys)) ≡ xs ++ (x ∷ [])
  take-last zero [] x ys e = refl
  take-last zero (y ∷ xs) x ys e = absurd (omega (arith, e))
  take-last (suc n) [] x ys e = absurd (omega (arith, e))
  take-last (suc n) (y ∷ xs) x ys e = ap (◌∷◌ y) (take-last n xs x ys (omega (arith, e)))

module _ {A : Type 0} (element_size : ℕ) (blank : A) (copy : A → A) (is_base : Bool) where
  -- A sequence that has grown to `n` slots.
  abbrev IsGrown : Sequence A → ℕ → Sequence A → Type 0
  IsGrown s n g =
      IsValid element_size g × (g.len ≡ s.len) × (g.maximum ≡ n) × (elements g ≡ elements s)

  grow-IsGrown :
      (s : Sequence A) (n : ℕ)
      → IsValid element_size s
      → s.maximum < n
      → n < u32_mod
      → element_size * n < u32_mod
      → Ensures (IsGrown s n) (grow element_size blank copy is_base s n)
  unfolding grow realloc_tcval or_abort fits
  grow-IsGrown s n v h small bytes =
      let e : ltb s.maximum n ≡ true = ground arith in
      let f : ltb (element_size * n) u32_mod ≡ true = ground arith in
      rw (e, f)
        (
          record {
            whole = omega (
              arith,
              h,
              v.whole,
              length-append s.buffer (replicate (n - s.maximum) blank),
              length-replicate (n - s.maximum) blank,
            );
            within = omega (arith, v.within, h);
            small = small;
            sized = bytes;
          },
          refl,
          refl,
          take-front s.len s.buffer _ (omega (arith, v.within, v.whole)),
        )

  -- One element more, in a buffer that at most doubles.
  abbrev pub IsAppended : Sequence A → A → Sequence A → Type 0
  IsAppended s x r =
      IsValid element_size r
      × (elements r ≡ elements s ++ (copy x ∷ []))
      × (r.len ≡ suc s.len)
      × (r.maximum ≤ max s.maximum (2 * suc s.len))

  put_last-IsAppended :
      (s g : Sequence A) (x : A)
      → IsValid element_size g
      → (g.len ≡ s.len)
      → (elements g ≡ elements s)
      → s.len < g.maximum
      → g.maximum ≤ max s.maximum (2 * suc s.len)
      → Ensures (IsAppended s x) (put_last element_size blank copy is_base g x)
  unfolding put_last fits
  put_last-IsAppended s g x v same kept h bound =
      let n = length-take g.len g.buffer (omega (arith, v.whole, h, same)) in
      let e : suc g.len % u32_mod ≡ suc g.len = omega (arith, h, v.small, same) in
      let f : ltb (element_size * suc g.len) u32_mod ≡ true = ground (
        arith,
        v.sized,
        mul-le-mul_left {m = suc g.len} {n = g.maximum} element_size (omega (arith, h, same)),
      ) in
      rw (f, e)
        (
          record {
            whole = omega (
              arith,
              v.whole,
              h,
              n,
              same,
              length-append (take g.len g.buffer) (copy x ∷ drop (suc g.len) g.buffer),
              length-drop (suc g.len) g.buffer,
            );
            within = omega (arith, h, same);
            small = v.small;
            sized = v.sized;
          },
          take-last g.len (take g.len g.buffer) (copy x) _ n ∙ ap (λ t. t ++ (copy x ∷ [])) kept,
          ap suc same,
          bound,
        )

  -- Appending to a well-formed sequence, where twice its maximum, or two, counts fewer than
  -- 2^32 elements and fewer than 2^32 bytes, does not abort and computes no size that wraps:
  -- the sequence has the old elements and a copy of the new one, is well-formed, so that the
  -- element was written inside the buffer, and its maximum is no more than the old one or twice
  -- the new length.
  pub sequence_append-IsAppended :
      (s : Sequence A) (x : A)
      → IsValid element_size s
      → s.maximum * 2 < u32_mod
      → element_size * max 2 (s.maximum * 2) < u32_mod
      → Ensures (IsAppended s x) (sequence_append element_size blank copy is_base s x)
  unfolding sequence_append
  sequence_append-IsAppended s x v room bytes =
      let valid : ltb s.maximum s.len ≡ false = ground (arith, v.within) in
      let fit : s.maximum * 2 % u32_mod ≡ s.maximum * 2 = omega (arith, room) in
      elim (Bool-cases (s.len == s.maximum)) [
        | inl e ↦
            let full = (==_iff s.len s.maximum).0 e in
            rw (valid, e)
              (Ensures-or_abort (IsGrown s (max 2 (s.maximum * 2 % u32_mod))) (IsAppended s x) _ _
                (grow-IsGrown s (max 2 (s.maximum * 2 % u32_mod)) v (ground (arith, room))
                  (ground (arith, room)) (rw fit bytes))
                (λ g (w, a, b, c).
                  put_last-IsAppended s g x w a c (ground (arith, b, room))
                    (ground (arith, b, room))))
        | inr e ↦
            rw (valid, e)
              (Ensures-or_abort (λ g. g ≡ s) (IsAppended s x) (some s) _ refl
                (λ g q. rw q (
                  put_last-IsAppended s s x v refl refl (ground (arith, v.within)) (ground arith))))
      ]

  -- The bytes of the elements of a well-formed sequence do not wrap.
  fits_len : (s : Sequence A) → IsValid element_size s → ltb (element_size * s.len) u32_mod ≡ true
  fits_len s v =
      ground (arith, v.sized, mul-le-mul_left {m = s.len} {n = s.maximum} element_size v.within)

  -- A well-formed sequence loses the element of an index that is in range.
  pub sequence_remove-Holds :
      (s : Sequence A) (idx : ℕ)
      → IsValid element_size s
      → idx < s.len
      → Ensures
          (Holds element_size (take idx (elements s) ++ drop (suc idx) (elements s)))
          (sequence_remove element_size blank copy is_base s idx)
  unfolding sequence_remove fits
  sequence_remove-Holds s idx v h =
      let valid : ltb s.maximum s.len ≡ false = ground (arith, v.within) in
      let in_range : ltb idx s.len ≡ true = ground arith in
      let a = take idx s.buffer in
      let b = take (s.len - idx - 1) (drop (suc idx) s.buffer) in
      let na = length-take idx s.buffer (omega (arith, v.whole, v.within, h)) in
      let nd = length-drop (suc idx) s.buffer in
      let nb =
        length-take (s.len - idx - 1) (drop (suc idx) s.buffer)
          (omega (arith, v.whole, v.within, h, nd)) in
      let nab = length-append a b in
      let f = fits_len s v in
      rw (valid, in_range, f)
        (
          record {
            whole = omega (
              arith,
              v.whole,
              v.within,
              h,
              na,
              nb,
              nab,
              length-append a (b ++ (blank ∷ drop s.len s.buffer)),
              length-append b (blank ∷ drop s.len s.buffer),
              length-drop s.len s.buffer,
            );
            within = omega (arith, v.within);
            small = v.small;
            sized = v.sized;
          },
          kept (s.len - 1) a b _ _ _ (omega (arith, h, na, nb, nab))
              (take-take idx s.len s.buffer (omega (arith, h)))
              (drop-take (suc idx) s.len (s.len - idx - 1) s.buffer (omega (arith, h))),
        )
    where
      kept :
          (n : ℕ) (a b c x y : List A)
          → length (a ++ b) ≡ n
          → x ≡ a
          → y ≡ b
          → take n (a ++ (b ++ c)) ≡ x ++ y
      kept n a b c x y e p q = rw (p, q, ← e, ← append_assoc) (take-append (a ++ b) c)

  or-true : (x : Bool) → (x || true) ≡ true
  or-true true = refl
  or-true false = refl

  shrink-IsValid :
      (s : Sequence A) (n : ℕ)
      → IsValid element_size s
      → n < s.len
      → (length (shrink element_size blank copy is_base s n) ≡ s.maximum)
        × (take n (shrink element_size blank copy is_base s n) ≡ take n (elements s))
  unfolding shrink
  shrink-IsValid s n v h = elim (Bool-cases is_base) [
    | inl e ↦ rw e (v.whole, sym (take-take n s.len s.buffer (omega (arith, h))))
    | inr e ↦
        let z = replicate (s.len - n) blank in
        let nt = length-take n s.buffer (omega (arith, v.whole, v.within, h)) in
        rw e (
          omega (
            arith,
            v.whole,
            v.within,
            h,
            nt,
            length-append (take n s.buffer) (z ++ drop s.len s.buffer),
            length-append z (drop s.len s.buffer),
            length-replicate (s.len - n) blank,
            length-drop s.len s.buffer,
          ),
          (rw nt at (take-append (take n s.buffer) (z ++ drop s.len s.buffer)))
              ∙ sym (take-take n s.len s.buffer (omega (arith, h))),
        )
  ]

  -- What set_size leaves: `n` elements, of which the first are the old ones.
  abbrev pub Resized : Sequence A → ℕ → Sequence A → Type 0
  Resized s n r =
      IsValid element_size r
      × (r.len ≡ n)
      × (((s.len ≤ n) × (take s.len (elements r) ≡ elements s))
          ⊎ ((n < s.len) × (elements r ≡ take n (elements s))))

  Resized-longer :
      (s g : Sequence A) (n : ℕ)
      → IsValid element_size g
      → (g.len ≡ s.len)
      → (elements g ≡ elements s)
      → n ≤ g.maximum
      → s.len < n
      → Resized s n (record { buffer = g.buffer; len = n; maximum = g.maximum })
  Resized-longer s g n v e q h k = (
    record { whole = v.whole; within = h; small = v.small; sized = v.sized },
    refl,
    inl (
      omega (arith, k),
      take-take s.len n g.buffer (omega (arith, k)) ∙ ap (λ m. take m g.buffer) (sym e) ∙ q,
    ),
  )

  -- set_size of a well-formed sequence whose maximum is below 2^31 to a length below 2^32,
  -- where as many elements as the length or twice the maximum count fewer than 2^32 bytes, does
  -- not abort, computes no size that wraps, and leaves a well-formed sequence of that length,
  -- which starts with the old elements where it is longer and has the first of them where it is
  -- shorter.
  pub set_size-Resized :
      (s : Sequence A) (n : ℕ)
      → IsValid element_size s
      → n < u32_mod
      → s.maximum * 2 < u32_mod
      → element_size * max n (s.maximum * 2) < u32_mod
      → Ensures (Resized s n) (set_size element_size blank copy is_base s n)
  unfolding set_size or_abort fits
  set_size-Resized s n v small room bytes =
      let valid : ltb s.maximum s.len ≡ false = ground (arith, v.within) in
      let fit : s.maximum * 2 % u32_mod ≡ s.maximum * 2 = omega (arith, room) in
      let f = fits_len s v in
      elim (Bool-cases (s.len == n)) [
        | inl e ↦ rw (valid, e) (same ((==_iff _ _).0 e))
        | inr e ↦ elim (Bool-cases (ltb n s.len)) [
          | inl l ↦
              let (w, q) = shrink-IsValid s n v (ground arith) in
              rw (valid, e, l, f, or-true is_base)
                (
                  record {
                    whole = w;
                    within = ground (arith, v.within);
                    small = v.small;
                    sized = v.sized;
                  },
                  refl,
                  inr (ground arith, q),
                )
          | inr l ↦ elim (Bool-cases (ltb s.maximum n)) [
            | inl g ↦
                rw (valid, e, l, g)
                  (Ensures-or_abort (IsGrown s (max n (s.maximum * 2 % u32_mod))) (Resized s n) _ _
                    (grow-IsGrown s (max n (s.maximum * 2 % u32_mod)) v (ground (arith, room))
                      (ground (arith, room)) (rw fit bytes))
                    (λ t (w, a, b, c).
                      Resized-longer s t n w a c (ground (arith, b)) (ground arith)))
            | inr g ↦
                rw (valid, e, l, g) (Resized-longer s s n v refl refl (ground arith) (ground arith))
          ]
        ]
      ]
    where
      same : s.len ≡ n → Resized s n s
      same e = (v, e, inl (omega (arith, e), take-take s.len s.len s.buffer (omega arith)))

  -- The elements that concat appends.
  abbrev pub copies : List A → List A
  copies [] = []
  copies (x ∷ xs) = copy x ∷ copies xs

  append_all-Holds :
      (xs : List A) (s : Sequence A) (bound : ℕ)
      → IsValid element_size s
      → s.maximum ≤ bound
      → 2 * (s.len + length xs) ≤ bound
      → bound * 2 < u32_mod
      → element_size * (bound * 2) < u32_mod
      → Ensures
          (Holds element_size (elements s ++ copies xs))
          (append_all element_size blank copy is_base s xs)
  unfolding append_all
  append_all-Holds [] s bound v h k room bytes = (v, sym (append-nil (elements s)))
  append_all-Holds (x ∷ xs) s bound v h k room bytes =
      Ensures-or_abort (IsAppended s x) _ (sequence_append element_size blank copy is_base s x) _
        (sequence_append-IsAppended s x v (omega (arith, h, room)) (
          omega (
            arith,
            bytes,
            mul-le-mul_left {m = max 2 (s.maximum * 2)} {n = bound * 2} element_size
                (ground (arith, h, k)),
          )))
        (λ r (w, e, n, m).
          rw (e, append_assoc) at
            (append_all-Holds xs r bound w (ground (arith, m, h, k)) (omega (arith, n, k)) room
              bytes))

  -- Appending one well-formed sequence to another does not abort, and leaves a well-formed
  -- sequence of the elements of the first and copies of those of the second, in order, where
  -- the maximum is below 2^31, four times the sum of the lengths below 2^32, and twice the
  -- maximum, and four times that sum, count fewer than 2^32 bytes. No size that is computed
  -- wraps.
  pub sequence_concat-Holds :
      (s t : Sequence A)
      → IsValid element_size s
      → IsValid element_size t
      → s.maximum * 2 < u32_mod
      → 4 * (s.len + t.len) < u32_mod
      → element_size * (max s.maximum (2 * (s.len + t.len)) * 2) < u32_mod
      → Ensures
          (Holds element_size (elements s ++ copies (elements t)))
          (sequence_concat element_size blank copy is_base s t)
  unfolding sequence_concat
  sequence_concat-Holds s t v w room more bytes =
      let valid : ltb t.maximum t.len ≡ false = ground (arith, w.within) in
      let n = length-take t.len t.buffer (omega (arith, w.whole, w.within)) in
      rw valid (
        append_all-Holds (elements t) s (max s.maximum (2 * (s.len + t.len))) v (ground arith)
          (ground (arith, n)) (ground (arith, room, more)) bytes)
