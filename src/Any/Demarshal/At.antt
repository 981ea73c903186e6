-- ===== src/Any/Demarshal/At.antt =====
-- The words and texts of a value, read from a message that is known.
use mate_corba.Prelude.{
  ℕ, ◌+◌, ◌-◌, ◌*◌, ◌^◌, ◌<◌, ◌≡◌, refl, ap, ◌∙◌, arith, List, [], ◌∷◌, ◌++◌, length, take,
  append_assoc, take-all, length-append, All, ltb, leb, ◌==◌, false, inl, some, Endian, big, little,
  differ, u16_bytes, length-u16_bytes, u16_of, read_u16-u16_bytes,
}
use mate_corba.Giop.Align.{IsBoundary}
use mate_corba.Giop.Messages.Layout.{cdr_align}
use mate_corba.Giop.RecvBuffer.Reader.{ok, RecvBuffer, align_cur, need, >>=-eq_of_ok}
use mate_corba.Giop.RecvBuffer.At.{
  IsFront, Received, at, align_cur-at, need-at, get_u16-at, get_slice-at, length-IsFront,
  memory_at-at,
}
use mate_corba.Any.Words.{word_bytes}
use mate_corba.Any.Words.RoundTrip.{length-word_bytes, read_word-word_bytes}
use mate_corba.Any.Marshal.{wide_bytes}
use mate_corba.Any.Demarshal.{
  get_word, aligned_word, aligned_u16, c_string, get_signed_slice, string_dup, duplicate,
  wide_units, wide_text,
}

c_string-text : (s rest : List ℕ) → All (λ c. 0 < c) s → c_string (s ++ (0 ∷ []) ++ rest) ≡ some s
unfolding c_string
c_string-text [] rest a = refl
c_string-text (x ∷ s) rest (p, a) =
    let e : (x == 0) ≡ false = ground arith in rw (e, c_string-text s rest a) refl

wide_units-bytes :
    (host sender : Endian) (cs : List ℕ)
    → All (λ c. c < 65536) cs
    → wide_units host (differ sender host) (wide_bytes sender cs) ≡ cs
unfolding wide_units wide_bytes u16_bytes
wide_units-bytes host sender [] a = refl
wide_units-bytes host big (c ∷ cs) (p, a) =
    ap (λ (x : ℕ). x ∷ wide_units host (differ big host) (wide_bytes big cs))
      (read_u16-u16_bytes host big c [] p)
    ∙ ap (λ t. c ∷ t) (wide_units-bytes host big cs a)
wide_units-bytes host little (c ∷ cs) (p, a) =
    ap (λ (x : ℕ). x ∷ wide_units host (differ little host) (wide_bytes little cs))
      (read_u16-u16_bytes host little c [] p)
    ∙ ap (λ t. c ∷ t) (wide_units-bytes host little cs a)

-- The marker tells the orders apart.
pub wide_text-bytes :
    (host sender : Endian) (cs : List ℕ)
    → All (λ c. c < 65536) cs
    → wide_text host (u16_bytes sender 0xfeff ++ wide_bytes sender cs) ≡ cs
unfolding wide_text u16_bytes u16_of
wide_text-bytes big big cs a = wide_units-bytes big big cs a
wide_text-bytes big little cs a = wide_units-bytes big little cs a
wide_text-bytes little big cs a = wide_units-bytes little big cs a
wide_text-bytes little little cs a = wide_units-bytes little little cs a

pub length-wide_bytes : (host : Endian) (cs : List ℕ) → length (wide_bytes host cs) ≡ length cs * 2
unfolding wide_bytes
length-wide_bytes host [] = refl
length-wide_bytes host (c ∷ cs) = omega (
  arith,
  length-append (u16_bytes host c) (wide_bytes host cs),
  length-u16_bytes host c,
  length-wide_bytes host cs,
)

module _ (host sender : Endian) (b : RecvBuffer) (total : List ℕ)
    (r : Received host sender b total) where
  get_word-at :
      (n : ℕ) (p : List ℕ) (v : ℕ)
      → v < 256 ^ n
      → IsFront (p ++ word_bytes sender n v) total
      → get_word host n (at b p) ≡ ok (v, at b (p ++ word_bytes sender n v))
  unfolding get_word
  get_word-at n p v h f =
      let len = length-word_bytes sender n v in
      let sum = length-append p (word_bytes sender n v) in
      let no_fault : ltb b.end (b.base + (12 + length p) + n) ≡ false =
        ground (arith, length-IsFront host sender b total r _ f, sum, len, r.ends) in
      let next : b.base + (12 + length (p ++ word_bytes sender n v))
          ≡ b.base + (12 + length p) + n =
        omega (arith, sum, len) in
      let here =
        memory_at-at host sender b total r p (word_bytes sender n v ++ f.0)
          (f.1 ∙ append_assoc p _ _) in
      rw (no_fault, r.order, here, read_word-word_bytes host sender n v f.0 h, next) refl

  pub aligned_word-at :
      (n : ℕ) (p : List ℕ) (v : ℕ)
      → IsBoundary n
      → v < 256 ^ n
      → IsFront p total
      → IsFront (cdr_align n p ++ word_bytes sender n v) total
      → aligned_word host n (at b p) ≡ ok (v, at b (cdr_align n p ++ word_bytes sender n v))
  unfolding aligned_word
  aligned_word-at n p v i h f g =
      let room : need n (at b (cdr_align n p)) ≡ ok (tt, at b (cdr_align n p)) =
        rw (length-word_bytes sender n v) at
          (need-at host sender b total r (cdr_align n p) (word_bytes sender n v) g) in
      >>=-eq_of_ok (align_cur n) _ (at b p) (align_cur-at host sender b total r n p i f)
        (>>=-eq_of_ok (need n) _ (at b (cdr_align n p)) room (get_word-at n (cdr_align n p) v h g))

  pub aligned_u16-at :
      (p : List ℕ) (v : ℕ)
      → v < 65536
      → IsFront p total
      → IsFront (cdr_align 2 p ++ u16_bytes sender v) total
      → aligned_u16 host (at b p) ≡ ok (v, at b (cdr_align 2 p ++ u16_bytes sender v))
  unfolding aligned_u16
  aligned_u16-at p v h f g =
      let room : need 2 (at b (cdr_align 2 p)) ≡ ok (tt, at b (cdr_align 2 p)) =
        rw (length-u16_bytes sender v) at
          (need-at host sender b total r (cdr_align 2 p) (u16_bytes sender v) g) in
      >>=-eq_of_ok (align_cur 2) _ (at b p) (align_cur-at host sender b total r 2 p (inl refl) f) (
        >>=-eq_of_ok (need 2) _ (at b (cdr_align 2 p)) room
          (get_u16-at host sender b total r (cdr_align 2 p) v h g))

  pub get_signed_slice-at :
      (p xs : List ℕ)
      → length xs < 0x80000000
      → IsFront (p ++ xs) total
      → get_signed_slice (length xs) (at b p)
        ≡ ok (record { addr = b.base + (12 + length p); bytes = xs }, at b (p ++ xs))
  unfolding get_signed_slice
  get_signed_slice-at p xs h f =
      let e : leb 0x80000000 (length xs) ≡ false = ground arith in
      rw e (get_slice-at host sender b total r p xs f)

  pub string_dup-at :
      (p s q : List ℕ)
      → All (λ c. 0 < c) s
      → IsFront (p ++ (s ++ (0 ∷ []))) total
      → string_dup (b.base + (12 + length p)) (at b q) ≡ ok (s, at b q)
  unfolding string_dup duplicate
  string_dup-at p s q a f =
      let here =
        memory_at-at host sender b total r p ((s ++ (0 ∷ [])) ++ f.0) (f.1 ∙ append_assoc p _ _) in
      let len = length-append p ((s ++ (0 ∷ [])) ++ f.0) in
      let whole : take (b.end - (b.base + (12 + length p))) ((s ++ (0 ∷ [])) ++ f.0)
          ≡ (s ++ (0 ∷ [])) ++ f.0 =
        take-all _ _ (omega (arith, r.ends, len, ap length (f.1 ∙ append_assoc p _ _))) in
      ap (λ o. duplicate o (at b q))
        (ap (λ m. c_string (take (b.end - (b.base + (12 + length p))) m)) here
          ∙ ap c_string whole
          ∙ c_string-text s f.0 a)
