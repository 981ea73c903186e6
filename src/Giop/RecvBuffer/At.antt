-- ===== src/Giop/RecvBuffer/At.antt =====
-- Reading a body that is known, as the layouts build it: each step moves the read position from
-- the end of one part to the end of the next.
use mate_corba.Prelude.{
  ℕ, suc, ◌+◌, ◌%◌, ◌≤◌, ◌<◌, ◌≡◌, refl, ap, ◌∙◌, arith, List, ◌∷◌, ◌++◌, length, drop, ltb, inl,
  inr, false, u32_mod, u64_mod, Endian, differ, u32_bytes, u16_bytes, read_u32-u32_bytes,
  read_u16-u16_bytes, length-u32_bytes, length-u16_bytes, length-append, length-replicate,
  replicate, drop-append, take-append, append_assoc,
}
use mate_corba.Giop.Align.{
  align_value, IsBoundary, align_value-two, align_value-four, align_value-eight,
}
use mate_corba.Giop.Types.{conversion_needed}
use mate_corba.Giop.SendBuffer.Append.{padding}
use mate_corba.Giop.Messages.Layout.{cdr_align, cdr_octets}
use mate_corba.Giop.RecvBuffer.Reader.{
  ok, RecvBuffer, align_cur, need, get_u32, get_u16, get_octet, get_slice, aligned_u32,
  aligned_slice, memory_at, >>=-eq_of_ok,
}

-- `p` stands at the front of `total`.
abbrev pub IsFront : List ℕ → List ℕ → Type 0
IsFront p total = (rest : List ℕ) × (total ≡ p ++ rest)

pub IsFront-append : (p q total : List ℕ) → IsFront (p ++ q) total → IsFront p total
IsFront-append p q total (rest, e) = (q ++ rest, e ∙ append_assoc p q rest)

-- The message that the buffer holds: twelve bytes of room and the body, at an address that is
-- aligned to eight.
pub record Received (host sender : Endian) (b : RecvBuffer) (total : List ℕ) : Type 0 where
  pub room : List ℕ
  pub room_size : length room ≡ 12
  pub held : b.memory ≡ room ++ total
  pub ends : b.end ≡ b.base + (12 + length total)
  pub aligned : b.base % 8 ≡ 0
  pub small : length total + 12 < u32_mod
  pub low : b.end + 8 ≤ u64_mod
  pub order : conversion_needed host b.msg_header.flags ≡ differ sender host

-- The buffer with the read position behind `p`.
abbrev pub at : RecvBuffer → List ℕ → RecvBuffer
at b p = record b { cur = b.base + (12 + length p) }

module _ (host sender : Endian) (b : RecvBuffer) (total : List ℕ)
    (r : Received host sender b total) where
  pub length-IsFront : (p : List ℕ) → IsFront p total → length p ≤ length total
  length-IsFront p (rest, e) = omega (arith, ap length e, length-append p rest)

  drop-room : (xs ys : List ℕ) (n : ℕ) → n ≡ length xs → drop n (xs ++ ys) ≡ ys
  drop-room xs ys n e = rw e (drop-append xs ys)

  pub memory_at-at :
      (p rest : List ℕ) → total ≡ p ++ rest → memory_at b (b.base + (12 + length p)) ≡ rest
  memory_at-at p rest e =
      rw (r.held, e, ← append_assoc)
        (drop-room (r.room ++ p) rest _ (omega (arith, length-append r.room p, r.room_size)))

  align_sum :
      (n m : ℕ)
      → IsBoundary n
      → m ≤ length total
      → align_value (b.base + (12 + m)) n ≡ b.base + (12 + (m + padding ((m + 12) % u32_mod) n))
  unfolding padding
  align_sum n m (inl e) h = rw e (
      omega (
        arith,
        r.aligned,
        r.low,
        r.small,
        r.ends,
        align_value-two (b.base + (12 + m)),
        align_value-two ((m + 12) % u32_mod),
      ))
  align_sum n m (inr (inl e)) h = rw e (
      omega (
        arith,
        r.aligned,
        r.low,
        r.small,
        r.ends,
        align_value-four (b.base + (12 + m)),
        align_value-four ((m + 12) % u32_mod),
      ))
  align_sum n m (inr (inr e)) h = rw e (
      omega (
        arith,
        r.aligned,
        r.low,
        r.small,
        r.ends,
        align_value-eight (b.base + (12 + m)),
        align_value-eight ((m + 12) % u32_mod),
      ))

  pub align_cur-at :
      (n : ℕ) (p : List ℕ)
      → IsBoundary n
      → IsFront p total
      → align_cur n (at b p) ≡ ok (tt, at b (cdr_align n p))
  unfolding align_cur cdr_align
  align_cur-at n p i f =
      ap (λ (c : ℕ). ok (tt, record b { cur = c }))
        (align_sum n (length p) i (length-IsFront p f)
          ∙ omega (
            arith,
            length-append p (replicate (padding ((length p + 12) % u32_mod) n) 0),
            length-replicate {0} {A = ℕ} (padding ((length p + 12) % u32_mod) n) 0,
          ))

  pub need-at :
      (p xs : List ℕ) → IsFront (p ++ xs) total → need (length xs) (at b p) ≡ ok (tt, at b p)
  unfolding need
  need-at p xs f = ground (arith, length-IsFront (p ++ xs) f, length-append p xs, r.ends, r.low)

  pub get_u32-at :
      (p : List ℕ) (v : ℕ)
      → v < u32_mod
      → IsFront (p ++ u32_bytes sender v) total
      → get_u32 host (at b p) ≡ ok (v, at b (p ++ u32_bytes sender v))
  unfolding get_u32
  get_u32-at p v h f =
      let four = length-u32_bytes sender v in
      let sum = length-append p (u32_bytes sender v) in
      let no_fault : ltb b.end (b.base + (12 + length p) + 4) ≡ false =
        ground (arith, length-IsFront _ f, sum, four, r.ends) in
      let next : b.base + (12 + length (p ++ u32_bytes sender v)) ≡ b.base + (12 + length p) + 4 =
        omega (arith, sum, four) in
      let here = memory_at-at p (u32_bytes sender v ++ f.0) (f.1 ∙ append_assoc p _ _) in
      rw (no_fault, r.order, here, read_u32-u32_bytes host sender v f.0 h, next)
        (ap (λ (n : ℕ). ok (n, record b { cur = b.base + (12 + length p) + 4 })) (omega arith))

  pub get_u16-at :
      (p : List ℕ) (v : ℕ)
      → v < 65536
      → IsFront (p ++ u16_bytes sender v) total
      → get_u16 host (at b p) ≡ ok (v, at b (p ++ u16_bytes sender v))
  unfolding get_u16
  get_u16-at p v h f =
      let two = length-u16_bytes sender v in
      let sum = length-append p (u16_bytes sender v) in
      let no_fault : ltb b.end (b.base + (12 + length p) + 2) ≡ false =
        ground (arith, length-IsFront _ f, sum, two, r.ends) in
      let next : b.base + (12 + length (p ++ u16_bytes sender v)) ≡ b.base + (12 + length p) + 2 =
        omega (arith, sum, two) in
      let here = memory_at-at p (u16_bytes sender v ++ f.0) (f.1 ∙ append_assoc p _ _) in
      rw (no_fault, r.order, here, read_u16-u16_bytes host sender v f.0 h, next)
        (ap (λ (n : ℕ). ok (n, record b { cur = b.base + (12 + length p) + 2 })) (omega arith))

  pub get_octet-at :
      (p : List ℕ) (x : ℕ) (xs : List ℕ)
      → IsFront (p ++ (x ∷ xs)) total
      → get_octet (suc (length xs)) (at b p) ≡ ok (x, at b (p ++ (x ∷ xs)))
  unfolding get_octet
  get_octet-at p x xs f =
      let sum = length-append p (x ∷ xs) in
      let no_fault : ltb b.end (b.base + (12 + length p) + 1) ≡ false =
        ground (arith, length-IsFront _ f, sum, r.ends) in
      let next : b.base + (12 + length (p ++ (x ∷ xs)))
          ≡ b.base + (12 + length p) + suc (length xs) =
        omega (arith, sum) in
      let here = memory_at-at p ((x ∷ xs) ++ f.0) (f.1 ∙ append_assoc p _ _) in
      rw (no_fault, here, next)

  pub get_slice-at :
      (p xs : List ℕ)
      → IsFront (p ++ xs) total
      → get_slice (length xs) (at b p)
        ≡ ok (record { addr = b.base + (12 + length p); bytes = xs }, at b (p ++ xs))
  unfolding get_slice
  get_slice-at p xs f =
      let sum = length-append p xs in
      let room : b.base + (12 + length p) + length xs ≤ b.end =
        omega (arith, length-IsFront _ f, sum, r.ends) in
      let wrap : (b.base + (12 + length p) + length xs) % u64_mod
          ≡ b.base + (12 + length p) + length xs =
        omega (arith, r.low) in
      let no_fault : ltb b.end (b.base + (12 + length p) + length xs) ≡ false = ground arith in
      let no_wrap : ltb (b.base + (12 + length p) + length xs) (b.base + (12 + length p)) ≡ false =
        ground arith in
      let next : b.base + (12 + length (p ++ xs)) ≡ b.base + (12 + length p) + length xs =
        omega (arith, sum) in
      let here = memory_at-at p (xs ++ f.0) (f.1 ∙ append_assoc p _ _) in
      rw (wrap, no_fault, no_wrap, here, next, take-append xs f.0)

  pub aligned_u32-at :
      (p : List ℕ) (v : ℕ)
      → v < u32_mod
      → IsFront p total
      → IsFront (cdr_align 4 p ++ u32_bytes sender v) total
      → aligned_u32 host (at b p) ≡ ok (v, at b (cdr_align 4 p ++ u32_bytes sender v))
  unfolding aligned_u32
  aligned_u32-at p v h f g =
      let room : need 4 (at b (cdr_align 4 p)) ≡ ok (tt, at b (cdr_align 4 p)) =
        rw (length-u32_bytes sender v) at (need-at (cdr_align 4 p) (u32_bytes sender v) g) in
      >>=-eq_of_ok (align_cur 4) _ (at b p) (align_cur-at 4 p (inr (inl refl)) f)
        (>>=-eq_of_ok (need 4) _ (at b (cdr_align 4 p)) room (get_u32-at (cdr_align 4 p) v h g))

  pub aligned_slice-at :
      (p xs : List ℕ)
      → length xs < u32_mod
      → IsFront p total
      → IsFront (cdr_octets sender xs p) total
      → aligned_slice host (at b p)
        ≡ ok (
          record {
            addr = b.base + (12 + length (cdr_align 4 p ++ u32_bytes sender (length xs)));
            bytes = xs;
          },
          at b (cdr_octets sender xs p),
        )
  unfolding aligned_slice cdr_octets
  aligned_slice-at p xs h f g =
      >>=-eq_of_ok (aligned_u32 host) _ (at b p)
        (aligned_u32-at p (length xs) h f (IsFront-append _ xs total g))
        (get_slice-at (cdr_align 4 p ++ u32_bytes sender (length xs)) xs g)
