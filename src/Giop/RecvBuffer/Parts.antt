-- ===== src/Giop/RecvBuffer/Parts.antt =====
-- Reading the parts that messages share, at any place of a body: aligned words, the service
-- contexts that giop-send-buffer.c puts into every message, and an address by key.
use mate_corba.Prelude.{
  ◌==◌, false, ℕ, suc, ◌+◌, ◌-◌, ◌%◌, ◌<◌, ◌≡◌, refl, ap, arith, List, [], ◌∷◌, ◌++◌, length, inl,
  inr, u32_mod, Endian, big, little, u32_bytes, u16_bytes, length-u32_bytes, length-u16_bytes,
  length-append, length-replicate, replicate, append_assoc, append-nil,
}
use mate_corba.Giop.Align.{align_value, align_value_lem}
use mate_corba.Giop.SendBuffer.Append.{padding}
use mate_corba.Giop.Messages.{service_context_data, encapsulation_order}
use mate_corba.Giop.Messages.Layout.{cdr_align, cdr_octets}
use mate_corba.Giop.RecvBuffer.Reader.{
  ok, RecvBuffer, pure, align_cur, need, get_u16, get_slice, aligned_u32, aligned_slice,
  >>=-eq_of_ok,
}
use mate_corba.Giop.RecvBuffer.Demarshal.{
  key_addr, ServiceContext, demarshal_target_address, demarshal_octets, demarshal_service_context,
  demarshal_contexts, demarshal_service_context_list,
}
use mate_corba.Giop.RecvBuffer.At.{
  IsFront, IsFront-append, Received, at, align_cur-at, need-at, get_u16-at, get_slice-at,
  aligned_u32-at, aligned_slice-at,
}

pub IsFront-cdr_align : (n : ℕ) (p total : List ℕ) → IsFront (cdr_align n p) total → IsFront p total
unfolding cdr_align
IsFront-cdr_align n p total f = IsFront-append p _ total f

pub IsFront-cdr_octets :
    (sender : Endian) (xs p total : List ℕ)
    → IsFront (cdr_octets sender xs p) total
    → IsFront p total
unfolding cdr_octets
IsFront-cdr_octets sender xs p total f =
    IsFront-cdr_align 4 p total
      (IsFront-append _ (u32_bytes sender (length xs)) total (IsFront-append _ xs total f))

-- An end that lies on a boundary needs no padding.
pub cdr_align-id : (p : List ℕ) → length p % 4 ≡ 0 → length p + 12 < u32_mod → cdr_align 4 p ≡ p
unfolding cdr_align padding
cdr_align-id p e h =
    let none_needed : align_value ((length p + 12) % u32_mod) 4 - (length p + 12) % u32_mod ≡ 0 =
      omega (arith, align_value_lem ((length p + 12) % u32_mod) 4 (inr (inl refl)) (omega arith)) in
    rw none_needed (append-nil p)

cdr_align-two : (p : List ℕ) → length p % 2 ≡ 0 → length p + 12 < u32_mod → cdr_align 2 p ≡ p
unfolding cdr_align padding
cdr_align-two p e h =
    let none_needed : align_value ((length p + 12) % u32_mod) 2 - (length p + 12) % u32_mod ≡ 0 =
      omega (arith, align_value_lem ((length p + 12) % u32_mod) 2 (inl refl) (omega arith)) in
    rw none_needed (append-nil p)

-- The padding reaches the boundary.
pub length-cdr_align : (p : List ℕ) → length p + 12 < u32_mod → length (cdr_align 4 p) % 4 ≡ 0
unfolding cdr_align padding
length-cdr_align p h =
    let n = align_value ((length p + 12) % u32_mod) 4 - (length p + 12) % u32_mod in
    rw (length-append p (replicate n 0), length-replicate {0} {A = ℕ} n 0)
      (omega (arith, align_value_lem ((length p + 12) % u32_mod) 4 (inr (inl refl)) (omega arith)))

-- The context that every message carries, as its receiver sees it.
abbrev pub code_set_data : Endian → List ℕ
code_set_data sender =
    u32_bytes sender (encapsulation_order sender)
    ++ (u32_bytes sender 0x05010001 ++ u32_bytes sender 0x00010109)

abbrev pub code_sets : Endian → List ServiceContext
code_sets sender = record { context_id = 1; context_data = code_set_data sender } ∷ []

-- The contexts in front of a body, word by word.
contexts-parts :
    (sender : Endian) (p : List ℕ)
    → p ++ service_context_data sender
      ≡ p ++ u32_bytes sender 1 ++ u32_bytes sender 1 ++ u32_bytes sender 12 ++ code_set_data sender
unfolding service_context_data
contexts-parts sender p = rw (append_assoc, append_assoc, append_assoc) refl

encapsulation_order-lt : (sender : Endian) → encapsulation_order sender < u32_mod
encapsulation_order-lt big = omega arith
encapsulation_order-lt little = omega arith

length-code_set_data : (sender : Endian) → length (code_set_data sender) ≡ 12
length-code_set_data sender = omega (
  arith,
  length-append (u32_bytes sender (encapsulation_order sender))
      (u32_bytes sender 0x05010001 ++ u32_bytes sender 0x00010109),
  length-append (u32_bytes sender 0x05010001) (u32_bytes sender 0x00010109),
  length-u32_bytes sender (encapsulation_order sender),
  length-u32_bytes sender 0x05010001,
  length-u32_bytes sender 0x00010109,
)

module _ (host sender : Endian) (b : RecvBuffer) (total : List ℕ)
    (r : Received host sender b total) where
  pub front-le : (p : List ℕ) → IsFront p total → length p + 12 < u32_mod
  front-le p (rest, e) = omega (arith, r.small, ap length e, length-append p rest)

  -- A word behind an aligned end.
  pub word-at :
      (p : List ℕ) (v : ℕ)
      → length p % 4 ≡ 0
      → v < u32_mod
      → IsFront (p ++ u32_bytes sender v) total
      → aligned_u32 host (at b p) ≡ ok (v, at b (p ++ u32_bytes sender v))
  word-at p v a h f =
      let front = IsFront-append p (u32_bytes sender v) total f in
      let e = cdr_align-id p a (front-le p front) in
      rw e at (aligned_u32-at host sender b total r p v h front (rw e f))

  length-word : (p : List ℕ) (v : ℕ) → length p % 4 ≡ 0 → length (p ++ u32_bytes sender v) % 4 ≡ 0
  length-word p v a = omega (arith, length-append p (u32_bytes sender v), length-u32_bytes sender v)

  demarshal_octets-at :
      (p xs : List ℕ) (n : ℕ)
      → length p % 4 ≡ 0
      → length xs ≡ suc n
      → suc n < u32_mod
      → IsFront (p ++ u32_bytes sender (suc n) ++ xs) total
      → demarshal_octets host (at b p) ≡ ok (xs, at b (p ++ u32_bytes sender (suc n) ++ xs))
  unfolding demarshal_octets
  demarshal_octets-at p xs n a e h f =
      let q = p ++ u32_bytes sender (suc n) in
      let some_octets : (suc n == 0) ≡ false = ground arith in
      let slice = rw e at (get_slice-at host sender b total r q xs f) in
      >>=-eq_of_ok (aligned_u32 host) _ (at b p)
        (word-at p (suc n) a h (IsFront-append q xs total f))
        (rw some_octets (>>=-eq_of_ok (get_slice (suc n)) (λ s. pure s.bytes) (at b q) slice refl))

  -- The contexts come back as they were sent, behind any end, which is aligned first.
  pub contexts-at :
      (p : List ℕ)
      → IsFront (cdr_align 4 p ++ service_context_data sender) total
      → demarshal_service_context_list host (at b p)
        ≡ ok (code_sets sender, at b (cdr_align 4 p ++ service_context_data sender))
  unfolding demarshal_service_context_list demarshal_contexts demarshal_service_context
  contexts-at p f =
      let p₀ = cdr_align 4 p in
      let p₁ = p₀ ++ u32_bytes sender 1 in
      let p₂ = p₁ ++ u32_bytes sender 1 in
      let g = rw (contexts-parts sender p₀) at f in
      let f₃ = IsFront-append (p₂ ++ u32_bytes sender 12) (code_set_data sender) total g in
      let f₂ = IsFront-append p₂ (u32_bytes sender 12) total f₃ in
      let f₁ = IsFront-append p₁ (u32_bytes sender 1) total f₂ in
      let front = IsFront-cdr_align 4 p total (IsFront-append p₀ (u32_bytes sender 1) total f₁) in
      let a = length-cdr_align p (front-le p front) in
      let a₁ = length-word p₀ 1 a in
      let octets =
        demarshal_octets-at p₂ (code_set_data sender) 11 (length-word p₁ 1 a₁)
          (length-code_set_data sender) (omega arith) g in
      rw (contexts-parts sender p₀) (
        >>=-eq_of_ok (aligned_u32 host) _ (at b p)
          (aligned_u32-at host sender b total r p 1 (omega arith) front f₁)
          (>>=-eq_of_ok (demarshal_service_context host) _ (at b p₁)
            (>>=-eq_of_ok (aligned_u32 host) _ (at b p₁) (word-at p₁ 1 a₁ (omega arith) f₂)
              (>>=-eq_of_ok (demarshal_octets host) _ (at b p₂) octets refl))
            refl))

  -- An address by key, behind any end: the disposition is aligned to two, the key follows.
  pub target_address-at :
      (p key : List ℕ)
      → length key < u32_mod
      → length p % 2 ≡ 0
      → IsFront (cdr_octets sender key (p ++ u16_bytes sender 0)) total
      → demarshal_target_address host (at b p)
        ≡ ok (
          key_addr (record {
            addr =
                b.base
                + (12
                    + length
                        (cdr_align 4 (p ++ u16_bytes sender 0) ++ u32_bytes sender (length key)));
            bytes = key;
          }),
          at b (cdr_octets sender key (p ++ u16_bytes sender 0)),
        )
  unfolding demarshal_target_address
  target_address-at p key h a f =
      let q = p ++ u16_bytes sender 0 in
      let f₁ = IsFront-cdr_octets sender key q total f in
      let f₀ = IsFront-append p (u16_bytes sender 0) total f₁ in
      let e = cdr_align-two p a (front-le p f₀) in
      let room : need 2 (at b p) ≡ ok (tt, at b p) =
        rw (length-u16_bytes sender 0) at
          (need-at host sender b total r p (u16_bytes sender 0) f₁) in
      >>=-eq_of_ok (align_cur 2) _ (at b p)
        (rw e at (align_cur-at host sender b total r 2 p (inl refl) f₀))
        (>>=-eq_of_ok (need 2) _ (at b p) room (
          >>=-eq_of_ok (get_u16 host) _ (at b p)
            (get_u16-at host sender b total r p 0 (omega arith) f₁)
            (>>=-eq_of_ok (aligned_slice host) _ (at b q)
              (aligned_slice-at host sender b total r q key h f₁ f) refl)))
