-- ===== src/Giop/RecvBuffer/OldRequests.antt =====
-- Requests of GIOP 1.0 and 1.1: giop_recv_buffer_demarshal_request_1_1 on the layout that
-- giop_send_buffer_use_request writes.
use mate_corba.Prelude.{
  ℕ, ◌+◌, ◌%◌, ◌<◌, ◌≡◌, refl, ap, ◌∙◌, arith, List, [], ◌∷◌, ◌++◌, length, inl, inr, u32_mod,
  Endian, big, little, u32_bytes, length-u32_bytes, length-append, replicate, append_assoc,
  append-nil,
}
use mathlib.Core.Path.{subst}
use mate_corba.Giop.Align.{align_value-four}
use mate_corba.Giop.SendBuffer.Append.{padding}
use mate_corba.Giop.Messages.{service_context_data}
use mate_corba.Giop.Messages.Layout.{cdr_align, cdr_octets, operation_vec, request_1_1_body}
use mate_corba.Giop.Messages.Build.{length-service_context_data}
use mate_corba.Giop.RecvBuffer.Reader.{
  ok, RecvBuffer, Reader, ◌>>=◌, ◌>>◌, align_cur, need, get_u32, get_octet, get_slice, Slice,
  aligned_slice, >>=-eq_of_ok,
}
use mate_corba.Giop.RecvBuffer.Demarshal.{demarshal_service_context_list, demarshal_request_1_1}
use mate_corba.Giop.RecvBuffer.At.{
  IsFront, IsFront-append, Received, at, align_cur-at, need-at, get_u32-at, get_octet-at,
  get_slice-at, aligned_slice-at,
}
use mate_corba.Giop.RecvBuffer.Parts.{
  IsFront-cdr_align, IsFront-cdr_octets, cdr_align-id, code_sets, front-le,
}
use mate_corba.Giop.RecvBuffer.Replies.{contexts-front}
use mate_corba.Giop.RecvBuffer.Operation.{
  octets_slice, regroup, cdr_align-padding, cdr_align-operation, operation-IsFront,
}

u32_bytes-zero : (sender : Endian) → u32_bytes sender 0 ≡ replicate 4 0
unfolding u32_bytes
u32_bytes-zero big = refl
u32_bytes-zero little = refl

-- The padding behind a single octet.
cdr_align-octet :
    (p : List ℕ) (x : ℕ) → length p ≡ 28 → cdr_align 4 (p ++ (x ∷ [])) ≡ p ++ (x ∷ 0 ∷ 0 ∷ 0 ∷ [])
cdr_align-octet p x e =
    let three : padding ((length (p ++ (x ∷ [])) + 12) % u32_mod) 4 ≡ 3 =
      unfold padding in
      omega (
        arith,
        length-append p (x ∷ []),
        align_value-four ((length (p ++ (x ∷ [])) + 12) % u32_mod) (omega arith),
      ) in
    cdr_align-padding (p ++ (x ∷ []))
    ∙ ap (λ n. p ++ (x ∷ []) ++ replicate n 0) three
    ∙ append_assoc p (x ∷ []) (replicate 3 0)

module _ (host sender : Endian) (b : RecvBuffer) (total : List ℕ)
    (r : Received host sender b total) where
  length-octet_key :
      (id expected : ℕ) → length (service_context_data sender ++ u32_bytes sender id) ≡ 28
  length-octet_key id expected = omega (
    arith,
    length-append (service_context_data sender) (u32_bytes sender id),
    length-u32_bytes sender id,
    length-service_context_data sender,
  )

  -- An id, an octet with its padding, and a length, under one check.
  octet_and_key :
      {B : Type 0} (id expected : ℕ) (key : List ℕ) (k : ℕ → ℕ → ℕ → Reader B)
      → id < u32_mod
      → length key < u32_mod
      → IsFront
          (service_context_data sender
            ++ u32_bytes sender id
            ++ (expected ∷ 0 ∷ 0 ∷ 0 ∷ [])
            ++ u32_bytes sender (length key))
          total
      → (do align_cur 4; need 12; x ← get_u32 host; y ← get_octet 4; z ← get_u32 host; k x y z)
          (at b (service_context_data sender))
        ≡ k id expected (length key) (
            at b (
              service_context_data sender
              ++ u32_bytes sender id
              ++ (expected ∷ 0 ∷ 0 ∷ 0 ∷ [])
              ++ u32_bytes sender (length key)))
  octet_and_key id expected key k i h f =
      let c = service_context_data sender in
      let p₀ = c ++ u32_bytes sender id in
      let q = p₀ ++ (expected ∷ 0 ∷ 0 ∷ 0 ∷ []) in
      let four = expected ∷ 0 ∷ 0 ∷ 0 ∷ [] in
      let words = u32_bytes sender id ++ four ++ u32_bytes sender (length key) in
      let f₁ = IsFront-append q (u32_bytes sender (length key)) total f in
      let f₀ = IsFront-append p₀ four total f₁ in
      let fc = IsFront-append c (u32_bytes sender id) total f₀ in
      let e =
        cdr_align-id c (omega (arith, length-service_context_data sender))
          (front-le host sender b total r c fc) in
      let twelve : length words ≡ 12 = omega (
        arith,
        length-append (u32_bytes sender id ++ four) (u32_bytes sender (length key)),
        length-append (u32_bytes sender id) four,
        length-u32_bytes sender id,
        length-u32_bytes sender (length key),
      ) in
      let room = rw twelve at (
        need-at host sender b total r c words (
          subst (λ t. IsFront t total)
            (regroup c (u32_bytes sender id) four (u32_bytes sender (length key))) f)) in
      >>=-eq_of_ok (align_cur 4) _ (at b c)
        (rw e at (align_cur-at host sender b total r 4 c (inr (inl refl)) fc))
        (>>=-eq_of_ok (need 12) _ (at b c) room (
          >>=-eq_of_ok (get_u32 host) _ (at b c) (get_u32-at host sender b total r c id i f₀) (
            >>=-eq_of_ok (get_octet 4) _ (at b p₀)
              (get_octet-at host sender b total r p₀ expected (0 ∷ 0 ∷ 0 ∷ []) f₁)
              (>>=-eq_of_ok (get_u32 host) _ (at b q)
                (get_u32-at host sender b total r q (length key) h f) refl))))

  -- A principal of no octets.
  no_principal :
      (p : List ℕ)
      → IsFront (cdr_align 4 p ++ replicate 4 0) total
      → aligned_slice host (at b p)
        ≡ ok (
          record { addr = b.base + (12 + length (cdr_align 4 p ++ replicate 4 0)); bytes = [] },
          at b (cdr_align 4 p ++ replicate 4 0),
        )
  unfolding cdr_octets
  no_principal p f =
      let zero_word = u32_bytes-zero sender in
      let none = append-nil (cdr_align 4 p ++ u32_bytes sender 0) in
      let g : IsFront (cdr_octets sender [] p) total = rw (none, zero_word) f in
      let front = IsFront-cdr_octets sender [] p total g in
      rw (none, zero_word) at (aligned_slice-at host sender b total r p [] (omega arith) front g)

  -- A request of the older versions, from a caller without a principal.
  pub demarshal_request_1_1-at :
      (id expected : ℕ) (key name : List ℕ)
      → id < u32_mod
      → length key < u32_mod
      → length name + 1 < u32_mod
      → IsFront
          (request_1_1_body sender
            (service_context_data sender)
            id
            expected
            key
            (operation_vec sender name)
            (replicate 4 0))
          total
      → (s o p : Slice) × (s.bytes ≡ key)
        × (o.bytes ≡ name ++ (0 ∷ []))
        × (p.bytes ≡ [])
        × (demarshal_request_1_1 host (at b [])
            ≡ ok (
              record {
                service_context = code_sets sender;
                request_id = id;
                response_expected = expected;
                object_key = s;
                operation = o;
                requesting_principal = p;
              },
              at b (
                  request_1_1_body sender
                    (service_context_data sender)
                    id
                    expected
                    key
                    (operation_vec sender name)
                    (replicate 4 0)),
            ))
  unfolding demarshal_request_1_1 request_1_1_body cdr_octets
  demarshal_request_1_1-at id expected key name i k n f =
      let text = name ++ (0 ∷ []) in
      let c = service_context_data sender in
      let p₀ = c ++ u32_bytes sender id in
      let p₁ = p₀ ++ (expected ∷ []) in
      let p₂ = cdr_octets sender key p₁ in
      let p₃ = cdr_octets sender text p₂ in
      let p₄ = cdr_align 4 p₂ ++ operation_vec sender name in
      let f₄ = IsFront-append p₄ (replicate 4 0) total f in
      let small : length text < u32_mod = omega (arith, length-append name (0 ∷ [])) in
      let f₂ =
        IsFront-cdr_align 4 p₂ total
          (IsFront-append (cdr_align 4 p₂) (operation_vec sender name) total f₄) in
      let f₃ = operation-IsFront host sender b total r p₂ name f₄ in
      let e =
        cdr_align-operation sender name p₂ (front-le host sender b total r p₃ f₃)
          (front-le host sender b total r p₂ f₂) in
      let f₁ = IsFront-cdr_octets sender key p₁ total f₂ in
      let fc =
        IsFront-append c (u32_bytes sender id) total (IsFront-append p₀ (expected ∷ []) total f₁) in
      let q = p₀ ++ (expected ∷ 0 ∷ 0 ∷ 0 ∷ []) in
      let l = q ++ u32_bytes sender (length key) in
      let m = length-octet_key id expected in
      let padded = cdr_align-octet p₀ expected m in
      let g : IsFront (l ++ key) total = rw padded at f₂ in
      let g₁ = IsFront-append l key total g in
      let g₀ = IsFront-append q (u32_bytes sender (length key)) total g₁ in
      let none = no_principal p₃ (rw (e) f) in
      (
        record { addr = b.base + (12 + length l); bytes = key },
        octets_slice b sender text p₂,
        record { addr = b.base + (12 + length (p₄ ++ replicate 4 0)); bytes = [] },
        refl,
        refl,
        refl,
        >>=-eq_of_ok (demarshal_service_context_list host) _ (at b [])
            (contexts-front host sender b total r [] refl fc)
            (octet_and_key id expected key _ i k g₁
              ∙ >>=-eq_of_ok (get_slice (length key)) _ (at b l)
                  (get_slice-at host sender b total r l key g)
                  (rw (← padded) (
                    >>=-eq_of_ok (aligned_slice host) _ (at b p₂)
                      (aligned_slice-at host sender b total r p₂ text small f₂ f₃)
                      (>>=-eq_of_ok (aligned_slice host) _ (at b p₃) (rw e at none) refl)))),
      )
