-- ===== src/Giop/RecvBuffer/Requests.antt =====
-- Requests of GIOP 1.2: giop_recv_buffer_demarshal_request_1_2 on the layout that
-- giop_send_buffer_use_request writes.
use mate_corba.Prelude.{
  ℕ, ◌+◌, ◌<◌, ◌≡◌, refl, ◌∙◌, arith, List, [], ◌∷◌, ◌++◌, length, inl, inr, u32_mod, Endian,
  u32_bytes, u16_bytes, length-u32_bytes, length-append, append_assoc,
}
use mate_corba.Giop.Messages.{service_context_data}
use mate_corba.Giop.Messages.Layout.{cdr_align, cdr_octets, operation_vec, request_1_2_body}
use mate_corba.Giop.RecvBuffer.Reader.{
  ok, RecvBuffer, Reader, ◌>>=◌, ◌>>◌, align_cur, need, get_u32, get_octet, Slice, aligned_slice,
  >>=-eq_of_ok,
}
use mate_corba.Giop.RecvBuffer.Demarshal.{
  key_addr, demarshal_target_address, demarshal_service_context_list, demarshal_request_1_2,
}
use mate_corba.Giop.RecvBuffer.At.{
  IsFront, IsFront-append, Received, at, align_cur-at, need-at, get_u32-at, get_octet-at,
  aligned_slice-at,
}
use mate_corba.Giop.RecvBuffer.Parts.{
  IsFront-cdr_align, IsFront-cdr_octets, code_sets, front-le, contexts-at, target_address-at,
}
use mate_corba.Giop.RecvBuffer.Operation.{cdr_align-nil, cdr_align-operation, operation-IsFront}

module _ (host sender : Endian) (b : RecvBuffer) (total : List ℕ)
    (r : Received host sender b total) where
  length-id_and_octet :
      (id flags : ℕ) → length (u32_bytes sender id ++ (flags ∷ []) ++ (0 ∷ 0 ∷ 0 ∷ [])) ≡ 8
  length-id_and_octet id flags = omega (
    arith,
    length-append (u32_bytes sender id ++ (flags ∷ [])) (0 ∷ 0 ∷ 0 ∷ []),
    length-append (u32_bytes sender id) (flags ∷ []),
    length-u32_bytes sender id,
  )

  -- An id and an octet with three reserved ones, under one check.
  id_and_octet :
      {B : Type 0} (id flags : ℕ) (k : ℕ → ℕ → Reader B)
      → id < u32_mod
      → IsFront (u32_bytes sender id ++ (flags ∷ []) ++ (0 ∷ 0 ∷ 0 ∷ [])) total
      → (do align_cur 4; need 8; x ← get_u32 host; y ← get_octet 4; k x y) (at b [])
        ≡ k id flags (at b (u32_bytes sender id ++ (flags ∷ []) ++ (0 ∷ 0 ∷ 0 ∷ [])))
  id_and_octet id flags k i f =
      let p = u32_bytes sender id in
      let e = append_assoc p (flags ∷ []) (0 ∷ 0 ∷ 0 ∷ []) in
      let g : IsFront (p ++ (flags ∷ 0 ∷ 0 ∷ 0 ∷ [])) total = rw e at f in
      let f₀ = IsFront-append p (flags ∷ 0 ∷ 0 ∷ 0 ∷ []) total g in
      let eight = rw e at (length-id_and_octet id flags) in
      let room = rw eight at (need-at host sender b total r [] (p ++ (flags ∷ 0 ∷ 0 ∷ 0 ∷ [])) g) in
      >>=-eq_of_ok (align_cur 4) _ (at b [])
        (rw cdr_align-nil at
          (align_cur-at host sender b total r 4 [] (inr (inl refl)) (total, refl)))
        (>>=-eq_of_ok (need 8) _ (at b []) room (
          >>=-eq_of_ok (get_u32 host) _ (at b []) (get_u32-at host sender b total r [] id i f₀) (
            >>=-eq_of_ok (get_octet 4) _ (at b p)
              (get_octet-at host sender b total r p flags (0 ∷ 0 ∷ 0 ∷ []) g) (rw e refl))))

  -- A request of GIOP 1.2.
  pub demarshal_request_1_2-at :
      (id flags : ℕ) (key name : List ℕ)
      → id < u32_mod
      → length key < u32_mod
      → length name + 1 < u32_mod
      → IsFront
          (request_1_2_body sender
            (service_context_data sender)
            id
            flags
            key
            (operation_vec sender name))
          total
      → (s o : Slice) × (s.bytes ≡ key)
        × (o.bytes ≡ name ++ (0 ∷ []))
        × (demarshal_request_1_2 host (at b [])
            ≡ ok (
              record {
                request_id = id;
                response_flags = flags;
                target = key_addr s;
                operation = o;
                service_context = code_sets sender;
              },
              at b (
                  request_1_2_body sender
                    (service_context_data sender)
                    id
                    flags
                    key
                    (operation_vec sender name)),
            ))
  unfolding demarshal_request_1_2 request_1_2_body
  demarshal_request_1_2-at id flags key name i k n f =
      let text = name ++ (0 ∷ []) in
      let p₀ = u32_bytes sender id in
      let p₁ = p₀ ++ (flags ∷ []) ++ (0 ∷ 0 ∷ 0 ∷ []) in
      let p₂ = cdr_octets sender key (p₁ ++ u16_bytes sender 0) in
      let p₃ = cdr_octets sender text p₂ in
      let p₄ = cdr_align 4 p₂ ++ operation_vec sender name in
      let p₅ = p₄ ++ service_context_data sender in
      let f₅ = IsFront-cdr_align 8 p₅ total f in
      let f₄ = IsFront-append p₄ (service_context_data sender) total f₅ in
      let small : length text < u32_mod = omega (arith, length-append name (0 ∷ [])) in
      let f₂ =
        IsFront-cdr_align 4 p₂ total
          (IsFront-append (cdr_align 4 p₂) (operation_vec sender name) total f₄) in
      let f₃ = operation-IsFront host sender b total r p₂ name f₄ in
      let e =
        cdr_align-operation sender name p₂ (front-le host sender b total r p₃ f₃)
          (front-le host sender b total r p₂ f₂) in
      let f₁ =
        IsFront-append p₁ (u16_bytes sender 0) total
          (IsFront-cdr_octets sender key (p₁ ++ u16_bytes sender 0) total f₂) in
      (
        _,
        _,
        refl,
        refl,
        id_and_octet id flags _ i f₁
            ∙ >>=-eq_of_ok (demarshal_target_address host) _ (at b p₁)
                (target_address-at host sender b total r p₁ key k
                  (omega (arith, length-id_and_octet id flags)) f₂)
                (>>=-eq_of_ok (aligned_slice host) _ (at b p₂)
                  (aligned_slice-at host sender b total r p₂ text small f₂ f₃)
                  (>>=-eq_of_ok (demarshal_service_context_list host) _ (at b p₃)
                    (rw e at (contexts-at host sender b total r p₃ (rw e f₅)))
                    (>>=-eq_of_ok (align_cur 8) _ (at b p₅)
                      (align_cur-at host sender b total r 8 p₅ (inr (inr refl)) f₅) refl))),
      )
