-- ===== src/Giop/RecvBuffer/Replies.antt =====
-- Replies, locate requests and locate replies: the demarshalling functions of giop-recv-buffer.c
-- on the layouts that giop-send-buffer.c writes.
use mate_corba.Prelude.{
  ℕ, ◌+◌, ◌%◌, ◌<◌, ◌≡◌, refl, ◌∙◌, arith, List, [], ◌++◌, length, inl, inr, u32_mod, Endian,
  u32_bytes, u16_bytes, length-u32_bytes, length-append, append_assoc,
}
use mathlib.Core.Path.{subst}
use mate_corba.Giop.Messages.{service_context_data}
use mate_corba.Giop.Messages.Layout.{
  cdr_octets, reply_1_2_body, reply_1_1_body, locate_request_1_2_body, locate_request_1_1_body,
  locate_reply_body,
}
use mate_corba.Giop.Messages.Build.{length-service_context_data}
use mate_corba.Giop.RecvBuffer.Reader.{
  ok, RecvBuffer, Reader, ◌>>=◌, ◌>>◌, align_cur, need, get_u32, get_slice, Slice, aligned_u32,
  >>=-eq_of_ok,
}
use mate_corba.Giop.RecvBuffer.Demarshal.{
  key_addr, demarshal_target_address, demarshal_service_context_list, demarshal_reply_1_1,
  demarshal_reply_1_2, demarshal_locate_request_1_1, demarshal_locate_request_1_2,
  demarshal_locate_reply,
}
use mate_corba.Giop.RecvBuffer.At.{
  IsFront, IsFront-append, Received, at, align_cur-at, need-at, get_u32-at, get_slice-at,
}
use mate_corba.Giop.RecvBuffer.Parts.{
  IsFront-cdr_align, IsFront-cdr_octets, cdr_align-id, code_sets, front-le, contexts-at,
  target_address-at, word-at,
}

length-two : (sender : Endian) (v w : ℕ) → length (u32_bytes sender v ++ u32_bytes sender w) ≡ 8
length-two sender v w = omega (
  arith,
  length-append (u32_bytes sender v) (u32_bytes sender w),
  length-u32_bytes sender v,
  length-u32_bytes sender w,
)

module _ (host sender : Endian) (b : RecvBuffer) (total : List ℕ)
    (r : Received host sender b total) where
  -- Two words behind an aligned end, as the code reads them under one check.
  two_words :
      {B : Type 0} (p : List ℕ) (v w : ℕ) (k : ℕ → ℕ → Reader B)
      → length p % 4 ≡ 0
      → v < u32_mod
      → w < u32_mod
      → IsFront (p ++ u32_bytes sender v ++ u32_bytes sender w) total
      → (do align_cur 4; need 8; x ← get_u32 host; y ← get_u32 host; k x y) (at b p)
        ≡ k v w (at b (p ++ u32_bytes sender v ++ u32_bytes sender w))
  two_words p v w k a hv hw f =
      let q = p ++ u32_bytes sender v in
      let f₁ = IsFront-append q (u32_bytes sender w) total f in
      let f₀ = IsFront-append p (u32_bytes sender v) total f₁ in
      let e = cdr_align-id p a (front-le host sender b total r p f₀) in
      let room = rw (length-two sender v w) at (
        need-at host sender b total r p (u32_bytes sender v ++ u32_bytes sender w)
          (subst (λ t. IsFront t total) (append_assoc p _ _) f)) in
      >>=-eq_of_ok (align_cur 4) _ (at b p)
        (rw e at (align_cur-at host sender b total r 4 p (inr (inl refl)) f₀))
        (>>=-eq_of_ok (need 8) _ (at b p) room (
          >>=-eq_of_ok (get_u32 host) _ (at b p) (get_u32-at host sender b total r p v hv f₁) (
            >>=-eq_of_ok (get_u32 host) _ (at b q) (get_u32-at host sender b total r q w hw f)
              refl)))

  pub contexts-front :
      (p : List ℕ)
      → length p % 4 ≡ 0
      → IsFront (p ++ service_context_data sender) total
      → demarshal_service_context_list host (at b p)
        ≡ ok (code_sets sender, at b (p ++ service_context_data sender))
  contexts-front p a f =
      let e = cdr_align-id p a (front-le host sender b total r p (IsFront-append p _ total f)) in
      rw e at (contexts-at host sender b total r p (rw e f))

  -- A reply of GIOP 1.2.
  pub demarshal_reply_1_2-at :
      (id status : ℕ)
      → id < u32_mod
      → status < u32_mod
      → IsFront (reply_1_2_body sender (service_context_data sender) id status) total
      → demarshal_reply_1_2 host (at b [])
        ≡ ok (
          record { service_context = code_sets sender; request_id = id; reply_status = status },
          at b (reply_1_2_body sender (service_context_data sender) id status),
        )
  unfolding demarshal_reply_1_2 reply_1_2_body
  demarshal_reply_1_2-at id status i s f =
      let p = u32_bytes sender id ++ u32_bytes sender status in
      let q = p ++ service_context_data sender in
      let f₁ = IsFront-cdr_align 8 q total f in
      let f₀ = IsFront-append p (service_context_data sender) total f₁ in
      two_words [] id status _ refl i s f₀
      ∙ >>=-eq_of_ok (demarshal_service_context_list host) _ (at b p)
          (contexts-front p (omega (arith, length-two sender id status)) f₁)
          (>>=-eq_of_ok (align_cur 8) _ (at b q)
            (align_cur-at host sender b total r 8 q (inr (inr refl)) f₁) refl)

  -- A reply of the older versions.
  pub demarshal_reply_1_1-at :
      (id status : ℕ)
      → id < u32_mod
      → status < u32_mod
      → IsFront (reply_1_1_body sender (service_context_data sender) id status) total
      → demarshal_reply_1_1 host (at b [])
        ≡ ok (
          record { service_context = code_sets sender; request_id = id; reply_status = status },
          at b (reply_1_1_body sender (service_context_data sender) id status),
        )
  unfolding demarshal_reply_1_1 reply_1_1_body
  demarshal_reply_1_1-at id status i s f =
      let c = service_context_data sender in
      let f₀ =
        IsFront-append c (u32_bytes sender id) total
          (IsFront-append (c ++ u32_bytes sender id) (u32_bytes sender status) total f) in
      >>=-eq_of_ok (demarshal_service_context_list host) _ (at b []) (contexts-front [] refl f₀)
        (two_words c id status _ (omega (arith, length-service_context_data sender)) i s f)

  pub demarshal_locate_reply-at :
      (id status : ℕ)
      → id < u32_mod
      → status < u32_mod
      → IsFront (locate_reply_body sender id status) total
      → demarshal_locate_reply host (at b [])
        ≡ ok (
          record { request_id = id; locate_status = status },
          at b (locate_reply_body sender id status),
        )
  unfolding demarshal_locate_reply locate_reply_body
  demarshal_locate_reply-at id status i s f = two_words [] id status _ refl i s f

  pub demarshal_locate_request_1_1-at :
      (id : ℕ) (key : List ℕ)
      → id < u32_mod
      → length key < u32_mod
      → IsFront (locate_request_1_1_body sender id key) total
      → (s : Slice) × (s.bytes ≡ key)
        × (demarshal_locate_request_1_1 host (at b [])
            ≡ ok (
              record { request_id = id; object_key = s },
              at b (locate_request_1_1_body sender id key),
            ))
  unfolding demarshal_locate_request_1_1 locate_request_1_1_body cdr_octets
  demarshal_locate_request_1_1-at id key i k f =
      let p = u32_bytes sender id in
      let q = p ++ u32_bytes sender (length key) in
      let e =
        cdr_align-id p (omega (arith, length-u32_bytes sender id))
          (omega (arith, length-u32_bytes sender id)) in
      let g : IsFront (q ++ key) total = rw e at f in
      (
        record { addr = b.base + (12 + length q); bytes = key },
        refl,
        rw e (
            two_words [] id (length key) _ refl i k (IsFront-append q key total g)
            ∙ >>=-eq_of_ok (get_slice (length key)) _ (at b q)
                (get_slice-at host sender b total r q key g) refl),
      )

  pub demarshal_locate_request_1_2-at :
      (id : ℕ) (key : List ℕ)
      → id < u32_mod
      → length key < u32_mod
      → IsFront (locate_request_1_2_body sender id key) total
      → (s : Slice) × (s.bytes ≡ key)
        × (demarshal_locate_request_1_2 host (at b [])
            ≡ ok (
              record { request_id = id; target = key_addr s },
              at b (locate_request_1_2_body sender id key),
            ))
  unfolding demarshal_locate_request_1_2 locate_request_1_2_body
  demarshal_locate_request_1_2-at id key i k f =
      let p = u32_bytes sender id in
      let f₁ = IsFront-cdr_octets sender key (p ++ u16_bytes sender 0) total f in
      let f₀ = IsFront-append p (u16_bytes sender 0) total f₁ in
      (
        _,
        refl,
        >>=-eq_of_ok (aligned_u32 host) _ (at b []) (word-at host sender b total r [] id refl i f₀)
            (>>=-eq_of_ok (demarshal_target_address host) _ (at b p)
              (target_address-at host sender b total r p key k
                (omega (arith, length-u32_bytes sender id)) f)
              refl),
      )
