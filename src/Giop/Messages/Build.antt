-- ===== src/Giop/Messages/Build.antt =====
-- The send buffer implements the layouts: what each message of giop-send-buffer.c puts on the wire.
use mathlib.Core.Path.{subst}
use mate_corba.Prelude.{
  ℕ, ◌+◌, ◌%◌, ◌≤◌, ◌<◌, ◌≡◌, refl, ap, arith, List, [], ◌∷◌, ◌++◌, inl, inr, Endian, big, little,
  u32_bytes, u16_bytes, replicate, length, u32_mod, length-u32_bytes, length-u16_bytes, suc,
  append_assoc, Bool, Option, none, some, if◌then◌else◌,
}
use mate_corba.Giop.Align.{IsBoundary, align_value}
use mate_corba.Giop.Types.{MsgHeader, giop_1_1, giop_1_2}
use mate_corba.Giop.SendBuffer.Memory.{Mem, field, SendBuffer}
use mate_corba.Giop.SendBuffer.Defs.{append, align, append_aligned, caller_bytes}
use mate_corba.Giop.SendBuffer.Put.{Writes}
use mate_corba.Giop.SendBuffer.Writes.{Writes-trans}
use mate_corba.Giop.SendBuffer.Append.{
  IsSource, append-Writes, align-Writes, append_aligned-Writes, padding, message_end,
}
use mate_corba.Giop.Messages.{
  Octets, memory, service_context_data, boolean_octet, principal_or_zero, fill_request, fill_reply,
  fill_locate_request,
}
use mate_corba.Giop.Messages.Layout.{
  cdr_align, cdr_octets, request_1_2_body, request_1_1_body, reply_1_2_body, reply_1_1_body,
  locate_request_1_2_body, locate_request_1_1_body,
}

pub length-service_context_data : (host : Endian) → length (service_context_data host) ≡ 24
unfolding service_context_data u32_bytes
length-service_context_data big = refl
length-service_context_data little = refl

principal-IsSource : (p : Option Octets) → IsSource (principal_or_zero p)
principal-IsSource none = omega arith
principal-IsSource (some p) = tt

-- A started buffer `s` that has come to hold `body`.
module _ (host : Endian) (blank : Bool) (s : SendBuffer) (size : s.msg_header.message_size ≡ 0)
    (head : s.header_size ≡ 12) where
  pub message_end-Writes :
      (body : List ℕ) (b : SendBuffer)
      → Writes host s body b
      → message_end b ≡ (length body + 12) % u32_mod
  message_end-Writes body b w =
      omega (arith, ap (λ (h : MsgHeader). h.message_size) w.grown, w.kept_size, size, head)

  step_append :
      (body : List ℕ) (b : SendBuffer) (m : Mem)
      → Writes host s body b
      → IsSource m
      → 0 < length (caller_bytes m)
      → Writes host s (body ++ caller_bytes m) (append blank b m)
  step_append body b m w i p =
      Writes-trans host s b _ body _ w (append-Writes host blank b m w.valid i (omega arith))

  pub step_align :
      (n : ℕ) (body : List ℕ) (b : SendBuffer)
      → Writes host s body b
      → IsBoundary n
      → Writes host s (cdr_align n body) (align blank b n)
  unfolding cdr_align
  step_align n body b w i =
      rw (← message_end-Writes body b w)
        (Writes-trans host s b _ body _ w (align-Writes host blank b n w.valid i))

  pub step_u32 :
      (v : ℕ) (body : List ℕ) (b : SendBuffer)
      → Writes host s body b
      → Writes host s
          (cdr_align 4 body ++ u32_bytes host v)
          (append_aligned blank b (u32_bytes host v))
  unfolding cdr_align
  step_u32 v body b w =
      let four = length-u32_bytes host v in
      let aligned : Writes host b (replicate (padding (message_end b) 4) 0 ++ u32_bytes host v)
          (append_aligned blank b (u32_bytes host v)) =
        rw four at (
          append_aligned-Writes host blank b (u32_bytes host v) w.valid
            (rw four (inr (inl refl)))) in
      rw (← message_end-Writes body b w)
        (rw (← append_assoc) at (Writes-trans host s b _ body _ w aligned))

  step_octets :
      (o : Octets) (body : List ℕ) (b : SendBuffer)
      → Writes host s body b
      → 0 < length o.bytes
      → Writes host s
          (cdr_octets host o.bytes body)
          (append blank (append_aligned blank b (u32_bytes host (length o.bytes))) (memory o))
  unfolding cdr_octets
  step_octets o body b w p = step_append _ _ (memory o) (step_u32 (length o.bytes) body b w) tt p

  -- Nothing is needed to align the end of the header.
  pub step_align_four : (b : SendBuffer) → Writes host s [] b → Writes host s [] (align blank b 4)
  step_align_four b w =
      subst (λ t. Writes host s t (align blank b 4)) aligned (step_align 4 [] b w (inr (inl refl)))
    where
      aligned : cdr_align 4 [] ≡ []
      aligned = unfold cdr_align padding align_value in refl

  pub step_field :
      (bs : List ℕ) (n : ℕ) (body : List ℕ) (b : SendBuffer)
      → Writes host s body b
      → length bs ≡ suc n
      → suc n ≤ 32
      → Writes host s (body ++ bs) (append blank b (field bs))
  step_field bs n body b w e l = step_append body b (field bs) w (omega arith) (omega arith)

  pub fill_request_1_2-Writes :
      (request_id : ℕ) (expected : Bool) (key operation : Octets) (principal : Option Octets)
      (b : SendBuffer)
      → Writes host s [] b
      → 0 < length key.bytes
      → 0 < length operation.bytes
      → Writes host s
          (request_1_2_body host
            (service_context_data host)
            request_id
            (if expected then 3 else 0)
            key.bytes
            operation.bytes)
          (fill_request host blank giop_1_2 request_id expected key operation principal b)
  unfolding fill_request request_1_2_body
  fill_request_1_2-Writes request_id expected key operation principal b w k o =
      let w₁ = step_align_four b w in
      let w₂ =
        step_field (u32_bytes host request_id) 3 _ _ w₁ (length-u32_bytes host request_id)
          (omega arith) in
      let w₃ = step_field ((if expected then 3 else 0) ∷ []) 0 _ _ w₂ refl (omega arith) in
      let w₄ = step_field (0 ∷ 0 ∷ 0 ∷ []) 2 _ _ w₃ refl (omega arith) in
      let w₅ = step_field (u16_bytes host 0) 1 _ _ w₄ (length-u16_bytes host 0) (omega arith) in
      let w₆ = step_octets key _ _ w₅ k in
      let w₇ = step_align 4 _ _ w₆ (inr (inl refl)) in
      let w₈ = step_append _ _ (memory operation) w₇ tt o in
      let w₉ =
        step_field (service_context_data host) 23 _ _ w₈ (length-service_context_data host)
          (omega arith) in
      step_align 8 _ _ w₉ (inr (inr refl))

  pub fill_request_1_1-Writes :
      (request_id : ℕ) (expected : Bool) (key operation : Octets) (principal : Option Octets)
      (b : SendBuffer)
      → Writes host s [] b
      → 0 < length key.bytes
      → 0 < length operation.bytes
      → 0 < length (caller_bytes (principal_or_zero principal))
      → Writes host s
          (request_1_1_body host
            (service_context_data host)
            request_id
            (boolean_octet expected)
            key.bytes
            operation.bytes
            (caller_bytes (principal_or_zero principal)))
          (fill_request host blank giop_1_1 request_id expected key operation principal b)
  unfolding fill_request request_1_1_body
  fill_request_1_1-Writes request_id expected key operation principal b w k o p =
      let w₁ =
        step_field (service_context_data host) 23 _ _ w (length-service_context_data host)
          (omega arith) in
      let w₂ =
        step_field (u32_bytes host request_id) 3 _ _ w₁ (length-u32_bytes host request_id)
          (omega arith) in
      let w₃ = step_field (boolean_octet expected ∷ []) 0 _ _ w₂ refl (omega arith) in
      let w₄ = step_octets key _ _ w₃ k in
      let w₅ = step_align 4 _ _ w₄ (inr (inl refl)) in
      let w₆ = step_append _ _ (memory operation) w₅ tt o in
      step_append _ _ (principal_or_zero principal) w₆ (principal-IsSource principal) p

  pub fill_reply_1_2-Writes :
      (request_id status : ℕ) (b : SendBuffer)
      → Writes host s [] b
      → Writes host s
          (reply_1_2_body host (service_context_data host) request_id status)
          (fill_reply host blank giop_1_2 request_id status b)
  unfolding fill_reply reply_1_2_body
  fill_reply_1_2-Writes request_id status b w =
      let w₁ =
        step_field (u32_bytes host request_id) 3 _ _ w (length-u32_bytes host request_id)
          (omega arith) in
      let w₂ =
        step_field (u32_bytes host status) 3 _ _ w₁ (length-u32_bytes host status) (omega arith) in
      let w₃ =
        step_field (service_context_data host) 23 _ _ w₂ (length-service_context_data host)
          (omega arith) in
      step_align 8 _ _ w₃ (inr (inr refl))

  pub fill_reply_1_1-Writes :
      (request_id status : ℕ) (b : SendBuffer)
      → Writes host s [] b
      → Writes host s
          (reply_1_1_body host (service_context_data host) request_id status)
          (fill_reply host blank giop_1_1 request_id status b)
  unfolding fill_reply reply_1_1_body
  fill_reply_1_1-Writes request_id status b w =
      let w₁ =
        step_field (service_context_data host) 23 _ _ w (length-service_context_data host)
          (omega arith) in
      let w₂ =
        step_field (u32_bytes host request_id) 3 _ _ w₁ (length-u32_bytes host request_id)
          (omega arith) in
      step_field (u32_bytes host status) 3 _ _ w₂ (length-u32_bytes host status) (omega arith)

  pub fill_locate_request_1_2-Writes :
      (request_id : ℕ) (key : Octets) (b : SendBuffer)
      → Writes host s (u32_bytes host request_id) b
      → 0 < length key.bytes
      → Writes host s
          (locate_request_1_2_body host request_id key.bytes)
          (fill_locate_request host blank giop_1_2 key b)
  unfolding fill_locate_request locate_request_1_2_body
  fill_locate_request_1_2-Writes request_id key b w k =
      step_octets key _ _
        (step_field (u16_bytes host 0) 1 _ _ w (length-u16_bytes host 0) (omega arith)) k

  pub fill_locate_request_1_1-Writes :
      (request_id : ℕ) (key : Octets) (b : SendBuffer)
      → Writes host s (u32_bytes host request_id) b
      → 0 < length key.bytes
      → Writes host s
          (locate_request_1_1_body host request_id key.bytes)
          (fill_locate_request host blank giop_1_1 key b)
  unfolding fill_locate_request locate_request_1_1_body
  fill_locate_request_1_1-Writes request_id key b w k = step_octets key _ _ w k
