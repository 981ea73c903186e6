-- ===== src/Giop/RecvBuffer/Fields.antt =====
-- What demarshal hands out of any message at all.
pub mod Steps
pub mod Parts
use mathlib.Core.Path.{subst}
use mate_corba.Prelude.{
  ℕ, zero, suc, ◌+◌, ◌-◌, ◌%◌, ◌≤◌, ◌<◌, ◌≡◌, refl, sym, arith, Bool, ◌==◌, take, leb, Bool-cases,
  inl, inr, if◌then◌else◌, true, false, ltb, ◌||◌, u32_mod, u64_mod, Endian, read_u32,
}
use mate_corba.Giop.Align.{IsBoundary, align_value, align_value_lem}
use mate_corba.Giop.Types.{Version, giop_1_0, giop_1_1, giop_1_2, giop_num_msg_types}
use mate_corba.Giop.RecvBuffer.Reader.{
  Outcome, ok, bad, fault, RecvBuffer, Reader, pure, ◌>>=◌, ◌>>◌, align_cur, need, get_u32, get_u16,
  get_octet, Slice, get_slice, aligned_u32, aligned_slice, memory_at, msg_conversion_needed,
}
use mate_corba.Giop.RecvBuffer.Demarshal.{
  TargetAddress, key_addr, unread, Body, request_1_1, request_1_2, reply_1_1, reply_1_2,
  cancel_request, locate_request_1_1, locate_request_1_2, locate_reply, no_body,
  demarshal_target_address, demarshal_octets, demarshal_service_context, demarshal_contexts,
  demarshal_service_context_list, demarshal_request_1_1, demarshal_request_1_2, demarshal_reply_1_1,
  demarshal_reply_1_2, demarshal_cancel, demarshal_locate_request_1_1, demarshal_locate_request_1_2,
  demarshal_locate_reply, decode_old, decode_1_2, demarshal, map_body, decode_of,
}
use mate_corba.Giop.RecvBuffer.Safety.{Ensures, Ensures->>=, IsBoundary-le}
use mate_corba.Giop.RecvBuffer.Fields.Steps.{
  word_at, IsField, IsTarget, IsBody, At, Moved, seq, Left, Near, Word, Counted, align_step,
  need_step, u32_step, u16_step, octet_step, slice_step, aligned_step, octets_step,
}
use mate_corba.Giop.RecvBuffer.Fields.Parts.{list-Left, Addressed, address_step, two_words}

module _ (host : Endian) (m : RecvBuffer) (low : m.end + 24 ≤ u64_mod) where
  -- Of a message without slices there is nothing to say but that it is read.
  abbrev Any : {A : Type 0} → A → RecvBuffer → Type 0
  Any a b = Unit {0}

  abbrev Is : {A : Type 0} → (A → Body) → A → RecvBuffer → Type 0
  Is f a b = IsBody host m (f a)

  request_1_1-Is :
      (c : ℕ)
      → Left host m low 0 tt c
      → Ensures (Is request_1_1) (demarshal_request_1_1 host (At host m low c))
  unfolding demarshal_request_1_1
  request_1_1-Is c h =
      let R = Is request_1_1 in
      seq host m low (Left host m low 0) R (demarshal_service_context_list host) _ c
        (list-Left host m low c h)
        λ _ c₁ h₁.
          seq host m low (Near host m low) R (align_cur 4) _ c₁
            (align_step host m low 4 c₁ (inr (inl refl)) h₁)
            λ _ c₂ h₂.
              seq host m low (Left host m low 12) R (need 12) _ c₂
                (need_step host m low 12 c₂ (omega arith) h₂)
                λ _ c₃ h₃.
                  seq host m low (Word host m low 8) R (get_u32 host) _ c₃
                    (u32_step host m low 8 c₃ (omega (arith, h₃)))
                    λ id c₄ w₄.
                      seq host m low (Left host m low 4) R (get_octet 4) _ c₄
                        (octet_step host m low 4 c₄ (omega (arith, w₄.1)))
                        λ _ c₅ h₅.
                          seq host m low (Word host m low 0) R (get_u32 host) _ c₅
                            (u32_step host m low 0 c₅ (omega (arith, h₅)))
                            λ n c₆ w₆.
                              seq host m low (Counted host m low) R (get_slice n) _ c₆
                                (slice_step host m low n c₆ w₆)
                                λ k c₇ q₇.
                                  seq host m low (Counted host m low) R (aligned_slice host) _ c₇
                                    (octets_step host m low c₇ (omega (arith, q₇.1)))
                                    λ o c₈ q₈.
                                      seq host m low (Counted host m low) R (aligned_slice host) _
                                        c₈ (octets_step host m low c₈ (omega (arith, q₈.1)))
                                        λ p c₉ q₉. (q₇.0, q₈.0, q₉.0)

  request_1_2-Is :
      (c : ℕ)
      → Left host m low 0 tt c
      → Ensures (Is request_1_2) (demarshal_request_1_2 host (At host m low c))
  unfolding demarshal_request_1_2
  request_1_2-Is c h =
      let R = Is request_1_2 in
      seq host m low (Near host m low) R (align_cur 4) _ c
        (align_step host m low 4 c (inr (inl refl)) h)
        λ _ c₁ h₁.
          seq host m low (Left host m low 8) R (need 8) _ c₁
            (need_step host m low 8 c₁ (omega arith) h₁)
            λ _ c₂ h₂.
              seq host m low (Word host m low 4) R (get_u32 host) _ c₂
                (u32_step host m low 4 c₂ (omega (arith, h₂)))
                λ id c₃ w₃.
                  seq host m low (Left host m low 0) R (get_octet 4) _ c₃
                    (octet_step host m low 0 c₃ (omega (arith, w₃.1)))
                    λ _ c₄ h₄.
                      seq host m low (Addressed host m low) R (demarshal_target_address host) _ c₄
                        (address_step host m low c₄ h₄)
                        λ t c₅ q₅.
                          seq host m low (Counted host m low) R (aligned_slice host) _ c₅
                            (octets_step host m low c₅ (omega (arith, q₅.1)))
                            λ o c₆ q₆.
                              seq host m low (Left host m low 0) R
                                (demarshal_service_context_list host) _ c₆
                                (list-Left host m low c₆ (omega (arith, q₆.1)))
                                λ _ c₇ h₇.
                                  seq host m low (Near host m low) R (align_cur 8) _ c₇
                                    (align_step host m low 8 c₇ (inr (inr refl)) h₇)
                                    λ _ c₈ h₈. (q₅.0, q₆.0)

  reply_1_1-Any :
      (c : ℕ) → Left host m low 0 tt c → Ensures Any (demarshal_reply_1_1 host (At host m low c))
  unfolding demarshal_reply_1_1
  reply_1_1-Any c h =
      seq host m low (Left host m low 0) Any (demarshal_service_context_list host) _ c
        (list-Left host m low c h) λ _ c₁ h₁. two_words host m low Any _ c₁ h₁ λ x y c₂ w. tt

  reply_1_2-Any :
      (c : ℕ) → Left host m low 0 tt c → Ensures Any (demarshal_reply_1_2 host (At host m low c))
  unfolding demarshal_reply_1_2
  reply_1_2-Any c h = two_words host m low Any _ c h λ x y c₁ w.
      seq host m low (Left host m low 0) Any (demarshal_service_context_list host) _ c₁
        (list-Left host m low c₁ (omega (arith, w.1)))
        λ _ c₂ h₂.
          seq host m low (Near host m low) Any (align_cur 8) _ c₂
            (align_step host m low 8 c₂ (inr (inr refl)) h₂) λ _ c₃ h₃. tt

  locate_request_1_1-Is :
      (c : ℕ)
      → Left host m low 0 tt c
      → Ensures (Is locate_request_1_1) (demarshal_locate_request_1_1 host (At host m low c))
  unfolding demarshal_locate_request_1_1
  locate_request_1_1-Is c h =
      let R = Is locate_request_1_1 in
      two_words host m low R _ c h λ x y c₁ w.
        seq host m low (Counted host m low) R (get_slice y) _ c₁ (slice_step host m low y c₁ w)
          λ k c₂ q. q.0

  locate_request_1_2-Is :
      (c : ℕ)
      → Left host m low 0 tt c
      → Ensures (Is locate_request_1_2) (demarshal_locate_request_1_2 host (At host m low c))
  unfolding demarshal_locate_request_1_2
  locate_request_1_2-Is c h =
      let R = Is locate_request_1_2 in
      seq host m low (Word host m low 0) R (aligned_u32 host) _ c (aligned_step host m low c h)
        λ id c₁ w.
          seq host m low (Addressed host m low) R (demarshal_target_address host) _ c₁
            (address_step host m low c₁ (omega (arith, w.1))) λ t c₂ q. q.0

  locate_reply-Any :
      (c : ℕ) → Left host m low 0 tt c → Ensures Any (demarshal_locate_reply host (At host m low c))
  unfolding demarshal_locate_reply
  locate_reply-Any c h = two_words host m low Any _ c h λ x y c₁ w. tt

  cancel-Any :
      (c : ℕ) → Left host m low 0 tt c → Ensures Any (demarshal_cancel host (At host m low c))
  unfolding demarshal_cancel
  cancel-Any c h = drop_state (aligned_u32 host (At host m low c)) (aligned_step host m low c h)
    where
      drop_state :
          (r : Outcome (ℕ × RecvBuffer))
          → Ensures (Moved host m low (Word host m low 0)) r
          → Ensures Any r
      drop_state (ok (n, b)) q = tt
      drop_state bad q = tt
      drop_state fault q = q

  body-Is :
      {A : Type 0} (Q : A → RecvBuffer → Type 0) (f : A → Body) (r : Reader A) (b : RecvBuffer)
      → Ensures Q (r b)
      → ((a : A) (b' : RecvBuffer) → Q a b' → IsBody host m (f a))
      → Ensures (λ x b'. IsBody host m x) (map_body f r b)
  body-Is Q f r b q k = Ensures->>= Q (λ x b'. IsBody host m x) r (λ a. pure (f a)) b q k

  decode_old-Is :
      (t c : ℕ)
      → Left host m low 0 tt c
      → Ensures (λ x b. IsBody host m x) (decode_old host t (At host m low c))
  unfolding decode_old
  decode_old-Is t c h = ground (
    arith,
    body-Is _ request_1_1 (demarshal_request_1_1 host) (At host m low c) (request_1_1-Is c h)
        (λ a b q. q),
    body-Is _ reply_1_1 (demarshal_reply_1_1 host) (At host m low c) (reply_1_1-Any c h)
        (λ a b q. tt),
    body-Is _ cancel_request (demarshal_cancel host) (At host m low c) (cancel-Any c h)
        (λ a b q. tt),
    body-Is _ locate_request_1_1 (demarshal_locate_request_1_1 host) (At host m low c)
        (locate_request_1_1-Is c h) (λ a b q. q),
    body-Is _ locate_reply (demarshal_locate_reply host) (At host m low c) (locate_reply-Any c h)
        (λ a b q. tt),
  )

  decode_1_2-Is :
      (t c : ℕ)
      → Left host m low 0 tt c
      → Ensures (λ x b. IsBody host m x) (decode_1_2 host t (At host m low c))
  unfolding decode_1_2
  decode_1_2-Is t c h = ground (
    arith,
    body-Is _ request_1_2 (demarshal_request_1_2 host) (At host m low c) (request_1_2-Is c h)
        (λ a b q. q),
    body-Is _ reply_1_2 (demarshal_reply_1_2 host) (At host m low c) (reply_1_2-Any c h)
        (λ a b q. tt),
    body-Is _ cancel_request (demarshal_cancel host) (At host m low c) (cancel-Any c h)
        (λ a b q. tt),
    body-Is _ locate_request_1_2 (demarshal_locate_request_1_2 host) (At host m low c)
        (locate_request_1_2-Is c h) (λ a b q. q),
    body-Is _ locate_reply (demarshal_locate_reply host) (At host m low c) (locate_reply-Any c h)
        (λ a b q. tt),
  )

  decode_of-Is :
      (v : Version) (t c : ℕ)
      → Left host m low 0 tt c
      → Ensures (λ x b. IsBody host m x) (decode_of host v t (At host m low c))
  decode_of-Is giop_1_0 t c h = decode_old-Is t c h
  decode_of-Is giop_1_1 t c h = decode_old-Is t c h
  decode_of-Is giop_1_2 t c h = decode_1_2-Is t c h

-- On any message at all, of any type, version and byte order, that ends at least 24 below 2^64
-- and whose read position is inside it, demarshal reads nothing past the end of the message,
-- and of each object key, operation and principal that it hands out the message has, behind the
-- read position, a word that counts its octets and right behind the word those octets, all
-- before the end; a target of another disposition has one above 2.
pub demarshal-IsBody :
    (host : Endian) (b : RecvBuffer)
    → b.end + 24 ≤ u64_mod
    → b.cur ≤ b.end
    → Ensures (λ x b'. IsBody host b x) (demarshal host b)
unfolding demarshal
demarshal-IsBody host b low h =
    elim (Bool-cases (leb giop_num_msg_types b.msg_header.message_type)) [
      | inl e ↦ rw e tt
      | inr e ↦ rw e (
          decode_of-Is host b low b.giop_version b.msg_header.message_type b.cur
            (omega arith, omega (arith, h)))
    ]
