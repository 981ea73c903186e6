-- ===== src/Giop/RecvBuffer/Fields/Parts.antt =====
-- What messages share: octets, contexts, addresses, words.
use mate_corba.Prelude.{
  ℕ, zero, suc, ◌+◌, ◌≤◌, refl, arith, ◌==◌, leb, Bool-cases, inl, inr, u64_mod, Endian,
}
use mate_corba.Giop.RecvBuffer.Reader.{
  RecvBuffer, Reader, ◌>>=◌, ◌>>◌, align_cur, need, get_u32, get_u16, get_slice, aligned_u32,
  aligned_slice,
}
use mate_corba.Giop.RecvBuffer.Demarshal.{
  TargetAddress, demarshal_target_address, demarshal_octets, demarshal_service_context,
  demarshal_contexts, demarshal_service_context_list,
}
use mate_corba.Giop.RecvBuffer.Safety.{Ensures}
use mate_corba.Giop.RecvBuffer.Fields.Steps.{
  IsTarget, At, Moved, seq, Left, Near, Word, Counted, align_step, need_step, u32_step, u16_step,
  slice_step, aligned_step, octets_step,
}

module _ (host : Endian) (m : RecvBuffer) (low : m.end + 24 ≤ u64_mod) where
  octets-Left :
      (c : ℕ)
      → Left host m low 0 tt c
      → Ensures (Moved host m low (Left host m low 0)) (demarshal_octets host (At host m low c))
  unfolding demarshal_octets
  octets-Left c h =
      seq host m low (Word host m low 0) (Moved host m low (Left host m low 0)) (aligned_u32 host) _
        c (aligned_step host m low c h)
        λ n c₁ w. elim (Bool-cases (n == 0)) [
          | inl z ↦ rw z (c₁, refl, omega (arith, w))
          | inr z ↦ rw z (
              seq host m low (Counted host m low) (Moved host m low (Left host m low 0))
                (get_slice n) _ c₁ (slice_step host m low n c₁ w)
                λ s c₂ q. (c₂, refl, omega (arith, q.1)))
        ]

  context-Left :
      (c : ℕ)
      → Left host m low 0 tt c
      → Ensures
          (Moved host m low (Left host m low 0))
          (demarshal_service_context host (At host m low c))
  unfolding demarshal_service_context
  context-Left c h =
      seq host m low (Word host m low 0) (Moved host m low (Left host m low 0)) (aligned_u32 host) _
        c (aligned_step host m low c h)
        λ n c₁ w.
          seq host m low (Left host m low 0) (Moved host m low (Left host m low 0))
            (demarshal_octets host) _ c₁ (octets-Left c₁ (omega (arith, w))) λ o c₂ q. (c₂, refl, q)

  contexts-Left :
      (n c : ℕ)
      → Left host m low 0 tt c
      → Ensures (Moved host m low (Left host m low 0)) (demarshal_contexts host n (At host m low c))
  unfolding demarshal_contexts
  contexts-Left zero c h = (c, refl, h)
  contexts-Left (suc n) c h =
      seq host m low (Left host m low 0) (Moved host m low (Left host m low 0))
        (demarshal_service_context host) _ c (context-Left c h)
        λ x c₁ h₁.
          seq host m low (Left host m low 0) (Moved host m low (Left host m low 0))
            (demarshal_contexts host n) _ c₁ (contexts-Left n c₁ h₁) λ xs c₂ h₂. (c₂, refl, h₂)

  pub list-Left :
      (c : ℕ)
      → Left host m low 0 tt c
      → Ensures
          (Moved host m low (Left host m low 0))
          (demarshal_service_context_list host (At host m low c))
  unfolding demarshal_service_context_list
  list-Left c h =
      seq host m low (Word host m low 0) (Moved host m low (Left host m low 0)) (aligned_u32 host) _
        c (aligned_step host m low c h) λ n c₁ w. contexts-Left n c₁ (omega (arith, w))

  abbrev pub Addressed : TargetAddress → ℕ → Type 0
  Addressed t c = IsTarget host m t × (m.cur ≤ c) × (c ≤ m.end)

  pub address_step :
      (c : ℕ)
      → Left host m low 0 tt c
      → Ensures (Moved host m low Addressed) (demarshal_target_address host (At host m low c))
  unfolding demarshal_target_address
  address_step c h =
      seq host m low (Near host m low) (Moved host m low Addressed) (align_cur 2) _ c
        (align_step host m low 2 c (inl refl) h)
        λ _ c₁ h₁.
          seq host m low (Left host m low 2) (Moved host m low Addressed) (need 2) _ c₁
            (need_step host m low 2 c₁ (omega arith) h₁)
            λ _ c₂ h₂.
              seq host m low (Left host m low 0) (Moved host m low Addressed) (get_u16 host) _ c₂
                (u16_step host m low 0 c₂ (omega (arith, h₂)))
                λ d c₃ h₃. elim (Bool-cases (d == 0)) [
                  | inl z ↦ rw z (
                      seq host m low (Counted host m low) (Moved host m low Addressed)
                        (aligned_slice host) _ c₃ (octets_step host m low c₃ h₃)
                        λ s c₄ q. (c₄, refl, q))
                  | inr z ↦ elim (Bool-cases (leb d 2)) [
                    | inl y ↦ rw (z, y) tt
                    | inr y ↦
                        rw (z, y) (c₃, refl, (ground arith, omega (arith, h₃), omega (arith, h₃)))
                  ]
                ]

  -- Two words behind an alignment, and what follows.
  pub two_words :
      {A : Type 0} (R : A → RecvBuffer → Type 0) (k : ℕ → ℕ → Reader A) (c : ℕ)
      → Left host m low 0 tt c
      → ((x y c' : ℕ) → Word host m low 0 y c' → Ensures R (k x y (At host m low c')))
      → Ensures R
          ((do align_cur 4; need 8; x ← get_u32 host; y ← get_u32 host; k x y) (At host m low c))
  two_words R k c h g =
      seq host m low (Near host m low) R (align_cur 4) _ c
        (align_step host m low 4 c (inr (inl refl)) h)
        λ _ c₁ h₁.
          seq host m low (Left host m low 8) R (need 8) _ c₁
            (need_step host m low 8 c₁ (omega arith) h₁)
            λ _ c₂ h₂.
              seq host m low (Word host m low 4) R (get_u32 host) _ c₂
                (u32_step host m low 4 c₂ (omega (arith, h₂)))
                λ x c₃ w.
                  seq host m low (Word host m low 0) R (get_u32 host) _ c₃
                    (u32_step host m low 0 c₃ (omega (arith, w.1))) λ y c₄ v. g x y c₄ v
