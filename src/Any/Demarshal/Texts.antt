-- ===== src/Any/Demarshal/Texts.antt =====
-- What MateCORBA_demarshal_value does with a string that has no NUL.
use mathlib.Core.Bool.{true≢false}
use mathlib.Core.Option.{none-ne-some}
use mate_corba.Prelude.{
  ℕ, ◌-◌, ◌<◌, ◌≡◌, ◌↔◌, refl, sym, ap, ◌∙◌, arith, List, [], ◌∷◌, take, All, Bool, Bool-cases,
  true, false, inl, inr, ◌==◌, ==_iff, Option, none, some, Endian,
}
use mate_corba.Giop.RecvBuffer.Reader.{
  Outcome, ok, bad, fault, RecvBuffer, Reader, Slice, aligned_u32, memory_at, >>=-eq_of_ok,
}
use mate_corba.Any.Types.{Kind, tk_string, basic, Value, text, form}
use mate_corba.Any.Demarshal.{
  behind, c_string, duplicate, string_dup, get_signed_slice, demarshal_form, demarshal_value,
}

behind_none : (x : ℕ) (o : Option (List ℕ)) → behind x o ≡ none → o ≡ none
behind_none x none e = refl
behind_none x (some s) e = absurd (none-ne-some (x ∷ s) (sym e))

-- There is no text exactly if no byte is zero.
c_string-none : (xs : List ℕ) → (c_string xs ≡ none) ↔ All (λ c. 0 < c) xs
unfolding c_string
c_string-none [] = (λ e. tt, λ a. refl)
c_string-none (x ∷ xs) =
    let (to, from) = c_string-none xs in
    elim (Bool-cases (x == 0)) [
      | inl e ↦ rw e (
        λ q. absurd (none-ne-some [] (sym q)),
        λ (p, _). absurd (omega (arith, p, (==_iff x 0).0 e)),
      )
      | inr e ↦ rw e (
        λ q. (ground arith, to (behind_none x (c_string xs) q)),
        λ (p, a). ap (λ o. behind x o) (from a),
      )
    ]

abbrev is_fault : {A : Type 0} → Outcome A → Bool
is_fault (ok a) = false
is_fault bad = false
is_fault fault = true

duplicate_fault : (o : Option (List ℕ)) (b : RecvBuffer) → (duplicate o b ≡ fault) ↔ (o ≡ none)
unfolding duplicate
duplicate_fault none b = (λ e. refl, λ e. refl)
duplicate_fault (some s) b =
    (λ e. absurd (true≢false (sym (ap (λ r. is_fault r) e))), λ e. absurd (none-ne-some s (sym e)))

-- The rest of the step, whose outcome is a fault if it is one so far.
wrap : Outcome (List ℕ × RecvBuffer) → Outcome (Value × RecvBuffer)
wrap (ok (t, b)) = ok (text t, b)
wrap bad = bad
wrap fault = fault

wrap_fault : (r : Outcome (List ℕ × RecvBuffer)) → (wrap r ≡ fault) ↔ (r ≡ fault)
unfolding wrap
wrap_fault (ok a) = (
  λ e. absurd (true≢false (sym (ap (λ r. is_fault r) e))),
  λ e. absurd (true≢false (sym (ap (λ r. is_fault r) e))),
)
wrap_fault bad = (
  λ e. absurd (true≢false (sym (ap (λ r. is_fault r) e))),
  λ e. absurd (true≢false (sym (ap (λ r. is_fault r) e))),
)
wrap_fault fault = (λ e. refl, λ e. refl)

module _ (host : Endian) (get_foreign : Kind → Reader ℕ) where
  string_steps :
      (b b₁ b₂ : RecvBuffer) (i : ℕ) (s : Slice)
      → aligned_u32 host b ≡ ok (i, b₁)
      → get_signed_slice i b₁ ≡ ok (s, b₂)
      → demarshal_value host get_foreign (basic tk_string) b ≡ wrap (string_dup s.addr b₂)
  unfolding demarshal_value demarshal_form form wrap
  string_steps b b₁ b₂ i s e f =
      >>=-eq_of_ok (aligned_u32 host) _ b e
        (>>=-eq_of_ok (get_signed_slice i) _ b₁ f (last (string_dup s.addr b₂)))
    where
      last :
          (r : Outcome (List ℕ × RecvBuffer))
          → elim r [ ok (t, c) ↦ ok (text t, c) | bad ↦ bad | fault ↦ fault ] ≡ wrap r
      last (ok a) = refl
      last bad = refl
      last fault = refl

  -- Where the length of a string was read and lies inside the message, demarshal_value of the
  -- string reads past the end of the message exactly when no byte from the string's start to
  -- the end of the message is zero.
  pub demarshal_value-fault :
      (b b₁ b₂ : RecvBuffer) (i : ℕ) (s : Slice)
      → aligned_u32 host b ≡ ok (i, b₁)
      → get_signed_slice i b₁ ≡ ok (s, b₂)
      → (demarshal_value host get_foreign (basic tk_string) b ≡ fault)
        ↔ All (λ c. 0 < c) (take (b₂.end - s.addr) (memory_at b₂ s.addr))
  unfolding string_dup
  demarshal_value-fault b b₁ b₂ i s e f =
      let steps = string_steps b b₁ b₂ i s e f in
      let (w, w') = wrap_fault (string_dup s.addr b₂) in
      let (d, d') = duplicate_fault (c_string (take (b₂.end - s.addr) (memory_at b₂ s.addr))) b₂ in
      let (c, c') = c_string-none (take (b₂.end - s.addr) (memory_at b₂ s.addr)) in
      (λ q. c (d (w (sym steps ∙ q))), λ a. steps ∙ w' (d' (c' a)))
