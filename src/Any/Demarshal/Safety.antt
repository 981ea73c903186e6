-- ===== src/Any/Demarshal/Safety.antt =====
-- MateCORBA_demarshal_value does not read outside the message, if it reads no text.
use mathlib.Core.Bool.{true≢false}
use mate_corba.Prelude.{
  ℕ, zero, suc, ◌≤◌, ◌<◌, ◌≡◌, refl, arith, length, Bool, Bool-cases, true, false, inl, inr, ◌==◌,
  Option, none, some, u32_mod, Endian, leb,
}
use mate_corba.Giop.Align.{IsBoundary}
use mate_corba.Giop.RecvBuffer.Reader.{
  RecvBuffer, Reader, align_cur, need, get_octet, get_slice, aligned_u32, aligned_slice,
}
use mate_corba.Giop.RecvBuffer.Safety.Steps.{
  Ensures, Ensures->>=, Inside, Ends, HasLeft, IsWord, IsSlice, aligned_u32-IsWord, align_cur-Ends,
  need-HasLeft, get_u16-Inside, get_slice-IsSlice, aligned_slice-IsSlice, IsLow, IsBoundary-le,
}
use mate_corba.Any.Types.{
  Kind, TypeCode, TypeCodes, basic, tk_struct, tk_except, tk_union, tk_sequence, tk_array, tk_alias,
  end, part, Value, sub_parts, Form, as_void, as_short, as_long, as_float, as_double, as_octet,
  as_foreign, as_principal, as_string, as_wstring, as_unknown, form, is_octet, number_of,
}
use mate_corba.Any.Unions.{get_union_switch}
use mate_corba.Any.Unions.Selection.{get_union_tag-IsBelow, IsBelow}
use mate_corba.Any.Demarshal.{
  get_word, aligned_word, aligned_u16, get_signed_slice, demarshal_items, demarshal_elements,
  demarshal_form, demarshal_value, demarshal_fields, demarshal_member,
}

abbrev pub is_text : Form → Bool
is_text as_string = true
is_text _ = false

-- No string at any depth, and unions whose discriminator is of an integer kind, with a label for
-- no more than each member and a default among them.
unfoldable mutual
  pub IsBounded : TypeCode → Type 0
  IsBounded (basic k) = is_text (form k) ≡ false
  IsBounded (tk_alias t) = IsBounded t
  IsBounded (tk_struct ts) = AreBounded ts
  IsBounded (tk_except ts) = AreBounded ts
  IsBounded (tk_union d labels ts i) =
      IsBounded d
      × ((n : ℕ) → (x : ℕ) × (get_union_switch d n ≡ some x))
      × (length labels ≤ sub_parts ts)
      × IsBelow (sub_parts ts) i
      × AreBounded ts
  IsBounded (tk_sequence t) = IsBounded t
  IsBounded (tk_array t n) = IsBounded t

  pub AreBounded : TypeCodes → Type 0
  AreBounded end = Unit {0}
  AreBounded (part t ts) = IsBounded t × AreBounded ts

-- A reader that stays inside a message whose end is at `e`.
abbrev pub StaysInside : ℕ → {A : Type 0} → Reader A → Type 0
StaysInside e m = (b : RecvBuffer) → Inside e tt b → Ensures (λ a b'. Inside e a b') (m b)

module _ (e : ℕ) (low : IsLow e) (host : Endian) where
  u16-Inside : StaysInside e (aligned_u16 host)
  unfolding aligned_u16
  u16-Inside b i =
      Ensures->>= (Ends e) (Inside e) (align_cur 2) _ b (align_cur-Ends e 2 b (inl refl) low i)
        (λ _ b₁ i₁.
          Ensures->>= (HasLeft e 2) (Inside e) (need 2) _ b₁
            (need-HasLeft e 2 b₁ (omega arith) low i₁) (λ _ b₂ i₂. get_u16-Inside host e b₂ i₂))

  get_word-Inside :
      (n : ℕ) (b : RecvBuffer) → HasLeft e n tt b → Ensures (Inside e) (get_word host n b)
  unfolding get_word
  get_word-Inside n b i = ground arith

  pub word-Inside : (n : ℕ) → IsBoundary n → StaysInside e (aligned_word host n)
  unfolding aligned_word
  word-Inside n a b i =
      Ensures->>= (Ends e) (Inside e) (align_cur n) _ b (align_cur-Ends e n b a low i) (λ _ b₁ i₁.
        Ensures->>= (HasLeft e n) (Inside e) (need n) _ b₁
          (need-HasLeft e n b₁ (IsBoundary-le n a) low i₁) (λ _ b₂ i₂. get_word-Inside n b₂ i₂))

  octet-Inside : (b : RecvBuffer) → HasLeft e 1 tt b → Ensures (Inside e) (get_octet 1 b)
  unfolding get_octet
  octet-Inside b i = ground arith

  signed-IsSlice :
      (n : ℕ) (b : RecvBuffer)
      → n < u32_mod
      → Inside e tt b
      → Ensures (IsSlice e) (get_signed_slice n b)
  unfolding get_signed_slice
  signed-IsSlice n b h i = elim (Bool-cases (leb 0x80000000 n)) [
    | inl q ↦ rw q tt
    | inr q ↦ rw q (get_slice-IsSlice e n b low h i)
  ]

  module _ (get_foreign : Kind → Reader ℕ)
      (foreign : (k : Kind) → StaysInside e (get_foreign k)) where
    form-Inside :
        (m : Form) (k : Kind)
        → is_text m ≡ false
        → StaysInside e (demarshal_form host get_foreign m k)
    unfolding demarshal_form
    form-Inside as_void k h b i = i
    form-Inside as_short k h b i =
        Ensures->>= (Inside e) (Inside e) (aligned_u16 host) _ b (u16-Inside b i) (λ _ b₁ j. j)
    form-Inside as_long k h b i =
        Ensures->>= (IsWord e) (Inside e) (aligned_u32 host) _ b (aligned_u32-IsWord host e b low i)
          (λ _ b₁ j. (j.1, j.2))
    form-Inside as_float k h b i =
        Ensures->>= (Inside e) (Inside e) (aligned_word host 4) _ b
          (word-Inside 4 (inr (inl refl)) b i) (λ _ b₁ j. j)
    form-Inside as_double k h b i =
        Ensures->>= (Inside e) (Inside e) (aligned_word host 8) _ b
          (word-Inside 8 (inr (inr refl)) b i) (λ _ b₁ j. j)
    form-Inside as_octet k h b i =
        Ensures->>= (HasLeft e 1) (Inside e) (need 1) _ b
          (need-HasLeft e 1 b (omega arith) low (omega (arith, i.0), i.1))
          (λ _ b₁ j.
            Ensures->>= (Inside e) (Inside e) (get_octet 1) _ b₁ (octet-Inside b₁ j) (λ _ b₂ l. l))
    form-Inside as_foreign k h b i =
        Ensures->>= (Inside e) (Inside e) (get_foreign k) _ b (foreign k b i) (λ _ b₁ j. j)
    form-Inside as_principal k h b i =
        Ensures->>= (IsSlice e) (Inside e) (aligned_slice host) _ b
          (aligned_slice-IsSlice host e b low i) (λ _ b₁ j. (j.1, j.2))
    form-Inside as_string k h b i = absurd (true≢false h)
    form-Inside as_wstring k h b i =
        Ensures->>= (IsWord e) (Inside e) (aligned_u32 host) _ b (aligned_u32-IsWord host e b low i)
          (λ n b₁ j.
            Ensures->>= (IsSlice e) (Inside e) (get_signed_slice n) _ b₁
              (signed-IsSlice n b₁ j.0 (j.1, j.2)) (λ _ b₂ l. (l.1, l.2)))
    form-Inside as_unknown k h b i = tt

    items-Inside :
        (n : ℕ) (m : Reader Value) → StaysInside e m → StaysInside e (demarshal_items n m)
    unfolding demarshal_items
    items-Inside zero m h b i = i
    items-Inside (suc n) m h b i = Ensures->>= (Inside e) (Inside e) m _ b (h b i) (λ _ b₁ j.
        Ensures->>= (Inside e) (Inside e) (demarshal_items n m) _ b₁ (items-Inside n m h b₁ j)
          (λ _ b₂ l. l))

    elements-Inside :
        (t : TypeCode) (n : ℕ) (m : Reader Value)
        → n < u32_mod
        → StaysInside e m
        → StaysInside e (demarshal_elements t m n)
    unfolding demarshal_elements
    elements-Inside t n m q h b i = elim (Bool-cases (n == 0)) [
      | inl x ↦ rw x i
      | inr x ↦ elim (Bool-cases (is_octet t)) [
        | inl y ↦
            rw (x, y)
              (Ensures->>= (IsSlice e) (Inside e) (get_slice n) _ b
                (get_slice-IsSlice e n b low q i) (λ _ b₁ j. (j.1, j.2)))
        | inr y ↦
            rw (x, y)
              (Ensures->>= (Inside e) (Inside e) (demarshal_items n m) _ b (items-Inside n m h b i)
                (λ _ b₁ j. j))
      ]
    ]

    mutual
      unfolding demarshal_value IsBounded

      value-Inside :
          (t : TypeCode) → IsBounded t → StaysInside e (demarshal_value host get_foreign t)
      value-Inside (basic k) h b i = form-Inside (form k) k h b i
      value-Inside (tk_alias t) h b i = value-Inside t h b i
      value-Inside (tk_struct ts) h b i =
          Ensures->>= (Inside e) (Inside e) (demarshal_fields host get_foreign ts) _ b
            (fields-Inside ts h b i) (λ _ b₁ j. j)
      value-Inside (tk_except ts) h b i =
          Ensures->>= (Inside e) (Inside e) (demarshal_fields host get_foreign ts) _ b
            (fields-Inside ts h b i) (λ _ b₁ j. j)
      value-Inside (tk_union d labels ts i) (hd, sw, le, below, hs) b j =
          Ensures->>= (Inside e) (Inside e) (demarshal_value host get_foreign d) _ b
            (value-Inside d hd b j)
            (λ v b₁ j₁.
              let (x, q) = sw (number_of v) in
              let (tag, r, s) =
                get_union_tag-IsBelow (sub_parts ts) d labels i (number_of v) x q le below in
              rw r (
                Ensures->>= (Inside e) (Inside e) (demarshal_member host get_foreign ts (some tag))
                  _ b₁ (member-Inside ts tag hs s b₁ j₁) (λ _ b₂ l. l)))
      value-Inside (tk_sequence t) h b i =
          Ensures->>= (IsWord e) (Inside e) (aligned_u32 host) _ b
            (aligned_u32-IsWord host e b low i)
            (λ n b₁ j.
              elements-Inside t n (demarshal_value host get_foreign t) j.0
                (λ c l. value-Inside t h c l) b₁ (j.1, j.2))
      value-Inside (tk_array t n) h b i =
          Ensures->>= (Inside e) (Inside e) (demarshal_items n (demarshal_value host get_foreign t))
            _ b (items-Inside n _ (λ c l. value-Inside t h c l) b i) (λ _ b₁ j. j)

      fields-Inside :
          (ts : TypeCodes) → AreBounded ts → StaysInside e (demarshal_fields host get_foreign ts)
      fields-Inside end h b i = i
      fields-Inside (part t ts) (h, hs) b i =
          Ensures->>= (Inside e) (Inside e) (demarshal_value host get_foreign t) _ b
            (value-Inside t h b i)
            (λ _ b₁ j.
              Ensures->>= (Inside e) (Inside e) (demarshal_fields host get_foreign ts) _ b₁
                (fields-Inside ts hs b₁ j) (λ _ b₂ l. l))

      member-Inside :
          (ts : TypeCodes) (i : Option ℕ)
          → AreBounded ts
          → IsBelow (sub_parts ts) i
          → StaysInside e (demarshal_member host get_foreign ts (some i))
      member-Inside end none h k b j = j
      member-Inside end (some i) h k b j = absurd (omega (arith, k))
      member-Inside (part t ts) none h k b j = j
      member-Inside (part t ts) (some zero) (h, hs) k b j = value-Inside t h b j
      member-Inside (part t ts) (some (suc i)) (h, hs) k b j =
          member-Inside ts (some i) hs (omega (arith, k)) b j
