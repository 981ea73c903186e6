-- ===== src/Any/RoundTrip.antt =====
-- What is marshalled comes back: the bytes of a well-typed value, wherever they stand in a message,
-- are demarshalled to that value.
use mathlib.Core.Bool.{true≢false}
use mate_corba.Prelude.{
  ℕ, zero, suc, ◌≡◌, refl, ap, ◌∙◌, ◌==◌, arith, List, [], ◌∷◌, ◌++◌, length, append_assoc,
  append-nil, sym, Bool-cases, true, false, inl, inr, Option, none, some, Endian, u32_bytes,
}
use mate_corba.Giop.Messages.Layout.{cdr_align}
use mate_corba.Giop.RecvBuffer.Reader.{ok, RecvBuffer, Reader, get_slice, aligned_u32, >>=-eq_of_ok}
use mate_corba.Giop.RecvBuffer.At.{
  IsFront, IsFront-append, Received, at, get_slice-at, aligned_u32-at,
}
use mate_corba.Giop.RecvBuffer.Parts.{IsFront-cdr_align}
use mate_corba.Any.Types.{
  is_octet, is_octet_form, octets_in, numbers, Kind, TypeCode, TypeCodes, basic, tk_struct,
  tk_except, tk_union, tk_sequence, tk_array, tk_alias, end, part, Value, Values, nothing, number,
  fields, union, items, nil, cons, size, number_of, Form, as_octet, form,
}
use mate_corba.Any.Unions.{get_union_tag}
use mate_corba.Any.Encode.{
  HasForm, HasType, HaveTypes, IsMember, AllItems, encode_items, encode_form, encode, encode_fields,
  encode_member,
}
use mate_corba.Any.Demarshal.{
  demarshal_items, demarshal_elements, demarshal_value, demarshal_fields, demarshal_member,
}
use mate_corba.Any.Fronts.{items-IsFront, encode-IsFront, fields-IsFront, member-IsFront}
use mate_corba.Any.Forms.{form-at, items-at, IsReadBack}

-- Octets of a sequence, which are read at once.
module _ (IsHeld : Kind → ℕ → Type 0) (sender : Endian) (foreign : Kind → ℕ → List ℕ → List ℕ) where
  octet_form :
      (m : Form) (k : Kind) (v : Value) (p : List ℕ)
      → is_octet_form m ≡ true
      → HasForm IsHeld m k v
      → (encode_form sender foreign m k v p ≡ p ++ (number_of v ∷ [])) × (number (number_of v) ≡ v)
  unfolding encode_form
  octet_form as_octet k (number n) p e h = (refl, refl)
  octet_form as_octet k _ p e h = absurd h
  octet_form _ k v p e h = absurd (true≢false (sym e))

  octet_value :
      (t : TypeCode) (v : Value) (p : List ℕ)
      → is_octet t ≡ true
      → HasType IsHeld t v
      → (encode sender foreign t v p ≡ p ++ (number_of v ∷ [])) × (number (number_of v) ≡ v)
  unfolding encode HasType
  octet_value (basic k) v p e h = octet_form (form k) k v p e h
  octet_value _ v p e h = absurd (true≢false (sym e))

  pub octets_lem :
      (t : TypeCode) (vs : Values) (p : List ℕ)
      → is_octet t ≡ true
      → AllItems (λ v. HasType IsHeld t v) vs
      → (encode_items (λ v q. encode sender foreign t v q) vs p ≡ p ++ octets_in vs)
        × (numbers (octets_in vs) ≡ vs)
        × (length (octets_in vs) ≡ size vs)
  octets_lem t nil p e a = (sym (append-nil p), refl, refl)
  octets_lem t (cons v vs) p e (h, a) =
      let (x, y) = octet_value t v p e h in
      let (xs, ys, zs) = octets_lem t vs (encode sender foreign t v p) e a in
      (
        xs ∙ ap (λ q. q ++ octets_in vs) x ∙ append_assoc p (number_of v ∷ []) (octets_in vs),
        ap (λ w. cons w (numbers (octets_in vs))) y ∙ ap (λ ws. cons v ws) ys,
        ap suc zs,
      )

module _ (host sender : Endian) (b : RecvBuffer) (total : List ℕ) (r : Received host sender b total)
    (IsHeld : Kind → ℕ → Type 0) (foreign : Kind → ℕ → List ℕ → List ℕ)
    (get_foreign : Kind → Reader ℕ) (back : IsReadBack IsHeld foreign get_foreign b total) where
  elements-at :
      (t : TypeCode) (m : Reader Value)
      → ((v : Value) (p : List ℕ)
          → HasType IsHeld t v
          → IsFront (encode sender foreign t v p) total
          → m (at b p) ≡ ok (v, at b (encode sender foreign t v p)))
      → (vs : Values) (p : List ℕ) → AllItems (λ v. HasType IsHeld t v) vs
      → IsFront (encode_items (λ v q. encode sender foreign t v q) vs p) total
      → demarshal_elements t m (size vs) (at b p)
        ≡ ok (items vs, at b (encode_items (λ v q. encode sender foreign t v q) vs p))
  unfolding demarshal_elements
  elements-at t m h nil p a f = refl
  elements-at t m h (cons v vs) p a f =
      let some_items : (suc (size vs) == 0) ≡ false = ground arith in
      elim (Bool-cases (is_octet t)) [
        | inl e ↦
            let (x, y, z) = octets_lem IsHeld sender foreign t (cons v vs) p e a in
            rw (some_items, e, x)
              (>>=-eq_of_ok (get_slice (suc (size vs))) _ (at b p)
                (rw z at (get_slice-at host sender b total r p (octets_in (cons v vs)) (rw x at f)))
                (ap (λ ws. ok (items ws, at b (p ++ octets_in (cons v vs)))) y))
        | inr e ↦
            rw (some_items, e)
              (>>=-eq_of_ok (demarshal_items (suc (size vs)) m) _ (at b p)
                (items-at host sender b total r IsHeld foreign get_foreign back
                  (λ w q. encode sender foreign t w q) m (λ w. HasType IsHeld t w)
                  (λ w q rest. encode-IsFront sender foreign t w q rest) h (cons v vs) p a f)
                refl)
      ]

  mutual
    unfolding demarshal_value encode HasType

    value-at :
        (t : TypeCode) (v : Value) (p : List ℕ)
        → HasType IsHeld t v
        → IsFront (encode sender foreign t v p) total
        → demarshal_value host get_foreign t (at b p) ≡ ok (v, at b (encode sender foreign t v p))
    value-at (basic k) v p h f =
        form-at host sender b total r IsHeld foreign get_foreign back (form k) k v p h f
    value-at (tk_alias t) v p h f = value-at t v p h f
    value-at (tk_struct ts) (fields vs) p h f =
        >>=-eq_of_ok (demarshal_fields host get_foreign ts) _ (at b p) (fields-at ts vs p h f) refl
    value-at (tk_except ts) (fields vs) p h f =
        >>=-eq_of_ok (demarshal_fields host get_foreign ts) _ (at b p) (fields-at ts vs p h f) refl
    value-at (tk_union d labels ts i) (union n v) p (h, k) f =
        let tag = get_union_tag d labels i (number_of n) in
        let q = encode sender foreign d n p in
        >>=-eq_of_ok (demarshal_value host get_foreign d) _ (at b p)
          (value-at d n p h (member-IsFront sender foreign ts tag v q total f))
          (>>=-eq_of_ok (demarshal_member host get_foreign ts tag) _ (at b q)
            (member-at ts tag v q k f) refl)
    value-at (tk_sequence t) (items vs) p (h, a) f =
        let q = cdr_align 4 p ++ u32_bytes sender (size vs) in
        let g =
          items-IsFront sender foreign (λ w x. encode sender foreign t w x)
            (λ w x rest. encode-IsFront sender foreign t w x rest) vs q total f in
        >>=-eq_of_ok (aligned_u32 host) _ (at b p)
          (aligned_u32-at host sender b total r p (size vs) h
            (IsFront-cdr_align 4 p total (IsFront-append _ (u32_bytes sender (size vs)) total g)) g)
          (elements-at t (demarshal_value host get_foreign t) (λ w x. value-at t w x) vs q a f)
    value-at (tk_array t n) (items vs) p (e, a) f = rw (← e) (
        >>=-eq_of_ok (demarshal_items (size vs) (demarshal_value host get_foreign t)) _ (at b p)
          (items-at host sender b total r IsHeld foreign get_foreign back
            (λ w q. encode sender foreign t w q) _ (λ w. HasType IsHeld t w)
            (λ w q rest. encode-IsFront sender foreign t w q rest) (λ w x. value-at t w x) vs p a f)
          refl)
    value-at _ v p h f = absurd h

    fields-at :
        (ts : TypeCodes) (vs : Values) (p : List ℕ)
        → HaveTypes IsHeld ts vs
        → IsFront (encode_fields sender foreign ts vs p) total
        → demarshal_fields host get_foreign ts (at b p)
          ≡ ok (vs, at b (encode_fields sender foreign ts vs p))
    fields-at end nil p h f = refl
    fields-at (part t ts) (cons v vs) p (h, k) f =
        let q = encode sender foreign t v p in
        >>=-eq_of_ok (demarshal_value host get_foreign t) _ (at b p)
          (value-at t v p h (fields-IsFront sender foreign ts vs q total f))
          (>>=-eq_of_ok (demarshal_fields host get_foreign ts) _ (at b q) (fields-at ts vs q k f)
            refl)
    fields-at _ vs p h f = absurd h

    member-at :
        (ts : TypeCodes) (i : Option (Option ℕ)) (v : Value) (p : List ℕ)
        → IsMember IsHeld ts i v
        → IsFront (encode_member sender foreign ts i v p) total
        → demarshal_member host get_foreign ts i (at b p)
          ≡ ok (v, at b (encode_member sender foreign ts i v p))
    member-at (part t ts) (some (some zero)) v p h f = value-at t v p h f
    member-at (part t ts) (some (some (suc i))) v p h f = member-at ts (some (some i)) v p h f
    member-at end (some none) nothing p h f = refl
    member-at (part t ts) (some none) nothing p h f = refl
    member-at _ i v p h f = absurd h

  -- A value of a type that the CDR layout `encode` puts behind what a sender of any byte order
  -- has written already, in a message that a host of any byte order received whole:
  -- demarshal_value, from the place where the value starts, gives that value and has read to
  -- its end. The value has the type: numbers within their widths, a text without zero bytes, a
  -- text and a wide string shorter than 2^31 bytes, as many items as the type or the length
  -- says, the member of a union that its discriminator selects, no Principal; and what other
  -- files marshal is read back by them.
  pub demarshal_value-encode :
      (t : TypeCode) (v : Value) (p : List ℕ)
      → HasType IsHeld t v
      → IsFront (encode sender foreign t v p) total
      → demarshal_value host get_foreign t (at b p) ≡ ok (v, at b (encode sender foreign t v p))
  demarshal_value-encode t v p h f = value-at t v p h f
