-- ===== src/Any/Forms.antt =====
-- A value of a basic kind comes back, and so do the elements of a sequence if each does.
use mate_corba.Prelude.{
  ℕ, ◌+◌, ◌*◌, ◌<◌, ◌≡◌, refl, ap, arith, List, [], ◌∷◌, ◌++◌, length, length-append, inl, inr,
  Endian, u32_bytes, u16_bytes, length-u16_bytes, All,
}
use mate_corba.Giop.Messages.Layout.{cdr_align, cdr_octets}
use mate_corba.Giop.RecvBuffer.Reader.{
  ok, RecvBuffer, Reader, need, get_octet, aligned_u32, >>=-eq_of_ok,
}
use mate_corba.Giop.RecvBuffer.At.{
  IsFront, IsFront-append, Received, at, need-at, get_octet-at, aligned_u32-at,
}
use mate_corba.Giop.RecvBuffer.Parts.{IsFront-cdr_octets}
use mate_corba.Any.Types.{
  Kind, Value, Values, nothing, number, text, wide, address, nil, cons, size, Form, as_void,
  as_short, as_long, as_float, as_double, as_octet, as_foreign, as_string, as_wstring,
}
use mate_corba.Any.Marshal.{wide_bytes}
use mate_corba.Any.Encode.{HasForm, AllItems, encode_items, encode_form}
use mate_corba.Any.Demarshal.{
  aligned_word, aligned_u16, get_signed_slice, string_dup, demarshal_items, demarshal_form,
}
use mate_corba.Any.Demarshal.At.{
  aligned_word-at, aligned_u16-at, get_signed_slice-at, string_dup-at, wide_text-bytes,
  length-wide_bytes,
}
use mate_corba.Any.Fronts.{form-IsFront, items-IsFront}

-- `get_foreign` reads back what `foreign` gives, wherever it stands in the message.
abbrev pub IsReadBack :
    (Kind → ℕ → Type 0)
    → (Kind → ℕ → List ℕ → List ℕ)
    → (Kind → Reader ℕ)
    → RecvBuffer
    → List ℕ
    → Type 0
IsReadBack IsHeld foreign get_foreign b total =
    (k : Kind) (n : ℕ) (p : List ℕ)
    → IsHeld k n
    → IsFront (p ++ foreign k n p) total
    → get_foreign k (at b p) ≡ ok (n, at b (p ++ foreign k n p))

module _ (host sender : Endian) (b : RecvBuffer) (total : List ℕ) (r : Received host sender b total)
    (IsHeld : Kind → ℕ → Type 0) (foreign : Kind → ℕ → List ℕ → List ℕ)
    (get_foreign : Kind → Reader ℕ) (back : IsReadBack IsHeld foreign get_foreign b total) where
  pub octet-at :
      (p : List ℕ) (n : ℕ) (k : Kind)
      → IsFront (p ++ (n ∷ [])) total
      → demarshal_form host get_foreign as_octet k (at b p) ≡ ok (number n, at b (p ++ (n ∷ [])))
  unfolding demarshal_form
  octet-at p n k f =
      >>=-eq_of_ok (need 1) _ (at b p) (need-at host sender b total r p (n ∷ []) f)
        (>>=-eq_of_ok (get_octet 1) _ (at b p) (get_octet-at host sender b total r p n [] f) refl)

  pub string-at :
      (p s : List ℕ) (k : Kind)
      → All (λ c. 0 < c) s
      → length s + 1 < 0x80000000
      → IsFront (cdr_octets sender (s ++ (0 ∷ [])) p) total
      → demarshal_form host get_foreign as_string k (at b p)
        ≡ ok (text s, at b (cdr_octets sender (s ++ (0 ∷ [])) p))
  unfolding demarshal_form cdr_octets
  string-at p s k a h f =
      let q = cdr_align 4 p ++ u32_bytes sender (length (s ++ (0 ∷ []))) in
      let n = length-append s (0 ∷ []) in
      let front = IsFront-cdr_octets sender (s ++ (0 ∷ [])) p total f in
      >>=-eq_of_ok (aligned_u32 host) _ (at b p)
        (aligned_u32-at host sender b total r p (length (s ++ (0 ∷ []))) (omega (arith, h, n)) front
          (IsFront-append q (s ++ (0 ∷ [])) total f))
        (>>=-eq_of_ok (get_signed_slice (length (s ++ (0 ∷ [])))) _ (at b q)
          (get_signed_slice-at host sender b total r q (s ++ (0 ∷ [])) (omega (arith, h, n)) f)
          (>>=-eq_of_ok (string_dup (b.base + (12 + length q))) _ (at b (q ++ (s ++ (0 ∷ []))))
            (string_dup-at host sender b total r q s _ a f) refl))

  pub wide-at :
      (p cs : List ℕ) (k : Kind)
      → All (λ c. c < 65536) cs
      → (length cs + 1) * 2 < 0x80000000
      → IsFront (encode_form sender foreign as_wstring k (wide cs) p) total
      → demarshal_form host get_foreign as_wstring k (at b p)
        ≡ ok (wide cs, at b (encode_form sender foreign as_wstring k (wide cs) p))
  unfolding demarshal_form encode_form
  wide-at p cs k a h f =
      let xs = u16_bytes sender 0xfeff ++ wide_bytes sender cs in
      let q = cdr_align 4 p ++ u32_bytes sender ((length cs + 1) * 2) in
      let n : length xs ≡ (length cs + 1) * 2 = omega (
        arith,
        length-append (u16_bytes sender 0xfeff) (wide_bytes sender cs),
        length-u16_bytes sender 0xfeff,
        length-wide_bytes sender cs,
      ) in
      let front = form-IsFront sender foreign as_wstring k (wide cs) p total f in
      let slice =
        rw n at (get_signed_slice-at host sender b total r q xs (omega (arith, h, n)) f) in
      >>=-eq_of_ok (aligned_u32 host) _ (at b p)
        (aligned_u32-at host sender b total r p ((length cs + 1) * 2) (omega (arith, h)) front
          (IsFront-append q xs total f))
        (>>=-eq_of_ok (get_signed_slice ((length cs + 1) * 2)) _ (at b q) slice
          (ap (λ t. ok (wide t, at b (q ++ xs))) (wide_text-bytes host sender cs a)))

  pub form-at :
      (m : Form) (k : Kind) (v : Value) (p : List ℕ)
      → HasForm IsHeld m k v
      → IsFront (encode_form sender foreign m k v p) total
      → demarshal_form host get_foreign m k (at b p)
        ≡ ok (v, at b (encode_form sender foreign m k v p))
  unfolding demarshal_form encode_form
  form-at as_void k nothing p h f = refl
  form-at as_short k (number n) p h f =
      >>=-eq_of_ok (aligned_u16 host) _ (at b p)
        (aligned_u16-at host sender b total r p n h
          (form-IsFront sender foreign as_short k (number n) p total f) f)
        refl
  form-at as_long k (number n) p h f =
      >>=-eq_of_ok (aligned_u32 host) _ (at b p)
        (aligned_u32-at host sender b total r p n h
          (form-IsFront sender foreign as_long k (number n) p total f) f)
        refl
  form-at as_float k (number n) p h f =
      >>=-eq_of_ok (aligned_word host 4) _ (at b p)
        (aligned_word-at host sender b total r 4 p n (inr (inl refl)) h
          (form-IsFront sender foreign as_float k (number n) p total f) f)
        refl
  form-at as_double k (number n) p h f =
      >>=-eq_of_ok (aligned_word host 8) _ (at b p)
        (aligned_word-at host sender b total r 8 p n (inr (inr refl)) h
          (form-IsFront sender foreign as_double k (number n) p total f) f)
        refl
  form-at as_octet k (number n) p h f = octet-at p n k f
  form-at as_foreign k (address n) p h f =
      >>=-eq_of_ok (get_foreign k) _ (at b p) (back k n p h f) refl
  form-at as_string k (text s) p (a, h) f = string-at p s k a h f
  form-at as_wstring k (wide cs) p (a, h, _) f = wide-at p cs k a h f
  form-at _ k v p h f = absurd h

  pub items-at :
      (g : Value → List ℕ → List ℕ) (m : Reader Value) (P : Value → Type 0)
      → ((v : Value) (p rest : List ℕ) → IsFront (g v p) rest → IsFront p rest)
      → ((v : Value) (p : List ℕ) → P v → IsFront (g v p) total → m (at b p) ≡ ok (v, at b (g v p)))
      → (vs : Values) (p : List ℕ) → AllItems P vs
      → IsFront (encode_items g vs p) total
      → demarshal_items (size vs) m (at b p) ≡ ok (vs, at b (encode_items g vs p))
  unfolding demarshal_items
  items-at g m P front h nil p a f = refl
  items-at g m P front h (cons v vs) p (a, as_) f =
      >>=-eq_of_ok m _ (at b p) (h v p a (items-IsFront sender foreign g front vs (g v p) total f))
        (>>=-eq_of_ok (demarshal_items (size vs) m) _ (at b (g v p))
          (items-at g m P front h vs (g v p) as_ f) refl)
