-- ===== src/Any/Fronts.antt =====
-- A value that is marshalled stands behind the body that it was put to.
use mate_corba.Prelude.{
  ℕ, zero, suc, List, [], ◌∷◌, ◌++◌, Option, some, Endian, u32_bytes, u16_bytes,
}
use mate_corba.Giop.RecvBuffer.At.{IsFront, IsFront-append}
use mate_corba.Giop.RecvBuffer.Parts.{IsFront-cdr_align, IsFront-cdr_octets}
use mate_corba.Any.Types.{
  Kind, TypeCode, TypeCodes, basic, tk_struct, tk_except, tk_union, tk_sequence, tk_array, tk_alias,
  part, Value, Values, number, text, wide, address, fields, union, items, nil, cons, size,
  number_of, Form, as_short, as_long, as_float, as_double, as_octet, as_foreign, as_string,
  as_wstring, form,
}
use mate_corba.Any.Unions.{get_union_tag}
use mate_corba.Any.Words.{word_bytes}
use mate_corba.Any.Marshal.{wide_bytes}
use mate_corba.Any.Encode.{encode_items, encode_form, encode, encode_fields, encode_member}

-- A value stands behind the body that it was put to.
module _ (sender : Endian) (foreign : Kind → ℕ → List ℕ → List ℕ) where
  pub form-IsFront :
      (m : Form) (k : Kind) (v : Value) (p total : List ℕ)
      → IsFront (encode_form sender foreign m k v p) total
      → IsFront p total
  unfolding encode_form
  form-IsFront as_short k (number n) p total f =
      IsFront-cdr_align 2 p total (IsFront-append _ (u16_bytes sender n) total f)
  form-IsFront as_long k (number n) p total f =
      IsFront-cdr_align 4 p total (IsFront-append _ (u32_bytes sender n) total f)
  form-IsFront as_float k (number n) p total f =
      IsFront-cdr_align 4 p total (IsFront-append _ (word_bytes sender 4 n) total f)
  form-IsFront as_double k (number n) p total f =
      IsFront-cdr_align 8 p total (IsFront-append _ (word_bytes sender 8 n) total f)
  form-IsFront as_octet k (number n) p total f = IsFront-append p (n ∷ []) total f
  form-IsFront as_foreign k (address n) p total f = IsFront-append p (foreign k n p) total f
  form-IsFront as_string k (text s) p total f = IsFront-cdr_octets sender (s ++ (0 ∷ [])) p total f
  form-IsFront as_wstring k (wide cs) p total f = IsFront-cdr_align 4 p total (
      IsFront-append _ _ total
        (IsFront-append _ (u16_bytes sender 0xfeff ++ wide_bytes sender cs) total f))
  form-IsFront _ k v p total f = f

  pub items-IsFront :
      (g : Value → List ℕ → List ℕ)
      → ((v : Value) (p total : List ℕ) → IsFront (g v p) total → IsFront p total)
      → (vs : Values) (p total : List ℕ) → IsFront (encode_items g vs p) total
      → IsFront p total
  items-IsFront g h nil p total f = f
  items-IsFront g h (cons v vs) p total f = h v p total (items-IsFront g h vs (g v p) total f)

  mutual
    unfolding encode

    pub encode-IsFront :
        (t : TypeCode) (v : Value) (p total : List ℕ)
        → IsFront (encode sender foreign t v p) total
        → IsFront p total
    encode-IsFront (basic k) v p total f = form-IsFront (form k) k v p total f
    encode-IsFront (tk_alias t) v p total f = encode-IsFront t v p total f
    encode-IsFront (tk_struct ts) (fields vs) p total f = fields-IsFront ts vs p total f
    encode-IsFront (tk_except ts) (fields vs) p total f = fields-IsFront ts vs p total f
    encode-IsFront (tk_union d labels ts i) (union n v) p total f =
        encode-IsFront d n p total
          (member-IsFront ts (get_union_tag d labels i (number_of n)) v _ total f)
    encode-IsFront (tk_sequence t) (items vs) p total f = IsFront-cdr_align 4 p total (
        IsFront-append _ (u32_bytes sender (size vs)) total
          (items-IsFront _ (λ v q. encode-IsFront t v q) vs _ total f))
    encode-IsFront (tk_array t n) (items vs) p total f =
        items-IsFront _ (λ v q. encode-IsFront t v q) vs p total f
    encode-IsFront _ v p total f = f

    pub fields-IsFront :
        (ts : TypeCodes) (vs : Values) (p total : List ℕ)
        → IsFront (encode_fields sender foreign ts vs p) total
        → IsFront p total
    fields-IsFront (part t ts) (cons v vs) p total f =
        encode-IsFront t v p total (fields-IsFront ts vs _ total f)
    fields-IsFront _ vs p total f = f

    pub member-IsFront :
        (ts : TypeCodes) (i : Option (Option ℕ)) (v : Value) (p total : List ℕ)
        → IsFront (encode_member sender foreign ts i v p) total
        → IsFront p total
    member-IsFront (part t ts) (some (some zero)) v p total f = encode-IsFront t v p total f
    member-IsFront (part t ts) (some (some (suc i))) v p total f =
        member-IsFront ts (some (some i)) v p total f
    member-IsFront _ i v p total f = f
