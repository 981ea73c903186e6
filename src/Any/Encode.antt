-- ===== src/Any/Encode.antt =====
-- The specification: which values a TypeCode describes, and their bytes by the rules of CDR.
use mate_corba.Prelude.{
  ℕ, zero, suc, ◌+◌, ◌*◌, ◌<◌, ◌≡◌, List, [], ◌∷◌, ◌++◌, length, All, Option, none, some, Endian,
  u32_bytes, u16_bytes, u32_mod, u64_mod,
}
use mate_corba.Giop.Messages.Layout.{cdr_align, cdr_octets}
use mate_corba.Any.Types.{
  Kind, TypeCode, TypeCodes, basic, tk_struct, tk_except, tk_union, tk_sequence, tk_array, tk_alias,
  end, part, Value, Values, nothing, number, text, wide, address, fields, union, items, nil, cons,
  size, number_of, Form, as_void, as_short, as_long, as_float, as_double, as_octet, as_foreign,
  as_string, as_wstring, form,
}
use mate_corba.Any.Unions.{get_union_tag}
use mate_corba.Any.Words.{word_bytes}
use mate_corba.Any.Marshal.{wide_bytes}

abbrev pub AllItems : (Value → Type 0) → Values → Type 0
AllItems P nil = Unit {0}
AllItems P (cons v vs) = P v × AllItems P vs

-- Well-typed values. `IsHeld` says which addresses the code of other files can marshal. A text
-- has no zero byte, a wide string no zero character, and neither has 2^31 bytes. A Principal is not among
-- them: what is marshalled and what is demarshalled are aligned differently.
module _ (IsHeld : Kind → ℕ → Type 0) where
  abbrev pub HasForm : Form → Kind → Value → Type 0
  HasForm as_void k nothing = Unit {0}
  HasForm as_short k (number n) = n < 65536
  HasForm as_long k (number n) = n < u32_mod
  HasForm as_float k (number n) = n < u32_mod
  HasForm as_double k (number n) = n < u64_mod
  HasForm as_octet k (number n) = n < 256
  HasForm as_foreign k (address n) = IsHeld k n
  HasForm as_string k (text s) = All (λ c. 0 < c) s × (length s + 1 < 0x80000000)
  HasForm as_wstring k (wide cs) =
      All (λ c. c < 65536) cs × ((length cs + 1) * 2 < 0x80000000) × All (λ c. 0 < c) cs
  HasForm _ k v = ⊥

  unfoldable mutual
    pub HasType : TypeCode → Value → Type 0
    HasType (basic k) v = HasForm (form k) k v
    HasType (tk_alias t) v = HasType t v
    HasType (tk_struct ts) (fields vs) = HaveTypes ts vs
    HasType (tk_except ts) (fields vs) = HaveTypes ts vs
    HasType (tk_union d labels ts i) (union n v) =
        HasType d n × IsMember ts (get_union_tag d labels i (number_of n)) v
    HasType (tk_sequence t) (items vs) = (size vs < u32_mod) × AllItems (λ v. HasType t v) vs
    HasType (tk_array t n) (items vs) = (size vs ≡ n) × AllItems (λ v. HasType t v) vs
    HasType _ v = ⊥

    pub HaveTypes : TypeCodes → Values → Type 0
    HaveTypes end nil = Unit {0}
    HaveTypes (part t ts) (cons v vs) = HasType t v × HaveTypes ts vs
    HaveTypes _ vs = ⊥

    pub IsMember : TypeCodes → Option (Option ℕ) → Value → Type 0
    IsMember (part t ts) (some (some zero)) v = HasType t v
    IsMember (part t ts) (some (some (suc i))) v = IsMember ts (some (some i)) v
    IsMember ts (some none) nothing = Unit {0}
    IsMember ts i v = ⊥

-- The items of a sequence or an array, each behind the one before.
abbrev pub encode_items : (Value → List ℕ → List ℕ) → Values → List ℕ → List ℕ
encode_items f nil body = body
encode_items f (cons v vs) body = encode_items f vs (f v body)

-- A body with a value behind it. `foreign` gives what the code of other files puts behind a body.
module _ (host : Endian) (foreign : Kind → ℕ → List ℕ → List ℕ) where
  unfoldable pub encode_form : Form → Kind → Value → List ℕ → List ℕ
  encode_form as_short k (number n) body = cdr_align 2 body ++ u16_bytes host n
  encode_form as_long k (number n) body = cdr_align 4 body ++ u32_bytes host n
  encode_form as_float k (number n) body = cdr_align 4 body ++ word_bytes host 4 n
  encode_form as_double k (number n) body = cdr_align 8 body ++ word_bytes host 8 n
  encode_form as_octet k (number n) body = body ++ (n ∷ [])
  encode_form as_foreign k (address n) body = body ++ foreign k n body
  encode_form as_string k (text s) body = cdr_octets host (s ++ (0 ∷ [])) body
  encode_form as_wstring k (wide cs) body =
      cdr_align 4 body
      ++ u32_bytes host ((length cs + 1) * 2)
      ++ (u16_bytes host 0xfeff ++ wide_bytes host cs)
  encode_form _ k v body = body

  unfoldable mutual
    pub encode : TypeCode → Value → List ℕ → List ℕ
    encode (basic k) v body = encode_form (form k) k v body
    encode (tk_alias t) v body = encode t v body
    encode (tk_struct ts) (fields vs) body = encode_fields ts vs body
    encode (tk_except ts) (fields vs) body = encode_fields ts vs body
    encode (tk_union d labels ts i) (union n v) body =
        encode_member ts (get_union_tag d labels i (number_of n)) v (encode d n body)
    encode (tk_sequence t) (items vs) body =
        encode_items (λ v acc. encode t v acc) vs (cdr_align 4 body ++ u32_bytes host (size vs))
    encode (tk_array t n) (items vs) body = encode_items (λ v acc. encode t v acc) vs body
    encode _ v body = body

    pub encode_fields : TypeCodes → Values → List ℕ → List ℕ
    encode_fields (part t ts) (cons v vs) body = encode_fields ts vs (encode t v body)
    encode_fields _ vs body = body

    pub encode_member : TypeCodes → Option (Option ℕ) → Value → List ℕ → List ℕ
    encode_member (part t ts) (some (some zero)) v body = encode t v body
    encode_member (part t ts) (some (some (suc i))) v body = encode_member ts (some (some i)) v body
    encode_member _ i v body = body
