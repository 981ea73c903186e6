-- ===== src/Any/Marshal.antt =====
-- MateCORBA_marshal_value: a value appended to a send buffer. The pointer that the code moves over
-- the memory of a value is the part of the value that is looked at.
pub mod Writes
use mate_corba.Prelude.{
  ℕ, zero, suc, ◌+◌, ◌*◌, List, [], ◌∷◌, ◌++◌, length, take, All, Bool, true, false, ◌==◌, ◌<◌, ◌≡◌,
  refl, ap, arith, Option, none, some, Endian, u32_bytes, u16_bytes, if◌then◌else◌,
}
use mate_corba.Giop.SendBuffer.Memory.{Mem, field, outer, SendBuffer}
use mate_corba.Giop.SendBuffer.Defs.{append, align, append_aligned, append_string}
use mate_corba.Any.Types.{
  Kind, TypeCode, TypeCodes, basic, tk_struct, tk_except, tk_union, tk_sequence, tk_array, tk_alias,
  end, part, Value, Values, nil, cons, size, number_of, text_of, wide_of, octets_of, address_of,
  fields_of, items_of, discriminator_of, body_of, first, others, octets_in, Form, as_void, as_short,
  as_long, as_float, as_double, as_octet, as_foreign, as_principal, as_string, as_wstring,
  as_unknown, form, is_octet,
}
use mate_corba.Any.Unions.{get_union_tag}
use mate_corba.Any.Words.{word_bytes}

-- The characters before the zero that ends a text, as strlen and CORBA_wstring_len count them.
unfoldable pub until_zero : List ℕ → List ℕ
until_zero [] = []
until_zero (c ∷ cs) = let rest = until_zero cs in if c == 0 then [] else c ∷ rest

pub until_zero-whole : (cs : List ℕ) → All (λ c. 0 < c) cs → until_zero cs ≡ cs
unfolding until_zero
until_zero-whole [] a = refl
until_zero-whole (c ∷ cs) (p, a) =
    let e : (c == 0) ≡ false = ground arith in rw e (ap (λ t. c ∷ t) (until_zero-whole cs a))

-- The characters of a wide string in memory.
unfoldable pub wide_bytes : Endian → List ℕ → List ℕ
wide_bytes host [] = []
wide_bytes host (c ∷ cs) = u16_bytes host c ++ wide_bytes host cs

-- Going on unless the code stopped with g_error.
unfoldable pub or_stop : Option SendBuffer → (SendBuffer → Option SendBuffer) → Option SendBuffer
or_stop none k = none
or_stop (some b) k = k b

-- The loop over `n` elements.
unfoldable pub marshal_items :
    (Value → SendBuffer → Option SendBuffer) → ℕ → Values → SendBuffer → Option SendBuffer
marshal_items f zero vs b = some b
marshal_items f (suc n) vs b = or_stop (f (first vs) b) (λ b'. marshal_items f n (others vs) b')

-- `place` gives the address of the memory that a value points to, and `put_foreign` stands for
-- MateCORBA_marshal_any, MateCORBA_encode_CORBA_TypeCode and MateCORBA_marshal_object.
module _ (host : Endian) (blank : Bool) (place : Value → ℕ)
    (put_foreign : Kind → ℕ → SendBuffer → SendBuffer) where
  unfoldable pub marshal_form : Form → Kind → Value → SendBuffer → Option SendBuffer
  marshal_form as_void k v b = some b
  marshal_form as_short k v b = some (append_aligned blank b (u16_bytes host (number_of v)))
  marshal_form as_long k v b = some (append_aligned blank b (u32_bytes host (number_of v)))
  marshal_form as_float k v b = some (append_aligned blank b (word_bytes host 4 (number_of v)))
  marshal_form as_double k v b = some (append_aligned blank b (word_bytes host 8 (number_of v)))
  marshal_form as_octet k v b = some (append blank b (field (number_of v ∷ [])))
  marshal_form as_foreign k v b = some (put_foreign k (address_of v) b)
  marshal_form as_principal k v b = some (
      append blank (append blank b (field (u32_bytes host (length (octets_of v)))))
        (outer (place v) (octets_of v)))
  marshal_form as_string k v b =
      some (append_string host blank b (place v) (until_zero (text_of v) ++ (0 ∷ [])))
  marshal_form as_wstring k v b =
      let cs = until_zero (wide_of v) in
      let ulval = (length cs + 1) * 2 in
      let sized = append_aligned blank b (u32_bytes host ulval) in
      let marked = append blank sized (field (u16_bytes host 0xfeff)) in
      some (append blank marked (outer (place v) (wide_bytes host cs)))
  marshal_form as_unknown k v b = none

  -- The elements of a sequence or an array: octets at once, others one by one.
  unfoldable pub marshal_elements :
      TypeCode
      → (Value → SendBuffer → Option SendBuffer)
      → ℕ
      → Value
      → SendBuffer
      → Option SendBuffer
  marshal_elements t f n v b =
      if is_octet t
      then some (append blank b (outer (place v) (take n (octets_in (items_of v)))))
      else marshal_items f n (items_of v) b

  -- MateCORBA_marshal_value, with the loop over the members of a struct, and the member of a union
  -- that the tag names, TC_null if there is none. An index past the last member, which the code would
  -- read behind the array, stops like g_error.
  unfoldable mutual
    pub marshal_value : TypeCode → Value → SendBuffer → Option SendBuffer
    marshal_value (basic k) v b = marshal_form (form k) k v b
    marshal_value (tk_alias t) v b = marshal_value t v b
    marshal_value (tk_struct ts) v b = marshal_fields ts (fields_of v) b
    marshal_value (tk_except ts) v b = marshal_fields ts (fields_of v) b
    marshal_value (tk_union d labels ts default_index) v b =
        or_stop (marshal_value d (discriminator_of v) b) (λ b'.
          marshal_member ts (get_union_tag d labels default_index (number_of (discriminator_of v)))
            (body_of v) b')
    marshal_value (tk_sequence t) v b =
        marshal_elements t (λ w c. marshal_value t w c) (size (items_of v)) v
          (append blank (align blank b 4) (field (u32_bytes host (size (items_of v)))))
    marshal_value (tk_array t n) v b = marshal_elements t (λ w c. marshal_value t w c) n v b

    pub marshal_fields : TypeCodes → Values → SendBuffer → Option SendBuffer
    marshal_fields end vs b = some b
    marshal_fields (part t ts) vs b =
        or_stop (marshal_value t (first vs) b) (λ b'. marshal_fields ts (others vs) b')

    pub marshal_member : TypeCodes → Option (Option ℕ) → Value → SendBuffer → Option SendBuffer
    marshal_member end (some (some i)) v b = none
    marshal_member (part t ts) (some (some zero)) v b = marshal_value t v b
    marshal_member (part t ts) (some (some (suc i))) v b = marshal_member ts (some (some i)) v b
    marshal_member ts (some none) v b = some b
    marshal_member ts none v b = none
