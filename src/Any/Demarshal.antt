-- ===== src/Any/Demarshal.antt =====
-- MateCORBA_demarshal_value: a value read from a receive buffer. A fault is a read past the end
-- of the message, or g_error.
pub mod At
pub mod Texts
pub mod Safety
use mate_corba.Prelude.{
  ℕ, zero, suc, ◌+◌, ◌-◌, ◌≡◌, List, [], ◌∷◌, Bool, true, false, ◌||◌, Option, none, some, ltb, leb,
  ◌==◌, take, if◌then◌else◌, u32_mod, Endian, big, differ, read_u16, u16_of,
}
use mate_corba.Giop.RecvBuffer.Reader.{
  Outcome, ok, bad, fault, RecvBuffer, Reader, pure, ◌>>=◌, ◌>>◌, align_cur, need, get_u16,
  get_octet, Slice, get_slice, aligned_u32, aligned_slice, memory_at, msg_conversion_needed,
}
use mate_corba.Any.Types.{
  Kind, TypeCode, TypeCodes, basic, tk_struct, tk_except, tk_union, tk_sequence, tk_array, tk_alias,
  end, part, Value, Values, nothing, number, text, wide, octets, address, fields, union, items, nil,
  cons, number_of, numbers, Form, as_void, as_short, as_long, as_float, as_double, as_octet,
  as_foreign, as_principal, as_string, as_wstring, as_unknown, form, is_octet,
}
use mate_corba.Any.Unions.{get_union_tag}
use mate_corba.Any.Words.{read_word}

-- *(type *) buf->cur of `n` bytes, with giop_byteswap if the orders differ, and buf->cur += n.
unfoldable pub get_word : Endian → ℕ → Reader ℕ
get_word host n b =
    if ltb b.end (b.cur + n)
    then fault
    else ok (
      read_word host (msg_conversion_needed host b) n (memory_at b b.cur),
      record b { cur = b.cur + n },
    )

unfoldable pub aligned_word : Endian → ℕ → Reader ℕ
aligned_word host n = do align_cur n; need n; get_word host n

unfoldable pub aligned_u16 : Endian → Reader ℕ
aligned_u16 host = do align_cur 2; need 2; get_u16 host

abbrev pub behind : ℕ → Option (List ℕ) → Option (List ℕ)
behind x none = none
behind x (some s) = some (x ∷ s)

-- The text before the first NUL, none if there is no NUL.
unfoldable pub c_string : List ℕ → Option (List ℕ)
c_string [] = none
c_string (x ∷ xs) = let rest = c_string xs in if x == 0 then some [] else behind x rest

-- buf->cur + i for a CORBA_long that was read as unsigned: a negative one moves back, which the
-- test (buf->cur + i) < buf->cur catches.
unfoldable pub get_signed_slice : ℕ → Reader Slice
get_signed_slice i b = if leb 0x80000000 i then bad else get_slice i b

unfoldable pub duplicate : Option (List ℕ) → Reader (List ℕ)
duplicate none b = fault
duplicate (some s) b = ok (s, b)

-- CORBA_string_dup of the address `cur`, where the message ends at `end`. It does not know of the
-- length, and reads on to a NUL.
unfoldable pub string_dup : ℕ → Reader (List ℕ)
string_dup cur b = duplicate (c_string (take (b.end - cur) (memory_at b cur))) b

-- The characters of a wide string. Of half a character, which only an odd length has, the other
-- byte is whatever the allocated memory holds; zero stands for it.
unfoldable pub wide_units : Endian → Bool → List ℕ → List ℕ
wide_units host swap [] = []
wide_units host swap (x ∷ []) = if swap then [] else u16_of host (x ∷ 0 ∷ []) ∷ []
wide_units host swap (x ∷ y ∷ rest) = read_u16 host swap (x ∷ y ∷ []) ∷ wide_units host swap rest

-- The byte-order marker in front of them, or big-endian if there is none.
unfoldable pub wide_text : Endian → List ℕ → List ℕ
wide_text host (x ∷ y ∷ rest) =
    if u16_of host (x ∷ y ∷ []) == 0xfeff
    then wide_units host false rest
    else if u16_of host (x ∷ y ∷ []) == 0xfffe
    then wide_units host true rest
    else wide_units host (differ big host) (x ∷ y ∷ rest)
wide_text host bytes = wide_units host (differ big host) bytes

-- The loop over `n` elements.
unfoldable pub demarshal_items : ℕ → Reader Value → Reader Values
demarshal_items zero f = pure nil
demarshal_items (suc n) f = do v ← f; vs ← demarshal_items n f; pure (cons v vs)

-- The elements of a sequence: octets at once, others one by one.
unfoldable pub demarshal_elements : TypeCode → Reader Value → ℕ → Reader Value
demarshal_elements t f n =
    if n == 0
    then pure (items nil)
    else if is_octet t
    then (do s ← get_slice n; pure (items (numbers s.bytes)))
    else (do vs ← demarshal_items n f; pure (items vs))

-- `get_foreign` stands for MateCORBA_demarshal_any, MateCORBA_decode_CORBA_TypeCode and
-- MateCORBA_demarshal_object.
module _ (host : Endian) (get_foreign : Kind → Reader ℕ) where
  unfoldable pub demarshal_form : Form → Kind → Reader Value
  demarshal_form as_void k = pure nothing
  demarshal_form as_short k = do n ← aligned_u16 host; pure (number n)
  demarshal_form as_long k = do n ← aligned_u32 host; pure (number n)
  demarshal_form as_float k = do n ← aligned_word host 4; pure (number n)
  demarshal_form as_double k = do n ← aligned_word host 8; pure (number n)
  demarshal_form as_octet k = do need 1; n ← get_octet 1; pure (number n)
  demarshal_form as_foreign k = do n ← get_foreign k; pure (address n)
  demarshal_form as_principal k = do s ← aligned_slice host; pure (octets s.bytes)
  demarshal_form as_string k = do
    i ← aligned_u32 host
    s ← get_signed_slice i
    t ← string_dup s.addr
    pure (text t)
  demarshal_form as_wstring k = do
    i ← aligned_u32 host
    s ← get_signed_slice i
    pure (wide (wide_text host s.bytes))
  demarshal_form as_unknown k = λ b. bad

  -- MateCORBA_demarshal_value, with the loop over the members of a struct, and the member of a
  -- union that the tag names, TC_null if there is none. An index past the last member, which the
  -- code would read behind the array, is a fault.
  unfoldable mutual
    pub demarshal_value : TypeCode → Reader Value
    demarshal_value (basic k) = demarshal_form (form k) k
    demarshal_value (tk_alias t) = demarshal_value t
    demarshal_value (tk_struct ts) = do vs ← demarshal_fields ts; pure (fields vs)
    demarshal_value (tk_except ts) = do vs ← demarshal_fields ts; pure (fields vs)
    demarshal_value (tk_union d labels ts default_index) = do
      discrim ← demarshal_value d
      body ← demarshal_member ts (get_union_tag d labels default_index (number_of discrim))
      pure (union discrim body)
    demarshal_value (tk_sequence t) = do
      n ← aligned_u32 host
      demarshal_elements t (demarshal_value t) n
    demarshal_value (tk_array t n) = do vs ← demarshal_items n (demarshal_value t); pure (items vs)

    pub demarshal_fields : TypeCodes → Reader Values
    demarshal_fields end = pure nil
    demarshal_fields (part t ts) = do
      v ← demarshal_value t
      vs ← demarshal_fields ts
      pure (cons v vs)

    pub demarshal_member : TypeCodes → Option (Option ℕ) → Reader Value
    demarshal_member end (some (some i)) = λ b. fault
    demarshal_member (part t ts) (some (some zero)) = demarshal_value t
    demarshal_member (part t ts) (some (some (suc i))) = demarshal_member ts (some (some i))
    demarshal_member ts (some none) = pure nothing
    demarshal_member ts none = λ b. fault
