-- ===== src/Examples/Values.antt =====
-- Values of TypeCodes at concrete inputs: a struct with a string in a sequence, a union and an
-- object, from a little-endian host to a big-endian one.
use mate_corba.Prelude.{
  ℕ, ◌+◌, ◌<◌, ◌≡◌, ◌↔◌, refl, sym, arith, inl, inr, List, [], ◌∷◌, ◌++◌, false, none, replicate,
  All, append_assoc, append-nil, length, take, big, little, u32_bytes, length-u32_bytes, u32_mod,
  u32_of, ◌-◌, ◌%◌,
}
use mate_corba.Giop.Types.{giop_1_2, giop_magic}
use mate_corba.Giop.Align.{align_value}
use mate_corba.Giop.SendBuffer.Memory.{SendBuffer}
use mate_corba.Giop.SendBuffer.Defs.{append_aligned, align, get_next_indirect, append_real}
use mate_corba.Giop.SendBuffer.Defs.{put_indirect}
use mate_corba.Giop.SendBuffer.Append.{padding, Writes-nil}
use mate_corba.Giop.SendBuffer.Pool.{use_buffer, use_buffer-Starts}
use mate_corba.Giop.Messages.Layout.{cdr_align, cdr_octets}
use mate_corba.Giop.Messages.Build.{step_u32}
use mate_corba.Giop.RecvBuffer.Reader.{
  ok, fault, align_cur, need, get_u32, get_slice, RecvBuffer, aligned_u32, memory_at,
}
use mate_corba.Giop.RecvBuffer.At.{IsFront-append, Received, at, aligned_u32-at}
use mate_corba.Any.Types.{
  Kind, TypeCode, basic, form, skip_alias, tk_octet, tk_string, tk_short, tk_double, tk_long,
  tk_objref, tk_struct, tk_union, tk_sequence, end, part, Value, number, text, address, fields,
  union, items, nil, cons,
}
use mate_corba.Any.Unions.{
  get_union_switch, get_union_tag, tag_of_switch, switch_of_kind, find_label, glong_of_long,
}
use mate_corba.Any.Words.{word_bytes, low_bytes}
use mate_corba.Any.Encode.{HasType, encode, encode_form, encode_fields, encode_member}
use mate_corba.Any.Marshal.{marshal_value}
use mate_corba.Any.Marshal.Writes.{put_word, Holds, Appends, IsPut, marshal_value-Appends}
use mate_corba.Any.Demarshal.{demarshal_value, get_signed_slice}
use mate_corba.Any.Demarshal.Texts.{demarshal_value-fault}
use mate_corba.Any.Forms.{IsReadBack}
use mate_corba.Any.RoundTrip.{demarshal_value-encode}

abbrev choice : TypeCode
choice =
    tk_union (basic tk_long) (1 ∷ 2 ∷ []) (part (basic tk_short) (part (basic tk_double) end)) none

abbrev record_type : TypeCode
record_type = tk_struct (
    part (basic tk_octet)
      (part (tk_sequence (basic tk_string)) (part choice (part (basic tk_objref) end))))

abbrev record_value : Value
record_value = fields (
    cons (number 7) (
      cons (items (cons (text (104 ∷ 105 ∷ [])) nil))
        (cons (union (number 2) (number 77)) (cons (address 4096) nil))))

-- An object stands on the wire as a word here.
abbrev IsHandle : Kind → ℕ → Type 0
IsHandle k n = n < u32_mod

handle_bytes : Kind → ℕ → List ℕ → List ℕ
handle_bytes k n body = replicate (padding ((length body + 12) % u32_mod) 4) 0 ++ u32_bytes little n

record_value-HasType : HasType IsHandle record_type record_value
unfolding HasType form get_union_tag tag_of_switch get_union_switch switch_of_kind skip_alias
    find_label glong_of_long
record_value-HasType = (
  omega arith,
  (
    (omega arith, (((omega arith, (omega arith, tt)), omega arith), tt)),
    ((omega arith, omega arith), (omega arith, tt)),
  ),
)

IsHandle-IsReadBack :
    (b : RecvBuffer) (total : List ℕ)
    → Received big little b total
    → IsReadBack IsHandle handle_bytes (λ k. aligned_u32 big) b total
unfolding handle_bytes cdr_align
IsHandle-IsReadBack b total r k n p h f = rw (← append_assoc) (
    aligned_u32-at big little b total r p n h (IsFront-append p _ total f)
      (rw (← append_assoc) at f))

-- Four octets, and then the value.
abbrev body : List ℕ
body = 1 ∷ 2 ∷ 3 ∷ 4 ∷ []

abbrev sent_bytes : List ℕ
sent_bytes = encode little handle_bytes record_type record_value body

-- The message at 4096, in the order of its sender.
abbrev message : List ℕ → RecvBuffer
message total = record {
  msg_header = record {
    magic = giop_magic;
    version_0 = 1;
    version_1 = 2;
    flags = 1;
    message_type = 1;
    message_size = 0;
  };
  giop_version = giop_1_2;
  base = 4096;
  memory = replicate 12 0 ++ total;
  cur = 4096 + (12 + 4);
  end = 4096 + (12 + length total);
}

message-Received :
    (total : List ℕ) → length total < 65536 → Received big little (message total) total
message-Received total h = record {
  room = replicate 12 0;
  room_size = refl;
  held = refl;
  ends = refl;
  aligned = refl;
  small = omega arith;
  low = omega arith;
  order = refl;
}

sent_bytes-length : length sent_bytes < 65536
unfolding encode encode_form encode_fields encode_member cdr_align cdr_octets padding align_value
    u32_bytes word_bytes low_bytes handle_bytes form get_union_tag tag_of_switch get_union_switch
    switch_of_kind skip_alias find_label glong_of_long
sent_bytes-length = omega arith

demarshal_value-encode_example :
    demarshal_value big (λ k. aligned_u32 big) record_type (at (message sent_bytes) body)
    ≡ ok (record_value, at (message sent_bytes) sent_bytes)
demarshal_value-encode_example =
    demarshal_value-encode big little (message sent_bytes) sent_bytes
      (message-Received sent_bytes sent_bytes-length) IsHandle handle_bytes (λ k. aligned_u32 big)
      (IsHandle-IsReadBack (message sent_bytes) sent_bytes
        (message-Received sent_bytes sent_bytes-length))
      record_type record_value body record_value-HasType ([], sym (append-nil sent_bytes))

abbrev started : SendBuffer
started = (use_buffer little false [] giop_1_2).0

abbrev filled : SendBuffer
filled = append_aligned false started (u32_bytes little 0x04030201)

filled-Holds : Holds little started (cdr_align 4 [] ++ u32_bytes little 0x04030201) filled
filled-Holds =
    let i = (use_buffer-Starts little false [] giop_1_2 tt).0 in
    (
      step_u32 little false started i.no_body i.size_of_header 0x04030201 [] started
          (Writes-nil little started i.valid),
      used,
    )
  where
    used : 0 < filled.num_indirects_used
    used =
        unfold append_aligned align align_value get_next_indirect put_indirect use_buffer
          append_real u32_bytes in
        omega arith

put_handle : Kind → ℕ → SendBuffer → SendBuffer
put_handle k n b = append_aligned false b (u32_bytes little n)

put_handle-IsPut : IsPut little started IsHandle handle_bytes put_handle
unfolding handle_bytes put_handle cdr_align
put_handle-IsPut k n body b h w =
    let i = (use_buffer-Starts little false [] giop_1_2 tt).0 in
    rw (← append_assoc) (
      put_word little false started i.no_body i.size_of_header 4 (u32_bytes little n) body b
        (inr (inl refl)) (length-u32_bytes little n) w)

marshal_value-Appends_example :
    Appends little started
      (encode little handle_bytes record_type record_value
        (cdr_align 4 [] ++ u32_bytes little 0x04030201))
      (marshal_value little false (λ v. 8192) put_handle record_type record_value filled)
marshal_value-Appends_example =
    let i = (use_buffer-Starts little false [] giop_1_2 tt).0 in
    marshal_value-Appends little false started i.no_body i.size_of_header (λ v. 8192) IsHandle
      handle_bytes put_handle put_handle-IsPut record_type record_value
      (cdr_align 4 [] ++ u32_bytes little 0x04030201) filled record_value-HasType filled-Holds

-- The same without the string.
abbrev plain_type : TypeCode
plain_type = tk_struct (part (tk_sequence (basic tk_octet)) (part choice end))

-- A string of one octet that is not zero, at the end of its message.
abbrev unterminated : List ℕ
unterminated = body ++ (1 ∷ 0 ∷ 0 ∷ 0 ∷ 104 ∷ [])

abbrev behind_length : RecvBuffer
behind_length = record (message unterminated) { cur = 4096 + 20 }

abbrev behind_text : RecvBuffer
behind_text = record (message unterminated) { cur = 4096 + 21 }

demarshal_value-fault_example :
    (demarshal_value little (λ k. aligned_u32 little) (basic tk_string) (message unterminated)
      ≡ fault)
    ↔ All (λ c. 0 < c) (take (behind_text.end - 4116) (memory_at behind_text 4116))
demarshal_value-fault_example =
    demarshal_value-fault little (λ k. aligned_u32 little) (message unterminated) behind_length
      behind_text 1 (record { addr = 4116; bytes = 104 ∷ [] })
      (unfold aligned_u32 align_cur align_value need get_u32 u32_of in refl)
      (unfold get_signed_slice get_slice in refl)
