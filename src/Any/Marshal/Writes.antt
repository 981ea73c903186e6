-- ===== src/Any/Marshal/Writes.antt =====
-- MateCORBA_marshal_value implements the layout of CDR.
use mate_corba.Prelude.{
  ℕ, zero, suc, ◌+◌, ◌*◌, ◌<◌, ◌≡◌, refl, arith, List, [], ◌∷◌, ◌++◌, length, take, take-all,
  replicate, append_assoc, length-append, Bool, Bool-cases, inl, inr, Option, none, some, Endian,
  u32_bytes, u16_bytes, length-u16_bytes, length-u32_bytes, All, u32_mod,
}
use mate_corba.Giop.Align.{IsBoundary}
use mate_corba.Giop.SendBuffer.Memory.{Mem, field, outer, SendBuffer}
use mate_corba.Giop.SendBuffer.Defs.{append, align, append_aligned, append_string, caller_bytes}
use mate_corba.Giop.SendBuffer.Put.{Writes}
use mate_corba.Giop.SendBuffer.Writes.{Writes-trans}
use mate_corba.Giop.SendBuffer.Append.{
  IsSource, append-Writes, align-Writes, append_aligned-Writes, append_string-Writes, padding,
  message_end,
}
use mate_corba.Giop.Messages.Build.{message_end-Writes}
use mate_corba.Giop.Messages.Layout.{cdr_align, cdr_octets}
use mate_corba.Any.Types.{
  Kind, TypeCode, TypeCodes, basic, tk_struct, tk_except, tk_union, tk_sequence, tk_array, tk_alias,
  end, part, Value, Values, nothing, number, text, wide, address, fields, union, items, nil, cons,
  size, number_of, octets_in, is_octet, Form, as_void, as_short, as_long, as_float, as_double,
  as_octet, as_foreign, as_string, as_wstring, form,
}
use mate_corba.Any.Unions.{get_union_tag}
use mate_corba.Any.Words.{word_bytes}
use mate_corba.Any.Words.RoundTrip.{length-word_bytes}
use mate_corba.Any.Marshal.{
  until_zero-whole, wide_bytes, or_stop, marshal_items, marshal_form, marshal_elements,
  marshal_value, marshal_fields, marshal_member,
}
use mate_corba.Any.Encode.{
  HasForm, HasType, HaveTypes, IsMember, AllItems, encode_items, encode_form, encode, encode_fields,
  encode_member,
}
use mate_corba.Any.RoundTrip.{octets_lem}

-- The buffer has come to hold that body since `s`, a buffer whose message was empty, and has a
-- chunk.
abbrev pub Holds : Endian → SendBuffer → List ℕ → SendBuffer → Type 0
Holds host s body b = Writes host s body b × (0 < b.num_indirects_used)

-- The code went on, to a buffer that holds that body.
abbrev pub Appends : Endian → SendBuffer → List ℕ → Option SendBuffer → Type 0
Appends host s body none = ⊥
Appends host s body (some b) = Holds host s body b

-- The code of other files puts what `foreign` gives.
abbrev pub IsPut :
    Endian
    → SendBuffer
    → (Kind → ℕ → Type 0)
    → (Kind → ℕ → List ℕ → List ℕ)
    → (Kind → ℕ → SendBuffer → SendBuffer)
    → Type 0
IsPut host s IsHeld foreign put_foreign =
    (k : Kind) (n : ℕ) (body : List ℕ) (b : SendBuffer)
    → IsHeld k n
    → Holds host s body b
    → Holds host s (body ++ foreign k n body) (put_foreign k n b)

pub Appends-or_stop :
    (host : Endian) (s : SendBuffer) (p q : List ℕ) (m : Option SendBuffer)
    (k : SendBuffer → Option SendBuffer)
    → Appends host s p m
    → ((b : SendBuffer) → Holds host s p b → Appends host s q (k b))
    → Appends host s q (or_stop m k)
unfolding or_stop
Appends-or_stop host s p q none k h f = absurd h
Appends-or_stop host s p q (some b) k h f = f b h

module _ (host : Endian) (blank : Bool) (s : SendBuffer) (empty : s.msg_header.message_size ≡ 0)
    (head : s.header_size ≡ 12) where
  Holds-Writes :
      (body xs : List ℕ) (b b' : SendBuffer)
      → Holds host s body b
      → Writes host b xs b'
      → Holds host s (body ++ xs) b'
  Holds-Writes body xs b b' (w, u) w' =
      (Writes-trans host s b b' body xs w w', omega (arith, u, w'.used_le))

  put :
      (body : List ℕ) (b : SendBuffer) (m : Mem)
      → IsSource m
      → Holds host s body b
      → Holds host s (body ++ caller_bytes m) (append blank b m)
  put body b m i (w, u) =
      Holds-Writes body (caller_bytes m) b _ (w, u)
        (append-Writes host blank b m w.valid i (omega (arith, u)))

  put_align :
      (n : ℕ) (body : List ℕ) (b : SendBuffer)
      → IsBoundary n
      → Holds host s body b
      → Holds host s (cdr_align n body) (align blank b n)
  unfolding cdr_align
  put_align n body b i (w, u) =
      rw (← message_end-Writes host blank s empty head body b w)
        (Holds-Writes body _ b _ (w, u) (align-Writes host blank b n w.valid i))

  pub put_word :
      (n : ℕ) (xs body : List ℕ) (b : SendBuffer)
      → IsBoundary n
      → length xs ≡ n
      → Holds host s body b
      → Holds host s (cdr_align n body ++ xs) (append_aligned blank b xs)
  unfolding cdr_align
  put_word n xs body b i e (w, u) =
      let aligned : Writes host b (replicate (padding (message_end b) n) 0 ++ xs)
          (append_aligned blank b xs) =
        rw e at (append_aligned-Writes host blank b xs w.valid (rw e i)) in
      rw (← message_end-Writes host blank s empty head body b w)
        (rw (← append_assoc) at (Holds-Writes body _ b _ (w, u) aligned))

  put_string :
      (addr : ℕ) (str body : List ℕ) (b : SendBuffer)
      → 0 < length str
      → 4 + length str < u32_mod
      → Holds host s body b
      → Holds host s (cdr_octets host str body) (append_string host blank b addr str)
  unfolding cdr_octets cdr_align
  put_string addr str body b n small (w, u) =
      rw (← message_end-Writes host blank s empty head body b w, append_assoc, append_assoc)
        (Holds-Writes body _ b _ (w, u)
          (append_string-Writes host blank b addr str w.valid n small))

  module _ (place : Value → ℕ) (IsHeld : Kind → ℕ → Type 0) (foreign : Kind → ℕ → List ℕ → List ℕ)
      (put_foreign : Kind → ℕ → SendBuffer → SendBuffer)
      (puts : IsPut host s IsHeld foreign put_foreign) where
    put_wide :
        (k : Kind) (cs body : List ℕ) (b : SendBuffer)
        → All (λ c. 0 < c) cs
        → Holds host s body b
        → Appends host s
            (encode_form host foreign as_wstring k (wide cs) body)
            (marshal_form host blank place put_foreign as_wstring k (wide cs) b)
    unfolding encode_form marshal_form
    put_wide k cs body b a w =
        let marker = u16_bytes host 0xfeff in
        let sized =
          put_word 4 (u32_bytes host ((length cs + 1) * 2)) body b (inr (inl refl))
            (length-u32_bytes host _) w in
        let marked = put _ _ (field marker) (omega (arith, length-u16_bytes host 0xfeff)) sized in
        rw (until_zero-whole cs a) (
          rw
            (append_assoc (cdr_align 4 body ++ u32_bytes host ((length cs + 1) * 2)) marker
              (wide_bytes host cs))
            at (put _ _ (outer (place (wide cs)) (wide_bytes host cs)) tt marked))

    put_form :
        (m : Form) (k : Kind) (v : Value) (body : List ℕ) (b : SendBuffer)
        → HasForm IsHeld m k v
        → Holds host s body b
        → Appends host s
            (encode_form host foreign m k v body)
            (marshal_form host blank place put_foreign m k v b)
    unfolding encode_form marshal_form
    put_form as_void k nothing body b h w = w
    put_form as_short k (number n) body b h w =
        put_word 2 (u16_bytes host n) body b (inl refl) (length-u16_bytes host n) w
    put_form as_long k (number n) body b h w =
        put_word 4 (u32_bytes host n) body b (inr (inl refl)) (length-u32_bytes host n) w
    put_form as_float k (number n) body b h w =
        put_word 4 (word_bytes host 4 n) body b (inr (inl refl)) (length-word_bytes host 4 n) w
    put_form as_double k (number n) body b h w =
        put_word 8 (word_bytes host 8 n) body b (inr (inr refl)) (length-word_bytes host 8 n) w
    put_form as_octet k (number n) body b h w = put body b (field (n ∷ [])) (omega arith) w
    put_form as_foreign k (address n) body b h w = puts k n body b h w
    put_form as_string k (text str) body b h w =
        let (a, small) = h in
        rw (until_zero-whole str a) (
          put_string (place (text str)) (str ++ (0 ∷ [])) body b
            (omega (arith, length-append str (0 ∷ [])))
            (omega (arith, small, length-append str (0 ∷ []))) w)
    put_form as_wstring k (wide cs) body b h w = put_wide k cs body b h.2 w
    put_form _ k v body b h w = absurd h

    put_items :
        (g : Value → List ℕ → List ℕ) (f : Value → SendBuffer → Option SendBuffer)
        (P : Value → Type 0)
        → ((v : Value) (body : List ℕ) (b : SendBuffer)
            → P v
            → Holds host s body b
            → Appends host s (g v body) (f v b))
        → (vs : Values) (body : List ℕ) (b : SendBuffer) → AllItems P vs
        → Holds host s body b
        → Appends host s (encode_items g vs body) (marshal_items f (size vs) vs b)
    unfolding marshal_items
    put_items g f P h nil body b a w = w
    put_items g f P h (cons v vs) body b (a, as_) w =
        Appends-or_stop host s (g v body) _ (f v b) _ (h v body b a w)
          (λ c x. put_items g f P h vs (g v body) c as_ x)

    put_elements :
        (t : TypeCode) (f : Value → SendBuffer → Option SendBuffer)
        → ((v : Value) (body : List ℕ) (b : SendBuffer)
            → HasType IsHeld t v
            → Holds host s body b
            → Appends host s (encode host foreign t v body) (f v b))
        → (vs : Values) (body : List ℕ) (b : SendBuffer) → AllItems (λ v. HasType IsHeld t v) vs
        → Holds host s body b
        → Appends host s
            (encode_items (λ v q. encode host foreign t v q) vs body)
            (marshal_elements host blank place put_foreign t f (size vs) (items vs) b)
    unfolding marshal_elements
    put_elements t f h vs body b a w = elim (Bool-cases (is_octet t)) [
      | inl e ↦
          let (x, y, z) = octets_lem IsHeld host foreign t vs body e a in
          let whole : take (size vs) (octets_in vs) ≡ octets_in vs =
            take-all (size vs) (octets_in vs) (omega (arith, z)) in
          rw (e, x, whole) (put body b (outer (place (items vs)) (octets_in vs)) tt w)
      | inr e ↦
          rw e (
            put_items (λ v q. encode host foreign t v q) f (λ v. HasType IsHeld t v) h vs body b a
              w)
    ]

    mutual
      unfolding marshal_value encode HasType

      put_value :
          (t : TypeCode) (v : Value) (body : List ℕ) (b : SendBuffer)
          → HasType IsHeld t v
          → Holds host s body b
          → Appends host s
              (encode host foreign t v body)
              (marshal_value host blank place put_foreign t v b)
      put_value (basic k) v body b h w = put_form (form k) k v body b h w
      put_value (tk_alias t) v body b h w = put_value t v body b h w
      put_value (tk_struct ts) (fields vs) body b h w = put_fields ts vs body b h w
      put_value (tk_except ts) (fields vs) body b h w = put_fields ts vs body b h w
      put_value (tk_union d labels ts i) (union n v) body b (h, k) w =
          Appends-or_stop host s (encode host foreign d n body) _ _ _ (put_value d n body b h w)
            (λ c x. put_member ts (get_union_tag d labels i (number_of n)) v _ c k x)
      put_value (tk_sequence t) (items vs) body b (h, a) w =
          put_elements t (λ v c. marshal_value host blank place put_foreign t v c)
            (λ v q c. put_value t v q c) vs _ _ a
            (put _ _ (field (u32_bytes host (size vs)))
              (omega (arith, length-u32_bytes host (size vs)))
              (put_align 4 body b (inr (inl refl)) w))
      put_value (tk_array t n) (items vs) body b (e, a) w = rw (← e) (
          put_elements t (λ v c. marshal_value host blank place put_foreign t v c)
            (λ v q c. put_value t v q c) vs body b a w)
      put_value _ v body b h w = absurd h

      put_fields :
          (ts : TypeCodes) (vs : Values) (body : List ℕ) (b : SendBuffer)
          → HaveTypes IsHeld ts vs
          → Holds host s body b
          → Appends host s
              (encode_fields host foreign ts vs body)
              (marshal_fields host blank place put_foreign ts vs b)
      put_fields end nil body b h w = w
      put_fields (part t ts) (cons v vs) body b (h, k) w =
          Appends-or_stop host s (encode host foreign t v body) _ _ _ (put_value t v body b h w)
            (λ c x. put_fields ts vs _ c k x)
      put_fields _ vs body b h w = absurd h

      put_member :
          (ts : TypeCodes) (i : Option (Option ℕ)) (v : Value) (body : List ℕ) (b : SendBuffer)
          → IsMember IsHeld ts i v
          → Holds host s body b
          → Appends host s
              (encode_member host foreign ts i v body)
              (marshal_member host blank place put_foreign ts i v b)
      put_member (part t ts) (some (some zero)) v body b h w = put_value t v body b h w
      put_member (part t ts) (some (some (suc i))) v body b h w =
          put_member ts (some (some i)) v body b h w
      put_member end (some none) nothing body b h w = w
      put_member (part t ts) (some none) nothing body b h w = w
      put_member _ i v body b h w = absurd h

    -- marshal_value of a value that has the type, without a Principal, never stops with
    -- g_error, and leaves in a well-formed send buffer that holds a body exactly the body that
    -- the CDR layout `encode` gives behind it, for every kind of type at any depth, where what
    -- other files put is what their layout says. The buffer started empty behind its header of
    -- twelve bytes, and has a chunk.
    pub marshal_value-Appends :
        (t : TypeCode) (v : Value) (body : List ℕ) (b : SendBuffer)
        → HasType IsHeld t v
        → Holds host s body b
        → Appends host s
            (encode host foreign t v body)
            (marshal_value host blank place put_foreign t v b)
    marshal_value-Appends t v body b h w = put_value t v body b h w
