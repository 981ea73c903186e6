-- ===== src/Giop/RecvBuffer/Fields/Steps.antt =====
-- The steps of the readers of giop-recv-buffer.c over a message of any contents, and the fields that
-- they hand out.
use mathlib.Core.Path.{subst}
use mate_corba.Prelude.{
  ℕ, ◌+◌, ◌-◌, ◌%◌, ◌≤◌, ◌<◌, ◌≡◌, refl, sym, arith, take, Bool-cases, inl, inr, false, ltb, ◌||◌,
  u32_mod, u64_mod, Endian, read_u32,
}
use mate_corba.Giop.Align.{IsBoundary, align_value, align_value_lem}
use mate_corba.Giop.RecvBuffer.Reader.{
  RecvBuffer, Reader, ◌>>=◌, align_cur, need, get_u32, get_u16, get_octet, Slice, get_slice,
  aligned_u32, aligned_slice, memory_at, msg_conversion_needed,
}
use mate_corba.Giop.RecvBuffer.Demarshal.{
  TargetAddress, key_addr, unread, Body, request_1_1, request_1_2, reply_1_1, reply_1_2,
  cancel_request, locate_request_1_1, locate_request_1_2, locate_reply, no_body,
}
use mate_corba.Giop.RecvBuffer.Safety.{Ensures, Ensures->>=, IsBoundary-le}

-- The guint32 at an address, in the message's byte order.
abbrev pub word_at : Endian → RecvBuffer → ℕ → ℕ
word_at host b a = read_u32 host (msg_conversion_needed host b) (memory_at b a) % u32_mod

-- The slice is a field of the message from the read position on: the word in front of it counts its
-- octets, which lie before the end and are those of the memory.
abbrev pub IsField : Endian → RecvBuffer → Slice → Type 0
IsField host b s =
    (b.cur + 4 ≤ s.addr)
    × (s.addr + word_at host b (s.addr - 4) ≤ b.end)
    × (s.bytes ≡ take (word_at host b (s.addr - 4)) (memory_at b s.addr))

abbrev pub IsTarget : Endian → RecvBuffer → TargetAddress → Type 0
IsTarget host b (key_addr s) = IsField host b s
IsTarget host b (unread d) = 2 < d

-- The slices of a message are fields of it.
abbrev pub IsBody : Endian → RecvBuffer → Body → Type 0
IsBody host b (request_1_1 r) =
    IsField host b r.object_key × IsField host b r.operation × IsField host b r.requesting_principal
IsBody host b (request_1_2 r) = IsTarget host b r.target × IsField host b r.operation
IsBody host b (locate_request_1_1 r) = IsField host b r.object_key
IsBody host b (locate_request_1_2 r) = IsTarget host b r.target
IsBody host b (reply_1_1 r) = Unit {0}
IsBody host b (reply_1_2 r) = Unit {0}
IsBody host b (cancel_request id) = Unit {0}
IsBody host b (locate_reply r) = Unit {0}
IsBody host b no_body = Unit {0}

module _ (host : Endian) (m : RecvBuffer) (low : m.end + 24 ≤ u64_mod) where
  -- The message with another read position.
  abbrev pub At : ℕ → RecvBuffer
  At c = record m { cur = c }

  abbrev pub Moved : {A : Type 0} → (A → ℕ → Type 0) → A → RecvBuffer → Type 0
  Moved Q a b = (c : ℕ) × (b ≡ At c) × Q a c

  pub seq :
      {A B : Type 0} (Q : A → ℕ → Type 0) (R : B → RecvBuffer → Type 0) (r : Reader A)
      (f : A → Reader B) (c : ℕ)
      → Ensures (Moved Q) (r (At c))
      → ((a : A) (c' : ℕ) → Q a c' → Ensures R (f a (At c')))
      → Ensures R ((r >>= f) (At c))
  seq Q R r f c q k =
      Ensures->>= (Moved Q) R r f (At c) q
        (λ a b (c', e, x). subst (λ b. Ensures R (f a b)) (sym e) (k a c' x))

  -- At least `n` bytes are left.
  abbrev pub Left : ℕ → {A : Type 0} → A → ℕ → Type 0
  Left n a c = (m.cur ≤ c) × (c + n ≤ m.end)

  abbrev pub Near : {A : Type 0} → A → ℕ → Type 0
  Near a c = (m.cur ≤ c) × (c < m.end + 8)

  -- The word that was read last.
  abbrev pub Word : ℕ → ℕ → ℕ → Type 0
  Word n v c = (v ≡ word_at host m (c - 4)) × (m.cur + 4 ≤ c) × (c + n ≤ m.end)

  abbrev pub Counted : Slice → ℕ → Type 0
  Counted s c = IsField host m s × (m.cur ≤ c) × (c ≤ m.end)

  pub align_step :
      (n c : ℕ) → IsBoundary n → Left 0 tt c → Ensures (Moved Near) (align_cur n (At c))
  unfolding align_cur
  align_step n c a h =
      let (_, l, near) = align_value_lem c n a (omega (arith, h, low)) in
      (align_value c n, refl, (omega (arith, l, h), omega (arith, near, h, IsBoundary-le n a)))

  pub need_step : (n c : ℕ) → n ≤ 12 → Near tt c → Ensures (Moved (Left n)) (need n (At c))
  unfolding need
  need_step n c s h = elim (Bool-cases (ltb m.end ((c + n) % u64_mod))) [
    | inl e ↦ rw e tt
    | inr e ↦ rw e (c, refl, ground (arith, low))
  ]

  pub u32_step : (n c : ℕ) → Left (n + 4) tt c → Ensures (Moved (Word n)) (get_u32 host (At c))
  unfolding get_u32
  u32_step n c h =
      let e : ltb m.end (c + 4) ≡ false = ground arith in
      let back : c + 4 - 4 ≡ c = omega arith in
      rw e (c + 4, refl, (rw back refl, omega (arith, h), omega (arith, h)))

  pub u16_step : (n c : ℕ) → Left (n + 2) tt c → Ensures (Moved (Left n)) (get_u16 host (At c))
  unfolding get_u16
  u16_step n c h =
      let e : ltb m.end (c + 2) ≡ false = ground arith in rw e (c + 2, refl, omega (arith, h))

  pub octet_step : (n c : ℕ) → Left (n + 4) tt c → Ensures (Moved (Left n)) (get_octet 4 (At c))
  unfolding get_octet
  octet_step n c h =
      let e : ltb m.end (c + 1) ≡ false = ground arith in rw e (c + 4, refl, omega (arith, h))

  pub slice_step : (v c : ℕ) → Word 0 v c → Ensures (Moved Counted) (get_slice v (At c))
  unfolding get_slice
  slice_step v c (w, l, i) =
      let small : v < u32_mod = omega (arith, w) in
      elim (Bool-cases (ltb m.end ((c + v) % u64_mod) || ltb ((c + v) % u64_mod) c)) [
        | inl e ↦ rw e tt
        | inr e ↦
            let inside : c + v ≤ m.end = ground (arith, low) in
            let f : ltb m.end (c + v) ≡ false = ground arith in
            rw (e, f) (c + v, refl, ((l, rw w at inside, rw (← w) refl), omega (arith, l), inside))
      ]

  -- An aligned word.
  pub aligned_step : (c : ℕ) → Left 0 tt c → Ensures (Moved (Word 0)) (aligned_u32 host (At c))
  unfolding aligned_u32
  aligned_step c h =
      seq Near (Moved (Word 0)) (align_cur 4) _ c (align_step 4 c (inr (inl refl)) h) λ _ c₁ h₁.
        seq (Left 4) (Moved (Word 0)) (need 4) _ c₁ (need_step 4 c₁ (omega arith) h₁)
          λ _ c₂ h₂. u32_step 0 c₂ (omega (arith, h₂))

  pub octets_step : (c : ℕ) → Left 0 tt c → Ensures (Moved Counted) (aligned_slice host (At c))
  unfolding aligned_slice
  octets_step c h =
      seq (Word 0) (Moved Counted) (aligned_u32 host) _ c (aligned_step c h)
        λ n c₁ w. slice_step n c₁ w
