-- ===== src/Giop/RecvBuffer/Safety/Steps.antt =====
-- The steps of a reader, as far as they stay inside the message.
use mate_corba.Prelude.{
  ℕ, ◌+◌, ◌≤◌, ◌<◌, ◌≡◌, refl, inl, inr, arith, length, length-take-le, u32_mod, u64_mod, Endian,
}
use mate_corba.Giop.Align.{IsBoundary, align_value_lem}
use mate_corba.Giop.RecvBuffer.Reader.{
  Outcome, ok, bad, fault, RecvBuffer, Reader, ◌>>=◌, align_cur, need, get_u32, get_u16, Slice,
  get_slice, aligned_u32, aligned_slice, memory_at,
}

-- A result that meets `Q`, or an error that the code reports.
abbrev pub Ensures : {A : Type 0} → (A → RecvBuffer → Type 0) → Outcome (A × RecvBuffer) → Type 0
Ensures Q (ok (a, b)) = Q a b
Ensures Q bad = Unit {0}
Ensures Q fault = ⊥

module _ {A B : Type 0} (Q : A → RecvBuffer → Type 0) (R : B → RecvBuffer → Type 0) where
  pub Ensures-elim :
      (r : Outcome (A × RecvBuffer)) (f : A → Reader B)
      → Ensures Q r
      → ((a : A) (b : RecvBuffer) → Q a b → Ensures R (f a b))
      → Ensures R (elim r [ ok (a, b) ↦ f a b | bad ↦ bad | fault ↦ fault ])
  Ensures-elim (ok (a, b)) f q k = k a b q
  Ensures-elim bad f q k = tt
  Ensures-elim fault f q k = absurd q

  -- The rule for a sequence of two steps.
  pub Ensures->>= :
      (m : Reader A) (f : A → Reader B) (b : RecvBuffer)
      → Ensures Q (m b)
      → ((a : A) (b' : RecvBuffer) → Q a b' → Ensures R (f a b'))
      → Ensures R ((m >>= f) b)
  Ensures->>= m f b q k = Ensures-elim (m b) f q k

-- The read position is inside the message, whose end is at `e`.
abbrev pub Inside : ℕ → {A : Type 0} → A → RecvBuffer → Type 0
Inside e a b = (b.cur ≤ e) × (b.end ≡ e)

-- The read position may have been aligned beyond the end.
abbrev pub Ends : ℕ → {A : Type 0} → A → RecvBuffer → Type 0
Ends e a b = (b.cur < e + 8) × (b.end ≡ e)

abbrev pub IsWord : ℕ → ℕ → RecvBuffer → Type 0
IsWord e n b = (n < u32_mod) × (b.cur ≤ e) × (b.end ≡ e)

-- A slice that ends where the read position has gone to, before `e`.
abbrev pub IsSlice : ℕ → Slice → RecvBuffer → Type 0
IsSlice e s b = (s.addr + length s.bytes ≤ b.cur) × (b.cur ≤ e) × (b.end ≡ e)

-- An end so low that no sum in a check of it wraps.
abbrev pub IsLow : ℕ → Type 0
IsLow e = e + 16 ≤ u64_mod

pub aligned_u32-IsWord :
    (host : Endian) (e : ℕ) (b : RecvBuffer)
    → IsLow e
    → Inside e tt b
    → Ensures (IsWord e) (aligned_u32 host b)
unfolding aligned_u32 align_cur need get_u32
aligned_u32-IsWord host e b h i =
    ground (arith, align_value_lem b.cur 4 (inr (inl refl)) (omega (arith, h, i)))

-- At least `n` bytes are left.
abbrev pub HasLeft : ℕ → ℕ → {A : Type 0} → A → RecvBuffer → Type 0
HasLeft e n a b = (b.cur + n ≤ e) × (b.end ≡ e)

pub IsBoundary-le : (n : ℕ) → IsBoundary n → n ≤ 8
IsBoundary-le n (inl e) = omega (arith, e)
IsBoundary-le n (inr (inl e)) = omega (arith, e)
IsBoundary-le n (inr (inr e)) = omega (arith, e)

pub align_cur-Ends :
    (e n : ℕ) (b : RecvBuffer)
    → IsBoundary n
    → IsLow e
    → Inside e tt b
    → Ensures (Ends e) (align_cur n b)
unfolding align_cur
align_cur-Ends e n b a h i =
    let (_, _, near) = align_value_lem b.cur n a (omega (arith, h, i)) in
    (omega (arith, near, i, IsBoundary-le n a), i.1)

pub need-HasLeft :
    (e n : ℕ) (b : RecvBuffer) → n ≤ 8 → IsLow e → Ends e tt b → Ensures (HasLeft e n) (need n b)
unfolding need
need-HasLeft e n b s h i = ground arith

pub get_u16-Inside :
    (host : Endian) (e : ℕ) (b : RecvBuffer)
    → HasLeft e 2 tt b
    → Ensures (Inside e) (get_u16 host b)
unfolding get_u16
get_u16-Inside host e b i = ground arith

pub get_slice-IsSlice :
    (e len : ℕ) (b : RecvBuffer)
    → IsLow e
    → len < u32_mod
    → Inside e tt b
    → Ensures (IsSlice e) (get_slice len b)
unfolding get_slice
get_slice-IsSlice e len b h l i = ground (arith, length-take-le len (memory_at b b.cur))

pub aligned_slice-IsSlice :
    (host : Endian) (e : ℕ) (b : RecvBuffer)
    → IsLow e
    → Inside e tt b
    → Ensures (IsSlice e) (aligned_slice host b)
unfolding aligned_slice
aligned_slice-IsSlice host e b h i =
    Ensures->>= (IsWord e) (IsSlice e) (aligned_u32 host) (λ n. get_slice n) b
      (aligned_u32-IsWord host e b h i) (λ n b' w. get_slice-IsSlice e n b' h w.0 (w.1, w.2))
