-- ===== src/Giop/SendBuffer/Invariant.antt =====
-- What holds of a send buffer between two calls, and what a write to a chunk leaves unread.
use mate_corba.Prelude.{
  ℕ, zero, suc, ◌+◌, ◌-◌, ◌≤◌, ◌<◌, ◌≡◌, refl, sym, ap, ◌≢◌, arith, List, [], ◌∷◌, ◌++◌, length,
  take, drop, get_or, set, All, u32_mod, u64_mod, Endian, take-drop_prefix, take-append,
  get_or-set_self, get_or-set_ne, length-append, length-take, length-drop,
}
use mate_corba.Giop.Types.{MsgHeader}
use mate_corba.Giop.SendBuffer.Memory.{
  Mem, header, field, outer, indirect, Place, place, advance, IoVec, IndirectChunk, no_chunk,
  SendBuffer, chunk_bytes, contents, gather,
}
use mate_corba.Giop.SendBuffer.Defs.{giop_chunk_size, write_at}
use native.Mathlib.Nat.{zero-add}
use native.Mathlib.Decide.{ℕ_discrete}

-- The memory of one entry is written already, and lies before the next write to its chunk.
abbrev pub IsKept : List IndirectChunk → ℕ → ℕ → Mem → ℕ → Type 0
IsKept chunks used off header len = Unit {0}
IsKept chunks used off (field bs) len = Unit {0}
IsKept chunks used off (outer a bs) len = len ≤ length bs
IsKept chunks used off (indirect c o) len =
    0 < len
    → (c < used) × (o + len ≤ length (chunk_bytes chunks c)) × (suc c ≡ used → o + len ≤ off)

abbrev pub AreKept : List IndirectChunk → ℕ → ℕ → List IoVec → Type 0
AreKept chunks used off [] = Unit {0}
AreKept chunks used off (v ∷ vs) =
    IsKept chunks used off v.iov_base v.iov_len × AreKept chunks used off vs

-- lastptr is the end of the newest entry.
abbrev pub IsLast : Place → List IoVec → Type 0
IsLast p [] = Unit {0}
IsLast p (v ∷ vs) = p ≡ advance (place v.iov_base) v.iov_len

-- No chunk is smaller than a fresh one, nor is more of it written than was allocated.
abbrev pub IsChunk : IndirectChunk → Type 0
IsChunk c = (giop_chunk_size ≤ c.size) × (c.size < u64_mod) × (length c.bytes ≤ c.size)

pub record IsValid (b : SendBuffer) : Type 0 where
  pub kept : AreKept b.indirects b.num_indirects_used b.indirect b.iovecs
  pub last : IsLast b.lastptr b.iovecs
  pub within :
      0 < b.num_indirects_used
      → b.indirect ≤ length (chunk_bytes b.indirects (b.num_indirects_used - 1))
  pub room :
      0 < b.num_indirects_used
      → b.indirect + b.indirect_left ≡ (get_or b.indirects (b.num_indirects_used - 1) no_chunk).size
  pub no_room : b.num_indirects_used ≡ 0 → b.indirect_left ≡ 0
  pub used : b.num_indirects_used ≤ length b.indirects
  pub chunks : All IsChunk b.indirects
  pub array : length b.iovecs ≤ b.num_alloced
  pub size : b.msg_header.message_size < u32_mod

-- The memory of chunk `c` with `new` written at `off`.
abbrev pub overwrite : List IndirectChunk → ℕ → ℕ → List ℕ → List IndirectChunk
overwrite chunks c off new =
    set chunks c
      (record (get_or chunks c no_chunk) { bytes = write_at off new (chunk_bytes chunks c) })

pub chunk_bytes-overwrite :
    (chunks : List IndirectChunk) (c off : ℕ) (new : List ℕ)
    → c < length chunks
    → chunk_bytes (overwrite chunks c off new) c ≡ write_at off new (chunk_bytes chunks c)
chunk_bytes-overwrite chunks c off new h =
    ap (λ (x : IndirectChunk). x.bytes) (get_or-set_self chunks c _ no_chunk h)

pub chunk_bytes-overwrite_ne :
    (chunks : List IndirectChunk) (c d off : ℕ) (new : List ℕ)
    → c ≢ d
    → chunk_bytes (overwrite chunks c off new) d ≡ chunk_bytes chunks d
chunk_bytes-overwrite_ne chunks c d off new h =
    ap (λ (x : IndirectChunk). x.bytes) (get_or-set_ne chunks c d _ no_chunk h)

pub length-write_at :
    (off : ℕ) (new bytes : List ℕ)
    → off ≤ length bytes
    → length (write_at off new bytes) ≡ off + (length new + (length bytes - (off + length new)))
length-write_at off new bytes h = omega (
  arith,
  length-append (take off bytes) (new ++ drop (off + length new) bytes),
  length-append new (drop (off + length new) bytes),
  length-take off bytes h,
  length-drop (off + length new) bytes,
)

-- What is written at the end of a kept stretch continues it.
pub take-drop_join :
    (l o : ℕ) (xs new rest : List ℕ)
    → o + l ≤ length xs
    → take (l + length new) (drop o (take (o + l) xs ++ (new ++ rest))) ≡ take l (drop o xs) ++ new
take-drop_join zero zero xs new rest h = rw zero-add (take-append new rest)
take-drop_join (suc l) zero [] new rest h = absurd (omega arith)
take-drop_join (suc l) zero (x ∷ xs) new rest h =
    let e : 0 + suc l ≡ suc l = omega arith in
    let f : suc l + length new ≡ suc (l + length new) = omega arith in
    let g : 0 + l ≡ l = omega arith in
    rw (e, f) (ap (◌∷◌ x) (rw g at (take-drop_join l zero xs new rest (omega arith))))
take-drop_join l (suc o) [] new rest h = absurd (omega arith)
take-drop_join l (suc o) (x ∷ xs) new rest h =
    let e : suc o + l ≡ suc (o + l) = omega arith in
    rw e (take-drop_join l o xs new rest (omega arith))

take-IsKept :
    (host : Endian) (h : MsgHeader) (chunks : List IndirectChunk) (used off : ℕ) (new : List ℕ)
    (m : Mem) (l : ℕ)
    → 0 < used
    → used ≤ length chunks
    → off ≤ length (chunk_bytes chunks (used - 1))
    → IsKept chunks used off m l
    → take l (contents host h (overwrite chunks (used - 1) off new) m)
      ≡ take l (contents host h chunks m)
take-IsKept host h chunks used off new header l p u w k = refl
take-IsKept host h chunks used off new (field bs) l p u w k = refl
take-IsKept host h chunks used off new (outer a bs) l p u w k = refl
take-IsKept host h chunks used off new (indirect c o) zero p u w k = refl
take-IsKept host h chunks used off new (indirect c o) (suc l) p u w k =
    elim (ℕ_discrete c (used - 1)) [
      | yes e ↦
          rw (e, chunk_bytes-overwrite chunks (used - 1) off new (omega arith))
            (take-drop_prefix (suc l) o off (chunk_bytes chunks (used - 1)) _
              (omega (arith, (k (omega arith)).2 (omega arith))) w)
      | no n ↦ rw (chunk_bytes-overwrite_ne chunks (used - 1) c off new (λ e. n (sym e)))
    ]

-- A write at the end of the current chunk is seen by no entry.
pub gather-overwrite :
    (host : Endian) (h : MsgHeader) (chunks : List IndirectChunk) (used off : ℕ) (new : List ℕ)
    (vs : List IoVec)
    → 0 < used
    → used ≤ length chunks
    → off ≤ length (chunk_bytes chunks (used - 1))
    → AreKept chunks used off vs
    → gather host h (overwrite chunks (used - 1) off new) vs ≡ gather host h chunks vs
gather-overwrite host h chunks used off new [] p u w k = refl
gather-overwrite host h chunks used off new (v ∷ vs) p u w (k, ks) = rw (
  gather-overwrite host h chunks used off new vs p u w ks,
  take-IsKept host h chunks used off new v.iov_base v.iov_len p u w k,
)
