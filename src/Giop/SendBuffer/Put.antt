-- ===== src/Giop/SendBuffer/Put.antt =====
-- A write to the current chunk: put_indirect when the chunk has room.
use Prim.Native.Nat.{max}
use mathlib.Core.Path.{ap₂}
use mate_corba.Prelude.{
  ℕ, ◌+◌, ◌-◌, ◌*◌, ◌%◌, ◌≤◌, ◌<◌, ◌≡◌, refl, sym, ap, ◌∙◌, inl, inr, arith, List, [], ◌∷◌, ◌++◌,
  length, take, drop, get_or, All, All-set, All-get_or, u32_mod, u64_mod, Endian, get_or-set_self,
  length-set, append_assoc, Bool, true, false, not, ◌&&◌, ◌==◌, Bool-cases, if◌then◌else◌, leb,
}
use mate_corba.Giop.Types.{MsgHeader}
use mate_corba.Giop.SendBuffer.Memory.{
  Mem, header, field, outer, indirect, indirect_at, place, advance, same, IoVec, IndirectChunk,
  no_chunk, SendBuffer, chunk_bytes, contents, gather,
}
use mate_corba.Giop.SendBuffer.Defs.{write_at, extend, grow_last, append_real, put_indirect, sub64}
use mate_corba.Giop.SendBuffer.Invariant.{
  IsKept, AreKept, IsLast, IsChunk, IsValid, overwrite, chunk_bytes-overwrite,
  chunk_bytes-overwrite_ne, length-write_at, take-drop_join, gather-overwrite,
}
use native.Mathlib.Decide.{ℕ_discrete}

-- `b'` is `b` with `xs` appended to the message, and nothing else of the message changed.
pub record Writes (host : Endian) (b : SendBuffer) (xs : List ℕ) (b' : SendBuffer) : Type 0 where
  pub valid : IsValid b'
  pub gathered :
      (h : MsgHeader)
      → gather host h b'.indirects b'.iovecs ≡ gather host h b.indirects b.iovecs ++ xs
  pub grown :
      b'.msg_header
      ≡ record b.msg_header { message_size = (b.msg_header.message_size + length xs) % u32_mod }
  pub kept_size : b'.header_size ≡ b.header_size
  pub used_le : b.num_indirects_used ≤ b'.num_indirects_used

-- The current chunk has room for `n` bytes.
pub record HasRoom (b : SendBuffer) (n : ℕ) : Type 0 where
  pub current : 0 < b.num_indirects_used
  pub fits : n ≤ b.indirect_left

take-written :
    (off : ℕ) (new bytes : List ℕ)
    → off ≤ length bytes
    → take (length new) (drop off (write_at off new bytes)) ≡ new
take-written off new bytes h =
    let e : 0 + length new ≡ length new = omega arith in
    let f : off + 0 ≡ off = omega arith in
    rw (e, f) at (take-drop_join 0 off bytes new (drop (off + length new) bytes) (omega arith))

same-indirect_at :
    (c d o p : ℕ) → same (indirect_at c o) (indirect_at d p) ≡ true → (c ≡ d) × (o ≡ p)
same-indirect_at c d o p e = ground arith

module _ (host : Endian) (h : MsgHeader) (chunks : List IndirectChunk) (used off : ℕ) (new : List ℕ)
    (p : 0 < used) (u : used ≤ length chunks)
    (w : off ≤ length (chunk_bytes chunks (used - 1))) where
  -- Growing the newest entry, when the write continues it.
  grow_take :
      (m : Mem) (l : ℕ)
      → same (indirect_at (used - 1) off) (advance (place m) l) ≡ true
      → take (l + length new) (
          contents host h
            (overwrite chunks (used - 1) off new)
            (extend m l (indirect (used - 1) off)))
        ≡ take l (contents host h chunks m) ++ new
  grow_take header l e = cc
  grow_take (field bs) l e = cc
  grow_take (outer a bs) l e = cc
  grow_take (indirect c o) l e =
      let (c', o') = same-indirect_at (used - 1) c off (o + l) e in
      rw (← c', chunk_bytes-overwrite chunks (used - 1) off new (omega arith), o')
        (take-drop_join l o (chunk_bytes chunks (used - 1)) new _ (omega arith))

  length-chunk :
      (c : ℕ)
      → length (chunk_bytes chunks c) ≤ length (chunk_bytes (overwrite chunks (used - 1) off new) c)
  length-chunk c = elim (ℕ_discrete (used - 1) c) [
    | yes e ↦
        rw (← e, chunk_bytes-overwrite chunks (used - 1) off new (omega arith))
          (omega (arith, length-write_at off new (chunk_bytes chunks (used - 1)) w))
    | no n ↦ rw (chunk_bytes-overwrite_ne chunks (used - 1) c off new n) (omega arith)
  ]

  written-IsKept :
      (m : Mem) (l : ℕ)
      → IsKept chunks used off m l
      → IsKept (overwrite chunks (used - 1) off new) used (off + length new) m l
  written-IsKept header l k = tt
  written-IsKept (field bs) l k = tt
  written-IsKept (outer a bs) l k = k
  written-IsKept (indirect c o) l k =
      λ q. ((k q).0, omega (arith, (k q).1, length-chunk c), λ e. omega (arith, (k q).2 e))

  written-AreKept :
      (vs : List IoVec)
      → AreKept chunks used off vs
      → AreKept (overwrite chunks (used - 1) off new) used (off + length new) vs
  written-AreKept [] k = tt
  written-AreKept (v ∷ vs) (k, ks) = (written-IsKept v.iov_base v.iov_len k, written-AreKept vs ks)

  -- The memory that the new entry names.
  new-IsKept :
      IsKept
        (overwrite chunks (used - 1) off new)
        used
        (off + length new)
        (indirect (used - 1) off)
        (length new)
  new-IsKept q = (
    omega arith,
    rw (chunk_bytes-overwrite chunks (used - 1) off new (omega arith))
        (omega (arith, length-write_at off new (chunk_bytes chunks (used - 1)) w)),
    λ e. omega arith,
  )

  -- The same for a grown entry.
  grown-IsKept :
      (m : Mem) (l : ℕ)
      → same (indirect_at (used - 1) off) (advance (place m) l) ≡ true
      → IsKept
          (overwrite chunks (used - 1) off new)
          used
          (off + length new)
          (extend m l (indirect (used - 1) off))
          (l + length new)
  grown-IsKept header l e = cc
  grown-IsKept (field bs) l e = cc
  grown-IsKept (outer a bs) l e = cc
  grown-IsKept (indirect c o) l e = λ q.
      let (c', o') = same-indirect_at (used - 1) c off (o + l) e in
      (
        omega arith,
        rw (← c', chunk_bytes-overwrite chunks (used - 1) off new (omega arith))
            (omega (arith, length-write_at off new (chunk_bytes chunks (used - 1)) w)),
        λ e. omega arith,
      )

  grown-IsLast :
      (m : Mem) (l : ℕ)
      → same (indirect_at (used - 1) off) (advance (place m) l) ≡ true
      → indirect_at (used - 1) (off + length new)
        ≡ advance (place (extend m l (indirect (used - 1) off))) (l + length new)
  grown-IsLast header l e = cc
  grown-IsLast (field bs) l e = cc
  grown-IsLast (outer a bs) l e = cc
  grown-IsLast (indirect c o) l e =
      let (c', o') = same-indirect_at (used - 1) c off (o + l) e in ap₂ indirect_at c' (omega arith)

  written-IsChunk :
      All IsChunk chunks
      → off + length new ≤ (get_or chunks (used - 1) no_chunk).size
      → All IsChunk (overwrite chunks (used - 1) off new)
  written-IsChunk a r =
      let q = All-get_or IsChunk chunks (used - 1) no_chunk a (omega arith) in
      All-set IsChunk chunks (used - 1) _ a
        (q.0, q.1, omega (arith, q.2, length-write_at off new (chunk_bytes chunks (used - 1)) w))

-- The two branches of append_real under put_indirect.
abbrev is_next : SendBuffer → Bool
is_next b =
    not (length b.iovecs == 0) && same (indirect_at (b.num_indirects_used - 1) b.indirect) b.lastptr

abbrev put_with : SendBuffer → List ℕ → List IoVec → ℕ → SendBuffer
put_with b new iovecs num_alloced = record b {
  indirects = overwrite b.indirects (b.num_indirects_used - 1) b.indirect new;
  iovecs = iovecs;
  num_alloced = num_alloced;
  msg_header = record b.msg_header {
    message_size = (b.msg_header.message_size + length new) % u32_mod;
  };
  lastptr = indirect_at (b.num_indirects_used - 1) (b.indirect + length new);
  indirect = b.indirect + length new;
  indirect_left = sub64 b.indirect_left (length new);
}

put_new :
    (b : SendBuffer) (new : List ℕ)
    → is_next b ≡ false
    → put_indirect b new
      ≡ put_with b new
          (record {
            iov_base = indirect (b.num_indirects_used - 1) b.indirect;
            iov_len = length new;
          }
            ∷ b.iovecs)
          (if leb b.num_alloced (length b.iovecs) then max b.num_alloced 4 * 2 else b.num_alloced)
unfolding put_indirect
put_new b new e = rw (e, append_real)

put_grown :
    (b : SendBuffer) (new : List ℕ) (vs : List IoVec)
    → b.iovecs ≡ vs
    → is_next b ≡ true
    → put_indirect b new
      ≡ put_with b new
          (grow_last vs (indirect (b.num_indirects_used - 1) b.indirect) (length new))
          b.num_alloced
unfolding put_indirect
put_grown b new vs i e =
    rw (e, append_real)
      (ap
        (λ t.
          put_with b new (grow_last t (indirect (b.num_indirects_used - 1) b.indirect) (length new))
            b.num_alloced)
        i)

sub64-le : (a n : ℕ) → n ≤ a → a < u64_mod → sub64 a n ≡ a - n
sub64-le a n h k = omega arith

module _ (host : Endian) (b : SendBuffer) (new : List ℕ) (v : IsValid b)
    (r : HasRoom b (length new)) where
  off≤ : b.indirect ≤ length (chunk_bytes b.indirects (b.num_indirects_used - 1))
  off≤ = v.within r.current

  left_bound : b.indirect + b.indirect_left < u64_mod
  left_bound = omega (
    arith,
    v.room r.current,
    (All-get_or IsChunk b.indirects (b.num_indirects_used - 1) no_chunk v.chunks
        (omega (arith, v.used, r.current))).1,
  )

  put_with-IsValid :
      (iovecs : List IoVec) (num_alloced : ℕ)
      → AreKept
          (overwrite b.indirects (b.num_indirects_used - 1) b.indirect new)
          b.num_indirects_used
          (b.indirect + length new)
          iovecs
      → IsLast (indirect_at (b.num_indirects_used - 1) (b.indirect + length new)) iovecs
      → length iovecs ≤ num_alloced
      → IsValid (put_with b new iovecs num_alloced)
  put_with-IsValid iovecs num_alloced k l a = record {
    kept = k;
    last = l;
    within = λ p.
        rw
          (chunk_bytes-overwrite b.indirects (b.num_indirects_used - 1) b.indirect new
            (omega (arith, v.used)))
          (omega (
            arith,
            length-write_at b.indirect new (chunk_bytes b.indirects (b.num_indirects_used - 1))
                off≤,
          ));
    room = λ p.
        rw
          (get_or-set_self b.indirects (b.num_indirects_used - 1) _ no_chunk
            (omega (arith, v.used, r.current)))
          (omega (arith, v.room p, r.fits, left_bound));
    no_room = λ e. absurd (omega (arith, r.current));
    used = rw length-set v.used;
    chunks =
        written-IsChunk host b.msg_header b.indirects b.num_indirects_used b.indirect new r.current
          v.used off≤ v.chunks (omega (arith, v.room r.current, r.fits));
    array = a;
    size = omega arith;
  }

  put_new-Writes : Writes host b new (
      put_with b new
        (record { iov_base = indirect (b.num_indirects_used - 1) b.indirect; iov_len = length new }
          ∷ b.iovecs)
        (if leb b.num_alloced (length b.iovecs) then max b.num_alloced 4 * 2 else b.num_alloced))
  put_new-Writes = record {
    valid =
        put_with-IsValid _ _
          (
            new-IsKept host b.msg_header b.indirects b.num_indirects_used b.indirect new r.current
                v.used off≤,
            written-AreKept host b.msg_header b.indirects b.num_indirects_used b.indirect new
                r.current v.used off≤ b.iovecs v.kept,
          )
          refl (ground (arith, v.array));
    gathered = λ h.
        ap₂ ◌++◌
          (gather-overwrite host h b.indirects b.num_indirects_used b.indirect new b.iovecs
            r.current v.used off≤ v.kept)
          (rw
            (chunk_bytes-overwrite b.indirects (b.num_indirects_used - 1) b.indirect new
              (omega (arith, v.used, r.current)))
            (take-written b.indirect new _ off≤));
    grown = refl;
    kept_size = refl;
    used_le = omega arith;
  }

  put_grown-Writes :
      (x : IoVec) (xs : List IoVec)
      → b.iovecs ≡ x ∷ xs
      → same
          (indirect_at (b.num_indirects_used - 1) b.indirect)
          (advance (place x.iov_base) x.iov_len)
        ≡ true
      → AreKept b.indirects b.num_indirects_used b.indirect (x ∷ xs)
      → Writes host b new (
          put_with b new
            (grow_last (x ∷ xs) (indirect (b.num_indirects_used - 1) b.indirect) (length new))
            b.num_alloced)
  put_grown-Writes x xs e s (k, ks) = record {
    valid =
        put_with-IsValid _ _
          (
            grown-IsKept host b.msg_header b.indirects b.num_indirects_used b.indirect new r.current
                v.used off≤ x.iov_base x.iov_len s,
            written-AreKept host b.msg_header b.indirects b.num_indirects_used b.indirect new
                r.current v.used off≤ xs ks,
          )
          (grown-IsLast host b.msg_header b.indirects b.num_indirects_used b.indirect new r.current
            v.used off≤ x.iov_base x.iov_len s)
          (omega (arith, v.array, ap length e));
    gathered = λ h. rw e (
        ap₂ ◌++◌
          (gather-overwrite host h b.indirects b.num_indirects_used b.indirect new xs r.current
            v.used off≤ ks)
          (grow_take host h b.indirects b.num_indirects_used b.indirect new r.current v.used off≤
            x.iov_base x.iov_len s)
        ∙ sym (append_assoc (gather host h b.indirects xs) _ new));
    grown = refl;
    kept_size = refl;
    used_le = omega arith;
  }

  put_cases :
      (vs : List IoVec)
      → b.iovecs ≡ vs
      → AreKept b.indirects b.num_indirects_used b.indirect vs
      → IsLast b.lastptr vs
      → Writes host b new (put_indirect b new)
  put_cases [] e k l = rw (put_new b new (rw e)) put_new-Writes
  put_cases (x ∷ xs) e k l =
      elim (Bool-cases (same (indirect_at (b.num_indirects_used - 1) b.indirect) b.lastptr)) [
        | inl s ↦
            rw (put_grown b new (x ∷ xs) e (rw (e, s) (ground arith)))
              (put_grown-Writes x xs e (rw l at s) k)
        | inr s ↦ rw (put_new b new (rw (e, s) (ground arith))) put_new-Writes
      ]

-- A write to a chunk that has room appends the bytes to the message.
pub put_indirect-Writes :
    (host : Endian) (b : SendBuffer) (new : List ℕ)
    → IsValid b
    → HasRoom b (length new)
    → Writes host b new (put_indirect b new)
put_indirect-Writes host b new v r = put_cases host b new v r b.iovecs refl v.kept v.last
