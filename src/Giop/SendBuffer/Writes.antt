-- ===== src/Giop/SendBuffer/Writes.antt =====
-- What each operation of giop-send-buffer.c appends to the message.
use mate_corba.Prelude.{
  ℕ, zero, suc, ◌+◌, ◌-◌, ◌%◌, ◌≤◌, ◌<◌, ◌≡◌, refl, sym, ap, ◌∙◌, inl, inr, arith, List, [], ◌∷◌,
  ◌++◌, length, take, drop, get_or, All, All-get_or, All-append, u32_mod, u64_mod, Endian,
  append_assoc, append-nil, Bool, true, false, Bool-cases, if◌then◌else◌, leb, get_or-append_left,
  length-append, length-replicate, bit_and-high,
}
use mate_corba.Giop.Types.{MsgHeader}
use mate_corba.Giop.SendBuffer.Memory.{
  Mem, header, field, outer, indirect, IoVec, IndirectChunk, no_chunk, SendBuffer, chunk_bytes,
  contents, gather,
}
use mate_corba.Giop.SendBuffer.Defs.{
  giop_chunk_size, new_chunk_size, get_next_indirect, fresh_chunk,
}
use mate_corba.Giop.SendBuffer.Invariant.{IsKept, AreKept, IsChunk, IsValid}
use mate_corba.Giop.SendBuffer.Put.{Writes, HasRoom}

-- Writes follow one another.
pub Writes-trans :
    (host : Endian) (a b c : SendBuffer) (xs ys : List ℕ)
    → Writes host a xs b
    → Writes host b ys c
    → Writes host a (xs ++ ys) c
Writes-trans host a b c xs ys p q = record {
  valid = q.valid;
  gathered = λ h. q.gathered h ∙ ap (λ t. t ++ ys) (p.gathered h) ∙ append_assoc _ xs ys;
  grown =
      q.grown
      ∙ ap (λ (h : MsgHeader). record h { message_size = (h.message_size + length ys) % u32_mod })
          p.grown
      ∙ ap (λ n. record a.msg_header { message_size = n }) (omega (arith, length-append xs ys));
  kept_size = q.kept_size ∙ p.kept_size;
  used_le = omega (arith, p.used_le, q.used_le);
}

new_chunk_size_bounds :
    (hint : ℕ) → (giop_chunk_size ≤ new_chunk_size hint) × (new_chunk_size hint < u64_mod)
unfolding new_chunk_size
new_chunk_size_bounds hint = ground (arith, bit_and-high ((hint + 7) % u64_mod) 3 61)

-- The chunk that becomes current, and what get_next_indirect does to the array of chunks.
next_chunks : Bool → SendBuffer → ℕ → List IndirectChunk
next_chunks blank b hint =
    if leb (length b.indirects) b.num_indirects_used
    then b.indirects ++ (fresh_chunk blank (new_chunk_size hint) ∷ [])
    else b.indirects

fresh-IsChunk : (blank : Bool) (hint : ℕ) → IsChunk (fresh_chunk blank (new_chunk_size hint))
fresh-IsChunk true hint =
    omega (arith, new_chunk_size_bounds hint, length-replicate {0} {A = ℕ} (new_chunk_size hint) 0)
fresh-IsChunk false hint = omega (arith, new_chunk_size_bounds hint)

next_chunks-IsChunk :
    (blank : Bool) (b : SendBuffer) (hint : ℕ)
    → All IsChunk b.indirects
    → All IsChunk (next_chunks blank b hint)
unfolding next_chunks
next_chunks-IsChunk blank b hint a =
    elim (Bool-cases (leb (length b.indirects) b.num_indirects_used)) [
      | inl e ↦ rw e (All-append IsChunk b.indirects _ a (fresh-IsChunk blank hint, tt))
      | inr e ↦ rw e a
    ]

-- The array reaches the chunk that becomes current, and keeps the chunks that it had.
next_chunks-lt :
    (blank : Bool) (b : SendBuffer) (hint : ℕ)
    → b.num_indirects_used ≤ length b.indirects
    → b.num_indirects_used < length (next_chunks blank b hint)
unfolding next_chunks
next_chunks-lt blank b hint h =
    ground (arith, length-append b.indirects (fresh_chunk blank (new_chunk_size hint) ∷ []))

next_chunks_same :
    (blank : Bool) (b : SendBuffer) (hint c : ℕ)
    → c < length b.indirects
    → get_or (next_chunks blank b hint) c no_chunk ≡ get_or b.indirects c no_chunk
unfolding next_chunks
next_chunks_same blank b hint c h = ground (
  arith,
  get_or-append_left b.indirects (fresh_chunk blank (new_chunk_size hint) ∷ []) c no_chunk,
)

next_bytes :
    (blank : Bool) (b : SendBuffer) (hint c : ℕ)
    → c < length b.indirects
    → chunk_bytes (next_chunks blank b hint) c ≡ chunk_bytes b.indirects c
next_bytes blank b hint c h =
    ap (λ (x : IndirectChunk). x.bytes) (next_chunks_same blank b hint c h)

module _ (blank : Bool) (b : SendBuffer) (hint : ℕ)
    (u : b.num_indirects_used ≤ length b.indirects) where
  next-IsKept :
      (m : Mem) (l : ℕ)
      → IsKept b.indirects b.num_indirects_used b.indirect m l
      → IsKept (next_chunks blank b hint) (b.num_indirects_used + 1) 0 m l
  next-IsKept header l k = tt
  next-IsKept (field bs) l k = tt
  next-IsKept (outer a bs) l k = k
  next-IsKept (indirect c o) l k = λ q. (
    omega (arith, (k q).0),
    omega (arith, (k q).1, ap length (next_bytes blank b hint c (omega (arith, (k q).0)))),
    λ e. absurd (omega (arith, (k q).0)),
  )

  next-AreKept :
      (vs : List IoVec)
      → AreKept b.indirects b.num_indirects_used b.indirect vs
      → AreKept (next_chunks blank b hint) (b.num_indirects_used + 1) 0 vs
  next-AreKept [] k = tt
  next-AreKept (v ∷ vs) (k, ks) = (next-IsKept v.iov_base v.iov_len k, next-AreKept vs ks)

  next_take :
      (host : Endian) (h : MsgHeader) (m : Mem) (l : ℕ)
      → IsKept b.indirects b.num_indirects_used b.indirect m l
      → take l (contents host h (next_chunks blank b hint) m)
        ≡ take l (contents host h b.indirects m)
  next_take host h header l k = refl
  next_take host h (field bs) l k = refl
  next_take host h (outer a bs) l k = refl
  next_take host h (indirect c o) zero k = refl
  next_take host h (indirect c o) (suc l) k =
      ap (λ t. take (suc l) (drop o t))
        (next_bytes blank b hint c (omega (arith, (k (omega arith)).0)))

  next_gather :
      (host : Endian) (h : MsgHeader) (vs : List IoVec)
      → AreKept b.indirects b.num_indirects_used b.indirect vs
      → gather host h (next_chunks blank b hint) vs ≡ gather host h b.indirects vs
  next_gather host h [] k = refl
  next_gather host h (v ∷ vs) (k, ks) =
      rw (next_gather host h vs ks, next_take host h v.iov_base v.iov_len k)

get_next_indirect_lem :
    (blank : Bool) (b : SendBuffer) (hint : ℕ)
    → get_next_indirect blank b hint ≡ record b {
      indirects = next_chunks blank b hint;
      indirect = 0;
      indirect_left = (get_or (next_chunks blank b hint) b.num_indirects_used no_chunk).size;
      num_indirects_used = b.num_indirects_used + 1;
    }
unfolding get_next_indirect next_chunks
get_next_indirect_lem blank b hint = refl

-- get_next_indirect adds nothing to the message, keeps a well-formed buffer well-formed whether
-- it takes a recycled chunk or a new one, and leaves room for a chunk's standard size.
pub get_next_indirect-Writes :
    (host : Endian) (blank : Bool) (b : SendBuffer) (hint : ℕ)
    → IsValid b
    → Writes host b [] (get_next_indirect blank b hint)
      × HasRoom (get_next_indirect blank b hint) giop_chunk_size
get_next_indirect-Writes host blank b hint v =
    let e : b.num_indirects_used + 1 - 1 ≡ b.num_indirects_used = omega arith in
    let new =
      All-get_or IsChunk (next_chunks blank b hint) b.num_indirects_used no_chunk
        (next_chunks-IsChunk blank b hint v.chunks) (next_chunks-lt blank b hint v.used) in
    rw get_next_indirect_lem (
      record {
        valid = record {
          kept = next-AreKept blank b hint v.used b.iovecs v.kept;
          last = v.last;
          within = λ p. omega arith;
          room = λ p. rw e (omega arith);
          no_room = λ p. absurd (omega arith);
          used = omega (arith, next_chunks-lt blank b hint v.used);
          chunks = next_chunks-IsChunk blank b hint v.chunks;
          array = v.array;
          size = v.size;
        };
        gathered = λ h. next_gather blank b hint v.used host h b.iovecs v.kept ∙ sym (append-nil _);
        grown = ap (λ n. record b.msg_header { message_size = n }) (omega (arith, v.size));
        kept_size = refl;
        used_le = omega arith;
      },
      record { current = omega arith; fits = omega (arith, new.0) },
    )
