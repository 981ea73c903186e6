-- ===== src/Giop/SendBuffer/Append.antt =====
-- giop_send_buffer_append and its callers: each appends the bytes that it is given.
use Prim.Native.Nat.{max}
use mate_corba.Prelude.{
  ℕ, zero, suc, ◌+◌, ◌-◌, ◌*◌, ◌%◌, ◌≤◌, ◌<◌, ◌≡◌, refl, sym, ap, ◌∙◌, inl, inr, arith, List, [],
  ◌∷◌, ◌++◌, length, take, u32_mod, Endian, append_assoc, append-nil, Bool, true, false, not, ◌&&◌,
  ◌==◌, Bool-cases, if◌then◌else◌, leb, ltb, le→leb, leb→le, length-append, length-replicate,
  replicate, u32_bytes, length-u32_bytes, take-append, length-take, take-all,
}
use mate_corba.Giop.Align.{align_value, IsBoundary, align_value_lem}
use mate_corba.Giop.Types.{MsgHeader}
use mate_corba.Giop.SendBuffer.Memory.{
  Mem, header, field, outer, indirect, outer_at, place, advance, same, IoVec, SendBuffer, contents,
  gather,
}
use mate_corba.Giop.SendBuffer.Defs.{
  giop_chunk_size, extend, grow_last, append_real, put_indirect, sub64, get_next_indirect,
  append_copy, append, align, append_aligned, append_string, caller_bytes,
}
use mate_corba.Giop.SendBuffer.Invariant.{IsKept, AreKept, IsLast, IsValid}
use mate_corba.Giop.SendBuffer.Put.{Writes, put_indirect-Writes}
use mate_corba.Giop.SendBuffer.Writes.{Writes-trans, get_next_indirect-Writes}

-- Taking a chunk if the current one has no room, and then writing to it.
put_somewhere-Writes :
    (host : Endian) (blank : Bool) (b : SendBuffer) (hint : ℕ) (new : List ℕ)
    → IsValid b
    → 0 < b.num_indirects_used + length new
    → length new ≤ giop_chunk_size
    → Writes host b new (
        put_indirect
          (if ltb b.indirect_left (length new) then get_next_indirect blank b hint else b)
          new)
put_somewhere-Writes host blank b hint new v p l =
    elim (Bool-cases (ltb b.indirect_left (length new))) [
      | inl e ↦
          let (w, r) = get_next_indirect-Writes host blank b hint v in
          rw e (
            Writes-trans host b (get_next_indirect blank b hint) _ [] new w (
              put_indirect-Writes host _ new w.valid
                (record { current = r.current; fits = omega (arith, r.fits) })))
      | inr e ↦ rw e (
          put_indirect-Writes host b new v
            (record { current = ground (arith, v.no_room); fits = ground arith }))
    ]

-- giop_send_buffer_append_copy, of at least a byte unless a chunk is in use, and no more than a
-- chunk holds.
pub append_copy-Writes :
    (host : Endian) (blank : Bool) (b : SendBuffer) (new : List ℕ)
    → IsValid b
    → 0 < b.num_indirects_used + length new
    → length new ≤ giop_chunk_size
    → Writes host b new (append_copy blank b new)
unfolding append_copy
append_copy-Writes host blank b new v p l = put_somewhere-Writes host blank b (length new) new v p l

abbrev real_with : SendBuffer → ℕ → ℕ → List IoVec → ℕ → SendBuffer
real_with b a n iovecs array = record b {
  iovecs = iovecs;
  num_alloced = array;
  msg_header = record b.msg_header { message_size = (b.msg_header.message_size + n) % u32_mod };
  lastptr = outer_at (a + n);
}

real_new :
    (b : SendBuffer) (a : ℕ) (bs : List ℕ)
    → (not (length b.iovecs == 0) && same (outer_at a) b.lastptr) ≡ false
    → append_real b (outer a bs) (length bs)
      ≡ real_with b a
          (length bs)
          (record { iov_base = outer a bs; iov_len = length bs } ∷ b.iovecs)
          (if leb b.num_alloced (length b.iovecs) then max b.num_alloced 4 * 2 else b.num_alloced)
unfolding append_real
real_new b a bs e = rw e

real_grown :
    (b : SendBuffer) (a : ℕ) (bs : List ℕ) (vs : List IoVec)
    → b.iovecs ≡ vs
    → (not (length b.iovecs == 0) && same (outer_at a) b.lastptr) ≡ true
    → append_real b (outer a bs) (length bs)
      ≡ real_with b a (length bs) (grow_last vs (outer a bs) (length bs)) b.num_alloced
unfolding append_real
real_grown b a bs vs i e =
    rw e
      (ap (λ t. real_with b a (length bs) (grow_last t (outer a bs) (length bs)) b.num_alloced) i)

-- The caller's memory, appended by reference.
module _ (host : Endian) (b : SendBuffer) (a : ℕ) (bs : List ℕ) (v : IsValid b) where
  outer_new-Writes :
      (array : ℕ)
      → suc (length b.iovecs) ≤ array
      → Writes host b bs (record b {
        iovecs = record { iov_base = outer a bs; iov_len = length bs } ∷ b.iovecs;
        num_alloced = array;
        msg_header = record b.msg_header {
          message_size = (b.msg_header.message_size + length bs) % u32_mod;
        };
        lastptr = outer_at (a + length bs);
      })
  outer_new-Writes array l = record {
    valid = record {
      kept = (omega arith, v.kept);
      last = refl;
      within = v.within;
      room = v.room;
      no_room = v.no_room;
      used = v.used;
      chunks = v.chunks;
      array = l;
      size = omega arith;
    };
    gathered = λ h.
        ap (◌++◌ (gather host h b.indirects b.iovecs))
          (ap (take (length bs)) (sym (append-nil bs)) ∙ take-append bs []);
    grown = refl;
    kept_size = refl;
    used_le = omega arith;
  }

  take_whole : (xs : List ℕ) (n : ℕ) → n ≡ length xs → take n xs ≡ xs
  take_whole xs n e = rw e (ap (take (length xs)) (sym (append-nil xs)) ∙ take-append xs [])

  outer_take :
      (h : MsgHeader) (m : Mem) (l : ℕ)
      → same (outer_at a) (advance (place m) l) ≡ true
      → IsKept b.indirects b.num_indirects_used b.indirect m l
      → take (l + length bs) (contents host h b.indirects (extend m l (outer a bs)))
        ≡ take l (contents host h b.indirects m) ++ bs
  outer_take h header l e k = cc
  outer_take h (field cs) l e k = cc
  outer_take h (indirect c o) l e k = cc
  outer_take h (outer d cs) l e k =
      take_whole (take l cs ++ bs) (l + length bs)
        (omega (arith, length-append (take l cs) bs, length-take l cs k))

  outer-IsKept :
      (m : Mem) (l : ℕ)
      → same (outer_at a) (advance (place m) l) ≡ true
      → IsKept b.indirects b.num_indirects_used b.indirect m l
      → IsKept b.indirects b.num_indirects_used b.indirect (extend m l (outer a bs)) (l + length bs)
  outer-IsKept header l e k = cc
  outer-IsKept (field cs) l e k = cc
  outer-IsKept (indirect c o) l e k = cc
  outer-IsKept (outer d cs) l e k = omega (arith, length-append (take l cs) bs, length-take l cs k)

  outer-IsLast :
      (m : Mem) (l : ℕ)
      → same (outer_at a) (advance (place m) l) ≡ true
      → outer_at (a + length bs) ≡ advance (place (extend m l (outer a bs))) (l + length bs)
  outer-IsLast header l e = cc
  outer-IsLast (field cs) l e = cc
  outer-IsLast (indirect c o) l e = cc
  outer-IsLast (outer d cs) l e = ap outer_at (ground arith)

  outer_grown-Writes :
      (x : IoVec) (xs : List IoVec)
      → b.iovecs ≡ x ∷ xs
      → same (outer_at a) (advance (place x.iov_base) x.iov_len) ≡ true
      → AreKept b.indirects b.num_indirects_used b.indirect (x ∷ xs)
      → Writes host b bs (record b {
        iovecs = grow_last (x ∷ xs) (outer a bs) (length bs);
        msg_header = record b.msg_header {
          message_size = (b.msg_header.message_size + length bs) % u32_mod;
        };
        lastptr = outer_at (a + length bs);
      })
  outer_grown-Writes x xs e s (k, ks) = record {
    valid = record {
      kept = (outer-IsKept x.iov_base x.iov_len s k, ks);
      last = outer-IsLast x.iov_base x.iov_len s;
      within = v.within;
      room = v.room;
      no_room = v.no_room;
      used = v.used;
      chunks = v.chunks;
      array = omega (arith, v.array, ap length e);
      size = omega arith;
    };
    gathered = λ h. rw e (
        ap (◌++◌ (gather host h b.indirects xs)) (outer_take h x.iov_base x.iov_len s k)
        ∙ sym (append_assoc (gather host h b.indirects xs) _ bs));
    grown = refl;
    kept_size = refl;
    used_le = omega arith;
  }

  outer_cases :
      (vs : List IoVec)
      → b.iovecs ≡ vs
      → AreKept b.indirects b.num_indirects_used b.indirect vs
      → IsLast b.lastptr vs
      → Writes host b bs (append_real b (outer a bs) (length bs))
  outer_cases [] e k l = rw (real_new b a bs (rw e)) (outer_new-Writes _ (ground (arith, v.array)))
  outer_cases (x ∷ xs) e k l = elim (Bool-cases (same (outer_at a) b.lastptr)) [
    | inl s ↦
        rw (real_grown b a bs (x ∷ xs) e (rw (e, s) (ground arith)))
          (outer_grown-Writes x xs e (rw l at s) k)
    | inr s ↦
        rw (real_new b a bs (rw (e, s) (ground arith)))
          (outer_new-Writes _ (ground (arith, v.array)))
  ]

-- What giop_send_buffer_append is given: memory of the caller, or the value of a field.
abbrev pub IsSource : Mem → Type 0
IsSource header = ⊥
IsSource (field bs) = length bs ≤ 32
IsSource (outer a bs) = Unit {0}
IsSource (indirect c o) = ⊥

-- append of memory that the caller owns or of a field, to a well-formed buffer that has a chunk
-- or for data that is not empty, adds exactly those bytes at the end of what the buffer's
-- entries gather, adds their number to message_size modulo 2^32, and keeps the buffer well-
-- formed.
pub append-Writes :
    (host : Endian) (blank : Bool) (b : SendBuffer) (m : Mem)
    → IsValid b
    → IsSource m
    → 0 < b.num_indirects_used + length (caller_bytes m)
    → Writes host b (caller_bytes m) (append blank b m)
unfolding append
append-Writes host blank b header v s p = absurd s
append-Writes host blank b (indirect c o) v s p = absurd s
append-Writes host blank b (field bs) v s p =
    rw (le→leb (length bs) 32 s) (append_copy-Writes host blank b bs v p (omega arith))
append-Writes host blank b (outer a bs) v s p = elim (Bool-cases (leb (length bs) 32)) [
  | inl e ↦ rw e (append_copy-Writes host blank b bs v p (omega (arith, leb→le _ _ e)))
  | inr e ↦ rw e (outer_cases host b a bs v b.iovecs refl v.kept v.last)
]

-- The distance from the end of the message, its header included, to the next multiple of a boundary.
unfoldable pub padding : ℕ → ℕ → ℕ
padding n boundary = align_value n boundary - n

-- The length of the message so far.
abbrev pub message_end : SendBuffer → ℕ
message_end b = (b.msg_header.message_size + b.header_size) % u32_mod

padding-lt : (n b : ℕ) → IsBoundary b → n < u32_mod → padding n b < b
unfolding padding
padding-lt n b i h = omega (arith, align_value_lem n b i (omega arith))

boundary-le : (b : ℕ) → IsBoundary b → (2 ≤ b) × (b ≤ 8)
boundary-le b i = ground arith

pub Writes-nil : (host : Endian) (b : SendBuffer) → IsValid b → Writes host b [] b
Writes-nil host b v = record {
  valid = v;
  gathered = λ h. sym (append-nil _);
  grown = ap (λ n. record b.msg_header { message_size = n }) (omega (arith, v.size));
  kept_size = refl;
  used_le = omega arith;
}

pad_cases :
    (host : Endian) (blank : Bool) (b : SendBuffer) (amt : ℕ)
    → IsValid b
    → amt ≤ 8
    → Writes host b (replicate amt 0) (
        if amt == 0
        then b
        else put_indirect
            (if ltb b.indirect_left amt then get_next_indirect blank b 0 else b)
            (replicate amt 0))
pad_cases host blank b zero v l = Writes-nil host b v
pad_cases host blank b (suc n) v l =
    let q : length {A = ℕ} (replicate (suc n) 0) ≡ suc n = length-replicate (suc n) 0 in
    let t : (suc n == 0) ≡ false = ground arith in
    rw t (
      rw q at (
        put_somewhere-Writes host blank b 0 (replicate (suc n) 0) v (omega arith)
          (omega (arith, q))))

-- align of a well-formed buffer to two, four or eight adds exactly the zeros that reach the
-- boundary and keeps the buffer well-formed.
pub align-Writes :
    (host : Endian) (blank : Bool) (b : SendBuffer) (boundary : ℕ)
    → IsValid b
    → IsBoundary boundary
    → Writes host b (replicate (padding (message_end b) boundary) 0) (align blank b boundary)
unfolding align padding
align-Writes host blank b boundary v i =
    let ms = message_end b in
    let a = align_value_lem ms boundary i (omega arith) in
    let le = boundary-le boundary i in
    let e : sub64 (align_value ms boundary) ms ≡ align_value ms boundary - ms =
      omega (arith, a, le) in
    rw e (pad_cases host blank b (align_value ms boundary - ms) v (omega (arith, a, le)))

-- append_aligned of two, four or eight bytes to a well-formed buffer adds zeros up to the
-- boundary of that size, counted from the start of the message, and then exactly those bytes,
-- and keeps the buffer well-formed.
pub append_aligned-Writes :
    (host : Endian) (blank : Bool) (b : SendBuffer) (new : List ℕ)
    → IsValid b
    → IsBoundary (length new)
    → Writes host b
        (replicate (padding (message_end b) (length new)) 0 ++ new)
        (append_aligned blank b new)
unfolding append_aligned
append_aligned-Writes host blank b new v i =
    let w = align-Writes host blank b (length new) v i in
    let le = boundary-le (length new) i in
    Writes-trans host b (align blank b (length new)) _ _ new w (
      put_somewhere-Writes host blank (align blank b (length new)) 0 new w.valid (omega (arith, le))
        (omega (arith, le)))

used_pos : (b : SendBuffer) → IsValid b → 0 < b.indirect_left → 0 < b.num_indirects_used
used_pos b v h = ground (arith, v.no_room)

-- append_string of a text with its NUL, shorter than 2^32 - 4, to a well-formed buffer adds
-- zeros up to a multiple of four, the length and the text, whether it copies the text or points
-- to it, and keeps the buffer well-formed.
pub append_string-Writes :
    (host : Endian) (blank : Bool) (b : SendBuffer) (addr : ℕ) (str : List ℕ)
    → IsValid b
    → 0 < length str
    → 4 + length str < u32_mod
    → Writes host b
        (replicate (padding (message_end b) 4) 0 ++ (u32_bytes host (length str) ++ str))
        (append_string host blank b addr str)
unfolding append_string
append_string-Writes host blank b addr str v n small =
    let w = align-Writes host blank b 4 v (inr (inl refl)) in
    let aligned = align blank b 4 in
    let len = length-u32_bytes host (length str) in
    let same : length str % u32_mod ≡ length str = omega (arith, small) in
    let sum : (4 + length str) % u32_mod ≡ 4 + length str = omega (arith, small) in
    let whole : take (length str) str ≡ str = take-all (length str) str (omega arith) in
    let copied =
      append_copy-Writes host blank aligned (u32_bytes host (length str)) w.valid
        (omega (arith, len)) (omega (arith, len)) in
    rw (same, sum, whole)
      (Writes-trans host b aligned _ _ _ w
        (elim (Bool-cases (leb (4 + length str) aligned.indirect_left)) [
          | inl e ↦ rw e (
              put_indirect-Writes host aligned (u32_bytes host (length str) ++ str) w.valid
                (record {
                  current = used_pos aligned w.valid (omega (arith, leb→le _ _ e));
                  fits =
                      omega
                        (arith, leb→le _ _ e, length-append (u32_bytes host (length str)) str, len);
                }))
          | inr e ↦ rw e (
              Writes-trans host aligned _ _ (u32_bytes host (length str)) str copied
                (append-Writes host blank _ (outer addr str) copied.valid tt (omega arith)))
        ]))
