-- ===== src/Giop/Input/Concat.antt =====
-- What concat_frags of giop-recv-buffer.c puts together.
use mate_corba.Prelude.{
  ℕ, ◌+◌, ◌-◌, ◌%◌, ◌≤◌, ◌≡◌, refl, sym, ap, ◌∙◌, arith, List, [], ◌∷◌, ◌++◌, length, take, drop,
  replicate, ltb, false, some, append_assoc, append-nil, take-append, length-append, length-take,
  length-drop, length-replicate, take-drop_prefix,
}
use mate_corba.Giop.SendBuffer.Defs.{write_at}
use mate_corba.Giop.RecvBuffer.Reader.{ok, and_then-eq_of_ok, RecvBuffer}
use mate_corba.Giop.Input.Header.{alloc_buffer, resize}
use mate_corba.Giop.Input.Fragments.{Message, Frags, payload, copy_frags, concat_frags}

-- The payloads of the fragments, one behind the other.
unfoldable pub payloads : List Message → List ℕ
payloads [] = []
payloads (f ∷ fs) = payload f.buffer ++ payloads fs

take-write_at :
    (o : ℕ) (new block : List ℕ)
    → o + length new ≤ length block
    → take (o + length new) (write_at o new block) ≡ take o block ++ new
take-write_at o new block h =
    let front = take o block ++ new in
    let size : o + length new ≡ length front =
      omega (arith, length-append (take o block) new, length-take o block (omega arith)) in
    let e : write_at o new block ≡ front ++ drop (o + length new) block =
      sym (append_assoc (take o block) new _) in
    rw (e, size) (take-append front _)

length-write_at :
    (o : ℕ) (new block : List ℕ)
    → o + length new ≤ length block
    → length (write_at o new block) ≡ length block
length-write_at o new block h = omega (
  arith,
  length-append (take o block) (new ++ drop (o + length new) block),
  length-append new (drop (o + length new) block),
  length-take o block (omega arith),
  length-drop (o + length new) block,
)

-- The loop puts the payloads behind what is there, when the block has room for them.
pub copy_frags_lem :
    (fs : List Message) (ptr : ℕ) (block : List ℕ)
    → ptr + length (payloads fs) ≤ length block
    → (block' : List ℕ) × (copy_frags fs ptr block ≡ ok (block', ptr + length (payloads fs)))
      × (take (ptr + length (payloads fs)) block' ≡ take ptr block ++ payloads fs)
      × (length block' ≡ length block)
unfolding copy_frags payloads
copy_frags_lem [] ptr block h =
    let e : ptr + 0 ≡ ptr = omega arith in
    (block, rw e refl, rw (e, append-nil (take ptr block)) refl, refl)
copy_frags_lem (f ∷ fs) ptr block h =
    let bytes = payload f.buffer in
    let sum = length-append bytes (payloads fs) in
    let written = write_at ptr bytes block in
    let kept = length-write_at ptr bytes block (omega arith) in
    let (block', run, taken, size) = copy_frags_lem fs (ptr + length bytes) written (omega arith) in
    let no_fault : ltb (length block) (ptr + length bytes) ≡ false = ground arith in
    let total : ptr + length (bytes ++ payloads fs) ≡ ptr + length bytes + length (payloads fs) =
      omega arith in
    (
      block',
      rw (no_fault, total) run,
      rw total (
          taken
          ∙ ap (λ x. x ++ payloads fs) (take-write_at ptr bytes block (omega arith))
          ∙ append_assoc (take ptr block) bytes (payloads fs)),
      size ∙ kept,
    )

-- A list whose head tracks the length of the whole: its own body was read in full, up to a place
-- behind the room for a header, and its message_size counts what the fragments brought since.
pub record IsTracked (frags : Frags) : Type 0 where
  pub low : 12 + frags.head.buffer.base ≤ frags.head.buffer.cur
  pub within : frags.head.buffer.cur ≤ frags.head.buffer.end
  pub held : frags.head.buffer.end ≡ frags.head.buffer.base + length frags.head.buffer.memory
  pub tracked :
      frags.head.buffer.msg_header.message_size + 12
      ≡ length frags.head.buffer.memory + length (payloads frags.rest)

-- Growing a block keeps what was in it.
resize_front :
    (junk n : ℕ) (old : List ℕ) → length old ≤ n → take (length old) (resize junk n old) ≡ old
resize_front junk n old h =
    let all : length (old ++ replicate n junk) ≡ length old + n =
      omega (arith, length-append old (replicate n junk), length-replicate n junk) in
    ap (take (length old)) (sym (append-nil (resize junk n old)))
    ∙ take-drop_prefix (length old) 0 n (old ++ replicate n junk) [] (omega arith) (omega arith)
    ∙ take-append old (replicate n junk)

alloc_buffer-aligned :
    (addr junk : ℕ) (b : RecvBuffer) (old : List ℕ) (n : ℕ)
    → addr % 4 ≡ 0
    → alloc_buffer (some addr) junk b old n
      ≡ ok (record b {
        base = addr;
        memory = resize junk (n + 12) old;
        cur = addr + 12;
        end = addr + 12 + n;
      })
unfolding alloc_buffer
alloc_buffer-aligned addr junk b old n a = rw a refl

-- Where the allocator gives an address aligned to four, and the head of a list of fragments was
-- read in full and tracks in its message_size the length of the whole, concat_frags succeeds
-- without a write beyond the block: from message_body to end lie the head's bytes and then the
-- payloads of the fragments in order, and the read position keeps its distance from the start.
pub concat_frags_lem :
    (addr junk : ℕ) (frags : Frags)
    → addr % 4 ≡ 0
    → IsTracked frags
    → (whole : Message) × (concat_frags (some addr) junk frags ≡ ok whole)
      × (take (whole.buffer.end - whole.buffer.base) whole.buffer.memory
          ≡ frags.head.buffer.memory ++ payloads frags.rest)
      × (whole.buffer.end
          ≡ whole.buffer.base + length (frags.head.buffer.memory ++ payloads frags.rest))
      × (whole.buffer.cur - whole.buffer.base ≡ frags.head.buffer.cur - frags.head.buffer.base)
unfolding concat_frags alloc_buffer
concat_frags_lem addr junk frags a i =
    let head = frags.head.buffer in
    let old = head.memory in
    let offset = head.cur - head.base in
    let size = head.msg_header.message_size + offset - 12 in
    let block = resize junk (size + 12) old in
    let room : length block ≡ size + 12 =
      length-take (size + 12) (old ++ replicate (size + 12) junk) (
        omega (
          arith,
          length-append old (replicate (size + 12) junk),
          length-replicate (size + 12) junk,
        )) in
    let start : offset + (head.end - head.cur) ≡ length old =
      omega (arith, i.low, i.within, i.held) in
    let (block', run, taken, _) =
      copy_frags_lem frags.rest (length old) block
        (omega (arith, i.low, i.tracked, i.within, i.held, room)) in
    let copied : copy_frags frags.rest (offset + (head.end - head.cur)) block
        ≡ ok (block', length old + length (payloads frags.rest)) =
      rw start run in
    let total = length-append old (payloads frags.rest) in
    let front =
      resize_front junk (size + 12) old (omega (arith, i.low, i.tracked, i.within, i.held)) in
    let end : addr + (length old + length (payloads frags.rest)) - addr
        ≡ length old + length (payloads frags.rest) =
      omega arith in
    (
      record frags.head {
        buffer = record head {
          base = addr;
          memory = block';
          cur = addr + offset;
          end = addr + (length old + length (payloads frags.rest));
        };
      },
      and_then-eq_of_ok (alloc_buffer (some addr) junk head old size) _
          (alloc_buffer-aligned addr junk head old size a)
          (and_then-eq_of_ok (copy_frags frags.rest (offset + (head.end - head.cur)) block) _ copied
            refl),
      rw end (taken ∙ ap (λ x. x ++ payloads frags.rest) front),
      omega (arith, total),
      omega arith,
    )
