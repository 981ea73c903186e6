-- ===== src/Giop/SendBuffer/Defs.antt =====
-- The operations of giop-send-buffer.c that grow a buffer.
use Prim.Native.Nat.{bit_and, max}
use mate_corba.Prelude.{
  ℕ, ◌+◌, ◌-◌, ◌*◌, ◌%◌, Bool, not, ◌&&◌, List, [], ◌∷◌, ◌++◌, ◌==◌, ltb, leb, if◌then◌else◌,
  length, take, drop, get_or, set, replicate, u32_mod, u64_mod, Endian, u32_bytes,
}
use mate_corba.Giop.Align.{align_value}
use mate_corba.Giop.Types.{MsgHeader}
use mate_corba.Giop.SendBuffer.Memory.{
  Mem, field, outer, indirect, place, advance, same, IoVec, IndirectChunk, no_chunk, SendBuffer,
}

-- GIOP_CHUNK_SIZE
abbrev pub giop_chunk_size : ℕ
giop_chunk_size = 8 * 256

-- A base whose iov_len grows from `len` by the memory at `mem`, which follows it.
abbrev pub extend : Mem → ℕ → Mem → Mem
extend (outer a bs) len (outer b cs) = outer a (take len bs ++ cs)
extend base len mem = base

abbrev pub grow_last : List IoVec → Mem → ℕ → List IoVec
grow_last [] mem len = []
grow_last (v ∷ vs) mem len =
    record { iov_base = extend v.iov_base v.iov_len mem; iov_len = v.iov_len + len } ∷ vs

-- giop_send_buffer_append_real
unfoldable pub append_real : SendBuffer → Mem → ℕ → SendBuffer
append_real buf mem len =
    if not (length buf.iovecs == 0) && same (place mem) buf.lastptr
    then record buf {
      iovecs = grow_last buf.iovecs mem len;
      msg_header = grown;
      lastptr = advance (place mem) len;
    }
    else record buf {
      iovecs = record { iov_base = mem; iov_len = len } ∷ buf.iovecs;
      num_alloced =
          if leb buf.num_alloced (length buf.iovecs)
          then max buf.num_alloced 4 * 2
          else buf.num_alloced;
      msg_header = grown;
      lastptr = advance (place mem) len;
    }
  where
    grown : MsgHeader
    grown = record buf.msg_header { message_size = (buf.msg_header.message_size + len) % u32_mod }

-- The size of a chunk that get_next_indirect allocates.
unfoldable pub new_chunk_size : ℕ → ℕ
new_chunk_size for_size_hint =
    if for_size_hint == 0
    then giop_chunk_size
    else (let new_size = bit_and ((for_size_hint + 7) % u64_mod) (u64_mod - 1 - 7) in
        if ltb new_size giop_chunk_size then giop_chunk_size else new_size)

-- g_malloc0 or g_malloc, by giop_blank_wire_data: nothing is known of memory that is not blanked.
abbrev pub fresh_chunk : Bool → ℕ → IndirectChunk
fresh_chunk blank n = record { size = n; bytes = if blank then replicate n 0 else [] }

-- get_next_indirect; `blank` is giop_blank_wire_data.
unfoldable pub get_next_indirect : Bool → SendBuffer → ℕ → SendBuffer
unfolding new_chunk_size
get_next_indirect blank buf for_size_hint =
    let max = buf.num_indirects_used in
    let chunks =
      if leb (length buf.indirects) max
      then buf.indirects ++ (fresh_chunk blank (new_chunk_size for_size_hint) ∷ [])
      else buf.indirects in
    record buf {
      indirects = chunks;
      indirect = 0;
      indirect_left = (get_or chunks max no_chunk).size;
      num_indirects_used = max + 1;
    }

abbrev pub sub64 : ℕ → ℕ → ℕ
sub64 a b = (a + u64_mod - b) % u64_mod

-- memcpy into a chunk at an offset.
abbrev pub write_at : ℕ → List ℕ → List ℕ → List ℕ
write_at o new bytes = take o bytes ++ (new ++ drop (o + length new) bytes)

-- memcpy (buf->indirect, bytes, len), giop_send_buffer_append_real (buf, buf->indirect, len), and
-- the step of buf->indirect and buf->indirect_left that always follows.
unfoldable pub put_indirect : SendBuffer → List ℕ → SendBuffer
unfolding append_real
put_indirect buf new =
    let c = buf.num_indirects_used - 1 in
    let chunk = get_or buf.indirects c no_chunk in
    let written = record buf {
      indirects =
          set buf.indirects c (record chunk { bytes = write_at buf.indirect new chunk.bytes });
    } in
    let appended = append_real written (indirect c buf.indirect) (length new) in
    record appended {
      indirect = buf.indirect + length new;
      indirect_left = sub64 buf.indirect_left (length new);
    }

-- giop_send_buffer_append_copy
unfoldable pub append_copy : Bool → SendBuffer → List ℕ → SendBuffer
append_copy blank buf new =
    put_indirect
      (if ltb buf.indirect_left (length new) then get_next_indirect blank buf (length new) else buf)
      new

-- What memcpy reads from the caller's pointer. The caller never passes a pointer into the buffer.
abbrev pub caller_bytes : Mem → List ℕ
caller_bytes (field bs) = bs
caller_bytes (outer a bs) = bs
caller_bytes _ = []

-- giop_send_buffer_append, with len the length of the contents of `mem`.
unfoldable pub append : Bool → SendBuffer → Mem → SendBuffer
append blank buf mem =
    let len = length (caller_bytes mem) in
    if leb len 32 then append_copy blank buf (caller_bytes mem) else append_real buf mem len

-- giop_send_buffer_align. The message size and the header size are 32-bit, and so is their sum.
unfoldable pub align : Bool → SendBuffer → ℕ → SendBuffer
align blank buf boundary =
    let ms = (buf.msg_header.message_size + buf.header_size) % u32_mod in
    let align_amt = sub64 (align_value ms boundary) ms in
    if align_amt == 0
    then buf
    else put_indirect
        (if ltb buf.indirect_left align_amt then get_next_indirect blank buf 0 else buf)
        (replicate align_amt 0)

-- giop_send_buffer_append_aligned of the bytes at @mem, align_len of them. A NULL @mem is written
-- as zeros.
unfoldable pub append_aligned : Bool → SendBuffer → List ℕ → SendBuffer
append_aligned blank buf new =
    let aligned = align blank buf (length new) in
    put_indirect
      (if ltb aligned.indirect_left (length new)
        then get_next_indirect blank aligned 0
        else aligned)
      new

-- giop_send_buffer_append_string. `str` is the text with its final zero byte, at the address
-- `addr`; `len` and 4 + len are 32-bit. Where 4 + len wraps and is taken for short, the C code
-- writes past the chunk, which this does not describe.
unfoldable pub append_string : Endian → Bool → SendBuffer → ℕ → List ℕ → SendBuffer
append_string host blank buf addr str =
    let len = length str % u32_mod in
    let aligned = align blank buf 4 in
    if leb ((4 + len) % u32_mod) aligned.indirect_left
    then put_indirect aligned (u32_bytes host len ++ take len str)
    else append blank (append_copy blank aligned (u32_bytes host len)) (outer addr (take len str))
