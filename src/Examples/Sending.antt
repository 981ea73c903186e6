-- ===== src/Examples/Sending.antt =====
-- Sending at concrete inputs: a little-endian host, a pool without buffers, a key of four octets.
use mate_corba.Prelude.{
  ◌≡◌, ◌≤◌, length, take, refl, arith, inl, inr, [], ◌∷◌, ◌++◌, true, false, none, replicate, All,
  little, u32_bytes,
}
use mate_corba.Giop.Types.{giop_magic, flag_endianness, giop_1_1, giop_1_2, giop_request}
use mate_corba.Giop.SendBuffer.Memory.{IndirectChunk, field, SendBuffer}
use mate_corba.Giop.SendBuffer.Defs.{
  giop_chunk_size, get_next_indirect, append, append_aligned, append_string, caller_bytes,
}
use mate_corba.Giop.SendBuffer.Invariant.{IsValid}
use mate_corba.Giop.SendBuffer.Writes.{get_next_indirect-Writes}
use mate_corba.Giop.SendBuffer.Put.{Writes}
use mate_corba.Giop.SendBuffer.Append.{
  append-Writes, append_aligned-Writes, append_string-Writes, padding, message_end,
}
use mate_corba.Giop.SendBuffer.Pool.{
  IsPooled, Starts, use_buffer, use_buffer-Starts, unuse, unuse-IsPooled,
}
use mate_corba.Giop.Messages.{Octets, service_context_data, use_request}
use mate_corba.Giop.Messages.Layout.{request_1_2_body}
use mate_corba.Giop.Messages.Wire.{Sends, use_request_1_2-Sends}

abbrev pub key : Octets
key = record { addr = 4096; bytes = 1 ∷ 2 ∷ 3 ∷ 4 ∷ [] }

abbrev pub operation : Octets
operation = record {
  addr = 8192;
  bytes = 5 ∷ 0 ∷ 0 ∷ 0 ∷ b'p' ∷ b'i' ∷ b'n' ∷ b'g' ∷ 0 ∷ 0 ∷ 0 ∷ 0 ∷ [];
}

-- A buffer with a header, fresh from an empty pool.
abbrev pub started : SendBuffer
started = (use_buffer little false [] giop_1_2).0

started-Starts : Starts little giop_1_2 started
started-Starts = (use_buffer-Starts little false [] giop_1_2 tt).0

append-Writes_example :
    Writes little started
      (caller_bytes (field (1 ∷ 2 ∷ 3 ∷ [])))
      (append false started (field (1 ∷ 2 ∷ 3 ∷ [])))
append-Writes_example =
    append-Writes little false started (field (1 ∷ 2 ∷ 3 ∷ [])) started-Starts.valid (omega arith)
      (omega arith)

append_aligned-Writes_example :
    Writes little started
      (replicate (padding (message_end started) 4) 0 ++ (1 ∷ 2 ∷ 3 ∷ 4 ∷ []))
      (append_aligned false started (1 ∷ 2 ∷ 3 ∷ 4 ∷ []))
append_aligned-Writes_example =
    append_aligned-Writes little false started (1 ∷ 2 ∷ 3 ∷ 4 ∷ []) started-Starts.valid
      (inr (inl refl))

append_string-Writes_example :
    Writes little started
      (replicate (padding (message_end started) 4) 0
        ++ (u32_bytes little 3 ++ (b'h' ∷ b'i' ∷ 0 ∷ [])))
      (append_string little false started 4096 (b'h' ∷ b'i' ∷ 0 ∷ []))
append_string-Writes_example =
    append_string-Writes little false started 4096 (b'h' ∷ b'i' ∷ 0 ∷ []) started-Starts.valid
      (omega arith) (omega arith)

unuse-started : All (IsPooled little) (unuse started [])
unuse-started =
    let (kept, e, p, _, _) =
      unuse-IsPooled little started [] started-Starts.valid started-Starts.magic
        started-Starts.flags in
    rw e (p, tt)

use_buffer-Starts_example :
    Starts little giop_1_1 (use_buffer little true (unuse started []) giop_1_1).0
    × All (IsPooled little) (use_buffer little true (unuse started []) giop_1_1).1
use_buffer-Starts_example = use_buffer-Starts little true (unuse started []) giop_1_1 unuse-started

-- The same with a chunk of more than the usual size.
abbrev large : SendBuffer
large = get_next_indirect false started 5000

large-IsValid : IsValid large
large-IsValid = (get_next_indirect-Writes little false started 5000 started-Starts.valid).0.valid

large-headed :
    (large.msg_header.magic ≡ giop_magic) × (large.msg_header.flags ≡ flag_endianness little)
unfolding get_next_indirect
large-headed = (started-Starts.magic, started-Starts.flags)

unuse-IsPooled_example :
    (kept : SendBuffer) × (unuse large [] ≡ kept ∷ [])
    × IsPooled little kept
    × (length kept.indirects ≡ length large.indirects)
    × All
        (λ (c : IndirectChunk). c.size ≤ giop_chunk_size)
        (take large.num_indirects_used kept.indirects)
unuse-IsPooled_example = unuse-IsPooled little large [] large-IsValid large-headed.0 large-headed.1

use_request_1_2-Sends_example :
    Sends little giop_1_2 giop_request
      (use_request little false [] giop_1_2 7 true key operation none).0
      (request_1_2_body little (service_context_data little) 7 3 key.bytes operation.bytes)
use_request_1_2-Sends_example =
    use_request_1_2-Sends little false [] tt 7 true key operation none (omega arith) (omega arith)
