-- ===== src/Giop/Messages/Wire.antt =====
-- What each message looks like on the wire, from a pool of buffers in any state.
use mate_corba.Prelude.{
  ℕ, ◌%◌, ◌<◌, ◌≡◌, ap, ◌∙◌, arith, List, [], ◌++◌, Endian, length, u32_mod, u32_bytes,
  length-u32_bytes, take-all, Bool, Option, if◌then◌else◌, All,
}
use mate_corba.Giop.Types.{
  MsgHeader, Version, giop_1_1, giop_1_2, giop_request, giop_reply, giop_locate_request,
  giop_locate_reply, header_bytes, giop_magic, flag_endianness, version_major, version_minor,
}
use mate_corba.Giop.SendBuffer.Memory.{SendBuffer, wire}
use mate_corba.Giop.SendBuffer.Defs.{caller_bytes}
use mate_corba.Giop.SendBuffer.Invariant.{IsValid}
use mate_corba.Giop.SendBuffer.Put.{Writes}
use mate_corba.Giop.SendBuffer.Append.{Writes-nil}
use mate_corba.Giop.SendBuffer.Pool.{Starts, IsPooled, use_buffer, use_buffer-Starts}
use mate_corba.Giop.Messages.{
  Octets, service_context_data, boolean_octet, with_type, principal_or_zero, use_request, use_reply,
  use_locate_request, use_locate_reply,
}
use mate_corba.Giop.Messages.Layout.{
  request_1_2_body, request_1_1_body, reply_1_2_body, reply_1_1_body, locate_request_1_2_body,
  locate_request_1_1_body, locate_reply_body,
}
use mate_corba.Giop.Messages.Build.{
  fill_request_1_2-Writes, fill_request_1_1-Writes, fill_reply_1_2-Writes, fill_reply_1_1-Writes,
  step_align_four, fill_locate_request_1_2-Writes, fill_locate_request_1_1-Writes, step_field,
}

-- The buffer holds a whole message: a header of that version and type, whose size is that of the
-- body (on 32 bits), and the body behind it.
pub record Sends (host : Endian) (v : Version) (type : ℕ) (b : SendBuffer) (body : List ℕ)
    : Type 0 where
  pub wired : wire host b ≡ header_bytes host b.msg_header ++ body
  pub sized : b.msg_header.message_size ≡ length body % u32_mod
  pub typed : b.msg_header.message_type ≡ type
  pub magic : b.msg_header.magic ≡ giop_magic
  pub flagged : b.msg_header.flags ≡ flag_endianness host
  pub major : b.msg_header.version_0 ≡ version_major v
  pub minor : b.msg_header.version_1 ≡ version_minor v
  pub valid : IsValid b

pub length-header_bytes :
    (host : Endian) (h : MsgHeader) → h.magic ≡ giop_magic → length (header_bytes host h) ≡ 12
unfolding header_bytes
length-header_bytes host h e = rw e (omega (arith, length-u32_bytes host h.message_size))

module _ (host : Endian) (v : Version) (t : ℕ) (s : SendBuffer) (i : Starts host v s) where
  typed-nil : Writes host (with_type t s) [] (with_type t s)
  typed-nil = Writes-nil host (with_type t s) (record {
    kept = i.valid.kept;
    last = i.valid.last;
    within = i.valid.within;
    room = i.valid.room;
    no_room = i.valid.no_room;
    used = i.valid.used;
    chunks = i.valid.chunks;
    array = i.valid.array;
    size = i.valid.size;
  })

  Writes-Sends :
      (b : SendBuffer) (body : List ℕ) → Writes host (with_type t s) body b → Sends host v t b body
  unfolding wire
  Writes-Sends b body w =
      let magic = ap (λ (h : MsgHeader). h.magic) w.grown ∙ i.magic in
      record {
        wired =
            w.gathered b.msg_header
            ∙ ap (λ x. x ++ body)
                (i.first b.msg_header
                  ∙ take-all 12 (header_bytes host b.msg_header)
                      (omega (arith, length-header_bytes host b.msg_header magic)));
        sized = ap (λ (h : MsgHeader). h.message_size) w.grown ∙ omega (arith, i.no_body);
        typed = ap (λ (h : MsgHeader). h.message_type) w.grown;
        magic = magic;
        flagged = ap (λ (h : MsgHeader). h.flags) w.grown ∙ i.flags;
        major = ap (λ (h : MsgHeader). h.version_0) w.grown ∙ i.major;
        minor = ap (λ (h : MsgHeader). h.version_1) w.grown ∙ i.minor;
        valid = w.valid;
      }

module _ (host : Endian) (blank : Bool) (pool : List SendBuffer)
    (p : All (IsPooled host) pool) where
  -- From a pool in which every buffer is fit for use, a GIOP 1.2 request with a key and an
  -- operation that are not empty is, on the wire, a header with the magic bytes, the version,
  -- the type, the host's byte order and the size of the body, and then the body that the CDR
  -- layout request_1_2_body gives; the buffer stays well-formed.
  pub use_request_1_2-Sends :
      (request_id : ℕ) (expected : Bool) (key operation : Octets) (principal : Option Octets)
      → 0 < length key.bytes
      → 0 < length operation.bytes
      → Sends host giop_1_2 giop_request
          (use_request host blank pool giop_1_2 request_id expected key operation principal).0
          (request_1_2_body host
            (service_context_data host)
            request_id
            (if expected then 3 else 0)
            key.bytes
            operation.bytes)
  unfolding use_request
  use_request_1_2-Sends request_id expected key operation principal k o =
      let (i, _) = use_buffer-Starts host blank pool giop_1_2 p in
      let w = typed-nil host giop_1_2 giop_request (use_buffer host blank pool giop_1_2).0 i in
      let aligned = step_align_four host blank _ i.no_body i.size_of_header _ w in
      Writes-Sends host giop_1_2 giop_request _ i _ _ (
        fill_request_1_2-Writes host blank _ i.no_body i.size_of_header request_id expected key
          operation principal _ aligned k o)

  -- From a pool in which every buffer is fit for use, a GIOP 1.1 request with a key, an
  -- operation and a principal (four zero bytes where the caller has none) that are not empty
  -- is, on the wire, a valid header and the body that the CDR layout request_1_1_body gives.
  pub use_request_1_1-Sends :
      (request_id : ℕ) (expected : Bool) (key operation : Octets) (principal : Option Octets)
      → 0 < length key.bytes
      → 0 < length operation.bytes
      → 0 < length (caller_bytes (principal_or_zero principal))
      → Sends host giop_1_1 giop_request
          (use_request host blank pool giop_1_1 request_id expected key operation principal).0
          (request_1_1_body host
            (service_context_data host)
            request_id
            (boolean_octet expected)
            key.bytes
            operation.bytes
            (caller_bytes (principal_or_zero principal)))
  unfolding use_request
  use_request_1_1-Sends request_id expected key operation principal k o n =
      let (i, _) = use_buffer-Starts host blank pool giop_1_1 p in
      let w = typed-nil host giop_1_1 giop_request (use_buffer host blank pool giop_1_1).0 i in
      let aligned = step_align_four host blank _ i.no_body i.size_of_header _ w in
      Writes-Sends host giop_1_1 giop_request _ i _ _ (
        fill_request_1_1-Writes host blank _ i.no_body i.size_of_header request_id expected key
          operation principal _ aligned k o n)

  -- From a pool in which every buffer is fit for use, a GIOP 1.2 reply is, on the wire, a valid
  -- header and the body that the CDR layout reply_1_2_body gives.
  pub use_reply_1_2-Sends :
      (request_id status : ℕ)
      → Sends host giop_1_2 giop_reply
          (use_reply host blank pool giop_1_2 request_id status).0
          (reply_1_2_body host (service_context_data host) request_id status)
  unfolding use_reply
  use_reply_1_2-Sends request_id status =
      let (i, _) = use_buffer-Starts host blank pool giop_1_2 p in
      let w = typed-nil host giop_1_2 giop_reply (use_buffer host blank pool giop_1_2).0 i in
      Writes-Sends host giop_1_2 giop_reply _ i _ _
        (fill_reply_1_2-Writes host blank _ i.no_body i.size_of_header request_id status _ w)

  -- From a pool in which every buffer is fit for use, a GIOP 1.1 reply is, on the wire, a valid
  -- header and the body that the CDR layout reply_1_1_body gives.
  pub use_reply_1_1-Sends :
      (request_id status : ℕ)
      → Sends host giop_1_1 giop_reply
          (use_reply host blank pool giop_1_1 request_id status).0
          (reply_1_1_body host (service_context_data host) request_id status)
  unfolding use_reply
  use_reply_1_1-Sends request_id status =
      let (i, _) = use_buffer-Starts host blank pool giop_1_1 p in
      let w = typed-nil host giop_1_1 giop_reply (use_buffer host blank pool giop_1_1).0 i in
      Writes-Sends host giop_1_1 giop_reply _ i _ _
        (fill_reply_1_1-Writes host blank _ i.no_body i.size_of_header request_id status _ w)

  -- From a pool in which every buffer is fit for use, a GIOP 1.2 locate request with a key that
  -- is not empty is, on the wire, a valid header and the body that the CDR layout
  -- locate_request_1_2_body gives.
  pub use_locate_request_1_2-Sends :
      (request_id : ℕ) (key : Octets)
      → 0 < length key.bytes
      → Sends host giop_1_2 giop_locate_request
          (use_locate_request host blank pool giop_1_2 request_id key).0
          (locate_request_1_2_body host request_id key.bytes)
  unfolding use_locate_request
  use_locate_request_1_2-Sends request_id key k =
      let (i, _) = use_buffer-Starts host blank pool giop_1_2 p in
      let w =
        typed-nil host giop_1_2 giop_locate_request (use_buffer host blank pool giop_1_2).0 i in
      let w₁ =
        step_field host blank _ i.no_body i.size_of_header (u32_bytes host request_id) 3 _ _ w
          (length-u32_bytes host request_id) (omega arith) in
      Writes-Sends host giop_1_2 giop_locate_request _ i _ _ (
        fill_locate_request_1_2-Writes host blank _ i.no_body i.size_of_header request_id key _ w₁
          k)

  -- From a pool in which every buffer is fit for use, a GIOP 1.1 locate request with a key that
  -- is not empty is, on the wire, a valid header and the body that the CDR layout
  -- locate_request_1_1_body gives.
  pub use_locate_request_1_1-Sends :
      (request_id : ℕ) (key : Octets)
      → 0 < length key.bytes
      → Sends host giop_1_1 giop_locate_request
          (use_locate_request host blank pool giop_1_1 request_id key).0
          (locate_request_1_1_body host request_id key.bytes)
  unfolding use_locate_request
  use_locate_request_1_1-Sends request_id key k =
      let (i, _) = use_buffer-Starts host blank pool giop_1_1 p in
      let w =
        typed-nil host giop_1_1 giop_locate_request (use_buffer host blank pool giop_1_1).0 i in
      let w₁ =
        step_field host blank _ i.no_body i.size_of_header (u32_bytes host request_id) 3 _ _ w
          (length-u32_bytes host request_id) (omega arith) in
      Writes-Sends host giop_1_1 giop_locate_request _ i _ _ (
        fill_locate_request_1_1-Writes host blank _ i.no_body i.size_of_header request_id key _ w₁
          k)

  -- From a pool in which every buffer is fit for use, a locate reply of any version is, on the
  -- wire, a valid header and the body that the CDR layout locate_reply_body gives.
  pub use_locate_reply-Sends :
      (v : Version) (request_id status : ℕ)
      → Sends host v giop_locate_reply
          (use_locate_reply host blank pool v request_id status).0
          (locate_reply_body host request_id status)
  unfolding use_locate_reply locate_reply_body
  use_locate_reply-Sends v request_id status =
      let (i, _) = use_buffer-Starts host blank pool v p in
      let w = typed-nil host v giop_locate_reply (use_buffer host blank pool v).0 i in
      let w₁ =
        step_field host blank _ i.no_body i.size_of_header (u32_bytes host request_id) 3 _ _ w
          (length-u32_bytes host request_id) (omega arith) in
      let w₂ =
        step_field host blank _ i.no_body i.size_of_header (u32_bytes host status) 3 _ _ w₁
          (length-u32_bytes host status) (omega arith) in
      Writes-Sends host v giop_locate_reply _ i _ _ w₂
