-- ===== src/Giop/Messages.antt =====
-- The messages that giop-send-buffer.c starts: giop_send_buffer_use_request and its siblings.
pub mod Layout
pub mod Build
pub mod Wire
use mate_corba.Prelude.{
  ℕ, List, [], ◌∷◌, ◌++◌, Bool, if◌then◌else◌, Option, none, some, Endian, big, little, u32_bytes,
  u16_bytes, replicate, length,
}
use mate_corba.Giop.Types.{
  Version, giop_1_0, giop_1_1, giop_1_2, giop_request, giop_reply, giop_locate_request,
  giop_locate_reply, giop_close_connection, giop_message_error,
}
use mate_corba.Giop.SendBuffer.Memory.{Mem, field, outer, SendBuffer}
use mate_corba.Giop.SendBuffer.Defs.{append, align, append_aligned}
use mate_corba.Giop.SendBuffer.Pool.{use_buffer}

-- A sequence of octets of the caller, or a struct iovec of his: an address with the bytes there.
pub record Octets : Type 0 where
  pub addr : ℕ
  pub bytes : List ℕ

abbrev pub memory : Octets → Mem
memory o = outer o.addr o.bytes

abbrev pub encapsulation_order : Endian → ℕ
encapsulation_order big = 0
encapsulation_order little = 0x01010101

-- iop_service_context_data: one context, for the code sets UTF-8 and UTF-16, in the host's order.
unfoldable pub service_context_data : Endian → List ℕ
service_context_data host =
    u32_bytes host 1
    ++ (u32_bytes host 1
        ++ (u32_bytes host 12
            ++ (u32_bytes host (encapsulation_order host)
                ++ (u32_bytes host 0x05010001 ++ u32_bytes host 0x00010109))))

-- A CORBA_boolean that the caller passes.
abbrev pub boolean_octet : Bool → ℕ
boolean_octet b = if b then 1 else 0

-- `buf->msg.header.message_type = type`
abbrev pub with_type : ℕ → SendBuffer → SendBuffer
with_type t buf = record buf { msg_header = record buf.msg_header { message_type = t } }

-- The principal that is sent when the caller has none: an empty sequence.
abbrev pub principal_or_zero : Option Octets → Mem
principal_or_zero none = field (replicate 4 0)
principal_or_zero (some p) = memory p

-- The switch of giop_send_buffer_use_request.
unfoldable pub fill_request :
    Endian → Bool → Version → ℕ → Bool → Octets → Octets → Option Octets → SendBuffer → SendBuffer
fill_request host blank giop_1_2 request_id response_expected objkey operation principal buf =
    let b₁ = align blank buf 4 in
    let b₂ = append blank b₁ (field (u32_bytes host request_id)) in
    let b₃ = append blank b₂ (field ((if response_expected then 3 else 0) ∷ [])) in
    let b₄ = append blank b₃ (field (0 ∷ 0 ∷ 0 ∷ [])) in
    let b₅ = append blank b₄ (field (u16_bytes host 0)) in
    let b₆ = append_aligned blank b₅ (u32_bytes host (length objkey.bytes)) in
    let b₇ = append blank b₆ (memory objkey) in
    let b₈ = align blank b₇ 4 in
    let b₉ = append blank b₈ (memory operation) in
    let b₁₀ = append blank b₉ (field (service_context_data host)) in align blank b₁₀ 8
fill_request host blank _ request_id response_expected objkey operation principal buf =
    let b₁ = append blank buf (field (service_context_data host)) in
    let b₂ = append blank b₁ (field (u32_bytes host request_id)) in
    let b₃ = append blank b₂ (field (boolean_octet response_expected ∷ [])) in
    let b₄ = append_aligned blank b₃ (u32_bytes host (length objkey.bytes)) in
    let b₅ = append blank b₄ (memory objkey) in
    let b₆ = align blank b₅ 4 in
    let b₇ = append blank b₆ (memory operation) in append blank b₇ (principal_or_zero principal)

-- giop_send_buffer_use_request; the pool of buffers goes through it.
unfoldable pub use_request :
    Endian
    → Bool
    → List SendBuffer
    → Version
    → ℕ
    → Bool
    → Octets
    → Octets
    → Option Octets
    → SendBuffer × List SendBuffer
use_request host blank pool v request_id response_expected objkey operation principal =
    let (buf, rest) = use_buffer host blank pool v in
    (
      fill_request host blank v request_id response_expected objkey operation principal
          (align blank (with_type giop_request buf) 4),
      rest,
    )

-- The switch of giop_send_buffer_use_reply.
unfoldable pub fill_reply : Endian → Bool → Version → ℕ → ℕ → SendBuffer → SendBuffer
fill_reply host blank giop_1_2 request_id reply_status buf =
    let b₁ = append blank buf (field (u32_bytes host request_id)) in
    let b₂ = append blank b₁ (field (u32_bytes host reply_status)) in
    let b₃ = append blank b₂ (field (service_context_data host)) in align blank b₃ 8
fill_reply host blank _ request_id reply_status buf =
    let b₁ = append blank buf (field (service_context_data host)) in
    let b₂ = append blank b₁ (field (u32_bytes host request_id)) in
    append blank b₂ (field (u32_bytes host reply_status))

-- giop_send_buffer_use_reply
unfoldable pub use_reply :
    Endian → Bool → List SendBuffer → Version → ℕ → ℕ → SendBuffer × List SendBuffer
use_reply host blank pool v request_id reply_status =
    let (buf, rest) = use_buffer host blank pool v in
    (fill_reply host blank v request_id reply_status (with_type giop_reply buf), rest)

-- The switch of giop_send_buffer_use_locate_request. In 1.2 the addressing disposition comes first,
-- with sizeof (giop_1_2_target_type) bytes, which is two.
unfoldable pub fill_locate_request : Endian → Bool → Version → Octets → SendBuffer → SendBuffer
fill_locate_request host blank giop_1_2 objkey buf =
    let b₁ = append blank buf (field (u16_bytes host 0)) in
    let b₂ = append_aligned blank b₁ (u32_bytes host (length objkey.bytes)) in
    append blank b₂ (memory objkey)
fill_locate_request host blank _ objkey buf =
    let b₁ = append_aligned blank buf (u32_bytes host (length objkey.bytes)) in
    append blank b₁ (memory objkey)

-- giop_send_buffer_use_locate_request
unfoldable pub use_locate_request :
    Endian → Bool → List SendBuffer → Version → ℕ → Octets → SendBuffer × List SendBuffer
use_locate_request host blank pool v request_id objkey =
    let (buf, rest) = use_buffer host blank pool v in
    let b₁ = append blank (with_type giop_locate_request buf) (field (u32_bytes host request_id)) in
    (fill_locate_request host blank v objkey b₁, rest)

-- giop_send_buffer_use_locate_reply
unfoldable pub use_locate_reply :
    Endian → Bool → List SendBuffer → Version → ℕ → ℕ → SendBuffer × List SendBuffer
use_locate_reply host blank pool v request_id locate_status =
    let (buf, rest) = use_buffer host blank pool v in
    let b₁ = append blank (with_type giop_locate_reply buf) (field (u32_bytes host request_id)) in
    (append blank b₁ (field (u32_bytes host locate_status)), rest)

-- giop_send_buffer_use_close_connection
unfoldable pub use_close_connection :
    Endian → Bool → List SendBuffer → Version → SendBuffer × List SendBuffer
use_close_connection host blank pool v =
    let (buf, rest) = use_buffer host blank pool v in (with_type giop_close_connection buf, rest)

-- giop_send_buffer_use_message_error
unfoldable pub use_message_error :
    Endian → Bool → List SendBuffer → Version → SendBuffer × List SendBuffer
use_message_error host blank pool v =
    let (buf, rest) = use_buffer host blank pool v in (with_type giop_message_error buf, rest)
