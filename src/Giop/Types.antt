-- ===== src/Giop/Types.antt =====
-- giop-types.h, giop-basics.h and the version table of giop.c: versions, message types, the header.
use mate_corba.Prelude.{
  ℕ, ◌/◌, ◌%◌, Bool, List, [], ◌∷◌, ◌++◌, ◌==◌, not, Endian, big, little, u32_bytes,
}

-- GIOPVersion.
pub data Version : Type 0 where
  giop_1_0 giop_1_1 giop_1_2 : Version

-- giop_version_ids: the two bytes of a version.
abbrev pub version_major : Version → ℕ
version_major v = 1

abbrev pub version_minor : Version → ℕ
version_minor giop_1_0 = 0
version_minor giop_1_1 = 1
version_minor giop_1_2 = 2

-- GIOPMsgType: the enumeration, as the octet that the header carries.
abbrev pub giop_request : ℕ
giop_request = 0

abbrev pub giop_reply : ℕ
giop_reply = 1

abbrev pub giop_cancel_request : ℕ
giop_cancel_request = 2

abbrev pub giop_locate_request : ℕ
giop_locate_request = 3

abbrev pub giop_locate_reply : ℕ
giop_locate_reply = 4

abbrev pub giop_close_connection : ℕ
giop_close_connection = 5

abbrev pub giop_message_error : ℕ
giop_message_error = 6

abbrev pub giop_fragment : ℕ
giop_fragment = 7

abbrev pub giop_num_msg_types : ℕ
giop_num_msg_types = 8

-- GIOP_FLAG_ENDIANNESS of a host, and the order that bit 0 of a message's flags stands for.
abbrev pub flag_endianness : Endian → ℕ
flag_endianness big = 0
flag_endianness little = 1

-- giop_endian_conversion_needed: (flags & GIOP_FLAG_LITTLE_ENDIAN) != GIOP_FLAG_ENDIANNESS.
abbrev pub conversion_needed : Endian → ℕ → Bool
conversion_needed host flags = not (flags % 2 == flag_endianness host)

-- MORE_FRAGMENTS_FOLLOW: flags & GIOP_FLAG_FRAGMENTED.
abbrev pub more_fragments_follow : ℕ → Bool
more_fragments_follow flags = not (flags / 2 % 2 == 0)

-- GIOPMsgHeader.
pub record MsgHeader : Type 0 where
  pub magic : List ℕ
  pub version_0 : ℕ
  pub version_1 : ℕ
  pub flags : ℕ
  pub message_type : ℕ
  pub message_size : ℕ

-- "GIOP"
abbrev pub giop_magic : List ℕ
giop_magic = b'G' ∷ b'I' ∷ b'O' ∷ b'P' ∷ []

-- The header as it lies in the host's memory.
unfoldable pub header_bytes : Endian → MsgHeader → List ℕ
header_bytes host h =
    h.magic
    ++ (h.version_0 ∷ h.version_1 ∷ h.flags ∷ h.message_type ∷ u32_bytes host h.message_size)
