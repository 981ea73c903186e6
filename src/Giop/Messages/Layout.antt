-- ===== src/Giop/Messages/Layout.antt =====
-- The bodies of GIOP messages as lists of bytes, by the rules of CDR: the specification that the
-- send buffer implements and that the receiver reads.
use mate_corba.Prelude.{
  ℕ, ◌+◌, ◌-◌, ◌%◌, List, [], ◌∷◌, ◌++◌, Endian, u32_bytes, u16_bytes, replicate, length, u32_mod,
}
use mate_corba.Giop.Align.{align_value}
use mate_corba.Giop.SendBuffer.Append.{padding}

-- Zero bytes up to a boundary, counted from the start of the header of twelve bytes.
unfoldable pub cdr_align : ℕ → List ℕ → List ℕ
cdr_align n body = body ++ replicate (padding ((length body + 12) % u32_mod) n) 0

-- A sequence of octets: its length, aligned, and its contents.
unfoldable pub cdr_octets : Endian → List ℕ → List ℕ → List ℕ
cdr_octets host octets body = cdr_align 4 body ++ u32_bytes host (length octets) ++ octets

-- op_vec of matecorba_small_marshal: the length of the name with its NUL, the name, and zeros up to
-- a boundary of four.
unfoldable pub operation_vec : Endian → List ℕ → List ℕ
operation_vec host name =
    let text = name ++ (0 ∷ []) in
    let len = 4 + length text in
    u32_bytes host (length text) ++ text ++ replicate (align_value len 4 - len) 0

-- GIOP 1.2: id, response flags and reserved octets, the address by key, operation, contexts, and
-- the alignment of what follows.
unfoldable pub request_1_2_body : Endian → List ℕ → ℕ → ℕ → List ℕ → List ℕ → List ℕ
request_1_2_body host contexts request_id flags key operation = cdr_align 8 (
    cdr_align 4 (
      cdr_octets host key
        (u32_bytes host request_id ++ (flags ∷ []) ++ (0 ∷ 0 ∷ 0 ∷ []) ++ u16_bytes host 0))
    ++ operation
    ++ contexts)

-- GIOP 1.0 and 1.1: contexts, id, whether a response is expected, key, operation, principal.
unfoldable pub request_1_1_body : Endian → List ℕ → ℕ → ℕ → List ℕ → List ℕ → List ℕ → List ℕ
request_1_1_body host contexts request_id expected key operation principal =
    cdr_align 4 (cdr_octets host key (contexts ++ u32_bytes host request_id ++ (expected ∷ [])))
    ++ operation
    ++ principal

unfoldable pub reply_1_2_body : Endian → List ℕ → ℕ → ℕ → List ℕ
reply_1_2_body host contexts request_id status =
    cdr_align 8 (u32_bytes host request_id ++ u32_bytes host status ++ contexts)

unfoldable pub reply_1_1_body : Endian → List ℕ → ℕ → ℕ → List ℕ
reply_1_1_body host contexts request_id status =
    contexts ++ u32_bytes host request_id ++ u32_bytes host status

unfoldable pub locate_request_1_2_body : Endian → ℕ → List ℕ → List ℕ
locate_request_1_2_body host request_id key =
    cdr_octets host key (u32_bytes host request_id ++ u16_bytes host 0)

unfoldable pub locate_request_1_1_body : Endian → ℕ → List ℕ → List ℕ
locate_request_1_1_body host request_id key = cdr_octets host key (u32_bytes host request_id)

unfoldable pub locate_reply_body : Endian → ℕ → ℕ → List ℕ
locate_reply_body host request_id status = u32_bytes host request_id ++ u32_bytes host status
