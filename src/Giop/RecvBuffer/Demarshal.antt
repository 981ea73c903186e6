-- ===== src/Giop/RecvBuffer/Demarshal.antt =====
-- The demarshalling functions of giop-recv-buffer.c, one for each message and version.
use mate_corba.Prelude.{ℕ, zero, suc, List, [], ◌∷◌, ◌==◌, leb, if◌then◌else◌, Endian}
use mate_corba.Giop.Types.{
  Version, giop_1_2, giop_request, giop_reply, giop_cancel_request, giop_locate_request,
  giop_locate_reply, giop_num_msg_types,
}
use mate_corba.Giop.RecvBuffer.Reader.{
  bad, Reader, pure, ◌>>=◌, ◌>>◌, align_cur, need, get_u32, get_u16, get_octet, Slice, get_slice,
  aligned_u32, aligned_slice,
}

-- GIOP_TargetAddress as far as it is read. Of a disposition that the switch does not know only the
-- number is there.
pub data TargetAddress : Type 0 where
  key_addr : Slice → TargetAddress
  unread : ℕ → TargetAddress

-- IOP_ServiceContext
pub record ServiceContext : Type 0 where
  pub context_id : ℕ
  pub context_data : List ℕ

pub record Request11 : Type 0 where
  pub service_context : List ServiceContext
  pub request_id : ℕ
  pub response_expected : ℕ
  pub object_key : Slice
  pub operation : Slice
  pub requesting_principal : Slice

pub record Request12 : Type 0 where
  pub request_id : ℕ
  pub response_flags : ℕ
  pub target : TargetAddress
  pub operation : Slice
  pub service_context : List ServiceContext

pub record Reply : Type 0 where
  pub service_context : List ServiceContext
  pub request_id : ℕ
  pub reply_status : ℕ

pub record LocateRequest11 : Type 0 where
  pub request_id : ℕ
  pub object_key : Slice

pub record LocateRequest12 : Type 0 where
  pub request_id : ℕ
  pub target : TargetAddress

pub record LocateReply : Type 0 where
  pub request_id : ℕ
  pub locate_status : ℕ

-- The union of GIOPMsg.
pub data Body : Type 0 where
  request_1_1 : Request11 → Body
  request_1_2 : Request12 → Body
  reply_1_1 : Reply → Body
  reply_1_2 : Reply → Body
  cancel_request : ℕ → Body
  locate_request_1_1 : LocateRequest11 → Body
  locate_request_1_2 : LocateRequest12 → Body
  locate_reply : LocateReply → Body
  no_body : Body

-- giop_GIOP_TargetAddress_demarshal
unfoldable pub demarshal_target_address : Endian → Reader TargetAddress
demarshal_target_address host = do
  align_cur 2
  need 2
  d ← get_u16 host
  if d == 0
      then (do key ← aligned_slice host; pure (key_addr key))
      else (if leb d 2 then (λ b. bad) else pure (unread d))

-- MateCORBA_demarshal_value at the sequence of octets of a context: a sequence with no elements
-- makes no check, any other is checked and copied.
unfoldable pub demarshal_octets : Endian → Reader (List ℕ)
demarshal_octets host = do
  len ← aligned_u32 host
  if len == 0 then pure [] else (do s ← get_slice len; pure s.bytes)

-- MateCORBA_demarshal_value at the structure IOP_ServiceContext.
unfoldable pub demarshal_service_context : Endian → Reader ServiceContext
demarshal_service_context host = do
  id ← aligned_u32 host
  octets ← demarshal_octets host
  pure (record { context_id = id; context_data = octets })

-- The loop over the elements of a sequence.
unfoldable pub demarshal_contexts : Endian → ℕ → Reader (List ServiceContext)
demarshal_contexts host zero = pure []
demarshal_contexts host (suc n) = do
  c ← demarshal_service_context host
  cs ← demarshal_contexts host n
  pure (c ∷ cs)

-- giop_IOP_ServiceContextList_demarshal
unfoldable pub demarshal_service_context_list : Endian → Reader (List ServiceContext)
demarshal_service_context_list host = do n ← aligned_u32 host; demarshal_contexts host n

-- giop_recv_buffer_demarshal_request_1_1
unfoldable pub demarshal_request_1_1 : Endian → Reader Request11
demarshal_request_1_1 host = do
  contexts ← demarshal_service_context_list host
  align_cur 4
  need 12
  id ← get_u32 host
  expected ← get_octet 4
  key_length ← get_u32 host
  key ← get_slice key_length
  operation ← aligned_slice host
  principal ← aligned_slice host
  pure (record {
    service_context = contexts;
    request_id = id;
    response_expected = expected;
    object_key = key;
    operation = operation;
    requesting_principal = principal;
  })

-- giop_recv_buffer_demarshal_request_1_2
unfoldable pub demarshal_request_1_2 : Endian → Reader Request12
demarshal_request_1_2 host = do
  align_cur 4
  need 8
  id ← get_u32 host
  flags ← get_octet 4
  target ← demarshal_target_address host
  operation ← aligned_slice host
  contexts ← demarshal_service_context_list host
  align_cur 8
  pure (record {
    request_id = id;
    response_flags = flags;
    target = target;
    operation = operation;
    service_context = contexts;
  })

-- giop_recv_buffer_demarshal_reply_1_1
unfoldable pub demarshal_reply_1_1 : Endian → Reader Reply
demarshal_reply_1_1 host = do
  contexts ← demarshal_service_context_list host
  align_cur 4
  need 8
  id ← get_u32 host
  status ← get_u32 host
  pure (record { service_context = contexts; request_id = id; reply_status = status })

-- giop_recv_buffer_demarshal_reply_1_2
unfoldable pub demarshal_reply_1_2 : Endian → Reader Reply
demarshal_reply_1_2 host = do
  align_cur 4
  need 8
  id ← get_u32 host
  status ← get_u32 host
  contexts ← demarshal_service_context_list host
  align_cur 8
  pure (record { service_context = contexts; request_id = id; reply_status = status })

-- giop_recv_buffer_demarshal_cancel
unfoldable pub demarshal_cancel : Endian → Reader ℕ
demarshal_cancel host = aligned_u32 host

-- giop_recv_buffer_demarshal_locate_request_1_1
unfoldable pub demarshal_locate_request_1_1 : Endian → Reader LocateRequest11
demarshal_locate_request_1_1 host = do
  align_cur 4
  need 8
  id ← get_u32 host
  key_length ← get_u32 host
  key ← get_slice key_length
  pure (record { request_id = id; object_key = key })

-- giop_recv_buffer_demarshal_locate_request_1_2
unfoldable pub demarshal_locate_request_1_2 : Endian → Reader LocateRequest12
demarshal_locate_request_1_2 host = do
  id ← aligned_u32 host
  target ← demarshal_target_address host
  pure (record { request_id = id; target = target })

-- giop_recv_buffer_demarshal_locate_reply_1_1, which serves 1.2 too.
unfoldable pub demarshal_locate_reply : Endian → Reader LocateReply
demarshal_locate_reply host = do
  align_cur 4
  need 8
  id ← get_u32 host
  status ← get_u32 host
  pure (record { request_id = id; locate_status = status })

abbrev pub map_body : {A : Type 0} → (A → Body) → Reader A → Reader Body
map_body f m = do a ← m; pure (f a)

-- The rows of decode_funcs for a version; the types with a NULL entry read nothing.
unfoldable pub decode_old : Endian → ℕ → Reader Body
decode_old host type =
    if type == giop_request
    then map_body request_1_1 (demarshal_request_1_1 host)
    else if type == giop_reply
    then map_body reply_1_1 (demarshal_reply_1_1 host)
    else if type == giop_cancel_request
    then map_body cancel_request (demarshal_cancel host)
    else if type == giop_locate_request
    then map_body locate_request_1_1 (demarshal_locate_request_1_1 host)
    else if type == giop_locate_reply
    then map_body locate_reply (demarshal_locate_reply host)
    else pure no_body

unfoldable pub decode_1_2 : Endian → ℕ → Reader Body
decode_1_2 host type =
    if type == giop_request
    then map_body request_1_2 (demarshal_request_1_2 host)
    else if type == giop_reply
    then map_body reply_1_2 (demarshal_reply_1_2 host)
    else if type == giop_cancel_request
    then map_body cancel_request (demarshal_cancel host)
    else if type == giop_locate_request
    then map_body locate_request_1_2 (demarshal_locate_request_1_2 host)
    else if type == giop_locate_reply
    then map_body locate_reply (demarshal_locate_reply host)
    else pure no_body

abbrev pub decode_of : Endian → Version → ℕ → Reader Body
decode_of host giop_1_2 type = decode_1_2 host type
decode_of host _ type = decode_old host type

-- giop_recv_buffer_demarshal
unfoldable pub demarshal : Endian → Reader Body
demarshal host b =
    if leb giop_num_msg_types b.msg_header.message_type
    then bad
    else decode_of host b.giop_version b.msg_header.message_type b
