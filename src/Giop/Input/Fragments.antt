-- ===== src/Giop/Input/Fragments.antt =====
-- The fragments of giop-recv-buffer.c: giop_connection_*_frag, concat_frags and
-- giop_recv_buffer_handle_fragmented.
use mate_corba.Prelude.{
  ℕ, ◌+◌, ◌-◌, ◌%◌, Bool, true, false, not, ◌&&◌, ◌==◌, ltb, if◌then◌else◌, List, [], ◌∷◌, ◌++◌,
  length, take, Option, none, some, u32_mod, Endian,
}
use mate_corba.Giop.Types.{
  Version, giop_1_0, giop_1_1, giop_1_2, giop_request, giop_reply, giop_locate_request,
  giop_locate_reply, giop_fragment, more_fragments_follow,
}
use mate_corba.Giop.SendBuffer.Defs.{write_at}
use mate_corba.Giop.RecvBuffer.Reader.{
  Outcome, ok, bad, and_then, fault, RecvBuffer, memory_at, aligned_u32,
}
use mate_corba.Giop.RecvBuffer.Demarshal.{
  Body, request_1_1, request_1_2, reply_1_1, reply_1_2, cancel_request, locate_request_1_1,
  locate_request_1_2, locate_reply, no_body,
}
use mate_corba.Giop.Input.Header.{alloc_buffer}

-- A receive buffer with its demarshalled union.
pub record Message : Type 0 where
  pub buffer : RecvBuffer
  pub body : Body

-- giop_recv_buffer_get_request_id: the member of the union, zero for the types without one.
unfoldable pub get_request_id : Body → ℕ
get_request_id (request_1_1 r) = r.request_id
get_request_id (request_1_2 r) = r.request_id
get_request_id (reply_1_1 r) = r.request_id
get_request_id (reply_1_2 r) = r.request_id
get_request_id (cancel_request id) = id
get_request_id (locate_request_1_1 r) = r.request_id
get_request_id (locate_request_1_2 r) = r.request_id
get_request_id (locate_reply r) = r.request_id
get_request_id no_body = 0

-- A list of fragments on a connection is never empty: its head and what came after.
pub record Frags : Type 0 where
  pub head : Message
  pub rest : List Message

-- giop_connection_add_frag
unfoldable pub add_frag : List Frags → Message → List Frags
add_frag frags buf = record { head = buf; rest = [] } ∷ frags

-- The search of giop_connection_get_frag, with the lists before the one that is found.
unfoldable pub find_frag : List Frags → List Frags → ℕ → Option (List Frags × Frags × List Frags)
find_frag before [] request_id = none
find_frag before (f ∷ fs) request_id =
    let rest = find_frag (before ++ (f ∷ [])) fs request_id in
    if get_request_id f.head.body == request_id then some (before, f, fs) else rest

-- giop_connection_get_frag: the place of the list in incoming_frags.
unfoldable pub get_frag : List Frags → ℕ → Bool → Option (List Frags × Frags × List Frags)
get_frag frags request_id first_if_none = elim (find_frag [] frags request_id) [
  | some found ↦ some found
  | none ↦ elim frags [ [] ↦ none | f ∷ fs ↦ if first_if_none then some ([], f, fs) else none ]
]

-- The bytes from buf->cur to buf->end.
abbrev pub payload : RecvBuffer → List ℕ
payload b = take (b.end - b.cur) (memory_at b b.cur)

-- The loop of concat_frags, which copies behind `ptr`. A copy beyond the block is a fault.
unfoldable pub copy_frags : List Message → ℕ → List ℕ → Outcome (List ℕ × ℕ)
copy_frags [] ptr block = ok (block, ptr)
copy_frags (f ∷ fs) ptr block =
    let bytes = payload f.buffer in
    let rest = copy_frags fs (ptr + length bytes) (write_at ptr bytes block) in
    if ltb (length block) (ptr + length bytes) then fault else rest

-- concat_frags
unfoldable pub concat_frags : Option ℕ → ℕ → Frags → Outcome Message
concat_frags place junk frags =
    let head = frags.head.buffer in
    let initial_offset = head.cur - head.base in
    let initial_length = head.end - head.cur in
    let size = head.msg_header.message_size + initial_offset - 12 in
    and_then (alloc_buffer place junk head head.memory size) (λ grown.
      and_then (copy_frags frags.rest (initial_offset + initial_length) grown.memory) (λ copied.
        ok (record frags.head {
          buffer = record grown {
            memory = copied.0;
            cur = grown.base + initial_offset;
            end = grown.base + copied.1;
          };
        })))

-- What giop_recv_buffer_handle_fragmented leaves: whether it reports an error, the buffer that
-- *buf points to, and the connection's lists.
pub record Handled : Type 0 where
  pub error : Bool
  pub ret_buf : Message
  pub incoming_frags : List Frags

-- The switch on the type: the id, with the fragment read as far as that, an error for other types.
unfoldable pub fragment_id : Endian → Message → Outcome (ℕ × RecvBuffer)
fragment_id host m =
    let b = m.buffer in
    let t = b.msg_header.message_type in
    if t == giop_request
    then ok (get_request_id m.body, b)
    else if t == giop_reply
    then ok (get_request_id m.body, b)
    else if t == giop_locate_request
    then ok (get_request_id m.body, b)
    else if t == giop_locate_reply
    then ok (get_request_id m.body, b)
    else if t == giop_fragment
    then elim b.giop_version [ giop_1_1 ↦ ok (0, b) | _ ↦ aligned_u32 host b ]
    else bad

-- head->msg.header.message_size += (buf->end - buf->cur), on 32 bits.
abbrev pub track_length : Message → RecvBuffer → Message
track_length head b = record head {
  buffer = record head.buffer {
    msg_header = record head.buffer.msg_header {
      message_size = (head.buffer.msg_header.message_size + (b.end - b.cur)) % u32_mod;
    };
  };
}

abbrev pub is_1_1 : Version → Bool
is_1_1 giop_1_0 = false
is_1_1 giop_1_1 = true
is_1_1 giop_1_2 = false

-- The size limit, for a peer without authorization.
abbrev pub is_exceeded : ℕ → Bool → RecvBuffer → Bool
is_exceeded limit is_auth b = not is_auth && ltb limit b.msg_header.message_size

-- The list with the fragment at its end, whose length its head tracks.
abbrev pub grown_list : Frags → Message → Frags
grown_list found buf = record {
  head = track_length found.head buf.buffer;
  rest = found.rest ++ (buf ∷ []);
}

-- What follows the collation of the last fragment: the list is off the connection in any case.
unfoldable pub finish : List Frags → Message → Outcome Message → Outcome Handled
finish frags head (ok whole) =
    ok (record { error = false; ret_buf = whole; incoming_frags = frags })
finish frags head bad = ok (record { error = true; ret_buf = head; incoming_frags = frags })
finish frags head fault = fault

-- The two branches on the list that the search found. A failed assertion, and a list that is used
-- after it has been freed, are faults.
unfoldable pub join_frag :
    ℕ
    → Option ℕ
    → ℕ
    → Bool
    → List Frags
    → Message
    → Option (List Frags × Frags × List Frags)
    → Outcome Handled
join_frag limit place junk is_auth frags buf none =
    if more_fragments_follow buf.buffer.msg_header.flags
    then ok (record { error = false; ret_buf = buf; incoming_frags = add_frag frags buf })
    else ok (record { error = true; ret_buf = buf; incoming_frags = frags })
join_frag limit place junk is_auth frags buf (some (before, found, behind)) =
    let list = grown_list found buf in
    let exceeded = is_exceeded limit is_auth buf.buffer in
    if found.head.buffer.msg_header.message_type == giop_fragment
    then fault
    else if more_fragments_follow buf.buffer.msg_header.flags
    then ok (record {
      error = exceeded;
      ret_buf = list.head;
      incoming_frags = if exceeded then before ++ behind else before ++ (list ∷ behind);
    })
    else if exceeded
    then fault
    else if not (buf.buffer.msg_header.message_type == giop_fragment)
    then fault
    else finish (before ++ behind) list.head (concat_frags place junk list)

-- giop_recv_buffer_handle_fragmented, once the id of the message is known. A buffer that is given up
-- for its id is as it came in.
unfoldable pub handle_identified :
    ℕ → Option ℕ → ℕ → Bool → List Frags → Message → Outcome (ℕ × RecvBuffer) → Outcome Handled
handle_identified limit place junk is_auth frags m fault = fault
handle_identified limit place junk is_auth frags m bad =
    ok (record { error = true; ret_buf = m; incoming_frags = frags })
handle_identified limit place junk is_auth frags m (ok (id, b)) =
    join_frag limit place junk is_auth frags (record m { buffer = b })
      (get_frag frags id (is_1_1 b.giop_version))

-- giop_recv_buffer_handle_fragmented. Outside of an error the head of the list is what *buf points
-- to.
unfoldable pub handle_fragmented :
    Endian → ℕ → Option ℕ → ℕ → Bool → List Frags → Message → Outcome Handled
handle_fragmented host limit place junk is_auth frags m =
    handle_identified limit place junk is_auth frags m (fragment_id host m)
