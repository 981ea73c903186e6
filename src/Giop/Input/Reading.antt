-- ===== src/Giop/Input/Reading.antt =====
-- giop_connection_handle_input of giop-recv-buffer.c, one pass of its loop at a time. What
-- link_connection_read gives is a parameter of each pass.
use mate_corba.Prelude.{
  ℕ, ◌+◌, ◌-◌, Bool, true, ◌==◌, ltb, if◌then◌else◌, List, [], ◌++◌, length, take, drop, get_or,
  Option, none, some, Endian, u32_of,
}
use mate_corba.Giop.Types.{
  MsgHeader, giop_1_0, giop_request, giop_reply, giop_cancel_request, giop_locate_request,
  giop_locate_reply, giop_message_error, giop_fragment, more_fragments_follow,
}
use mate_corba.Giop.SendBuffer.Defs.{write_at}
use mate_corba.Giop.RecvBuffer.Reader.{Outcome, ok, bad, fault, RecvBuffer}
use mate_corba.Giop.RecvBuffer.Demarshal.{Body, no_body, demarshal}
use mate_corba.Giop.Input.Header.{msg_reading_body}
use mate_corba.Giop.Input.Fragments.{Message, Frags, Handled, handle_fragmented}
use mate_corba.Giop.Input.Queue.{Entry, Handed, handle_reply}

-- GIOPMessageBufferState, without the state that nothing sets.
pub data MsgState : Type 0 where
  reading_header reading_body msg_ready : MsgState

-- A receive buffer that is being filled; `got` is what there is of the header.
pub record Incoming : Type 0 where
  pub state : MsgState
  pub left_to_read : ℕ
  pub got : List ℕ
  pub message : Message

-- What the function uses of a connection. No union has been read while the body is `no_body`.
pub record Connection : Type 0 where
  pub incoming_msg : Option Incoming
  pub incoming_frags : List Frags
  pub is_auth : Bool
  pub disconnected : Bool

-- giop_recv_buffer_use_buf
abbrev pub use_buf : Incoming
use_buf = record {
  state = reading_header;
  left_to_read = 12;
  got = [];
  message = record {
    buffer = record {
      msg_header = record {
        magic = [];
        version_0 = 0;
        version_1 = 0;
        flags = 0;
        message_type = 0;
        message_size = 0;
      };
      giop_version = giop_1_0;
      base = 0;
      memory = [];
      cur = 0;
      end = 0;
    };
    body = no_body;
  };
}

-- The twelve bytes as a GIOPMsgHeader of the host.
unfoldable pub parse_header : Endian → List ℕ → MsgHeader
parse_header host bytes = record {
  magic = take 4 bytes;
  version_0 = get_or bytes 4 0;
  version_1 = get_or bytes 5 0;
  flags = get_or bytes 6 0;
  message_type = get_or bytes 7 0;
  message_size = u32_of host (drop 8 bytes);
}

-- What link_connection_read gives: nothing now, an error, or bytes.
pub data Read : Type 0 where
  would_block hung_up : Read
  bytes : List ℕ → Read

-- How a pass ends: the loop goes on, the function returns to come back later, it returns with a
-- fragment put by, it gives the connection up (msg_error), or the loop is left with a message.
pub data Turn : Type 0 where
  again blocked put_by broken : Connection → Turn
  complete : Message → Connection → Turn

-- msg_error: the buffer is freed and the connection flagged.
abbrev pub msg_error : Connection → Turn
msg_error c = broken (record c { incoming_msg = none; disconnected = true })

module _ (host : Endian) (limit : ℕ) (place : Option ℕ) (junk : ℕ) where
  -- GIOP_MSG_READING_HEADER, once the header has come, and the test of the loop.
  unfoldable pub header_read : Connection → Incoming → Outcome RecvBuffer → Outcome Turn
  header_read c i bad = ok (msg_error c)
  header_read c i fault = fault
  header_read c i (ok b) =
      let left = b.msg_header.message_size in
      let m = record i.message { buffer = b } in
      if ltb 0 left
      then ok (
          again (record c {
            incoming_msg =
                some (record i { state = reading_body; left_to_read = left; message = m });
          }))
      else ok (complete m (record c { incoming_msg = none }))

  -- A fragment with more to come.
  unfoldable pub fragment_put_by : Connection → Outcome Handled → Outcome Turn
  fragment_put_by c bad = ok (msg_error c)
  fragment_put_by c fault = fault
  fragment_put_by c (ok h) =
      let c' = record c { incoming_frags = h.incoming_frags } in
      if h.error then ok (msg_error c') else ok (put_by (record c' { incoming_msg = none }))

  -- The last fragment.
  unfoldable pub fragments_complete : Connection → Outcome Handled → Outcome Turn
  fragments_complete c bad = ok (msg_error c)
  fragments_complete c fault = fault
  fragments_complete c (ok h) =
      let c' = record c { incoming_frags = h.incoming_frags } in
      if h.error
      then ok (msg_error c')
      else ok (complete h.ret_buf (record c' { incoming_msg = none }))

  -- The rest of GIOP_MSG_READING_BODY, with the result of giop_recv_buffer_demarshal.
  unfoldable pub demarshalled : Connection → Outcome (Body × RecvBuffer) → Outcome Turn
  demarshalled c bad = ok (msg_error c)
  demarshalled c fault = fault
  demarshalled c (ok (body, b)) =
      let m : Message = record { buffer = b; body = body } in
      if more_fragments_follow b.msg_header.flags
      then fragment_put_by c (handle_fragmented host limit place junk c.is_auth c.incoming_frags m)
      else if b.msg_header.message_type == giop_fragment
      then fragments_complete c
          (handle_fragmented host limit place junk c.is_auth c.incoming_frags m)
      else ok (complete m (record c { incoming_msg = none }))

  -- GIOP_MSG_READING_BODY, once the body has come.
  unfoldable pub body_read : Connection → RecvBuffer → Outcome Turn
  body_read c b =
      let b' = record b { cur = b.base + 12 } in
      if ltb b'.end (b'.cur + b'.msg_header.message_size)
      then ok (msg_error c)
      else demarshalled c (demarshal host b')

  -- The bytes of a pass: into the header, or into the body at the read position. A pass in the
  -- state GIOP_MSG_READY fails an assertion.
  unfoldable pub bytes_read : Connection → Incoming → MsgState → List ℕ → Outcome Turn
  bytes_read c i reading_header new =
      let i' = record i { left_to_read = i.left_to_read - length new; got = i.got ++ new } in
      if i'.left_to_read == 0
      then header_read c i' (
          msg_reading_body host limit place junk c.is_auth
            (record i.message.buffer { msg_header = parse_header host i'.got }))
      else ok (again (record c { incoming_msg = some i' }))
  bytes_read c i reading_body new =
      let b = i.message.buffer in
      let b' = record b {
        memory = write_at (b.cur - b.base) new b.memory;
        cur = b.cur + length new;
      } in
      let left = i.left_to_read - length new in
      if left == 0
      then body_read c b'
      else ok (
          again (record c {
            incoming_msg =
                some (record i { left_to_read = left; message = record i.message { buffer = b' } });
          }))
  bytes_read c i msg_ready new = fault

  abbrev pub incoming : Connection → Incoming
  incoming c = elim c.incoming_msg [ none ↦ use_buf | some i ↦ i ]

  -- One pass of the loop.
  unfoldable pub handle_input : Connection → Read → Outcome Turn
  handle_input c would_block = ok (blocked (record c { incoming_msg = some (incoming c) }))
  handle_input c hung_up = ok (msg_error c)
  handle_input c (bytes new) =
      let i = incoming c in
      let seen = record c { incoming_msg = some i } in
      if i.left_to_read == 0 then ok (msg_error c) else bytes_read seen i i.state new

-- What becomes of a message: a caller gets it, the ORB's handler for requests or for locate requests
-- does, or it is dropped; `Turn`'s connection with it.
pub data Dispatched : Type 0 where
  to_caller : Handed → Connection → Dispatched
  to_request to_locate_request : Message → Connection → Dispatched
  dropped : Connection → Dispatched

-- The switch behind the loop, on a connection whose number is `cnx`.
unfoldable pub dispatch : List Entry → ℕ → Connection → Message → Dispatched
dispatch queue cnx c m =
    let t = m.buffer.msg_header.message_type in
    let handed = handle_reply queue cnx m in
    if t == giop_reply
    then to_caller handed (if handed.error then record c { disconnected = true } else c)
    else if t == giop_locate_reply
    then to_caller handed (if handed.error then record c { disconnected = true } else c)
    else if t == giop_request
    then to_request m c
    else if t == giop_locate_request
    then to_locate_request m c
    else if t == giop_cancel_request
    then dropped c
    else if t == giop_message_error
    then dropped c
    else dropped (record c { disconnected = true })
