-- ===== src/Giop/Input/Queue.antt =====
-- The callers that wait for replies: giop_queued_messages of giop-recv-buffer.c, and handle_reply.
-- A connection is a number, and so is the identity of an entry, which its caller owns.
use mate_corba.Prelude.{
  ℕ, Bool, true, false, not, ◌&&◌, ◌==◌, if◌then◌else◌, List, [], ◌∷◌, ◌++◌, Option, none, some,
}
use mate_corba.Giop.Types.{Version, giop_1_2}
use mate_corba.Giop.RecvBuffer.Demarshal.{Body, reply_1_1, reply_1_2, locate_reply}
use mate_corba.Giop.Input.Fragments.{Message, get_request_id}

-- struct _GIOPMessageQueueEntry; `async_cb` is whether there is a callback.
pub record Entry : Type 0 where
  pub ent : ℕ
  pub buffer : Option Message
  pub cnx : Option ℕ
  pub msg_type : ℕ
  pub request_id : ℕ
  pub async_cb : Bool

-- giop_recv_list_setup_queue_entry
unfoldable pub setup_queue_entry : List Entry → ℕ → ℕ → ℕ → ℕ → List Entry
setup_queue_entry queue ent cnx msg_type request_id =
    record {
      ent = ent;
      buffer = none;
      cnx = some cnx;
      msg_type = msg_type;
      request_id = request_id;
      async_cb = false;
    }
    ∷ queue

-- giop_recv_list_setup_queue_entry_async, on the entry of that identity.
unfoldable pub setup_queue_entry_async : List Entry → ℕ → List Entry
setup_queue_entry_async [] ent = []
setup_queue_entry_async (e ∷ es) ent =
    (if e.ent == ent then record e { async_cb = true } else e) ∷ setup_queue_entry_async es ent

-- g_list_remove of giop_recv_list_destroy_queue_entry: the first of that identity.
unfoldable pub destroy_queue_entry : List Entry → ℕ → List Entry
destroy_queue_entry [] ent = []
destroy_queue_entry (e ∷ es) ent =
    let rest = destroy_queue_entry es ent in if e.ent == ent then es else e ∷ rest

abbrev pub is_on : Option ℕ → ℕ → Bool
is_on none cnx = false
is_on (some c) cnx = c == cnx

-- giop_recv_list_zap: what stays in the queue, and the entries that are taken out of it, without
-- their buffer and their connection. Those with a callback are invoked, in the order of `notify`.
unfoldable pub zap : List Entry → ℕ → List Entry × List Entry
zap [] cnx = ([], [])
zap (e ∷ es) cnx =
    let rest = zap es cnx in
    if is_on e.cnx cnx
    then (rest.0, record e { buffer = none; cnx = none } ∷ rest.1)
    else (e ∷ rest.0, rest.1)

-- notify: g_slist_prepend of those with a callback turns the order round.
unfoldable pub notified : List Entry → List Entry
notified [] = []
notified (e ∷ es) = let rest = notified es in if e.async_cb then rest ++ (e ∷ []) else rest

-- giop_recv_buffer_reply_status. The status of a locate reply of 1.2 lies at the same place of the
-- union; those of the older versions leave that place zero.
unfoldable pub reply_status : Version → Body → ℕ
reply_status v (reply_1_1 r) = r.reply_status
reply_status v (reply_1_2 r) = r.reply_status
reply_status giop_1_2 (locate_reply r) = r.locate_status
reply_status _ (locate_reply r) = 0
reply_status v _ = 0

-- CORBA_SYSTEM_EXCEPTION
abbrev pub system_exception : ℕ
system_exception = 2

-- The test of handle_reply.
abbrev pub is_awaited : Entry → ℕ → ℕ → Bool
is_awaited e request_id msg_type = (e.request_id == request_id) && (e.msg_type == msg_type)

-- The search of handle_reply: the entries before the one that is found, it, and those behind.
unfoldable pub find_entry : List Entry → ℕ → ℕ → Option (List Entry × Entry × List Entry)
find_entry [] request_id msg_type = none
find_entry (e ∷ es) request_id msg_type =
    let rest = find_entry es request_id msg_type in
    if is_awaited e request_id msg_type
    then some ([], e, es)
    else elim rest [ none ↦ none | some (before, f, behind) ↦ some (e ∷ before, f, behind) ]

-- What handle_reply leaves: whether the connection is to be pulled, the entry that the buffer went
-- to, which is signalled or invoked, and the queue. A buffer that goes to no entry is freed.
pub record Handed : Type 0 where
  pub error : Bool
  pub delivered : Option Entry
  pub queue : List Entry

-- What handle_reply does with the entry that it found, if any.
unfoldable pub hand_over :
    List Entry → ℕ → Message → Option (List Entry × Entry × List Entry) → Handed
hand_over queue cnx buf none = record {
  error = not (reply_status buf.buffer.giop_version buf.body == system_exception);
  delivered = none;
  queue = queue;
}
hand_over queue cnx buf (some (before, e, behind)) =
    if is_on e.cnx cnx
    then record {
      error = false;
      delivered = some (record e { buffer = some buf });
      queue = before ++ behind;
    }
    else record { error = true; delivered = none; queue = queue }

-- handle_reply, for a message that came in on the connection `cnx`.
unfoldable pub handle_reply : List Entry → ℕ → Message → Handed
handle_reply queue cnx buf =
    hand_over queue cnx buf
      (find_entry queue (get_request_id buf.body) buf.buffer.msg_header.message_type)
