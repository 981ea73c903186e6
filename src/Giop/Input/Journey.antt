-- ===== src/Giop/Input/Journey.antt =====
-- A reply from its construction by giop-send-buffer.c to the caller that waits for it in
-- giop-recv-buffer.c.
use mate_corba.Prelude.{ℕ, ◌≡◌, refl, ap, ◌∙◌, Bool, false, ==_iff, List, some, Endian, All}
use mathlib.Core.Path.{subst}
use mate_corba.Giop.Types.{giop_1_2, giop_reply}
use mate_corba.Giop.SendBuffer.Memory.{SendBuffer}
use mate_corba.Giop.SendBuffer.Pool.{IsPooled}
use mate_corba.Giop.Messages.{service_context_data, use_reply}
use mate_corba.Giop.Messages.Layout.{reply_1_2_body}
use mate_corba.Giop.RecvBuffer.Reader.{RecvBuffer}
use mate_corba.Giop.Input.Fragments.{Message, get_request_id}
use mate_corba.Giop.Input.Queue.{Entry, Handed, setup_queue_entry, handle_reply}
use mate_corba.Giop.Input.Delivery.{handle_reply-setup_queue_entry}
use mate_corba.Giop.Input.Reading.{Connection, to_caller, dispatch}

dispatch-handle_reply :
    (queue : List Entry) (cnx : ℕ) (c : Connection) (m : Message)
    → m.buffer.msg_header.message_type ≡ giop_reply
    → (handle_reply queue cnx m).error ≡ false
    → dispatch queue cnx c m ≡ to_caller (handle_reply queue cnx m) c
unfolding dispatch
dispatch-handle_reply queue cnx c m e f =
    let is_reply = (==_iff m.buffer.msg_header.message_type giop_reply).1 e in rw (is_reply, f) refl

-- A message of the type reply whose id is that of the entry that was set up last, for replies
-- on the connection that the message came in on, is dispatched to that entry: there is no
-- error, the connection is left as it is, and so is the rest of the queue.
pub dispatch-setup_queue_entry :
    (queue : List Entry) (ent cnx : ℕ) (c : Connection) (m : Message)
    → m.buffer.msg_header.message_type ≡ giop_reply
    → dispatch (setup_queue_entry queue ent cnx giop_reply (get_request_id m.body)) cnx c m
      ≡ to_caller
          (record {
            error = false;
            delivered = some (record {
              ent = ent;
              buffer = some m;
              cnx = some cnx;
              msg_type = giop_reply;
              request_id = get_request_id m.body;
              async_cb = false;
            });
            queue = queue;
          })
          c
dispatch-setup_queue_entry queue ent cnx c m e =
    let handed : handle_reply (setup_queue_entry queue ent cnx giop_reply (get_request_id m.body))
          cnx m
        ≡ _ =
      subst
        (λ (n : ℕ).
          handle_reply (setup_queue_entry queue ent cnx n (get_request_id m.body)) cnx m ≡ record {
            error = false;
            delivered = some (record {
              ent = ent;
              buffer = some m;
              cnx = some cnx;
              msg_type = n;
              request_id = get_request_id m.body;
              async_cb = false;
            });
            queue = queue;
          })
        e (handle_reply-setup_queue_entry queue ent cnx m) in
    dispatch-handle_reply (setup_queue_entry queue ent cnx giop_reply (get_request_id m.body)) cnx c
      m e (ap (λ (h : Handed). h.error) handed)
    ∙ ap (λ h. to_caller h c) handed

module _ (host sender : Endian) (blank : Bool) (pool : List SendBuffer)
    (p : All (IsPooled sender) pool) (id status : ℕ) (limit addr junk : ℕ) (c : Connection) where
  abbrev sent : SendBuffer
  sent = (use_reply sender blank pool giop_1_2 id status).0

  abbrev body : List ℕ
  body = reply_1_2_body sender (service_context_data sender) id status
