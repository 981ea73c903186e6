-- ===== src/Examples/Journey.antt =====
-- The way of a reply at concrete inputs: from a little-endian server to a big-endian client.
use mate_corba.Prelude.{ℕ, ◌≡◌, refl, List, [], false, none, some, little}
use mate_corba.Giop.Types.{giop_reply}
use mate_corba.Giop.Messages.{service_context_data}
use mate_corba.Giop.Messages.Layout.{reply_1_2_body}
use mate_corba.Giop.RecvBuffer.Reader.{RecvBuffer}
use mate_corba.Giop.Input.Fragments.{get_request_id}
use mate_corba.Giop.Input.Queue.{setup_queue_entry}
use mate_corba.Giop.Input.Reading.{Connection, to_caller, dispatch}
use mate_corba.Giop.Input.Journey.{dispatch-setup_queue_entry}
use mate_corba.Examples.Replies.{reply_seven, waiting}

abbrev idle : Connection
idle = record { incoming_msg = none; incoming_frags = []; is_auth = false; disconnected = false }

abbrev reply_body : List ℕ
reply_body = reply_1_2_body little (service_context_data little) 7 0

dispatch-setup_queue_entry_example :
    dispatch
      (setup_queue_entry waiting 300 1 giop_reply (get_request_id reply_seven.body))
      1
      idle
      reply_seven
    ≡ to_caller
        (record {
          error = false;
          delivered = some (record {
            ent = 300;
            buffer = some reply_seven;
            cnx = some 1;
            msg_type = giop_reply;
            request_id = get_request_id reply_seven.body;
            async_cb = false;
          });
          queue = waiting;
        })
        idle
dispatch-setup_queue_entry_example = dispatch-setup_queue_entry waiting 300 1 idle reply_seven refl
