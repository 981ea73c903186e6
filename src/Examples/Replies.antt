-- ===== src/Examples/Replies.antt =====
-- Replies at concrete inputs: two callers on two connections, and one reply.
use mate_corba.Prelude.{◌≡◌, List, [], ◌∷◌, false, none, some, replicate, ◌++◌}
use mate_corba.Giop.Types.{giop_1_2, giop_magic, giop_reply}
use mate_corba.Giop.RecvBuffer.Demarshal.{reply_1_2}
use mate_corba.Giop.Input.Fragments.{Message, get_request_id}
use mate_corba.Giop.Input.Queue.{Entry, setup_queue_entry, zap, handle_reply}
use mate_corba.Giop.Input.Delivery.{
  IsHanded, handle_reply-IsHanded, handle_reply-setup_queue_entry, handle_reply-zap,
}

-- A reply to the request 7.
abbrev pub reply_seven : Message
reply_seven = record {
  buffer = record {
    msg_header = record {
      magic = giop_magic;
      version_0 = 1;
      version_1 = 2;
      flags = 1;
      message_type = giop_reply;
      message_size = 8;
    };
    giop_version = giop_1_2;
    base = 4096;
    memory = replicate 12 0 ++ (7 ∷ 0 ∷ 0 ∷ 0 ∷ 0 ∷ 0 ∷ 0 ∷ 0 ∷ []);
    cur = 4116;
    end = 4116;
  };
  body = reply_1_2 (record { service_context = []; request_id = 7; reply_status = 0 });
}

abbrev pub waiting : List Entry
waiting = setup_queue_entry (setup_queue_entry [] 100 1 giop_reply 7) 200 2 giop_reply 8

handle_reply-IsHanded_example : IsHanded waiting 1 reply_seven (handle_reply waiting 1 reply_seven)
handle_reply-IsHanded_example = handle_reply-IsHanded waiting 1 reply_seven

handle_reply-setup_queue_entry_example :
    handle_reply (setup_queue_entry waiting 300 1 giop_reply 7) 1 reply_seven ≡ record {
      error = false;
      delivered = some (record {
        ent = 300;
        buffer = some reply_seven;
        cnx = some 1;
        msg_type = giop_reply;
        request_id = 7;
        async_cb = false;
      });
      queue = waiting;
    }
handle_reply-setup_queue_entry_example =
    unfold get_request_id in (handle_reply-setup_queue_entry waiting 300 1 reply_seven)

handle_reply-zap_example :
    ((handle_reply (zap waiting 1).0 1 reply_seven).delivered ≡ none)
    × ((handle_reply (zap waiting 1).0 1 reply_seven).queue ≡ (zap waiting 1).0)
handle_reply-zap_example = handle_reply-zap waiting 1 reply_seven
