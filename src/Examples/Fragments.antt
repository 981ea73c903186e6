-- ===== src/Examples/Fragments.antt =====
-- Fragments at concrete inputs: a reply whose last but one and last fragments come in.
use mate_corba.Prelude.{
  ℕ, ◌+◌, ◌-◌, ◌≡◌, refl, arith, List, [], ◌∷◌, ◌++◌, false, some, inl, length, replicate, take,
  little, u32_of, swap32,
}
use mate_corba.Giop.Align.{align_value}
use mate_corba.Giop.Types.{giop_1_2, giop_magic, giop_reply, giop_fragment}
use mate_corba.Giop.RecvBuffer.Reader.{ok, RecvBuffer, align_cur, need, get_u32, aligned_u32}
use mate_corba.Giop.RecvBuffer.Demarshal.{no_body, reply_1_2}
use mate_corba.Giop.Input.Fragments.{
  Message, Frags, get_request_id, fragment_id, handle_fragmented, track_length, payload,
}
use mate_corba.Giop.Input.Concat.{IsTracked, payloads}
use mate_corba.Giop.Input.Reassembly.{
  Belongs, IsWhole, handle_fragmented-more, handle_fragmented-last,
}

abbrev piece : ℕ → ℕ → ℕ → List ℕ → ℕ → RecvBuffer
piece type flags size bytes skip = record {
  msg_header = record {
    magic = giop_magic;
    version_0 = 1;
    version_1 = 2;
    flags = flags;
    message_type = type;
    message_size = size;
  };
  giop_version = giop_1_2;
  base = 4096;
  memory = replicate 12 0 ++ bytes;
  cur = 4108 + skip;
  end = 4108 + length bytes;
}

-- The head: a reply to the request 7 with four bytes of its results.
abbrev head : Message
head = record {
  buffer = piece giop_reply 3 12 (7 ∷ 0 ∷ 0 ∷ 0 ∷ 0 ∷ 0 ∷ 0 ∷ 0 ∷ 1 ∷ 2 ∷ 3 ∷ 4 ∷ []) 8;
  body = reply_1_2 (record { service_context = []; request_id = 7; reply_status = 0 });
}

abbrev list : Frags
list = record { head = head; rest = [] }

-- A fragment with two bytes, as it comes in and once its id is read.
abbrev arrived : ℕ → Message
arrived flags = record {
  buffer = piece giop_fragment flags 6 (7 ∷ 0 ∷ 0 ∷ 0 ∷ 5 ∷ 6 ∷ []) 0;
  body = no_body;
}

abbrev identified : ℕ → Message
identified flags = record {
  buffer = piece giop_fragment flags 6 (7 ∷ 0 ∷ 0 ∷ 0 ∷ 5 ∷ 6 ∷ []) 4;
  body = no_body;
}

IsWhole-piece : (flags : ℕ) → IsWhole (identified flags)
IsWhole-piece flags = record { low = omega arith; within = omega arith; held = refl; sized = refl }

IsTracked-list : IsTracked list
IsTracked-list =
    unfold payloads in
    record { low = omega arith; within = omega arith; held = refl; tracked = refl }

more_Belongs : Belongs little 262144 false (list ∷ []) (arrived 3) (identified 3) [] list []
more_Belongs = record {
  id = 7;
  identified =
      unfold fragment_id aligned_u32 align_cur need get_u32 align_value u32_of swap32 in refl;
  same_body = refl;
  placed = unfold get_request_id in (refl, inl (refl, tt));
  allowed = refl;
  headed = refl;
  tracked = IsTracked-list;
  whole = IsWhole-piece 3;
  small = omega arith;
}

last_Belongs : Belongs little 262144 false (list ∷ []) (arrived 1) (identified 1) [] list []
last_Belongs = record {
  id = 7;
  identified =
      unfold fragment_id aligned_u32 align_cur need get_u32 align_value u32_of swap32 in refl;
  same_body = refl;
  placed = unfold get_request_id in (refl, inl (refl, tt));
  allowed = refl;
  headed = refl;
  tracked = IsTracked-list;
  whole = IsWhole-piece 1;
  small = omega arith;
}

handle_fragmented-more_example :
    (handle_fragmented little 262144 (some 8192) 0 false (list ∷ []) (arrived 3)
      ≡ ok (record {
        error = false;
        ret_buf = track_length head (identified 3).buffer;
        incoming_frags =
            record { head = track_length head (identified 3).buffer; rest = identified 3 ∷ [] }
            ∷ [];
      }))
    × IsTracked
        (record { head = track_length head (identified 3).buffer; rest = identified 3 ∷ [] })
    × (list ∷ [] ≡ list ∷ [])
handle_fragmented-more_example =
    handle_fragmented-more little 262144 8192 0 false (list ∷ []) (arrived 3) (identified 3) [] list
      [] more_Belongs refl

handle_fragmented-last_example :
    (whole : Message) × (handle_fragmented little 262144 (some 8192) 0 false (list ∷ []) (arrived 1)
      ≡ ok (record { error = false; ret_buf = whole; incoming_frags = [] }))
    × (take (whole.buffer.end - whole.buffer.base) whole.buffer.memory
        ≡ list.head.buffer.memory ++ (payloads [] ++ payload (identified 1).buffer))
    × (list ∷ [] ≡ list ∷ [])
handle_fragmented-last_example =
    handle_fragmented-last little 262144 8192 0 false (list ∷ []) (arrived 1) (identified 1) [] list
      [] last_Belongs refl refl refl
