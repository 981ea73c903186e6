-- ===== src/Examples/Receiving.antt =====
-- Receiving at concrete inputs: messages of a little-endian host, read by a big-endian one.
use mate_corba.Prelude.{
  ℕ, ◌+◌, ◌<◌, ◌≡◌, refl, ap, arith, List, [], ◌∷◌, ◌++◌, true, false, none, length, replicate,
  drop, big, little, u32_bytes, u16_bytes,
}
use mate_corba.Giop.Align.{align_value}
use mate_corba.Giop.Types.{
  Version, giop_1_1, giop_1_2, giop_request, giop_reply, giop_locate_request, giop_locate_reply,
}
use mate_corba.Giop.SendBuffer.Memory.{SendBuffer, wire}
use mate_corba.Giop.Messages.{
  Octets, use_request, use_reply, use_locate_request, use_locate_reply, service_context_data,
}
use mate_corba.Giop.Messages.Layout.{
  reply_1_2_body, reply_1_1_body, request_1_2_body, request_1_1_body, locate_request_1_2_body,
  locate_request_1_1_body, locate_reply_body, cdr_align, cdr_octets, operation_vec,
}
use mate_corba.Giop.Messages.Wire.{
  Sends, use_reply_1_2-Sends, use_reply_1_1-Sends, use_request_1_2-Sends, use_request_1_1-Sends,
  use_locate_request_1_2-Sends, use_locate_request_1_1-Sends, use_locate_reply-Sends,
}
use mate_corba.Giop.SendBuffer.Append.{padding}
use mate_corba.Giop.RecvBuffer.Reader.{ok, RecvBuffer, Slice}
use mate_corba.Giop.RecvBuffer.Demarshal.{
  key_addr, request_1_1, request_1_2, reply_1_1, reply_1_2, locate_request_1_1, locate_request_1_2,
  locate_reply, demarshal,
}
use mate_corba.Giop.RecvBuffer.At.{at}
use mate_corba.Giop.RecvBuffer.Parts.{code_sets}
use mate_corba.Giop.RecvBuffer.RoundTrip.{
  Carries, Sends-body, operation_octets, operation-pos, demarshal-use_reply_1_2,
  demarshal-use_reply_1_1, demarshal-use_locate_reply, demarshal-use_locate_request_1_2,
  demarshal-use_locate_request_1_1, demarshal-use_request_1_2, demarshal-use_request_1_1,
}

-- The message of `s` in a fresh buffer at 4096.
abbrev pub carried : Version → SendBuffer → RecvBuffer
carried v s = record {
  msg_header = s.msg_header;
  giop_version = v;
  base = 4096;
  memory = replicate 12 0 ++ drop 12 (wire little s);
  cur = 4108;
  end = 4096 + (12 + length (drop 12 (wire little s)));
}

carried-Carries :
    (v : Version) (s : SendBuffer)
    → length (drop 12 (wire little s)) < 65536
    → Carries little v s (carried v s)
carried-Carries v s h = record {
  same_type = refl;
  same_flags = refl;
  same_version = refl;
  room = replicate 12 0;
  room_size = refl;
  held = refl;
  ends = refl;
  starts = refl;
  aligned = refl;
  small = omega arith;
  low = omega arith;
}

is_small :
    (v : Version) (t : ℕ) (s : SendBuffer) (body : List ℕ)
    → Sends little v t s body
    → length body < 65536
    → length (drop 12 (wire little s)) < 65536
is_small v t s body i h = omega (arith, ap length (Sends-body little v t s body i))

abbrev key : Octets
key = record { addr = 4096; bytes = 1 ∷ 2 ∷ 3 ∷ 4 ∷ 5 ∷ [] }

abbrev ping : List ℕ
ping = b'p' ∷ b'i' ∷ b'n' ∷ b'g' ∷ []

abbrev sent_use_reply_1_2 : SendBuffer
sent_use_reply_1_2 = (use_reply little false [] giop_1_2 7 0).0

use_reply_1_2-Carries :
    Carries little giop_1_2 sent_use_reply_1_2 (carried giop_1_2 sent_use_reply_1_2)
unfolding reply_1_2_body cdr_align padding align_value service_context_data u32_bytes
use_reply_1_2-Carries = carried-Carries giop_1_2 sent_use_reply_1_2 (
    is_small giop_1_2 giop_reply sent_use_reply_1_2
      (reply_1_2_body little (service_context_data little) 7 0)
      (use_reply_1_2-Sends little false [] tt 7 0) (omega arith))

demarshal-use_reply_1_2_example :
    demarshal big (carried giop_1_2 sent_use_reply_1_2)
    ≡ ok (
      reply_1_2 (record { service_context = code_sets little; request_id = 7; reply_status = 0 }),
      at
          (carried giop_1_2 sent_use_reply_1_2)
          (reply_1_2_body little (service_context_data little) 7 0),
    )
demarshal-use_reply_1_2_example =
    demarshal-use_reply_1_2 big little false [] tt (carried giop_1_2 sent_use_reply_1_2) 7 0
      (omega arith) (omega arith) use_reply_1_2-Carries

abbrev sent_use_reply_1_1 : SendBuffer
sent_use_reply_1_1 = (use_reply little false [] giop_1_1 7 0).0

use_reply_1_1-Carries :
    Carries little giop_1_1 sent_use_reply_1_1 (carried giop_1_1 sent_use_reply_1_1)
unfolding reply_1_1_body cdr_align padding align_value service_context_data u32_bytes
use_reply_1_1-Carries = carried-Carries giop_1_1 sent_use_reply_1_1 (
    is_small giop_1_1 giop_reply sent_use_reply_1_1
      (reply_1_1_body little (service_context_data little) 7 0)
      (use_reply_1_1-Sends little false [] tt 7 0) (omega arith))

demarshal-use_reply_1_1_example :
    demarshal big (carried giop_1_1 sent_use_reply_1_1)
    ≡ ok (
      reply_1_1 (record { service_context = code_sets little; request_id = 7; reply_status = 0 }),
      at
          (carried giop_1_1 sent_use_reply_1_1)
          (reply_1_1_body little (service_context_data little) 7 0),
    )
demarshal-use_reply_1_1_example =
    demarshal-use_reply_1_1 big little false [] tt (carried giop_1_1 sent_use_reply_1_1) 7 0
      (omega arith) (omega arith) use_reply_1_1-Carries

abbrev sent_use_locate_reply : SendBuffer
sent_use_locate_reply = (use_locate_reply little false [] giop_1_2 7 1).0

use_locate_reply-Carries :
    Carries little giop_1_2 sent_use_locate_reply (carried giop_1_2 sent_use_locate_reply)
unfolding locate_reply_body cdr_align padding align_value service_context_data u32_bytes
use_locate_reply-Carries = carried-Carries giop_1_2 sent_use_locate_reply (
    is_small giop_1_2 giop_locate_reply sent_use_locate_reply (locate_reply_body little 7 1)
      (use_locate_reply-Sends little false [] tt giop_1_2 7 1) (omega arith))

demarshal-use_locate_reply_example :
    demarshal big (carried giop_1_2 sent_use_locate_reply)
    ≡ ok (
      locate_reply (record { request_id = 7; locate_status = 1 }),
      at (carried giop_1_2 sent_use_locate_reply) (locate_reply_body little 7 1),
    )
demarshal-use_locate_reply_example =
    demarshal-use_locate_reply big little false [] tt (carried giop_1_2 sent_use_locate_reply) 7 1
      (omega arith) (omega arith) use_locate_reply-Carries

abbrev sent_use_locate_request_1_2 : SendBuffer
sent_use_locate_request_1_2 = (use_locate_request little false [] giop_1_2 7 key).0

use_locate_request_1_2-Carries :
    Carries little giop_1_2 sent_use_locate_request_1_2
      (carried giop_1_2 sent_use_locate_request_1_2)
unfolding locate_request_1_2_body cdr_octets u16_bytes cdr_align padding align_value
    service_context_data u32_bytes
use_locate_request_1_2-Carries = carried-Carries giop_1_2 sent_use_locate_request_1_2 (
    is_small giop_1_2 giop_locate_request sent_use_locate_request_1_2
      (locate_request_1_2_body little 7 key.bytes)
      (use_locate_request_1_2-Sends little false [] tt 7 key (omega arith)) (omega arith))

demarshal-use_locate_request_1_2_example :
    (s : Slice) × (s.bytes ≡ key.bytes)
    × (demarshal big (carried giop_1_2 sent_use_locate_request_1_2)
        ≡ ok (
          locate_request_1_2 (record { request_id = 7; target = key_addr s }),
          at
              (carried giop_1_2 sent_use_locate_request_1_2)
              (locate_request_1_2_body little 7 key.bytes),
        ))
demarshal-use_locate_request_1_2_example =
    demarshal-use_locate_request_1_2 big little false [] tt
      (carried giop_1_2 sent_use_locate_request_1_2) 7 key (omega arith) (omega arith) (omega arith)
      use_locate_request_1_2-Carries

abbrev sent_use_locate_request_1_1 : SendBuffer
sent_use_locate_request_1_1 = (use_locate_request little false [] giop_1_1 7 key).0

use_locate_request_1_1-Carries :
    Carries little giop_1_1 sent_use_locate_request_1_1
      (carried giop_1_1 sent_use_locate_request_1_1)
unfolding locate_request_1_1_body cdr_octets u16_bytes cdr_align padding align_value
    service_context_data u32_bytes
use_locate_request_1_1-Carries = carried-Carries giop_1_1 sent_use_locate_request_1_1 (
    is_small giop_1_1 giop_locate_request sent_use_locate_request_1_1
      (locate_request_1_1_body little 7 key.bytes)
      (use_locate_request_1_1-Sends little false [] tt 7 key (omega arith)) (omega arith))

demarshal-use_locate_request_1_1_example :
    (s : Slice) × (s.bytes ≡ key.bytes)
    × (demarshal big (carried giop_1_1 sent_use_locate_request_1_1)
        ≡ ok (
          locate_request_1_1 (record { request_id = 7; object_key = s }),
          at
              (carried giop_1_1 sent_use_locate_request_1_1)
              (locate_request_1_1_body little 7 key.bytes),
        ))
demarshal-use_locate_request_1_1_example =
    demarshal-use_locate_request_1_1 big little false [] tt
      (carried giop_1_1 sent_use_locate_request_1_1) 7 key (omega arith) (omega arith) (omega arith)
      use_locate_request_1_1-Carries

abbrev sent_use_request_1_2 : SendBuffer
sent_use_request_1_2 =
    (use_request little false [] giop_1_2 7 true key (operation_octets little 8192 ping) none).0

use_request_1_2-Carries :
    Carries little giop_1_2 sent_use_request_1_2 (carried giop_1_2 sent_use_request_1_2)
unfolding request_1_2_body operation_vec cdr_octets u16_bytes cdr_align padding align_value
    service_context_data u32_bytes
use_request_1_2-Carries = carried-Carries giop_1_2 sent_use_request_1_2 (
    is_small giop_1_2 giop_request sent_use_request_1_2
      (request_1_2_body little (service_context_data little) 7 3 key.bytes
        (operation_vec little ping))
      (use_request_1_2-Sends little false [] tt 7 true key (operation_octets little 8192 ping) none
        (omega arith) (operation-pos little ping))
      (omega arith))

demarshal-use_request_1_2_example :
    (s o : Slice) × (s.bytes ≡ key.bytes)
    × (o.bytes ≡ ping ++ (0 ∷ []))
    × (demarshal big (carried giop_1_2 sent_use_request_1_2)
        ≡ ok (
          request_1_2 (record {
            request_id = 7;
            response_flags = 3;
            target = key_addr s;
            operation = o;
            service_context = code_sets little;
          }),
          at (carried giop_1_2 sent_use_request_1_2) (
              request_1_2_body little
                (service_context_data little)
                7
                3
                key.bytes
                (operation_vec little ping)),
        ))
demarshal-use_request_1_2_example =
    demarshal-use_request_1_2 big little false [] tt (carried giop_1_2 sent_use_request_1_2) 7 8192
      true key ping none (omega arith) (omega arith) (omega arith) (omega arith)
      use_request_1_2-Carries

abbrev sent_use_request_1_1 : SendBuffer
sent_use_request_1_1 =
    (use_request little false [] giop_1_1 7 false key (operation_octets little 8192 ping) none).0

use_request_1_1-Carries :
    Carries little giop_1_1 sent_use_request_1_1 (carried giop_1_1 sent_use_request_1_1)
unfolding request_1_1_body operation_vec cdr_octets u16_bytes cdr_align padding align_value
    service_context_data u32_bytes
use_request_1_1-Carries = carried-Carries giop_1_1 sent_use_request_1_1 (
    is_small giop_1_1 giop_request sent_use_request_1_1
      (request_1_1_body little (service_context_data little) 7 0 key.bytes
        (operation_vec little ping) (replicate 4 0))
      (use_request_1_1-Sends little false [] tt 7 false key (operation_octets little 8192 ping) none
        (omega arith) (operation-pos little ping) (omega arith))
      (omega arith))

demarshal-use_request_1_1_example :
    (s o q : Slice) × (s.bytes ≡ key.bytes)
    × (o.bytes ≡ ping ++ (0 ∷ []))
    × (q.bytes ≡ [])
    × (demarshal big (carried giop_1_1 sent_use_request_1_1)
        ≡ ok (
          request_1_1 (record {
            service_context = code_sets little;
            request_id = 7;
            response_expected = 0;
            object_key = s;
            operation = o;
            requesting_principal = q;
          }),
          at (carried giop_1_1 sent_use_request_1_1) (
              request_1_1_body little
                (service_context_data little)
                7
                0
                key.bytes
                (operation_vec little ping)
                (replicate 4 0)),
        ))
demarshal-use_request_1_1_example =
    demarshal-use_request_1_1 big little false [] tt (carried giop_1_1 sent_use_request_1_1) 7 8192
      false key ping (omega arith) (omega arith) (omega arith) (omega arith) use_request_1_1-Carries
