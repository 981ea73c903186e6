-- ===== src/Giop/RecvBuffer/RoundTrip.antt =====
-- From one host to another: a message that giop-send-buffer.c starts on a host of one byte order,
-- carried to a receive buffer on a host of any, is demarshalled by giop-recv-buffer.c.
use mate_corba.Prelude.{
  ℕ, ◌+◌, ◌%◌, ◌≤◌, ◌<◌, ◌≡◌, refl, sym, ap, ◌∙◌, arith, List, [], ◌∷◌, ◌++◌, leb, length,
  replicate, drop, drop-append, u32_mod, u64_mod, Endian, big, little, differ, Bool, if◌then◌else◌,
  Option, none, All, append-nil,
}
use mate_corba.Prelude.{u32_bytes}
use mathlib.Core.Path.{subst}
use mate_corba.Giop.Types.{
  Version, giop_1_1, giop_1_2, giop_num_msg_types, giop_request, giop_reply, giop_locate_request,
  giop_locate_reply, header_bytes, flag_endianness, conversion_needed,
}
use mate_corba.Giop.SendBuffer.Memory.{SendBuffer, wire}
use mate_corba.Giop.SendBuffer.Pool.{IsPooled}
use mate_corba.Giop.Messages.{
  Octets, service_context_data, boolean_octet, use_request, use_reply, use_locate_request,
  use_locate_reply,
}
use mate_corba.Giop.Messages.Layout.{
  operation_vec, request_1_2_body, request_1_1_body, reply_1_2_body, reply_1_1_body,
  locate_request_1_2_body, locate_request_1_1_body, locate_reply_body,
}
use mate_corba.Giop.Messages.Wire.{
  Sends, length-header_bytes, use_request_1_2-Sends, use_request_1_1-Sends, use_reply_1_2-Sends,
  use_reply_1_1-Sends, use_locate_request_1_2-Sends, use_locate_request_1_1-Sends,
  use_locate_reply-Sends,
}
use mate_corba.Giop.RecvBuffer.Reader.{
  Outcome, ok, bad, bad, RecvBuffer, Reader, Slice, >>=-eq_of_ok,
}
use mate_corba.Giop.RecvBuffer.Demarshal.{
  key_addr, request_1_1, request_1_2, reply_1_1, reply_1_2, locate_request_1_1, locate_request_1_2,
  locate_reply, demarshal_request_1_1, demarshal_request_1_2, demarshal_reply_1_1,
  demarshal_reply_1_2, demarshal_locate_request_1_1, demarshal_locate_request_1_2,
  demarshal_locate_reply, demarshal, decode_old, decode_1_2, decode_of, decode_of,
}
use mate_corba.Giop.RecvBuffer.At.{Received, at}
use mate_corba.Giop.RecvBuffer.Parts.{code_sets}
use mate_corba.Giop.RecvBuffer.Replies.{
  demarshal_reply_1_2-at, demarshal_reply_1_1-at, demarshal_locate_reply-at,
  demarshal_locate_request_1_2-at, demarshal_locate_request_1_1-at,
}
use mate_corba.Giop.RecvBuffer.Requests.{demarshal_request_1_2-at}
use mate_corba.Giop.RecvBuffer.OldRequests.{demarshal_request_1_1-at}

-- The receive buffer `b` holds the message that `s` holds: the header's type and flags, and what
-- follows the header behind twelve bytes of room, in memory that is aligned to eight and ends
-- below the end of the address space, read from its start.
pub record Carries (sender : Endian) (v : Version) (s : SendBuffer) (b : RecvBuffer) : Type 0 where
  pub same_type : b.msg_header.message_type ≡ s.msg_header.message_type
  pub same_flags : b.msg_header.flags ≡ s.msg_header.flags
  pub same_version : b.giop_version ≡ v
  pub room : List ℕ
  pub room_size : length room ≡ 12
  pub held : b.memory ≡ room ++ drop 12 (wire sender s)
  pub ends : b.end ≡ b.base + (12 + length (drop 12 (wire sender s)))
  pub starts : b.cur ≡ b.base + 12
  pub aligned : b.base % 8 ≡ 0
  pub small : length (drop 12 (wire sender s)) + 12 < u32_mod
  pub low : b.end + 8 ≤ u64_mod

pub flag_order :
    (host sender : Endian) → conversion_needed host (flag_endianness sender) ≡ differ sender host
flag_order big big = refl
flag_order big little = refl
flag_order little big = refl
flag_order little little = refl

-- What follows the header of a message.
pub Sends-body :
    (sender : Endian) (v : Version) (t : ℕ) (s : SendBuffer) (body : List ℕ)
    → Sends sender v t s body
    → drop 12 (wire sender s) ≡ body
Sends-body sender v t s body i =
    rw (i.wired, ← length-header_bytes sender s.msg_header i.magic)
      (drop-append (header_bytes sender s.msg_header) body)

module _ (host sender : Endian) (v : Version) (t : ℕ) (s : SendBuffer) (b : RecvBuffer)
    (body : List ℕ) (i : Sends sender v t s body) (c : Carries sender v s b) where
  body_wire : drop 12 (wire sender s) ≡ body
  body_wire = Sends-body sender v t s body i

  Carries-Received : Received host sender b body
  Carries-Received = record {
    room = c.room;
    room_size = c.room_size;
    held = rw (c.held, body_wire);
    ends = c.ends ∙ ap (λ x. b.base + (12 + length x)) body_wire;
    aligned = c.aligned;
    small = rw body_wire at c.small;
    low = c.low;
    order = rw (c.same_flags, i.flagged) (flag_order host sender);
  }

  at_start : at b [] ≡ b
  at_start = ap (λ (n : ℕ). record b { cur = n }) (sym c.starts)

  type_of : b.msg_header.message_type ≡ t
  type_of = c.same_type ∙ i.typed

-- The iovec that the caller passes for the operation.
abbrev pub operation_octets : Endian → ℕ → List ℕ → Octets
operation_octets sender a name = record { addr = a; bytes = operation_vec sender name }

pub operation-pos : (sender : Endian) (name : List ℕ) → 0 < length (operation_vec sender name)
unfolding operation_vec u32_bytes
operation-pos big name = omega arith
operation-pos little name = omega arith

demarshal-dispatch :
    (host : Endian) (b : RecvBuffer) (v : Version) (t : ℕ)
    → b.msg_header.message_type ≡ t
    → b.giop_version ≡ v
    → demarshal host b ≡ (if leb giop_num_msg_types t then bad else decode_of host v t b)
unfolding demarshal
demarshal-dispatch host b v t e f =
    ap (λ x. if leb giop_num_msg_types x then bad else decode_of host b.giop_version x b) e
    ∙ ap (λ x. if leb giop_num_msg_types t then bad else decode_of host x t b) f

module _ (host sender : Endian) (blank : Bool) (pool : List SendBuffer)
    (p : All (IsPooled sender) pool) (b : RecvBuffer) where
  start :
      (v : Version) (t : ℕ) (s : SendBuffer) (body : List ℕ) {A : Type 0} (m : Reader A)
      {r : Outcome (A × RecvBuffer)}
      → Sends sender v t s body
      → Carries sender v s b
      → m (at b []) ≡ r
      → m b ≡ r
  start v t s body m {r} i c e = subst (λ x. m x ≡ r) (at_start host sender v t s b body i c) e

  -- A reply of GIOP 1.2 built by use_reply on a host of one byte order, from a pool in which
  -- every buffer is fit for use; the receive buffer has the type, the flags and the version of
  -- the message and holds the bytes behind the header, in memory aligned to eight that ends at
  -- least eight bytes below the end of the address space, and the message is shorter than 2^32
  -- bytes. Then demarshal on a host of any byte order succeeds, with the id, the status and the
  -- code-set context that were sent, and has read the aligned header part to its end. Id and
  -- status are below 2^32.
  pub demarshal-use_reply_1_2 :
      (id status : ℕ)
      → id < u32_mod
      → status < u32_mod
      → Carries sender giop_1_2 (use_reply sender blank pool giop_1_2 id status).0 b
      → demarshal host b
        ≡ ok (
          reply_1_2 (record {
            service_context = code_sets sender;
            request_id = id;
            reply_status = status;
          }),
          at b (reply_1_2_body sender (service_context_data sender) id status),
        )
  unfolding decode_1_2
  demarshal-use_reply_1_2 id status i h c =
      let sent = use_reply_1_2-Sends sender blank pool p id status in
      let body = reply_1_2_body sender (service_context_data sender) id status in
      let r = Carries-Received host sender giop_1_2 giop_reply _ b body sent c in
      let read =
        demarshal_reply_1_2-at host sender b body r id status i h ([], sym (append-nil body)) in
      demarshal-dispatch host b giop_1_2 giop_reply
        (type_of host sender giop_1_2 giop_reply _ b body sent c) c.same_version
      ∙ >>=-eq_of_ok (demarshal_reply_1_2 host) _ b
          (start giop_1_2 giop_reply _ body (demarshal_reply_1_2 host) sent c read) refl

  -- A reply of GIOP 1.1 built by use_reply on a host of one byte order, from a pool in which
  -- every buffer is fit for use; the receive buffer has the type, the flags and the version of
  -- the message and holds the bytes behind the header, in memory aligned to eight that ends at
  -- least eight bytes below the end of the address space, and the message is shorter than 2^32
  -- bytes. Then demarshal on a host of any byte order succeeds, with the id, the status and the
  -- code-set context that were sent, and has read them to their end. Id and status are below
  -- 2^32.
  pub demarshal-use_reply_1_1 :
      (id status : ℕ)
      → id < u32_mod
      → status < u32_mod
      → Carries sender giop_1_1 (use_reply sender blank pool giop_1_1 id status).0 b
      → demarshal host b
        ≡ ok (
          reply_1_1 (record {
            service_context = code_sets sender;
            request_id = id;
            reply_status = status;
          }),
          at b (reply_1_1_body sender (service_context_data sender) id status),
        )
  unfolding decode_old
  demarshal-use_reply_1_1 id status i h c =
      let sent = use_reply_1_1-Sends sender blank pool p id status in
      let body = reply_1_1_body sender (service_context_data sender) id status in
      let r = Carries-Received host sender giop_1_1 giop_reply _ b body sent c in
      let read =
        demarshal_reply_1_1-at host sender b body r id status i h ([], sym (append-nil body)) in
      demarshal-dispatch host b giop_1_1 giop_reply
        (type_of host sender giop_1_1 giop_reply _ b body sent c) c.same_version
      ∙ >>=-eq_of_ok (demarshal_reply_1_1 host) _ b
          (start giop_1_1 giop_reply _ body (demarshal_reply_1_1 host) sent c read) refl

  -- A locate reply of GIOP 1.2 built by use_locate_reply on a host of one byte order, from a
  -- pool in which every buffer is fit for use; the receive buffer has the type, the flags and
  -- the version of the message and holds the bytes behind the header, in memory aligned to
  -- eight that ends at least eight bytes below the end of the address space, and the message is
  -- shorter than 2^32 bytes. Then demarshal on a host of any byte order succeeds, with the id
  -- and the status that were sent, and has read it to its end. Id and status are below 2^32.
  pub demarshal-use_locate_reply :
      (id status : ℕ)
      → id < u32_mod
      → status < u32_mod
      → Carries sender giop_1_2 (use_locate_reply sender blank pool giop_1_2 id status).0 b
      → demarshal host b
        ≡ ok (
          locate_reply (record { request_id = id; locate_status = status }),
          at b (locate_reply_body sender id status),
        )
  unfolding decode_1_2
  demarshal-use_locate_reply id status i h c =
      let sent = use_locate_reply-Sends sender blank pool p giop_1_2 id status in
      let body = locate_reply_body sender id status in
      let r = Carries-Received host sender giop_1_2 giop_locate_reply _ b body sent c in
      let read =
        demarshal_locate_reply-at host sender b body r id status i h ([], sym (append-nil body)) in
      demarshal-dispatch host b giop_1_2 giop_locate_reply
        (type_of host sender giop_1_2 giop_locate_reply _ b body sent c) c.same_version
      ∙ >>=-eq_of_ok (demarshal_locate_reply host) _ b
          (start giop_1_2 giop_locate_reply _ body (demarshal_locate_reply host) sent c read) refl

  -- A locate request of GIOP 1.2 with a key that is not empty, built by use_locate_request on a
  -- host of one byte order, from a pool in which every buffer is fit for use; the receive
  -- buffer has the type, the flags and the version of the message and holds the bytes behind
  -- the header, in memory aligned to eight that ends at least eight bytes below the end of the
  -- address space, and the message is shorter than 2^32 bytes. Then demarshal on a host of any
  -- byte order succeeds, with the id and the key that were sent, and has read it to its end.
  -- The id and the key's length are below 2^32.
  pub demarshal-use_locate_request_1_2 :
      (id : ℕ) (key : Octets)
      → id < u32_mod
      → length key.bytes < u32_mod
      → 0 < length key.bytes
      → Carries sender giop_1_2 (use_locate_request sender blank pool giop_1_2 id key).0 b
      → (s : Slice) × (s.bytes ≡ key.bytes)
        × (demarshal host b
            ≡ ok (
              locate_request_1_2 (record { request_id = id; target = key_addr s }),
              at b (locate_request_1_2_body sender id key.bytes),
            ))
  unfolding decode_1_2
  demarshal-use_locate_request_1_2 id key i l n c =
      let sent = use_locate_request_1_2-Sends sender blank pool p id key n in
      let body = locate_request_1_2_body sender id key.bytes in
      let r = Carries-Received host sender giop_1_2 giop_locate_request _ b body sent c in
      let (s, e0, read) =
        demarshal_locate_request_1_2-at host sender b body r id key.bytes i l
          ([], sym (append-nil body)) in
      (
        s,
        e0,
        demarshal-dispatch host b giop_1_2 giop_locate_request
              (type_of host sender giop_1_2 giop_locate_request _ b body sent c) c.same_version
            ∙ >>=-eq_of_ok (demarshal_locate_request_1_2 host) _ b
                (start giop_1_2 giop_locate_request _ body (demarshal_locate_request_1_2 host) sent
                  c read)
                refl,
      )

  -- A locate request of GIOP 1.1 with a key that is not empty, built by use_locate_request on a
  -- host of one byte order, from a pool in which every buffer is fit for use; the receive
  -- buffer has the type, the flags and the version of the message and holds the bytes behind
  -- the header, in memory aligned to eight that ends at least eight bytes below the end of the
  -- address space, and the message is shorter than 2^32 bytes. Then demarshal on a host of any
  -- byte order succeeds, with the id and the key that were sent, and has read it to its end.
  -- The id and the key's length are below 2^32.
  pub demarshal-use_locate_request_1_1 :
      (id : ℕ) (key : Octets)
      → id < u32_mod
      → length key.bytes < u32_mod
      → 0 < length key.bytes
      → Carries sender giop_1_1 (use_locate_request sender blank pool giop_1_1 id key).0 b
      → (s : Slice) × (s.bytes ≡ key.bytes)
        × (demarshal host b
            ≡ ok (
              locate_request_1_1 (record { request_id = id; object_key = s }),
              at b (locate_request_1_1_body sender id key.bytes),
            ))
  unfolding decode_old
  demarshal-use_locate_request_1_1 id key i l n c =
      let sent = use_locate_request_1_1-Sends sender blank pool p id key n in
      let body = locate_request_1_1_body sender id key.bytes in
      let r = Carries-Received host sender giop_1_1 giop_locate_request _ b body sent c in
      let (s, e0, read) =
        demarshal_locate_request_1_1-at host sender b body r id key.bytes i l
          ([], sym (append-nil body)) in
      (
        s,
        e0,
        demarshal-dispatch host b giop_1_1 giop_locate_request
              (type_of host sender giop_1_1 giop_locate_request _ b body sent c) c.same_version
            ∙ >>=-eq_of_ok (demarshal_locate_request_1_1 host) _ b
                (start giop_1_1 giop_locate_request _ body (demarshal_locate_request_1_1 host) sent
                  c read)
                refl,
      )

  -- A request of GIOP 1.2 built by use_request on a host of one byte order, from a pool in
  -- which every buffer is fit for use; the receive buffer has the type, the flags and the
  -- version of the message and holds the bytes behind the header, in memory aligned to eight
  -- that ends at least eight bytes below the end of the address space, and the message is
  -- shorter than 2^32 bytes. Then demarshal on a host of any byte order succeeds, with the id,
  -- the response flags, the key, the operation's name with its NUL and the code-set context
  -- that were sent, and has read to the end of the request's header part. The key is not empty,
  -- and the id and the lengths are below 2^32.
  pub demarshal-use_request_1_2 :
      (id a : ℕ) (expected : Bool) (key : Octets) (name : List ℕ) (principal : Option Octets)
      → id < u32_mod
      → length key.bytes < u32_mod
      → 0 < length key.bytes
      → length name + 1 < u32_mod
      → Carries sender giop_1_2
          (use_request sender blank pool giop_1_2 id expected key
            (operation_octets sender a name)
            principal).0
          b
      → (s o : Slice) × (s.bytes ≡ key.bytes)
        × (o.bytes ≡ name ++ (0 ∷ []))
        × (demarshal host b
            ≡ ok (
              request_1_2 (record {
                request_id = id;
                response_flags = if expected then 3 else 0;
                target = key_addr s;
                operation = o;
                service_context = code_sets sender;
              }),
              at b (
                  request_1_2_body sender
                    (service_context_data sender)
                    id
                    (if expected then 3 else 0)
                    key.bytes
                    (operation_vec sender name)),
            ))
  unfolding decode_1_2
  demarshal-use_request_1_2 id a expected key name principal i l n m c =
      let sent =
        use_request_1_2-Sends sender blank pool p id expected key (operation_octets sender a name)
          principal n (operation-pos sender name) in
      let body =
        request_1_2_body sender (service_context_data sender) id (if expected then 3 else 0)
          key.bytes (operation_vec sender name) in
      let r = Carries-Received host sender giop_1_2 giop_request _ b body sent c in
      let (s, o, e0, e1, read) =
        demarshal_request_1_2-at host sender b body r id (if expected then 3 else 0) key.bytes name
          i l m ([], sym (append-nil body)) in
      (
        s,
        o,
        e0,
        e1,
        demarshal-dispatch host b giop_1_2 giop_request
              (type_of host sender giop_1_2 giop_request _ b body sent c) c.same_version
            ∙ >>=-eq_of_ok (demarshal_request_1_2 host) _ b
                (start giop_1_2 giop_request _ body (demarshal_request_1_2 host) sent c read) refl,
      )

  -- A request of GIOP 1.1 without a principal, built by use_request on a host of one byte
  -- order, from a pool in which every buffer is fit for use; the receive buffer has the type,
  -- the flags and the version of the message and holds the bytes behind the header, in memory
  -- aligned to eight that ends at least eight bytes below the end of the address space, and the
  -- message is shorter than 2^32 bytes. Then demarshal on a host of any byte order succeeds,
  -- with the id, whether a response is expected, the key, the operation's name with its NUL, an
  -- empty principal and the code-set context, and has read it to its end. The key is not empty,
  -- and the id and the lengths are below 2^32.
  pub demarshal-use_request_1_1 :
      (id a : ℕ) (expected : Bool) (key : Octets) (name : List ℕ)
      → id < u32_mod
      → length key.bytes < u32_mod
      → 0 < length key.bytes
      → length name + 1 < u32_mod
      → Carries sender giop_1_1
          (use_request sender blank pool giop_1_1 id expected key
            (operation_octets sender a name)
            none).0
          b
      → (s o q : Slice) × (s.bytes ≡ key.bytes)
        × (o.bytes ≡ name ++ (0 ∷ []))
        × (q.bytes ≡ [])
        × (demarshal host b
            ≡ ok (
              request_1_1 (record {
                service_context = code_sets sender;
                request_id = id;
                response_expected = boolean_octet expected;
                object_key = s;
                operation = o;
                requesting_principal = q;
              }),
              at b (
                  request_1_1_body sender
                    (service_context_data sender)
                    id
                    (boolean_octet expected)
                    key.bytes
                    (operation_vec sender name)
                    (replicate 4 0)),
            ))
  unfolding decode_old
  demarshal-use_request_1_1 id a expected key name i l n m c =
      let sent =
        use_request_1_1-Sends sender blank pool p id expected key (operation_octets sender a name)
          none n (operation-pos sender name) (omega arith) in
      let body =
        request_1_1_body sender (service_context_data sender) id (boolean_octet expected) key.bytes
          (operation_vec sender name) (replicate 4 0) in
      let r = Carries-Received host sender giop_1_1 giop_request _ b body sent c in
      let (s, o, q, e0, e1, e2, read) =
        demarshal_request_1_1-at host sender b body r id (boolean_octet expected) key.bytes name i l
          m ([], sym (append-nil body)) in
      (
        s,
        o,
        q,
        e0,
        e1,
        e2,
        demarshal-dispatch host b giop_1_1 giop_request
              (type_of host sender giop_1_1 giop_request _ b body sent c) c.same_version
            ∙ >>=-eq_of_ok (demarshal_request_1_1 host) _ b
                (start giop_1_1 giop_request _ body (demarshal_request_1_1 host) sent c read) refl,
      )
