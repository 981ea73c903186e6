-- ===== src/Giop/Input/Checks.antt =====
-- What giop_recv_msg_reading_body lets through.
use mate_corba.Prelude.{
  ℕ, ◌+◌, ◌%◌, ◌≤◌, ◌≡◌, refl, arith, Bool, true, false, not, ◌&&◌, ltb, leb, [], length, replicate,
  Option, some, Endian, length-replicate, length-take, Bool-cases, Option-cases, inl, inr,
}
use mathlib.Core.Bool.{true≢false}
use mate_corba.Giop.Types.{MsgHeader, Version, giop_num_msg_types, giop_magic}
use mate_corba.Giop.RecvBuffer.Reader.{Outcome, ok, bad, fault, RecvBuffer}
use mate_corba.Giop.Input.Header.{
  same_bytes, resize, alloc_buffer, version_of, host_size, msg_reading_body, IsReady,
}

-- Either the header is turned down, or the buffer is ready for the body.
pub IsChecked : ℕ → Bool → Endian → MsgHeader → Outcome RecvBuffer → Type 0
IsChecked limit is_auth host h bad = Unit {0}
IsChecked limit is_auth host h fault = true ≡ false
IsChecked limit is_auth host h (ok b) = IsReady limit is_auth host h b

limited-le :
    (b : Bool) (limit size : ℕ) → (not b && ltb limit size) ≡ false → b ≡ false → size ≤ limit
limited-le true limit size h e = absurd (true≢false e)
limited-le false limit size h e = ground arith

module _ (host : Endian) (limit junk : ℕ) (is_auth : Bool) (buf : RecvBuffer) where
  -- With every check passed.
  passed :
      (addr : ℕ) (v : Version)
      → addr % 4 ≡ 0
      → same_bytes buf.msg_header.magic giop_magic ≡ true
      → leb giop_num_msg_types buf.msg_header.message_type ≡ false
      → version_of buf.msg_header.version_0 buf.msg_header.version_1 ≡ some v
      → (not is_auth && ltb limit (host_size host buf.msg_header)) ≡ false
      → IsReady limit is_auth host buf.msg_header (record buf {
        giop_version = v;
        msg_header = record buf.msg_header { message_size = host_size host buf.msg_header };
        base = addr;
        memory = resize junk (host_size host buf.msg_header + 12) [];
        cur = addr + 12;
        end = addr + 12 + host_size host buf.msg_header;
      })
  passed addr v a m t w l =
      let size = host_size host buf.msg_header in
      let room : length (resize junk (size + 12) []) ≡ size + 12 =
        length-take (size + 12) (replicate (size + 12) junk)
          (omega (arith, length-replicate (size + 12) junk)) in
      record {
        magic = m;
        typed = ground arith;
        versioned = w;
        size = refl;
        limited = limited-le is_auth limit size l;
        starts = refl;
        ends = omega (arith, room);
        room = room;
      }

  -- With an allocator that returns addresses aligned to four, msg_reading_body either turns a
  -- header down or leaves a buffer that is ready for the body: magic bytes, type and version
  -- are valid, the size is in the host's order and, for a peer without authorization, within
  -- the limit, and the memory holds exactly the room and the body.
  pub msg_reading_body-IsChecked :
      (place : Option ℕ)
      → ((addr : ℕ) → place ≡ some addr → addr % 4 ≡ 0)
      → IsChecked limit is_auth host buf.msg_header
          (msg_reading_body host limit place junk is_auth buf)
  unfolding msg_reading_body alloc_buffer IsChecked
  msg_reading_body-IsChecked place a =
      let h = buf.msg_header in
      elim (Bool-cases (same_bytes h.magic giop_magic)) [
        | inr m ↦ rw m tt
        | inl m ↦ elim (Bool-cases (leb giop_num_msg_types h.message_type)) [
          | inl t ↦ rw (m, t) tt
          | inr t ↦ elim (Option-cases (version_of h.version_0 h.version_1)) [
            | inl w ↦ rw (m, t, w) tt
            | inr (v, w) ↦ elim (Bool-cases (not is_auth && ltb limit (host_size host h))) [
              | inl l ↦ rw (m, t, w, l) tt
              | inr l ↦ elim (Option-cases place) [
                | inl n ↦ rw (m, t, w, l, n) tt
                | inr (addr, e) ↦ rw (m, t, w, l, e, a addr e) (passed addr v (a addr e) m t w l)
              ]
            ]
          ]
        ]
      ]

-- The buffer that a header leaves when it is let through.
abbrev pub accepted : Endian → ℕ → ℕ → Version → RecvBuffer → RecvBuffer
accepted host addr junk v buf =
    let size = host_size host buf.msg_header in
    record buf {
      giop_version = v;
      msg_header = record buf.msg_header { message_size = size };
      base = addr;
      memory = resize junk (size + 12) [];
      cur = addr + 12;
      end = addr + 12 + size;
    }

pub msg_reading_body-accepted :
    (host : Endian) (limit junk : ℕ) (is_auth : Bool) (buf : RecvBuffer) (addr : ℕ) (v : Version)
    → addr % 4 ≡ 0
    → same_bytes buf.msg_header.magic giop_magic ≡ true
    → leb giop_num_msg_types buf.msg_header.message_type ≡ false
    → version_of buf.msg_header.version_0 buf.msg_header.version_1 ≡ some v
    → (not is_auth && ltb limit (host_size host buf.msg_header)) ≡ false
    → msg_reading_body host limit (some addr) junk is_auth buf ≡ ok (accepted host addr junk v buf)
unfolding msg_reading_body alloc_buffer
msg_reading_body-accepted host limit junk is_auth buf addr v a m t w l = rw (m, t, w, l, a) refl
