-- ===== src/Giop/Input/Arrival.antt =====
-- A message that giop-send-buffer.c built, on its way through giop_connection_handle_input.
use mate_corba.Prelude.{
  ℕ, zero, suc, ◌+◌, ◌-◌, ◌%◌, ◌≤◌, ◌<◌, ◌≡◌, refl, sym, ap, ◌∙◌, arith, true, false, not, ◌&&◌,
  ◌==◌, ltb, if◌then◌else◌, List, [], ◌∷◌, ◌++◌, length, take, drop, replicate, Option, none, some,
  Endian, differ, u32_bytes, u32_of, swap32, read_u32-u32_bytes, append-nil, length-replicate,
  length-take, u32_mod, u64_mod,
}
use mate_corba.Giop.Types.{
  MsgHeader, Version, giop_1_0, giop_1_1, giop_1_2, version_major, version_minor, giop_magic,
  header_bytes, flag_endianness, giop_num_msg_types,
}
use mate_corba.Giop.SendBuffer.Memory.{SendBuffer}
use mate_corba.Giop.SendBuffer.Defs.{write_at}
use mate_corba.Giop.Messages.Wire.{Sends, length-header_bytes}
use mate_corba.Giop.RecvBuffer.Reader.{ok, RecvBuffer}
use mate_corba.Giop.RecvBuffer.Demarshal.{demarshal}
use mate_corba.Giop.RecvBuffer.RoundTrip.{Carries, Sends-body, flag_order}
use mate_corba.Giop.Input.Header.{same_bytes, version_of, host_size, msg_reading_body}
use mate_corba.Giop.Input.Checks.{accepted, msg_reading_body-accepted}
use mate_corba.Giop.Input.Reading.{
  reading_body, Incoming, Connection, use_buf, parse_header, bytes, again, header_read, body_read,
  bytes_read, handle_input, demarshalled,
}

-- The header as the receiver has it before its size is swapped.
parsed : (host sender : Endian) (h : MsgHeader) → MsgHeader
parsed host sender h = record h { message_size = u32_of host (u32_bytes sender h.message_size) }

parse_header-header_bytes :
    (host sender : Endian) (h : MsgHeader)
    → h.magic ≡ giop_magic
    → parse_header host (header_bytes sender h) ≡ parsed host sender h
unfolding parse_header header_bytes parsed
parse_header-header_bytes host sender h e = rw e refl

host_size-parsed :
    (host sender : Endian) (h : MsgHeader)
    → h.flags ≡ flag_endianness sender
    → h.message_size < u32_mod
    → host_size host (parsed host sender h) ≡ h.message_size
unfolding parsed
host_size-parsed host sender h f l =
    rw (f, flag_order host sender)
      (ap (λ xs. if differ sender host then swap32 (u32_of host xs) else u32_of host xs)
          (sym (append-nil (u32_bytes sender h.message_size)))
        ∙ read_u32-u32_bytes host sender h.message_size [] l)

version_of-bytes : (v : Version) → version_of (version_major v) (version_minor v) ≡ some v
unfolding version_of
version_of-bytes giop_1_0 = refl
version_of-bytes giop_1_1 = refl
version_of-bytes giop_1_2 = refl

body_read-fits :
    (host : Endian) (limit : ℕ) (place : Option ℕ) (junk : ℕ) (c : Connection) (b : RecvBuffer)
    → ltb b.end (b.base + 12 + b.msg_header.message_size) ≡ false
    → body_read host limit place junk c b
      ≡ demarshalled host limit place junk c (demarshal host (record b { cur = b.base + 12 }))
unfolding body_read
body_read-fits host limit place junk c b e = rw e refl

drop-all : (n : ℕ) (xs : List ℕ) → length xs ≤ n → drop n xs ≡ []
drop-all zero [] h = refl
drop-all zero (x ∷ xs) h = absurd (omega arith)
drop-all (suc n) [] h = refl
drop-all (suc n) (x ∷ xs) h = drop-all n xs (omega arith)

module _ (host sender : Endian) (v : Version) (t : ℕ) (s : SendBuffer) (body : List ℕ)
    (i : Sends sender v t s body) (limit addr junk : ℕ) (c : Connection) where
  header : MsgHeader
  header = s.msg_header

  -- The buffer behind the first pass.
  opened : RecvBuffer
  opened =
      accepted host addr junk v
        (record use_buf.message.buffer { msg_header = parsed host sender header })

  opened_incoming : Incoming
  opened_incoming = record {
    state = reading_body;
    left_to_read = length body;
    got = header_bytes sender header;
    message = record use_buf.message { buffer = opened };
  }

  size_of : length body < u32_mod → header.message_size ≡ length body
  unfolding header
  size_of l = omega (arith, i.sized)

  let_through :
      addr % 4 ≡ 0
      → length body < u32_mod
      → t < giop_num_msg_types
      → (not c.is_auth && ltb limit (length body)) ≡ false
      → msg_reading_body host limit (some addr) junk c.is_auth (record use_buf.message.buffer {
        msg_header = parse_header host (header_bytes sender header);
      })
        ≡ ok opened
  unfolding header opened parsed same_bytes
  let_through a l k e =
      let sz = host_size-parsed host sender header i.flagged (omega (arith, i.sized)) in
      rw (parse_header-header_bytes host sender header i.magic) (
        msg_reading_body-accepted host limit junk c.is_auth
          (record use_buf.message.buffer { msg_header = parsed host sender header }) addr v a
          (rw i.magic refl) (rw i.typed (ground (arith, k)))
          (rw (i.major, i.minor) (version_of-bytes v)) (rw (sz, size_of l) e))

  size_opened : length body < u32_mod → opened.msg_header.message_size ≡ length body
  unfolding opened header
  size_opened l = host_size-parsed host sender header i.flagged (omega (arith, i.sized)) ∙ size_of l

  abbrev fresh : Connection
  fresh = record c { incoming_msg = none }

  header_come : Incoming
  header_come = record use_buf { left_to_read = 0; got = header_bytes sender header }

  opening :
      length body < u32_mod
      → 0 < length body
      → header_read host limit
          (some addr)
          junk
          (record c { incoming_msg = some use_buf })
          header_come
          (ok opened)
        ≡ ok (again (record c { incoming_msg = some opened_incoming }))
  unfolding header_read header_come opened_incoming
  opening l n = let pos : ltb 0 (length body) ≡ true = ground arith in rw (size_opened l, pos) refl

  -- The header's pass.
  first_pass :
      addr % 4 ≡ 0
      → length body < u32_mod
      → 0 < length body
      → t < giop_num_msg_types
      → (not c.is_auth && ltb limit (length body)) ≡ false
      → handle_input host limit (some addr) junk fresh (bytes (header_bytes sender header))
        ≡ ok (again (record c { incoming_msg = some opened_incoming }))
  unfolding handle_input bytes_read header_come header
  first_pass a l n k e =
      let twelve : 12 - length (header_bytes sender header) ≡ 0 =
        omega (arith, length-header_bytes sender header i.magic) in
      rw twelve (
        ap
          (header_read host limit (some addr) junk (record c { incoming_msg = some use_buf })
            header_come)
          (let_through a l k e)
        ∙ opening l n)

  -- The buffer behind the second pass.
  filled : RecvBuffer
  filled = record opened {
    memory = write_at (opened.cur - opened.base) body opened.memory;
    cur = opened.base + 12;
  }

  -- The body's pass.
  second_pass :
      length body < u32_mod
      → 0 < length body
      → handle_input host limit
          (some addr)
          junk
          (record c { incoming_msg = some opened_incoming })
          (bytes body)
        ≡ demarshalled host limit
            (some addr)
            junk
            (record c { incoming_msg = some opened_incoming })
            (demarshal host filled)
  unfolding handle_input bytes_read body_read opened_incoming filled
  second_pass l n =
      let some_left : (length body == 0) ≡ false = ground arith in
      let all : length body - length body ≡ 0 = omega arith in
      let fits : ltb opened.end (opened.base + 12 + opened.msg_header.message_size) ≡ false =
        unfold opened in (ground arith) in
      rw (some_left, all)
        (body_read-fits host limit (some addr) junk
          (record c { incoming_msg = some opened_incoming })
          (record opened {
            memory = write_at (opened.cur - opened.base) body opened.memory;
            cur = opened.cur + length body;
          })
          fits)

  length-opened_memory : length body < u32_mod → length opened.memory ≡ 12 + length body
  unfolding opened
  length-opened_memory l =
      let n = opened.msg_header.message_size + 12 in
      length-take n (replicate n junk) (omega (arith, length-replicate {0} {A = ℕ} n junk))
      ∙ omega (arith, size_opened l)

  filled_end : length body < u32_mod → filled.end ≡ addr + 12 + length body
  unfolding header
  filled_end l =
      let sz : host_size host (parsed host sender header) ≡ length body =
        host_size-parsed host sender header i.flagged (omega (arith, size_of l)) ∙ size_of l in
      unfold filled opened in (omega (arith, sz))

  filled_base : filled.base ≡ addr
  filled_base = unfold filled opened in refl

  held_bytes :
      drop (12 + length body) opened.memory ≡ [] → filled.memory ≡ take 12 opened.memory ++ body
  held_bytes rest =
      let twelve : opened.cur - opened.base ≡ 12 = unfold opened in (omega arith) in
      unfold filled in
      (ap (λ n. write_at n body opened.memory) twelve
        ∙ ap (λ x. take 12 opened.memory ++ (body ++ x)) rest
        ∙ ap (λ x. take 12 opened.memory ++ x) (append-nil body))

  -- The receive buffer holds what was sent.
  filled-Carries :
      addr % 8 ≡ 0
      → addr + length body + 20 ≤ u64_mod
      → length body + 12 < u32_mod
      → Carries sender v s filled
  filled-Carries a w l =
      let b = Sends-body sender v t s body i in
      let size = length-opened_memory (omega arith) in
      let rest : drop (12 + length body) opened.memory ≡ [] =
        drop-all (12 + length body) opened.memory (omega (arith, size)) in
      record {
        same_type = unfold filled opened header parsed in refl;
        same_flags = unfold filled opened header parsed in refl;
        same_version = unfold filled opened in refl;
        room = take 12 opened.memory;
        room_size = length-take 12 opened.memory (omega (arith, size));
        held = held_bytes rest ∙ ap (λ x. take 12 opened.memory ++ x) (sym b);
        ends = filled_end (omega arith) ∙ omega (arith, filled_base, ap length b);
        starts = unfold filled in refl;
        aligned = unfold filled opened in a;
        small = rw b (omega arith);
        low = omega (arith, filled_end (omega arith));
      }

  -- The two passes.
  pub handle_input-Sends :
      addr % 8 ≡ 0
      → addr + length body + 20 ≤ u64_mod
      → length body + 12 < u32_mod
      → 0 < length body
      → t < giop_num_msg_types
      → (not c.is_auth && ltb limit (length body)) ≡ false
      → (opening_msg : Incoming) × (b : RecvBuffer) × (handle_input host limit
            (some addr)
            junk
            (record c { incoming_msg = none })
            (bytes (header_bytes sender s.msg_header))
          ≡ ok (again (record c { incoming_msg = some opening_msg })))
        × (handle_input host limit
              (some addr)
              junk
              (record c { incoming_msg = some opening_msg })
              (bytes body)
            ≡ demarshalled host limit
                (some addr)
                junk
                (record c { incoming_msg = some opening_msg })
                (demarshal host b))
        × Carries sender v s b
  handle_input-Sends a w l n k e = (
    opened_incoming,
    filled,
    unfold header in first_pass (omega arith) (omega arith) n k e,
    second_pass (omega arith) n,
    filled-Carries a w l,
  )
