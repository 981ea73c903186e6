-- ===== src/Giop/Input/Reassembly.antt =====
-- A connection keeps track of its fragments: giop_recv_buffer_handle_fragmented over any sequence of
-- fragments.
use mate_corba.Prelude.{
  ℕ, ◌+◌, ◌-◌, ◌%◌, ◌≤◌, ◌<◌, ◌≡◌, refl, sym, ap, ◌∙◌, arith, List, [], ◌∷◌, ◌++◌, length, take,
  ◌==◌, ==_iff, Bool, true, false, if◌then◌else◌, Option, some, none, All, ◌⊎◌, inl, inr,
  append_assoc, append-nil, length-append, length-take, length-drop, u32_mod, Endian,
}
use mate_corba.Giop.Types.{giop_fragment, more_fragments_follow}
use mate_corba.Giop.RecvBuffer.Reader.{ok, memory_at}
use mate_corba.Giop.Input.Fragments.{
  Message, Frags, payload, get_request_id, find_frag, track_length, get_frag, concat_frags,
  fragment_id, handle_fragmented, handle_identified, join_frag, finish, grown_list, is_exceeded,
  is_1_1,
}
use mate_corba.Giop.Input.Concat.{payloads, IsTracked, concat_frags_lem}

-- A message whose bytes have all come: its size is that of its memory, and the read position is
-- between the room and the end.
pub record IsWhole (m : Message) : Type 0 where
  pub low : 12 + m.buffer.base ≤ m.buffer.cur
  pub within : m.buffer.cur ≤ m.buffer.end
  pub held : m.buffer.end ≡ m.buffer.base + length m.buffer.memory
  pub sized : m.buffer.msg_header.message_size + 12 ≡ length m.buffer.memory

length-payload : (m : Message) → IsWhole m → length (payload m.buffer) ≡ m.buffer.end - m.buffer.cur
length-payload m i = length-take (m.buffer.end - m.buffer.cur) (memory_at m.buffer m.buffer.cur) (
    omega
      (arith, length-drop (m.buffer.cur - m.buffer.base) m.buffer.memory, i.low, i.within, i.held))

payloads-append :
    (fs : List Message) (m : Message) → payloads (fs ++ (m ∷ [])) ≡ payloads fs ++ payload m.buffer
unfolding payloads
payloads-append [] m = append-nil (payload m.buffer)
payloads-append (f ∷ fs) m =
    ap (λ x. payload f.buffer ++ x) (payloads-append fs m)
    ∙ sym (append_assoc (payload f.buffer) (payloads fs) (payload m.buffer))

-- The first fragment starts a list that is tracked.
add_frag-IsTracked : (m : Message) → IsWhole m → IsTracked (record { head = m; rest = [] })
add_frag-IsTracked m i =
    unfold payloads in
    record { low = i.low; within = i.within; held = i.held; tracked = omega (arith, i.sized) }

-- A fragment that is appended, whose length the head adds up, keeps the list tracked, if the whole
-- stays below 2^32.
append-IsTracked :
    (f : Frags) (m : Message)
    → IsTracked f
    → IsWhole m
    → f.head.buffer.msg_header.message_size + (m.buffer.end - m.buffer.cur) < u32_mod
    → IsTracked (grown_list f m)
append-IsTracked f m i w h = record {
  low = i.low;
  within = i.within;
  held = i.held;
  tracked = omega (
    arith,
    i.tracked,
    length-payload m w,
    ap length (payloads-append f.rest m),
    length-append (payloads f.rest) (payload m.buffer),
    h,
  );
}

-- The place of the list that a fragment belongs to: the first with its id, or, for a peer of 1.1,
-- whose fragments have no id, the first of all where none has it.
abbrev HaveOthers : ℕ → List Frags → Type 0
HaveOthers id lists = All (λ (f : Frags). (get_request_id f.head.body == id) ≡ false) lists

abbrev pub IsPlace : List Frags → ℕ → Bool → List Frags → Frags → List Frags → Type 0
IsPlace frags id first_if_none before found behind =
    (frags ≡ before ++ (found ∷ behind))
    × (((get_request_id found.head.body ≡ id) × HaveOthers id before)
        ⊎ ((first_if_none ≡ true) × (before ≡ []) × HaveOthers id frags))

find_frag-first :
    (id : ℕ) (seen before : List Frags) (found : Frags) (behind : List Frags)
    → HaveOthers id before
    → get_request_id found.head.body ≡ id
    → find_frag seen (before ++ (found ∷ behind)) id ≡ some (seen ++ before, found, behind)
unfolding find_frag
find_frag-first id seen [] found behind h e =
    rw ((==_iff _ _).1 e) (ap (λ x. some (x, found, behind)) (sym (append-nil seen)))
find_frag-first id seen (f ∷ before) found behind (d, ds) e = rw d (
    find_frag-first id (seen ++ (f ∷ [])) before found behind ds e
    ∙ ap (λ x. some (x, found, behind)) (append_assoc seen (f ∷ []) before))

find_frag-none :
    (id : ℕ) (seen lists : List Frags) → HaveOthers id lists → find_frag seen lists id ≡ none
unfolding find_frag
find_frag-none id seen [] h = refl
find_frag-none id seen (f ∷ fs) (d, ds) = rw d (find_frag-none id (seen ++ (f ∷ [])) fs ds)

-- What get_frag does where the search finds nothing.
abbrev first_of : List Frags → Bool → Option (List Frags × Frags × List Frags)
first_of frags b = elim frags [ [] ↦ none | f ∷ fs ↦ if b then some ([], f, fs) else none ]

get_frag-found :
    (frags : List Frags) (id : ℕ) (b : Bool) (r : List Frags × Frags × List Frags)
    → find_frag [] frags id ≡ some r
    → get_frag frags id b ≡ some r
unfolding get_frag
get_frag-found frags id b r e =
    ap
      (λ m. elim m as (λ x. Option (List Frags × Frags × List Frags)) [
        | some found ↦ some found
        | none ↦ first_of frags b
      ])
      e

get_frag-none :
    (frags : List Frags) (id : ℕ) (b : Bool)
    → find_frag [] frags id ≡ none
    → get_frag frags id b ≡ first_of frags b
unfolding get_frag
get_frag-none frags id b e =
    ap
      (λ m. elim m as (λ x. Option (List Frags × Frags × List Frags)) [
        | some found ↦ some found
        | none ↦ first_of frags b
      ])
      e

get_frag-IsPlace :
    (frags : List Frags) (id : ℕ) (b : Bool) (before : List Frags) (found : Frags)
    (behind : List Frags)
    → IsPlace frags id b before found behind
    → get_frag frags id b ≡ some (before, found, behind)
get_frag-IsPlace frags id b before found behind (e, inl (same, others)) =
    get_frag-found frags id b (before, found, behind)
      (ap (λ x. find_frag [] x id) e ∙ find_frag-first id [] before found behind others same)
get_frag-IsPlace frags id b before found behind (e, inr (first, empty, others)) =
    get_frag-none frags id b (find_frag-none id [] frags others)
    ∙ ap (λ x. first_of x b) (e ∙ ap (λ x. x ++ (found ∷ behind)) empty)
    ∙ ap (λ x. if x then some ([], found, behind) else none) first
    ∙ ap (λ x. some (x, found, behind)) (sym empty)

-- A fragment that was identified, with the list that it belongs to.
pub record Belongs (host : Endian) (limit : ℕ) (is_auth : Bool) (frags : List Frags)
    (m buf : Message) (before : List Frags) (found : Frags) (behind : List Frags) : Type 0 where
  pub id : ℕ
  pub identified : fragment_id host m ≡ ok (id, buf.buffer)
  pub same_body : buf.body ≡ m.body
  pub placed : IsPlace frags id (is_1_1 buf.buffer.giop_version) before found behind
  pub allowed : is_exceeded limit is_auth buf.buffer ≡ false
  pub headed : (found.head.buffer.msg_header.message_type == giop_fragment) ≡ false
  pub tracked : IsTracked found
  pub whole : IsWhole buf
  pub small :
      found.head.buffer.msg_header.message_size + (buf.buffer.end - buf.buffer.cur) < u32_mod

module _ (host : Endian) (limit addr junk : ℕ) (is_auth : Bool) (frags : List Frags)
    (m buf : Message) (before : List Frags) (found : Frags) (behind : List Frags)
    (i : Belongs host limit is_auth frags m buf before found behind) where
  joined :
      handle_fragmented host limit (some addr) junk is_auth frags m
      ≡ join_frag limit (some addr) junk is_auth frags buf (some (before, found, behind))
  unfolding handle_fragmented handle_identified
  joined =
      ap (handle_identified limit (some addr) junk is_auth frags m) i.identified
      ∙ ap
          (λ x.
            join_frag limit (some addr) junk is_auth frags
              (record { buffer = buf.buffer; body = m.body }) x)
          (get_frag-IsPlace frags i.id (is_1_1 buf.buffer.giop_version) before found behind
            i.placed)
      ∙ ap
          (λ x.
            join_frag limit (some addr) junk is_auth frags
              (record { buffer = buf.buffer; body = x }) (some (before, found, behind)))
          (sym i.same_body)

  -- When a fragment with more to come is identified, and the first list of the connection with
  -- its id, or for GIOP 1.1, where none has it, the first of all, is tracked, is within the
  -- limit where that applies, and the whole stays below 2^32 bytes, handle_fragmented reports
  -- no error, points to the list's head, whose tracked length has grown by the fragment's, and
  -- leaves the list with the fragment at its end in its place on the connection, between the
  -- lists that were before and behind it; the list is tracked still.
  pub handle_fragmented-more :
      more_fragments_follow buf.buffer.msg_header.flags ≡ true
      → (handle_fragmented host limit (some addr) junk is_auth frags m
          ≡ ok (record {
            error = false;
            ret_buf = track_length found.head buf.buffer;
            incoming_frags =
                before
                ++ (record {
                  head = track_length found.head buf.buffer;
                  rest = found.rest ++ (buf ∷ []);
                }
                    ∷ behind);
          }))
        × IsTracked
            (record { head = track_length found.head buf.buffer; rest = found.rest ++ (buf ∷ []) })
        × (frags ≡ before ++ (found ∷ behind))
  unfolding join_frag
  handle_fragmented-more more = (
    joined ∙ rw (i.headed, more, i.allowed) refl,
    append-IsTracked found buf i.tracked i.whole i.small,
    i.placed.0,
  )

  concatenated :
      more_fragments_follow buf.buffer.msg_header.flags ≡ false
      → (buf.buffer.msg_header.message_type == giop_fragment) ≡ true
      → join_frag limit (some addr) junk is_auth frags buf (some (before, found, behind))
        ≡ finish
            (before ++ behind)
            (grown_list found buf).head
            (concat_frags (some addr) junk (grown_list found buf))
  unfolding join_frag
  concatenated last type = rw (i.headed, last, i.allowed, type) refl

  -- When the last fragment of a message is identified, and the first list of the connection
  -- with its id, or for GIOP 1.1, where none has it, the first of all, is tracked, is within
  -- the limit where that applies, and the whole stays below 2^32 bytes, and the allocator gives
  -- an address aligned to four, handle_fragmented reports no error, takes that list off the
  -- connection and leaves all those before and behind it, and gives one buffer that holds the
  -- head's bytes, then the payloads of the earlier fragments, then that of the last.
  pub handle_fragmented-last :
      more_fragments_follow buf.buffer.msg_header.flags ≡ false
      → buf.buffer.msg_header.message_type ≡ giop_fragment
      → addr % 4 ≡ 0
      → (whole : Message) × (handle_fragmented host limit (some addr) junk is_auth frags m
          ≡ ok (record { error = false; ret_buf = whole; incoming_frags = before ++ behind }))
        × (take (whole.buffer.end - whole.buffer.base) whole.buffer.memory
            ≡ found.head.buffer.memory ++ (payloads found.rest ++ payload buf.buffer))
        × (frags ≡ before ++ (found ∷ behind))
  unfolding finish
  handle_fragmented-last last type a =
      let t = append-IsTracked found buf i.tracked i.whole i.small in
      let (whole, run, bytes, _, _) = concat_frags_lem addr junk (grown_list found buf) a t in
      (
        whole,
        joined
            ∙ concatenated last ((==_iff buf.buffer.msg_header.message_type giop_fragment).1 type)
            ∙ ap (finish (before ++ behind) (grown_list found buf).head) run,
        bytes ∙ ap (λ x. found.head.buffer.memory ++ x) (payloads-append found.rest buf),
        i.placed.0,
      )
