-- ===== src/Giop/Input/Delivery.antt =====
-- Which caller a reply goes to.
use mate_corba.Prelude.{
  ℕ, ◌≡◌, refl, sym, ap, ◌∙◌, ◌⊎◌, true, false, not, ◌==◌, ==_iff, List, [], ◌∷◌, ◌++◌, Option,
  none, some, Bool-cases, inl, inr, All,
}
use mathlib.Core.Path.{subst}
use mathlib.Core.Bool.{true≢false}
use mate_corba.Giop.Input.Fragments.{Message, get_request_id}
use mate_corba.Giop.Input.Queue.{
  is_awaited, hand_over, Entry, setup_queue_entry, is_on, zap, find_entry, Handed, handle_reply,
  reply_status, system_exception,
}

-- An entry that waits for that message on that connection.
pub record Awaits (e : Entry) (cnx : ℕ) (buf : Message) : Type 0 where
  pub same_id : e.request_id ≡ get_request_id buf.body
  pub same_type : e.msg_type ≡ buf.buffer.msg_header.message_type
  pub same_cnx : is_on e.cnx cnx ≡ true

-- No entry waits for that id and type.
abbrev pub IsUnawaited : ℕ → ℕ → List Entry → Type 0
IsUnawaited id type queue = All (λ e. is_awaited e id type ≡ false) queue

-- What the search finds is in the queue, and is the first to wait for that id and type.
abbrev IsFound : List Entry → ℕ → ℕ → Option (List Entry × Entry × List Entry) → Type 0
IsFound queue id type none = IsUnawaited id type queue
IsFound queue id type (some (before, e, behind)) =
    (queue ≡ before ++ (e ∷ behind)) × IsUnawaited id type before × (is_awaited e id type ≡ true)

IsFound-behind :
    (x : Entry) (xs : List Entry) (id type : ℕ) (r : Option (List Entry × Entry × List Entry))
    → is_awaited x id type ≡ false
    → IsFound xs id type r
    → IsFound
        (x ∷ xs)
        id
        type
        (elim r [ none ↦ none | some (before, f, behind) ↦ some (x ∷ before, f, behind) ])
IsFound-behind x xs id type none e f = (e, f)
IsFound-behind x xs id type (some (before, f, behind)) e (q, u, a) =
    (ap (λ ys. x ∷ ys) q, (e, u), a)

find_entry-IsFound :
    (queue : List Entry) (id type : ℕ) → IsFound queue id type (find_entry queue id type)
unfolding find_entry
find_entry-IsFound [] id type = tt
find_entry-IsFound (x ∷ xs) id type = elim (Bool-cases (is_awaited x id type)) [
  | inl e ↦ rw e (refl, tt, e)
  | inr e ↦
      rw e (IsFound-behind x xs id type (find_entry xs id type) e (find_entry-IsFound xs id type))
]

awaited :
    (e : Entry) (id type : ℕ)
    → is_awaited e id type ≡ true
    → (e.request_id ≡ id) × (e.msg_type ≡ type)
awaited e id type h = elim (Bool-cases (e.request_id == id)) [
  | inl a ↦ ((==_iff e.request_id id).0 a, (==_iff e.msg_type type).0 (rw a at h))
  | inr a ↦ absurd (true≢false (sym (rw a at h)))
]

-- The buffer went to the first entry of the queue that waits for its id and type, which does so on
-- its connection and is out of the queue since.
pub record IsDelivered (queue : List Entry) (cnx : ℕ) (buf : Message) (r : Handed) : Type 0 where
  pub before : List Entry
  pub entry : Entry
  pub behind : List Entry
  pub queued : queue ≡ before ++ (entry ∷ behind)
  pub first : IsUnawaited (get_request_id buf.body) buf.buffer.msg_header.message_type before
  pub awaits : Awaits entry cnx buf
  pub result : r ≡ record {
    error = false;
    delivered = some (record entry { buffer = some buf });
    queue = before ++ behind;
  }

-- The first entry to wait for the id and type does so on another connection; nothing is delivered.
pub record IsSpoofed (queue : List Entry) (cnx : ℕ) (buf : Message) (r : Handed) : Type 0 where
  pub before : List Entry
  pub entry : Entry
  pub behind : List Entry
  pub queued : queue ≡ before ++ (entry ∷ behind)
  pub first : IsUnawaited (get_request_id buf.body) buf.buffer.msg_header.message_type before
  pub same_id : entry.request_id ≡ get_request_id buf.body
  pub same_type : entry.msg_type ≡ buf.buffer.msg_header.message_type
  pub elsewhere : is_on entry.cnx cnx ≡ false
  pub result : r ≡ record { error = true; delivered = none; queue = queue }

-- No entry waits for the message; that is an error unless it is a system exception.
pub record IsUnexpected (queue : List Entry) (cnx : ℕ) (buf : Message) (r : Handed) : Type 0 where
  pub unawaited : IsUnawaited (get_request_id buf.body) buf.buffer.msg_header.message_type queue
  pub result : r ≡ record {
    error = not (reply_status buf.buffer.giop_version buf.body == system_exception);
    delivered = none;
    queue = queue;
  }

pub IsHanded : List Entry → ℕ → Message → Handed → Type 0
IsHanded queue cnx buf r =
    IsDelivered queue cnx buf r ⊎ IsSpoofed queue cnx buf r ⊎ IsUnexpected queue cnx buf r

hand_over-IsHanded :
    (queue : List Entry) (cnx : ℕ) (buf : Message) (r : Option (List Entry × Entry × List Entry))
    → IsFound queue (get_request_id buf.body) buf.buffer.msg_header.message_type r
    → IsHanded queue cnx buf (hand_over queue cnx buf r)
unfolding hand_over IsHanded
hand_over-IsHanded queue cnx buf none u = inr (inr (record { unawaited = u; result = refl }))
hand_over-IsHanded queue cnx buf (some (before, e, behind)) (q, u, a) =
    let (same, kind) = awaited e (get_request_id buf.body) buf.buffer.msg_header.message_type a in
    elim (Bool-cases (is_on e.cnx cnx)) [
      | inl c ↦ inl (record {
        before = before;
        entry = e;
        behind = behind;
        queued = q;
        first = u;
        awaits = record { same_id = same; same_type = kind; same_cnx = c };
        result = rw c refl;
      })
      | inr c ↦ inr (
          inl (record {
            before = before;
            entry = e;
            behind = behind;
            queued = q;
            first = u;
            same_id = same;
            same_type = kind;
            elsewhere = c;
            result = rw c refl;
          }))
    ]

-- handle_reply has three outcomes. Either the buffer goes to the first entry of the queue that
-- waits for its id and type, which is on the connection that it came in on, and that entry
-- alone leaves the queue; or the first entry that waits for its id and type is on another
-- connection, which is an error that leaves the queue; or no entry waits for the id and type,
-- which is an error unless the status is a system exception, and leaves the queue.
pub handle_reply-IsHanded :
    (queue : List Entry) (cnx : ℕ) (buf : Message)
    → IsHanded queue cnx buf (handle_reply queue cnx buf)
unfolding handle_reply
handle_reply-IsHanded queue cnx buf =
    hand_over-IsHanded queue cnx buf _
      (find_entry-IsFound queue (get_request_id buf.body) buf.buffer.msg_header.message_type)

is_awaited_refl : (e : Entry) → is_awaited e e.request_id e.msg_type ≡ true
is_awaited_refl e =
    rw ((==_iff e.request_id e.request_id).1 refl) ((==_iff e.msg_type e.msg_type).1 refl)

-- A reply of the type and id of the entry that was set up last, on that entry's connection,
-- goes to that entry, without an error, and leaves the queue as it was before the entry.
pub handle_reply-setup_queue_entry :
    (queue : List Entry) (ent cnx : ℕ) (buf : Message)
    → handle_reply
        (setup_queue_entry queue ent cnx buf.buffer.msg_header.message_type
          (get_request_id buf.body))
        cnx
        buf
      ≡ record {
        error = false;
        delivered = some (record {
          ent = ent;
          buffer = some buf;
          cnx = some cnx;
          msg_type = buf.buffer.msg_header.message_type;
          request_id = get_request_id buf.body;
          async_cb = false;
        });
        queue = queue;
      }
unfolding handle_reply setup_queue_entry find_entry hand_over
handle_reply-setup_queue_entry queue ent cnx buf =
    rw
      (
        (==_iff (get_request_id buf.body) (get_request_id buf.body)).1 refl,
        (==_iff buf.buffer.msg_header.message_type buf.buffer.msg_header.message_type).1 refl,
        (==_iff cnx cnx).1 refl,
      )
      refl

-- No entry of a connection that has gone is left.
zap-IsGone : (queue : List Entry) (cnx : ℕ) → All (λ e. is_on e.cnx cnx ≡ false) (zap queue cnx).0
unfolding zap
zap-IsGone [] cnx = tt
zap-IsGone (e ∷ es) cnx = elim (Bool-cases (is_on e.cnx cnx)) [
  | inl h ↦ rw h (zap-IsGone es cnx)
  | inr h ↦ rw h (h, zap-IsGone es cnx)
]

All-middle :
    (P : Entry → Type 0) (before behind : List Entry) (e : Entry)
    → All P (before ++ (e ∷ behind))
    → P e
All-middle P [] behind e (p, _) = p
All-middle P (x ∷ xs) behind e (_, ps) = All-middle P xs behind e ps

undelivered :
    (queue : List Entry) (cnx : ℕ) (buf : Message) (r : Handed)
    → All (λ e. is_on e.cnx cnx ≡ false) queue
    → IsHanded queue cnx buf r
    → (r.delivered ≡ none) × (r.queue ≡ queue)
unfolding IsHanded
undelivered queue cnx buf r a (inl d) = absurd (
    true≢false (
      sym d.awaits.same_cnx
      ∙ All-middle (λ e. is_on e.cnx cnx ≡ false) d.before d.behind d.entry
          (subst (All (λ e. is_on e.cnx cnx ≡ false)) d.queued a)))
undelivered queue cnx buf r a (inr (inl s)) =
    (ap (λ (x : Handed). x.delivered) s.result, ap (λ (x : Handed). x.queue) s.result)
undelivered queue cnx buf r a (inr (inr u)) =
    (ap (λ (x : Handed). x.delivered) u.result, ap (λ (x : Handed). x.queue) u.result)

-- After zap of a connection no message that comes in on it goes to any entry, and the queue
-- stays as zap left it.
pub handle_reply-zap :
    (queue : List Entry) (cnx : ℕ) (buf : Message)
    → ((handle_reply (zap queue cnx).0 cnx buf).delivered ≡ none)
      × ((handle_reply (zap queue cnx).0 cnx buf).queue ≡ (zap queue cnx).0)
handle_reply-zap queue cnx buf =
    undelivered (zap queue cnx).0 cnx buf _ (zap-IsGone queue cnx)
      (handle_reply-IsHanded (zap queue cnx).0 cnx buf)
