-- ===== src/Giop/RecvBuffer/Reader.antt =====
-- The receive buffer and the steps that the demarshalling functions of giop-recv-buffer.c are made
-- of. Pointers are addresses. A read past `end` is a fault, which no check of the code reports.
use mate_corba.Prelude.{
  ℕ, ◌+◌, ◌-◌, ◌%◌, Bool, ◌||◌, List, ltb, if◌then◌else◌, take, drop, get_or, u32_mod, u64_mod,
  Endian, read_u32, read_u16, ◌≡◌,
}
use mate_corba.Giop.Align.{align_value}
use mate_corba.Giop.Types.{Version, MsgHeader, conversion_needed}

-- The outcome of a demarshalling function: FALSE with its result, TRUE, or a read out of bounds.
pub data Outcome {ℓ} (A : Type ℓ) : Type ℓ where
  ok : A → Outcome A
  bad : Outcome A
  fault : Outcome A

-- Going on with the result, if there is one.
unfoldable pub and_then : {A B : Type 0} → Outcome A → (A → Outcome B) → Outcome B
and_then (ok a) f = f a
and_then bad f = bad
and_then fault f = fault

pub and_then-eq_of_ok :
    {A B : Type 0} (m : Outcome A) (f : A → Outcome B) {a : A} {r : Outcome B}
    → m ≡ ok a
    → f a ≡ r
    → and_then m f ≡ r
unfolding and_then
and_then-eq_of_ok m f e k = rw e k

-- struct _GIOPRecvBuffer, without the connection: `base` is the address message_body, and `memory`
-- holds the bytes from there on.
pub record RecvBuffer : Type 0 where
  pub msg_header : MsgHeader
  pub giop_version : Version
  pub base : ℕ
  pub memory : List ℕ
  pub cur : ℕ
  pub end : ℕ

abbrev pub Reader : Type 0 → Type 0
Reader A = RecvBuffer → Outcome (A × RecvBuffer)

abbrev pub pure : {A : Type 0} → A → Reader A
pure a b = ok (a, b)

infixl 5 ◌>>=◌ ◌>>◌
abbrev pub ◌>>=◌ : {A B : Type 0} → Reader A → (A → Reader B) → Reader B
◌>>=◌ m f b = elim (m b) [ ok (a, b') ↦ f a b' | bad ↦ bad | fault ↦ fault ]

abbrev pub ◌>>◌ : {B : Type 0} → Reader (Unit {0}) → Reader B → Reader B
m >> k = m >>= λ _. k

-- A sequence whose first step succeeds goes on with the second.
pub >>=-eq_of_ok :
    {A B : Type 0} (m : Reader A) (f : A → Reader B) (b : RecvBuffer) {a : A} {b' : RecvBuffer}
    {r : Outcome (B × RecvBuffer)}
    → m b ≡ ok (a, b')
    → f a b' ≡ r
    → (m >>= f) b ≡ r
>>=-eq_of_ok m f b e k = rw (e, ◌>>=◌) k

-- giop_msg_conversion_needed
abbrev pub msg_conversion_needed : Endian → RecvBuffer → Bool
msg_conversion_needed host b = conversion_needed host b.msg_header.flags

-- The memory from an address on.
abbrev pub memory_at : RecvBuffer → ℕ → List ℕ
memory_at b a = drop (a - b.base) b.memory

-- buf->cur = ALIGN_ADDRESS (buf->cur, n)
unfoldable pub align_cur : ℕ → Reader (Unit {0})
align_cur n b = ok (tt, record b { cur = align_value b.cur n })

-- if ((buf->cur + n) > buf->end) return TRUE, where the sum of a pointer wraps
unfoldable pub need : ℕ → Reader (Unit {0})
need n b = if ltb b.end ((b.cur + n) % u64_mod) then bad else ok (tt, b)

-- A guint32 at buf->cur, swapped if the orders differ, and buf->cur += 4.
unfoldable pub get_u32 : Endian → Reader ℕ
get_u32 host b =
    if ltb b.end (b.cur + 4)
    then fault
    else ok (
      read_u32 host (msg_conversion_needed host b) (memory_at b b.cur) % u32_mod,
      record b { cur = b.cur + 4 },
    )

unfoldable pub get_u16 : Endian → Reader ℕ
get_u16 host b =
    if ltb b.end (b.cur + 2)
    then fault
    else ok (
      read_u16 host (msg_conversion_needed host b) (memory_at b b.cur) % 65536,
      record b { cur = b.cur + 2 },
    )

-- *buf->cur, and buf->cur += step
unfoldable pub get_octet : ℕ → Reader ℕ
get_octet step b =
    if ltb b.end (b.cur + 1)
    then fault
    else ok (get_or (memory_at b b.cur) 0 0, record b { cur = b.cur + step })

-- Octets inside the message: the address with what lies there.
pub record Slice : Type 0 where
  pub addr : ℕ
  pub bytes : List ℕ

-- The check of `len` octets from buf->cur on, which must neither pass the end nor wrap, and the
-- step over them.
unfoldable pub get_slice : ℕ → Reader Slice
get_slice len b =
    if ltb b.end ((b.cur + len) % u64_mod) || ltb ((b.cur + len) % u64_mod) b.cur
    then bad
    else if ltb b.end (b.cur + len)
    then fault
    else ok (
      record { addr = b.cur; bytes = take len (memory_at b b.cur) },
      record b { cur = b.cur + len },
    )

-- The idiom of an aligned 32-bit field with its check.
unfoldable pub aligned_u32 : Endian → Reader ℕ
aligned_u32 host = do align_cur 4; need 4; get_u32 host

-- An aligned length and that many octets.
unfoldable pub aligned_slice : Endian → Reader Slice
aligned_slice host = do len ← aligned_u32 host; get_slice len
