-- ===== src/Giop/RecvBuffer/Encaps.antt =====
-- Encapsulations: giop_recv_buffer_use_encaps and giop_recv_buffer_use_encaps_buf of
-- giop-recv-buffer.c.
use mate_corba.Prelude.{
  ℕ, ◌+◌, ◌%◌, ◌≤◌, ◌<◌, ◌≡◌, refl, sym, arith, ltb, if◌then◌else◌, [], get_or, u32_mod, u64_mod,
  Endian,
}
use mathlib.Core.Path.{subst}
use mate_corba.Giop.Types.{giop_1_2}
use mate_corba.Giop.RecvBuffer.Reader.{
  Outcome, ok, bad, fault, RecvBuffer, Reader, ◌>>=◌, >>=-eq_of_ok, memory_at, get_slice,
  aligned_u32,
}
use mate_corba.Giop.RecvBuffer.Safety.{Ensures}
use mate_corba.Giop.RecvBuffer.Safety.Steps.{IsWord, aligned_u32-IsWord}

-- giop_recv_buffer_use_encaps on memory of `outer`, the buffer that the encapsulation lies in: its
-- first byte holds the flags, and is read whatever the length.
unfoldable pub use_encaps : RecvBuffer → ℕ → ℕ → Outcome RecvBuffer
use_encaps outer mem len =
    if ltb outer.end (mem + 1)
    then fault
    else ok (record {
      msg_header = record {
        magic = [];
        version_0 = 0;
        version_1 = 0;
        flags = get_or (memory_at outer mem) 0 0;
        message_type = 0;
        message_size = len % u32_mod;
      };
      giop_version = giop_1_2;
      base = mem;
      memory = memory_at outer mem;
      cur = mem + 1;
      end = mem + len;
    })

-- giop_recv_buffer_use_encaps_buf, which gives NULL for `bad`, and leaves the outer buffer behind
-- the encapsulation.
unfoldable pub use_encaps_buf : Endian → Reader RecvBuffer
use_encaps_buf host = do
  len ← aligned_u32 host
  s ← get_slice len
  λ b. elim (use_encaps b s.addr len) [ ok inner ↦ ok (inner, b) | bad ↦ bad | fault ↦ fault ]

-- What opening an encapsulation of `len` octets from the read position of `b` on gives: where it
-- fits before the end `e`, a buffer for exactly those octets, whose read position is behind the
-- first, with the outer one behind them all; and NULL where it does not.
abbrev pub IsEncaps : ℕ → RecvBuffer → ℕ → Outcome (RecvBuffer × RecvBuffer) → Type 0
IsEncaps e b len (ok (inner, after)) =
    (inner.base ≡ b.cur)
    × (inner.cur ≡ b.cur + 1)
    × (inner.end ≡ b.cur + len)
    × (b.cur + len ≤ e)
    × (inner.memory ≡ memory_at b b.cur)
    × (after ≡ record b { cur = b.cur + len })
IsEncaps e b len bad = e < b.cur + len
IsEncaps e b len fault = ⊥

-- Opening once the length is known.
opened-IsEncaps :
    (e len : ℕ) (b : RecvBuffer)
    → e < u64_mod
    → 0 < len
    → len < u32_mod
    → b.cur ≤ e
    → b.end ≡ e
    → IsEncaps e b len (
        (do
          s ← get_slice len
          λ b'. elim (use_encaps b' s.addr len) [
            | ok inner ↦ ok (inner, b')
            | bad ↦ bad
            | fault ↦ fault
          ])
          b)
unfolding get_slice use_encaps
opened-IsEncaps e len b h p l c i = ground arith

-- When the length that use_encaps_buf reads is not zero, the read position is inside the
-- message and the message ends at least 16 below 2^64, it reads nothing past the end of the
-- message. Where that many octets follow the length, it gives a buffer for exactly those
-- octets, from the one behind the length to the last, with its read position behind the first,
-- and leaves the outer read position behind them all; where they do not, it gives NULL.
pub use_encaps_buf-IsEncaps :
    (host : Endian) (b : RecvBuffer) (len : ℕ) (b' : RecvBuffer)
    → b.end + 16 ≤ u64_mod
    → b.cur ≤ b.end
    → aligned_u32 host b ≡ ok (len, b')
    → 0 < len
    → IsEncaps b.end b' len (use_encaps_buf host b)
unfolding use_encaps_buf
use_encaps_buf-IsEncaps host b len b' h r e p =
    let (l, c, i) : IsWord b.end len b' =
      subst (Ensures (IsWord b.end)) e (aligned_u32-IsWord host b.end b h (r, refl)) in
    subst (IsEncaps b.end b' len) (sym (>>=-eq_of_ok (aligned_u32 host) _ b e refl))
      (opened-IsEncaps b.end len b' (omega (arith, h)) p l c i)
