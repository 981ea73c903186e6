-- ===== src/Any/Sequences.antt =====
-- The sequence functions at the end of corba-any.c: MateCORBA_sequence_set_size and its siblings,
-- with MateCORBA_realloc_tcval of allocators.c.
pub mod Refinement
use Prim.Native.Nat.{max}
use mate_corba.Prelude.{
  ℕ, zero, suc, ◌+◌, ◌-◌, ◌*◌, ◌%◌, List, [], ◌∷◌, ◌++◌, length, take, drop, replicate, Bool, ltb,
  ◌&&◌, ◌||◌, ◌==◌, if◌then◌else◌, Option, none, some, u32_mod,
}

-- CORBA_sequence_CORBA_octet, with the elements instead of octets: `buffer` has _maximum of them.
pub record Sequence (A : Type 0) : Type 0 where
  pub buffer : List A
  pub len : ℕ
  pub maximum : ℕ

-- Going on unless an assertion failed.
unfoldable pub or_abort : {A B : Type 0} → Option A → (A → Option B) → Option B
or_abort none k = none
or_abort (some a) k = k a

-- `element_size` is what MateCORBA_gather_alloc_info gives, at least one byte, `blank` an element of
-- zero bytes, `copy` MateCORBA_copy_value_core of an element, and `is_base` tells that the elements
-- are of one of the BASE_TYPES.
module _ {A : Type 0} (element_size : ℕ) (blank : A) (copy : A → A) (is_base : Bool) where
  -- The bytes of `n` elements are counted in a guint. Where the product wraps, what the code
  -- reaches is not where the elements are, which is none here, as a failed assertion is.
  unfoldable pub fits : ℕ → Bool
  fits n = ltb (element_size * n) u32_mod

  -- MateCORBA_realloc_tcval: zeros behind the old elements; none where its assertion fails.
  unfoldable pub realloc_tcval : List A → ℕ → ℕ → Option (List A)
  realloc_tcval old old_num_elements num_elements =
      if ltb old_num_elements num_elements && fits num_elements
      then some (old ++ replicate (num_elements - old_num_elements) blank)
      else none

  -- A longer buffer for the sequence.
  unfoldable pub grow : Sequence A → ℕ → Option (Sequence A)
  grow seq new_len =
      or_abort (realloc_tcval seq.buffer seq.maximum new_len)
        (λ buffer. some (record { buffer = buffer; len = seq.len; maximum = new_len }))

  -- The buffer of a sequence that becomes shorter: zeros from `n` on, or in-line values that stay.
  unfoldable pub shrink : Sequence A → ℕ → List A
  shrink seq n =
      if is_base
      then seq.buffer
      else take n seq.buffer ++ (replicate (seq.len - n) blank ++ drop seq.len seq.buffer)

  -- MateCORBA_sequence_set_size
  unfoldable pub set_size : Sequence A → ℕ → Option (Sequence A)
  set_size seq n =
      if ltb seq.maximum seq.len
      then some seq
      else if seq.len == n
      then some seq
      else if ltb n seq.len
      then if is_base || fits seq.len
        then some (record { buffer = shrink seq n; len = n; maximum = seq.maximum })
        else none
      else or_abort
          (if ltb seq.maximum n then grow seq (max n (seq.maximum * 2 % u32_mod)) else some seq)
          (λ grown. some (record { buffer = grown.buffer; len = n; maximum = grown.maximum }))

  -- The element written behind the last one.
  unfoldable pub put_last : Sequence A → A → Option (Sequence A)
  put_last seq element =
      if fits (suc seq.len)
      then some (record {
        buffer = take seq.len seq.buffer ++ (copy element ∷ drop (suc seq.len) seq.buffer);
        len = suc seq.len % u32_mod;
        maximum = seq.maximum;
      })
      else none

  -- MateCORBA_sequence_append
  unfoldable pub sequence_append : Sequence A → A → Option (Sequence A)
  sequence_append seq element =
      if ltb seq.maximum seq.len
      then some seq
      else or_abort
          (if seq.len == seq.maximum
            then grow seq (max 2 (seq.maximum * 2 % u32_mod))
            else some seq)
          (λ grown. put_last grown element)

  -- MateCORBA_sequence_remove
  unfoldable pub sequence_remove : Sequence A → ℕ → Option (Sequence A)
  sequence_remove seq idx =
      if ltb seq.maximum seq.len
      then some seq
      else if ltb idx seq.len
      then if fits seq.len
        then some (record {
          buffer =
              take idx seq.buffer
              ++ (take (seq.len - idx - 1) (drop (suc idx) seq.buffer)
                  ++ (blank ∷ drop seq.len seq.buffer));
          len = seq.len - 1;
          maximum = seq.maximum;
        })
        else none
      else some seq

  -- The loop of MateCORBA_sequence_concat over the elements of another sequence.
  unfoldable pub append_all : Sequence A → List A → Option (Sequence A)
  append_all seq [] = some seq
  append_all seq (x ∷ xs) = or_abort (sequence_append seq x) (λ s. append_all s xs)

  -- MateCORBA_sequence_concat, where the two are not one sequence.
  unfoldable pub sequence_concat : Sequence A → Sequence A → Option (Sequence A)
  sequence_concat seq other =
      if ltb other.maximum other.len then some seq else append_all seq (take other.len other.buffer)
