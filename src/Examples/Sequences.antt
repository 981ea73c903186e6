-- ===== src/Examples/Sequences.antt =====
-- The sequence functions at a concrete input: two numbers in a buffer for two.
use mate_corba.Prelude.{ℕ, refl, arith, [], ◌∷◌, ◌++◌, true, take, drop}
use mate_corba.Any.Sequences.{Sequence, set_size, sequence_append, sequence_remove, sequence_concat}
use mate_corba.Any.Sequences.Refinement.{
  elements, IsValid, Ensures, Holds, IsAppended, Resized, copies, sequence_append-IsAppended,
  sequence_remove-Holds, set_size-Resized, sequence_concat-Holds,
}

abbrev same : ℕ → ℕ
same n = n

abbrev two : Sequence ℕ
two = record { buffer = 5 ∷ 6 ∷ []; len = 2; maximum = 2 }

two-IsValid : IsValid 8 two
two-IsValid = record {
  whole = refl;
  within = omega arith;
  small = omega arith;
  sized = omega arith;
}

sequence_append-IsAppended_example :
    Ensures (IsAppended 8 0 same true two 7) (sequence_append 8 0 same true two 7)
sequence_append-IsAppended_example =
    sequence_append-IsAppended 8 0 same true two 7 two-IsValid (omega arith) (omega arith)

sequence_remove-Holds_example :
    Ensures
      (Holds 8 (take 0 (elements two) ++ drop 1 (elements two)))
      (sequence_remove 8 0 same true two 0)
sequence_remove-Holds_example = sequence_remove-Holds 8 0 same true two 0 two-IsValid (omega arith)

set_size-Resized_example : Ensures (Resized 8 0 same true two 5) (set_size 8 0 same true two 5)
set_size-Resized_example =
    set_size-Resized 8 0 same true two 5 two-IsValid (omega arith) (omega arith) (omega arith)

sequence_concat-Holds_example :
    Ensures
      (Holds 8 (elements two ++ copies 8 0 same true (elements two)))
      (sequence_concat 8 0 same true two two)
sequence_concat-Holds_example =
    sequence_concat-Holds 8 0 same true two two two-IsValid two-IsValid (omega arith) (omega arith)
      (omega arith)
