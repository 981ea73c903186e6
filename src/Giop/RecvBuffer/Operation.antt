-- ===== src/Giop/RecvBuffer/Operation.antt =====
-- The operation's name in a request: as matecorba-small.c lays it out and as giop-recv-buffer.c
-- reads it.
use mate_corba.Prelude.{
  ℕ, ◌+◌, ◌-◌, ◌%◌, ◌<◌, ◌≡◌, refl, sym, ap, ◌∙◌, arith, List, [], ◌∷◌, ◌++◌, length, u32_mod,
  Endian, u32_bytes, length-u32_bytes, length-append, replicate, append_assoc,
}
use mathlib.Core.Path.{subst}
use mate_corba.Giop.Align.{align_value, align_value-four}
use mate_corba.Giop.SendBuffer.Append.{padding}
use mate_corba.Giop.Messages.Layout.{cdr_align, cdr_octets, operation_vec}
use mate_corba.Giop.RecvBuffer.Reader.{RecvBuffer, Slice}
use mate_corba.Giop.RecvBuffer.At.{IsFront, IsFront-append, Received}
use mate_corba.Giop.RecvBuffer.Parts.{cdr_align-id, length-cdr_align}

-- The slice that a sequence of octets is read into.
abbrev pub octets_slice : RecvBuffer → Endian → List ℕ → List ℕ → Slice
octets_slice b sender xs p = record {
  addr = b.base + (12 + length (cdr_align 4 p ++ u32_bytes sender (length xs)));
  bytes = xs;
}

pub cdr_align-nil : cdr_align 4 [] ≡ []
cdr_align-nil = cdr_align-id [] refl (omega arith)

pub regroup : {A : Type 0} (a b c d : List A) → a ++ b ++ c ++ d ≡ a ++ (b ++ c ++ d)
regroup a b c d =
    append_assoc (a ++ b) c d
    ∙ append_assoc a b (c ++ d)
    ∙ ap (λ t. a ++ t) (sym (append_assoc b c d))

pub cdr_align-padding :
    (q : List ℕ) → cdr_align 4 q ≡ q ++ replicate (padding ((length q + 12) % u32_mod) 4) 0
unfolding cdr_align
cdr_align-padding q = refl

-- The zeros behind a name are those that align what follows it.
pub cdr_align-operation :
    (sender : Endian) (name p : List ℕ)
    → length (cdr_octets sender (name ++ (0 ∷ [])) p) + 12 < u32_mod
    → length p + 12 < u32_mod
    → cdr_align 4 (cdr_octets sender (name ++ (0 ∷ [])) p)
      ≡ cdr_align 4 p ++ operation_vec sender name
unfolding cdr_octets operation_vec
cdr_align-operation sender name p h l =
    let text = name ++ (0 ∷ []) in
    let a = cdr_align 4 p in
    let q = a ++ u32_bytes sender (length text) ++ text in
    let total = length-append (a ++ u32_bytes sender (length text)) text in
    let front = length-append a (u32_bytes sender (length text)) in
    let four = length-u32_bytes sender (length text) in
    let zeros : padding ((length q + 12) % u32_mod) 4
        ≡ align_value (4 + length text) 4 - (4 + length text) =
      unfold padding in
      omega (
        arith,
        length-cdr_align p l,
        total,
        front,
        four,
        align_value-four ((length q + 12) % u32_mod) (omega arith),
        align_value-four (4 + length text) (omega arith),
      ) in
    let word = u32_bytes sender (length text) in
    let z = replicate (align_value (4 + length text) 4 - (4 + length text)) 0 in
    cdr_align-padding q ∙ ap (λ n. q ++ replicate n 0) zeros ∙ regroup a word text z

module _ (host sender : Endian) (b : RecvBuffer) (total : List ℕ)
    (r : Received host sender b total) where
  pub operation-IsFront :
      (p name : List ℕ)
      → IsFront (cdr_align 4 p ++ operation_vec sender name) total
      → IsFront (cdr_octets sender (name ++ (0 ∷ [])) p) total
  unfolding cdr_octets operation_vec
  operation-IsFront p name f =
      let text = name ++ (0 ∷ []) in
      let word = u32_bytes sender (length text) in
      let z = replicate (align_value (4 + length text) 4 - (4 + length text)) 0 in
      IsFront-append _ z total
        (subst (λ t. IsFront t total) (sym (regroup (cdr_align 4 p) word text z)) f)
