-- ===== src/Any/Unions/Selection.antt =====
-- Which member MateCORBA_get_union_tag selects.
use mate_corba.Prelude.{
  ℕ, zero, suc, ◌+◌, ◌≤◌, ◌<◌, ◌≡◌, ◌⊎◌, ap, arith, List, [], ◌∷◌, length, Bool-cases, false, inl,
  inr, Option, none, some, ◌==◌, ltb, if◌then◌else◌, u32_mod, ◌%◌, ◌-◌,
}
use mate_corba.Any.Types.{
  Kind, TypeCode, tk_short, tk_long, tk_ushort, tk_ulong, tk_boolean, tk_char, tk_octet, tk_enum,
}
use mathlib.Core.Path.{subst}
use mate_corba.Any.Unions.{
  is_default, glong_of_long, find_label, get_union_switch, or_default, get_union_tag, tag_of_switch,
}

-- The label that IDL gives a member for the value that the bits `n` of a discriminator hold: a
-- CORBA_long, where a negative short is the same number on 32 bits.
abbrev pub label_for : Kind → ℕ → ℕ
label_for tk_short n = if ltb n 0x8000 then n else n + (u32_mod - 65536)
label_for _ n = n

-- Bits of a discriminator of the kind that the code selects a member by: an unsigned short from
-- 0x8000 on and a char from 0x80 on are not among them, as the code reads the
-- first as negative and the second, a signed type, as positive.
abbrev pub IsDiscriminator : Kind → ℕ → Type 0
IsDiscriminator tk_long n = n < u32_mod
IsDiscriminator tk_ulong n = n < u32_mod
IsDiscriminator tk_enum n = n < u32_mod
IsDiscriminator tk_short n = n < 65536
IsDiscriminator tk_ushort n = n < 0x8000
IsDiscriminator tk_boolean n = n < 256
IsDiscriminator tk_octet n = n < 256
IsDiscriminator tk_char n = n < 0x80
IsDiscriminator _ n = ⊥

-- The member `i`, counted from the start of `ls`, has that label and is not the default, whose
-- index is counted from a place that lies `from` before.
abbrev pub IsLabel : ℕ → List ℕ → Option ℕ → ℕ → ℕ → Type 0
IsLabel from [] default_index discrim i = ⊥
IsLabel from (l ∷ ls) default_index discrim zero =
    (is_default from default_index ≡ false) × (l % u32_mod ≡ discrim)
IsLabel from (l ∷ ls) default_index discrim (suc i) = IsLabel (suc from) ls default_index discrim i

-- The first member with the label, or that there is none.
abbrev pub IsFirst : ℕ → List ℕ → Option ℕ → ℕ → Option ℕ → Type 0
IsFirst from ls default_index discrim none = (i : ℕ) → IsLabel from ls default_index discrim i → ⊥
IsFirst from ls default_index discrim (some j) =
    (k : ℕ) × (j ≡ from + k)
    × IsLabel from ls default_index discrim k
    × ((i : ℕ) → i < k → IsLabel from ls default_index discrim i → ⊥)

-- What a union's discriminator should select: the first member whose label it is, and which is not
-- the default; the default member, if there is one, where no label fits; and nothing else.
abbrev pub IsSelected : List ℕ → Option ℕ → ℕ → Option ℕ → Type 0
IsSelected labels default_index discrim i =
    IsFirst 0 labels default_index discrim i
    ⊎ (IsFirst 0 labels default_index discrim none × (i ≡ default_index))

-- Every member that is named lies inside the union, if the labels and the default do.
abbrev pub IsBelow : ℕ → Option ℕ → Type 0
IsBelow n none = Unit {0}
IsBelow n (some i) = i < n

find_label-IsBelow :
    (from : ℕ) (ls : List ℕ) (d : Option ℕ) (x : ℕ)
    → IsBelow (from + length ls) (find_label from ls d x)
unfolding find_label
find_label-IsBelow from [] d x = tt
find_label-IsBelow from (l ∷ ls) d x =
    let ih : IsBelow (from + suc (length ls)) (find_label (suc from) ls d x) =
      subst (λ m. IsBelow m (find_label (suc from) ls d x)) (omega arith)
        (find_label-IsBelow (suc from) ls d x) in
    elim (Bool-cases (is_default from d)) [
      | inl e ↦ rw e ih
      | inr e ↦ rw e (elim (Bool-cases (glong_of_long l == x)) [
        | inl q ↦ rw q (omega arith)
        | inr q ↦ rw q ih
      ])
    ]

or_default-IsBelow :
    (m n : ℕ) (r d : Option ℕ) → m ≤ n → IsBelow m r → IsBelow n d → IsBelow n (or_default r d)
or_default-IsBelow m n none d h a b = b
or_default-IsBelow m n (some i) d h a b = omega (arith, a, h)

pub get_union_tag-IsBelow :
    (m : ℕ) (discriminator : TypeCode) (labels : List ℕ) (default_index : Option ℕ) (n x : ℕ)
    → get_union_switch discriminator n ≡ some x
    → length labels ≤ m
    → IsBelow m default_index
    → (i : Option ℕ) × (get_union_tag discriminator labels default_index n ≡ some i) × IsBelow m i
unfolding get_union_tag tag_of_switch
get_union_tag-IsBelow m t labels d n x e h b = (
  or_default (find_label 0 labels d x) d,
  ap (λ r. tag_of_switch labels d r) e,
  or_default-IsBelow (0 + length labels) m _ d (omega (arith, h)) (find_label-IsBelow 0 labels d x)
      b,
)
