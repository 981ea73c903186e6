-- ===== src/Poa/Collection.antt =====
-- The collection of adapters of poa-manager.c: registration and its end.
use mate_corba.Prelude.{
  ℕ, ◌≡◌, refl, arith, true, false, ◌==◌, List, [], ◌∷◌, ◌++◌, some, Bool-cases, inl, inr,
}
use mathlib.Core.Bool.{true≢false}
use mathlib.Core.Path.{subst}
use mathlib.Core.Option.{some-injective, none-ne-some}
use mate_corba.Poa.Manager.{Manager, is_registered, slist_remove, register_poa}

-- No POA is in the collection twice.
unfoldable pub IsUnique : List ℕ → Type 0
IsUnique [] = Unit {0}
IsUnique (p ∷ ps) = (is_registered p ps ≡ false) × IsUnique ps

is_registered-append :
    (p q : ℕ) (ps : List ℕ)
    → is_registered p ps ≡ false
    → (q == p) ≡ false
    → is_registered p (ps ++ (q ∷ [])) ≡ false
unfolding is_registered
is_registered-append p q [] e f = rw f refl
is_registered-append p q (x ∷ xs) e f = elim (Bool-cases (x == p)) [
  | inl g ↦ absurd (true≢false (rw g at e))
  | inr g ↦ rw g (is_registered-append p q xs (rw g at e) f)
]

==-refl : (p : ℕ) → (p == p) ≡ true
==-refl p = ground arith

==-sym : (p q : ℕ) → (p == q) ≡ false → (q == p) ≡ false
==-sym p q e = ground arith

append-IsUnique :
    (q : ℕ) (ps : List ℕ) → IsUnique ps → is_registered q ps ≡ false → IsUnique (ps ++ (q ∷ []))
unfolding IsUnique is_registered
append-IsUnique q [] u e = (refl, tt)
append-IsUnique q (x ∷ xs) (f, u) e = elim (Bool-cases (x == q)) [
  | inl g ↦ absurd (true≢false (rw g at e))
  | inr g ↦ (is_registered-append x q xs f (==-sym x q g), append-IsUnique q xs u (rw g at e))
]

pub register_poa-IsUnique :
    (poa : ℕ) (m m' : Manager)
    → register_poa poa m ≡ some m'
    → IsUnique m.poa_collection
    → IsUnique m'.poa_collection
unfolding register_poa
register_poa-IsUnique poa m m' r u = elim (Bool-cases (is_registered poa m.poa_collection)) [
  | inl e ↦ absurd (none-ne-some m' (rw e at r))
  | inr e ↦
      subst (λ (x : Manager). IsUnique x.poa_collection) (some-injective _ m' (rw e at r))
        (append-IsUnique poa m.poa_collection u e)
]

is_registered-slist_remove :
    (p q : ℕ) (ps : List ℕ)
    → is_registered p ps ≡ false
    → is_registered p (slist_remove q ps) ≡ false
unfolding is_registered slist_remove
is_registered-slist_remove p q [] e = refl
is_registered-slist_remove p q (x ∷ xs) e = elim (Bool-cases (x == p)) [
  | inl g ↦ absurd (true≢false (rw g at e))
  | inr g ↦ elim (Bool-cases (x == q)) [
    | inl h ↦ rw h (rw g at e)
    | inr h ↦ rw (h, g) (is_registered-slist_remove p q xs (rw g at e))
  ]
]

pub slist_remove-IsUnique : (q : ℕ) (ps : List ℕ) → IsUnique ps → IsUnique (slist_remove q ps)
unfolding IsUnique slist_remove
slist_remove-IsUnique q [] u = tt
slist_remove-IsUnique q (x ∷ xs) (f, u) = elim (Bool-cases (x == q)) [
  | inl h ↦ rw h u
  | inr h ↦ rw h (is_registered-slist_remove x q xs f, slist_remove-IsUnique q xs u)
]
