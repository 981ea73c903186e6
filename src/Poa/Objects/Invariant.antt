-- ===== src/Poa/Objects/Invariant.antt =====
-- The invariant of the objects of an adapter, and that the operations on the lists of the servants
-- keep what the other objects have.
use mathlib.Core.Bool.{true≢false}
use mathlib.Core.Option.{none-ne-some, some-injective}
use mate_corba.Prelude.{
  ℕ, suc, ◌<◌, ◌≡◌, ◌≢◌, refl, sym, ap, ◌∙◌, arith, List, [], ◌∷◌, Bool, Bool-cases, true, false,
  inl, inr, ◌||◌, ◌==◌, ==_iff, if◌then◌else◌, Option, none, some, All,
}
use mate_corba.Poa.Objects.{PoaObject, Poa, lookup, put, remove, unlink}

-- How often an object stands in the lists of the servants, and whether it stands in that of one.
abbrev pub count : ℕ → List (ℕ × ℕ) → ℕ
count oid [] = 0
count oid ((s, o) ∷ as_) = if o == oid then suc (count oid as_) else count oid as_

abbrev pub is_linked : ℕ → ℕ → List (ℕ × ℕ) → Bool
is_linked servant oid [] = false
is_linked servant oid ((s, o) ∷ as_) =
    if o == oid then (s == servant) || is_linked servant oid as_ else is_linked servant oid as_

-- An object without a servant is not in use, has nothing pending, and is in no list. One with a
-- servant is in its list and in no other, and a deactivation is pending only while it is in use,
-- to be done when it is not; the count of its uses fits a guint16.
abbrev pub IsActivation : List (ℕ × ℕ) → PoaObject → Option ℕ → Type 0
IsActivation as_ o none = (o.use_cnt ≡ 0) × (o.deactivate_do ≡ false) × (count o.object_id as_ ≡ 0)
IsActivation as_ o (some s) =
    (is_linked s o.object_id as_ ≡ true)
    × (count o.object_id as_ ≡ 1)
    × (o.deactivate_do ≡ true → (0 < o.use_cnt) × (o.need_post_invoke ≡ true))
    × (0 < o.refs)
    × (o.use_cnt < 65536)

abbrev pub IsObject : List (ℕ × ℕ) → PoaObject → Type 0
IsObject as_ o = IsActivation as_ o o.servant

abbrev pub IsValid : Poa → Type 0
IsValid p = All (IsObject p.activations) p.objects

-- Two states of the lists agree on an object.
abbrev pub Agree : ℕ → List (ℕ × ℕ) → List (ℕ × ℕ) → Type 0
Agree oid as_ bs =
    (count oid bs ≡ count oid as_) × ((s : ℕ) → is_linked s oid bs ≡ is_linked s oid as_)

linked_count : (s oid : ℕ) (as_ : List (ℕ × ℕ)) → is_linked s oid as_ ≡ true → 0 < count oid as_
linked_count s oid [] h = absurd (true≢false (sym h))
linked_count s oid ((t, q) ∷ as_) h = elim (Bool-cases (q == oid)) [
  | inl e ↦ rw e (omega arith)
  | inr e ↦ rw e (omega (arith, linked_count s oid as_ (rw e at h)))
]

unlink-cons :
    (s oid t q : ℕ) (as_ bs : List (ℕ × ℕ))
    → (q == oid) ≡ false
    → unlink s oid as_ ≡ some bs
    → unlink s oid ((t, q) ∷ as_) ≡ some ((t, q) ∷ bs)
unfolding unlink
unlink-cons s oid t q as_ bs e h = elim (Bool-cases (t == s)) [
  | inl f ↦ rw (f, e, h) refl
  | inr f ↦ rw (f, h) refl
]

Agree-skip : (t q other : ℕ) (as_ : List (ℕ × ℕ)) → q ≢ other → Agree other ((t, q) ∷ as_) as_
Agree-skip t q other as_ d = let e : (q == other) ≡ false = ground arith in rw e (refl, λ s. refl)

Agree-cons :
    (t q other : ℕ) (as_ bs : List (ℕ × ℕ))
    → Agree other as_ bs
    → Agree other ((t, q) ∷ as_) ((t, q) ∷ bs)
Agree-cons t q other as_ bs (c, l) = elim (Bool-cases (q == other)) [
  | inl e ↦ rw e (ap suc c, λ s. ap (λ x. (t == s) || x) (l s))
  | inr e ↦ rw e (c, l)
]

-- Taking an object out of the list that it stands in.
pub unlink_lem :
    (s oid : ℕ) (as_ : List (ℕ × ℕ))
    → is_linked s oid as_ ≡ true
    → count oid as_ ≡ 1
    → (bs : List (ℕ × ℕ)) × (unlink s oid as_ ≡ some bs)
      × (count oid bs ≡ 0)
      × ((other : ℕ) → other ≢ oid → Agree other as_ bs)
unfolding unlink
unlink_lem s oid [] h c = absurd (true≢false (sym h))
unlink_lem s oid ((t, q) ∷ as_) h c = elim (Bool-cases (q == oid)) [
  | inl e ↦ elim (Bool-cases (t == s)) [
    | inl f ↦ (
      as_,
      rw (f, e) refl,
      omega (arith, rw e at c),
      λ other d. Agree-skip t q other as_ (λ x. d (sym x ∙ (==_iff q oid).0 e)),
    )
    | inr f ↦ absurd (omega (arith, linked_count s oid as_ (rw (e, f) at h), rw e at c))
  ]
  | inr e ↦
      let (bs, u, n, agree) = unlink_lem s oid as_ (rw e at h) (rw e at c) in
      (
        (t, q) ∷ bs,
        unlink-cons s oid t q as_ bs e u,
        rw e n,
        λ other d. Agree-cons t q other as_ bs (agree other d),
      )
]

-- An object keeps its properties where the lists agree on it.
pub IsObject-Agree :
    (as_ bs : List (ℕ × ℕ)) (o : PoaObject)
    → Agree o.object_id as_ bs
    → IsObject as_ o
    → IsObject bs o
IsObject-Agree as_ bs o (c, l) h = by_servant o.servant h
  where
    by_servant : (m : Option ℕ) → IsActivation as_ o m → IsActivation bs o m
    by_servant none (u, d, n) = (u, d, c ∙ n)
    by_servant (some s) (k, n, d, r, b) = (l s ∙ k, c ∙ n, d, r, b)

-- An object is written while the others keep their lists.
pub put-IsObject :
    (as_ bs : List (ℕ × ℕ)) (new : PoaObject) (os : List PoaObject)
    → IsObject bs new
    → ((other : ℕ) → other ≢ new.object_id → Agree other as_ bs)
    → All (IsObject as_) os
    → All (IsObject bs) (put new os)
unfolding put
put-IsObject as_ bs new [] h agree a = tt
put-IsObject as_ bs new (o ∷ os) h agree (a, more) = (
  elim (Bool-cases (o.object_id == new.object_id)) [
    | inl e ↦ rw e h
    | inr e ↦ rw e (IsObject-Agree as_ bs o (agree o.object_id (ground arith)) a)
  ],
  put-IsObject as_ bs new os h agree more,
)

pub remove-IsObject :
    (as_ bs : List (ℕ × ℕ)) (oid : ℕ) (os : List PoaObject)
    → ((other : ℕ) → other ≢ oid → Agree other as_ bs)
    → All (IsObject as_) os
    → All (IsObject bs) (remove oid os)
unfolding remove
remove-IsObject as_ bs oid [] agree a = tt
remove-IsObject as_ bs oid (o ∷ os) agree (a, more) = elim (Bool-cases (o.object_id == oid)) [
  | inl e ↦ rw e (remove-IsObject as_ bs oid os agree more)
  | inr e ↦ rw e (
    IsObject-Agree as_ bs o (agree o.object_id (ground arith)) a,
    remove-IsObject as_ bs oid os agree more,
  )
]

-- What a lookup finds is an object of the map with that id.
pub lookup-IsObject :
    (as_ : List (ℕ × ℕ)) (oid : ℕ) (os : List PoaObject) (o : PoaObject)
    → All (IsObject as_) os
    → lookup oid os ≡ some o
    → IsObject as_ o × (o.object_id ≡ oid)
unfolding lookup
lookup-IsObject as_ oid [] o a e = absurd (none-ne-some o e)
lookup-IsObject as_ oid (x ∷ os) o (a, more) e = elim (Bool-cases (x.object_id == oid)) [
  | inl f ↦
      let same = some-injective x o (rw f at e) in rw (← same) (a, (==_iff x.object_id oid).0 f)
  | inr f ↦ lookup-IsObject as_ oid os o more (rw f at e)
]
