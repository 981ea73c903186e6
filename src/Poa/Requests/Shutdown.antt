-- ===== src/Poa/Requests/Shutdown.antt =====
-- The deactivation of an adapter none of whose objects is in use takes every object from its
-- servant.
use mathlib.Core.Bool.{true≢false}
use mathlib.Core.Option.{none-ne-some}
use mate_corba.Prelude.{
  ℕ, suc, ◌≡◌, ◌≢◌, refl, sym, ap, ◌∙◌, arith, List, [], ◌∷◌, Bool, Bool-cases, true, false, inl,
  inr, not, ltb, ◌==◌, ==_iff, if◌then◌else◌, Option, none, some, Option-cases, All,
}
use mate_corba.Poa.Objects.{
  PoaObject, Poa, Call, Result, done, raised, aborted, when_done, lookup, put, unlink, release,
  release_cb, wish, end_activation, deactivate_servant, deactivate_object_T,
}
use mate_corba.Poa.Objects.Invariant.{
  count, is_linked, IsActivation, IsObject, Agree, unlink_lem, lookup-IsObject,
}
use mate_corba.Poa.Objects.Steps.{IsValid, put-IsValid}
use mate_corba.Poa.Requests.{any_in_use, traverse, remove_destroyed, deactivate_map}

lookup-put_other :
    (x : ℕ) (new : PoaObject) (os : List PoaObject)
    → x ≢ new.object_id
    → lookup x (put new os) ≡ lookup x os
unfolding lookup put
lookup-put_other x new [] d = refl
lookup-put_other x new (o ∷ os) d = elim (Bool-cases (o.object_id == new.object_id)) [
  | inl f ↦
      let g : (new.object_id == x) ≡ false = ground arith in
      let h : (o.object_id == x) ≡ false = ground arith in
      rw (f, g, h) (lookup-put_other x new os d)
  | inr f ↦ rw f (ap (λ r. if o.object_id == x then some o else r) (lookup-put_other x new os d))
]

-- What the deactivation of one object leaves: it is in no servant's list, and the others are as
-- they were.
record Freed (oid : ℕ) (p q : Poa) : Type 0 where
  valid : IsValid q
  flag : q.life_deactivating ≡ true
  gone : count oid q.activations ≡ 0
  found : (x : ℕ) → x ≢ oid → lookup x q.objects ≡ lookup x p.objects
  kept : (x : ℕ) → x ≢ oid → count x q.activations ≡ count x p.activations

abbrev Frees : ℕ → Poa → Result → Type 0
Frees oid p (done q) = Freed oid p q
Frees oid p (raised x q) = ⊥
Frees oid p aborted = ⊥

written-Freed :
    (new : PoaObject) (p : Poa) (bs : List (ℕ × ℕ)) (log : List Call)
    → IsValid p
    → p.life_deactivating ≡ true
    → IsObject bs new
    → count new.object_id bs ≡ 0
    → ((x : ℕ) → x ≢ new.object_id → Agree x p.activations bs)
    → Freed new.object_id p
        (record p { objects = put new p.objects; activations = bs; calls = log })
written-Freed new p bs log v flag h gone agree = record {
  valid = put-IsValid p bs log new v h agree (λ _. gone);
  flag = flag;
  gone = gone;
  found = λ x d. lookup-put_other x new p.objects d;
  kept = λ x d. (agree x d).0;
}

end_activation-Frees :
    (o : PoaObject) (s : ℕ) (p : Poa)
    → IsValid p
    → p.life_deactivating ≡ true
    → o.use_cnt ≡ 0
    → is_linked s o.object_id p.activations ≡ true
    → count o.object_id p.activations ≡ 1
    → Frees o.object_id p (end_activation o s (unlink s o.object_id p.activations) p)
unfolding end_activation release release_cb
end_activation-Frees o s p v flag u l c =
    let (bs, e, gone, agree) = unlink_lem s o.object_id p.activations l c in
    rw e (elim (Bool-cases (ltb 1 o.refs)) [
      | inl f ↦ rw f (written-Freed _ p bs _ v flag (u, refl, gone) gone agree)
      | inr f ↦ rw f (
          by_flag p.life_deactivating flag bs _
            (written-Freed _ p bs _ v flag (u, refl, gone) gone agree))
    ])
  where
    by_flag :
        (d : Bool)
        → d ≡ true
        → (bs : List (ℕ × ℕ)) (log : List Call)
        → Frees o.object_id p (
            done (
              release_cb true
                (record o {
                  servant = none;
                  deactivate_do = false;
                  is_cleanup = false;
                  do_etherealize = false;
                })
                (record p { activations = bs; calls = log })))
        → Frees o.object_id p (
            done (
              release_cb d
                (record o {
                  servant = none;
                  deactivate_do = false;
                  is_cleanup = false;
                  do_etherealize = false;
                })
                (record p { activations = bs; calls = log })))
    by_flag true e bs log h = h
    by_flag false e bs log h = absurd (true≢false (sym e))

deactivate_object_T-Frees :
    (o : PoaObject) (e : Bool) (p : Poa)
    → IsValid p
    → p.life_deactivating ≡ true
    → lookup o.object_id p.objects ≡ some o
    → o.use_cnt ≡ 0
    → Frees o.object_id p (deactivate_object_T o e true p)
unfolding deactivate_object_T deactivate_servant wish
deactivate_object_T-Frees o e p v flag there u =
    by_servant o.servant (lookup-IsObject p.activations o.object_id p.objects o v.each there).0
  where
    by_servant :
        (m : Option ℕ)
        → IsActivation p.activations o m
        → Frees o.object_id p (deactivate_servant m (wish e true o) p)
    by_servant none (_, _, c) = record {
      valid = v;
      flag = flag;
      gone = c;
      found = λ x d. refl;
      kept = λ x d. refl;
    }
    by_servant (some s) (l, c, _, _, _) =
        let idle : ltb 0 o.use_cnt ≡ false = ground arith in
        rw idle (end_activation-Frees (wish e true o) s p v flag u l c)

-- The objects of a list are those of the map, are not in use, and have ids of their own.
abbrev Found : List PoaObject → Poa → Type 0
Found os p = All (λ o. (lookup o.object_id p.objects ≡ some o) × (o.use_cnt ≡ 0)) os

abbrev pub HaveOwnIds : List PoaObject → Type 0
HaveOwnIds [] = Unit {0}
HaveOwnIds (o ∷ os) = All (λ x. x.object_id ≢ o.object_id) os × HaveOwnIds os

abbrev Ends : List PoaObject → Poa → Result → Type 0
Ends os p (done q) =
    IsValid q
    × All (λ o. count o.object_id q.activations ≡ 0) os
    × ((x : ℕ) → All (λ o. o.object_id ≢ x) os → count x q.activations ≡ count x p.activations)
Ends os p (raised x q) = ⊥
Ends os p aborted = ⊥

Found-others :
    (os : List PoaObject) (oid : ℕ) (p q : Poa)
    → ((x : ℕ) → x ≢ oid → lookup x q.objects ≡ lookup x p.objects)
    → All (λ x. x.object_id ≢ oid) os
    → Found os p
    → Found os q
Found-others [] oid p q same d h = tt
Found-others (o ∷ os) oid p q same (d, ds) ((e, u), hs) =
    ((same o.object_id d ∙ e, u), Found-others os oid p q same ds hs)

traverse-Ends :
    (e : Bool) (os : List PoaObject) (p : Poa)
    → IsValid p
    → p.life_deactivating ≡ true
    → Found os p
    → HaveOwnIds os
    → Ends os p (traverse e os p)
unfolding traverse when_done
traverse-Ends e [] p v flag h d = (v, tt, λ x _. refl)
traverse-Ends e (o ∷ os) p v flag ((there, u), hs) (d, ds) =
    continued (deactivate_object_T o e true p) (deactivate_object_T-Frees o e p v flag there u)
      (λ q f. traverse-Ends e os q f.valid f.flag (Found-others os o.object_id p q f.found d hs) ds)
  where
    continued :
        (r : Result)
        → Frees o.object_id p r
        → ((q : Poa) → Freed o.object_id p q → Ends os q (traverse e os q))
        → Ends (o ∷ os) p (when_done r (λ q. traverse e os q))
    continued (done q) f ih = joined (traverse e os q) f (ih q f)
      where
        joined : (r : Result) → Freed o.object_id p q → Ends os q r → Ends (o ∷ os) p r
        joined (done t) f (w, all, same) = (
          w,
          (same o.object_id d ∙ f.gone, all),
          λ x (a, b). same x b ∙ f.kept x (λ z. a (sym z)),
        )
        joined (raised x t) f k = k
        joined aborted f k = k
    continued (raised x q) f ih = absurd f
    continued aborted f ih = absurd f

Found-cons :
    (o : PoaObject) (os xs : List PoaObject)
    → All (λ x. x.object_id ≢ o.object_id) xs
    → All (λ x. (lookup x.object_id os ≡ some x) × (x.use_cnt ≡ 0)) xs
    → All (λ x. (lookup x.object_id (o ∷ os) ≡ some x) × (x.use_cnt ≡ 0)) xs
unfolding lookup
Found-cons o os [] d h = tt
Found-cons o os (x ∷ xs) (d, ds) ((e, u), hs) =
    let f : (o.object_id == x.object_id) ≡ false = ground arith in
    ((ap (λ b. if b then some o else lookup x.object_id os) f ∙ e, u), Found-cons o os xs ds hs)

-- An adapter that is not in use has its objects where they are found, and none in use.
Found-All :
    (os : List PoaObject)
    → HaveOwnIds os
    → any_in_use os ≡ false
    → All (λ x. (lookup x.object_id os ≡ some x) × (x.use_cnt ≡ 0)) os
unfolding any_in_use lookup
Found-All [] d h = tt
Found-All (o ∷ os) (d, ds) h = elim (Bool-cases (ltb 0 o.use_cnt)) [
  | inl e ↦ absurd (true≢false (rw e at h))
  | inr e ↦
      let same : (o.object_id == o.object_id) ≡ true = (==_iff _ _).1 refl in
      (
        (ap (λ b. if b then some o else lookup o.object_id os) same, ground arith),
        Found-cons o os os d (Found-All os ds (rw e at h)),
      )
]

lookup-none : (x : ℕ) (os : List PoaObject) → lookup x os ≡ none → All (λ o. o.object_id ≢ x) os
unfolding lookup
lookup-none x [] e = tt
lookup-none x (o ∷ os) e = elim (Bool-cases (o.object_id == x)) [
  | inl f ↦ absurd (none-ne-some o (sym (rw f at e)))
  | inr f ↦ (ground arith, lookup-none x os (rw f at e))
]

lookup-gone :
    (x : ℕ) (o : PoaObject) (as_ : List (ℕ × ℕ)) (os : List PoaObject)
    → All (λ o. count o.object_id as_ ≡ 0) os
    → lookup x os ≡ some o
    → count x as_ ≡ 0
unfolding lookup
lookup-gone x o as_ [] h e = absurd (none-ne-some o e)
lookup-gone x o as_ (y ∷ os) (h, hs) e = elim (Bool-cases (y.object_id == x)) [
  | inl f ↦ ap (λ i. count i as_) (sym ((==_iff y.object_id x).0 f)) ∙ h
  | inr f ↦ lookup-gone x o as_ os hs (rw f at e)
]

no_activations : (as_ : List (ℕ × ℕ)) → ((x : ℕ) → count x as_ ≡ 0) → as_ ≡ []
no_activations [] h = refl
no_activations ((s, o) ∷ as_) h =
    let same : (o == o) ≡ true = (==_iff o o).1 refl in
    absurd (omega (arith, sym (ap (λ b. if b then suc (count o as_) else count o as_) same) ∙ h o))

-- The adapter while its map is traversed, and behind that.
abbrev started : Poa → Poa
started p = record p { life_deactivate_do = true; life_deactivating = true }

abbrev finished : Poa → Poa
finished q = record q { objects = remove_destroyed q.objects; life_deactivating = false }

-- When a well-formed adapter whose objects have ids of their own, none of them in use, is
-- deactivated, the pass over its map fails no assertion and reports that it is done, and no
-- object is left in the list of any servant.
pub deactivate_map-any_in_use :
    (e : Bool) (p : Poa)
    → IsValid p
    → HaveOwnIds p.objects
    → any_in_use p.objects ≡ false
    → (q : Poa) × (deactivate_map e p ≡ (done q, true)) × (q.activations ≡ [])
unfolding deactivate_map when_done
deactivate_map-any_in_use e p v own idle = ended (traverse e p.objects (started p)) (
    traverse-Ends e p.objects (started p) (record { each = v.each; closed = v.closed }) refl
      (Found-All p.objects own idle) own)
  where
    ended :
        (r : Result)
        → Ends p.objects (started p) r
        → (q : Poa) × ◌≡◌ {A = Result × Bool}
            (when_done r (λ q. done (finished q)), not (any_in_use p.objects))
            (done q, true)
          × (q.activations ≡ [])
    ended (done q) (w, all, same) = (
      finished q,
      ap (λ b. (done (finished q), not b)) idle,
      no_activations q.activations (λ x. elim (Option-cases (lookup x p.objects)) [
        | inl f ↦ same x (lookup-none x p.objects f) ∙ v.closed x f
        | inr (o, f) ↦ lookup-gone x o q.activations p.objects all f
      ]),
    )
    ended (raised x q) h = absurd h
    ended aborted h = absurd h
