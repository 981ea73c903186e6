-- ===== src/Poa/Objects/Steps.antt =====
-- The operations keep an adapter well-formed, and their assertions hold.
use mathlib.Core.Bool.{true≢false}
use mathlib.Core.Option.{none-ne-some}
use mate_corba.Prelude.{
  ℕ, suc, ◌≡◌, ◌≢◌, refl, sym, ap, ◌∙◌, arith, List, [], ◌∷◌, Bool, Bool-cases, true, false, inl,
  inr, ◌||◌, ltb, ◌==◌, ==_iff, Option, none, some, All,
}
use mate_corba.Poa.Objects.{
  PoaObject, Poa, Call, Result, done, raised, aborted, lookup, put, remove, unlink, is_active,
  release, release_cb, activate_object_T, wish, end_activation, deactivate_servant,
  deactivate_object_T,
}
use mate_corba.Poa.Objects.Invariant.{
  count, is_linked, IsActivation, IsObject, Agree, unlink_lem, put-IsObject, remove-IsObject,
}

-- The objects of the map are well-formed, and the lists of the servants name no others.
pub record IsValid (p : Poa) : Type 0 where
  pub each : All (IsObject p.activations) p.objects
  pub closed : (oid : ℕ) → lookup oid p.objects ≡ none → count oid p.activations ≡ 0

-- A function ends without a failed assertion, and leaves a well-formed adapter.
abbrev pub Keeps : Result → Type 0
Keeps (done p) = IsValid p
Keeps (raised x p) = IsValid p
Keeps aborted = ⊥

lookup-put :
    (oid : ℕ) (new : PoaObject) (os : List PoaObject)
    → lookup oid (put new os) ≡ none
    → lookup oid os ≡ none
unfolding lookup put
lookup-put oid new [] e = refl
lookup-put oid new (o ∷ os) e = elim (Bool-cases (o.object_id == new.object_id)) [
  | inl f ↦ elim (Bool-cases (new.object_id == oid)) [
    | inl g ↦ absurd (none-ne-some new (sym (rw (f, g) at e)))
    | inr g ↦
        let h : (o.object_id == oid) ≡ false = ground arith in
        rw h (lookup-put oid new os (rw (f, g) at e))
  ]
  | inr f ↦ elim (Bool-cases (o.object_id == oid)) [
    | inl g ↦ absurd (none-ne-some o (sym (rw (f, g) at e)))
    | inr g ↦ rw g (lookup-put oid new os (rw (f, g) at e))
  ]
]

lookup-remove :
    (oid x : ℕ) (os : List PoaObject)
    → oid ≢ x
    → lookup oid (remove x os) ≡ none
    → lookup oid os ≡ none
unfolding lookup remove
lookup-remove oid x [] d e = refl
lookup-remove oid x (o ∷ os) d e = elim (Bool-cases (o.object_id == x)) [
  | inl f ↦
      let h : (o.object_id == oid) ≡ false = ground arith in
      rw h (lookup-remove oid x os d (rw f at e))
  | inr f ↦ elim (Bool-cases (o.object_id == oid)) [
    | inl g ↦ absurd (none-ne-some o (sym (rw (f, g) at e)))
    | inr g ↦ rw g (lookup-remove oid x os d (rw (f, g) at e))
  ]
]

-- An object of the map is written.
pub put-IsValid :
    (p : Poa) (bs : List (ℕ × ℕ)) (log : List Call) (new : PoaObject)
    → IsValid p
    → IsObject bs new
    → ((other : ℕ) → other ≢ new.object_id → Agree other p.activations bs)
    → (lookup new.object_id p.objects ≡ none → count new.object_id bs ≡ 0)
    → IsValid (record p { objects = put new p.objects; activations = bs; calls = log })
put-IsValid p bs log new v h agree there = record {
  each = put-IsObject p.activations bs new p.objects h agree v.each;
  closed = λ oid e. elim (Bool-cases (oid == new.object_id)) [
    | inl f ↦
        rw ((==_iff oid new.object_id).0 f)
          (there (rw ((==_iff oid new.object_id).0 f) at (lookup-put oid new p.objects e)))
    | inr f ↦ (agree oid (ground arith)).0 ∙ v.closed oid (lookup-put oid new p.objects e)
  ];
}

remove-IsValid :
    (p : Poa) (bs : List (ℕ × ℕ)) (log : List Call) (x : ℕ)
    → IsValid p
    → ((other : ℕ) → other ≢ x → Agree other p.activations bs)
    → count x bs ≡ 0
    → IsValid (record p { objects = remove x p.objects; activations = bs; calls = log })
remove-IsValid p bs log x v agree gone = record {
  each = remove-IsObject p.activations bs x p.objects agree v.each;
  closed = λ oid e. elim (Bool-cases (oid == x)) [
    | inl f ↦ rw ((==_iff oid x).0 f) gone
    | inr f ↦
        let d : oid ≢ x = ground arith in
        (agree oid d).0 ∙ v.closed oid (lookup-remove oid x p.objects d e)
  ];
}

-- The end of an activation, of an object that is not in use.
pub end_activation-IsValid :
    (o : PoaObject) (s : ℕ) (p : Poa)
    → IsValid p
    → o.use_cnt ≡ 0
    → is_linked s o.object_id p.activations ≡ true
    → count o.object_id p.activations ≡ 1
    → Keeps (end_activation o s (unlink s o.object_id p.activations) p)
unfolding end_activation release release_cb
end_activation-IsValid o s p v u l c =
    let (bs, e, gone, agree) = unlink_lem s o.object_id p.activations l c in
    rw e (elim (Bool-cases (ltb 1 o.refs)) [
      | inl f ↦ rw f (put-IsValid p bs _ _ v (u, refl, gone) agree (λ _. gone))
      | inr f ↦ rw f (by_flag p.life_deactivating bs _ gone agree)
    ])
  where
    by_flag :
        (d : Bool) (bs : List (ℕ × ℕ)) (log : List Call)
        → count o.object_id bs ≡ 0
        → ((other : ℕ) → other ≢ o.object_id → Agree other p.activations bs)
        → IsValid (
            release_cb d
              (record o {
                servant = none;
                deactivate_do = false;
                is_cleanup = false;
                do_etherealize = false;
              })
              (record p { activations = bs; calls = log }))
    by_flag true bs log gone agree = put-IsValid p bs log _ v (u, refl, gone) agree (λ _. gone)
    by_flag false bs log gone agree = remove-IsValid p bs log o.object_id v agree gone

Agree-refl : (oid : ℕ) (as_ : List (ℕ × ℕ)) → Agree oid as_ as_
Agree-refl oid as_ = (refl, λ s. refl)

-- Another version of an object of the map, whose activation is as it was.
pub rewrite-IsValid :
    (p : Poa) (new : PoaObject)
    → IsValid p
    → IsObject p.activations new
    → (lookup new.object_id p.objects ≡ none → count new.object_id p.activations ≡ 0)
    → IsValid (record p { objects = put new p.objects })
rewrite-IsValid p new v h there =
    put-IsValid p p.activations p.calls new v h (λ other d. Agree-refl other p.activations) there

deactivate_servant-Keeps :
    (m : Option ℕ) (o : PoaObject) (p : Poa)
    → IsValid p
    → o.servant ≡ m
    → IsActivation p.activations o m
    → Keeps (deactivate_servant m o p)
unfolding deactivate_servant
deactivate_servant-Keeps none o p v e h = v
deactivate_servant-Keeps (some s) o p v e (l, c, d, r, b) = elim (Bool-cases (ltb 0 o.use_cnt)) [
  | inl f ↦ rw f (
      rewrite-IsValid p _ v (rw e (l, c, (λ _. (ground arith, refl)), r, b)) (v.closed o.object_id))
  | inr f ↦ rw f (end_activation-IsValid o s p v (ground arith) l c)
]

-- Deactivation of an object of a well-formed adapter keeps it well-formed.
pub deactivate_object_T-Keeps :
    (o : PoaObject) (do_etherealize is_cleanup : Bool) (p : Poa)
    → IsValid p
    → IsObject p.activations o
    → Keeps (deactivate_object_T o do_etherealize is_cleanup p)
unfolding deactivate_object_T wish
deactivate_object_T-Keeps o x y p v h =
    deactivate_servant-Keeps o.servant (wish x y o) p v refl (by_servant o.servant h)
  where
    by_servant :
        (m : Option ℕ) → IsActivation p.activations o m → IsActivation p.activations (wish x y o) m
    by_servant none h = h
    by_servant (some s) h = h

-- A servant's list takes an object that stands in none.
pub link-IsActivation :
    (as_ : List (ℕ × ℕ)) (o : PoaObject) (s : ℕ)
    → o.use_cnt ≡ 0
    → o.deactivate_do ≡ false
    → count o.object_id as_ ≡ 0
    → IsActivation
        ((s, o.object_id) ∷ as_)
        (record o { servant = some s; refs = suc o.refs })
        (some s)
link-IsActivation as_ o s u d c =
    let this_object : (o.object_id == o.object_id) ≡ true =
      (==_iff o.object_id o.object_id).1 refl in
    let this_servant : (s == s) ≡ true = (==_iff s s).1 refl in
    rw (this_object, this_servant)
      (refl, ap suc c, λ e. absurd (true≢false (sym e ∙ d)), omega arith, omega (arith, u))

pub Agree-skip :
    (s oid other : ℕ) (as_ : List (ℕ × ℕ)) → other ≢ oid → Agree other as_ ((s, oid) ∷ as_)
Agree-skip s oid other as_ d =
    let e : (oid == other) ≡ false = ground arith in rw e (refl, λ t. refl)

-- Activation of an object that is not active, in an adapter that is not being deactivated.
pub activate_object_T-Keeps :
    (o : PoaObject) (s : ℕ) (p : Poa)
    → IsValid p
    → o.servant ≡ none
    → IsActivation p.activations o none
    → p.life_deactivate_do ≡ false
    → lookup o.object_id p.objects ≢ none
    → Keeps (activate_object_T o s p)
unfolding activate_object_T
activate_object_T-Keeps o s p v e (u, d, c) life there =
    let idle : ltb 0 o.use_cnt ≡ false = ground arith in
    let free : (is_active o.servant || (p.life_deactivate_do || ltb 0 o.use_cnt)) ≡ false =
      rw (e, life, idle) refl in
    rw free (
      put-IsValid p ((s, o.object_id) ∷ p.activations) p.calls _ v
        (link-IsActivation p.activations o s u d c)
        (λ other q. Agree-skip s o.object_id other p.activations q) (λ q. absurd (there q)))

-- What is written is found.
pub lookup-put_self :
    (oid : ℕ) (o new : PoaObject) (os : List PoaObject)
    → lookup oid os ≡ some o
    → new.object_id ≡ oid
    → lookup oid (put new os) ≡ some new
unfolding lookup put
lookup-put_self oid o new [] e f = absurd (none-ne-some o e)
lookup-put_self oid o new (x ∷ os) e f = elim (Bool-cases (x.object_id == oid)) [
  | inl g ↦
      let h : (x.object_id == new.object_id) ≡ true = ground arith in
      let k : (new.object_id == oid) ≡ true = (==_iff _ _).1 f in rw (h, k) refl
  | inr g ↦
      let h : (x.object_id == new.object_id) ≡ false = ground arith in
      rw (h, g) (lookup-put_self oid o new os (rw g at e) f)
]
