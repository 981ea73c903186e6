-- ===== src/Poa/Requests/Ending.antt =====
-- The end of a request, which may finish a deactivation, keeps an adapter well-formed.
use mathlib.Core.Bool.{true≢false}
use mathlib.Core.Option.{none-ne-some, some-injective}
use mathlib.Core.Path.{subst}
use mate_corba.Prelude.{
  ℕ, ◌+◌, ◌++◌, ◌-◌, ◌%◌, ◌<◌, ◌≡◌, ◌≢◌, refl, sym, ap, ◌∙◌, arith, List, [], ◌∷◌, Bool, Bool-cases,
  true, false, inl, inr, ltb, ◌==◌, ==_iff, if◌then◌else◌, Option, none, some,
}
use mate_corba.Poa.Objects.{
  farewell, PoaObject, Poa, done, lookup, put, remove, unlink, release, release_cb, wish,
  end_activation, deactivate_servant, deactivate_object_T, post_invoke, do_pending,
}
use mate_corba.Poa.Objects.Invariant.{count, is_linked, IsActivation, IsObject, lookup-IsObject}
use mate_corba.Poa.Objects.Steps.{IsValid, Keeps, rewrite-IsValid, end_activation-IsValid}
use mate_corba.Poa.Requests.{after_use, end_found, end_use, end_request}
use mate_corba.Poa.Requests.Activating.{lookup-there}

put-put :
    (x new : PoaObject) (os : List PoaObject)
    → x.object_id ≡ new.object_id
    → put new (put x os) ≡ put new os
unfolding put
put-put x new [] e = refl
put-put x new (o ∷ os) e = elim (Bool-cases (o.object_id == x.object_id)) [
  | inl f ↦
      let g : (o.object_id == new.object_id) ≡ true = ground arith in
      let h : (x.object_id == new.object_id) ≡ true = (==_iff _ _).1 e in
      rw (f, g, h) (ap (λ r. new ∷ r) (put-put x new os e))
  | inr f ↦
      rw f (ap (λ r. (if o.object_id == new.object_id then new else o) ∷ r) (put-put x new os e))
]

remove-put :
    (x : PoaObject) (oid : ℕ) (os : List PoaObject)
    → x.object_id ≡ oid
    → remove oid (put x os) ≡ remove oid os
unfolding put remove
remove-put x oid [] e = refl
remove-put x oid (o ∷ os) e = elim (Bool-cases (o.object_id == x.object_id)) [
  | inl f ↦
      let g : (o.object_id == oid) ≡ true = ground arith in
      let h : (x.object_id == oid) ≡ true = (==_iff _ _).1 e in rw (f, g, h) (remove-put x oid os e)
  | inr f ↦
      let g : (o.object_id == oid) ≡ false = ground arith in
      rw (f, g) (ap (λ r. o ∷ r) (remove-put x oid os e))
]

-- The end of an activation writes the object, whatever version of it was there.
release-put :
    (x o : PoaObject) (p : Poa)
    → x.object_id ≡ o.object_id
    → release o (record p { objects = put x p.objects }) ≡ release o p
unfolding release release_cb
release-put x o p e = elim (Bool-cases (ltb 1 o.refs)) [
  | inl f ↦ rw f (
      ap (λ os. record p { objects = os }) (put-put x (record o { refs = o.refs - 1 }) p.objects e))
  | inr f ↦ rw f (by_flag p.life_deactivating)
]
  where
    by_flag :
        (d : Bool) → release_cb d o (record p { objects = put x p.objects }) ≡ release_cb d o p
    by_flag true =
        ap (λ os. record p { objects = os })
          (put-put x (record o { refs = 0; destroyed = true }) p.objects e)
    by_flag false = ap (λ os. record p { objects = os }) (remove-put x o.object_id p.objects e)

end_activation-put :
    (x o : PoaObject) (s : ℕ) (m : Option (List (ℕ × ℕ))) (p : Poa)
    → x.object_id ≡ o.object_id
    → end_activation o s m (record p { objects = put x p.objects }) ≡ end_activation o s m p
unfolding end_activation
end_activation-put x o s none p e = refl
end_activation-put x o s (some as_) p e =
    ap (λ q. done q)
      (release-put x
        (record o {
          servant = none;
          deactivate_do = false;
          is_cleanup = false;
          do_etherealize = false;
        })
        (record p {
          activations = as_;
          calls =
              if o.do_etherealize
              then farewell p o.object_id s o.is_cleanup ++ p.calls
              else p.calls;
        })
        e)

-- The last request on an object whose deactivation is pending.
end_last-Keeps :
    (o : PoaObject) (s : ℕ) (p : Poa)
    → IsValid p
    → o.servant ≡ some s
    → o.use_cnt ≡ 0
    → is_linked s o.object_id p.activations ≡ true
    → count o.object_id p.activations ≡ 1
    → Keeps (deactivate_object_T o false false (record p { objects = put o p.objects }))
unfolding deactivate_object_T deactivate_servant wish
end_last-Keeps o s p v e u l c = by_servant o.servant e
  where
    by_servant :
        (m : Option ℕ)
        → m ≡ some s
        → Keeps (deactivate_servant m (wish false false o) (record p { objects = put o p.objects }))
    by_servant none q = absurd (none-ne-some s q)
    by_servant (some t) q =
        let idle : ltb 0 o.use_cnt ≡ false = ground arith in
        let w = wish false false o in
        rw (idle, end_activation-put o w t (unlink t o.object_id p.activations) p refl)
          (end_activation-IsValid w t p v u (rw (some-injective t s q) l) c)

end_use-Keeps :
    (o : PoaObject) (p : Poa)
    → IsValid p
    → IsObject p.activations o
    → 0 < o.use_cnt
    → lookup o.object_id p.objects ≢ none
    → Keeps (end_use o p)
unfolding end_use after_use post_invoke do_pending
end_use-Keeps o p v h busy there = by_servant o.servant h refl
  where
    by_servant :
        (m : Option ℕ) → IsActivation p.activations o m → o.servant ≡ m → Keeps (end_use o p)
    by_servant none (u, _, _) e = absurd (omega (arith, u, busy))
    by_servant (some s) (l, c, d, r, b) e =
        let used : PoaObject = record o { use_cnt = (o.use_cnt + 65535) % 65536 } in
        let q : Poa = record p { objects = put used p.objects } in
        let plain : (o.deactivate_do ≡ true → (0 < used.use_cnt) × (o.need_post_invoke ≡ true))
            → IsValid q =
          λ k. rewrite-IsValid p used v (rw e (l, c, k, r, omega arith)) (λ x. absurd (there x)) in
        let pending : (x : Bool)
            → o.deactivate_do ≡ x
            → o.use_cnt ≡ 1
            → Keeps (do_pending x used q) =
          elim [
            | true ↦ λ i one. end_last-Keeps used s p v e (omega (arith, one)) l c
            | false ↦ λ i one. plain (λ x. absurd (true≢false (sym x ∙ i)))
          ] in
        let needed : (x : Bool) → o.need_post_invoke ≡ x → Keeps (after_use x used q) = elim [
          | false ↦ λ f. plain (λ x. absurd (true≢false (sym (d x).1 ∙ f)))
          | true ↦ λ f. elim (Bool-cases (ltb 0 used.use_cnt)) [
            | inl g ↦ rw g (plain (λ x. (ground arith, f)))
            | inr g ↦ rw g (pending o.deactivate_do refl (ground arith))
          ]
        ] in
        needed o.need_post_invoke refl

-- The end of a request on an object of a well-formed adapter that is in use fails no assertion,
-- also where it carries out a pending deactivation, and leaves the adapter well-formed.
pub end_request-Keeps :
    (oid : ℕ) (o : PoaObject) (p : Poa)
    → IsValid p
    → lookup oid p.objects ≡ some o
    → 0 < o.use_cnt
    → Keeps (end_request oid p)
unfolding end_request end_found
end_request-Keeps oid o p v e busy =
    let (h, same) = lookup-IsObject p.activations oid p.objects o v.each e in
    subst (λ m. Keeps (end_found m p)) (sym e)
      (end_use-Keeps o p v h busy (rw same (lookup-there oid p.objects o e)))
