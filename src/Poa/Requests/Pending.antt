-- ===== src/Poa/Requests/Pending.antt =====
-- A deactivation that comes while requests are served is done when the last of them ends.
use mathlib.Core.Path.{subst}
use mate_corba.Prelude.{
  ℕ, zero, suc, ◌+◌, ◌%◌, ◌<◌, ◌≡◌, refl, sym, ap, ◌∙◌, arith, List, [], ◌∷◌, ◌++◌, Bool,
  Bool-cases, true, false, inl, inr, not, ◌||◌, ltb, if◌then◌else◌, none, some,
}
use mate_corba.Poa.Objects.{
  farewell, PoaObject, Poa, Processing, use_active_object_map_only, use_default_servant,
  use_servant_manager, etherealize, finalize, Call, Result, done, raised, aborted, when_done,
  lookup, put, unlink, is_active, release, release_cb, wish, end_activation, deactivate_servant,
  deactivate_object_T, do_pending, post_invoke, deactivate_found, deactivate_object,
}
use mate_corba.Poa.Objects.Invariant.{lookup-IsObject, IsActivation, unlink_lem}
use mate_corba.Poa.Objects.Steps.{IsValid, lookup-put_self}
use mate_corba.Poa.Requests.{after_use, end_use, end_found, end_request}

-- `n` requests on an object end.
unfoldable pub end_requests : ℕ → ℕ → Poa → Result
end_requests zero oid p = done p
end_requests (suc n) oid p = when_done (end_request oid p) (λ q. end_requests n oid q)

-- What is left: the servants' lists and the log of calls.
abbrev pub Leaves : List (ℕ × ℕ) → List Call → Result → Type 0
Leaves as_ log (done p) = (p.activations ≡ as_) × (p.calls ≡ log)
Leaves as_ log (raised x p) = ⊥
Leaves as_ log aborted = ⊥

release-Leaves : (o : PoaObject) (p : Poa) → Leaves p.activations p.calls (done (release o p))
unfolding release release_cb
release-Leaves o p = elim (Bool-cases (ltb 1 o.refs)) [
  | inl f ↦ rw f (refl, refl)
  | inr f ↦ rw f (by_flag p.life_deactivating)
]
  where
    by_flag : (d : Bool) → Leaves p.activations p.calls (done (release_cb d o p))
    by_flag true = (refl, refl)
    by_flag false = (refl, refl)

-- An object whose deactivation is pending, with the wish to etherealize it.
pub record IsPending (o : PoaObject) (s : ℕ) : Type 0 where
  pub active : o.servant ≡ some s
  pub asked : o.deactivate_do ≡ true
  pub noted : o.need_post_invoke ≡ true
  pub wished : o.do_etherealize ≡ true

or_false : (b : Bool) → (b || false) ≡ b
or_false true = refl
or_false false = refl

end_last-Leaves :
    (o : PoaObject) (s : ℕ) (p : Poa) (bs : List (ℕ × ℕ))
    → IsPending o s
    → o.use_cnt ≡ 1
    → unlink s o.object_id p.activations ≡ some bs
    → Leaves bs (farewell p o.object_id s o.is_cleanup ++ p.calls) (end_use o p)
unfolding end_use after_use post_invoke do_pending deactivate_object_T deactivate_servant
    end_activation wish
end_last-Leaves o s p bs h u e =
    let idle : ltb 0 ((o.use_cnt + 65535) % 65536) ≡ false = ground arith in
    let used : PoaObject = record o { use_cnt = (o.use_cnt + 65535) % 65536 } in
    let q : Poa = record p { objects = put used p.objects } in
    let w : PoaObject = wish false false used in
    let steps : end_use o p ≡ end_activation w s (some bs) q =
      ap (λ x. after_use x used q) h.noted
      ∙ ap (λ x. if x then done q else do_pending o.deactivate_do used q) idle
      ∙ ap (λ x. do_pending x used q) h.asked
      ∙ ap (λ m. deactivate_servant m w q) h.active
      ∙ ap
          (λ x.
            if x
            then done (record q {
              objects = put (record w { deactivate_do = true; need_post_invoke = true }) q.objects;
            })
            else end_activation w s (unlink s o.object_id p.activations) q)
          idle
      ∙ ap (λ m. end_activation w s m q) e in
    let log : (if w.do_etherealize
          then farewell p o.object_id s w.is_cleanup ++ p.calls
          else p.calls)
        ≡ farewell p o.object_id s o.is_cleanup ++ p.calls =
      ap (λ x. if x then farewell p o.object_id s w.is_cleanup ++ p.calls else p.calls)
        (or_false o.do_etherealize ∙ h.wished)
      ∙ ap (λ c. farewell p o.object_id s c ++ p.calls) (or_false o.is_cleanup) in
    let (as_, logged) =
      release-Leaves
        (record w {
          servant = none;
          deactivate_do = false;
          is_cleanup = false;
          do_etherealize = false;
        })
        (record q {
          activations = bs;
          calls =
              if w.do_etherealize
              then farewell p o.object_id s w.is_cleanup ++ p.calls
              else p.calls;
        }) in
    subst (λ r. Leaves bs (farewell p o.object_id s o.is_cleanup ++ p.calls) r) (sym steps)
      (as_, logged ∙ log)

end_more :
    (o : PoaObject) (s : ℕ) (p : Poa) (n : ℕ)
    → IsPending o s
    → o.use_cnt ≡ suc (suc n)
    → o.use_cnt < 65536
    → end_use o p
      ≡ done (record p {
        objects = put (record o { use_cnt = (o.use_cnt + 65535) % 65536 }) p.objects;
      })
unfolding end_use after_use post_invoke
end_more o s p n h u room =
    let busy : ltb 0 ((o.use_cnt + 65535) % 65536) ≡ true = ground arith in
    let used : PoaObject = record o { use_cnt = (o.use_cnt + 65535) % 65536 } in
    let q : Poa = record p { objects = put used p.objects } in
    ap (λ x. after_use x used q) h.noted
    ∙ ap (λ x. if x then done q else do_pending o.deactivate_do used q) busy

end_requests-Leaves :
    (n : ℕ) (oid s : ℕ) (o : PoaObject) (p : Poa) (bs : List (ℕ × ℕ))
    → IsPending o s
    → lookup oid p.objects ≡ some o
    → o.object_id ≡ oid
    → o.use_cnt ≡ suc n
    → o.use_cnt < 65536
    → unlink s oid p.activations ≡ some bs
    → Leaves bs (farewell p o.object_id s o.is_cleanup ++ p.calls) (end_requests (suc n) oid p)
unfolding end_requests end_request end_found when_done
end_requests-Leaves zero oid s o p bs h e same u room l =
    let used = end_last-Leaves o s p bs h u (rw same l) in
    subst
      (λ m.
        Leaves bs (farewell p o.object_id s o.is_cleanup ++ p.calls)
          (when_done (end_found m p) (λ q. done q)))
      (sym e) (again (end_use o p) used)
  where
    again :
        (r : Result)
        → Leaves bs (farewell p o.object_id s o.is_cleanup ++ p.calls) r
        → Leaves bs (farewell p o.object_id s o.is_cleanup ++ p.calls) (when_done r (λ q. done q))
    again (done q) k = k
    again (raised x q) k = k
    again aborted k = k
end_requests-Leaves (suc n) oid s o p bs h e same u room l =
    let used : PoaObject = record o { use_cnt = (o.use_cnt + 65535) % 65536 } in
    let q : Poa = record p { objects = put used p.objects } in
    let first : end_request oid p ≡ done q =
      ap (λ m. end_found m p) e ∙ end_more o s p n h u room in
    subst
      (λ r.
        Leaves bs (farewell p o.object_id s o.is_cleanup ++ p.calls)
          (when_done r (λ t. end_requests (suc n) oid t)))
      (sym first)
      (end_requests-Leaves n oid s used q bs
        (record { active = h.active; asked = h.asked; noted = h.noted; wished = h.wished })
        (lookup-put_self oid o used p.objects e same) same (omega (arith, u, room)) (omega arith) l)

or_true : (b : Bool) → (b || true) ≡ true
or_true true = refl
or_true false = refl

-- Whom an adapter tells of the end of an activation, the last first.
abbrev pub told : Processing → Bool → ℕ → ℕ → Bool → List Call
told use_servant_manager true object_id s cleanup =
    finalize s ∷ etherealize object_id s cleanup ∷ []
told use_servant_manager false object_id s cleanup = etherealize object_id s cleanup ∷ []
told use_default_servant true object_id s cleanup = finalize s ∷ []
told use_default_servant false object_id s cleanup = []
told use_active_object_map_only true object_id s cleanup = finalize s ∷ []
told use_active_object_map_only false object_id s cleanup = []

farewell-told :
    (p : Poa) (object_id s : ℕ) (cleanup : Bool) (k : Processing) (z : Bool)
    → p.processing ≡ k
    → p.finalizes s ≡ z
    → farewell p object_id s cleanup ≡ told k z object_id s cleanup
farewell-told p object_id s cleanup use_servant_manager true e f = rw (e, f) refl
farewell-told p object_id s cleanup use_servant_manager false e f = rw (e, f) refl
farewell-told p object_id s cleanup use_default_servant true e f = rw (e, f) refl
farewell-told p object_id s cleanup use_default_servant false e f = rw (e, f) refl
farewell-told p object_id s cleanup use_active_object_map_only true e f = rw (e, f) refl
farewell-told p object_id s cleanup use_active_object_map_only false e f = rw (e, f) refl

-- An object of a well-formed adapter with a servant that serves n + 1 requests, and whose
-- deactivation is not pending, is deactivated by its id, and the requests end: then nothing
-- fails, the object is out of its servant's list, and the servant is told once: a servant
-- manager, if the adapter has one, to etherealize it with the object's id and the cleanup flag
-- that it had, and then the servant, if it has it, to finalize; nothing else was called.
pub deactivate_object-end_requests :
    (n : ℕ) (oid s : ℕ) (o : PoaObject) (p : Poa)
    → IsValid p
    → lookup oid p.objects ≡ some o
    → o.servant ≡ some s
    → o.use_cnt ≡ suc n
    → o.deactivate_do ≡ false
    → (bs : List (ℕ × ℕ)) × (unlink s oid p.activations ≡ some bs)
      × Leaves bs
          (told p.processing (p.finalizes s) o.object_id s o.is_cleanup ++ p.calls)
          (when_done (deactivate_object oid p) (λ q. end_requests (suc n) oid q))
unfolding deactivate_object deactivate_found deactivate_object_T deactivate_servant wish when_done
deactivate_object-end_requests n oid s o p v e active u d =
    let (h, same) = lookup-IsObject p.activations oid p.objects o v.each e in
    let (linked, counted, _, _, room) = subst (λ m. IsActivation p.activations o m) active h in
    let (bs, l, _, _) = unlink_lem s o.object_id p.activations linked counted in
    let l' : unlink s oid p.activations ≡ some bs =
      subst (λ x. unlink s x p.activations ≡ some bs) same l in
    let busy : ltb 0 o.use_cnt ≡ true = ground arith in
    let w : PoaObject = wish true false o in
    let marked : PoaObject = record w { deactivate_do = true; need_post_invoke = true } in
    let q : Poa = record p { objects = put marked p.objects } in
    let steps : deactivate_object oid p ≡ done q =
      ap (λ m. deactivate_found m p) e
      ∙ ap (λ x. if x then deactivate_servant o.servant w p else done p)
          (ap (λ m. is_active m) active)
      ∙ ap (λ m. deactivate_servant m w p) active
      ∙ ap (λ x. if x then done q else end_activation w s (unlink s o.object_id p.activations) p)
          busy in
    let wished : w.do_etherealize ≡ true =
      ap (λ x. o.do_etherealize || not x) d ∙ or_true o.do_etherealize in
    let cleanup : farewell p o.object_id s marked.is_cleanup
        ≡ told p.processing (p.finalizes s) o.object_id s o.is_cleanup =
      ap (λ c. farewell p o.object_id s c) (or_false o.is_cleanup)
      ∙ farewell-told p o.object_id s o.is_cleanup p.processing (p.finalizes s) refl refl in
    let ended =
      end_requests-Leaves n oid s marked q bs
        (record { active = active; asked = refl; noted = refl; wished = wished })
        (lookup-put_self oid o marked p.objects e same) same u room l' in
    (
      bs,
      l',
      subst
          (λ r.
            Leaves bs (told p.processing (p.finalizes s) o.object_id s o.is_cleanup ++ p.calls)
              (when_done r (λ t. end_requests (suc n) oid t)))
          (sym steps)
          (subst (λ x. Leaves bs (x ++ p.calls) (end_requests (suc n) oid q)) cleanup ended),
    )
