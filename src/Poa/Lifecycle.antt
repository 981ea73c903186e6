-- ===== src/Poa/Lifecycle.antt =====
-- The life of a manager: what any sequence of calls can do to it.
use mate_corba.Prelude.{
  ℕ, ◌≡◌, if_true, refl, sym, ap, ◌∙◌, Bool, ◌&&◌, List, [], Option, none, some, Bool-cases, inl,
  inr,
}
use mathlib.Core.Path.{subst}
use mathlib.Core.Option.{some-injective, none-ne-some}
use mate_corba.Poa.Collection.{IsUnique, register_poa-IsUnique, slist_remove-IsUnique}
use mate_corba.Poa.Manager.{
  inactive, Exception, adapter_inactive, Manager, Adapters, is_registered, register_poa,
  unregister_poa, is_inactive, activate, hold_requests, discard_requests, deactivate, any_idle,
}

register_poa-state : (poa : ℕ) (m m' : Manager) → register_poa poa m ≡ some m' → m.state ≡ m'.state
unfolding register_poa
register_poa-state poa m m' r = elim (Bool-cases (is_registered poa m.poa_collection)) [
  | inl e ↦ absurd (none-ne-some m' (rw e at r))
  | inr e ↦ ap (λ (x : Manager). x.state) (some-injective _ m' (rw e at r))
]

abbrev collection_of : Option Manager → List ℕ
collection_of none = []
collection_of (some m) = m.poa_collection

module _ {W : Type 0} (adapters : Adapters W) where
  -- A call, from a manager and the adapters; nothing when the assertion of register fails.
  pub data Step : Manager × W → Manager × W → Type 0 where
    did_activate :
        (m m' : Manager) (w w' : W) (ev ev' : Option Exception)
        → activate adapters (some m) w ev ≡ (some m', w', ev')
        → Step (m, w) (m', w')
    did_hold :
        (m m' : Manager) (w w' : W) (ev ev' : Option Exception) (wait : Bool)
        → hold_requests adapters wait (some m) w ev ≡ (some m', w', ev')
        → Step (m, w) (m', w')
    did_discard :
        (m m' : Manager) (w w' : W) (ev ev' : Option Exception) (wait : Bool)
        → discard_requests adapters wait (some m) w ev ≡ (some m', w', ev')
        → Step (m, w) (m', w')
    did_deactivate :
        (m m' : Manager) (w w' : W) (ev ev' : Option Exception) (ether wait : Bool)
        → deactivate adapters ether wait (some m) w ev ≡ (some m', w', ev')
        → Step (m, w) (m', w')
    did_register :
        (m m' : Manager) (w : W) (poa : ℕ) → register_poa poa m ≡ some m' → Step (m, w) (m', w)
    did_unregister : (m : Manager) (w : W) (poa : ℕ) → Step (m, w) (unregister_poa poa m, w)

  -- Any number of calls.
  pub data Steps : Manager × W → Manager × W → Type 0 where
    done : (s : Manager × W) → Steps s s
    after : (s t u : Manager × W) → Step s t → Steps t u → Steps s u

  activate-inactive :
      (m : Manager) (w : W) (ev : Option Exception)
      → m.state ≡ inactive
      → activate adapters (some m) w ev ≡ (some m, w, some adapter_inactive)
  unfolding activate
  activate-inactive m w ev e = if_true _ _ _ (ap is_inactive e)

  hold_requests-inactive :
      (wait : Bool) (m : Manager) (w : W) (ev : Option Exception)
      → m.state ≡ inactive
      → hold_requests adapters wait (some m) w ev ≡ (some m, w, some adapter_inactive)
  unfolding hold_requests
  hold_requests-inactive wait m w ev e = if_true _ _ _ (ap is_inactive e)

  discard_requests-inactive :
      (wait : Bool) (m : Manager) (w : W) (ev : Option Exception)
      → m.state ≡ inactive
      → discard_requests adapters wait (some m) w ev ≡ (some m, w, some adapter_inactive)
  unfolding discard_requests
  discard_requests-inactive wait m w ev e = if_true _ _ _ (ap is_inactive e)

  deactivate-inactive :
      (ether wait : Bool) (m : Manager) (w : W) (ev : Option Exception)
      → m.state ≡ inactive
      → deactivate adapters ether wait (some m) w ev ≡ (some m, w, some adapter_inactive)
  unfolding deactivate
  deactivate-inactive ether wait m w ev e = if_true _ _ _ (ap is_inactive e)

  -- A call that leaves everything, by its equation.
  left_alone :
      (m m' : Manager) (w w' : W) (ev ev' : Option Exception)
      {r : Option Manager × W × Option Exception}
      → r ≡ (some m, w, ev)
      → r ≡ (some m', w', ev')
      → m.state ≡ inactive
      → (m'.state ≡ inactive) × (w' ≡ w)
  left_alone m m' w w' ev ev' a b e =
      let same =
        some-injective m m' (ap (λ (x : Option Manager × W × Option Exception). x.0) (sym a ∙ b)) in
      (
        sym (ap (λ (x : Manager). x.state) same) ∙ e,
        sym (ap (λ (x : Option Manager × W × Option Exception). x.1) (sym a ∙ b)),
      )

  left_inactive :
      (s t : Manager × W) → Step s t → s.0.state ≡ inactive → (t.0.state ≡ inactive) × (t.1 ≡ s.1)
  unfolding register_poa unregister_poa
  left_inactive _ _ (did_activate m m' w w' ev ev' r) e =
      left_alone m m' w w' (some adapter_inactive) ev' (activate-inactive m w ev e) r e
  left_inactive _ _ (did_hold m m' w w' ev ev' wait r) e =
      left_alone m m' w w' (some adapter_inactive) ev' (hold_requests-inactive wait m w ev e) r e
  left_inactive _ _ (did_discard m m' w w' ev ev' wait r) e =
      left_alone m m' w w' (some adapter_inactive) ev' (discard_requests-inactive wait m w ev e) r e
  left_inactive _ _ (did_deactivate m m' w w' ev ev' ether wait r) e =
      left_alone m m' w w' (some adapter_inactive) ev' (deactivate-inactive ether wait m w ev e) r e
  left_inactive _ _ (did_register m m' w poa r) e = (sym (register_poa-state poa m m' r) ∙ e, refl)
  left_inactive _ _ (did_unregister m w poa) e = (e, refl)

  -- INACTIVE is final: after any number of calls on a manager that is INACTIVE, registrations
  -- and their ends among them, it is INACTIVE still, and the world of its adapters is as it
  -- was.
  pub Steps-inactive :
      (s t : Manager × W) → Steps s t → s.0.state ≡ inactive → (t.0.state ≡ inactive) × (t.1 ≡ s.1)
  Steps-inactive _ _ (done s) e = (e, refl)
  Steps-inactive _ _ (after s t u r rs) e =
      let (f, g) = left_inactive s t r e in let (h, k) = Steps-inactive t u rs f in (h, k ∙ g)

  -- The collection is what registration makes it; the four operations keep it.
  activate-collection :
      (m : Manager) (w : W) (ev : Option Exception)
      → collection_of (activate adapters (some m) w ev).0 ≡ m.poa_collection
  unfolding activate
  activate-collection m w ev = elim (Bool-cases (is_inactive m.state)) [
    | inl e ↦ rw e refl
    | inr e ↦ rw e refl
  ]

  hold_requests-collection :
      (wait : Bool) (m : Manager) (w : W) (ev : Option Exception)
      → collection_of (hold_requests adapters wait (some m) w ev).0 ≡ m.poa_collection
  unfolding hold_requests
  hold_requests-collection wait m w ev = elim (Bool-cases (is_inactive m.state)) [
    | inl e ↦ rw e refl
    | inr e ↦ rw e refl
  ]

  discard_requests-collection :
      (wait : Bool) (m : Manager) (w : W) (ev : Option Exception)
      → collection_of (discard_requests adapters wait (some m) w ev).0 ≡ m.poa_collection
  unfolding discard_requests
  discard_requests-collection wait m w ev = elim (Bool-cases (is_inactive m.state)) [
    | inl e ↦ rw e refl
    | inr e ↦ rw e refl
  ]

  deactivate-collection :
      (ether wait : Bool) (m : Manager) (w : W) (ev : Option Exception)
      → collection_of (deactivate adapters ether wait (some m) w ev).0 ≡ m.poa_collection
  unfolding deactivate
  deactivate-collection ether wait m w ev = elim (Bool-cases (is_inactive m.state)) [
    | inl e ↦ rw e refl
    | inr e ↦ elim (Bool-cases (wait && any_idle adapters m.poa_collection w)) [
      | inl f ↦ rw (e, f) refl
      | inr f ↦ rw (e, f) refl
    ]
  ]

  kept :
      (m m' : Manager) (w' : W) (ev' : Option Exception) (r : Option Manager × W × Option Exception)
      → collection_of r.0 ≡ m.poa_collection
      → r ≡ (some m', w', ev')
      → IsUnique m.poa_collection
      → IsUnique m'.poa_collection
  kept m m' w' ev' r k e u =
      subst IsUnique
        (sym k ∙ ap (λ (x : Option Manager × W × Option Exception). collection_of x.0) e) u

  keeps_IsUnique :
      (s t : Manager × W) → Step s t → IsUnique s.0.poa_collection → IsUnique t.0.poa_collection
  unfolding register_poa unregister_poa
  keeps_IsUnique _ _ (did_activate m m' w w' ev ev' r) u =
      kept m m' w' ev' _ (activate-collection m w ev) r u
  keeps_IsUnique _ _ (did_hold m m' w w' ev ev' wait r) u =
      kept m m' w' ev' _ (hold_requests-collection wait m w ev) r u
  keeps_IsUnique _ _ (did_discard m m' w w' ev ev' wait r) u =
      kept m m' w' ev' _ (discard_requests-collection wait m w ev) r u
  keeps_IsUnique _ _ (did_deactivate m m' w w' ev ev' ether wait r) u =
      kept m m' w' ev' _ (deactivate-collection ether wait m w ev) r u
  keeps_IsUnique _ _ (did_register m m' w poa r) u = register_poa-IsUnique poa m m' r u
  keeps_IsUnique _ _ (did_unregister m w poa) u = slist_remove-IsUnique poa m.poa_collection u

  -- After any number of calls on a manager in whose collection no POA is twice, no POA is in it
  -- twice.
  pub Steps-IsUnique :
      (s t : Manager × W) → Steps s t → IsUnique s.0.poa_collection → IsUnique t.0.poa_collection
  Steps-IsUnique _ _ (done s) u = u
  Steps-IsUnique _ _ (after s t v r rs) u = Steps-IsUnique t v rs (keeps_IsUnique s t r u)
