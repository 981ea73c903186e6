-- ===== src/Examples/Adapters.antt =====
-- A manager with two adapters: deactivated, then called again.
use mate_corba.Prelude.{ℕ, suc, ◌≡◌, refl, true, false, [], ◌∷◌, none, some}
use mate_corba.Poa.Manager.{
  holding, inactive, adapter_inactive, Manager, Adapters, is_registered, register_poa, activate,
  deactivate, deactivate_all,
}
use mate_corba.Poa.Collection.{IsUnique}
use mate_corba.Poa.Lifecycle.{
  Step, did_activate, did_register, did_deactivate, done, after, Steps-inactive, Steps-IsUnique,
}

-- Adapters that count the calls of handle_held_requests and of deactivate.
abbrev counting : Adapters (ℕ × ℕ)
counting = record {
  is_inuse = λ poa w. false;
  handle_held_requests = λ poa w. (suc w.0, w.1);
  poa_deactivate = λ poa ether s. ((s.0.0, suc s.0.1), s.1);
}

abbrev two : Manager
two = record { state = holding; poa_collection = 3 ∷ 5 ∷ [] }

abbrev stopped : Manager
stopped = record two { state = inactive }

abbrev counted : ℕ × ℕ
counted = (0, 2)

activate_stopped : Step counting (stopped, (0, 2)) (stopped, (0, 2))
activate_stopped =
    did_activate stopped stopped (0, 2) (0, 2) none (some adapter_inactive)
      (unfold activate in refl)

Steps-inactive_example : (stopped.state ≡ inactive) × (counted ≡ counted)
Steps-inactive_example =
    Steps-inactive counting (stopped, (0, 2)) (stopped, (0, 2))
      (after _ _ _ activate_stopped (after _ _ _ activate_stopped (done _))) refl

abbrev one : Manager
one = record { state = holding; poa_collection = 3 ∷ [] }

register_five : Step counting (one, (0, 0)) (two, (0, 0))
register_five = did_register one two (0, 0) 5 (unfold register_poa is_registered in refl)

stop_two : Step counting (two, (0, 0)) (stopped, (0, 2))
stop_two =
    did_deactivate two stopped (0, 0) (0, 2) none none true false
      (unfold deactivate deactivate_all in refl)

Steps-IsUnique_example : IsUnique (3 ∷ 5 ∷ [])
Steps-IsUnique_example =
    Steps-IsUnique counting (one, (0, 0)) (stopped, (0, 2))
      (after _ _ _ register_five (after _ _ _ stop_two (done _)))
      (unfold IsUnique is_registered in (refl, tt))
