-- ===== src/Examples/Objects.antt =====
-- Objects of an adapter at concrete inputs: object 7 with servant 70 serves two requests.
use mathlib.Core.Bool.{true≢false}
use mathlib.Core.Option.{none-ne-some}
use mate_corba.Prelude.{
  ap, Bool, sym, ◌==◌, Bool-cases, inl, inr, ℕ, ◌≡◌, refl, arith, List, [], ◌∷◌, true, false, none,
  some,
}
use mate_corba.Poa.Objects.{
  PoaObject, Poa, Processing, use_active_object_map_only, use_servant_manager, etherealize,
  finalize, when_done, lookup, put, unlink, new_object, deactivate_object, activate_object_with_id,
  activate_found, activate_object_T, done, has_activation,
}
use mate_corba.Poa.Objects.Steps.{IsValid}
use mate_corba.Poa.Requests.{
  any_in_use, deactivate_map, begin_request, find_servant, start_use, start_active,
}
use mate_corba.Poa.Requests.Reachable.{Steps, activates, begins, still, next, Steps-IsValid}
use mate_corba.Poa.Requests.Shutdown.{deactivate_map-any_in_use}
use mate_corba.Poa.Requests.Pending.{Leaves, end_requests, deactivate_object-end_requests}

abbrev serving : PoaObject
serving = record (new_object 7) { servant = some 70; use_cnt = 2; refs = 2 }

abbrev adapter : Poa
adapter = record {
  unique_id = true;
  processing = use_active_object_map_only;
  default_servant = none;
  life_deactivate_do = false;
  life_deactivating = false;
  objects = serving ∷ [];
  activations = (70, 7) ∷ [];
  calls = [];
  finalizes = λ s. true;
}

adapter-IsValid : IsValid adapter
unfolding lookup
adapter-IsValid = record {
  each = ((refl, refl, (λ e. absurd (true≢false (sym e))), omega arith, omega arith), tt);
  closed = λ oid e. elim (Bool-cases (7 == oid)) [
    | inl f ↦ absurd (none-ne-some serving (sym (rw f at e)))
    | inr f ↦ rw f refl
  ];
}

-- The same with a servant manager.
abbrev managed : Poa
managed = record adapter { processing = use_servant_manager }

managed-IsValid : IsValid managed
managed-IsValid = record { each = adapter-IsValid.each; closed = adapter-IsValid.closed }

deactivate_object-end_requests_example :
    (bs : List (ℕ × ℕ)) × (unlink 70 7 managed.activations ≡ some bs)
    × Leaves bs
        (finalize 70 ∷ etherealize 7 70 false ∷ [])
        (when_done (deactivate_object 7 managed) (λ q. end_requests 2 7 q))
deactivate_object-end_requests_example =
    deactivate_object-end_requests 1 7 70 serving managed managed-IsValid (unfold lookup in refl)
      refl refl refl

-- A second object with a servant of its own, and a request on it.
abbrev second : Poa
second = record adapter {
  objects = record (new_object 8) { servant = some 80; refs = 1 } ∷ serving ∷ [];
  activations = (80, 8) ∷ (70, 7) ∷ [];
}

abbrev second_serving : Poa
second_serving = record second {
  objects = record (new_object 8) { servant = some 80; refs = 1; use_cnt = 1 } ∷ serving ∷ [];
}

second-activated : activate_object_with_id 8 80 adapter ≡ done second
unfolding activate_object_with_id activate_found activate_object_T has_activation lookup put
second-activated = refl

second-begun :
    begin_request (λ n. none) (record (new_object 8) { servant = some 80; refs = 1 }) second
    ≡ done second_serving
unfolding begin_request find_servant when_done start_use start_active lookup put
second-begun = refl

abbrev is_map_only : Processing → Bool
is_map_only use_active_object_map_only = true
is_map_only _ = false

second-found :
    lookup 8 second.objects ≡ some (record (new_object 8) { servant = some 80; refs = 1 })
unfolding lookup
second-found = refl

two-Steps : Steps (λ n. none) adapter second_serving
two-Steps = next (activates 8 80 refl second-activated) (
    next
      (begins 8 (record (new_object 8) { servant = some 80; refs = 1 }) second-found (omega arith)
        (λ q. absurd (true≢false (ap (λ c. is_map_only c) q))) second-begun)
      still)

Steps-IsValid_example : IsValid second_serving
Steps-IsValid_example = Steps-IsValid (λ n. none) adapter second_serving two-Steps adapter-IsValid

-- The same adapter when its object is not in use.
abbrev resting : Poa
resting = record adapter { objects = record serving { use_cnt = 0 } ∷ [] }

resting-IsValid : IsValid resting
unfolding lookup
resting-IsValid = record {
  each = ((refl, refl, (λ e. absurd (true≢false (sym e))), omega arith, omega arith), tt);
  closed = λ oid e. elim (Bool-cases (7 == oid)) [
    | inl f ↦ absurd (none-ne-some (record serving { use_cnt = 0 }) (sym (rw f at e)))
    | inr f ↦ rw f refl
  ];
}

deactivate_map-any_in_use_example :
    (q : Poa) × (deactivate_map true resting ≡ (done q, true)) × (q.activations ≡ [])
deactivate_map-any_in_use_example =
    deactivate_map-any_in_use true resting resting-IsValid (tt, tt) (unfold any_in_use in refl)
