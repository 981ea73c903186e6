-- ===== src/Poa/Objects.antt =====
-- The objects of an adapter that retains its servants: their activation, the requests that use
-- them, and their deactivation, from poa.c. Every function here runs under the lock of the adapter.
pub mod Invariant
pub mod Steps
use mate_corba.Prelude.{
  ℕ, zero, suc, ◌+◌, ◌-◌, List, [], ◌∷◌, ◌++◌, Bool, true, false, not, ◌&&◌, ◌||◌, ltb, ◌==◌,
  if◌then◌else◌, Option, none, some,
}
use mate_corba.Poa.Manager.{State, holding, active, discarding, inactive}

-- struct MateCORBA_POAObject_type, with the bits of life_flags. Object ids and servants are
-- numbers.
pub record PoaObject : Type 0 where
  pub object_id : ℕ
  pub servant : Option ℕ
  pub use_cnt : ℕ
  pub refs : ℕ
  pub need_post_invoke : Bool
  pub do_etherealize : Bool
  pub is_cleanup : Bool
  pub deactivate_do : Bool
  pub destroyed : Bool

-- PortableServer_RequestProcessingPolicyValue
pub data Processing : Type 0 where
  use_active_object_map_only use_default_servant use_servant_manager : Processing

-- The calls that an object's deactivation makes: etherealize of the servant activator, with the
-- object's id, its servant and whether the adapter is being cleaned up, and finalize of the servant.
pub data Call : Type 0 where
  etherealize : ℕ → ℕ → Bool → Call
  finalize : ℕ → Call

-- struct PortableServer_POA_type, as far as the objects need it. `objects` is oid_to_obj_map, and
-- `activations` the lists that start at the _private of the servants, in one list of pairs of a
-- servant and an object's id, the newest first. `calls` logs the calls of deactivations, the newest first, and `finalizes`
-- tells which servants have a finalize function.
pub record Poa : Type 0 where
  pub unique_id : Bool
  pub processing : Processing
  pub default_servant : Option ℕ
  pub life_deactivate_do : Bool
  pub life_deactivating : Bool
  pub objects : List PoaObject
  pub activations : List (ℕ × ℕ)
  pub calls : List Call
  pub finalizes : ℕ → Bool

-- The exceptions of these functions.
pub data Exception : Type 0 where
  object_not_exist transient obj_adapter object_already_active servant_already_active : Exception

-- g_hash_table_lookup
unfoldable pub lookup : ℕ → List PoaObject → Option PoaObject
lookup oid [] = none
lookup oid (o ∷ os) = let rest = lookup oid os in if o.object_id == oid then some o else rest

-- The fields of an object written.
unfoldable pub put : PoaObject → List PoaObject → List PoaObject
put new [] = []
put new (o ∷ os) = (if o.object_id == new.object_id then new else o) ∷ put new os

-- g_hash_table_remove
unfoldable pub remove : ℕ → List PoaObject → List PoaObject
remove oid [] = []
remove oid (o ∷ os) = let rest = remove oid os in if o.object_id == oid then rest else o ∷ rest

-- Taking an object out of the list of its servant; none where the assertion that it is there fails.
unfoldable pub unlink : ℕ → ℕ → List (ℕ × ℕ) → Option (List (ℕ × ℕ))
unlink servant oid [] = none
unlink servant oid ((s, o) ∷ as_) =
    let rest = unlink servant oid as_ in
    if (s == servant) && (o == oid) then some as_ else kept (s, o) rest
  where
    kept : ℕ × ℕ → Option (List (ℕ × ℕ)) → Option (List (ℕ × ℕ))
    kept a none = none
    kept a (some r) = some (a ∷ r)

-- servant->_private != NULL
unfoldable pub has_activation : ℕ → List (ℕ × ℕ) → Bool
has_activation servant [] = false
has_activation servant ((s, o) ∷ as_) = (s == servant) || has_activation servant as_

-- MateCORBA_POAObject_is_active
abbrev pub is_active : Option ℕ → Bool
is_active none = false
is_active (some s) = true

-- What MateCORBA_POA_create_object_T fills in.
abbrev pub new_object : ℕ → PoaObject
new_object oid = record {
  object_id = oid;
  servant = none;
  use_cnt = 0;
  refs = 0;
  need_post_invoke = false;
  do_etherealize = false;
  is_cleanup = false;
  deactivate_do = false;
  destroyed = false;
}

-- How a function ends: with the adapter, with an exception, or with a failed assertion, which
-- stops the process.
pub data Result : Type 0 where
  done : Poa → Result
  raised : Exception → Poa → Result
  aborted : Result

unfoldable pub when_done : Result → (Poa → Result) → Result
when_done (done p) f = f p
when_done (raised x p) f = raised x p
when_done aborted f = aborted

-- MateCORBA_POAObject_release_cb: the object leaves the map, unless the adapter is traversing it.
unfoldable pub release_cb : Bool → PoaObject → Poa → Poa
release_cb true o p = record p { objects = put (record o { refs = 0; destroyed = true }) p.objects }
release_cb false o p = record p { objects = remove o.object_id p.objects }

-- MateCORBA_RootObject_release of an object, with the callback where no reference is left.
unfoldable pub release : PoaObject → Poa → Poa
release o p =
    if ltb 1 o.refs
    then record p { objects = put (record o { refs = o.refs - 1 }) p.objects }
    else release_cb p.life_deactivating o p

-- MateCORBA_POA_activate_object_T
unfoldable pub activate_object_T : PoaObject → ℕ → Poa → Result
activate_object_T o servant p =
    if is_active o.servant || (p.life_deactivate_do || ltb 0 o.use_cnt)
    then aborted
    else done (record p {
      objects = put (record o { servant = some servant; refs = suc o.refs }) p.objects;
      activations = (servant, o.object_id) ∷ p.activations;
    })

-- The flags that record what the caller of deactivate_object_T wishes.
unfoldable pub wish : Bool → Bool → PoaObject → PoaObject
wish do_etherealize is_cleanup o = record o {
  do_etherealize = o.do_etherealize || (do_etherealize && not o.deactivate_do);
  is_cleanup = o.is_cleanup || is_cleanup;
}

abbrev is_manager : Processing → Bool
is_manager use_servant_manager = true
is_manager _ = false

-- The calls for an object with that id and servant, the newest first: etherealize, where there is
-- a servant manager, and then finalize, where the servant has it.
abbrev pub farewell : Poa → ℕ → ℕ → Bool → List Call
farewell p object_id servant cleanup =
    (if p.finalizes servant then finalize servant ∷ [] else [])
    ++ (if is_manager p.processing then etherealize object_id servant cleanup ∷ [] else [])

-- What is done where the object is not in use: the servant forgets it, the calls are made if
-- etherealization was wished, and the reference of the activation goes.
unfoldable pub end_activation : PoaObject → ℕ → Option (List (ℕ × ℕ)) → Poa → Result
end_activation o servant none p = aborted
end_activation o servant (some as_) p = done (
    release
      (record o {
        servant = none;
        deactivate_do = false;
        is_cleanup = false;
        do_etherealize = false;
      })
      (record p {
        activations = as_;
        calls =
            if o.do_etherealize
            then farewell p o.object_id servant o.is_cleanup ++ p.calls
            else p.calls;
      }))

-- MateCORBA_POA_deactivate_object_T. What etherealize and finalize do to the adapter is not
-- modelled.
unfoldable pub deactivate_servant : Option ℕ → PoaObject → Poa → Result
deactivate_servant none o p = done p
deactivate_servant (some s) o p =
    if ltb 0 o.use_cnt
    then done (record p {
      objects = put (record o { deactivate_do = true; need_post_invoke = true }) p.objects;
    })
    else end_activation o s (unlink s o.object_id p.activations) p

unfoldable pub deactivate_object_T : PoaObject → Bool → Bool → Poa → Result
deactivate_object_T o do_etherealize is_cleanup p =
    deactivate_servant o.servant (wish do_etherealize is_cleanup o) p

-- MateCORBA_POAObject_post_invoke
unfoldable pub do_pending : Bool → PoaObject → Poa → Result
do_pending true o p = deactivate_object_T o false false p
do_pending false o p = done p

unfoldable pub post_invoke : PoaObject → Poa → Result
post_invoke o p = if ltb 0 o.use_cnt then done p else do_pending o.deactivate_do o p

-- PortableServer_POA_activate_object_with_id, for an adapter that retains servants.
unfoldable pub activate_found : ℕ → ℕ → Option PoaObject → Poa → Result
activate_found oid servant found p =
    if elim found [ none ↦ false | some o ↦ is_active o.servant ]
    then raised object_already_active p
    else if p.unique_id && has_activation servant p.activations
    then raised servant_already_active p
    else elim found [
      | none ↦
          activate_object_T (new_object oid) servant
            (record p { objects = new_object oid ∷ p.objects })
      | some o ↦ activate_object_T o servant p
    ]

unfoldable pub activate_object_with_id : ℕ → ℕ → Poa → Result
activate_object_with_id oid servant p = activate_found oid servant (lookup oid p.objects) p

-- PortableServer_POA_deactivate_object, for an adapter that retains servants.
unfoldable pub deactivate_found : Option PoaObject → Poa → Result
deactivate_found none p = done p
deactivate_found (some o) p =
    if is_active o.servant then deactivate_object_T o true false p else done p

unfoldable pub deactivate_object : ℕ → Poa → Result
deactivate_object oid p = deactivate_found (lookup oid p.objects) p
