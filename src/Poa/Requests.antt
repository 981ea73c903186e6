-- ===== src/Poa/Requests.antt =====
-- Requests on the objects of an adapter that retains its servants, and the adapter's own
-- deactivation: MateCORBA_POAObject_handle_request up to the invocation and behind it,
-- MateCORBA_POA_is_inuse_T and MateCORBA_POA_deactivate of poa.c.
pub mod Activating
pub mod Serving
pub mod Ending
pub mod Reachable
pub mod Pending
pub mod Shutdown
use mate_corba.Prelude.{
  ℕ, suc, ◌+◌, ◌-◌, ◌%◌, List, [], ◌∷◌, ◌++◌, Bool, true, false, not, ◌&&◌, ◌||◌, ltb, ◌==◌,
  if◌then◌else◌, Option, none, some,
}
use mate_corba.Poa.Manager.{State, holding, active, discarding, inactive}
use mate_corba.Poa.Objects.{
  PoaObject, Processing, use_active_object_map_only, use_default_servant, use_servant_manager, Poa,
  Exception, object_not_exist, transient, obj_adapter, Result, done, raised, aborted, when_done,
  lookup, put, has_activation, activate_object_T, deactivate_object_T, post_invoke,
}

-- The state of the manager: go on, queue the request of a remote client, or refuse it.
pub data Verdict : Type 0 where
  go_on queue : Verdict
  refuse : Exception → Verdict

unfoldable pub verdict : State → Bool → Verdict
verdict holding remote = if remote then queue else refuse transient
verdict discarding remote = refuse transient
verdict inactive remote = refuse obj_adapter
verdict active remote = go_on

-- MateCORBA_POA_ServantManager_use_servant, where the activator's `incarnate` gave a servant or
-- none.
unfoldable pub use_servant : Option ℕ → PoaObject → Poa → Result
use_servant none o p = done p
use_servant (some s) o p =
    if p.unique_id && has_activation s p.activations
    then raised obj_adapter p
    else done (record p {
      objects = put (record o { servant = some s; refs = suc o.refs }) p.objects;
      activations = (s, o.object_id) ∷ p.activations;
    })

-- The servant of an object that has none. A default servant that is NULL would be dereferenced.
unfoldable pub default_for : Option ℕ → PoaObject → Poa → Result
default_for none o p = aborted
default_for (some s) o p = activate_object_T o s p

unfoldable pub find_servant : (ℕ → Option ℕ) → Option ℕ → PoaObject → Processing → Poa → Result
find_servant incarnate (some s) o processing p = done p
find_servant incarnate none o use_active_object_map_only p = raised object_not_exist p
find_servant incarnate none o use_default_servant p = default_for p.default_servant o p
find_servant incarnate none o use_servant_manager p = use_servant (incarnate o.object_id) o p

-- pobj->use_cnt++ on a guint16, if there is a servant now.
unfoldable pub start_active : Option ℕ → PoaObject → Poa → Result
start_active none o p = raised object_not_exist p
start_active (some s) o p =
    done (record p { objects = put (record o { use_cnt = suc o.use_cnt % 65536 }) p.objects })

unfoldable pub start_use : Option PoaObject → Poa → Result
start_use none p = raised object_not_exist p
start_use (some o) p = start_active o.servant o p

-- MateCORBA_POAObject_handle_request up to the invocation, for a manager that lets it go on.
unfoldable pub begin_request : (ℕ → Option ℕ) → PoaObject → Poa → Result
begin_request incarnate o p =
    when_done (find_servant incarnate o.servant o p.processing p)
      (λ q. start_use (lookup o.object_id q.objects) q)

-- And behind the invocation: pobj->use_cnt--, and post_invoke if that is needed.
unfoldable pub after_use : Bool → PoaObject → Poa → Result
after_use true o p = post_invoke o p
after_use false o p = done p

unfoldable pub end_use : PoaObject → Poa → Result
end_use o p =
    let used = record o { use_cnt = (o.use_cnt + 65535) % 65536 } in
    after_use o.need_post_invoke used (record p { objects = put used p.objects })

unfoldable pub end_found : Option PoaObject → Poa → Result
end_found none p = aborted
end_found (some o) p = end_use o p

unfoldable pub end_request : ℕ → Poa → Result
end_request oid p = end_found (lookup oid p.objects) p

-- check_object_inuse_T over the map, and MateCORBA_POA_is_inuse_T without the children; `use_cnt`
-- is that of the adapter.
unfoldable pub any_in_use : List PoaObject → Bool
any_in_use [] = false
any_in_use (o ∷ os) = ltb 0 o.use_cnt || any_in_use os

unfoldable pub is_inuse_T : ℕ → Poa → Bool
is_inuse_T use_cnt p = ltb 0 use_cnt || any_in_use p.objects

-- traverse_cb for each object of the map.
unfoldable pub traverse : Bool → List PoaObject → Poa → Result
traverse do_etherealize [] p = done p
traverse do_etherealize (o ∷ os) p =
    when_done (deactivate_object_T o do_etherealize true p) (λ q. traverse do_etherealize os q)

-- remove_cb for each object of the map.
unfoldable pub remove_destroyed : List PoaObject → List PoaObject
remove_destroyed [] = []
remove_destroyed (o ∷ os) = let rest = remove_destroyed os in if o.destroyed then rest else o ∷ rest

-- What MateCORBA_POA_deactivate does with the map of an adapter that retains servants, once the
-- requests that it held are gone. It returns whether no object was in use.
unfoldable pub deactivate_map : Bool → Poa → Result × Bool
deactivate_map do_etherealize p = (
  when_done
      (traverse do_etherealize p.objects
        (record p { life_deactivate_do = true; life_deactivating = true }))
      (λ q. done (record q { objects = remove_destroyed q.objects; life_deactivating = false })),
  not (any_in_use p.objects),
)
