-- ===== src/Poa/Manager.antt =====
-- poa-manager.c: the state machine of a PortableServer::POAManager. The manager calls three
-- operations of its adapters, which are fields of `Adapters`, on a world of their own that the
-- manager's fields are no part of. Locks are not modelled: the calls of one manager follow each
-- other.
use mate_corba.Prelude.{
  ℕ, Bool, true, false, not, ◌&&◌, ◌||◌, ◌==◌, if◌then◌else◌, List, [], ◌∷◌, ◌++◌, Option, none,
  some,
}

-- PortableServer_POAManager_State
pub data State : Type 0 where
  holding active discarding inactive : State

-- The exceptions that the functions set.
pub data Exception : Type 0 where
  bad_param adapter_inactive bad_inv_order : Exception

-- struct PortableServer_POAManager_type; a POA is a number.
pub record Manager : Type 0 where
  pub state : State
  pub poa_collection : List ℕ

-- What poa.c gives the manager: MateCORBA_POA_is_inuse without the children,
-- MateCORBA_POA_handle_held_requests and MateCORBA_POA_deactivate, which may set an exception.
pub record Adapters (W : Type 0) : Type 0 where
  pub is_inuse : ℕ → W → Bool
  pub handle_held_requests : ℕ → W → W
  pub poa_deactivate : ℕ → Bool → W × Option Exception → W × Option Exception

-- MateCORBA_POAManager_new
abbrev pub new_manager : Manager
new_manager = record { state = holding; poa_collection = [] }

-- g_slist_find, as far as whether it finds anything.
unfoldable pub is_registered : ℕ → List ℕ → Bool
is_registered poa [] = false
is_registered poa (p ∷ ps) = (p == poa) || is_registered poa ps

-- g_slist_remove: the first occurrence.
unfoldable pub slist_remove : ℕ → List ℕ → List ℕ
slist_remove poa [] = []
slist_remove poa (p ∷ ps) = let rest = slist_remove poa ps in if p == poa then ps else p ∷ rest

-- MateCORBA_POAManager_register_poa; nothing when the assertion fails.
unfoldable pub register_poa : ℕ → Manager → Option Manager
register_poa poa m =
    if is_registered poa m.poa_collection
    then none
    else some (record m { poa_collection = m.poa_collection ++ (poa ∷ []) })

-- MateCORBA_POAManager_unregister_poa
unfoldable pub unregister_poa : ℕ → Manager → Manager
unregister_poa poa m = record m { poa_collection = slist_remove poa m.poa_collection }

abbrev pub is_inactive : State → Bool
is_inactive holding = false
is_inactive active = false
is_inactive discarding = false
is_inactive inactive = true

module _ {W : Type 0} (adapters : Adapters W) where
  -- What an operation leaves: the manager, or NULL as it was, the adapters and the environment.
  abbrev pub Result : Type 0
  Result = Option Manager × W × Option Exception

  -- The loop of PortableServer_POAManager_activate.
  unfoldable pub handle_all : List ℕ → W → W
  handle_all [] w = w
  handle_all (poa ∷ poas) w = handle_all poas (adapters.handle_held_requests poa w)

  -- PortableServer_POAManager_activate
  unfoldable pub activate : Option Manager → W → Option Exception → Result
  activate none w ev = (none, w, some bad_param)
  activate (some m) w ev =
      if is_inactive m.state
      then (some m, w, some adapter_inactive)
      else (some (record m { state = active }), handle_all m.poa_collection w, ev)

  -- PortableServer_POAManager_hold_requests; the warning without wait_for_completion is left out.
  unfoldable pub hold_requests : Bool → Option Manager → W → Option Exception → Result
  hold_requests wait_for_completion none w ev = (none, w, some bad_param)
  hold_requests wait_for_completion (some m) w ev =
      if is_inactive m.state
      then (some m, w, some adapter_inactive)
      else (some (record m { state = holding }), w, ev)

  -- PortableServer_POAManager_discard_requests, without the warning too.
  unfoldable pub discard_requests : Bool → Option Manager → W → Option Exception → Result
  discard_requests wait_for_completion none w ev = (none, w, some bad_param)
  discard_requests wait_for_completion (some m) w ev =
      if is_inactive m.state
      then (some m, w, some adapter_inactive)
      else (some (record m { state = discarding }), w, ev)

  -- The loop that looks for an adapter that is not in use.
  unfoldable pub any_idle : List ℕ → W → Bool
  any_idle [] w = false
  any_idle (poa ∷ poas) w = not (adapters.is_inuse poa w) || any_idle poas w

  unfoldable pub deactivate_all : List ℕ → Bool → W × Option Exception → W × Option Exception
  deactivate_all [] etherealize_objects s = s
  deactivate_all (poa ∷ poas) etherealize_objects s =
      deactivate_all poas etherealize_objects (adapters.poa_deactivate poa etherealize_objects s)

  -- PortableServer_POAManager_deactivate
  unfoldable pub deactivate : Bool → Bool → Option Manager → W → Option Exception → Result
  deactivate etherealize_objects wait_for_completion none w ev = (none, w, some bad_param)
  deactivate etherealize_objects wait_for_completion (some m) w ev =
      if is_inactive m.state
      then (some m, w, some adapter_inactive)
      else if wait_for_completion && any_idle m.poa_collection w
      then (some m, w, some bad_inv_order)
      else let s = deactivate_all m.poa_collection etherealize_objects (w, ev) in
        (some (record m { state = inactive }), s.0, s.1)
