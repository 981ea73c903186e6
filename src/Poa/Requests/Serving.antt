-- ===== src/Poa/Requests/Serving.antt =====
-- The start of a request, which may give its object a servant, keeps an adapter well-formed.
use mathlib.Core.Option.{none-ne-some, some-injective}
use mathlib.Core.Path.{subst}
use mate_corba.Prelude.{
  ℕ, suc, ◌%◌, ◌≤◌, ◌<◌, ◌≡◌, ◌≢◌, refl, sym, ap, ◌∙◌, arith, List, ◌∷◌, Bool, Bool-cases, true,
  false, inl, inr, ◌&&◌, ◌||◌, ltb, if◌then◌else◌, Option, none, some,
}
use mate_corba.Poa.Objects.{
  PoaObject, Poa, Processing, use_active_object_map_only, use_default_servant, use_servant_manager,
  Result, done, raised, aborted, when_done, lookup, put, is_active, has_activation,
  activate_object_T,
}
use mate_corba.Poa.Objects.Invariant.{IsActivation, lookup-IsObject}
use mate_corba.Poa.Objects.Steps.{
  IsValid, Keeps, lookup-put_self, put-IsValid, rewrite-IsValid, activate_object_T-Keeps,
  link-IsActivation, Agree-skip,
}
use mate_corba.Poa.Requests.{
  use_servant, default_for, find_servant, start_active, start_use, begin_request,
}
use mate_corba.Poa.Requests.Activating.{lookup-there}

-- A servant that is given to an object is not NULL where the code does not look.
abbrev pub HasDefault : Poa → Type 0
HasDefault p =
    p.processing ≡ use_default_servant
    → (p.life_deactivate_do ≡ false) × ((s : ℕ) × (p.default_servant ≡ some s))

use_servant-Keeps :
    (m : Option ℕ) (o : PoaObject) (p : Poa)
    → IsValid p
    → IsActivation p.activations o none
    → lookup o.object_id p.objects ≢ none
    → Keeps (use_servant m o p)
unfolding use_servant
use_servant-Keeps none o p v h there = v
use_servant-Keeps (some s) o p v (u, d, c) there =
    elim (Bool-cases (p.unique_id && has_activation s p.activations)) [
      | inl f ↦ rw f v
      | inr f ↦ rw f (
          put-IsValid p ((s, o.object_id) ∷ p.activations) p.calls _ v
            (link-IsActivation p.activations o s u d c)
            (λ other q. Agree-skip s o.object_id other p.activations q) (λ q. absurd (there q)))
    ]

default_for-Keeps :
    (m : Option ℕ) (o : PoaObject) (p : Poa)
    → IsValid p
    → o.servant ≡ none
    → IsActivation p.activations o none
    → p.life_deactivate_do ≡ false
    → ((s : ℕ) × (m ≡ some s))
    → lookup o.object_id p.objects ≢ none
    → Keeps (default_for m o p)
unfolding default_for
default_for-Keeps none o p v e h life (s, q) there = absurd (none-ne-some s q)
default_for-Keeps (some s) o p v e h life _ there = activate_object_T-Keeps o s p v e h life there

find_servant-Keeps :
    (incarnate : ℕ → Option ℕ) (m : Option ℕ) (o : PoaObject) (c : Processing) (p : Poa)
    → IsValid p
    → o.servant ≡ m
    → IsActivation p.activations o m
    → (c ≡ use_default_servant
        → (p.life_deactivate_do ≡ false) × ((s : ℕ) × (p.default_servant ≡ some s)))
    → lookup o.object_id p.objects ≢ none
    → Keeps (find_servant incarnate m o c p)
unfolding find_servant
find_servant-Keeps incarnate (some s) o c p v e h k there = v
find_servant-Keeps incarnate none o use_active_object_map_only p v e h k there = v
find_servant-Keeps incarnate none o use_default_servant p v e h k there =
    default_for-Keeps p.default_servant o p v e h (k refl).0 (k refl).1 there
find_servant-Keeps incarnate none o use_servant_manager p v e h k there =
    use_servant-Keeps (incarnate o.object_id) o p v h there

-- The object of an id, where a function ended well, can count one more use.
abbrev HasRoom : ℕ → Result → Type 0
HasRoom oid (done q) = (x : PoaObject) → lookup oid q.objects ≡ some x → x.use_cnt < 65535
HasRoom oid (raised x q) = 0 ≤ 0
HasRoom oid aborted = 0 ≤ 0

put-HasRoom :
    (o new x : PoaObject) (os : List PoaObject)
    → lookup o.object_id os ≡ some o
    → new.object_id ≡ o.object_id
    → new.use_cnt < 65535
    → lookup o.object_id (put new os) ≡ some x
    → x.use_cnt < 65535
put-HasRoom o new x os e same room f =
    subst (λ y. y.use_cnt < 65535)
      (some-injective new x (sym (lookup-put_self o.object_id o new os e same) ∙ f)) room

activate_object_T-HasRoom :
    (o : PoaObject) (s : ℕ) (p : Poa)
    → lookup o.object_id p.objects ≡ some o
    → o.use_cnt < 65535
    → HasRoom o.object_id (activate_object_T o s p)
unfolding activate_object_T
activate_object_T-HasRoom o s p e room =
    by_test (is_active o.servant || (p.life_deactivate_do || ltb 0 o.use_cnt))
  where
    by_test :
        (b : Bool)
        → HasRoom o.object_id (
            if b
            then aborted
            else done (record p {
              objects = put (record o { servant = some s; refs = suc o.refs }) p.objects;
              activations = (s, o.object_id) ∷ p.activations;
            }))
    by_test true = omega arith
    by_test false = λ x f. put-HasRoom o _ x p.objects e refl room f

find_servant-HasRoom :
    (incarnate : ℕ → Option ℕ) (m : Option ℕ) (o : PoaObject) (c : Processing) (p : Poa)
    → lookup o.object_id p.objects ≡ some o
    → o.use_cnt < 65535
    → HasRoom o.object_id (find_servant incarnate m o c p)
unfolding find_servant use_servant default_for
find_servant-HasRoom incarnate m o c p e room = by_servant m c
  where
    found : (x : PoaObject) → lookup o.object_id p.objects ≡ some x → x.use_cnt < 65535
    found x f = subst (λ y. y.use_cnt < 65535) (some-injective o x (sym e ∙ f)) room

    by_default : (d : Option ℕ) → HasRoom o.object_id (default_for d o p)
    by_default none = omega arith
    by_default (some s) = activate_object_T-HasRoom o s p e room

    by_manager : (d : Option ℕ) → HasRoom o.object_id (use_servant d o p)
    by_manager none = found
    by_manager (some s) = elim (Bool-cases (p.unique_id && has_activation s p.activations)) [
      | inl f ↦ rw f (omega arith)
      | inr f ↦ rw f (λ x g. put-HasRoom o _ x p.objects e refl room g)
    ]

    by_servant :
        (m : Option ℕ) (c : Processing) → HasRoom o.object_id (find_servant incarnate m o c p)
    by_servant (some s) c = found
    by_servant none use_active_object_map_only = omega arith
    by_servant none use_default_servant = by_default p.default_servant
    by_servant none use_servant_manager = by_manager (incarnate o.object_id)

start_use-Keeps :
    (oid : ℕ) (m : Option PoaObject) (p : Poa)
    → IsValid p
    → lookup oid p.objects ≡ m
    → ((x : PoaObject) → lookup oid p.objects ≡ some x → x.use_cnt < 65535)
    → Keeps (start_use m p)
unfolding start_use start_active
start_use-Keeps oid none p v e room = v
start_use-Keeps oid (some o) p v e room =
    let (h, same) = lookup-IsObject p.activations oid p.objects o v.each e in
    by_servant o.servant h (rw same (lookup-there oid p.objects o e)) refl
  where
    by_servant :
        (m : Option ℕ)
        → IsActivation p.activations o m
        → lookup o.object_id p.objects ≢ none
        → o.servant ≡ m
        → Keeps (start_active m o p)
    by_servant none h there f = v
    by_servant (some s) (l, c, d, r, b) there f =
        rewrite-IsValid p (record o { use_cnt = suc o.use_cnt % 65536 }) v
          (rw f (l, c, (λ q. (omega (arith, room o e), (d q).1)), r, omega (arith, room o e)))
          (λ q. absurd (there q))

-- MateCORBA_POAObject_handle_request up to the invocation.
pub begin_request-Keeps :
    (incarnate : ℕ → Option ℕ) (oid : ℕ) (o : PoaObject) (p : Poa)
    → IsValid p
    → lookup oid p.objects ≡ some o
    → o.use_cnt < 65535
    → HasDefault p
    → Keeps (begin_request incarnate o p)
unfolding begin_request when_done
begin_request-Keeps incarnate oid o p v e room k =
    let (h, same) = lookup-IsObject p.activations oid p.objects o v.each e in
    continued (find_servant incarnate o.servant o p.processing p)
      (find_servant-Keeps incarnate o.servant o p.processing p v refl h k
        (rw same (lookup-there oid p.objects o e)))
      (find_servant-HasRoom incarnate o.servant o p.processing p
        (ap (λ i. lookup i p.objects) same ∙ e) room)
  where
    continued :
        (r : Result)
        → Keeps r
        → HasRoom o.object_id r
        → Keeps (when_done r (λ q. start_use (lookup o.object_id q.objects) q))
    continued (done q) w f = start_use-Keeps o.object_id (lookup o.object_id q.objects) q w refl f
    continued (raised x q) w f = w
    continued aborted w f = absurd w
