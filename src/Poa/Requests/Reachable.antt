-- ===== src/Poa/Requests/Reachable.antt =====
-- The adapters that the operations reach, in any order, from one without objects.
use mathlib.Core.Path.{subst}
use mate_corba.Prelude.{ℕ, ◌<◌, ◌≡◌, false, Option, some}
use mate_corba.Poa.Objects.{
  PoaObject, Poa, Result, done, lookup, activate_object_with_id, deactivate_object,
}
use mate_corba.Poa.Objects.Steps.{IsValid, Keeps}
use mate_corba.Poa.Requests.{begin_request, end_request}
use mate_corba.Poa.Requests.Activating.{activate_object_with_id-Keeps, deactivate_object-Keeps}
use mate_corba.Poa.Requests.Serving.{HasDefault, begin_request-Keeps}
use mate_corba.Poa.Requests.Ending.{end_request-Keeps}

-- One operation on an adapter, by a client or by a request: an activation while the adapter is not
-- being deactivated, a deactivation, the start of a request on an object of the map whose count of
-- uses has room for one more, and the end of a request on an object that serves one.
pub data Step (incarnate : ℕ → Option ℕ) : Poa → Poa → Type 0 where
  activates :
      {p q : Poa} (oid s : ℕ)
      → p.life_deactivate_do ≡ false
      → activate_object_with_id oid s p ≡ done q
      → Step incarnate p q
  deactivates : {p q : Poa} (oid : ℕ) → deactivate_object oid p ≡ done q → Step incarnate p q
  begins :
      {p q : Poa} (oid : ℕ) (o : PoaObject)
      → lookup oid p.objects ≡ some o
      → o.use_cnt < 65535
      → HasDefault p
      → begin_request incarnate o p ≡ done q
      → Step incarnate p q
  ends :
      {p q : Poa} (oid : ℕ) (o : PoaObject)
      → lookup oid p.objects ≡ some o
      → 0 < o.use_cnt
      → end_request oid p ≡ done q
      → Step incarnate p q

pub data Steps (incarnate : ℕ → Option ℕ) : Poa → Poa → Type 0 where
  still : {p : Poa} → Steps incarnate p p
  next : {p q r : Poa} → Step incarnate p q → Steps incarnate q r → Steps incarnate p r

Keeps-done : (r : Result) (q : Poa) → Keeps r → r ≡ done q → IsValid q
Keeps-done r q k e = subst (λ x. Keeps x) e k

Step-IsValid : (incarnate : ℕ → Option ℕ) (p q : Poa) → Step incarnate p q → IsValid p → IsValid q
Step-IsValid incarnate p q (activates oid s life e) v =
    Keeps-done _ q (activate_object_with_id-Keeps oid s p v life) e
Step-IsValid incarnate p q (deactivates oid e) v =
    Keeps-done _ q (deactivate_object-Keeps oid p v) e
Step-IsValid incarnate p q (begins oid o l room k e) v =
    Keeps-done _ q (begin_request-Keeps incarnate oid o p v l room k) e
Step-IsValid incarnate p q (ends oid o l busy e) v =
    Keeps-done _ q (end_request-Keeps oid o p v l busy) e

-- After any sequence of activations by id, deactivations, starts and ends of requests, a well-
-- formed adapter is well-formed: an object without a servant is not in use, has nothing pending
-- and is in no servant's list; one with a servant is in its list and in no other, holds a
-- reference, and a pending deactivation has a use that will do it. Activations come while the
-- adapter is not being deactivated, a request starts on an object of the map with room in its
-- count of uses and, with a default servant, with one that is set and no deactivation, and only
-- a request that was started ends.
pub Steps-IsValid :
    (incarnate : ℕ → Option ℕ) (p q : Poa) → Steps incarnate p q → IsValid p → IsValid q
Steps-IsValid incarnate p q still v = v
Steps-IsValid incarnate p q (next {q = r} s more) v =
    Steps-IsValid incarnate r q more (Step-IsValid incarnate p r s v)
