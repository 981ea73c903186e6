-- ===== src/Poa/Requests/Activating.antt =====
-- Activation and deactivation of an object by its id keep an adapter well-formed.
use mathlib.Core.Option.{none-ne-some}
use mate_corba.Prelude.{
  ℕ, ◌≡◌, ◌≢◌, refl, sym, ◌∙◌, List, ◌∷◌, Bool-cases, true, false, inl, inr, ◌&&◌, ◌==◌, ==_iff,
  Option, none, some, Option-cases,
}
use mate_corba.Poa.Objects.{
  PoaObject, Poa, lookup, is_active, new_object, has_activation, activate_found,
  activate_object_with_id, deactivate_found, deactivate_object,
}
use mate_corba.Poa.Objects.Invariant.{lookup-IsObject}
use mate_corba.Poa.Objects.Steps.{
  IsValid, Keeps, deactivate_object_T-Keeps, activate_object_T-Keeps,
}

-- What is found, as a case.
pub lookup-there :
    (oid : ℕ) (os : List PoaObject) (o : PoaObject) → lookup oid os ≡ some o → lookup oid os ≢ none
lookup-there oid os o e q = none-ne-some o (sym q ∙ e)

-- A new object for an id that the map does not have.
new_object-IsValid :
    (oid : ℕ) (p : Poa)
    → IsValid p
    → lookup oid p.objects ≡ none
    → IsValid (record p { objects = new_object oid ∷ p.objects })
      × (lookup oid (new_object oid ∷ p.objects) ≢ none)
unfolding lookup
new_object-IsValid oid p v e =
    let same : (oid == oid) ≡ true = (==_iff oid oid).1 refl in
    (
      record {
        each = ((refl, refl, v.closed oid e), v.each);
        closed = λ x q. elim (Bool-cases (oid == x)) [
          | inl f ↦ absurd (none-ne-some (new_object oid) (sym (rw f at q)))
          | inr f ↦ v.closed x (rw f at q)
        ];
      },
      rw same (λ q. none-ne-some (new_object oid) (sym q)),
    )

activate_found-Keeps :
    (oid s : ℕ) (m : Option PoaObject) (p : Poa)
    → IsValid p
    → p.life_deactivate_do ≡ false
    → lookup oid p.objects ≡ m
    → Keeps (activate_found oid s m p)
unfolding activate_found
activate_found-Keeps oid s none p v life e =
    elim (Bool-cases (p.unique_id && has_activation s p.activations)) [
      | inl f ↦ rw f v
      | inr f ↦
          let (w, there) = new_object-IsValid oid p v e in
          rw f (
            activate_object_T-Keeps (new_object oid) s
              (record p { objects = new_object oid ∷ p.objects }) w refl
              (refl, refl, v.closed oid e) life there)
    ]
activate_found-Keeps oid s (some o) p v life e =
    let (h, same) = lookup-IsObject p.activations oid p.objects o v.each e in
    elim (Option-cases o.servant) [
      | inr (t, f) ↦ let active : is_active o.servant ≡ true = rw f refl in rw active v
      | inl f ↦
          let idle : is_active o.servant ≡ false = rw f refl in
          elim (Bool-cases (p.unique_id && has_activation s p.activations)) [
            | inl g ↦ rw (idle, g) v
            | inr g ↦
                rw (idle, g)
                  (activate_object_T-Keeps o s p v f (rw f at h) life
                    (rw same (lookup-there oid p.objects o e)))
          ]
    ]

-- PortableServer_POA_activate_object_with_id.
pub activate_object_with_id-Keeps :
    (oid s : ℕ) (p : Poa)
    → IsValid p
    → p.life_deactivate_do ≡ false
    → Keeps (activate_object_with_id oid s p)
unfolding activate_object_with_id
activate_object_with_id-Keeps oid s p v life =
    activate_found-Keeps oid s (lookup oid p.objects) p v life refl

deactivate_found-Keeps :
    (oid : ℕ) (m : Option PoaObject) (p : Poa)
    → IsValid p
    → lookup oid p.objects ≡ m
    → Keeps (deactivate_found m p)
unfolding deactivate_found
deactivate_found-Keeps oid none p v e = v
deactivate_found-Keeps oid (some o) p v e = elim (Bool-cases (is_active o.servant)) [
  | inl f ↦ rw f (
      deactivate_object_T-Keeps o true false p v
        (lookup-IsObject p.activations oid p.objects o v.each e).0)
  | inr f ↦ rw f v
]

pub deactivate_object-Keeps : (oid : ℕ) (p : Poa) → IsValid p → Keeps (deactivate_object oid p)
unfolding deactivate_object
deactivate_object-Keeps oid p v = deactivate_found-Keeps oid (lookup oid p.objects) p v refl
