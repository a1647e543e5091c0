-- ===== src/Service/Activation.antt =====
-- Two activations of one incident by internal/application/service.go against one version.
use route_analysis_service.Prelude.{
  String, List, [], ◌∷◌, ◌==◌, Bool-cases, ≡-of_eq, ℤ, IsInt64, Map, lookup, map, Option, none,
  some, Option-cases, SortSlice, All, All-perm, ◌⊎◌, inl, inr, ◌≡◌, refl, sym, ap, subst, ◌∙◌,
  arith,
}
use route_analysis_service.Model.Float.{Float64}
use route_analysis_service.Model.Types.{Dataset, Incident, IncidentStatus}
use route_analysis_service.Model.Access.{by_priority}
use route_analysis_service.Model.Validation.{validate_incident}
use route_analysis_service.Model.Error.{ok, err, message, conflict}
use route_analysis_service.Store.Defs.{Store, incidents_of, list_incidents, update_incident}
use route_analysis_service.Store.Consistency.{IsConsistent, IncidentsAt, IncidentFits}
use route_analysis_service.Store.Locking.{update_incident_twice}
use route_analysis_service.Service.Incidents.{
  first_named, activate_first, activate_incident, activate_incident-Activated,
  activate_first-Activates,
}

module _ {F : Type 0} ⦃fl : Float64 F⦄ where
  -- The incident names the dataset and is valid.
  abbrev Fits : String → Incident F → Type 0
  Fits dataset i = (i.dataset_id ≡ dataset) × (validate_incident i ≡ ok tt)

  values-Fits :
      (dataset : String) (m : Map (Incident F))
      → All (IncidentFits dataset) m
      → All (Fits dataset) (map (λ e. e.1) m)
  values-Fits dataset [] h = tt
  values-Fits dataset (e ∷ m) h = ((h.0.1, h.0.2), values-Fits dataset m h.1)

  incidents_of-Fits :
      (dataset : String) (o : Option (Map (Incident F))) (d : Option Dataset)
      → IncidentsAt dataset o d
      → All
          (Fits dataset)
          (map (λ e. e.1) (elim o as (λ _. Map (Incident F)) [ none ↦ [] | some m ↦ m ]))
  incidents_of-Fits dataset none d h = tt
  incidents_of-Fits dataset (some m) none h = absurd h
  incidents_of-Fits dataset (some m) (some d) h = values-Fits dataset m h

  first_named-Fits :
      ⦃slice : SortSlice⦄ (id dataset : String) (is : List (Incident F)) (i : Incident F)
      → first_named id is ≡ some i
      → All (Fits dataset) is
      → (i.id ≡ id) × Fits dataset i
  unfolding first_named
  first_named-Fits id dataset [] i q h = cc
  first_named-Fits id dataset (j ∷ is) i q h = elim (Bool-cases (j.id == id)) [
    | inl same ↦
        let here : j ≡ i = ground (arith, same, q) in
        subst (λ k. (k.id ≡ id) × Fits dataset k) here (≡-of_eq j.id id same, h.0)
    | inr other ↦ first_named-Fits id dataset is i (ground (arith, other, q)) h.1
  ]

  module _ ⦃slice : SortSlice⦄ where
    listed-Fits :
        (s : Store F) (id dataset : String) (i : Incident F)
        → IsConsistent s
        → first_named id (list_incidents s dataset) ≡ some i
        → (i.id ≡ id) × Fits dataset i
    unfolding list_incidents
    listed-Fits s id dataset i c q = first_named-Fits id dataset (list_incidents s dataset) i q (
        All-perm (Fits dataset)
          (slice.sort-perm (Incident F) by_priority (map (λ e. e.1) (incidents_of s dataset)))
          (incidents_of-Fits dataset (lookup dataset s.incidents) (lookup dataset s.datasets)
            (c.incidents_fit dataset)))

    abbrev activated : Incident F → Incident F
    activated i = record i { status = IncidentStatus.active }

    activated-valid :
        (i : Incident F) → validate_incident i ≡ ok tt → validate_incident (activated i) ≡ ok tt
    unfolding validate_incident
    activated-valid i h = h

    activate_first-missing :
        (t : Store F) (id : String) (expected : ℤ) (is : List (Incident F))
        → first_named id is ≡ none
        → activate_first t id expected is ≡ (t, err (message "incident not found"))
    unfolding activate_first first_named
    activate_first-missing t id expected [] q = refl
    activate_first-missing t id expected (j ∷ is) q = elim (Bool-cases (j.id == id)) [
      | inl same ↦ ground (arith, same, q)
      | inr other ↦ rw other (activate_first-missing t id expected is (ground (arith, other, q)))
    ]

    -- After a successful activation a second one against the same version fails.
    pub activate_incident_twice :
        (s t s' : Store F) (id dataset : String) (expected : ℤ)
        → IsInt64 expected
        → IsConsistent s
        → IsConsistent s'
        → (activate_incident s t id dataset expected).1 ≡ ok tt
        → let u = (activate_incident s t id dataset expected).0 in
          (activate_incident s' u id dataset expected ≡ (u, err conflict))
          ⊎ ((activate_incident s' u id dataset expected ≡ (u, err (message "incident not found")))
              × (first_named id (list_incidents s' dataset) ≡ none))
    unfolding activate_incident
    activate_incident_twice s t s' id dataset expected fits c c' done =
        elim (Option-cases (first_named id (list_incidents s' dataset))) [
          | inl missing ↦
              inr
                (activate_first-missing _ id expected (list_incidents s' dataset) missing, missing)
          | inr (j, named) ↦ inl (again j named)
        ]
      where
        again :
            (j : Incident F)
            → first_named id (list_incidents s' dataset) ≡ some j
            → let u = (activate_first t id expected (list_incidents s dataset)).0 in
              activate_first u id expected (list_incidents s' dataset) ≡ (u, err conflict)
        again j named =
            let a = (activate_incident-Activated s t id dataset expected).0 done in
            let first =
              activate_first-Activates t id expected (list_incidents s dataset) a.incident
                a.listed in
            let (i_id, i_fits) = listed-Fits s id dataset a.incident c a.listed in
            let (j_id, j_fits) = listed-Fits s' id dataset j c' named in
            activate_first-Activates _ id expected (list_incidents s' dataset) j named
            ∙ subst (λ (u : Store F). update_incident u (activated j) expected ≡ (u, err conflict))
                (sym (ap (λ r. r.0) first))
                (update_incident_twice t (activated a.incident) (activated j) expected fits
                  (sym (ap (λ r. r.1) first) ∙ done) (j_fits.0 ∙ sym i_fits.0) (j_id ∙ sym i_id)
                  (activated-valid j j_fits.1))
