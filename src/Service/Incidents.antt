-- ===== src/Service/Incidents.antt =====
-- internal/application/incident_service.go, and the calls on incidents of
-- internal/application/service.go.
use route_analysis_service.Prelude.{
  ℕ, suc, String, List, [], ◌∷◌, ◌==◌, if◌then◌else◌, ℤ, Option, none, some, SortSlice, inl, inr,
  Bool-cases, ◌≡◌, refl, arith, sym, ap, subst, ◌∙◌, ◌↔◌,
}
use route_analysis_service.Model.Float.{Float64}
use route_analysis_service.Model.Time.{Time, is_zero}
use route_analysis_service.Model.Types.{Incident, IncidentStatus}
use route_analysis_service.Model.Validation.{validate_incident}
use route_analysis_service.Model.Error.{Result, Error, ok, err, message}
use route_analysis_service.Incident.Lifecycle.{resolve_expired}
use route_analysis_service.Incident.Resolver.{Conflict, sort_by_priority, conflicts}
use route_analysis_service.Store.Defs.{
  Store, create_incident, update_incident, list_incidents, incident_at,
}
use route_analysis_service.Store.History.{Call, calls}
use route_analysis_service.Store.Locking.{
  Updated, update_incident-Updated, HasVersion, update_incident-HasVersion,
}

module _ {F : Type 0} ⦃fl : Float64 F⦄ where
  -- What is missing is filled in: a fresh id, and the time of the call.
  unfoldable pub completed : String → Time → Incident F → Incident F
  completed fresh now i = record i {
    id = if i.id == "" then fresh else i.id;
    created_at = if is_zero i.created_at then now else i.created_at;
  }

  unfoldable pub report_incident :
      Store F → String → Time → Incident F → Store F × Result (Incident F)
  unfolding completed
  report_incident s fresh now i =
      let i' = completed fresh now i in
      let (t, r) = create_incident s i' in (t, elim r [ err e ↦ err e | ok _ ↦ ok i' ])

  -- The first incident of the list with the id is activated, whatever its status.
  unfoldable pub activate_first :
      Store F → String → ℤ → List (Incident F) → Store F × Result (Unit {0})
  activate_first s id expected [] = (s, err (message "incident not found"))
  activate_first s id expected (i ∷ is) =
      if i.id == id
      then update_incident s (record i { status = IncidentStatus.active }) expected
      else activate_first s id expected is

  -- The loop that stores the changed incidents, up to the first one that the store refuses. The calls that other
  -- goroutines make before the n-th update are an argument.
  unfoldable pub persist :
      (ℕ → List (Call F)) → Store F → List (Incident F) → Store F × Option Error
  persist between s [] = (s, none)
  persist between s (i ∷ is) =
      let (t, r) = update_incident (calls s (between 0)) i i.version in
      let rest = persist (λ n. between (suc n)) t is in elim r [ err e ↦ (t, some e) | ok _ ↦ rest ]

  module _ ⦃slice : SortSlice⦄ where
    -- On the store that is listed, and the one that is written later: other calls may come in between.
    unfoldable pub activate_incident :
        Store F → Store F → String → String → ℤ → Store F × Result (Unit {0})
    unfolding activate_first
    activate_incident s t id dataset expected =
        activate_first t id expected (list_incidents s dataset)

    unfoldable pub list_incidents_sorted : Store F → String → List (Incident F)
    list_incidents_sorted s dataset = sort_by_priority (list_incidents s dataset)

    unfoldable pub incident_conflicts : Store F → String → Time → List Conflict
    incident_conflicts s dataset at = conflicts (list_incidents s dataset) at

    -- The ids that are returned with an error name incidents that were not stored, too.
    unfoldable pub resolve_expired_incidents :
        (ℕ → List (Call F)) → Store F → String → Time → Store F × List String × Option Error
    unfolding persist
    resolve_expired_incidents between s dataset at =
        let (changed, ids, failure) = resolve_expired (list_incidents s dataset) at in
        let (t, refused) = persist between s changed in
        elim failure [ some e ↦ (s, [], some e) | none ↦ (t, ids, refused) ]

    -- The first incident with the id.
    unfoldable pub first_named : String → List (Incident F) → Option (Incident F)
    first_named id [] = none
    first_named id (i ∷ is) = if i.id == id then some i else first_named id is

    -- What an activation needs of the store `s` that was listed and of the store `t` that it writes to, and what it
    -- leaves in `u`.
    pub record Activated (s t u : Store F) (id dataset : String) (expected : ℤ) : Type 0 where
      pub incident : Incident F
      pub listed : first_named id (list_incidents s dataset) ≡ some incident
      pub valid : validate_incident (record incident { status = IncidentStatus.active }) ≡ ok tt
      pub version : HasVersion (incident_at t incident.dataset_id incident.id) expected
      pub updated : Updated t u (record incident { status = IncidentStatus.active }) expected

    pub activate_first-Activates :
        (t : Store F) (id : String) (expected : ℤ) (is : List (Incident F)) (i : Incident F)
        → first_named id is ≡ some i
        → activate_first t id expected is
          ≡ update_incident t (record i { status = IncidentStatus.active }) expected
    unfolding activate_first first_named
    activate_first-Activates t id expected [] i q = cc
    activate_first-Activates t id expected (j ∷ is) i q = elim (Bool-cases (j.id == id)) [
      | inl same ↦
          let here : j ≡ i = ground (arith, same, q) in
          rw same (
            ap
              (λ (k : Incident F).
                update_incident t (record k { status = IncidentStatus.active }) expected)
              here)
      | inr other ↦
          rw other (activate_first-Activates t id expected is i (ground (arith, other, q)))
    ]

    activate_first-named :
        (t : Store F) (id : String) (expected : ℤ) (is : List (Incident F))
        → (activate_first t id expected is).1 ≡ ok tt
        → (i : Incident F) × (first_named id is ≡ some i)
    unfolding activate_first first_named
    activate_first-named t id expected [] q = cc
    activate_first-named t id expected (j ∷ is) q = elim (Bool-cases (j.id == id)) [
      | inl same ↦ rw same (j, refl)
      | inr other ↦ rw other (activate_first-named t id expected is (ground (arith, other, q)))
    ]

    -- `ActivateIncident` succeeds exactly if the first incident with the id in the listing of the dataset, with the
    -- status active, is valid, and the store holds its identifiers under the expected version when it is
    -- written; neither the status that was listed nor the one that is stored matters. That copy is
    -- then stored, active and under the next version, and all else is as it was in the store that
    -- is written, which need not be the one that was listed.
    pub activate_incident-Activated :
        (s t : Store F) (id dataset : String) (expected : ℤ)
        → let (u, r) = activate_incident s t id dataset expected in
          (r ≡ ok tt) ↔ Activated s t u id dataset expected
    unfolding activate_incident
    activate_incident-Activated s t id dataset expected = (forward, back)
      where
        forward :
            (activate_first t id expected (list_incidents s dataset)).1 ≡ ok tt
            → Activated s t
                (activate_first t id expected (list_incidents s dataset)).0
                id
                dataset
                expected
        forward done =
            let (i, named) = activate_first-named t id expected (list_incidents s dataset) done in
            let active = record i { status = IncidentStatus.active } in
            let same = activate_first-Activates t id expected (list_incidents s dataset) i named in
            let succeeded = sym (ap (λ r. r.1) same) ∙ done in
            let (valid, version) = (update_incident-HasVersion t active expected).0 succeeded in
            record {
              incident = i;
              listed = named;
              valid = valid;
              version = version;
              updated =
                  subst (λ u. Updated t u active expected) (sym (ap (λ r. r.0) same))
                    (update_incident-Updated t active expected succeeded);
            }

        back :
            Activated s t
              (activate_first t id expected (list_incidents s dataset)).0
              id
              dataset
              expected
            → (activate_first t id expected (list_incidents s dataset)).1 ≡ ok tt
        back a =
            ap (λ r. r.1)
              (activate_first-Activates t id expected (list_incidents s dataset) a.incident
                a.listed)
            ∙ (update_incident-HasVersion t (record a.incident { status = IncidentStatus.active })
                  expected).1
                (a.valid, a.version)
