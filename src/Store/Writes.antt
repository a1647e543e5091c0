-- ===== src/Store/Writes.antt =====
-- The calls of internal/infrastructure/memory/store.go that store incidents and jobs keep the store
-- consistent.
use route_analysis_service.Prelude.{
  [], true, not, ℤ, pos, eq_ℤ, ◌+64◌, Map, lookup, insert, contains, is_some, ≡-of_eq,
  contains-some, Option, none, some, All, All-insert, ◌≡◌, refl, sym, subst, arith,
}
use route_analysis_service.Model.Float.{Float64}
use route_analysis_service.Model.Types.{Dataset, Incident, AnalysisJob}
use route_analysis_service.Model.Validation.{validate_incident, validate_job}
use route_analysis_service.Model.Error.{ok}
use route_analysis_service.Store.Defs.{
  Store, incidents_of, incident_at, created_incident, create_incident, replaced, updated_incident,
  update_incident, created_job, create_job, updated_job, update_job,
}
use route_analysis_service.Store.Import.{passed, bound, ok_inj}
use route_analysis_service.Store.Consistency.{
  kept, at_insert, IncidentFits, IncidentsAt, IsConsistent,
}

module _ {F : Type 0} ⦃fl : Float64 F⦄ where
  -- An incident that is stored under its id in the incidents of its dataset.
  stored-IsConsistent :
      (s : Store F) (i : Incident F)
      → contains i.dataset_id s.datasets ≡ true
      → validate_incident i ≡ ok tt
      → IsConsistent s
      → IsConsistent (record s {
        incidents = insert i.dataset_id (insert i.id i (incidents_of s i.dataset_id)) s.incidents;
      })
  stored-IsConsistent s i known valid c =
      let (d, found) = contains-some i.dataset_id s.datasets known in
      record {
        graphs_fit = c.graphs_fit;
        incidents_fit = λ j.
            at_insert (λ o. IncidentsAt j o (lookup j s.datasets)) i.dataset_id j
              (insert i.id i (incidents_of s i.dataset_id)) s.incidents
              (λ same.
                subst
                  (λ k.
                    IncidentsAt k (some (insert i.id i (incidents_of s i.dataset_id)))
                      (lookup k s.datasets))
                  (≡-of_eq i.dataset_id j same)
                  (subst
                    (IncidentsAt i.dataset_id (some (insert i.id i (incidents_of s i.dataset_id))))
                    (sym found)
                    (All-insert (IncidentFits i.dataset_id) i.id i (incidents_of s i.dataset_id)
                      (refl, refl, valid) (old d found))))
              (λ _. c.incidents_fit j);
      }
    where
      old :
          (d : Dataset)
          → lookup i.dataset_id s.datasets ≡ some d
          → All (IncidentFits i.dataset_id) (incidents_of s i.dataset_id)
      old d found = of_lookup (lookup i.dataset_id s.incidents) (
          subst (IncidentsAt i.dataset_id (lookup i.dataset_id s.incidents)) found
            (c.incidents_fit i.dataset_id))
        where
          of_lookup :
              (o : Option (Map (Incident F)))
              → IncidentsAt i.dataset_id o (some d)
              → All (IncidentFits i.dataset_id) (elim o [ none ↦ [] | some m ↦ m ])
          of_lookup none h = tt
          of_lookup (some m) h = h

  pub create_incident-IsConsistent :
      (s : Store F) (i : Incident F) → IsConsistent s → IsConsistent (create_incident s i).0
  unfolding create_incident created_incident validate_incident
  create_incident-IsConsistent s i c = kept IsConsistent s (created_incident s i) c λ t e.
      let (u, valid, r) = bound (validate_incident i) _ t e in
      let (known, r2) = passed (not (contains i.dataset_id s.datasets)) _ _ t r in
      let (fresh, r3) = passed (contains i.id (incidents_of s i.dataset_id)) _ _ t r2 in
      subst IsConsistent (ok_inj r3)
        (stored-IsConsistent s (record i { version = pos 1 }) (ground arith) valid c)

  replaced-IsConsistent :
      (s : Store F) (i : Incident F) (expected : ℤ) (o : Option (Incident F)) (t : Store F)
      → incident_at s i.dataset_id i.id ≡ o
      → replaced s i expected o ≡ ok t
      → validate_incident i ≡ ok tt
      → IsConsistent s
      → IsConsistent t
  unfolding replaced validate_incident lookup
  replaced-IsConsistent s i expected none t found e valid c = cc
  replaced-IsConsistent s i expected (some current) t found e valid c =
      let (same, r) = passed (not (eq_ℤ current.version expected)) _ _ t e in
      subst IsConsistent (ok_inj r) (
        stored-IsConsistent s (record i { version = current.version +64 pos 1 })
          (known (lookup i.dataset_id s.incidents) (lookup i.dataset_id s.datasets) found
            (c.incidents_fit i.dataset_id))
          valid c)
    where
      known :
          (m : Option (Map (Incident F))) (d : Option Dataset)
          → lookup i.id (elim m [ none ↦ [] | some m' ↦ m' ]) ≡ some current
          → IncidentsAt i.dataset_id m d
          → is_some d ≡ true
      known none d q h = cc
      known (some m) none q h = absurd h
      known (some m) (some d) q h = refl

  pub update_incident-IsConsistent :
      (s : Store F) (i : Incident F) (expected : ℤ)
      → IsConsistent s
      → IsConsistent (update_incident s i expected).0
  unfolding update_incident updated_incident
  update_incident-IsConsistent s i expected c =
      kept IsConsistent s (updated_incident s i expected) c λ t e.
        let (u, valid, r) = bound (validate_incident i) _ t e in
        replaced-IsConsistent s i expected (incident_at s i.dataset_id i.id) t refl r valid c

  pub create_job-IsConsistent :
      (s : Store F) (j : AnalysisJob F) → IsConsistent s → IsConsistent (create_job s j).0
  unfolding create_job created_job
  create_job-IsConsistent s j c = kept IsConsistent s (created_job s j) c λ t e.
      let (u, valid, r) = bound (validate_job j) _ t e in
      let (known, r2) = passed (not (contains j.dataset_id s.datasets)) _ _ t r in
      let (fresh, r3) = passed (contains j.id s.jobs) _ _ t r2 in
      subst IsConsistent (ok_inj r3)
        (record { graphs_fit = c.graphs_fit; incidents_fit = c.incidents_fit })

  pub update_job-IsConsistent :
      (s : Store F) (j : AnalysisJob F) → IsConsistent s → IsConsistent (update_job s j).0
  unfolding update_job updated_job
  update_job-IsConsistent s j c = kept IsConsistent s (updated_job s j) c λ t e.
      let (known, r) = passed (not (contains j.id s.jobs)) _ _ t e in
      subst IsConsistent (ok_inj r)
        (record { graphs_fit = c.graphs_fit; incidents_fit = c.incidents_fit })
