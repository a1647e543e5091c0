-- ===== src/Store/Jobs.antt =====
-- The jobs that internal/infrastructure/memory/store.go keeps: a call that does not update a job leaves it
-- as it is.
use route_analysis_service.Prelude.{
  String, List, [], ◌∷◌, false, not, ◌==◌, ℤ, lookup, insert, contains, lookup-insert,
  lookup-insert_self, Option, none, some, All, ◌≡◌, refl, sym, subst, arith, Bool-cases, inl, inr,
  ≡-of_eq,
}
use route_analysis_service.Model.Float.{Float64}
use route_analysis_service.Model.Types.{Dataset, Node, Edge, Incident, AnalysisJob}
use route_analysis_service.Model.Validation.{validate_dataset, validate_incident, validate_job}
use route_analysis_service.Model.Error.{ok}
use route_analysis_service.Store.Defs.{
  Store, after_call, incidents_of, incident_at, created_dataset, create_dataset, load_nodes,
  load_edges, imported, put_graph, created_incident, create_incident, replaced, updated_incident,
  update_incident, created_job, create_job, updated_job, update_job,
}
use route_analysis_service.Store.Import.{passed, bound, ok_inj}
use route_analysis_service.Store.History.{Call, step, calls}
use route_analysis_service.Store.Consistency.{kept}

-- The call is not an update of a job with the id.
abbrev pub IsOther : {F : Type 0} → String → Call F → Type 0
IsOther id (Call.changed_job j) = (j.id == id) ≡ false
IsOther id c = Unit

module _ {F : Type 0} ⦃fl : Float64 F⦄ (id : String) (job : AnalysisJob F) where
  -- The job is stored under the id.
  abbrev Holds : Store F → Type 0
  Holds s = lookup id s.jobs ≡ some job

  create_dataset-Holds : (s : Store F) (d : Dataset) → Holds s → Holds (create_dataset s d).0
  unfolding create_dataset created_dataset
  create_dataset-Holds s d h = kept Holds s (created_dataset s d) h λ t e.
      let (u, valid, r) = bound (validate_dataset d) _ t e in
      let (fresh, r2) = passed (contains d.id s.datasets) _ _ t r in subst Holds (ok_inj r2) h

  imported-Holds :
      (s : Store F) (dataset : String) (nodes : List (Node F)) (edges : List (Edge F))
      (o : Option Dataset) (t : Store F)
      → imported s dataset nodes edges o ≡ ok t
      → Holds s
      → Holds t
  unfolding imported
  imported-Holds s dataset nodes edges none t e h = cc
  imported-Holds s dataset nodes edges (some d) t e h =
      let (ns, loaded, r) = bound (load_nodes dataset [] nodes) _ t e in
      let (es, joined, r2) = bound (load_edges dataset ns [] edges) _ t r in
      subst Holds (ok_inj r2) h

  put_graph-Holds :
      (s : Store F) (dataset : String) (nodes : List (Node F)) (edges : List (Edge F))
      → Holds s
      → Holds (put_graph s dataset nodes edges).0
  unfolding put_graph
  put_graph-Holds s dataset nodes edges h =
      kept Holds s (imported s dataset nodes edges (lookup dataset s.datasets)) h
        λ t e. imported-Holds s dataset nodes edges (lookup dataset s.datasets) t e h

  create_incident-Holds : (s : Store F) (i : Incident F) → Holds s → Holds (create_incident s i).0
  unfolding create_incident created_incident
  create_incident-Holds s i h = kept Holds s (created_incident s i) h λ t e.
      let (u, valid, r) = bound (validate_incident i) _ t e in
      let (known, r2) = passed (not (contains i.dataset_id s.datasets)) _ _ t r in
      let (fresh, r3) = passed (contains i.id (incidents_of s i.dataset_id)) _ _ t r2 in
      subst Holds (ok_inj r3) h

  replaced-Holds :
      (s : Store F) (i : Incident F) (expected : ℤ) (o : Option (Incident F)) (t : Store F)
      → replaced s i expected o ≡ ok t
      → Holds s
      → Holds t
  unfolding replaced
  replaced-Holds s i expected none t e h = cc
  replaced-Holds s i expected (some current) t e h =
      let (same, r) = passed _ _ _ t e in subst Holds (ok_inj r) h

  update_incident-Holds :
      (s : Store F) (i : Incident F) (expected : ℤ)
      → Holds s
      → Holds (update_incident s i expected).0
  unfolding update_incident updated_incident
  update_incident-Holds s i expected h = kept Holds s (updated_incident s i expected) h λ t e.
      let (u, valid, r) = bound (validate_incident i) _ t e in
      replaced-Holds s i expected (incident_at s i.dataset_id i.id) t r h

  -- Where a job is inserted under another id.
  inserted-Holds :
      (s : Store F) (j : AnalysisJob F)
      → (j.id == id) ≡ false
      → Holds s
      → Holds (record s { jobs = insert j.id j s.jobs })
  inserted-Holds s j other h = ground (arith, lookup-insert j.id id j s.jobs, other, h)

  create_job-Holds : (s : Store F) (j : AnalysisJob F) → Holds s → Holds (create_job s j).0
  unfolding create_job created_job
  create_job-Holds s j h = kept Holds s (created_job s j) h λ t e.
      let (u, valid, r) = bound (validate_job j) _ t e in
      let (known, r2) = passed (not (contains j.dataset_id s.datasets)) _ _ t r in
      let (fresh, r3) = passed (contains j.id s.jobs) _ _ t r2 in
      subst Holds (ok_inj r3) (inserted-Holds s j (apart s j fresh h) h)
    where
      apart :
          (s : Store F) (j : AnalysisJob F)
          → contains j.id s.jobs ≡ false
          → Holds s
          → (j.id == id) ≡ false
      apart s j fresh h = elim (Bool-cases (j.id == id)) [
        | inl same ↦
            let missing : contains id s.jobs ≡ false =
              subst (λ k. contains k s.jobs ≡ false) (≡-of_eq j.id id same) fresh in
            ground (arith, missing, h)
        | inr other ↦ other
      ]

  update_job-Holds :
      (s : Store F) (j : AnalysisJob F) → (j.id == id) ≡ false → Holds s → Holds (update_job s j).0
  unfolding update_job updated_job
  update_job-Holds s j other h = kept Holds s (updated_job s j) h λ t e.
      let (known, r) = passed (not (contains j.id s.jobs)) _ _ t e in
      subst Holds (ok_inj r) (inserted-Holds s j other h)

  step-Holds : (s : Store F) (c : Call F) → IsOther id c → Holds s → Holds (step s c)
  unfolding step
  step-Holds s (Call.added_dataset d) o h = create_dataset-Holds s d h
  step-Holds s (Call.imported_graph dataset nodes edges) o h =
      put_graph-Holds s dataset nodes edges h
  step-Holds s (Call.added_incident i) o h = create_incident-Holds s i h
  step-Holds s (Call.changed_incident i expected) o h = update_incident-Holds s i expected h
  step-Holds s (Call.added_job j) o h = create_job-Holds s j h
  step-Holds s (Call.changed_job j) o h = update_job-Holds s j o h

  -- A stored job is left as it is by all calls but its updates: by failing ones, and by the creation of a
  -- job with its id, which is refused.
  pub calls-Holds :
      (s : Store F) (cs : List (Call F))
      → All (IsOther id) cs
      → lookup id s.jobs ≡ some job
      → lookup id (calls s cs).jobs ≡ some job
  unfolding calls
  calls-Holds s [] o h = h
  calls-Holds s (c ∷ cs) o h = calls-Holds (step s c) cs o.1 (step-Holds s c o.0 h)

module _ {F : Type 0} ⦃fl : Float64 F⦄ where
  -- An update of a stored job stores it.
  pub update_job-stored :
      (s : Store F) (old new : AnalysisJob F)
      → lookup new.id s.jobs ≡ some old
      → lookup new.id (update_job s new).0.jobs ≡ some new
  unfolding update_job updated_job
  update_job-stored s old new h =
      subst (λ r. lookup new.id (after_call s r).0.jobs ≡ some new) (sym (accepted s old new h))
        (lookup-insert_self new.id new s.jobs)
    where
      accepted :
          (s : Store F) (old new : AnalysisJob F)
          → lookup new.id s.jobs ≡ some old
          → updated_job s new ≡ ok (record s { jobs = insert new.id new s.jobs })
      accepted s old new h = rw (h, updated_job) refl
