-- ===== src/Service/Submission.antt =====
-- The creation of jobs in internal/application/service.go.
use route_analysis_service.Prelude.{
  String, List, [], ◌∷◌, ◌++◌, length, ltb, ltb→lt, ◌<◌, ◌≤◌, true, false, Map, lookup, insert,
  lookup-insert, contains, some, if◌then◌else◌, ◌==◌, Bool-cases, ◌≡◌, refl, inl, inr, arith,
}
use route_analysis_service.Model.Float.{Float64}
use route_analysis_service.Model.Time.{Time}
use route_analysis_service.Model.Types.{AnalysisJob, JobType, Any}
use route_analysis_service.Model.Validation.{validate_job}
use route_analysis_service.Model.Error.{Result, Error, ok, err, message, not_found, conflict}
use route_analysis_service.Store.Defs.{Store, after_call, create_job, created_job}
use route_analysis_service.Service.Jobs.{submit_job, stored, sent, offer, queued_job, channel_room}

offer-room :
    (jobs : List String) (id : String)
    → ltb (length jobs) channel_room ≡ true
    → offer jobs id ≡ (jobs ++ id ∷ [], ok tt)
unfolding offer
offer-room jobs id room = rw (room, offer) refl

offer-full :
    (jobs : List String) (id : String)
    → ltb (length jobs) channel_room ≡ false
    → offer jobs id ≡ (jobs, err (message "analysis queue full"))
unfolding offer
offer-full jobs id full = rw (full, offer) refl

module _ {F : Type 0} ⦃fl : Float64 F⦄ where
  -- Why a store refuses a job.
  pub data Refuses (s : Store F) (job : AnalysisJob F) : Error → Type 0 where
    invalid : (e : Error) → validate_job job ≡ err e → Refuses s job e
    no_dataset : contains job.dataset_id s.datasets ≡ false → Refuses s job not_found
    known : contains job.id s.jobs ≡ true → Refuses s job conflict

  -- The job is new and may be stored in `s`, and `t` is `s` with the job.
  pub record Adds (s t : Store F) (job : AnalysisJob F) : Type 0 where
    pub valid : validate_job job ≡ ok tt
    pub dataset : contains job.dataset_id s.datasets ≡ true
    pub fresh : contains job.id s.jobs ≡ false
    pub jobs :
        (id : String) → lookup id t.jobs ≡ (if job.id == id then some job else lookup id s.jobs)
    pub rest : (t.datasets ≡ s.datasets) × (t.graphs ≡ s.graphs) × (t.incidents ≡ s.incidents)

  data Created (s : Store F) (job : AnalysisJob F) : Result (Store F) → Type 0 where
    refusal : (e : Error) → Refuses s job e → Created s job (err e)
    addition : (t : Store F) → Adds s t job → Created s job (ok t)

  created_job-Created : (s : Store F) (job : AnalysisJob F) → Created s job (created_job s job)
  unfolding created_job
  created_job-Created s job = by_validity (validate_job job) refl
    where
      by_validity :
          (v : Result (Unit {0})) → validate_job job ≡ v → Created s job (created_job s job)
      by_validity (err e) q = rw q (refusal e (invalid e q))
      by_validity (ok _) q = elim (Bool-cases (contains job.dataset_id s.datasets)) [
        | inr missing ↦ rw (q, missing) (refusal not_found (no_dataset missing))
        | inl found ↦ elim (Bool-cases (contains job.id s.jobs)) [
          | inl taken ↦ rw (q, found, taken) (refusal conflict (known taken))
          | inr fresh ↦
              rw (q, found, fresh)
                (addition (record s { jobs = insert job.id job s.jobs })
                  (record {
                    valid = q;
                    dataset = found;
                    fresh = fresh;
                    jobs = λ id. lookup-insert job.id id job s.jobs;
                    rest = (refl, refl, refl);
                  }))
        ]
      ]

  pub data Submitted (s : Store F) (jobs : List String) (job : AnalysisJob F)
      : (Store F × List String) × Result (AnalysisJob F) → Type 0 where
    refused : (e : Error) → Refuses s job e → Submitted s jobs job ((s, jobs), err e)
    accepted :
        (t : Store F)
        → Adds s t job
        → length jobs < channel_room
        → Submitted s jobs job ((t, jobs ++ job.id ∷ []), ok job)
    stranded :
        (t : Store F)
        → Adds s t job
        → channel_room ≤ length jobs
        → Submitted s jobs job ((t, jobs), err (message "analysis queue full"))

  by_store :
      (s : Store F) (jobs : List String) (job : AnalysisJob F) (r : Result (Store F))
      → Created s job r
      → Submitted s jobs job (stored jobs job (after_call s r))
  unfolding stored sent
  by_store s jobs job r (refusal e why) = refused e why
  by_store s jobs job r (addition t adds) = elim (Bool-cases (ltb (length jobs) channel_room)) [
    | inl room ↦
        rw (stored, offer-room jobs job.id room)
          (accepted t adds (ltb→lt (length jobs) channel_room room))
    | inr full ↦ rw (stored, offer-full jobs job.id full) (stranded t adds (ground (arith, full)))
  ]

  -- The three ends of `CreateJob`. If the new job is invalid, its dataset is not stored or its id is, the call fails
  -- with the error for that, and changes neither the store nor the channel. Otherwise a look-up in the
  -- store afterwards finds the job, as queued, under its id, and all else as it was. If the channel holds fewer than 64
  -- jobs, the id then comes last in it and the call returns the job; if not, the channel stays, and
  -- the call fails although the job has been stored.
  pub submit_job-Submitted :
      (s : Store F) (jobs : List String) (fresh : String) (kind : JobType) (dataset : String)
      (parameters : Map (Any F)) (now : Time)
      → Submitted s jobs
          (queued_job fresh kind dataset parameters now)
          (submit_job (s, jobs) fresh kind dataset parameters now)
  unfolding submit_job create_job
  submit_job-Submitted s jobs fresh kind dataset parameters now =
      let job = queued_job fresh kind dataset parameters now in
      by_store s jobs job (created_job s job) (created_job-Created s job)
