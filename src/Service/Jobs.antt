-- ===== src/Service/Jobs.antt =====
-- internal/application/service.go: jobs, from their creation to the end of their run by the worker.
-- Between two steps of a run other goroutines may call the store: their calls are arguments.
use route_analysis_service.Prelude.{
  ℕ, String, List, [], ◌∷◌, ◌++◌, length, Bool, true, false, pos, ltb, Map, Option, none, some,
  SortSlice, Heap,
}
use route_analysis_service.Model.Float.{Float64}
use route_analysis_service.Model.Time.{Time}
use route_analysis_service.Model.Types.{AnalysisJob, JobType, JobStatus, Any}
use route_analysis_service.Model.Error.{Result, Error, ok, err, message}
use route_analysis_service.Routing.Snapshot.{Snapshot}
use route_analysis_service.Store.Defs.{Store, create_job, get_job, update_job}
use route_analysis_service.Store.History.{Call, calls}
use route_analysis_service.Service.Parameters.{error_text}
use route_analysis_service.Service.Analysis.{Reads, snapshot, analyze}

-- internal/domain/job/result.go: `TerminalStatus`.
unfoldable pub terminal_status : JobStatus → Bool
terminal_status JobStatus.succeeded = true
terminal_status JobStatus.failed = true
terminal_status JobStatus.cancelled = true
terminal_status _ = false

-- The room of the channel that the worker reads.
abbrev pub channel_room : ℕ
channel_room = 64

-- The send to the channel, which does not wait for room.
unfoldable pub offer : List String → String → List String × Result (Unit {0})
offer jobs id = elim (ltb (length jobs) channel_room) [
  | true ↦ (jobs ++ id ∷ [], ok tt)
  | false ↦ (jobs, err (message "analysis queue full"))
]

abbrev pub error_of : {A : Type 0} → Result A → Option Error
error_of (ok a) = none
error_of (err e) = some e

module _ {F : Type 0} where
  -- The job that `CreateJob` makes, with a fresh id.
  unfoldable pub queued_job : String → JobType → String → Map (Any F) → Time → AnalysisJob F
  queued_job fresh kind dataset parameters now = record {
    id = fresh;
    job_type = kind;
    dataset_id = dataset;
    status = JobStatus.queued;
    progress = pos 0;
    parameters = parameters;
    result = none;
    error = "";
    created_at = now;
    started_at = none;
    completed_at = none;
    checkpoint = pos 0;
  }

  unfoldable pub started : AnalysisJob F → Time → AnalysisJob F
  started job now = record job {
    status = JobStatus.running;
    started_at = some now;
    progress = pos 5;
  }

  -- The result of an analysis is nil with an error.
  unfoldable pub with_result : AnalysisJob F → Result (Map (Any F)) → AnalysisJob F
  with_result job (ok m) = record job { result = some m; progress = pos 90 }
  with_result job (err e) = record job { result = none; progress = pos 90 }

  unfoldable pub completed_job : AnalysisJob F → Time → Option Error → AnalysisJob F
  unfolding error_text
  completed_job job now (some e) = record job {
    completed_at = some now;
    status = JobStatus.failed;
    error = error_text e;
  }
  completed_job job now none = record job {
    completed_at = some now;
    status = JobStatus.succeeded;
    progress = pos 100;
  }

-- What a run of a job meets: the time of its start and of its end, what its analysis reads, and the
-- calls on the store that come before its n-th.
pub record Run (F : Type 0) : Type 0 where
  pub started_at : Time
  pub completed_at : Time
  pub reads : Reads
  pub between : ℕ → List (Call F)

module _ {F : Type 0} ⦃fl : Float64 F⦄ where
  -- After the store has been asked, and after the channel has been.
  unfoldable pub sent :
      Store F
      → AnalysisJob F
      → List String × Result (Unit {0})
      → (Store F × List String) × Result (AnalysisJob F)
  sent s job (jobs, ok _) = ((s, jobs), ok job)
  sent s job (jobs, err e) = ((s, jobs), err e)

  unfoldable pub stored :
      List String
      → AnalysisJob F
      → Store F × Result (Unit {0})
      → (Store F × List String) × Result (AnalysisJob F)
  stored jobs job (s, err e) = ((s, jobs), err e)
  stored jobs job (s, ok _) = sent s job (offer jobs job.id)

  -- `CreateJob`, on the store and the channel. A job for which there is no room stays in the store.
  unfoldable pub submit_job :
      Store F × List String
      → String
      → JobType
      → String
      → Map (Any F)
      → Time
      → (Store F × List String) × Result (AnalysisJob F)
  submit_job (s, jobs) fresh kind dataset parameters now =
      let job = queued_job fresh kind dataset parameters now in stored jobs job (create_job s job)

  -- `UpdateJob`, whose result the worker does not read, after the calls that come before it.
  unfoldable pub save : Run F → ℕ → Store F → AnalysisJob F → Store F
  save run n s job = (update_job (calls s (run.between n)) job).0

  module _ ⦃slice : SortSlice⦄ ⦃heap : Heap⦄ where
    -- After the analysis.
    unfoldable pub conclude :
        Run F → Store F → AnalysisJob F → Option (Result (Map (Any F))) → Option (Store F)
    unfolding save with_result completed_job
    conclude run s job none = none
    conclude run s job (some r) =
        let analyzed = with_result job r in
        let t = save run 5 s analyzed in
        some (save run 6 t (completed_job analyzed run.completed_at (error_of r)))

    -- With the snapshot that was read.
    unfoldable pub examine :
        ℕ → Run F → Store F → AnalysisJob F → Result (Snapshot F) → Option (Store F)
    unfolding save completed_job
    examine fuel run s job (err e) =
        some (save run 6 s (completed_job job run.completed_at (some e)))
    examine fuel run s job (ok view) =
        let job' = record job { progress = pos 35 } in
        let t = save run 4 s job' in conclude run t job' (analyze fuel view run.reads job')

    -- `runJob`, with the job that was found.
    unfoldable pub run_found : ℕ → Run F → Store F → Result (AnalysisJob F) → Option (Store F)
    unfolding save started
    run_found fuel run s (err e) = some s
    run_found fuel run s (ok job) =
        let job' = started job run.started_at in
        let t = save run 1 s job' in
        let read = calls t (run.between 2) in
        let listed = calls read (run.between 3) in
        examine fuel run listed job' (snapshot read listed job.dataset_id)

    unfoldable pub run_job : ℕ → Run F → Store F → String → Option (Store F)
    run_job fuel run s id = let t = calls s (run.between 0) in run_found fuel run t (get_job t id)
