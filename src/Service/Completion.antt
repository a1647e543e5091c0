-- ===== src/Service/Completion.antt =====
-- The end of a job that the worker of internal/application/service.go runs.
use route_analysis_service.Prelude.{
  ℕ, ◌+◌, ◌*◌, ◌≤◌, String, List, ℤ, length, true, pos, Map, lookup, is_some, Option, none, some,
  SortSlice, Heap, All, ◌≡◌, refl, sym, subst, ◌⊎◌, inl, inr,
}
use route_analysis_service.Model.Float.{Float64, IsFinite, IsOrdered}
use route_analysis_service.Model.Types.{Node, Edge, AnalysisJob, JobStatus, Any}
use route_analysis_service.Model.Error.{Result, Error, ok, err, ◌>>=◌}
use route_analysis_service.Routing.Snapshot.{Snapshot, new_snapshot}
use route_analysis_service.Routing.Size.{targets-new_snapshot}
use route_analysis_service.Store.Defs.{Store, graph, list_incidents, get_job}
use route_analysis_service.Store.Import.{ok_inj}
use route_analysis_service.Store.History.{calls}
use route_analysis_service.Store.Jobs.{IsOther, calls-Holds, update_job-stored}
use route_analysis_service.Service.Parameters.{error_text}
use route_analysis_service.Service.Analysis.{snapshot, analyze}
use route_analysis_service.Service.Returns.{Returns, analyze-Returns}
use route_analysis_service.Service.Jobs.{
  Run, terminal_status, started, with_result, completed_job, save, conclude, examine, run_found,
  run_job,
}

-- What a run makes of a job: it was started and completed, and has succeeded with a result or failed
-- with the text of an error.
pub record Ended {F : Type 0} (run : Run F) (before after : AnalysisJob F) : Type 0 where
  pub same_id : after.id ≡ before.id
  pub same_dataset : after.dataset_id ≡ before.dataset_id
  pub same_parameters : after.parameters ≡ before.parameters
  pub started : after.started_at ≡ some run.started_at
  pub completed : after.completed_at ≡ some run.completed_at
  pub terminal : terminal_status after.status ≡ true
  pub outcome :
      (after.status ≡ JobStatus.succeeded)
        × (after.progress ≡ pos 100)
        × (is_some after.result ≡ true)
        × (after.error ≡ before.error)
      ⊎ (after.status ≡ JobStatus.failed) × (e : Error) × (after.error ≡ error_text e)

module _ {F : Type 0} ⦃fl : Float64 F⦄ where
  -- A stored job is replaced, whatever other jobs and data the other calls change.
  save-Holds :
      (run : Run F) (n : ℕ) (s : Store F) (old new : AnalysisJob F)
      → All (IsOther new.id) (run.between n)
      → lookup new.id s.jobs ≡ some old
      → lookup new.id (save run n s new).jobs ≡ some new
  unfolding save
  save-Holds run n s old new others h =
      update_job-stored (calls s (run.between n)) old new
        (calls-Holds new.id old s (run.between n) others h)

  get_job-ok :
      (s : Store F) (job : AnalysisJob F) (id : String)
      → lookup id s.jobs ≡ some job
      → get_job s id ≡ ok job
  unfolding get_job
  get_job-ok s job id h = rw (h, get_job) refl

  module _ ⦃slice : SortSlice⦄ ⦃heap : Heap⦄ (fin : IsFinite fl) (ordered : IsOrdered fl)
      (fuel : ℕ) where
    -- Enough fuel for the analyses of the graph that is stored for the dataset.
    abbrev pub IsEnoughFor : Result (List (Node F) × List (Edge F) × ℤ) → Type 0
    IsEnoughFor (err e) = Unit
    IsEnoughFor (ok (nodes, edges, version)) = 2 + 2 * (fin.bound * length edges) ≤ fuel

    abbrev pub IsEnough : Store F → String → Type 0
    IsEnough s dataset = IsEnoughFor (graph s dataset)

    -- The analysis of a snapshot that is read returns.
    snapshot-analyze :
        (s t : Store F) (dataset : String) (run : Run F) (job : AnalysisJob F) (view : Snapshot F)
        → IsEnough s dataset
        → snapshot s t dataset ≡ ok view
        → Returns (analyze fuel view run.reads job)
    unfolding snapshot
    snapshot-analyze s t dataset run job view enough read = of_graph (graph s dataset) enough read
      where
        of_graph :
            (g : Result (List (Node F) × List (Edge F) × ℤ))
            → IsEnoughFor g
            → (g >>= λ (nodes, edges, version).
                ok (new_snapshot nodes edges (list_incidents t dataset) version))
              ≡ ok view
            → Returns (analyze fuel view run.reads job)
        of_graph (err e) h q = cc
        of_graph (ok (nodes, edges, version)) h q =
            subst (λ v. Returns (analyze fuel v run.reads job)) (ok_inj q)
              (analyze-Returns fin ordered _ fuel
                (subst (λ n. 2 + 2 * (fin.bound * n) ≤ fuel)
                  (sym (targets-new_snapshot nodes edges (list_incidents t dataset) version)) h)
                run.reads job)

    -- The stored job after the run.
    abbrev Ends : Run F → AnalysisJob F → Option (Store F) → Type 0
    Ends run job o =
        (t : Store F) × (j : AnalysisJob F) × (o ≡ some t)
        × (lookup job.id t.jobs ≡ some j)
        × Ended run job j

    module _ (run : Run F) (job : AnalysisJob F)
        (others : (n : ℕ) → All (IsOther job.id) (run.between n)) where
      -- The job while it is analysed.
      abbrev running : AnalysisJob F
      unfolding started
      running = record (started job run.started_at) { progress = pos 35 }

      conclude-Ends :
          (s : Store F) (r : Result (Map (Any F)))
          → lookup job.id s.jobs ≡ some running
          → Ends run job (conclude run s running (some r))
      unfolding conclude started with_result completed_job terminal_status
      conclude-Ends s (ok m) h =
          let analyzed = with_result running (ok m) in
          let final = completed_job analyzed run.completed_at none in
          (
            _,
            final,
            refl,
            save-Holds run 6 _ analyzed final (others 6)
                (save-Holds run 5 s running analyzed (others 5) h),
            record {
              same_id = refl;
              same_dataset = refl;
              same_parameters = refl;
              started = refl;
              completed = refl;
              terminal = refl;
              outcome = inl (refl, refl, refl, refl);
            },
          )
      conclude-Ends s (err e) h =
          let analyzed = with_result running (err e) in
          let final = completed_job analyzed run.completed_at (some e) in
          (
            _,
            final,
            refl,
            save-Holds run 6 _ analyzed final (others 6)
                (save-Holds run 5 s running analyzed (others 5) h),
            record {
              same_id = refl;
              same_dataset = refl;
              same_parameters = refl;
              started = refl;
              completed = refl;
              terminal = refl;
              outcome = inr (refl, e, refl);
            },
          )

      examine-Ends :
          (s listed : Store F)
          → IsEnough s job.dataset_id
          → lookup job.id listed.jobs ≡ some (started job run.started_at)
          → Ends run job (
              examine fuel run listed
                (started job run.started_at)
                (snapshot s listed job.dataset_id))
      unfolding examine started completed_job terminal_status
      examine-Ends s listed enough h = with_view (snapshot s listed job.dataset_id) refl
        where
          with_view :
              (v : Result (Snapshot F))
              → snapshot s listed job.dataset_id ≡ v
              → Ends run job (examine fuel run listed (started job run.started_at) v)
          with_view (err e) q =
              let final = completed_job (started job run.started_at) run.completed_at (some e) in
              (
                _,
                final,
                refl,
                save-Holds run 6 listed (started job run.started_at) final (others 6) h,
                record {
                  same_id = refl;
                  same_dataset = refl;
                  same_parameters = refl;
                  started = refl;
                  completed = refl;
                  terminal = refl;
                  outcome = inr (refl, e, refl);
                },
              )
          with_view (ok view) q =
              let (r, returns) =
                snapshot-analyze s listed job.dataset_id run running view enough q in
              rw returns (
                conclude-Ends (save run 4 listed running) r
                  (save-Holds run 4 listed (started job run.started_at) running (others 4) h))

      -- The store when the run reads the graph.
      unfoldable pub graph_read : Store F → Store F
      unfolding save started
      graph_read s =
          calls (save run 1 (calls s (run.between 0)) (started job run.started_at)) (run.between 2)

      -- The worker ends every job that it runs. For ordered floats of which there are finitely many, a stored
      -- job, any calls of other goroutines that do not update it, and fuel that is enough for the graph
      -- of its dataset, if there is one when the run reads it: the run returns, and leaves under the
      -- job's id the job in a terminal status, with the times of its start and its end, succeeded with a
      -- result and no new error at a progress of 100, or failed with the text of an error.
      pub run_job-Ended :
          (s : Store F)
          → lookup job.id s.jobs ≡ some job
          → IsEnough (graph_read s) job.dataset_id
          → (t : Store F) × (j : AnalysisJob F) × (run_job fuel run s job.id ≡ some t)
            × (lookup job.id t.jobs ≡ some j)
            × Ended run job j
      unfolding run_job run_found get_job started graph_read
      run_job-Ended s stored enough =
          let found = calls-Holds job.id job s (run.between 0) (others 0) stored in
          let saved =
            save-Holds run 1 (calls s (run.between 0)) job (started job run.started_at) (others 1)
              found in
          let read =
            calls-Holds job.id (started job run.started_at)
              (save run 1 (calls s (run.between 0)) (started job run.started_at)) (run.between 2)
              (others 2) saved in
          rw (run_job, get_job-ok (calls s (run.between 0)) job job.id found)
            (examine-Ends (graph_read s) (calls (graph_read s) (run.between 3)) enough (
              calls-Holds job.id (started job run.started_at) (graph_read s) (run.between 3)
                (others 3) read))
