-- ===== src/Tests/Runs.antt =====
-- Jobs of internal/application/service.go, created and run.
use route_analysis_service.Prelude.{
  String, List, suc, zero, ℕ, [], ◌∷◌, pos, lookup, insert, some, ◌≡◌, refl, arith, false, any,
  wrap64, ◌+64◌, ◌+ℤ◌,
}
use route_analysis_service.Model.Float.{small_float, small_float-IsFinite, small_float-IsOrdered}
use route_analysis_service.Model.Types.{AnalysisJob, JobType}
use route_analysis_service.Model.Error.{ok, err, message}
use route_analysis_service.Store.Defs.{
  get_job, Store, new_store, create_dataset, put_graph, create_job, created_job, imported,
  created_dataset, load_node, load_nodes, load_edge, load_edges, next_version, graph, update_job,
  updated_job,
}
use route_analysis_service.Store.History.{calls}
use route_analysis_service.Model.Validation.{
  validate_job, job_type_known, validate_dataset, is_blank, validate_node, point_valid,
  validate_edge, mode_valid,
}
use route_analysis_service.Service.Jobs.{
  stored, sent, offer, Run, run_job, save, started, submit_job, queued_job,
}
use route_analysis_service.Service.Submission.{Submitted, submit_job-Submitted}
use route_analysis_service.Service.Completion.{Ended, graph_read, run_job-Ended}
use route_analysis_service.Tests.Fixtures.{sorting, queueing, city, nodes, edges, job}

abbrev stocked : Store ℕ
stocked = (put_graph (create_dataset new_store city).0 "city" nodes edges).0

abbrev waiting : Store ℕ
waiting = (create_job stocked (job "j")).0

abbrev alone : Run ℕ
alone = record {
  started_at = pos 10;
  completed_at = pos 20;
  reads = record { now = λ n. pos 12; expired = λ n. false };
  between = λ n. [];
}

submit_job-Submitted_example :
    Submitted stocked
      ("i" ∷ [])
      (queued_job "j" JobType.centrality "city" [] (pos 4))
      (submit_job (stocked, "i" ∷ []) "j" JobType.centrality "city" [] (pos 4))
submit_job-Submitted_example =
    submit_job-Submitted stocked ("i" ∷ []) "j" JobType.centrality "city" [] (pos 4)

unfoldable full_channel : ℕ → List String
full_channel zero = []
full_channel (suc n) = "i" ∷ full_channel n

-- With 64 jobs in the channel the call fails, and the job can be found.
strands :
    let ((t, jobs), r) =
      submit_job (stocked, full_channel 64) "j" JobType.centrality "city" [] (pos 4) in
    (r ≡ err (message "analysis queue full"))
    × (get_job t "j" ≡ ok (queued_job "j" JobType.centrality "city" [] (pos 4)))
unfolding full_channel submit_job stored sent offer get_job lookup create_job created_job
    validate_job job_type_known put_graph imported create_dataset created_dataset validate_dataset
    is_blank new_store insert load_node load_nodes validate_node point_valid load_edge load_edges
    validate_edge any mode_valid wrap64 ◌+64◌ ◌+ℤ◌ next_version queued_job
strands = (refl, refl)

run_job-Ended_example :
    (t : Store ℕ) × (j : AnalysisJob ℕ) × (run_job 9000 alone waiting "j" ≡ some t)
    × (lookup "j" t.jobs ≡ some j)
    × Ended alone (job "j") j
unfolding lookup create_job created_job validate_job job_type_known put_graph imported
    create_dataset created_dataset validate_dataset is_blank new_store insert load_node load_nodes
    validate_node point_valid load_edge load_edges validate_edge any mode_valid wrap64 ◌+64◌ ◌+ℤ◌
    next_version graph calls save started update_job updated_job graph_read
run_job-Ended_example =
    run_job-Ended small_float-IsFinite small_float-IsOrdered 9000 alone (job "j") (λ n. tt) waiting
      refl (omega arith)
