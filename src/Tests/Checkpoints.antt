-- ===== src/Tests/Checkpoints.antt =====
-- Checkpoints of internal/domain/job/checkpoint.go.
use route_analysis_service.Prelude.{ℕ, map, pos, pos_part, ◌≡◌, refl}
use route_analysis_service.Model.Float.{small_float}
use route_analysis_service.Model.Types.{Any}
use route_analysis_service.Job.Checkpoint.{
  Checkpoint, persist_checkpoint, restore, restore-persist_checkpoint,
}

-- What JSON gives back of a value.
abbrev through_json : Any ℕ → Any ℕ
through_json (Any.int n) = Any.float (pos_part n)
through_json (Any.time at) = Any.text "2026-01-02T15:04:05Z"
through_json v = v

abbrev halfway : Checkpoint
halfway = record {
  job_id = "j";
  last_origin = "a";
  last_dest = "c";
  completed = pos 4;
  updated_at = pos 30;
}

restore-persist_checkpoint_example :
    (restore "j" (map (λ x. (x.0, through_json x.1)) (persist_checkpoint halfway)) (pos 50)
      ≡ record halfway { updated_at = pos 50 })
    × (restore ⦃fl = small_float⦄ "j" (persist_checkpoint halfway) (pos 50)
        ≡ record halfway { completed = pos 0; updated_at = pos 50 })
restore-persist_checkpoint_example =
    restore-persist_checkpoint through_json (λ t. refl) (λ n. refl) halfway (pos 50) refl
