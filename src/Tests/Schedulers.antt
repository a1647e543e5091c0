-- ===== src/Tests/Schedulers.antt =====
-- A run of internal/domain/job/scheduler.go.
use route_analysis_service.Prelude.{
  ℕ, String, [], ◌∷◌, length, true, false, pos, pos_part, occurs, total, insert, lookup, delete,
  stable_sort, insert_stable, ◌≡◌, ◌≤◌, refl, arith,
}
use route_analysis_service.Job.Queue.{
  Envelope, Queue, new_queue, push, pop, contains, len, envelope_first,
}
use route_analysis_service.Job.Scheduler.{
  draining, Scheduler, new_scheduler, start_run, take, abandon, cancel, Reach, begin, then_step,
}
use route_analysis_service.Job.Places.{ids, is_active, places}
use route_analysis_service.Job.Scheduled.{Reach-Placed}
use route_analysis_service.Tests.Fixtures.{job}

abbrev envelope : Envelope ℕ
envelope = record { job = job "j"; priority = pos 0; enqueued_at = pos 1 }

abbrev pushed : Queue ℕ
pushed = (push (new_queue (pos 4)) envelope).0

-- The one job is taken from the queue, and dropped when the context is cancelled.
abbrev drained : Scheduler ℕ
drained = record {
  queue = record { items = []; seen = []; limit = pos 4 };
  main = draining;
  slots = 0;
  active = pos 0;
  cancelled = true;
  started = [];
  finished = [];
  dropped = "j" ∷ [];
}

drains : Reach 1 pushed drained
unfolding start_run new_queue push pop contains len lookup insert delete stable_sort insert_stable
    envelope_first
drains =
    then_step (then_step (then_step begin (take envelope _ refl refl)) cancel)
      (abandon envelope refl refl)

-- `NewScheduler(queue, 0, process)` has one worker.
Reach-Placed_example :
    (drained.active ≡ pos (total is_active drained.started))
    × (total is_active drained.started ≤ pos_part (new_scheduler (pos 0)))
    × ((x : String) → occurs x (ids pushed.items) ≡ places x drained)
    × (length drained.dropped ≤ 1)
    × (drained.cancelled ≡ false → drained.dropped ≡ [])
unfolding new_scheduler
Reach-Placed_example = Reach-Placed (pos 0) pushed (omega arith, omega arith) drains
