-- ===== src/Tests/Jobs.antt =====
-- Calls on the queue of internal/domain/job/queue.go.
use route_analysis_service.Prelude.{ℕ, String, List, [], ◌∷◌, ℤ, pos}
use route_analysis_service.Job.Queue.{Envelope, new_queue, pop}
use route_analysis_service.Job.Validity.{
  Op, run_ops, IsValid, FirstOut, run_ops-IsValid, pop-FirstOut,
}
use route_analysis_service.Tests.Fixtures.{job}

abbrev envelope : String → ℤ → Envelope ℕ
envelope id priority = record { job = job id; priority = priority; enqueued_at = pos 1 }

abbrev history : List (Op ℕ)
history =
    Op.pushed (envelope "low" (pos 0))
    ∷ Op.pushed (envelope "high" (pos 2))
    ∷ Op.pushed (envelope "low" (pos 2))
    ∷ Op.popped
    ∷ Op.pushed (envelope "next" (pos 1))
    ∷ []

run_ops-IsValid_example : IsValid (run_ops (new_queue (pos 3)) history)
run_ops-IsValid_example = run_ops-IsValid (pos 3) history

pop-FirstOut_example :
    FirstOut (run_ops (new_queue (pos 3)) history) (pop (run_ops (new_queue (pos 3)) history))
pop-FirstOut_example =
    pop-FirstOut (run_ops (new_queue (pos 3)) history) (run_ops-IsValid (pos 3) history)
