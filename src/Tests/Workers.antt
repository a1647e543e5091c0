-- ===== src/Tests/Workers.antt =====
-- A run of internal/infrastructure/worker/dispatcher.go.
use route_analysis_service.Prelude.{
  occurs, String, List, [], ◌∷◌, true, false, pos, pos_part, ◌+64◌, ◌+ℤ◌, wrap64, none, inl, ◌⊎◌,
  ◌≤◌, ◌<◌, ◌≡◌, refl, arith,
}
use route_analysis_service.Worker.Dispatcher.{
  receiving, holding, calling, answered, reporting, recorded, gone, Dispatch, leave, acquire,
  answer, release, count, again, Step, send, close, move, waiting_workers, start_dispatch, Reach,
  begin, then_step, IsDone, report, new_dispatcher,
}
use route_analysis_service.Worker.Tally.{calls_of, good, first_error}
use route_analysis_service.Worker.Accounts.{Reach-Exact}
use route_analysis_service.Worker.Ends.{Reach-Ends}
use route_analysis_service.Worker.Measure.{steps_left}

abbrev one_input : List String
one_input = "a" ∷ []

-- One worker has called `fn` on the one input, and has left.
abbrev served : Dispatch
served = record {
  rest = [];
  shared = record {
    closed = true;
    cancelled = false;
    slots = 0;
    success = pos 1;
    first_err = none;
    log = ("a", none) ∷ [];
  };
  workers = gone ∷ [];
}

serves : Reach 1 one_input served
unfolding start_dispatch waiting_workers report ◌+64◌ ◌+ℤ◌ wrap64
serves =
    then_step
      (then_step
        (then_step
          (then_step
            (then_step
              (then_step
                (then_step (then_step begin (send "a" [] [] [] refl refl refl))
                  (move [] [] (holding "a") (calling "a") _ refl (acquire (omega arith))))
                (move [] [] (calling "a") (answered "a" none) _ refl (answer none)))
              (move [] [] (answered "a" none) (reporting "a" none) _ refl release))
            (move [] [] (reporting "a" none) recorded _ refl count))
          (move [] [] recorded receiving _ refl (again refl)))
        (close refl (inl refl)))
      (move [] [] receiving gone _ refl (leave refl))

Reach-Exact_example :
    (served.shared.success ≡ pos (good served.shared.log))
    × (served.shared.first_err ≡ first_error served.shared.log)
    × ((x : String)
        → (calls_of x served.shared.log ≤ occurs x one_input)
          × (served.shared.cancelled ≡ false → calls_of x served.shared.log ≡ occurs x one_input))
Reach-Exact_example = Reach-Exact 1 one_input (omega arith) serves (refl, (refl, tt))

-- `NewDispatcher(0)` has one worker.
Reach-Ends_example :
    (IsDone served ⊎ ((t : Dispatch) × Step (pos_part (new_dispatcher (pos 0))) served t))
    × ((t : Dispatch)
        → Step (pos_part (new_dispatcher (pos 0))) served t
        → steps_left t < steps_left served)
unfolding new_dispatcher
Reach-Ends_example = Reach-Ends (pos 0) one_input (omega arith) serves
