-- ===== src/Tests/Pools.antt =====
-- A run of internal/infrastructure/worker/pool.go.
use route_analysis_service.Prelude.{
  true, ◌⊎◌, ◌≤◌, String, [], ◌∷◌, length, total, occurs, pos, ◌≡◌, refl, arith,
}
use route_analysis_service.Worker.Pool.{
  looking, sending, accepted, panicked, idle, running, ended, uncalled, is_queue_closed, joining,
  returned, Pool, new_pool, idle_workers, start_pool, go_on, enqueue, panic, receive, finish, end,
  refuse, close_queue, join, Step, submit, caller, worker, closer, Reach, begin, then_step,
}
use route_analysis_service.Worker.Joining.{steps_left, Advances, Close-Advances}
use route_analysis_service.Worker.Accepted.{Reach-Accepted}
use route_analysis_service.Worker.Crew.{takes_on, found}

-- Of two calls of `Submit` that have seen an open pool, one has its task accepted, and the other sends on the
-- queue after `Close` has closed it.
abbrev closed_pool : Pool
closed_pool = record {
  channels = record { queue = []; close = returned; finished = "a" ∷ [] };
  callers = panicked "b" ∷ accepted "a" ∷ [];
  workers = ended ∷ [];
}

abbrev closing_pool : Pool
closing_pool = record {
  channels = record { queue = "a" ∷ []; close = joining; finished = [] };
  callers = panicked "b" ∷ accepted "a" ∷ [];
  workers = idle ∷ [];
}

panics : Reach 1 1 closing_pool
unfolding start_pool idle_workers
panics =
    then_step
      (then_step
        (then_step
          (then_step
            (then_step
              (then_step (then_step (then_step begin (submit "a")) (submit "b"))
                (caller [] (looking "a" ∷ []) (looking "b") (sending "b") _ refl (go_on refl)))
              (caller (sending "b" ∷ []) [] (looking "a") (sending "a") _ refl (go_on refl)))
            (caller (sending "b" ∷ []) [] (sending "a") (accepted "a") _ refl
              (enqueue refl (omega arith))))
          (closer _ (refuse refl)))
        (closer _ (close_queue refl)))
      (caller [] (accepted "a" ∷ []) (sending "b") (panicked "b") _ refl (panic refl))

closes : Reach 1 1 closed_pool
closes =
    then_step
      (then_step
        (then_step (then_step panics (worker [] [] idle (running "a") _ refl (receive "a" [] refl)))
          (worker [] [] (running "a") idle _ refl finish))
        (worker [] [] idle ended _ refl (end refl refl)))
      (closer _ (join refl (refl, tt)))

Reach-Accepted_example :
    (length closed_pool.channels.queue ≤ 1)
    × ((x : String) → total (takes_on x) closed_pool.callers ≡ found x closed_pool)
    × (closed_pool.channels.close ≡ returned
        → (closed_pool.channels.queue ≡ [])
          × ((x : String)
              → total (takes_on x) closed_pool.callers ≡ occurs x closed_pool.channels.finished))
unfolding new_pool
Reach-Accepted_example = Reach-Accepted (pos 1) (pos 0) closes

Close-Advances_example :
    ((t : Pool)
      → is_queue_closed closing_pool.channels.close ≡ true
      → Step 1 closing_pool t
      → steps_left t ≤ steps_left closing_pool)
    × ((closing_pool.channels.close ≡ uncalled)
        ⊎ (closing_pool.channels.close ≡ returned)
        ⊎ Advances 1 closing_pool)
Close-Advances_example = Close-Advances 1 closing_pool
