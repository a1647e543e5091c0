-- ===== src/Worker/Accepted.antt =====
-- What becomes of the tasks that internal/infrastructure/worker/pool.go accepts.
use route_analysis_service.Prelude.{
  ℕ, ◌≤◌, String, List, [], ◌∷◌, ◌++◌, length, length-append, pos_part, ℤ, total, total-replace,
  occurs, occurs-append, ◌≡◌, refl, ap, arith,
}
use route_analysis_service.Worker.Pool.{
  Submitting, Working, Closing, returned, Channels, Pool, new_pool, SubmitStep, go_on, turn_away,
  enqueue, give_up, panic, WorkStep, receive, finish, end, CloseStep, refuse, close_queue, join,
  Step, submit, caller, worker, closer, Reach, begin, then_step,
}
use route_analysis_service.Worker.Crew.{
  takes_on, runs, has_ended, is_working, found, IsOrderly, total-AllEnded, runs-le-working,
  start_pool-IsOrderly,
}

module _ (n size : ℕ) where
  module _ (before after : List Submitting) where
    -- The caller accepts nothing, and the channels stay.
    quiet-IsOrderly :
        (c c' : Submitting) (s : Pool)
        → s.callers ≡ before ++ c ∷ after
        → ((x : String) → takes_on x c' ≡ takes_on x c)
        → IsOrderly n size s
        → IsOrderly n size (record s { callers = before ++ c' ∷ after })
    quiet-IsOrderly c c' s at same o = record {
      placed = λ x.
          omega
            (arith, o.placed x, total-replace (takes_on x) s.callers before after c c' at, same x);
      room = o.room;
      crew = o.crew;
      emptied = o.emptied;
      joined = o.joined;
    }

    caller-IsOrderly :
        (c c' : Submitting) (s : Pool) (m : Channels)
        → s.callers ≡ before ++ c ∷ after
        → SubmitStep size s.channels c m c'
        → IsOrderly n size s
        → IsOrderly n size (record s { channels = m; callers = before ++ c' ∷ after })
    unfolding occurs
    caller-IsOrderly c c' s m at (enqueue {t} open_still free) o = record {
      placed = λ x. omega (
        arith,
        o.placed x,
        total-replace (takes_on x) s.callers before after c c' at,
        occurs-append x s.channels.queue (t ∷ []),
      );
      room = omega (arith, length-append s.channels.queue (t ∷ []));
      crew = o.crew;
      emptied = λ h. let shut = (o.emptied h).1 in cc;
      joined = o.joined;
    }
    caller-IsOrderly c c' s m at (go_on {t} _) o = quiet-IsOrderly c c' s at (λ x. refl) o
    caller-IsOrderly c c' s m at (turn_away {t} _) o = quiet-IsOrderly c c' s at (λ x. refl) o
    caller-IsOrderly c c' s m at (give_up {t} _) o = quiet-IsOrderly c c' s at (λ x. refl) o
    caller-IsOrderly c c' s m at (panic {t} _) o = quiet-IsOrderly c c' s at (λ x. refl) o

  module _ (before after : List Working) where
    worker-IsOrderly :
        (w w' : Working) (s : Pool) (m : Channels)
        → s.workers ≡ before ++ w ∷ after
        → WorkStep s.channels w m w'
        → IsOrderly n size s
        → IsOrderly n size (record s { channels = m; workers = before ++ w' ∷ after })
    unfolding occurs
    worker-IsOrderly w w' s m at (receive task rest first) o =
        let ends = total-replace has_ended s.workers before after w w' at in
        let works = total-replace is_working s.workers before after w w' at in
        record {
          placed = λ x. omega (
            arith,
            o.placed x,
            ap (occurs x) first,
            total-replace (runs x) s.workers before after w w' at,
          );
          room = omega (arith, o.room, ap length first);
          crew = omega (arith, o.crew);
          emptied = λ h. let none_left = (o.emptied (omega (arith, h))).0 in cc;
          joined = λ e. omega (arith, o.joined e);
        }
    worker-IsOrderly w w' s m at finish o =
        let ends = total-replace has_ended s.workers before after w w' at in
        let works = total-replace is_working s.workers before after w w' at in
        record {
          placed =
              λ x. omega (arith, o.placed x, total-replace (runs x) s.workers before after w w' at);
          room = o.room;
          crew = omega (arith, o.crew);
          emptied = λ h. o.emptied (omega (arith, h));
          joined = λ e. omega (arith, o.joined e);
        }
    worker-IsOrderly w w' s m at (end none_left shut) o =
        let ends = total-replace has_ended s.workers before after w w' at in
        let works = total-replace is_working s.workers before after w w' at in
        record {
          placed =
              λ x. omega (arith, o.placed x, total-replace (runs x) s.workers before after w w' at);
          room = o.room;
          crew = omega (arith, o.crew);
          emptied = λ _. (none_left, shut);
          joined = λ e. omega (arith, o.joined e);
        }

  closer-IsOrderly :
      (s : Pool) (c : Closing)
      → CloseStep s.workers s.channels.close c
      → IsOrderly n size s
      → IsOrderly n size (record s { channels = record s.channels { close = c } })
  closer-IsOrderly s c (refuse at) o = record {
    placed = o.placed;
    room = o.room;
    crew = o.crew;
    emptied = λ h. let shut = (o.emptied h).1 in cc;
    joined = λ e. cc;
  }
  closer-IsOrderly s c (close_queue at) o = record {
    placed = o.placed;
    room = o.room;
    crew = o.crew;
    emptied = λ h. ((o.emptied h).0, refl);
    joined = λ e. cc;
  }
  closer-IsOrderly s c (join at all_ended) o = record {
    placed = o.placed;
    room = o.room;
    crew = o.crew;
    emptied = λ h. ((o.emptied h).0, refl);
    joined = λ _. total-AllEnded is_working s.workers refl all_ended;
  }

  step-IsOrderly : {s t : Pool} → Step size s t → IsOrderly n size s → IsOrderly n size t
  unfolding total
  step-IsOrderly (submit task) o = record {
    placed = λ x. omega (arith, o.placed x);
    room = o.room;
    crew = o.crew;
    emptied = o.emptied;
    joined = o.joined;
  }
  step-IsOrderly {s} (caller before after c c' m at st) o =
      caller-IsOrderly before after c c' s m at st o
  step-IsOrderly {s} (worker before after w w' m at st) o =
      worker-IsOrderly before after w w' s m at st o
  step-IsOrderly {s} (closer c st) o = closer-IsOrderly s c st o

  Reach-IsOrderly : {s : Pool} → Reach n size s → IsOrderly n size s
  Reach-IsOrderly begin = start_pool-IsOrderly n size
  Reach-IsOrderly (then_step r st) = step-IsOrderly st (Reach-IsOrderly r)

  -- A pool that has joined its workers, of which there are some, has none of its tasks left.
  returned-IsEmpty :
      {s : Pool}
      → 1 ≤ n
      → IsOrderly n size s
      → s.channels.close ≡ returned
      → (s.channels.queue ≡ [])
        × ((x : String) → total (takes_on x) s.callers ≡ occurs x s.channels.finished)
  unfolding occurs
  returned-IsEmpty {s} some_workers o at =
      let gone = o.joined at in
      let none_left = (o.emptied (omega (arith, o.crew, gone, some_workers))).0 in
      (
        none_left,
        λ x. omega (arith, o.placed x, ap (occurs x) none_left, gone, runs-le-working x s.workers),
      )

some-new_pool : (workers queue_size : ℤ) → 1 ≤ pos_part (new_pool workers queue_size).0
unfolding new_pool
some-new_pool workers queue_size = ground arith

-- In every state of a pool, whatever tasks are submitted and however its goroutines interleave, the queue is within
-- its size and every task is, as often as `Submit` has accepted it, in the queue, with a worker or finished.
-- When `Close` has returned, the queue is empty and every task has run exactly as often as it was
-- accepted.
pub Reach-Accepted :
    (workers queue_size : ℤ) {s : Pool}
    → let (n, size) = new_pool workers queue_size in
      Reach (pos_part n) (pos_part size) s
      → let (_, size) = new_pool workers queue_size in
        (length s.channels.queue ≤ pos_part size)
        × ((x : String) → total (takes_on x) s.callers ≡ found x s)
        × (s.channels.close ≡ returned
            → (s.channels.queue ≡ [])
              × ((x : String) → total (takes_on x) s.callers ≡ occurs x s.channels.finished))
Reach-Accepted workers queue_size r =
    let o = Reach-IsOrderly _ _ r in
    (o.room, o.placed, returned-IsEmpty _ _ (some-new_pool workers queue_size) o)
