-- ===== src/Job/Scheduled.antt =====
-- What becomes of the jobs that internal/domain/job/scheduler.go takes from its queue.
use route_analysis_service.Prelude.{
  ℕ, ◌≤◌, ◌<◌, String, List, [], ◌∷◌, ◌++◌, length, false, ℤ, pos, pos_part, negsuc, IsInt64, ◌+64◌,
  int64_bound, total, total-change, occurs, ◌≡◌, refl, ap, ◌∙◌, arith,
}
use route_analysis_service.Job.Queue.{Queue}
use route_analysis_service.Job.Scheduler.{
  Worker, Scheduler, new_scheduler, start_run, Move, enter, process, exit, give_back, Step, take,
  stop, launch, abandon, return, move, cancel, Reach, begin, then_step,
}
use route_analysis_service.Job.Places.{
  ids, held_by, carries, has_slot, is_active, is_running, places, IsOrderly, occurs-pop,
  active-le-slots, count_up, count_down,
}

module _ {F : Type 0} (n : ℕ) (fits : n < int64_bound) where
  start-IsOrderly : (q : Queue F) → IsOrderly n q (start_run q)
  unfolding start_run total occurs
  start-IsOrderly q = record {
    slots = refl;
    room = omega arith;
    active = refl;
    placed = λ x. omega arith;
    few_dropped = omega arith;
    none_dropped = λ _. refl;
    uncancelled = λ _. refl;
  }

  module _ (q : Queue F) (before after : List (Worker F)) where
    move-IsOrderly :
        (w w' : Worker F) (s t : Scheduler F)
        → s.started ≡ before ++ w ∷ after
        → Move s w t w'
        → IsOrderly n q s
        → IsOrderly n q (record t { started = before ++ w' ∷ after })
    unfolding occurs
    move-IsOrderly w w' s t at (enter {e}) o =
        let slots_at = ap (total has_slot) at in
        let slots = total-change has_slot before after w w' in
        let active_at = ap (total is_active) at in
        let actives = total-change is_active before after w w' in
        let le = active-le-slots (before ++ w' ∷ after) in
        record {
          slots = omega (arith, o.slots, slots_at, slots);
          room = o.room;
          active =
              ap (λ k. k +64 pos 1) (o.active ∙ ap pos active_at)
              ∙ count_up n (total is_active (before ++ w ∷ after)) fits
                  (omega (arith, le, actives, slots, slots_at, o.slots, o.room))
              ∙ ap pos (omega (arith, actives));
          placed = λ x. omega (
            arith,
            o.placed x,
            ap (total (carries x)) at,
            total-change (carries x) before after w w',
          );
          few_dropped = o.few_dropped;
          none_dropped = o.none_dropped;
          uncancelled = o.uncancelled;
        }
    move-IsOrderly w w' s t at (process {e}) o = record {
      slots =
          omega (arith, o.slots, ap (total has_slot) at, total-change has_slot before after w w');
      room = o.room;
      active =
          o.active
          ∙ ap pos
              (omega (arith, ap (total is_active) at, total-change is_active before after w w'));
      placed = λ x. omega (
        arith,
        o.placed x,
        ap (total (carries x)) at,
        total-change (carries x) before after w w',
      );
      few_dropped = o.few_dropped;
      none_dropped = o.none_dropped;
      uncancelled = o.uncancelled;
    }
    move-IsOrderly w w' s t at exit o =
        let slots_at = ap (total has_slot) at in
        let slots = total-change has_slot before after w w' in
        let active_at = ap (total is_active) at in
        let actives = total-change is_active before after w w' in
        let le = active-le-slots (before ++ w ∷ after) in
        record {
          slots = omega (arith, o.slots, slots_at, slots);
          room = o.room;
          active =
              ap (λ k. k +64 negsuc 0) (o.active ∙ ap pos (omega (arith, active_at, actives)))
              ∙ count_down n (total is_active (before ++ w' ∷ after)) fits
                  (omega (arith, le, actives, slots_at, o.slots, o.room));
          placed = λ x. omega (
            arith,
            o.placed x,
            ap (total (carries x)) at,
            total-change (carries x) before after w w',
          );
          few_dropped = o.few_dropped;
          none_dropped = o.none_dropped;
          uncancelled = o.uncancelled;
        }
    move-IsOrderly w w' s t at give_back o = record {
      slots =
          omega (arith, o.slots, ap (total has_slot) at, total-change has_slot before after w w');
      room = omega (arith, o.room);
      active =
          o.active
          ∙ ap pos
              (omega (arith, ap (total is_active) at, total-change is_active before after w w'));
      placed = λ x. omega (
        arith,
        o.placed x,
        ap (total (carries x)) at,
        total-change (carries x) before after w w',
      );
      few_dropped = o.few_dropped;
      none_dropped = o.none_dropped;
      uncancelled = o.uncancelled;
    }

  step-IsOrderly :
      (q : Queue F) {s t : Scheduler F} → Step n s t → IsOrderly n q s → IsOrderly n q t
  unfolding occurs total
  step-IsOrderly start {s} (take e q at popped) o = record {
    slots = o.slots;
    room = o.room;
    active = o.active;
    placed = λ x. omega (arith, o.placed x, occurs-pop x s.queue q e popped, ap (held_by x) at);
    few_dropped = o.few_dropped;
    none_dropped = λ _. o.none_dropped (ap is_running at);
    uncancelled = o.uncancelled;
  }
  step-IsOrderly start (stop at _ _) o = record {
    slots = o.slots;
    room = o.room;
    active = o.active;
    placed = λ x. omega (arith, o.placed x, ap (held_by x) at);
    few_dropped = o.few_dropped;
    none_dropped = λ e. cc;
    uncancelled = o.uncancelled;
  }
  step-IsOrderly start (launch e at free) o = record {
    slots = omega (arith, o.slots);
    room = omega arith;
    active = o.active ∙ ap pos (omega arith);
    placed = λ x. omega (arith, o.placed x, ap (held_by x) at);
    few_dropped = o.few_dropped;
    none_dropped = λ _. o.none_dropped (ap is_running at);
    uncancelled = o.uncancelled;
  }
  step-IsOrderly start (abandon e at cancelled) o = record {
    slots = o.slots;
    room = o.room;
    active = o.active;
    placed = λ x. omega (arith, o.placed x, ap (held_by x) at);
    few_dropped = omega (arith, ap length (o.none_dropped (ap is_running at)));
    none_dropped = λ e. cc;
    uncancelled = λ e. cc;
  }
  step-IsOrderly start (return at _) o = record {
    slots = o.slots;
    room = o.room;
    active = o.active;
    placed = λ x. omega (arith, o.placed x, ap (held_by x) at);
    few_dropped = o.few_dropped;
    none_dropped = λ e. cc;
    uncancelled = o.uncancelled;
  }
  step-IsOrderly start {s} (move before after w w' t at m) o =
      move-IsOrderly start before after w w' s t at m o
  step-IsOrderly start cancel o = record {
    slots = o.slots;
    room = o.room;
    active = o.active;
    placed = o.placed;
    few_dropped = o.few_dropped;
    none_dropped = o.none_dropped;
    uncancelled = λ e. cc;
  }

  Reach-IsOrderly : {q : Queue F} {s : Scheduler F} → Reach n q s → IsOrderly n q s
  Reach-IsOrderly {q} begin = start-IsOrderly q
  Reach-IsOrderly {q} (then_step r st) = step-IsOrderly q st (Reach-IsOrderly r)

-- In every state of a run of the scheduler on a queue that nobody else uses meanwhile, `Active` is the number of the
-- goroutines that process a job, and no more than the workers. Every job of the queue at the start is, as often
-- as it was there, in the queue, with `Run`, with a goroutine, processed, or dropped. At most one is dropped, and none
-- before the context is cancelled. The number of workers is an `int`.
pub Reach-Placed :
    {F : Type 0} (workers : ℤ) (q : Queue F) {s : Scheduler F}
    → IsInt64 workers
    → Reach (pos_part (new_scheduler workers)) q s
    → (s.active ≡ pos (total is_active s.started))
      × (total is_active s.started ≤ pos_part (new_scheduler workers))
      × ((x : String) → occurs x (ids q.items) ≡ places x s)
      × (length s.dropped ≤ 1)
      × (s.cancelled ≡ false → s.dropped ≡ [])
unfolding new_scheduler
Reach-Placed workers q {s} fits r =
    let o = Reach-IsOrderly (pos_part (new_scheduler workers)) (ground arith) r in
    (
      o.active,
      omega (arith, active-le-slots s.started, o.slots, o.room),
      o.placed,
      o.few_dropped,
      o.uncancelled,
    )
