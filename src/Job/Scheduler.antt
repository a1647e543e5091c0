-- ===== src/Job/Scheduler.antt =====
-- internal/domain/job/scheduler.go: `Run` and the goroutines that it starts, one step at a time. The queue has no lock,
-- so a `Push` during the run is a data race, which has no defined effect: jobs are pushed before `Run` starts.
use route_analysis_service.Prelude.{
  ℕ, suc, ◌-◌, ◌<◌, String, List, [], ◌∷◌, ◌++◌, Bool, true, false, if◌then◌else◌, ℤ, pos, ltb_ℤ,
  negsuc, ◌+64◌, none, some, ◌≡◌,
}
use route_analysis_service.Job.Queue.{Envelope, Queue, pop}

-- Where `Run` stands.
pub data Main (F : Type 0) : Type 0 where
  polling : Main F  -- before `s.queue.Pop()`
  holding : Envelope F → Main F  -- before a slot of `sem`
  draining : Main F  -- in `wg.Wait()`
  returned : Main F

-- Where a goroutine stands that `Run` started.
pub data Worker (F : Type 0) : Type 0 where
  starting : Envelope F → Worker F  -- before `s.active++`
  processing : Envelope F → Worker F
  ending : Worker F  -- before `s.active--`
  leaving : Worker F  -- before `<-sem`
  over : Worker F

-- The state, and two lists of jobs that no step reads: those that were processed, and those that were taken from the
-- queue and dropped.
pub record Scheduler (F : Type 0) : Type 0 where
  pub queue : Queue F
  pub main : Main F
  pub slots : ℕ  -- the values in `sem`
  pub active : ℤ
  pub cancelled : Bool
  pub started : List (Worker F)
  pub finished : List String
  pub dropped : List String

unfoldable pub new_scheduler : ℤ → ℤ
new_scheduler workers = if ltb_ℤ workers (pos 1) then pos 1 else workers

-- The scheduler at the start of `Run`, with the queue as it is then.
unfoldable pub start_run : {F : Type 0} → Queue F → Scheduler F
start_run q = record {
  queue = q;
  main = polling;
  slots = 0;
  active = pos 0;
  cancelled = false;
  started = [];
  finished = [];
  dropped = [];
}

module _ {F : Type 0} where
  -- One step of a goroutine.
  pub data Move (s : Scheduler F) : Worker F → Scheduler F → Worker F → Type 0 where
    enter :
        {e : Envelope F}
        → Move s (starting e) (record s { active = s.active +64 pos 1 }) (processing e)
    process :
        {e : Envelope F}
        → Move s (processing e) (record s { finished = e.job.id ∷ s.finished }) ending
    exit : Move s ending (record s { active = s.active +64 negsuc 0 }) leaving
    give_back : Move s leaving (record s { slots = s.slots - 1 }) over

  abbrev pub AllOver : List (Worker F) → Type 0
  AllOver [] = Unit
  AllOver (w ∷ ws) = (w ≡ over) × AllOver ws

  -- One step of anyone, with `n` slots.
  pub data Step (n : ℕ) (s : Scheduler F) : Scheduler F → Type 0 where
    take :
        (e : Envelope F) (q : Queue F)
        → s.main ≡ polling
        → pop s.queue ≡ (q, some e)
        → Step n s (record s { queue = q; main = holding e })
    stop :
        s.main ≡ polling
        → pop s.queue ≡ (s.queue, none)
        → s.cancelled ≡ true
        → Step n s (record s { main = draining })
    launch :
        (e : Envelope F)
        → s.main ≡ holding e
        → s.slots < n
        → Step n s
            (record s { main = polling; slots = suc s.slots; started = starting e ∷ s.started })
    abandon :
        (e : Envelope F)
        → s.main ≡ holding e
        → s.cancelled ≡ true
        → Step n s (record s { main = draining; dropped = e.job.id ∷ s.dropped })
    return : s.main ≡ draining → AllOver s.started → Step n s (record s { main = returned })
    move :
        (before after : List (Worker F)) (w w' : Worker F) (t : Scheduler F)
        → s.started ≡ before ++ w ∷ after
        → Move s w t w'
        → Step n s (record t { started = before ++ w' ∷ after })
    cancel : Step n s (record s { cancelled = true })

  pub data Reach (n : ℕ) (q : Queue F) : Scheduler F → Type 0 where
    begin : Reach n q (start_run q)
    then_step : {s t : Scheduler F} → Reach n q s → Step n s t → Reach n q t
