-- ===== src/Worker/Pool.antt =====
-- internal/infrastructure/worker/pool.go: its workers, the callers of `Submit` and the one call of `Close` that runs the
-- function of `once`, one step at a time. A task is known by its name; it may never return,
-- and does not panic.
use route_analysis_service.Prelude.{
  ℕ, suc, zero, ◌<◌, String, List, [], ◌∷◌, ◌++◌, length, Bool, true, false, if◌then◌else◌, ℤ, pos,
  ltb_ℤ, ◌≡◌,
}

-- Where a call of `Submit` stands.
pub data Submitting : Type 0 where
  looking : (task : String) → Submitting  -- before the first `select`
  sending : (task : String) → Submitting  -- in the second `select`
  accepted : (task : String) → Submitting
  refused : (task : String) → Submitting
  panicked : (task : String) → Submitting

-- Where a worker stands.
pub data Working : Type 0 where
  idle : Working  -- at the head of the loop over `p.queue`
  running : (task : String) → Working
  ended : Working

-- Where `Close` stands. Only `Close` closes the two channels.
pub data Closing : Type 0 where
  uncalled : Closing
  refusing : Closing  -- after `close(p.closed)`
  joining : Closing  -- after `close(p.queue)`, in `p.wg.Wait()`
  returned : Closing

abbrev pub is_closed : Closing → Bool
is_closed uncalled = false
is_closed _ = true

abbrev pub is_queue_closed : Closing → Bool
is_queue_closed joining = true
is_queue_closed returned = true
is_queue_closed _ = false

-- What the goroutines share. No step reads `finished`.
pub record Channels : Type 0 where
  pub queue : List String
  pub close : Closing
  pub finished : List String

pub record Pool : Type 0 where
  pub channels : Channels
  pub callers : List Submitting
  pub workers : List Working

-- The numbers of workers and of places in the queue.
unfoldable pub new_pool : ℤ → ℤ → ℤ × ℤ
new_pool workers queue_size =
    let at_least_one = if ltb_ℤ workers (pos 1) then pos 1 else workers in
    (at_least_one, if ltb_ℤ queue_size (pos 1) then at_least_one else queue_size)

unfoldable pub idle_workers : ℕ → List Working
idle_workers zero = []
idle_workers (suc n) = idle ∷ idle_workers n

unfoldable pub start_pool : ℕ → Pool
start_pool n = record {
  channels = record { queue = []; close = uncalled; finished = [] };
  callers = [];
  workers = idle_workers n;
}

-- A step of a caller, with `size` places in the queue. A `select` with several ready cases takes any of them.
pub data SubmitStep (size : ℕ) (m : Channels) : Submitting → Channels → Submitting → Type 0 where
  go_on : {t : String} → is_closed m.close ≡ false → SubmitStep size m (looking t) m (sending t)
  turn_away : {t : String} → is_closed m.close ≡ true → SubmitStep size m (looking t) m (refused t)
  enqueue :
      {t : String}
      → is_queue_closed m.close ≡ false
      → length m.queue < size
      → SubmitStep size m (sending t) (record m { queue = m.queue ++ t ∷ [] }) (accepted t)
  give_up : {t : String} → is_closed m.close ≡ true → SubmitStep size m (sending t) m (refused t)
  -- The send on the closed queue.
  panic :
      {t : String} → is_queue_closed m.close ≡ true → SubmitStep size m (sending t) m (panicked t)

-- A step of a worker.
pub data WorkStep (m : Channels) : Working → Channels → Working → Type 0 where
  receive :
      (task : String) (rest : List String)
      → m.queue ≡ task ∷ rest
      → WorkStep m idle (record m { queue = rest }) (running task)
  finish :
      {task : String} → WorkStep m (running task) (record m { finished = task ∷ m.finished }) idle
  end : m.queue ≡ [] → is_queue_closed m.close ≡ true → WorkStep m idle m ended

abbrev pub AllEnded : List Working → Type 0
AllEnded [] = Unit
AllEnded (w ∷ ws) = (w ≡ ended) × AllEnded ws

-- A step of `Close`.
pub data CloseStep (workers : List Working) (c : Closing) : Closing → Type 0 where
  refuse : c ≡ uncalled → CloseStep workers c refusing
  close_queue : c ≡ refusing → CloseStep workers c joining
  join : c ≡ joining → AllEnded workers → CloseStep workers c returned

-- One step of anyone.
pub data Step (size : ℕ) (s : Pool) : Pool → Type 0 where
  submit : (task : String) → Step size s (record s { callers = looking task ∷ s.callers })
  caller :
      (before after : List Submitting) (c c' : Submitting) (m : Channels)
      → s.callers ≡ before ++ c ∷ after
      → SubmitStep size s.channels c m c'
      → Step size s (record s { channels = m; callers = before ++ c' ∷ after })
  worker :
      (before after : List Working) (w w' : Working) (m : Channels)
      → s.workers ≡ before ++ w ∷ after
      → WorkStep s.channels w m w'
      → Step size s (record s { channels = m; workers = before ++ w' ∷ after })
  closer :
      (c : Closing)
      → CloseStep s.workers s.channels.close c
      → Step size s (record s { channels = record s.channels { close = c } })

pub data Reach (n size : ℕ) : Pool → Type 0 where
  begin : Reach n size (start_pool n)
  then_step : {s t : Pool} → Reach n size s → Step size s t → Reach n size t
