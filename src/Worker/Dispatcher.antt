-- ===== src/Worker/Dispatcher.antt =====
-- internal/infrastructure/worker/dispatcher.go: `Run` with its workers, one step of one goroutine at a time.
use route_analysis_service.Prelude.{
  ℕ, suc, ◌-◌, ◌<◌, String, List, [], ◌∷◌, ◌++◌, zero, Bool, true, false, if◌then◌else◌, ℤ, pos,
  ltb_ℤ, ◌+64◌, Option, none, some, ◌⊎◌, ◌≡◌,
}
use route_analysis_service.Model.Error.{Error}

-- Where a worker stands in `workerFn`, with its live variables.
pub data Pc : Type 0 where
  receiving : Pc  -- at the head of the loop over `inputsCh`
  holding : (input : String) → Pc  -- before a slot of `sem`
  calling : (input : String) → Pc  -- in `fn`
  answered : (input : String) (failure : Option Error) → Pc  -- before `<-sem`
  reporting : (input : String) (failure : Option Error) → Pc  -- before `mu.Lock()`
  recorded : Pc  -- before the look at `ctx.Err()`
  gone : Pc

-- What the goroutines share. `log` holds the answers of `fn` in the order in which they were counted; no
-- step reads it.
pub record Shared : Type 0 where
  pub closed : Bool  -- `inputsCh` is closed
  pub cancelled : Bool  -- `ctx` is done
  pub slots : ℕ  -- the values in `sem`
  pub success : ℤ
  pub first_err : Option Error
  pub log : List (String × Option Error)

pub record Dispatch : Type 0 where
  pub rest : List String  -- the inputs that are not sent yet
  pub shared : Shared
  pub workers : List Pc

unfoldable pub new_dispatcher : ℤ → ℤ
new_dispatcher workers = if ltb_ℤ workers (pos 1) then pos 1 else workers

-- The lines between `mu.Lock()` and `mu.Unlock()`.
unfoldable pub report : Shared → String → Option Error → Shared
report m input none = record m { success = m.success +64 pos 1; log = m.log ++ (input, none) ∷ [] }
report m input (some e) = record m {
  first_err = elim m.first_err [ none ↦ some e | some first ↦ some first ];
  log = m.log ++ (input, some e) ∷ [];
}

-- One step of one worker, of `n`. What `fn` answers is left open.
pub data Move (n : ℕ) (m : Shared) : Pc → Shared → Pc → Type 0 where
  leave : m.closed ≡ true → Move n m receiving m gone
  acquire :
      {i : String}
      → m.slots < n
      → Move n m (holding i) (record m { slots = suc m.slots }) (calling i)
  abandon : {i : String} → m.cancelled ≡ true → Move n m (holding i) m gone
  answer : {i : String} (r : Option Error) → Move n m (calling i) m (answered i r)
  release :
      {i : String} {r : Option Error}
      → Move n m (answered i r) (record m { slots = m.slots - 1 }) (reporting i r)
  count : {i : String} {r : Option Error} → Move n m (reporting i r) (report m i r) recorded
  again : m.cancelled ≡ false → Move n m recorded m receiving
  quit : m.cancelled ≡ true → Move n m recorded m gone

-- One step of `Run`: it sends an input to a worker that waits for one, or closes the channel after the
-- last input or on a cancelled context; a worker moves; or the caller cancels.
pub data Step (n : ℕ) (s : Dispatch) : Dispatch → Type 0 where
  send :
      (input : String) (rest : List String) (before after : List Pc)
      → s.shared.closed ≡ false
      → s.rest ≡ input ∷ rest
      → s.workers ≡ before ++ receiving ∷ after
      → Step n s (record s { rest = rest; workers = before ++ holding input ∷ after })
  close :
      s.shared.closed ≡ false
      → (s.rest ≡ []) ⊎ (s.shared.cancelled ≡ true)
      → Step n s (record s { shared = record s.shared { closed = true } })
  move :
      (before after : List Pc) (p p' : Pc) (m : Shared)
      → s.workers ≡ before ++ p ∷ after
      → Move n s.shared p m p'
      → Step n s (record s { shared = m; workers = before ++ p' ∷ after })
  cancel :
      s.shared.cancelled ≡ false
      → Step n s (record s { shared = record s.shared { cancelled = true } })

unfoldable pub waiting_workers : ℕ → List Pc
waiting_workers zero = []
waiting_workers (suc n) = receiving ∷ waiting_workers n

unfoldable pub start_dispatch : ℕ → List String → Dispatch
start_dispatch n inputs = record {
  rest = inputs;
  shared = record {
    closed = false;
    cancelled = false;
    slots = 0;
    success = pos 0;
    first_err = none;
    log = [];
  };
  workers = waiting_workers n;
}

pub data Reach (n : ℕ) (inputs : List String) : Dispatch → Type 0 where
  begin : Reach n inputs (start_dispatch n inputs)
  then_step : {s t : Dispatch} → Reach n inputs s → Step n s t → Reach n inputs t

-- `wg.Wait()` returns: the channel is closed and no worker is left.
abbrev pub AllGone : List Pc → Type 0
AllGone [] = Unit
AllGone (p ∷ ps) = (p ≡ gone) × AllGone ps

abbrev pub IsDone : Dispatch → Type 0
IsDone s = (s.shared.closed ≡ true) × AllGone s.workers
