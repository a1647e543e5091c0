-- ===== src/Job/Places.antt =====
-- Where the jobs are that internal/domain/job/scheduler.go takes from its queue.
use route_analysis_service.Prelude.{
  ℕ, suc, ◌+◌, ◌≤◌, ◌<◌, String, List, [], ◌∷◌, map, length, Bool, true, false, ◌==◌, pos, negsuc,
  ◌+64◌, ◌+ℤ◌, wrap64-of_IsInt64, int64_bound, some, total, one_if, occurs, ◌≡◌, ◌∙◌, arith,
}
use route_analysis_service.Job.Queue.{Envelope, Queue, pop}
use route_analysis_service.Job.Scheduler.{
  Main, polling, holding, Worker, starting, processing, ending, leaving, over, Scheduler,
}

module _ {F : Type 0} where
  abbrev pub ids : List (Envelope F) → List String
  ids = map (λ e. e.job.id)

  -- Whether `Run`, or a goroutine, has the job and has not processed it.
  abbrev pub held_by : String → Main F → ℕ
  held_by x (holding e) = one_if (e.job.id == x)
  held_by x _ = 0

  abbrev pub carries : String → Worker F → ℕ
  carries x (starting e) = one_if (e.job.id == x)
  carries x (processing e) = one_if (e.job.id == x)
  carries x _ = 0

  abbrev pub has_slot : Worker F → ℕ
  has_slot over = 0
  has_slot _ = 1

  abbrev pub is_active : Worker F → ℕ
  is_active (processing e) = 1
  is_active ending = 1
  is_active _ = 0

  abbrev pub is_running : Main F → Bool
  is_running polling = true
  is_running (holding e) = true
  is_running _ = false

  pub occurs-pop :
      (x : String) (q q' : Queue F) (e : Envelope F)
      → pop q ≡ (q', some e)
      → occurs x (ids q.items) ≡ one_if (e.job.id == x) + occurs x (ids q'.items)
  unfolding pop occurs
  occurs-pop x q q' e h = ground (arith, h)

  -- Where the job `x` is.
  abbrev pub places : String → Scheduler F → ℕ
  places x s =
      occurs x (ids s.queue.items)
      + (held_by x s.main
          + (total (carries x) s.started + (occurs x s.finished + occurs x s.dropped)))

  pub record IsOrderly (n : ℕ) (q : Queue F) (s : Scheduler F) : Type 0 where
    pub slots : s.slots ≡ total has_slot s.started
    pub room : s.slots ≤ n
    pub active : s.active ≡ pos (total is_active s.started)
    pub placed : (x : String) → occurs x (ids q.items) ≡ places x s
    pub few_dropped : length s.dropped ≤ 1
    pub none_dropped : is_running s.main ≡ true → s.dropped ≡ []
    pub uncancelled : s.cancelled ≡ false → s.dropped ≡ []

  pub active-le-slots : (ws : List (Worker F)) → total is_active ws ≤ total has_slot ws
  unfolding total
  active-le-slots [] = omega arith
  active-le-slots (starting e ∷ ws) = omega (arith, active-le-slots ws)
  active-le-slots (processing e ∷ ws) = omega (arith, active-le-slots ws)
  active-le-slots (ending ∷ ws) = omega (arith, active-le-slots ws)
  active-le-slots (leaving ∷ ws) = omega (arith, active-le-slots ws)
  active-le-slots (over ∷ ws) = omega (arith, active-le-slots ws)

-- The counter of the goroutines that process a job never leaves the numbers that an `int` holds.
pub count_up : (n k : ℕ) → n < int64_bound → k < n → pos k +64 pos 1 ≡ pos (k + 1)
unfolding ◌+64◌ ◌+ℤ◌
count_up n k fits h = wrap64-of_IsInt64 (pos k +ℤ pos 1) (ground arith) ∙ ground arith

pub count_down : (n k : ℕ) → n < int64_bound → k < n → pos (suc k) +64 negsuc 0 ≡ pos k
unfolding ◌+64◌ ◌+ℤ◌
count_down n k fits h = wrap64-of_IsInt64 (pos (suc k) +ℤ negsuc 0) (ground arith) ∙ ground arith
