-- ===== src/Worker/Crew.antt =====
-- Where the tasks of internal/infrastructure/worker/pool.go are, and what its queue and its workers are to each other.
use route_analysis_service.Prelude.{
  ℕ, zero, suc, ◌+◌, ◌≤◌, String, List, [], ◌∷◌, length, true, total, one_if, occurs, ◌==◌, ◌≡◌,
  refl, ap, arith,
}
use route_analysis_service.Worker.Pool.{
  Submitting, accepted, Working, idle, running, ended, returned, is_queue_closed, Pool,
  idle_workers, start_pool, AllEnded,
}

-- Whether a call of `Submit` has accepted the task.
abbrev pub takes_on : String → Submitting → ℕ
takes_on x (accepted t) = one_if (t == x)
takes_on x _ = 0

abbrev pub runs : String → Working → ℕ
runs x (running t) = one_if (t == x)
runs x _ = 0

abbrev pub has_ended : Working → ℕ
has_ended ended = 1
has_ended _ = 0

abbrev pub is_working : Working → ℕ
is_working ended = 0
is_working _ = 1

-- Where the task `x` is, once it is accepted.
abbrev pub found : String → Pool → ℕ
found x s = occurs x s.channels.queue + (total (runs x) s.workers + occurs x s.channels.finished)

pub record IsOrderly (n size : ℕ) (s : Pool) : Type 0 where
  pub placed : (x : String) → total (takes_on x) s.callers ≡ found x s
  pub room : length s.channels.queue ≤ size
  pub crew : total has_ended s.workers + total is_working s.workers ≡ n
  pub emptied :
      1 ≤ total has_ended s.workers
      → (s.channels.queue ≡ []) × (is_queue_closed s.channels.close ≡ true)
  pub joined : s.channels.close ≡ returned → total is_working s.workers ≡ 0

total-idle_workers : (f : Working → ℕ) (n : ℕ) → f idle ≡ 0 → total f (idle_workers n) ≡ 0
unfolding total idle_workers
total-idle_workers f zero h = refl
total-idle_workers f (suc n) h = omega (arith, h, total-idle_workers f n h)

working-idle_workers : (n : ℕ) → total is_working (idle_workers n) ≡ n
unfolding total idle_workers
working-idle_workers zero = refl
working-idle_workers (suc n) = omega (arith, working-idle_workers n)

pub total-AllEnded :
    (f : Working → ℕ) (ws : List Working) → f ended ≡ 0 → AllEnded ws → total f ws ≡ 0
unfolding total
total-AllEnded f [] h g = refl
total-AllEnded f (w ∷ ws) h g = omega (arith, ap f g.0, h, total-AllEnded f ws h g.1)

-- Workers that have ended run nothing.
pub runs-le-working : (x : String) (ws : List Working) → total (runs x) ws ≤ total is_working ws
unfolding total
runs-le-working x [] = omega arith
runs-le-working x (idle ∷ ws) = omega (arith, runs-le-working x ws)
runs-le-working x (running t ∷ ws) = ground (arith, runs-le-working x ws)
runs-le-working x (ended ∷ ws) = omega (arith, runs-le-working x ws)

pub start_pool-IsOrderly : (n size : ℕ) → IsOrderly n size (start_pool n)
unfolding start_pool total occurs
start_pool-IsOrderly n size = record {
  placed = λ x. omega (arith, total-idle_workers (runs x) n refl);
  room = omega arith;
  crew = omega (arith, total-idle_workers has_ended n refl, working-idle_workers n);
  emptied = λ h. absurd (omega (arith, h, total-idle_workers has_ended n refl));
  joined = λ e. cc;
}
