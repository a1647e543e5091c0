-- ===== src/Worker/Joining.antt =====
-- `Close` of internal/infrastructure/worker/pool.go comes to its end.
use route_analysis_service.Prelude.{
  ℕ, ◌+◌, ◌*◌, ◌≤◌, ◌<◌, String, List, [], ◌∷◌, ◌++◌, length, true, total, total-replace, inl, inr,
  ◌⊎◌, ◌≡◌, refl, ap, ◌∙◌, arith,
}
use route_analysis_service.Worker.Pool.{
  Submitting, Working, idle, running, ended, Closing, uncalled, refusing, joining, returned,
  is_queue_closed, Channels, Pool, SubmitStep, go_on, turn_away, enqueue, give_up, panic, WorkStep,
  receive, finish, end, AllEnded, CloseStep, refuse, close_queue, join, Step, submit, caller,
  worker, closer,
}

abbrev pub rank : Closing → ℕ
rank uncalled = 3
rank refusing = 2
rank joining = 1
rank returned = 0

abbrev pub weight : Working → ℕ
weight idle = 1
weight (running task) = 2
weight ended = 0

-- A bound on the steps that workers and `Close` have left.
abbrev pub steps_left : Pool → ℕ
steps_left s = rank s.channels.close + (2 * length s.channels.queue + total weight s.workers)

-- A step that brings the end of `Close` nearer.
abbrev pub Advances : ℕ → Pool → Type 0
Advances size s = (t : Pool) × Step size s t × (steps_left t < steps_left s)

abbrev SomeWorks : List Working → Type 0
SomeWorks ws =
    (before : List Working) × (after : List Working) × (w : Working) × (ws ≡ before ++ w ∷ after)
    × ((w ≡ idle) ⊎ ((task : String) × (w ≡ running task)))

some_works : (ws : List Working) → AllEnded ws ⊎ SomeWorks ws
some_works [] = inl tt
some_works (idle ∷ ws) = inr ([], ws, idle, refl, inl refl)
some_works (running t ∷ ws) = inr ([], ws, running t, refl, inr (t, refl))
some_works (ended ∷ ws) = elim (some_works ws) [
  | inl all_ended ↦ inl (refl, all_ended)
  | inr (before, after, w, at, works) ↦
      inr (ended ∷ before, after, w, ap (λ l. ended ∷ l) at, works)
]

caller-queue :
    (size : ℕ) (m m' : Channels) (c c' : Submitting)
    → is_queue_closed m.close ≡ true
    → SubmitStep size m c m' c'
    → m' ≡ m
caller-queue size m m' c c' shut (go_on _) = refl
caller-queue size m m' c c' shut (turn_away _) = refl
caller-queue size m m' c c' shut (enqueue open_still _) = cc
caller-queue size m m' c c' shut (give_up _) = refl
caller-queue size m m' c c' shut (panic _) = refl

worker-steps_left :
    (s : Pool) (before after : List Working) (w w' : Working) (m : Channels)
    → s.workers ≡ before ++ w ∷ after
    → WorkStep s.channels w m w'
    → steps_left (record s { channels = m; workers = before ++ w' ∷ after }) < steps_left s
worker-steps_left s before after w w' m at (receive task rest first) =
    omega (arith, total-replace weight s.workers before after w w' at, ap length first)
worker-steps_left s before after w w' m at finish =
    omega (arith, total-replace weight s.workers before after w w' at)
worker-steps_left s before after w w' m at (end none_left shut) =
    omega (arith, total-replace weight s.workers before after w w' at)

closer-rank : (ws : List Working) (c c' : Closing) → CloseStep ws c c' → rank c' < rank c
closer-rank ws c c' (refuse at) = omega (arith, ap rank at)
closer-rank ws c c' (close_queue at) = omega (arith, ap rank at)
closer-rank ws c c' (join at _) = omega (arith, ap rank at)

step-steps_left :
    (size : ℕ) (s t : Pool)
    → is_queue_closed s.channels.close ≡ true
    → Step size s t
    → steps_left t ≤ steps_left s
step-steps_left size s t shut (submit task) = omega arith
step-steps_left size s t shut (caller before after c c' m at st) =
    let same = caller-queue size s.channels m c c' shut st in
    omega (arith, ap (λ m. rank m.close) same, ap (λ m. length m.queue) same)
step-steps_left size s t shut (worker before after w w' m at st) =
    omega (arith, worker-steps_left s before after w w' m at st)
step-steps_left size s t shut (closer c st) =
    omega (arith, closer-rank s.workers s.channels.close c st)

worker-Advances :
    (size : ℕ) (s : Pool) (before after : List Working) (w w' : Working) (m : Channels)
    → s.workers ≡ before ++ w ∷ after
    → WorkStep s.channels w m w'
    → Advances size s
worker-Advances size s before after w w' m at st =
    (_, worker before after w w' m at st, worker-steps_left s before after w w' m at st)

closer-Advances :
    (size : ℕ) (s : Pool) (c : Closing) → CloseStep s.workers s.channels.close c → Advances size s
closer-Advances size s c st =
    (_, closer c st, omega (arith, closer-rank s.workers s.channels.close c st))

-- An idle worker takes a task, or ends if the queue is empty.
idle-Advances :
    (size : ℕ) (s : Pool) (before after : List Working)
    → is_queue_closed s.channels.close ≡ true
    → s.workers ≡ before ++ idle ∷ after
    → Advances size s
idle-Advances size s before after shut at = by_queue s.channels.queue refl
  where
    by_queue : (queue : List String) → s.channels.queue ≡ queue → Advances size s
    by_queue [] none_left =
        worker-Advances size s before after idle ended s.channels at (end none_left shut)
    by_queue (task ∷ rest) first =
        worker-Advances size s before after idle (running task) _ at (receive task rest first)

joining-Advances : (size : ℕ) (s : Pool) → s.channels.close ≡ joining → Advances size s
joining-Advances size s at = elim (some_works s.workers) [
  | inl all_ended ↦ closer-Advances size s returned (join at all_ended)
  | inr (before, after, w, here, inl waits) ↦
      idle-Advances size s before after (ap is_queue_closed at)
        (here ∙ ap (λ w. before ++ w ∷ after) waits)
  | inr (before, after, w, here, inr (task, works)) ↦
      worker-Advances size s before after (running task) idle _
        (here ∙ ap (λ w. before ++ w ∷ after) works) finish
]

-- Once `Close` has closed the queue, no step of anyone adds to the bound on the steps that the workers and `Close`
-- have left. From the call of `Close` until it has returned, there is a step that makes the bound less.
pub Close-Advances :
    (size : ℕ) (s : Pool)
    → ((t : Pool)
        → is_queue_closed s.channels.close ≡ true
        → Step size s t
        → steps_left t ≤ steps_left s)
      × ((s.channels.close ≡ uncalled) ⊎ (s.channels.close ≡ returned) ⊎ Advances size s)
Close-Advances size s =
    (λ t shut st. step-steps_left size s t shut st, by_close s.channels.close refl)
  where
    by_close :
        (c : Closing)
        → s.channels.close ≡ c
        → (s.channels.close ≡ uncalled) ⊎ (s.channels.close ≡ returned) ⊎ Advances size s
    by_close uncalled at = inl at
    by_close refusing at = inr (inr (closer-Advances size s joining (close_queue at)))
    by_close joining at = inr (inr (joining-Advances size s at))
    by_close returned at = inr (inl at)
