-- ===== src/Worker/Ends.antt =====
-- `Run` of internal/infrastructure/worker/dispatcher.go cannot get stuck and does not go on for ever.
use route_analysis_service.Prelude.{
  total, total-append, ℕ, suc, ◌+◌, ◌≤◌, ◌<◌, String, List, [], ◌∷◌, ◌++◌, length, length-append,
  false, Bool-cases, ℤ, pos_part, int64_bound, none, inl, inr, ◌⊎◌, ◌≡◌, refl, ap, arith,
}
use route_analysis_service.Worker.Dispatcher.{
  Pc, receiving, holding, calling, answered, reporting, recorded, gone, Dispatch, leave, acquire,
  answer, release, count, again, quit, Step, send, close, move, Reach, AllGone, IsDone,
  new_dispatcher,
}
use route_analysis_service.Worker.Tally.{uses}
use route_analysis_service.Worker.Accounts.{Reach-slots}
use route_analysis_service.Worker.Measure.{steps_left, step-lt}
use route_analysis_service.Worker.Manned.{is_gone, IsManned, Reach-IsManned}

-- All workers have left, or one has not.
someone :
    (ps : List Pc)
    → AllGone ps
      ⊎ ((before : List Pc) × (p : Pc) × (after : List Pc) × (ps ≡ before ++ p ∷ after)
          × (is_gone p ≡ 0))
someone [] = inl tt
someone (p ∷ ps) = elim (someone ps) [
  | inl none_left ↦ at_head p none_left
  | inr (before, q, after, at, h) ↦ inr (p ∷ before, q, after, ap (λ qs. p ∷ qs) at, h)
]
  where
    at_head :
        (q : Pc)
        → AllGone ps
        → AllGone (q ∷ ps)
          ⊎ ((before : List Pc) × (r : Pc) × (after : List Pc) × (q ∷ ps ≡ before ++ r ∷ after)
              × (is_gone r ≡ 0))
    at_head gone all_gone = inl (refl, all_gone)
    at_head receiving all_gone = inr ([], receiving, ps, refl, refl)
    at_head (holding i) all_gone = inr ([], holding i, ps, refl, refl)
    at_head (calling i) all_gone = inr ([], calling i, ps, refl, refl)
    at_head (answered i r) all_gone = inr ([], answered i r, ps, refl, refl)
    at_head (reporting i r) all_gone = inr ([], reporting i r, ps, refl, refl)
    at_head recorded all_gone = inr ([], recorded, ps, refl, refl)

total-uses-le : (ps : List Pc) → total uses ps ≤ length ps
unfolding total
total-uses-le [] = omega arith
total-uses-le (p ∷ ps) = at_most p (total-uses-le ps)
  where
    at_most : (q : Pc) → total uses ps ≤ length ps → uses q + total uses ps ≤ suc (length ps)
    at_most gone h = omega arith
    at_most receiving h = omega arith
    at_most (holding i) h = omega arith
    at_most (calling i) h = omega arith
    at_most (answered i r) h = omega arith
    at_most (reporting i r) h = omega arith
    at_most recorded h = omega arith

total-AllGone_all : (ps : List Pc) → AllGone ps → total is_gone ps ≡ length ps
unfolding total
total-AllGone_all [] g = refl
total-AllGone_all (p ∷ ps) g = omega (arith, ap is_gone g.0, total-AllGone_all ps g.1)

-- A slot is free for a worker that holds an input: the others have one each at most.
free_slot :
    (before after : List Pc) (i : String)
    → total uses (before ++ holding i ∷ after) < length (before ++ holding i ∷ after)
unfolding total
free_slot before after i = omega (
  arith,
  total-append uses before (holding i ∷ after),
  length-append before (holding i ∷ after),
  total-uses-le before,
  total-uses-le after,
)

abbrev CanStep : ℕ → Dispatch → Type 0
CanStep n s = (t : Dispatch) × Step n s t

module _ (n : ℕ) (s : Dispatch) (slots : s.shared.slots ≡ total uses s.workers)
    (manned : IsManned n s) where
  main-CanStep :
      (rest : List String) (before after : List Pc)
      → s.shared.closed ≡ false
      → s.rest ≡ rest
      → s.workers ≡ before ++ receiving ∷ after
      → CanStep n s
  main-CanStep [] before after open_still e at = (_, close open_still (inl e))
  main-CanStep (i ∷ rest) before after open_still e at =
      (_, send i rest before after open_still e at)

  worker-CanStep :
      (before after : List Pc) (p : Pc)
      → s.workers ≡ before ++ p ∷ after
      → is_gone p ≡ 0
      → CanStep n s
  worker-CanStep before after receiving at h = elim (Bool-cases s.shared.closed) [
    | inl closed ↦ (_, move before after receiving gone s.shared at (leave closed))
    | inr open_still ↦ main-CanStep s.rest before after open_still refl at
  ]
  worker-CanStep before after (holding i) at h =
      let free : s.shared.slots < n =
        omega
          (arith, slots, ap (total uses) at, ap length at, manned.size, free_slot before after i) in
      (_, move before after (holding i) (calling i) _ at (acquire free))
  worker-CanStep before after (calling i) at h =
      (_, move before after (calling i) (answered i none) _ at (answer none))
  worker-CanStep before after (answered i r) at h =
      (_, move before after (answered i r) (reporting i r) _ at release)
  worker-CanStep before after (reporting i r) at h =
      (_, move before after (reporting i r) recorded _ at count)
  worker-CanStep before after recorded at h = elim (Bool-cases s.shared.cancelled) [
    | inl cancelled ↦ (_, move before after recorded gone s.shared at (quit cancelled))
    | inr live ↦ (_, move before after recorded receiving s.shared at (again live))
  ]
  worker-CanStep before after gone at h = cc

  IsDone-or_CanStep : 0 < n → IsDone s ⊎ CanStep n s
  IsDone-or_CanStep some_worker = elim (someone s.workers) [
    | inr (before, p, after, at, h) ↦ inr (worker-CanStep before after p at h)
    | inl all_gone ↦ elim (Bool-cases s.shared.closed) [
      | inl closed ↦ inl (closed, all_gone)
      | inr open_still ↦ elim (Bool-cases s.shared.cancelled) [
        | inl cancelled ↦ inr (_, close open_still (inr cancelled))
        | inr live ↦ absurd (
            omega (
              arith,
              some_worker,
              manned.size,
              manned.here open_still live,
              total-AllGone_all s.workers all_gone,
            ))
      ]
    ]
  ]

-- With the workers of `NewDispatcher`, whatever number is asked for, `Run` ends if every call of `fn` does. Where
-- it has not returned, some goroutine can take a step; and every step, also one that cancels, leaves fewer steps to
-- take. There are fewer than 2^63 inputs.
pub Reach-Ends :
    (workers : ℤ) (inputs : List String) {s : Dispatch}
    → length inputs < int64_bound
    → Reach (pos_part (new_dispatcher workers)) inputs s
    → (IsDone s ⊎ ((t : Dispatch) × Step (pos_part (new_dispatcher workers)) s t))
      × ((t : Dispatch)
          → Step (pos_part (new_dispatcher workers)) s t
          → steps_left t < steps_left s)
unfolding new_dispatcher
Reach-Ends workers inputs {s} fits r =
    let n = pos_part (new_dispatcher workers) in
    (
      IsDone-or_CanStep n s (Reach-slots n inputs fits r).0 (Reach-IsManned n inputs r)
          (ground arith),
      λ t st. step-lt n st,
    )
