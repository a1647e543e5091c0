-- ===== src/Worker/Measure.antt =====
-- How many steps `Run` of internal/infrastructure/worker/dispatcher.go and its workers may take.
use route_analysis_service.Prelude.{
  total, total-change, total-replace, ℕ, ◌+◌, ◌*◌, ◌<◌, List, ◌∷◌, ◌++◌, length, Bool, true, false,
  ap, arith,
}
use route_analysis_service.Worker.Dispatcher.{
  Pc, receiving, holding, calling, answered, reporting, recorded, gone, Shared, Dispatch, Move,
  leave, acquire, abandon, answer, release, count, again, quit, Step, send, close, move, cancel,
}
use route_analysis_service.Worker.Moves.{move-flags}

-- How many steps a worker may still take without a new input.
abbrev weight : Pc → ℕ
weight gone = 0
weight receiving = 1
weight recorded = 2
weight (reporting i r) = 3
weight (answered i r) = 4
weight (calling i) = 5
weight (holding i) = 6

abbrev one_unless : Bool → ℕ
one_unless true = 0
one_unless false = 1

unfoldable pub steps_left : Dispatch → ℕ
steps_left s =
    6 * length s.rest
    + total weight s.workers
    + one_unless s.shared.closed
    + one_unless s.shared.cancelled

module _ (n : ℕ) (before after : List Pc) where
  move-weight :
      (p p' : Pc) (m m' : Shared)
      → Move n m p m' p'
      → total weight (before ++ p' ∷ after) < total weight (before ++ p ∷ after)
  move-weight p p' m m' (leave _) = omega (arith, total-change weight before after p p')
  move-weight p p' m m' (acquire _) = omega (arith, total-change weight before after p p')
  move-weight p p' m m' (abandon _) = omega (arith, total-change weight before after p p')
  move-weight p p' m m' (answer r) = omega (arith, total-change weight before after p p')
  move-weight p p' m m' release = omega (arith, total-change weight before after p p')
  move-weight p p' m m' count = omega (arith, total-change weight before after p p')
  move-weight p p' m m' (again _) = omega (arith, total-change weight before after p p')
  move-weight p p' m m' (quit _) = omega (arith, total-change weight before after p p')

pub step-lt : (n : ℕ) {s t : Dispatch} → Step n s t → steps_left t < steps_left s
unfolding steps_left
step-lt n {s} (send input rest before after _ first at) = omega (
  arith,
  ap length first,
  total-replace weight s.workers before after receiving (holding input) at,
)
step-lt n (close open_still _) = omega (arith, ap one_unless open_still)
step-lt n {s} (move before after p p' m at mv) =
    let (closed, cancelled, _) = move-flags n before after p p' s.shared m mv in
    omega (
      arith,
      ap one_unless closed,
      ap one_unless cancelled,
      ap (total weight) at,
      move-weight n before after p p' s.shared m mv,
    )
step-lt n (cancel live) = omega (arith, ap one_unless live)
