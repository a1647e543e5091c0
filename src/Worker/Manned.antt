-- ===== src/Worker/Manned.antt =====
-- When the workers of `Run` of internal/infrastructure/worker/dispatcher.go may leave.
use route_analysis_service.Prelude.{
  total, total-replace, ℕ, zero, suc, String, List, ◌∷◌, ◌++◌, length, length-append, false, ◌≡◌,
  refl, sym, ap, ◌∙◌, arith,
}
use route_analysis_service.Worker.Dispatcher.{
  Pc, receiving, holding, gone, Shared, Dispatch, Move, leave, acquire, abandon, answer, release,
  count, again, quit, Step, send, close, move, cancel, waiting_workers, start_dispatch, Reach,
  begin, then_step,
}
use route_analysis_service.Worker.Tally.{total-waiting_workers}
use route_analysis_service.Worker.Moves.{move-flags}

abbrev pub is_gone : Pc → ℕ
is_gone gone = 1
is_gone _ = 0

-- No worker leaves before the channel is closed or the context is cancelled.
pub record IsManned (n : ℕ) (s : Dispatch) : Type 0 where
  pub size : length s.workers ≡ n
  pub here : s.shared.closed ≡ false → s.shared.cancelled ≡ false → total is_gone s.workers ≡ 0

length-waiting_workers : (n : ℕ) → length (waiting_workers n) ≡ n
unfolding waiting_workers
length-waiting_workers zero = refl
length-waiting_workers (suc n) = ap suc (length-waiting_workers n)

length-change :
    (before after : List Pc) (p p' : Pc)
    → length (before ++ p' ∷ after) ≡ length (before ++ p ∷ after)
length-change before after p p' =
    omega (arith, length-append before (p ∷ after), length-append before (p' ∷ after))

move-is_gone :
    (n : ℕ) (p p' : Pc) (m m' : Shared)
    → Move n m p m' p'
    → m.closed ≡ false
    → m.cancelled ≡ false
    → is_gone p' ≡ 0
move-is_gone n p p' m m' (leave e) f g = cc
move-is_gone n p p' m m' (acquire _) f g = refl
move-is_gone n p p' m m' (abandon e) f g = cc
move-is_gone n p p' m m' (answer r) f g = refl
move-is_gone n p p' m m' release f g = refl
move-is_gone n p p' m m' count f g = refl
move-is_gone n p p' m m' (again _) f g = refl
move-is_gone n p p' m m' (quit e) f g = cc

step-IsManned : (n : ℕ) {s t : Dispatch} → Step n s t → IsManned n s → IsManned n t
step-IsManned n {s} (send input rest before after _ first at) a = record {
  size = length-change before after receiving (holding input) ∙ sym (ap length at) ∙ a.size;
  here = λ e f. omega (
    arith,
    a.here e f,
    total-replace is_gone s.workers before after receiving (holding input) at,
  );
}
step-IsManned n (close _ _) a = record { size = a.size; here = λ e f. cc }
step-IsManned n {s} (move before after p p' m at mv) a =
    let (closed, cancelled, _) = move-flags n before after p p' s.shared m mv in
    record {
      size = length-change before after p p' ∙ sym (ap length at) ∙ a.size;
      here = λ e f. omega (
        arith,
        a.here (sym closed ∙ e) (sym cancelled ∙ f),
        move-is_gone n p p' s.shared m mv (sym closed ∙ e) (sym cancelled ∙ f),
        total-replace is_gone s.workers before after p p' at,
      );
    }
step-IsManned n (cancel _) a = record { size = a.size; here = λ e f. cc }

pub Reach-IsManned : (n : ℕ) (inputs : List String) {s : Dispatch} → Reach n inputs s → IsManned n s
unfolding start_dispatch
Reach-IsManned n inputs begin = record {
  size = length-waiting_workers n;
  here = λ _ _. total-waiting_workers is_gone n refl;
}
Reach-IsManned n inputs (then_step r st) = step-IsManned n st (Reach-IsManned n inputs r)
