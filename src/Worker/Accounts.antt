-- ===== src/Worker/Accounts.antt =====
-- `Run` of internal/infrastructure/worker/dispatcher.go accounts for every input.
use route_analysis_service.Prelude.{
  total, total-change, occurs, ℕ, ◌+◌, ◌≤◌, ◌<◌, String, List, [], ◌∷◌, ◌++◌, length, true, false,
  pos, int64_bound, inl, inr, ◌≡◌, refl, sym, ap, ◌∙◌, arith,
}
use route_analysis_service.Worker.Dispatcher.{
  Pc, receiving, holding, Shared, Dispatch, Move, Step, send, close, move, cancel, start_dispatch,
  Reach, begin, then_step, IsDone,
}
use route_analysis_service.Worker.Tally.{
  uses, carries, carries_any, calls_of, good, first_error, total-waiting_workers, total-AllGone,
}
use route_analysis_service.Worker.Moves.{
  move-slots, move-Kept, move-held, move-flags, move-success, move-first,
}

-- What is shared fits the workers: each slot taken is one worker's, and the counters say what the log does.
record IsCounted (m : Shared) (ps : List Pc) : Type 0 where
  slots : m.slots ≡ total uses ps
  success : m.success ≡ pos (good m.log)
  first : m.first_err ≡ first_error m.log

-- The input `x` was called or is with a worker or waits, as often as it was given; a cancelled run may
-- have lost some.
abbrev Kept : List String → Dispatch → String → Type 0
Kept inputs s x =
    let found = calls_of x s.shared.log + (total (carries x) s.workers + occurs x s.rest) in
    (found ≤ occurs x inputs) × (s.shared.cancelled ≡ false → found ≡ occurs x inputs)

record IsAccounted (n : ℕ) (inputs : List String) (s : Dispatch) : Type 0 where
  counted : IsCounted s.shared s.workers
  kept : (x : String) → Kept inputs s x
  held : length s.shared.log + (total carries_any s.workers + length s.rest) ≤ length inputs
  shut : s.shared.closed ≡ true → s.shared.cancelled ≡ false → s.rest ≡ []
  room : s.shared.slots ≤ n

module _ (inputs : List String) (fits : length inputs < int64_bound) where
  start_dispatch-IsAccounted : (n : ℕ) → IsAccounted n inputs (start_dispatch n inputs)
  unfolding start_dispatch good first_error calls_of
  start_dispatch-IsAccounted n = record {
    counted = record {
      slots = sym (total-waiting_workers uses n refl);
      success = refl;
      first = refl;
    };
    kept = λ x.
        let none_taken = total-waiting_workers (carries x) n refl in
        (omega (arith, none_taken), λ _. omega (arith, none_taken));
    held = omega (arith, total-waiting_workers carries_any n refl);
    shut = λ e _. cc;
    room = omega arith;
  }

  module _ (n : ℕ) (before after : List Pc) where
    move-IsAccounted :
        (p p' : Pc) (s : Dispatch) (m' : Shared)
        → s.workers ≡ before ++ p ∷ after
        → Move n s.shared p m' p'
        → IsAccounted n inputs s
        → IsAccounted n inputs (record s { shared = m'; workers = before ++ p' ∷ after })
    move-IsAccounted p p' s m' at mv a =
        let here : s.shared.slots ≡ total uses (before ++ p ∷ after) =
          a.counted.slots ∙ ap (total uses) at in
        let held = ap (total carries_any) at in
        record {
          counted = record {
            slots = move-slots n before after p p' s.shared m' mv here;
            success =
                move-success n before after p p' s.shared m' (omega (arith, a.held, fits, held)) mv
                  a.counted.success;
            first = move-first n before after p p' s.shared m' mv a.counted.first;
          };
          kept = λ x.
              let (le, same, eq) = move-Kept n before after x p p' s.shared m' mv in
              let old = ap (total (carries x)) at in
              (
                omega (arith, le, old, (a.kept x).0),
                λ e.
                    let open_still = sym same ∙ e in
                    omega (arith, eq open_still, old, (a.kept x).1 open_still),
              );
          held = omega (arith, a.held, held, move-held n before after p p' s.shared m' mv);
          shut = λ e f.
              let (closed, cancelled, _) = move-flags n before after p p' s.shared m' mv in
              a.shut (sym closed ∙ e) (sym cancelled ∙ f);
          room = (move-flags n before after p p' s.shared m' mv).2 a.room;
        }

  sent-IsAccounted :
      (n : ℕ) (s : Dispatch) (input : String) (rest : List String) (before after : List Pc)
      → s.shared.closed ≡ false
      → s.rest ≡ input ∷ rest
      → s.workers ≡ before ++ receiving ∷ after
      → IsAccounted n inputs s
      → IsAccounted n inputs (record s { rest = rest; workers = before ++ holding input ∷ after })
  unfolding occurs
  sent-IsAccounted n s input rest before after open_still first at a =
      let change = λ (f : Pc → ℕ). total-change f before after receiving (holding input) in
      let any_at = ap (total carries_any) at in
      let any_change = change carries_any in
      let length_rest = ap length first in
      record {
        counted = record {
          slots = a.counted.slots ∙ ap (total uses) at ∙ omega (arith, change uses);
          success = a.counted.success;
          first = a.counted.first;
        };
        kept = λ x.
            let at_x = ap (total (carries x)) at in
            let change_x = change (carries x) in
            let rest_x = ap (occurs x) first in
            (
              omega (arith, at_x, change_x, rest_x, (a.kept x).0),
              λ e. omega (arith, at_x, change_x, rest_x, (a.kept x).1 e),
            );
        held = omega (arith, any_at, any_change, length_rest, a.held);
        shut = λ e f. cc;
        room = a.room;
      }

  step-IsAccounted :
      (n : ℕ) {s t : Dispatch} → Step n s t → IsAccounted n inputs s → IsAccounted n inputs t
  step-IsAccounted n {s} (send input rest before after open_still first at) a =
      sent-IsAccounted n s input rest before after open_still first at a
  step-IsAccounted n {s} (close _ ended) a = record {
    counted = record {
      slots = a.counted.slots;
      success = a.counted.success;
      first = a.counted.first;
    };
    kept = a.kept;
    held = a.held;
    shut = λ _ f. elim ended [ inl e ↦ e | inr e ↦ cc ];
    room = a.room;
  }
  step-IsAccounted n {s} (move before after p p' m at mv) a =
      move-IsAccounted n before after p p' s m at mv a
  step-IsAccounted n (cancel _) a = record {
    counted = record {
      slots = a.counted.slots;
      success = a.counted.success;
      first = a.counted.first;
    };
    kept = λ x. ((a.kept x).0, λ e. cc);
    held = a.held;
    shut = λ _ f. cc;
    room = a.room;
  }

  Reach-IsAccounted : (n : ℕ) {s : Dispatch} → Reach n inputs s → IsAccounted n inputs s
  Reach-IsAccounted n begin = start_dispatch-IsAccounted n
  Reach-IsAccounted n (then_step r st) = step-IsAccounted n st (Reach-IsAccounted n r)

-- When `Run` returns, after any interleaving of its goroutines, it returns the number of the answers of `fn`
-- without an error, and the first error in the order of the lock. Every input was then called at most as often
-- as it is given, and exactly as often unless the context was cancelled. There are fewer than 2^63 inputs.
pub Reach-Exact :
    (n : ℕ) (inputs : List String) {s : Dispatch}
    → length inputs < int64_bound
    → Reach n inputs s
    → IsDone s
    → (s.shared.success ≡ pos (good s.shared.log))
      × (s.shared.first_err ≡ first_error s.shared.log)
      × ((x : String)
          → (calls_of x s.shared.log ≤ occurs x inputs)
            × (s.shared.cancelled ≡ false → calls_of x s.shared.log ≡ occurs x inputs))
unfolding occurs
Reach-Exact n inputs {s} fits r (closed, all_gone) =
    let a = Reach-IsAccounted inputs fits n r in
    (
      a.counted.success,
      a.counted.first,
      λ x.
          let idle = total-AllGone (carries x) s.workers refl all_gone in
          (
            omega (arith, idle, (a.kept x).0),
            λ e.
                let none_left = ap (occurs x) (a.shut closed e) in
                omega (arith, idle, none_left, (a.kept x).1 e),
          ),
    )

-- The slots are the workers' in use, and never more than there are.
pub Reach-slots :
    (n : ℕ) (inputs : List String) {s : Dispatch}
    → length inputs < int64_bound
    → Reach n inputs s
    → (s.shared.slots ≡ total uses s.workers) × (s.shared.slots ≤ n)
Reach-slots n inputs fits r = let a = Reach-IsAccounted inputs fits n r in (a.counted.slots, a.room)
