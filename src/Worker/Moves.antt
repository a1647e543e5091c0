-- ===== src/Worker/Moves.antt =====
-- `Run` of internal/infrastructure/worker/dispatcher.go moves one worker at a time: what a move changes.
use route_analysis_service.Prelude.{
  total, total-change, ℕ, suc, ◌+◌, ◌≤◌, ◌<◌, String, List, [], ◌∷◌, ◌++◌, length, length-append,
  false, pos, ◌+64◌, ◌+ℤ◌, wrap64-of_IsInt64, int64_bound, none, some, ◌≡◌, refl, ap, ◌∙◌, arith,
}
use route_analysis_service.Worker.Dispatcher.{
  Pc, Shared, report, Move, leave, acquire, abandon, answer, release, count, again, quit,
}
use route_analysis_service.Worker.Tally.{
  uses, carries, carries_any, calls_of, good, first_error, calls_of-snoc, good-snoc, good-le-length,
  first_error-snoc,
}

pos-increment : (k : ℕ) → suc k < int64_bound → pos k +64 pos 1 ≡ pos (k + 1)
unfolding ◌+64◌ ◌+ℤ◌
pos-increment k h = wrap64-of_IsInt64 (pos k +ℤ pos 1) (ground arith) ∙ ground arith

module _ (n : ℕ) (before after : List Pc) where
  pub move-slots :
      (p p' : Pc) (m m' : Shared)
      → Move n m p m' p'
      → m.slots ≡ total uses (before ++ p ∷ after)
      → m'.slots ≡ total uses (before ++ p' ∷ after)
  unfolding report
  move-slots p p' m m' (leave _) e = omega (arith, total-change uses before after p p')
  move-slots p p' m m' (acquire _) e = omega (arith, total-change uses before after p p')
  move-slots p p' m m' (abandon _) e = omega (arith, total-change uses before after p p')
  move-slots p p' m m' (answer r) e = omega (arith, total-change uses before after p p')
  move-slots p p' m m' release e = omega (arith, total-change uses before after p p')
  move-slots p p' m m' (count {r = none}) e = omega (arith, total-change uses before after p p')
  move-slots p p' m m' (count {r = some _}) e = omega (arith, total-change uses before after p p')
  move-slots p p' m m' (again _) e = omega (arith, total-change uses before after p p')
  move-slots p p' m m' (quit _) e = omega (arith, total-change uses before after p p')

  -- Where the input is, before and after the move: only `abandon` loses it, on a cancelled context.
  pub move-Kept :
      (x : String) (p p' : Pc) (m m' : Shared)
      → Move n m p m' p'
      → let old = calls_of x m.log + total (carries x) (before ++ p ∷ after) in
        let new = calls_of x m'.log + total (carries x) (before ++ p' ∷ after) in
        (new ≤ old) × (m'.cancelled ≡ m.cancelled) × (m.cancelled ≡ false → new ≡ old)
  unfolding report
  move-Kept x p p' m m' (leave _) = (
    omega (arith, total-change (carries x) before after p p'),
    refl,
    λ _. omega (arith, total-change (carries x) before after p p'),
  )
  move-Kept x p p' m m' (acquire _) = (
    omega (arith, total-change (carries x) before after p p'),
    refl,
    λ _. omega (arith, total-change (carries x) before after p p'),
  )
  move-Kept x p p' m m' (abandon c) =
      (omega (arith, total-change (carries x) before after p p'), refl, λ e. cc)
  move-Kept x p p' m m' (answer r) = (
    omega (arith, total-change (carries x) before after p p'),
    refl,
    λ _. omega (arith, total-change (carries x) before after p p'),
  )
  move-Kept x p p' m m' release = (
    omega (arith, total-change (carries x) before after p p'),
    refl,
    λ _. omega (arith, total-change (carries x) before after p p'),
  )
  move-Kept x p p' m m' (count {i} {r = none}) = (
    omega (arith, total-change (carries x) before after p p', calls_of-snoc x i none m.log),
    refl,
    λ _. omega (arith, total-change (carries x) before after p p', calls_of-snoc x i none m.log),
  )
  move-Kept x p p' m m' (count {i} {r = some e}) = (
    omega (arith, total-change (carries x) before after p p', calls_of-snoc x i (some e) m.log),
    refl,
    λ _.
        omega (arith, total-change (carries x) before after p p', calls_of-snoc x i (some e) m.log),
  )
  move-Kept x p p' m m' (again _) = (
    omega (arith, total-change (carries x) before after p p'),
    refl,
    λ _. omega (arith, total-change (carries x) before after p p'),
  )
  move-Kept x p p' m m' (quit _) = (
    omega (arith, total-change (carries x) before after p p'),
    refl,
    λ _. omega (arith, total-change (carries x) before after p p'),
  )

  pub move-held :
      (p p' : Pc) (m m' : Shared)
      → Move n m p m' p'
      → length m'.log + total carries_any (before ++ p' ∷ after)
        ≤ length m.log + total carries_any (before ++ p ∷ after)
  unfolding report
  move-held p p' m m' (leave _) = omega (arith, total-change carries_any before after p p')
  move-held p p' m m' (acquire _) = omega (arith, total-change carries_any before after p p')
  move-held p p' m m' (abandon _) = omega (arith, total-change carries_any before after p p')
  move-held p p' m m' (answer r) = omega (arith, total-change carries_any before after p p')
  move-held p p' m m' release = omega (arith, total-change carries_any before after p p')
  move-held p p' m m' (count {i} {r = none}) =
      omega
        (arith, total-change carries_any before after p p', length-append m.log ((i, none) ∷ []))
  move-held p p' m m' (count {i} {r = some e}) =
      omega
        (arith, total-change carries_any before after p p', length-append m.log ((i, some e) ∷ []))
  move-held p p' m m' (again _) = omega (arith, total-change carries_any before after p p')
  move-held p p' m m' (quit _) = omega (arith, total-change carries_any before after p p')

  pub move-flags :
      (p p' : Pc) (m m' : Shared)
      → Move n m p m' p'
      → (m'.closed ≡ m.closed) × (m'.cancelled ≡ m.cancelled) × (m.slots ≤ n → m'.slots ≤ n)
  unfolding report
  move-flags p p' m m' (leave _) = (refl, refl, λ h. h)
  move-flags p p' m m' (acquire below) = (refl, refl, λ h. omega arith)
  move-flags p p' m m' (abandon _) = (refl, refl, λ h. h)
  move-flags p p' m m' (answer r) = (refl, refl, λ h. h)
  move-flags p p' m m' release = (refl, refl, λ h. omega arith)
  move-flags p p' m m' (count {r = none}) = (refl, refl, λ h. h)
  move-flags p p' m m' (count {r = some _}) = (refl, refl, λ h. h)
  move-flags p p' m m' (again _) = (refl, refl, λ h. h)
  move-flags p p' m m' (quit _) = (refl, refl, λ h. h)

  pub move-success :
      (p p' : Pc) (m m' : Shared)
      → length m.log + total carries_any (before ++ p ∷ after) < int64_bound
      → Move n m p m' p'
      → m.success ≡ pos (good m.log)
      → m'.success ≡ pos (good m'.log)
  unfolding report good
  move-success p p' m m' h (leave _) e = e
  move-success p p' m m' h (acquire _) e = e
  move-success p p' m m' h (abandon _) e = e
  move-success p p' m m' h (answer r) e = e
  move-success p p' m m' h release e = e
  move-success p p' m m' h (count {i} {r = none}) e =
      rw (e, good-snoc i none m.log)
        (pos-increment (good m.log)
          (omega (arith, h, good-le-length m.log, total-change carries_any before after p p')))
  move-success p p' m m' h (count {i} {r = some f}) e =
      e ∙ ap pos (omega (arith, good-snoc i (some f) m.log))
  move-success p p' m m' h (again _) e = e
  move-success p p' m m' h (quit _) e = e

  pub move-first :
      (p p' : Pc) (m m' : Shared)
      → Move n m p m' p'
      → m.first_err ≡ first_error m.log
      → m'.first_err ≡ first_error m'.log
  unfolding report first_error
  move-first p p' m m' (leave _) e = e
  move-first p p' m m' (acquire _) e = e
  move-first p p' m m' (abandon _) e = e
  move-first p p' m m' (answer r) e = e
  move-first p p' m m' release e = e
  move-first p p' m m' (count {i} {r = none}) e = ground (arith, first_error-snoc i none m.log)
  move-first p p' m m' (count {i} {r = some f}) e =
      ground (arith, first_error-snoc i (some f) m.log)
  move-first p p' m m' (again _) e = e
  move-first p p' m m' (quit _) e = e
