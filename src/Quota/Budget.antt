-- ===== src/Quota/Budget.antt =====
-- internal/domain/quota/budget.go: a tenant's allowance in the current window. A mutex makes each
-- method one step.
use route_analysis_service.Prelude.{
  ℕ, ◌+◌, ℤ, pos, pos_part, neg_part, ltb_ℤ, leb_ℤ, ◌+ℤ◌, ◌-ℤ◌, ◌+64◌, ◌≤ℤ◌, ◌<ℤ◌, IsInt64,
  increment_lem, increment_fits, +ℤ_parts, -ℤ_parts, eq_of_parts, int_laws, true, not,
  if◌then◌else◌, List, [], ◌∷◌, All, ◌≡◌, refl, arith, Bool-cases, inl, inr, ◌↔◌, leb→le, ap,
}
use route_analysis_service.Model.Time.{Time, Duration, before, add}
use route_analysis_service.Model.Error.{Result, ok, err, budget_exceeded}

pub record Budget : Type 0 where
  pub limit : ℤ
  pub used : ℤ
  pub window : Duration
  pub reset_at : Time

abbrev pub hour : Duration
hour = pos 3600000000000

unfoldable pub new_budget : ℤ → Duration → Time → Budget
new_budget limit window now =
    let window' = if leb_ℤ window (pos 0) then hour else window in
    record {
      limit = if ltb_ℤ limit (pos 0) then pos 0 else limit;
      used = pos 0;
      window = window';
      reset_at = add now window';
    }

-- A new window starts with the first call that is not before the end of the old one.
unfoldable pub roll : Budget → Time → Budget
roll b at =
    if not (before at b.reset_at) then record b { used = pos 0; reset_at = add at b.window } else b

unfoldable pub spend : Budget → Budget × Result (Unit {0})
spend b =
    if leb_ℤ b.limit b.used
    then (b, err budget_exceeded)
    else (record b { used = b.used +64 pos 1 }, ok tt)

unfoldable pub consume : Budget → Time → Budget × Result (Unit {0})
unfolding roll spend
consume b at = spend (roll b at)

unfoldable pub remaining : Budget → Time → ℤ
remaining b at =
    if not (before at b.reset_at)
    then b.limit
    else if ltb_ℤ (b.limit -ℤ b.used) (pos 0)
    then pos 0
    else b.limit -ℤ b.used

pub record IsValid (b : Budget) : Type 0 where
  pub limit_fits : IsInt64 b.limit
  pub used_fits : IsInt64 b.used
  pub not_negative : pos 0 ≤ℤ b.used
  pub within : b.used ≤ℤ b.limit

pub new_budget-IsValid :
    (limit : ℤ) (window : Duration) (now : Time)
    → IsInt64 limit
    → IsValid (new_budget limit window now)
unfolding new_budget
new_budget-IsValid limit window now h = ground arith

roll-IsValid : {b : Budget} (at : Time) → IsValid b → IsValid (roll b at)
unfolding roll
roll-IsValid at v = ground arith

spend-IsValid : {b : Budget} → IsValid b → IsValid (spend b).0
unfolding spend
spend-IsValid {b} v = ground (
  arith,
  increment_lem b.used b.limit v.used_fits v.limit_fits,
  increment_fits b.used b.limit v.used_fits v.limit_fits,
  +ℤ_parts b.used (pos 1),
)

-- `Consume` keeps the units used between zero and the limit, so the counter never overflows.
pub consume-IsValid : {b : Budget} (at : Time) → IsValid b → IsValid (consume b at).0
unfolding consume
consume-IsValid at v = spend-IsValid (roll-IsValid at v)

-- The number of calls, one at each time, that a budget grants, and the budget after them.
abbrev pub granted : Result (Unit {0}) → ℕ
granted (ok _) = 1
granted (err _) = 0

pub consume_all : Budget → List Time → Budget × ℕ
consume_all b [] = (b, 0)
consume_all b (at ∷ times) =
    let (b', r) = consume b at in let (b'', n) = consume_all b' times in (b'', granted r + n)

roll-before : (b : Budget) (at : Time) → pos 0 <ℤ b.window → before at (roll b at).reset_at ≡ true
unfolding roll add
roll-before b at w = ground (arith, +ℤ_parts at b.window)

remaining-roll :
    (b : Budget) (at : Time)
    → IsValid b
    → pos 0 <ℤ b.window
    → remaining (roll b at) at ≡ remaining b at
unfolding roll remaining add
remaining-roll b at v w =
    ground (
      arith,
      +ℤ_parts at b.window,
      -ℤ_parts b.limit (pos 0),
      eq_of_parts (b.limit -ℤ pos 0) b.limit,
    )

-- Before the window ends, what remains is the difference.
remaining_in_window :
    (b : Budget) (at : Time)
    → IsValid b
    → before at b.reset_at ≡ true
    → remaining b at ≡ b.limit -ℤ b.used
unfolding remaining
remaining_in_window b at v h = ground (arith, -ℤ_parts b.limit b.used)

spend_reset : (b : Budget) → (spend b).0.reset_at ≡ b.reset_at
unfolding spend
spend_reset b = ground arith

no_room : (a b : ℤ) → b <ℤ a → pos_part (a -ℤ b) ≡ 0 → neg_part (a -ℤ b) ≡ 0 → ⊥
no_room a b h p n = omega int_laws

-- One unit is taken if there is one, and the call is refused if there is none.
spend_takes_one :
    (b : Budget)
    → IsValid b
    → (b.limit -ℤ b.used ≡ pos (granted (spend b).1) +ℤ ((spend b).0.limit -ℤ (spend b).0.used))
      × ((granted (spend b).1 ≡ 0) ↔ (b.limit -ℤ b.used ≡ pos 0))
unfolding spend
spend_takes_one b v = elim (Bool-cases (leb_ℤ b.limit b.used)) [
  | inl full ↦ rw full (omega int_laws, (λ _. omega (int_laws, leb→le _ _ full), λ _. refl))
  | inr room ↦
      rw (room, increment_lem b.used b.limit v.used_fits v.limit_fits (ground arith))
        (
          omega int_laws,
          (
            λ e. absurd (omega arith),
            λ e. absurd (no_room b.limit b.used (ground arith) (ap pos_part e) (ap neg_part e)),
          ),
        )
]

remaining-spend :
    (b : Budget) (at : Time)
    → IsValid b
    → before at b.reset_at ≡ true
    → (remaining b at ≡ pos (granted (spend b).1) +ℤ remaining (spend b).0 at)
      × ((granted (spend b).1 ≡ 0) ↔ (remaining b at ≡ pos 0))
remaining-spend b at v h =
    rw
      (
        remaining_in_window b at v h,
        remaining_in_window (spend b).0 at (spend-IsValid v) (rw (spend_reset b) h),
      )
      (spend_takes_one b v)

-- On a valid budget with a positive window, `Consume` refuses a call exactly if `Remaining` is
-- zero just before; otherwise it takes one unit from what remains.
consume-remaining :
    (b : Budget) (at : Time)
    → IsValid b
    → pos 0 <ℤ b.window
    → (remaining b at ≡ pos (granted (consume b at).1) +ℤ remaining (consume b at).0 at)
      × ((granted (consume b at).1 ≡ 0) ↔ (remaining b at ≡ pos 0))
unfolding consume
consume-remaining b at v w =
    rw (← remaining-roll b at v w)
      (remaining-spend (roll b at) at (roll-IsValid at v) (roll-before b at w))

consume_in_window : (b : Budget) (at : Time) → before at b.reset_at ≡ true → consume b at ≡ spend b
unfolding consume
consume_in_window b at h = rw h

-- Of any calls on a valid budget that all come before its window ends, at most as many are
-- granted as units were left.
pub consume_all-le-limit :
    (b : Budget) (times : List Time)
    → IsValid b
    → All (λ at. before at b.reset_at ≡ true) times
    → pos (consume_all b times).1 ≤ℤ b.limit -ℤ b.used
unfolding consume_all
consume_all-le-limit b [] v h = omega (int_laws, v.within)
consume_all-le-limit b (at ∷ times) v h =
    let one = (spend_takes_one b v).0 in
    let later = consume_all-le-limit (spend b).0 times (spend-IsValid v) (rw (spend_reset b) h.1) in
    rw (consume_in_window b at h.0) (omega (int_laws, later, ap pos_part one, ap neg_part one))
