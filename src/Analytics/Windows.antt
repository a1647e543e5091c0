-- ===== src/Analytics/Windows.antt =====
-- `WindowCounter` of internal/domain/analytics/heatmap.go.
use route_analysis_service.Prelude.{
  ℕ, suc, String, List, [], ◌∷◌, ◌++◌, Bool, not, ◌&&◌, ◌||◌, ◌==◌, if◌then◌else◌, Map, lookup,
  insert, delete, none, some,
}
use route_analysis_service.Model.Time.{Time, before, after, is_zero}
use route_analysis_service.Model.Validation.{is_nil}
use route_analysis_service.Model.Error.{Result, ok, err, message}

pub record WindowCounter : Type 0 where
  pub events : Map (List Time)

unfoldable pub new_window_counter : WindowCounter
new_window_counter = record { events = [] }

-- `c.events[key]`, which is nil for a missing key.
unfoldable pub events_of : String → Map (List Time) → List Time
events_of key m = elim (lookup key m) [ none ↦ [] | some times ↦ times ]

unfoldable pub record_event : WindowCounter → String → Time → WindowCounter × Result (Unit {0})
record_event c key at =
    if key == "" || is_zero at
    then (c, err (message "key and timestamp required"))
    else (record { events = insert key (events_of key c.events ++ at ∷ []) c.events }, ok tt)

abbrev pub within : Time → Time → Time → Bool
within from to at = not (before at from) && not (after at to)

unfoldable pub count_loop : Time → Time → ℕ → List Time → ℕ
count_loop from to n [] = n
count_loop from to n (at ∷ rest) = count_loop from to (if within from to at then suc n else n) rest

unfoldable pub count_events : WindowCounter → String → Time → Time → ℕ
unfolding events_of count_loop
count_events c key from to = count_loop from to 0 (events_of key c.events)

-- The loop over the events of one key: those kept, and how many are removed.
unfoldable pub keep_loop : Time → List Time × ℕ → List Time → List Time × ℕ
keep_loop limit acc [] = acc
keep_loop limit (kept, removed) (at ∷ rest) =
    keep_loop limit (if before at limit then (kept, suc removed) else (kept ++ at ∷ [], removed))
      rest

-- One key: it is deleted if no event is left.
unfoldable pub prune_key : Time → String → List Time → Map (List Time) × ℕ → Map (List Time) × ℕ
unfolding keep_loop
prune_key limit key times (m, removed) =
    let (kept, removed') = keep_loop limit ([], removed) times in
    (if is_nil kept then delete key m else insert key kept m, removed')

unfoldable pub prune_keys : Time → Map (List Time) → Map (List Time) × ℕ → Map (List Time) × ℕ
unfolding prune_key
prune_keys limit [] acc = acc
prune_keys limit ((key, times) ∷ rest) acc = prune_keys limit rest (prune_key limit key times acc)

unfoldable pub prune_events : WindowCounter → Time → WindowCounter × ℕ
unfolding prune_keys
prune_events c limit =
    let (m, removed) = prune_keys limit c.events (c.events, 0) in (record { events = m }, removed)
