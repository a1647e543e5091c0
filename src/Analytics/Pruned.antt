-- ===== src/Analytics/Pruned.antt =====
-- What `Prune` leaves to `Count`, for the `WindowCounter` of internal/domain/analytics/heatmap.go.
use route_analysis_service.Prelude.{
  ℕ, suc, ◌+◌, String, List, [], ◌∷◌, ◌++◌, length, filter, Bool, true, false, not, ◌==◌,
  if◌then◌else◌, Map, lookup, insert, delete, contains, lookup-insert, lookup-delete, Bool-cases,
  inl, inr, ≡-of_eq, ◌≡◌, refl, sym, ap, subst, ◌∙◌, arith,
}
use mathlib.Core.List.{append-nil, append_assoc}
use route_analysis_service.Model.Time.{Time, before}
use route_analysis_service.Model.Validation.{is_nil}
use route_analysis_service.Cache.Ttl.{HasUniqueKeys}
use route_analysis_service.Analytics.Windows.{
  WindowCounter, events_of, within, count_loop, count_events, keep_loop, prune_key, prune_keys,
  prune_events,
}

abbrev is_kept : Time → Time → Bool
is_kept limit at = not (before at limit)

keep_loop-filter :
    (limit : Time) (kept : List Time) (removed : ℕ) (times : List Time)
    → (keep_loop limit (kept, removed) times).0 ≡ kept ++ filter (is_kept limit) times
unfolding keep_loop filter
keep_loop-filter limit kept removed [] = sym (append-nil kept)
keep_loop-filter limit kept removed (at ∷ rest) = elim (Bool-cases (before at limit)) [
  | inl old ↦ rw old (keep_loop-filter limit kept (suc removed) rest)
  | inr recent ↦ rw recent (
      keep_loop-filter limit (kept ++ at ∷ []) removed rest
      ∙ append_assoc kept (at ∷ []) (filter (is_kept limit) rest))
]

count_loop-start :
    (from to : Time) (n : ℕ) (times : List Time)
    → count_loop from to n times ≡ n + length (filter (within from to) times)
unfolding count_loop filter
count_loop-start from to n [] = omega arith
count_loop-start from to n (at ∷ rest) =
    ground (arith, count_loop-start from to (suc n) rest, count_loop-start from to n rest)

-- The later of two times.
abbrev pub later : Time → Time → Time
later a b = if before a b then b else a

length-filter_kept :
    (from to limit : Time) (times : List Time)
    → length (filter (within from to) (filter (is_kept limit) times))
      ≡ length (filter (within (later from limit) to) times)
unfolding filter
length-filter_kept from to limit [] = refl
length-filter_kept from to limit (at ∷ rest) = ground (arith, length-filter_kept from to limit rest)

prune_key-events_of :
    (limit : Time) (key : String) (times : List Time) (acc : Map (List Time) × ℕ) (k : String)
    → events_of k (prune_key limit key times acc).0
      ≡ (if key == k then filter (is_kept limit) times else events_of k acc.0)
unfolding prune_key events_of
prune_key-events_of limit key times (m, removed) k =
    rw (keep_loop-filter limit [] removed times) (by_kept (filter (is_kept limit) times))
  where
    by_kept :
        (kept : List Time)
        → events_of k (if is_nil kept then delete key m else insert key kept m)
          ≡ (if key == k then kept else events_of k m)
    by_kept [] = ground (arith, lookup-delete key k m)
    by_kept (at ∷ rest) = ground (arith, lookup-insert key k (at ∷ rest) m)

-- What the loop does not visit, it keeps.
prune_keys-unvisited :
    (limit : Time) (es : Map (List Time)) (acc : Map (List Time) × ℕ) (k : String)
    → contains k es ≡ false
    → events_of k (prune_keys limit es acc).0 ≡ events_of k acc.0
unfolding prune_keys lookup
prune_keys-unvisited limit [] acc k h = refl
prune_keys-unvisited limit ((key, times) ∷ rest) acc k h = elim (Bool-cases (key == k)) [
  | inl same ↦ ground (arith, same, h)
  | inr other ↦
      prune_keys-unvisited limit rest (prune_key limit key times acc) k (ground (arith, other, h))
      ∙ prune_key-events_of limit key times acc k
      ∙ rw other refl
]

events_of-cons :
    (k key : String) (times : List Time) (rest : Map (List Time))
    → events_of k ((key, times) ∷ rest) ≡ (if key == k then times else events_of k rest)
unfolding events_of lookup
events_of-cons k key times rest = ground arith

events_of-missing : (k : String) (m : Map (List Time)) → contains k m ≡ false → events_of k m ≡ []
unfolding events_of
events_of-missing k m h = ground (arith, h)

-- What it visits, it filters.
prune_keys-visited :
    (limit : Time) (es : Map (List Time)) (acc : Map (List Time) × ℕ) (k : String)
    → HasUniqueKeys es
    → contains k es ≡ true
    → events_of k (prune_keys limit es acc).0 ≡ filter (is_kept limit) (events_of k es)
unfolding prune_keys lookup
prune_keys-visited limit [] acc k u h = cc
prune_keys-visited limit ((key, times) ∷ rest) acc k u h = elim (Bool-cases (key == k)) [
  | inl same ↦
      prune_keys-unvisited limit rest (prune_key limit key times acc) k
        (subst (λ j. contains j rest ≡ false) (≡-of_eq key k same) u.0)
      ∙ prune_key-events_of limit key times acc k
      ∙ rw (same, events_of-cons k key times rest, same) refl
  | inr other ↦
      prune_keys-visited limit rest (prune_key limit key times acc) k u.1 (ground (arith, other, h))
      ∙ rw (events_of-cons k key times rest, other) refl
]

prune_events-events_of :
    (c : WindowCounter) (limit : Time) (k : String)
    → HasUniqueKeys c.events
    → events_of k (prune_events c limit).0.events ≡ filter (is_kept limit) (events_of k c.events)
unfolding prune_events filter
prune_events-events_of c limit k u = elim (Bool-cases (contains k c.events)) [
  | inl known ↦ prune_keys-visited limit c.events (c.events, 0) k u known
  | inr unknown ↦
      prune_keys-unvisited limit c.events (c.events, 0) k unknown
      ∙ rw (events_of-missing k c.events unknown, filter) refl
]

-- After `Prune`, a count is that of the window cut off at the limit before it: no event from the limit on is lost,
-- and none before it is counted again. A map has each key once.
pub count_events-prune_events :
    (c : WindowCounter) (limit : Time) (k : String) (from to : Time)
    → HasUniqueKeys c.events
    → count_events (prune_events c limit).0 k from to ≡ count_events c k (later from limit) to
unfolding count_events
count_events-prune_events c limit k from to u =
    ap (count_loop from to 0) (prune_events-events_of c limit k u)
    ∙ count_loop-start from to 0 (filter (is_kept limit) (events_of k c.events))
    ∙ omega (
      arith,
      length-filter_kept from to limit (events_of k c.events),
      count_loop-start (later from limit) to 0 (events_of k c.events),
    )
