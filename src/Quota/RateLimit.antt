-- ===== src/Quota/RateLimit.antt =====
-- internal/domain/quota/rate_limit.go: a sliding-window limiter. The filter in place reads the
-- old slice before it writes, so it is a filter of values.
use route_analysis_service.Prelude.{
  ℕ, suc, ℤ, pos, ltb_ℤ, leb_ℤ, ◌-ℤ◌, ◌≤ℤ◌, -ℤ_parts, Bool, true, false, ◌&&◌, if◌then◌else◌,
  String, List, [], ◌∷◌, ◌++◌, length, length-append, length-filter-le, filter, Map, lookup, insert,
  lookup-insert_self, none, some, ◌≡◌, refl, sym, ap, ◌∙◌, arith, Bool-cases, inl, inr,
}
use route_analysis_service.Model.Time.{Time, Duration, after}

pub record RateLimiter : Type 0 where
  pub window : Duration
  pub limit : ℤ
  pub entries : Map (List Time)

abbrev pub minute : Duration
minute = pos 60000000000

unfoldable pub new_rate_limiter : ℤ → Duration → RateLimiter
new_rate_limiter limit window = record {
  window = if leb_ℤ window (pos 0) then minute else window;
  limit = if ltb_ℤ limit (pos 1) then pos 1 else limit;
  entries = [];
}

-- `r.entries[key]`, which is nil for a missing key.
unfoldable pub entries_of : RateLimiter → String → List Time
entries_of r key = elim (lookup key r.entries) [ none ↦ [] | some ts ↦ ts ]

abbrev pub in_window : Duration → Time → Time → Bool
in_window window at ts = after ts (at -ℤ window)

unfoldable pub allow : RateLimiter → String → Time → RateLimiter × Bool
allow r key at =
    let kept = filter (in_window r.window at) (entries_of r key) in
    if leb_ℤ r.limit (pos (length kept))
    then (record r { entries = insert key kept r.entries }, false)
    else (record r { entries = insert key (kept ++ at ∷ []) r.entries }, true)

unfoldable pub count : RateLimiter → String → Time → ℕ
count r key at = length (filter (in_window r.window at) (entries_of r key))

-- The limiter holds, for a key, what of its granted calls can still count: `history` lists all of
-- them, oldest first, and `last` is the time of the latest call.
pub record Tracks (r : RateLimiter) (key : String) (history : List Time) (last : Time)
    : Type 0 where
  pub seen :
      (t : Time)
      → last ≤ℤ t
      → filter (in_window r.window t) history ≡ filter (in_window r.window t) (entries_of r key)
  pub bounded : pos (length (entries_of r key)) ≤ℤ r.limit

in_window_later :
    (w : Duration) (at t ts : Time)
    → at ≤ℤ t
    → in_window w t ts ≡ (in_window w at ts && in_window w t ts)
in_window_later w at t ts h = ground (arith, -ℤ_parts at w, -ℤ_parts t w)

entries-insert :
    (r : RateLimiter) (key : String) (ts : List Time)
    → entries_of (record r { entries = insert key ts r.entries }) key ≡ ts
unfolding entries_of
entries-insert r key ts = rw (lookup-insert_self, entries_of)

-- What is cut off at one time would be cut off at every later time.
filter_later :
    (w : Duration) (at t : Time) (ts : List Time)
    → at ≤ℤ t
    → filter (in_window w t) (filter (in_window w at) ts) ≡ filter (in_window w t) ts
unfolding filter
filter_later w at t [] h = refl
filter_later w at t (x ∷ xs) h =
    ground (arith, in_window_later w at t x h, filter_later w at t xs h)

filter-append {ℓ} :
    {A : Type ℓ} (p : A → Bool) (xs ys : List A) → filter p (xs ++ ys) ≡ filter p xs ++ filter p ys
unfolding filter
filter-append p [] ys = refl
filter-append p (x ∷ xs) ys = ground (arith, filter-append p xs ys)

not_full : (l : ℤ) (n : ℕ) → leb_ℤ l (pos n) ≡ false → pos (suc n) ≤ℤ l
not_full l n h = ground arith

-- The history after a call.
abbrev pub note : List Time → Time → Bool → List Time
note history at granted = if granted then history ++ at ∷ [] else history

pub allow-Tracks :
    (r : RateLimiter) (key : String) (history : List Time) (last at : Time)
    → last ≤ℤ at
    → Tracks r key history last
    → Tracks (allow r key at).0 key (note history at (allow r key at).1) at
unfolding allow
allow-Tracks r key history last at h held =
    elim (Bool-cases
      (leb_ℤ r.limit (pos (length (filter (in_window r.window at) (entries_of r key)))))) [
        | inl full ↦ rw full (record {
          seen = λ t later. rw entries-insert (
              held.seen t (omega arith)
              ∙ sym (filter_later r.window at t (entries_of r key) later));
          bounded = rw entries-insert (
              omega
                (arith, length-filter-le (in_window r.window at) (entries_of r key), held.bounded));
        })
        | inr room ↦ rw room (record {
          seen = λ t later. rw entries-insert (
              filter-append (in_window r.window t) history (at ∷ [])
              ∙ ap (λ l. l ++ filter (in_window r.window t) (at ∷ []))
                  (held.seen t (omega arith)
                    ∙ sym (filter_later r.window at t (entries_of r key) later))
              ∙ sym (filter-append (in_window r.window t) _ (at ∷ [])));
          bounded = rw entries-insert (
              omega (
                arith,
                length-append (filter (in_window r.window at) (entries_of r key)) (at ∷ []),
                not_full r.limit (length (filter (in_window r.window at) (entries_of r key))) room,
              ));
        })
      ]

-- Calls for one key at the given times, with the history of those that were granted.
pub allow_all : RateLimiter → String → List Time → List Time → RateLimiter × List Time
allow_all r key history [] = (r, history)
allow_all r key history (at ∷ times) =
    let (r', granted) = allow r key at in allow_all r' key (note history at granted) times

abbrev pub IsAscending : Time → List Time → Type 0
IsAscending last [] = Unit
IsAscending last (at ∷ times) = (last ≤ℤ at) × IsAscending at times

abbrev pub final : Time → List Time → Time
final last [] = last
final last (at ∷ times) = final at times

allow_keeps :
    (r : RateLimiter) (key : String) (at : Time)
    → ((allow r key at).0.window ≡ r.window) × ((allow r key at).0.limit ≡ r.limit)
unfolding allow
allow_keeps r key at = (ground arith, ground arith)

allow_all-Tracks :
    (r : RateLimiter) (key : String) (history : List Time) (last : Time) (times : List Time)
    → IsAscending last times
    → Tracks r key history last
    → let (r', h) = allow_all r key history times in
      Tracks r' key h (final last times) × (r'.window ≡ r.window) × (r'.limit ≡ r.limit)
unfolding allow_all
allow_all-Tracks r key history last [] a held = (held, refl, refl)
allow_all-Tracks r key history last (at ∷ times) a held =
    let keep = allow_keeps r key at in
    let rest =
      allow_all-Tracks (allow r key at).0 key (note history at (allow r key at).1) at times a.1
        (allow-Tracks r key history last at a.0 held) in
    (rest.0, rest.1 ∙ keep.0, rest.2 ∙ keep.1)

new-Tracks :
    (limit : ℤ) (window : Duration) (key : String) (last : Time)
    → Tracks (new_rate_limiter limit window) key [] last
unfolding new_rate_limiter entries_of lookup filter
new-Tracks limit window key last = record { seen = λ t h. refl; bounded = ground arith }

-- A new limiter, called for one key at times that do not go back, has not granted more of the
-- calls within the window that ends with the latest call than its limit.
pub allow_all-le-limit :
    (limit : ℤ) (window : Duration) (key : String) (start : Time) (times : List Time)
    → IsAscending start times
    → let r = new_rate_limiter limit window in
      pos (length (filter (in_window r.window (final start times)) (allow_all r key [] times).1))
      ≤ℤ r.limit
allow_all-le-limit limit window key start times a =
    let r = new_rate_limiter limit window in
    let all = allow_all-Tracks r key [] start times a (new-Tracks limit window key start) in
    within r (allow_all r key [] times).0 (allow_all r key [] times).1 all.0 all.1 all.2
  where
    within :
        (r r' : RateLimiter) (h : List Time)
        → Tracks r' key h (final start times)
        → r'.window ≡ r.window
        → r'.limit ≡ r.limit
        → pos (length (filter (in_window r.window (final start times)) h)) ≤ℤ r.limit
    within r r' h held w l =
        rw (← w, ← l, held.seen (final start times) (omega arith))
          (omega (
            arith,
            length-filter-le (in_window r'.window (final start times)) (entries_of r' key),
            held.bounded,
          ))
