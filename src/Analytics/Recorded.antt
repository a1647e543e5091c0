-- ===== src/Analytics/Recorded.antt =====
-- What the traffic index of internal/domain/analytics/network.go holds after any records, and its answers.
use route_analysis_service.Prelude.{
  ℕ, zero, suc, ltb, ◌+◌, ◌-◌, String, List, [], ◌∷◌, ◌++◌, length, length-append, drop,
  drop-append, drop-suc, length-drop, filter, filter-append, Bool, true, false, not, ◌&&◌, ◌==◌,
  if◌then◌else◌, ℤ, pos, negsuc, pos_part, ◌-ℤ◌, ltb_ℤ, lookup, lookup-insert, Option, none, some,
  All, All-append, All-map, Elem, Elem-append_left, Elem-append_right, inl, inr, Bool-cases, ◌≡◌,
  refl, sym, ap, subst, ◌∙◌, arith, ≡-of_eq, leb,
}
use mathlib.Core.List.{append-nil, append_assoc}
use route_analysis_service.Model.Float.{Float64}
use route_analysis_service.Model.Time.{Time, after}
use route_analysis_service.Model.Error.{Result, ok, err}
use route_analysis_service.Analytics.Traffic.{
  EdgeObservation, TrafficIndex, new_traffic_index, observed, trimmed, latest_loop, latest,
  validate_observation, added, recorded, record_observation,
}

abbrev pub kept_count : ℤ → ℕ
kept_count limit = if ltb_ℤ limit (pos 100) then 100 else pos_part limit

limit_asked :
    (limit : ℤ) → (if ltb_ℤ limit (pos 100) then pos 100 else limit) ≡ pos (kept_count limit)
limit_asked (pos m) = choose (ltb_ℤ (pos m) (pos 100))
  where
    choose : (b : Bool) → (if b then pos 100 else pos m) ≡ pos (if b then 100 else m)
    choose true = refl
    choose false = refl
limit_asked (negsuc m) = let less : ltb 0 (100 + suc m) ≡ true = ground arith in rw less refl

drop_nil : {A : Type 0} (k : ℕ) → [] ≡ drop {A = A} k []
unfolding drop
drop_nil zero = refl
drop_nil (suc k) = refl

module _ {F : Type 0} where
  -- The last `n` of a list.
  abbrev pub last : ℕ → List (EdgeObservation F) → List (EdgeObservation F)
  last n os = drop (length os - n) os

  pub trimmed-last : (n : ℕ) (os : List (EdgeObservation F)) → trimmed (pos n) os ≡ last n os
  unfolding trimmed ◌-ℤ◌ drop
  trimmed-last n os = elim (Bool-cases (ltb_ℤ (pos n) (pos (length os)))) [
    | inl over ↦
        let left : pos_part (pos (length os) -ℤ pos n) ≡ length os - n = ground (arith, over) in
        rw (over, left) refl
    | inr fits ↦
        let none_left : length os - n ≡ 0 = ground (arith, fits) in rw (fits, none_left) refl
  ]

  -- Dropping from what was left before drops as much in all.
  last-snoc :
      (n : ℕ) (os : List (EdgeObservation F)) (o : EdgeObservation F)
      → last n (last n os ++ o ∷ []) ≡ last n (os ++ o ∷ [])
  unfolding drop
  last-snoc n os o = elim (Bool-cases (leb (length os) n)) [
    | inl room ↦ let none_left : length os - n ≡ 0 = ground (arith, room) in rw none_left refl
    | inr full ↦
        let dropped = drop-append (length os - n) os (o ∷ []) (omega arith) in
        let length_all = length-append os (o ∷ []) in
        let rest = length-drop (length os - n) (os ++ o ∷ []) (omega (arith, length_all)) in
        let one : length (drop (length os - n) (os ++ o ∷ [])) - n ≡ 1 =
          ground (arith, full, rest, length_all) in
        let more : length (os ++ o ∷ []) - n ≡ suc (length os - n) =
          ground (arith, full, length_all) in
        rw (dropped, one, more) (drop-suc (length os - n) (os ++ o ∷ []))
  ]

module _ {F : Type 0} ⦃fl : Float64 F⦄ where
  abbrev pub is_accepted : EdgeObservation F → Bool
  is_accepted o = elim (validate_observation o) [ ok _ ↦ true | err e ↦ false ]

  unfoldable pub record_all : TrafficIndex F → List (EdgeObservation F) → TrafficIndex F
  record_all index [] = index
  record_all index (o ∷ os) = record_all (record_observation index o).0 os

  -- The accepted observations of an edge.
  abbrev pub of_edge : String → List (EdgeObservation F) → List (EdgeObservation F)
  of_edge edge = filter (λ o. is_accepted o && o.edge_id == edge)

  -- The index holds the last ones of what was recorded.
  abbrev Keeps : ℕ → String → TrafficIndex F → List (EdgeObservation F) → Type 0
  Keeps n edge index os = (index.limit ≡ pos n) × (observed index edge ≡ last n (of_edge edge os))

  added-observed :
      (index : TrafficIndex F) (o : EdgeObservation F) (edge : String)
      → observed (added index o) edge ≡ (
          if o.edge_id == edge
          then trimmed index.limit (observed index o.edge_id ++ o ∷ [])
          else observed index edge)
  unfolding added
  added-observed index o edge = ground (
    arith,
    lookup-insert o.edge_id edge (trimmed index.limit (observed index o.edge_id ++ o ∷ []))
        index.values,
  )

  limit_kept :
      (index : TrafficIndex F) (o : EdgeObservation F) → (added index o).limit ≡ index.limit
  unfolding added
  limit_kept index o = refl

  record_observation-Keeps :
      (n : ℕ) (edge : String) (index : TrafficIndex F) (os : List (EdgeObservation F))
      (o : EdgeObservation F)
      → Keeps n edge index os
      → Keeps n edge (record_observation index o).0 (os ++ o ∷ [])
  unfolding record_observation recorded filter
  record_observation-Keeps n edge index os o k =
      rw (filter-append (λ x. is_accepted x && x.edge_id == edge) os (o ∷ []))
        (by_check (validate_observation o) refl)
    where
      by_check :
          (v : Result (Unit {0}))
          → validate_observation o ≡ v
          → ((recorded index o v).0.limit ≡ pos n)
            × (observed (recorded index o v).0 edge
                ≡ last n (
                    of_edge edge os
                    ++ (if (elim v [ ok _ ↦ true | err e ↦ false ]) && o.edge_id == edge
                        then o ∷ []
                        else [])))
      by_check (err e) q = (k.0, k.1 ∙ ap (last n) (sym (append-nil (of_edge edge os))))
      by_check (ok u) q =
          (limit_kept index o ∙ k.0, added-observed index o edge ∙ by_edge (o.edge_id == edge) refl)
        where
          by_edge :
              (b : Bool)
              → (o.edge_id == edge) ≡ b
              → (if b
                  then trimmed index.limit (observed index o.edge_id ++ o ∷ [])
                  else observed index edge)
                ≡ last n (of_edge edge os ++ (if b then o ∷ [] else []))
          by_edge true same =
              ap (λ t. trimmed t (observed index o.edge_id ++ o ∷ [])) k.0
              ∙ ap (λ e. trimmed (pos n) (observed index e ++ o ∷ [])) (≡-of_eq o.edge_id edge same)
              ∙ ap (λ l. trimmed (pos n) (l ++ o ∷ [])) k.1
              ∙ trimmed-last n (last n (of_edge edge os) ++ o ∷ [])
              ∙ last-snoc n (of_edge edge os) o
          by_edge false other = k.1 ∙ ap (last n) (sym (append-nil (of_edge edge os)))

  record_all-Keeps :
      (n : ℕ) (edge : String) (index : TrafficIndex F) (before os : List (EdgeObservation F))
      → Keeps n edge index before
      → Keeps n edge (record_all index os) (before ++ os)
  unfolding record_all
  record_all-Keeps n edge index before [] k = subst (Keeps n edge index) (sym (append-nil before)) k
  record_all-Keeps n edge index before (o ∷ os) k =
      subst (Keeps n edge (record_all (record_observation index o).0 os))
        (append_assoc before (o ∷ []) os)
        (record_all-Keeps n edge (record_observation index o).0 (before ++ o ∷ []) os
          (record_observation-Keeps n edge index before o k))

  -- The answer is an observation of the list, not after the time, and none of these is after it; or none
  -- of the list is as early as the time.
  abbrev pub IsLatest : Time → List (EdgeObservation F) → Option (EdgeObservation F) → Type 0
  IsLatest at os none = All (λ o. after o.at at ≡ true) os
  IsLatest at os (some best) =
      Elem best os
      × (after best.at at ≡ false)
      × All (λ o. (not (after o.at at) && after o.at best.at) ≡ false) os

  first-IsLatest :
      (at : Time) (seen : List (EdgeObservation F)) (o : EdgeObservation F)
      → IsLatest at seen none
      → IsLatest at (seen ++ o ∷ []) (if not (after o.at at) then some o else none)
  first-IsLatest at seen o h = elim (Bool-cases (after o.at at)) [
    | inl late ↦ rw late (All-append (λ x. after x.at at ≡ true) seen (o ∷ []) h (late, tt))
    | inr early ↦ rw early (
      Elem-append_right o seen (o ∷ []) (inl refl),
      early,
      All-append (λ x. (not (after x.at at) && after x.at o.at) ≡ false) seen (o ∷ [])
          (All-map (λ x. after x.at at ≡ true) (λ x late. ground (arith, late)) seen h)
          (ground arith, tt),
    )
  ]

  next-IsLatest :
      (at : Time) (seen : List (EdgeObservation F)) (best o : EdgeObservation F)
      → IsLatest at seen (some best)
      → IsLatest at
          (seen ++ o ∷ [])
          (if not (after o.at at) && after o.at best.at then some o else some best)
  next-IsLatest at seen best o (m, early, newest) =
      elim (Bool-cases (not (after o.at at) && after o.at best.at)) [
        | inl newer ↦ rw newer (
          Elem-append_right o seen (o ∷ []) (inl refl),
          ground (arith, newer),
          All-append (λ x. (not (after x.at at) && after x.at o.at) ≡ false) seen (o ∷ [])
              (All-map (λ x. (not (after x.at at) && after x.at best.at) ≡ false)
                (λ x old. ground (arith, old, newer)) seen newest)
              (ground arith, tt),
        )
        | inr older ↦ rw older (
          Elem-append_left best seen (o ∷ []) m,
          early,
          All-append (λ x. (not (after x.at at) && after x.at best.at) ≡ false) seen (o ∷ []) newest
              (older, tt),
        )
      ]

  latest_loop-IsLatest :
      (at : Time) (seen os : List (EdgeObservation F)) (found : Option (EdgeObservation F))
      → IsLatest at seen found
      → IsLatest at (seen ++ os) (latest_loop at found os)
  unfolding latest_loop
  latest_loop-IsLatest at seen [] found h =
      subst (λ l. IsLatest at l found) (sym (append-nil seen)) h
  latest_loop-IsLatest at seen (o ∷ os) none h =
      let next = if not (after o.at at) then some o else none in
      subst (λ l. IsLatest at l (latest_loop at next os)) (append_assoc seen (o ∷ []) os)
        (latest_loop-IsLatest at (seen ++ o ∷ []) os next (first-IsLatest at seen o h))
  latest_loop-IsLatest at seen (o ∷ os) (some best) h =
      let next = if not (after o.at at) && after o.at best.at then some o else some best in
      subst (λ l. IsLatest at l (latest_loop at next os)) (append_assoc seen (o ∷ []) os)
        (latest_loop-IsLatest at (seen ++ o ∷ []) os next (next-IsLatest at seen best o h))

  new-Keeps :
      (limit : ℤ) (edge : String) → Keeps (kept_count limit) edge (new_traffic_index limit) []
  unfolding new_traffic_index lookup filter drop
  new-Keeps limit edge = (limit_asked limit, (drop_nil (0 - kept_count limit)))

  -- After any records on a new index, what it holds of an edge are the last of the valid observations of the
  -- edge, as many as the limit asked for, or 100 if that is less. `Latest` answers from these: with
  -- one that is not after the time and than which none that is not after the time is later, or with
  -- none if all of them are after the time.
  pub latest-record_all :
      (limit : ℤ) (os : List (EdgeObservation F)) (edge : String) (at : Time)
      → (observed (record_all (new_traffic_index limit) os) edge
          ≡ last (kept_count limit) (of_edge edge os))
        × IsLatest at
            (last (kept_count limit) (of_edge edge os))
            (latest (record_all (new_traffic_index limit) os) edge at)
  unfolding latest
  latest-record_all limit os edge at =
      let kept =
        record_all-Keeps (kept_count limit) edge (new_traffic_index limit) [] os
          (new-Keeps limit edge) in
      (
        kept.1,
        subst (λ l. IsLatest at l (latest (record_all (new_traffic_index limit) os) edge at)) kept.1
            (latest_loop-IsLatest at [] (observed (record_all (new_traffic_index limit) os) edge)
              none tt),
      )
