-- ===== src/Network/Edges.antt =====
-- internal/domain/network/eligibility.go and cost.go: the same questions that EffectiveCost of
-- internal/domain/model/types.go answers, asked separately.
use route_analysis_service.Prelude.{
  String, List, [], ◌∷◌, filter, any, any-perm, any-filter, Bool, false, not, ◌&&◌, ◌||◌,
  if◌then◌else◌, pos, ltb_ℤ, Option, none, some, is_some, Bool-cases, inl, inr, ◌≡◌, refl, ap, ◌∙◌,
  arith, SortSlice, perm_sym,
}
use route_analysis_service.Insertion.{insertion_sort, insertion_sort-eq-stable_sort}
use route_analysis_service.Model.Float.{Float64, IsMagnitude}
use route_analysis_service.Model.Time.{Time}
use route_analysis_service.Model.Types.{Mode, Edge, Incident, RouteRequest}
use route_analysis_service.Model.Access.{
  supports, applies, by_priority, barred, apply_incidents, active_sorted, effective_cost,
}
use route_analysis_service.Incident.Resolver.{incident_first, incident_first-StrictWeak}
use route_analysis_service.Prelude.{stable_sort, stable_sort-perm}

module _ {F : Type 0} where
  unfoldable pub sorted_active : String → Time → List (Incident F) → List (Incident F)
  sorted_active edge at incidents =
      insertion_sort incident_first (filter (λ i. applies i edge at) incidents)

  unfoldable pub allowed_by_mode : Edge F → String → Time → List Mode
  allowed_by_mode e vehicle at = filter (λ m. supports e m at vehicle) e.modes

  -- Some incident that applies closes the edge.
  abbrev pub is_closed : List (Incident F) → String → Time → Bool
  is_closed incidents edge at = any (λ i. applies i edge at && i.closed) incidents

  -- `SortedActive` is the stable sort of the applying incidents by priority and creation time.
  sorted_active-eq-stable_sort :
      (edge : String) (at : Time) (incidents : List (Incident F))
      → sorted_active edge at incidents
        ≡ stable_sort incident_first (filter (λ i. applies i edge at) incidents)
  unfolding sorted_active
  sorted_active-eq-stable_sort edge at incidents =
      insertion_sort-eq-stable_sort incident_first incident_first-StrictWeak _

  any-sorted_active :
      (edge : String) (at : Time) (incidents : List (Incident F))
      → any (λ i. i.closed) (sorted_active edge at incidents) ≡ is_closed incidents edge at
  any-sorted_active edge at incidents =
      ap (any (λ i. i.closed)) (sorted_active-eq-stable_sort edge at incidents)
      ∙ any-perm (λ i. i.closed) (perm_sym (stable_sort-perm incident_first _))
      ∙ any-filter (λ i. i.closed) (λ i. applies i edge at) incidents

module _ {F : Type 0} ⦃fl : Float64 F⦄ where
  open fl use {decimal, lt, mul, div, neg}

  unfoldable pub allowed : List (Incident F) → Edge F → RouteRequest F → Time → Bool
  allowed incidents e r at =
      if not (supports e r.mode at r.vehicle_class)
      then false
      else if r.avoid_tolls && ltb_ℤ (pos 0) e.toll_cents
      then false
      else if lt (decimal (pos 0) 0) r.max_slope
          && (lt r.max_slope e.slope_percent || lt e.slope_percent (neg r.max_slope))
      then false
      else not (is_closed incidents e.id at)

  -- The loop of `Seconds`: the product of the factors, unless an incident closes the edge.
  unfoldable pub factor_loop : F → List (Incident F) → Option F
  factor_loop factor [] = some factor
  factor_loop factor (i ∷ rest) =
      let factor' =
        if lt (decimal (pos 0) 0) i.speed_factor then mul factor i.speed_factor else factor in
      if i.closed then none else factor_loop factor' rest

  -- `traffic` is the estimator, with `none` for a nil interface.
  unfoldable pub base_time : Option (Edge F → Time → F) → Edge F → Time → F
  base_time none e at = e.base_seconds
  base_time (some estimate) e at =
      if lt (decimal (pos 0) 0) (estimate e at) then estimate e at else e.base_seconds

  unfoldable pub seconds : Option (Edge F → Time → F) → Edge F → Time → List (Incident F) → Option F
  unfolding factor_loop base_time
  seconds traffic e at incidents =
      elim (factor_loop (decimal (pos 1) 0) (sorted_active e.id at incidents)) [
        | none ↦ none
        | some factor ↦ some (div (base_time traffic e at) factor)
      ]

  factor_loop-is_some :
      (f : F) (l : List (Incident F)) → is_some (factor_loop f l) ≡ not (any (λ i. i.closed) l)
  unfolding factor_loop any
  factor_loop-is_some f [] = refl
  factor_loop-is_some f (i ∷ rest) = elim (Bool-cases i.closed) [
    | inl c ↦ rw c
    | inr c ↦ rw c (
        factor_loop-is_some
          (if lt (decimal (pos 0) 0) i.speed_factor then mul f i.speed_factor else f) rest)
  ]

  apply_incidents-is_some :
      (l : List (Incident F)) (s : F) → is_some (apply_incidents l s) ≡ not (any (λ i. i.closed) l)
  unfolding apply_incidents any
  apply_incidents-is_some [] s = refl
  apply_incidents-is_some (i ∷ rest) s = elim (Bool-cases i.closed) [
    | inl c ↦ rw c
    | inr c ↦ rw c (
        apply_incidents-is_some rest
          (if lt (decimal (pos 0) 0) i.speed_factor then div s i.speed_factor else s))
  ]

  -- `Seconds` gives a time for an edge exactly if no incident that applies closes it.
  seconds-is_some :
      (traffic : Option (Edge F → Time → F)) (e : Edge F) (at : Time)
      (incidents : List (Incident F))
      → is_some (seconds traffic e at incidents) ≡ not (is_closed incidents e.id at)
  unfolding seconds
  seconds-is_some traffic e at incidents = ground (
    arith,
    factor_loop-is_some (decimal (pos 1) 0) (sorted_active e.id at incidents),
    any-sorted_active e.id at incidents,
  )

  module _ ⦃slice : SortSlice⦄ where
    any-active_sorted :
        (e : Edge F) (incidents : List (Incident F)) (at : Time)
        → any (λ i. i.closed) (active_sorted e incidents at) ≡ is_closed incidents e.id at
    any-active_sorted e incidents at =
        any-perm (λ i. i.closed) (perm_sym (slice.sort-perm _ by_priority _))
        ∙ any-filter (λ i. i.closed) (λ i. applies i e.id at) incidents

    -- `EffectiveCost` refuses an edge exactly if mode, rules, tolls or slope bar it or an incident
    -- that applies closes it, in whatever order the sort leaves incidents of one priority.
    effective_cost-is_some :
        (e : Edge F) (incidents : List (Incident F)) (r : RouteRequest F) (at : Time)
        → is_some (effective_cost e incidents r at)
          ≡ (not (barred e r at) && not (is_closed incidents e.id at))
    unfolding effective_cost
    effective_cost-is_some e incidents r at = ground (
      arith,
      apply_incidents-is_some (active_sorted e incidents at) e.base_seconds,
      any-active_sorted e incidents at,
    )

    -- If an absolute value exceeds a bound exactly when the number exceeds it or lies below its
    -- negative, `Allowed` of the network package agrees with `EffectiveCost` on every edge,
    -- request and time.
    pub allowed-effective_cost :
        IsMagnitude fl
        → (e : Edge F) (incidents : List (Incident F)) (r : RouteRequest F) (at : Time)
        → allowed incidents e r at ≡ is_some (effective_cost e incidents r at)
    unfolding allowed barred
    allowed-effective_cost m e incidents r at =
        ground
          (arith, effective_cost-is_some e incidents r at, m.lt-abs r.max_slope e.slope_percent)
