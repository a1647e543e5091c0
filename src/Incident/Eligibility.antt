-- ===== src/Incident/Eligibility.antt =====
-- internal/domain/incident/eligibility.go: the incidents in force on an edge. The snapshot is the
-- list of incidents: to copy a slice is no step of a model of values.
use route_analysis_service.Prelude.{
  String, List, [], ◌∷◌, filter, any, Bool, if◌then◌else◌, pos, ◌≡◌, arith, StrictWeak, stable_sort,
}
use route_analysis_service.Insertion.{insertion_sort, insertion_sort-eq-stable_sort}
use route_analysis_service.Model.Float.{Float64}
use route_analysis_service.Model.Time.{Time}
use route_analysis_service.Model.Types.{Incident}
use route_analysis_service.Model.Access.{applies, by_priority}

pub by_priority-StrictWeak : {F : Type 0} → StrictWeak (by_priority {F = F})
by_priority-StrictWeak = record {
  asymm = λ a b h. ground arith;
  le_trans = λ a b c h k. ground arith;
}

module _ {F : Type 0} where
  unfoldable pub active_for : List (Incident F) → String → Time → List (Incident F)
  active_for incidents edge at =
      insertion_sort by_priority (filter (λ i. applies i edge at) incidents)

  -- The loop of `Closed`.
  unfoldable pub closed : List (Incident F) → String → Time → Bool
  closed incidents edge at = any (λ i. i.closed) (active_for incidents edge at)

  -- `ActiveFor` sorts as `sort.SliceStable` would: highest priority first, and incidents of one
  -- priority in the order in which they were given.
  active_for-eq-stable_sort :
      (incidents : List (Incident F)) (edge : String) (at : Time)
      → active_for incidents edge at
        ≡ stable_sort by_priority (filter (λ i. applies i edge at) incidents)
  unfolding active_for
  active_for-eq-stable_sort incidents edge at =
      insertion_sort-eq-stable_sort by_priority by_priority-StrictWeak _

module _ {F : Type 0} ⦃fl : Float64 F⦄ where
  open fl use {decimal, lt, mul}

  unfoldable pub speed_loop : F → List (Incident F) → F
  speed_loop factor [] = factor
  speed_loop factor (i ∷ rest) =
      speed_loop
        (if lt (decimal (pos 0) 0) i.speed_factor then mul factor i.speed_factor else factor) rest

  unfoldable pub effective_speed_factor : List (Incident F) → String → Time → F
  unfolding speed_loop
  effective_speed_factor incidents edge at =
      speed_loop (decimal (pos 1) 0) (active_for incidents edge at)
