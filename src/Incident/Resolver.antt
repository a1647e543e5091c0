-- ===== src/Incident/Resolver.antt =====
-- internal/domain/incident/resolver.go: the order of incidents, conflicts between active ones, and
-- the incident that dominates an edge.
use route_analysis_service.Prelude.{
  String, List, [], ◌∷◌, ◌++◌, filter, any, Bool, true, false, not, ◌&&◌, ◌||◌, ◌==◌, if◌then◌else◌,
  ltb_ℤ, eq_ℤ, Option, none, some, str_lt, SortSlice, stable_sort, StrictWeak, stable_sort-IsSorted,
  stable_sort-perm, IsSorted, All, All-map, All-perm, perm_sym, ◌≡◌, arith, Bool-cases, inl, inr,
}
use mathlib.Core.List.{Permᴰ}
use route_analysis_service.Model.Time.{Time, TimeWindow, is_zero, before, window_contains}
use route_analysis_service.Model.Types.{Incident}
use route_analysis_service.Model.Access.{is_active, applies}
use route_analysis_service.Model.Validation.{is_nil}

pub record Conflict : Type 0 where
  pub left : String
  pub right : String
  pub edge_ids : List String
  pub overlaps : Bool

unfoldable pub windows_overlap : TimeWindow → TimeWindow → Bool
windows_overlap a b =
    if is_zero a.start || is_zero b.start
    then true
    else not (before a.end b.start) && not (before b.end a.start)

module _ {F : Type 0} where
  -- Highest priority first, then the earliest creation. internal/domain/network/cost.go has the
  -- same comparison.
  unfoldable pub incident_first : Incident F → Incident F → Bool
  incident_first a b =
      if eq_ℤ a.priority b.priority
      then before a.created_at b.created_at
      else ltb_ℤ b.priority a.priority

  pub incident_first-StrictWeak : StrictWeak incident_first
  unfolding incident_first
  incident_first-StrictWeak = record {
    asymm = λ a b h. ground arith;
    le_trans = λ a b c h k. ground arith;
  }

  unfoldable pub sort_by_priority : List (Incident F) → List (Incident F)
  sort_by_priority items = stable_sort incident_first items

  unfoldable pub in_force : Time → Incident F → Bool
  in_force at i = is_active i.status && window_contains i.window at

  -- The loop of `Dominant` over the sorted incidents.
  unfoldable pub first_on : String → Time → List (Incident F) → Option (Incident F)
  first_on edge at [] = none
  first_on edge at (i ∷ rest) =
      if in_force at i && any (λ id. id == edge) i.edge_ids then some i else first_on edge at rest

  unfoldable pub dominant : List (Incident F) → String → Time → Option (Incident F)
  unfolding first_on in_force sort_by_priority
  dominant items edge at = first_on edge at (sort_by_priority items)

  module _ ⦃slice : SortSlice⦄ where
    -- The edges of `b` that `a` has too, with repetitions, sorted.
    unfoldable pub shared_edges : Incident F → Incident F → List String
    shared_edges a b =
        slice.sort String str_lt (filter (λ id. any (λ j. j == id) a.edge_ids) b.edge_ids)

    unfoldable pub conflicts_with : Incident F → List (Incident F) → List Conflict
    unfolding shared_edges windows_overlap
    conflicts_with l [] = []
    conflicts_with l (r ∷ rest) =
        let shared = shared_edges l r in
        let others = conflicts_with l rest in
        if is_nil shared
        then others
        else record {
          left = l.id;
          right = r.id;
          edge_ids = shared;
          overlaps = windows_overlap l.window r.window;
        }
          ∷ others

    unfoldable pub conflict_pairs : List (Incident F) → List Conflict
    unfolding conflicts_with
    conflict_pairs [] = []
    conflict_pairs (l ∷ rest) = conflicts_with l rest ++ conflict_pairs rest

    unfoldable pub conflicts : List (Incident F) → Time → List Conflict
    unfolding conflict_pairs in_force
    conflicts items at = conflict_pairs (filter (in_force at) items)

module _ {F : Type 0} where
  irrefl : (i : Incident F) → incident_first i i ≡ false
  unfolding incident_first
  irrefl i = ground arith

  -- What `first_on` tests is `Applies`.
  in_force-applies :
      (i : Incident F) (edge : String) (at : Time)
      → (in_force at i && any (λ id. id == edge) i.edge_ids) ≡ applies i edge at
  unfolding in_force applies
  in_force-applies i edge at = ground arith

  -- The incident that dominates an edge, against all that apply to it: none comes before it.
  abbrev pub Dominates : String → Time → List (Incident F) → Option (Incident F) → Type 0
  Dominates edge at items none = All (λ j. applies j edge at ≡ false) items
  Dominates edge at items (some i) =
      (applies i edge at ≡ true)
      × All (λ j. applies j edge at ≡ true → incident_first j i ≡ false) items

  Dominates-cons :
      (edge : String) (at : Time) (i : Incident F) (rest : List (Incident F))
      (o : Option (Incident F))
      → applies i edge at ≡ false
      → Dominates edge at rest o
      → Dominates edge at (i ∷ rest) o
  Dominates-cons edge at i rest none off d = (off, d)
  Dominates-cons edge at i rest (some j) off d = (d.0, (λ on. cc, d.1))

  first_on-Dominates :
      (edge : String) (at : Time) (items : List (Incident F))
      → IsSorted incident_first items
      → Dominates edge at items (first_on edge at items)
  unfolding first_on
  first_on-Dominates edge at [] s = tt
  first_on-Dominates edge at (i ∷ rest) s = elim (Bool-cases (applies i edge at)) [
    | inl on ↦
        rw (in_force-applies i edge at, on)
          (on, (λ _. irrefl i, All-map _ (λ j later _. later) rest s.0))
    | inr off ↦
        rw (in_force-applies i edge at, off)
          (Dominates-cons edge at i rest _ off (first_on-Dominates edge at rest s.1))
  ]

  Dominates-perm :
      (edge : String) (at : Time) {xs ys : List (Incident F)} (o : Option (Incident F))
      → Permᴰ xs ys
      → Dominates edge at xs o
      → Dominates edge at ys o
  Dominates-perm edge at none p d = All-perm _ p d
  Dominates-perm edge at (some i) p d = (d.0, All-perm _ p d.1)

  -- `Dominant` answers with an incident that applies to the edge and that no applying incident
  -- comes before, and with none only if no incident applies.
  pub dominant-Dominates :
      (items : List (Incident F)) (edge : String) (at : Time)
      → Dominates edge at items (dominant items edge at)
  unfolding dominant sort_by_priority
  dominant-Dominates items edge at =
      Dominates-perm edge at (dominant items edge at)
        (perm_sym (stable_sort-perm incident_first items))
        (first_on-Dominates edge at _
          (stable_sort-IsSorted incident_first incident_first-StrictWeak items))
