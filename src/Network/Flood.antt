-- ===== src/Network/Flood.antt =====
-- The labels of components, as internal/domain/network/connectivity.go computes them from the neighbours of
-- each node.
use route_analysis_service.Prelude.{
  ℕ, suc, String, List, [], ◌∷◌, ◌++◌, Map, insert, contains, true, false, if◌then◌else◌, Option,
  none, some, Outcome, done, more, run,
}

-- The nodes to visit, and the labels so far.
abbrev pub Front : Type 0
Front = List String × Map ℕ

-- The loop over the neighbours of a node: those without a label get one and join the queue.
unfoldable pub mark : ℕ → List String → Front → Front
mark next [] f = f
mark next (n ∷ ns) (queue, labels) =
    mark next ns
      (if contains n labels then (queue, labels) else (queue ++ n ∷ [], insert n next labels))

module _ (neighbours : String → List String) where
  -- One round of the loop over the queue.
  unfoldable pub visit_first : ℕ → Front → Outcome Front (Map ℕ)
  unfolding mark
  visit_first next ([], labels) = done labels
  visit_first next (current ∷ queue, labels) = more (mark next (neighbours current) (queue, labels))

  -- The loop over the nodes. `none`: the fuel of a search ran out.
  unfoldable pub label_all : ℕ → List String → Map ℕ × ℕ → Option (Map ℕ × ℕ)
  label_all fuel [] acc = some acc
  label_all fuel (id ∷ ids) (labels, count) = elim (contains id labels) [
    | true ↦ label_all fuel ids (labels, count)
    | false ↦ elim (run fuel (visit_first (suc count)) (id ∷ [], insert id (suc count) labels)) [
      | none ↦ none
      | some labels' ↦ label_all fuel ids (labels', suc count)
    ]
  ]
