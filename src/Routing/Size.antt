-- ===== src/Routing/Size.antt =====
-- The number of edges in the indexes that internal/domain/routing/engine.go builds, and so the fuel that
-- its searches need.
use route_analysis_service.Prelude.{
  suc, ◌+◌, ◌≤◌, String, List, [], ◌∷◌, ◌++◌, map, length, length-append, length-perm, ◌==◌, Map,
  lookup, insert, delete, values, SortSlice, ◌≡◌, refl, ap, arith, Bool-cases, inl, inr, ℤ,
}
use route_analysis_service.Model.Types.{Node, Edge, Incident}
use route_analysis_service.Routing.Snapshot.{
  Snapshot, slice_of, by_id, index_edges, group_by_origin, sort_groups, new_snapshot,
}
use route_analysis_service.Routing.Alternatives.{without_edge}
use route_analysis_service.Routing.Progress.{targets}

pub length-map {ℓ κ} :
    {A : Type ℓ} {B : Type κ} (f : A → B) (xs : List A) → length (map f xs) ≡ length xs
length-map f [] = refl
length-map f (x ∷ xs) = ap suc (length-map f xs)

module _ {V : Type 0} where
  length-insert-le : (k : String) (v : V) (m : Map V) → length (insert k v m) ≤ suc (length m)
  unfolding insert
  length-insert-le k v [] = omega arith
  length-insert-le k v ((j, w) ∷ m) = ground (arith, length-insert-le k v m)

  length-delete-le : (k : String) (m : Map V) → length (delete k m) ≤ length m
  unfolding delete
  length-delete-le k [] = omega arith
  length-delete-le k ((j, w) ∷ m) = ground (arith, length-delete-le k m)

module _ {F : Type 0} where
  targets-cons :
      (k : String) (es : List (Edge F)) (m : Map (List (Edge F)))
      → length (targets ((k, es) ∷ m)) ≡ length es + length (targets m)
  unfolding targets
  targets-cons k es m =
      omega (arith, length-append (map (λ e. e.to) es) (targets m), length-map (λ e. e.to) es)

  targets-insert :
      (k : String) (es : List (Edge F)) (m : Map (List (Edge F)))
      → length (targets (insert k es m)) + length (slice_of k m) ≡ length (targets m) + length es
  unfolding insert lookup targets
  targets-insert k es [] = omega (arith, targets-cons k es [])
  targets-insert k es ((j, w) ∷ m) = elim (Bool-cases (j == k)) [
    | inl same ↦
        let here : slice_of k ((j, w) ∷ m) ≡ w = ground (arith, same) in
        rw same (omega (arith, targets-cons k es m, targets-cons j w m, ap length here))
    | inr other ↦
        let there : slice_of k ((j, w) ∷ m) ≡ slice_of k m = ground (arith, other) in
        rw other (
          omega (
            arith,
            ap length there,
            targets-insert k es m,
            targets-cons j w m,
            targets-cons j w (insert k es m),
          ))
  ]

  targets-group_by_origin :
      (m : Map (List (Edge F))) (es : List (Edge F))
      → length (targets (group_by_origin m es)) ≡ length (targets m) + length es
  unfolding group_by_origin
  targets-group_by_origin m [] = omega arith
  targets-group_by_origin m (e ∷ es) = omega (
    arith,
    targets-group_by_origin (insert e.from (slice_of e.from m ++ e ∷ []) m) es,
    targets-insert e.from (slice_of e.from m ++ e ∷ []) m,
    length-append (slice_of e.from m) (e ∷ []),
  )

  -- The search without an edge has no more edges to follow than the snapshot holds.
  pub targets-without_edge :
      (s : Snapshot F) (id : String)
      → length (targets (without_edge s id).outgoing) ≤ length s.edges
  unfolding without_edge targets
  targets-without_edge s id = omega (
    arith,
    targets-group_by_origin [] (values (delete id s.edges)),
    length-map (λ e. e.1) (delete id s.edges),
    length-delete-le id s.edges,
  )

  length-index_edges-le :
      (m : Map (Edge F)) (es : List (Edge F)) → length (index_edges m es) ≤ length m + length es
  unfolding index_edges
  length-index_edges-le m [] = omega arith
  length-index_edges-le m (e ∷ es) =
      omega (arith, length-index_edges-le (insert e.id e m) es, length-insert-le e.id e m)

  module _ ⦃slice : SortSlice⦄ where
    targets-sort_groups :
        (m : Map (List (Edge F))) → length (targets (sort_groups m)) ≡ length (targets m)
    unfolding sort_groups
    targets-sort_groups [] = refl
    targets-sort_groups ((k, es) ∷ m) = omega (
      arith,
      targets-cons k es m,
      targets-cons k (slice.sort (Edge F) by_id es) (sort_groups m),
      length-perm (slice.sort-perm (Edge F) by_id es),
      targets-sort_groups m,
    )

    pub targets-new_snapshot :
        (nodes : List (Node F)) (edges : List (Edge F)) (incidents : List (Incident F))
        (version : ℤ)
        → length (targets (new_snapshot nodes edges incidents version).outgoing) ≡ length edges
    unfolding new_snapshot targets
    targets-new_snapshot nodes edges incidents version =
        omega
          (arith, targets-sort_groups (group_by_origin [] edges), targets-group_by_origin [] edges)

    pub edges-new_snapshot :
        (nodes : List (Node F)) (edges : List (Edge F)) (incidents : List (Incident F))
        (version : ℤ)
        → length (new_snapshot nodes edges incidents version).edges ≤ length edges
    unfolding new_snapshot
    edges-new_snapshot nodes edges incidents version = omega (arith, length-index_edges-le [] edges)
