-- ===== src/Routing/Index.antt =====
-- The index of outgoing edges that `NewSnapshot` of internal/domain/routing/engine.go builds.
use route_analysis_service.Prelude.{
  String, List, [], ◌∷◌, ◌++◌, filter, Bool, true, false, ◌==◌, if◌then◌else◌, Map, lookup, insert,
  lookup-insert, Option, none, some, SortSlice, ◌≡◌, sym, ap, subst, ◌∙◌, arith, Bool-cases, inl,
  inr, ≡-of_eq, ℤ,
}
use mathlib.Core.List.{Permᴰ, append-nil, append_assoc}
use route_analysis_service.Model.Types.{Node, Edge, Incident}
use route_analysis_service.Routing.Snapshot.{
  slice_of, by_id, group_by_origin, sort_groups, new_snapshot,
}

module _ {F : Type 0} where
  abbrev of_option : Option (List (Edge F)) → List (Edge F)
  of_option o = elim o [ none ↦ [] | some es ↦ es ]

  pub slice_of-insert :
      (k n : String) (es : List (Edge F)) (m : Map (List (Edge F)))
      → slice_of n (insert k es m) ≡ (if k == n then es else slice_of n m)
  slice_of-insert k n es m = ground (arith, lookup-insert k n es m)

  -- One edge goes to the end of the slice of its origin.
  placed :
      (n : String) (m : Map (List (Edge F))) (e : Edge F) (rest : List (Edge F))
      → slice_of n (insert e.from (slice_of e.from m ++ e ∷ []) m) ++ rest
        ≡ slice_of n m ++ (if e.from == n then e ∷ rest else rest)
  placed n m e rest = elim (Bool-cases (e.from == n)) [
    | inr other ↦ rw other (
        ap (λ l. l ++ rest)
          (slice_of-insert e.from n (slice_of e.from m ++ e ∷ []) m
            ∙ ap (λ b. if b then slice_of e.from m ++ e ∷ [] else slice_of n m) other))
    | inl same ↦ rw same (
        ap (λ l. l ++ rest)
          (slice_of-insert e.from n (slice_of e.from m ++ e ∷ []) m
            ∙ ap (λ b. if b then slice_of e.from m ++ e ∷ [] else slice_of n m) same)
        ∙ append_assoc (slice_of e.from m) (e ∷ []) rest
        ∙ ap (λ k. slice_of k m ++ e ∷ rest) (≡-of_eq e.from n same))
  ]

  pub group_by_origin-slice_of :
      (n : String) (m : Map (List (Edge F))) (es : List (Edge F))
      → slice_of n (group_by_origin m es) ≡ slice_of n m ++ filter (λ e. e.from == n) es
  unfolding group_by_origin filter
  group_by_origin-slice_of n m [] = sym (append-nil (slice_of n m))
  group_by_origin-slice_of n m (e ∷ es) =
      group_by_origin-slice_of n (insert e.from (slice_of e.from m ++ e ∷ []) m) es
      ∙ placed n m e (filter (λ x. x.from == n) es)

  module _ ⦃slice : SortSlice⦄ where
    pub sort_groups-perm :
        (n : String) (m : Map (List (Edge F))) → Permᴰ (slice_of n m) (slice_of n (sort_groups m))
    unfolding sort_groups lookup
    sort_groups-perm n [] = Permᴰ.nil
    sort_groups-perm n ((k, es) ∷ m) = pick (k == n) (sort_groups-perm n m)
      where
        pick :
            (b : Bool)
            → Permᴰ (slice_of n m) (slice_of n (sort_groups m))
            → Permᴰ (of_option (if b then some es else lookup n m)) (
                of_option
                  (if b then some (slice.sort (Edge F) by_id es) else lookup n (sort_groups m)))
        pick true rest = slice.sort-perm (Edge F) by_id es
        pick false rest = rest

    -- The edges that leave a node in a new snapshot are exactly the given edges with that origin,
    -- each as often as it was given.
    pub new_snapshot-outgoing :
        (nodes : List (Node F)) (edges : List (Edge F)) (incidents : List (Incident F))
        (version : ℤ) (n : String)
        → Permᴰ
            (filter (λ e. e.from == n) edges)
            (slice_of n (new_snapshot nodes edges incidents version).outgoing)
    unfolding new_snapshot lookup
    new_snapshot-outgoing nodes edges incidents version n =
        subst (λ l. Permᴰ l (slice_of n (sort_groups (group_by_origin [] edges))))
          (group_by_origin-slice_of n [] edges) (sort_groups-perm n (group_by_origin [] edges))
