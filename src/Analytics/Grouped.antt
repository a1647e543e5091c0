-- ===== src/Analytics/Grouped.antt =====
-- The components that `Connectivity` of internal/domain/analytics/validation.go labels.
use route_analysis_service.Prelude.{
  ℕ, ◌<◌, String, List, [], map, length, true, Map, lookup, contains, some, Elem, inl, inr, ◌↔◌,
  ◌≡◌, refl, sym, ap, subst, arith,
}
use route_analysis_service.Model.Types.{Node, Edge}
use route_analysis_service.Routing.Size.{length-map}
use route_analysis_service.Network.Labels.{Way, stay, go, some_inj}
use route_analysis_service.Network.Components.{label_all-Way}
use route_analysis_service.Network.Weak.{Joined, here, forth, back}
use route_analysis_service.Analytics.Adjacency.{
  Ends, node_keys, next_nodes, connectivity, adjacent, labels_of, node_keys-empty, link_edges-both,
  link_edges-cases,
}

module _ {F : Type 0} (nodes : List (Node F)) (edges : List (Edge F)) where
  abbrev ids : List String
  ids = map (λ n. n.id) nodes

  next_nodes-both :
      (e : Edge F)
      → Elem e edges
      → Elem e.to (next_nodes nodes edges e.from) × Elem e.from (next_nodes nodes edges e.to)
  unfolding next_nodes
  next_nodes-both e m = link_edges-both (node_keys [] nodes) edges e m

  next_nodes-Ends :
      (a b : String) → Elem b (next_nodes nodes edges a) → (e : Edge F) × Elem e edges × Ends e a b
  unfolding next_nodes adjacent lookup
  next_nodes-Ends a b i = elim (link_edges-cases (node_keys [] nodes) edges a b i) [
    | inl old ↦ absurd (subst (Elem b) (node_keys-empty [] nodes a refl) old)
    | inr found ↦ found
  ]

  returns : (a b : String) → Elem b (next_nodes nodes edges a) → Elem a (next_nodes nodes edges b)
  returns a b i =
      let (e, m, ends) = next_nodes-Ends a b i in
      let (onward, backward) = next_nodes-both e m in
      elim ends [
        | inl (from, to) ↦
            subst (λ x. Elem x (next_nodes nodes edges b)) from
              (subst (λ x. Elem e.from (next_nodes nodes edges x)) to backward)
        | inr (to, from) ↦
            subst (λ x. Elem x (next_nodes nodes edges b)) to
              (subst (λ x. Elem e.to (next_nodes nodes edges x)) from onward)
      ]

  Way-Joined : {a b : String} → Way (next_nodes nodes edges) a b → Joined edges a b
  Way-Joined stay = here
  Way-Joined {a} (go {b} c w i) =
      let (e, m, ends) = next_nodes-Ends b c i in
      let before = Way-Joined w in
      elim ends [
        | inl (from, to) ↦
            subst (Joined edges a) to (forth e m (subst (Joined edges a) (sym from) before))
        | inr (to, from) ↦
            subst (Joined edges a) from (back e m (subst (Joined edges a) (sym to) before))
      ]

  Joined-Way : {a b : String} → Joined edges a b → Way (next_nodes nodes edges) a b
  Joined-Way here = stay
  Joined-Way (forth e m j) = go e.to (Joined-Way j) (next_nodes-both e m).0
  Joined-Way (back e m j) = go e.from (Joined-Way j) (next_nodes-both e m).1

  module _ (known : (e : Edge F) → Elem e edges → Elem e.from ids × Elem e.to ids) where
    known_next : (a b : String) → Elem b (next_nodes nodes edges a) → Elem b ids
    known_next a b i =
        let (e, m, ends) = next_nodes-Ends a b i in
        elim ends [
          | inl (from, to) ↦ subst (λ x. Elem x ids) to (known e m).1
          | inr (to, from) ↦ subst (λ x. Elem x ids) from (known e m).0
        ]

  -- For edges that join nodes of the list, and fuel above the number of the nodes, `Connectivity` returns
  -- labels. Every node has one, and two nodes have the same one exactly if edges join them, taken in
  -- whichever direction.
  pub connectivity-Joined :
      (fuel : ℕ)
      → ((e : Edge F)
          → Elem e edges
          → Elem e.from (map (λ n. n.id) nodes) × Elem e.to (map (λ n. n.id) nodes))
      → length nodes < fuel
      → (labels : Map ℕ) × (connectivity fuel nodes edges ≡ some labels)
        × ((a b : String)
            → Elem a (map (λ n. n.id) nodes)
            → Elem b (map (λ n. n.id) nodes)
            → (contains a labels ≡ true) × ((lookup a labels ≡ lookup b labels) ↔ Joined edges a b))
  unfolding connectivity
  connectivity-Joined fuel known h =
      let (labels, count, q, agree) =
        label_all-Way (next_nodes nodes edges) ids (known_next known) returns fuel
          (omega (arith, h, length-map (λ n. n.id) nodes)) in
      (
        labels,
        ap labels_of q,
        λ a b m n.
            let (i, j, at_a, at_b, equal) = agree a b m n in
            (
              ground (arith, at_a),
              rw (at_a, at_b)
                  (
                    (λ e. Way-Joined (equal.0 (some_inj i j e))),
                    (λ w. ap some (equal.1 (Joined-Way w))),
                  ),
            ),
      )
