-- ===== src/Analytics/Adjacency.antt =====
-- internal/domain/analytics/validation.go: `Connectivity`, which labels the components of a graph that is
-- given as lists of nodes and edges.
use route_analysis_service.Prelude.{
  ℕ, String, List, [], ◌∷◌, ◌++◌, map, Bool, true, false, ◌==◌, if◌then◌else◌, Map, lookup, insert,
  lookup-insert, Option, none, some, Elem, Elem-append_left, Elem-append_right, Elem-split, inl,
  inr, ◌⊎◌, ◌≡◌, refl, sym, ap, subst, ◌∙◌, arith, Bool-cases, ≡-of_eq,
}
use mathlib.Core.List.{append-nil}
use text.Mathlib.TextEquality.{eq_iff}
use route_analysis_service.Model.Types.{Node, Edge}
use route_analysis_service.Network.Flood.{label_all}

-- `adj[k]`, which is empty for a missing key, and `adj[k] = append(adj[k], next)`.
unfoldable pub adjacent : String → Map (List String) → List String
adjacent k adj = elim (lookup k adj) [ none ↦ [] | some ids ↦ ids ]

unfoldable pub link : String → String → Map (List String) → Map (List String)
link k next adj = insert k (adjacent k adj ++ next ∷ []) adj

-- The labels without their count, which is not returned.
abbrev pub labels_of : Option (Map ℕ × ℕ) → Option (Map ℕ)
labels_of none = none
labels_of (some (labels, count)) = some labels

module _ {F : Type 0} where
  unfoldable pub node_keys : Map (List String) → List (Node F) → Map (List String)
  node_keys adj [] = adj
  node_keys adj (n ∷ ns) = node_keys (insert n.id [] adj) ns

  -- The two appends for an edge.
  abbrev pub link_both : Edge F → Map (List String) → Map (List String)
  link_both e adj = link e.to e.from (link e.from e.to adj)

  unfoldable pub link_edges : Map (List String) → List (Edge F) → Map (List String)
  link_edges adj [] = adj
  link_edges adj (e ∷ es) = link_edges (link_both e adj) es

  unfoldable pub next_nodes : List (Node F) → List (Edge F) → String → List String
  unfolding node_keys link_edges adjacent
  next_nodes nodes edges id = adjacent id (link_edges (node_keys [] nodes) edges)

  unfoldable pub connectivity : ℕ → List (Node F) → List (Edge F) → Option (Map ℕ)
  unfolding next_nodes
  connectivity fuel nodes edges =
      labels_of (label_all (next_nodes nodes edges) fuel (map (λ n. n.id) nodes) ([], 0))

-- The edge leads from one node to the other, or back.
abbrev pub Ends : {F : Type 0} → Edge F → String → String → Type 0
Ends e a b = ((e.from ≡ a) × (e.to ≡ b)) ⊎ ((e.to ≡ a) × (e.from ≡ b))

adjacent-insert :
    (k n : String) (ids : List String) (adj : Map (List String))
    → adjacent n (insert k ids adj) ≡ (if k == n then ids else adjacent n adj)
unfolding adjacent
adjacent-insert k n ids adj = ground (arith, lookup-insert k n ids adj)

link-adjacent :
    (k n x : String) (adj : Map (List String))
    → adjacent n (link k x adj) ≡ adjacent n adj ++ (if k == n then x ∷ [] else [])
unfolding link
link-adjacent k n x adj = elim (Bool-cases (k == n)) [
  | inl same ↦ rw same (
      adjacent-insert k n (adjacent k adj ++ x ∷ []) adj
      ∙ ap (λ b. if b then adjacent k adj ++ x ∷ [] else adjacent n adj) same
      ∙ ap (λ j. adjacent j adj ++ x ∷ []) (≡-of_eq k n same))
  | inr other ↦ rw other (
      adjacent-insert k n (adjacent k adj ++ x ∷ []) adj
      ∙ ap (λ b. if b then adjacent k adj ++ x ∷ [] else adjacent n adj) other
      ∙ sym (append-nil (adjacent n adj)))
]

link-old :
    (k n x y : String) (adj : Map (List String))
    → Elem y (adjacent n adj)
    → Elem y (adjacent n (link k x adj))
link-old k n x y adj i =
    subst (Elem y) (sym (link-adjacent k n x adj)) (Elem-append_left y (adjacent n adj) _ i)

link-new : (k x : String) (adj : Map (List String)) → Elem x (adjacent k (link k x adj))
link-new k x adj =
    let same : (k == k) ≡ true = ground (arith, eq_iff k k) in
    subst (Elem x)
      (sym (link-adjacent k k x adj ∙ ap (λ b. adjacent k adj ++ (if b then x ∷ [] else [])) same))
      (Elem-append_right x (adjacent k adj) (x ∷ []) (inl refl))

link-cases :
    (k n x y : String) (adj : Map (List String))
    → Elem y (adjacent n (link k x adj))
    → Elem y (adjacent n adj) ⊎ ((k ≡ n) × (x ≡ y))
link-cases k n x y adj i =
    elim (Elem-split y (adjacent n adj) _ (subst (Elem y) (link-adjacent k n x adj) i)) [
      | inl old ↦ inl old
      | inr new ↦ inr (by_key (k == n) refl new)
    ]
  where
    by_key : (b : Bool) → (k == n) ≡ b → Elem y (if b then x ∷ [] else []) → (k ≡ n) × (x ≡ y)
    by_key true q (inl same) = (≡-of_eq k n q, sym same)
    by_key true q (inr none_left) = absurd none_left
    by_key false q none_left = absurd none_left

module _ {F : Type 0} where
  pub node_keys-empty :
      (adj : Map (List String)) (ns : List (Node F)) (a : String)
      → adjacent a adj ≡ []
      → adjacent a (node_keys adj ns) ≡ []
  unfolding node_keys
  node_keys-empty adj [] a h = h
  node_keys-empty adj (n ∷ ns) a h =
      node_keys-empty (insert n.id [] adj) ns a (ground (arith, adjacent-insert n.id a [] adj, h))

  link_edges-old :
      (adj : Map (List String)) (es : List (Edge F)) (a b : String)
      → Elem b (adjacent a adj)
      → Elem b (adjacent a (link_edges adj es))
  unfolding link_edges
  link_edges-old adj [] a b i = i
  link_edges-old adj (e ∷ es) a b i =
      link_edges-old (link_both e adj) es a b
        (link-old e.to a e.from b _ (link-old e.from a e.to b adj i))

  pub link_edges-both :
      (adj : Map (List String)) (es : List (Edge F)) (e : Edge F)
      → Elem e es
      → Elem e.to (adjacent e.from (link_edges adj es))
        × Elem e.from (adjacent e.to (link_edges adj es))
  unfolding link_edges
  link_edges-both adj (x ∷ es) e (inl same) = rw same (
    link_edges-old _ es x.from x.to (link-old x.to x.from x.from x.to _ (link-new x.from x.to adj)),
    link_edges-old _ es x.to x.from (link-new x.to x.from _),
  )
  link_edges-both adj (x ∷ es) e (inr m) = link_edges-both (link_both x adj) es e m
  link_edges-both adj [] e m = absurd m

  pub link_edges-cases :
      (adj : Map (List String)) (es : List (Edge F)) (a b : String)
      → Elem b (adjacent a (link_edges adj es))
      → Elem b (adjacent a adj) ⊎ ((e : Edge F) × Elem e es × Ends e a b)
  unfolding link_edges
  link_edges-cases adj [] a b i = inl i
  link_edges-cases adj (x ∷ es) a b i = elim (link_edges-cases (link_both x adj) es a b i) [
    | inr (e, m, ends) ↦ inr (e, inr m, ends)
    | inl old ↦ elim (link-cases x.to a x.from b _ old) [
      | inr ends ↦ inr (x, inl refl, inr ends)
      | inl older ↦ elim (link-cases x.from a x.to b adj older) [
        | inr ends ↦ inr (x, inl refl, inl ends)
        | inl oldest ↦ inl oldest
      ]
    ]
  ]
