-- ===== src/Network/Weak.antt =====
-- The components of a topology, as internal/domain/network/connectivity.go labels them.
use route_analysis_service.Prelude.{
  ℕ, ◌<◌, String, str_lt, List, [], ◌∷◌, ◌++◌, map, length, length-perm, true, ◌==◌, Map, lookup,
  contains, some, SortSlice, Elem, Elem-append_left, Elem-append_right, Elem-split, Elem-perm, inl,
  inr, ◌⊎◌, ◌↔◌, ◌≡◌, refl, sym, ap, subst, ◌∙◌, arith, Bool-cases, ≡-of_eq,
}
use text.Mathlib.TextEquality.{eq_iff}
use route_analysis_service.Model.Types.{Node, Edge}
use route_analysis_service.Model.Error.{ok}
use route_analysis_service.Routing.Snapshot.{slice_of}
use route_analysis_service.Routing.Size.{length-map}
use route_analysis_service.Network.Labels.{Way, stay, go, Labelled}
use route_analysis_service.Network.Components.{label_all-Way}
use route_analysis_service.Network.Groups.{Fits, build_topology-Fits}
use route_analysis_service.Network.Topology.{
  Topology, neighbour, neighbours, build_topology, nodes_sorted, compute_connectivity,
  same_component,
}

-- The edges join the two nodes, in whichever direction.
pub data Joined {F : Type 0} (edges : List (Edge F)) (a : String) : String → Type 0 where
  here : Joined edges a a
  forth : (e : Edge F) → Elem e edges → Joined edges a e.from → Joined edges a e.to
  back : (e : Edge F) → Elem e edges → Joined edges a e.to → Joined edges a e.from

module _ {A B : Type 0} (f : A → B) where
  Elem-map : (x : A) (xs : List A) → Elem x xs → Elem (f x) (map f xs)
  Elem-map x (y ∷ xs) (inl e) = inl (ap f e)
  Elem-map x (y ∷ xs) (inr m) = inr (Elem-map x xs m)
  Elem-map x [] m = absurd m

  map-Elem : (b : B) (xs : List A) → Elem b (map f xs) → (x : A) × Elem x xs × (f x ≡ b)
  map-Elem b (y ∷ xs) (inl e) = (y, inl refl, sym e)
  map-Elem b (y ∷ xs) (inr m) = let (x, i, e) = map-Elem b xs m in (x, inr i, e)
  map-Elem b [] m = absurd m

contains-Elem :
    {V : Type 0} (k : String) (m : Map V) → contains k m ≡ true → Elem k (map (λ n. n.0) m)
unfolding lookup
contains-Elem k [] h = cc
contains-Elem k (x ∷ m) h = elim (Bool-cases (x.0 == k)) [
  | inl same ↦ inl (sym (≡-of_eq x.0 k same))
  | inr other ↦ inr (contains-Elem k m (ground (arith, other, h)))
]

module _ {F : Type 0} ⦃slice : SortSlice⦄ (edges : List (Edge F)) (t : Topology F)
    (fits : Fits edges t) where
  neighbour-to : (e : Edge F) → neighbour e.to e ≡ e.from
  unfolding neighbour
  neighbour-to e = ground (arith, eq_iff e.to e.to)

  neighbour-from : (e : Edge F) → neighbour e.from e ≡ e.to
  unfolding neighbour
  neighbour-from e = elim (Bool-cases (e.to == e.from)) [
    | inl same ↦ rw same (sym (≡-of_eq e.to e.from same))
    | inr other ↦ rw other refl
  ]

  -- Both ends of an edge of the topology are neighbours of each other.
  to-neighbours : (e : Edge F) → Elem e edges → Elem e.to (neighbours t e.from)
  unfolding neighbours
  to-neighbours e m =
      subst (λ x. Elem x (neighbours t e.from)) (neighbour-from e)
        (Elem-map (neighbour e.from) e _
          (Elem-append_left e (slice_of e.from t.outgoing) _ (fits.held e m)))

  from-neighbours : (e : Edge F) → Elem e edges → Elem e.from (neighbours t e.to)
  unfolding neighbours
  from-neighbours e m =
      subst (λ x. Elem x (neighbours t e.to)) (neighbour-to e)
        (Elem-map (neighbour e.to) e _
          (Elem-append_right e (slice_of e.to t.outgoing) _ (fits.out e.from e (fits.held e m)).1))

  -- A neighbour is the other end of an edge given.
  Neighbours : String → String → Type 0
  Neighbours a b =
      (e : Edge F) × Elem e edges
      × (((e.from ≡ a) × (e.to ≡ b)) ⊎ ((e.to ≡ a) × (e.from ≡ b)))
      × (contains b t.nodes ≡ true)

  neighbours-Neighbours : (a b : String) → Elem b (neighbours t a) → Neighbours a b
  unfolding neighbours Neighbours
  neighbours-Neighbours a b m =
      let (e, i, q) = map-Elem (neighbour a) b (slice_of a t.outgoing ++ slice_of a t.incoming) m in
      elim (Elem-split e (slice_of a t.outgoing) (slice_of a t.incoming) i) [
        | inl leaves ↦
            let (from, enters, known) = fits.out a e leaves in
            let to : e.to ≡ b = sym (neighbour-from e) ∙ ap (λ x. neighbour x e) from ∙ q in
            (
              e,
              fits.given a e leaves,
              inl (from, to),
              subst (λ x. contains x t.nodes ≡ true) to known,
            )
        | inr enters ↦
            let (to, leaves, known) = fits.inward a e enters in
            let from : e.from ≡ b = sym (neighbour-to e) ∙ ap (λ x. neighbour x e) to ∙ q in
            (
              e,
              fits.given e.from e leaves,
              inr (to, from),
              subst (λ x. contains x t.nodes ≡ true) from known,
            )
      ]

  returns : (a b : String) → Elem b (neighbours t a) → Elem a (neighbours t b)
  unfolding Neighbours
  returns a b m =
      let (e, given, ends, known) = neighbours-Neighbours a b m in
      elim ends [
        | inl (from, to) ↦
            subst (λ x. Elem x (neighbours t b)) from
              (subst (λ x. Elem e.from (neighbours t x)) to (from-neighbours e given))
        | inr (to, from) ↦
            subst (λ x. Elem x (neighbours t b)) to
              (subst (λ x. Elem e.to (neighbours t x)) from (to-neighbours e given))
      ]

  known_neighbour : (a b : String) → Elem b (neighbours t a) → Elem b (nodes_sorted t)
  unfolding Neighbours nodes_sorted
  known_neighbour a b m =
      let (e, given, ends, known) = neighbours-Neighbours a b m in
      Elem-perm b (slice.sort-perm String str_lt (map (λ n. n.0) t.nodes))
        (contains-Elem b t.nodes known)

  Way-Joined : {a b : String} → Way (neighbours t) a b → Joined edges a b
  unfolding Neighbours
  Way-Joined stay = here
  Way-Joined {a} (go {b} c w m) =
      let (e, given, ends, known) = neighbours-Neighbours b c m in
      let before = Way-Joined w in
      elim ends [
        | inl (from, to) ↦
            subst (Joined edges a) to (forth e given (subst (Joined edges a) (sym from) before))
        | inr (to, from) ↦
            subst (Joined edges a) from (back e given (subst (Joined edges a) (sym to) before))
      ]

  Joined-Way : {a b : String} → Joined edges a b → Way (neighbours t) a b
  Joined-Way here = stay
  Joined-Way (forth e m j) = go e.to (Joined-Way j) (to-neighbours e m)
  Joined-Way (back e m j) = go e.from (Joined-Way j) (from-neighbours e m)

  length-nodes_sorted : length (nodes_sorted t) ≡ length t.nodes
  unfolding nodes_sorted
  length-nodes_sorted =
      sym (length-perm (slice.sort-perm String str_lt (map (λ n. n.0) t.nodes)))
      ∙ length-map (λ n. n.0) t.nodes

  is_node : (a : String) → contains a t.nodes ≡ true → Elem a (nodes_sorted t)
  unfolding nodes_sorted
  is_node a h =
      Elem-perm a (slice.sort-perm String str_lt (map (λ n. n.0) t.nodes))
        (contains-Elem a t.nodes h)

same_component-eq :
    (labels : Map ℕ) (a b : String) (i j : ℕ)
    → Labelled i labels a
    → Labelled j labels b
    → (same_component labels a b ≡ true) ↔ (i ≡ j)
unfolding same_component
same_component-eq labels a b i j h k =
    rw (h, k, same_component) ((λ e. ground (arith, e)), (λ e. ground (arith, e)))

module _ {F : Type 0} ⦃slice : SortSlice⦄ where
  -- For a topology that is built from nodes and edges, and fuel above the number of its nodes,
  -- `ComputeConnectivity` returns labels. By them `SameComponent` says of two nodes of the topology
  -- that they are in one component exactly if edges that were given join them, taken in whichever
  -- direction.
  pub compute_connectivity-Joined :
      (nodes : List (Node F)) (edges : List (Edge F)) (t : Topology F) (fuel : ℕ)
      → build_topology nodes edges ≡ ok t
      → length t.nodes < fuel
      → (labels : Map ℕ) × (count : ℕ) × (compute_connectivity fuel t ≡ some (labels, count))
        × ((a b : String)
            → contains a t.nodes ≡ true
            → contains b t.nodes ≡ true
            → (same_component labels a b ≡ true) ↔ Joined edges a b)
  unfolding compute_connectivity
  compute_connectivity-Joined nodes edges t fuel built h =
      let fits = build_topology-Fits nodes edges t built in
      let (labels, count, q, agree) =
        label_all-Way (neighbours t) (nodes_sorted t) (known_neighbour edges t fits)
          (returns edges t fits) fuel (omega (arith, h, length-nodes_sorted edges t fits)) in
      (
        labels,
        count,
        q,
        λ a b m n.
            let (i, j, at_a, at_b, equal) =
              agree a b (is_node edges t fits a m) (is_node edges t fits b n) in
            let same = same_component-eq labels a b i j at_a at_b in
            (
              (λ e. Way-Joined edges t fits (equal.0 (same.0 e))),
              (λ w. same.1 (equal.1 (Joined-Way edges t fits w))),
            ),
      )
