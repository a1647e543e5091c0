-- ===== src/Network/Groups.antt =====
-- The edges of a topology that internal/domain/network/topology.go builds.
use route_analysis_service.Prelude.{
  String, List, [], ◌∷◌, ◌++◌, Bool, true, false, not, ◌==◌, if◌then◌else◌, Map, lookup, contains,
  SortSlice, Elem, Elem-append_left, Elem-append_right, Elem-perm, Elem-split, inl, inr, ◌⊎◌, ◌≡◌,
  refl, sym, ap, subst, ◌∙◌, arith, Bool-cases, ≡-of_eq, perm_sym,
}
use mathlib.Core.List.{append-nil, append_assoc}
use text.Mathlib.TextEquality.{eq_iff}
use route_analysis_service.Model.Types.{Node, Edge}
use route_analysis_service.Model.Error.{ok}
use route_analysis_service.Store.Import.{passed, bound, ok_inj}
use route_analysis_service.Routing.Snapshot.{slice_of}
use route_analysis_service.Routing.Index.{sort_groups-perm, slice_of-insert}
use route_analysis_service.Network.Topology.{
  Topology, add_nodes, place, add_edge, add_edges, sorted_topology, build_topology,
}

module _ {F : Type 0} where
  place-slice_of :
      (k n : String) (x : Edge F) (m : Map (List (Edge F)))
      → slice_of n (place k x m) ≡ slice_of n m ++ (if k == n then x ∷ [] else [])
  unfolding place
  place-slice_of k n x m = elim (Bool-cases (k == n)) [
    | inl same ↦ rw same (
        slice_of-insert k n (slice_of k m ++ x ∷ []) m
        ∙ ap (λ b. if b then slice_of k m ++ x ∷ [] else slice_of n m) same
        ∙ ap (λ j. slice_of j m ++ x ∷ []) (≡-of_eq k n same))
    | inr other ↦ rw other (
        slice_of-insert k n (slice_of k m ++ x ∷ []) m
        ∙ ap (λ b. if b then slice_of k m ++ x ∷ [] else slice_of n m) other
        ∙ sym (append-nil (slice_of n m)))
  ]

  -- What is in a group after one more edge.
  place-cases :
      (k n : String) (x e : Edge F) (m : Map (List (Edge F)))
      → Elem e (slice_of n (place k x m))
      → Elem e (slice_of n m) ⊎ ((e ≡ x) × (k ≡ n))
  place-cases k n x e m i =
      elim (Elem-split e (slice_of n m) _ (subst (Elem e) (place-slice_of k n x m) i)) [
        | inl old ↦ inl old
        | inr new ↦ inr (by_key (k == n) refl new)
      ]
    where
      by_key : (b : Bool) → (k == n) ≡ b → Elem e (if b then x ∷ [] else []) → (e ≡ x) × (k ≡ n)
      by_key true q (inl same) = (same, ≡-of_eq k n q)
      by_key true q (inr none_left) = absurd none_left
      by_key false q none_left = absurd none_left

  place-old :
      (k n : String) (x e : Edge F) (m : Map (List (Edge F)))
      → Elem e (slice_of n m)
      → Elem e (slice_of n (place k x m))
  place-old k n x e m i =
      subst (Elem e) (sym (place-slice_of k n x m)) (Elem-append_left e (slice_of n m) _ i)

  place-new :
      (k : String) (x : Edge F) (m : Map (List (Edge F))) → Elem x (slice_of k (place k x m))
  place-new k x m =
      let here : (k == k) ≡ true = ground (arith, eq_iff k k) in
      subst (Elem x)
        (sym (place-slice_of k k x m ∙ ap (λ b. slice_of k m ++ (if b then x ∷ [] else [])) here))
        (Elem-append_right x (slice_of k m) (x ∷ []) (inl refl))

  -- The groups hold exactly the edges given. Each edge of a group stands in the groups of both of its ends,
  -- which are nodes.
  pub record Fits (es : List (Edge F)) (t : Topology F) : Type 0 where
    pub given : (n : String) (e : Edge F) → Elem e (slice_of n t.outgoing) → Elem e es
    pub held : (e : Edge F) → Elem e es → Elem e (slice_of e.from t.outgoing)
    pub out :
        (n : String) (e : Edge F)
        → Elem e (slice_of n t.outgoing)
        → (e.from ≡ n) × Elem e (slice_of e.to t.incoming) × (contains e.to t.nodes ≡ true)
    pub inward :
        (n : String) (e : Edge F)
        → Elem e (slice_of n t.incoming)
        → (e.to ≡ n) × Elem e (slice_of e.from t.outgoing) × (contains e.from t.nodes ≡ true)

  add_edge-Fits :
      (es : List (Edge F)) (t u : Topology F) (x : Edge F)
      → add_edge t x ≡ ok u
      → Fits es t
      → Fits (es ++ x ∷ []) u
  unfolding add_edge
  add_edge-Fits es t u x q g =
      let (start, r) = passed (not (contains x.from t.nodes)) _ _ u q in
      let (end, r2) = passed (not (contains x.to t.nodes)) _ _ u r in
      let (fresh, r3) = passed (contains x.id t.edges) _ _ u r2 in
      subst (Fits (es ++ x ∷ [])) (ok_inj r3) (record {
        given = λ n e i. elim (place-cases x.from n x e t.outgoing i) [
          | inl old ↦ Elem-append_left e es (x ∷ []) (g.given n e old)
          | inr (same, at) ↦ Elem-append_right e es (x ∷ []) (inl same)
        ];
        held = λ e m. elim (Elem-split e es (x ∷ []) m) [
          | inl old ↦ place-old x.from e.from x e t.outgoing (g.held e old)
          | inr (inl same) ↦
              subst (λ y. Elem y (slice_of y.from (place x.from x t.outgoing))) (sym same)
                (place-new x.from x t.outgoing)
          | inr (inr nowhere) ↦ absurd nowhere
        ];
        out = λ n e i. elim (place-cases x.from n x e t.outgoing i) [
          | inl old ↦
              let (leaves, enters, known) = g.out n e old in
              (leaves, place-old x.to e.to x e t.incoming enters, known)
          | inr (same, at) ↦ (
            ap (λ y. y.from) same ∙ at,
            subst (λ y. Elem y (slice_of y.to (place x.to x t.incoming))) (sym same)
                (place-new x.to x t.incoming),
            subst (λ y. contains y.to t.nodes ≡ true) (sym same) (ground (arith, end)),
          )
        ];
        inward = λ n e i. elim (place-cases x.to n x e t.incoming i) [
          | inl old ↦
              let (enters, leaves, known) = g.inward n e old in
              (enters, place-old x.from e.from x e t.outgoing leaves, known)
          | inr (same, at) ↦ (
            ap (λ y. y.to) same ∙ at,
            subst (λ y. Elem y (slice_of y.from (place x.from x t.outgoing))) (sym same)
                (place-new x.from x t.outgoing),
            subst (λ y. contains y.from t.nodes ≡ true) (sym same) (ground (arith, start)),
          )
        ];
      })

  add_edges-Fits :
      (before : List (Edge F)) (t u : Topology F) (es : List (Edge F))
      → add_edges t es ≡ ok u
      → Fits before t
      → Fits (before ++ es) u
  unfolding add_edges
  add_edges-Fits before t u [] q g =
      subst (λ l. Fits l u) (sym (append-nil before)) (subst (Fits before) (ok_inj q) g)
  add_edges-Fits before t u (e ∷ es) q g =
      let (t', one, rest) = bound (add_edge t e) (λ v. add_edges v es) u q in
      subst (λ l. Fits l u) (append_assoc before (e ∷ []) es)
        (add_edges-Fits (before ++ e ∷ []) t' u es rest (add_edge-Fits before t t' e one g))

  module _ ⦃slice : SortSlice⦄ where
    sorted_topology-Fits :
        (es : List (Edge F)) (t : Topology F) → Fits es t → Fits es (sorted_topology t)
    unfolding sorted_topology
    sorted_topology-Fits es t g = record {
      given = λ n e i. g.given n e (Elem-perm e (perm_sym (sort_groups-perm n t.outgoing)) i);
      held = λ e m. Elem-perm e (sort_groups-perm e.from t.outgoing) (g.held e m);
      out = λ n e i.
          (let (leaves, enters, known) =
              g.out n e (Elem-perm e (perm_sym (sort_groups-perm n t.outgoing)) i) in
            (leaves, Elem-perm e (sort_groups-perm e.to t.incoming) enters, known));
      inward = λ n e i.
          (let (enters, leaves, known) =
              g.inward n e (Elem-perm e (perm_sym (sort_groups-perm n t.incoming)) i) in
            (enters, Elem-perm e (sort_groups-perm e.from t.outgoing) leaves, known));
    }

    pub build_topology-Fits :
        (nodes : List (Node F)) (edges : List (Edge F)) (t : Topology F)
        → build_topology nodes edges ≡ ok t
        → Fits edges t
    unfolding build_topology lookup
    build_topology-Fits nodes edges t q =
        let (m, loaded, r) = bound (add_nodes [] nodes) _ t q in
        let (u, joined, r2) =
          bound (add_edges (record { nodes = m; edges = []; outgoing = []; incoming = [] }) edges)
            (λ v. ok (sorted_topology v)) t r in
        subst (Fits edges) (ok_inj r2) (
          sorted_topology-Fits edges u (
            add_edges-Fits [] _ u edges joined (record {
              given = λ n e i. absurd i;
              held = λ e m. absurd m;
              out = λ n e i. absurd i;
              inward = λ n e i. absurd i;
            })))
