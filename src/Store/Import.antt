-- ===== src/Store/Import.antt =====
-- The import of a graph, from PutGraph of internal/infrastructure/memory/store.go: what the loops over
-- the nodes and the edges let through.
use route_analysis_service.Prelude.{
  String, List, [], ◌∷◌, Bool, true, false, not, ◌==◌, Map, contains, ≡-of_eq, All, All-insert, ◌≡◌,
  refl, subst, arith,
}
use route_analysis_service.Model.Float.{Float64}
use route_analysis_service.Model.Types.{Node, Edge}
use route_analysis_service.Model.Validation.{validate_node, validate_edge}
use route_analysis_service.Model.Error.{Result, Error, ok, err, reject_if, ◌>>=◌, ◌>>◌}
use route_analysis_service.Store.Defs.{Graph, load_node, load_nodes, load_edge, load_edges}

-- What passes a chain of checks has passed each of them.
pub passed :
    {A : Type 0} (b : Bool) (e : Error) (k : Result A) (a : A)
    → (reject_if b e >> k) ≡ ok a
    → (b ≡ false) × (k ≡ ok a)
passed true e k a q = cc
passed false e k a q = (refl, q)

pub bound :
    {A B : Type 0} (m : Result A) (k : A → Result B) (b : B)
    → (m >>= k) ≡ ok b
    → (a : A) × (m ≡ ok a) × (k a ≡ ok b)
bound (ok a) k b q = (a, refl, q)
bound (err e) k b q = cc

pub ok_inj : {A : Type 0} {a b : A} → ok a ≡ ok b → a ≡ b
ok_inj e = cc

of_not : (s t : String) → not (s == t) ≡ false → s ≡ t
of_not s t e = ≡-of_eq s t (ground arith)

module _ {F : Type 0} ⦃fl : Float64 F⦄ where
  -- A stored node has its key as its id, belongs to the dataset and is valid.
  abbrev pub NodeFits : String → String × Node F → Type 0
  NodeFits id e = (e.1.id ≡ e.0) × (e.1.dataset_id ≡ id) × (validate_node e.1 ≡ ok tt)

  -- So does a stored edge, and it joins two nodes of the graph.
  abbrev pub EdgeFits : String → Map (Node F) → String × Edge F → Type 0
  EdgeFits id nodes e =
      (e.1.id ≡ e.0)
      × (e.1.dataset_id ≡ id)
      × (validate_edge e.1 ≡ ok tt)
      × (contains e.1.from nodes ≡ true)
      × (contains e.1.to nodes ≡ true)

  pub record GraphFits (id : String) (g : Graph F) : Type 0 where
    pub nodes_fit : All (NodeFits id) g.nodes
    pub edges_fit : All (EdgeFits id g.nodes) g.edges

  load_node-NodeFits :
      (id : String) (m : Map (Node F)) (n : Node F) (t : Map (Node F))
      → load_node id m n ≡ ok t
      → All (NodeFits id) m
      → All (NodeFits id) t
  unfolding load_node
  load_node-NodeFits id m n t e all =
      let (u, valid, r) = bound (validate_node n) _ t e in
      let (same, r2) = passed (not (n.dataset_id == id)) _ _ t r in
      let (fresh, r3) = passed (contains n.id m) _ _ t r2 in
      subst (All (NodeFits id)) (ok_inj r3)
        (All-insert (NodeFits id) n.id n m (refl, of_not n.dataset_id id same, valid) all)

  pub load_nodes-NodeFits :
      (id : String) (m : Map (Node F)) (ns : List (Node F)) (t : Map (Node F))
      → load_nodes id m ns ≡ ok t
      → All (NodeFits id) m
      → All (NodeFits id) t
  unfolding load_nodes
  load_nodes-NodeFits id m [] t e all = subst (All (NodeFits id)) (ok_inj e) all
  load_nodes-NodeFits id m (n ∷ ns) t e all =
      let (m', one, rest) = bound (load_node id m n) (λ m'. load_nodes id m' ns) t e in
      load_nodes-NodeFits id m' ns t rest (load_node-NodeFits id m n m' one all)

  load_edge-EdgeFits :
      (id : String) (nodes : Map (Node F)) (m : Map (Edge F)) (x : Edge F) (t : Map (Edge F))
      → load_edge id nodes m x ≡ ok t
      → All (EdgeFits id nodes) m
      → All (EdgeFits id nodes) t
  unfolding load_edge
  load_edge-EdgeFits id nodes m x t e all =
      let (u, valid, r) = bound (validate_edge x) _ t e in
      let (same, r2) = passed (not (x.dataset_id == id)) _ _ t r in
      let (start, r3) = passed (not (contains x.from nodes)) _ _ t r2 in
      let (end, r4) = passed (not (contains x.to nodes)) _ _ t r3 in
      let (fresh, r5) = passed (contains x.id m) _ _ t r4 in
      subst (All (EdgeFits id nodes)) (ok_inj r5) (
        All-insert (EdgeFits id nodes) x.id x m
          (refl, of_not x.dataset_id id same, valid, ground arith, ground arith) all)

  pub load_edges-EdgeFits :
      (id : String) (nodes : Map (Node F)) (m : Map (Edge F)) (es : List (Edge F))
      (t : Map (Edge F))
      → load_edges id nodes m es ≡ ok t
      → All (EdgeFits id nodes) m
      → All (EdgeFits id nodes) t
  unfolding load_edges
  load_edges-EdgeFits id nodes m [] t e all = subst (All (EdgeFits id nodes)) (ok_inj e) all
  load_edges-EdgeFits id nodes m (x ∷ es) t e all =
      let (m', one, rest) = bound (load_edge id nodes m x) (λ m'. load_edges id nodes m' es) t e in
      load_edges-EdgeFits id nodes m' es t rest (load_edge-EdgeFits id nodes m x m' one all)
