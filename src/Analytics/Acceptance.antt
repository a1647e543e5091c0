-- ===== src/Analytics/Acceptance.antt =====
-- The report of internal/domain/analytics/validation.go against the import of
-- internal/infrastructure/memory/store.go.
use route_analysis_service.Prelude.{
  String, List, [], ◌∷◌, ◌++◌, all, Bool, true, false, not, ◌&&◌, ◌||◌, ◌==◌, Map, lookup, insert,
  contains, flag, flag-insert, contains-insert, contains-some, some, All, ◌≡◌, refl, ◌∙◌, arith,
  Bool-cases, inl, inr,
}
use route_analysis_service.Model.Float.{Float64}
use route_analysis_service.Model.Time.{Time}
use route_analysis_service.Model.Types.{Dataset, Node, Edge}
use route_analysis_service.Model.Validation.{is_nil, validate_node, validate_edge}
use route_analysis_service.Model.Error.{Result, ok, err, ◌>>=◌}
use route_analysis_service.Store.Defs.{
  Store, after_call, load_node, load_nodes, load_edge, load_edges, imported, put_graph,
}
use route_analysis_service.Analytics.Validation.{
  Issue, issue_if, issue_of, node_issues, edge_issues, node_loop, edge_loop, validate_graph,
}

abbrev pub is_ok {ℓ} : {A : Type ℓ} → Result A → Bool
is_ok (ok a) = true
is_ok (err e) = false

is_nil-append {ℓ} : {A : Type ℓ} (xs ys : List A) → is_nil (xs ++ ys) ≡ (is_nil xs && is_nil ys)
is_nil-append [] ys = refl
is_nil-append (x ∷ xs) ys = refl

is_nil-issue_if :
    (b : Bool) (code entity text : String) → is_nil (issue_if b code entity text) ≡ not b
unfolding issue_if
is_nil-issue_if true code entity text = refl
is_nil-issue_if false code entity text = refl

is_nil-issue_of :
    (r : Result (Unit {0})) (code entity : String) → is_nil (issue_of r code entity) ≡ is_ok r
unfolding issue_of
is_nil-issue_of (ok _) code entity = refl
is_nil-issue_of (err e) code entity = refl

stopped :
    {A B : Type 0} (r : Result A) (k : A → Result B) → is_ok r ≡ false → is_ok (r >>= k) ≡ false
stopped (ok a) k h = cc
stopped (err e) k h = refl

is_ok-ok : {A B : Type 0} (r : Result A) (f : A → B) → is_ok (r >>= λ a. ok (f a)) ≡ is_ok r
is_ok-ok (ok a) f = refl
is_ok-ok (err e) f = refl

regroup : (a b c p q : Bool) → ((a && (b && c)) && (p && q)) ≡ (a && ((b && p) && (c && q)))
regroup true b c p q = ground arith
regroup false b c p q = refl

and_assoc : (a b c : Bool) → (a && (b && c)) ≡ ((a && b) && c)
and_assoc true b c = refl
and_assoc false b c = refl

is_ok-after_call : {S : Type 0} (s : S) (r : Result S) → is_ok (after_call s r).1 ≡ is_ok r
is_ok-after_call s (ok t) = refl
is_ok-after_call s (err e) = refl

module _ {F : Type 0} ⦃fl : Float64 F⦄ where
  open fl use {is_nan, is_inf}

  -- A length that is a number.
  abbrev pub measured : Edge F → Bool
  measured e = not (is_nan e.length_meters || is_inf e.length_meters)

  -- Which nodes and edges pass, without a word on issues or errors.
  nodes_pass : Map (Node F) → List (Node F) → Bool
  nodes_pass m [] = true
  nodes_pass m (n ∷ ns) =
      (not (contains n.id m) && is_ok (validate_node n)) && nodes_pass (insert n.id n m) ns

  is_nil-node_issues :
      (m : Map (Node F)) (n : Node F)
      → is_nil (node_issues m n) ≡ (not (contains n.id m) && is_ok (validate_node n))
  unfolding node_issues
  is_nil-node_issues m n = rw (is_nil-append, is_nil-issue_if, is_nil-issue_of)

  is_nil-node_loop :
      (m : Map (Node F)) (issues : List Issue) (ns : List (Node F))
      → is_nil (node_loop (m, issues) ns).1 ≡ (is_nil issues && nodes_pass m ns)
  unfolding node_loop nodes_pass
  is_nil-node_loop m issues [] = ground arith
  is_nil-node_loop m issues (n ∷ ns) = ground (
    arith,
    is_nil-node_loop (insert n.id n m) (issues ++ node_issues m n) ns,
    is_nil-append issues (node_issues m n),
    is_nil-node_issues m n,
  )

  load_node-eq :
      (id : String) (m : Map (Node F)) (n : Node F)
      → (n.dataset_id == id) ≡ true
      → (not (contains n.id m) && is_ok (validate_node n)) ≡ true
      → load_node id m n ≡ ok (insert n.id n m)
  unfolding load_node
  load_node-eq id m n same pass = ground arith

  load_node-none :
      (id : String) (m : Map (Node F)) (n : Node F)
      → (not (contains n.id m) && is_ok (validate_node n)) ≡ false
      → is_ok (load_node id m n) ≡ false
  unfolding load_node
  load_node-none id m n fail = ground arith

  load_nodes-eq :
      (id : String) (m : Map (Node F)) (issues : List Issue) (ns : List (Node F))
      → All (λ n. (n.dataset_id == id) ≡ true) ns
      → nodes_pass m ns ≡ true
      → load_nodes id m ns ≡ ok (node_loop (m, issues) ns).0
  unfolding load_nodes node_loop nodes_pass
  load_nodes-eq id m issues [] same pass = refl
  load_nodes-eq id m issues (n ∷ ns) same pass =
      let one = load_node-eq id m n same.0 (ground arith) in
      rw one
        (load_nodes-eq id (insert n.id n m) (issues ++ node_issues m n) ns same.1 (ground arith))

  load_nodes-none :
      (id : String) (m : Map (Node F)) (ns : List (Node F))
      → All (λ n. (n.dataset_id == id) ≡ true) ns
      → nodes_pass m ns ≡ false
      → is_ok (load_nodes id m ns) ≡ false
  unfolding load_nodes nodes_pass
  load_nodes-none id m [] same fail = cc
  load_nodes-none id m (n ∷ ns) same fail =
      elim (Bool-cases (not (contains n.id m) && is_ok (validate_node n))) [
        | inl pass ↦
            rw (load_node-eq id m n same.0 pass)
              (load_nodes-none id (insert n.id n m) ns same.1 (ground (arith, pass, fail)))
        | inr stop ↦
            stopped (load_node id m n) (λ m'. load_nodes id m' ns) (load_node-none id m n stop)
      ]

  -- An edge joins two of the nodes, has a fresh id and is valid.
  edge_fits : Map (Node F) → Map Bool → Edge F → Bool
  edge_fits nodes seen e =
      not (flag e.id seen)
      && (contains e.from nodes && (contains e.to nodes && is_ok (validate_edge e)))

  edges_pass : Map (Node F) → Map Bool → List (Edge F) → Bool
  edges_pass nodes seen [] = true
  edges_pass nodes seen (e ∷ es) =
      edge_fits nodes seen e && edges_pass nodes (insert e.id true seen) es

  is_nil-edge_issues :
      (nodes : Map (Node F)) (seen : Map Bool) (e : Edge F)
      → is_nil (edge_issues nodes seen e) ≡ (edge_fits nodes seen e && measured e)
  unfolding edge_issues edge_fits
  is_nil-edge_issues nodes seen e =
      rw
        (
          is_nil-append, is_nil-append, is_nil-append, is_nil-append, is_nil-issue_if,
          is_nil-issue_if, is_nil-issue_if, is_nil-issue_if, is_nil-issue_of,
        )
        (ground arith)

  is_nil-edge_loop :
      (nodes : Map (Node F)) (seen : Map Bool) (issues : List Issue) (es : List (Edge F))
      → is_nil (edge_loop nodes (seen, issues) es).1
        ≡ (is_nil issues && (edges_pass nodes seen es && all measured es))
  unfolding edge_loop edges_pass all
  is_nil-edge_loop nodes seen issues [] = ground arith
  is_nil-edge_loop nodes seen issues (e ∷ es) =
      is_nil-edge_loop nodes (insert e.id true seen) (issues ++ edge_issues nodes seen e) es
      ∙ rw (is_nil-append issues, is_nil-edge_issues)
          (regroup (is_nil issues) (edge_fits nodes seen e) (measured e)
            (edges_pass nodes (insert e.id true seen) es) (all measured es))

  load_edge-eq :
      (id : String) (nodes : Map (Node F)) (seen : Map Bool) (m : Map (Edge F)) (e : Edge F)
      → (e.dataset_id == id) ≡ true
      → flag e.id seen ≡ contains e.id m
      → edge_fits nodes seen e ≡ true
      → load_edge id nodes m e ≡ ok (insert e.id e m)
  unfolding load_edge edge_fits
  load_edge-eq id nodes seen m e same known pass = ground arith

  load_edge-none :
      (id : String) (nodes : Map (Node F)) (seen : Map Bool) (m : Map (Edge F)) (e : Edge F)
      → flag e.id seen ≡ contains e.id m
      → edge_fits nodes seen e ≡ false
      → is_ok (load_edge id nodes m e) ≡ false
  unfolding load_edge edge_fits
  load_edge-none id nodes seen m e known fail = ground arith

  is_ok-load_edges :
      (id : String) (nodes : Map (Node F)) (seen : Map Bool) (m : Map (Edge F)) (es : List (Edge F))
      → All (λ e. (e.dataset_id == id) ≡ true) es
      → ((k : String) → flag k seen ≡ contains k m)
      → is_ok (load_edges id nodes m es) ≡ edges_pass nodes seen es
  unfolding load_edges edges_pass
  is_ok-load_edges id nodes seen m [] same known = refl
  is_ok-load_edges id nodes seen m (e ∷ es) same known =
      elim (Bool-cases (edge_fits nodes seen e)) [
        | inl pass ↦
            rw (load_edge-eq id nodes seen m e same.0 (known e.id) pass, pass)
              (is_ok-load_edges id nodes (insert e.id true seen) (insert e.id e m) es same.1
                (λ k. ground (arith, flag-insert e.id k seen, contains-insert e.id k e m, known k)))
        | inr stop ↦ rw stop (
            stopped (load_edge id nodes m e) (λ m'. load_edges id nodes m' es)
              (load_edge-none id nodes seen m e (known e.id) stop))
      ]

  is_ok-imported :
      (s : Store F) (id : String) (nodes : List (Node F)) (edges : List (Edge F)) (d : Dataset)
      → All (λ n. (n.dataset_id == id) ≡ true) nodes
      → All (λ e. (e.dataset_id == id) ≡ true) edges
      → is_ok (imported s id nodes edges (some d))
        ≡ (nodes_pass [] nodes && edges_pass (node_loop ([], []) nodes).0 [] edges)
  unfolding imported lookup
  is_ok-imported s id nodes edges d same_nodes same_edges =
      elim (Bool-cases (nodes_pass [] nodes)) [
        | inl pass ↦
            rw (load_nodes-eq id [] [] nodes same_nodes pass, pass)
              (is_ok-ok (load_edges id (node_loop ([], []) nodes).0 [] edges) _
                ∙ is_ok-load_edges id (node_loop ([], []) nodes).0 [] [] edges same_edges
                    (λ k. refl))
        | inr stop ↦
            rw stop
              (stopped (load_nodes id [] nodes) _ (load_nodes-none id [] nodes same_nodes stop))
      ]

  -- For a stored dataset, and nodes and edges that name it, the report is valid exactly if the import
  -- succeeds and every edge has a length that is a number and not infinite.
  pub validate_graph-put_graph :
      (s : Store F) (id : String) (nodes : List (Node F)) (edges : List (Edge F)) (now : Time)
      → contains id s.datasets ≡ true
      → All (λ n. (n.dataset_id == id) ≡ true) nodes
      → All (λ e. (e.dataset_id == id) ≡ true) edges
      → (validate_graph id nodes edges now).valid
        ≡ (is_ok (put_graph s id nodes edges).1 && all measured edges)
  unfolding validate_graph put_graph
  validate_graph-put_graph s id nodes edges now known same_nodes same_edges =
      let (d, found) = contains-some id s.datasets known in
      let reported = is_nil-node_loop [] [] nodes in
      is_nil-edge_loop (node_loop ([], []) nodes).0 [] (node_loop ([], []) nodes).1 edges
      ∙ rw
          (
            reported,
            found,
            is_ok-after_call,
            is_ok-imported s id nodes edges d same_nodes same_edges,
          )
          (and_assoc (nodes_pass [] nodes) (edges_pass (node_loop ([], []) nodes).0 [] edges)
            (all measured edges))
