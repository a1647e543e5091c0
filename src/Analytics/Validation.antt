-- ===== src/Analytics/Validation.antt =====
-- internal/domain/analytics/validation.go: the report on a graph, and the busiest nodes. The text of an
-- error is the error itself.
use route_analysis_service.Prelude.{
  String, str_lt, List, [], ◌∷◌, ◌++◌, map, length, take, Bool, true, not, ◌||◌, if◌then◌else◌, ℤ,
  pos, pos_part, ltb_ℤ, eq_ℤ, ◌+64◌, Map, lookup, insert, contains, flag, none, some, SortSlice,
}
use route_analysis_service.Model.Float.{Float64}
use route_analysis_service.Model.Time.{Time}
use route_analysis_service.Model.Types.{Node, Edge}
use route_analysis_service.Model.Validation.{is_nil, validate_node, validate_edge}
use route_analysis_service.Model.Error.{Result, Error, ok, err, message}

pub record Issue : Type 0 where
  pub code : String
  pub severity : String
  pub entity : String
  pub reason : Error

pub record Report : Type 0 where
  pub dataset_id : String
  pub node_count : ℤ
  pub edge_count : ℤ
  pub issues : List Issue
  pub valid : Bool
  pub checked_at : Time

-- An issue of severity "error" if something failed.
unfoldable pub issue_if : Bool → String → String → String → List Issue
issue_if failed code entity text =
    if failed
    then record { code = code; severity = "error"; entity = entity; reason = message text } ∷ []
    else []

unfoldable pub issue_of : Result (Unit {0}) → String → String → List Issue
issue_of (ok _) code entity = []
issue_of (err e) code entity =
    record { code = code; severity = "error"; entity = entity; reason = e } ∷ []

module _ {F : Type 0} ⦃fl : Float64 F⦄ where
  open fl use {is_nan, is_inf}

  -- The issues of one node, and of one edge.
  unfoldable pub node_issues : Map (Node F) → Node F → List Issue
  unfolding issue_if issue_of
  node_issues set n =
      issue_if (contains n.id set) "duplicate_node" n.id "node identifier is duplicated"
      ++ issue_of (validate_node n) "invalid_node" n.id

  unfoldable pub edge_issues : Map (Node F) → Map Bool → Edge F → List Issue
  unfolding issue_if issue_of
  edge_issues nodes seen e =
      issue_if (flag e.id seen) "duplicate_edge" e.id "edge identifier is duplicated"
      ++ issue_if (not (contains e.from nodes)) "missing_origin" e.id "origin node is missing"
      ++ issue_if (not (contains e.to nodes)) "missing_destination" e.id
          "destination node is missing"
      ++ issue_of (validate_edge e) "invalid_edge" e.id
      ++ issue_if (is_nan e.length_meters || is_inf e.length_meters) "invalid_length" e.id
          "length is not finite"

  unfoldable pub node_loop : Map (Node F) × List Issue → List (Node F) → Map (Node F) × List Issue
  unfolding node_issues
  node_loop acc [] = acc
  node_loop (set, issues) (n ∷ ns) = node_loop (insert n.id n set, issues ++ node_issues set n) ns

  unfoldable pub edge_loop :
      Map (Node F) → Map Bool × List Issue → List (Edge F) → Map Bool × List Issue
  unfolding edge_issues
  edge_loop nodes acc [] = acc
  edge_loop nodes (seen, issues) (e ∷ es) =
      edge_loop nodes (insert e.id true seen, issues ++ edge_issues nodes seen e) es

  unfoldable pub validate_graph : String → List (Node F) → List (Edge F) → Time → Report
  unfolding node_loop edge_loop
  validate_graph dataset nodes edges now =
      let (set, found) = node_loop ([], []) nodes in
      let (seen, issues) = edge_loop set ([], found) edges in
      record {
        dataset_id = dataset;
        node_count = pos (length nodes);
        edge_count = pos (length edges);
        issues = issues;
        valid = is_nil issues;
        checked_at = now;
      }

-- `scores[id]`, which is zero for a missing node, and `scores[id]++`.
abbrev pub score : Map ℤ → String → ℤ
score scores id = elim (lookup id scores) [ none ↦ pos 0 | some n ↦ n ]

abbrev pub count_end : String → Map ℤ → Map ℤ
count_end id scores = insert id (score scores id +64 pos 1) scores

-- The higher score first, then the smaller id.
unfoldable pub busier : Map ℤ → String → String → Bool
busier scores a b =
    if eq_ℤ (score scores a) (score scores b)
    then str_lt a b
    else ltb_ℤ (score scores b) (score scores a)

module _ {F : Type 0} where
  unfoldable pub score_loop : Map ℤ → List (Edge F) → Map ℤ
  score_loop scores [] = scores
  score_loop scores (e ∷ es) = score_loop (count_end e.to (count_end e.from scores)) es

  unfoldable pub top_nodes : ⦃slice : SortSlice⦄ → List (Node F) → List (Edge F) → ℤ → List String
  unfolding score_loop busier
  top_nodes ⦃slice⦄ nodes edges limit =
      if ltb_ℤ limit (pos 1)
      then []
      else let ids = slice.sort String (busier (score_loop [] edges)) (map (λ n. n.id) nodes) in
        if ltb_ℤ limit (pos (length ids)) then take (pos_part limit) ids else ids
