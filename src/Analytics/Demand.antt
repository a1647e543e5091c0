-- ===== src/Analytics/Demand.antt =====
-- Travel demand: `ValidateDemand` of internal/domain/analytics/validation.go, and the matrix of
-- internal/domain/analytics/network.go with its `Add`.
use route_analysis_service.Prelude.{
  String, str_append, List, [], ◌∷◌, ◌||◌, ◌==◌, if◌then◌else◌, pos, Map, lookup, insert, none,
  some, ◌≡◌, false, refl, arith, All,
}
use route_analysis_service.Model.Float.{Float64}
use route_analysis_service.Store.Import.{passed, bound}
use route_analysis_service.Model.Error.{Result, ok, err, message, reject_if, ◌>>◌}

pub record DemandPair (F : Type 0) : Type 0 where
  pub from : String
  pub to : String
  pub count : F

-- `string(from)+"->"+string(to)`
unfoldable pub demand_key : String → String → String
demand_key from to = str_append (str_append from "->") to

module _ {F : Type 0} ⦃fl : Float64 F⦄ where
  open fl use {decimal, add, lt, is_nan, is_inf}

  unfoldable pub validate_pair : DemandPair F → Result (Unit {0})
  validate_pair p = do
    reject_if (p.from == "" || p.to == "") (message "demand endpoints are required")
    reject_if (lt p.count (decimal (pos 0) 0) || is_nan p.count || is_inf p.count)
        (message (str_append (str_append (str_append "invalid demand for " p.from) " to ") p.to))
    ok tt

  unfoldable pub validate_demand : List (DemandPair F) → Result (Unit {0})
  validate_demand [] = ok tt
  validate_demand (p ∷ ps) = validate_pair p >> validate_demand ps

  -- The cell of a key, which is zero for a missing one.
  abbrev pub cell : String → Map F → F
  cell key cells = elim (lookup key cells) [ none ↦ decimal (pos 0) 0 | some count ↦ count ]

  unfoldable pub add_demand : DemandPair F → Map F → Map F × Result (Unit {0})
  add_demand p cells =
      if p.from == "" || p.to == "" || lt p.count (decimal (pos 0) 0)
      then (cells, err (message "invalid demand pair"))
      else let key = demand_key p.from p.to in
        (insert key (add (cell key cells) p.count) cells, ok tt)

  validate_pair-ok :
      (p : DemandPair F) (u : Unit {0})
      → validate_pair p ≡ ok u
      → (p.from == "" || p.to == "" || lt p.count (decimal (pos 0) 0)) ≡ false
  unfolding validate_pair
  validate_pair-ok p u h =
      let (named, rest) = passed (p.from == "" || p.to == "") _ _ _ h in
      let (counted, end) =
        passed (lt p.count (decimal (pos 0) 0) || is_nan p.count || is_inf p.count) _ _ _ rest in
      ground (arith, named, counted)

  -- Pairs that `ValidateDemand` accepts are accepted by `Add`, whatever the matrix holds.
  validate_demand-add_demand :
      (ps : List (DemandPair F))
      → validate_demand ps ≡ ok tt
      → All (λ p. (cells : Map F) → (add_demand p cells).1 ≡ ok tt) ps
  unfolding validate_demand add_demand
  validate_demand-add_demand [] h = tt
  validate_demand-add_demand (p ∷ ps) h =
      let (u, first, rest) = bound (validate_pair p) _ _ h in
      (λ cells. rw (validate_pair-ok p u first) refl, validate_demand-add_demand ps rest)
