-- ===== src/Model/Validation.antt =====
-- internal/domain/model/types.go: what the records accept before they are stored or served.
use Prim.Native.Char.{code}
use route_analysis_service.Prelude.{
  ℕ, String, List, [], ◌∷◌, pos, negsuc, ltb_ℤ, eq_ℕ, leb, Bool, true, false, not, ◌&&◌, ◌||◌, ◌==◌,
  any,
}
use route_analysis_service.Model.Float.{Float64}
use route_analysis_service.Model.Time.{is_zero, window_valid}
use route_analysis_service.Model.Types.{
  Mode, Point, Dataset, Node, Edge, Incident, RouteRequest, JobType, AnalysisJob,
}
use route_analysis_service.Model.Error.{Result, message, reject_if, ◌>>◌}

unfoldable pub mode_valid : Mode → Bool
mode_valid (Mode.other s) = false
mode_valid _ = true

unfoldable pub job_type_known : JobType → Bool
job_type_known (JobType.other s) = false
job_type_known _ = true

-- `len(xs) == 0`
abbrev pub is_nil {ℓ} : {A : Type ℓ} → List A → Bool
is_nil [] = true
is_nil (x ∷ xs) = false

-- Unicode's white space, which `strings.TrimSpace` cuts off.
abbrev is_space : ℕ → Bool
is_space c =
    (leb 9 c && leb c 13)
    || eq_ℕ c 32
    || eq_ℕ c 0x85
    || eq_ℕ c 0xa0
    || eq_ℕ c 0x1680
    || (leb 0x2000 c && leb c 0x200a)
    || eq_ℕ c 0x2028
    || eq_ℕ c 0x2029
    || eq_ℕ c 0x202f
    || eq_ℕ c 0x205f
    || eq_ℕ c 0x3000

-- `strings.TrimSpace(s) == ""`
unfoldable pub is_blank : String → Bool
is_blank String.[] = true
is_blank (String.◌∷◌ c s) = is_space (code c) && is_blank s

unfoldable pub validate_dataset : Dataset → Result (Unit {0})
validate_dataset d = do
  reject_if (is_blank d.name) (message "dataset name is required")
  reject_if (ltb_ℤ d.version (pos 1)) (message "dataset version must be positive")

module _ {F : Type 0} ⦃fl : Float64 F⦄ where
  open fl use {decimal, lt, le}

  unfoldable pub point_valid : Point F → Bool
  point_valid p =
      le (decimal (negsuc 89) 0) p.lat
      && le p.lat (decimal (pos 90) 0)
      && le (decimal (negsuc 179) 0) p.lon
      && le p.lon (decimal (pos 180) 0)

  unfoldable pub validate_node : Node F → Result (Unit {0})
  validate_node n = do
    reject_if (n.id == "" || n.dataset_id == "") (message "node id and dataset id are required")
    reject_if (not (point_valid n.location)) (message "invalid node location")

  -- The message for an unknown mode also quotes the mode; the quotation is left out.
  unfoldable pub validate_edge : Edge F → Result (Unit {0})
  validate_edge e = do
    reject_if (e.id == "" || e.dataset_id == "" || e.from == "" || e.to == "")
        (message "edge identifiers are required")
    reject_if (e.from == e.to) (message "self edges are not allowed")
    reject_if (le e.length_meters (decimal (pos 0) 0) || le e.base_seconds (decimal (pos 0) 0))
        (message "edge length and duration must be positive")
    reject_if (is_nil e.modes) (message "edge must support a mode")
    reject_if (any (λ m. not (mode_valid m)) e.modes) (message "unsupported mode")

  unfoldable pub validate_incident : Incident F → Result (Unit {0})
  validate_incident i = do
    reject_if (i.id == "" || i.dataset_id == "" || is_nil i.edge_ids)
        (message "incident id, dataset and edges are required")
    reject_if (not (window_valid i.window) || lt i.speed_factor (decimal (pos 0) 0))
        (message "invalid incident window or speed factor")

  unfoldable pub validate_request : RouteRequest F → Result (Unit {0})
  validate_request r = do
    reject_if (r.dataset_id == "" || r.from == "" || r.to == "")
        (message "datasetId, from and to are required")
    reject_if (not (mode_valid r.mode)) (message "valid mode is required")
    reject_if (r.from == r.to) (message "origin and destination must differ")
    reject_if (is_zero r.departure) (message "departure is required")

  unfoldable pub validate_job : AnalysisJob F → Result (Unit {0})
  validate_job j = do
    reject_if (j.id == "" || j.dataset_id == "") (message "job id and dataset id are required")
    reject_if (not (job_type_known j.job_type)) (message "unsupported job type")
