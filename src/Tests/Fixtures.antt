-- ===== src/Tests/Fixtures.antt =====
-- A small dataset, with whole numbers for floats and the stable sort for the library's sorts.
use route_analysis_service.Prelude.{
  ℕ, String, List, [], ◌∷◌, Bool, false, ℤ, pos, none, SortSlice, Heap, slice_by_stable,
  heap_by_sorting,
}
use route_analysis_service.Model.Types.{
  Mode, Dataset, DatasetStatus, Node, Edge, Incident, IncidentStatus, RouteRequest, AnalysisJob,
  JobType, JobStatus,
}

instance abbrev pub sorting : SortSlice
sorting = slice_by_stable

instance abbrev pub queueing : Heap
queueing = heap_by_sorting

abbrev pub city : Dataset
city = record {
  id = "city";
  name = "City";
  version = pos 1;
  status = DatasetStatus.draft;
  description = "";
  created_at = pos 1;
  updated_at = pos 1;
  tags = [];
}

abbrev pub node : String → Node ℕ
node id = record {
  id = id;
  dataset_id = "city";
  location = record { lat = 5; lon = 5 };
  kind = "";
  name = "";
  metadata = [];
}

abbrev pub edge : String → String → String → ℕ → Edge ℕ
edge id from to seconds = record {
  id = id;
  dataset_id = "city";
  from = from;
  to = to;
  length_meters = 10;
  base_seconds = seconds;
  capacity = pos 1;
  toll_cents = pos 0;
  slope_percent = 0;
  modes = Mode.walk ∷ [];
  rules = [];
  geometry = [];
  metadata = [];
}

abbrev pub incident : String → IncidentStatus → ℤ → Bool → Incident ℕ
incident id status priority closed = record {
  id = id;
  dataset_id = "city";
  edge_ids = "ab" ∷ [];
  status = status;
  window = record { start = pos 1; end = pos 50 };
  speed_factor = 2;
  closed = closed;
  priority = priority;
  description = "";
  version = pos 1;
  created_at = pos 1;
}

abbrev pub nodes : List (Node ℕ)
nodes = node "a" ∷ node "b" ∷ node "c" ∷ []

-- Straight from `a` to `c` takes 9 seconds, over `b` 3 + 4.
abbrev pub edges : List (Edge ℕ)
edges = edge "ab" "a" "b" 3 ∷ edge "bc" "b" "c" 4 ∷ edge "ac" "a" "c" 9 ∷ []

abbrev pub request : RouteRequest ℕ
request = record {
  dataset_id = "city";
  from = "a";
  to = "c";
  mode = Mode.walk;
  departure = pos 7;
  vehicle_class = "";
  avoid_tolls = false;
  max_slope = 0;
}

abbrev pub job : String → AnalysisJob ℕ
job id = record {
  id = id;
  job_type = JobType.od_matrix;
  dataset_id = "city";
  status = JobStatus.queued;
  progress = pos 0;
  parameters = [];
  result = none;
  error = "";
  created_at = pos 1;
  started_at = none;
  completed_at = none;
  checkpoint = pos 0;
}
