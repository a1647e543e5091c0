-- ===== src/Model/Types.antt =====
-- internal/domain/model/types.go: the records. A status or mode is a Go string with named
-- constants; `other` stands for a string that is none of them. Tags and metadata are maps that no
-- code reads, and copying them is no step of a model of values.
use route_analysis_service.Prelude.{String, List, Option, none, some, ℤ, Bool, Map, lookup}
use route_analysis_service.Model.Time.{Time, TimeWindow}

pub data Mode : Type 0 where
  drive walk bike transit : Mode
  other : String → Mode

pub data DatasetStatus : Type 0 where
  draft importing ready failed archived : DatasetStatus
  other : String → DatasetStatus

pub data IncidentStatus : Type 0 where
  draft active resolved revoked : IncidentStatus
  other : String → IncidentStatus

pub data JobType : Type 0 where
  od_matrix isochrone centrality : JobType
  other : String → JobType

pub data JobStatus : Type 0 where
  queued running succeeded failed cancelled : JobStatus
  other : String → JobStatus

pub record Point (F : Type 0) : Type 0 where
  pub lat : F
  pub lon : F

pub record Dataset : Type 0 where
  pub id : String
  pub name : String
  pub version : ℤ
  pub status : DatasetStatus
  pub description : String
  pub created_at : Time
  pub updated_at : Time
  pub tags : Map String

pub record Node (F : Type 0) : Type 0 where
  pub id : String
  pub dataset_id : String
  pub location : Point F
  pub kind : String
  pub name : String
  pub metadata : Map String

pub record AccessRule : Type 0 where
  pub mode : Mode
  pub window : TimeWindow
  pub allowed : Bool
  pub vehicle_class : String

pub record Edge (F : Type 0) : Type 0 where
  pub id : String
  pub dataset_id : String
  pub from : String
  pub to : String
  pub length_meters : F
  pub base_seconds : F
  pub capacity : ℤ
  pub toll_cents : ℤ
  pub slope_percent : F
  pub modes : List Mode
  pub rules : List AccessRule
  pub geometry : List (Point F)
  pub metadata : Map String

pub record Incident (F : Type 0) : Type 0 where
  pub id : String
  pub dataset_id : String
  pub edge_ids : List String
  pub status : IncidentStatus
  pub window : TimeWindow
  pub speed_factor : F
  pub closed : Bool
  pub priority : ℤ
  pub description : String
  pub version : ℤ
  pub created_at : Time

pub record RouteRequest (F : Type 0) : Type 0 where
  pub dataset_id : String
  pub from : String
  pub to : String
  pub mode : Mode
  pub departure : Time
  pub vehicle_class : String
  pub avoid_tolls : Bool
  pub max_slope : F

pub record RouteLeg (F : Type 0) : Type 0 where
  pub edge_id : String
  pub from : String
  pub to : String
  pub seconds : F
  pub length_meters : F
  pub toll_cents : ℤ
  pub incident_ids : List String

pub record RouteResult (F : Type 0) : Type 0 where
  pub dataset_id : String
  pub snapshot_version : ℤ
  pub algorithm : String
  pub departure : Time
  pub arrival : Time
  pub total_seconds : F
  pub total_meters : F
  pub total_toll_cents : ℤ
  pub legs : List (RouteLeg F)
  pub explanation : List String

-- A value of Go's `any`, as far as job parameters and results hold one.
mutual
  pub data Any (F : Type 0) : Type 0 where
    null : Any F
    float : F → Any F
    int : ℤ → Any F
    text : String → Any F
    time : Time → Any F
    list : Items F → Any F
    scores : Map F → Any F

  pub data Items (F : Type 0) : Type 0 where
    nil : Items F
    cons : Any F → Items F → Items F

pub record AnalysisJob (F : Type 0) : Type 0 where
  pub id : String
  pub job_type : JobType
  pub dataset_id : String
  pub status : JobStatus
  pub progress : ℤ
  pub parameters : Map (Any F)
  pub result : Option (Map (Any F))
  pub error : String
  pub created_at : Time
  pub started_at : Option Time
  pub completed_at : Option Time
  pub checkpoint : ℤ

pub record EdgeCost (F : Type 0) : Type 0 where
  pub edge : Edge F
  pub seconds : F
  pub incident_ids : List String

-- `m[k]`, which is nil for a missing key.
unfoldable pub parameter : {F : Type 0} → String → Map (Any F) → Any F
parameter k m = elim (lookup k m) [ none ↦ Any.null | some v ↦ v ]
