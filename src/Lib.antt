-- ===== src/Lib.antt =====
-- The route analysis service: a store of road networks, the search for routes on them, and the
-- incidents, quotas and jobs around it.
--
-- Parts and files. A caller imports a graph into the store, and records incidents there. A search
-- takes a snapshot of the graph and its incidents and runs on it alone; the cost of an edge depends on
-- the time at which the search reaches it. Quotas, the job queue and the worker pool keep their own
-- state. The HTTP handlers call the service, and turn its errors into the status of the answer.
--   Prelude: what all parts share. Tests, Lists, Int (Go's int and int64 as ℤ, with the wrap-around
--     of an addition in `◌+64◌`), Text (strings and maps), Sorting (the library's sorts and its heap),
--     Occurs and Totals (counting), Loop (a loop on fuel, and the rule that a measure which falls
--     makes the fuel enough).
--   Model: internal/domain/model/types.go. Types, Time, Float, Error, Validation (the Validate
--     methods) and Access (Supports, Applies, EffectiveCost as `effective_cost`).
--   Insertion: the insertion loop of internal/domain/incident/eligibility.go and
--     internal/domain/network/cost.go.
--   Incident: internal/domain/incident. State (state.go), Lifecycle (lifecycle.go), Resolver
--     (resolver.go), Eligibility (eligibility.go).
--   Network: Edges for internal/domain/network/cost.go and eligibility.go, Paths for path.go, Topology
--     for topology.go and, with Flood, for connectivity.go; Labels, Spread, Components, Groups and
--     Weak hold the proofs on components.
--   Quota: internal/domain/quota. Budget, RateLimit, Evaluator (quota.go).
--   Job: Queue for internal/domain/job/queue.go, with Validity for its proofs; Checkpoint for
--     checkpoint.go; Scheduler for scheduler.go, with Places and Scheduled for its proofs.
--   Worker: internal/infrastructure/worker. Dispatcher for dispatcher.go; Tally, Moves, Accounts,
--     Measure, Manned and Ends hold the proofs. Pool for pool.go; Crew, Accepted and Joining hold
--     the proofs.
--   Geocode: Cluster for internal/domain/geocode/cluster.go, Polygon for polygon.go; Partition, Apart
--     and Box hold the proofs.
--   Cache: Ttl for internal/infrastructure/cache/ttl.go, Lru for lru.go; Linked, Elements, Eviction,
--     Recency and Uses hold the proofs on the latter.
--   Analytics: Validation, Adjacency and Demand for internal/domain/analytics/validation.go, Traffic
--     and Demand for network.go, Windows for heatmap.go; Acceptance, Grouped, Recorded and Pruned
--     hold the proofs.
--   Routing: internal/domain/routing/engine.go. Snapshot (NewSnapshot, DegreeCentrality, Nearest),
--     State (search states, the heuristic and `result`), Search (Route and Reachable) and
--     Alternatives (KRoutes); Itinerary, Progress, Answer, Isochrone, Closest, Index, Size,
--     Deviation, Pool and Choices hold the proofs.
--   Store: internal/infrastructure/memory/store.go. Defs has each method as a function from a store to
--     a store and a result; Import, Consistency, Writes, History, Locking and Jobs hold the
--     proofs.
--   Service: internal/application. Incidents for incident_service.go, and CreateIncident and
--     ActivateIncident of service.go; Parameters and Analysis (the searches over the store and
--     `analyze`) and Jobs (CreateJob and runJob) for service.go, and TerminalStatus of
--     internal/domain/job/result.go; Cached for route_service.go; Returns, Completion, Submission
--     and Activation hold the proofs.
--   Transport: internal/transport/httpapi after decoding. Responses (`respond` and the errors), Handlers
--     and Searches (the handlers of handler.go, incident_handlers.go and getDataset); Activation holds
--     the proofs.
--   Tests: runs on concrete inputs.
--
-- How the code is read. A method is one step on its object's state, as the lock around it makes it;
-- the copies that the clone functions make are no step of a model of values. A map is a list of keys
-- and values, in any order, and a loop over a map goes in that order. A time is the number of
-- nanoseconds since the zero time, unbounded; a call that reads the clock takes the time as an
-- argument. A float64 is a parameter, the record `Float64`: the theorems that need laws of it assume
-- that its order is total (`IsOrdered`), which NaN breaks, and that there are finitely many values
-- (`IsFinite`). `sort.Slice` and `container/heap` are parameters too, records that promise what the
-- library documents: a rearrangement that is sorted if the comparison is a strict weak order, and a
-- least element. `sort.SliceStable` is the stable sort.
--
-- Fuel. `route` and `reachable` take one unit for each state that they take from the heap. A state is
-- pushed only when the cost of its node falls, which each node can do at most as often as there are
-- floats; so twice that bound for each edge of the snapshot, and two, is enough.
--
-- The search for a component takes one unit for each node. A run of a job takes its analysis on the
-- same fuel.
--
-- Calls of several steps. Between the steps of a run of a job, the listing and the update of
-- `activate_incident`, the updates of `resolve_expired_incidents`, and the reads and the write of the
-- cache by `cached_route`, other goroutines may call: what they do is an argument. The queue of jobs
-- has no lock, so that jobs are pushed before a run of the scheduler starts.
--
-- Goroutines. The dispatcher, the pool and the scheduler are step relations: a step is what one
-- goroutine does between two points at which others can come in, and the steps come in any order. What
-- a called function answers is left open. The logs in the states are for the statements; no step reads
-- them.
--
-- Not modelled: decoding, encoding and the middleware of internal/transport and its handlers of quotas,
-- batches, geocoding and reports, the start-up (cmd), exports (internal/domain/export), the rest of the
-- geometry (internal/domain/geocode), the statistics on floats and the reports of the demand matrix of
-- internal/domain/analytics, aggregation in internal/domain/job, and of internal/application the
-- worker's own loop, the demonstration data and the calls that only pass on another.
pub mod Prelude
pub mod Model
pub mod Insertion
pub mod Incident
pub mod Network
pub mod Quota
pub mod Job
pub mod Cache
pub mod Geocode
pub mod Worker
pub mod Routing
pub mod Store
pub mod Analytics
pub mod Service
pub mod Transport
pub mod Tests
