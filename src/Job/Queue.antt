-- ===== src/Job/Queue.antt =====
-- internal/domain/job/queue.go: a bounded queue by priority that holds a job at most once.
use route_analysis_service.Prelude.{
  flag, String, List, [], ◌∷◌, ◌++◌, length, Bool, true, if◌then◌else◌, ℤ, pos, ltb_ℤ, leb_ℤ, eq_ℤ,
  Map, insert, delete, Option, none, some, stable_sort,
}
use route_analysis_service.Model.Time.{Time, before}
use route_analysis_service.Model.Types.{AnalysisJob}
use route_analysis_service.Model.Error.{Result, ok, err, queue_full, message}

pub record Envelope (F : Type 0) : Type 0 where
  pub job : AnalysisJob F
  pub priority : ℤ
  pub enqueued_at : Time

pub record Queue (F : Type 0) : Type 0 where
  pub items : List (Envelope F)
  pub seen : Map Bool
  pub limit : ℤ

module _ {F : Type 0} where
  unfoldable pub new_queue : ℤ → Queue F
  new_queue limit = record {
    items = [];
    seen = [];
    limit = if ltb_ℤ limit (pos 1) then pos 64 else limit;
  }

  unfoldable pub envelope_first : Envelope F → Envelope F → Bool
  envelope_first a b =
      if eq_ℤ a.priority b.priority
      then before a.enqueued_at b.enqueued_at
      else ltb_ℤ b.priority a.priority

  unfoldable pub len : Queue F → ℤ
  len q = pos (length q.items)

  unfoldable pub contains : Queue F → String → Bool
  contains q id = flag id q.seen

  unfoldable pub push : Queue F → Envelope F → Queue F × Result (Unit {0})
  unfolding len contains
  push q e =
      if contains q e.job.id
      then (q, err (message "job already queued"))
      else if leb_ℤ q.limit (len q)
      then (q, err queue_full)
      else (
        record q {
          items = stable_sort envelope_first (q.items ++ (e ∷ []));
          seen = insert e.job.id true q.seen;
        },
        ok tt,
      )

  -- The queue after a `Pop` that took out the head of `items`.
  unfoldable pub pop : Queue F → Queue F × Option (Envelope F)
  pop q = elim q.items [
    | [] ↦ (q, none)
    | e ∷ rest ↦ (record q { items = rest; seen = delete e.job.id q.seen }, some e)
  ]

  unfoldable pub peek : Queue F → Option (Envelope F)
  peek q = elim q.items [ [] ↦ none | e ∷ rest ↦ some e ]
