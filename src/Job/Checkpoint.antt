-- ===== src/Job/Checkpoint.antt =====
-- internal/domain/job/checkpoint.go: the cursor of a long job, kept among its parameters.
use route_analysis_service.Prelude.{
  String, [], ◌∷◌, map, Bool, false, ◌||◌, ◌==◌, if◌then◌else◌, ℤ, pos, ltb_ℤ, ◌+64◌, ◌+ℤ◌, ◌<ℤ◌,
  IsInt64, increment_lem, wrap64-of_IsInt64, +ℤ_parts, Map, lookup, ◌≡◌, refl, arith,
}
use route_analysis_service.Model.Float.{Float64}
use route_analysis_service.Model.Time.{Time}
use route_analysis_service.Model.Types.{Any, parameter}
use route_analysis_service.Model.Error.{Result, ok, message, reject_if, ◌>>◌}

pub record Checkpoint : Type 0 where
  pub job_id : String
  pub last_origin : String
  pub last_dest : String
  pub completed : ℤ
  pub updated_at : Time

pub record ResumeCursor : Type 0 where
  pub next_origin : String
  pub next_dest : String
  pub finished : Bool

unfoldable pub validate_checkpoint : Checkpoint → Result (Unit {0})
validate_checkpoint c = do
  reject_if (c.job_id == "" || ltb_ℤ c.completed (pos 0)) (message "invalid checkpoint")
  ok tt

unfoldable pub cursor : Checkpoint → ResumeCursor
cursor c = record { next_origin = c.last_origin; next_dest = c.last_dest; finished = false }

unfoldable pub advance : Checkpoint → String → String → ℤ → Time → Checkpoint
advance c origin dest total now =
    let completed = c.completed +64 pos 1 in
    record c {
      last_origin = origin;
      last_dest = dest;
      completed = if ltb_ℤ total completed then total else completed;
      updated_at = now;
    }

-- A count below the total goes up by one pair; one at the total stays there.
advance-below :
    (c : Checkpoint) (origin dest : String) (total : ℤ) (now : Time)
    → IsInt64 c.completed
    → IsInt64 total
    → c.completed <ℤ total
    → (advance c origin dest total now).completed ≡ c.completed +ℤ pos 1
unfolding advance ◌+ℤ◌
advance-below c origin dest total now hc ht h =
    ground (arith, increment_lem c.completed total hc ht h, +ℤ_parts c.completed (pos 1))

advance-at :
    (c : Checkpoint) (origin dest : String) (now : Time)
    → IsInt64 c.completed
    → IsInt64 (c.completed +ℤ pos 1)
    → (advance c origin dest c.completed now).completed ≡ c.completed
unfolding advance ◌+64◌
advance-at c origin dest now hc h =
    ground (arith, wrap64-of_IsInt64 (c.completed +ℤ pos 1) h, +ℤ_parts c.completed (pos 1))

module _ {F : Type 0} where
  unfoldable pub persist_checkpoint : Checkpoint → Map (Any F)
  persist_checkpoint c =
      ("jobId", Any.text c.job_id)
      ∷ ("lastOrigin", Any.text c.last_origin)
      ∷ ("lastDest", Any.text c.last_dest)
      ∷ ("completed", Any.int c.completed)
      ∷ ("updatedAt", Any.time c.updated_at)
      ∷ []

  -- `v, ok := data[k].(string)`, with the empty string for another value.
  unfoldable pub text_or_empty : Any F → String
  text_or_empty (Any.text t) = t
  text_or_empty _ = ""

module _ {F : Type 0} ⦃fl : Float64 F⦄ where
  open fl use {of_int, truncate}

  -- `v, ok := data[k].(float64)`, with zero for another value.
  unfoldable pub count_or_zero : Any F → ℤ
  count_or_zero (Any.float v) = truncate v
  count_or_zero _ = pos 0

  unfoldable pub restore : String → Map (Any F) → Time → Checkpoint
  unfolding text_or_empty count_or_zero
  restore id m now = record {
    job_id = id;
    last_origin = text_or_empty (parameter "lastOrigin" m);
    last_dest = text_or_empty (parameter "lastDest" m);
    completed = count_or_zero (parameter "completed" m);
    updated_at = now;
  }

  module _ (decode : Any F → Any F) (decode-text : (t : String) → decode (Any.text t) ≡ Any.text t)
      (decode-int : (n : ℤ) → decode (Any.int n) ≡ Any.float (of_int n)) where
    -- Where JSON gives texts back as they are and whole numbers as floats, and the count of a checkpoint is one
    -- that a float can hold, a checkpoint that goes through JSON between `Persist` and `Restore` keeps
    -- all but its time. One that does not go through JSON loses its count, which is zero then.
    pub restore-persist_checkpoint :
        (c : Checkpoint) (now : Time)
        → truncate (of_int c.completed) ≡ c.completed
        → (restore c.job_id (map (λ x. (x.0, decode x.1)) (persist_checkpoint c)) now
            ≡ record c { updated_at = now })
          × (restore c.job_id (persist_checkpoint c) now
              ≡ record c { completed = pos 0; updated_at = now })
    unfolding restore persist_checkpoint parameter lookup
    restore-persist_checkpoint c now exact = (
      rw (decode-text c.last_origin, decode-text c.last_dest, decode-int c.completed, exact) refl,
      refl,
    )
