-- ===== src/Transport/Responses.antt =====
-- internal/transport/httpapi/handler.go: the status and the body of an answer. The JSON in it is the value itself.
use route_analysis_service.Prelude.{ℕ, String, Bool, true, false, if◌then◌else◌}
use route_analysis_service.Model.Error.{Result, ok, err, Error, not_found, conflict, wrapped}

pub data Body (A : Type 0) : Type 0 where
  value : A → Body A
  failure : (code text : String) → Body A

pub record Answer (A : Type 0) : Type 0 where
  pub status : ℕ
  pub body : Body A

module _ {A : Type 0} where
  unfoldable pub write_json : ℕ → A → Answer A
  write_json status v = record { status = status; body = value v }

  unfoldable pub write_error : ℕ → String → String → Answer A
  write_error status code text = record { status = status; body = failure code text }

-- `errors.Is(err, memory.ErrNotFound)` and `errors.Is(err, memory.ErrConflict)`.
unfoldable pub is_not_found : Error → Bool
is_not_found not_found = true
is_not_found (wrapped _ e) = is_not_found e
is_not_found _ = false

unfoldable pub is_conflict : Error → Bool
is_conflict conflict = true
is_conflict (wrapped _ e) = is_conflict e
is_conflict _ = false

-- `err.Error()` is a parameter. No error is `contextCanceled`, which no other file can name.
module _ (error_text : Error → String) where
  unfoldable pub respond : {A : Type 0} → Result A → Answer A
  unfolding write_json write_error is_not_found is_conflict
  respond (ok v) = write_json 200 v
  respond (err e) =
      if is_not_found e
      then write_error 404 "not_found" (error_text e)
      else if is_conflict e
      then write_error 409 "conflict" (error_text e)
      else write_error 400 "operation_failed" (error_text e)

  -- `decode`, whose result is an argument, and what follows it on some state.
  unfoldable pub with_body : {S A B : Type 0} → S → Result A → (A → S × Answer B) → S × Answer B
  unfolding write_error
  with_body s (ok input) handle = handle input
  with_body s (err e) handle = (s, write_error 400 "invalid_json" (error_text e))
