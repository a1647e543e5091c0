-- ===== src/Service/Parameters.antt =====
-- internal/application/service.go: the parameters of jobs, and the texts of errors.
use route_analysis_service.Prelude.{String, str_append, List, [], ◌∷◌}
use route_analysis_service.Model.Float.{Float64}
use route_analysis_service.Model.Types.{Any, Items}
use route_analysis_service.Model.Error.{
  Error, message, wrapped, not_found, conflict, no_route, queue_full, budget_exceeded, rate_limited,
  unknown_status,
}
use route_analysis_service.Incident.State.{status_text}

-- `err.Error()`
unfoldable pub error_text : Error → String
error_text not_found = "resource not found"
error_text conflict = "resource conflict"
error_text no_route = "no route found"
error_text queue_full = "job queue is full"
error_text budget_exceeded = "quota budget exceeded"
error_text rate_limited = "rate limit exceeded"
error_text unknown_status = "unknown incident status"
error_text (message text) = text
error_text (wrapped text e) = str_append text (str_append ": " (error_text e))
error_text (Error.transition id from to) = str_append "incident " (
    str_append id (
      str_append " cannot move from "
        (str_append (status_text from) (str_append " to " (status_text to)))))

unfoldable pub pair_key : String → String → String
pair_key from to = str_append from (str_append "->" to)

module _ {F : Type 0} where
  -- The texts among the items, where the value is a list.
  unfoldable pub texts : Items F → List String
  texts Items.nil = []
  texts (Items.cons (Any.text t) rest) = t ∷ texts rest
  texts (Items.cons _ rest) = texts rest

  unfoldable pub strings : Any F → List String
  unfolding texts
  strings (Any.list items) = texts items
  strings _ = []

  unfoldable pub text_items : List String → Items F
  text_items [] = Items.nil
  text_items (t ∷ ts) = Items.cons (Any.text t) (text_items ts)

module _ {F : Type 0} ⦃fl : Float64 F⦄ where
  open fl use {of_int}

  unfoldable pub number : Any F → F → F
  number (Any.float v) fallback = v
  number (Any.int n) fallback = of_int n
  number _ fallback = fallback
