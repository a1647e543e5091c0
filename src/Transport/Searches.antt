-- ===== src/Transport/Searches.antt =====
-- The handlers of internal/transport/httpapi/handler.go that search for routes, on fuel as the searches are. The
-- first store is the one that the graph is read from, the second the one of its incidents.
use route_analysis_service.Prelude.{ℕ, ℤ, String, List, Map, length, Option, some, SortSlice, Heap}
use route_analysis_service.Model.Float.{Float64}
use route_analysis_service.Model.Types.{RouteRequest, RouteResult}
use mathlib.Core.Option
use route_analysis_service.Model.Error.{Result, ok, err, Error}
use route_analysis_service.Store.Defs.{Store}
use route_analysis_service.Service.Analysis.{find_route, find_routes, find_reachable}
use route_analysis_service.Transport.Responses.{Answer, write_error, respond}

pub record RoutesInput (F : Type 0) : Type 0 where
  pub request : RouteRequest F
  pub k : ℤ

pub record ReachInput (F : Type 0) : Type 0 where
  pub request : RouteRequest F
  pub budget_seconds : F

-- What is reachable, and its number.
unfoldable pub counted : {F : Type 0} → Result (Map F) → Result (Map F × ℕ)
counted (ok found) = ok (found, length found)
counted (err e) = err e

module _ {F : Type 0} ⦃fl : Float64 F⦄ ⦃slice : SortSlice⦄ ⦃heap : Heap⦄
    (error_text : Error → String) (fuel : ℕ) (s t : Store F) where
  -- `decode`, and a search for what it reads.
  abbrev pub searched : {A B : Type 0} → Result A → (A → Option (Result B)) → Option (Answer B)
  searched (ok input) find = Option.map (respond error_text) (find input)
  searched (err e) find = some (write_error 400 "invalid_json" (error_text e))

  unfoldable pub handle_route : Result (RouteRequest F) → Option (Answer (RouteResult F))
  handle_route body = searched body (find_route fuel s t)

  unfoldable pub handle_k_routes : Result (RoutesInput F) → Option (Answer (List (RouteResult F)))
  handle_k_routes body = searched body λ input. find_routes fuel s t input.request input.k

  unfoldable pub handle_isochrone : Result (ReachInput F) → Option (Answer (Map F × ℕ))
  handle_isochrone body =
      searched body
        λ input. Option.map counted (find_reachable fuel s t input.request input.budget_seconds)
