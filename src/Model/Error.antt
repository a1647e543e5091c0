-- ===== src/Model/Error.antt =====
-- Go's `error` results: the sentinel errors, the errors made by `errors.New` from a message, an
-- error wrapped by `fmt.Errorf` with `%w`, and an incident's illegal transition.
use route_analysis_service.Prelude.{String, Bool, true, false}
use route_analysis_service.Model.Types.{IncidentStatus}

pub data Error : Type 0 where
  not_found conflict no_route queue_full budget_exceeded rate_limited unknown_status : Error
  message : String → Error
  wrapped : String → Error → Error
  transition : String → IncidentStatus → IncidentStatus → Error

pub data Result {ℓ} (A : Type ℓ) : Type ℓ where
  ok : A → Result A
  err : Error → Result A

-- What follows a call that may fail runs on the value of a call that did not.
infixl 5 ◌>>=◌
abbrev pub ◌>>=◌ {ℓ κ} :
    {Value : Type ℓ} {Next : Type κ} → Result Value → (Value → Result Next) → Result Next
r >>= next = elim r [ ok v ↦ next v | err failure ↦ err failure ]

infixl 5 ◌>>◌
abbrev pub ◌>>◌ {ℓ} : {Next : Type ℓ} → Result (Unit {0}) → Result Next → Result Next
check >> next = check >>= (λ passed. next)

-- `if failed { return e }`
abbrev pub reject_if : Bool → Error → Result (Unit {0})
reject_if true e = err e
reject_if false e = ok tt
