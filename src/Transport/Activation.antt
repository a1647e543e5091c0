-- ===== src/Transport/Activation.antt =====
-- The header If-Match of `activateIncident` in internal/transport/httpapi/handler.go.
use route_analysis_service.Prelude.{
  String, true, false, ◌==◌, Bool-cases, ℤ, IsInt64, Option, none, some, Option-cases, SortSlice,
  ◌⊎◌, inl, inr, ◌≡◌, refl, sym, ap, subst, ◌∙◌, arith,
}
use route_analysis_service.Model.Float.{Float64}
use route_analysis_service.Model.Error.{Result, Error, ok, err, message, conflict}
use route_analysis_service.Store.Defs.{Store, list_incidents}
use route_analysis_service.Store.Consistency.{IsConsistent}
use route_analysis_service.Service.Incidents.{first_named, activate_incident}
use route_analysis_service.Transport.Responses.{respond, is_not_found, is_conflict, write_error}
use route_analysis_service.Transport.Handlers.{
  result_of_call, precondition_required, handle_activate_incident,
}
use route_analysis_service.Service.Activation.{activate_incident_twice}

respond-success :
    {A : Type 0} (error_text : Error → String) (v : A) (r : Result (Unit {0}))
    → (respond error_text (result_of_call v r)).status ≡ 200
    → r ≡ ok tt
unfolding respond
respond-success error_text v (ok _) h = refl
respond-success error_text v (err e) h = elim (Bool-cases (is_not_found e)) [
  | inl missing ↦ ground (arith, missing, h)
  | inr other ↦ elim (Bool-cases (is_conflict e)) [
    | inl clash ↦ ground (arith, other, clash, h)
    | inr rest ↦ ground (arith, other, rest, h)
  ]
]

not_success : (precondition_required {A = String × String}).status ≡ 200 → ⊥
unfolding write_error
not_success h = omega (arith, h)

conflict_status :
    {A : Type 0} (error_text : Error → String) (v : A)
    → (respond error_text (result_of_call v (err conflict))).status ≡ 409
unfolding respond write_error
conflict_status error_text v = refl

missing_status :
    {A : Type 0} (error_text : Error → String) (v : A)
    → (respond error_text (result_of_call v (err (message "incident not found")))).status ≡ 400
unfolding respond write_error
missing_status error_text v = refl

module _ {F : Type 0} ⦃fl : Float64 F⦄ ⦃slice : SortSlice⦄ (error_text : Error → String)
    (parse_int : String → Option ℤ) where
  handle-unread :
      (s t : Store F) (id dataset if_match : String)
      → parse_int if_match ≡ none
      → handle_activate_incident error_text parse_int s t id dataset if_match
        ≡ (t, precondition_required)
  unfolding handle_activate_incident
  handle-unread s t id dataset if_match unread = rw (unread, handle_activate_incident) refl

  handle-unnamed :
      (s t : Store F) (id dataset if_match : String) (expected : ℤ)
      → parse_int if_match ≡ some expected
      → (dataset == "") ≡ true
      → handle_activate_incident error_text parse_int s t id dataset if_match
        ≡ (t, precondition_required)
  unfolding handle_activate_incident
  handle-unnamed s t id dataset if_match expected read unnamed =
      rw (read, unnamed, handle_activate_incident) refl

  handle-activates :
      (s t : Store F) (id dataset if_match : String) (expected : ℤ)
      → parse_int if_match ≡ some expected
      → (dataset == "") ≡ false
      → handle_activate_incident error_text parse_int s t id dataset if_match ≡ (
        (activate_incident s t id dataset expected).0,
        respond error_text
            (result_of_call (id, "active") (activate_incident s t id dataset expected).1),
      )
  unfolding handle_activate_incident
  handle-activates s t id dataset if_match expected read named =
      rw (read, named, handle_activate_incident) refl

  -- An activation answered with success has named a dataset and a version, and has succeeded in the service.
  handled :
      (s t : Store F) (id dataset if_match : String)
      → (handle_activate_incident error_text parse_int s t id dataset if_match).1.status ≡ 200
      → (expected : ℤ) × (parse_int if_match ≡ some expected)
        × ((dataset == "") ≡ false)
        × ((activate_incident s t id dataset expected).1 ≡ ok tt)
  handled s t id dataset if_match h = elim (Option-cases (parse_int if_match)) [
    | inl unread ↦ absurd (
        not_success (sym (ap (λ r. r.1.status) (handle-unread s t id dataset if_match unread)) ∙ h))
    | inr (expected, read) ↦ elim (Bool-cases (dataset == "")) [
      | inl unnamed ↦ absurd (
          not_success (
            sym
              (ap (λ r. r.1.status) (handle-unnamed s t id dataset if_match expected read unnamed))
            ∙ h))
      | inr named ↦ (
        expected,
        read,
        named,
        respond-success error_text (id, "active") _
            (sym (
                ap (λ r. r.1.status) (handle-activates s t id dataset if_match expected read named))
              ∙ h),
      )
    ]
  ]

  -- An activation that was answered with 200 is not done again. The next one of the same incident with the same header
  -- If-Match leaves the store as it is, and is answered with 409, or with 400 if its listing of the dataset has no
  -- such incident. Both listings come from consistent stores, at whatever time; the header
  -- is read as an int64.
  pub handle_activate_incident_twice :
      (s t s' : Store F) (id dataset if_match : String)
      → ((v : ℤ) → parse_int if_match ≡ some v → IsInt64 v)
      → IsConsistent s
      → IsConsistent s'
      → (handle_activate_incident error_text parse_int s t id dataset if_match).1.status ≡ 200
      → let u = (handle_activate_incident error_text parse_int s t id dataset if_match).0 in
        let (w, answer) = handle_activate_incident error_text parse_int s' u id dataset if_match in
        (w ≡ u)
        × ((answer.status ≡ 409)
            ⊎ ((answer.status ≡ 400) × (first_named id (list_incidents s' dataset) ≡ none)))
  handle_activate_incident_twice s t s' id dataset if_match fits c c' h =
      let (expected, read, named, done) = handled s t id dataset if_match h in
      let first = handle-activates s t id dataset if_match expected read named in
      let u = (activate_incident s t id dataset expected).0 in
      let second = handle-activates s' u id dataset if_match expected read named in
      subst
        (λ (u : Store F).
          let (w, answer) =
            handle_activate_incident error_text parse_int s' u id dataset if_match in
          (w ≡ u)
          × ((answer.status ≡ 409)
              ⊎ ((answer.status ≡ 400) × (first_named id (list_incidents s' dataset) ≡ none))))
        (sym (ap (λ r. r.0) first))
        (elim (activate_incident_twice s t s' id dataset expected (fits expected read) c c' done) [
          | inl clash ↦ (
            ap (λ r. r.0) second ∙ ap (λ r. r.0) clash,
            inl (
                ap (λ r. r.1.status) second
                ∙ ap
                    (λ r.
                      (respond error_text {A = String × String}
                        (result_of_call (id, "active") r.1)).status)
                    clash
                ∙ conflict_status error_text (id, "active")),
          )
          | inr (gone, missing) ↦ (
            ap (λ r. r.0) second ∙ ap (λ r. r.0) gone,
            inr (
              ap (λ r. r.1.status) second
                  ∙ ap
                      (λ r.
                        (respond error_text {A = String × String}
                          (result_of_call (id, "active") r.1)).status)
                      gone
                  ∙ missing_status error_text (id, "active"),
              missing,
            ),
          )
        ])
