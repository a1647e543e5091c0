-- ===== src/Incident/Lifecycle.antt =====
-- internal/domain/incident/lifecycle.go: one status change for many incidents.
use route_analysis_service.Prelude.{
  String, List, [], ◌∷◌, ◌++◌, map, filter, any, Bool, true, not, ◌&&◌, Option, none, some,
  if◌then◌else◌, Bool-cases, inl, inr, ◌≡◌, refl,
}
use mathlib.Core.List.{append-nil, append_assoc, map-append}
use route_analysis_service.Model.Time.{Time, is_zero, before}
use route_analysis_service.Model.Types.{IncidentStatus, active, resolved, Incident}
use route_analysis_service.Model.Access.{is_active}
use route_analysis_service.Model.Error.{Result, Error, ok, err}
use route_analysis_service.Incident.State.{transition, is_allowed}

pub record Failure : Type 0 where
  pub incident : String
  pub reason : Error

pub record BatchResult : Type 0 where
  pub updated : List String
  pub failed : List Failure

abbrev pub failed_ids : List Failure → List String
failed_ids = map (λ f. f.incident)

active_can_resolve : (s : IncidentStatus) → is_active s ≡ true → is_allowed s resolved ≡ true
unfolding is_active is_allowed any
active_can_resolve active e = refl
active_can_resolve _ e = cc

module _ {F : Type 0} where
  -- The test at the top of the loop; a `nil` predicate is `none`.
  unfoldable pub selected : Option (Incident F → Bool) → Incident F → Bool
  selected none i = true
  selected (some p) i = p i

  -- One item that was selected: its outcome goes to the end of the lists.
  unfoldable pub batch_item :
      List (Incident F) × BatchResult
      → Incident F
      → Result (Incident F)
      → List (Incident F) × BatchResult
  batch_item (items, r) item (ok new) =
      (items ++ new ∷ [], record r { updated = r.updated ++ item.id ∷ [] })
  batch_item (items, r) item (err e) = (
    items ++ item ∷ [],
    record r { failed = r.failed ++ record { incident = item.id; reason = e } ∷ [] },
  )

  unfoldable pub batch_loop :
      Option (Incident F → Bool)
      → IncidentStatus
      → List (Incident F) × BatchResult
      → List (Incident F)
      → List (Incident F) × BatchResult
  unfolding selected batch_item
  batch_loop p next acc [] = acc
  batch_loop p next acc (item ∷ items) =
      batch_loop p next
        (if selected p item then batch_item acc item (transition item next) else acc) items

  unfoldable pub batch_transition :
      List (Incident F)
      → Option (Incident F → Bool)
      → IncidentStatus
      → List (Incident F) × BatchResult
  unfolding batch_loop
  batch_transition items p next = batch_loop p next ([], record { updated = []; failed = [] }) items

  unfoldable pub is_expired : Time → Incident F → Bool
  is_expired at i = not (is_zero i.window.end) && before i.window.end at

  unfoldable pub expired : List (Incident F) → Time → List (Incident F)
  expired items at = filter (is_expired at) items

  -- The loop of `ResolveExpired`, with its two lists; an error gives the input back.
  unfoldable pub resolve_loop :
      List (Incident F)
      → Time
      → List (Incident F) × List String
      → List (Incident F)
      → List (Incident F) × List String × Option Error
  resolve_loop all at (changed, ids) [] = (changed, ids, none)
  resolve_loop all at (changed, ids) (item ∷ items) =
      let rest = resolve_loop all at (changed, ids) items in
      if not (is_active item.status)
      then rest
      else if is_expired at item
      then elim (transition item resolved) [
        | ok new ↦ resolve_loop all at (changed ++ new ∷ [], ids ++ item.id ∷ []) items
        | err e ↦ (all, [], some e)
      ]
      else rest

  unfoldable pub resolve_expired :
      List (Incident F) → Time → List (Incident F) × List String × Option Error
  unfolding resolve_loop is_expired
  resolve_expired items at = resolve_loop items at ([], []) items

  -- What a transition leaves in the list: the changed incident, or the item as it was.
  abbrev pub settled : IncidentStatus → Incident F → Incident F
  settled next i = if is_allowed i.status next then record i { status = next } else i

  abbrev pub moves : IncidentStatus → Incident F → Bool
  moves next i = is_allowed i.status next

  abbrev pub ids : List (Incident F) → List String
  ids = map (λ i. i.id)

  -- The three lists of a batch result, against those that the remaining items should add.
  abbrev Adds :
      (next : IncidentStatus) (acc r : List (Incident F) × BatchResult) → List (Incident F) → Type 0
  Adds next acc r chosen =
      (r.0 ≡ acc.0 ++ map (settled next) chosen)
      × (r.1.updated ≡ acc.1.updated ++ ids (filter (moves next) chosen))
      × (failed_ids r.1.failed
          ≡ failed_ids acc.1.failed ++ ids (filter (λ i. not (moves next i)) chosen))

  Adds-item :
      (next : IncidentStatus) (acc r : List (Incident F) × BatchResult) (item : Incident F)
      (chosen : List (Incident F))
      → Adds next (batch_item acc item (transition item next)) r chosen
      → Adds next acc r (item ∷ chosen)
  unfolding batch_item transition filter
  Adds-item next (done, b) r item chosen a = elim (Bool-cases (is_allowed item.status next)) [
    | inl move ↦ rw move (simp (move, append_assoc) at a)
    | inr stay ↦ rw stay (simp (stay, append_assoc, map-append) at a)
  ]

  batch_loop-Adds :
      (p : Option (Incident F → Bool)) (next : IncidentStatus)
      (acc : List (Incident F) × BatchResult) (items : List (Incident F))
      → Adds next acc (batch_loop p next acc items) (filter (selected p) items)
  unfolding batch_loop filter
  batch_loop-Adds p next acc [] = (simp append-nil, simp append-nil, simp append-nil)
  batch_loop-Adds p next acc (item ∷ items) = elim (Bool-cases (selected p item)) [
    | inl chosen ↦
        rw (chosen, batch_loop)
          (Adds-item next acc _ item (filter (selected p) items)
            (batch_loop-Adds p next (batch_item acc item (transition item next)) items))
    | inr skip ↦ rw (skip, batch_loop) (batch_loop-Adds p next acc items)
  ]

  -- A batch keeps the selected items in order, each changed if its transition is legal and left as
  -- it was if not; `updated` and `failed` name those two kinds, in order, and nothing else.
  pub batch_transition-Adds :
      (items : List (Incident F)) (p : Option (Incident F → Bool)) (next : IncidentStatus)
      → let chosen = filter (selected p) items in
        let r = batch_transition items p next in
        (r.0 ≡ map (settled next) chosen)
        × (r.1.updated ≡ ids (filter (moves next) chosen))
        × (failed_ids r.1.failed ≡ ids (filter (λ i. not (moves next i)) chosen))
  unfolding batch_transition
  batch_transition-Adds items p next = batch_loop-Adds p next _ items

  abbrev pub is_due : Time → Incident F → Bool
  is_due at i = is_active i.status && is_expired at i

  abbrev pub resolve : Incident F → Incident F
  resolve i = record i { status = resolved }

  resolve_loop_lem :
      (all : List (Incident F)) (at : Time) (changed : List (Incident F)) (done : List String)
      (items : List (Incident F))
      → resolve_loop all at (changed, done) items ≡ (
        changed ++ map resolve (filter (is_due at) items),
        done ++ ids (filter (is_due at) items),
        none,
      )
  unfolding resolve_loop filter transition
  resolve_loop_lem all at changed done [] = simp append-nil
  resolve_loop_lem all at changed done (i ∷ items) = elim (Bool-cases (is_active i.status)) [
    | inr idle ↦ rw idle (resolve_loop_lem all at changed done items)
    | inl live ↦ elim (Bool-cases (is_expired at i)) [
      | inr early ↦ rw (live, early) (resolve_loop_lem all at changed done items)
      | inl late ↦
          rw (live, late, active_can_resolve i.status live)
            (simp append_assoc at
              (resolve_loop_lem all at (changed ++ resolve i ∷ []) (done ++ i.id ∷ []) items))
    ]
  ]

  -- `ResolveExpired` never fails: it returns exactly the active incidents whose window has ended,
  -- in order and resolved, and their ids.
  pub resolve_expired_lem :
      (items : List (Incident F)) (at : Time)
      → resolve_expired items at
        ≡ (map resolve (filter (is_due at) items), ids (filter (is_due at) items), none)
  unfolding resolve_expired
  resolve_expired_lem items at = resolve_loop_lem items at [] [] items
