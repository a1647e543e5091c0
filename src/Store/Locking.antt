-- ===== src/Store/Locking.antt =====
-- The optimistic lock of `UpdateIncident` in internal/infrastructure/memory/store.go.
use route_analysis_service.Prelude.{
  ◌↔◌, Bool-cases, inl, inr, String, true, ◌&&◌, ◌==◌, if◌then◌else◌, ℤ, pos, eq_ℤ, ◌+64◌, IsInt64,
  increment_ne, eq_of_parts, insert, lookup-insert, Option, none, some, ◌≡◌, refl, sym, ap, subst,
  ◌∙◌, arith,
}
use text.Mathlib.TextEquality.{eq_iff}
use route_analysis_service.Model.Float.{Float64}
use route_analysis_service.Model.Types.{Incident}
use route_analysis_service.Model.Validation.{validate_incident}
use route_analysis_service.Model.Error.{Result, ok, err, conflict, ◌>>=◌}
use route_analysis_service.Store.Defs.{
  Store, after_call, incidents_of, incident_at, replaced, updated_incident, update_incident,
}

pub version_eq : (a b : ℤ) → eq_ℤ a b ≡ true → a ≡ b
version_eq a b h = eq_of_parts a b (ground arith)

pub after_call_ok :
    {S : Type 0} (s : S) (r : Result S) → (after_call s r).1 ≡ ok tt → r ≡ ok (after_call s r).0
after_call_ok s (ok t) h = refl
after_call_ok s (err e) h = cc

module _ {F : Type 0} ⦃fl : Float64 F⦄ where
  incident_at-insert :
      (s : Store F) (ds id : String) (i : Incident F) (ds' id' : String)
      → let t = record s { incidents = insert ds (insert id i (incidents_of s ds)) s.incidents } in
        incident_at t ds' id'
        ≡ (if (ds == ds') && (id == id') then some i else incident_at s ds' id')
  incident_at-insert s ds id i ds' id' = ground (
    arith,
    lookup-insert ds ds' (insert id i (incidents_of s ds)) s.incidents,
    lookup-insert id id' i (incidents_of s ds),
    eq_iff ds ds',
  )

  -- What a successful update of `i` against the version `expected` leaves.
  pub record Updated (s t : Store F) (i : Incident F) (expected : ℤ) : Type 0 where
    pub stored :
        (ds id : String)
        → incident_at t ds id ≡ (
            if (i.dataset_id == ds) && (i.id == id)
            then some (record i { version = expected +64 pos 1 })
            else incident_at s ds id)
    pub held :
        (current : Incident F) × (incident_at s i.dataset_id i.id ≡ some current)
        × (current.version ≡ expected)
    pub rest : (t.datasets ≡ s.datasets) × (t.graphs ≡ s.graphs) × (t.jobs ≡ s.jobs)

  abbrev with_version : Store F → Incident F → ℤ → Store F
  with_version s i v = record s {
    incidents =
        insert i.dataset_id (insert i.id (record i { version = v }) (incidents_of s i.dataset_id))
          s.incidents;
  }

  abbrev Replaces : Store F → Store F → Incident F → ℤ → Option (Incident F) → Type 0
  Replaces s t i expected o =
      (current : Incident F) × (o ≡ some current)
      × (eq_ℤ current.version expected ≡ true)
      × (t ≡ with_version s i (current.version +64 pos 1))

  replaced-Replaces :
      (s t : Store F) (i : Incident F) (expected : ℤ) (r : Result (Unit {0}))
      (o : Option (Incident F))
      → (r >>= λ _. replaced s i expected o) ≡ ok t
      → Replaces s t i expected o
  unfolding replaced
  replaced-Replaces s t i expected (err e) o h = cc
  replaced-Replaces s t i expected (ok _) none h = cc
  replaced-Replaces s t i expected (ok _) (some c) h = (c, refl, ground arith, ground arith)

  update_incident-Replaces :
      (s : Store F) (i : Incident F) (expected : ℤ)
      → (update_incident s i expected).1 ≡ ok tt
      → Replaces s (update_incident s i expected).0 i expected (incident_at s i.dataset_id i.id)
  unfolding update_incident updated_incident
  update_incident-Replaces s i expected h =
      replaced-Replaces s _ i expected (validate_incident i) (incident_at s i.dataset_id i.id)
        (after_call_ok s (updated_incident s i expected) h)

  with_version-Updated :
      (s : Store F) (i : Incident F) (expected : ℤ) (current : Incident F)
      → incident_at s i.dataset_id i.id ≡ some current
      → current.version ≡ expected
      → Updated s (with_version s i (expected +64 pos 1)) i expected
  with_version-Updated s i expected current found version =
      let new = record i { version = expected +64 pos 1 } in
      record {
        stored = λ ds id. incident_at-insert s i.dataset_id i.id new ds id;
        held = (current, found, version);
        rest = (refl, refl, refl);
      }

  -- A successful update found the expected version in the store. Afterwards the new incident is
  -- stored under the next version, and all else is as it was.
  pub update_incident-Updated :
      (s : Store F) (i : Incident F) (expected : ℤ)
      → (update_incident s i expected).1 ≡ ok tt
      → Updated s (update_incident s i expected).0 i expected
  update_incident-Updated s i expected h =
      let (current, found, same, result) = update_incident-Replaces s i expected h in
      let version = version_eq current.version expected same in
      subst (λ t. Updated s t i expected)
        (sym (result ∙ ap (λ v. with_version s i (v +64 pos 1)) version))
        (with_version-Updated s i expected current found version)

  abbrev pub HasVersion : Option (Incident F) → ℤ → Type 0
  HasVersion none v = ⊥
  HasVersion (some current) v = current.version ≡ v

  replaced-HasVersion :
      (s : Store F) (i : Incident F) (expected : ℤ) (r : Result (Unit {0}))
      (o : Option (Incident F))
      → ((after_call s (r >>= λ _. replaced s i expected o)).1 ≡ ok tt)
        ↔ ((r ≡ ok tt) × HasVersion o expected)
  unfolding replaced
  replaced-HasVersion s i expected (err e) o = ((λ h. cc), (λ h. cc))
  replaced-HasVersion s i expected (ok _) none = ((λ h. cc), (λ h. absurd h.1))
  replaced-HasVersion s i expected (ok _) (some current) =
      elim (Bool-cases (eq_ℤ current.version expected)) [
        | inl same ↦
            ((λ h. (refl, version_eq current.version expected same)), (λ h. ground (arith, same)))
        | inr other ↦ ((λ h. ground (arith, other, h)), (λ h. ground (arith, other, h.1)))
      ]

  -- `UpdateIncident` succeeds exactly if the incident is valid and one with its identifiers is stored
  -- under the expected version.
  pub update_incident-HasVersion :
      (s : Store F) (i : Incident F) (expected : ℤ)
      → ((update_incident s i expected).1 ≡ ok tt)
        ↔ ((validate_incident i ≡ ok tt) × HasVersion (incident_at s i.dataset_id i.id) expected)
  unfolding update_incident updated_incident
  update_incident-HasVersion s i expected =
      replaced-HasVersion s i expected (validate_incident i) (incident_at s i.dataset_id i.id)

  -- After a successful update against a version that an int64 holds, a valid update of the
  -- incident with the same identifiers against the same version is a conflict, and leaves the
  -- store as it was: no update is lost.
  pub update_incident_twice :
      (s : Store F) (i j : Incident F) (expected : ℤ)
      → IsInt64 expected
      → (update_incident s i expected).1 ≡ ok tt
      → j.dataset_id ≡ i.dataset_id
      → j.id ≡ i.id
      → validate_incident j ≡ ok tt
      → let t = (update_incident s i expected).0 in update_incident t j expected ≡ (t, err conflict)
  unfolding update_incident updated_incident replaced
  update_incident_twice s i j expected fits h ds id valid =
      second (update_incident s i expected).0 (
        ap (λ d. incident_at (update_incident s i expected).0 d j.id) ds
        ∙ ap (λ k. incident_at (update_incident s i expected).0 i.dataset_id k) id
        ∙ own ((update_incident-Updated s i expected h).stored i.dataset_id i.id))
    where
      own :
          incident_at (update_incident s i expected).0 i.dataset_id i.id ≡ (
            if (i.dataset_id == i.dataset_id) && (i.id == i.id)
            then some (record i { version = expected +64 pos 1 })
            else incident_at s i.dataset_id i.id)
          → incident_at (update_incident s i expected).0 i.dataset_id i.id
            ≡ some (record i { version = expected +64 pos 1 })
      own e = e ∙ ground (arith, eq_iff i.dataset_id i.dataset_id, eq_iff i.id i.id)

      second :
          (t : Store F)
          → incident_at t j.dataset_id j.id ≡ some (record i { version = expected +64 pos 1 })
          → update_incident t j expected ≡ (t, err conflict)
      second t found = ground (arith, increment_ne expected fits)
