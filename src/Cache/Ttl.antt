-- ===== src/Cache/Ttl.antt =====
-- internal/infrastructure/cache/ttl.go: a cache whose entries expire. The reads of the clock are
-- arguments: `Prune` reads it again for each key.
use route_analysis_service.Prelude.{
  ℕ, suc, String, [], ◌∷◌, length, true, false, ◌==◌, if◌then◌else◌, ◌≤ℤ◌, Map, lookup, insert,
  delete, contains, lookup-insert, lookup-delete, Option, none, some, Bool-cases, ≡-of_eq, ◌&&◌,
  ◌∙◌, Option-cases, inl, inr, ◌≡◌, refl, arith, subst,
}
use text.Mathlib.TextEquality.{eq_iff}
use route_analysis_service.Model.Time.{Time, after}

pub record TtlEntry (V : Type 0) : Type 0 where
  pub value : V
  pub expires_at : Time

pub record Ttl (V : Type 0) : Type 0 where
  pub entries : Map (TtlEntry V)

-- A map has a key once.
abbrev pub HasUniqueKeys : {A : Type 0} → Map A → Type 0
HasUniqueKeys [] = Unit
HasUniqueKeys ((k, v) ∷ m) = (contains k m ≡ false) × HasUniqueKeys m

insert-HasUniqueKeys :
    {A : Type 0} (k : String) (v : A) (m : Map A) → HasUniqueKeys m → HasUniqueKeys (insert k v m)
unfolding insert lookup
insert-HasUniqueKeys k v [] u = (refl, tt)
insert-HasUniqueKeys k v ((j, w) ∷ m) u = elim (Bool-cases (j == k)) [
  | inl same ↦ rw same (subst (λ x. contains x m ≡ false) (≡-of_eq j k same) u.0, u.1)
  | inr other ↦ rw other (
    ground (arith, other, u.0, lookup-insert k j v m, eq_iff k j, eq_iff j k),
    insert-HasUniqueKeys k v m u.1,
  )
]

module _ {V : Type 0} where
  unfoldable pub new_ttl : Ttl V
  new_ttl = record { entries = [] }

  unfoldable pub get : Ttl V → String → Time → Option V
  get c key now = elim (lookup key c.entries) [
    | none ↦ none
    | some e ↦ if after now e.expires_at then none else some e.value
  ]

  unfoldable pub put : Ttl V → String → V → Time → Ttl V
  put c key value expires_at = record {
    entries = insert key (record { value = value; expires_at = expires_at }) c.entries;
  }

  -- One entry: it is deleted from the map if it has expired, and counted.
  unfoldable pub prune_entry :
      Time → String → TtlEntry V → Map (TtlEntry V) × ℕ → Map (TtlEntry V) × ℕ
  prune_entry at key e (m, removed) =
      if after at e.expires_at then (delete key m, suc removed) else (m, removed)

  -- The loop over the entries; it deletes from the map that it ranges over.
  unfoldable pub prune_loop :
      (String → Time) → Map (TtlEntry V) → Map (TtlEntry V) × ℕ → Map (TtlEntry V) × ℕ
  unfolding prune_entry
  prune_loop now [] acc = acc
  prune_loop now ((key, e) ∷ rest) acc = prune_loop now rest (prune_entry (now key) key e acc)

  unfoldable pub prune : Ttl V → (String → Time) → Ttl V × ℕ
  unfolding prune_loop
  prune c now =
      let (m, removed) = prune_loop now c.entries (c.entries, 0) in
      (record { entries = m }, removed)

  unfoldable pub entry_count : Ttl V → ℕ
  entry_count c = length c.entries

  prune_entry-lookup :
      (at : Time) (key : String) (e : TtlEntry V) (acc : Map (TtlEntry V) × ℕ) (k : String)
      → lookup k (prune_entry at key e acc).0
        ≡ (if (key == k) && after at e.expires_at then none else lookup k acc.0)
  unfolding prune_entry
  prune_entry-lookup at key e (m, n) k = elim (Bool-cases (after at e.expires_at)) [
    | inl old ↦ ground (arith, old, lookup-delete key k m)
    | inr fresh ↦ ground (arith, fresh)
  ]

  -- What the loop does not visit, it keeps.
  prune_loop-unvisited :
      (now : String → Time) (es : Map (TtlEntry V)) (acc : Map (TtlEntry V) × ℕ) (k : String)
      → contains k es ≡ false
      → lookup k (prune_loop now es acc).0 ≡ lookup k acc.0
  unfolding prune_loop lookup
  prune_loop-unvisited now [] acc k h = refl
  prune_loop-unvisited now ((key, e) ∷ rest) acc k h = elim (Bool-cases (key == k)) [
    | inl same ↦ ground (arith, same, h)
    | inr other ↦
        prune_loop-unvisited now rest (prune_entry (now key) key e acc) k (ground (arith, other, h))
        ∙ ground (arith, prune_entry-lookup (now key) key e acc k, other)
  ]

  some_inj : {e x : TtlEntry V} → some e ≡ some x → e ≡ x
  some_inj q = cc

  expired_entry :
      (now : String → Time) (key k : String) (e x : TtlEntry V) (o : Option (TtlEntry V))
      → (key == k) ≡ true
      → e ≡ x
      → (if (key == k) && after (now key) e.expires_at then none else o)
        ≡ (if after (now k) x.expires_at then none else o)
  expired_entry now key k e x o same q =
      subst
        (λ j.
          (if (key == k) && after (now key) e.expires_at then none else o)
          ≡ (if after (now j) x.expires_at then none else o))
        (≡-of_eq key k same)
        (subst
          (λ y.
            (if (key == k) && after (now key) e.expires_at then none else o)
            ≡ (if after (now key) y.expires_at then none else o))
          q (rw same refl))

  -- What it visits, it deletes if it has expired.
  prune_loop-visited :
      (now : String → Time) (es : Map (TtlEntry V)) (acc : Map (TtlEntry V) × ℕ) (k : String)
      (x : TtlEntry V)
      → HasUniqueKeys es
      → lookup k es ≡ some x
      → lookup k (prune_loop now es acc).0
        ≡ (if after (now k) x.expires_at then none else lookup k acc.0)
  unfolding prune_loop lookup
  prune_loop-visited now [] acc k x u h = cc
  prune_loop-visited now ((key, e) ∷ rest) acc k x u h = elim (Bool-cases (key == k)) [
    | inl same ↦
        prune_loop-unvisited now rest (prune_entry (now key) key e acc) k
          (subst (λ j. contains j rest ≡ false) (≡-of_eq key k same) u.0)
        ∙ prune_entry-lookup (now key) key e acc k
        ∙ expired_entry now key k e x (lookup k acc.0) same (some_inj (ground (arith, h, same)))
    | inr other ↦
        prune_loop-visited now rest (prune_entry (now key) key e acc) k x u.1
          (ground (arith, other, h))
        ∙ ground (arith, prune_entry-lookup (now key) key e acc k, other)
  ]

  -- An entry that has not expired at a time.
  abbrev pub unexpired : Time → Option (TtlEntry V) → Option (TtlEntry V)
  unexpired at none = none
  unexpired at (some e) = if after at e.expires_at then none else some e

  -- In a cache that has a key once, `Prune` deletes exactly the entries that have expired when
  -- it visits them. So it changes no later `Get`: a key reads as before at any time that is not
  -- before the visit.
  pub get-prune :
      (c : Ttl V) (now : String → Time) (key : String) (at : Time)
      → HasUniqueKeys c.entries
      → now key ≤ℤ at
      → (lookup key (prune c now).0.entries ≡ unexpired (now key) (lookup key c.entries))
        × (get (prune c now).0 key at ≡ get c key at)
  unfolding prune get
  get-prune c now key at u later = elim (Option-cases (lookup key c.entries)) [
    | inl missing ↦
        let same =
          prune_loop-unvisited now c.entries (c.entries, 0) key (ground (arith, missing)) in
        (ground (arith, same, missing), ground (arith, same, missing))
    | inr (e, found) ↦
        let visited = prune_loop-visited now c.entries (c.entries, 0) key e u found in
        elim (Bool-cases (after (now key) e.expires_at)) [
          | inl old ↦
              (ground (arith, visited, found, old), ground (arith, visited, found, old, later))
          | inr fresh ↦
              (ground (arith, visited, found, fresh), ground (arith, visited, found, fresh))
        ]
  ]

  pub put-HasUniqueKeys :
      (c : Ttl V) (key : String) (value : V) (expires_at : Time)
      → HasUniqueKeys c.entries
      → HasUniqueKeys (put c key value expires_at).entries
  unfolding put
  put-HasUniqueKeys c key value expires_at u = insert-HasUniqueKeys key _ c.entries u
