-- ===== src/Prelude/Text.antt =====
-- Identifiers are texts. A Go map from identifiers is an association list: its order stands for
-- the order in which `range` visits the map, so a statement for every list covers every order.
use Prim.Native.String.{String, compare, ◌++◌}
use mathlib.Core.Path.{◌≡◌, refl, subst}
use mathlib.Core.Bool.{Bool, true, false, ◌||◌}
use mathlib.Core.List.{List, [], ◌∷◌, map}
use mathlib.Core.Logic.{inl, inr}
use mathlib.Core.Option.{Option, none, some}
use native.Mathlib.Omega.{arith}
use text.Mathlib.Text.{◌==◌ as eqs, is_lt}
use text.Mathlib.TextEquality.{eq_iff}
use route_analysis_service.Prelude.Tests.{if◌then◌else◌, Bool-cases}
use route_analysis_service.Prelude.Lists.{All}

-- `a == b` on strings.
infix 50 ◌==◌
abbrev pub ◌==◌ : String → String → Bool
a == b = eqs a b

-- `a < b` on strings: the bytes of UTF-8 order as the code points do.
abbrev pub str_lt : String → String → Bool
str_lt a b = is_lt (compare a b)

-- `a + b` on strings.
abbrev pub str_append : String → String → String
str_append a b = ◌++◌ a b

pub ≡-of_eq : (s t : String) → (s == t) ≡ true → s ≡ t
≡-of_eq s t = (eq_iff s t).0

abbrev pub Map : Type 0 → Type 0
Map V = List (String × V)

abbrev pub is_some {ℓ} : {A : Type ℓ} → Option A → Bool
is_some none = false
is_some (some a) = true

module _ {V : Type 0} where
  -- `v, ok := m[k]`
  unfoldable pub lookup : String → Map V → Option V
  lookup k [] = none
  lookup k (entry ∷ rest) = if entry.0 == k then some entry.1 else lookup k rest

  -- `_, ok := m[k]`
  abbrev pub contains : String → Map V → Bool
  contains k m = is_some (lookup k m)

  -- `m[k] = v`
  unfoldable pub insert : String → V → Map V → Map V
  insert k v [] = (k, v) ∷ []
  insert k v (entry ∷ rest) = if entry.0 == k then (k, v) ∷ rest else entry ∷ insert k v rest

  -- `delete(m, k)`
  unfoldable pub delete : String → Map V → Map V
  delete k [] = []
  delete k ((j, w) ∷ m) = if j == k then delete k m else (j, w) ∷ delete k m

  pub lookup-insert :
      (written asked : String) (new : V) (old : Map V)
      → lookup asked (insert written new old)
        ≡ (if written == asked then some new else lookup asked old)
  unfolding lookup insert
  lookup-insert written asked new [] = refl
  lookup-insert written asked new (entry ∷ rest) = ground (
    lookup-insert written asked new rest,
    eq_iff entry.0 asked,
    eq_iff entry.0 written,
    eq_iff written asked,
    arith,
  )

  pub lookup-insert_self : (k : String) (v : V) (m : Map V) → lookup k (insert k v m) ≡ some v
  lookup-insert_self k v m = ground (arith, lookup-insert k k v m, eq_iff k k)

  pub lookup-delete :
      (k j : String) (m : Map V) → lookup j (delete k m) ≡ (if k == j then none else lookup j m)
  unfolding lookup delete
  lookup-delete k j [] = ground arith
  lookup-delete k j ((i, w) ∷ m) =
      ground (arith, eq_iff k j, eq_iff i k, eq_iff i j, lookup-delete k j m)

  pub contains-insert :
      (k j : String) (v : V) (m : Map V) → contains j (insert k v m) ≡ ((k == j) || contains j m)
  contains-insert k j v m = ground (arith, lookup-insert k j v m)

  pub contains-some :
      (k : String) (m : Map V) → contains k m ≡ true → (v : V) × (lookup k m ≡ some v)
  contains-some k m h = of_some (lookup k m) refl h
    where
      of_some : (o : Option V) → lookup k m ≡ o → is_some o ≡ true → (v : V) × (lookup k m ≡ some v)
      of_some none e h' = cc
      of_some (some v) e h' = (v, e)

  -- The values of a map, as `range` visits them.
  abbrev pub values : Map V → List V
  values = map (λ e. e.1)

  -- A property of every entry is kept by a write that has it.
  pub All-insert {κ} :
      (P : String × V → Type κ) (k : String) (v : V) (m : Map V)
      → P (k, v)
      → All P m
      → All P (insert k v m)
  unfolding insert
  All-insert P k v [] h a = (h, tt)
  All-insert P k v ((j, w) ∷ m) h a = put (j == k) (All-insert P k v m h a.1)
    where
      put :
          (b : Bool)
          → All P (insert k v m)
          → All P (if b then (k, v) ∷ m else (j, w) ∷ insert k v m)
      put true rest = (h, a.1)
      put false rest = (a.0, rest)

  pub All-delete {κ} :
      (P : String × V → Type κ) (k : String) (m : Map V) → All P m → All P (delete k m)
  unfolding delete
  All-delete P k [] a = tt
  All-delete P k ((j, w) ∷ m) a = keep (j == k) (All-delete P k m a.1)
    where
      keep : (b : Bool) → All P (delete k m) → All P (if b then delete k m else (j, w) ∷ delete k m)
      keep true rest = rest
      keep false rest = (a.0, rest)

  -- What is found in a map is one of its entries.
  pub All-lookup {κ} :
      (P : String × V → Type κ) (k : String) (m : Map V) {v : V}
      → All P m
      → lookup k m ≡ some v
      → P (k, v)
  unfolding lookup
  All-lookup P k [] a h = cc
  All-lookup P k ((j, w) ∷ m) {v} a h = elim (Bool-cases (j == k)) [
    | inl e ↦ subst (λ x. P (k, x)) (ground arith) (subst (λ x. P (x, w)) (≡-of_eq j k e) a.0)
    | inr e ↦ All-lookup P k m a.1 (ground arith)
  ]

-- `m[k]`, which is false for a key that is not there.
abbrev pub flag : String → Map Bool → Bool
flag k m = elim (lookup k m) [ none ↦ false | some b ↦ b ]

pub flag-insert : (k j : String) (m : Map Bool) → flag j (insert k true m) ≡ ((k == j) || flag j m)
flag-insert k j m = ground (arith, lookup-insert k j true m)
