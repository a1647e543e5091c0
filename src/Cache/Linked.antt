-- ===== src/Cache/Linked.antt =====
-- internal/infrastructure/cache/lru.go: the elements of the list against the map that points to them.
use route_analysis_service.Prelude.{
  ℕ, zero, suc, ◌≤◌, ◌<◌, String, List, [], ◌∷◌, length, take, eq_ℕ, Bool, true, false,
  if◌then◌else◌, ◌==◌, Map, lookup, delete, contains, some, All, All-lookup, All-delete, Bool-cases,
  ≡-of_eq, ◌≡◌, refl, ap, subst, arith, inl, inr,
}
use text.Mathlib.TextEquality.{eq_iff}

pub some_inj : {A : Type 0} (a b : A) → some a ≡ some b → a ≡ b
some_inj a b h = cc

pub same_ℕ : (a b : ℕ) → a ≡ b → eq_ℕ a b ≡ true
same_ℕ a b h = ground (arith, h)

pub eq_self : (k : String) → (k == k) ≡ true
eq_self k = ground (arith, eq_iff k k)

-- A map has each key once, and no two keys point to one element.
abbrev pub IsLinked : Map ℕ → Type 0
IsLinked [] = Unit
IsLinked ((k, i) ∷ m) = All (λ q. ((k == q.0) ≡ false) × (eq_ℕ i q.1 ≡ false)) m × IsLinked m

module _ {V : Type 0} where
  pub delete-missing : (k : String) (m : Map V) → contains k m ≡ false → delete k m ≡ m
  unfolding delete lookup
  delete-missing k [] h = refl
  delete-missing k ((j, w) ∷ m) h = elim (Bool-cases (j == k)) [
    | inl same ↦ ground (arith, same, h)
    | inr other ↦ rw (other, delete-missing k m (ground (arith, other, h)))
  ]

  pub take-all : (n : ℕ) (xs : List V) → length xs ≤ n → take n xs ≡ xs
  unfolding take
  take-all zero [] h = refl
  take-all zero (x ∷ xs) h = absurd (omega (arith, h))
  take-all (suc n) [] h = refl
  take-all (suc n) (x ∷ xs) h = ap (λ t. x ∷ t) (take-all n xs (omega (arith, h)))

pub missing_key :
    (k : String) (i : ℕ) (m : Map ℕ)
    → All (λ q. ((k == q.0) ≡ false) × (eq_ℕ i q.1 ≡ false)) m
    → contains k m ≡ false
unfolding lookup
missing_key k i [] a = refl
missing_key k i ((j, w) ∷ m) a =
    ground (arith, a.0.0, eq_iff j k, eq_iff k j, missing_key k i m a.1)

missing_apart :
    (k : String) (i : ℕ) (m : Map ℕ)
    → contains k m ≡ false
    → All (λ q. q.1 < i) m
    → All (λ q. ((k == q.0) ≡ false) × (eq_ℕ i q.1 ≡ false)) m
unfolding lookup
missing_apart k i [] h a = tt
missing_apart k i ((j, w) ∷ m) h a = (
  (ground (arith, h, eq_iff j k, eq_iff k j), ground (arith, a.0)),
  missing_apart k i m (ground (arith, h)) a.1,
)

-- A new element, for a key that has none.
pub new-IsLinked :
    (k : String) (i : ℕ) (m : Map ℕ)
    → contains k m ≡ false
    → All (λ q. q.1 < i) m
    → IsLinked m
    → IsLinked ((k, i) ∷ m)
new-IsLinked k i m h a l = (missing_apart k i m h a, l)

pub delete-IsLinked : (k : String) (m : Map ℕ) → IsLinked m → IsLinked (delete k m)
unfolding delete
delete-IsLinked k [] l = tt
delete-IsLinked k ((j, w) ∷ m) l = keep (j == k) (delete-IsLinked k m l.1)
  where
    keep :
        (b : Bool)
        → IsLinked (delete k m)
        → IsLinked (if b then delete k m else (j, w) ∷ delete k m)
    keep true rest = rest
    keep false rest = (All-delete (λ q. ((j == q.0) ≡ false) × (eq_ℕ w q.1 ≡ false)) k m l.0, rest)

-- The element of a key, moved to the front.
pub front-Apart :
    (k : String) (i : ℕ) (m : Map ℕ)
    → IsLinked m
    → lookup k m ≡ some i
    → All (λ q. ((k == q.0) ≡ false) × (eq_ℕ i q.1 ≡ false)) (delete k m)
unfolding delete lookup
front-Apart k i [] l h = tt
front-Apart k i ((j, w) ∷ m) l h = elim (Bool-cases (j == k)) [
  | inl same ↦ rw same (
      All-delete (λ q. ((k == q.0) ≡ false) × (eq_ℕ i q.1 ≡ false)) k m
        (subst (λ x. All (λ q. ((x == q.0) ≡ false) × (eq_ℕ i q.1 ≡ false)) m) (≡-of_eq j k same)
          (subst (λ x. All (λ q. ((j == q.0) ≡ false) × (eq_ℕ x q.1 ≡ false)) m)
            (some_inj w i (ground (arith, h, same))) l.0)))
  | inr other ↦
      let apart =
        All-lookup (λ q. ((j == q.0) ≡ false) × (eq_ℕ w q.1 ≡ false)) k m {v = i} l.0
          (ground (arith, other, h)) in
      rw other (
        (ground (arith, other, eq_iff j k, eq_iff k j), ground (arith, apart.1)),
        front-Apart k i m l.1 (ground (arith, other, h)),
      )
]

pub length-delete :
    (k : String) (i : ℕ) (m : Map ℕ)
    → IsLinked m
    → lookup k m ≡ some i
    → suc (length (delete k m)) ≡ length m
unfolding delete lookup
length-delete k i [] l h = cc
length-delete k i ((j, w) ∷ m) l h = elim (Bool-cases (j == k)) [
  | inl same ↦
      rw
        (
          same,
          delete-missing k m
              (subst (λ x. contains x m ≡ false) (≡-of_eq j k same) (missing_key j w m l.0)),
        )
        refl
  | inr other ↦ rw other (ap suc (length-delete k i m l.1 (ground (arith, other, h))))
]
