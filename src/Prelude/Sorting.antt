-- ===== src/Prelude/Sorting.antt =====
-- `sort.SliceStable`, `sort.Slice` and `container/heap`.
use mathlib.Core.Path.{◌≡◌, refl, subst}
use mathlib.Core.Bool.{Bool, true, false}
use mathlib.Core.List.{List, [], ◌∷◌, Permᴰ}
use mathlib.Core.List.Permᴰ
use mathlib.Core.Option.{Option, none, some}
use mathlib.Core.Logic.{inl, inr}
use native.Mathlib.Omega.{arith}
use route_analysis_service.Prelude.Tests.{if◌then◌else◌, Bool-cases}
use route_analysis_service.Prelude.Lists.{All, All-perm, All-map}

-- What `less` must be for a sorted order to exist: a strict weak order. `le a b`, that `b` does
-- not come before `a`, is then transitive.
pub record StrictWeak {A : Type 0} (less : A → A → Bool) : Type 0 where
  pub asymm : (a b : A) → less a b ≡ true → less b a ≡ false
  pub le_trans : (a b c : A) → less b a ≡ false → less c b ≡ false → less c a ≡ false

module _ {A : Type 0} (less : A → A → Bool) where
  -- No element comes before one that stands to its left.
  abbrev pub IsSorted : List A → Type 0
  IsSorted [] = Unit
  IsSorted (x ∷ xs) = All (λ y. less y x ≡ false) xs × IsSorted xs

  -- `x`, which stood left of all of the list, goes behind those that come before it.
  unfoldable pub insert_stable : A → List A → List A
  insert_stable x [] = x ∷ []
  insert_stable x (y ∷ ys) = if less y x then y ∷ insert_stable x ys else x ∷ y ∷ ys

  -- `sort.SliceStable`: equal elements keep their order.
  unfoldable pub stable_sort : List A → List A
  stable_sort [] = []
  stable_sort (x ∷ xs) = insert_stable x (stable_sort xs)

  insert_stable-perm : (x : A) (xs : List A) → Permᴰ (x ∷ xs) (insert_stable x xs)
  unfolding insert_stable
  insert_stable-perm x [] = Permᴰ.refl (x ∷ [])
  insert_stable-perm x (y ∷ ys) = place (less y x) (insert_stable-perm x ys)
    where
      place :
          (b : Bool)
          → Permᴰ (x ∷ ys) (insert_stable x ys)
          → Permᴰ (x ∷ y ∷ ys) (if b then y ∷ insert_stable x ys else x ∷ y ∷ ys)
      place true p = Permᴰ.trans (Permᴰ.swap refl refl) (Permᴰ.cons refl p)
      place false p = Permᴰ.refl (x ∷ y ∷ ys)

  pub stable_sort-perm : (xs : List A) → Permᴰ xs (stable_sort xs)
  unfolding stable_sort
  stable_sort-perm [] = Permᴰ.nil
  stable_sort-perm (x ∷ xs) =
      Permᴰ.trans (Permᴰ.cons refl (stable_sort-perm xs)) (insert_stable-perm x (stable_sort xs))

  insert_stable-IsSorted :
      StrictWeak less → (x : A) (xs : List A) → IsSorted xs → IsSorted (insert_stable x xs)
  unfolding insert_stable
  insert_stable-IsSorted w x [] s = (tt, tt)
  insert_stable-IsSorted w x (y ∷ ys) s = elim (Bool-cases (less y x)) [
    | inl before ↦ rw before (
      All-perm (λ z. less z y ≡ false) (insert_stable-perm x ys) (w.asymm y x before, s.0),
      insert_stable-IsSorted w x ys s.1,
    )
    | inr behind ↦
        rw behind
          ((behind, All-map (λ z. less z y ≡ false) (λ z q. w.le_trans x y z behind q) ys s.0), s)
  ]

  pub stable_sort-IsSorted : StrictWeak less → (xs : List A) → IsSorted (stable_sort xs)
  unfolding stable_sort
  stable_sort-IsSorted w [] = tt
  stable_sort-IsSorted w (x ∷ xs) =
      insert_stable-IsSorted w x (stable_sort xs) (stable_sort-IsSorted w xs)

-- `container/heap` over a slice: `pop` takes out an element that no other comes before.
pub record Heap : Type 1 where
  pub push : (A : Type 0) → (A → A → Bool) → A → List A → List A
  pub pop : (A : Type 0) → (A → A → Bool) → List A → Option (A × List A)
  pub push-perm :
      (A : Type 0) (less : A → A → Bool) (x : A) (xs : List A) → Permᴰ (x ∷ xs) (push A less x xs)
  pub pop-none : (A : Type 0) (less : A → A → Bool) (xs : List A) → pop A less xs ≡ none → xs ≡ []
  pub pop-perm :
      (A : Type 0) (less : A → A → Bool) (xs : List A) (x : A) (rest : List A)
      → pop A less xs ≡ some (x, rest)
      → Permᴰ xs (x ∷ rest)
  pub pop-least :
      (A : Type 0) (less : A → A → Bool) (xs : List A) (x : A) (rest : List A)
      → StrictWeak less
      → pop A less xs ≡ some (x, rest)
      → All (λ y. less y x ≡ false) rest

abbrev pub uncons {ℓ} : {A : Type ℓ} → List A → Option (A × List A)
uncons [] = none
uncons (x ∷ xs) = some (x, xs)

pub uncons-none {ℓ} : {A : Type ℓ} (xs : List A) → uncons xs ≡ none → xs ≡ []
uncons-none [] e = refl
uncons-none (x ∷ xs) e = cc

pub uncons-some {ℓ} :
    {A : Type ℓ} (xs : List A) (x : A) (rest : List A) → uncons xs ≡ some (x, rest) → xs ≡ x ∷ rest
uncons-some [] x rest e = cc
uncons-some (y ∷ ys) x rest e = ground arith

pub empty_perm {ℓ} : {A : Type ℓ} {xs ys : List A} → Permᴰ xs ys → ys ≡ [] → xs ≡ []
empty_perm Permᴰ.nil e = refl
empty_perm (Permᴰ.cons _ p) e = cc
empty_perm (Permᴰ.swap _ _) e = cc
empty_perm (Permᴰ.trans p q) e = empty_perm p (empty_perm q e)

-- The promise is met by a queue that sorts before it gives out its first element.
abbrev pub heap_by_sorting : Heap
heap_by_sorting = record {
  push = λ A less x xs. x ∷ xs;
  pop = λ A less xs. uncons (stable_sort less xs);
  push-perm = λ A less x xs. Permᴰ.refl (x ∷ xs);
  pop-none = λ A less xs e. empty_perm (stable_sort-perm less xs) (uncons-none _ e);
  pop-perm = λ A less xs x rest e.
      subst (Permᴰ xs) (uncons-some (stable_sort less xs) x rest e) (stable_sort-perm less xs);
  pop-least = λ A less xs x rest w e.
      (subst (IsSorted less) (uncons-some (stable_sort less xs) x rest e)
        (stable_sort-IsSorted less w xs)).0;
}

-- `sort.Slice` promises a sorted rearrangement, and nothing of the order among equals.
pub record SortSlice : Type 1 where
  pub sort : (A : Type 0) → (A → A → Bool) → List A → List A
  pub sort-perm : (A : Type 0) (less : A → A → Bool) (xs : List A) → Permᴰ xs (sort A less xs)
  pub sort-IsSorted :
      (A : Type 0) (less : A → A → Bool) (xs : List A)
      → StrictWeak less
      → IsSorted less (sort A less xs)

-- The promise is met by the stable sort.
abbrev pub slice_by_stable : SortSlice
slice_by_stable = record {
  sort = λ A less xs. stable_sort less xs;
  sort-perm = λ A less xs. stable_sort-perm less xs;
  sort-IsSorted = λ A less xs w. stable_sort-IsSorted less w xs;
}
