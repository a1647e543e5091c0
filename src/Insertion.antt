-- ===== src/Insertion.antt =====
-- The insertion loop that internal/domain/incident/eligibility.go (ActiveFor) and
-- internal/domain/network/cost.go (SortedActive) write out in place of a library sort.
use route_analysis_service.Prelude.{
  List, [], ◌∷◌, ◌++◌, reverse, foldl, Bool, true, false, if◌then◌else◌, Bool-cases, inl, inr, All,
  ◌≡◌, refl, sym, ap, ◌∙◌, arith, StrictWeak, IsSorted, insert_stable, stable_sort, All-map,
}
use mathlib.Core.List.{reverse_aux, reverse-cons, reverse-reverse}

All-reverse_aux {ℓ κ} :
    {A : Type ℓ} (P : A → Type κ) (xs acc : List A)
    → All P xs
    → All P acc
    → All P (reverse_aux xs acc)
All-reverse_aux P [] acc a b = b
All-reverse_aux P (x ∷ xs) acc a b = All-reverse_aux P xs (x ∷ acc) a.1 (a.0, b)

module _ {A : Type 0} (less : A → A → Bool) where
  -- The inner loop: `done` is the part left of `j`, last element first, and the new element
  -- swaps past each one that it comes before.
  unfoldable pub sift : A → List A → List A
  sift x [] = x ∷ []
  sift x (p ∷ done) = if less x p then p ∷ sift x done else x ∷ p ∷ done

  -- The outer loop over the elements that are left.
  unfoldable pub insert_all : List A → List A → List A
  insert_all done [] = done
  insert_all done (x ∷ xs) = insert_all (sift x done) xs

  unfoldable pub insertion_sort : List A → List A
  unfolding sift insert_all
  insertion_sort xs = reverse (insert_all [] xs)

  -- The same step seen from the left: behind all that `x` does not come before.
  insert_last : A → List A → List A
  insert_last x [] = x ∷ []
  insert_last x (y ∷ ys) = if less x y then x ∷ y ∷ ys else y ∷ insert_last x ys

  sift_past : (x : A) (q : List A) → All (λ z. less x z ≡ true) q → sift x q ≡ q ++ x ∷ []
  unfolding sift
  sift_past x [] a = refl
  sift_past x (p ∷ q) a = rw (a.0, sift) (ap (◌∷◌ p) (sift_past x q a.1))

  sift_stop : (x y : A) (q : List A) → less x y ≡ false → sift x (q ++ y ∷ []) ≡ sift x q ++ y ∷ []
  unfolding sift
  sift_stop x y [] h = rw h
  sift_stop x y (p ∷ q) h = elim (Bool-cases (less x p)) [
    | inl t ↦ rw t (ap (◌∷◌ p) (sift_stop x y q h))
    | inr f ↦ rw f
  ]

  All-insert_last {κ} :
      (P : A → Type κ) (x : A) (l : List A) → P x → All P l → All P (insert_last x l)
  unfolding insert_last
  All-insert_last P x [] h a = (h, tt)
  All-insert_last P x (y ∷ ys) h a = elim (Bool-cases (less x y)) [
    | inl t ↦ rw t (h, a)
    | inr f ↦ rw f (a.0, All-insert_last P x ys h a.1)
  ]

  module _ (w : StrictWeak less) where
    less_trans : (a b c : A) → less a b ≡ true → less b c ≡ true → less a c ≡ true
    less_trans a b c h k = ground (arith, w.asymm b c k, w.le_trans b c a)

    less_of_less_le : (a b c : A) → less a b ≡ true → less c b ≡ false → less a c ≡ true
    less_of_less_le a b c h k = ground (arith, w.le_trans b c a)

    sift-reverse :
        (x : A) (l : List A) → IsSorted less l → sift x (reverse l) ≡ reverse (insert_last x l)
    unfolding insert_last sift
    sift-reverse x [] s = refl
    sift-reverse x (y ∷ ys) s = elim (Bool-cases (less x y)) [
      | inl before ↦ rw before (
          sift_past x (reverse (y ∷ ys)) (
            All-reverse_aux _ (y ∷ ys) []
              (before, All-map _ (λ z k. less_of_less_le x y z before k) ys s.0) tt)
          ∙ sym (reverse-cons x (y ∷ ys)))
      | inr behind ↦
          rw (behind, reverse-cons)
            (rw (reverse-cons)
              (sift_stop x y (reverse ys) behind ∙ ap (λ q. q ++ y ∷ []) (sift-reverse x ys s.1)))
    ]

    insert_last-insert_stable :
        (x y : A) (l : List A)
        → insert_last x (insert_stable less y l) ≡ insert_stable less y (insert_last x l)
    unfolding insert_last insert_stable
    insert_last-insert_stable x y [] = ground arith
    insert_last-insert_stable x y (z ∷ zs) =
        ground (arith, less_trans x z y, w.le_trans y z x, insert_last-insert_stable x y zs)

    insert_last-IsSorted : (x : A) (l : List A) → IsSorted less l → IsSorted less (insert_last x l)
    unfolding insert_last
    insert_last-IsSorted x [] s = (tt, tt)
    insert_last-IsSorted x (y ∷ ys) s = elim (Bool-cases (less x y)) [
      | inl before ↦ rw before (
        (
          w.asymm x y before,
          All-map _ (λ z k. w.asymm x z (less_of_less_le x y z before k)) ys s.0,
        ),
        s,
      )
      | inr behind ↦
          rw behind
            (All-insert_last (λ z. less z y ≡ false) x ys behind s.0, insert_last-IsSorted x ys s.1)
    ]

    insert_all_lem :
        (l xs : List A)
        → IsSorted less l
        → insert_all (reverse l) xs ≡ reverse (foldl (λ acc x. insert_last x acc) l xs)
    unfolding insert_all
    insert_all_lem l [] s = refl
    insert_all_lem l (x ∷ xs) s =
        rw (sift-reverse x l s) (insert_all_lem (insert_last x l) xs (insert_last-IsSorted x l s))

    foldl-insert_last :
        (y : A) (l xs : List A)
        → foldl (λ acc x. insert_last x acc) (insert_stable less y l) xs
          ≡ insert_stable less y (foldl (λ acc x. insert_last x acc) l xs)
    foldl-insert_last y l [] = refl
    foldl-insert_last y l (x ∷ xs) =
        rw (insert_last-insert_stable x y l) (foldl-insert_last y (insert_last x l) xs)

    foldl-stable_sort :
        (xs : List A) → foldl (λ acc x. insert_last x acc) [] xs ≡ stable_sort less xs
    unfolding stable_sort insert_stable insert_last
    foldl-stable_sort [] = refl
    foldl-stable_sort (x ∷ xs) =
        foldl-insert_last x [] xs ∙ ap (insert_stable less x) (foldl-stable_sort xs)

    -- For a strict weak order the loop gives what the library's stable sort gives.
    pub insertion_sort-eq-stable_sort : (xs : List A) → insertion_sort xs ≡ stable_sort less xs
    unfolding insertion_sort
    insertion_sort-eq-stable_sort xs =
        ap reverse (insert_all_lem [] xs tt) ∙ reverse-reverse _ ∙ foldl-stable_sort xs
