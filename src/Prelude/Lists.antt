-- ===== src/Prelude/Lists.antt =====
-- Lists measured by native numbers, filtered by Boolean tests, and predicates on their elements.
use Prim.Native.Nat.{ℕ, zero, suc, ◌+◌, ◌≤◌}
use mathlib.Core.Path.{◌≡◌, refl, sym, ap, subst, ◌∙◌}
use mathlib.Core.Bool.{Bool, true, false, ◌&&◌, ◌||◌}
use mathlib.Core.List.{List, [], ◌∷◌, ◌++◌, Permᴰ}
use mathlib.Core.Logic.{◌⊎◌, inl, inr}
use native.Mathlib.Omega.{arith}
use route_analysis_service.Prelude.Tests.{if◌then◌else◌}

module _ {ℓ} {A : Type ℓ} where
  abbrev pub length : List A → ℕ
  length [] = 0
  length (x ∷ xs) = suc (length xs)

  unfoldable pub take : ℕ → List A → List A
  take zero xs = []
  take (suc n) [] = []
  take (suc n) (x ∷ xs) = x ∷ take n xs

  unfoldable pub filter : (A → Bool) → List A → List A
  filter p [] = []
  filter p (x ∷ xs) = if p x then x ∷ filter p xs else filter p xs

  unfoldable pub any : (A → Bool) → List A → Bool
  any p [] = false
  any p (x ∷ xs) = p x || any p xs

  unfoldable pub all : (A → Bool) → List A → Bool
  all p [] = true
  all p (x ∷ xs) = p x && all p xs

  pub length-take : (n : ℕ) (xs : List A) → n ≤ length xs → length (take n xs) ≡ n
  unfolding take
  length-take zero xs h = refl
  length-take (suc n) [] h = omega (arith, h)
  length-take (suc n) (x ∷ xs) h = ap suc (length-take n xs (omega (arith, h)))

  -- What `take` leaves behind.
  pub take-rest : (n : ℕ) (xs : List A) → (rest : List A) × (xs ≡ take n xs ++ rest)
  unfolding take
  take-rest zero xs = (xs, refl)
  take-rest (suc n) [] = ([], refl)
  take-rest (suc n) (x ∷ xs) = let (rest, e) = take-rest n xs in (rest, ap (λ t. x ∷ t) e)

  pub length-append : (xs ys : List A) → length (xs ++ ys) ≡ length xs + length ys
  length-append [] ys = omega arith
  length-append (x ∷ xs) ys = omega (arith, length-append xs ys)

  pub length-filter-le : (p : A → Bool) (xs : List A) → length (filter p xs) ≤ length xs
  unfolding filter
  length-filter-le p [] = omega arith
  length-filter-le p (x ∷ xs) = ground (arith, length-filter-le p xs)

-- A predicate by recursion computes to tuples, which the tactics read and build.
abbrev pub All {ℓ κ} : {Item : Type ℓ} → (Item → Type κ) → List Item → Type κ
All Holds [] = Unit
All Holds (first ∷ rest) = Holds first × All Holds rest

module _ {ℓ κ} {A : Type ℓ} (P : A → Type κ) where
  pub All-append : (xs ys : List A) → All P xs → All P ys → All P (xs ++ ys)
  All-append [] ys hx hy = hy
  All-append (x ∷ xs) ys hx hy = (hx.0, All-append xs ys hx.1 hy)

  pub All-prefix : (xs ys : List A) → All P (xs ++ ys) → All P xs
  All-prefix [] ys h = tt
  All-prefix (x ∷ xs) ys h = (h.0, All-prefix xs ys h.1)

  pub All-filter : (p : A → Bool) (xs : List A) → All P xs → All P (filter p xs)
  unfolding filter
  All-filter p [] h = h
  All-filter p (x ∷ xs) h = keep (p x) (All-filter p xs h.1)
    where
      keep : (b : Bool) → All P (filter p xs) → All P (if b then x ∷ filter p xs else filter p xs)
      keep true rest = (h.0, rest)
      keep false rest = rest

  -- What holds of all elements holds after any rearrangement.
  pub All-perm : {xs ys : List A} → Permᴰ xs ys → All P xs → All P ys
  All-perm Permᴰ.nil h = h
  All-perm (Permᴰ.cons e p) h = (subst P e h.0, All-perm p h.1)
  All-perm (Permᴰ.swap e f) h = (subst P f h.1.0, (subst P e h.0, h.1.1))
  All-perm (Permᴰ.trans p q) h = All-perm q (All-perm p h)

  pub All-map {μ} : {Q : A → Type μ} (f : (x : A) → P x → Q x) (xs : List A) → All P xs → All Q xs
  All-map f [] h = tt
  All-map f (x ∷ xs) h = (f x h.0, All-map f xs h.1)

module _ {ℓ} {A : Type ℓ} where
  pub length-perm : {xs ys : List A} → Permᴰ xs ys → length xs ≡ length ys
  length-perm Permᴰ.nil = refl
  length-perm (Permᴰ.cons e p) = omega (arith, length-perm p)
  length-perm (Permᴰ.swap e f) = omega arith
  length-perm (Permᴰ.trans p q) = omega (arith, length-perm p, length-perm q)

-- The elements that pass the test all pass it.
pub All-filter_self {ℓ} :
    {A : Type ℓ} (p : A → Bool) (xs : List A) → All (λ x. p x ≡ true) (filter p xs)
unfolding filter
All-filter_self p [] = tt
All-filter_self {A = A} p (x ∷ xs) = keep (p x) refl (All-filter_self p xs)
  where
    keep :
        (b : Bool)
        → p x ≡ b
        → All (λ y. p y ≡ true) (filter p xs)
        → All (λ y. p y ≡ true) (if b then x ∷ filter p xs else filter p xs)
    keep true e rest = (e, rest)
    keep false e rest = rest

module _ {ℓ} {A : Type ℓ} (p : A → Bool) where
  -- Whether some element passes a test does not depend on the order.
  pub any-perm : {xs ys : List A} → Permᴰ xs ys → any p xs ≡ any p ys
  unfolding any
  any-perm Permᴰ.nil = refl
  any-perm (Permᴰ.cons e q) = rw (e, any-perm q)
  any-perm (Permᴰ.swap e f) = ground (arith, ap p e, ap p f)
  any-perm (Permᴰ.trans q r) = any-perm q ∙ any-perm r

  pub any-filter : (q : A → Bool) (xs : List A) → any p (filter q xs) ≡ any (λ x. q x && p x) xs
  unfolding any filter
  any-filter q [] = refl
  any-filter q (x ∷ xs) = ground (arith, any-filter q xs)

  pub any_none : (xs : List A) → any p xs ≡ false → All (λ x. p x ≡ false) xs
  unfolding any
  any_none [] e = tt
  any_none (x ∷ xs) e = (ground arith, any_none xs (ground arith))

pub perm_sym {ℓ} : {A : Type ℓ} {xs ys : List A} → Permᴰ xs ys → Permᴰ ys xs
perm_sym Permᴰ.nil = Permᴰ.nil
perm_sym (Permᴰ.cons e p) = Permᴰ.cons (sym e) (perm_sym p)
perm_sym (Permᴰ.swap e f) = Permᴰ.swap (sym f) (sym e)
perm_sym (Permᴰ.trans p q) = Permᴰ.trans (perm_sym q) (perm_sym p)

-- `x` is an element of the list.
abbrev pub Elem : {A : Type 0} → A → List A → Type 0
Elem x [] = ⊥
Elem x (y ∷ ys) = (x ≡ y) ⊎ Elem x ys

module _ {A : Type 0} where
  pub All-Elem : (xs : List A) → All (λ x. Elem x xs) xs
  All-Elem [] = tt
  All-Elem (x ∷ xs) = (inl refl, All-map (λ y. Elem y xs) (λ y m. inr m) xs (All-Elem xs))

  pub Elem-append_left : (x : A) (xs ys : List A) → Elem x xs → Elem x (xs ++ ys)
  Elem-append_left x [] ys m = absurd m
  Elem-append_left x (z ∷ xs) ys (inl e) = inl e
  Elem-append_left x (z ∷ xs) ys (inr m) = inr (Elem-append_left x xs ys m)

  pub Elem-append_right : (x : A) (xs ys : List A) → Elem x ys → Elem x (xs ++ ys)
  Elem-append_right x [] ys m = m
  Elem-append_right x (z ∷ xs) ys m = inr (Elem-append_right x xs ys m)

  pub Elem-split : (x : A) (xs ys : List A) → Elem x (xs ++ ys) → Elem x xs ⊎ Elem x ys
  Elem-split x [] ys m = inr m
  Elem-split x (z ∷ xs) ys (inl e) = inl (inl e)
  Elem-split x (z ∷ xs) ys (inr m) = elim (Elem-split x xs ys m) [
    | inl i ↦ inl (inr i)
    | inr i ↦ inr i
  ]

  pub All-of_Elem {κ} : (P : A → Type κ) (xs : List A) → ((x : A) → Elem x xs → P x) → All P xs
  All-of_Elem P [] h = tt
  All-of_Elem P (x ∷ xs) h = (h x (inl refl), All-of_Elem P xs (λ y m. h y (inr m)))

  pub Elem-All {κ} : (P : A → Type κ) (x : A) (xs : List A) → All P xs → Elem x xs → P x
  Elem-All P x (y ∷ ys) a (inl e) = subst P (sym e) a.0
  Elem-All P x (y ∷ ys) a (inr m) = Elem-All P x ys a.1 m
  Elem-All P x [] a m = absurd m

  pub Elem-filter :
      (p : A → Bool) (x : A) (xs : List A) → Elem x xs → p x ≡ true → Elem x (filter p xs)
  unfolding filter
  Elem-filter p x [] m h = m
  Elem-filter p x (y ∷ ys) (inl e) h =
      let passed : p y ≡ true = ap p (sym e) ∙ h in rw passed (inl e)
  Elem-filter p x (y ∷ ys) (inr m) h = keep (p y) (Elem-filter p x ys m h)
    where
      keep : (b : Bool) → Elem x (filter p ys) → Elem x (if b then y ∷ filter p ys else filter p ys)
      keep true rest = inr rest
      keep false rest = rest

  pub Elem-perm : {xs ys : List A} (x : A) → Permᴰ xs ys → Elem x xs → Elem x ys
  Elem-perm {xs} {ys} x p m =
      Elem-All (λ y. Elem y ys) x xs (All-perm (λ y. Elem y ys) (perm_sym p) (All-Elem ys)) m

  pub perm_refl : (xs : List A) → Permᴰ xs xs
  perm_refl [] = Permᴰ.nil
  perm_refl (x ∷ xs) = Permᴰ.cons refl (perm_refl xs)

  pub perm-append_left : (xs : List A) {ys zs : List A} → Permᴰ ys zs → Permᴰ (xs ++ ys) (xs ++ zs)
  perm-append_left [] p = p
  perm-append_left (x ∷ xs) p = Permᴰ.cons refl (perm-append_left xs p)

module _ {ℓ} {A : Type ℓ} where
  unfoldable pub drop : ℕ → List A → List A
  drop zero xs = xs
  drop (suc n) [] = []
  drop (suc n) (x ∷ xs) = drop n xs

  pub drop-append : (n : ℕ) (xs ys : List A) → n ≤ length xs → drop n xs ++ ys ≡ drop n (xs ++ ys)
  unfolding drop
  drop-append zero xs ys h = refl
  drop-append (suc n) [] ys h = absurd (omega (arith, h))
  drop-append (suc n) (x ∷ xs) ys h = drop-append n xs ys (omega (arith, h))

  pub drop-suc : (n : ℕ) (xs : List A) → drop 1 (drop n xs) ≡ drop (suc n) xs
  unfolding drop
  drop-suc zero xs = refl
  drop-suc (suc n) [] = refl
  drop-suc (suc n) (x ∷ xs) = drop-suc n xs

  pub length-drop : (n : ℕ) (xs : List A) → n ≤ length xs → length (drop n xs) + n ≡ length xs
  unfolding drop
  length-drop zero xs h = omega arith
  length-drop (suc n) [] h = absurd (omega (arith, h))
  length-drop (suc n) (x ∷ xs) h = omega (arith, length-drop n xs (omega (arith, h)))

  pub filter-append :
      (p : A → Bool) (xs ys : List A) → filter p (xs ++ ys) ≡ filter p xs ++ filter p ys
  unfolding filter
  filter-append p [] ys = refl
  filter-append p (x ∷ xs) ys = keep (p x) (filter-append p xs ys)
    where
      keep :
          (b : Bool)
          → filter p (xs ++ ys) ≡ filter p xs ++ filter p ys
          → (if b then x ∷ filter p (xs ++ ys) else filter p (xs ++ ys))
            ≡ (if b then x ∷ filter p xs else filter p xs) ++ filter p ys
      keep true e = ap (λ t. x ∷ t) e
      keep false e = e
