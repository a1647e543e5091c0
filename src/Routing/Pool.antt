-- ===== src/Routing/Pool.antt =====
-- The pool of results and candidates of `KRoutes` in internal/domain/routing/engine.go.
use route_analysis_service.Prelude.{
  List, [], ◌∷◌, ◌++◌, Bool, true, false, ◌==◌, Map, insert, flag, flag-insert, All, All-append,
  All-prefix, All-map, All-perm, inl, inr, ◌≡◌, refl, sym, subst, ap, arith, Bool-cases, ≡-of_eq,
  ◌∙◌,
}
use mathlib.Core.List.{Permᴰ, append_assoc}
use text.Mathlib.TextEquality.{eq_iff}
use route_analysis_service.Model.Types.{RouteResult}
use route_analysis_service.Model.Error.{Result, ok, err}
use route_analysis_service.Routing.Alternatives.{path_key, admit}

clash : false ≡ true → ⊥
clash h = cc

module _ {F : Type 0} where
  abbrev Differs : RouteResult F → RouteResult F → Type 0
  Differs x y = (path_key x == path_key y) ≡ false

  Differs-sym : (x y : RouteResult F) → Differs x y → Differs y x
  Differs-sym x y h =
      ground (arith, h, eq_iff (path_key x) (path_key y), eq_iff (path_key y) (path_key x))

  -- No two of the routes have one key.
  abbrev pub HasUniquePaths : List (RouteResult F) → Type 0
  HasUniquePaths [] = Unit
  HasUniquePaths (x ∷ xs) = All (Differs x) xs × HasUniquePaths xs

  HasUniquePaths-snoc :
      (x : RouteResult F) (xs : List (RouteResult F))
      → HasUniquePaths xs
      → All (Differs x) xs
      → HasUniquePaths (xs ++ x ∷ [])
  HasUniquePaths-snoc x [] u a = (tt, tt)
  HasUniquePaths-snoc x (y ∷ xs) u a = (
    All-append (Differs y) xs (x ∷ []) u.0 (Differs-sym x y a.0, tt),
    HasUniquePaths-snoc x xs u.1 a.1,
  )

  pub HasUniquePaths-prefix :
      (xs ys : List (RouteResult F)) → HasUniquePaths (xs ++ ys) → HasUniquePaths xs
  HasUniquePaths-prefix [] ys u = tt
  HasUniquePaths-prefix (x ∷ xs) ys u =
      (All-prefix (Differs x) xs ys u.0, HasUniquePaths-prefix xs ys u.1)

  HasUniquePaths-perm :
      {xs ys : List (RouteResult F)} → Permᴰ xs ys → HasUniquePaths xs → HasUniquePaths ys
  HasUniquePaths-perm Permᴰ.nil u = u
  HasUniquePaths-perm (Permᴰ.cons {a} {l₂} e p) u =
      (subst (λ z. All (Differs z) l₂) e (All-perm (Differs a) p u.0), HasUniquePaths-perm p u.1)
  HasUniquePaths-perm (Permᴰ.swap {a} {b} {b'} {l} e f) u = (
    (
      subst (λ z. Differs z b') f (subst (Differs b) e (Differs-sym a b u.0.0)),
      subst (λ z. All (Differs z) l) f u.1.0,
    ),
    (subst (λ z. All (Differs z) l) e u.0.1, u.1.1),
  )
  HasUniquePaths-perm (Permᴰ.trans p q) u = HasUniquePaths-perm q (HasUniquePaths-perm p u)

  -- The routes found so far are good, differ in their keys, and have been seen.
  pub record Pooled (Good : RouteResult F → Type 0) (seen : Map Bool) (found : List (RouteResult F))
      : Type 0 where
    pub good : All Good found
    pub unique : HasUniquePaths found
    pub known : All (λ x. flag (path_key x) seen ≡ true) found

  pub perm-Pooled :
      {Good : RouteResult F → Type 0} {seen : Map Bool} {xs ys : List (RouteResult F)}
      → Permᴰ xs ys
      → Pooled Good seen xs
      → Pooled Good seen ys
  perm-Pooled {Good} {seen} p k = record {
    good = All-perm Good p k.good;
    unique = HasUniquePaths-perm p k.unique;
    known = All-perm (λ x. flag (path_key x) seen ≡ true) p k.known;
  }

  apart :
      (seen : Map Bool) (x : RouteResult F)
      → flag (path_key x) seen ≡ false
      → (y : RouteResult F) → flag (path_key y) seen ≡ true
      → Differs x y
  apart seen x new y old = elim (Bool-cases (path_key x == path_key y)) [
    | inl same ↦ absurd (clash (sym new ∙ ap (λ k. flag k seen) (≡-of_eq _ _ same) ∙ old))
    | inr other ↦ other
  ]

  still :
      (seen : Map Bool) (x y : RouteResult F)
      → flag (path_key y) seen ≡ true
      → flag (path_key y) (insert (path_key x) true seen) ≡ true
  still seen x y old = ground (arith, flag-insert (path_key x) (path_key y) seen, old)

  pub admit-Pooled :
      {Good : RouteResult F → Type 0} (seen : Map Bool) (results candidates : List (RouteResult F))
      (a : Result (RouteResult F))
      → ((x : RouteResult F) → a ≡ ok x → Good x)
      → Pooled Good seen (results ++ candidates)
      → Pooled Good (admit (seen, candidates) a).0 (results ++ (admit (seen, candidates) a).1)
  unfolding admit
  admit-Pooled seen results candidates (err e) h k = k
  admit-Pooled {Good} seen results candidates (ok x) h k =
      elim (Bool-cases (flag (path_key x) seen)) [
        | inl old ↦ rw old k
        | inr new ↦ rw new (
            subst (Pooled Good (insert (path_key x) true seen))
              (append_assoc results candidates (x ∷ []))
              (record {
                good = All-append Good _ (x ∷ []) k.good (h x refl, tt);
                unique =
                    HasUniquePaths-snoc x _ k.unique
                      (All-map (λ y. flag (path_key y) seen ≡ true) (apart seen x new) _ k.known);
                known =
                    All-append (λ y. flag (path_key y) (insert (path_key x) true seen) ≡ true) _
                      (x ∷ [])
                      (All-map (λ y. flag (path_key y) seen ≡ true) (still seen x) _ k.known)
                      (
                        ground (
                          arith,
                          flag-insert (path_key x) (path_key x) seen,
                          eq_iff (path_key x) (path_key x),
                        ),
                        tt,
                      );
              }))
      ]
