-- ===== src/Routing/Progress.antt =====
-- Why the loops of internal/domain/routing/engine.go end: a float has finitely many values, and a
-- node is put on the heap only for a cost below the one that it had. Each put raises the length of
-- the heap by one and lowers the weight of the costs, which counts double.
use route_analysis_service.Prelude.{
  ℕ, ◌+◌, ◌*◌, ◌≤◌, ◌<◌, String, List, [], ◌∷◌, ◌++◌, map, length, length-perm, false, ◌||◌, ◌==◌,
  if◌then◌else◌, Map, lookup, insert, lookup-insert, none, some, SortSlice, Heap, All, All-map,
  Elem, All-of_Elem, Elem-append_left, Elem-append_right, inl, inr, ◌≡◌, sym, ap, subst, ◌∙◌, arith,
  Bool-cases, Option-cases, ≡-of_eq,
}
use mathlib.Core.List.{Permᴰ}
use native.Mathlib.Nat.{le_trans}
use text.Mathlib.TextEquality.{eq_iff}
use route_analysis_service.Model.Float.{Float64, IsFinite}
use route_analysis_service.Model.Types.{Edge, EdgeCost, RouteRequest}
use route_analysis_service.Model.Access.{effective_cost}
use route_analysis_service.Routing.Snapshot.{Snapshot, slice_of}
use route_analysis_service.Routing.State.{State, label, by_estimate}
use route_analysis_service.Routing.Search.{
  Frontier, relax, relax_all, extend, extend_all, no_better,
}

-- The nodes that edges lead to.
unfoldable pub targets : {F : Type 0} → Map (List (Edge F)) → List String
targets [] = []
targets ((k, es) ∷ m) = map (λ e. e.to) es ++ targets m

Elem-map_to :
    {F : Type 0} (e : Edge F) (es : List (Edge F)) → Elem e es → Elem e.to (map (λ x. x.to) es)
Elem-map_to e (x ∷ es) (inl p) = inl (ap (λ y. y.to) p)
Elem-map_to e (x ∷ es) (inr m) = inr (Elem-map_to e es m)
Elem-map_to e [] m = m

pub slice_of-targets :
    {F : Type 0} (n : String) (m : Map (List (Edge F)))
    → All (λ e. Elem e.to (targets m)) (slice_of n m)
unfolding targets lookup
slice_of-targets n [] = tt
slice_of-targets {F} n ((k, es) ∷ m) = elim (Bool-cases (k == n)) [
  | inl here ↦
      let found : slice_of n ((k, es) ∷ m) ≡ es = ground arith in
      subst (All leads) (sym found) (
        All-of_Elem leads es
          (λ e i. Elem-append_left e.to (map (λ x. x.to) es) (targets m) (Elem-map_to e es i)))
  | inr there ↦
      let found : slice_of n ((k, es) ∷ m) ≡ slice_of n m = ground arith in
      subst (All leads) (sym found) (
        All-map (λ e. Elem e.to (targets m))
          (λ e i. Elem-append_right e.to (map (λ x. x.to) es) (targets m) i) (slice_of n m)
          (slice_of-targets n m))
]
  where
    leads : Edge F → Type 0
    leads e = Elem e.to (targets ((k, es) ∷ m))

module _ {F : Type 0} {fl : Float64 F} (fin : IsFinite fl) where
  open fin use {rank, bound}

  -- A node that has no cost yet weighs more than any that has one.
  abbrev pub weight_of : Map F → String → ℕ
  weight_of m k = elim (lookup k m) [ none ↦ bound | some v ↦ rank v ]

  pub weight : List String → Map F → ℕ
  weight [] m = 0
  weight (k ∷ ks) m = weight_of m k + weight ks m

  weight_of-insert :
      (k j : String) (v : F) (m : Map F)
      → weight_of (insert k v m) j ≡ (if k == j then rank v else weight_of m j)
  weight_of-insert k j v m = ground (arith, lookup-insert k j v m)

  weight-insert-le :
      (k : String) (v : F) (m : Map F) (ks : List String)
      → rank v < weight_of m k
      → weight ks (insert k v m) ≤ weight ks m
  unfolding weight
  weight-insert-le k v m [] h = omega arith
  weight-insert-le k v m (j ∷ ks) h = elim (Bool-cases (k == j)) [
    | inl same ↦
        let here : weight_of (insert k v m) j ≡ rank v =
          weight_of-insert k j v m ∙ ap (λ b. if b then rank v else weight_of m j) same in
        let there : rank v < weight_of m j =
          subst (λ x. rank v < weight_of m x) (≡-of_eq k j same) h in
        omega (arith, here, there, weight-insert-le k v m ks h)
    | inr other ↦
        let here : weight_of (insert k v m) j ≡ weight_of m j =
          weight_of-insert k j v m ∙ ap (λ b. if b then rank v else weight_of m j) other in
        omega (arith, here, weight-insert-le k v m ks h)
  ]

  pub weight-insert-lt :
      (k : String) (v : F) (m : Map F) (ks : List String)
      → rank v < weight_of m k
      → Elem k ks
      → weight ks (insert k v m) < weight ks m
  unfolding weight
  weight-insert-lt k v m [] h i = absurd i
  weight-insert-lt k v m (j ∷ ks) h (inl e) =
      let here : weight_of (insert k v m) j ≡ rank v =
        weight_of-insert k j v m
        ∙ ap (λ b. if b then rank v else weight_of m j) ((eq_iff k j).1 e) in
      let there : rank v < weight_of m j = subst (λ x. rank v < weight_of m x) e h in
      omega (arith, here, there, weight-insert-le k v m ks h)
  weight-insert-lt k v m (j ∷ ks) h (inr i) =
      let rest = weight-insert-lt k v m ks h i in
      let head = weight-insert-le k v m (j ∷ []) h in omega (arith, rest, head)

  weight_of-le : (m : Map F) (k : String) → weight_of m k ≤ bound
  weight_of-le m k = elim (Option-cases (lookup k m)) [
    | inl unseen ↦ ground arith
    | inr (v, seen) ↦ ground (arith, fin.rank-lt-bound v)
  ]

  pub weight-le-bound : (m : Map F) (ks : List String) → weight ks m ≤ bound * length ks
  unfolding weight
  weight-le-bound m [] = omega arith
  weight-le-bound m (k ∷ ks) = omega (arith, weight_of-le m k, weight-le-bound m ks)

  pub measure : List String → Frontier F → ℕ
  measure ks f = length f.0 + 2 * weight ks f.1

module _ {F : Type 0} ⦃fl : Float64 F⦄ ⦃slice : SortSlice⦄ ⦃heap : Heap⦄ (fin : IsFinite fl) where
  open fl use {add}
  open fin use {rank, bound, rank-lt-bound, rank_mono}

  better-rank :
      (best : Map F) (to : String) (candidate : F)
      → no_better best to candidate ≡ false
      → rank candidate < weight_of fin best to
  unfolding no_better
  better-rank best to candidate h = elim (Option-cases (lookup to best)) [
    | inl unseen ↦ ground (arith, rank-lt-bound candidate)
    | inr (old, seen) ↦ ground (arith, rank_mono candidate old)
  ]

  push-measure :
      (ks : List String) (st : State F) (queue : List (State F)) (best : Map F) (to : String)
      (candidate : F)
      → Elem to ks
      → no_better best to candidate ≡ false
      → measure fin ks (heap.push (State F) by_estimate st queue, insert to candidate best)
        ≤ measure fin ks (queue, best)
  unfolding measure
  push-measure ks st queue best to candidate i h = omega (
    arith,
    length-perm (heap.push-perm (State F) by_estimate st queue),
    weight-insert-lt fin to candidate best ks (better-rank best to candidate h) i,
  )

  relax-measure :
      (ks : List String) (s : Snapshot F) (r : RouteRequest F) (current : State F) (f : Frontier F)
      (e : Edge F) (c : EdgeCost F)
      → Elem e.to ks
      → measure fin ks (relax s r current f e c) ≤ measure fin ks f
  unfolding relax
  relax-measure ks s r current (queue, best) e c i =
      elim (Bool-cases (no_better best e.to (add (label current).cost c.seconds))) [
        | inl worse ↦ rw (worse, relax) (omega arith)
        | inr better ↦ rw (better, relax) (push-measure ks _ queue best e.to _ i better)
      ]

  pub relax_all-measure :
      (ks : List String) (s : Snapshot F) (r : RouteRequest F) (current : State F) (f : Frontier F)
      (es : List (Edge F))
      → All (λ e. Elem e.to ks) es
      → measure fin ks (relax_all s r current f es) ≤ measure fin ks f
  unfolding relax_all
  relax_all-measure ks s r current f [] a = omega arith
  relax_all-measure ks s r current f (e ∷ es) a =
      elim (Option-cases (effective_cost e s.incidents r (label current).arrival)) [
        | inl barred ↦ rw (barred, relax_all) (relax_all-measure ks s r current f es a.1)
        | inr (c, cost) ↦
            rw (cost, relax_all)
              (le_trans (relax_all-measure ks s r current (relax s r current f e c) es a.1)
                (relax-measure ks s r current f e c a.0))
      ]

  extend-measure :
      (ks : List String) (budget : F) (current : State F) (f : Frontier F) (e : Edge F)
      (c : EdgeCost F)
      → Elem e.to ks
      → measure fin ks (extend budget current f e c) ≤ measure fin ks f
  unfolding extend
  extend-measure ks budget current (queue, best) e c i =
      elim (Bool-cases (
        fl.lt budget (add (label current).cost c.seconds)
        || no_better best e.to (add (label current).cost c.seconds))) [
          | inl worse ↦ rw (worse, extend) (omega arith)
          | inr better ↦ rw (better, extend) (push-measure ks _ queue best e.to _ i (ground arith))
        ]

  pub extend_all-measure :
      (ks : List String) (s : Snapshot F) (r : RouteRequest F) (budget : F) (current : State F)
      (f : Frontier F) (es : List (Edge F))
      → All (λ e. Elem e.to ks) es
      → measure fin ks (extend_all s r budget current f es) ≤ measure fin ks f
  unfolding extend_all
  extend_all-measure ks s r budget current f [] a = omega arith
  extend_all-measure ks s r budget current f (e ∷ es) a =
      elim (Option-cases (effective_cost e s.incidents r (label current).arrival)) [
        | inl barred ↦ rw (barred, extend_all) (extend_all-measure ks s r budget current f es a.1)
        | inr (c, cost) ↦
            rw (cost, extend_all)
              (le_trans
                (extend_all-measure ks s r budget current (extend budget current f e c) es a.1)
                (extend-measure ks budget current f e c a.0))
      ]

  -- To take a state from the heap is progress.
  pub pop-measure :
      (ks : List String) (queue : List (State F)) (best : Map F) (st : State F)
      (rest : List (State F))
      → Permᴰ queue (st ∷ rest)
      → measure fin ks (rest, best) < measure fin ks (queue, best)
  unfolding measure
  pop-measure ks queue best st rest p = omega (arith, length-perm p)

  -- Enough fuel for a search from one state.
  pub initial-measure :
      (ks : List String) (st : State F) (best : Map F)
      → measure fin ks (st ∷ [], best) ≤ 1 + 2 * (bound * length ks)
  unfolding measure
  initial-measure ks st best = omega (arith, weight-le-bound fin best ks)
