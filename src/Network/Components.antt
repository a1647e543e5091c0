-- ===== src/Network/Components.antt =====
-- The components that internal/domain/network/connectivity.go computes.
use route_analysis_service.Prelude.{
  ℕ, suc, ◌≤◌, ◌<◌, String, List, [], ◌∷◌, length, true, Map, lookup, contains, contains-some,
  Option, some, Elem, inl, inr, ◌↔◌, ◌≡◌, refl, sym, subst, ◌∙◌, arith, Bool-cases,
}
use route_analysis_service.Network.Flood.{label_all}
use route_analysis_service.Network.Labels.{Way, stay, go, Labelled, some_inj}
use route_analysis_service.Network.Spread.{Spread, run-Spread}

is_labelled : (labels : Map ℕ) (a : String) (j : ℕ) → Labelled j labels a → contains a labels ≡ true
is_labelled labels a j h = ground (arith, h)

module _ (neighbours : String → List String) (ids : List String)
    (closed : (a b : String) → Elem b (neighbours a) → Elem b ids)
    (back : (a b : String) → Elem b (neighbours a) → Elem a (neighbours b)) where
  Way-trans : {a b c : String} → Way neighbours a b → Way neighbours b c → Way neighbours a c
  Way-trans w stay = w
  Way-trans w (go c v m) = go c (Way-trans w v) m

  Way-sym : {a b : String} → Way neighbours a b → Way neighbours b a
  Way-sym stay = stay
  Way-sym (go c w m) = Way-trans (go _ stay (back _ c m)) (Way-sym w)

  -- Neighbours have the same label, nodes with the same label are joined by a way, and no label is above
  -- the count.
  pub record IsSound (labels : Map ℕ) (count : ℕ) : Type 0 where
    pub shut :
        (a b : String) (j : ℕ) → Labelled j labels a → Elem b (neighbours a) → Labelled j labels b
    pub joined :
        (a b : String) (j : ℕ) → Labelled j labels a → Labelled j labels b → Way neighbours a b
    pub below : (a : String) (j : ℕ) → Labelled j labels a → j ≤ count

  Way-Labelled :
      (labels : Map ℕ) (count : ℕ) {a b : String} (j : ℕ)
      → IsSound labels count
      → Labelled j labels a
      → Way neighbours a b
      → Labelled j labels b
  Way-Labelled labels count j s h stay = h
  Way-Labelled labels count j s h (go {b} c w m) =
      s.shut b c j (Way-Labelled labels count j s h w) m

  above :
      (labels : Map ℕ) (count : ℕ)
      → IsSound labels count
      → (a : String) → Labelled (suc count) labels a
      → ⊥
  above labels count s a h = omega (arith, s.below a (suc count) h)

  module _ (old labels : Map ℕ) (count : ℕ) (root : String) (s : IsSound old count)
      (g : Spread neighbours ids closed back old root
        (suc count)
        s.shut
        (above old count s)
        labels) where
    new_shut :
        (a b : String)
        → Labelled (suc count) labels a
        → Elem b (neighbours a)
        → Labelled (suc count) labels b
    new_shut a b h m = elim (g.waits a h) [
      | inl i ↦ absurd i
      | inr (inl whole) ↦ whole b m
      | inr (inr i) ↦ absurd i
    ]

    new_way : (a : String) → Labelled (suc count) labels a → Way neighbours root a
    new_way a h = elim (g.reached a h) [
      | inl before ↦ absurd (above old count s a before)
      | inr w ↦ w
    ]

    Spread-IsSound : IsSound labels (suc count)
    Spread-IsSound = record {
      shut = λ a b j h m. elim (g.fresh a j h) [
        | inl before ↦ g.kept b j (s.shut a b j before m)
        | inr e ↦
            subst (λ x. Labelled x labels b) (sym e)
              (new_shut a b (subst (λ x. Labelled x labels a) e h) m)
      ];
      joined = λ a b j h i. elim (g.fresh a j h) [
        | inl h' ↦ elim (g.fresh b j i) [
          | inl i' ↦ s.joined a b j h' i'
          | inr e ↦ absurd (omega (arith, s.below a j h', e))
        ]
        | inr e ↦
            Way-trans (Way-sym (new_way a (subst (λ x. Labelled x labels a) e h)))
              (new_way b (subst (λ x. Labelled x labels b) e i))
      ];
      below = λ a j h. elim (g.fresh a j h) [
        | inl before ↦ omega (arith, s.below a j before)
        | inr e ↦ omega (arith, e)
      ];
    }

  -- The labels after the loop over some of the nodes: these have one, and none is lost.
  abbrev Labels : List String → Map ℕ → Option (Map ℕ × ℕ) → Type 0
  Labels rest before o =
      (labels : Map ℕ) × (count : ℕ) × (o ≡ some (labels, count))
      × IsSound labels count
      × ((a : String) → contains a before ≡ true → contains a labels ≡ true)
      × ((a : String) → Elem a rest → contains a labels ≡ true)

  first_or :
      (id : String) (rest : List String) (labels : Map ℕ)
      → contains id labels ≡ true
      → ((a : String) → Elem a rest → contains a labels ≡ true)
      → (a : String) → Elem a (id ∷ rest)
      → contains a labels ≡ true
  first_or id rest labels h others a (inl e) = subst (λ x. contains x labels ≡ true) (sym e) h
  first_or id rest labels h others a (inr m) = others a m

  label_all-Labels :
      (fuel : ℕ) (rest : List String) (labels : Map ℕ) (count : ℕ)
      → length ids < fuel
      → IsSound labels count
      → ((a : String) → Elem a rest → Elem a ids)
      → Labels rest labels (label_all neighbours fuel rest (labels, count))
  unfolding label_all
  label_all-Labels fuel [] labels count h s sub =
      (labels, count, refl, s, (λ a i. i), λ a m. absurd m)
  label_all-Labels fuel (id ∷ rest) labels count h s sub = elim (Bool-cases (contains id labels)) [
    | inl seen ↦
        let (last, total, q, s', kept, all) =
          label_all-Labels fuel rest labels count h s (λ a m. sub a (inr m)) in
        rw (seen, label_all) (last, total, q, s', kept, first_or id rest last (kept id seen) all)
    | inr new ↦
        let (labels', found, g) =
          run-Spread neighbours ids closed back labels id (suc count) s.shut (above labels count s)
            fuel h (sub id (inl refl)) new in
        let (last, total, q, s', kept, all) =
          label_all-Labels fuel rest labels' (suc count) h
            (Spread-IsSound labels labels' count id s g) (λ a m. sub a (inr m)) in
        let grown : (a : String) → contains a labels ≡ true → contains a labels' ≡ true = λ a i.
          (let (j, label) = contains-some a labels i in
            is_labelled labels' a j (g.kept a j label)) in
        rw (new, found, label_all)
          (
            last,
            total,
            q,
            s',
            (λ a i. kept a (grown a i)),
            first_or id rest last (kept id (is_labelled labels' id (suc count) g.rooted)) all,
          )
  ]

  -- With fuel for each node the labelling ends, and two of the nodes have the same label exactly if there is
  -- a way between them.
  pub label_all-Way :
      (fuel : ℕ)
      → length ids < fuel
      → (labels : Map ℕ) × (count : ℕ) × (label_all neighbours fuel ids ([], 0)
          ≡ some (labels, count))
        × ((a b : String)
            → Elem a ids
            → Elem b ids
            → (i : ℕ) × (j : ℕ) × Labelled i labels a
              × Labelled j labels b
              × ((i ≡ j) ↔ Way neighbours a b))
  unfolding lookup
  label_all-Way fuel h =
      let (labels, count, q, s, kept, all) =
        label_all-Labels fuel ids [] 0 h
          (record { shut = λ a b j i m. cc; joined = λ a b j i i'. cc; below = λ a j i. cc })
          (λ a m. m) in
      (
        labels,
        count,
        q,
        λ a b m n.
            let (i, at_a) = contains-some a labels (all a m) in
            let (j, at_b) = contains-some b labels (all b n) in
            (
              i,
              j,
              at_a,
              at_b,
              (
                (λ e. s.joined a b i at_a (subst (λ x. Labelled x labels b) (sym e) at_b)),
                (λ w. same i j labels b (Way-Labelled labels count i s at_a w) at_b),
              ),
            ),
      )
    where
      same :
          (i j : ℕ) (labels : Map ℕ) (b : String)
          → Labelled i labels b
          → Labelled j labels b
          → i ≡ j
      same i j labels b h k = some_inj i j (sym h ∙ k)
