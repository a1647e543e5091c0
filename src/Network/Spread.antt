-- ===== src/Network/Spread.antt =====
-- What one search of the labelling in internal/domain/network/connectivity.go does: it ends, and labels exactly
-- what can be reached.
use route_analysis_service.Prelude.{
  ℕ, ◌+◌, ◌<◌, ◌≤◌, String, List, [], ◌∷◌, ◌++◌, length, length-append, true, false, Map, insert,
  contains, contains-some, lookup-insert_self, some, run, Advances, run_correct, Elem,
  Elem-append_left, Elem-append_right, inl, inr, ◌⊎◌, ◌≡◌, refl, sym, ◌∙◌, subst, arith, Bool-cases,
}
use route_analysis_service.Network.Flood.{Front, mark, visit_first}
use route_analysis_service.Network.Labels.{
  some_inj, Way, stay, go, Labelled, unlabelled, unlabelled-insert_lt, insert-Labelled,
  inserted-Labelled, unlabelled-le-length,
}

module _ (neighbours : String → List String) (ids : List String)
    (closed : (a b : String) → Elem b (neighbours a) → Elem b ids)
    (back : (a b : String) → Elem b (neighbours a) → Elem a (neighbours b)) where
  -- The labels before a search, its root and its label, which is new.
  module _ (old : Map ℕ) (root : String) (k : ℕ)
      (shut : (a b : String) (j : ℕ)
        → Labelled j old a
        → Elem b (neighbours a)
        → Labelled j old b) where
    -- All neighbours have the label.
    abbrev pub IsDone : Map ℕ → String → Type 0
    IsDone labels a = (b : String) → Elem b (neighbours a) → Labelled k labels b

    -- Old labels are kept, and the others are `k`. Nodes of this label can be reached from the root, and wait
    -- in the queue, or are done, or are the node that is looked at.
    pub record Grows (IsCurrent : String → Type 0) (f : Front) : Type 0 where
      pub kept : (a : String) (j : ℕ) → Labelled j old a → Labelled j f.1 a
      pub fresh : (a : String) (j : ℕ) → Labelled j f.1 a → Labelled j old a ⊎ (j ≡ k)
      pub reached : (a : String) → Labelled k f.1 a → Labelled k old a ⊎ Way neighbours root a
      pub waits : (a : String) → Labelled k f.1 a → Elem a f.0 ⊎ (IsDone f.1 a ⊎ IsCurrent a)
      pub queued : (a : String) → Elem a f.0 → Labelled k f.1 a
      pub rooted : Labelled k f.1 root

    is_snoc :
        (a n : String) (queue : List String) → Elem a (queue ++ n ∷ []) → Elem a queue ⊎ (a ≡ n)
    is_snoc a n [] (inl e) = inr e
    is_snoc a n [] (inr m) = absurd m
    is_snoc a n (x ∷ queue) (inl e) = inl (inl e)
    is_snoc a n (x ∷ queue) (inr m) = elim (is_snoc a n queue m) [
      | inl i ↦ inl (inr i)
      | inr e ↦ inr e
    ]

    -- A neighbour without a label gets it, and joins the queue.
    insert-Grows :
        (IsCurrent : String → Type 0) (n : String) (queue : List String) (labels : Map ℕ)
        → contains n labels ≡ false
        → Way neighbours root n
        → Grows IsCurrent (queue, labels)
        → Grows IsCurrent (queue ++ n ∷ [], insert n k labels)
    insert-Grows IsCurrent n queue labels new way g = record {
      kept = λ a j h. insert-Labelled n a k j labels new (g.kept a j h);
      fresh = λ a j h. elim (inserted-Labelled n a k j labels h) [
        | inl (same, e) ↦ inr (sym e)
        | inr before ↦ g.fresh a j before
      ];
      reached = λ a h. elim (inserted-Labelled n a k k labels h) [
        | inl (same, e) ↦ inr (subst (Way neighbours root) same way)
        | inr before ↦ g.reached a before
      ];
      waits = λ a h. elim (inserted-Labelled n a k k labels h) [
        | inl (same, e) ↦ inl (
            subst (λ x. Elem x (queue ++ n ∷ [])) same
              (Elem-append_right n queue (n ∷ []) (inl refl)))
        | inr before ↦ elim (g.waits a before) [
          | inl m ↦ inl (Elem-append_left a queue (n ∷ []) m)
          | inr (inl all) ↦ inr (inl (λ b m. insert-Labelled n b k k labels new (all b m)))
          | inr (inr c) ↦ inr (inr c)
        ]
      ];
      queued = λ a m. elim (is_snoc a n queue m) [
        | inl i ↦ insert-Labelled n a k k labels new (g.queued a i)
        | inr e ↦ subst (Labelled k (insert n k labels)) (sym e) (lookup-insert_self n k labels)
      ];
      rooted = insert-Labelled n root k k labels new g.rooted;
    }

    -- A neighbour that has a label has this one, as its old label would be that of the node as well.
    seen-Labelled :
        (IsCurrent : String → Type 0) (current n : String) (f : Front)
        → Grows IsCurrent f
        → Labelled k f.1 current
        → Elem n (neighbours current)
        → contains n f.1 ≡ true
        → Labelled k f.1 n
    seen-Labelled IsCurrent current n f g here m seen =
        let (j, label) = contains-some n f.1 seen in
        elim (g.fresh n j label) [
          | inr e ↦ subst (λ x. Labelled x f.1 n) e label
          | inl before ↦
              let also = g.kept current j (shut n current j before (back current n m)) in
              subst (λ x. Labelled x f.1 n) (some_inj j k (sym also ∙ here)) label
        ]

    mark-Labelled :
        (ns : List String) (f : Front) (a : String) (j : ℕ)
        → Labelled j f.1 a
        → Labelled j (mark k ns f).1 a
    unfolding mark
    mark-Labelled [] f a j h = h
    mark-Labelled (n ∷ ns) (queue, labels) a j h = elim (Bool-cases (contains n labels)) [
      | inl seen ↦ rw (seen, mark) (mark-Labelled ns (queue, labels) a j h)
      | inr new ↦
          rw (new, mark)
            (mark-Labelled ns (queue ++ n ∷ [], insert n k labels) a j
              (insert-Labelled n a k j labels new h))
    ]

    mark-Grows :
        (IsCurrent : String → Type 0) (current : String) (ns : List String) (f : Front)
        → Way neighbours root current
        → Labelled k f.1 current
        → ((n : String) → Elem n ns → Elem n (neighbours current))
        → Grows IsCurrent f
        → Grows IsCurrent (mark k ns f) × ((n : String) → Elem n ns → Labelled k (mark k ns f).1 n)
    unfolding mark
    mark-Grows IsCurrent current [] f way here sub g = (g, λ n m. absurd m)
    mark-Grows IsCurrent current (n ∷ ns) (queue, labels) way here sub g =
        elim (Bool-cases (contains n labels)) [
          | inl seen ↦
              let rest =
                mark-Grows IsCurrent current ns (queue, labels) way here (λ x m. sub x (inr m)) g in
              rw (seen, mark)
                (
                  rest.0,
                  with_first (mark k ns (queue, labels)).1
                      (mark-Labelled ns (queue, labels) n k
                        (seen-Labelled IsCurrent current n (queue, labels) g here (sub n (inl refl))
                          seen))
                      rest.1,
                )
          | inr new ↦
              let f' : Front = (queue ++ n ∷ [], insert n k labels) in
              let rest =
                mark-Grows IsCurrent current ns f' way
                  (insert-Labelled n current k k labels new here) (λ x m. sub x (inr m))
                  (insert-Grows IsCurrent n queue labels new (go n way (sub n (inl refl))) g) in
              rw (new, mark)
                (
                  rest.0,
                  with_first (mark k ns f').1
                      (mark-Labelled ns f' n k (lookup-insert_self n k labels)) rest.1,
                )
        ]
      where
        with_first :
            (labels : Map ℕ)
            → Labelled k labels n
            → ((x : String) → Elem x ns → Labelled k labels x)
            → (x : String) → Elem x (n ∷ ns)
            → Labelled k labels x
        with_first labels first others x (inl e) = subst (Labelled k labels) (sym e) first
        with_first labels first others x (inr m) = others x m

    -- The queue and the nodes without a label get fewer.
    measure : Front → ℕ
    measure (queue, labels) = length queue + unlabelled ids labels

    mark-measure :
        (current : String) (ns : List String) (f : Front)
        → ((n : String) → Elem n ns → Elem n (neighbours current))
        → measure (mark k ns f) ≤ measure f
    unfolding mark measure
    mark-measure current [] f sub = omega arith
    mark-measure current (n ∷ ns) (queue, labels) sub = elim (Bool-cases (contains n labels)) [
      | inl seen ↦ rw (seen, mark) (mark-measure current ns (queue, labels) (λ x m. sub x (inr m)))
      | inr new ↦
          rw (new, mark)
            (omega (
              arith,
              mark-measure current ns (queue ++ n ∷ [], insert n k labels) (λ x m. sub x (inr m)),
              length-append queue (n ∷ []),
              unlabelled-insert_lt ids n k labels (closed current n (sub n (inl refl))) new,
            ))
    ]

    -- Nothing is looked at between two rounds.
    abbrev pub Spreads : Front → Type 0
    Spreads = Grows (λ a. ⊥)

    settle :
        (current : String) (f : Front) → Grows (λ a. a ≡ current) f → IsDone f.1 current → Spreads f
    settle current f g all = record {
      kept = g.kept;
      fresh = g.fresh;
      reached = g.reached;
      waits = λ a h. elim (g.waits a h) [
        | inl m ↦ inl m
        | inr (inl whole) ↦ inr (inl whole)
        | inr (inr e) ↦ inr (inl (subst (IsDone f.1) (sym e) all))
      ];
      queued = g.queued;
      rooted = g.rooted;
    }

    module _ (unused : (a : String) → Labelled k old a → ⊥) where
      -- The search is over: the labels, with an empty queue.
      abbrev pub Spread : Map ℕ → Type 0
      Spread labels = Spreads ([], labels)

      visit_first-Advances :
          (f : Front)
          → Spreads f
          → Advances Spreads Spread measure (measure f) (visit_first neighbours k f)
      unfolding visit_first measure
      visit_first-Advances ([], labels) g = g
      visit_first-Advances (current ∷ queue, labels) g =
          let here = g.queued current (inl refl) in
          let way : Way neighbours root current = elim (g.reached current here) [
            | inl before ↦ absurd (unused current before)
            | inr w ↦ w
          ] in
          let looking : Grows (λ a. a ≡ current) (queue, labels) = record {
            kept = g.kept;
            fresh = g.fresh;
            reached = g.reached;
            waits = λ a h. elim (g.waits a h) [
              | inl (inl e) ↦ inr (inr e)
              | inl (inr m) ↦ inl m
              | inr (inl all) ↦ inr (inl all)
              | inr (inr c) ↦ absurd c
            ];
            queued = λ a m. g.queued a (inr m);
            rooted = g.rooted;
          } in
          let (g', all) =
            mark-Grows (λ a. a ≡ current) current (neighbours current) (queue, labels) way here
              (λ n m. m) looking in
          (
            settle current _ g' all,
            omega (arith, mark-measure current (neighbours current) (queue, labels) (λ n m. m)),
          )

      start-Spreads : contains root old ≡ false → Spreads (root ∷ [], insert root k old)
      start-Spreads new = record {
        kept = λ a j h. insert-Labelled root a k j old new h;
        fresh = λ a j h. elim (inserted-Labelled root a k j old h) [
          | inl (same, e) ↦ inr (sym e)
          | inr before ↦ inl before
        ];
        reached = λ a h. elim (inserted-Labelled root a k k old h) [
          | inl (same, e) ↦ inr (subst (Way neighbours root) same stay)
          | inr before ↦ inl before
        ];
        waits = λ a h. elim (inserted-Labelled root a k k old h) [
          | inl (same, e) ↦ inl (inl (sym same))
          | inr before ↦ absurd (unused a before)
        ];
        queued = λ a m. elim m [
          | inl e ↦ subst (Labelled k (insert root k old)) (sym e) (lookup-insert_self root k old)
          | inr nowhere ↦ absurd nowhere
        ];
        rooted = lookup-insert_self root k old;
      }

      -- With fuel for each of the nodes the search ends.
      pub run-Spread :
          (fuel : ℕ)
          → length ids < fuel
          → Elem root ids
          → contains root old ≡ false
          → (labels : Map ℕ) × (run fuel (visit_first neighbours k) (root ∷ [], insert root k old)
              ≡ some labels)
            × Spread labels
      unfolding measure
      run-Spread fuel h m new =
          run_correct Spreads Spread measure (visit_first neighbours k) visit_first-Advances fuel
            (root ∷ [], insert root k old)
            (omega
              (arith, h, unlabelled-insert_lt ids root k old m new, unlabelled-le-length ids old))
            (start-Spreads new)
