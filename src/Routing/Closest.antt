-- ===== src/Routing/Closest.antt =====
-- What `Nearest` of internal/domain/routing/engine.go answers.
use route_analysis_service.Prelude.{
  String, List, [], ◌∷◌, Bool, true, false, ◌&&◌, ◌==◌, if◌then◌else◌, Map, All, Elem, ◌⊎◌, inl,
  inr, ◌≡◌, refl, arith, Bool-cases, subst, sym, ap, ◌∙◌,
}
use route_analysis_service.Model.Float.{Float64, IsOrdered}
use route_analysis_service.Model.Types.{Point, Mode, Node}
use route_analysis_service.Model.Validation.{point_valid}
use route_analysis_service.Model.Error.{Result, ok, err, message, no_route}
use route_analysis_service.Routing.Snapshot.{
  Snapshot, distance_meters, routable, nearest_loop, nearest,
}

All-at : {A : Type 0} (P : A → Type 0) (xs : List A) → All P xs → (x : A) → Elem x xs → P x
All-at P [] all x m = absurd m
All-at P (y ∷ ys) all x (inl e) = subst P (sym e) all.0
All-at P (y ∷ ys) all x (inr m) = All-at P ys all.1 x m

module _ {F : Type 0} ⦃fl : Float64 F⦄ (s : Snapshot F) (point : Point F) (mode : Mode) where
  open fl use {lt, infinity}

  -- No node that an edge of the mode leaves is closer than a distance.
  abbrev pub NoneCloser : Map (Node F) → F → Type 0
  NoneCloser nodes d =
      All (λ e. (routable s mode e.0 && lt (distance_meters point e.1.location) d) ≡ false) nodes

  -- A node that an edge of the mode leaves lies at a distance.
  pub record LiesAt (nodes : Map (Node F)) (id : String) (d : F) : Type 0 where
    pub node : Node F
    pub member : Elem (id, node) nodes
    pub leaves : routable s mode id ≡ true
    pub distance : d ≡ distance_meters point node.location

  pub record IsLeast (nodes : Map (Node F)) (start end : String × F) : Type 0 where
    pub none_closer : NoneCloser nodes end.1
    pub no_farther : lt start.1 end.1 ≡ false
    pub origin : (end ≡ start) ⊎ LiesAt nodes end.0 end.1

  lt_irrefl : IsOrdered fl → (x : F) → lt x x ≡ false
  lt_irrefl o x = elim (Bool-cases (lt x x)) [
    | inl h ↦ ground (arith, o.lt_asymm x x h, h)
    | inr h ↦ h
  ]

  LiesAt-cons :
      (e : String × Node F) (nodes : Map (Node F)) (id : String) (d : F)
      → LiesAt nodes id d
      → LiesAt (e ∷ nodes) id d
  LiesAt-cons e nodes id d l = record {
    node = l.node;
    member = inr l.member;
    leaves = l.leaves;
    distance = l.distance;
  }

  nearest_loop-IsLeast :
      IsOrdered fl
      → (nodes : Map (Node F)) (best : String × F)
      → IsLeast nodes best (nearest_loop s point mode best nodes)
  unfolding nearest_loop
  nearest_loop-IsLeast o [] best = record {
    none_closer = tt;
    no_farther = lt_irrefl o best.1;
    origin = inl refl;
  }
  nearest_loop-IsLeast o ((id, n) ∷ rest) best = elim (Bool-cases (routable s mode id)) [
    | inr barred ↦ rw barred (skipped (ground (arith, barred)) (nearest_loop-IsLeast o rest best))
    | inl leaves ↦ elim (Bool-cases (lt (distance_meters point n.location) best.1)) [
      | inr farther ↦
          rw (leaves, farther)
            (skipped (ground (arith, farther)) (nearest_loop-IsLeast o rest best))
      | inl closer ↦
          rw (leaves, closer)
            (taken leaves closer
              (nearest_loop-IsLeast o rest (id, distance_meters point n.location)))
    ]
  ]
    where
      not_closer :
          (r : F)
          → (routable s mode id && lt (distance_meters point n.location) best.1) ≡ false
          → lt best.1 r ≡ false
          → (routable s mode id && lt (distance_meters point n.location) r) ≡ false
      not_closer r h below = elim (Bool-cases (routable s mode id)) [
        | inl leaves ↦
            let behind =
              o.le_trans r best.1 (distance_meters point n.location) below
                (ground (arith, leaves, h)) in
            ground (arith, behind)
        | inr barred ↦ ground (arith, barred)
      ]

      skipped :
          (routable s mode id && lt (distance_meters point n.location) best.1) ≡ false
          → IsLeast rest best (nearest_loop s point mode best rest)
          → IsLeast ((id, n) ∷ rest) best (nearest_loop s point mode best rest)
      skipped h l = record {
        none_closer =
            (not_closer (nearest_loop s point mode best rest).1 h l.no_farther, l.none_closer);
        no_farther = l.no_farther;
        origin = elim l.origin [ inl e ↦ inl e | inr at ↦ inr (LiesAt-cons (id, n) rest _ _ at) ];
      }

      taken :
          routable s mode id ≡ true
          → lt (distance_meters point n.location) best.1 ≡ true
          → IsLeast rest
              (id, distance_meters point n.location)
              (nearest_loop s point mode (id, distance_meters point n.location) rest)
          → IsLeast
              ((id, n) ∷ rest)
              best
              (nearest_loop s point mode (id, distance_meters point n.location) rest)
      taken leaves closer l = record {
        none_closer = (ground (arith, l.no_farther), l.none_closer);
        no_farther =
            o.le_trans (nearest_loop s point mode (id, distance_meters point n.location) rest).1
              (distance_meters point n.location) best.1 l.no_farther
              (o.lt_asymm (distance_meters point n.location) best.1 closer);
        origin = elim l.origin [
          | inl e ↦ inr (record {
            node = n;
            member = inl (ap (λ r. (r.0, n)) e);
            leaves = ap (λ r. routable s mode r.0) e ∙ leaves;
            distance = ap (λ r. r.1) e;
          })
          | inr at ↦ inr (LiesAt-cons (id, n) rest _ _ at)
        ];
      }

  -- The closest node that an edge of the mode leaves, or none that is closer than the infinite distance.
  abbrev pub IsClosest : Result (String × F) → Type 0
  IsClosest (ok found) = NoneCloser s.nodes found.1 × LiesAt s.nodes found.0 found.1
  IsClosest (err e) = NoneCloser s.nodes infinity × (e ≡ no_route)

  -- For ordered floats, a valid point and nodes with ids that are not empty, `Nearest` answers with a
  -- node that an edge of the mode leaves, and its distance, such that no such node is closer. It fails
  -- with `ErrNoRoute`, and only if no such node is closer than the infinite distance.
  pub nearest-IsClosest :
      IsOrdered fl
      → All (λ e. (e.0 == "") ≡ false) s.nodes
      → point_valid point ≡ true
      → IsClosest (nearest s point mode)
  unfolding nearest
  nearest-IsClosest o named valid =
      by_id (nearest_loop s point mode ("", infinity) s.nodes)
        (nearest_loop-IsLeast o s.nodes ("", infinity))
    where
      nameless : {b : Bool} → b ≡ false → b ≡ true → ⊥
      nameless f t = ground arith

      by_id :
          (best : String × F)
          → IsLeast s.nodes ("", infinity) best
          → IsClosest (
              if point_valid point
              then (if best.0 == "" then err no_route else ok best)
              else err (message "invalid point"))
      by_id best l = elim (Bool-cases (best.0 == "")) [
        | inl nobody ↦
            rw (valid, nobody)
              (elim l.origin [
                | inl e ↦ (subst (NoneCloser s.nodes) (ap (λ r. r.1) e) l.none_closer, refl)
                | inr at ↦ absurd (
                    nameless
                      (All-at (λ e. (e.0 == "") ≡ false) s.nodes named (best.0, at.node) at.member)
                      nobody)
              ])
        | inr somebody ↦
            rw (valid, somebody)
              (
                l.none_closer,
                elim l.origin [
                  | inl e ↦ absurd (nameless somebody (ap (λ r. r.0 == "") e))
                  | inr at ↦ at
                ],
              )
      ]
