-- ===== src/Geocode/Box.antt =====
-- The box of a polygon of internal/domain/geocode/polygon.go, and what lies outside it.
use route_analysis_service.Prelude.{
  List, [], ◌∷◌, Bool, true, false, if◌then◌else◌, All, All-map, Bool-cases, inl, inr, ◌≡◌, refl,
  sym, ◌∙◌,
}
use route_analysis_service.Model.Float.{Float64, IsOrdered}
use route_analysis_service.Model.Types.{Point}
use route_analysis_service.Geocode.Polygon.{
  Polygon, crossing, differ, last_of, widen, widen_all, bounds, crosses, ray_loop, contains_point,
  LiesIn,
}

module _ {F : Type 0} ⦃fl : Float64 F⦄ where
  open fl use {lt}

  module _ (ordered : IsOrdered fl) where
    open ordered use {lt_asymm, le_trans}

    lt_irrefl : (x : F) → lt x x ≡ false
    lt_irrefl x = elim (Bool-cases (lt x x)) [ inl h ↦ lt_asymm x x h | inr h ↦ h ]

    -- The smaller and the greater of two numbers, as the loop picks them.
    least_le : (m x y : F) → lt y m ≡ false → lt y (if lt x m then x else m) ≡ false
    least_le m x y h = elim (Bool-cases (lt x m)) [
      | inl less ↦ rw less (le_trans x m y (lt_asymm x m less) h)
      | inr other ↦ rw other h
    ]

    least_new : (m x : F) → lt x (if lt x m then x else m) ≡ false
    least_new m x = elim (Bool-cases (lt x m)) [
      | inl less ↦ rw less (lt_irrefl x)
      | inr other ↦ rw other other
    ]

    most_le : (m x y : F) → lt m y ≡ false → lt (if lt m x then x else m) y ≡ false
    most_le m x y h = elim (Bool-cases (lt m x)) [
      | inl more ↦ rw more (le_trans y m x h (lt_asymm m x more))
      | inr other ↦ rw other h
    ]

    most_new : (m x : F) → lt (if lt m x then x else m) x ≡ false
    most_new m x = elim (Bool-cases (lt m x)) [
      | inl more ↦ rw more (lt_irrefl x)
      | inr other ↦ rw other other
    ]

    widen-LiesIn : (box : Point F × Point F) (p q : Point F) → LiesIn box q → LiesIn (widen box p) q
    unfolding widen
    widen-LiesIn (least, most) p q (a, b, c, d) = (
      least_le least.lat p.lat q.lat a,
      least_le least.lon p.lon q.lon b,
      most_le most.lat p.lat q.lat c,
      most_le most.lon p.lon q.lon d,
    )

    widened-LiesIn : (box : Point F × Point F) (p : Point F) → LiesIn (widen box p) p
    unfolding widen
    widened-LiesIn (least, most) p = (
      least_new least.lat p.lat,
      least_new least.lon p.lon,
      most_new most.lat p.lat,
      most_new most.lon p.lon,
    )

    widen_all-LiesIn :
        (box : Point F × Point F) (ps : List (Point F)) (q : Point F)
        → LiesIn box q
        → LiesIn (widen_all box ps) q
    unfolding widen_all
    widen_all-LiesIn box [] q h = h
    widen_all-LiesIn box (p ∷ ps) q h = widen_all-LiesIn (widen box p) ps q (widen-LiesIn box p q h)

    widened_all-LiesIn :
        (box : Point F × Point F) (ps : List (Point F)) → All (LiesIn (widen_all box ps)) ps
    unfolding widen_all
    widened_all-LiesIn box [] = tt
    widened_all-LiesIn box (p ∷ ps) = (
      widen_all-LiesIn (widen box p) ps p (widened-LiesIn box p),
      widened_all-LiesIn (widen box p) ps,
    )

    bounds-LiesIn : (polygon : Polygon F) → All (LiesIn (bounds polygon)) polygon.points
    unfolding bounds
    bounds-LiesIn polygon = by_points polygon.points
      where
        by_points : (ps : List (Point F)) → All (LiesIn (bounds (record { points = ps }))) ps
        by_points [] = tt
        by_points (p ∷ ps) = (
          widen_all-LiesIn (p, p) ps p
              (lt_irrefl p.lat, lt_irrefl p.lon, lt_irrefl p.lat, lt_irrefl p.lon),
          widened_all-LiesIn (p, p) ps,
        )

    last_of-All :
        (P : Point F → Type 0) (p : Point F) (ps : List (Point F))
        → P p
        → All P ps
        → P (last_of p ps)
    unfolding last_of
    last_of-All P p [] h hs = h
    last_of-All P p (q ∷ qs) h hs = last_of-All P q qs hs.0 hs.1

    -- No ray crosses an edge if all corners are on one side of the point.
    ray_loop-one_side :
        (point : Point F) (side inside : Bool) (pj : Point F) (ps : List (Point F))
        → lt point.lon pj.lon ≡ side
        → All (λ p. lt point.lon p.lon ≡ side) ps
        → ray_loop point inside pj ps ≡ inside
    unfolding ray_loop crosses
    ray_loop-one_side point side inside pj [] h hs = refl
    ray_loop-one_side point side inside pj (pi ∷ ps) h hs =
        let none_crossed : crosses point pi pj ≡ false = rw (h, hs.0, crosses) (by_side side) in
        rw none_crossed (ray_loop-one_side point side inside pi ps hs.0 hs.1)
      where
        by_side :
            (b : Bool) → (if differ b b then lt point.lat (crossing point pi pj) else false) ≡ false
        by_side true = refl
        by_side false = refl

    one_side-contains_point :
        (polygon : Polygon F) (point : Point F) (side : Bool)
        → All (λ p. lt point.lon p.lon ≡ side) polygon.points
        → contains_point polygon point ≡ false
    unfolding contains_point
    one_side-contains_point polygon point side h = by_points polygon.points h
      where
        by_points :
            (ps : List (Point F))
            → All (λ p. lt point.lon p.lon ≡ side) ps
            → contains_point (record { points = ps }) point ≡ false
        by_points [] hs = refl
        by_points (p ∷ ps) hs =
            ray_loop-one_side point side false (last_of p ps) (p ∷ ps)
              (last_of-All (λ q. lt point.lon q.lon ≡ side) p ps hs.0 hs.1) hs

    -- What is left of the box is left of each corner, and what is right of it is right of each.
    left_of_all :
        (polygon : Polygon F) (point : Point F)
        → lt point.lon (bounds polygon).0.lon ≡ true
        → All (λ p. lt point.lon p.lon ≡ true) polygon.points
    left_of_all polygon point h =
        All-map (LiesIn (bounds polygon))
          (λ p (a, b, c, d). elim (Bool-cases (lt point.lon p.lon)) [
            | inl left ↦ left
            | inr other ↦ absurd (clash h (le_trans (bounds polygon).0.lon p.lon point.lon b other))
          ])
          polygon.points (bounds-LiesIn polygon)
      where
        clash :
            lt point.lon (bounds polygon).0.lon ≡ true
            → lt point.lon (bounds polygon).0.lon ≡ false
            → ⊥
        clash e f = cc

    right_of_all :
        (polygon : Polygon F) (point : Point F)
        → lt (bounds polygon).1.lon point.lon ≡ true
        → All (λ p. lt point.lon p.lon ≡ false) polygon.points
    right_of_all polygon point h =
        All-map (LiesIn (bounds polygon))
          (λ p (a, b, c, d).
            le_trans p.lon (bounds polygon).1.lon point.lon d
              (lt_asymm (bounds polygon).1.lon point.lon h))
          polygon.points (bounds-LiesIn polygon)

    within_box :
        (polygon : Polygon F) (point : Point F) (side outside : Bool)
        → contains_point polygon point ≡ true
        → (outside ≡ true → All (λ p. lt point.lon p.lon ≡ side) polygon.points)
        → outside ≡ false
    within_box polygon point side false h all_on = refl
    within_box polygon point side true h all_on =
        sym h ∙ one_side-contains_point polygon point side (all_on refl)

    -- For ordered floats every corner of a polygon lies in its bounds, whether the polygon contains a point or not;
    -- and a point that the polygon contains is neither left nor right of them.
    pub contains_point-bounds :
        (polygon : Polygon F)
        → All (LiesIn (bounds polygon)) polygon.points
          × ((point : Point F)
              → contains_point polygon point ≡ true
              → (lt point.lon (bounds polygon).0.lon ≡ false)
                × (lt (bounds polygon).1.lon point.lon ≡ false))
    contains_point-bounds polygon = (
      bounds-LiesIn polygon,
      λ point h. (
        within_box polygon point true _ h (left_of_all polygon point),
        within_box polygon point false _ h (right_of_all polygon point),
      ),
    )
