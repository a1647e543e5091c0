-- ===== src/Tests/Polygons.antt =====
-- A square of internal/domain/geocode/polygon.go, and a point in it.
use route_analysis_service.Prelude.{ℕ, [], ◌∷◌, All, true, false, ◌≡◌, refl}
use route_analysis_service.Model.Float.{small_float, small_float-IsOrdered}
use route_analysis_service.Model.Types.{Point}
use route_analysis_service.Geocode.Polygon.{Polygon, bounds, contains_point, LiesIn}
use route_analysis_service.Geocode.Box.{contains_point-bounds}

abbrev square : Polygon ℕ
square = record {
  points =
      record { lat = 0; lon = 0 }
      ∷ record { lat = 0; lon = 4 }
      ∷ record { lat = 4; lon = 4 }
      ∷ record { lat = 4; lon = 0 }
      ∷ [];
}

abbrev inner : Point ℕ
inner = record { lat = 1; lon = 2 }

contains_point-bounds_example :
    All (LiesIn (bounds square)) square.points
    × ((point : Point ℕ)
        → contains_point square point ≡ true
        → (small_float.lt point.lon (bounds square).0.lon ≡ false)
          × (small_float.lt (bounds square).1.lon point.lon ≡ false))
contains_point-bounds_example = contains_point-bounds small_float-IsOrdered square

-- The polygon contains a point that the theorem then speaks of.
inside : contains_point square inner ≡ true
unfolding contains_point
inside = refl

-- A point on the border, which the comment of `Contains` calls outside.
border : contains_point square (record { lat = 0; lon = 2 }) ≡ true
unfolding contains_point
border = refl
