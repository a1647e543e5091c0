-- ===== src/Geocode/Polygon.antt =====
-- internal/domain/geocode/polygon.go.
use route_analysis_service.Prelude.{
  ltb, List, [], ◌∷◌, length, Bool, true, false, not, if◌then◌else◌, pos, ◌≡◌,
}
use route_analysis_service.Model.Float.{Float64}
use route_analysis_service.Model.Types.{Point}
use route_analysis_service.Model.Error.{Result, ok, err, message}

pub record Polygon (F : Type 0) : Type 0 where
  pub points : List (Point F)

unfoldable pub new_polygon : {F : Type 0} → List (Point F) → Result (Polygon F)
new_polygon points =
    if ltb (length points) 3
    then err (message "polygon requires at least 3 points")
    else ok (record { points = points })

-- `a != b` on tests.
abbrev pub differ : Bool → Bool → Bool
differ true b = not b
differ false b = b

-- The last of the points, after one that stands before them.
unfoldable pub last_of : {F : Type 0} → Point F → List (Point F) → Point F
last_of p [] = p
last_of p (q ∷ qs) = last_of q qs

module _ {F : Type 0} ⦃fl : Float64 F⦄ where
  open fl use {decimal, add, sub, mul, div, lt}

  unfoldable pub widen : Point F × Point F → Point F → Point F × Point F
  widen (least, most) p = (
    record {
      lat = if lt p.lat least.lat then p.lat else least.lat;
      lon = if lt p.lon least.lon then p.lon else least.lon;
    },
    record {
      lat = if lt most.lat p.lat then p.lat else most.lat;
      lon = if lt most.lon p.lon then p.lon else most.lon;
    },
  )

  unfoldable pub widen_all : Point F × Point F → List (Point F) → Point F × Point F
  unfolding widen
  widen_all box [] = box
  widen_all box (p ∷ ps) = widen_all (widen box p) ps

  unfoldable pub bounds : Polygon F → Point F × Point F
  unfolding widen_all
  bounds polygon = elim polygon.points [
    | [] ↦
        let zero_point : Point F = record { lat = decimal (pos 0) 0; lon = decimal (pos 0) 0 } in
        (zero_point, zero_point)
    | p ∷ ps ↦ widen_all (p, p) ps
  ]

  abbrev pub crossing : Point F → Point F → Point F → F
  crossing point pi pj =
      add (div (mul (sub pj.lat pi.lat) (sub point.lon pi.lon)) (sub pj.lon pi.lon)) pi.lat

  -- Whether the ray from the point crosses the edge from `pj` to `pi`.
  unfoldable pub crosses : Point F → Point F → Point F → Bool
  crosses point pi pj =
      if differ (lt point.lon pi.lon) (lt point.lon pj.lon)
      then lt point.lat (crossing point pi pj)
      else false

  unfoldable pub ray_loop : Point F → Bool → Point F → List (Point F) → Bool
  unfolding crosses
  ray_loop point inside pj [] = inside
  ray_loop point inside pj (pi ∷ ps) =
      ray_loop point (if crosses point pi pj then not inside else inside) pi ps

  unfoldable pub contains_point : Polygon F → Point F → Bool
  unfolding ray_loop last_of
  contains_point polygon point = elim polygon.points [
    | [] ↦ false
    | p ∷ ps ↦ ray_loop point false (last_of p ps) (p ∷ ps)
  ]

  -- The point lies in the box, borders included.
  abbrev pub LiesIn : Point F × Point F → Point F → Type 0
  LiesIn (least, most) p =
      (lt p.lat least.lat ≡ false)
      × (lt p.lon least.lon ≡ false)
      × (lt most.lat p.lat ≡ false)
      × (lt most.lon p.lon ≡ false)
