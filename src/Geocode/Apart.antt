-- ===== src/Geocode/Apart.antt =====
-- The seeds of internal/domain/geocode/cluster.go take all that is near them.
use route_analysis_service.Prelude.{
  String, List, [], ◌∷◌, Bool, true, false, ◌==◌, Map, flag, any, All, ◌≡◌,
}
use route_analysis_service.Model.Float.{Float64}
use route_analysis_service.Model.Types.{Point}
use route_analysis_service.Geocode.Cluster.{Cluster, Gathered, is_near}

module _ {F : Type 0} ⦃fl : Float64 F⦄ (nodes : Map (Point F)) (radius : F) where
  -- No node of the second list is within the radius of the first node of the first.
  abbrev pub LeavesOut : List String → List String → Type 0
  LeavesOut [] ids = Unit
  LeavesOut (seed ∷ others) ids = All (λ x. is_near nodes radius seed x ≡ false) ids

  -- Every cluster leaves out all nodes of those that come after it.
  abbrev pub IsApart : List (Cluster F) → Type 0
  IsApart [] = Unit
  IsApart (c ∷ cs) = All (λ (d : Cluster F). LeavesOut c.nodes d.nodes) cs × IsApart cs

  module _ (seed : String) where
    -- What is gathered remained before, and follows the seed.
    record Gathers (before : Map Bool) (g : Gathered F) : Type 0 where
      came : All (λ x. flag x before ≡ true) g.nodes
      stayed : (x : String) → flag x g.remaining ≡ true → flag x before ≡ true
      starts : (others : List String) × (g.nodes ≡ seed ∷ others)

  -- Between two visits: what remains is to be clustered, and is left out by all clusters.
  record Spread (ids : List String) (acc : Map Bool × List (Cluster F)) : Type 0 where
    apart : IsApart acc.1
    known : (x : String) → flag x acc.0 ≡ true → any (λ i. i == x) ids ≡ true
    far :
        All
          (λ (c : Cluster F). (x : String) → flag x acc.0 ≡ true → LeavesOut c.nodes (x ∷ []))
          acc.1
