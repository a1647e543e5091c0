-- ===== src/Geocode/Partition.antt =====
-- The clusters of internal/domain/geocode/cluster.go share out the nodes.
use route_analysis_service.Prelude.{
  ◌+◌, String, List, [], ◌∷◌, ◌++◌, Bool, true, false, ◌||◌, ◌==◌, if◌then◌else◌, Map, insert, flag,
  lookup-insert, flag-insert, any, occurs, one_if, All, ◌≡◌, refl, arith,
}
use route_analysis_service.Model.Float.{Float64}
use route_analysis_service.Model.Types.{Point}
use route_analysis_service.Geocode.Cluster.{Cluster, Gathered, set_all, is_near}

pub flag-unset :
    (k j : String) (m : Map Bool) → flag j (insert k false m) ≡ (if k == j then false else flag j m)
flag-unset k j m = ground (arith, lookup-insert k j false m)

pub flag-set_all :
    (x : String) (ids : List String) (m : Map Bool)
    → flag x (set_all ids m) ≡ (any (λ i. i == x) ids || flag x m)
unfolding set_all any
flag-set_all x [] m = refl
flag-set_all x (i ∷ ids) m = ground (arith, flag-set_all x ids (insert i true m), flag-insert i x m)

-- All nodes of some clusters.
unfoldable pub members : {F : Type 0} → List (Cluster F) → List String
members [] = []
members (c ∷ cs) = c.nodes ++ members cs

module _ {F : Type 0} ⦃fl : Float64 F⦄ (nodes : Map (Point F)) (radius : F) where
  -- The first node of the cluster is the seed, and the others are within the radius of it.
  abbrev pub StartsAt : String → List String → Type 0
  StartsAt seed ids =
      (others : List String) × (ids ≡ seed ∷ others)
      × All (λ c. is_near nodes radius seed c ≡ true) others

  module _ (seed : String) where
    -- What a gathering keeps: every node that leaves `remaining` joins the cluster, and the seed stays.
    record Keeps (g h : Gathered F) : Type 0 where
      moved :
          (x : String)
          → occurs x h.nodes + one_if (flag x h.remaining)
            ≡ occurs x g.nodes + one_if (flag x g.remaining)
      fewer : (x : String) → flag x g.remaining ≡ false → flag x h.remaining ≡ false
      seed_stays : flag seed h.remaining ≡ flag seed g.remaining
      around : StartsAt seed g.nodes → StartsAt seed h.nodes

  -- What the loop over the seeds keeps.
  record Shares (before after : Map Bool × List (Cluster F)) : Type 0 where
    moved :
        (x : String)
        → occurs x (members after.1) + one_if (flag x after.0)
          ≡ occurs x (members before.1) + one_if (flag x before.0)
    fewer : (x : String) → flag x before.0 ≡ false → flag x after.0 ≡ false
    around :
        All (λ (c : Cluster F). (seed : String) × StartsAt seed c.nodes) before.1
        → All (λ (c : Cluster F). (seed : String) × StartsAt seed c.nodes) after.1
