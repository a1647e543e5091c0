-- ===== src/Cache/Uses.antt =====
-- Histories of calls on the cache of internal/infrastructure/cache/lru.go.
use route_analysis_service.Prelude.{
  ℕ, zero, suc, ◌≤◌, String, List, [], ◌∷◌, true, false, if◌then◌else◌, ℤ, pos, negsuc, pos_part,
  ltb_ℤ, Map, lookup, Option, ◌≡◌, refl, sym, ap, arith,
}
use route_analysis_service.Cache.Lru.{Lru, new_lru, get, put, len}
use route_analysis_service.Prelude.{◌+◌, ltb}
use route_analysis_service.Cache.Elements.{entries, pointers}
use route_analysis_service.Cache.Recency.{recent_get, recent_put, IsLru, get-IsLru, put-IsLru}

-- The room for keys that a cache is asked for, and 64 if that is less than one.
abbrev pub room_for : ℤ → ℕ
room_for capacity = if ltb_ℤ capacity (pos 1) then 64 else pos_part capacity

pub data Use (V : Type 0) : Type 0 where
  read : String → Use V
  write : String → V → Use V

module _ {V : Type 0} where
  -- The cache after the calls, and the answers of the reads.
  unfoldable pub uses : Lru V → List (Use V) → Lru V × List (Option V)
  uses c [] = (c, [])
  uses c (Use.read k ∷ us) =
      let (c', answer) = get c k in let (last, answers) = uses c' us in (last, answer ∷ answers)
  uses c (Use.write k v ∷ us) = uses (put c k v) us

  -- The same calls on a list of keys and values.
  unfoldable pub recent_uses : ℕ → Map V → List (Use V) → Map V × List (Option V)
  recent_uses room m [] = (m, [])
  recent_uses room m (Use.read k ∷ us) =
      let (m', answer) = recent_get m k in
      let (last, answers) = recent_uses room m' us in (last, answer ∷ answers)
  recent_uses room m (Use.write k v ∷ us) = recent_uses room (recent_put room m k v) us

  pub new-IsLru :
      (room : ℕ)
      → IsLru {V = V} room
          (record { capacity = pos (suc room); items = []; list = record { order = []; next = 0 } })
  unfolding lookup pointers
  new-IsLru room = record {
    capacity = refl;
    linked = tt;
    fresh = tt;
    mapped = λ k. refl;
    fits = omega arith;
  }

  new_lru-IsLru :
      (capacity : ℤ)
      → (room : ℕ) × (room_for capacity ≡ suc room)
        × IsLru {V = V} room (new_lru capacity)
        × (entries (new_lru {V = V} capacity).list.order ≡ [])
  unfolding new_lru entries
  new_lru-IsLru (pos zero) = (63, refl, new-IsLru 63, refl)
  new_lru-IsLru (pos (suc n)) =
      let enough : ltb (suc n + 0) 1 ≡ false = ground arith in
      (n, rw enough refl, rw enough (new-IsLru n), refl)
  new_lru-IsLru (negsuc n) =
      let less : ltb 0 (1 + suc n) ≡ true = ground arith in
      (63, rw less refl, rw less (new-IsLru 63), refl)

  uses-Recent :
      (room : ℕ) (c : Lru V) (us : List (Use V))
      → IsLru room c
      → (entries (uses c us).0.list.order ≡ (recent_uses (suc room) (entries c.list.order) us).0)
        × ((uses c us).1 ≡ (recent_uses (suc room) (entries c.list.order) us).1)
        × (len (uses c us).0 ≤ suc room)
  unfolding uses recent_uses len
  uses-Recent room c [] l = (refl, refl, l.fits)
  uses-Recent room c (Use.read k ∷ us) l =
      let (l', view, answer) = get-IsLru room c k l in
      let (after, answers, fits) = uses-Recent room (get c k).0 us l' in
      rw (recent_uses, sym view, sym answer) (after, ap (λ t. (get c k).1 ∷ t) answers, fits)
  uses-Recent room c (Use.write k v ∷ us) l =
      let (l', view) = put-IsLru room c k v l in
      let (after, answers, fits) = uses-Recent room (put c k v) us l' in
      rw (recent_uses, sym view) (after, answers, fits)

  pub uses-IsLru :
      (room : ℕ) (c : Lru V) (us : List (Use V)) → IsLru room c → IsLru room (uses c us).0
  unfolding uses
  uses-IsLru room c [] l = l
  uses-IsLru room c (Use.read k ∷ us) l = uses-IsLru room (get c k).0 us (get-IsLru room c k l).0
  uses-IsLru room c (Use.write k v ∷ us) l =
      uses-IsLru room (put c k v) us (put-IsLru room c k v l).0

  -- After any reads and writes of a new cache, what it holds and what the reads answered is what a list
  -- gives that brings a key to the front with each use and keeps only as many as the capacity asked
  -- for, or 64 if that is less than one; and the cache holds no more entries than that.
  pub uses-new_lru :
      (capacity : ℤ) (us : List (Use V))
      → (entries (uses (new_lru capacity) us).0.list.order
          ≡ (recent_uses (room_for capacity) [] us).0)
        × ((uses (new_lru capacity) us).1 ≡ (recent_uses (room_for capacity) [] us).1)
        × (len (uses (new_lru {V = V} capacity) us).0 ≤ room_for capacity)
  uses-new_lru capacity us =
      let (room, size, l, empty) = new_lru-IsLru capacity in
      rw (size, sym empty) (uses-Recent room (new_lru capacity) us l)
