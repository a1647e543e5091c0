-- ===== src/Tests/Recent.antt =====
-- Calls on the cache of internal/infrastructure/cache/lru.go.
use route_analysis_service.Prelude.{
  ℕ, List, [], ◌∷◌, pos, some, none, lookup, insert, delete, ◌≡◌, refl, ◌≤◌,
}
use route_analysis_service.Cache.Lru.{
  new_lru, get, get_at, put, put_at, evict, value_of, move_to_front, value_at, front, len,
}
use route_analysis_service.Cache.Elements.{entries}
use route_analysis_service.Cache.Uses.{Use, uses, recent_uses, room_for, uses-new_lru}

-- With room for two keys, the read of "a" makes the write of "c" forget "b".
abbrev history : List (Use ℕ)
history =
    Use.write "a" 1
    ∷ Use.write "b" 2
    ∷ Use.read "a"
    ∷ Use.write "c" 3
    ∷ Use.read "b"
    ∷ Use.read "a"
    ∷ []

answered : (uses (new_lru (pos 2)) history).1 ≡ some 1 ∷ none ∷ some 1 ∷ []
unfolding uses get get_at lookup put put_at new_lru evict insert value_of move_to_front value_at
    front delete
answered = refl

uses-new_lru_example :
    (entries (uses (new_lru (pos 2)) history).0.list.order
      ≡ (recent_uses (room_for (pos 2)) [] history).0)
    × ((uses (new_lru (pos 2)) history).1 ≡ (recent_uses (room_for (pos 2)) [] history).1)
    × (len (uses (new_lru (pos 2)) history).0 ≤ room_for (pos 2))
uses-new_lru_example = uses-new_lru (pos 2) history
