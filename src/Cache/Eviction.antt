-- ===== src/Cache/Eviction.antt =====
-- internal/infrastructure/cache/lru.go: the loop that evicts, after one more element came to the front.
use route_analysis_service.Prelude.{
  ℕ, zero, suc, ◌≤◌, ◌<◌, String, List, ◌∷◌, length, take, pos, Map, lookup, delete, lookup-delete,
  some, All, All-delete, leb, leb→le, Bool-cases, ◌≡◌, refl, sym, ◌∙◌, subst, arith, inl, inr,
}
use route_analysis_service.Cache.Lru.{LruEntry, remove, back, evict}
use route_analysis_service.Cache.Linked.{IsLinked, take-all, delete-IsLinked}
use route_analysis_service.Cache.Elements.{
  entries, pointers, length-entries, find_element, back-removed, length-remove,
}

module _ {V : Type 0} where
  evict_fits :
      (fuel room : ℕ) (items : Map ℕ) (o : List (ℕ × LruEntry V))
      → length o ≤ room
      → evict fuel (pos room) (items, o) ≡ (items, o)
  unfolding evict
  evict_fits zero room items o h = refl
  evict_fits (suc fuel) room items o h = ground (arith, h)

  evict_one :
      (fuel room : ℕ) (items : Map ℕ) (o : List (ℕ × LruEntry V)) (i : ℕ) (x : LruEntry V)
      → room < length o
      → length (remove i o) ≤ room
      → back o ≡ some (i, x)
      → evict (suc fuel) (pos room) (items, o) ≡ (delete x.key items, remove i o)
  unfolding evict
  evict_one fuel room items o i x over h last =
      ground (arith, over, last) ∙ evict_fits fuel room (delete x.key items) (remove i o) h

  -- A map and a list that the loop leaves of those with one more element.
  pub record Kept (room next : ℕ) (before : Map ℕ) (o : List (ℕ × LruEntry V)) (items : Map ℕ)
      (order : List (ℕ × LruEntry V)) : Type 0 where
    pub result : evict (length o) (pos (suc room)) (before, o) ≡ (items, order)
    pub linked : IsLinked (pointers order)
    pub fresh : All (λ q. q.1 < next) (pointers order)
    pub mapped : (k : String) → lookup k items ≡ lookup k (pointers order)
    pub fits : length order ≤ suc room
    pub view : entries order ≡ take (suc room) (entries o)

  pub keep :
      (room next : ℕ) (m : Map ℕ) (y : ℕ × LruEntry V) (o : List (ℕ × LruEntry V))
      → IsLinked (pointers (y ∷ o))
      → All (λ q. q.1 < next) (pointers (y ∷ o))
      → ((k : String) → lookup k m ≡ lookup k (pointers (y ∷ o)))
      → length o ≤ suc room
      → (items : Map ℕ) × (order : List (ℕ × LruEntry V)) × Kept room next m (y ∷ o) items order
  keep room next m y o linked fresh mapped fits =
      elim (Bool-cases (leb (length (y ∷ o)) (suc room))) [
        | inl below ↦
            let room_left = leb→le (length (y ∷ o)) (suc room) below in
            (
              m,
              y ∷ o,
              record {
                result = evict_fits (length (y ∷ o)) (suc room) m (y ∷ o) room_left;
                linked = linked;
                fresh = fresh;
                mapped = mapped;
                fits = room_left;
                view = sym (
                    take-all (suc room) (entries (y ∷ o))
                      (omega (arith, room_left, length-entries (y ∷ o))));
              },
            )
        | inr above ↦
            let (i, x, last, found, kept) = back-removed y o linked in
            let (x', f) = find_element x.key i (y ∷ o) linked found in
            let full : length o ≡ suc room = ground (arith, above, fits) in
            let less = length-remove x.key i x' (y ∷ o) linked found f in
            (
              delete x.key m,
              remove i (y ∷ o),
              record {
                result =
                    evict_one (length o) (suc room) m (y ∷ o) i x (omega (arith, full))
                      (omega (arith, full, less)) last;
                linked = rw f.others (delete-IsLinked x.key (pointers (y ∷ o)) linked);
                fresh = rw f.others (All-delete (λ q. q.1 < next) x.key (pointers (y ∷ o)) fresh);
                mapped = λ k.
                    rw
                      (
                        f.others,
                        lookup-delete x.key k m,
                        lookup-delete x.key k (pointers (y ∷ o)),
                        mapped k,
                      )
                      refl;
                fits = omega (arith, full, less);
                view = subst (λ n. entries (remove i (y ∷ o)) ≡ take n (entries (y ∷ o))) full kept;
              },
            )
      ]
