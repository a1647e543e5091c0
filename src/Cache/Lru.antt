-- ===== src/Cache/Lru.antt =====
-- internal/infrastructure/cache/lru.go: a cache that evicts the key used least recently. The doubly
-- linked list of `container/list` is the list of its elements, front first; an element is a pointer,
-- here a number that no other element has, and the map of the cache points to elements.
use route_analysis_service.Prelude.{
  ℕ, zero, suc, String, List, [], ◌∷◌, length, eq_ℕ, true, false, if◌then◌else◌, ℤ, pos, ltb_ℤ, Map,
  lookup, insert, delete, Option, none, some,
}

pub record LruEntry (V : Type 0) : Type 0 where
  pub key : String
  pub value : V

-- The elements of the list, and the number of the next one.
pub record Elements (V : Type 0) : Type 0 where
  pub order : List (ℕ × LruEntry V)
  pub next : ℕ

pub record Lru (V : Type 0) : Type 0 where
  pub capacity : ℤ
  pub items : Map ℕ
  pub list : Elements V

module _ {V : Type 0} where
  -- `element.Value`, for an element of the list.
  unfoldable pub value_at : ℕ → List (ℕ × LruEntry V) → Option (LruEntry V)
  value_at e [] = none
  value_at e ((i, x) ∷ rest) = if eq_ℕ i e then some x else value_at e rest

  unfoldable pub remove : ℕ → List (ℕ × LruEntry V) → List (ℕ × LruEntry V)
  remove e [] = []
  remove e ((i, x) ∷ rest) = if eq_ℕ i e then rest else (i, x) ∷ remove e rest

  -- `MoveToFront` does nothing to an element that is not of the list.
  unfoldable pub front : ℕ → Option (LruEntry V) → List (ℕ × LruEntry V) → List (ℕ × LruEntry V)
  front e none order = order
  front e (some x) order = (e, x) ∷ remove e order

  unfoldable pub move_to_front : ℕ → List (ℕ × LruEntry V) → List (ℕ × LruEntry V)
  move_to_front e order = front e (value_at e order) order

  unfoldable pub set_value : ℕ → V → List (ℕ × LruEntry V) → List (ℕ × LruEntry V)
  set_value e v [] = []
  set_value e v ((i, x) ∷ rest) =
      if eq_ℕ i e then (i, record x { value = v }) ∷ rest else (i, x) ∷ set_value e v rest

  -- `Back`, which is nil for an empty list.
  unfoldable pub back : List (ℕ × LruEntry V) → Option (ℕ × LruEntry V)
  back [] = none
  back (x ∷ []) = some x
  back (x ∷ y ∷ rest) = back (y ∷ rest)

  unfoldable pub new_lru : ℤ → Lru V
  new_lru capacity = record {
    capacity = if ltb_ℤ capacity (pos 1) then pos 64 else capacity;
    items = [];
    list = record { order = []; next = 0 };
  }

  -- `element.Value.(*lruEntry).value`, where an element is found.
  unfoldable pub value_of : Option (LruEntry V) → Option V
  value_of none = none
  value_of (some x) = some x.value

  -- Under the map's answer for the key.
  unfoldable pub get_at : Lru V → Option ℕ → Lru V × Option V
  get_at c none = (c, none)
  get_at c (some e) = (
    record c { list = record c.list { order = move_to_front e c.list.order } },
    value_of (value_at e c.list.order),
  )

  unfoldable pub get : Lru V → String → Lru V × Option V
  get c key = get_at c (lookup key c.items)

  -- The loop that evicts, on fuel.
  unfoldable pub evict : ℕ → ℤ → Map ℕ × List (ℕ × LruEntry V) → Map ℕ × List (ℕ × LruEntry V)
  unfolding back remove
  evict zero capacity acc = acc
  evict (suc fuel) capacity (items, order) = elim (ltb_ℤ capacity (pos (length order))) [
    | false ↦ (items, order)
    | true ↦ elim (back order) [
      | none ↦ (items, order)
      | some (oldest, x) ↦ evict fuel capacity (delete x.key items, remove oldest order)
    ]
  ]

  unfoldable pub put_at : Lru V → String → V → Option ℕ → Lru V
  put_at c key value (some e) = record c {
    list = record c.list { order = move_to_front e (set_value e value c.list.order) };
  }
  put_at c key value none =
      let order = (c.list.next, record { key = key; value = value }) ∷ c.list.order in
      let (items, kept) = evict (length order) c.capacity (insert key c.list.next c.items, order) in
      record c { items = items; list = record { order = kept; next = suc c.list.next } }

  unfoldable pub put : Lru V → String → V → Lru V
  put c key value = put_at c key value (lookup key c.items)

  unfoldable pub len : Lru V → ℕ
  len c = length c.list.order
