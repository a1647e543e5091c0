-- ===== src/Cache/Recency.antt =====
-- internal/infrastructure/cache/lru.go against a list of keys and values, the one used last first.
use route_analysis_service.Prelude.{
  ℕ, suc, ◌≤◌, ◌<◌, String, List, ◌∷◌, length, take, if◌then◌else◌, ◌==◌, pos, Map, lookup, insert,
  delete, lookup-insert, lookup-delete, Option, none, some, All, All-lookup, All-delete, All-map,
  Bool-cases, Option-cases, ≡-of_eq, ◌≡◌, refl, sym, ap, ◌∙◌, subst, arith, inl, inr,
}
use route_analysis_service.Cache.Lru.{
  LruEntry, Lru, remove, move_to_front, get, get_at, value_of, front, put, put_at,
}
use route_analysis_service.Cache.Linked.{
  IsLinked, take-all, new-IsLinked, delete-IsLinked, front-Apart, delete-missing,
}
use route_analysis_service.Cache.Elements.{
  entries, pointers, length-entries, contains-entries, Found, find_element, value_at-set_value,
  remove-set_value, length-remove,
}
use route_analysis_service.Cache.Eviction.{keep}

found_again :
    (k j : String) (e : ℕ) (m : Map ℕ)
    → lookup k m ≡ some e
    → lookup j m ≡ (if k == j then some e else if k == j then none else lookup j m)
found_again k j e m h = elim (Bool-cases (k == j)) [
  | inl same ↦ rw same (subst (λ i. lookup i m ≡ some e) (≡-of_eq k j same) h)
  | inr other ↦ rw other refl
]

module _ {V : Type 0} where
  unfoldable pub recent_get_at : Map V → String → Option V → Map V × Option V
  recent_get_at m k none = (m, none)
  recent_get_at m k (some v) = ((k, v) ∷ delete k m, some v)

  -- What a caller may know of the cache: a use of a key brings it to the front, and only the first
  -- `room` keys stay.
  unfoldable pub recent_get : Map V → String → Map V × Option V
  unfolding recent_get_at
  recent_get m k = recent_get_at m k (lookup k m)

  unfoldable pub recent_put : ℕ → Map V → String → V → Map V
  recent_put room m k v = take room ((k, v) ∷ delete k m)

  -- The map of the cache agrees with its list, which fits.
  pub record IsLru (room : ℕ) (c : Lru V) : Type 0 where
    pub capacity : c.capacity ≡ pos (suc room)
    pub linked : IsLinked (pointers c.list.order)
    pub fresh : All (λ q. q.1 < c.list.next) (pointers c.list.order)
    pub mapped : (k : String) → lookup k c.items ≡ lookup k (pointers c.list.order)
    pub fits : length c.list.order ≤ suc room

  unknown :
      (k : String) (o : List (ℕ × LruEntry V))
      → lookup k (pointers o) ≡ none
      → lookup k (entries o) ≡ none
  unknown k o h = ground (arith, contains-entries k o, h)

  -- The element of a key moves to the front, with this value.
  used :
      (room : ℕ) (c : Lru V) (k : String) (e : ℕ) (x y : LruEntry V)
      → IsLru room c
      → lookup k (pointers c.list.order) ≡ some e
      → Found k e c.list.order x
      → y.key ≡ k
      → IsLru room (record c { list = record c.list { order = (e, y) ∷ remove e c.list.order } })
  unfolding pointers lookup
  used room c k e x y l h f q = record {
    capacity = l.capacity;
    linked = rw (q, f.others) (front-Apart k e _ l.linked h, delete-IsLinked k _ l.linked);
    fresh = rw f.others (
      All-lookup (λ p. p.1 < c.list.next) k _ {v = e} l.fresh h,
      All-delete (λ p. p.1 < c.list.next) k _ l.fresh,
    );
    mapped = λ j.
        l.mapped j
        ∙ rw (q, f.others, lookup-delete k j (pointers c.list.order)) (found_again k j e _ h);
    fits = omega (arith, l.fits, length-remove k e x c.list.order l.linked h f);
  }

  pub get-IsLru :
      (room : ℕ) (c : Lru V) (k : String)
      → IsLru room c
      → IsLru room (get c k).0
        × (entries (get c k).0.list.order ≡ (recent_get (entries c.list.order) k).0)
        × ((get c k).1 ≡ (recent_get (entries c.list.order) k).1)
  unfolding get get_at recent_get recent_get_at move_to_front front value_of entries
  get-IsLru room c k l = elim (Option-cases (lookup k c.items)) [
    | inl missing ↦
        rw (missing, unknown k c.list.order (sym (l.mapped k) ∙ missing)) (l, refl, refl)
    | inr (e, known) ↦
        let pointed = sym (l.mapped k) ∙ known in
        let (x, f) = find_element k e c.list.order l.linked pointed in
        rw (known, get_at, f.at, f.value)
          (used room c k e x x l pointed f f.key, rw (f.key, f.rest) refl, refl)
  ]

  put-known :
      (room : ℕ) (c : Lru V) (k : String) (v : V) (e : ℕ)
      → IsLru room c
      → lookup k c.items ≡ some e
      → IsLru room (put c k v)
        × (entries (put c k v).list.order ≡ recent_put (suc room) (entries c.list.order) k v)
  unfolding put put_at recent_put move_to_front front entries
  put-known room c k v e l known =
      let pointed = sym (l.mapped k) ∙ known in
      let (x, f) = find_element k e c.list.order l.linked pointed in
      rw
        (
          known,
          put_at,
          value_at-set_value e v c.list.order x f.at,
          remove-set_value e v c.list.order,
        )
        (
          used room c k e x (record x { value = v }) l pointed f f.key,
          rw (f.key, f.rest)
              (sym (
                take-all (suc room) ((k, v) ∷ delete k (entries c.list.order)) (
                  omega (
                    arith,
                    l.fits,
                    length-remove k e x c.list.order l.linked pointed f,
                    ap length f.rest,
                    length-entries (remove e c.list.order),
                  )))),
        )

  put-new :
      (room : ℕ) (c : Lru V) (k : String) (v : V)
      → IsLru room c
      → lookup k c.items ≡ none
      → IsLru room (put c k v)
        × (entries (put c k v).list.order ≡ recent_put (suc room) (entries c.list.order) k v)
  unfolding put put_at recent_put entries pointers lookup
  put-new room c k v l missing =
      let unknown_key : lookup k (pointers c.list.order) ≡ none = sym (l.mapped k) ∙ missing in
      let (items, order, kept) =
        keep room (suc c.list.next) (insert k c.list.next c.items)
          (c.list.next, record { key = k; value = v }) c.list.order
          (new-IsLinked k c.list.next (pointers c.list.order) (ground (arith, unknown_key)) l.fresh
            l.linked)
          (
            omega arith,
            All-map (λ q. q.1 < c.list.next) (λ q lt. omega (arith, lt)) (pointers c.list.order)
                l.fresh,
          )
          (λ j. lookup-insert k j c.list.next c.items ∙ rw (l.mapped j) refl) l.fits in
      rw (missing, put_at, l.capacity, kept.result)
        (
          record {
            capacity = refl;
            linked = kept.linked;
            fresh = kept.fresh;
            mapped = kept.mapped;
            fits = kept.fits;
          },
          rw
              (delete-missing k (entries c.list.order)
                (contains-entries k c.list.order ∙ ground (arith, unknown_key)))
              kept.view,
        )

  pub put-IsLru :
      (room : ℕ) (c : Lru V) (k : String) (v : V)
      → IsLru room c
      → IsLru room (put c k v)
        × (entries (put c k v).list.order ≡ recent_put (suc room) (entries c.list.order) k v)
  put-IsLru room c k v l = elim (Option-cases (lookup k c.items)) [
    | inl missing ↦ put-new room c k v l missing
    | inr (e, known) ↦ put-known room c k v e l known
  ]
