-- ===== src/Cache/Elements.antt =====
-- internal/infrastructure/cache/lru.go: the elements of the list, found by their keys.
use route_analysis_service.Prelude.{
  ℕ, suc, String, List, [], ◌∷◌, length, take, eq_ℕ, true, false, ◌==◌, Map, lookup, delete,
  contains, Option, some, All-lookup, Bool-cases, ≡-of_eq, ◌≡◌, refl, sym, ap, ◌∙◌, subst, arith,
  inl, inr,
}
use route_analysis_service.Cache.Lru.{LruEntry, value_at, remove, set_value, back}
use route_analysis_service.Cache.Linked.{
  some_inj, same_ℕ, eq_self, missing_key, IsLinked, delete-missing, length-delete,
}

module _ {V : Type 0} where
  -- What the list says of the keys: their values, the most recently used first, and their elements.
  unfoldable pub entries : List (ℕ × LruEntry V) → Map V
  entries [] = []
  entries ((i, x) ∷ rest) = (x.key, x.value) ∷ entries rest

  unfoldable pub pointers : List (ℕ × LruEntry V) → Map ℕ
  pointers [] = []
  pointers ((i, x) ∷ rest) = (x.key, i) ∷ pointers rest

  pub length-entries : (o : List (ℕ × LruEntry V)) → length (entries o) ≡ length o
  unfolding entries
  length-entries [] = refl
  length-entries (x ∷ o) = ap suc (length-entries o)

  pub length-pointers : (o : List (ℕ × LruEntry V)) → length (pointers o) ≡ length o
  unfolding pointers
  length-pointers [] = refl
  length-pointers (x ∷ o) = ap suc (length-pointers o)

  pub contains-entries :
      (k : String) (o : List (ℕ × LruEntry V)) → contains k (entries o) ≡ contains k (pointers o)
  unfolding entries pointers lookup
  contains-entries k [] = refl
  contains-entries k ((i, x) ∷ o) = ground (arith, contains-entries k o)

  -- The element that a key points to: it holds the key and its value, and removing it removes the key.
  pub record Found (k : String) (e : ℕ) (o : List (ℕ × LruEntry V)) (x : LruEntry V) : Type 0 where
    pub at : value_at e o ≡ some x
    pub key : x.key ≡ k
    pub value : lookup k (entries o) ≡ some x.value
    pub rest : entries (remove e o) ≡ delete k (entries o)
    pub others : pointers (remove e o) ≡ delete k (pointers o)

  pub find_element :
      (k : String) (e : ℕ) (o : List (ℕ × LruEntry V))
      → IsLinked (pointers o)
      → lookup k (pointers o) ≡ some e
      → (x : LruEntry V) × Found k e o x
  unfolding entries pointers lookup value_at remove delete
  find_element k e [] l h = cc
  find_element k e ((i, x) ∷ o) l h = elim (Bool-cases (x.key == k)) [
    | inl same ↦
        let here : eq_ℕ i e ≡ true = same_ℕ i e (some_inj i e (ground (arith, h, same))) in
        let missing =
          subst (λ y. contains y (pointers o) ≡ false) (≡-of_eq x.key k same)
            (missing_key x.key i (pointers o) l.0) in
        (
          x,
          record {
            at = rw here refl;
            key = ≡-of_eq x.key k same;
            value = rw same refl;
            rest =
                rw (here, same)
                  (sym (delete-missing k (entries o) (contains-entries k o ∙ missing)));
            others = rw (here, same) (sym (delete-missing k (pointers o) missing));
          },
        )
    | inr other ↦
        let behind : lookup k (pointers o) ≡ some e = ground (arith, other, h) in
        let (y, f) = find_element k e o l.1 behind in
        let away =
          (All-lookup (λ q. ((x.key == q.0) ≡ false) × (eq_ℕ i q.1 ≡ false)) k (pointers o) {v = e}
            l.0 behind).1 in
        (
          y,
          record {
            at = rw away f.at;
            key = f.key;
            value = rw other f.value;
            rest = rw (away, other, f.rest) refl;
            others = rw (away, other, f.others) refl;
          },
        )
  ]

  abbrev with_value : V → LruEntry V → Option (LruEntry V)
  with_value v x = some (record x { value = v })

  -- Writing the value of an element that is found.
  pub value_at-set_value :
      (e : ℕ) (v : V) (o : List (ℕ × LruEntry V)) (x : LruEntry V)
      → value_at e o ≡ some x
      → value_at e (set_value e v o) ≡ some (record x { value = v })
  unfolding value_at set_value
  value_at-set_value e v [] x h = cc
  value_at-set_value e v ((i, y) ∷ o) x h = elim (Bool-cases (eq_ℕ i e)) [
    | inl here ↦ rw (here, here) (ap (with_value v) (some_inj y x (ground (arith, h, here))))
    | inr away ↦ rw (away, away) (value_at-set_value e v o x (ground (arith, h, away)))
  ]

  pub remove-set_value :
      (e : ℕ) (v : V) (o : List (ℕ × LruEntry V)) → remove e (set_value e v o) ≡ remove e o
  unfolding remove set_value
  remove-set_value e v [] = refl
  remove-set_value e v ((i, y) ∷ o) = ground (arith, remove-set_value e v o)

  -- The element at the back is found by its key, and removing it leaves the others.
  pub back-removed :
      (y : ℕ × LruEntry V) (o : List (ℕ × LruEntry V))
      → IsLinked (pointers (y ∷ o))
      → (i : ℕ) × (x : LruEntry V) × (back (y ∷ o) ≡ some (i, x))
        × (lookup x.key (pointers (y ∷ o)) ≡ some i)
        × (entries (remove i (y ∷ o)) ≡ take (length o) (entries (y ∷ o)))
  unfolding back pointers lookup remove entries take
  back-removed (j, y) [] l = (j, y, refl, rw (eq_self y.key) refl, rw (same_ℕ j j refl) refl)
  back-removed (j, y) (z ∷ o) l =
      let (i, x, last, found, kept) = back-removed z o l.1 in
      let apart =
        All-lookup (λ q. ((y.key == q.0) ≡ false) × (eq_ℕ j q.1 ≡ false)) x.key (pointers (z ∷ o))
          {v = i} l.0 found in
      (i, x, last, rw apart.0 found, rw apart.1 (ap (λ t. (y.key, y.value) ∷ t) kept))

  pub length-remove :
      (k : String) (e : ℕ) (x : LruEntry V) (o : List (ℕ × LruEntry V))
      → IsLinked (pointers o)
      → lookup k (pointers o) ≡ some e
      → Found k e o x
      → suc (length (remove e o)) ≡ length o
  length-remove k e x o l h f = omega (
    arith,
    length-delete k e (pointers o) l h,
    ap length f.others,
    length-pointers (remove e o),
    length-pointers o,
  )
