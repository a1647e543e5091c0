-- ===== src/Network/Labels.antt =====
-- Labels of nodes, and ways over neighbours, as in internal/domain/network/connectivity.go.
use route_analysis_service.Prelude.{
  ℕ, ◌+◌, ◌<◌, ◌≤◌, String, List, [], ◌∷◌, length, true, false, ◌==◌, Map, lookup, insert, contains,
  lookup-insert, contains-insert, if◌then◌else◌, some, Elem, inl, inr, ◌⊎◌, ◌≡◌, subst, arith,
  Bool-cases, ≡-of_eq,
}
use text.Mathlib.TextEquality.{eq_iff}

pub some_inj : (a b : ℕ) → some a ≡ some b → a ≡ b
some_inj a b h = cc

-- A way over neighbours.
pub data Way (neighbours : String → List String) (a : String) : String → Type 0 where
  stay : Way neighbours a a
  go : {b : String} (c : String) → Way neighbours a b → Elem c (neighbours b) → Way neighbours a c

-- The node has the label.
abbrev pub Labelled : ℕ → Map ℕ → String → Type 0
Labelled k labels n = lookup n labels ≡ some k

-- How many of the nodes have no label.
unfoldable pub unlabelled : List String → Map ℕ → ℕ
unlabelled [] labels = 0
unlabelled (n ∷ ns) labels = (if contains n labels then 0 else 1) + unlabelled ns labels

unlabelled-insert_le :
    (ns : List String) (n : String) (k : ℕ) (labels : Map ℕ)
    → unlabelled ns (insert n k labels) ≤ unlabelled ns labels
unfolding unlabelled
unlabelled-insert_le [] n k labels = omega arith
unlabelled-insert_le (m ∷ ns) n k labels =
    ground (arith, contains-insert n m k labels, unlabelled-insert_le ns n k labels)

-- A new label for one of the nodes leaves fewer without.
pub unlabelled-insert_lt :
    (ns : List String) (n : String) (k : ℕ) (labels : Map ℕ)
    → Elem n ns
    → contains n labels ≡ false
    → unlabelled ns (insert n k labels) < unlabelled ns labels
unfolding unlabelled
unlabelled-insert_lt (m ∷ ns) n k labels (inl e) h =
    let here : contains m labels ≡ false = subst (λ x. contains x labels ≡ false) e h in
    let now : contains m (insert n k labels) ≡ true =
      ground (arith, contains-insert n m k labels, eq_iff n m, e) in
    ground (arith, here, now, unlabelled-insert_le ns n k labels)
unlabelled-insert_lt (m ∷ ns) n k labels (inr i) h =
    ground (arith, contains-insert n m k labels, unlabelled-insert_lt ns n k labels i h)
unlabelled-insert_lt [] n k labels i h = absurd i

-- Labels after one more.
pub insert-Labelled :
    (n a : String) (k j : ℕ) (labels : Map ℕ)
    → contains n labels ≡ false
    → Labelled j labels a
    → Labelled j (insert n k labels) a
insert-Labelled n a k j labels new h = elim (Bool-cases (n == a)) [
  | inl same ↦
      let missing : contains a labels ≡ false =
        subst (λ x. contains x labels ≡ false) (≡-of_eq n a same) new in
      ground (arith, missing, h)
  | inr other ↦ ground (arith, lookup-insert n a k labels, other, h)
]

pub inserted-Labelled :
    (n a : String) (k j : ℕ) (labels : Map ℕ)
    → Labelled j (insert n k labels) a
    → ((n ≡ a) × (k ≡ j)) ⊎ Labelled j labels a
inserted-Labelled n a k j labels h = elim (Bool-cases (n == a)) [
  | inl same ↦
      inl (≡-of_eq n a same, some_inj k j (ground (arith, lookup-insert n a k labels, same, h)))
  | inr other ↦ inr (ground (arith, lookup-insert n a k labels, other, h))
]

pub unlabelled-le-length : (ns : List String) (labels : Map ℕ) → unlabelled ns labels ≤ length ns
unfolding unlabelled
unlabelled-le-length [] labels = omega arith
unlabelled-le-length (n ∷ ns) labels = ground (arith, unlabelled-le-length ns labels)
