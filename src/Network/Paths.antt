-- ===== src/Network/Paths.antt =====
-- internal/domain/network/path.go: paths, the set of the paths seen, and the ranking of routes.
use route_analysis_service.Prelude.{
  ℕ, String, str_append, List, [], ◌∷◌, ◌++◌, length, take, reverse, any, Bool, true, false, not,
  ◌||◌, ◌==◌, if◌then◌else◌, ℤ, pos, ltb_ℤ, Map, lookup, insert, flag, flag-insert, stable_sort,
  stable_sort-perm, stable_sort-IsSorted, StrictWeak, IsSorted, ◌⊎◌, inl, inr, ◌≡◌, refl, sym,
  subst, arith, Bool-cases, pos_part, negsuc, take-rest, length-take, ap,
}
use text.Mathlib.TextEquality.{eq_iff}
use mathlib.Core.List.{Permᴰ, append-nil}
use route_analysis_service.Model.Float.{Float64, IsOrdered}
use route_analysis_service.Model.Types.{RouteResult}
use route_analysis_service.Model.Error.{Result, ok, err, message}

-- `Path`
pub record EdgePath : Type 0 where
  pub edges : List String

unfoldable pub reverse_path : EdgePath → EdgePath
reverse_path p = record { edges = reverse p.edges }

unfoldable pub path_len : EdgePath → ℕ
path_len p = length p.edges

unfoldable pub check_ids : List String → Result (Unit {0})
check_ids [] = ok tt
check_ids (id ∷ ids) =
    if id == "" then err (message "path contains empty edge id") else check_ids ids

unfoldable pub validate_path : EdgePath → Result (Unit {0})
unfolding check_ids
validate_path p = check_ids p.edges

unfoldable pub signature_loop : String → List String → String
signature_loop out [] = out
signature_loop out (id ∷ ids) = signature_loop (str_append out (str_append id "/")) ids

unfoldable pub path_signature : EdgePath → String
unfolding signature_loop
path_signature p = signature_loop "" p.edges

pub record PathSet : Type 0 where
  pub seen : Map Bool

unfoldable pub new_path_set : PathSet
new_path_set = record { seen = [] }

unfoldable pub add_path : PathSet → EdgePath → PathSet × Bool
add_path s p =
    let key = path_signature p in
    if flag key s.seen then (s, false) else (record { seen = insert key true s.seen }, true)

-- The set after some paths, whether it took them or not.
unfoldable pub add_paths : PathSet → List EdgePath → PathSet
add_paths s [] = s
add_paths s (p ∷ ps) = add_paths (add_path s p).0 ps

abbrev pub same_signature : EdgePath → EdgePath → Bool
same_signature p q = path_signature p == path_signature q

add_path-flag :
    (s : PathSet) (p q : EdgePath)
    → flag (path_signature q) (add_path s p).0.seen
      ≡ (same_signature p q || flag (path_signature q) s.seen)
unfolding add_path
add_path-flag s p q = elim (Bool-cases (flag (path_signature p) s.seen)) [
  | inl old ↦ ground (arith, old, eq_iff (path_signature p) (path_signature q))
  | inr new ↦ ground (arith, new, flag-insert (path_signature p) (path_signature q) s.seen)
]

add_paths-flag :
    (s : PathSet) (ps : List EdgePath) (q : EdgePath)
    → flag (path_signature q) (add_paths s ps).seen
      ≡ (any (λ p. same_signature p q) ps || flag (path_signature q) s.seen)
unfolding add_paths any
add_paths-flag s [] q = refl
add_paths-flag s (p ∷ ps) q =
    ground (arith, add_paths-flag (add_path s p).0 ps q, add_path-flag s p q)

-- After any paths were offered to a new set, it takes a path exactly if none of them has the path's
-- signature.
add_path-any :
    (ps : List EdgePath) (q : EdgePath)
    → (add_path (add_paths new_path_set ps) q).1 ≡ not (any (λ p. same_signature p q) ps)
unfolding add_path new_path_set lookup
add_path-any ps q = ground (arith, add_paths-flag new_path_set ps q)

-- Two paths that differ, and have one signature.
pub same_signature-slash :
    same_signature (record { edges = "a" ∷ "b" ∷ [] }) (record { edges = "a/b" ∷ [] }) ≡ true
unfolding path_signature
same_signature-slash = refl

module _ {F : Type 0} ⦃fl : Float64 F⦄ where
  open fl use {lt}

  unfoldable pub faster : RouteResult F → RouteResult F → Bool
  faster a b = lt a.total_seconds b.total_seconds

  unfoldable pub rank_paths : List (RouteResult F) → ℤ → List (RouteResult F)
  rank_paths paths k =
      if ltb_ℤ k (pos 1)
      then []
      else let sorted = stable_sort faster paths in
        if ltb_ℤ k (pos (length sorted)) then take (pos_part k) sorted else sorted

  faster-StrictWeak : IsOrdered fl → StrictWeak faster
  unfolding faster
  faster-StrictWeak o = record {
    asymm = λ a b h. o.lt_asymm a.total_seconds b.total_seconds h;
    le_trans = λ a b c h k. o.le_trans a.total_seconds b.total_seconds c.total_seconds h k;
  }

  -- Some of the routes in order, and the rest behind them.
  pub record Ranks (paths kept : List (RouteResult F)) (k : ℤ) : Type 0 where
    pub rest : List (RouteResult F)
    pub all : Permᴰ paths (kept ++ rest)
    pub sorted : IsSorted faster (kept ++ rest)
    pub enough : (rest ≡ []) ⊎ (pos (length kept) ≡ k)

  -- For ordered floats and a positive `k`, `RankPaths` keeps `k` of the routes, or all if there
  -- are fewer, in the order of their time, and leaves out none that is faster than one it keeps.
  pub rank_paths-Ranks :
      IsOrdered fl
      → (paths : List (RouteResult F)) (k : ℤ) → ltb_ℤ k (pos 1) ≡ false
      → Ranks paths (rank_paths paths k) k
  unfolding rank_paths
  rank_paths-Ranks o paths k positive =
      elim (Bool-cases (ltb_ℤ k (pos (length (stable_sort faster paths))))) [
        | inl short ↦
            rw (positive, short) (cut (take-rest (pos_part k) (stable_sort faster paths)) short)
        | inr long ↦
            rw (positive, long)
              (record {
                rest = [];
                all =
                    subst (Permᴰ paths) (sym (append-nil (stable_sort faster paths)))
                      (stable_sort-perm faster paths);
                sorted =
                    subst (IsSorted faster) (sym (append-nil (stable_sort faster paths))) in_order;
                enough = inl refl;
              })
      ]
    where
      in_order : IsSorted faster (stable_sort faster paths)
      in_order = stable_sort-IsSorted faster (faster-StrictWeak o) paths

      kept_count :
          (k : ℤ)
          → ltb_ℤ k (pos 1) ≡ false
          → ltb_ℤ k (pos (length (stable_sort faster paths))) ≡ true
          → pos (length (take (pos_part k) (stable_sort faster paths))) ≡ k
      kept_count (pos n) positive short =
          ap pos (length-take n (stable_sort faster paths) (ground arith))
      kept_count (negsuc n) positive short = ground arith

      cut :
          ((rest : List (RouteResult F)) × (stable_sort faster paths
              ≡ take (pos_part k) (stable_sort faster paths) ++ rest))
          → ltb_ℤ k (pos (length (stable_sort faster paths))) ≡ true
          → Ranks paths (take (pos_part k) (stable_sort faster paths)) k
      cut (rest, parts) short = record {
        rest = rest;
        all = subst (Permᴰ paths) parts (stable_sort-perm faster paths);
        sorted = subst (IsSorted faster) parts in_order;
        enough = inr (kept_count k positive short);
      }
