-- ===== src/GoMap/Loops.antt =====
-- The two loops that fill a map from a listing, and what a read finds after them.
use rbac_manager.Prelude.{
  String, ◌≡◌, refl, sym, none, some, List, [], ◌∷◌, ◌++◌, map, ◌==◌, arith, keep, last,
}
use mathlib.Core.List.{append_assoc, append-nil}
use rbac_manager.GoMap.Append.{lookup_all-append_at}
use rbac_manager.GoMap.{GoMap, lookup, insert, lookup_all, append_at}

module _ {ℓ κ} {A : Type ℓ} {V : Type κ} (key : A → String) (val : A → V) where
  -- `for _, x := range xs { m[key(x)] = val(x) }`
  unfoldable pub index_by : GoMap V → List A → GoMap V
  index_by m [] = m
  index_by m (x ∷ xs) = index_by (insert (key x) (val x) m) xs

  -- `for _, x := range xs { m[key(x)] = append(m[key(x)], val(x)) }`
  unfoldable pub group_by : GoMap (List V) → List A → GoMap (List V)
  group_by m [] = m
  group_by m (x ∷ xs) = group_by (append_at (key x) (val x) m) xs

  -- The later of two items with one key is the one that is found.
  pub lookup-index_by :
      (k : String) (m : GoMap V) (xs : List A)
      → lookup k (index_by m xs)
        ≡ elim (last (λ x. key x == k) xs) [ none ↦ lookup k m | some x ↦ some (val x) ]
  unfolding index_by
  lookup-index_by k m [] = refl
  lookup-index_by k m (x ∷ xs) = ground (arith, lookup-index_by k (insert (key x) (val x) m) xs)

  -- All items with one key are found, in the order of the listing.
  pub lookup_all-group_by :
      (k : String) (m : GoMap (List V)) (xs : List A)
      → lookup_all k (group_by m xs) ≡ lookup_all k m ++ map val (keep (λ x. key x == k) xs)
  unfolding group_by
  lookup_all-group_by k m [] = sym (append-nil _)
  lookup_all-group_by k m (x ∷ xs) = ground (
    arith,
    lookup_all-group_by k (append_at (key x) (val x) m) xs,
    lookup_all-append_at k (key x) (val x) m,
    append_assoc (lookup_all k m) (val x ∷ []) (map val (keep (λ y. key y == k) xs)),
  )
