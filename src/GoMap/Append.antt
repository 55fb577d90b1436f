-- ===== src/GoMap/Append.antt =====
-- What a read finds after `m[j] = append(m[j], v)`.
use rbac_manager.Prelude.{String, ◌≡◌, List, [], ◌∷◌, ◌++◌, ◌==◌, if◌then◌else◌, eq_iff, arith}
use rbac_manager.GoMap.{GoMap, lookup_all, append_at}

module _ {ℓ} {V : Type ℓ} where
  pub lookup_all-append_at :
      (k j : String) (v : V) (m : GoMap (List V))
      → lookup_all k (append_at j v m)
        ≡ (if j == k then lookup_all k m ++ v ∷ [] else lookup_all k m)
  lookup_all-append_at k j v m = ground (arith, eq_iff j k)
