-- ===== src/GoMap/Invariant.antt =====
-- What holds of every entry of a map, and of every item of a map of slices.
use rbac_manager.Prelude.{
  String, ◌≡◌, some, List, [], ◌∷◌, ◌++◌, ◌==◌, eq_iff, arith, In, In-append, Bool-cases, inl, inr,
}
use rbac_manager.GoMap.Append.{lookup_all-append_at}
use rbac_manager.GoMap.{GoMap, lookup, insert, lookup_all, append_at}

module _ {V : Type 0} (Q : String → V → Type 0) where
  -- Every key that is found has a value with `Q`.
  pub record Each (m : GoMap V) : Type 0 where
    pub at : (k : String) (v : V) → lookup k m ≡ some v → Q k v

  pub record EachItem (m : GoMap (List V)) : Type 0 where
    pub at : (k : String) (v : V) → In v (lookup_all k m) → Q k v

module _ {V : Type 0} {Q : String → V → Type 0} where
  pub Each-empty : Each Q []
  Each-empty = record { at = λ k v e. cc }

  pub Each-insert : (k : String) (v : V) {m : GoMap V} → Q k v → Each Q m → Each Q (insert k v m)
  Each-insert k v {m} q h = record {
    at = λ j w e. elim (Bool-cases (k == j)) [
      | inl same ↦ let found : some v ≡ some w = rw same at e in ground (arith, eq_iff k j)
      | inr other ↦ h.at j w (rw other at e)
    ];
  }

  pub EachItem-empty : EachItem Q []
  EachItem-empty = record { at = λ k v m. absurd m }

  pub EachItem-append_at :
      (k : String) (v : V) (m : GoMap (List V))
      → Q k v
      → EachItem Q m
      → EachItem Q (append_at k v m)
  EachItem-append_at k v m q h = record {
    at = λ j w i. elim (Bool-cases (k == j)) [
      | inl same ↦
          let i' : In w (lookup_all j m ++ v ∷ []) = rw (lookup_all-append_at j k v m, same) at i in
          elim (In-append w (lookup_all j m) (v ∷ []) i') [
            | inl old ↦ h.at j w old
            | inr (inl e) ↦ ground (arith, eq_iff k j)
            | inr (inr none_left) ↦ absurd none_left
          ]
      | inr other ↦ h.at j w (rw (lookup_all-append_at j k v m, other) at i)
    ];
  }
