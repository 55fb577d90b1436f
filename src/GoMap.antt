-- ===== src/GoMap.antt =====
-- Go maps with string keys, as the program uses them: made empty, written by `m[k] = v`, read by
-- `v, ok := m[k]` or, for a map of slices, by `m[k]`. No map of the program is iterated over, and
-- no key is deleted, so the newest entry of a key stands first and hides the older ones.
pub mod Append
pub mod Invariant
pub mod Loops
use rbac_manager.Prelude.{
  String, ◌≡◌, refl, Option, none, some, List, [], ◌∷◌, ◌++◌, ◌==◌, if◌then◌else◌, eq_iff, arith,
}

abbrev pub GoMap {ℓ} : Type ℓ → Type ℓ
GoMap V = List (String × V)

-- `v, ok := m[k]`
abbrev pub lookup {ℓ} : {V : Type ℓ} → String → GoMap V → Option V
lookup k [] = none
lookup k ((j, v) ∷ m) = if j == k then some v else lookup k m

-- `m[k] = v`
abbrev pub insert {ℓ} : {V : Type ℓ} → String → V → GoMap V → GoMap V
insert k v m = (k, v) ∷ m

-- `m[k]` on a map of slices: a missing key reads as the nil slice, which has no items.
abbrev pub lookup_all {ℓ} : {V : Type ℓ} → String → GoMap (List V) → List V
lookup_all k m = elim (lookup k m) [ none ↦ [] | some vs ↦ vs ]

-- `m[k] = append(m[k], v)`
abbrev pub append_at {ℓ} : {V : Type ℓ} → String → V → GoMap (List V) → GoMap (List V)
append_at k v m = insert k (lookup_all k m ++ v ∷ []) m
