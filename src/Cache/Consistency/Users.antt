-- ===== src/Cache/Consistency/Users.antt =====
-- What the loop of `updateCache` over the organization users establishes: every listed user ends
-- up in `usersByID`, with the tenant of each organization that it is listed for.
use rbac_manager.Prelude.{
  String, ◌≡◌, refl, some, List, [], ◌∷◌, eq_iff, eq_refl, arith, In, Option-cases, inl, inr,
}
use rbac_manager.Outcome.{ok, >>=-then}
use rbac_manager.Outcome.Loops.{for_each, for_each_inv}
use rbac_manager.GoMap.{GoMap, lookup}
use rbac_manager.GoMap.Invariant.{Each, Each-empty}
use rbac_manager.UserManager.{OrganizationUser}
use rbac_manager.Cache.{O, U}
use rbac_manager.Cache.Update.{add_user}

abbrev UserId : String → U → Type 0
UserId k u = u.id ≡ k

module _ (orgs_by_id : GoMap O) where
  -- The listed user `x` is in `users`, in the tenant of the organization that `x` names.
  abbrev pub IsListed : GoMap U → OrganizationUser → Type 0
  IsListed users x =
      (u : U) × (o : O) × (lookup x.user_id users ≡ some u)
      × (lookup x.organization_id orgs_by_id ≡ some o)
      × (u.tenant_id ≡ o.tenant_id)

  -- No user is dropped or changed once it is there.
  abbrev Extends : GoMap U → GoMap U → Type 0
  Extends m m' = (k : String) (u : U) → lookup k m ≡ some u → lookup k m' ≡ some u

  add_user-Extends :
      (m m' : GoMap U) (x : OrganizationUser) → add_user orgs_by_id m x ≡ ok m' → Extends m m'
  unfolding add_user
  add_user-Extends m m' x e k u found = ground (arith, eq_iff x.user_id k)

  add_user-IsListed :
      (m m' : GoMap U) (x : OrganizationUser) → add_user orgs_by_id m x ≡ ok m' → IsListed m' x
  unfolding add_user
  add_user-IsListed m m' x e = elim (Option-cases (lookup x.organization_id orgs_by_id)) [
    | inl missing ↦ absurd (ground arith)
    | inr (o, known) ↦ elim (Option-cases (lookup x.user_id m)) [
      | inr (u, old) ↦ (u, o, ground arith, known, ground (arith, eq_iff u.tenant_id o.tenant_id))
      | inl new ↦
          let u : U = record {
            id = x.user_id;
            internal_id = x.internal_user_id;
            tenant_id = o.tenant_id;
          } in
          (u, o, ground (arith, eq_refl x.user_id), known, refl)
    ]
  ]

  add_user-Each :
      (m m' : GoMap U) (x : OrganizationUser)
      → Each UserId m
      → add_user orgs_by_id m x ≡ ok m'
      → Each UserId m'
  unfolding add_user
  add_user-Each m m' x h e = record {
    at = λ k u found. ground (arith, h.at k u, eq_iff x.user_id k);
  }

  IsListed-Extends :
      (m m' : GoMap U) (x : OrganizationUser) → Extends m m' → IsListed m x → IsListed m' x
  IsListed-Extends m m' x grows (u, o, found, known, same) =
      (u, o, grows x.user_id u found, known, same)

  loop-Extends :
      (xs : List OrganizationUser) (m m' : GoMap U)
      → for_each (add_user orgs_by_id) m xs ≡ ok m'
      → Extends m m'
  unfolding for_each
  loop-Extends [] m m' e k u found = ground arith
  loop-Extends (x ∷ xs) m m' e k u found =
      >>=-then (add_user orgs_by_id m x) _ e
        λ m₁ here later. loop-Extends xs m₁ m' later k u (add_user-Extends m m₁ x here k u found)

  pub users_loop-IsListed :
      (xs : List OrganizationUser) (m m' : GoMap U) (x : OrganizationUser)
      → for_each (add_user orgs_by_id) m xs ≡ ok m'
      → In x xs
      → IsListed m' x
  unfolding for_each
  users_loop-IsListed [] m m' x e i = absurd i
  users_loop-IsListed (y ∷ ys) m m' x e i = >>=-then (add_user orgs_by_id m y) _ e λ m₁ here later.
      elim i [
        | inl same ↦
            IsListed-Extends m₁ m' x (loop-Extends ys m₁ m' later)
              (rw same (add_user-IsListed m m₁ y here))
        | inr rest ↦ users_loop-IsListed ys m₁ m' x later rest
      ]

  pub users_loop-Each :
      (xs : List OrganizationUser) (m : GoMap U)
      → for_each (add_user orgs_by_id) [] xs ≡ ok m
      → Each UserId m
  users_loop-Each xs m e =
      for_each_inv (Each UserId) (add_user orgs_by_id) add_user-Each [] m xs Each-empty e
