-- ===== src/Cache/Update/Rounds.antt =====
-- On which items the bodies of the loops of `updateCache` go through.
use rbac_manager.Prelude.{
  String, Option, none, some, List, [], ◌≡◌, refl, ap, ◌∙◌, ◌==◌, eq_iff, arith, In, inl, inr, last,
  Option-cases,
}
use rbac_manager.Outcome.{ok, Outcome-cases}
use rbac_manager.Outcome.Loops.{for_each, for_each-runs}
use rbac_manager.GoMap.{GoMap, lookup, insert}
use rbac_manager.GoMap.Invariant.{Each, Each-empty, Each-insert}
use rbac_manager.GoMap.Loops.{lookup-index_by}
use rbac_manager.UserManager.{
  InternalApiKey, InternalCluster, InternalOrganization, OrganizationUser, ProjectInfo, ProjectUser,
}
use rbac_manager.Cache.{K, C, O, P, Pu, U}
use rbac_manager.Cache.Consistency.Users.{users_loop-IsListed}
use rbac_manager.Cache.Update.{
  add_api_key, add_cluster, add_organization, add_projects, add_project_user, add_user, to_p,
}
use rbac_manager.Cache.Update.Contents.{
  latest, to_k, has_org_id, to_o, org_step, add_projects-loops,
}
use rbac_manager.Cache.Update.Folds.{for_each-last}
use rbac_manager.Cache.Update.Members.{to_c}
use rbac_manager.Cache.Update.Order.{last-some, last-none}

-- The body goes through on the item, whatever the loop has done before.
pub add_api_key-ok :
    (m : GoMap K) (x : InternalApiKey) (k : K)
    → to_k x ≡ some k
    → (m' : GoMap K) × (add_api_key m x ≡ ok m')
unfolding add_api_key
add_api_key-ok m x k e = elim (Outcome-cases (add_api_key m x)) [
  | inl made ↦ made
  | inr (inl (y, failed)) ↦ absurd (ground arith)
  | inr (inr panics) ↦ absurd (ground arith)
]

pub add_api_key-to_k :
    (m m' : GoMap K) (x : InternalApiKey) → add_api_key m x ≡ ok m' → (k : K) × (to_k x ≡ some k)
unfolding add_api_key
add_api_key-to_k m m' x e = elim (Option-cases (to_k x)) [
  | inl missing ↦ absurd (ground arith)
  | inr found ↦ found
]

pub add_cluster-to_c :
    (m m' : GoMap C × GoMap (List C)) (x : InternalCluster)
    → add_cluster m x ≡ ok m'
    → (c : C) × (to_c x ≡ some c)
unfolding add_cluster
add_cluster-to_c m m' x e = elim (Option-cases (to_c x)) [
  | inl missing ↦ absurd (ground arith)
  | inr found ↦ found
]

pub add_cluster-ok :
    (m : GoMap C × GoMap (List C)) (x : InternalCluster) (c : C)
    → to_c x ≡ some c
    → (m' : GoMap C × GoMap (List C)) × (add_cluster m x ≡ ok m')
unfolding add_cluster
add_cluster-ok m x c e = elim (Outcome-cases (add_cluster m x)) [
  | inl made ↦ made
  | inr (inl (y, failed)) ↦ absurd (ground arith)
  | inr (inr panics) ↦ absurd (ground arith)
]

pub add_organization-to_o :
    (m m' : GoMap O) (x : InternalOrganization)
    → add_organization m x ≡ ok m'
    → (o : O) × (to_o x ≡ some o)
unfolding add_organization
add_organization-to_o m m' x e = elim (Option-cases (to_o x)) [
  | inl missing ↦ absurd (ground arith)
  | inr found ↦ found
]

pub add_organization-ok :
    (m : GoMap O) (x : InternalOrganization) (o : O)
    → to_o x ≡ some o
    → (m' : GoMap O) × (add_organization m x ≡ ok m')
unfolding add_organization
add_organization-ok m x o e = elim (Outcome-cases (add_organization m x)) [
  | inl made ↦ made
  | inr (inl (y, failed)) ↦ absurd (ground arith)
  | inr (inr panics) ↦ absurd (ground arith)
]

-- A project of this ID is listed.
abbrev pub IsListedProject : List ProjectInfo → String → Type 0
IsListedProject projects id = (p : ProjectInfo) × In p projects × (p.id ≡ id)

module _ (projects : List ProjectInfo) where
  abbrev pub projects_by_id : GoMap P
  projects_by_id = (add_projects ([], []) projects).0

  abbrev last_project : String → Option ProjectInfo
  last_project id = last (λ (p : ProjectInfo). p.id == id) projects

  project_at :
      (id : String)
      → lookup id projects_by_id ≡ elim (last_project id) [ none ↦ none | some p ↦ some (to_p p) ]
  project_at id =
      ap (λ (m : GoMap P × GoMap (List P)). lookup id m.0) (add_projects-loops ([], []) projects)
      ∙ lookup-index_by (λ (p : ProjectInfo). p.id) to_p id [] projects

  pub add_project_user-listed :
      (m m' : GoMap (List Pu)) (x : ProjectUser)
      → add_project_user projects_by_id m x ≡ ok m'
      → IsListedProject projects x.project_id
  unfolding add_project_user
  add_project_user-listed m m' x e =
      let at = project_at x.project_id in
      elim (Option-cases (last_project x.project_id)) [
        | inl missing ↦ absurd (ground arith)
        | inr (p, found) ↦
            let (i, is) = last-some (λ (q : ProjectInfo). q.id == x.project_id) projects p found in
            (p, i, (eq_iff p.id x.project_id).0 is)
      ]

  pub add_project_user-ok :
      (m : GoMap (List Pu)) (x : ProjectUser)
      → IsListedProject projects x.project_id
      → (m' : GoMap (List Pu)) × (add_project_user projects_by_id m x ≡ ok m')
  unfolding add_project_user
  add_project_user-ok m x (q, i, is) =
      let at = project_at x.project_id in
      elim (Option-cases (last_project x.project_id)) [
        | inl missing ↦
            let other =
              last-none (λ (p : ProjectInfo). p.id == x.project_id) projects q missing i in
            absurd (ground (arith, eq_iff q.id x.project_id))
        | inr (p, found) ↦ elim (Outcome-cases (add_project_user projects_by_id m x)) [
          | inl made ↦ made
          | inr (inl (y, failed)) ↦ absurd (ground arith)
          | inr (inr panics) ↦ absurd (ground arith)
        ]
      ]

pub org_at :
    (orgs : List InternalOrganization) (by_id : GoMap O)
    → for_each add_organization [] orgs ≡ ok by_id
    → (id : String) → lookup id by_id ≡ latest (has_org_id id) to_o orgs
org_at orgs by_id e id =
    for_each-last (has_org_id id) add_organization to_o (lookup id) (org_step id) [] by_id orgs e

-- Each of the users names an organization that is found, and those of one user are of one tenant.
pub record IsOneTenant (org_of : String → Option O) (users : List OrganizationUser) : Type 0 where
  pub known : (x : OrganizationUser) → In x users → (o : O) × (org_of x.organization_id ≡ some o)
  pub same :
      (x y : OrganizationUser) (o o' : O)
      → In x users
      → In y users
      → x.user_id ≡ y.user_id
      → org_of x.organization_id ≡ some o
      → org_of y.organization_id ≡ some o'
      → o.tenant_id ≡ o'.tenant_id

-- The loop over the organization users, `users`.
module _ (orgs_by_id : GoMap O) (users : List OrganizationUser) where
  abbrev pub Cached : Type 0
  Cached = IsOneTenant (λ id. lookup id orgs_by_id) users

  -- The cached user has the tenant of an organization that the user is listed for.
  abbrev FromUsers : String → U → Type 0
  FromUsers id u =
      (x : OrganizationUser) × (o : O) × In x users
      × (x.user_id ≡ id)
      × (lookup x.organization_id orgs_by_id ≡ some o)
      × (u.tenant_id ≡ o.tenant_id)

  add_user-runs :
      Cached
      → (m : GoMap U) (x : OrganizationUser) → Each FromUsers m
      → In x users
      → (m' : GoMap U) × (add_user orgs_by_id m x ≡ ok m') × Each FromUsers m'
  unfolding add_user
  add_user-runs h m x from i =
      let (o, known) = h.known x i in
      elim (Option-cases (lookup x.user_id m)) [
        | inr (u, there) ↦
            let (y, o', j, is, known', tenant) = from.at x.user_id u there in
            let same = h.same y x o' o j i is known' known in
            (m, ground (arith, eq_iff u.tenant_id o.tenant_id), from)
        | inl new ↦
            let u : U = record {
              id = x.user_id;
              internal_id = x.internal_user_id;
              tenant_id = o.tenant_id;
            } in
            (
              insert x.user_id u m,
              ground arith,
              Each-insert x.user_id u (x, o, i, refl, known, refl) from,
            )
      ]

  pub users_loop-runs : Cached → (m : GoMap U) × (for_each (add_user orgs_by_id) [] users ≡ ok m)
  users_loop-runs h =
      let (m, runs, _) =
        for_each-runs (Each FromUsers) (add_user orgs_by_id) [] users (add_user-runs h)
          Each-empty in
      (m, runs)

  pub users_loop-IsOneTenant :
      (m : GoMap U) → for_each (add_user orgs_by_id) [] users ≡ ok m → Cached
  users_loop-IsOneTenant m e = record {
    known = λ x i.
        let (u, o, found, known, tenant) = users_loop-IsListed orgs_by_id users [] m x e i in
        (o, known);
    same = λ x y o o' i j is known known'.
        let (u, p, found, at, tenant) = users_loop-IsListed orgs_by_id users [] m x e i in
        let (u', p', found', at', tenant') = users_loop-IsListed orgs_by_id users [] m y e j in cc;
  }
