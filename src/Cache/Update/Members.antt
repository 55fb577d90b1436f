-- ===== src/Cache/Update/Members.antt =====
-- What the getters for clusters, users and the projects of a user answer after a successful update.
use rbac_manager.Prelude.{
  ℕ, String, Bool, true, false, Option, none, some, List, [], ◌∷◌, ◌++◌, map, ◌≡◌, refl, ◌==◌,
  if◌then◌else◌, arith, keep, first, Option-cases, inl, inr, eq_iff, eq_refl,
}
use mathlib.Core.List.{map-append, append-nil}
use rbac_manager.Outcome.{ok}
use rbac_manager.GoMap.{GoMap, lookup, lookup_all, append_at}
use rbac_manager.GoMap.Append.{lookup_all-append_at}
use rbac_manager.UserManager.{InternalCluster, OrganizationUser, ProjectUser}
use rbac_manager.Cache
use rbac_manager.Cache.{C, O, P, Pu, U, Store}
use rbac_manager.Cache.Update.{
  UserInfoLister, ClusterInfoLister, add_cluster, add_project_user, add_user, update_cache,
}
use rbac_manager.Cache.Update.Built.{Built, build_tables-Built}
use rbac_manager.Cache.Update.Contents.{latest, publish-tables}
use rbac_manager.Cache.Update.Folds.{for_each-last, for_each-first, for_each-all}

abbrev pub has_registration_key : String → InternalCluster → Bool
has_registration_key key x = elim x.cluster [
  | none ↦ false
  | some info ↦ info.registration_key == key
]

abbrev pub to_c : InternalCluster → Option C
to_c x = elim x.cluster [
  | none ↦ none
  | some info ↦ some (record { id = info.id; name = info.name; tenant_id = x.tenant_id })
]

-- The project is the one that `project_of` finds.
abbrev pub to_pu : (project_of : String → Option P) → ProjectUser → Option Pu
to_pu project_of x = elim (project_of x.project_id) [
  | none ↦ none
  | some p ↦ some (record { role = x.role; project = p; organization_id = x.organization_id })
]

-- The tenant is that of the organization that `org_of` finds.
abbrev pub to_u : (org_of : String → Option O) → OrganizationUser → Option U
to_u org_of x = elim (org_of x.organization_id) [
  | none ↦ none
  | some o ↦
      some (record { id = x.user_id; internal_id = x.internal_user_id; tenant_id = o.tenant_id })
]

abbrev has_user_id : String → OrganizationUser → Bool
has_user_id id x = x.user_id == id

pub record HasMembers (c : Store) (clusters : List InternalCluster)
    (org_users : List OrganizationUser) (project_users : List ProjectUser) : Type 0 where
  pub cluster_of :
      (key : String)
      → Cache.get_cluster_by_registration_key c key
        ≡ latest (has_registration_key key) to_c clusters
  pub clusters_of :
      (tenant_id : String)
      → map some (Cache.get_clusters_by_tenant_id c tenant_id)
        ≡ map to_c (keep (λ (x : InternalCluster). x.tenant_id == tenant_id) clusters)
  pub projects_of :
      (user_id : String)
      → map some (Cache.get_projects_by_user_id c user_id)
        ≡ map
            (to_pu (Cache.get_project_by_id c))
            (keep (λ (x : ProjectUser). x.user_id == user_id) project_users)
  pub user_of :
      (id : String)
      → Cache.get_user_by_id c id
        ≡ elim (first (λ (x : OrganizationUser). x.user_id == id) org_users) [
          | none ↦ none
          | some x ↦ to_u (Cache.get_organization_by_id c) x
        ]

-- What a read finds after an append.
read-append_at :
    {V : Type 0} (k j : String) (v : V) (m : GoMap (List V))
    → map some (lookup_all k (append_at j v m))
      ≡ map some (lookup_all k m) ++ (if j == k then some v ∷ [] else [])
read-append_at k j v m = ground (
  arith,
  lookup_all-append_at k j v m,
  map-append some (lookup_all k m) (v ∷ []),
  append-nil (map some (lookup_all k m)),
)

cluster_step :
    (key : String) (m m' : GoMap C × GoMap (List C)) (x : InternalCluster)
    → add_cluster m x ≡ ok m'
    → lookup key m'.0 ≡ (if has_registration_key key x then to_c x else lookup key m.0)
unfolding add_cluster
cluster_step key m m' x e = ground arith

tenant_step :
    (id : String) (m m' : GoMap C × GoMap (List C)) (x : InternalCluster)
    → add_cluster m x ≡ ok m'
    → map some (lookup_all id m'.1)
      ≡ map some (lookup_all id m.1) ++ (if x.tenant_id == id then to_c x ∷ [] else [])
unfolding add_cluster
tenant_step id m m' x e = elim (Option-cases x.cluster) [
  | inl missing ↦ absurd (ground arith)
  | inr (info, has) ↦
      let c : C = record { id = info.id; name = info.name; tenant_id = x.tenant_id } in
      let r = read-append_at id x.tenant_id c m.1 in ground arith
]

project_step :
    (by_id : GoMap P) (id : String) (m m' : GoMap (List Pu)) (x : ProjectUser)
    → add_project_user by_id m x ≡ ok m'
    → map some (lookup_all id m')
      ≡ map some (lookup_all id m)
        ++ (if x.user_id == id then to_pu (λ project_id. lookup project_id by_id) x ∷ [] else [])
unfolding add_project_user
project_step by_id id m m' x e = elim (Option-cases (lookup x.project_id by_id)) [
  | inl missing ↦ absurd (ground arith)
  | inr (p, known) ↦
      let pu : Pu = record { role = x.role; project = p; organization_id = x.organization_id } in
      let r = read-append_at id x.user_id pu m in ground arith
]

module _ (orgs : GoMap O) (id : String) (m m' : GoMap U) (x : OrganizationUser)
    (e : add_user orgs m x ≡ ok m') where
  user_old : (u : U) → lookup id m ≡ some u → lookup id m' ≡ some u
  unfolding add_user
  user_old u found = ground (arith, eq_iff x.user_id id)

  user_new :
      lookup id m ≡ none
      → has_user_id id x ≡ true
      → (u : U) × (lookup id m' ≡ some u) × (to_u (λ org_id. lookup org_id orgs) x ≡ some u)
  unfolding add_user
  user_new missing is = elim (Option-cases (lookup x.organization_id orgs)) [
    | inl unknown ↦ absurd (ground arith)
    | inr (o, known) ↦ (
      record { id = x.user_id; internal_id = x.internal_user_id; tenant_id = o.tenant_id },
      ground (arith, eq_iff x.user_id id, eq_refl id),
      ground arith,
    )
  ]

  user_other : lookup id m ≡ none → has_user_id id x ≡ false → lookup id m' ≡ none
  unfolding add_user
  user_other missing other = ground arith

module _ (ul : UserInfoLister) (cl : ClusterInfoLister) (c : Store) where
  Built-HasMembers :
      (b : Built ul cl c.tables) → HasMembers c b.clusters b.org_users b.project_users
  unfolding Cache.get_cluster_by_registration_key Cache.get_clusters_by_tenant_id
      Cache.get_projects_by_user_id Cache.get_project_by_id Cache.get_user_by_id
      Cache.get_organization_by_id
  Built-HasMembers b = record {
    cluster_of = λ key.
        for_each-last (has_registration_key key) add_cluster to_c (λ m. lookup key m.0)
          (cluster_step key) ([], []) _ b.clusters b.clusters_loop;
    clusters_of = λ id.
        for_each-all (λ (x : InternalCluster). x.tenant_id == id) add_cluster to_c
          (λ m. lookup_all id m.1) (tenant_step id) ([], []) _ b.clusters b.clusters_loop;
    projects_of = λ id.
        for_each-all (λ (x : ProjectUser). x.user_id == id) (add_project_user c.projects_by_id)
          (to_pu (λ project_id. lookup project_id c.projects_by_id)) (lookup_all id)
          (project_step c.projects_by_id id) [] _ b.project_users b.project_users_loop;
    user_of = λ id.
        for_each-first (has_user_id id) (add_user c.orgs_by_id)
          (to_u (λ org_id. lookup org_id c.orgs_by_id)) (lookup id)
          (λ m m' x u e. user_old c.orgs_by_id id m m' x e u) (user_new c.orgs_by_id id)
          (user_other c.orgs_by_id id) [] _ b.org_users b.users_loop refl;
  }

  -- After an update that succeeds, all six listings have been answered, and the getters find: under a
  -- registration key the last listed cluster that has it, under the ID of a tenant all of its
  -- clusters and under the ID of a user all of the user's roles in projects, in the order of the
  -- listings and each with the project that is cached under its ID; and under the ID of a user the
  -- first listing of the user, in the tenant of the cached organization that it names.
  pub update_cache-HasMembers :
      (now : ℕ) (before : Store)
      → update_cache ul cl now before ≡ (ok tt, c)
      → (b : Built ul cl c.tables) × HasMembers c b.clusters b.org_users b.project_users
  update_cache-HasMembers now before e =
      let b = build_tables-Built ul cl c.tables (publish-tables ul cl c now before e) in
      (b, Built-HasMembers b)
