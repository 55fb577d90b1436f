-- ===== src/Cache/Update.antt =====
-- cache.go, `updateCache`: what one round of listings turns into, and how it is published.
pub mod Built
pub mod Contents
pub mod Folds
pub mod Members
pub mod Order
pub mod Rounds
pub mod Succeeds
use rbac_manager.Prelude.{
  ℕ, String, Bool, true, false, not, Option, none, some, List, [], ◌∷◌, ◌==◌, if◌then◌else◌,
}
use rbac_manager.Outcome.{Outcome, ok, err, panic, ◌>>=◌, map_err}
use rbac_manager.Outcome.Loops.{for_each}
use rbac_manager.GoMap.{GoMap, lookup, insert, append_at}
use rbac_manager.GoMap.Loops.{group_by}
use rbac_manager.UserManager.{
  InternalApiKey, InternalCluster, InternalOrganization, OrganizationUser, ProjectInfo, ProjectUser,
}
use rbac_manager.Cache.{K, C, O, Ou, P, Pu, U, Tables, Store}

-- The errors of `updateCache`: one of a listing call, or one of its own.
pub data UpdateError : Type 0 where
  listing : String → UpdateError
  project_not_found : (project_id user_id : String) → UpdateError
  organization_not_found : (organization_id user_id : String) → UpdateError
  multiple_tenant_ids : (user_id : String) → UpdateError

-- What the calls of one round answer: the repeated field of the response, or an error.
pub record UserInfoLister : Type 0 where
  pub list_internal_api_keys : Outcome String (List InternalApiKey)
  pub list_internal_organizations : Outcome String (List InternalOrganization)
  pub list_organization_users : Outcome String (List OrganizationUser)
  pub list_projects : Outcome String (List ProjectInfo)
  pub list_project_users : Outcome String (List ProjectUser)

pub record ClusterInfoLister : Type 0 where
  pub list_internal_clusters : Outcome String (List InternalCluster)

-- A field of a message that is a nil pointer panics.
abbrev pub deref : {A : Type 0} → Option A → Outcome UpdateError A
deref none = panic
deref (some a) = ok a

unfoldable pub add_api_key : GoMap K → InternalApiKey → Outcome UpdateError (GoMap K)
add_api_key m api_key = do
  key ← deref api_key.api_key
  user ← deref key.user
  organization ← deref key.organization
  project ← deref key.project
  ok (
      insert key.secret
        (record {
          key_id = key.id;
          user_id = user.id;
          internal_user_id = user.internal_id;
          organization_id = organization.id;
          project_id = project.id;
          tenant_id = api_key.tenant_id;
          organization_role = key.organization_role;
          project_role = key.project_role;
          excluded_from_rate_limiting = key.excluded_from_rate_limiting;
        })
        m)

unfoldable pub add_cluster :
    GoMap C × GoMap (List C) → InternalCluster → Outcome UpdateError (GoMap C × GoMap (List C))
add_cluster (cs, cs_by_tenant_id) cluster = do
  info ← deref cluster.cluster
  let c : C = record { id = info.id; name = info.name; tenant_id = cluster.tenant_id }
  ok (insert info.registration_key c cs, append_at cluster.tenant_id c cs_by_tenant_id)

unfoldable pub add_organization : GoMap O → InternalOrganization → Outcome UpdateError (GoMap O)
add_organization orgs_by_id org = do
  info ← deref org.organization
  ok (
      insert info.id
        (record {
          id = info.id;
          title = info.title;
          tenant_id = org.tenant_id;
          is_default = info.is_default;
        })
        orgs_by_id)

abbrev pub to_ou : OrganizationUser → Ou
to_ou user = record { role = user.role; organization_id = user.organization_id }

abbrev pub to_p : ProjectInfo → P
to_p p = record {
  id = p.id;
  title = p.title;
  organization_id = p.organization_id;
  kubernetes_namespace = p.kubernetes_namespace;
  assignments = p.assignments;
  is_default = p.is_default;
}

unfoldable pub add_projects : GoMap P × GoMap (List P) → List ProjectInfo → GoMap P × GoMap (List P)
add_projects maps [] = maps
add_projects (by_id, by_organization_id) (p ∷ ps) =
    add_projects
      (insert p.id (to_p p) by_id, append_at p.organization_id (to_p p) by_organization_id) ps

unfoldable pub add_project_user :
    GoMap P → GoMap (List Pu) → ProjectUser → Outcome UpdateError (GoMap (List Pu))
add_project_user projects_by_id m user = elim (lookup user.project_id projects_by_id) [
  | none ↦ err (project_not_found user.project_id user.user_id)
  | some p ↦ ok (
      append_at user.user_id
        (record { role = user.role; project = p; organization_id = user.organization_id }) m)
]

unfoldable pub add_user : GoMap O → GoMap U → OrganizationUser → Outcome UpdateError (GoMap U)
add_user orgs_by_id users_by_id user = elim (lookup user.organization_id orgs_by_id) [
  | none ↦ err (organization_not_found user.organization_id user.user_id)
  | some o ↦ elim (lookup user.user_id users_by_id) [
    | some existing ↦
        if not (existing.tenant_id == o.tenant_id)
        then err (multiple_tenant_ids user.user_id)
        else ok users_by_id
    | none ↦ ok (
        insert user.user_id
          (record {
            id = user.user_id;
            internal_id = user.internal_user_id;
            tenant_id = o.tenant_id;
          })
          users_by_id)
  ]
]

-- The part of `updateCache` before the lock is taken.
unfoldable pub build_tables : UserInfoLister → ClusterInfoLister → Outcome UpdateError Tables
build_tables ul cl = do
  api_keys ← map_err listing ul.list_internal_api_keys
  m ← for_each add_api_key [] api_keys
  clusters ← map_err listing cl.list_internal_clusters
  (cs, cs_by_tenant_id) ← for_each add_cluster ([], []) clusters
  orgs ← map_err listing ul.list_internal_organizations
  org_users ← map_err listing ul.list_organization_users
  projects ← map_err listing ul.list_projects
  project_users ← map_err listing ul.list_project_users
  orgs_by_id ← for_each add_organization [] orgs
  let orgs_by_user_id = group_by (λ (u : OrganizationUser). u.user_id) to_ou [] org_users
  let (projects_by_id, projects_by_organization_id) = add_projects ([], []) projects
  projects_by_user_id ← for_each (add_project_user projects_by_id) [] project_users
  users_by_id ← for_each (add_user orgs_by_id) [] org_users
  ok (record {
    api_keys_by_secret = m;
    clusters_by_registration_key = cs;
    clusters_by_tenant_id = cs_by_tenant_id;
    orgs_by_id = orgs_by_id;
    orgs_by_user_id = orgs_by_user_id;
    projects_by_id = projects_by_id;
    projects_by_organization_id = projects_by_organization_id;
    projects_by_user_id = projects_by_user_id;
    users_by_id = users_by_id;
  })

-- The part under the lock: `close` of a closed channel panics, after the fields are written.
unfoldable pub publish : Tables → ℕ → Store → Outcome UpdateError (Unit {0}) × Store
publish t now c =
    let written : Store = record c { tables = t; last_successful_sync_time = now } in
    if not c.synced
    then (if c.closed
        then (panic, written)
        else (ok tt, record written { closed = true; synced = true }))
    else (ok tt, record written { synced = true })

unfoldable pub update_cache :
    UserInfoLister → ClusterInfoLister → ℕ → Store → Outcome UpdateError (Unit {0}) × Store
update_cache ul cl now c = elim (build_tables ul cl) [
  | ok t ↦ publish t now c
  | err e ↦ (err e, c)
  | panic ↦ (panic, c)
]
