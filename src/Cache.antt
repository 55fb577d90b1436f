-- ===== src/Cache.antt =====
-- server/internal/cache/cache.go: the cached records, the tables, and the reads of the store.
-- `Update` models `updateCache`, `Sync` the loop around it. A cached pointer is never written
-- through after its table is published, so pointers are the values that they point to.
pub mod Consistency
pub mod Sync
pub mod Update
use rbac_manager.Prelude.{ℕ, String, Bool, false, Option, none, some, List, []}
use rbac_manager.GoMap.{GoMap, lookup, lookup_all}
use rbac_manager.UserManager.{OrganizationRole, ProjectRole, ProjectAssignment}

-- An API key.
pub record K : Type 0 where
  pub key_id : String
  pub user_id : String
  pub internal_user_id : String
  pub organization_id : String
  pub project_id : String
  pub tenant_id : String
  pub organization_role : OrganizationRole
  pub project_role : ProjectRole
  pub excluded_from_rate_limiting : Bool

-- A cluster.
pub record C : Type 0 where
  pub id : String
  pub name : String
  pub tenant_id : String

-- An organization.
pub record O : Type 0 where
  pub id : String
  pub title : String
  pub tenant_id : String
  pub is_default : Bool

-- A role of an organization user.
pub record Ou : Type 0 where
  pub role : OrganizationRole
  pub organization_id : String

-- A project.
pub record P : Type 0 where
  pub id : String
  pub title : String
  pub organization_id : String
  pub kubernetes_namespace : String
  pub assignments : List ProjectAssignment
  pub is_default : Bool

-- A role of a project user.
pub record Pu : Type 0 where
  pub role : ProjectRole
  pub project : P
  pub organization_id : String

-- A user.
pub record U : Type 0 where
  pub id : String
  pub internal_id : String
  pub tenant_id : String

-- The maps of `Store`, which one update replaces together.
pub record Tables : Type 0 where
  pub api_keys_by_secret : GoMap K
  pub clusters_by_registration_key : GoMap C
  pub clusters_by_tenant_id : GoMap (List C)
  pub orgs_by_id : GoMap O
  pub orgs_by_user_id : GoMap (List Ou)
  pub projects_by_id : GoMap P
  pub projects_by_organization_id : GoMap (List P)
  pub projects_by_user_id : GoMap (List Pu)
  pub users_by_id : GoMap U

-- `closed` says whether the channel `initialSync` is closed. A time is the number of nanoseconds
-- since Go's zero time, which is what `lastSuccessfulSyncTime` starts as.
pub record Store : Type 0 where
  pub tables : Tables
  pub open tables use *
  pub last_successful_sync_time : ℕ
  pub closed : Bool
  pub synced : Bool

abbrev pub no_tables : Tables
no_tables = record {
  api_keys_by_secret = [];
  clusters_by_registration_key = [];
  clusters_by_tenant_id = [];
  orgs_by_id = [];
  orgs_by_user_id = [];
  projects_by_id = [];
  projects_by_organization_id = [];
  projects_by_user_id = [];
  users_by_id = [];
}

-- `NewStore`; the map `usersByID` starts nil, and reading it is reading an empty map.
unfoldable pub new_store : Store
new_store = record {
  tables = no_tables;
  last_successful_sync_time = 0;
  closed = false;
  synced = false;
}

unfoldable pub get_api_key_by_secret : Store → String → Option K
get_api_key_by_secret c secret = lookup secret c.api_keys_by_secret

unfoldable pub get_cluster_by_registration_key : Store → String → Option C
get_cluster_by_registration_key c key = lookup key c.clusters_by_registration_key

unfoldable pub get_clusters_by_tenant_id : Store → String → List C
get_clusters_by_tenant_id c tenant_id = lookup_all tenant_id c.clusters_by_tenant_id

unfoldable pub get_organization_by_id : Store → String → Option O
get_organization_by_id c organization_id = lookup organization_id c.orgs_by_id

unfoldable pub get_organizations_by_user_id : Store → String → List Ou
get_organizations_by_user_id c user_id = lookup_all user_id c.orgs_by_user_id

unfoldable pub get_projects_by_organization_id : Store → String → List P
get_projects_by_organization_id c organization_id =
    lookup_all organization_id c.projects_by_organization_id

unfoldable pub get_project_by_id : Store → String → Option P
get_project_by_id c project_id = lookup project_id c.projects_by_id

unfoldable pub get_projects_by_user_id : Store → String → List Pu
get_projects_by_user_id c user_id = lookup_all user_id c.projects_by_user_id

unfoldable pub get_user_by_id : Store → String → Option U
get_user_by_id c user_id = lookup user_id c.users_by_id

unfoldable pub get_last_successful_sync_time : Store → ℕ
get_last_successful_sync_time c = c.last_successful_sync_time
