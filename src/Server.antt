-- ===== src/Server.antt =====
-- server/internal/server/server.go: the two interfaces that the server is built on, and its state.
pub mod Reads
pub mod Roles
pub mod Envs
pub mod Projects
pub mod Authorize
pub mod Serving
pub mod Worker
use rbac_manager.Prelude.{String, Option, List}
use rbac_manager.Outcome.{Outcome}
use rbac_manager.GoMap.{GoMap}
use rbac_manager.Token.{Introspection}
use rbac_manager.Cache
use rbac_manager.Cache.{K, C, O, Ou, P, Pu, U, Store}

-- `cacheGetter`: what the server asks the cache for, as it stands at one moment.
pub record CacheGetter : Type 0 where
  pub get_api_key_by_secret : String → Option K
  pub get_cluster_by_registration_key : String → Option C
  pub get_clusters_by_tenant_id : String → List C
  pub get_organization_by_id : String → Option O
  pub get_organizations_by_user_id : String → List Ou
  pub get_projects_by_organization_id : String → List P
  pub get_project_by_id : String → Option P
  pub get_projects_by_user_id : String → List Pu
  pub get_user_by_id : String → Option U

-- The store implements the interface.
unfoldable pub store_getter : Store → CacheGetter
store_getter c = record {
  get_api_key_by_secret = Cache.get_api_key_by_secret c;
  get_cluster_by_registration_key = Cache.get_cluster_by_registration_key c;
  get_clusters_by_tenant_id = Cache.get_clusters_by_tenant_id c;
  get_organization_by_id = Cache.get_organization_by_id c;
  get_organizations_by_user_id = Cache.get_organizations_by_user_id c;
  get_projects_by_organization_id = Cache.get_projects_by_organization_id c;
  get_project_by_id = Cache.get_project_by_id c;
  get_projects_by_user_id = Cache.get_projects_by_user_id c;
  get_user_by_id = Cache.get_user_by_id c;
}

-- `TokenIntrospector` is the function of its one method; an error is its text.
abbrev pub TokenIntrospector : Type 0
TokenIntrospector = String → Outcome String Introspection

-- `Server`, without the gRPC server that `Run` stores in it. The cache is passed to the handlers
-- apart, as a sequence of moments (`Reads`).
pub record Server : Type 0 where
  pub token_introspector : TokenIntrospector
  pub role_scopes_mapper : GoMap (List String)
