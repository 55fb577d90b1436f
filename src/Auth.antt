-- ===== src/Auth.antt =====
-- pkg/auth: what the services that call the RBAC server share. userinfo.go, clusterinfo.go, and the
-- context that gRPC hands to an interceptor. `Text` has the functions on method names and headers.
pub mod Transport
pub mod Text
pub mod Interceptor
pub mod Metadata
pub mod Worker
use rbac_manager.Prelude.{String, Bool, Option, none, some, List, [], ◌∷◌, map}
use rbac_manager.Outcome.{Outcome, ok, panic, ◌>>=◌}
use rbac_manager.GoMap.{GoMap}
use rbac_manager.Rbac
use rbac_manager.Rbac.{AuthorizeResponse, AuthorizeWorkerResponse}

pub record AssignedKubernetesEnv : Type 0 where
  pub cluster_id : String
  pub cluster_name : String
  pub namespace : String

pub record UserInfo : Type 0 where
  pub user_id : String
  pub internal_user_id : String
  pub organization_id : String
  pub organization_title : String
  pub project_id : String
  pub project_title : String
  pub assigned_kubernetes_envs : List AssignedKubernetesEnv
  pub tenant_id : String
  pub api_key_id : String
  pub excluded_from_rate_limiting : Bool

pub record ClusterInfo : Type 0 where
  pub cluster_id : String
  pub cluster_name : String
  pub tenant_id : String

-- A context, by the values that this package reads or writes: the incoming metadata, whose keys are
-- in lower case, the outgoing metadata in the order of the appends, and the values under the
-- package's two private keys.
pub record Context : Type 0 where
  pub incoming : Option (GoMap (List String))
  pub outgoing : List (String × String)
  pub user_info : Option UserInfo
  pub cluster_info : Option ClusterInfo

unfoldable pub append_user_info_to_context : Context → UserInfo → Context
append_user_info_to_context ctx info = record ctx { user_info = some info }

unfoldable pub extract_user_info_from_context : Context → Option UserInfo
extract_user_info_from_context ctx = ctx.user_info

unfoldable pub append_cluster_info_to_context : Context → ClusterInfo → Context
append_cluster_info_to_context ctx info = record ctx { cluster_info = some info }

unfoldable pub extract_cluster_info_from_context : Context → Option ClusterInfo
extract_cluster_info_from_context ctx = ctx.cluster_info

-- A field of a nil pointer panics.
abbrev pub deref : {E A : Type 0} → Option A → Outcome E A
deref none = panic
deref (some a) = ok a

abbrev pub to_env : Rbac.AssignedKubernetesEnv → AssignedKubernetesEnv
to_env env = record {
  cluster_id = env.cluster_id;
  cluster_name = env.cluster_name;
  namespace = env.namespace;
}

unfoldable pub new_user_info_from_authorize_response :
    {E : Type 0} → AuthorizeResponse → Outcome E UserInfo
new_user_info_from_authorize_response resp = do
  project ← deref resp.project
  user ← deref resp.user
  organization ← deref resp.organization
  ok (record {
    user_id = user.id;
    internal_user_id = user.internal_id;
    organization_id = organization.id;
    organization_title = organization.title;
    project_id = project.id;
    project_title = project.title;
    assigned_kubernetes_envs = map to_env project.assigned_kubernetes_envs;
    tenant_id = resp.tenant_id;
    api_key_id = resp.api_key_id;
    excluded_from_rate_limiting = resp.excluded_from_rate_limiting;
  })

unfoldable pub new_cluster_info_from_authorize_response :
    {E : Type 0} → AuthorizeWorkerResponse → Outcome E ClusterInfo
new_cluster_info_from_authorize_response resp = do
  cluster ← deref resp.cluster
  ok (record { cluster_id = cluster.id; cluster_name = cluster.name; tenant_id = resp.tenant_id })
