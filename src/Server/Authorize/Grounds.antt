-- ===== src/Server/Authorize/Grounds.antt =====
-- On what grounds `Authorize` may let a request through, and the response that each ground gives.
use Prim.Native.String
use text.Mathlib.Text.{starts_with}
use rbac_manager.Prelude.{String, true, false, none, some, ◌≡◌, ◌≢◌}
use rbac_manager.Outcome.{Outcome, ok}
use rbac_manager.Rbac.{
  AuthorizeRequest, AuthorizeResponse, Status, empty_organization, empty_project,
}
use rbac_manager.Token.{Introspection}
use rbac_manager.Cache.{K, O, P, U}
use rbac_manager.Server.{CacheGetter, Server}
use rbac_manager.Server.Roles.Allowed.{Allowed}
use rbac_manager.Server.Envs.{assigned_kubernetes_envs_internal}
use rbac_manager.Server.Projects.{ProjectAndRoles}
use rbac_manager.Server.Projects.Roles.{IsFor}

-- The caller is let through: the call returns `r`, which is marked as authorized.
abbrev pub Grants : Outcome Status AuthorizeResponse → AuthorizeResponse → Type 0
Grants o r = (o ≡ ok r) × (r.authorized ≡ true)

-- The scope that a request needs.
abbrev pub requested_scope : AuthorizeRequest → String
requested_scope req = String.◌++◌ req.access_resource (String.◌++◌ "." req.capability)

module _ (normalize : String → String) (s : Server) (g : CacheGetter) (req : AuthorizeRequest) where
  abbrev pub user_of : Introspection → String
  user_of is = normalize is.extra.email

  -- The token is no API key's secret, and it is an active token of the cached user `u`.
  pub record IsUser (is : Introspection) (u : U) : Type 0 where
    pub no_key : g.get_api_key_by_secret req.token ≡ none
    pub introspected : s.token_introspector req.token ≡ ok is
    pub active : is.active ≡ true
    pub known : g.get_user_by_id (user_of is) ≡ some u

  -- The response to an API key with its project and organization.
  abbrev pub key_response : K → P → O → AuthorizeResponse
  key_response key project org = record {
    authorized = true;
    user = some (record { id = key.user_id; internal_id = key.internal_user_id });
    organization = some (record { id = key.organization_id; title = org.title });
    project = some (record {
      id = key.project_id;
      title = project.title;
      assigned_kubernetes_envs =
          assigned_kubernetes_envs_internal project.kubernetes_namespace project.assignments
            (g.get_clusters_by_tenant_id key.tenant_id);
    });
    tenant_id = key.tenant_id;
    api_key_id = key.key_id;
    excluded_from_rate_limiting = key.excluded_from_rate_limiting;
  }

  -- The response to a user, for a resource of no project.
  abbrev pub organizations_response : String → U → AuthorizeResponse
  organizations_response user_id u = record {
    authorized = true;
    user = some (record { id = user_id; internal_id = u.internal_id });
    organization = some empty_organization;
    project = some empty_project;
    tenant_id = u.tenant_id;
    api_key_id = "";
    excluded_from_rate_limiting = false;
  }

  -- The response to a user in a project.
  abbrev pub user_response : String → U → P → O → AuthorizeResponse
  user_response user_id u project org = record {
    authorized = true;
    user = some (record { id = user_id; internal_id = u.internal_id });
    organization = some (record { id = project.organization_id; title = org.title });
    project = some (record {
      id = project.id;
      title = project.title;
      assigned_kubernetes_envs =
          assigned_kubernetes_envs_internal project.kubernetes_namespace project.assignments
            (g.get_clusters_by_tenant_id u.tenant_id);
    });
    tenant_id = u.tenant_id;
    api_key_id = "";
    excluded_from_rate_limiting = false;
  }

  -- The grounds on which a request is let through, and the response that it gets.
  pub data IsGranted (r : AuthorizeResponse) : Type 0 where
    by_key :
        (key : K) (project : P) (org : O)
        → g.get_api_key_by_secret req.token ≡ some key
        → g.get_project_by_id key.project_id ≡ some project
        → g.get_organization_by_id key.organization_id ≡ some org
        → Allowed s (requested_scope req) key.organization_role key.project_role
        → r ≡ key_response key project org
        → IsGranted r
    for_organizations :
        (is : Introspection) (u : U)
        → IsUser is u
        → starts_with req.access_resource "api.organizations" ≡ true
        → r ≡ organizations_response (user_of is) u
        → IsGranted r
    by_roles :
        (is : Introspection) (u : U) (pr : ProjectAndRoles) (org : O)
        → IsUser is u
        → starts_with req.access_resource "api.organizations" ≡ false
        → IsFor g (user_of is) req.organization_id req.project_id pr
        → g.get_organization_by_id pr.project.organization_id ≡ some org
        → Allowed s (requested_scope req) pr.org_role pr.project_role
        → r ≡ user_response (user_of is) u pr.project org
        → IsGranted r

  pub record IsComplete : Type 0 where
    pub token : req.token ≢ ""
    pub access_resource : req.access_resource ≢ ""
    pub capability : req.capability ≢ ""
