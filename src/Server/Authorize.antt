-- ===== src/Server/Authorize.antt =====
-- authorization.go, `Authorize`.
pub mod Decision
pub mod Errors
pub mod Grounds
pub mod Interleaved
pub mod Moments
pub mod Revoked
pub mod Tenant
use Prim.Native.String
use text.Mathlib.Text.{starts_with}
use rbac_manager.Prelude.{String, true, false, not, none, some, if◌then◌else◌, is_empty}
use rbac_manager.Outcome.{ok, err, map_err}
use rbac_manager.Rbac.{
  AuthorizeRequest, AuthorizeResponse, denied, empty_organization, empty_project, Status,
  invalid_argument, internal,
}
use rbac_manager.Cache.{K, U}
use rbac_manager.Server.{Server}
use rbac_manager.Server.Reads.{Action, ask, lift, attempt, ◌>>=◌}
use rbac_manager.Server.Roles.{authorized, to_scope}
use rbac_manager.Server.Envs.{assigned_kubernetes_envs}
use rbac_manager.Server.Projects.{find_associated_project_and_roles, ProjectAndRoles}

abbrev pub deny : Action Status AuthorizeResponse
deny = lift (ok denied)

-- The request's token is the secret of the API key `key`.
unfoldable pub authorize_key : Server → AuthorizeRequest → K → Action Status AuthorizeResponse
authorize_key s req key = do
  found_project ← ask (λ g. g.get_project_by_id key.project_id)
  elim found_project [
    | none ↦ deny
    | some project ↦ do
      found_org ← ask (λ g. g.get_organization_by_id key.organization_id)
      elim found_org [
        | none ↦ deny
        | some org ↦ do
          envs ←
              assigned_kubernetes_envs project.kubernetes_namespace project.assignments
                key.tenant_id
          lift (
              ok (record {
                authorized = authorized s (to_scope req) key.organization_role key.project_role;
                user = some (record { id = key.user_id; internal_id = key.internal_user_id });
                organization = some (record { id = key.organization_id; title = org.title });
                project = some (record {
                  id = key.project_id;
                  title = project.title;
                  assigned_kubernetes_envs = envs;
                });
                tenant_id = key.tenant_id;
                api_key_id = key.key_id;
                excluded_from_rate_limiting = key.excluded_from_rate_limiting;
              }))
      ]
  ]

-- The response for the project and the roles that were found for a user.
unfoldable pub authorize_in :
    Server → AuthorizeRequest → String → U → ProjectAndRoles → Action Status AuthorizeResponse
authorize_in s req user_id u pr = do
  found_org ← ask (λ g. g.get_organization_by_id pr.project.organization_id)
  elim found_org [
    | none ↦ deny
    | some org ↦ do
      envs ←
          assigned_kubernetes_envs pr.project.kubernetes_namespace pr.project.assignments
            u.tenant_id
      lift (
          ok (record {
            authorized = authorized s (to_scope req) pr.org_role pr.project_role;
            user = some (record { id = user_id; internal_id = u.internal_id });
            organization = some (record { id = pr.project.organization_id; title = org.title });
            project = some (record {
              id = pr.project.id;
              title = pr.project.title;
              assigned_kubernetes_envs = envs;
            });
            tenant_id = u.tenant_id;
            api_key_id = "";
            excluded_from_rate_limiting = false;
          }))
  ]

-- The user is known: `Authorize` from the test for organization resources on.
unfoldable pub authorize_user :
    Server → AuthorizeRequest → String → U → Action Status AuthorizeResponse
authorize_user s req user_id u =
    if starts_with req.access_resource "api.organizations"
    then (lift (
        ok (record {
          authorized = true;
          user = some (record { id = user_id; internal_id = u.internal_id });
          organization = some empty_organization;
          project = some empty_project;
          tenant_id = u.tenant_id;
          api_key_id = "";
          excluded_from_rate_limiting = false;
        })))
    else (do
      pr ← attempt (find_associated_project_and_roles user_id req.organization_id req.project_id)
      elim pr [ none ↦ deny | some pr ↦ authorize_in s req user_id u pr ])

module _ (normalize : String → String) where
  -- The token is no API key: `Authorize` from the introspection on. `normalize` is
  -- `userid.Normalize` of user-manager.
  unfoldable pub authorize_token : Server → AuthorizeRequest → Action Status AuthorizeResponse
  authorize_token s req = do
    is ← lift (
        map_err
          (λ e. record { code = internal; message = String.◌++◌ "failed to introspect token: " e })
          (s.token_introspector req.token))
    if not is.active then deny else do
      let user_id = normalize is.extra.email
      u ← ask (λ g. g.get_user_by_id user_id)
      elim u [ none ↦ deny | some u ↦ authorize_user s req user_id u ]

  unfoldable pub authorize : Server → AuthorizeRequest → Action Status AuthorizeResponse
  authorize s req =
      if is_empty req.token
      then lift (err (record { code = invalid_argument; message = "token is required" }))
      else if is_empty req.access_resource
      then lift (err (record { code = invalid_argument; message = "access resource is required" }))
      else if is_empty req.capability
      then lift (err (record { code = invalid_argument; message = "capability is required" }))
      else (do
        key ← ask (λ g. g.get_api_key_by_secret req.token)
        elim key [ some key ↦ authorize_key s req key | none ↦ authorize_token s req ])
