-- ===== src/Server/Authorize/Moments.antt =====
-- `Authorize` grants a request exactly on one of the grounds, each as the read that looks for it finds
-- it, whatever updates of the cache fall into the run.
pub mod Sound
pub mod Decided
use text.Mathlib.Text.{starts_with}
use rbac_manager.Prelude.{
  ℕ, suc, String, true, false, ◌⊎◌, none, some, ◌≡◌, ◌↔◌, arith, eq_iff, is_empty, inl, inr,
  Bool-cases, Option-cases,
}
use rbac_manager.Outcome.{Outcome, ok, Outcome-cases}
use rbac_manager.Rbac.{AuthorizeRequest, AuthorizeResponse}
use rbac_manager.Token.{Introspection}
use rbac_manager.Cache.{K, O, P, U}
use rbac_manager.Server.{Server}
use rbac_manager.Server.Reads.{History, attempt, ◌>>=◌}
use rbac_manager.Server.Roles.{to_scope}
use rbac_manager.Server.Roles.Allowed.{Allowed, authorized_iff}
use rbac_manager.Server.Envs.{assigned_kubernetes_envs}
use rbac_manager.Server.Projects.{find_associated_project_and_roles, ProjectAndRoles, ProjectError}
use rbac_manager.Server.Authorize.{
  authorize_key, authorize_in, authorize_user, authorize_token, authorize,
}
use rbac_manager.Server.Projects.Moments.Roles.{IsForAt}
use rbac_manager.Server.Authorize.Grounds.{
  Grants, IsUser, requested_scope, user_of, key_response, organizations_response, user_response,
  IsComplete,
}

module _ (normalize : String → String) (s : Server) (h : History) (req : AuthorizeRequest) where
  -- The token was no API key's secret at the read `n`, and it is an active token of the user `u`, who
  -- was cached at the next read.
  pub record IsUserAt (n : ℕ) (is : Introspection) (u : U) : Type 0 where
    pub no_key : (h n).get_api_key_by_secret req.token ≡ none
    pub introspected : s.token_introspector req.token ≡ ok is
    pub active : is.active ≡ true
    pub known : (h (suc n)).get_user_by_id (normalize is.extra.email) ≡ some u

  -- The grounds on which a run that begins with the read `n` lets a request through, and the response
  -- that it gives.
  pub data IsGrantedAt (n : ℕ) (r : AuthorizeResponse) : Type 0 where
    key_found :
        (key : K) (project : P) (org : O)
        → (h n).get_api_key_by_secret req.token ≡ some key
        → (h (suc n)).get_project_by_id key.project_id ≡ some project
        → (h (suc (suc n))).get_organization_by_id key.organization_id ≡ some org
        → Allowed s (requested_scope req) key.organization_role key.project_role
        → r ≡ key_response normalize s (h (suc (suc (suc n)))) req key project org
        → IsGrantedAt n r
    plain_user :
        (is : Introspection) (u : U)
        → IsUserAt n is u
        → starts_with req.access_resource "api.organizations" ≡ true
        → r ≡ organizations_response normalize s (h (suc n)) req (normalize is.extra.email) u
        → IsGrantedAt n r
    roles_found :
        (is : Introspection) (u : U) (pr : ProjectAndRoles) (k : ℕ) (org : O)
        → IsUserAt n is u
        → starts_with req.access_resource "api.organizations" ≡ false
        → IsForAt h (suc (suc n)) k (normalize is.extra.email) req.organization_id req.project_id pr
        → (h k).get_organization_by_id pr.project.organization_id ≡ some org
        → Allowed s (requested_scope req) pr.org_role pr.project_role
        → r ≡ user_response normalize s (h (suc k)) req (normalize is.extra.email) u pr.project org
        → IsGrantedAt n r
