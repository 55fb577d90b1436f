-- ===== src/Auth/Interceptor/Validated/Users.antt =====
-- A gRPC call with the token of a user, from the interceptor to the validator and the cache.
use Prim.Native.String.{String, ◌++◌}
use text.Mathlib.Text.{starts_with}
use rbac_manager.Prelude.{
  ℕ, true, false, Option, none, some, List, [], map, ◌≡◌, ◌≢◌, ◌↔◌, refl, ap, ◌∙◌, arith,
}
use rbac_manager.Outcome.{Outcome, ok, map_err, map_err-eq-ok}
use rbac_manager.GoMap.{GoMap}
use rbac_manager.Rbac.{AuthorizeRequest, AuthorizeResponse, Status}
use rbac_manager.Token.{Introspection}
use rbac_manager.Token.Validator.{KeySet, JwtToken, IntrospectError}
use rbac_manager.Token.Validator.Introspect.{IsActive, token_introspect_iff}
use rbac_manager.Cache.{C, O, P, U}
use rbac_manager.Server.{CacheGetter, Server}
use rbac_manager.Server.Projects.{ProjectAndRoles}
use rbac_manager.Server.Projects.Roles.{IsFor}
use rbac_manager.Server.Roles.Allowed.{Allowed}
use rbac_manager.Server.Envs.{assigned_kubernetes_envs_internal}
use rbac_manager.Server.Authorize.Grounds.{
  requested_scope, IsGranted, IsUser, by_key, for_organizations, by_roles, organizations_response,
  user_response,
}
use rbac_manager.Auth.{Context, UserInfo, to_env, new_user_info_from_authorize_response}
use rbac_manager.Auth.Text.Method.{NoSlash}
use rbac_manager.Auth.Interceptor.{admit, contains, unary}
use rbac_manager.Auth.Interceptor.Validated.{validated}
use rbac_manager.Auth.Interceptor.Granted.{fronted, request, IsPassed, IsPassed-iff}
use rbac_manager.Auth.Interceptor.Passing.{unary-passes, HasToken}

-- The user of a response for a resource of no project.
abbrev pub plain_user : String → U → UserInfo
plain_user user_id u = record {
  user_id = user_id;
  internal_user_id = u.internal_id;
  organization_id = "";
  organization_title = "";
  project_id = "";
  project_title = "";
  assigned_kubernetes_envs = [];
  tenant_id = u.tenant_id;
  api_key_id = "";
  excluded_from_rate_limiting = false;
}

-- The user in a project and its organization; the clusters are those of the user's tenant.
abbrev pub project_user : List C → String → U → P → O → UserInfo
project_user clusters user_id u project org = record {
  user_id = user_id;
  internal_user_id = u.internal_id;
  organization_id = project.organization_id;
  organization_title = org.title;
  project_id = project.id;
  project_title = project.title;
  assigned_kubernetes_envs =
      map to_env (
        assigned_kubernetes_envs_internal project.kubernetes_namespace project.assignments
          clusters);
  tenant_id = u.tenant_id;
  api_key_id = "";
  excluded_from_rate_limiting = false;
}

module _ {Rsa : Type 0} (parse : String → Rsa → Option JwtToken)
    (fetch : Outcome String (KeySet Rsa)) (text_of_error : IntrospectError → String)
    (mapper : GoMap (List String)) (normalize : String → String) (g : CacheGetter) (n : ℕ)
    (text_of : Status → String) (Url : Type 0) (resource_of : String → String) where
  abbrev pub s : Server
  s = validated parse fetch text_of_error mapper

  module _ (ctx : Context) (service method token : String) where
    abbrev pub asking : AuthorizeRequest
    asking = request normalize s g n text_of Url resource_of ctx service method token

    -- The token is valid and names a cached user, under the normalized email of its claims; and the
    -- resource is one of organizations, or the user's roles in the project that the call is about
    -- permit it.
    pub data IsValidated (passed : Context) : Type 0 where
      for_plain :
          (is : Introspection) (u : U)
          → IsActive parse fetch token is
          → g.get_user_by_id (normalize is.extra.email) ≡ some u
          → starts_with (resource_of (service ++ ("/" ++ method))) "api.organizations" ≡ true
          → passed ≡ record ctx { user_info = some (plain_user (normalize is.extra.email) u) }
          → IsValidated passed
      for_project :
          (is : Introspection) (u : U) (pr : ProjectAndRoles) (org : O)
          → IsActive parse fetch token is
          → g.get_user_by_id (normalize is.extra.email) ≡ some u
          → starts_with (resource_of (service ++ ("/" ++ method))) "api.organizations" ≡ false
          → IsFor g (normalize is.extra.email) asking.organization_id asking.project_id pr
          → g.get_organization_by_id pr.project.organization_id ≡ some org
          → Allowed s (requested_scope asking) pr.org_role pr.project_role
          → passed ≡ record ctx {
            user_info = some (
                project_user
                  (g.get_clusters_by_tenant_id u.tenant_id)
                  (normalize is.extra.email)
                  u
                  pr.project
                  org);
          }
          → IsValidated passed

    IsUser-IsActive :
        (is : Introspection) (u : U)
        → IsUser normalize s g asking is u
        → IsActive parse fetch token is
    IsUser-IsActive is u known =
        (token_introspect_iff parse fetch token is).0
          (map_err-eq-ok text_of_error _ known.introspected, known.active)

    IsActive-IsUser :
        (is : Introspection) (u : U)
        → g.get_api_key_by_secret token ≡ none
        → IsActive parse fetch token is
        → g.get_user_by_id (normalize is.extra.email) ≡ some u
        → IsUser normalize s g asking is u
    IsActive-IsUser is u no_key active known =
        let (introspected, is_active) = (token_introspect_iff parse fetch token is).1 active in
        record {
          no_key = no_key;
          introspected = ap (map_err text_of_error) introspected;
          active = is_active;
          known = known;
        }

    granted_user :
        (resp : AuthorizeResponse) (info : UserInfo) (passed : Context)
        → g.get_api_key_by_secret token ≡ none
        → IsGranted normalize s g asking resp
        → new_user_info_from_authorize_response {E = Status} resp ≡ ok info
        → passed ≡ record ctx { user_info = some info }
        → IsValidated passed
    unfolding new_user_info_from_authorize_response
    granted_user resp info passed no_key
          (by_key k project org found has_project has_org allowed is_r) has_info is_passed =
        absurd (ground arith)
    granted_user resp info passed no_key (for_organizations is u known organizations is_r) has_info
          is_passed =
        for_plain is u (IsUser-IsActive is u known) known.known organizations
          (is_passed ∙ ap (λ i. record ctx { user_info = some i }) (ground arith))
    granted_user resp info passed no_key (by_roles is u pr org known other for has_org allowed is_r)
          has_info is_passed =
        for_project is u pr org (IsUser-IsActive is u known) known.known other for has_org allowed
          (is_passed ∙ ap (λ i. record ctx { user_info = some i }) (ground arith))

    validated_granted :
        (passed : Context)
        → g.get_api_key_by_secret token ≡ none
        → IsValidated passed
        → IsPassed normalize s g n text_of Url resource_of ctx service method token passed
    unfolding new_user_info_from_authorize_response
    validated_granted passed no_key (for_plain is u active known organizations is_passed) = record {
      resp = organizations_response normalize s g asking (normalize is.extra.email) u;
      info = plain_user (normalize is.extra.email) u;
      granted =
          for_organizations is u (IsActive-IsUser is u no_key active known) organizations refl;
      has_info = refl;
      is_passed = is_passed;
    }
    validated_granted passed no_key
          (for_project is u pr org active known other for has_org allowed is_passed) =
        record {
          resp = user_response normalize s g asking (normalize is.extra.email) u pr.project org;
          info =
              project_user (g.get_clusters_by_tenant_id u.tenant_id) (normalize is.extra.email) u
                pr.project org;
          granted =
              by_roles is u pr org (IsActive-IsUser is u no_key active known) other for has_org
                allowed refl;
          has_info = refl;
          is_passed = is_passed;
        }

    module _ (plain : NoSlash method) (has_token : HasToken ctx token) (given : token ≢ "")
        (named : resource_of (service ++ ("/" ++ method)) ≢ "")
        (no_key : g.get_api_key_by_secret token ≡ none) where
      IsValidated-iff :
          (passed : Context)
          → (admit
                (fronted normalize s g n text_of Url resource_of)
                ctx
                (service ++ ("/" ++ method))
              ≡ ok passed)
            ↔ IsValidated passed
      IsValidated-iff passed =
          let same =
            IsPassed-iff normalize s g n text_of Url resource_of ctx service method token passed
              plain has_token given named in
          (
            λ e.
                let p = same.0 e in
                granted_user p.resp p.info passed no_key p.granted p.has_info p.is_passed,
            λ v. same.1 (validated_granted passed no_key v),
          )

      module _ {E Req Resp : Type 0} (status : Status → E) (exclude_methods : List String)
          (req : Req) (handler : Context → Req → Outcome E Resp) (r : Resp) where
        -- With no update of the cache during the call: where the call carries a token that is not
        -- empty and not the secret of a cached API key, the service's resource is not empty, and the
        -- method, whose name has no slash, is not excluded, the interceptor in front of a server with
        -- the validator returns `r` exactly when the key set could be fetched, a key of it makes the
        -- token a valid one and only RSA keys that do not stand before that key, the claims have an
        -- email (the claim `email`, or else `sub`), which names a cached user, and an ID of a user (the
        -- claim `uid`, or else `sub`), and either the resource's name begins with `api.organizations`,
        -- or the project that the call is about has a cached organization, in which the user has a
        -- specified role, and the user's roles there permit what is asked for; and the handler returns
        -- `r` in the call's context with that user, and with the project if any.
        pub unary-IsValidated_iff :
            contains exclude_methods (service ++ ("/" ++ method)) ≡ false
            → (unary status
                  (fronted normalize s g n text_of Url resource_of)
                  exclude_methods
                  ctx
                  req
                  (service ++ ("/" ++ method))
                  handler
                ≡ ok r)
              ↔ ((passed : Context) × IsValidated passed × (handler passed req ≡ ok r))
        unary-IsValidated_iff =
            unary-passes (fronted normalize s g n text_of Url resource_of) ctx
              (service ++ ("/" ++ method)) status exclude_methods req handler r IsValidated-iff
