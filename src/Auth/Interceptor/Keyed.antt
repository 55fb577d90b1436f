-- ===== src/Auth/Interceptor/Keyed.antt =====
-- A gRPC call with an API key, from the interceptor through `Authorize` to the cache.
pub mod Listed
use mathlib.Core.Path.{subst}
use mathlib.Core.Option.{some-injective}
use Prim.Native.String.{String, ◌++◌}
use rbac_manager.Prelude.{
  eq_iff, List, ℕ, Bool, true, false, if◌then◌else◌, none, some, map, ◌≡◌, ◌≢◌, ◌↔◌, refl, sym, ap,
  ◌∙◌, arith,
}
use rbac_manager.Outcome.{ok, map_err, map_err-eq-ok, ok-injective}
use rbac_manager.Rbac.{AuthorizeRequest, AuthorizeResponse, Status}
use rbac_manager.Cache.{C, K, O, P}
use rbac_manager.Server.{CacheGetter, Server}
use rbac_manager.Server.Reads.{steady}
use rbac_manager.Server.Roles.Allowed.{Allowed}
use rbac_manager.Server.Envs.{assigned_kubernetes_envs_internal}
use rbac_manager.Server.Authorize.{authorize}
use rbac_manager.Server.Authorize.Grounds.{
  requested_scope, IsGranted, by_key, for_organizations, by_roles, IsComplete, key_response,
}
use rbac_manager.Server.Authorize.Decision.{authorize_iff}
use rbac_manager.Auth.{Context, UserInfo, to_env, new_user_info_from_authorize_response}
use rbac_manager.Auth.Text.{capability_of_method}
use rbac_manager.Auth.Text.Method.{NoSlash, last_part-split_slash-append}
use rbac_manager.Auth.Interceptor.{Interceptor, admit}
use rbac_manager.Auth.Interceptor.Asked.{asked, full_method}
use rbac_manager.Auth.Interceptor.Granted.{fronted, request, IsPassed, IsPassed-iff}
use rbac_manager.Auth.Interceptor.Passing.{HasToken, token_iff, admit_sound, admit_complete}
use rbac_manager.Auth.Interceptor.Served.{served_by}

-- The owner of the API key, in the key's project and organization; the clusters are those of the tenant.
abbrev pub key_user : List C → K → P → O → UserInfo
key_user clusters key project org = record {
  user_id = key.user_id;
  internal_user_id = key.internal_user_id;
  organization_id = key.organization_id;
  organization_title = org.title;
  project_id = key.project_id;
  project_title = project.title;
  assigned_kubernetes_envs =
      map to_env (
        assigned_kubernetes_envs_internal project.kubernetes_namespace project.assignments
          clusters);
  tenant_id = key.tenant_id;
  api_key_id = key.key_id;
  excluded_from_rate_limiting = key.excluded_from_rate_limiting;
}

module _ (normalize : String → String) (s : Server) (g : CacheGetter) (n : ℕ)
    (text_of : Status → String) (Url : Type 0) (resource_of : String → String) where
  module _ (ctx : Context) (service method token : String) where
    abbrev asking : AuthorizeRequest
    asking = request normalize s g n text_of Url resource_of ctx service method token

    -- Project and organization of the key are cached, its roles permit the request, and `passed`
    -- carries the owner of the key.
    pub record IsKeyed (key : K) (passed : Context) : Type 0 where
      pub project : P
      pub org : O
      pub has_project : g.get_project_by_id key.project_id ≡ some project
      pub has_org : g.get_organization_by_id key.organization_id ≡ some org
      pub allowed : Allowed s (requested_scope asking) key.organization_role key.project_role
      pub is_passed : passed ≡ record ctx {
        user_info = some (key_user (g.get_clusters_by_tenant_id key.tenant_id) key project org);
      }

    granted_key :
        (key : K) (resp : AuthorizeResponse) (info : UserInfo) (passed : Context)
        → g.get_api_key_by_secret token ≡ some key
        → IsGranted normalize s g asking resp
        → new_user_info_from_authorize_response {E = Status} resp ≡ ok info
        → passed ≡ record ctx { user_info = some info }
        → IsKeyed key passed
    unfolding new_user_info_from_authorize_response
    granted_key key resp info passed found
          (by_key k project org found' has_project has_org allowed is_r) has_info is_passed =
        subst (λ x. IsKeyed x passed) (some-injective k key (sym found' ∙ found))
          (record {
            project = project;
            org = org;
            has_project = has_project;
            has_org = has_org;
            allowed = allowed;
            is_passed = is_passed ∙ ap (λ i. record ctx { user_info = some i }) (ground arith);
          })
    granted_key key resp info passed found (for_organizations is u known organizations is_r)
          has_info is_passed =
        absurd (ground (arith, known.no_key))
    granted_key key resp info passed found
          (by_roles is u pr org known other for has_org allowed is_r) has_info is_passed =
        absurd (ground (arith, known.no_key))

    module _ (key : K) (passed : Context) (plain : NoSlash method) (has_token : HasToken ctx token)
        (given : token ≢ "") (named : resource_of (service ++ ("/" ++ method)) ≢ "")
        (found : g.get_api_key_by_secret token ≡ some key) where
      keyed_granted :
          IsKeyed key passed
          → IsPassed normalize s g n text_of Url resource_of ctx service method token passed
      unfolding new_user_info_from_authorize_response
      keyed_granted k = record {
        resp = key_response normalize s g asking key k.project k.org;
        info = key_user (g.get_clusters_by_tenant_id key.tenant_id) key k.project k.org;
        granted = by_key key k.project k.org found k.has_project k.has_org k.allowed refl;
        has_info = refl;
        is_passed = k.is_passed;
      }

      -- The interceptor admits the call exactly as `IsKeyed` says.
      pub IsKeyed-iff :
          (admit (fronted normalize s g n text_of Url resource_of) ctx (service ++ ("/" ++ method))
            ≡ ok passed)
          ↔ IsKeyed key passed
      IsKeyed-iff =
          let same =
            IsPassed-iff normalize s g n text_of Url resource_of ctx service method token passed
              plain has_token given named in
          (
            λ e.
                let p = same.0 e in
                granted_key key p.resp p.info passed found p.granted p.has_info p.is_passed,
            λ k. same.1 (keyed_granted k),
          )
