-- ===== src/Server/Authorize/Moments/Decided.antt =====
-- What a run that has found the grounds answers, and so exactly when `Authorize` lets a request through.
use text.Mathlib.Text.{starts_with}
use rbac_manager.Prelude.{
  ℕ, suc, String, true, false, ◌⊎◌, none, some, ◌≡◌, ◌↔◌, arith, eq_iff, inl, inr,
}
use rbac_manager.Rbac.{AuthorizeRequest, AuthorizeResponse}
use rbac_manager.Token.{Introspection}
use rbac_manager.Cache.{K, O, P, U}
use rbac_manager.Server.{Server}
use rbac_manager.Server.Reads.{History, attempt, ◌>>=◌}
use rbac_manager.Server.Roles.{to_scope}
use rbac_manager.Server.Roles.Allowed.{Allowed, authorized_iff}
use rbac_manager.Server.Envs.{assigned_kubernetes_envs}
use rbac_manager.Server.Projects.{ProjectAndRoles}
use rbac_manager.Server.Authorize.{
  authorize_key, authorize_in, authorize_user, authorize_token, authorize,
}
use rbac_manager.Server.Projects.Moments.Roles.{IsForAt, IsForAt-iff}
use rbac_manager.Server.Authorize.Grounds.{
  requested_scope, Grants, key_response, organizations_response, user_response, IsComplete,
}
use rbac_manager.Server.Authorize.Moments.{
  IsUserAt, IsGrantedAt, key_found, plain_user, roles_found,
}
use rbac_manager.Server.Authorize.Moments.Sound.{authorize_sound}

module _ (normalize : String → String) (s : Server) (h : History) (req : AuthorizeRequest) where
  module _ (r : AuthorizeResponse) where
    key_run :
        (key : K) (project : P) (org : O) (n : ℕ)
        → (h (suc n)).get_project_by_id key.project_id ≡ some project
        → (h (suc (suc n))).get_organization_by_id key.organization_id ≡ some org
        → Allowed s (requested_scope req) key.organization_role key.project_role
        → r ≡ key_response normalize s (h (suc (suc (suc n)))) req key project org
        → Grants (authorize_key s req key h (suc n)).0 r
    unfolding to_scope authorize_key assigned_kubernetes_envs ◌>>=◌
    key_run key project org n has_project has_org allowed is_r =
        let may =
          (authorized_iff s (requested_scope req) key.organization_role key.project_role).1
            allowed in
        ground arith

    in_run :
        (user_id : String) (u : U) (pr : ProjectAndRoles) (org : O) (k : ℕ)
        → (h k).get_organization_by_id pr.project.organization_id ≡ some org
        → Allowed s (requested_scope req) pr.org_role pr.project_role
        → r ≡ user_response normalize s (h (suc k)) req user_id u pr.project org
        → Grants (authorize_in s req user_id u pr h k).0 r
    unfolding to_scope authorize_in assigned_kubernetes_envs ◌>>=◌
    in_run user_id u pr org k has_org allowed is_r =
        let may = (authorized_iff s (requested_scope req) pr.org_role pr.project_role).1 allowed in
        ground arith

    -- The run once the token's user is known.
    token_run :
        (is : Introspection) (u : U) (n : ℕ)
        → IsUserAt normalize s h req n is u
        → Grants (authorize_user s req (normalize is.extra.email) u h (suc (suc n))).0 r
        → Grants (authorize_token normalize s req h (suc n)).0 r
    unfolding authorize_token ◌>>=◌
    token_run is u n k e = ground (arith, k.introspected, k.active, k.known)

    plain_run :
        (is : Introspection) (u : U) (n : ℕ)
        → starts_with req.access_resource "api.organizations" ≡ true
        → r ≡ organizations_response normalize s (h (suc n)) req (normalize is.extra.email) u
        → Grants (authorize_user s req (normalize is.extra.email) u h (suc (suc n))).0 r
    unfolding authorize_user ◌>>=◌
    plain_run is u n organizations is_r = ground arith

    roles_run :
        (is : Introspection) (u : U) (pr : ProjectAndRoles) (k : ℕ) (n : ℕ)
        → starts_with req.access_resource "api.organizations" ≡ false
        → IsForAt h (suc (suc n)) k (normalize is.extra.email) req.organization_id req.project_id pr
        → Grants (authorize_in s req (normalize is.extra.email) u pr h k).0 r
        → Grants (authorize_user s req (normalize is.extra.email) u h (suc (suc n))).0 r
    unfolding authorize_user attempt ◌>>=◌
    roles_run is u pr k n other for e =
        let found =
          (IsForAt-iff h (normalize is.extra.email) req.organization_id req.project_id pr
              (suc (suc n)) k).1
            for in
        ground arith

    -- The run of a complete request, by what the first read finds.
    start_run :
        (n : ℕ)
        → IsComplete normalize s (h n) req
        → ((key : K) × ((h n).get_api_key_by_secret req.token ≡ some key)
            × Grants (authorize_key s req key h (suc n)).0 r)
          ⊎ (((h n).get_api_key_by_secret req.token ≡ none)
              × Grants (authorize_token normalize s req h (suc n)).0 r)
        → Grants (authorize normalize s req h n).0 r
    unfolding authorize ◌>>=◌
    start_run n c e = ground (
      arith,
      c.token,
      c.access_resource,
      c.capability,
      eq_iff req.token "",
      eq_iff req.access_resource "",
      eq_iff req.capability "",
    )

    granted_complete :
        (n : ℕ)
        → IsComplete normalize s (h n) req
        → IsGrantedAt normalize s h req n r
        → Grants (authorize normalize s req h n).0 r
    granted_complete n c (key_found key project org found has_project has_org allowed is_r) =
        start_run n c (inl (key, found, key_run key project org n has_project has_org allowed is_r))
    granted_complete n c (plain_user is u known organizations is_r) =
        start_run n c
          (inr (known.no_key, token_run is u n known (plain_run is u n organizations is_r)))
    granted_complete n c (roles_found is u pr k org known other found has_org allowed is_r) =
        start_run n c (
          inr (
            known.no_key,
            token_run is u n known (
                roles_run is u pr k n other found
                  (in_run (normalize is.extra.email) u pr org k has_org allowed is_r)),
          ))

    -- Whatever updates of the cache fall into a run that begins with the read `n`: `Authorize` lets the
    -- request through exactly when its token, resource and capability are given, and it finds one of
    -- the grounds, each part of it in the cache as one read finds it. An API key at the first read, its
    -- project at the second and its organization at the third, and roles of the key that are configured
    -- with the scope. Or no such key but an active token, its user at the second read, and a resource
    -- of organizations. Or in place of that: the user's roles in projects at the third read and in
    -- organizations at the fourth; after these the project, by its ID at one read, or picked from those
    -- of the user and of the named organization at two reads, or from those of the user and of all of
    -- the user's organizations at one read each; the roles of the first memberships in the project and
    -- in its organization, of which the latter is specified and which are configured with the scope;
    -- and the project's organization at the next read. The response is the one that `IsGrantedAt`
    -- writes out, with the clusters that the last read finds.
    pub authorize-IsGrantedAt :
        (n : ℕ)
        → Grants (authorize normalize s req h n).0 r
          ↔ (IsComplete normalize s (h n) req × IsGrantedAt normalize s h req n r)
    authorize-IsGrantedAt n =
        (authorize_sound normalize s h req r n, λ (c, granted). granted_complete n c granted)
