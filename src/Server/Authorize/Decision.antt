-- ===== src/Server/Authorize/Decision.antt =====
-- `Authorize` grants a request exactly on one of the grounds, where no update falls into its run.
use rbac_manager.Prelude.{ℕ, suc, String, ◌↔◌, ap}
use rbac_manager.Outcome.{Outcome}
use rbac_manager.Rbac.{AuthorizeRequest, AuthorizeResponse}
use rbac_manager.Token.{Introspection}
use rbac_manager.Cache.{U}
use rbac_manager.Server.{CacheGetter, Server}
use rbac_manager.Server.Reads.{steady}
use rbac_manager.Server.Projects.{ProjectAndRoles, ProjectError, find_associated_project_and_roles}
use rbac_manager.Server.Projects.Moments.Roles.{IsForAt, IsForAt-iff}
use rbac_manager.Server.Projects.Roles.{IsFor, find_associated_project_and_roles_iff}
use rbac_manager.Server.Authorize.{authorize}
use rbac_manager.Server.Authorize.Grounds.{
  Grants, IsUser, IsGranted, by_key, for_organizations, by_roles, IsComplete,
}
use rbac_manager.Server.Authorize.Moments
use rbac_manager.Server.Authorize.Moments.{IsUserAt, IsGrantedAt}
use rbac_manager.Server.Authorize.Moments.Decided.{authorize-IsGrantedAt}

module _ (normalize : String → String) (s : Server) (g : CacheGetter) (req : AuthorizeRequest) where
  IsUserAt-IsUser :
      (n : ℕ) (is : Introspection) (u : U)
      → IsUserAt normalize s (steady g) req n is u
      → IsUser normalize s g req is u
  IsUserAt-IsUser n is u k = record {
    no_key = k.no_key;
    introspected = k.introspected;
    active = k.active;
    known = k.known;
  }

  IsUser-IsUserAt :
      (n : ℕ) (is : Introspection) (u : U)
      → IsUser normalize s g req is u
      → IsUserAt normalize s (steady g) req n is u
  IsUser-IsUserAt n is u k = record {
    no_key = k.no_key;
    introspected = k.introspected;
    active = k.active;
    known = k.known;
  }

  module _ (user_id : String) (pr : ProjectAndRoles) (n : ℕ) where
    abbrev run : Outcome ProjectError ProjectAndRoles × ℕ
    run = find_associated_project_and_roles user_id req.organization_id req.project_id (steady g) n

    IsForAt-IsFor :
        (k : ℕ)
        → IsForAt (steady g) n k user_id req.organization_id req.project_id pr
        → IsFor g user_id req.organization_id req.project_id pr
    IsForAt-IsFor k for =
        (find_associated_project_and_roles_iff g user_id req.organization_id req.project_id pr n).0
          (ap (λ (o : Outcome ProjectError ProjectAndRoles × ℕ). o.0)
            ((IsForAt-iff (steady g) user_id req.organization_id req.project_id pr n k).1 for))

    IsFor-IsForAt :
        IsFor g user_id req.organization_id req.project_id pr
        → (k : ℕ) × IsForAt (steady g) n k user_id req.organization_id req.project_id pr
    IsFor-IsForAt for =
        let found =
          (find_associated_project_and_roles_iff g user_id req.organization_id req.project_id pr
              n).1
            for in
        (
          run.1,
          (IsForAt-iff (steady g) user_id req.organization_id req.project_id pr n run.1).0
              (ap (λ (x : Outcome ProjectError ProjectAndRoles). (x, run.1)) found),
        )

  module _ (n : ℕ) (r : AuthorizeResponse) where
    IsGrantedAt-IsGranted :
        IsGrantedAt normalize s (steady g) req n r → IsGranted normalize s g req r
    IsGrantedAt-IsGranted
          (Moments.key_found key project org found has_project has_org allowed is_r) =
        by_key key project org found has_project has_org allowed is_r
    IsGrantedAt-IsGranted (Moments.plain_user is u known organizations is_r) =
        for_organizations is u (IsUserAt-IsUser n is u known) organizations is_r
    IsGrantedAt-IsGranted (Moments.roles_found is u pr k org known other for has_org allowed is_r) =
        by_roles is u pr org (IsUserAt-IsUser n is u known) other
          (IsForAt-IsFor (normalize is.extra.email) pr (suc (suc n)) k for) has_org allowed is_r

    IsGranted-IsGrantedAt :
        IsGranted normalize s g req r → IsGrantedAt normalize s (steady g) req n r
    IsGranted-IsGrantedAt (by_key key project org found has_project has_org allowed is_r) =
        Moments.key_found key project org found has_project has_org allowed is_r
    IsGranted-IsGrantedAt (for_organizations is u known organizations is_r) =
        Moments.plain_user is u (IsUser-IsUserAt n is u known) organizations is_r
    IsGranted-IsGrantedAt (by_roles is u pr org known other for has_org allowed is_r) =
        let (k, for') = IsFor-IsForAt (normalize is.extra.email) pr (suc (suc n)) for in
        Moments.roles_found is u pr k org (IsUser-IsUserAt n is u known) other for' has_org allowed
          is_r

  module _ (r : AuthorizeResponse) where
    -- Where no update of the cache falls into the run, `Authorize` lets a request through exactly
    -- when its token, resource and capability are given and there are grounds for it: its token is
    -- the secret of a cached API key with a cached project and organization and roles that are
    -- configured with the requested scope; or the token is no such secret but an active one of a
    -- cached user, and either the resource's name begins with `api.organizations`, or the project
    -- that the request is about has a cached organization, the user has a specified role in that
    -- organization, and the user's roles are configured with the scope. The response is then the one
    -- that `IsGranted` writes out.
    pub authorize_iff :
        (n : ℕ)
        → (Grants (authorize normalize s req (steady g) n).0 r)
          ↔ (IsComplete normalize s g req × IsGranted normalize s g req r)
    authorize_iff n =
        let same = authorize-IsGrantedAt normalize s (steady g) req r n in
        (
          λ e. let (complete, granted) = same.0 e in (complete, IsGrantedAt-IsGranted n r granted),
          λ (complete, granted). same.1 (complete, IsGranted-IsGrantedAt n r granted),
        )
