-- ===== src/Server/Authorize/Tenant.antt =====
-- Tenants: what `Authorize` lets through stays within one tenant, given the tables that
-- server/internal/cache/cache.go publishes.
use text.Mathlib.Text.{starts_with}
use rbac_manager.Prelude.{
  ℕ, String, false, none, some, List, [], ◌≡◌, refl, sym, ◌∙◌, ap, In, arith,
}
use mathlib.Core.Path.{subst}
use rbac_manager.GoMap.{lookup_all}
use rbac_manager.UserManager.{ProjectAssignment}
use rbac_manager.Rbac.{
  AuthorizeRequest, AuthorizeResponse, AssignedKubernetesEnv, Organization, Project,
}
use rbac_manager.Cache
use rbac_manager.Cache.{C, O, U, Store}
use rbac_manager.Cache.Consistency.{IsConsistent}
use rbac_manager.Server.{Server, store_getter}
use rbac_manager.Server.Reads.{steady}
use rbac_manager.Server.Envs.{env_at, assigned_kubernetes_envs_internal}
use rbac_manager.Server.Envs.Namespaces.{assigned_kubernetes_envs_internal_iff}
use rbac_manager.Server.Projects.Roles.{org_role_of-In, org_role_of-first}
use rbac_manager.Server.Authorize.{authorize}
use rbac_manager.Server.Authorize.Decision.{authorize_iff}
use rbac_manager.Server.Authorize.Grounds.{Grants, IsGranted, by_key, for_organizations, by_roles}

-- The organization that the response names is cached, with that title, in the response's tenant.
abbrev pub NamesOrganization : Store → AuthorizeResponse → Type 0
NamesOrganization c r =
    (o : Organization) × (org : O) × (r.organization ≡ some o)
    × (Cache.get_organization_by_id c o.id ≡ some org)
    × (o.title ≡ org.title)
    × (org.tenant_id ≡ r.tenant_id)

-- The environment is in a cluster that the store lists for the tenant, and that is of the tenant.
abbrev pub IsOwned : Store → String → AssignedKubernetesEnv → Type 0
IsOwned c tenant_id e =
    (cl : C) × In cl (Cache.get_clusters_by_tenant_id c tenant_id)
    × (cl.tenant_id ≡ tenant_id)
    × (e ≡ env_at cl e.namespace)

module _ (c : Store) (consistent : IsConsistent c.tables) where
  -- A membership that the store records is within the user's tenant.
  member_tenant :
      (user_id : String) (u : U) (org_id : String) (org : O) (ou : Cache.Ou)
      → Cache.get_user_by_id c user_id ≡ some u
      → Cache.get_organization_by_id c org_id ≡ some org
      → In ou (Cache.get_organizations_by_user_id c user_id)
      → ou.organization_id ≡ org_id
      → org.tenant_id ≡ u.tenant_id
  unfolding Cache.get_user_by_id Cache.get_organization_by_id Cache.get_organizations_by_user_id
  member_tenant user_id u org_id org ou is_u is_org i is =
      let (u', org', found, known, same) = consistent.members.at user_id ou i in
      ground (arith, found, known, same, is)

  pub env_tenant :
      (namespace : String) (as' : List ProjectAssignment) (tenant_id : String)
      (e : AssignedKubernetesEnv)
      → In e (
          assigned_kubernetes_envs_internal namespace as'
            (Cache.get_clusters_by_tenant_id c tenant_id))
      → IsOwned c tenant_id e
  unfolding Cache.get_clusters_by_tenant_id
  env_tenant namespace as' tenant_id e i =
      let clusters = lookup_all tenant_id c.clusters_by_tenant_id in
      let (cl, j, (ns, _, is)) =
        (assigned_kubernetes_envs_internal_iff namespace as' clusters e).0 i in
      (
        cl,
        j,
        consistent.cluster_tenants.at tenant_id cl j,
        is ∙ ap (λ (x : AssignedKubernetesEnv). env_at cl x.namespace) (sym is),
      )

  module _ (normalize : String → String) (s : Server) (req : AuthorizeRequest)
      (r : AuthorizeResponse) (n : ℕ)
      (granted : Grants (authorize normalize s req (steady (store_getter c)) n).0 r) where
    grounds : IsGranted normalize s (store_getter c) req r
    grounds = ((authorize_iff normalize s (store_getter c) req r n).0 granted).1

    -- With consistent tables and no update of them in between: where a request is let through whose
    -- token is no API key's secret and whose resource's name does not begin with
    -- `api.organizations`, the response names an organization that is cached, with that title, in
    -- the tenant that the response names.
    pub organization_tenant :
        Cache.get_api_key_by_secret c req.token ≡ none
        → starts_with req.access_resource "api.organizations" ≡ false
        → NamesOrganization c r
    unfolding store_getter
    organization_tenant no_key other = elim grounds [
      | by_key key project org found _ _ _ _ ↦ absurd (ground arith)
      | for_organizations is u _ organizations _ ↦ absurd (ground arith)
      | by_roles is u pr org known _ for has_org _ is_r ↦
          let (ou, i, is_org, _) = org_role_of-In pr.project.organization_id _ (λ e.
            for.has_org_role
              (for.org_role_is ∙ sym (org_role_of-first pr.project.organization_id _) ∙ e)) in
          (
            record { id = pr.project.organization_id; title = org.title },
            org,
            ap (λ (x : AuthorizeResponse). x.organization) is_r,
            has_org,
            refl,
            member_tenant (normalize is.extra.email) u pr.project.organization_id org ou known.known
                  has_org i is_org
                ∙ sym (ap (λ (x : AuthorizeResponse). x.tenant_id) is_r),
          )
    ]

    listed_tenant :
        (p : Project) (e : AssignedKubernetesEnv) (namespace : String)
        (as' : List ProjectAssignment)
        → (p.assigned_kubernetes_envs
            ≡ assigned_kubernetes_envs_internal namespace as'
                (Cache.get_clusters_by_tenant_id c r.tenant_id))
        → In e p.assigned_kubernetes_envs
        → IsOwned c r.tenant_id e
    listed_tenant p e namespace as' is i =
        env_tenant namespace as' r.tenant_id e (subst (In e) is i)

    -- With consistent tables and no update of them in between: each Kubernetes environment that the
    -- project of an authorized response lists is in a cached cluster of the tenant that the response
    -- names.
    pub envs_tenant :
        (p : Project) (e : AssignedKubernetesEnv)
        → r.project ≡ some p
        → In e p.assigned_kubernetes_envs
        → IsOwned c r.tenant_id e
    unfolding store_getter
    envs_tenant p e is_p i = elim grounds [
      | by_key key project org _ _ _ _ is_r ↦
          listed_tenant p e project.kubernetes_namespace project.assignments (ground arith) i
      | for_organizations is u _ organizations is_r ↦
          let none_listed : p.assigned_kubernetes_envs ≡ [] = ground arith in
          absurd (subst (In e) none_listed i)
      | by_roles is u pr org _ _ _ _ _ is_r ↦
          listed_tenant p e pr.project.kubernetes_namespace pr.project.assignments (ground arith) i
    ]
