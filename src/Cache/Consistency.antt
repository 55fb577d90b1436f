-- ===== src/Cache/Consistency.antt =====
-- The invariant of the tables that server/internal/cache/cache.go publishes: what the readers in
-- server/internal/server/authorization.go may rely on, from one table to another.
mod Loops
pub mod Users
pub mod Preservation
use rbac_manager.Prelude.{String, ◌≡◌, some}
use rbac_manager.GoMap.{lookup}
use rbac_manager.GoMap.Invariant.{Each, EachItem}
use rbac_manager.Cache.{C, O, Ou, P, Pu, U, Tables}

-- A user's membership `ou` in an organization: user and organization are cached, in one tenant.
abbrev pub IsMember : Tables → String → Ou → Type 0
IsMember t user_id ou =
    (u : U) × (o : O) × (lookup user_id t.users_by_id ≡ some u)
    × (lookup ou.organization_id t.orgs_by_id ≡ some o)
    × (u.tenant_id ≡ o.tenant_id)

pub record IsConsistent (t : Tables) : Type 0 where
  pub org_ids : Each (λ k (o : O). o.id ≡ k) t.orgs_by_id
  pub project_ids : Each (λ k (p : P). p.id ≡ k) t.projects_by_id
  pub user_ids : Each (λ k (u : U). u.id ≡ k) t.users_by_id
  pub cluster_tenants : EachItem (λ k (c : C). c.tenant_id ≡ k) t.clusters_by_tenant_id
  pub project_orgs : EachItem (λ k (p : P). p.organization_id ≡ k) t.projects_by_organization_id
  pub user_projects :
      EachItem
        (λ k (pu : Pu). lookup pu.project.id t.projects_by_id ≡ some pu.project)
        t.projects_by_user_id
  pub members : EachItem (IsMember t) t.orgs_by_user_id
