-- ===== src/Server/Projects/Moments/Roles.antt =====
-- The user's roles in the project that a request is about, read by read, whatever updates of the
-- cache fall into the run.
use mathlib.Core.Path.{subst}
use rbac_manager.Prelude.{ℕ, suc, String, List, ◌≡◌, ◌≢◌, ◌↔◌, arith, inl, inr}
use rbac_manager.Outcome.{Outcome, ok, Outcome-cases}
use rbac_manager.UserManager.{OrganizationRole}
use rbac_manager.Cache.{Ou, P, Pu}
use rbac_manager.Server.Reads.{History, ◌>>=◌}
use rbac_manager.Server.Projects.{
  ProjectError, ProjectAndRoles, find_associated_project, find_associated_project_and_roles,
}
use rbac_manager.Server.Projects.Roles.{
  first_project_role, first_org_role, project_role_of-first, org_role_of-first,
}
use rbac_manager.Server.Projects.Moments.{IsAssociatedAt, associated_sound, associated_complete}

module _ (h : History) where
  -- The project and the roles for it: the memberships are read first, the ones in projects before the
  -- ones in organizations, and then what the project is looked up by.
  pub record IsForAt (n k : ℕ) (user_id org_id project_id : String) (pr : ProjectAndRoles)
      : Type 0 where
    pub associated :
        IsAssociatedAt h
          (suc (suc n))
          k
          org_id
          project_id
          ((h n).get_projects_by_user_id user_id)
          ((h (suc n)).get_organizations_by_user_id user_id)
          pr.project
    pub project_role_is :
        pr.project_role ≡ first_project_role pr.project.id ((h n).get_projects_by_user_id user_id)
    pub org_role_is :
        pr.org_role
        ≡ first_org_role pr.project.organization_id
            ((h (suc n)).get_organizations_by_user_id user_id)
    pub has_org_role : pr.org_role ≢ OrganizationRole.unspecified

  module _ (user_id org_id project_id : String) (pr : ProjectAndRoles) (n k : ℕ) where
    abbrev ups : List Pu
    ups = (h n).get_projects_by_user_id user_id

    abbrev uos : List Ou
    uos = (h (suc n)).get_organizations_by_user_id user_id

    abbrev found : Outcome ProjectError P × ℕ
    found = find_associated_project user_id org_id project_id ups uos h (suc (suc n))

    roles_sound :
        find_associated_project_and_roles user_id org_id project_id h n ≡ (ok pr, k)
        → IsForAt n k user_id org_id project_id pr
    unfolding find_associated_project_and_roles ◌>>=◌
    roles_sound e = elim (Outcome-cases found.0) [
      | inr (inl (x, failed)) ↦ absurd (ground arith)
      | inr (inr panics) ↦ absurd (ground arith)
      | inl (p, is_found) ↦
          let is : p ≡ pr.project = ground arith in
          let ends : found.1 ≡ k = ground arith in
          let at : found ≡ (ok p, k) = ground arith in
          record {
            associated =
                subst (IsAssociatedAt h (suc (suc n)) k org_id project_id ups uos) is
                  (associated_sound h org_id project_id ups uos p (suc (suc n)) k user_id at);
            project_role_is = ground (arith, project_role_of-first pr.project.id ups);
            org_role_is = ground (arith, org_role_of-first pr.project.organization_id uos);
            has_org_role = ground arith;
          }
    ]

    roles_complete :
        IsForAt n k user_id org_id project_id pr
        → find_associated_project_and_roles user_id org_id project_id h n ≡ (ok pr, k)
    unfolding find_associated_project_and_roles ◌>>=◌
    roles_complete f =
        let e =
          associated_complete h org_id project_id ups uos pr.project (suc (suc n)) k user_id
            f.associated in
        ground (
          arith,
          f.project_role_is,
          f.org_role_is,
          f.has_org_role,
          project_role_of-first pr.project.id ups,
          org_role_of-first pr.project.organization_id uos,
        )

    -- The run of `findAssociatedProjectAndRoles` from the read `n` on returns `pr` before the read `k`
    -- exactly as `IsForAt` says.
    pub IsForAt-iff :
        (find_associated_project_and_roles user_id org_id project_id h n ≡ (ok pr, k))
        ↔ IsForAt n k user_id org_id project_id pr
    IsForAt-iff = (roles_sound, roles_complete)
