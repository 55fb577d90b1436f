-- ===== src/Server/Projects/Roles.antt =====
-- The roles that a user has for the project of a request.
use rbac_manager.Prelude.{
  ℕ, suc, String, none, some, first, List, [], ◌∷◌, ◌≡◌, ◌≢◌, ◌↔◌, refl, sym, ◌==◌, arith, eq_iff,
  In, inl, inr, Bool-cases,
}
use mathlib.Core.Path.{subst}
use rbac_manager.Outcome.{ok}
use rbac_manager.UserManager.{OrganizationRole, ProjectRole}
use rbac_manager.Cache.{Ou, Pu}
use rbac_manager.Server.{CacheGetter}
use rbac_manager.Server.Reads.{steady, ◌>>=◌}
use rbac_manager.Server.Reads.Laws.{bind-then}
use rbac_manager.Server.Projects.{
  ProjectAndRoles, project_role_of, org_role_of, find_associated_project,
  find_associated_project_and_roles,
}
use rbac_manager.Server.Projects.Find.{IsAssociated, find_associated_project_iff}

-- The role of the first membership that passes.
abbrev pub first_project_role : (id : String) → List Pu → ProjectRole
first_project_role id ups = elim (first (λ (m : Pu). m.project.id == id) ups) [
  | none ↦ ProjectRole.unspecified
  | some m ↦ m.role
]

abbrev pub first_org_role : (id : String) → List Ou → OrganizationRole
first_org_role id uos = elim (first (λ (m : Ou). m.organization_id == id) uos) [
  | none ↦ OrganizationRole.unspecified
  | some m ↦ m.role
]

pub project_role_of-first :
    (id : String) (ups : List Pu) → project_role_of id ups ≡ first_project_role id ups
unfolding project_role_of
project_role_of-first id [] = refl
project_role_of-first id (m ∷ ms) = ground (arith, project_role_of-first id ms)

pub org_role_of-first : (id : String) (uos : List Ou) → org_role_of id uos ≡ first_org_role id uos
unfolding org_role_of
org_role_of-first id [] = refl
org_role_of-first id (m ∷ ms) = ground (arith, org_role_of-first id ms)

-- The project and the roles for it, from the memberships of the user.
pub record IsFor (g : CacheGetter) (user_id org_id project_id : String) (pr : ProjectAndRoles)
    : Type 0 where
  pub associated :
      IsAssociated g org_id project_id
        (g.get_projects_by_user_id user_id)
        (g.get_organizations_by_user_id user_id)
        pr.project
  pub project_role_is :
      pr.project_role ≡ first_project_role pr.project.id (g.get_projects_by_user_id user_id)
  pub org_role_is :
      pr.org_role
      ≡ first_org_role pr.project.organization_id (g.get_organizations_by_user_id user_id)
  pub has_org_role : pr.org_role ≢ OrganizationRole.unspecified

-- A role that is found comes from a membership in that organization.
pub org_role_of-In :
    (org_id : String) (uos : List Ou)
    → org_role_of org_id uos ≢ OrganizationRole.unspecified
    → (ou : Ou) × In ou uos × (ou.organization_id ≡ org_id) × (ou.role ≡ org_role_of org_id uos)
unfolding org_role_of
org_role_of-In org_id [] ne = absurd (ne refl)
org_role_of-In org_id (o ∷ os) ne = elim (Bool-cases (o.organization_id == org_id)) [
  | inl here ↦ (o, inl refl, (eq_iff _ _).0 here, ground arith)
  | inr other ↦
      let (ou, i, is, role) = org_role_of-In org_id os (rw other at ne) in
      (ou, inr i, is, rw other role)
]

module _ (g : CacheGetter) (user_id org_id project_id : String) (pr : ProjectAndRoles) (n : ℕ) where
  roles_sound :
      (find_associated_project_and_roles user_id org_id project_id (steady g) n).0 ≡ ok pr
      → IsFor g user_id org_id project_id pr
  unfolding find_associated_project_and_roles ◌>>=◌
  roles_sound e =
      let ups = g.get_projects_by_user_id user_id in
      let uos = g.get_organizations_by_user_id user_id in
      bind-then (find_associated_project user_id org_id project_id ups uos) _ (steady g)
        (suc (suc n)) pr e
        λ p found rest.
          let is : pr.project ≡ p = ground arith in
          record {
            associated = subst (IsAssociated g org_id project_id ups uos) (sym is) (
                (find_associated_project_iff g user_id org_id project_id ups uos p (suc (suc n))).0
                  found);
            project_role_is = ground (arith, project_role_of-first pr.project.id ups);
            org_role_is = ground (arith, org_role_of-first pr.project.organization_id uos);
            has_org_role = ground arith;
          }

  roles_complete :
      IsFor g user_id org_id project_id pr
      → (find_associated_project_and_roles user_id org_id project_id (steady g) n).0 ≡ ok pr
  unfolding find_associated_project_and_roles ◌>>=◌
  roles_complete f =
      let ups = g.get_projects_by_user_id user_id in
      let uos = g.get_organizations_by_user_id user_id in
      let e =
        (find_associated_project_iff g user_id org_id project_id ups uos pr.project (suc (suc n))).1
          f.associated in
      ground (
        arith,
        e,
        f.project_role_is,
        f.org_role_is,
        f.has_org_role,
        project_role_of-first pr.project.id ups,
        org_role_of-first pr.project.organization_id uos,
      )

  -- With no update in between, `findAssociatedProjectAndRoles` returns a project and two roles
  -- exactly when the project is the one that the request is about, the roles are those of the first
  -- listed memberships of the user in the project and in its organization, unspecified where there is
  -- none, and the role in the organization is specified.
  pub find_associated_project_and_roles_iff :
      ((find_associated_project_and_roles user_id org_id project_id (steady g) n).0 ≡ ok pr)
      ↔ IsFor g user_id org_id project_id pr
  find_associated_project_and_roles_iff = (roles_sound, roles_complete)
