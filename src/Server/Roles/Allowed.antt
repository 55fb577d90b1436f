-- ===== src/Server/Roles/Allowed.antt =====
-- `authorized` against a description of it by the configuration alone.
use rbac_manager.Prelude.{
  String, true, some, List, [], ◌∷◌, ◌≡◌, ◌↔◌, refl, eq_iff, arith, In, inl, inr, Option-cases,
}
use mathlib.Core.Path.{subst}
use mathlib.Core.Option.{some-injective}
use rbac_manager.GoMap.{lookup}
use rbac_manager.UserManager.{OrganizationRole, ProjectRole}
use rbac_manager.Server.{Server}
use rbac_manager.Server.Roles.{role_name, allows, authorized}

-- The names in the configuration that stand for a role in an organization with one in a project: an
-- owner of the organization and a system of the tenant have names of their own, whatever the role in
-- the project is; a reader has the name of the role in the project; all other pairs have no name.
pub data IsNamed : OrganizationRole → ProjectRole → String → Type 0 where
  as_owner : (p : ProjectRole) → IsNamed OrganizationRole.owner p "organizationOwner"
  as_system : (p : ProjectRole) → IsNamed OrganizationRole.tenant_system p "tenantSystem"
  as_project_owner : IsNamed OrganizationRole.reader ProjectRole.owner "projectOwner"
  as_project_member : IsNamed OrganizationRole.reader ProjectRole.member "projectMember"

IsNamed-sound :
    (o : OrganizationRole) (p : ProjectRole) (role : String)
    → role_name o p ≡ some role
    → IsNamed o p role
unfolding role_name
IsNamed-sound OrganizationRole.owner p role e =
    subst (IsNamed _ p) (some-injective _ _ e) (as_owner p)
IsNamed-sound OrganizationRole.tenant_system p role e =
    subst (IsNamed _ p) (some-injective _ _ e) (as_system p)
IsNamed-sound OrganizationRole.reader ProjectRole.owner role e =
    subst (IsNamed _ _) (some-injective _ _ e) as_project_owner
IsNamed-sound OrganizationRole.reader ProjectRole.member role e =
    subst (IsNamed _ _) (some-injective _ _ e) as_project_member
IsNamed-sound OrganizationRole.reader ProjectRole.unspecified role e = cc
IsNamed-sound OrganizationRole.reader (ProjectRole.other n) role e = cc
IsNamed-sound OrganizationRole.unspecified p role e = cc
IsNamed-sound (OrganizationRole.other n) p role e = cc

IsNamed-complete :
    (o : OrganizationRole) (p : ProjectRole) (role : String)
    → IsNamed o p role
    → role_name o p ≡ some role
unfolding role_name
IsNamed-complete _ _ _ (as_owner p) = refl
IsNamed-complete _ _ _ (as_system p) = refl
IsNamed-complete _ _ _ as_project_owner = refl
IsNamed-complete _ _ _ as_project_member = refl

-- The configuration lists the scope under the name of the role.
abbrev pub Allowed : Server → String → OrganizationRole → ProjectRole → Type 0
Allowed s scope org_role project_role =
    (role : String) × (scopes : List String) × IsNamed org_role project_role role
    × (lookup role s.role_scopes_mapper ≡ some scopes)
    × In scope scopes

allows_sound :
    (scopes : List String) (scope : String) → allows scopes scope ≡ true → In scope scopes
unfolding allows
allows_sound [] scope e = cc
allows_sound (s ∷ scopes) scope e = ground (arith, eq_iff s scope, allows_sound scopes scope)

allows_complete :
    (scopes : List String) (scope : String) → In scope scopes → allows scopes scope ≡ true
unfolding allows
allows_complete [] scope i = absurd i
allows_complete (s ∷ scopes) scope i = ground (arith, eq_iff s scope, allows_complete scopes scope)

-- `authorized` holds exactly when the configuration lists the requested scope under the name of
-- the role that the two roles amount to.
pub authorized_iff :
    (s : Server) (scope : String) (org_role : OrganizationRole) (project_role : ProjectRole)
    → (authorized s scope org_role project_role ≡ true) ↔ Allowed s scope org_role project_role
unfolding authorized
authorized_iff s scope org_role project_role = (to, from)
  where
    to : authorized s scope org_role project_role ≡ true → Allowed s scope org_role project_role
    to e = elim (Option-cases (role_name org_role project_role)) [
      | inl missing ↦ absurd (ground arith)
      | inr (role, named) ↦ elim (Option-cases (lookup role s.role_scopes_mapper)) [
        | inl missing ↦ absurd (ground arith)
        | inr (scopes, found) ↦ (
          role,
          scopes,
          IsNamed-sound org_role project_role role named,
          found,
          allows_sound scopes scope (ground arith),
        )
      ]
    ]

    from : Allowed s scope org_role project_role → authorized s scope org_role project_role ≡ true
    from (role, scopes, named, found, i) =
        ground
          (arith, IsNamed-complete org_role project_role role named, allows_complete scopes scope i)
