-- ===== src/Server/Roles.antt =====
-- authorization.go, `authorized` and `toScope`: what a role may do.
pub mod Allowed
use Prim.Native.String.{String, ◌++◌}
use rbac_manager.Prelude.{Bool, true, false, Option, none, some, List, [], ◌∷◌, ◌==◌, if◌then◌else◌}
use rbac_manager.GoMap.{lookup}
use rbac_manager.UserManager.{OrganizationRole, ProjectRole}
use rbac_manager.Rbac.{AuthorizeRequest}
use rbac_manager.Server.{Server}

-- The role's name in the configuration; `none` where the source returns false at once.
unfoldable pub role_name : OrganizationRole → ProjectRole → Option String
role_name OrganizationRole.owner _ = some "organizationOwner"
role_name OrganizationRole.tenant_system _ = some "tenantSystem"
role_name OrganizationRole.reader ProjectRole.owner = some "projectOwner"
role_name OrganizationRole.reader ProjectRole.member = some "projectMember"
role_name OrganizationRole.reader _ = none
role_name _ _ = none

-- `for _, s := range allowedScopes { if s == requestScope { return true } }`
unfoldable pub allows : List String → String → Bool
allows [] scope = false
allows (s ∷ scopes) scope = if s == scope then true else allows scopes scope

unfoldable pub authorized : Server → String → OrganizationRole → ProjectRole → Bool
authorized s request_scope org_role project_role = elim (role_name org_role project_role) [
  | none ↦ false
  | some role ↦ elim (lookup role s.role_scopes_mapper) [
    | none ↦ false
    | some allowed_scopes ↦ allows allowed_scopes request_scope
  ]
]

-- `fmt.Sprintf("%s.%s", ...)`
unfoldable pub to_scope : AuthorizeRequest → String
to_scope req = req.access_resource ++ "." ++ req.capability
