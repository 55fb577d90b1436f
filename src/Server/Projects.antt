-- ===== src/Server/Projects.antt =====
-- authorization.go: which project a request is about, and the user's roles there.
pub mod Find
pub mod Moments
pub mod Panics
pub mod Pick
pub mod Roles
use rbac_manager.Prelude.{
  String, Bool, true, false, not, ◌&&◌, Option, none, some, List, [], ◌∷◌, ◌++◌, map, ◌==◌,
  if◌then◌else◌, is_empty,
}
use rbac_manager.Outcome.{Outcome, ok, err, panic}
use rbac_manager.UserManager.{OrganizationRole, ProjectRole}
use rbac_manager.Cache.{Ou, P, Pu}
use rbac_manager.Server.{CacheGetter}
use rbac_manager.Server.Reads.{Action, ask, lift, ◌>>=◌}

-- The errors of `findAssociatedProject` and `findAssociatedProjectAndRoles`.
pub data ProjectError : Type 0 where
  project_not_found : (project_id : String) → ProjectError
  invalid_combination : (org_id project_id : String) → ProjectError
  organization_not_found : (org_id : String) → ProjectError
  no_project_in_organization : (org_id : String) → ProjectError
  no_project_for_user : ProjectError
  organization_role_not_found : (org_id : String) → ProjectError

-- The loop of `pickProject`.
unfoldable pub first_default : List P → Option P
first_default [] = none
first_default (p ∷ ps) = if p.is_default then some p else first_default ps

-- `projects[0]` panics on an empty list.
unfoldable pub pick_project : List P → Outcome ProjectError P
pick_project projects = elim (first_default projects) [
  | some p ↦ ok p
  | none ↦ elim projects [ [] ↦ panic | p ∷ _ ↦ ok p ]
]

-- `if len(projects) == 0 { return nil, e }; return pickProject(projects), nil`
unfoldable pub pick_or : ProjectError → List P → Outcome ProjectError P
pick_or e [] = err e
pick_or e (p ∷ ps) = pick_project (p ∷ ps)

-- The projects of `userProjects` that are recorded for the organization.
unfoldable pub projects_in : String → List Pu → List P
projects_in org_id [] = []
projects_in org_id (p ∷ ps) =
    let rest = projects_in org_id ps in
    if not (p.organization_id == org_id) then rest else p.project ∷ rest

-- `for _, o := range userOrgs { projects = append(projects, ...) }`
unfoldable pub add_org_projects : List P → List Ou → Action ProjectError (List P)
add_org_projects projects [] = lift (ok projects)
add_org_projects projects (o ∷ os) = do
  more ← ask (λ g. g.get_projects_by_organization_id o.organization_id)
  add_org_projects (projects ++ more) os

unfoldable pub find_requested_project : String → String → Action ProjectError P
find_requested_project org_id project_id = do
  found ← ask (λ g. g.get_project_by_id project_id)
  lift (elim found [
    | none ↦ err (project_not_found project_id)
    | some p ↦
        if not (is_empty org_id) && not (org_id == p.organization_id)
        then err (invalid_combination org_id project_id)
        else ok p
  ])

unfoldable pub find_project_in : String → List Pu → Action ProjectError P
find_project_in org_id user_projects = do
  found ← ask (λ g. g.get_organization_by_id org_id)
  elim found [
    | none ↦ lift (err (organization_not_found org_id))
    | some _ ↦ do
      more ← ask (λ g. g.get_projects_by_organization_id org_id)
      lift (pick_or (no_project_in_organization org_id) (projects_in org_id user_projects ++ more))
  ]

unfoldable pub find_any_project : List Pu → List Ou → Action ProjectError P
find_any_project user_projects user_orgs = do
  projects ← add_org_projects (map (λ (p : Pu). p.project) user_projects) user_orgs
  lift (pick_or no_project_for_user projects)

unfoldable pub find_associated_project :
    String → String → String → List Pu → List Ou → Action ProjectError P
find_associated_project user_id org_id project_id user_projects user_orgs =
    if not (is_empty project_id)
    then find_requested_project org_id project_id
    else if not (is_empty org_id)
    then find_project_in org_id user_projects
    else find_any_project user_projects user_orgs

pub record ProjectAndRoles : Type 0 where
  pub project : P
  pub org_role : OrganizationRole
  pub project_role : ProjectRole

unfoldable pub project_role_of : String → List Pu → ProjectRole
project_role_of project_id [] = ProjectRole.unspecified
project_role_of project_id (p ∷ ps) =
    if p.project.id == project_id then p.role else project_role_of project_id ps

unfoldable pub org_role_of : String → List Ou → OrganizationRole
org_role_of org_id [] = OrganizationRole.unspecified
org_role_of org_id (o ∷ os) = if o.organization_id == org_id then o.role else org_role_of org_id os

abbrev pub is_unspecified : OrganizationRole → Bool
is_unspecified OrganizationRole.unspecified = true
is_unspecified _ = false

unfoldable pub find_associated_project_and_roles :
    String → String → String → Action ProjectError ProjectAndRoles
find_associated_project_and_roles user_id org_id project_id = do
  user_projects ← ask (λ g. g.get_projects_by_user_id user_id)
  user_orgs ← ask (λ g. g.get_organizations_by_user_id user_id)
  project ← find_associated_project user_id org_id project_id user_projects user_orgs
  let project_role = project_role_of project.id user_projects
  let org_role = org_role_of project.organization_id user_orgs
  lift (
      if is_unspecified org_role
      then err (organization_role_not_found project.organization_id)
      else ok (record { project = project; org_role = org_role; project_role = project_role }))
