-- ===== src/Tests/Decisions.antt =====
-- `Authorize` over the small installation.
use rbac_manager.Prelude.{
  zero, suc, String, true, false, none, some, List, [], ◌∷◌, ◌≡◌, ◌≢◌, ◌↔◌, ◌⊎◌, refl, In,
}
use rbac_manager.Outcome.{ok, err, panic}
use rbac_manager.UserManager.{OrganizationRole, ProjectRole, ProjectAssignment}
use rbac_manager.Rbac.{
  AuthorizeRequest, AuthorizeResponse, Status, AssignedKubernetesEnv, Project, denied,
}
use rbac_manager.Cache
use rbac_manager.Cache.{C, P, Store, new_store}
use rbac_manager.Cache.Sync.Consistent.{sync-IsConsistent}
use rbac_manager.Server.{CacheGetter, store_getter}
use rbac_manager.Server.Reads.{History, steady, attempt, ◌>>=◌}
use rbac_manager.Server.Roles.{role_name, allows, authorized, to_scope}
use rbac_manager.Server.Envs.{
  split_assignments, envs_for_all, cluster_envs, clusters_envs, assigned_kubernetes_envs_internal,
  assigned_kubernetes_envs, env_at,
}
use rbac_manager.Server.Projects.{
  first_default, pick_project, pick_or, projects_in, add_org_projects, find_requested_project,
  find_project_in, find_any_project, find_associated_project, project_role_of, org_role_of,
  find_associated_project_and_roles, ProjectAndRoles,
}
use rbac_manager.Server.Authorize.{
  authorize_key, authorize_in, authorize_user, authorize_token, authorize,
}
use rbac_manager.Server.Authorize.Errors.{answers, Fails, authorize_ends}
use rbac_manager.Server.Authorize.Tenant.{NamesOrganization, organization_tenant}
use rbac_manager.Server.Projects.Roles.{IsFor, find_associated_project_and_roles_iff}
use rbac_manager.Server.Envs.Namespaces.{IsServed, assigned_kubernetes_envs_internal_iff}
use rbac_manager.Server.Authorize.Decision.{authorize_iff}
use rbac_manager.Server.Authorize.Grounds.{Grants, IsComplete, IsGranted}
use rbac_manager.Tests.World.{round, clusters, store, server, ask, same}
use rbac_manager.Tests.Sync.{updating}

unfoldable pub deciding : Unit {0}
unfolding updating store_getter attempt ◌>>=◌ role_name allows authorized to_scope split_assignments
    envs_for_all cluster_envs clusters_envs assigned_kubernetes_envs_internal
    assigned_kubernetes_envs first_default pick_project pick_or projects_in add_org_projects
    find_requested_project find_project_in find_any_project find_associated_project project_role_of
    org_role_of find_associated_project_and_roles authorize_key authorize_in authorize_user
    authorize_token authorize Cache.get_api_key_by_secret Cache.get_cluster_by_registration_key
    Cache.get_clusters_by_tenant_id Cache.get_organization_by_id Cache.get_organizations_by_user_id
    Cache.get_projects_by_organization_id Cache.get_project_by_id Cache.get_projects_by_user_id
    Cache.get_user_by_id
deciding = tt

abbrev g : CacheGetter
g = store_getter store

abbrev by_key_request : AuthorizeRequest
by_key_request = ask "s0" "api.models" ""

abbrev by_user_request : AuthorizeRequest
by_user_request = ask "jwt0" "api.models" "p0"

-- The member's key reads models in the project of the key.
abbrev pub key_answer : AuthorizeResponse
key_answer = record {
  authorized = true;
  user = some (record { id = "u0"; internal_id = "iu0" });
  organization = some (record { id = "o0"; title = "org" });
  project = some (record {
    id = "p0";
    title = "project";
    assigned_kubernetes_envs =
        record { cluster_id = "c0"; cluster_name = "cluster 0"; namespace = "ns1" }
        ∷ record { cluster_id = "c0"; cluster_name = "cluster 0"; namespace = "ns0" }
        ∷ [];
  });
  tenant_id = "t0";
  api_key_id = "k0";
  excluded_from_rate_limiting = true;
}

key_run : (authorize same server by_key_request (steady g) 0).0 ≡ ok key_answer
unfolding deciding
key_run = refl

-- The same user by a token is the project's owner: an organization reader needs that role.
abbrev pub user_answer : AuthorizeResponse
user_answer = record key_answer {
  user = some (record { id = "u0"; internal_id = "i" });
  api_key_id = "";
  excluded_from_rate_limiting = false;
}

user_run : (authorize same server by_user_request (steady g) 0).0 ≡ ok user_answer
unfolding deciding
user_run = refl

no_key : Cache.get_api_key_by_secret store "jwt0" ≡ none
unfolding deciding
no_key = refl

unknown_project : (authorize same server (ask "jwt0" "api.models" "p9") (steady g) 0).0 ≡ ok denied
unfolding deciding
unknown_project = refl

abbrev default_project : P
default_project = record {
  id = "p1";
  title = "project";
  organization_id = "o0";
  kubernetes_namespace = "ns0";
  assignments = record { cluster_id = "c0"; namespace = "ns1" } ∷ [];
  is_default = true;
}

-- The organization's default project, of which the user is no member.
abbrev default_roles : ProjectAndRoles
default_roles = record {
  project = default_project;
  org_role = OrganizationRole.reader;
  project_role = ProjectRole.unspecified;
}

abbrev own_assignment : List ProjectAssignment
own_assignment = record { cluster_id = "c0"; namespace = "ns1" } ∷ []

abbrev cluster : C
cluster = record { id = "c0"; name = "cluster 0"; tenant_id = "t0" }

authorize_iff_example :
    Grants (authorize same server by_key_request (steady g) 0).0 key_answer
    ↔ (IsComplete same server g by_key_request × IsGranted same server g by_key_request key_answer)
authorize_iff_example = authorize_iff same server g by_key_request key_answer 0

organization_tenant_example : NamesOrganization store user_answer
organization_tenant_example =
    organization_tenant store (sync-IsConsistent (round 7 clusters) []) same server by_user_request
      user_answer 0 (user_run, refl) no_key refl

abbrev pub listed : AssignedKubernetesEnv
listed = record { cluster_id = "c0"; cluster_name = "cluster 0"; namespace = "ns0" }

abbrev pub project_answer : Project
project_answer = record {
  id = "p0";
  title = "project";
  assigned_kubernetes_envs =
      record { cluster_id = "c0"; cluster_name = "cluster 0"; namespace = "ns1" } ∷ listed ∷ [];
}

introspects : server.token_introspector "zz" ≢ panic
unfolding deciding
introspects = λ e. cc

-- The introspection of this token fails, while the cache is being updated.
abbrev updating_history : History
updating_history = elim [ zero ↦ store_getter new_store | suc n ↦ g ]

authorize_ends_example :
    (answers (authorize same server (ask "zz" "api.models" "") updating_history 0).0 ≡ true)
    ⊎ ((e : Status) × ((authorize same server (ask "zz" "api.models" "") updating_history 0).0
          ≡ err e)
        × Fails same server (ask "zz" "api.models" "") updating_history 0 e)
authorize_ends_example =
    authorize_ends same server (ask "zz" "api.models" "") updating_history 0 introspects

find_associated_project_and_roles_iff_example :
    ((find_associated_project_and_roles "u0" "o0" "" (steady g) 0).0 ≡ ok default_roles)
    ↔ IsFor g "u0" "o0" "" default_roles
find_associated_project_and_roles_iff_example =
    find_associated_project_and_roles_iff g "u0" "o0" "" default_roles 0

default_roles_run :
    (find_associated_project_and_roles "u0" "o0" "" (steady g) 0).0 ≡ ok default_roles
unfolding deciding
default_roles_run = refl

assigned_kubernetes_envs_internal_iff_example :
    In listed (assigned_kubernetes_envs_internal "ns0" own_assignment (cluster ∷ [])) ↔ (
      (c : C) × In c (cluster ∷ [])
      × ((ns : String) × IsServed "ns0" own_assignment c.id ns × (listed ≡ env_at c ns)))
assigned_kubernetes_envs_internal_iff_example =
    assigned_kubernetes_envs_internal_iff "ns0" own_assignment (cluster ∷ []) listed
