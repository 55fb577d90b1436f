-- ===== src/Cache/Update/Built.antt =====
-- What a successful `build_tables` went through: the listings that it got, and the loop that made
-- each table from them.
use rbac_manager.Prelude.{◌≡◌, refl, List, []}
use mathlib.Core.Path.{subst}
use rbac_manager.Outcome.{ok, ok-injective, >>=-then, map_err, map_err-eq-ok}
use rbac_manager.Outcome.Loops.{for_each}
use rbac_manager.GoMap.Loops.{group_by}
use rbac_manager.UserManager.{
  InternalApiKey, InternalCluster, InternalOrganization, OrganizationUser, ProjectInfo, ProjectUser,
}
use rbac_manager.Cache.{Tables}
use rbac_manager.Cache.Update.{
  UserInfoLister, ClusterInfoLister, add_api_key, add_cluster, add_organization, to_ou,
  add_projects, add_project_user, add_user, build_tables, listing,
}

pub record Built (ul : UserInfoLister) (cl : ClusterInfoLister) (t : Tables) : Type 0 where
  pub api_keys : List InternalApiKey
  pub clusters : List InternalCluster
  pub orgs : List InternalOrganization
  pub org_users : List OrganizationUser
  pub projects : List ProjectInfo
  pub project_users : List ProjectUser
  pub got_api_keys : ul.list_internal_api_keys ≡ ok api_keys
  pub got_clusters : cl.list_internal_clusters ≡ ok clusters
  pub got_orgs : ul.list_internal_organizations ≡ ok orgs
  pub got_org_users : ul.list_organization_users ≡ ok org_users
  pub got_projects : ul.list_projects ≡ ok projects
  pub got_project_users : ul.list_project_users ≡ ok project_users
  pub keys_loop : for_each add_api_key [] api_keys ≡ ok t.api_keys_by_secret
  pub clusters_loop :
      for_each add_cluster ([], []) clusters
      ≡ ok (t.clusters_by_registration_key, t.clusters_by_tenant_id)
  pub orgs_loop : for_each add_organization [] orgs ≡ ok t.orgs_by_id
  pub org_users_loop :
      t.orgs_by_user_id ≡ group_by (λ (u : OrganizationUser). u.user_id) to_ou [] org_users
  pub projects_loop :
      add_projects ([], []) projects ≡ (t.projects_by_id, t.projects_by_organization_id)
  pub project_users_loop :
      for_each (add_project_user t.projects_by_id) [] project_users ≡ ok t.projects_by_user_id
  pub users_loop : for_each (add_user t.orgs_by_id) [] org_users ≡ ok t.users_by_id

pub build_tables-Built :
    (ul : UserInfoLister) (cl : ClusterInfoLister) (t : Tables)
    → build_tables ul cl ≡ ok t
    → Built ul cl t
unfolding build_tables
build_tables-Built ul cl t h =
    >>=-then (map_err listing ul.list_internal_api_keys) _ h λ api_keys e₁ h₁.
      >>=-then (for_each add_api_key [] api_keys) _ h₁ λ m e₂ h₂.
        >>=-then (map_err listing cl.list_internal_clusters) _ h₂ λ clusters e₃ h₃.
          >>=-then (for_each add_cluster ([], []) clusters) _ h₃ λ cs e₄ h₄.
            >>=-then (map_err listing ul.list_internal_organizations) _ h₄ λ orgs e₅ h₅.
              >>=-then (map_err listing ul.list_organization_users) _ h₅ λ org_users e₆ h₆.
                >>=-then (map_err listing ul.list_projects) _ h₆ λ projects e₇ h₇.
                  >>=-then (map_err listing ul.list_project_users) _ h₇ λ project_users e₈ h₈.
                    >>=-then (for_each add_organization [] orgs) _ h₈ λ orgs_by_id e₉ h₉.
                      let (by_id, by_org) = add_projects ([], []) projects in
                      >>=-then (for_each (add_project_user by_id) [] project_users) _ h₉
                        λ by_user e₁₀ h₁₀.
                          >>=-then (for_each (add_user orgs_by_id) [] org_users) _ h₁₀
                            λ users e₁₁ h₁₁.
                              subst (λ t. Built ul cl t) (ok-injective h₁₁)
                                (record {
                                  api_keys = api_keys;
                                  clusters = clusters;
                                  orgs = orgs;
                                  org_users = org_users;
                                  projects = projects;
                                  project_users = project_users;
                                  got_api_keys = map_err-eq-ok listing _ e₁;
                                  got_clusters = map_err-eq-ok listing _ e₃;
                                  got_orgs = map_err-eq-ok listing _ e₅;
                                  got_org_users = map_err-eq-ok listing _ e₆;
                                  got_projects = map_err-eq-ok listing _ e₇;
                                  got_project_users = map_err-eq-ok listing _ e₈;
                                  keys_loop = e₂;
                                  clusters_loop = e₄;
                                  orgs_loop = e₉;
                                  org_users_loop = refl;
                                  projects_loop = refl;
                                  project_users_loop = e₁₀;
                                  users_loop = e₁₁;
                                })
