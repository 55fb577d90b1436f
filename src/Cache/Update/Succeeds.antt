-- ===== src/Cache/Update/Succeeds.antt =====
-- Which listings `updateCache` accepts.
use mathlib.Core.Path.{subst}
use rbac_manager.Prelude.{
  ℕ, true, some, List, [], ◌≡◌, ◌↔◌, sym, ap, ◌∙◌, arith, In, inl, inr, ◌≢◌, Bool-cases,
}
use rbac_manager.Outcome.{Outcome, ok, Outcome-cases}
use rbac_manager.Outcome.Loops.{for_each, for_each-In, for_each-ok}
use rbac_manager.UserManager.{
  InternalApiKey, InternalCluster, InternalOrganization, OrganizationUser, ProjectInfo, ProjectUser,
}
use rbac_manager.Cache.{K, C, O, Tables, Store}
use rbac_manager.Cache.Update.{
  UpdateError, UserInfoLister, ClusterInfoLister, add_api_key, add_cluster, add_organization,
  add_project_user, build_tables, publish, update_cache,
}
use rbac_manager.Cache.Update.Built.{Built, build_tables-Built}
use rbac_manager.Cache.Update.Contents.{latest, to_k, has_org_id, to_o, publish-tables}
use rbac_manager.Cache.Update.Members.{to_c}
use rbac_manager.Cache.Update.Rounds.{
  IsListedProject, IsOneTenant, projects_by_id, add_api_key-ok, add_api_key-to_k, add_cluster-ok,
  add_cluster-to_c, add_organization-ok, add_organization-to_o, add_project_user-listed,
  add_project_user-ok, org_at, users_loop-runs, users_loop-IsOneTenant,
}

-- All listings are answered; no message lacks a part that the cache reads; each role of a user is in
-- a listed project; and each user is listed for organizations that are listed, all in one tenant.
pub record IsAcceptable (ul : UserInfoLister) (cl : ClusterInfoLister) : Type 0 where
  pub api_keys : List InternalApiKey
  pub clusters : List InternalCluster
  pub orgs : List InternalOrganization
  pub org_users : List OrganizationUser
  pub projects : List ProjectInfo
  pub project_users : List ProjectUser
  pub has_api_keys : ul.list_internal_api_keys ≡ ok api_keys
  pub has_clusters : cl.list_internal_clusters ≡ ok clusters
  pub has_orgs : ul.list_internal_organizations ≡ ok orgs
  pub has_org_users : ul.list_organization_users ≡ ok org_users
  pub has_projects : ul.list_projects ≡ ok projects
  pub has_project_users : ul.list_project_users ≡ ok project_users
  pub keys_complete : (x : InternalApiKey) → In x api_keys → (k : K) × (to_k x ≡ some k)
  pub clusters_complete : (x : InternalCluster) → In x clusters → (c : C) × (to_c x ≡ some c)
  pub orgs_complete : (x : InternalOrganization) → In x orgs → (o : O) × (to_o x ≡ some o)
  pub projects_listed :
      (x : ProjectUser) → In x project_users → IsListedProject projects x.project_id
  pub one_tenant : IsOneTenant (λ id. latest (has_org_id id) to_o orgs) org_users

module _ (ul : UserInfoLister) (cl : ClusterInfoLister) where
  pub Built-IsAcceptable : (t : Tables) → Built ul cl t → IsAcceptable ul cl
  Built-IsAcceptable t b = record {
    api_keys = b.api_keys;
    clusters = b.clusters;
    orgs = b.orgs;
    org_users = b.org_users;
    projects = b.projects;
    project_users = b.project_users;
    has_api_keys = b.got_api_keys;
    has_clusters = b.got_clusters;
    has_orgs = b.got_orgs;
    has_org_users = b.got_org_users;
    has_projects = b.got_projects;
    has_project_users = b.got_project_users;
    keys_complete = λ x i.
        let (m, m', e) = for_each-In add_api_key [] _ b.api_keys x b.keys_loop i in
        add_api_key-to_k m m' x e;
    clusters_complete = λ x i.
        let (m, m', e) = for_each-In add_cluster ([], []) _ b.clusters x b.clusters_loop i in
        add_cluster-to_c m m' x e;
    orgs_complete = λ x i.
        let (m, m', e) = for_each-In add_organization [] _ b.orgs x b.orgs_loop i in
        add_organization-to_o m m' x e;
    projects_listed = λ x i.
        let by_id = ap (λ p. p.0) b.projects_loop in
        let loop =
          subst (λ m. for_each (add_project_user m) [] b.project_users ≡ ok t.projects_by_user_id)
            (sym by_id) b.project_users_loop in
        let (m, m', e) =
          for_each-In (add_project_user (projects_by_id b.projects)) [] _ b.project_users x loop
            i in
        add_project_user-listed b.projects m m' x e;
    one_tenant =
        subst (λ f. IsOneTenant f b.org_users) (λ i id. org_at b.orgs t.orgs_by_id b.orgs_loop id i)
          (users_loop-IsOneTenant t.orgs_by_id b.org_users t.users_by_id b.users_loop);
  }

  pub IsAcceptable-build_tables : IsAcceptable ul cl → (t : Tables) × (build_tables ul cl ≡ ok t)
  unfolding build_tables
  IsAcceptable-build_tables a =
      let (keys, keys_run) =
        for_each-ok add_api_key [] a.api_keys
          (λ m x i. let (k, e) = a.keys_complete x i in add_api_key-ok m x k e) in
      let (cs, clusters_run) =
        for_each-ok add_cluster ([], []) a.clusters
          (λ m x i. let (c, e) = a.clusters_complete x i in add_cluster-ok m x c e) in
      let (orgs, orgs_run) =
        for_each-ok add_organization [] a.orgs
          (λ m x i. let (o, e) = a.orgs_complete x i in add_organization-ok m x o e) in
      let (roles, roles_run) =
        for_each-ok (add_project_user (projects_by_id a.projects)) [] a.project_users
          (λ m x i. add_project_user-ok a.projects m x (a.projects_listed x i)) in
      let (users, users_run) = users_loop-runs orgs a.org_users (
        subst (λ f. IsOneTenant f a.org_users) (λ i id. sym (org_at a.orgs orgs orgs_run id) i)
          a.one_tenant) in
      elim (Outcome-cases (build_tables ul cl)) [
        | inl made ↦ made
        | inr (inl (e, failed)) ↦ absurd (
            ground (
              arith, a.has_api_keys, a.has_clusters, a.has_orgs, a.has_org_users, a.has_projects,
              a.has_project_users,
            ))
        | inr (inr panics) ↦ absurd (
            ground (
              arith, a.has_api_keys, a.has_clusters, a.has_orgs, a.has_org_users, a.has_projects,
              a.has_project_users,
            ))
      ]

  publishes :
      (t : Tables) (now : ℕ) (before : Store)
      → (before.closed ≡ true → before.synced ≡ true)
      → (c : Store) × (publish t now before ≡ (ok tt, c))
  unfolding publish
  publishes t now before opened = elim (Bool-cases before.synced) [
    | inl synced ↦ ((publish t now before).1, ground arith)
    | inr first ↦ ((publish t now before).1, ground (arith, Bool-cases before.closed))
  ]

  module _ (now : ℕ) (before : Store) (opened : before.closed ≡ true → before.synced ≡ true) where
    succeeds :
        (t : Tables)
        → build_tables ul cl ≡ ok t
        → (c : Store) × (update_cache ul cl now before ≡ (ok tt, c))
    unfolding update_cache
    succeeds t made = let (c, e) = publishes t now before opened in (c, ground arith)

    keeps :
        (o : Outcome UpdateError (Unit {0})) (c : Store)
        → update_cache ul cl now before ≡ (o, c)
        → o ≢ ok tt
        → c ≡ before
    unfolding update_cache
    keeps o c e fails = elim (Outcome-cases (build_tables ul cl)) [
      | inl (t, made) ↦
          let (c', e') = succeeds t made in
          absurd (fails (ap (λ (p : Outcome UpdateError (Unit {0}) × Store). p.0) (sym e ∙ e')))
      | inr (inl (x, failed)) ↦ ground arith
      | inr (inr panics) ↦ ground arith
    ]

    -- An update of a store whose channel was closed by an update, if it is closed, succeeds exactly
    -- where all listings are answered, no message lacks a part that the cache reads, each role of a
    -- user in a project is in a listed project, and each user is listed for organizations that are
    -- listed, all of one tenant. An update that does not succeed leaves the store as it was.
    pub update_cache_iff :
        (((c : Store) × (update_cache ul cl now before ≡ (ok tt, c))) ↔ IsAcceptable ul cl)
        × ((o : Outcome UpdateError (Unit {0})) (c : Store)
            → update_cache ul cl now before ≡ (o, c)
            → o ≢ ok tt
            → c ≡ before)
    update_cache_iff = (
      (
        λ (c, e).
            Built-IsAcceptable c.tables
              (build_tables-Built ul cl c.tables (publish-tables ul cl c now before e)),
        λ a. let (t, made) = IsAcceptable-build_tables a in succeeds t made,
      ),
      keeps,
    )
