-- ===== src/Cache/Consistency/Preservation.antt =====
-- The tables of a new store, and those of every successful `updateCache`, are consistent.
use rbac_manager.Prelude.{
  String, ◌≡◌, sym, ap, ◌∙◌, some, [], map, ◌==◌, eq_iff, keep, In, In-map-keep,
}
use mathlib.Core.Path.{subst}
use rbac_manager.Outcome.{ok}
use rbac_manager.GoMap.{lookup, lookup_all}
use rbac_manager.GoMap.Invariant.{Each, EachItem, Each-empty, EachItem-empty}
use rbac_manager.GoMap.Loops.{lookup_all-group_by}
use rbac_manager.Cache.{Ou, Tables, no_tables}
use rbac_manager.Cache.Consistency.{IsConsistent, IsMember}
use rbac_manager.Cache.Consistency.Loops.{
  OfOrg, ProjectId, organizations_loop, clusters_loop, projects_loop, project_users_loop,
}
use rbac_manager.Cache.Consistency.Users.{users_loop-IsListed, users_loop-Each}
use rbac_manager.Cache.Update.{UserInfoLister, ClusterInfoLister, build_tables, to_ou}
use rbac_manager.Cache.Update.Built.{Built, build_tables-Built}

pub no_tables-IsConsistent : IsConsistent no_tables
no_tables-IsConsistent = record {
  org_ids = Each-empty;
  project_ids = Each-empty;
  user_ids = Each-empty;
  cluster_tenants = EachItem-empty;
  project_orgs = EachItem-empty;
  user_projects = EachItem-empty;
  members = EachItem-empty;
}

module _ {ul : UserInfoLister} {cl : ClusterInfoLister} {t : Tables} (b : Built ul cl t) where
  members_at : (k : String) (ou : Ou) → In ou (lookup_all k t.orgs_by_user_id) → IsMember t k ou
  members_at k ou i =
      let listed : In ou (map to_ou (keep (λ u. u.user_id == k) b.org_users)) =
        subst (In ou)
          (ap (lookup_all k) b.org_users_loop
            ∙ lookup_all-group_by (λ u. u.user_id) to_ou k [] b.org_users)
          i in
      let (x, mem, same, is) = In-map-keep _ to_ou ou b.org_users listed in
      let (u, o, found, known, one_tenant) =
        users_loop-IsListed t.orgs_by_id b.org_users [] t.users_by_id x b.users_loop mem in
      (
        u,
        o,
        subst (λ j. lookup j t.users_by_id ≡ some u) ((eq_iff x.user_id k).0 same) found,
        subst (λ (v : Ou). lookup v.organization_id t.orgs_by_id ≡ some o) (sym is) known,
        one_tenant,
      )

  Built-IsConsistent : IsConsistent t
  Built-IsConsistent =
      let projects = projects_loop b.projects ([], []) Each-empty EachItem-empty in
      let ids = subst (λ s. Each ProjectId s.0) b.projects_loop projects.0 in
      record {
        org_ids = organizations_loop b.orgs t.orgs_by_id b.orgs_loop;
        project_ids = ids;
        user_ids = users_loop-Each t.orgs_by_id b.org_users t.users_by_id b.users_loop;
        cluster_tenants = clusters_loop b.clusters _ b.clusters_loop;
        project_orgs = subst (λ s. EachItem OfOrg s.1) b.projects_loop projects.1;
        user_projects =
            project_users_loop t.projects_by_id ids b.project_users t.projects_by_user_id
              b.project_users_loop;
        members = record { at = members_at };
      }

-- If `updateCache` gets as far as the lock, the tables that it is about to publish are consistent.
pub build_tables-IsConsistent :
    (ul : UserInfoLister) (cl : ClusterInfoLister) (t : Tables)
    → build_tables ul cl ≡ ok t
    → IsConsistent t
build_tables-IsConsistent ul cl t h = Built-IsConsistent (build_tables-Built ul cl t h)
