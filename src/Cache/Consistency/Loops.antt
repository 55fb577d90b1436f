-- ===== src/Cache/Consistency/Loops.antt =====
-- What the loops of `updateCache` over clusters, organizations and projects establish.
use rbac_manager.Prelude.{
  String, ◌≡◌, refl, ap, ◌∙◌, some, List, [], ◌∷◌, arith, Option-cases, inl, inr,
}
use mathlib.Core.Path.{subst}
use rbac_manager.Outcome.{Outcome, ok, >>=-then, ok-injective}
use rbac_manager.Outcome.Loops.{for_each, for_each_inv}
use rbac_manager.GoMap.{GoMap, lookup, append_at}
use rbac_manager.GoMap.Invariant.{
  Each, EachItem, Each-empty, Each-insert, EachItem-empty, EachItem-append_at,
}
use rbac_manager.UserManager.{InternalCluster, InternalOrganization, ProjectInfo, ProjectUser}
use rbac_manager.Cache.{C, O, P, Pu}
use rbac_manager.Cache.Update.{
  add_cluster, add_organization, add_projects, add_project_user, deref, to_p, UpdateError,
}

abbrev OrgId : String → O → Type 0
OrgId k o = o.id ≡ k

abbrev pub ProjectId : String → P → Type 0
ProjectId k p = p.id ≡ k

abbrev OfTenant : String → C → Type 0
OfTenant k c = c.tenant_id ≡ k

abbrev pub OfOrg : String → P → Type 0
OfOrg k p = p.organization_id ≡ k

add_organization-Each :
    (m m' : GoMap O) (x : InternalOrganization)
    → Each OrgId m
    → add_organization m x ≡ ok m'
    → Each OrgId m'
unfolding add_organization
add_organization-Each m m' x h e =
    >>=-then (deref x.organization) _ e
      λ info _ e'. subst (Each OrgId) (ok-injective e') (Each-insert info.id _ refl h)

pub organizations_loop :
    (xs : List InternalOrganization) (m : GoMap O)
    → for_each add_organization [] xs ≡ ok m
    → Each OrgId m
organizations_loop xs m e =
    for_each_inv (Each OrgId) add_organization add_organization-Each [] m xs Each-empty e

add_cluster-EachItem :
    (s s' : GoMap C × GoMap (List C)) (x : InternalCluster)
    → EachItem OfTenant s.1
    → add_cluster s x ≡ ok s'
    → EachItem OfTenant s'.1
unfolding add_cluster
add_cluster-EachItem (cs, ts) s' x h e = >>=-then (deref x.cluster) _ e λ info _ e'.
    subst (λ s. EachItem OfTenant s.1) (ok-injective e')
      (EachItem-append_at x.tenant_id _ ts refl h)

pub clusters_loop :
    (xs : List InternalCluster) (s : GoMap C × GoMap (List C))
    → for_each add_cluster ([], []) xs ≡ ok s
    → EachItem OfTenant s.1
clusters_loop xs s e =
    for_each_inv (λ t. EachItem OfTenant t.1) add_cluster add_cluster-EachItem ([], []) s xs
      EachItem-empty e

pub projects_loop :
    (xs : List ProjectInfo) (s : GoMap P × GoMap (List P))
    → Each ProjectId s.0
    → EachItem OfOrg s.1
    → Each ProjectId (add_projects s xs).0 × EachItem OfOrg (add_projects s xs).1
unfolding add_projects
projects_loop [] s h k = (h, k)
projects_loop (p ∷ ps) (by_id, by_org) h k =
    projects_loop ps _ (Each-insert p.id (to_p p) refl h)
      (EachItem-append_at p.organization_id (to_p p) by_org refl k)

module _ (projects_by_id : GoMap P) (ids : Each ProjectId projects_by_id) where
  abbrev Known : String → Pu → Type 0
  Known k pu = lookup pu.project.id projects_by_id ≡ some pu.project

  add_project_user-EachItem :
      (m m' : GoMap (List Pu)) (x : ProjectUser)
      → EachItem Known m
      → add_project_user projects_by_id m x ≡ ok m'
      → EachItem Known m'
  unfolding add_project_user
  add_project_user-EachItem m m' x h e = elim (Option-cases (lookup x.project_id projects_by_id)) [
    | inl missing ↦ absurd (ground arith)
    | inr (p, found) ↦
        let pu : Pu = record { role = x.role; project = p; organization_id = x.organization_id } in
        let e' : ◌≡◌ {A = Outcome UpdateError (GoMap (List Pu))} (ok (append_at x.user_id pu m))
            (ok m') =
          ground arith in
        subst (EachItem Known) (ok-injective e') (
          EachItem-append_at x.user_id pu m
            (ap (λ k. lookup k projects_by_id) (ids.at x.project_id p found) ∙ found) h)
  ]

  pub project_users_loop :
      (xs : List ProjectUser) (m : GoMap (List Pu))
      → for_each (add_project_user projects_by_id) [] xs ≡ ok m
      → EachItem Known m
  project_users_loop xs m e =
      for_each_inv (EachItem Known) (add_project_user projects_by_id) add_project_user-EachItem [] m
        xs EachItem-empty e
