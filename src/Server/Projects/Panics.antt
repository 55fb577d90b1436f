-- ===== src/Server/Projects/Panics.antt =====
-- The search for a project never panics, whatever updates of the cache fall into it: where
-- `pickProject` indexes its list, the list has an item.
use rbac_manager.Prelude.{
  ℕ, suc, String, List, [], ◌∷◌, ◌++◌, ◌≢◌, arith, is_empty, Bool-cases, Option-cases, inl, inr,
}
use rbac_manager.Outcome.{panic, Outcome-cases}
use rbac_manager.Cache.{Ou, P, Pu}
use rbac_manager.Server.Reads.{History, lift, ◌>>=◌}
use rbac_manager.Server.Reads.Laws.{bind-ne-panic}
use rbac_manager.Server.Projects.{
  ProjectError, first_default, pick_project, pick_or, add_org_projects, find_requested_project,
  find_project_in, projects_in, no_project_in_organization, find_any_project,
  find_associated_project, find_associated_project_and_roles,
}

pick_or-ne-panic : (e : ProjectError) (ps : List P) → pick_or e ps ≢ panic
unfolding pick_or pick_project
pick_or-ne-panic e [] = λ h. cc
pick_or-ne-panic e (p ∷ ps) = λ h. ground (arith, Option-cases (first_default (p ∷ ps)))

module _ (h : History) where
  add_org_projects-ne-panic :
      (ps : List P) (os : List Ou) (n : ℕ) → (add_org_projects ps os h n).0 ≢ panic
  unfolding add_org_projects ◌>>=◌
  add_org_projects-ne-panic ps [] n = λ e. cc
  add_org_projects-ne-panic ps (o ∷ os) n =
      add_org_projects-ne-panic (ps ++ (h n).get_projects_by_organization_id o.organization_id) os
        (suc n)

  any-ne-panic : (ups : List Pu) (uos : List Ou) (n : ℕ) → (find_any_project ups uos h n).0 ≢ panic
  unfolding find_any_project lift
  any-ne-panic ups uos n =
      bind-ne-panic _ _ h n (add_org_projects-ne-panic _ uos n) (λ ps k. pick_or-ne-panic _ ps)

  in-ne-panic :
      (org_id : String) (ups : List Pu) (n : ℕ) → (find_project_in org_id ups h n).0 ≢ panic
  unfolding find_project_in ◌>>=◌
  in-ne-panic org_id ups n = λ e. elim (Option-cases ((h n).get_organization_by_id org_id)) [
    | inl missing ↦ ground arith
    | inr (o, found) ↦
        pick_or-ne-panic (no_project_in_organization org_id)
          (projects_in org_id ups ++ (h (suc n)).get_projects_by_organization_id org_id)
          (ground arith)
  ]

  requested-ne-panic :
      (org_id project_id : String) (n : ℕ)
      → (find_requested_project org_id project_id h n).0 ≢ panic
  unfolding find_requested_project ◌>>=◌
  requested-ne-panic org_id project_id n = λ e. ground arith

  project-ne-panic :
      (user_id org_id project_id : String) (ups : List Pu) (uos : List Ou) (n : ℕ)
      → (find_associated_project user_id org_id project_id ups uos h n).0 ≢ panic
  unfolding find_associated_project
  project-ne-panic user_id org_id project_id ups uos n = λ e.
      elim (Bool-cases (is_empty project_id)) [
        | inr named ↦ requested-ne-panic org_id project_id n (ground arith)
        | inl unnamed ↦ elim (Bool-cases (is_empty org_id)) [
          | inr named ↦ in-ne-panic org_id ups n (ground arith)
          | inl neither ↦ any-ne-panic ups uos n (ground arith)
        ]
      ]

  pub find_associated_project_and_roles-ne-panic :
      (user_id org_id project_id : String) (n : ℕ)
      → (find_associated_project_and_roles user_id org_id project_id h n).0 ≢ panic
  unfolding find_associated_project_and_roles ◌>>=◌
  find_associated_project_and_roles-ne-panic user_id org_id project_id n = λ e.
      let ups = (h n).get_projects_by_user_id user_id in
      let uos = (h (suc n)).get_organizations_by_user_id user_id in
      let found = find_associated_project user_id org_id project_id ups uos h (suc (suc n)) in
      elim (Outcome-cases found.0) [
        | inl (p, is) ↦ ground arith
        | inr (inl (x, is)) ↦ ground arith
        | inr (inr is) ↦ project-ne-panic user_id org_id project_id ups uos (suc (suc n)) is
      ]
