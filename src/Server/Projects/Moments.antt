-- ===== src/Server/Projects/Moments.antt =====
-- Which project a request is about, read by read, whatever updates of the cache fall into the run.
pub mod Roles
use mathlib.Core.List.{append-nil, append_assoc}
use mathlib.Core.Path.{subst}
use rbac_manager.Prelude.{
  ℕ, suc, String, some, List, [], ◌∷◌, ◌++◌, map, ◌≡◌, ◌≢◌, ◌↔◌, ◌⊎◌, sym, ap, ◌∙◌, arith, eq_iff,
  is_empty, inl, inr, Bool-cases, Option-cases,
}
use rbac_manager.Outcome.{Outcome, ok, Outcome-cases}
use rbac_manager.UserManager.{OrganizationRole}
use rbac_manager.Cache.{O, Ou, P, Pu}
use rbac_manager.Server.Reads.{History, ◌>>=◌}
use rbac_manager.Server.Projects.{
  ProjectError, ProjectAndRoles, add_org_projects, find_requested_project, find_project_in,
  find_any_project, find_associated_project, find_associated_project_and_roles,
  no_project_in_organization, no_project_for_user,
}
use rbac_manager.Server.Projects.Find.{own_projects, projects_in-eq}
use rbac_manager.Server.Projects.Pick.{IsPick, pick_or_iff}
use rbac_manager.Server.Projects.Roles.{
  first_project_role, first_org_role, project_role_of-first, org_role_of-first,
}

module _ (h : History) where
  -- The projects of the organizations, one read for each, from the read `n` on.
  abbrev pub org_projects_at : ℕ → List Ou → List P
  org_projects_at n [] = []
  org_projects_at n (o ∷ os) =
      (h n).get_projects_by_organization_id o.organization_id ++ org_projects_at (suc n) os

  -- The number of the read after these.
  abbrev pub after : ℕ → List Ou → ℕ
  after n [] = n
  after n (_ ∷ os) = after (suc n) os

  -- The project that a request names, by its project, by its organization, or not at all, as the
  -- reads from `n` on find it; `k` is the first read after them.
  pub data IsAssociatedAt (n k : ℕ) (org_id project_id : String) (ups : List Pu) (uos : List Ou)
      (p : P) : Type 0 where
    by_project :
        project_id ≢ ""
        → (h n).get_project_by_id project_id ≡ some p
        → (org_id ≡ "") ⊎ (org_id ≡ p.organization_id)
        → k ≡ suc n
        → IsAssociatedAt n k org_id project_id ups uos p
    by_organization :
        (o : O)
        → project_id ≡ ""
        → org_id ≢ ""
        → (h n).get_organization_by_id org_id ≡ some o
        → IsPick p
            (own_projects (h n) org_id ups ++ (h (suc n)).get_projects_by_organization_id org_id)
        → k ≡ suc (suc n)
        → IsAssociatedAt n k org_id project_id ups uos p
    by_user :
        project_id ≡ ""
        → org_id ≡ ""
        → IsPick p (map (λ (q : Pu). q.project) ups ++ org_projects_at n uos)
        → k ≡ after n uos
        → IsAssociatedAt n k org_id project_id ups uos p

  abbrev listed_at : ℕ → List P → Outcome ProjectError (List P) × ℕ
  listed_at k ps = (ok ps, k)

  add_org_projects-at :
      (ps : List P) (os : List Ou) (n : ℕ)
      → add_org_projects ps os h n ≡ (ok (ps ++ org_projects_at n os), after n os)
  unfolding add_org_projects ◌>>=◌
  add_org_projects-at ps [] n = ap (listed_at n) (sym (append-nil ps))
  add_org_projects-at ps (o ∷ os) n =
      let more = (h n).get_projects_by_organization_id o.organization_id in
      add_org_projects-at (ps ++ more) os (suc n)
      ∙ ap (listed_at (after (suc n) os)) (append_assoc ps more (org_projects_at (suc n) os))

  module _ (n k : ℕ) (p : P) where
    requested_iff :
        (org_id project_id : String)
        → (find_requested_project org_id project_id h n ≡ (ok p, k)) ↔ (
            ((h n).get_project_by_id project_id ≡ some p)
            × ((org_id ≡ "") ⊎ (org_id ≡ p.organization_id))
            × (k ≡ suc n))
    unfolding find_requested_project ◌>>=◌
    requested_iff org_id project_id =
        ground (arith, eq_iff org_id "", eq_iff org_id p.organization_id)

    in_organization_iff :
        (org_id : String) (ups : List Pu)
        → (find_project_in org_id ups h n ≡ (ok p, k)) ↔ (
            (o : O) × ((h n).get_organization_by_id org_id ≡ some o)
            × IsPick p (
                own_projects (h n) org_id ups ++ (h (suc n)).get_projects_by_organization_id org_id)
            × (k ≡ suc (suc n)))
    unfolding find_project_in ◌>>=◌
    in_organization_iff org_id ups = elim (Option-cases ((h n).get_organization_by_id org_id)) [
      | inl missing ↦ (λ e. absurd (ground arith), λ (o, found, _, _). absurd (ground arith))
      | inr (o, found) ↦
          let own = projects_in-eq (h n) org_id ups in
          let picks =
            pick_or_iff (no_project_in_organization org_id)
              (own_projects (h n) org_id ups ++ (h (suc n)).get_projects_by_organization_id org_id)
              p in
          (
            λ e. (o, found, picks.0 (ground (arith, own)), ground arith),
            λ (_, _, pick, is). let chosen = picks.1 pick in ground (arith, own),
          )
    ]

    any_iff :
        (ups : List Pu) (uos : List Ou)
        → (find_any_project ups uos h n ≡ (ok p, k)) ↔ (
            IsPick p (map (λ (q : Pu). q.project) ups ++ org_projects_at n uos) × (k ≡ after n uos))
    unfolding find_any_project ◌>>=◌
    any_iff ups uos =
        let all = map (λ (q : Pu). q.project) ups in
        let run = add_org_projects-at all uos n in
        let picks = pick_or_iff no_project_for_user (all ++ org_projects_at n uos) p in
        (
          λ e. (picks.0 (ground arith), ground arith),
          λ (pick, is). let chosen = picks.1 pick in ground arith,
        )

  module _ (org_id project_id : String) (ups : List Pu) (uos : List Ou) (p : P) (n k : ℕ) where
    pub associated_sound :
        (user_id : String)
        → find_associated_project user_id org_id project_id ups uos h n ≡ (ok p, k)
        → IsAssociatedAt n k org_id project_id ups uos p
    unfolding find_associated_project
    associated_sound user_id e = elim (Bool-cases (is_empty project_id)) [
      | inr named ↦
          let (found, fits, is) = (requested_iff n k p org_id project_id).0 (ground arith) in
          by_project (ground (arith, eq_iff project_id "")) found fits is
      | inl unnamed ↦ elim (Bool-cases (is_empty org_id)) [
        | inr named ↦
            let (o, found, pick, is) = (in_organization_iff n k p org_id ups).0 (ground arith) in
            by_organization o ((eq_iff project_id "").0 unnamed) (ground (arith, eq_iff org_id ""))
              found pick is
        | inl neither ↦
            let (pick, is) = (any_iff n k p ups uos).0 (ground arith) in
            by_user ((eq_iff project_id "").0 unnamed) ((eq_iff org_id "").0 neither) pick is
      ]
    ]

    pub associated_complete :
        (user_id : String)
        → IsAssociatedAt n k org_id project_id ups uos p
        → find_associated_project user_id org_id project_id ups uos h n ≡ (ok p, k)
    unfolding find_associated_project
    associated_complete user_id (by_project named found fits is) =
        let e = (requested_iff n k p org_id project_id).1 (found, fits, is) in
        ground (arith, eq_iff project_id "")
    associated_complete user_id (by_organization o unnamed named found pick is) =
        let e = (in_organization_iff n k p org_id ups).1 (o, found, pick, is) in
        ground (arith, eq_iff project_id "", eq_iff org_id "")
    associated_complete user_id (by_user unnamed neither pick is) =
        let e = (any_iff n k p ups uos).1 (pick, is) in
        ground (arith, eq_iff project_id "", eq_iff org_id "")
