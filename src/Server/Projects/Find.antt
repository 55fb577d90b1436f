-- ===== src/Server/Projects/Find.antt =====
-- Which project a request is about, where no update of the cache falls into the request.
use rbac_manager.Prelude.{
  ℕ, suc, String, some, List, [], ◌∷◌, ◌++◌, map, ◌≡◌, ◌≢◌, ◌↔◌, ◌⊎◌, ◌==◌, refl, sym, ◌∙◌, ap,
  arith, eq_iff, is_empty, keep, inl, inr, Bool-cases, Option-cases,
}
use mathlib.Core.List.{append-nil, append_assoc}
use rbac_manager.Outcome.{ok}
use rbac_manager.Cache.{O, Ou, P, Pu}
use rbac_manager.Server.{CacheGetter}
use rbac_manager.Server.Reads.{steady, ◌>>=◌}
use rbac_manager.Server.Projects.{
  projects_in, add_org_projects, find_requested_project, find_project_in, find_any_project,
  find_associated_project, no_project_in_organization, no_project_for_user,
}
use rbac_manager.Server.Projects.Pick.{IsPick, pick_or_iff}

module _ (g : CacheGetter) where
  -- All projects of the organizations, in the order of the memberships.
  abbrev pub org_projects : List Ou → List P
  org_projects [] = []
  org_projects (o ∷ os) = g.get_projects_by_organization_id o.organization_id ++ org_projects os

  -- The user's projects that are recorded for the organization.
  abbrev pub own_projects : String → List Pu → List P
  own_projects org_id ps = map (λ (p : Pu). p.project) (keep (λ p. p.organization_id == org_id) ps)

  -- The project that a request names, by its project, by its organization, or not at all.
  pub data IsAssociated (org_id project_id : String) (ups : List Pu) (uos : List Ou) (p : P)
      : Type 0 where
    by_project :
        project_id ≢ ""
        → g.get_project_by_id project_id ≡ some p
        → (org_id ≡ "") ⊎ (org_id ≡ p.organization_id)
        → IsAssociated org_id project_id ups uos p
    by_organization :
        (o : O)
        → project_id ≡ ""
        → org_id ≢ ""
        → g.get_organization_by_id org_id ≡ some o
        → IsPick p (own_projects org_id ups ++ g.get_projects_by_organization_id org_id)
        → IsAssociated org_id project_id ups uos p
    by_user :
        project_id ≡ ""
        → org_id ≡ ""
        → IsPick p (map (λ (q : Pu). q.project) ups ++ org_projects uos)
        → IsAssociated org_id project_id ups uos p

  pub projects_in-eq :
      (org_id : String) (ups : List Pu) → projects_in org_id ups ≡ own_projects org_id ups
  unfolding projects_in
  projects_in-eq org_id [] = refl
  projects_in-eq org_id (p ∷ ps) = ground (arith, projects_in-eq org_id ps)

  add_org_projects-steady :
      (ps : List P) (os : List Ou) (n : ℕ)
      → (add_org_projects ps os (steady g) n).0 ≡ ok (ps ++ org_projects os)
  unfolding add_org_projects ◌>>=◌
  add_org_projects-steady ps [] n = ap ok (sym (append-nil ps))
  add_org_projects-steady ps (o ∷ os) n =
      add_org_projects-steady (ps ++ g.get_projects_by_organization_id o.organization_id) os (suc n)
      ∙ ap ok
          (append_assoc ps (g.get_projects_by_organization_id o.organization_id) (org_projects os))

  requested_iff :
      (org_id project_id : String) (p : P) (n : ℕ)
      → ((find_requested_project org_id project_id (steady g) n).0 ≡ ok p) ↔ (
          (g.get_project_by_id project_id ≡ some p)
          × ((org_id ≡ "") ⊎ (org_id ≡ p.organization_id)))
  unfolding find_requested_project ◌>>=◌
  requested_iff org_id project_id p n =
      ground (arith, eq_iff org_id "", eq_iff org_id p.organization_id)

  in_organization_iff :
      (org_id : String) (ups : List Pu) (p : P) (n : ℕ)
      → ((find_project_in org_id ups (steady g) n).0 ≡ ok p) ↔ (
          (o : O) × (g.get_organization_by_id org_id ≡ some o)
          × IsPick p (own_projects org_id ups ++ g.get_projects_by_organization_id org_id))
  unfolding find_project_in ◌>>=◌
  in_organization_iff org_id ups p n = elim (Option-cases (g.get_organization_by_id org_id)) [
    | inl missing ↦ (λ e. absurd (ground arith), λ (o, found, _). absurd (ground arith))
    | inr (o, found) ↦
        let picks =
          pick_or_iff (no_project_in_organization org_id)
            (own_projects org_id ups ++ g.get_projects_by_organization_id org_id) p in
        (
          λ e. (o, found, picks.0 (ground (arith, projects_in-eq org_id ups))),
          λ (_, _, pick). ground (arith, projects_in-eq org_id ups, picks.1 pick),
        )
  ]

  any_iff :
      (ups : List Pu) (uos : List Ou) (p : P) (n : ℕ)
      → ((find_any_project ups uos (steady g) n).0 ≡ ok p)
        ↔ IsPick p (map (λ (q : Pu). q.project) ups ++ org_projects uos)
  unfolding find_any_project ◌>>=◌
  any_iff ups uos p n =
      let all = map (λ (q : Pu). q.project) ups in
      let picks = pick_or_iff no_project_for_user (all ++ org_projects uos) p in
      (
        λ e. picks.0 (ground (arith, add_org_projects-steady all uos n)),
        λ pick. ground (arith, add_org_projects-steady all uos n, picks.1 pick),
      )

  IsAssociated-sound :
      (user_id org_id project_id : String) (ups : List Pu) (uos : List Ou) (p : P) (n : ℕ)
      → (find_associated_project user_id org_id project_id ups uos (steady g) n).0 ≡ ok p
      → IsAssociated org_id project_id ups uos p
  unfolding find_associated_project
  IsAssociated-sound user_id org_id project_id ups uos p n e =
      elim (Bool-cases (is_empty project_id)) [
        | inr named ↦
            let (found, fits) = (requested_iff org_id project_id p n).0 (ground arith) in
            by_project (ground (arith, eq_iff project_id "")) found fits
        | inl unnamed ↦ elim (Bool-cases (is_empty org_id)) [
          | inr named ↦
              let (o, found, pick) = (in_organization_iff org_id ups p n).0 (ground arith) in
              by_organization o ((eq_iff project_id "").0 unnamed)
                (ground (arith, eq_iff org_id "")) found pick
          | inl neither ↦
              by_user ((eq_iff project_id "").0 unnamed) ((eq_iff org_id "").0 neither)
                ((any_iff ups uos p n).0 (ground arith))
        ]
      ]

  IsAssociated-complete :
      (user_id org_id project_id : String) (ups : List Pu) (uos : List Ou) (p : P) (n : ℕ)
      → IsAssociated org_id project_id ups uos p
      → (find_associated_project user_id org_id project_id ups uos (steady g) n).0 ≡ ok p
  unfolding find_associated_project
  IsAssociated-complete user_id org_id project_id ups uos p n (by_project named found fits) =
      let e = (requested_iff org_id project_id p n).1 (found, fits) in
      ground (arith, eq_iff project_id "", e)
  IsAssociated-complete user_id org_id project_id ups uos p n
        (by_organization o unnamed named found pick) =
      let e = (in_organization_iff org_id ups p n).1 (o, found, pick) in
      ground (arith, eq_iff project_id "", eq_iff org_id "", e)
  IsAssociated-complete user_id org_id project_id ups uos p n (by_user unnamed neither pick) =
      let e = (any_iff ups uos p n).1 pick in
      ground (arith, eq_iff project_id "", eq_iff org_id "", e)

  -- With no update in between, `findAssociatedProject` returns `p` exactly when `p` is the project
  -- that the request names by its ID, if it is of the organization that is named beside it; or, with
  -- only an organization named, the pick of the user's projects there followed by all projects of
  -- the organization; or, with neither, the pick of the user's projects followed by all projects of
  -- the user's organizations.
  pub find_associated_project_iff :
      (user_id org_id project_id : String) (ups : List Pu) (uos : List Ou) (p : P) (n : ℕ)
      → ((find_associated_project user_id org_id project_id ups uos (steady g) n).0 ≡ ok p)
        ↔ IsAssociated org_id project_id ups uos p
  find_associated_project_iff user_id org_id project_id ups uos p n = (
    IsAssociated-sound user_id org_id project_id ups uos p n,
    IsAssociated-complete user_id org_id project_id ups uos p n,
  )
