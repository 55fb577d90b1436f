-- ===== src/Cache/Update/Contents.antt =====
-- What the getters answer after a successful update, by the listings of that update.
use rbac_manager.Prelude.{
  ℕ, String, Bool, false, Option, none, some, List, [], ◌∷◌, map, ◌≡◌, refl, sym, ap, ◌∙◌, ◌==◌,
  if◌then◌else◌, inl, inr, arith, keep, last,
}
use rbac_manager.Outcome.{ok, Outcome-cases}
use rbac_manager.GoMap.{GoMap, lookup, insert, lookup_all, append_at}
use rbac_manager.GoMap.Loops.{index_by, group_by, lookup-index_by, lookup_all-group_by}
use rbac_manager.UserManager.{InternalApiKey, InternalOrganization, OrganizationUser, ProjectInfo}
use rbac_manager.Cache
use rbac_manager.Cache.{K, O, Ou, P, Store}
use rbac_manager.Cache.Update.{
  UserInfoLister, ClusterInfoLister, add_api_key, add_organization, add_projects, to_ou, to_p,
  build_tables, publish, update_cache,
}
use rbac_manager.Cache.Update.Folds.{for_each-last}
use rbac_manager.Cache.Update.Built.{Built, build_tables-Built}

-- The later of two messages with one key counts.
abbrev pub latest : {A B : Type 0} → (A → Bool) → (A → Option B) → List A → Option B
latest p f xs = elim (last p xs) [ none ↦ none | some x ↦ f x ]

-- The message has the API key with this secret.
abbrev pub has_secret : String → InternalApiKey → Bool
has_secret secret x = elim x.api_key [ none ↦ false | some key ↦ key.secret == secret ]

abbrev pub to_k : InternalApiKey → Option K
to_k x = elim x.api_key [
  | none ↦ none
  | some key ↦ elim key.user [
    | none ↦ none
    | some user ↦ elim key.organization [
      | none ↦ none
      | some organization ↦ elim key.project [
        | none ↦ none
        | some project ↦ some (record {
          key_id = key.id;
          user_id = user.id;
          internal_user_id = user.internal_id;
          organization_id = organization.id;
          project_id = project.id;
          tenant_id = x.tenant_id;
          organization_role = key.organization_role;
          project_role = key.project_role;
          excluded_from_rate_limiting = key.excluded_from_rate_limiting;
        })
      ]
    ]
  ]
]

abbrev pub has_org_id : String → InternalOrganization → Bool
has_org_id id x = elim x.organization [ none ↦ false | some info ↦ info.id == id ]

abbrev pub to_o : InternalOrganization → Option O
to_o x = elim x.organization [
  | none ↦ none
  | some info ↦ some (record {
    id = info.id;
    title = info.title;
    tenant_id = x.tenant_id;
    is_default = info.is_default;
  })
]

pub org_step :
    (id : String) (m m' : GoMap O) (x : InternalOrganization)
    → add_organization m x ≡ ok m'
    → lookup id m' ≡ (if has_org_id id x then to_o x else lookup id m)
unfolding add_organization
org_step id m m' x e = ground arith

key_step :
    (secret : String) (m m' : GoMap K) (x : InternalApiKey)
    → add_api_key m x ≡ ok m'
    → lookup secret m' ≡ (if has_secret secret x then to_k x else lookup secret m)
unfolding add_api_key
key_step secret m m' x e = ground arith

-- The two tables of the projects are the ones that the loops over the listing make.
pub add_projects-loops :
    (maps : GoMap P × GoMap (List P)) (ps : List ProjectInfo)
    → add_projects maps ps ≡ (
      index_by (λ (p : ProjectInfo). p.id) to_p maps.0 ps,
      group_by (λ (p : ProjectInfo). p.organization_id) to_p maps.1 ps,
    )
unfolding add_projects index_by group_by
add_projects-loops maps [] = refl
add_projects-loops (by_id, by_org) (p ∷ ps) =
    add_projects-loops (insert p.id (to_p p) by_id, append_at p.organization_id (to_p p) by_org) ps

-- What the getters of a store answer, by the listings that its tables are made of.
pub record Contains (c : Store) (api_keys : List InternalApiKey) (orgs : List InternalOrganization)
    (org_users : List OrganizationUser) (projects : List ProjectInfo) : Type 0 where
  pub key_of :
      (secret : String)
      → Cache.get_api_key_by_secret c secret ≡ latest (has_secret secret) to_k api_keys
  pub org_of : (id : String) → Cache.get_organization_by_id c id ≡ latest (has_org_id id) to_o orgs
  pub orgs_of :
      (user_id : String)
      → Cache.get_organizations_by_user_id c user_id
        ≡ map to_ou (keep (λ (u : OrganizationUser). u.user_id == user_id) org_users)
  pub project_of :
      (id : String)
      → Cache.get_project_by_id c id
        ≡ latest (λ (p : ProjectInfo). p.id == id) (λ p. some (to_p p)) projects
  pub projects_of :
      (org_id : String)
      → Cache.get_projects_by_organization_id c org_id
        ≡ map to_p (keep (λ (p : ProjectInfo). p.organization_id == org_id) projects)

module _ (ul : UserInfoLister) (cl : ClusterInfoLister) (c : Store) where
  pub Built-Contains :
      (b : Built ul cl c.tables) → Contains c b.api_keys b.orgs b.org_users b.projects
  unfolding Cache.get_api_key_by_secret Cache.get_organization_by_id
      Cache.get_organizations_by_user_id Cache.get_project_by_id
      Cache.get_projects_by_organization_id
  Built-Contains b =
      let loops = sym b.projects_loop ∙ add_projects-loops ([], []) b.projects in
      record {
        key_of = λ secret.
            for_each-last (has_secret secret) add_api_key to_k (lookup secret) (key_step secret) []
              _ b.api_keys b.keys_loop;
        org_of = λ id.
            for_each-last (has_org_id id) add_organization to_o (lookup id) (org_step id) [] _
              b.orgs b.orgs_loop;
        orgs_of = λ user_id.
            ap (lookup_all user_id) b.org_users_loop
            ∙ lookup_all-group_by (λ (u : OrganizationUser). u.user_id) to_ou user_id []
                b.org_users;
        project_of = λ id.
            ap (λ (m : GoMap P × GoMap (List P)). lookup id m.0) loops
            ∙ (lookup-index_by (λ (p : ProjectInfo). p.id) to_p id [] b.projects ∙ refl);
        projects_of = λ org_id.
            ap (λ (m : GoMap P × GoMap (List P)). lookup_all org_id m.1) loops
            ∙ lookup_all-group_by (λ (p : ProjectInfo). p.organization_id) to_p org_id []
                b.projects;
      }

  pub publish-tables :
      (now : ℕ) (before : Store)
      → update_cache ul cl now before ≡ (ok tt, c)
      → build_tables ul cl ≡ ok c.tables
  unfolding update_cache publish
  publish-tables now before e = elim (Outcome-cases (build_tables ul cl)) [
    | inr (inr panics) ↦ absurd (ground arith)
    | inr (inl (x, failed)) ↦ absurd (ground arith)
    | inl (t, made) ↦ ground arith
  ]

  -- After an update that succeeds, all six listings have been answered, and the getters find: under a
  -- secret, the ID of an organization or the ID of a project, the last listed item that has it; under
  -- the ID of a user all of the user's memberships in organizations, and under the ID of an
  -- organization all of its projects, in the order of the listings.
  pub update_cache-Contains :
      (now : ℕ) (before : Store)
      → update_cache ul cl now before ≡ (ok tt, c)
      → (b : Built ul cl c.tables) × Contains c b.api_keys b.orgs b.org_users b.projects
  update_cache-Contains now before e =
      let b = build_tables-Built ul cl c.tables (publish-tables now before e) in
      (b, Built-Contains b)
