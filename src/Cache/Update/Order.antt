-- ===== src/Cache/Update/Order.antt =====
-- The order in which the services list their items does not matter to the getters by a key.
use rbac_manager.Prelude.{
  ℕ, String, Bool, true, false, Option, none, some, List, [], ◌∷◌, ◌≡◌, ◌↔◌, sym, ap, ◌∙◌, ◌==◌,
  arith, inl, inr, In, last, Bool-cases, Option-cases,
}
use rbac_manager.Outcome.{ok, ok-injective}
use rbac_manager.UserManager.{InternalApiKey, InternalOrganization, ProjectInfo}
use rbac_manager.Cache
use rbac_manager.Cache.{Store}
use rbac_manager.Cache.Update.{UserInfoLister, ClusterInfoLister, to_p, update_cache}
use rbac_manager.Cache.Update.Contents.{
  latest, has_secret, to_k, has_org_id, to_o, update_cache-Contains,
}

-- Two lists of the same items, in any order and with any repetitions.
abbrev pub SameItems : {A : Type 0} → List A → List A → Type 0
SameItems {A} xs ys = (x : A) → In x xs ↔ In x ys

-- No two different items of the list have the same key, where `p k x` says that `x` has the key `k`.
abbrev pub HasUnique : {A : Type 0} → (String → A → Bool) → List A → Type 0
HasUnique {A} p xs =
    (k : String) (x y : A) → In x xs → In y xs → p k x ≡ true → p k y ≡ true → x ≡ y

module _ {A : Type 0} (p : A → Bool) where
  pub last-some : (xs : List A) (y : A) → last p xs ≡ some y → In y xs × (p y ≡ true)
  last-some [] y e = absurd (ground arith)
  last-some (x ∷ xs) y e = elim (Option-cases (last p xs)) [
    | inr (z, found) ↦
        let (i, is) = last-some xs z found in
        let same : z ≡ y = ground arith in
        let i' : In y xs = rw same at i in let is' : p y ≡ true = rw same at is in (inr i', is')
    | inl missing ↦ elim (Bool-cases (p x)) [
      | inl is ↦ (inl (ground arith), ground arith)
      | inr other ↦ absurd (ground arith)
    ]
  ]

  pub last-none : (xs : List A) (x : A) → last p xs ≡ none → In x xs → p x ≡ false
  last-none [] x e i = absurd i
  last-none (z ∷ xs) x e i = elim (Option-cases (last p xs)) [
    | inr (y, found) ↦ absurd (ground arith)
    | inl missing ↦ elim i [ inl same ↦ ground arith | inr later ↦ last-none xs x missing later ]
  ]

  last-SameItems :
      (xs ys : List A)
      → SameItems xs ys
      → ((x y : A) → In x xs → In y xs → p x ≡ true → p y ≡ true → x ≡ y)
      → last p xs ≡ last p ys
  last-SameItems xs ys same unique = elim (Option-cases (last p xs)) [
    | inl missing ↦ elim (Option-cases (last p ys)) [
      | inl missing' ↦ missing ∙ sym missing'
      | inr (y, found) ↦
          let (i, is) = last-some ys y found in
          let other = last-none xs y missing ((same y).1 i) in absurd (ground arith)
    ]
    | inr (x, found) ↦
        let (i, is) = last-some xs x found in
        elim (Option-cases (last p ys)) [
          | inl missing' ↦
              let other = last-none ys x missing' ((same x).0 i) in absurd (ground arith)
          | inr (y, found') ↦
              let (j, is') = last-some ys y found' in
              found ∙ ap some (unique x y i ((same y).1 j) is is') ∙ sym found'
        ]
  ]

pub latest-SameItems :
    {A B : Type 0} (p : String → A → Bool) (f : A → Option B) (k : String) (xs ys : List A)
    → SameItems xs ys
    → HasUnique p xs
    → latest (p k) f xs ≡ latest (p k) f ys
latest-SameItems p f k xs ys same unique =
    ap (λ x. elim x [ none ↦ none | some x ↦ f x ]) (last-SameItems (p k) xs ys same (unique k))

abbrev pub has_project_id : String → ProjectInfo → Bool
has_project_id id p = p.id == id

-- The items that two services list, in which no two different ones share a secret or an ID.
pub record SameListings (ul ul' : UserInfoLister) : Type 0 where
  pub api_keys : List InternalApiKey
  pub api_keys' : List InternalApiKey
  pub orgs : List InternalOrganization
  pub orgs' : List InternalOrganization
  pub projects : List ProjectInfo
  pub projects' : List ProjectInfo
  pub has_api_keys : ul.list_internal_api_keys ≡ ok api_keys
  pub has_api_keys' : ul'.list_internal_api_keys ≡ ok api_keys'
  pub has_orgs : ul.list_internal_organizations ≡ ok orgs
  pub has_orgs' : ul'.list_internal_organizations ≡ ok orgs'
  pub has_projects : ul.list_projects ≡ ok projects
  pub has_projects' : ul'.list_projects ≡ ok projects'
  pub same_api_keys : SameItems api_keys api_keys'
  pub same_orgs : SameItems orgs orgs'
  pub same_projects : SameItems projects projects'
  pub unique_secrets : HasUnique has_secret api_keys
  pub unique_orgs : HasUnique has_org_id orgs
  pub unique_projects : HasUnique has_project_id projects

module _ (ul ul' : UserInfoLister) (cl cl' : ClusterInfoLister) (l : SameListings ul ul')
    (now now' : ℕ) (before before' c c' : Store) where
  -- Two updates that succeed, of any two stores, and that get the same API keys, organizations and
  -- projects, in whatever order and however often each is listed, where no two different ones share a
  -- secret or an ID: the two stores answer alike for every secret, every organization and every
  -- project.
  pub update_cache-SameItems :
      update_cache ul cl now before ≡ (ok tt, c)
      → update_cache ul' cl' now' before' ≡ (ok tt, c')
      → ((secret : String)
          → Cache.get_api_key_by_secret c secret ≡ Cache.get_api_key_by_secret c' secret)
        × ((id : String) → Cache.get_organization_by_id c id ≡ Cache.get_organization_by_id c' id)
        × ((id : String) → Cache.get_project_by_id c id ≡ Cache.get_project_by_id c' id)
  update_cache-SameItems done done' =
      let (b, held) = update_cache-Contains ul cl c now before done in
      let (b', held') = update_cache-Contains ul' cl' c' now' before' done' in
      (
        λ secret.
            held.key_of secret
            ∙ ap (latest (has_secret secret) to_k)
                (ok-injective (sym b.got_api_keys ∙ l.has_api_keys))
            ∙ latest-SameItems has_secret to_k secret l.api_keys l.api_keys' l.same_api_keys
                l.unique_secrets
            ∙ ap (latest (has_secret secret) to_k)
                (ok-injective (sym l.has_api_keys' ∙ b'.got_api_keys))
            ∙ sym (held'.key_of secret),
        λ id.
            held.org_of id
            ∙ ap (latest (has_org_id id) to_o) (ok-injective (sym b.got_orgs ∙ l.has_orgs))
            ∙ latest-SameItems has_org_id to_o id l.orgs l.orgs' l.same_orgs l.unique_orgs
            ∙ ap (latest (has_org_id id) to_o) (ok-injective (sym l.has_orgs' ∙ b'.got_orgs))
            ∙ sym (held'.org_of id),
        λ id.
            held.project_of id
            ∙ ap (latest (has_project_id id) (λ p. some (to_p p)))
                (ok-injective (sym b.got_projects ∙ l.has_projects))
            ∙ latest-SameItems has_project_id (λ p. some (to_p p)) id l.projects l.projects'
                l.same_projects l.unique_projects
            ∙ ap (latest (has_project_id id) (λ p. some (to_p p)))
                (ok-injective (sym l.has_projects' ∙ b'.got_projects))
            ∙ sym (held'.project_of id),
      )
