-- ===== src/Auth/Interceptor/Http/Parts.antt =====
-- What the interceptor of HTTP requests reads of a request and of a response.
use text.Mathlib.Text.{◌==◌ as str_eq}
use rbac_manager.Prelude.{
  String, some, List, [], ◌∷◌, map, ◌≡◌, ◌≢◌, ◌↔◌, ◌⊎◌, refl, arith, eq_iff, inl, inr, Bool-cases,
  Option-cases,
}
use rbac_manager.Outcome.{ok}
use rbac_manager.GoMap.{GoMap, lookup_all}
use rbac_manager.Rbac.{AuthorizeResponse, User, Organization, Project}
use rbac_manager.Auth.{UserInfo, to_env, new_user_info_from_authorize_response}
use rbac_manager.Auth.Text.{capability_of_http_method}
use rbac_manager.Auth.Text.Laws.{IsWithout, trim_prefix_iff}
use rbac_manager.Auth.Interceptor.{first_value, value_or_empty, extract_token_from_header}

-- The first of the values under the key is `v`.
abbrev pub IsFirstUnder : (key : String) → GoMap (List String) → (v : String) → Type 0
IsFirstUnder key header v = (others : List String) × (lookup_all key header ≡ v ∷ others)

-- The same, or there is none and `v` is empty.
abbrev pub IsFirstOrEmpty : (key : String) → GoMap (List String) → (v : String) → Type 0
IsFirstOrEmpty key header v = IsFirstUnder key header v ⊎ ((lookup_all key header ≡ []) × (v ≡ ""))

-- GET reads, and every other method writes.
abbrev pub IsCapability : (method capability : String) → Type 0
IsCapability method capability =
    ((method ≡ "GET") × (capability ≡ "read")) ⊎ ((method ≢ "GET") × (capability ≡ "write"))

-- The response has all three parts, and `info` is what they say.
pub record IsInfo (resp : AuthorizeResponse) (info : UserInfo) : Type 0 where
  pub user : User
  pub organization : Organization
  pub project : Project
  pub has_user : resp.user ≡ some user
  pub has_organization : resp.organization ≡ some organization
  pub has_project : resp.project ≡ some project
  pub is_info : info ≡ record {
    user_id = user.id;
    internal_user_id = user.internal_id;
    organization_id = organization.id;
    organization_title = organization.title;
    project_id = project.id;
    project_title = project.title;
    assigned_kubernetes_envs = map to_env project.assigned_kubernetes_envs;
    tenant_id = resp.tenant_id;
    api_key_id = resp.api_key_id;
    excluded_from_rate_limiting = resp.excluded_from_rate_limiting;
  }

values-cases :
    (vs : List String) → (vs ≡ []) ⊎ ((v : String) × (others : List String) × (vs ≡ v ∷ others))
values-cases [] = inl refl
values-cases (v ∷ others) = inr (v, others, refl)

module _ (header : GoMap (List String)) where
  pub header_token_iff :
      (token : String)
      → (extract_token_from_header header ≡ some token) ↔ (
          (auth : String) × IsFirstUnder "Authorization" header auth
          × IsWithout "Bearer " auth token)
  unfolding extract_token_from_header
  header_token_iff token = (
    λ e. elim (values-cases (lookup_all "Authorization" header)) [
      | inl missing ↦ absurd (ground arith)
      | inr (auth, others, has) ↦
          (auth, (others, has), (trim_prefix_iff "Bearer " auth token).0 (ground arith))
    ],
    λ (auth, (others, has), is).
        let trims = (trim_prefix_iff "Bearer " auth token).1 is in ground arith,
  )

  pub value_iff :
      (key v : String)
      → (value_or_empty (first_value (lookup_all key header)) ≡ v) ↔ IsFirstOrEmpty key header v
  value_iff key v = (
    λ e. elim (values-cases (lookup_all key header)) [
      | inl missing ↦ inr (missing, ground arith)
      | inr (w, others, has) ↦ inl (others, ground arith)
    ],
    λ o. elim o [ inl (others, has) ↦ ground arith | inr (missing, is) ↦ ground arith ],
  )

pub IsCapability-iff :
    (method capability : String)
    → (capability_of_http_method method ≡ capability) ↔ IsCapability method capability
unfolding capability_of_http_method
IsCapability-iff method capability = (
  λ e. elim (Bool-cases (str_eq method "GET")) [
    | inl get ↦ inl (ground (arith, eq_iff method "GET"), ground arith)
    | inr other ↦ inr ((λ is. ground (arith, eq_iff method "GET")), ground arith)
  ],
  λ c. elim c [
    | inl (is, reads) ↦ ground (arith, eq_iff method "GET")
    | inr (other, writes) ↦ elim (Bool-cases (str_eq method "GET")) [
      | inl get ↦ absurd (other ((eq_iff method "GET").0 get))
      | inr not_get ↦ ground arith
    ]
  ],
)

pub IsInfo-iff :
    {E : Type 0} (resp : AuthorizeResponse) (info : UserInfo)
    → (new_user_info_from_authorize_response {E = E} resp ≡ ok info) ↔ IsInfo resp info
unfolding new_user_info_from_authorize_response
IsInfo-iff {E} resp info = (
  λ e. elim (Option-cases resp.project) [
    | inl missing ↦ absurd (ground arith)
    | inr (project, has_project) ↦ elim (Option-cases resp.user) [
      | inl missing ↦ absurd (ground arith)
      | inr (user, has_user) ↦ elim (Option-cases resp.organization) [
        | inl missing ↦ absurd (ground arith)
        | inr (organization, has_organization) ↦ record {
          user = user;
          organization = organization;
          project = project;
          has_user = has_user;
          has_organization = has_organization;
          has_project = has_project;
          is_info = ground arith;
        }
      ]
    ]
  ],
  λ i. ground (arith, i.has_user, i.has_organization, i.has_project, i.is_info),
)
