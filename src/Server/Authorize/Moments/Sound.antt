-- ===== src/Server/Authorize/Moments/Sound.antt =====
-- What a run that lets a request through has found.
use text.Mathlib.Text.{starts_with}
use rbac_manager.Prelude.{
  ap, ℕ, suc, String, none, some, ◌≡◌, arith, eq_iff, is_empty, inl, inr, Bool-cases, Option-cases,
}
use rbac_manager.Outcome.{Outcome, Outcome-cases}
use rbac_manager.Rbac.{AuthorizeRequest, AuthorizeResponse}
use rbac_manager.Token.{Introspection}
use rbac_manager.Cache.{K, O, U}
use rbac_manager.Server.{Server}
use rbac_manager.Server.Reads.{History, attempt, ◌>>=◌}
use rbac_manager.Server.Roles.{to_scope}
use rbac_manager.Server.Roles.Allowed.{Allowed, authorized_iff}
use rbac_manager.Server.Envs.{assigned_kubernetes_envs}
use rbac_manager.Server.Authorize.{
  authorize_key, authorize_in, authorize_user, authorize_token, authorize,
}
use rbac_manager.Server.Projects.{find_associated_project_and_roles, ProjectAndRoles, ProjectError}
use rbac_manager.Server.Projects.Moments.Roles.{IsForAt-iff}
use rbac_manager.Server.Authorize.Grounds.{requested_scope, Grants, user_response, IsComplete}
use rbac_manager.Server.Authorize.Moments.{
  IsUserAt, IsGrantedAt, key_found, plain_user, roles_found,
}

module _ (normalize : String → String) (s : Server) (h : History) (req : AuthorizeRequest) where
  module _ (r : AuthorizeResponse) where
    key_sound :
        (key : K) (n : ℕ)
        → (h n).get_api_key_by_secret req.token ≡ some key
        → Grants (authorize_key s req key h (suc n)).0 r
        → IsGrantedAt normalize s h req n r
    unfolding to_scope authorize_key assigned_kubernetes_envs ◌>>=◌
    key_sound key n found e = elim (Option-cases ((h (suc n)).get_project_by_id key.project_id)) [
      | inl missing ↦ absurd (ground arith)
      | inr (project, has_project) ↦
          elim (Option-cases ((h (suc (suc n))).get_organization_by_id key.organization_id)) [
            | inl missing ↦ absurd (ground arith)
            | inr (org, has_org) ↦
                key_found key project org found has_project has_org
                  ((authorized_iff s (requested_scope req) key.organization_role key.project_role).0
                    (ground arith))
                  (ground arith)
          ]
    ]

    in_sound :
        (user_id : String) (u : U) (pr : ProjectAndRoles) (k : ℕ)
        → Grants (authorize_in s req user_id u pr h k).0 r
        → (org : O) × ((h k).get_organization_by_id pr.project.organization_id ≡ some org)
          × Allowed s (requested_scope req) pr.org_role pr.project_role
          × (r ≡ user_response normalize s (h (suc k)) req user_id u pr.project org)
    unfolding to_scope authorize_in assigned_kubernetes_envs ◌>>=◌
    in_sound user_id u pr k e =
        elim (Option-cases ((h k).get_organization_by_id pr.project.organization_id)) [
          | inl missing ↦ absurd (ground arith)
          | inr (org, has_org) ↦ (
            org,
            has_org,
            (authorized_iff s (requested_scope req) pr.org_role pr.project_role).0 (ground arith),
            ground arith,
          )
        ]

    user_sound :
        (is : Introspection) (u : U) (n : ℕ)
        → IsUserAt normalize s h req n is u
        → Grants (authorize_user s req (normalize is.extra.email) u h (suc (suc n))).0 r
        → IsGrantedAt normalize s h req n r
    unfolding authorize_user attempt ◌>>=◌
    user_sound is u n known e =
        elim (Bool-cases (starts_with req.access_resource "api.organizations")) [
          | inl organizations ↦ plain_user is u known organizations (ground arith)
          | inr other ↦
              let o =
                find_associated_project_and_roles (normalize is.extra.email) req.organization_id
                  req.project_id h (suc (suc n)) in
              elim (Outcome-cases o.0) [
                | inr (inl (x, failed)) ↦ absurd (ground arith)
                | inr (inr failed) ↦ absurd (ground arith)
                | inl (pr, found) ↦
                    let (org, has_org, allowed, is_r) =
                      in_sound (normalize is.extra.email) u pr o.1 (ground arith) in
                    let for =
                      (IsForAt-iff h (normalize is.extra.email) req.organization_id req.project_id
                          pr (suc (suc n)) o.1).0
                        (ap (λ (x : Outcome ProjectError ProjectAndRoles). (x, o.1)) found) in
                    roles_found is u pr o.1 org known other for has_org allowed is_r
              ]
        ]

    token_sound :
        (n : ℕ)
        → (h n).get_api_key_by_secret req.token ≡ none
        → Grants (authorize_token normalize s req h (suc n)).0 r
        → IsGrantedAt normalize s h req n r
    unfolding authorize_token ◌>>=◌
    token_sound n no_key e = elim (Outcome-cases (s.token_introspector req.token)) [
      | inr (inl (x, failed)) ↦ absurd (ground arith)
      | inr (inr failed) ↦ absurd (ground arith)
      | inl (is, introspected) ↦ elim (Bool-cases is.active) [
        | inr inactive ↦ absurd (ground arith)
        | inl active ↦ elim (Option-cases ((h (suc n)).get_user_by_id (normalize is.extra.email))) [
          | inl missing ↦ absurd (ground arith)
          | inr (u, known) ↦
              user_sound is u n
                (record {
                  no_key = no_key;
                  introspected = introspected;
                  active = active;
                  known = known;
                })
                (ground arith)
        ]
      ]
    ]

    pub authorize_sound :
        (n : ℕ)
        → Grants (authorize normalize s req h n).0 r
        → IsComplete normalize s (h n) req × IsGrantedAt normalize s h req n r
    unfolding authorize ◌>>=◌
    authorize_sound n e = elim (Bool-cases (is_empty req.token)) [
      | inl missing ↦ absurd (ground arith)
      | inr has_token ↦ elim (Bool-cases (is_empty req.access_resource)) [
        | inl missing ↦ absurd (ground arith)
        | inr has_resource ↦ elim (Bool-cases (is_empty req.capability)) [
          | inl missing ↦ absurd (ground arith)
          | inr has_capability ↦
              let complete : IsComplete normalize s (h n) req = record {
                token = ground (arith, eq_iff req.token "");
                access_resource = ground (arith, eq_iff req.access_resource "");
                capability = ground (arith, eq_iff req.capability "");
              } in
              elim (Option-cases ((h n).get_api_key_by_secret req.token)) [
                | inr (key, found) ↦ (complete, key_sound key n found (ground arith))
                | inl no_key ↦ (complete, token_sound n no_key (ground arith))
              ]
        ]
      ]
    ]
