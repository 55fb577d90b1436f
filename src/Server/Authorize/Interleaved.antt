-- ===== src/Server/Authorize/Interleaved.antt =====
-- What `Authorize` keeps apart even where updates of the cache fall into its run.
use mathlib.Core.Path.{subst}
use text.Mathlib.Text.{starts_with}
use rbac_manager.Prelude.{
  ℕ, suc, String, some, List, ◌≡◌, arith, is_empty, In, inl, inr, Bool-cases, Option-cases,
}
use rbac_manager.Outcome.{ok, Outcome-cases}
use rbac_manager.UserManager.{ProjectAssignment}
use rbac_manager.Rbac.{AssignedKubernetesEnv, AuthorizeRequest, AuthorizeResponse, Project, denied}
use rbac_manager.Cache
use rbac_manager.Cache.{C, K, U, Store}
use rbac_manager.Cache.Consistency.{IsConsistent}
use rbac_manager.Server.{Server, store_getter}
use rbac_manager.Server.Reads.{History, attempt, ◌>>=◌}
use rbac_manager.Server.Envs.{assigned_kubernetes_envs, assigned_kubernetes_envs_internal}
use rbac_manager.Server.Projects.{find_associated_project_and_roles, ProjectAndRoles}
use rbac_manager.Server.Authorize.{
  authorize_key, authorize_in, authorize_user, authorize_token, authorize,
}
use rbac_manager.Server.Authorize.Tenant.{IsOwned, env_tenant}

-- `c n` is the cache as the read `n` finds it.
module _ (c : ℕ → Store) (consistent : (n : ℕ) → IsConsistent (c n).tables) where
  abbrev pub history : History
  history n = store_getter (c n)

  -- Each environment that the response lists is in a cluster that one of the reads finds for the
  -- tenant that the response names.
  abbrev IsWithin : AuthorizeResponse → Type 0
  IsWithin r =
      (p : Project) (e : AssignedKubernetesEnv)
      → r.project ≡ some p
      → In e p.assigned_kubernetes_envs
      → (k : ℕ) × IsOwned (c k) r.tenant_id e

  denied-IsWithin : (r : AuthorizeResponse) → r ≡ denied → IsWithin r
  denied-IsWithin r is p e is_p i = absurd (ground arith)

  -- A response whose project lists the environments that one read gives.
  listed-IsWithin :
      (r : AuthorizeResponse) (p : Project) (namespace : String) (as' : List ProjectAssignment)
      (k : ℕ)
      → r.project ≡ some p
      → (p.assigned_kubernetes_envs
          ≡ assigned_kubernetes_envs_internal namespace as'
              (Cache.get_clusters_by_tenant_id (c k) r.tenant_id))
      → IsWithin r
  listed-IsWithin r p namespace as' k is_p is q e is_q i =
      let same : q ≡ p = ground arith in
      let j : In e p.assigned_kubernetes_envs =
        subst (λ (x : Project). In e x.assigned_kubernetes_envs) same i in
      (k, env_tenant (c k) (consistent k) namespace as' r.tenant_id e (subst (In e) is j))

  -- The project of a response, with the environments that the read `k` gives.
  abbrev listing : (id title namespace : String) → List ProjectAssignment → ℕ → String → Project
  listing id title namespace as' k tenant_id = record {
    id = id;
    title = title;
    assigned_kubernetes_envs =
        assigned_kubernetes_envs_internal namespace as'
          (Cache.get_clusters_by_tenant_id (c k) tenant_id);
  }

  module _ (s : Server) (req : AuthorizeRequest) (r : AuthorizeResponse) where
    key-IsWithin : (key : K) (n : ℕ) → (authorize_key s req key history n).0 ≡ ok r → IsWithin r
    unfolding authorize_key assigned_kubernetes_envs ◌>>=◌ store_getter
    key-IsWithin key n e = elim (Option-cases (Cache.get_project_by_id (c n) key.project_id)) [
      | inl missing ↦ denied-IsWithin r (ground arith)
      | inr (project, has_project) ↦
          elim (Option-cases (Cache.get_organization_by_id (c (suc n)) key.organization_id)) [
            | inl missing ↦ denied-IsWithin r (ground arith)
            | inr (org, has_org) ↦
                listed-IsWithin r
                  (listing key.project_id project.title project.kubernetes_namespace
                    project.assignments (suc (suc n)) key.tenant_id)
                  project.kubernetes_namespace project.assignments (suc (suc n)) (ground arith)
                  (ground arith)
          ]
    ]

    in-IsWithin :
        (user_id : String) (u : U) (pr : ProjectAndRoles) (n : ℕ)
        → (authorize_in s req user_id u pr history n).0 ≡ ok r
        → IsWithin r
    unfolding authorize_in assigned_kubernetes_envs ◌>>=◌ store_getter
    in-IsWithin user_id u pr n e =
        elim (Option-cases (Cache.get_organization_by_id (c n) pr.project.organization_id)) [
          | inl missing ↦ denied-IsWithin r (ground arith)
          | inr (org, has_org) ↦
              listed-IsWithin r
                (listing pr.project.id pr.project.title pr.project.kubernetes_namespace
                  pr.project.assignments (suc n) u.tenant_id)
                pr.project.kubernetes_namespace pr.project.assignments (suc n) (ground arith)
                (ground arith)
        ]

    user-IsWithin :
        (user_id : String) (u : U) (n : ℕ)
        → (authorize_user s req user_id u history n).0 ≡ ok r
        → IsWithin r
    unfolding authorize_user attempt ◌>>=◌
    user-IsWithin user_id u n e =
        elim (Bool-cases (starts_with req.access_resource "api.organizations")) [
          | inl organizations ↦ λ p x is i. absurd (ground arith)
          | inr other ↦
              let o =
                find_associated_project_and_roles user_id req.organization_id req.project_id in
              elim (Outcome-cases (o history n).0) [
                | inr (inl (x, failed)) ↦ denied-IsWithin r (ground arith)
                | inr (inr failed) ↦ absurd (ground arith)
                | inl (pr, found) ↦ in-IsWithin user_id u pr (o history n).1 (ground arith)
              ]
        ]

    module _ (normalize : String → String) where
      token-IsWithin : (n : ℕ) → (authorize_token normalize s req history n).0 ≡ ok r → IsWithin r
      unfolding authorize_token ◌>>=◌
      token-IsWithin n e = elim (Outcome-cases (s.token_introspector req.token)) [
        | inr (inl (x, failed)) ↦ absurd (ground arith)
        | inr (inr failed) ↦ absurd (ground arith)
        | inl (is, introspected) ↦ elim (Bool-cases is.active) [
          | inr inactive ↦ denied-IsWithin r (ground arith)
          | inl active ↦
              elim (Option-cases ((history n).get_user_by_id (normalize is.extra.email))) [
                | inl missing ↦ denied-IsWithin r (ground arith)
                | inr (u, known) ↦ user-IsWithin (normalize is.extra.email) u (suc n) (ground arith)
              ]
        ]
      ]

      authorize-IsWithin : (n : ℕ) → (authorize normalize s req history n).0 ≡ ok r → IsWithin r
      unfolding authorize ◌>>=◌
      authorize-IsWithin n e = elim (Bool-cases (is_empty req.token)) [
        | inl missing ↦ absurd (ground arith)
        | inr has_token ↦ elim (Bool-cases (is_empty req.access_resource)) [
          | inl missing ↦ absurd (ground arith)
          | inr has_resource ↦ elim (Bool-cases (is_empty req.capability)) [
            | inl missing ↦ absurd (ground arith)
            | inr has_capability ↦
                elim (Option-cases ((history n).get_api_key_by_secret req.token)) [
                  | inl no_key ↦ token-IsWithin (suc n) (ground arith)
                  | inr (key, found) ↦ key-IsWithin key (suc n) (ground arith)
                ]
          ]
        ]
      ]

      -- Whatever updates of the cache fall into the run, and whether or not the response is marked as
      -- authorized: with consistent tables at each read, each Kubernetes environment that the project
      -- of a response lists is in a cluster of the tenant that the response names, as one of the
      -- reads finds it in the cache.
      pub interleaved_envs_tenant :
          (n : ℕ) (p : Project) (e : AssignedKubernetesEnv)
          → (authorize normalize s req history n).0 ≡ ok r
          → r.project ≡ some p
          → In e p.assigned_kubernetes_envs
          → (k : ℕ) × IsOwned (c k) r.tenant_id e
      interleaved_envs_tenant n p e answered is i = authorize-IsWithin n answered p e is i
