-- ===== src/Boot/Isolation.antt =====
-- Tenants, from the process of the server to the services that call it.
use mathlib.Core.Path.{subst}
use mathlib.Core.Option.{some-injective}
use rbac_manager.Prelude.{
  ℕ, String, none, some, map, In, In-map, ◌≡◌, sym, ap, ◌∙◌, arith, inl, inr, Option-cases,
}
use rbac_manager.Outcome.{ok, map_err-eq-ok}
use rbac_manager.Config.{Config}
use rbac_manager.Rbac.{AuthorizeResponse, Project, Status}
use rbac_manager.Cache
use rbac_manager.Cache.{C, Store}
use rbac_manager.Cache.Consistency.{IsConsistent}
use rbac_manager.Cache.Consistency.Preservation.{no_tables-IsConsistent, build_tables-IsConsistent}
use rbac_manager.Monitoring.{Registry}
use rbac_manager.Boot.{Process, boot, Reach}
use rbac_manager.Boot.Invariant.{Shows, nothing, result, Reach-Inv}
use rbac_manager.Server.{Server}
use rbac_manager.Server.Authorize.Interleaved.{history, interleaved_envs_tenant}
use rbac_manager.Auth.{
  AssignedKubernetesEnv, Context, UserInfo, to_env, new_user_info_from_authorize_response,
}
use rbac_manager.Auth.Interceptor.{Interceptor, admit}
use rbac_manager.Auth.Interceptor.Passing.{request_of, admit_sound}
use rbac_manager.Auth.Interceptor.Served.{served_by}

-- The environment, as a service sees it, is in a cluster that the store lists for the tenant, and
-- that is of the tenant.
abbrev pub IsTheirs : Store → String → AssignedKubernetesEnv → Type 0
IsTheirs c tenant_id env =
    (cl : C) × In cl (Cache.get_clusters_by_tenant_id c tenant_id)
    × (cl.tenant_id ≡ tenant_id)
    × (env.cluster_id ≡ cl.id)
    × (env.cluster_name ≡ cl.name)

Shows-IsConsistent : (c : Store) → Shows c → IsConsistent c.tables
Shows-IsConsistent c (nothing is) =
    subst (λ (c : Store). IsConsistent c.tables) (sym is) no_tables-IsConsistent
Shows-IsConsistent c (result t now (r, made, at) is) =
    subst (λ (c : Store). IsConsistent c.tables) (sym is)
      (build_tables-IsConsistent r.user_infos r.cluster_infos t made)

-- What a response tells of its user.
info_of :
    (resp : AuthorizeResponse) (info : UserInfo)
    → new_user_info_from_authorize_response {E = Status} resp ≡ ok info
    → (pr : Project) × (resp.project ≡ some pr)
      × (info.assigned_kubernetes_envs ≡ map to_env pr.assigned_kubernetes_envs)
      × (info.tenant_id ≡ resp.tenant_id)
unfolding new_user_info_from_authorize_response
info_of resp info e = elim (Option-cases resp.project) [
  | inl missing ↦ absurd (ground arith)
  | inr (pr, has) ↦ (pr, has, ground arith, ground arith)
]

-- `proc k` is the process as the read `k` finds it.
module _ (p : Registry) (c : Config) (reg : p.Reg) (proc : ℕ → Process p)
    (reached : (k : ℕ) → Reach p c (boot p reg) (proc k)) where
  pub caches-IsConsistent : (k : ℕ) → IsConsistent (proc k).store.tables
  caches-IsConsistent k = Shows-IsConsistent (proc k).store (Reach-Inv reg (reached k)).shows

  module _ (normalize : String → String) (s : Server) (n : ℕ) (text_of : Status → String)
      (Url : Type 0) (resource_of : String → String) where
    -- The interceptor of a service, in front of the server over the caches of the process.
    abbrev pub in_front : Interceptor Url
    in_front = record {
      client = served_by normalize s (history (λ k. (proc k).store) caches-IsConsistent) n text_of;
      resource_for_grpc_request = some resource_of;
      resource_for_http_request = none;
    }

    -- Whatever the goroutines, the listings, the signals and the other services do while a call is
    -- answered: each Kubernetes environment that the interceptor puts into the context of an admitted
    -- call is in a cluster of the tenant that it puts there, with the cluster's name, as one of the
    -- reads finds it in the cache of the process.
    pub admitted_envs_tenant :
        (ctx passed : Context) (full_method : String) (info : UserInfo)
        (env : AssignedKubernetesEnv)
        → admit in_front ctx full_method ≡ ok passed
        → passed.user_info ≡ some info
        → In env info.assigned_kubernetes_envs
        → (k : ℕ) × IsTheirs (proc k).store info.tenant_id env
    admitted_envs_tenant ctx passed full_method info env admitted has_info i =
        let a = admit_sound in_front ctx full_method passed admitted in
        let same : a.info ≡ info =
          some-injective _ _ (sym (ap (λ (x : Context). x.user_info) a.is_passed) ∙ has_info) in
        let (pr, has_project, envs, tenant) = info_of a.resp a.info a.has_info in
        let listed : In env (map to_env pr.assigned_kubernetes_envs) =
          subst (In env) (ap (λ (x : UserInfo). x.assigned_kubernetes_envs) (sym same) ∙ envs) i in
        let (e, j, is_e) = In-map to_env env pr.assigned_kubernetes_envs listed in
        let (k, (cl, cached, of_tenant, is_env)) =
          interleaved_envs_tenant (λ k. (proc k).store) caches-IsConsistent s
            (request_of in_front ctx full_method a.token a.method (a.resource_of full_method))
            a.resp normalize n pr e (map_err-eq-ok text_of _ a.answered) has_project j in
        let is_tenant : a.resp.tenant_id ≡ info.tenant_id =
          sym tenant ∙ ap (λ (x : UserInfo). x.tenant_id) same in
        (
          k,
          subst (λ t. IsTheirs (proc k).store t env) is_tenant
              (cl, cached, of_tenant, ground arith, ground arith),
        )
