-- ===== src/Server/Envs.antt =====
-- authorization.go, `assignedKubernetesEnvs`: the namespaces of a project in each cluster.
pub mod Namespaces
use rbac_manager.Prelude.{String, none, some, List, [], ◌∷◌, ◌++◌, ◌==◌, if◌then◌else◌, is_empty}
use rbac_manager.GoMap.{GoMap, lookup, insert}
use rbac_manager.UserManager.{ProjectAssignment}
use rbac_manager.Rbac.{AssignedKubernetesEnv}
use rbac_manager.Cache.{C}
use rbac_manager.Server.Reads.{Action, ask, lift, ◌>>=◌}
use rbac_manager.Outcome.{ok}

-- The first loop: (`nssForAllClusters`, `nssByCluster`).
unfoldable pub split_assignments :
    List String × GoMap String → List ProjectAssignment → List String × GoMap String
split_assignments s [] = s
split_assignments (all, by_cluster) (a ∷ as') =
    split_assignments
      (if is_empty a.cluster_id
        then (all ++ a.namespace ∷ [], by_cluster)
        else (all, insert a.cluster_id a.namespace by_cluster))
      as'

abbrev pub env_at : C → String → AssignedKubernetesEnv
env_at c ns = record { cluster_id = c.id; cluster_name = c.name; namespace = ns }

-- The inner loop over `nssForAllClusters`.
unfoldable pub envs_for_all : C → String → List String → List AssignedKubernetesEnv
envs_for_all c found_ns [] = []
envs_for_all c found_ns (ns ∷ nss) =
    let rest = envs_for_all c found_ns nss in if ns == found_ns then rest else env_at c ns ∷ rest

-- The body of the loop over the clusters: what it appends to `envs`.
unfoldable pub cluster_envs : List String → GoMap String → C → List AssignedKubernetesEnv
cluster_envs all by_cluster c = elim (lookup c.id by_cluster) [
  | some ns ↦ env_at c ns ∷ envs_for_all c ns all
  | none ↦ envs_for_all c "" all
]

unfoldable pub clusters_envs : List String → GoMap String → List C → List AssignedKubernetesEnv
clusters_envs all by_cluster [] = []
clusters_envs all by_cluster (c ∷ cs) =
    cluster_envs all by_cluster c ++ clusters_envs all by_cluster cs

unfoldable pub assigned_kubernetes_envs_internal :
    String → List ProjectAssignment → List C → List AssignedKubernetesEnv
assigned_kubernetes_envs_internal namespace assignments clusters =
    let start = if is_empty namespace then [] else namespace ∷ [] in
    let (all, by_cluster) = split_assignments (start, []) assignments in
    clusters_envs all by_cluster clusters

unfoldable pub assigned_kubernetes_envs :
    {E : Type 0} → String → List ProjectAssignment → String → Action E (List AssignedKubernetesEnv)
assigned_kubernetes_envs namespace assignments tenant_id = do
  clusters ← ask (λ g. g.get_clusters_by_tenant_id tenant_id)
  lift (ok (assigned_kubernetes_envs_internal namespace assignments clusters))
