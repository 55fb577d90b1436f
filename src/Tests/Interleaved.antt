-- ===== src/Tests/Interleaved.antt =====
-- `Authorize` while an update of the cache falls into its run.
use rbac_manager.Prelude.{ℕ, zero, suc, some, [], ◌∷◌, ◌≡◌, ◌↔◌, refl, inl}
use rbac_manager.Outcome.{ok}
use rbac_manager.Cache.{Store, new_store}
use rbac_manager.Cache.Consistency.{IsConsistent}
use rbac_manager.Cache.Sync.{tick, sync}
use rbac_manager.Cache.Sync.Consistent.{sync-IsConsistent}
use rbac_manager.Rbac.{AuthorizeRequest, AuthorizeResponse, AssignedKubernetesEnv, Project}
use rbac_manager.Server.Reads.{History}
use rbac_manager.Server.Authorize.{authorize}
use rbac_manager.Server.Authorize.Tenant.{IsOwned}
use rbac_manager.Server.Authorize.Grounds.{Grants, IsComplete}
use rbac_manager.Server.Authorize.Moments.{IsGrantedAt}
use rbac_manager.Server.Authorize.Moments.Decided.{authorize-IsGrantedAt}
use rbac_manager.Server.Authorize.Interleaved.{history, interleaved_envs_tenant}
use rbac_manager.Tests.World.{round, clusters, server, ask, same}
use rbac_manager.Cache.Update.{ClusterInfoLister}
use rbac_manager.Tests.Decisions.{deciding, key_answer, user_answer}

-- Between the first reads and the last one, a cluster of the same tenant has come and another gone.
abbrev new_clusters : ClusterInfoLister
new_clusters = record {
  list_internal_clusters = ok (
      record {
        cluster = some (record { id = "c2"; name = "cluster 2"; registration_key = "r2" });
        tenant_id = "t0";
      }
      ∷ []);
}

abbrev stores : ℕ → Store
stores = elim [
  | zero ↦ (sync (round 7 clusters) [] new_store).1
  | suc n ↦ (sync (round 7 clusters) (tick (round 9 new_clusters) ∷ []) new_store).1
]

stores-IsConsistent : (n : ℕ) → IsConsistent (stores n).tables
stores-IsConsistent zero = sync-IsConsistent (round 7 clusters) []
stores-IsConsistent (suc n) =
    sync-IsConsistent (round 7 clusters) (tick (round 9 new_clusters) ∷ [])

abbrev new_env : AssignedKubernetesEnv
new_env = record { cluster_id = "c2"; cluster_name = "cluster 2"; namespace = "ns0" }

abbrev new_project : Project
new_project = record { id = "p0"; title = "project"; assigned_kubernetes_envs = new_env ∷ [] }

abbrev new_answer : AuthorizeResponse
new_answer = record key_answer { project = some new_project }

interleaved_run :
    (authorize same server (ask "s0" "api.models" "") (history stores stores-IsConsistent) 0).0
    ≡ ok new_answer
unfolding deciding
interleaved_run = refl

interleaved_envs_tenant_example : (k : ℕ) × IsOwned (stores k) "t0" new_env
interleaved_envs_tenant_example =
    interleaved_envs_tenant stores stores-IsConsistent server (ask "s0" "api.models" "") new_answer
      same 0 new_project new_env interleaved_run refl (inl refl)

abbrev moving : History
moving = history stores stores-IsConsistent

-- The same user with a token of the identity provider.
abbrev by_token : AuthorizeRequest
by_token = ask "jwt0" "api.models" "p0"

abbrev moved_answer : AuthorizeResponse
moved_answer = record user_answer { project = some new_project }

moving_run : (authorize same server by_token moving 0).0 ≡ ok moved_answer
unfolding deciding
moving_run = refl

authorize-IsGrantedAt_example : Grants (authorize same server by_token moving 0).0 moved_answer ↔ (
    IsComplete same server (moving 0) by_token
    × IsGrantedAt same server moving by_token 0 moved_answer)
authorize-IsGrantedAt_example = authorize-IsGrantedAt same server moving by_token moved_answer 0
