-- ===== src/Tests/Workers.antt =====
-- `AuthorizeWorker` over the small installation.
use rbac_manager.Prelude.{String, none, some, [], ◌∷◌, ◌≡◌, refl}
use rbac_manager.Outcome.{Outcome, ok}
use rbac_manager.Rbac.{Status}
use rbac_manager.Cache.{C, Store, new_store}
use rbac_manager.Server.{store_getter}
use rbac_manager.Auth.{Context}
use rbac_manager.Auth.Worker.{
  ServerStream, worker_unary, worker_stream, validate_cluster_registration_key,
}
use rbac_manager.Auth.Worker.Carried.{served}
use rbac_manager.Auth.Worker.Listed.{worker_call, for_cluster, worker_unary-for_cluster}
use rbac_manager.UserManager.{InternalCluster}
use rbac_manager.Cache.Update.{ClusterInfoLister, update_cache}
use rbac_manager.Cache.Sync.{sync}
use rbac_manager.Tests.World.{cluster0, round, users}
use rbac_manager.Tests.Calls.{text_of, status, handler}
use rbac_manager.Tests.Forwarded.{transport}
use rbac_manager.Tests.Sync.{updating}

-- A listing in which the key of one cluster is of the form that a worker accepts.
abbrev keyed_cluster : InternalCluster
keyed_cluster = record {
  cluster = some (record { id = "c2"; name = "cluster 2"; registration_key = "clusterkey-2" });
  tenant_id = "t1";
}

abbrev keyed_clusters : ClusterInfoLister
keyed_clusters = record { list_internal_clusters = ok (cluster0 ∷ keyed_cluster ∷ []) }

abbrev keyed_store : Store
keyed_store = (sync (round 7 keyed_clusters) [] new_store).1

keyed_updates : update_cache users keyed_clusters 7 new_store ≡ (ok tt, keyed_store)
unfolding updating update_cache
keyed_updates = refl

key_is_valid : validate_cluster_registration_key "clusterkey-2" ≡ ok tt
unfolding validate_cluster_registration_key
key_is_valid = refl

abbrev keyed_cluster_info : C
keyed_cluster_info = record { id = "c2"; name = "cluster 2"; tenant_id = "t1" }

-- A worker that sends nothing else.
abbrev worker_ctx : Context
worker_ctx = record { incoming = none; outgoing = []; user_info = none; cluster_info = none }

abbrev arriving : Context
arriving = worker_call transport "clusterkey-2" worker_ctx

abbrev stream_handler : String → ServerStream String → Outcome Status (Unit {0})
stream_handler _ _ = ok tt

worker_unary-for_cluster_example :
    (worker_unary status (served (store_getter keyed_store) 0 text_of) arriving "x" handler
      ≡ for_cluster status (some keyed_cluster_info) arriving (λ ctx'. handler ctx' "x"))
    × (worker_stream status
          (served (store_getter keyed_store) 0 text_of)
          "srv"
          (record { stream = "stream"; ctx = arriving })
          stream_handler
        ≡ for_cluster status
            (some keyed_cluster_info)
            arriving
            (λ ctx'. stream_handler "srv" (record { stream = "stream"; ctx = ctx' })))
worker_unary-for_cluster_example =
    worker_unary-for_cluster users keyed_clusters keyed_store 7 new_store
      (cluster0 ∷ keyed_cluster ∷ []) refl keyed_updates 0 text_of transport "clusterkey-2"
      worker_ctx refl key_is_valid status "x" handler "srv" "stream" stream_handler
