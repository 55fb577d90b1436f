-- ===== src/Auth/Worker/Listed.antt =====
-- A gRPC call of a worker cluster, from the listing of the clusters and the worker's environment to
-- the handler of the service.
use Prim.Native.String
use Prim.Native.String.{String}
use rbac_manager.Prelude.{
  ℕ, Option, none, some, List, [], ◌∷◌, ◌++◌, ◌==◌, ◌≡◌, ◌≢◌, refl, ap, sym, ◌∙◌, arith, eq_iff,
  inl, inr, Option-cases,
}
use rbac_manager.Outcome.{Outcome, ok, err, map_err, ◌>>=◌, ok-injective}
use rbac_manager.UserManager.{InternalCluster}
use rbac_manager.Rbac.{Status, permission_denied}
use rbac_manager.Cache.{C, Store}
use rbac_manager.Cache.Update.{UserInfoLister, ClusterInfoLister, update_cache}
use rbac_manager.Cache.Update.Contents.{latest}
use rbac_manager.Cache.Update.Members.{has_registration_key, to_c, update_cache-HasMembers}
use rbac_manager.Server.{CacheGetter, store_getter}
use rbac_manager.Server.Reads.{◌>>=◌ as then}
use rbac_manager.Server.Worker.{authorize_worker}
use rbac_manager.Auth.{
  Context, ClusterInfo, append_cluster_info_to_context, new_cluster_info_from_authorize_response,
}
use rbac_manager.Auth.Text.{auth_header, to_lower_auth_header}
use rbac_manager.Auth.Text.Laws.{trim_prefix-append}
use rbac_manager.Auth.Transport.{Transport, received, values_at}
use rbac_manager.Auth.Metadata.Forwarded.{values_at-append}
use rbac_manager.Auth.Interceptor.{extract_token_from_context}
use rbac_manager.Auth.Worker.{
  WorkerInterceptor, ServerStream, worker_admit, worker_unary, worker_stream,
  append_worker_authorization, validate_cluster_registration_key,
}
use rbac_manager.Auth.Worker.Carried.{served}

validate-ne-empty : (key : String) → validate_cluster_registration_key key ≡ ok tt → key ≢ ""
unfolding validate_cluster_registration_key
validate-ne-empty key valid none_set = ground (arith, eq_iff key "")

-- The call of a worker, as the service receives it.
abbrev pub worker_call : Transport → (key : String) → Context → Context
worker_call t key ctx = received t (append_worker_authorization key ctx)

module _ (t : Transport) (key : String) (ctx : Context)
    (bare : values_at t.to_lower to_lower_auth_header ctx.outgoing ≡ []) where
  one_value :
      (value : String)
      → values_at t.to_lower to_lower_auth_header (ctx.outgoing ++ (auth_header, value) ∷ [])
        ≡ value ∷ []
  one_value value =
      let same = ap (λ (x : String). x == to_lower_auth_header) t.lower_auth in
      ground (
        arith,
        same,
        bare,
        values_at-append t.to_lower to_lower_auth_header ctx.outgoing ((auth_header, value) ∷ []),
      )

  -- The service finds the worker's key.
  pub worker_call-token : extract_token_from_context (worker_call t key ctx) ≡ ok key
  unfolding extract_token_from_context append_worker_authorization
  worker_call-token =
      let value = String.◌++◌ "Bearer " key in
      let sent = t.delivers_auth (ctx.outgoing ++ (auth_header, value) ∷ []) in
      ground (arith, sent, one_value value, trim_prefix-append "Bearer " key)

-- The information that a handler gets of a cluster.
abbrev pub info_of : C → ClusterInfo
info_of c = record { cluster_id = c.id; cluster_name = c.name; tenant_id = c.tenant_id }

-- What becomes of a worker's call: `next` goes on with the context of its cluster.
abbrev pub for_cluster :
    {A E : Type 0}
    → (status : Status → E) → Option C
    → Context
    → (next : Context → Outcome E A) → Outcome E A
for_cluster status none ctx next =
    err (status (record { code = permission_denied; message = "permission denied" }))
for_cluster status (some c) ctx next = next (record ctx { cluster_info = some (info_of c) })

worker_admit-served :
    (g : CacheGetter) (n : ℕ) (text_of : Status → String) (key : String) (ctx : Context)
    → key ≢ ""
    → extract_token_from_context ctx ≡ ok key
    → worker_admit (served g n text_of) ctx
      ≡ for_cluster (λ e. e) (g.get_cluster_by_registration_key key) ctx ok
unfolding worker_admit authorize_worker then new_cluster_info_from_authorize_response
    append_cluster_info_to_context
worker_admit-served g n text_of key ctx given found =
    elim (Option-cases (g.get_cluster_by_registration_key key)) [
      | inl unknown ↦ ground (arith, eq_iff key "")
      | inr (c, registered) ↦ ground (arith, eq_iff key "")
    ]

for_cluster-then :
    {A E : Type 0} (status : Status → E) (found : Option C) (ctx : Context)
    (next : Context → Outcome E A)
    → (map_err status (for_cluster (λ e. e) found ctx ok) >>= next)
      ≡ for_cluster status found ctx next
for_cluster-then status none ctx next = refl
for_cluster-then status (some c) ctx next = refl

module _ (ul : UserInfoLister) (cl : ClusterInfoLister) (c : Store) (now : ℕ) (before : Store)
    (clusters : List InternalCluster) (listed : cl.list_internal_clusters ≡ ok clusters)
    (updated : update_cache ul cl now before ≡ (ok tt, c)) where
  cluster_at :
      (key : String)
      → (store_getter c).get_cluster_by_registration_key key
        ≡ latest (has_registration_key key) to_c clusters
  unfolding store_getter
  cluster_at key =
      let (b, held) = update_cache-HasMembers ul cl c now before updated in
      held.cluster_of key
      ∙ ap (latest (has_registration_key key) to_c) (ok-injective (sym b.got_clusters ∙ listed))

  module _ (n : ℕ) (text_of : Status → String) (t : Transport) (key : String) (ctx : Context)
      (bare : values_at t.to_lower to_lower_auth_header ctx.outgoing ≡ [])
      (valid : validate_cluster_registration_key key ≡ ok tt) {E : Type 0}
      (status : Status → E) where
    abbrev pub front : WorkerInterceptor
    front = served (store_getter c) n text_of

    abbrev pub cluster : Option C
    cluster = latest (has_registration_key key) to_c clusters

    admitted :
        worker_admit front (worker_call t key ctx)
        ≡ for_cluster (λ e. e) cluster (worker_call t key ctx) ok
    admitted =
        worker_admit-served (store_getter c) n text_of key (worker_call t key ctx)
          (validate-ne-empty key valid) (worker_call-token t key ctx bare)
        ∙ ap (λ x. for_cluster (λ e. e) x (worker_call t key ctx) ok) (cluster_at key)

    handled :
        {A : Type 0} (next : Context → Outcome E A)
        → (map_err status (worker_admit front (worker_call t key ctx)) >>= next)
          ≡ for_cluster status cluster (worker_call t key ctx) next
    handled next =
        ap (λ o. map_err status o >>= next) admitted
        ∙ for_cluster-then status cluster (worker_call t key ctx) next

    -- With no update of the cache during the call, after one that succeeded: a call, unary or of a
    -- stream, of a worker whose environment holds a key that `ValidateClusterRegistrationKey` accepts,
    -- which the worker appends as the only authorization of the call, comes to the handler of the
    -- service exactly if the clusters were listed with one of this key, and then with the ID, the name
    -- and the tenant of the last of these; otherwise it is refused with `PermissionDenied`.
    pub worker_unary-for_cluster :
        {Req Resp Srv Stream : Type 0} (req : Req) (handler : Context → Req → Outcome E Resp)
        (srv : Srv) (stream : Stream)
        (stream_handler : Srv → ServerStream Stream → Outcome E (Unit {0}))
        → let call = worker_call t key ctx in
          (worker_unary status front call req handler
            ≡ for_cluster status cluster call (λ ctx'. handler ctx' req))
          × (worker_stream status front srv (record { stream = stream; ctx = call }) stream_handler
              ≡ for_cluster status cluster call
                  (λ ctx'. stream_handler srv (record { stream = stream; ctx = ctx' })))
    unfolding worker_unary worker_stream
    worker_unary-for_cluster req handler srv stream stream_handler = (
      handled (λ ctx'. handler ctx' req),
      handled (λ ctx'. stream_handler srv (record { stream = stream; ctx = ctx' })),
    )
