-- ===== src/Auth/Worker/Carried.antt =====
-- A registration key on its way from a worker cluster through the header to the RBAC server.
use Prim.Native.String
use Prim.Native.String.{String}
use rbac_manager.Prelude.{
  ℕ, none, some, List, [], ◌≡◌, ◌≢◌, ◌↔◌, arith, eq_iff, eq_refl, is_empty, inl, inr, Bool-cases,
  Option-cases,
}
use rbac_manager.Outcome.{Outcome, ok, map_err}
use rbac_manager.GoMap.{GoMap, lookup_all}
use rbac_manager.GoMap.Append.{lookup_all-append_at}
use rbac_manager.Rbac.{Status}
use rbac_manager.Cache.{C}
use rbac_manager.Server.{CacheGetter}
use rbac_manager.Server.Reads.{steady, ◌>>=◌ as then}
use rbac_manager.Server.Worker.{authorize_worker}
use rbac_manager.Auth.{ClusterInfo, new_cluster_info_from_authorize_response}
use rbac_manager.Auth.Text.{auth_header}
use rbac_manager.Auth.Text.Laws.{trim_prefix-append}
use rbac_manager.Auth.Interceptor.{HttpRequest, extract_token_from_header}
use rbac_manager.Auth.Interceptor.Http.{HttpAnswer}
use rbac_manager.Auth.Worker.{
  WorkerInterceptor, worker_intercept_http_request, append_worker_authorization_to_header,
}

-- The key that a worker puts into a header without authorization is the token that is found there.
extract-append :
    (key : String) (header : GoMap (List String))
    → lookup_all auth_header header ≡ []
    → extract_token_from_header (append_worker_authorization_to_header key header) ≡ some key
unfolding extract_token_from_header append_worker_authorization_to_header
extract-append key header bare = ground (
  arith,
  eq_refl auth_header,
  bare,
  trim_prefix-append "Bearer " key,
  lookup_all-append_at auth_header auth_header (String.◌++◌ "Bearer " key) header,
)

-- The cluster that a token registers, as the interceptor reports it.
pub record IsCluster (g : CacheGetter) (key : String) (info : ClusterInfo) : Type 0 where
  pub cluster : C
  pub has_key : key ≢ ""
  pub registered : g.get_cluster_by_registration_key key ≡ some cluster
  pub is_info : info ≡ record {
    cluster_id = cluster.id;
    cluster_name = cluster.name;
    tenant_id = cluster.tenant_id;
  }

module _ (g : CacheGetter) (n : ℕ) (text_of : Status → String) where
  -- An interceptor whose calls a server with the cache `g` answers.
  abbrev pub served : WorkerInterceptor
  served = record { client = λ _ req. map_err text_of (authorize_worker req (steady g) n).0 }

  module _ {Url : Type 0} (req : HttpRequest Url) (key : String)
      (bare : lookup_all auth_header req.header ≡ []) where
    abbrev pub signed : HttpRequest Url
    signed = record req { header = append_worker_authorization_to_header key req.header }

    abbrev pub accepted : {E : Type 0} → ClusterInfo → Outcome E (HttpAnswer ClusterInfo)
    accepted info = ok (record { status = 200; info = info; error = none })

    accepted_sound :
        {E : Type 0} (info : ClusterInfo)
        → worker_intercept_http_request served signed ≡ accepted {E = E} info
        → IsCluster g key info
    unfolding worker_intercept_http_request authorize_worker then
        new_cluster_info_from_authorize_response
    accepted_sound info e =
        let t = extract-append key req.header bare in
        elim (Bool-cases (is_empty key)) [
          | inl missing ↦ absurd (ground arith)
          | inr has_key ↦ elim (Option-cases (g.get_cluster_by_registration_key key)) [
            | inl unknown ↦ absurd (ground arith)
            | inr (c, registered) ↦ record {
              cluster = c;
              has_key = ground (arith, eq_iff key "");
              registered = registered;
              is_info = ground arith;
            }
          ]
        ]

    accepted_complete :
        {E : Type 0} (info : ClusterInfo)
        → IsCluster g key info
        → worker_intercept_http_request served signed ≡ accepted {E = E} info
    unfolding worker_intercept_http_request authorize_worker then
        new_cluster_info_from_authorize_response
    accepted_complete info i =
        let t = extract-append key req.header bare in
        ground (arith, eq_iff key "", i.has_key, i.registered, i.is_info)

    -- With no update of the cache in between: where the request carries the key as a worker puts it
    -- there, and no other authorization, `InterceptHTTPRequest` answers 200 with `info` exactly when
    -- the key is not empty and registers a cached cluster, whose ID, name and tenant `info` has.
    pub worker_http_iff :
        {E : Type 0} (info : ClusterInfo)
        → (worker_intercept_http_request served signed ≡ accepted {E = E} info)
          ↔ IsCluster g key info
    worker_http_iff info = (accepted_sound info, accepted_complete info)
