-- ===== src/Auth/Worker.antt =====
-- pkg/auth/worker_interceptor.go and worker_client.go: the interceptor of the services that worker
-- clusters call, and the worker's side of these calls.
pub mod Carried
pub mod Listed
pub mod Passing
use Prim.Native.String
use text.Mathlib.Text.{starts_with}
use rbac_manager.Prelude.{
  String, true, false, not, none, some, List, [], ◌∷◌, ◌==◌, ◌++◌, if◌then◌else◌, is_empty,
}
use rbac_manager.Outcome.{Outcome, ok, err, panic, ◌>>=◌, map_err}
use rbac_manager.GoMap.{GoMap, append_at}
use rbac_manager.Rbac.{
  AuthorizeWorkerRequest, AuthorizeWorkerResponse, Status, permission_denied, internal,
}
use rbac_manager.Auth.{
  Context, ClusterInfo, append_cluster_info_to_context, new_cluster_info_from_authorize_response,
}
use rbac_manager.Auth.Text.{auth_header}
use rbac_manager.Auth.Interceptor.{
  extract_token_from_context, extract_token_from_header, HttpRequest,
}
use rbac_manager.Auth.Interceptor.Http.{HttpAnswer, refused}

-- A call of the stub, which is generated code: the response, or the text of the error.
abbrev pub WorkerClient : Type 0
WorkerClient = Context → AuthorizeWorkerRequest → Outcome String AuthorizeWorkerResponse

pub record WorkerConfig : Type 0 where
  pub rbac_server_addr : String

pub record WorkerInterceptor : Type 0 where
  pub client : WorkerClient

-- `new_client` stands for `grpc.NewClient` and the constructor of the stub.
unfoldable pub new_worker_interceptor :
    (new_client : String → Outcome String WorkerClient)
    → WorkerConfig
    → Outcome String WorkerInterceptor
new_worker_interceptor new_client c = do
  client ← new_client c.rbac_server_addr
  ok (record { client = client })

-- `ClusterInfo{}`
abbrev pub no_cluster_info : ClusterInfo
no_cluster_info = record { cluster_id = ""; cluster_name = ""; tenant_id = "" }

-- What `Unary` and `Stream` both do before they call the handler: the context for it.
unfoldable pub worker_admit : WorkerInterceptor → Context → Outcome Status Context
worker_admit a ctx = do
  token ← extract_token_from_context ctx
  aresp ←
      map_err (λ e. record { code = internal; message = String.◌++◌ "failed to authorize: " e })
        (a.client ctx (record { token = token }))
  if not aresp.authorized
      then err (record { code = permission_denied; message = "permission denied" })
      else do
        info ← new_cluster_info_from_authorize_response aresp
        ok (append_cluster_info_to_context ctx info)

-- A `grpc.ServerStream` and the context that its method `Context` answers, `serverStream` included.
pub record ServerStream (Stream : Type 0) : Type 0 where
  pub stream : Stream
  pub ctx : Context

-- `E` is Go's `error`, and `status` puts a status into it.
module _ {E : Type 0} (status : Status → E) where
  unfoldable pub worker_unary :
      {Req Resp : Type 0}
      → WorkerInterceptor
      → Context
      → Req
      → (handler : Context → Req → Outcome E Resp) → Outcome E Resp
  worker_unary a ctx req handler = map_err status (worker_admit a ctx) >>= λ ctx'. handler ctx' req

  unfoldable pub worker_stream :
      {Srv Stream : Type 0}
      → WorkerInterceptor
      → Srv
      → ServerStream Stream
      → (handler : Srv → ServerStream Stream → Outcome E (Unit {0})) → Outcome E (Unit {0})
  worker_stream a srv ss handler =
      map_err status (worker_admit a ss.ctx) >>= λ ctx'. handler srv (record ss { ctx = ctx' })

-- `InterceptHTTPRequest`; `Url` is the type of the request's URL.
module _ {Url E : Type 0} (a : WorkerInterceptor) (req : HttpRequest Url) where
  unfoldable pub worker_intercept_http_request : Outcome E (HttpAnswer ClusterInfo)
  worker_intercept_http_request = elim (extract_token_from_header req.header) [
    | none ↦ ok (refused 401 no_cluster_info "missing authorization")
    | some token ↦ elim (a.client req.context (record { token = token })) [
      | panic ↦ panic
      | err e ↦ ok (refused 500 no_cluster_info (String.◌++◌ "failed to authorize: " e))
      | ok aresp ↦
          if not aresp.authorized then ok (refused 401 no_cluster_info "permission denied") else do
            info ← new_cluster_info_from_authorize_response aresp
            ok (record { status = 200; info = info; error = none })
    ]
  ]

abbrev pub env_var_name : String
env_var_name = "LLMO_CLUSTER_REGISTRATION_KEY"

-- `key` is the value of the environment variable `env_var_name`, empty if unset.
unfoldable pub append_worker_authorization : (key : String) → Context → Context
append_worker_authorization key ctx = record ctx {
  outgoing = ctx.outgoing ++ ("Authorization", String.◌++◌ "Bearer " key) ∷ [];
}

unfoldable pub append_worker_authorization_to_header :
    (key : String) → GoMap (List String) → GoMap (List String)
append_worker_authorization_to_header key header =
    append_at auth_header (String.◌++◌ "Bearer " key) header

unfoldable pub validate_cluster_registration_key : (key : String) → Outcome String (Unit {0})
validate_cluster_registration_key key =
    if is_empty key
    then err (String.◌++◌ "environment variable " (String.◌++◌ env_var_name " is not set"))
    else if key == "default-cluster-registration-key-secret"
    then ok tt
    else if not (starts_with key "clusterkey-")
    then err (String.◌++◌ "invalid cluster registration key: " key)
    else ok tt
