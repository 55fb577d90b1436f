-- ===== src/Tests/Calls.antt =====
-- The interceptors in front of the small installation.
use rbac_manager.Prelude.{String, none, some, List, [], ◌∷◌, ◌≡◌, ◌≢◌, ◌↔◌, ◌⊎◌, refl, arith, In}
use rbac_manager.Outcome.{Outcome, ok, panic}
use rbac_manager.Rbac.{Status}
use rbac_manager.Token.{Introspection}
use rbac_manager.Server.{CacheGetter, store_getter}
use rbac_manager.Server.Reads.{steady}
use rbac_manager.Auth.{Context, ClusterInfo}
use rbac_manager.Auth.Interceptor.{HttpRequest, Interceptor, unary}
use rbac_manager.Auth.Interceptor.Passing.{IsAdmitted, unary_iff}
use rbac_manager.Auth.Interceptor.Served.{served}
use rbac_manager.Auth.Worker.{worker_intercept_http_request}
use rbac_manager.Auth.Worker.Carried
use rbac_manager.Auth.Worker.Carried.{IsCluster, worker_http_iff}
use rbac_manager.Tests.World.{store, server, same}

abbrev pub g : CacheGetter
g = store_getter store

abbrev pub text_of : Status → String
text_of s = s.message

-- A call with an API key as its bearer token.
abbrev pub ctx : Context
ctx = record {
  incoming = some (("authorization", "Bearer s0" ∷ []) ∷ []);
  outgoing = [];
  user_info = none;
  cluster_info = none;
}

abbrev pub full_method : String
full_method = "/models.Models/GetModel"

abbrev pub health : List String
health = "/grpc.health.v1.Health/Check" ∷ []

pub no_panic :
    (token : String)
    → ◌≢◌ {A = Outcome String Introspection} (server.token_introspector token) panic
no_panic token e = ground arith

abbrev pub interceptor : Interceptor (Unit {0})
interceptor = served same server (steady g) 0 text_of no_panic (λ _. "api.models") none

abbrev pub handler : Context → String → Outcome Status Context
handler passed _ = ok passed

abbrev pub status : Status → Status
status s = s

unary_iff_example : (unary status interceptor health ctx "x" full_method handler ≡ ok ctx) ↔ (
    (In full_method health × (handler ctx "x" ≡ ok ctx))
    ⊎ (¬ In full_method health
        × ((passed : Context) × IsAdmitted interceptor ctx full_method passed
            × (handler passed "x" ≡ ok ctx))))
unary_iff_example = unary_iff interceptor ctx full_method status health "x" handler ctx

-- A request of the worker cluster that is registered by the key.
abbrev worker_http_request : HttpRequest (Unit {0})
worker_http_request = record { method = "POST"; url = tt; header = []; context = ctx }

abbrev registered : ClusterInfo
registered = record { cluster_id = "c0"; cluster_name = "cluster 0"; tenant_id = "t0" }

worker_http_iff_example :
    (worker_intercept_http_request {E = Status}
        (Carried.served g 0 text_of)
        (Carried.signed g 0 text_of worker_http_request "r0" refl)
      ≡ Carried.accepted g 0 text_of worker_http_request "r0" refl registered)
    ↔ IsCluster g "r0" registered
worker_http_iff_example = worker_http_iff g 0 text_of worker_http_request "r0" refl registered
