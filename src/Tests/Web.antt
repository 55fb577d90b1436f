-- ===== src/Tests/Web.antt =====
-- The interceptor of HTTP requests in front of the small installation.
use rbac_manager.Prelude.{true, none, some, [], ◌∷◌, ◌≡◌, ◌↔◌}
use rbac_manager.Outcome.{ok}
use rbac_manager.Rbac.{Status}
use rbac_manager.Auth.{UserInfo}
use rbac_manager.Auth.Interceptor.{HttpRequest, Interceptor}
use rbac_manager.Auth.Interceptor.Http.{intercept_http_request}
use rbac_manager.Auth.Interceptor.Http.Accepted.{IsAccepted, intercept_http_iff}
use rbac_manager.Tests.Calls

abbrev pub request : HttpRequest (Unit {0})
request = record {
  method = "GET";
  url = tt;
  header = ("Authorization", "Bearer s0" ∷ []) ∷ [];
  context = Calls.ctx;
}

abbrev pub web_interceptor : Interceptor (Unit {0})
web_interceptor = record Calls.interceptor {
  resource_for_http_request = some (λ _ _. "api.models");
}

abbrev pub member : UserInfo
member = record {
  user_id = "u0";
  internal_user_id = "iu0";
  organization_id = "o0";
  organization_title = "org";
  project_id = "p0";
  project_title = "project";
  assigned_kubernetes_envs =
      record { cluster_id = "c0"; cluster_name = "cluster 0"; namespace = "ns1" }
      ∷ record { cluster_id = "c0"; cluster_name = "cluster 0"; namespace = "ns0" }
      ∷ [];
  tenant_id = "t0";
  api_key_id = "k0";
  excluded_from_rate_limiting = true;
}

intercept_http_iff_example :
    (intercept_http_request {E = Status} web_interceptor request
      ≡ ok (record { status = 200; info = member; error = none }))
    ↔ IsAccepted web_interceptor request member
intercept_http_iff_example = intercept_http_iff web_interceptor request member
