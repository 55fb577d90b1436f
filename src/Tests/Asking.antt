-- ===== src/Tests/Asking.antt =====
-- What the interceptors in front of the small installation ask, and how they are made.
use rbac_manager.Prelude.{String, none, some, ◌≡◌, refl}
use rbac_manager.Outcome.{Outcome, ok, panic}
use rbac_manager.Auth.Text.{trim_prefix}
use rbac_manager.Auth.Text.Method.{NoSlash}
use rbac_manager.Auth.Interceptor.{
  Client, Config, Interceptor, new_interceptor, unary, extract_token_from_context,
}
use rbac_manager.Auth.Interceptor.Built.{missing_getter-panics}
use rbac_manager.Tests.Calls.{ctx, interceptor, health, handler, status, full_method}

abbrev pub get_model : String
get_model = "GetModel"

pub plain : NoSlash get_model
plain = (refl, (refl, (refl, (refl, (refl, (refl, (refl, (refl, tt))))))))

abbrev new_client : String → Outcome String Client
new_client _ = ok interceptor.client

abbrev http_only : Config (Unit {0})
http_only = record {
  rbac_server_addr = "rbac-server:8082";
  access_resource = "";
  get_access_resource_for_grpc_request = none;
  get_access_resource_for_http_request = some (λ _ _. "api.models");
}

-- The interceptor for HTTP requests alone.
abbrev web : Interceptor (Unit {0})
web = record {
  client = interceptor.client;
  resource_for_grpc_request = none;
  resource_for_http_request = some (λ _ _. "api.models");
}

has_token : extract_token_from_context ctx ≡ ok "s0"
unfolding extract_token_from_context trim_prefix
has_token = refl

is_web : new_interceptor new_client http_only ≡ ok web
unfolding new_interceptor
is_web = refl

missing_getter-panics_example : unary status web health ctx "x" full_method handler ≡ panic
missing_getter-panics_example =
    missing_getter-panics new_client http_only web status health ctx "x" full_method handler "s0"
      is_web refl refl refl has_token
