-- ===== src/Auth/Interceptor/Http.antt =====
-- interceptor.go, `InterceptHTTPRequest`.
pub mod Accepted
pub mod Parts
pub mod Agreed
use Prim.Native.String
use rbac_manager.Prelude.{ℕ, String, false, not, Option, none, some, [], if◌then◌else◌}
use rbac_manager.Outcome.{Outcome, ok, err, panic, ◌>>=◌}
use rbac_manager.Auth.{UserInfo, deref, new_user_info_from_authorize_response}
use rbac_manager.Auth.Text.{capability_of_http_method}
use rbac_manager.Auth.Interceptor.{
  HttpRequest, Interceptor, call, extract_token_from_header, extract_org_id_from_header,
  extract_project_id_from_header,
}

-- What an interception returns: an HTTP status code, the information and an error's text.
pub record HttpAnswer (Info : Type 0) : Type 0 where
  pub status : ℕ
  pub info : Info
  pub error : Option String

-- `UserInfo{}`
abbrev pub no_user_info : UserInfo
no_user_info = record {
  user_id = "";
  internal_user_id = "";
  organization_id = "";
  organization_title = "";
  project_id = "";
  project_title = "";
  assigned_kubernetes_envs = [];
  tenant_id = "";
  api_key_id = "";
  excluded_from_rate_limiting = false;
}

abbrev pub refused : {Info : Type 0} → ℕ → Info → String → HttpAnswer Info
refused status info text = record { status = status; info = info; error = some text }

-- Only a panic keeps it from an answer, so that no error is left: `E` is any type.
module _ {Url E : Type 0} (a : Interceptor Url) (req : HttpRequest Url) where
  unfoldable pub intercept_with : String → Outcome E (HttpAnswer UserInfo)
  intercept_with token = do
    resource_of ← deref a.resource_for_http_request
    elim (call a req.context token (resource_of req.method req.url)
        (capability_of_http_method req.method) (extract_org_id_from_header req.header)
        (extract_project_id_from_header req.header)) [
          | panic ↦ panic
          | err e ↦ ok (refused 500 no_user_info (String.◌++◌ "failed to authorize: " e))
          | ok resp ↦
              if not resp.authorized then ok (refused 401 no_user_info "permission denied") else do
                info ← new_user_info_from_authorize_response resp
                ok (record { status = 200; info = info; error = none })
        ]

  unfoldable pub intercept_http_request : Outcome E (HttpAnswer UserInfo)
  intercept_http_request = elim (extract_token_from_header req.header) [
    | none ↦ ok (refused 401 no_user_info "missing authorization")
    | some token ↦ intercept_with token
  ]
