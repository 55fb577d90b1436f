-- ===== src/Auth/Interceptor.antt =====
-- pkg/auth/interceptor.go: the interceptor of the services that users call.
pub mod Asked
pub mod Built
pub mod Granted
pub mod Http
pub mod Keyed
pub mod Passing
pub mod Served
pub mod Validated
use Prim.Native.String
use rbac_manager.Prelude.{
  ℕ, String, Bool, true, false, not, ◌&&◌, Option, none, some, List, [], ◌∷◌, ◌==◌, if◌then◌else◌,
  is_empty,
}
use rbac_manager.Outcome.{Outcome, ok, err, panic, ◌>>=◌, map_err}
use rbac_manager.GoMap.{GoMap, lookup_all}
use rbac_manager.Rbac.{
  AuthorizeRequest, AuthorizeResponse, Status, invalid_argument, unauthenticated, permission_denied,
  internal,
}
use rbac_manager.Auth.{
  Context, UserInfo, deref, append_user_info_to_context, new_user_info_from_authorize_response,
}
use rbac_manager.Auth.Text.{
  auth_header, org_header, project_header, to_lower_auth_header, to_lower_org_header,
  to_lower_project_header, trim_prefix, split_slash, last_part, capability_of_method,
  capability_of_http_method,
}

-- A call of the stub, which is generated code: the response, or the text of the error.
abbrev pub Client : Type 0
Client = Context → AuthorizeRequest → Outcome String AuthorizeResponse

-- `v[0]`, or nothing where `len(v) < 1`.
abbrev pub first_value : List String → Option String
first_value [] = none
first_value (v ∷ _) = some v

abbrev pub value_or_empty : Option String → String
value_or_empty none = ""
value_or_empty (some v) = v

unfoldable pub extract_token_from_context : Context → Outcome Status String
extract_token_from_context ctx = elim ctx.incoming [
  | none ↦ err (record { code = invalid_argument; message = "missing metadata" })
  | some md ↦ elim (first_value (lookup_all to_lower_auth_header md)) [
    | none ↦ err (record { code = unauthenticated; message = "missing authorization" })
    | some auth ↦ ok (trim_prefix auth "Bearer ")
  ]
]

abbrev incoming_value : String → Context → String
incoming_value key ctx = elim ctx.incoming [
  | none ↦ ""
  | some md ↦ value_or_empty (first_value (lookup_all key md))
]

unfoldable pub extract_org_id_from_context : Context → String
extract_org_id_from_context ctx = incoming_value to_lower_org_header ctx

unfoldable pub extract_project_id_from_context : Context → String
extract_project_id_from_context ctx = incoming_value to_lower_project_header ctx

unfoldable pub extract_token_from_header : GoMap (List String) → Option String
extract_token_from_header header = elim (first_value (lookup_all auth_header header)) [
  | none ↦ none
  | some auth ↦ some (trim_prefix auth "Bearer ")
]

unfoldable pub extract_org_id_from_header : GoMap (List String) → String
extract_org_id_from_header header = value_or_empty (first_value (lookup_all org_header header))

unfoldable pub extract_project_id_from_header : GoMap (List String) → String
extract_project_id_from_header header =
    value_or_empty (first_value (lookup_all project_header header))

-- An `http.Request`, by what the interceptor reads of it; `Url` is the type of its URL.
pub record HttpRequest (Url : Type 0) : Type 0 where
  pub method : String
  pub url : Url
  pub header : GoMap (List String)
  pub context : Context

-- The functions are nil where they are `none`.
pub record Config (Url : Type 0) : Type 0 where
  pub rbac_server_addr : String
  pub access_resource : String
  pub get_access_resource_for_grpc_request : Option (String → String)
  pub get_access_resource_for_http_request : Option (String → Url → String)

pub record Interceptor (Url : Type 0) : Type 0 where
  pub client : Client
  pub resource_for_grpc_request : Option (String → String)
  pub resource_for_http_request : Option (String → Url → String)

pub data NewError : Type 0 where
  no_client : String → NewError
  no_access_resource : NewError

abbrev pub is_nil : {A : Type 0} → Option A → Bool
is_nil none = true
is_nil (some _) = false

abbrev pub contains : List String → String → Bool
contains [] s = false
contains (m ∷ ms) s = if s == m then true else contains ms s

module _ {Url : Type 0} where
  -- `new_client` stands for `grpc.NewClient` and the constructor of the stub.
  unfoldable pub new_interceptor :
      (new_client : String → Outcome String Client)
      → Config Url
      → Outcome NewError (Interceptor Url)
  new_interceptor new_client c = do
    client ← map_err no_client (new_client c.rbac_server_addr)
    if is_empty c.access_resource
          && (is_nil c.get_access_resource_for_grpc_request
              && is_nil c.get_access_resource_for_http_request)
        then err no_access_resource
        else ok (
            if not (is_empty c.access_resource)
            then (record {
              client = client;
              resource_for_grpc_request = some (λ _. c.access_resource);
              resource_for_http_request = some (λ _ _. c.access_resource);
            })
            else (record {
              client = client;
              resource_for_grpc_request = c.get_access_resource_for_grpc_request;
              resource_for_http_request = c.get_access_resource_for_http_request;
            }))

  -- The method `authorize`.
  abbrev pub call :
      Interceptor Url
      → Context
      → (token resource cap org_id project_id : String) → Outcome String AuthorizeResponse
  call a ctx token resource cap org_id project_id = a.client ctx (record {
    token = token;
    access_resource = resource;
    capability = cap;
    organization_id = org_id;
    project_id = project_id;
  })

  -- The request that a gRPC call with this token becomes.
  unfoldable pub authorize_grpc :
      Interceptor Url → Context → String → String → Outcome Status AuthorizeResponse
  authorize_grpc a ctx full_method token = do
    method ← deref (last_part (split_slash full_method))
    resource_of ← deref a.resource_for_grpc_request
    map_err (λ e. record { code = internal; message = String.◌++◌ "failed to authorize: " e })
        (call a ctx token (resource_of full_method) (capability_of_method method)
          (extract_org_id_from_context ctx) (extract_project_id_from_context ctx))

  -- What the interceptor makes of a call that is not excluded: the context for the handler.
  unfoldable pub admit : Interceptor Url → Context → String → Outcome Status Context
  admit a ctx full_method = do
    token ← extract_token_from_context ctx
    aresp ← authorize_grpc a ctx full_method token
    if not aresp.authorized
        then err (record { code = permission_denied; message = "permission denied" })
        else do
          info ← new_user_info_from_authorize_response aresp
          ok (append_user_info_to_context ctx info)

  -- `E` is Go's `error`, and `status` puts a status into it.
  module _ {E Req Resp : Type 0} (status : Status → E) where
    unfoldable pub unary :
        Interceptor Url
        → (exclude_methods : List String) → Context
        → Req
        → (full_method : String) → (handler : Context → Req → Outcome E Resp) → Outcome E Resp
    unary a exclude_methods ctx req full_method handler =
        if contains exclude_methods full_method
        then handler ctx req
        else map_err status (admit a ctx full_method) >>= λ ctx'. handler ctx' req
