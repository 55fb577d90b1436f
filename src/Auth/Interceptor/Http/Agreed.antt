-- ===== src/Auth/Interceptor/Http/Agreed.antt =====
-- `InterceptHTTPRequest` against the interceptor of gRPC calls.
use rbac_manager.Prelude.{ℕ, String, Option, none, some, ◌≡◌, arith, inl, inr, Option-cases}
use rbac_manager.Outcome.{Outcome, ok, err, panic, Outcome-cases}
use rbac_manager.Rbac.{AuthorizeRequest, Code, internal, Status}
use rbac_manager.Auth.{
  Context, UserInfo, append_user_info_to_context, new_user_info_from_authorize_response,
}
use rbac_manager.Auth.Text.{split_slash, last_part, capability_of_method, capability_of_http_method}
use rbac_manager.Auth.Transport.{Transport, received, IsBare}
use rbac_manager.Auth.Interceptor.{
  HttpRequest, Interceptor, extract_token_from_header, extract_org_id_from_context,
  extract_project_id_from_context, authorize_grpc, admit,
}
use rbac_manager.Auth.Interceptor.Http.{
  HttpAnswer, no_user_info, refused, intercept_with, intercept_http_request,
}
use rbac_manager.Auth.Metadata.{carry_metadata_from_http_header}
use rbac_manager.Auth.Metadata.Forwarded.Identity.{
  IsCallerOf, carry_metadata_from_http_header-IsCallerOf,
}

-- The HTTP status code of a gRPC status code.
abbrev pub status_of : Code → ℕ
status_of internal = 500
status_of _ = 401

abbrev pub info_or_none : Option UserInfo → UserInfo
info_or_none none = no_user_info
info_or_none (some info) = info

-- The admission of a gRPC call, told in the terms of HTTP.
abbrev pub as_http : {E : Type 0} → Outcome Status Context → Outcome E (HttpAnswer UserInfo)
as_http panic = panic
as_http (err e) = ok (refused (status_of e.code) no_user_info e.message)
as_http (ok passed) =
    ok (record { status = 200; info = info_or_none passed.user_info; error = none })

module _ {Url : Type 0} (a : Interceptor Url) (req : HttpRequest Url) (full_method method : String)
    (resource_of : String → String) (resource_of_http : String → Url → String) where
  -- The two requests ask for the same: the resource, and reading or writing.
  pub record AsksSame : Type 0 where
    pub has_grpc : a.resource_for_grpc_request ≡ some resource_of
    pub has_http : a.resource_for_http_request ≡ some resource_of_http
    pub same_resource : resource_of_http req.method req.url ≡ resource_of full_method
    pub has_method : last_part (split_slash full_method) ≡ some method
    pub same_capability : capability_of_http_method req.method ≡ capability_of_method method

  intercept_http_request-as_http :
      {E : Type 0} (ctx : Context)
      → a.client req.context ≡ a.client ctx
      → AsksSame
      → IsCallerOf req.header ctx
      → intercept_http_request {E = E} a req ≡ as_http (admit a ctx full_method)
  unfolding intercept_http_request intercept_with admit authorize_grpc append_user_info_to_context
      new_user_info_from_authorize_response
  intercept_http_request-as_http ctx same_client asks caller =
      elim (Option-cases (extract_token_from_header req.header)) [
        | inl missing ↦ ground (arith, caller.same_token)
        | inr (token, found) ↦
            let asked : AuthorizeRequest = record {
              token = token;
              access_resource = resource_of full_method;
              capability = capability_of_method method;
              organization_id = extract_org_id_from_context ctx;
              project_id = extract_project_id_from_context ctx;
            } in
            elim (Outcome-cases (a.client ctx asked)) [
              | inr (inr panics) ↦ ground arith
              | inr (inl (e, failed)) ↦ ground arith
              | inl (resp, answered) ↦ ground arith
            ]
      ]

  -- An HTTP service passes the three headers of a request on to a gRPC service, by a call of
  -- `CarryMetadataFromHTTPHeader` that does not panic, on a context that appends none of the three yet.
  -- Where the gRPC call asks for the same resource, and for reading exactly if the request does, both
  -- services have the same interceptor, with functions for the resources of both kinds of requests, and
  -- the RBAC server does not look at contexts, the HTTP interceptor answers what the gRPC interceptor
  -- of the next service decides: 200 with the same user where it admits the call, 500 where the RBAC
  -- server fails, 401 where the call is refused, with the same text, and a panic where that panics.
  pub intercept_http_request-admit :
      {E F : Type 0} (t : Transport) (ctx after : Context)
      → ((c d : Context) → a.client c ≡ a.client d)
      → AsksSame
      → IsBare t ctx
      → carry_metadata_from_http_header {E = F} ctx req.header ≡ ok after
      → intercept_http_request {E = E} a req ≡ as_http (admit a (received t after) full_method)
  intercept_http_request-admit {E} {F} t ctx after same_client asks bare done =
      intercept_http_request-as_http {E = E} (received t after) (same_client _ _) asks
        (carry_metadata_from_http_header-IsCallerOf t req.header {E = F} ctx after bare done)
