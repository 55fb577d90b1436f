-- ===== src/Auth/Interceptor/Asked.antt =====
-- What the interceptor asks the RBAC server about a gRPC call.
use Prim.Native.String.{String, ◌++◌}
use text.Mathlib.Text.{starts_with}
use rbac_manager.Prelude.{some, ◌≡◌, ◌||◌, arith, if◌then◌else◌}
use rbac_manager.Outcome.{map_err}
use rbac_manager.Rbac.{AuthorizeRequest, Status, internal}
use rbac_manager.Auth.{Context}
use rbac_manager.Auth.Text.{capability_of_method}
use rbac_manager.Auth.Text.Method.{NoSlash, last_part-split_slash-append}
use rbac_manager.Auth.Interceptor.{
  Interceptor, extract_org_id_from_context, extract_project_id_from_context, authorize_grpc,
}

abbrev pub failed_to_authorize : String → Status
failed_to_authorize e = record { code = internal; message = "failed to authorize: " ++ e }

module _ {Url : Type 0} (a : Interceptor Url) (ctx : Context) (service method token : String)
    (resource_of : String → String) where
  abbrev pub full_method : String
  full_method = service ++ ("/" ++ method)

  -- The request for a call of `method` of `service`.
  abbrev pub asked : AuthorizeRequest
  asked = record {
    token = token;
    access_resource = resource_of full_method;
    capability = if starts_with method "Get" || starts_with method "List" then "read" else "write";
    organization_id = extract_org_id_from_context ctx;
    project_id = extract_project_id_from_context ctx;
  }

  -- For a call of a method whose name has no slash, of any service, the RBAC server is asked once: for
  -- the resource that the function gives for the full name, and for reading exactly where the
  -- method's own name begins with `Get` or `List`. Its error becomes the status `internal`.
  pub authorize_grpc-asks :
      NoSlash method
      → a.resource_for_grpc_request ≡ some resource_of
      → authorize_grpc a ctx full_method token ≡ map_err failed_to_authorize (a.client ctx asked)
  unfolding authorize_grpc capability_of_method
  authorize_grpc-asks plain has_getter =
      ground (arith, last_part-split_slash-append service method plain, has_getter)
