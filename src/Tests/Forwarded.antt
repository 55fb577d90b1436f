-- ===== src/Tests/Forwarded.antt =====
-- A service that hands the identity of its caller on to the small installation.
use rbac_manager.Prelude.{String, List, [], ◌∷◌, ◌≡◌, refl, ◌==◌, if◌then◌else◌, eq_iff, arith}
use rbac_manager.Outcome.{ok, map_ok}
use rbac_manager.GoMap.{GoMap, insert, lookup_all}
use rbac_manager.Rbac.{Status}
use rbac_manager.Auth.{Context}
use rbac_manager.Auth.Text.{
  auth_header, org_header, project_header, to_lower_auth_header, to_lower_org_header,
  to_lower_project_header, split_slash, last_part, capability_of_method, capability_of_http_method,
}
use rbac_manager.Auth.Transport.{Transport, values_at, received, IsBare}
use rbac_manager.Auth.Interceptor.{admit}
use rbac_manager.Auth.Interceptor.Http.{intercept_http_request}
use rbac_manager.Auth.Interceptor.Http.Agreed.{AsksSame, as_http, intercept_http_request-admit}
use rbac_manager.Auth.Metadata.{carry, carry_metadata, carry_metadata_from_http_header}
use rbac_manager.Auth.Metadata.Forwarded.Identity.{IsSameCaller, carry_metadata-admit}
use rbac_manager.Tests.Calls.{ctx, interceptor, full_method}
use rbac_manager.Tests.Web.{request, web_interceptor}

abbrev pub lower : String → String
lower key =
    if key == auth_header
    then to_lower_auth_header
    else if key == org_header
    then to_lower_org_header
    else if key == project_header
    then to_lower_project_header
    else key

abbrev pub deliver : List (String × String) → GoMap (List String)
deliver [] = []
deliver ((key, value) ∷ pairs) =
    let rest = deliver pairs in insert (lower key) (value ∷ lookup_all (lower key) rest) rest

pub delivers :
    (key : String) (pairs : List (String × String))
    → lookup_all key (deliver pairs) ≡ values_at lower key pairs
delivers key [] = refl
delivers key ((k, value) ∷ pairs) =
    let rest = delivers key pairs in ground (arith, eq_iff (lower k) key)

abbrev pub transport : Transport
transport = record {
  to_lower = lower;
  deliver = deliver;
  lower_auth = refl;
  lower_org = refl;
  lower_project = refl;
  delivers_auth = delivers to_lower_auth_header;
  delivers_org = delivers to_lower_org_header;
  delivers_project = delivers to_lower_project_header;
}

abbrev pub forwarded : Context
forwarded = record ctx { outgoing = ("Authorization", "Bearer s0") ∷ [] }

pub bare : IsBare transport ctx
bare = record { no_auth = refl; no_org = refl; no_project = refl }

forwarded_run : carry_metadata {E = Status} ctx ≡ ok forwarded
unfolding carry carry_metadata
forwarded_run = refl

forwarded_http_run : carry_metadata_from_http_header {E = Status} ctx request.header ≡ ok forwarded
unfolding carry carry_metadata_from_http_header
forwarded_http_run = refl

carry_metadata-admit_example :
    IsSameCaller (received transport forwarded) ctx
    × (map_ok
          (λ (x : Context). x.user_info)
          (admit interceptor (received transport forwarded) full_method)
        ≡ map_ok (λ (x : Context). x.user_info) (admit interceptor ctx full_method))
carry_metadata-admit_example =
    carry_metadata-admit {E = Status} transport interceptor
      (("authorization", "Bearer s0" ∷ []) ∷ []) ctx forwarded full_method (λ c d. refl) refl bare
      forwarded_run

asks_same :
    AsksSame web_interceptor request full_method "GetModel"
      (λ _. "api.models")
      (λ _ _. "api.models")
unfolding split_slash last_part capability_of_method capability_of_http_method
asks_same = record {
  has_grpc = refl;
  has_http = refl;
  same_resource = refl;
  has_method = refl;
  same_capability = refl;
}

intercept_http_request-admit_example :
    intercept_http_request {E = Status} web_interceptor request
    ≡ as_http (admit web_interceptor (received transport forwarded) full_method)
intercept_http_request-admit_example =
    intercept_http_request-admit web_interceptor request full_method "GetModel" (λ _. "api.models")
      (λ _ _. "api.models") {F = Status} transport ctx forwarded (λ c d. refl) asks_same bare
      forwarded_http_run
