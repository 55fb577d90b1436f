-- ===== src/Auth/Metadata.antt =====
-- pkg/auth/metadata.go and header_matcher.go: what a service hands on to the services that it calls.
pub mod Carried
pub mod Forwarded
use rbac_manager.Prelude.{
  String, Bool, true, ◌||◌, ◌==◌, none, some, List, [], ◌∷◌, ◌++◌, if◌then◌else◌,
}
use rbac_manager.Outcome.{Outcome, ok, panic}
use rbac_manager.GoMap.{GoMap, lookup}
use rbac_manager.Auth.{Context}
use rbac_manager.Auth.Text.{
  auth_header, org_header, project_header, to_lower_auth_header, to_lower_org_header,
  to_lower_project_header,
}

-- `metadata.AppendToOutgoingContext` with one pair.
abbrev pub append_to_outgoing_context : Context → String → String → Context
append_to_outgoing_context ctx header v = record ctx { outgoing = ctx.outgoing ++ (header, v) ∷ [] }

-- The loop over the headers, each with the key that it is read under; `v[0]` of an empty slice
-- panics.
unfoldable pub carry :
    {E : Type 0} → GoMap (List String) → List (String × String) → Context → Outcome E Context
carry md [] ctx = ok ctx
carry md ((header, key) ∷ headers) ctx = elim (lookup key md) [
  | none ↦ carry md headers ctx
  | some vs ↦ elim vs [
    | [] ↦ panic
    | v ∷ _ ↦ carry md headers (append_to_outgoing_context ctx header v)
  ]
]

abbrev pub metadata_headers : List (String × String)
metadata_headers =
    (auth_header, to_lower_auth_header)
    ∷ (org_header, to_lower_org_header)
    ∷ (project_header, to_lower_project_header)
    ∷ []

abbrev pub http_headers : List (String × String)
http_headers =
    (auth_header, auth_header) ∷ (org_header, org_header) ∷ (project_header, project_header) ∷ []

unfoldable pub carry_metadata : {E : Type 0} → Context → Outcome E Context
carry_metadata ctx = elim ctx.incoming [ none ↦ ok ctx | some md ↦ carry md metadata_headers ctx ]

unfoldable pub carry_metadata_from_http_header :
    {E : Type 0} → Context → GoMap (List String) → Outcome E Context
carry_metadata_from_http_header ctx header = carry header http_headers ctx

-- `default_matcher` is `runtime.DefaultHeaderMatcher` of the gRPC gateway.
unfoldable pub header_matcher : (default_matcher : String → String × Bool) → String → String × Bool
header_matcher default_matcher key =
    if key == org_header || key == project_header then (key, true) else default_matcher key
