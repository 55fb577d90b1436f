-- ===== src/Auth/Transport.antt =====
-- What gRPC does with metadata on the way from a client to a server: google.golang.org/grpc, by the
-- documentation of its package `metadata`. Keys are compared in lower case, and the values that were
-- appended under one key arrive in their order. This is about calls that arrive: gRPC itself fails a
-- call with a value that is not printable.
use rbac_manager.Prelude.{String, some, none, List, [], keep, map, ◌==◌, ◌≡◌}
use rbac_manager.GoMap.{GoMap, lookup_all}
use rbac_manager.Auth.{Context}
use rbac_manager.Auth.Text.{
  auth_header, org_header, project_header, to_lower_auth_header, to_lower_org_header,
  to_lower_project_header,
}

-- The values that a client appends under a key.
abbrev pub values_at : (to_lower : String → String) → String → List (String × String) → List String
values_at to_lower key pairs =
    map (λ (p : String × String). p.1) (keep (λ p. to_lower p.0 == key) pairs)

pub record Transport : Type 0 where
  pub to_lower : String → String
  pub deliver : List (String × String) → GoMap (List String)
  pub lower_auth : to_lower auth_header ≡ to_lower_auth_header
  pub lower_org : to_lower org_header ≡ to_lower_org_header
  pub lower_project : to_lower project_header ≡ to_lower_project_header
  pub delivers_auth :
      (pairs : List (String × String))
      → lookup_all to_lower_auth_header (deliver pairs)
        ≡ values_at to_lower to_lower_auth_header pairs
  pub delivers_org :
      (pairs : List (String × String))
      → lookup_all to_lower_org_header (deliver pairs)
        ≡ values_at to_lower to_lower_org_header pairs
  pub delivers_project :
      (pairs : List (String × String))
      → lookup_all to_lower_project_header (deliver pairs)
        ≡ values_at to_lower to_lower_project_header pairs

-- The context of a call at the service that receives it.
abbrev pub received : Transport → Context → Context
received t ctx = record {
  incoming = some (t.deliver ctx.outgoing);
  outgoing = [];
  user_info = none;
  cluster_info = none;
}

-- The context appends nothing yet that would arrive under one of the three keys.
pub record IsBare (t : Transport) (ctx : Context) : Type 0 where
  pub no_auth : values_at t.to_lower to_lower_auth_header ctx.outgoing ≡ []
  pub no_org : values_at t.to_lower to_lower_org_header ctx.outgoing ≡ []
  pub no_project : values_at t.to_lower to_lower_project_header ctx.outgoing ≡ []
