-- ===== src/Auth/Metadata/Forwarded/Identity.antt =====
-- The next service sees the caller that this one sees.
use rbac_manager.Prelude.{String, none, some, List, ◌≡◌, arith, inl, inr}
use rbac_manager.Outcome.{ok, err, map_ok, Outcome-cases}
use rbac_manager.GoMap.{GoMap, lookup, lookup_all}
use rbac_manager.Rbac.{unauthenticated}
use rbac_manager.Auth.{Context, append_user_info_to_context}
use rbac_manager.Auth.Text.{
  auth_header, org_header, project_header, to_lower_auth_header, to_lower_org_header,
  to_lower_project_header,
}
use rbac_manager.Auth.Transport.{Transport, received, IsBare}
use rbac_manager.Auth.Interceptor.{
  Interceptor, first_value, extract_token_from_context, extract_org_id_from_context,
  extract_project_id_from_context, extract_token_from_header, extract_org_id_from_header,
  extract_project_id_from_header, authorize_grpc, admit,
}
use rbac_manager.Auth.Metadata.{http_headers, carry_metadata, carry_metadata_from_http_header}
use rbac_manager.Auth.Metadata.Carried.{carry_iff, carry_metadata_iff}
use rbac_manager.Auth.Metadata.Forwarded.{first_of, Arrives, carried-Arrives}

first_value-first_of :
    (md : GoMap (List String)) (key : String)
    → first_value (first_of (lookup key md)) ≡ first_value (lookup_all key md)
first_value-first_of md key = ground arith

-- Two contexts that the interceptor cannot tell apart.
pub record IsSameCaller (c d : Context) : Type 0 where
  pub same_token : extract_token_from_context c ≡ extract_token_from_context d
  pub same_org_id : extract_org_id_from_context c ≡ extract_org_id_from_context d
  pub same_project_id : extract_project_id_from_context c ≡ extract_project_id_from_context d

-- The context has the token, the organization and the project of the HTTP header.
pub record IsCallerOf (header : GoMap (List String)) (c : Context) : Type 0 where
  pub same_token : extract_token_from_context c ≡ elim (extract_token_from_header header) [
    | none ↦ err (record { code = unauthenticated; message = "missing authorization" })
    | some token ↦ ok token
  ]
  pub same_org_id : extract_org_id_from_context c ≡ extract_org_id_from_header header
  pub same_project_id : extract_project_id_from_context c ≡ extract_project_id_from_header header

-- What the interceptor decides of a caller, and what it tells the handler, are the same in both
-- contexts, where the answers of the RBAC server do not depend on the context.
module _ {Url : Type 0} (a : Interceptor Url)
    (same_client : (c d : Context) → a.client c ≡ a.client d) where
  authorize_grpc-IsSameCaller :
      (c d : Context) (full_method token : String)
      → IsSameCaller c d
      → authorize_grpc a c full_method token ≡ authorize_grpc a d full_method token
  unfolding authorize_grpc
  authorize_grpc-IsSameCaller c d full_method token h =
      ground (arith, same_client c d, h.same_org_id, h.same_project_id)

  admit-IsSameCaller :
      (c d : Context) (full_method : String)
      → IsSameCaller c d
      → map_ok (λ (x : Context). x.user_info) (admit a c full_method)
        ≡ map_ok (λ (x : Context). x.user_info) (admit a d full_method)
  unfolding admit append_user_info_to_context
  admit-IsSameCaller c d full_method h = elim (Outcome-cases (extract_token_from_context d)) [
    | inr (inl (e, failed)) ↦ ground (arith, h.same_token)
    | inr (inr panics) ↦ ground (arith, h.same_token)
    | inl (token, found) ↦
        let same = authorize_grpc-IsSameCaller c d full_method token h in
        ground (arith, h.same_token)
  ]

module _ (t : Transport) (md : GoMap (List String)) where
  Arrives-IsSameCaller :
      (ctx after : Context)
      → ctx.incoming ≡ some md
      → Arrives t md to_lower_auth_header to_lower_org_header to_lower_project_header after
      → IsSameCaller (received t after) ctx
  unfolding extract_token_from_context extract_org_id_from_context extract_project_id_from_context
  Arrives-IsSameCaller ctx after has a = record {
    same_token = ground (arith, a.has_auth, first_value-first_of md to_lower_auth_header);
    same_org_id = ground (arith, a.has_org, first_value-first_of md to_lower_org_header);
    same_project_id =
        ground (arith, a.has_project, first_value-first_of md to_lower_project_header);
  }

  Arrives-IsCallerOf :
      (after : Context)
      → Arrives t md auth_header org_header project_header after
      → IsCallerOf md (received t after)
  unfolding extract_token_from_context extract_org_id_from_context extract_project_id_from_context
      extract_token_from_header extract_org_id_from_header extract_project_id_from_header
  Arrives-IsCallerOf after a = record {
    same_token = ground (arith, a.has_auth, first_value-first_of md auth_header);
    same_org_id = ground (arith, a.has_org, first_value-first_of md org_header);
    same_project_id = ground (arith, a.has_project, first_value-first_of md project_header);
  }

  module _ {E : Type 0} (ctx after : Context) (bare : IsBare t ctx) where
    pub carry_metadata-IsSameCaller :
        ctx.incoming ≡ some md
        → carry_metadata {E = E} ctx ≡ ok after
        → IsSameCaller (received t after) ctx
    carry_metadata-IsSameCaller has done = Arrives-IsSameCaller ctx after has (
        carried-Arrives t md to_lower_auth_header to_lower_org_header to_lower_project_header ctx
          after bare (((carry_metadata_iff {E = E} md ctx has md ctx).0.1 after).0 done).1)

    pub carry_metadata_from_http_header-IsCallerOf :
        carry_metadata_from_http_header {E = E} ctx md ≡ ok after → IsCallerOf md (received t after)
    unfolding carry_metadata_from_http_header
    carry_metadata_from_http_header-IsCallerOf done = Arrives-IsCallerOf after (
        carried-Arrives t md auth_header org_header project_header ctx after bare
          (((carry_iff {E = E} md http_headers ctx).1 after).0 done).1)

-- A service hands the identity of its caller on with `CarryMetadata`, before it has appended any of
-- the three headers itself: at the next service the call carries the same token, organization and
-- project, or lacks them in the same way, and an interceptor there whose RBAC server does not look
-- at contexts admits it, with the same user, exactly where it admits it here, and refuses it with the
-- same status where it refuses it here.
pub carry_metadata-admit :
    {Url E : Type 0} (t : Transport) (a : Interceptor Url) (md : GoMap (List String))
    (ctx after : Context) (full_method : String)
    → ((c d : Context) → a.client c ≡ a.client d)
    → ctx.incoming ≡ some md
    → IsBare t ctx
    → carry_metadata {E = E} ctx ≡ ok after
    → IsSameCaller (received t after) ctx
      × (map_ok (λ (x : Context). x.user_info) (admit a (received t after) full_method)
          ≡ map_ok (λ (x : Context). x.user_info) (admit a ctx full_method))
carry_metadata-admit {E} t a md ctx after full_method same_client has bare done =
    let same = carry_metadata-IsSameCaller t md {E = E} ctx after bare has done in
    (same, admit-IsSameCaller a same_client (received t after) ctx full_method same)
