-- ===== src/Auth/Metadata/Forwarded.antt =====
-- The caller's identity on its way from one service to the next.
pub mod Identity
use rbac_manager.Prelude.{
  String, refl, ap, ◌∙◌, Bool, Option, none, some, List, [], ◌∷◌, ◌++◌, ◌==◌, ◌≡◌, map, keep, arith,
  if◌then◌else◌,
}
use rbac_manager.Outcome.{Outcome, ok}
use rbac_manager.GoMap.{GoMap, lookup, lookup_all}
use rbac_manager.Auth.{Context}
use rbac_manager.Auth.Text.{
  auth_header, org_header, project_header, to_lower_auth_header, to_lower_org_header,
  to_lower_project_header,
}
use rbac_manager.Auth.Transport.{Transport, values_at, received, IsBare}
use rbac_manager.Auth.Metadata.{carry_metadata, metadata_headers, http_headers}
use rbac_manager.Auth.Metadata.Carried.{HasEmpty, first_values, with_outgoing, carry_metadata_iff}

abbrev pub first_of : Option (List String) → List String
first_of none = []
first_of (some []) = []
first_of (some (v ∷ _)) = v ∷ []

pub values_at-append :
    (to_lower : String → String) (key : String) (xs ys : List (String × String))
    → values_at to_lower key (xs ++ ys) ≡ values_at to_lower key xs ++ values_at to_lower key ys
values_at-append to_lower key [] ys = refl
values_at-append to_lower key (x ∷ xs) ys = ground (arith, values_at-append to_lower key xs ys)

-- The three headers, each with the key that it is read under.
module _ (t : Transport) (md : GoMap (List String)) (auth org project : String) where
  abbrev headers : List (String × String)
  headers = (auth_header, auth) ∷ (org_header, org) ∷ (project_header, project) ∷ []

  -- The test of a pair's key, once `strings.ToLower` is known there.
  lower_test :
      (key header lower : String)
      → t.to_lower header ≡ lower
      → (t.to_lower header == key) ≡ (lower == key)
  lower_test key header lower is = ap (λ (x : String). x == key) is

  auth_values :
      values_at t.to_lower to_lower_auth_header (first_values md headers)
      ≡ first_of (lookup auth md)
  auth_values = ground (
    arith,
    lower_test to_lower_auth_header auth_header to_lower_auth_header t.lower_auth,
    lower_test to_lower_auth_header org_header to_lower_org_header t.lower_org,
    lower_test to_lower_auth_header project_header to_lower_project_header t.lower_project,
  )

  org_values :
      values_at t.to_lower to_lower_org_header (first_values md headers) ≡ first_of (lookup org md)
  org_values = ground (
    arith,
    lower_test to_lower_org_header auth_header to_lower_auth_header t.lower_auth,
    lower_test to_lower_org_header org_header to_lower_org_header t.lower_org,
    lower_test to_lower_org_header project_header to_lower_project_header t.lower_project,
  )

  project_values :
      values_at t.to_lower to_lower_project_header (first_values md headers)
      ≡ first_of (lookup project md)
  project_values = ground (
    arith,
    lower_test to_lower_project_header auth_header to_lower_auth_header t.lower_auth,
    lower_test to_lower_project_header org_header to_lower_org_header t.lower_org,
    lower_test to_lower_project_header project_header to_lower_project_header t.lower_project,
  )

  -- What arrives of a context that hands the headers on, under each of the three keys.
  pub record Arrives (ctx : Context) : Type 0 where
    pub has_auth :
        lookup_all to_lower_auth_header (t.deliver ctx.outgoing) ≡ first_of (lookup auth md)
    pub has_org : lookup_all to_lower_org_header (t.deliver ctx.outgoing) ≡ first_of (lookup org md)
    pub has_project :
        lookup_all to_lower_project_header (t.deliver ctx.outgoing) ≡ first_of (lookup project md)

  carried-Arrives :
      (ctx after : Context)
      → IsBare t ctx
      → after ≡ with_outgoing ctx (first_values md headers)
      → Arrives after
  carried-Arrives ctx after bare is =
      let pairs = first_values md headers in
      let append = λ (key : String). values_at-append t.to_lower key ctx.outgoing pairs in
      let sent = ap (λ (c : Context). t.deliver c.outgoing) is in
      record {
        has_auth =
            ap (lookup_all to_lower_auth_header) sent
            ∙ t.delivers_auth (ctx.outgoing ++ pairs)
            ∙ ground (arith, append to_lower_auth_header, bare.no_auth, auth_values);
        has_org =
            ap (lookup_all to_lower_org_header) sent
            ∙ t.delivers_org (ctx.outgoing ++ pairs)
            ∙ ground (arith, append to_lower_org_header, bare.no_org, org_values);
        has_project =
            ap (lookup_all to_lower_project_header) sent
            ∙ t.delivers_project (ctx.outgoing ++ pairs)
            ∙ ground (arith, append to_lower_project_header, bare.no_project, project_values);
      }
