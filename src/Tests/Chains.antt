-- ===== src/Tests/Chains.antt =====
-- Calls with an API key and with a user's token, through the interceptor to the small installation.
use rbac_manager.Prelude.{
  true, false, ap, ℕ, zero, suc, String, some, none, List, [], ◌∷◌, ◌≡◌, ◌≢◌, ◌↔◌, refl, arith, ◌∙◌,
  eq_iff,
}
use rbac_manager.Outcome.{ok-injective, ok, panic}
use rbac_manager.GoMap.{GoMap}
use rbac_manager.UserManager.{OrganizationRole, ProjectRole}
use rbac_manager.Token.Validator.{Key, KeySet, IntrospectError}
use rbac_manager.Token.Validator.Panics.{Returns}
use rbac_manager.Cache
use rbac_manager.Cache.{K, new_store}
use rbac_manager.Server.{store_getter}
use rbac_manager.Server.Reads.{steady}
use rbac_manager.Auth.{Context}
use rbac_manager.Auth.Text.{trim_prefix}
use rbac_manager.Auth.Interceptor.{unary}
use rbac_manager.Auth.Interceptor.Passing.{HasToken}
use rbac_manager.Auth.Interceptor.Granted.{fronted}
use rbac_manager.Auth.Interceptor.Served.{served}
use rbac_manager.Auth.Interceptor.Keyed.Listed.{
  Listings, Answered, IsListed, scope_of, unary-IsListed_iff,
}
use rbac_manager.Auth.Interceptor.Validated.{
  validated, introspector-ne-panic, unary-validated-ne-panic,
}
use rbac_manager.Auth.Interceptor.Validated.Users.{IsValidated, unary-IsValidated_iff}
use rbac_manager.Tests.World.{
  users, clusters, store, server, same, key0, cluster0, cluster1, org, project,
}
use rbac_manager.Tests.Sync.{updating}
use rbac_manager.Tests.Update.{updates}
use rbac_manager.Tests.Tokens.{parse, keys}
use rbac_manager.Tests.Calls.{ctx, health, handler, status, text_of}
use rbac_manager.Tests.Isolation.{with_member}
use rbac_manager.Tests.Asking.{get_model, plain}

abbrev listings : Listings
listings = record {
  api_keys = key0 ∷ [];
  orgs = org "o0" "t0" ∷ org "o1" "t1" ∷ [];
  projects = project "p0" false ∷ project "p1" true ∷ [];
  clusters = cluster0 ∷ cluster1 ∷ [];
}

answered : Answered users clusters listings
answered = record { has_api_keys = refl; has_orgs = refl; has_projects = refl; has_clusters = refl }

abbrev k0 : K
k0 = record {
  key_id = "k0";
  user_id = "u0";
  internal_user_id = "iu0";
  organization_id = "o0";
  project_id = "p0";
  tenant_id = "t0";
  organization_role = OrganizationRole.reader;
  project_role = ProjectRole.member;
  excluded_from_rate_limiting = true;
}

abbrev models : String → String
models _ = "api.models"

models_named : ◌≢◌ {A = String} "api.models" ""
models_named e = ground (arith, eq_iff "api.models" "")

s0_given : ◌≢◌ {A = String} "s0" ""
s0_given e = ground (arith, eq_iff "s0" "")

s0_token : HasToken ctx "s0"
unfolding trim_prefix
s0_token = record {
  md = ("authorization", "Bearer s0" ∷ []) ∷ [];
  auth = "Bearer s0";
  others = [];
  has_metadata = refl;
  has_auth = refl;
  is_token = refl;
}

unary-IsListed_iff_example :
    (unary status
        (fronted same server (store_getter store) 0 text_of (Unit {0}) models)
        health
        ctx
        "x"
        "/models.Models/GetModel"
        handler
      ≡ ok with_member)
    ↔ ((passed : Context) × IsListed server listings (scope_of "api.models" get_model) k0 ctx passed
        × (handler passed "x" ≡ ok with_member))
unary-IsListed_iff_example =
    unary-IsListed_iff same server 0 text_of (Unit {0}) models users clusters 7 new_store store
      listings answered updates ctx "/models.Models" get_model "s0" k0 plain s0_token s0_given
      models_named refl status health "x" handler with_member refl

-- A call with the token that the second key accepts.
abbrev good_ctx : Context
good_ctx = record ctx { incoming = some (("authorization", "Bearer good" ∷ []) ∷ []) }

abbrev text_of_error : IntrospectError → String
text_of_error _ = "error"

abbrev mapper : GoMap (List String)
mapper = ("projectOwner", "api.models.read" ∷ []) ∷ []

-- Every email is that of the user `u0`.
abbrev to_u0 : String → String
to_u0 _ = "u0"

good_given : ◌≢◌ {A = String} "good" ""
good_given e = ground (arith, eq_iff "good" "")

good_token : HasToken good_ctx "good"
unfolding trim_prefix
good_token = record {
  md = ("authorization", "Bearer good" ∷ []) ∷ [];
  auth = "Bearer good";
  others = [];
  has_metadata = refl;
  has_auth = refl;
  is_token = refl;
}

no_key : (store_getter store).get_api_key_by_secret "good" ≡ none
unfolding updating store_getter Cache.get_api_key_by_secret
no_key = refl

unary-IsValidated_iff_example :
    (unary status
        (fronted to_u0
          (validated parse (ok keys) text_of_error mapper)
          (store_getter store)
          0
          text_of
          (Unit {0})
          models)
        health
        good_ctx
        "x"
        "/models.Models/GetModel"
        handler
      ≡ ok good_ctx)
    ↔ ((passed : Context) × IsValidated parse
          (ok keys)
          text_of_error
          mapper
          to_u0
          (store_getter store)
          0
          text_of
          (Unit {0})
          models
          good_ctx
          "/models.Models"
          get_model
          "good"
          passed
        × (handler passed "x" ≡ ok good_ctx))
unary-IsValidated_iff_example =
    unary-IsValidated_iff parse (ok keys) text_of_error mapper to_u0 (store_getter store) 0 text_of
      (Unit {0}) models good_ctx "/models.Models" get_model "good" plain good_token good_given
      models_named no_key status health "x" handler good_ctx refl

key_returns : (i : ℕ) (key : Key ℕ) → keys.get i ≡ some key → key.raw ≢ panic
key_returns zero key found panics = ground arith
key_returns (suc zero) key found panics = ground arith
key_returns (suc (suc i)) key found panics = ground arith

keys_return : Returns {Rsa = ℕ} (ok keys)
keys_return = record {
  fetch_returns = λ e. cc;
  raw_returns = λ set i key fetched found.
      key_returns i key (ap (λ (k : KeySet ℕ). k.get i) (ok-injective fetched) ∙ found);
}

unary-validated-ne-panic_example :
    unary {Url = Unit {0}} status
      (served to_u0
        (validated parse (ok keys) text_of_error mapper)
        (steady (store_getter store))
        0
        text_of
        (introspector-ne-panic parse (ok keys) text_of_error mapper keys_return)
        models
        none)
      health
      good_ctx
      "x"
      "/models.Models/GetModel"
      handler
    ≢ panic
unary-validated-ne-panic_example =
    unary-validated-ne-panic parse (ok keys) text_of_error mapper to_u0
      (steady (store_getter store)) 0 text_of {Url = Unit {0}} models none keys_return status health
      good_ctx "x" "/models.Models/GetModel" handler (λ passed e. cc)
