-- ===== src/Tests/Tokens.antt =====
-- Tokens over two keys, named by numbers; the text of a token is what the second key accepts.
use rbac_manager.Prelude.{
  ℕ, zero, suc, String, true, Option, none, some, [], ◌∷◌, ◌≡◌, ◌↔◌, refl, ◌==◌, if◌then◌else◌,
}
use rbac_manager.Outcome.{ok}
use rbac_manager.GoMap.{GoMap}
use rbac_manager.Token.{Introspection}
use rbac_manager.Token.Validator.{
  rsa, KeySet, JwtToken, ClaimValue, str, map_claims, get_user_id, get_email, validate,
  validate_from, try_key, introspect_claims, token_introspect,
}
use rbac_manager.Token.Validator.Introspect.{IsActive, token_introspect_iff}

abbrev claims : GoMap ClaimValue
claims = ("sub", str "sub0") ∷ ("email", str "u0@example.com") ∷ []

abbrev jwt : JwtToken
jwt = record { valid = true; claims = map_claims claims }

abbrev pub parse : String → ℕ → Option JwtToken
parse token zero = none
parse token (suc k) = if token == "good" then some jwt else none

abbrev pub keys : KeySet ℕ
keys = record {
  len = 2;
  get = elim [
    | zero ↦ some (record { raw = ok (rsa 0) })
    | suc i ↦ elim i [ zero ↦ some (record { raw = ok (rsa 1) }) | suc _ ↦ none ]
  ];
}

abbrev introspection : Introspection
introspection = record {
  active = true;
  subject = "sub0";
  extra = record { email = "u0@example.com"; email_verified = none };
}

validating : Unit {0}
unfolding validate validate_from try_key introspect_claims token_introspect get_user_id get_email
validating = tt

-- validator_test.go, TestGetUserID.
user_id_tests :
    (get_user_id (("uid", str "uid0") ∷ ("sub", str "sub0") ∷ []) ≡ ok "uid0")
    × (get_user_id (("sub", str "sub0") ∷ []) ≡ ok "sub0")
unfolding validating
user_id_tests = (refl, refl)

good_run : token_introspect parse (ok keys) "good" ≡ ok introspection
unfolding validating
good_run = refl

token_introspect_iff_example :
    ((token_introspect parse (ok keys) "good" ≡ ok introspection) × (introspection.active ≡ true))
    ↔ IsActive parse (ok keys) "good" introspection
token_introspect_iff_example = token_introspect_iff parse (ok keys) "good" introspection
