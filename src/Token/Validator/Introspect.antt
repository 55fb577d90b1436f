-- ===== src/Token/Validator/Introspect.antt =====
-- `TokenIntrospect`: when a token is active, and for whom.
use rbac_manager.Prelude.{String, true, Option, none, ◌≡◌, ◌↔◌, refl, sym, ap, ◌∙◌, arith, inl, inr}
use rbac_manager.Outcome.{Outcome, ok, Outcome-cases}
use rbac_manager.GoMap.{GoMap}
use rbac_manager.Token.{Introspection}
use rbac_manager.Token.Validator.{
  KeySet, JwtToken, ClaimValue, map_claims, other_claims, get_email, get_user_id, validate,
  introspect_claims, token_introspect,
}
use rbac_manager.Token.Validator.Claims.{Claims, Claims-iff}
use rbac_manager.Token.Validator.Keys.{IsFirst, validate_iff}

module _ {Rsa : Type 0} (parse : String → Rsa → Option JwtToken)
    (fetch : Outcome String (KeySet Rsa)) (token : String) (is : Introspection) where
  -- The token is valid under the first key that it can be tried with, and its claims name the
  -- subject and the email of `is`.
  pub record IsActive : Type 0 where
    pub set : KeySet Rsa
    pub t : JwtToken
    pub claims : GoMap ClaimValue
    pub email : String
    pub user_id : String
    pub fetched : fetch ≡ ok set
    pub accepted : IsFirst parse token set t 0 set.len
    pub has_claims : t.claims ≡ map_claims claims
    pub has_email : Claims "email" claims email
    pub has_user_id : Claims "uid" claims user_id
    pub result : is ≡ record {
      active = true;
      subject = user_id;
      extra = record { email = email; email_verified = none };
    }

  validate-fetched :
      (t : JwtToken) → validate parse fetch token ≡ ok t → (set : KeySet Rsa) × (fetch ≡ ok set)
  unfolding validate
  validate-fetched t e = elim (Outcome-cases fetch) [
    | inl (set, fetched) ↦ (set, fetched)
    | inr (inl (x, failed)) ↦ absurd (ground arith)
    | inr (inr panics) ↦ absurd (ground arith)
  ]

  claims_active :
      (t : JwtToken) (claims : GoMap ClaimValue)
      → validate parse fetch token ≡ ok t
      → t.claims ≡ map_claims claims
      → introspect_claims claims ≡ ok is
      → IsActive
  unfolding introspect_claims
  claims_active t claims v has e = elim (Outcome-cases (get_email claims)) [
    | inr (inl (x, failed)) ↦ absurd (ground arith)
    | inr (inr panics) ↦ absurd (ground arith)
    | inl (email, has_email) ↦ elim (Outcome-cases (get_user_id claims)) [
      | inr (inl (x, failed)) ↦ absurd (ground arith)
      | inr (inr panics) ↦ absurd (ground arith)
      | inl (user_id, has_user_id) ↦
          let (set, fetched) = validate-fetched t v in
          record {
            set = set;
            t = t;
            claims = claims;
            email = email;
            user_id = user_id;
            fetched = fetched;
            accepted =
                (validate_iff parse token set t).0
                  (ap (λ f. validate parse f token) (sym fetched) ∙ v);
            has_claims = has;
            has_email = (Claims-iff claims email).1.0 has_email;
            has_user_id = (Claims-iff claims user_id).0.0 has_user_id;
            result = ground arith;
          }
    ]
  ]

  active_sound : token_introspect parse fetch token ≡ ok is → is.active ≡ true → IsActive
  unfolding token_introspect
  active_sound e active = elim (Outcome-cases (validate parse fetch token)) [
    | inr (inl (x, failed)) ↦ absurd (ground arith)
    | inr (inr panics) ↦ absurd (ground arith)
    | inl (t, v) ↦
        elim t.claims as (λ c. t.claims ≡ c → IsActive) [
          | other_claims ↦ λ has. absurd (ground arith)
          | map_claims claims ↦ λ has. claims_active t claims v has (ground arith)
        ]
          refl
  ]

  active_complete : IsActive → (token_introspect parse fetch token ≡ ok is) × (is.active ≡ true)
  unfolding token_introspect introspect_claims
  active_complete a =
      let v : validate parse fetch token ≡ ok a.t =
        ap (λ f. validate parse f token) a.fetched
        ∙ (validate_iff parse token a.set a.t).1 a.accepted in
      let email = (Claims-iff a.claims a.email).1.1 a.has_email in
      let user_id = (Claims-iff a.claims a.user_id).0.1 a.has_user_id in
      (ground (arith, v, email, user_id, a.has_claims, a.result), ground (arith, a.result))

  -- `TokenIntrospect` reports an active token exactly when the key set could be fetched, the text is
  -- a valid token under a key of the set before which there are only RSA keys that it is not valid
  -- under, and its claims give an email and a user ID; these are then what it reports.
  pub token_introspect_iff :
      ((token_introspect parse fetch token ≡ ok is) × (is.active ≡ true)) ↔ IsActive
  token_introspect_iff = (λ (e, active). active_sound e active, active_complete)
