-- ===== src/Token/Validator/Panics.antt =====
-- `TokenIntrospect` never panics where the key set does not.
use rbac_manager.Prelude.{
  ℕ, zero, suc, ◌+◌, String, Option, some, ◌≡◌, ◌≢◌, refl, arith, inl, inr, Option-cases,
}
use rbac_manager.Outcome.{Outcome, ok, panic, Outcome-cases}
use rbac_manager.Token.Validator.{
  Key, KeySet, TokenClaims, JwtToken, ClaimValue, map_claims, other_claims, as_string, get_email,
  get_user_id, try_key, validate_from, validate, introspect_claims, token_introspect,
}
use rbac_manager.GoMap.{GoMap}

-- `Fetch` and the method `Raw` of its keys return.
pub record Returns {Rsa : Type 0} (fetch : Outcome String (KeySet Rsa)) : Type 0 where
  pub fetch_returns : fetch ≢ panic
  pub raw_returns :
      (set : KeySet Rsa) (i : ℕ) (key : Key Rsa)
      → fetch ≡ ok set
      → set.get i ≡ some key
      → key.raw ≢ panic

introspect_claims-ne-panic : (claims : GoMap ClaimValue) → introspect_claims claims ≢ panic
unfolding introspect_claims get_email get_user_id as_string
introspect_claims-ne-panic claims e = ground arith

module _ {Rsa : Type 0} (parse : String → Rsa → Option JwtToken) (token : String) where
  try_key-ne-panic : (key : Key Rsa) → key.raw ≢ panic → try_key parse token key ≢ panic
  unfolding try_key
  try_key-ne-panic key returns e = ground arith

  validate_from-ne-panic :
      (set : KeySet Rsa)
      → ((i : ℕ) (key : Key Rsa) → set.get i ≡ some key → key.raw ≢ panic)
      → (rounds i : ℕ) → validate_from parse token set rounds i ≢ panic
  unfolding validate_from
  validate_from-ne-panic set returns zero i e = cc
  validate_from-ne-panic set returns (suc rounds) i e = elim (Option-cases (set.get i)) [
    | inl missing ↦ absurd (ground arith)
    | inr (key, found) ↦ elim (Outcome-cases (try_key parse token key)) [
      | inl (tried, is_ok) ↦
          absurd (ground (arith, validate_from-ne-panic set returns rounds (i + 1)))
      | inr (inl (x, failed)) ↦ absurd (ground arith)
      | inr (inr panics) ↦ absurd (try_key-ne-panic key (returns i key found) panics)
    ]
  ]

  validate-ne-panic :
      (fetch : Outcome String (KeySet Rsa)) → Returns fetch → validate parse fetch token ≢ panic
  unfolding validate
  validate-ne-panic fetch returns e = elim (Outcome-cases fetch) [
    | inr (inl (x, failed)) ↦ absurd (ground arith)
    | inr (inr panics) ↦ absurd (returns.fetch_returns panics)
    | inl (set, fetched) ↦
        validate_from-ne-panic set (λ i key. returns.raw_returns set i key fetched) set.len 0
          (ground arith)
  ]

  pub token_introspect-ne-panic :
      (fetch : Outcome String (KeySet Rsa))
      → Returns fetch
      → token_introspect parse fetch token ≢ panic
  unfolding token_introspect
  token_introspect-ne-panic fetch returns e = elim (Outcome-cases (validate parse fetch token)) [
    | inr (inl (x, failed)) ↦ absurd (ground arith)
    | inr (inr panics) ↦ absurd (validate-ne-panic fetch returns panics)
    | inl (t, valid) ↦ claims_of t valid t.claims refl
  ]
    where
      claims_of :
          (t : JwtToken) → validate parse fetch token ≡ ok t → (c : TokenClaims) → t.claims ≡ c → ⊥
      claims_of t valid (map_claims claims) has =
          absurd (ground (arith, introspect_claims-ne-panic claims))
      claims_of t valid other_claims has = absurd (ground arith)
