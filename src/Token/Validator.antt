-- ===== src/Token/Validator.antt =====
-- server/internal/token/validator.go. The libraries jwx (key sets) and jwt (tokens) are parameters:
-- what `Fetch` answers, the keys of a set, and what `jwt.Parse` makes of a token and a key.
pub mod Claims
pub mod Keys
pub mod Introspect
pub mod Panics
use Prim.Native.String
use rbac_manager.Prelude.{
  ℕ, zero, suc, ◌+◌, String, Bool, true, false, Option, none, some, ◌==◌, if◌then◌else◌,
}
use rbac_manager.Prelude.Int.{ℤ, is_positive}
use rbac_manager.Outcome.{Outcome, ok, err, panic, ◌>>=◌, map_err}
use rbac_manager.GoMap.{GoMap, lookup}
use rbac_manager.Token.{Introspection}

pub record ValidatorOpts : Type 0 where
  pub refresh : ℤ

-- The URL of the key set, and the interval of its refreshes, if the library's own is not used.
pub record Validator : Type 0 where
  pub url : String
  pub refresh_interval : Option ℤ

-- `refresh_keys` is the first `Refresh` of a `jwk.AutoRefresh` with that interval.
unfoldable pub new_validator :
    (refresh_keys : String → Option ℤ → Outcome String (Unit {0}))
    → String
    → ValidatorOpts
    → Outcome String Validator
new_validator refresh_keys url opts =
    let interval = if is_positive opts.refresh then some opts.refresh else none in
    refresh_keys url interval >>= λ _. ok (record { url = url; refresh_interval = interval })

-- A raw key: an `*rsa.PublicKey`, or of another type, which is given by its name.
pub data RawKey (Rsa : Type 0) : Type 0 where
  rsa : Rsa → RawKey Rsa
  other : (type_name : String) → RawKey Rsa

-- A key of a set, by what `Raw` answers.
pub record Key (Rsa : Type 0) : Type 0 where
  pub raw : Outcome String (RawKey Rsa)

-- A `jwk.Set`: `Len` and `Get`.
pub record KeySet (Rsa : Type 0) : Type 0 where
  pub len : ℕ
  pub get : ℕ → Option (Key Rsa)

-- The value of a claim: a string, or of another type, which is given by its name.
pub data ClaimValue : Type 0 where
  str : String → ClaimValue
  not_str : (type_name : String) → ClaimValue

pub data TokenClaims : Type 0 where
  map_claims : GoMap ClaimValue → TokenClaims
  other_claims : TokenClaims

pub record JwtToken : Type 0 where
  pub valid : Bool
  pub claims : TokenClaims

pub data ValidateError : Type 0 where
  fetch_failed raw_failed : String → ValidateError
  out_of_range : (idx keys : ℕ) → ValidateError
  unknown_key_type : (type_name : String) → ValidateError
  no_key : ValidateError

-- The errors of `getUserID` and `getEmail`.
pub data ClaimError : Type 0 where
  missing : ClaimError
  unexpected_type : (type_name : String) → ClaimError

pub data IntrospectError : Type 0 where
  unexpected_claims : IntrospectError
  no_email no_user_id : ClaimError → IntrospectError

unfoldable pub as_string : ClaimValue → Outcome ClaimError String
as_string (str v) = ok v
as_string (not_str t) = err (unexpected_type t)

unfoldable pub get_user_id : GoMap ClaimValue → Outcome ClaimError String
unfolding as_string
get_user_id claims = elim (lookup "uid" claims) [
  | some user_id ↦ as_string user_id
  | none ↦ elim (lookup "sub" claims) [ some user_id ↦ as_string user_id | none ↦ err missing ]
]

unfoldable pub get_email : GoMap ClaimValue → Outcome ClaimError String
unfolding as_string
get_email claims = elim (lookup "email" claims) [
  | some email ↦ as_string email
  | none ↦ elim (lookup "sub" claims) [ some email ↦ as_string email | none ↦ err missing ]
]

-- `TokenIntrospect` from the claims on.
unfoldable pub introspect_claims : GoMap ClaimValue → Outcome IntrospectError Introspection
introspect_claims claims = do
  email ← map_err no_email (get_email claims)
  user_id ← map_err no_user_id (get_user_id claims)
  ok (record {
    active = true;
    subject = user_id;
    extra = record { email = email; email_verified = none };
  })

-- `parse` is `jwt.Parse` with a key function that returns the key: the token, or nil; its error is
-- dropped. `fetch` is what `v.ar.Fetch` answers at the call.
module _ {Rsa : Type 0} (parse : String → Rsa → Option JwtToken) where
  -- One round of the loop of `validate`: the token, `none` to go on with the next key, or an error.
  unfoldable pub try_key : String → Key Rsa → Outcome ValidateError (Option JwtToken)
  try_key token key = map_err raw_failed key.raw >>= λ raw_key. elim raw_key [
    | other type_name ↦ err (unknown_key_type type_name)
    | rsa k ↦ elim (parse token k) [
      | none ↦ ok none
      | some t ↦ if t.valid then ok (some t) else ok none
    ]
  ]

  -- `for i := ...; i < set.Len(); i++`, with `rounds` keys to go.
  unfoldable pub validate_from :
      String → KeySet Rsa → (rounds i : ℕ) → Outcome ValidateError JwtToken
  validate_from token set zero i = err no_key
  validate_from token set (suc rounds) i =
      let rest = validate_from token set rounds (i + 1) in
      elim (set.get i) [
        | none ↦ err (out_of_range i set.len)
        | some key ↦ try_key token key >>= λ found. elim found [ some t ↦ ok t | none ↦ rest ]
      ]

  unfoldable pub validate : Outcome String (KeySet Rsa) → String → Outcome ValidateError JwtToken
  validate fetch token = do set ← map_err fetch_failed fetch; validate_from token set set.len 0

  unfoldable pub token_introspect :
      Outcome String (KeySet Rsa) → String → Outcome IntrospectError Introspection
  token_introspect fetch token = elim (validate fetch token) [
    | ok t ↦ elim t.claims [
      | map_claims claims ↦ introspect_claims claims
      | other_claims ↦ err unexpected_claims
    ]
    | err _ ↦ ok (record {
      active = false;
      subject = "";
      extra = record { email = ""; email_verified = none };
    })
    | panic ↦ panic
  ]
