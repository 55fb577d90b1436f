-- ===== src/Token/Validator/Claims.antt =====
-- Which claim of a token is taken for what.
use rbac_manager.Prelude.{String, none, some, ◌≡◌, ◌↔◌, ◌⊎◌, arith}
use rbac_manager.Outcome.{ok}
use rbac_manager.GoMap.{GoMap, lookup}
use rbac_manager.Token.Validator.{ClaimValue, str, get_user_id, get_email}

-- The claim `first` is the string `v`; or it is absent, and the claim `sub` is.
abbrev pub Claims : String → GoMap ClaimValue → String → Type 0
Claims first claims v =
    (lookup first claims ≡ some (str v))
    ⊎ ((lookup first claims ≡ none) × (lookup "sub" claims ≡ some (str v)))

-- `getUserID` finds the string of the claim `uid`, or, only where there is no such claim, that of
-- the claim `sub`; `getEmail` does so with the claim `email`. In all other cases they fail.
pub Claims-iff :
    (claims : GoMap ClaimValue) (v : String)
    → ((get_user_id claims ≡ ok v) ↔ Claims "uid" claims v)
      × ((get_email claims ≡ ok v) ↔ Claims "email" claims v)
unfolding get_user_id get_email
Claims-iff claims v = ground arith
