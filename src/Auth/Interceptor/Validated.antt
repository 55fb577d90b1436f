-- ===== src/Auth/Interceptor/Validated.antt =====
-- The interceptor in front of a server that introspects tokens with the validator of
-- server/internal/token/validator.go, as server/cmd/run.go puts them together.
pub mod Users
use rbac_manager.Prelude.{ℕ, String, Option, List, ◌≡◌, ◌≢◌, arith, inl, inr}
use rbac_manager.Outcome.{Outcome, panic, map_err, Outcome-cases}
use rbac_manager.GoMap.{GoMap}
use rbac_manager.Rbac.{Status}
use rbac_manager.Token.Validator.{KeySet, JwtToken, IntrospectError, token_introspect}
use rbac_manager.Token.Validator.Panics.{Returns, token_introspect-ne-panic}
use rbac_manager.Server.{Server}
use rbac_manager.Server.Reads.{History}
use rbac_manager.Auth.{Context}
use rbac_manager.Auth.Interceptor.{unary}
use rbac_manager.Auth.Interceptor.Served.{served, unary-served-ne-panic}

module _ {Rsa : Type 0} (parse : String → Rsa → Option JwtToken)
    (fetch : Outcome String (KeySet Rsa)) (text_of_error : IntrospectError → String)
    (mapper : GoMap (List String)) where
  -- `server.New` with the validator; `fetch` is what the key set's `Fetch` answers during the call.
  abbrev pub validated : Server
  validated = record {
    token_introspector = λ token. map_err text_of_error (token_introspect parse fetch token);
    role_scopes_mapper = mapper;
  }

  pub introspector-ne-panic :
      Returns fetch → (token : String) → validated.token_introspector token ≢ panic
  introspector-ne-panic returns token e =
      elim (Outcome-cases (token_introspect parse fetch token)) [
        | inl (is, done) ↦ absurd (ground arith)
        | inr (inl (x, failed)) ↦ absurd (ground arith)
        | inr (inr panics) ↦ absurd (token_introspect-ne-panic parse token fetch returns panics)
      ]

  module _ (normalize : String → String) (h : History) (n : ℕ) (text_of : Status → String)
      {Url : Type 0} (resource_of : String → String)
      (resource_of_http : Option (String → Url → String)) (returns : Returns fetch) where
    -- Where the fetch of the key set and `Raw` of its keys return, and the interceptor has a function for
    -- the resources of gRPC methods, a call whose handler does not panic does not panic on its way
    -- through the interceptor, the server and the validator either, whatever it carries, whatever the
    -- keys and the claims are, and whatever updates of the cache fall into it.
    pub unary-validated-ne-panic :
        {E Req Resp : Type 0} (status : Status → E) (exclude_methods : List String) (ctx : Context)
        (req : Req) (full_method : String) (handler : Context → Req → Outcome E Resp)
        → ((passed : Context) → handler passed req ≢ panic)
        → unary status
            (served normalize validated h n text_of
              (introspector-ne-panic returns)
              resource_of
              resource_of_http)
            exclude_methods
            ctx
            req
            full_method
            handler
          ≢ panic
    unary-validated-ne-panic =
        unary-served-ne-panic normalize validated h n text_of (introspector-ne-panic returns)
          resource_of resource_of_http
