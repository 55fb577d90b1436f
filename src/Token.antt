-- ===== src/Token.antt =====
-- server/internal/token/token.go: what a token introspection answers. `Validator` models
-- validator.go, the implementation of the client.
pub mod Validator
use rbac_manager.Prelude.{String, Bool, Option}

pub record IntrospectionExtra : Type 0 where
  pub email : String
  pub email_verified : Option Bool

pub record Introspection : Type 0 where
  pub active : Bool
  pub subject : String
  pub extra : IntrospectionExtra
