-- ===== src/Server/Authorize/Errors.antt =====
-- How `Authorize` ends, whatever updates of the cache fall into its run.
use Prim.Native.String
use rbac_manager.Prelude.{
  ℕ, suc, String, Bool, true, false, not, ◌&&◌, ◌||◌, Option, none, some, ◌≡◌, ◌≢◌, ◌⊎◌, refl,
  arith, eq_iff, is_empty, inl, inr, Bool-cases, Option-cases,
}
use rbac_manager.Outcome.{Outcome, ok, err, panic, Outcome-cases}
use rbac_manager.Rbac.{AuthorizeRequest, AuthorizeResponse, Status, invalid_argument, internal}
use rbac_manager.Token.{Introspection}
use rbac_manager.Cache.{K, U}
use rbac_manager.Server.{Server}
use rbac_manager.Server.Reads.{History, attempt, ◌>>=◌}
use rbac_manager.Server.Envs.{assigned_kubernetes_envs}
use rbac_manager.Server.Projects.{find_associated_project_and_roles, ProjectAndRoles}
use rbac_manager.Server.Projects.Panics.{find_associated_project_and_roles-ne-panic}
use rbac_manager.Server.Authorize.{
  authorize_key, authorize_in, authorize_user, authorize_token, authorize,
}

abbrev pub is_set {ℓ} : {A : Type ℓ} → Option A → Bool
is_set none = false
is_set (some a) = true

-- The call returns a response, and if that is marked as authorized, it has a user, an organization
-- and a project.
abbrev pub answers : Outcome Status AuthorizeResponse → Bool
answers (ok r) = not r.authorized || (is_set r.user && (is_set r.organization && is_set r.project))
answers _ = false

module _ (s : Server) (req : AuthorizeRequest) (h : History) where
  key_answers : (key : K) (n : ℕ) → answers (authorize_key s req key h n).0 ≡ true
  unfolding authorize_key assigned_kubernetes_envs ◌>>=◌
  key_answers key n = ground arith

  in_answers :
      (user_id : String) (u : U) (pr : ProjectAndRoles) (n : ℕ)
      → answers (authorize_in s req user_id u pr h n).0 ≡ true
  unfolding authorize_in assigned_kubernetes_envs ◌>>=◌
  in_answers user_id u pr n = ground arith

  user_answers :
      (user_id : String) (u : U) (n : ℕ) → answers (authorize_user s req user_id u h n).0 ≡ true
  unfolding authorize_user attempt ◌>>=◌
  user_answers user_id u n =
      let o = find_associated_project_and_roles user_id req.organization_id req.project_id in
      elim (Outcome-cases (o h n).0) [
        | inr (inl (x, failed)) ↦ ground arith
        | inr (inr failed) ↦ absurd (
            find_associated_project_and_roles-ne-panic h user_id req.organization_id req.project_id
              n failed)
        | inl (pr, found) ↦ ground (arith, in_answers user_id u pr (o h n).1)
      ]

module _ (normalize : String → String) (s : Server) (req : AuthorizeRequest) (h : History)
    (n : ℕ) where
  -- The failures of a call, by their causes.
  pub data Fails : Status → Type 0 where
    no_token :
        (e : Status)
        → req.token ≡ ""
        → e ≡ record { code = invalid_argument; message = "token is required" }
        → Fails e
    no_resource :
        (e : Status)
        → req.token ≢ ""
        → req.access_resource ≡ ""
        → e ≡ record { code = invalid_argument; message = "access resource is required" }
        → Fails e
    no_capability :
        (e : Status)
        → req.token ≢ ""
        → req.access_resource ≢ ""
        → req.capability ≡ ""
        → e ≡ record { code = invalid_argument; message = "capability is required" }
        → Fails e
    no_introspection :
        (e : Status) (text : String)
        → req.token ≢ ""
        → req.access_resource ≢ ""
        → req.capability ≢ ""
        → (h n).get_api_key_by_secret req.token ≡ none
        → s.token_introspector req.token ≡ err text
        → e ≡ record { code = internal; message = String.◌++◌ "failed to introspect token: " text }
        → Fails e

  token_answers :
      (is : Introspection) (k : ℕ)
      → s.token_introspector req.token ≡ ok is
      → answers (authorize_token normalize s req h k).0 ≡ true
  unfolding authorize_token ◌>>=◌
  token_answers is k e =
      let user_id = normalize is.extra.email in
      elim (Option-cases ((h k).get_user_by_id user_id)) [
        | inl missing ↦ ground arith
        | inr (u, known) ↦ ground (arith, user_answers s req h user_id u (suc k))
      ]

  token_fails :
      (text : String) (k : ℕ)
      → s.token_introspector req.token ≡ err text
      → (authorize_token normalize s req h k).0
        ≡ err
            (record { code = internal; message = String.◌++◌ "failed to introspect token: " text })
  unfolding authorize_token ◌>>=◌
  token_fails text k e = ground arith

  -- Once the request is found complete.
  authorize_complete :
      req.token ≢ ""
      → req.access_resource ≢ ""
      → req.capability ≢ ""
      → s.token_introspector req.token ≢ panic
      → (answers (authorize normalize s req h n).0 ≡ true)
        ⊎ ((e : Status) × ((authorize normalize s req h n).0 ≡ err e) × Fails e)
  unfolding authorize ◌>>=◌
  authorize_complete token resource capability no_panic =
      elim (Option-cases ((h n).get_api_key_by_secret req.token)) [
        | inr (key, found) ↦ inl (
            ground (
              arith,
              key_answers s req h key (suc n),
              eq_iff req.token "",
              eq_iff req.access_resource "",
              eq_iff req.capability "",
            ))
        | inl no_key ↦ elim (Outcome-cases (s.token_introspector req.token)) [
          | inr (inr panics) ↦ absurd (no_panic panics)
          | inl (is, known) ↦ inl (
              ground (
                arith,
                token_answers is (suc n) known,
                eq_iff req.token "",
                eq_iff req.access_resource "",
                eq_iff req.capability "",
              ))
          | inr (inl (text, failed)) ↦ inr (
            record { code = internal; message = String.◌++◌ "failed to introspect token: " text },
            ground (
              arith,
              token_fails text (suc n) failed,
              eq_iff req.token "",
              eq_iff req.access_resource "",
              eq_iff req.capability "",
            ),
            no_introspection _ text token resource capability no_key failed refl,
          )
        ]
      ]

  -- Where the introspection of tokens does not panic, every call of `Authorize` ends in one of two
  -- ways, whatever updates of the cache fall into its run. It returns a response, which has a user,
  -- an organization and a project if it is marked as authorized. Or it fails with the status for
  -- the first of token, resource and capability that is missing, or, for a complete request whose
  -- token is no API key's secret, with the status `internal` for an error of the introspection.
  pub authorize_ends :
      s.token_introspector req.token ≢ panic
      → (answers (authorize normalize s req h n).0 ≡ true)
        ⊎ ((e : Status) × ((authorize normalize s req h n).0 ≡ err e) × Fails e)
  unfolding authorize ◌>>=◌
  authorize_ends no_panic = elim (Bool-cases (is_empty req.token)) [
    | inl missing ↦ inr (_, ground arith, no_token _ ((eq_iff req.token "").0 missing) refl)
    | inr has_token ↦
        let token : req.token ≢ "" = ground (arith, eq_iff req.token "") in
        elim (Bool-cases (is_empty req.access_resource)) [
          | inl missing ↦ inr (
            _,
            ground arith,
            no_resource _ token ((eq_iff req.access_resource "").0 missing) refl,
          )
          | inr has_resource ↦
              let resource : req.access_resource ≢ "" =
                ground (arith, eq_iff req.access_resource "") in
              elim (Bool-cases (is_empty req.capability)) [
                | inl missing ↦ inr (
                  _,
                  ground arith,
                  no_capability _ token resource ((eq_iff req.capability "").0 missing) refl,
                )
                | inr has_capability ↦
                    authorize_complete token resource (ground (arith, eq_iff req.capability ""))
                      no_panic
              ]
        ]
  ]
