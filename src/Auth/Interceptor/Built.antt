-- ===== src/Auth/Interceptor/Built.antt =====
-- The interceptors that `NewInterceptor` makes.
use Prim.Native.String.{String}
use rbac_manager.Prelude.{
  false, Option, none, some, List, ◌≡◌, ◌≢◌, ◌↔◌, ◌⊎◌, refl, ap, ◌∙◌, arith, eq_iff, is_empty, ◌&&◌,
  inl, inr, Bool-cases, Option-cases,
}
use rbac_manager.Outcome.{Outcome, ok, panic, Outcome-cases}
use rbac_manager.Rbac.{Status}
use rbac_manager.Auth.{Context}
use rbac_manager.Auth.Text.Laws.{last_part-split_slash}
use rbac_manager.Auth.Interceptor.{
  Client, Config, Interceptor, new_interceptor, is_nil, extract_token_from_context, authorize_grpc,
  admit, unary, contains,
}

is_nil-or :
    {A B : Type 0} {x : Option A} {y : Option B}
    → ((x ≢ none) ⊎ (y ≢ none))
    → (is_nil x && is_nil y) ≡ false
is_nil-or {x = none} (inl set) = absurd (set refl)
is_nil-or {x = none} {y = none} (inr set) = absurd (set refl)
is_nil-or {x = none} {y = some _} (inr set) = refl
is_nil-or {x = some _} _ = refl

module _ {Url : Type 0} (new_client : String → Outcome String Client) (c : Config Url) where
  -- Where the functions of an interceptor come from: one resource for all requests, or the functions
  -- of the configuration, at least one of which is set.
  pub data IsBuilt (a : Interceptor Url) : Type 0 where
    static :
        (client : Client)
        → new_client c.rbac_server_addr ≡ ok client
        → c.access_resource ≢ ""
        → a ≡ record {
          client = client;
          resource_for_grpc_request = some (λ _. c.access_resource);
          resource_for_http_request = some (λ _ _. c.access_resource);
        }
        → IsBuilt a
    by_functions :
        (client : Client)
        → new_client c.rbac_server_addr ≡ ok client
        → c.access_resource ≡ ""
        → ((c.get_access_resource_for_grpc_request ≢ none)
            ⊎ (c.get_access_resource_for_http_request ≢ none))
        → a ≡ record {
          client = client;
          resource_for_grpc_request = c.get_access_resource_for_grpc_request;
          resource_for_http_request = c.get_access_resource_for_http_request;
        }
        → IsBuilt a

  new_interceptor-IsBuilt : (a : Interceptor Url) → new_interceptor new_client c ≡ ok a → IsBuilt a
  unfolding new_interceptor
  new_interceptor-IsBuilt a e = elim (Outcome-cases (new_client c.rbac_server_addr)) [
    | inr (inl (x, failed)) ↦ absurd (ground arith)
    | inr (inr panics) ↦ absurd (ground arith)
    | inl (client, made) ↦ elim (Bool-cases (is_empty c.access_resource)) [
      | inr set ↦
          static client made (ground (arith, eq_iff c.access_resource ""))
            (ground (arith, eq_iff c.access_resource ""))
      | inl unset ↦
          by_functions client made (ground (arith, eq_iff c.access_resource ""))
            (elim (Option-cases c.get_access_resource_for_grpc_request) [
              | inl is_none ↦ inr (λ also. ground arith)
              | inr (f, set) ↦ inl (λ unset. ground arith)
            ])
            (ground (arith, eq_iff c.access_resource ""))
    ]
  ]

  IsBuilt-new_interceptor : (a : Interceptor Url) → IsBuilt a → new_interceptor new_client c ≡ ok a
  unfolding new_interceptor
  IsBuilt-new_interceptor a (static client made set is) =
      ground (arith, eq_iff c.access_resource "")
  IsBuilt-new_interceptor a (by_functions client made unset some_set is) =
      ground (arith, eq_iff c.access_resource "", is_nil-or some_set)

  -- `NewInterceptor` succeeds, and returns `a`, exactly where a client is made for the address and `a`
  -- has one resource for all requests, which is not empty, or, where the configuration has no such
  -- resource, the functions of the configuration, at least one of which is set.
  pub new_interceptor_iff :
      (a : Interceptor Url) → (new_interceptor new_client c ≡ ok a) ↔ IsBuilt a
  new_interceptor_iff a = (new_interceptor-IsBuilt a, IsBuilt-new_interceptor a)

-- Without a function for gRPC requests there is nothing to call.
nil_getter :
    {Url E Req Resp : Type 0} (status : Status → E)
    → (a : Interceptor Url) → (exclude_methods : List String) → (ctx : Context) → (req : Req)
    → (full_method : String) → (handler : Context → Req → Outcome E Resp) → (token : String)
    → a.resource_for_grpc_request ≡ none
    → contains exclude_methods full_method ≡ false
    → extract_token_from_context ctx ≡ ok token
    → unary status a exclude_methods ctx req full_method handler ≡ panic
unfolding unary admit authorize_grpc
nil_getter status a exclude_methods ctx req full_method handler token nil listed has_token =
    ground (arith, nil, listed, has_token, last_part-split_slash full_method)

module _ {Url E Req Resp : Type 0} (new_client : String → Outcome String Client) (c : Config Url)
    (a : Interceptor Url) (status : Status → E) (exclude_methods : List String) (ctx : Context)
    (req : Req) (full_method : String) (handler : Context → Req → Outcome E Resp)
    (token : String) where
  -- A configuration without a resource, and without a function for gRPC requests, that
  -- `NewInterceptor` accepts: the interceptor panics at every gRPC call that is not excluded and
  -- carries a token.
  pub missing_getter-panics :
      new_interceptor new_client c ≡ ok a
      → c.access_resource ≡ ""
      → c.get_access_resource_for_grpc_request ≡ none
      → contains exclude_methods full_method ≡ false
      → extract_token_from_context ctx ≡ ok token
      → unary status a exclude_methods ctx req full_method handler ≡ panic
  missing_getter-panics made unset missing listed has_token =
      nil_getter status a exclude_methods ctx req full_method handler token
        (getter_of (new_interceptor-IsBuilt new_client c a made)) listed has_token
    where
      getter_of : IsBuilt new_client c a → a.resource_for_grpc_request ≡ none
      getter_of (static client m set is) = absurd (set unset)
      getter_of (by_functions client m u some_set is) =
          ap (λ (i : Interceptor Url). i.resource_for_grpc_request) is ∙ missing
