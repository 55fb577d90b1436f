-- ===== src/Server/Authorize/Revoked.antt =====
-- `Authorize` after an API key has been revoked.
use rbac_manager.Prelude.{ℕ, String, false, none, List, ◌∷◌, ◌++◌, ◌≡◌, ◌≢◌, ◌∙◌, ap, All, arith}
use rbac_manager.Outcome.{ok, panic}
use rbac_manager.Rbac.{AuthorizeRequest, AuthorizeResponse}
use rbac_manager.Token.{Introspection}
use rbac_manager.Cache.{Tables, new_store}
use rbac_manager.Cache.Sync.{Round, Event, sync}
use rbac_manager.Cache.Sync.Latest.{built, rounds}
use rbac_manager.Cache.Sync.Revoked.{IsUnlisted, sync-IsUnlisted}
use rbac_manager.Server.{CacheGetter, Server, store_getter}
use rbac_manager.Server.Reads.{History}
use rbac_manager.Server.Authorize.{authorize}
use rbac_manager.Server.Authorize.Grounds.{Grants}
use rbac_manager.Server.Authorize.Moments.{IsGrantedAt, key_found, plain_user, roles_found}
use rbac_manager.Server.Authorize.Moments.Decided.{authorize-IsGrantedAt}

module _ (normalize : String → String) (s : Server) (h : History) (req : AuthorizeRequest)
    (inactive : (is : Introspection)
      → s.token_introspector req.token ≡ ok is
      → is.active ≡ false) where
  -- A token that is neither a key of the cache nor active is no ground.
  unknown-IsGrantedAt :
      (n : ℕ) (r : AuthorizeResponse)
      → (h n).get_api_key_by_secret req.token ≡ none
      → ¬ IsGrantedAt normalize s h req n r
  unknown-IsGrantedAt n r missing (key_found key _ _ found _ _ _ _) = ground arith
  unknown-IsGrantedAt n r missing (plain_user is _ known _ _) =
      let no = inactive is known.introspected in let yes = known.active in ground arith
  unknown-IsGrantedAt n r missing (roles_found is _ _ _ _ known _ _ _ _ _) =
      let no = inactive is known.introspected in let yes = known.active in ground arith

  -- Once an update of the cache has succeeded whose listing has no API key of the secret, and no later
  -- listing has one again, whether the later updates succeed or fail: no request with this secret for
  -- its token is let through whose first read sees that cache, whatever the later reads see, if the
  -- introspection does not report the token as active and no listing makes `updateCache` panic.
  pub authorize-IsUnlisted :
      (first : Round) (events : List Event) (earlier : List Round) (revoking : Round)
      (later : List Round) (t : Tables) (n : ℕ)
      → built first ≢ panic
      → All (λ r. built r ≢ panic) (rounds events)
      → first ∷ rounds events ≡ earlier ++ revoking ∷ later
      → built revoking ≡ ok t
      → All (IsUnlisted req.token) (revoking ∷ later)
      → h n ≡ store_getter (sync first events new_store).1
      → (r : AuthorizeResponse) → ¬ Grants (authorize normalize s req h n).0 r
  unfolding store_getter
  authorize-IsUnlisted first events earlier revoking later t n no_panic no_panics is made gone sees
        r e =
      let missing =
        sync-IsUnlisted first events no_panic no_panics req.token earlier revoking later t is made
          gone in
      let reads = ap (λ (g : CacheGetter). g.get_api_key_by_secret req.token) sees in
      unknown-IsGrantedAt n r (reads ∙ missing)
        (((authorize-IsGrantedAt normalize s h req r n).0 e).1)
