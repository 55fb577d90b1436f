-- ===== src/Cache/Sync/Revoked.antt =====
-- An API key that is no longer listed is no longer found.
use rbac_manager.Prelude.{
  ℕ, String, Bool, false, Option, none, some, List, [], ◌∷◌, ◌++◌, ◌≡◌, ◌≢◌, refl, ◌∙◌, ap, All,
  arith, inl, inr, last,
}
use rbac_manager.Outcome.{ok, panic, Outcome-cases}
use rbac_manager.UserManager.{InternalApiKey}
use rbac_manager.Cache
use rbac_manager.Cache.{Tables, Store, new_store}
use rbac_manager.Cache.Update.Built.{build_tables-Built}
use rbac_manager.Cache.Update.Contents.{has_secret, to_k, Built-Contains}
use rbac_manager.Cache.Sync.{Round, Event, sync}
use rbac_manager.Cache.Sync.Latest.{
  built, latest_or, showing, rounds, next, latest_or-cons, sync-latest,
}

-- Whatever the round lists, it lists no key of this secret.
abbrev pub IsUnlisted : String → Round → Type 0
IsUnlisted secret r =
    (keys : List InternalApiKey)
    → r.user_infos.list_internal_api_keys ≡ ok keys
    → All (λ k. has_secret secret k ≡ false) keys

last-All : {A : Type 0} (p : A → Bool) (xs : List A) → All (λ x. p x ≡ false) xs → last p xs ≡ none
last-All p [] h = refl
last-All p (x ∷ xs) (not_x, h) = ground (arith, last-All p xs h)

module _ (secret : String) where
  -- The tables that are shown have no key of this secret.
  abbrev Lacks : Option (Tables × ℕ) → Type 0
  Lacks x = Cache.get_api_key_by_secret (showing x) secret ≡ none

  built-Lacks :
      (r : Round) (t : Tables) → built r ≡ ok t → IsUnlisted secret r → Lacks (some (t, r.now))
  built-Lacks r t e gone =
      let c = showing (some (t, r.now)) in
      let b = build_tables-Built r.user_infos r.cluster_infos t e in
      let held = Built-Contains r.user_infos r.cluster_infos c b in
      held.key_of secret
      ∙ ap (λ x. elim x [ none ↦ none | some k ↦ to_k k ])
          (last-All (has_secret secret) b.api_keys (gone b.api_keys b.got_api_keys))

  next-Lacks :
      (x : Option (Tables × ℕ)) (r : Round) → Lacks x → IsUnlisted secret r → Lacks (next x r)
  next-Lacks x r h gone = elim (Outcome-cases (built r)) [
    | inl (t, is) ↦ let now = built-Lacks r t is gone in ground arith
    | inr (inl (e, is)) ↦ ground arith
    | inr (inr is) ↦ ground arith
  ]

  latest_or-Lacks :
      (x : Option (Tables × ℕ)) (rs : List Round)
      → Lacks x
      → All (IsUnlisted secret) rs
      → Lacks (latest_or x rs)
  latest_or-Lacks x [] h gone = h
  latest_or-Lacks x (r ∷ rs) h (g, gone) =
      let later = latest_or-Lacks (next x r) rs (next-Lacks x r h g) gone in
      rw (latest_or-cons x r rs) later

-- A round that succeeds makes the earlier ones irrelevant.
latest_or-append :
    (x : Option (Tables × ℕ)) (earlier : List Round) (r : Round) (later : List Round) (t : Tables)
    → built r ≡ ok t
    → latest_or x (earlier ++ r ∷ later) ≡ latest_or (some (t, r.now)) later
latest_or-append x [] r later t e =
    let to : next x r ≡ some (t, r.now) = ground arith in
    latest_or-cons x r later ∙ ap (λ y. latest_or y later) to
latest_or-append x (q ∷ earlier) r later t e =
    latest_or-cons x q (earlier ++ r ∷ later) ∙ latest_or-append (next x q) earlier r later t e

module _ (first : Round) (events : List Event) (no_panic : built first ≢ panic)
    (no_panics : All (λ r. built r ≢ panic) (rounds events)) where
  pub sync-IsUnlisted :
      (secret : String) (earlier : List Round) (r : Round) (later : List Round) (t : Tables)
      → first ∷ rounds events ≡ earlier ++ r ∷ later
      → built r ≡ ok t
      → All (IsUnlisted secret) (r ∷ later)
      → Cache.get_api_key_by_secret (sync first events new_store).1 secret ≡ none
  sync-IsUnlisted secret earlier r later t is e (gone, stay) =
      let shown = ap (λ p. p.1) (sync-latest first events no_panic no_panics) in
      let last = ap (latest_or none) is ∙ latest_or-append none earlier r later t e in
      let lacks =
        latest_or-Lacks secret (some (t, r.now)) later (built-Lacks secret r t e gone) stay in
      ap (λ c. Cache.get_api_key_by_secret c secret) (shown ∙ ap showing last) ∙ lacks
