-- ===== src/Outcome/Loops.antt =====
-- `for` loops whose body may leave the function with an error, or panic.
use rbac_manager.Prelude.{◌≡◌, refl, List, [], ◌∷◌, arith, In, inl, inr}
use rbac_manager.Outcome.{Outcome, ok, ◌>>=◌, >>=-then}

module _ {E S A : Type 0} where
  -- `for _, x := range xs { body }`, where the body updates the variables `s`.
  unfoldable pub for_each : (S → A → Outcome E S) → S → List A → Outcome E S
  for_each body s [] = ok s
  for_each body s (x ∷ xs) = body s x >>= λ s'. for_each body s' xs

  -- What the body keeps, the loop keeps.
  pub for_each_inv {κ} :
      (P : S → Type κ) (body : S → A → Outcome E S)
      → ((s s' : S) (x : A) → P s → body s x ≡ ok s' → P s')
      → (s s' : S) (xs : List A) → P s
      → for_each body s xs ≡ ok s'
      → P s'
  unfolding for_each
  for_each_inv P body step s s' [] h e = ground arith
  for_each_inv P body step s s' (x ∷ xs) h e =
      >>=-then (body s x) (λ t. for_each body t xs) e
        λ m here later. for_each_inv P body step m s' xs (step s m x h here) later

  -- A loop that ends well has run its body well on every item.
  pub for_each-In :
      (body : S → A → Outcome E S) (s s' : S) (xs : List A) (x : A)
      → for_each body s xs ≡ ok s'
      → In x xs
      → (m : S) × (m' : S) × (body m x ≡ ok m')
  unfolding for_each
  for_each-In body s s' [] x e i = absurd i
  for_each-In body s s' (y ∷ ys) x e i =
      >>=-then (body s y) (λ t. for_each body t ys) e
        λ m here later. elim i [
          | inl is ↦ (s, m, rw is here)
          | inr i' ↦ for_each-In body m s' ys x later i'
        ]

  -- A loop ends well if its body does, on every item, where the invariant holds.
  pub for_each-runs {κ} :
      (P : S → Type κ) (body : S → A → Outcome E S) (s : S) (xs : List A)
      → ((m : S) (x : A) → P m → In x xs → (m' : S) × (body m x ≡ ok m') × P m')
      → P s
      → (s' : S) × (for_each body s xs ≡ ok s') × P s'
  unfolding for_each
  for_each-runs P body s [] step h = (s, refl, h)
  for_each-runs P body s (x ∷ xs) step h =
      let (m, here, h') = step s x h (inl refl) in
      let (s', later, h'') = for_each-runs P body m xs (λ t y k i. step t y k (inr i)) h' in
      (s', ground arith, h'')

  -- The same without an invariant.
  pub for_each-ok :
      (body : S → A → Outcome E S) (s : S) (xs : List A)
      → ((m : S) (x : A) → In x xs → (m' : S) × (body m x ≡ ok m'))
      → (s' : S) × (for_each body s xs ≡ ok s')
  for_each-ok body s xs step =
      let (s', runs, _) =
        for_each-runs (λ _. Unit {0}) body s xs
          (λ m x _ i. let (m', made) = step m x i in (m', made, tt)) tt in
      (s', runs)
