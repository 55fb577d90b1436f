-- ===== src/Cache/Update/Folds.antt =====
-- What a read of the map finds after a loop of `updateCache`, by what one round of the loop does.
use rbac_manager.Prelude.{
  false, ◌∙◌, inl, inr, Bool-cases, Bool, true, Option, none, some, List, [], ◌∷◌, ◌++◌, ◌≡◌, sym,
  ap, map, if◌then◌else◌, arith, keep, first, last,
}
use mathlib.Core.List.{append_assoc, append-nil}
use rbac_manager.Outcome.{Outcome, ok, >>=-then, ok-injective}
use rbac_manager.Outcome.Loops.{for_each}
use rbac_manager.Cache.Update.{UpdateError}

module _ {A T V : Type 0} (p : A → Bool) (body : T → A → Outcome UpdateError T) where
  module _ (f : A → Option V) (read : T → Option V)
      (step : (m m' : T) (x : A) → body m x ≡ ok m' → read m' ≡ (if p x then f x else read m)) where
    -- Where each round overwrites, the last item counts.
    pub for_each-last :
        (m m' : T) (xs : List A)
        → for_each body m xs ≡ ok m'
        → read m' ≡ elim (last p xs) [ none ↦ read m | some x ↦ f x ]
    unfolding for_each
    for_each-last m m' [] e = ap read (sym (ok-injective e))
    for_each-last m m' (x ∷ xs) e =
        >>=-then (body m x) (λ t. for_each body t xs) e
          λ t here later.
            let ih = for_each-last t m' xs later in let s = step m t x here in ground arith

  module _ (f : A → Option V) (read : T → Option V)
      (old : (m m' : T) (x : A) (v : V) → body m x ≡ ok m' → read m ≡ some v → read m' ≡ some v)
      (new : (m m' : T) (x : A)
        → body m x ≡ ok m'
        → read m ≡ none
        → p x ≡ true
        → (v : V) × (read m' ≡ some v) × (f x ≡ some v))
      (other : (m m' : T) (x : A)
        → body m x ≡ ok m'
        → read m ≡ none
        → p x ≡ false
        → read m' ≡ none) where
    kept :
        (m m' : T) (v : V) (xs : List A)
        → for_each body m xs ≡ ok m'
        → read m ≡ some v
        → read m' ≡ some v
    unfolding for_each
    kept m m' v [] e has = ap read (sym (ok-injective e)) ∙ has
    kept m m' v (x ∷ xs) e has =
        >>=-then (body m x) (λ t. for_each body t xs) e
          λ t here later. kept t m' v xs later (old m t x v here has)

    -- Where no round overwrites, the first item counts.
    pub for_each-first :
        (m m' : T) (xs : List A)
        → for_each body m xs ≡ ok m'
        → read m ≡ none
        → read m' ≡ elim (first p xs) [ none ↦ none | some x ↦ f x ]
    unfolding for_each
    for_each-first m m' [] e empty = ap read (sym (ok-injective e)) ∙ empty
    for_each-first m m' (x ∷ xs) e empty =
        >>=-then (body m x) (λ t. for_each body t xs) e
          λ t here later. elim (Bool-cases (p x)) [
            | inl is ↦
                let (v, found, is_f) = new m t x here empty is in
                let k = kept t m' v xs later found in ground arith
            | inr not ↦
                let ih = for_each-first t m' xs later (other m t x here empty not) in ground arith
          ]

  module _ (f : A → Option V) (read : T → List V)
      (step : (m m' : T) (x : A)
        → body m x ≡ ok m'
        → map some (read m') ≡ map some (read m) ++ (if p x then f x ∷ [] else [])) where
    -- Where each round appends, all items count, in their order.
    pub for_each-all :
        (m m' : T) (xs : List A)
        → for_each body m xs ≡ ok m'
        → map some (read m') ≡ map some (read m) ++ map f (keep p xs)
    unfolding for_each
    for_each-all m m' [] e = ap (λ t. map some (read t)) (sym (ok-injective e)) ∙ sym (append-nil _)
    for_each-all m m' (x ∷ xs) e =
        >>=-then (body m x) (λ t. for_each body t xs) e
          λ t here later.
            let ih = for_each-all t m' xs later in
            let s = step m t x here in
            ground (
              arith,
              append_assoc (map some (read m)) (f x ∷ []) (map f (keep p xs)),
              append-nil (map some (read m)),
            )
