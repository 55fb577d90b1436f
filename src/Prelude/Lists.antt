-- ===== src/Prelude/Lists.antt =====
-- Sequences: predicates over their items, and the loops that only filter or search.
use Prim.Native.Nat.{ℕ, suc}
use mathlib.Core.Path.{◌≡◌, refl}
use mathlib.Core.Bool.{Bool, true}
use mathlib.Core.Logic.{◌⊎◌, inl, inr}
use mathlib.Core.Option.{Option, none, some}
use mathlib.Core.List.{List, [], ◌∷◌, ◌++◌, map}
use rbac_manager.Prelude.Tests.{if◌then◌else◌, Bool-cases}

module _ {ℓ} {A : Type ℓ} where
  abbrev pub length : List A → ℕ
  length [] = 0
  length (x ∷ xs) = suc (length xs)

  -- The items that pass a Boolean test, in order.
  abbrev pub keep : (A → Bool) → List A → List A
  keep p [] = []
  keep p (x ∷ xs) = let rest = keep p xs in if p x then x ∷ rest else rest

  -- The first item that passes.
  abbrev pub first : (A → Bool) → List A → Option A
  first p [] = none
  first p (x ∷ xs) = if p x then some x else first p xs

  -- The last item that passes.
  abbrev pub last : (A → Bool) → List A → Option A
  last p [] = none
  last p (x ∷ xs) = elim (last p xs) [ none ↦ if p x then some x else none | some y ↦ some y ]

module _ {ℓ κ} {A : Type ℓ} (P : A → Type κ) where
  abbrev pub All : List A → Type κ
  All [] = Unit
  All (x ∷ xs) = P x × All xs

  pub All-append : (xs ys : List A) → All xs → All ys → All (xs ++ ys)
  All-append [] ys _ k = k
  All-append (x ∷ xs) ys (p, h) k = (p, All-append xs ys h k)

-- Membership as a predicate that computes.
module _ {A : Type 0} where
  abbrev pub In : A → List A → Type 0
  In a [] = ⊥
  In a (x ∷ xs) = (a ≡ x) ⊎ In a xs

  pub In-append_left : (a : A) (xs ys : List A) → In a xs → In a (xs ++ ys)
  In-append_left a [] ys m = absurd m
  In-append_left a (x ∷ xs) ys (inl e) = inl e
  In-append_left a (x ∷ xs) ys (inr m) = inr (In-append_left a xs ys m)

  pub In-append_right : (a : A) (xs ys : List A) → In a ys → In a (xs ++ ys)
  In-append_right a [] ys m = m
  In-append_right a (x ∷ xs) ys m = inr (In-append_right a xs ys m)

  pub In-append : (a : A) (xs ys : List A) → In a (xs ++ ys) → In a xs ⊎ In a ys
  In-append a [] ys m = inr m
  In-append a (x ∷ xs) ys (inl e) = inl (inl e)
  In-append a (x ∷ xs) ys (inr m) = elim (In-append a xs ys m) [
    | inl l ↦ inl (inr l)
    | inr r ↦ inr r
  ]

  pub All-In {κ} : (P : A → Type κ) (a : A) (xs : List A) → All P xs → In a xs → P a
  All-In P a [] h m = absurd m
  All-In P a (x ∷ xs) (p, h) (inl e) = rw e p
  All-In P a (x ∷ xs) (p, h) (inr m) = All-In P a xs h m

module _ {A B : Type 0} {p : B → Bool} {f : B → A} {a : A} where
  -- What is found in the tail is found in the list.
  later_item :
      (x : B) (xs : List B)
      → (y : B) × In y xs × (p y ≡ true) × (a ≡ f y)
      → (y : B) × In y (x ∷ xs) × (p y ≡ true) × (a ≡ f y)
  later_item x xs (y, m, t, e) = (y, inr m, t, e)

module _ {A B : Type 0} (p : B → Bool) (f : B → A) (a : A) where
  -- Where an item of a filtered and mapped list comes from.
  pub In-map-keep :
      (xs : List B) → In a (map f (keep p xs)) → (x : B) × In x xs × (p x ≡ true) × (a ≡ f x)
  In-map-keep [] m = absurd m
  In-map-keep (x ∷ xs) m = elim (Bool-cases (p x)) [
    | inl here ↦
        let m' : In a (f x ∷ map f (keep p xs)) = rw here at m in
        elim m' [
          | inl e ↦ (x, inl refl, here, e)
          | inr later ↦ later_item x xs (In-map-keep xs later)
        ]
    | inr other ↦ later_item x xs (In-map-keep xs (rw other at m))
  ]

-- Where an item of a mapped list comes from.
pub In-map :
    {A B : Type 0} (f : A → B) (b : B) (xs : List A)
    → In b (map f xs)
    → (a : A) × In a xs × (b ≡ f a)
In-map f b [] i = absurd i
In-map f b (x ∷ xs) (inl same) = (x, inl refl, same)
In-map f b (x ∷ xs) (inr later) = let (a, i, is) = In-map f b xs later in (a, inr i, is)
