-- ===== src/Auth/Metadata/Carried.antt =====
-- Which headers are handed on.
use rbac_manager.Prelude.{
  String, none, some, List, [], ◌∷◌, ◌++◌, ◌≡◌, ◌↔◌, ◌⊎◌, inl, inr, refl, sym, ap, ◌∙◌, arith,
  Option-cases,
}
use mathlib.Core.List.{append_assoc, append-nil}
use rbac_manager.Outcome.{Outcome, ok, panic, ok-injective}
use rbac_manager.GoMap.{GoMap, lookup}
use rbac_manager.Auth.{Context}
use rbac_manager.Auth.Metadata.{
  append_to_outgoing_context, carry, carry_metadata, carry_metadata_from_http_header,
  metadata_headers, http_headers,
}

-- A header among these is present without a value.
abbrev pub HasEmpty : GoMap (List String) → List (String × String) → Type 0
HasEmpty md [] = ⊥
HasEmpty md ((_, key) ∷ headers) = (lookup key md ≡ some []) ⊎ HasEmpty md headers

-- The headers that are present, each with its first value.
abbrev pub first_values : GoMap (List String) → List (String × String) → List (String × String)
first_values md [] = []
first_values md ((header, key) ∷ headers) =
    let rest = first_values md headers in
    elim (lookup key md) [
      | none ↦ rest
      | some vs ↦ elim vs [ [] ↦ rest | v ∷ _ ↦ (header, v) ∷ rest ]
    ]

abbrev pub with_outgoing : Context → List (String × String) → Context
with_outgoing ctx pairs = record ctx { outgoing = ctx.outgoing ++ pairs }

-- How the loop ends: with the first values appended, or at a header without a value.
pub data Ends (md : GoMap (List String)) (headers : List (String × String)) (ctx : Context)
    {E : Type 0} (o : Outcome E Context) : Type 0 where
  carried :
      ¬ HasEmpty md headers
      → o ≡ ok (with_outgoing ctx (first_values md headers))
      → Ends md headers ctx o
  panics : HasEmpty md headers → o ≡ panic → Ends md headers ctx o

values-cases :
    (vs : List String) → (vs ≡ []) ⊎ ((v : String) × (others : List String) × (vs ≡ v ∷ others))
values-cases [] = inl refl
values-cases (v ∷ others) = inr (v, others, refl)

carry-Ends :
    {E : Type 0} (md : GoMap (List String)) (headers : List (String × String)) (ctx : Context)
    → Ends md headers ctx (carry {E = E} md headers ctx)
unfolding carry
carry-Ends md [] ctx =
    carried (λ i. i) (ap (λ l. ok (record ctx { outgoing = l })) (sym (append-nil ctx.outgoing)))
carry-Ends {E} md ((header, key) ∷ headers) ctx = elim (Option-cases (lookup key md)) [
  | inl missing ↦ elim (carry-Ends {E = E} md headers ctx) [
    | carried full e ↦
        carried (λ i. elim i [ inl h ↦ ground arith | inr j ↦ full j ]) (ground arith)
    | panics i e ↦ panics (inr i) (ground arith)
  ]
  | inr (vs, found) ↦ elim (values-cases vs) [
    | inl none_given ↦ panics (inl (ground arith)) (ground arith)
    | inr (v, others, is) ↦
        elim (carry-Ends {E = E} md headers (append_to_outgoing_context ctx header v)) [
          | carried full e ↦
              carried (λ i. elim i [ inl h ↦ ground arith | inr j ↦ full j ])
                (ground
                  (arith, append_assoc ctx.outgoing ((header, v) ∷ []) (first_values md headers)))
          | panics i e ↦ panics (inr i) (ground arith)
        ]
  ]
]

pub carry_iff :
    {E : Type 0} (md : GoMap (List String)) (headers : List (String × String)) (ctx : Context)
    → ((carry {E = E} md headers ctx ≡ panic) ↔ HasEmpty md headers)
      × ((after : Context)
          → (carry {E = E} md headers ctx ≡ ok after)
            ↔ (¬ HasEmpty md headers × (after ≡ with_outgoing ctx (first_values md headers))))
carry_iff {E} md headers ctx = elim (carry-Ends {E = E} md headers ctx) [
  | carried full e ↦ (
    (λ p. absurd (cc), λ i. absurd (full i)),
    λ after. (λ k. (full, sym (ok-injective (sym e ∙ k))), λ (_, is). e ∙ ap ok (sym is)),
  )
  | panics i e ↦ ((λ _. i, λ _. e), λ after. (λ k. absurd (cc), λ (full, _). absurd (full i)))
]

carry_metadata-carry :
    {E : Type 0} (md : GoMap (List String)) (ctx : Context)
    → ctx.incoming ≡ some md
    → carry_metadata {E = E} ctx ≡ carry md metadata_headers ctx
unfolding carry_metadata
carry_metadata-carry md ctx has_metadata = ground arith

pub carry_metadata_iff :
    {E : Type 0} (md : GoMap (List String)) (ctx : Context) (has_metadata : ctx.incoming ≡ some md)
    (header : GoMap (List String)) (http_ctx : Context)
    → (((carry_metadata {E = E} ctx ≡ panic) ↔ HasEmpty md metadata_headers)
        × ((after : Context)
            → (carry_metadata {E = E} ctx ≡ ok after) ↔ (
                ¬ HasEmpty md metadata_headers
                × (after ≡ with_outgoing ctx (first_values md metadata_headers)))))
      × (((carry_metadata_from_http_header {E = E} http_ctx header ≡ panic)
            ↔ HasEmpty header http_headers)
          × ((after : Context)
              → (carry_metadata_from_http_header {E = E} http_ctx header ≡ ok after) ↔ (
                  ¬ HasEmpty header http_headers
                  × (after ≡ with_outgoing http_ctx (first_values header http_headers)))))
unfolding carry_metadata_from_http_header
carry_metadata_iff md ctx has_metadata header http_ctx = (
  rw (carry_metadata-carry md ctx has_metadata) (carry_iff md metadata_headers ctx),
  carry_iff header http_headers http_ctx,
)
