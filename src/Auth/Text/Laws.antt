-- ===== src/Auth/Text/Laws.antt =====
-- What the functions on method names and headers compute.
use Prim.Native.String.{String, ◌++◌}
use text.Mathlib.TextPositions.{starts_with-append, len-append, slice-append_right}
use text.Mathlib.Text.{starts_with}
use text.Mathlib.TextEquality.{starts_with_iff}
use rbac_manager.Prelude.{
  List, [], ◌∷◌, false, some, ◌≡◌, ◌≢◌, ◌↔◌, ◌⊎◌, sym, ap, ◌∙◌, inl, inr, Bool-cases, arith, refl,
}
use rbac_manager.Auth.Text.{trim_prefix, split_slash, last_part}

-- `strings.TrimPrefix` takes away a prefix that is there.
pub trim_prefix-append : (prefix s : String) → trim_prefix (prefix ++ s) prefix ≡ s
unfolding trim_prefix
trim_prefix-append prefix s =
    rw (starts_with-append prefix s) (rw (len-append prefix s) (slice-append_right prefix s))

split_slash-ne-nil : (s : String) → split_slash s ≢ []
unfolding split_slash
split_slash-ne-nil String.[] e = cc
split_slash-ne-nil (String.◌∷◌ c s) e = ground arith

last_of : (parts : List String) → parts ≢ [] → (m : String) × (last_part parts ≡ some m)
unfolding last_part
last_of [] nonempty = absurd (nonempty refl)
last_of (part ∷ []) nonempty = (part, refl)
last_of (_ ∷ part ∷ parts) nonempty = last_of (part ∷ parts) λ e. cc

-- `strings.Split` gives at least one part, so there is a last one.
pub last_part-split_slash : (s : String) → (m : String) × (last_part (split_slash s) ≡ some m)
last_part-split_slash s = last_of (split_slash s) (split_slash-ne-nil s)

-- `rest` is the text without the prefix, where it begins with it, and the text itself elsewhere.
abbrev pub IsWithout : (prefix s rest : String) → Type 0
IsWithout prefix s rest = (s ≡ prefix ++ rest) ⊎ ((starts_with s prefix ≡ false) × (s ≡ rest))

pub trim_prefix_iff :
    (prefix s rest : String) → (trim_prefix s prefix ≡ rest) ↔ IsWithout prefix s rest
unfolding trim_prefix
trim_prefix_iff prefix s rest = (to, from)
  where
    to : trim_prefix s prefix ≡ rest → IsWithout prefix s rest
    to e = elim (Bool-cases (starts_with s prefix)) [
      | inr other ↦ inr (other, ground arith)
      | inl begins ↦
          let (u, is) = (starts_with_iff s prefix).0 begins in
          let trims : trim_prefix s prefix ≡ u =
            ap (λ x. trim_prefix x prefix) (sym is) ∙ trim_prefix-append prefix u in
          inl (sym is ∙ ap (λ x. prefix ++ x) (sym trims ∙ e))
    ]

    from : IsWithout prefix s rest → trim_prefix s prefix ≡ rest
    from (inl is) = ap (λ x. trim_prefix x prefix) is ∙ trim_prefix-append prefix rest
    from (inr (other, is)) = ground arith
