-- ===== src/Auth/Text/Method.antt =====
-- The method that `Unary` finds in a full method name.
use mathlib.Core.Path.{subst}
use Prim.Native.Char.{Char, code}
use Prim.Native.String.{String, ◌++◌}
use text.Mathlib.TextLemmas.{nil-append, cons-append}
use rbac_manager.Prelude.{
  false, List, [], ◌∷◌, some, ◌≡◌, refl, sym, ap, ◌∙◌, arith, inl, inr, Bool-cases,
}
use rbac_manager.Prelude.Numbers.{nat_eq}
use rbac_manager.Auth.Text.{split_slash, last_part}

-- The text has no slash.
abbrev pub NoSlash : String → Type 0
NoSlash String.[] = Unit
NoSlash (String.◌∷◌ c s) = (nat_eq (code c) b'/' ≡ false) × NoSlash s

-- A text without a slash is its only part.
split_slash-NoSlash : (m : String) → NoSlash m → split_slash m ≡ m ∷ []
unfolding split_slash
split_slash-NoSlash String.[] h = refl
split_slash-NoSlash (String.◌∷◌ c s) (other, h) = ground (arith, split_slash-NoSlash s h)

-- At least two parts, the last of which is `m`.
record EndsIn (m : String) (parts : List String) : Type 0 where
  head : String
  second : String
  others : List String
  shape : parts ≡ head ∷ second ∷ others
  last : last_part (second ∷ others) ≡ some m

split_slash-step :
    (c : Char) (s m : String) → EndsIn m (split_slash s) → EndsIn m (split_slash (String.◌∷◌ c s))
unfolding split_slash last_part
split_slash-step c s m e = elim (Bool-cases (nat_eq (code c) b'/')) [
  | inl slash ↦ record {
    head = "";
    second = e.head;
    others = e.second ∷ e.others;
    shape = ground (arith, e.shape);
    last = e.last;
  }
  | inr other ↦ record {
    head = String.◌∷◌ c e.head;
    second = e.second;
    others = e.others;
    shape = ground (arith, e.shape);
    last = e.last;
  }
]

split_slash-slash : (m : String) → NoSlash m → EndsIn m (split_slash (String.◌∷◌ "/" m))
unfolding split_slash last_part
split_slash-slash m h = record {
  head = "";
  second = m;
  others = [];
  shape = ground (arith, split_slash-NoSlash m h);
  last = refl;
}

split_slash-EndsIn : (before m : String) → NoSlash m → EndsIn m (split_slash (before ++ ("/" ++ m)))
split_slash-EndsIn String.[] m h =
    let same : String.◌∷◌ "/" m ≡ "" ++ ("/" ++ m) =
      sym (nil-append ("/" ++ m) ∙ cons-append "/" "" m ∙ ap (String.◌∷◌ "/") (nil-append m)) in
    subst (λ (s : String). EndsIn m (split_slash s)) same (split_slash-slash m h)
split_slash-EndsIn (String.◌∷◌ c s) m h =
    subst (λ (t : String). EndsIn m (split_slash t)) (sym (cons-append c s ("/" ++ m)))
      (split_slash-step c (s ++ ("/" ++ m)) m (split_slash-EndsIn s m h))

-- The name of the method is what stands after the last slash.
pub last_part-split_slash-append :
    (before m : String) → NoSlash m → last_part (split_slash (before ++ ("/" ++ m))) ≡ some m
unfolding last_part
last_part-split_slash-append before m h =
    let e = split_slash-EndsIn before m h in ground (arith, e.shape, e.last)
