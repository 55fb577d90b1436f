-- ===== src/Token/Validator/Keys.antt =====
-- `validate`: the keys of the set are tried in order.
use rbac_manager.Prelude.{
  ℕ, zero, suc, ◌+◌, ◌≤◌, ◌<◌, String, true, false, Option, none, some, ◌≡◌, ◌↔◌, ap, ◌∙◌, arith,
  inl, inr, Option-cases,
}
use mathlib.Core.Path.{subst}
use native.Mathlib.Decide.{dec_le}
use rbac_manager.Outcome.{ok, Outcome-cases}
use rbac_manager.Token.Validator.{
  rsa, other, Key, KeySet, JwtToken, try_key, validate_from, validate,
}

module _ {Rsa : Type 0} (parse : String → Rsa → Option JwtToken) (token : String) where
  -- The key at `i` is an RSA key that the token is valid under.
  pub record AcceptsAt (set : KeySet Rsa) (t : JwtToken) (i : ℕ) : Type 0 where
    pub key : Key Rsa
    pub k : Rsa
    pub found : set.get i ≡ some key
    pub is_rsa : key.raw ≡ ok (rsa k)
    pub parsed : parse token k ≡ some t
    pub valid : t.valid ≡ true

  -- The key at `i` is an RSA key that the token is not valid under.
  pub record PassesOver (set : KeySet Rsa) (i : ℕ) : Type 0 where
    pub key : Key Rsa
    pub k : Rsa
    pub found : set.get i ≡ some key
    pub is_rsa : key.raw ≡ ok (rsa k)
    pub not_valid : (t : JwtToken) → parse token k ≡ some t → t.valid ≡ false

  -- The key at `i`, which lies between `start` and `stop`, is the first that accepts the token.
  pub record IsFirst (set : KeySet Rsa) (t : JwtToken) (start stop : ℕ) : Type 0 where
    pub i : ℕ
    pub lower : start ≤ i
    pub upper : i < stop
    pub accepts : AcceptsAt set t i
    pub earlier : (j : ℕ) → start ≤ j → j < i → PassesOver set j

  try-accepts :
      (set : KeySet Rsa) (t : JwtToken) (i : ℕ) (key : Key Rsa)
      → set.get i ≡ some key
      → try_key parse token key ≡ ok (some t)
      → AcceptsAt set t i
  unfolding try_key
  try-accepts set t i key found e = elim (Outcome-cases key.raw) [
    | inr (inl (x, is)) ↦ absurd (ground arith)
    | inr (inr is) ↦ absurd (ground arith)
    | inl (other name, is) ↦ absurd (ground arith)
    | inl (rsa k, is) ↦ elim (Option-cases (parse token k)) [
      | inl missing ↦ absurd (ground arith)
      | inr (u, parsed) ↦ record {
        key = key;
        k = k;
        found = found;
        is_rsa = is;
        parsed = ground arith;
        valid = ground arith;
      }
    ]
  ]

  try-passes :
      (set : KeySet Rsa) (i : ℕ) (key : Key Rsa)
      → set.get i ≡ some key
      → try_key parse token key ≡ ok none
      → PassesOver set i
  unfolding try_key
  try-passes set i key found e = elim (Outcome-cases key.raw) [
    | inr (inl (x, is)) ↦ absurd (ground arith)
    | inr (inr is) ↦ absurd (ground arith)
    | inl (other name, is) ↦ absurd (ground arith)
    | inl (rsa k, is) ↦ record {
      key = key;
      k = k;
      found = found;
      is_rsa = is;
      not_valid = λ u parsed. ground arith;
    }
  ]

  accepts-try :
      (set : KeySet Rsa) (t : JwtToken) (i : ℕ) (a : AcceptsAt set t i)
      → try_key parse token a.key ≡ ok (some t)
  unfolding try_key
  accepts-try set t i a = ground (arith, a.is_rsa, a.parsed, a.valid)

  passes-try :
      (set : KeySet Rsa) (i : ℕ) (p : PassesOver set i) → try_key parse token p.key ≡ ok none
  unfolding try_key
  passes-try set i p = elim (Option-cases (parse token p.k)) [
    | inl missing ↦ ground (arith, p.is_rsa)
    | inr (t, parsed) ↦ ground (arith, p.is_rsa, p.not_valid t parsed)
  ]

  from_sound :
      (set : KeySet Rsa) (t : JwtToken) (rounds i : ℕ)
      → validate_from parse token set rounds i ≡ ok t
      → IsFirst set t i (i + rounds)
  unfolding validate_from
  from_sound set t zero i e = cc
  from_sound set t (suc rounds) i e = elim (Option-cases (set.get i)) [
    | inl missing ↦ absurd (ground arith)
    | inr (key, found) ↦ elim (Outcome-cases (try_key parse token key)) [
      | inr (inl (x, is)) ↦ absurd (ground arith)
      | inr (inr is) ↦ absurd (ground arith)
      | inl (some u, is) ↦
          let same : u ≡ t = ground arith in
          record {
            i = i;
            lower = omega arith;
            upper = omega arith;
            accepts = try-accepts set t i key found (is ∙ ap (λ v. ok (some v)) same);
            earlier = λ j above below. absurd (omega arith);
          }
      | inl (none, is) ↦
          let later = from_sound set t rounds (i + 1) (ground arith) in
          record {
            i = later.i;
            lower = omega (arith, later.lower);
            upper = omega (arith, later.upper);
            accepts = later.accepts;
            earlier = λ j above below. elim (dec_le (i + 1) j) [
              | yes after ↦ later.earlier j after below
              | no here ↦ subst (PassesOver set) (omega arith) (try-passes set i key found is)
            ];
          }
    ]
  ]

  from_complete :
      (set : KeySet Rsa) (t : JwtToken) (rounds i : ℕ)
      → IsFirst set t i (i + rounds)
      → validate_from parse token set rounds i ≡ ok t
  unfolding validate_from
  from_complete set t zero i f = absurd (omega (arith, f.lower, f.upper))
  from_complete set t (suc rounds) i f = elim (dec_le (i + 1) f.i) [
    | no here ↦
        let same : f.i ≡ i = omega (arith, f.lower) in
        let a : AcceptsAt set t i = subst (AcceptsAt set t) same f.accepts in
        ground (arith, a.found, accepts-try set t i a)
    | yes after ↦
        let p = f.earlier i (omega arith) (omega arith) in
        ground (
          arith,
          p.found,
          passes-try set i p,
          from_complete set t rounds (i + 1) (record {
            i = f.i;
            lower = after;
            upper = omega (arith, f.upper);
            accepts = f.accepts;
            earlier = λ j above below. f.earlier j (omega arith) below;
          }),
        )
  ]

  -- With the key set `set`, `validate` returns the token `t` exactly when `t` is what some key of the
  -- set makes of the text, as a valid token, and all keys before it are RSA keys under which the
  -- text is no valid token.
  pub validate_iff :
      (set : KeySet Rsa) (t : JwtToken)
      → (validate parse (ok set) token ≡ ok t) ↔ IsFirst set t 0 set.len
  unfolding validate
  validate_iff set t = (
    λ e. subst (IsFirst set t 0) (omega arith) (from_sound set t set.len 0 e),
    λ f. from_complete set t set.len 0 (subst (IsFirst set t 0) (omega arith) f),
  )
