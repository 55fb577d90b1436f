-- ===== src/Server/Projects/Pick.antt =====
-- `pickProject`: the default project if there is one, else the first.
use rbac_manager.Prelude.{
  true, false, none, some, List, [], ◌∷◌, ◌++◌, ◌≡◌, ◌↔◌, ◌⊎◌, ap, refl, arith, All, inl, inr,
  Bool-cases, Option-cases,
}
use rbac_manager.Outcome.{ok, panic}
use rbac_manager.Cache.{P}
use rbac_manager.Server.Projects.{first_default, pick_project, pick_or, ProjectError}

abbrev pub NoDefault : List P → Type 0
NoDefault = All (λ q. q.is_default ≡ false)

-- `p` is the first default project of the list.
pub record IsDefaultOf (p : P) (ps : List P) : Type 0 where
  pub before : List P
  pub after : List P
  pub splits : ps ≡ before ++ p ∷ after
  pub earlier : NoDefault before
  pub default : p.is_default ≡ true

-- The list has no default project, and `p` is its first one.
pub record IsFirstOf (p : P) (ps : List P) : Type 0 where
  pub after : List P
  pub splits : ps ≡ p ∷ after
  pub plain : NoDefault ps

abbrev pub IsPick : P → List P → Type 0
IsPick p ps = IsDefaultOf p ps ⊎ IsFirstOf p ps

first_default-IsDefaultOf : (ps : List P) (p : P) → first_default ps ≡ some p → IsDefaultOf p ps
unfolding first_default
first_default-IsDefaultOf [] p e = cc
first_default-IsDefaultOf (q ∷ qs) p e = elim (Bool-cases q.is_default) [
  | inl here ↦
      let same : q ≡ p = ground arith in
      record {
        before = [];
        after = qs;
        splits = ap (λ x. x ∷ qs) same;
        earlier = tt;
        default = ground arith;
      }
  | inr later ↦
      let d : IsDefaultOf p qs = first_default-IsDefaultOf qs p (ground arith) in
      record {
        before = q ∷ d.before;
        after = d.after;
        splits = ap (◌∷◌ q) d.splits;
        earlier = (later, d.earlier);
        default = d.default;
      }
]

append-cons-ne-nil : (xs : List P) (p : P) (ys : List P) → [] ≡ xs ++ p ∷ ys → ⊥
append-cons-ne-nil [] p ys e = cc
append-cons-ne-nil (x ∷ xs) p ys e = cc

first_default-none : (ps : List P) → first_default ps ≡ none → NoDefault ps
unfolding first_default
first_default-none [] e = tt
first_default-none (q ∷ qs) e = ground (arith, first_default-none qs)

first_default-append :
    (before : List P) (p : P) (after : List P)
    → NoDefault before
    → p.is_default ≡ true
    → first_default (before ++ p ∷ after) ≡ some p
unfolding first_default
first_default-append [] p after n d = ground arith
first_default-append (q ∷ qs) p after (n, ns) d =
    ground (arith, first_default-append qs p after ns d)

first_default-NoDefault : (ps : List P) → NoDefault ps → first_default ps ≡ none
unfolding first_default
first_default-NoDefault [] n = refl
first_default-NoDefault (q ∷ qs) (n, ns) = ground (arith, first_default-NoDefault qs ns)

IsPick-nil : (p : P) → IsPick p [] → ⊥
IsPick-nil p (inl d) = append-cons-ne-nil d.before p d.after d.splits
IsPick-nil p (inr f) = absurd (ground (arith, f.splits))

pick_project-IsPick : (ps : List P) (p : P) → pick_project ps ≡ ok p → IsPick p ps
unfolding pick_project
pick_project-IsPick [] p e = absurd (ground (arith, first_default-NoDefault [] tt))
pick_project-IsPick (q ∷ qs) p e = elim (Option-cases (first_default (q ∷ qs))) [
  | inr (d, found) ↦ inl (first_default-IsDefaultOf (q ∷ qs) p (ground arith))
  | inl missing ↦ inr (record {
    after = qs;
    splits = ap (λ x. x ∷ qs) (ground arith);
    plain = first_default-none (q ∷ qs) missing;
  })
]

IsPick-pick_project : (ps : List P) (p : P) → IsPick p ps → pick_project ps ≡ ok p
unfolding pick_project
IsPick-pick_project ps p (inl d) =
    ground (arith, d.splits, first_default-append d.before p d.after d.earlier d.default)
IsPick-pick_project ps p (inr f) = ground (arith, f.splits, first_default-NoDefault ps f.plain)

pick_project-panic_iff : (ps : List P) → (pick_project ps ≡ panic) ↔ (ps ≡ [])
unfolding pick_project
pick_project-panic_iff [] = (λ _. refl, λ _. ground (arith, first_default-NoDefault [] tt))
pick_project-panic_iff (q ∷ qs) =
    (λ e. ground (arith, Option-cases (first_default (q ∷ qs))), λ e. absurd (ground arith))

-- What `find_associated_project` does with the projects that it has collected.
pub pick_or_iff : (e : ProjectError) (ps : List P) (p : P) → (pick_or e ps ≡ ok p) ↔ IsPick p ps
unfolding pick_or
pick_or_iff e [] p = (λ h. absurd (cc), λ h. absurd (IsPick-nil p h))
pick_or_iff e (q ∷ qs) p = (pick_project-IsPick (q ∷ qs) p, IsPick-pick_project (q ∷ qs) p)

-- `pickProject` returns `p` exactly when `p` is the first default project of the list, or its
-- first project where no project is the default one; and it panics on the empty list only.
pub pick_project_iff :
    (ps : List P)
    → ((p : P) → (pick_project ps ≡ ok p) ↔ IsPick p ps) × ((pick_project ps ≡ panic) ↔ (ps ≡ []))
pick_project_iff ps =
    (λ p. (pick_project-IsPick ps p, IsPick-pick_project ps p), pick_project-panic_iff ps)
