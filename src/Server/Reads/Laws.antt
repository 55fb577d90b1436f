-- ===== src/Server/Reads/Laws.antt =====
-- How a run of a chain of reads splits into the runs of its parts.
use rbac_manager.Prelude.{ℕ, ◌≡◌, ◌≢◌, refl}
use rbac_manager.Outcome.{Outcome, ok, err, panic}
use rbac_manager.Server.Reads.{History, Action, continue, ◌>>=◌}

module _ {E A B : Type 0} where
  continue-then {κ} :
      {R : Type κ} (r : Outcome E A) (f : A → Action E B) (h : History) (n : ℕ) (b : B)
      → (continue r f h n).0 ≡ ok b
      → ((a : A) → r ≡ ok a → (f a h n).0 ≡ ok b → R)
      → R
  continue-then (ok a) f h n b e k = k a refl e
  continue-then (err x) f h n b e k = absurd (cc)
  continue-then panic f h n b e k = absurd (cc)

  -- A successful chain: its first part succeeds, and the rest goes on from there.
  pub bind-then {κ} :
      {R : Type κ} (m : Action E A) (f : A → Action E B) (h : History) (n : ℕ) (b : B)
      → ((m >>= f) h n).0 ≡ ok b
      → ((a : A) → (m h n).0 ≡ ok a → (f a h (m h n).1).0 ≡ ok b → R)
      → R
  unfolding ◌>>=◌
  bind-then m f h n b e k = continue-then (m h n).0 f h (m h n).1 b e k

  continue-ne-panic :
      (r : Outcome E A) (f : A → Action E B) (h : History) (n : ℕ)
      → r ≢ panic
      → ((a : A) → (f a h n).0 ≢ panic)
      → (continue r f h n).0 ≢ panic
  continue-ne-panic (ok a) f h n r_ne f_ne = f_ne a
  continue-ne-panic (err x) f h n r_ne f_ne = λ e. cc
  continue-ne-panic panic f h n r_ne f_ne = absurd (r_ne refl)

  -- A chain whose parts do not panic does not panic.
  pub bind-ne-panic :
      (m : Action E A) (f : A → Action E B) (h : History) (n : ℕ)
      → (m h n).0 ≢ panic
      → ((a : A) (k : ℕ) → (f a h k).0 ≢ panic)
      → ((m >>= f) h n).0 ≢ panic
  unfolding ◌>>=◌
  bind-ne-panic m f h n m_ne f_ne =
      continue-ne-panic (m h n).0 f h (m h n).1 m_ne (λ a. f_ne a (m h n).1)
