-- ===== src/Server/Reads.antt =====
-- A handler reads the cache several times, and each read takes the lock of its own: between two
-- reads the sync loop may publish new tables. So a handler runs over a history, the cache as each
-- read finds it, and counts its reads.
pub mod Laws
use rbac_manager.Prelude.{ℕ, suc, Option, none, some}
use rbac_manager.Outcome.{Outcome, ok, err, panic}
use rbac_manager.Server.{CacheGetter}

abbrev pub History : Type 0
History = ℕ → CacheGetter

abbrev pub Action : Type 0 → Type 0 → Type 0
Action E A = History → ℕ → Outcome E A × ℕ

-- No update falls into the handler's run: all reads see the same tables.
abbrev pub steady : CacheGetter → History
steady g n = g

-- One read.
unfoldable pub ask : {E A : Type 0} → (CacheGetter → A) → Action E A
ask f h n = (ok (f (h n)), suc n)

-- An outcome that needs no read.
unfoldable pub lift : {E A : Type 0} → Outcome E A → Action E A
lift o h n = (o, n)

abbrev pub continue : {E A B : Type 0} → Outcome E A → (A → Action E B) → Action E B
continue (ok a) f h n = f a h n
continue (err e) f h n = (err e, n)
continue panic f h n = (panic, n)

infixl 5 ◌>>=◌
unfoldable pub ◌>>=◌ : {E A B : Type 0} → Action E A → (A → Action E B) → Action E B
unfolding ask lift
◌>>=◌ m f h n = let (r, k) = m h n in continue r f h k

-- `v, err := m(); if err != nil { return on_err }`, where the error is dropped.
abbrev pub recover : {E F A : Type 0} → Outcome E A → Outcome F (Option A)
recover (ok a) = ok (some a)
recover (err e) = ok none
recover panic = panic

unfoldable pub attempt : {E F A : Type 0} → Action E A → Action F (Option A)
attempt m h n = let (r, k) = m h n in (recover r, k)
