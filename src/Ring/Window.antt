-- ===== src/Ring/Window.antt =====
-- The window of a ring under one write and one read.
use native.Mathlib.Nat.{mod-eq_of_lt}
use wos.Prelude.{ℕ, zero, suc, ◌+◌, ◌<◌, ◌≡◌, refl, ap, ◌⊎◌, [], ◌∷◌, ◌++◌, arith, length, update}
use wos.Ring.{next, window}

pub next_cases :
    (cap i : ℕ)
    → i < cap
    → ((i + 1 < cap) × (next cap i ≡ i + 1)) ⊎ ((i + 1 ≡ cap) × (next cap i ≡ 0))
unfolding next
next_cases cap i h = grind (arith, mod-eq_of_lt)

pub next-lt : (cap i : ℕ) → i < cap → next cap i < cap
next-lt cap i h = ground (arith, next_cases cap i h)

module _ {ℓ} {A : Type ℓ} (cap : ℕ) where
  -- A write just past the window adds its entry at the end.
  pub window-update :
      (n t i : ℕ) (a : A) (buf : ℕ → A)
      → t < cap
      → i < cap
      → n < cap
      → (t + n ≡ i) ⊎ (t + n ≡ i + cap)
      → window cap (suc n) t (update buf i a) ≡ window cap n t buf ++ a ∷ []
  unfolding window update
  window-update zero t i a buf ht hi hn m = ground arith
  window-update (suc n) t i a buf ht hi hn m =
      ground
        (arith, next_cases cap t ht, window-update n (next cap t) i a buf (next-lt cap t ht) hi)

  pub length-window : (n t : ℕ) (buf : ℕ → A) → length (window cap n t buf) ≡ n
  unfolding window
  length-window zero t buf = refl
  length-window (suc n) t buf = ap suc (length-window n (next cap t) buf)
