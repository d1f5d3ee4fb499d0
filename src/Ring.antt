-- ===== src/Ring.antt =====
-- The ring buffer that kernel/fs/pipe.c and each direction of kernel/fs/socket.c are built on: an
-- array of `cap` entries, the position of the next write, that of the next read, and a count.
-- The sources write these few lines out at each use; here they stand once, over any entry type.
mod Window
pub mod Laws
use wos.Prelude.{
  ℕ, zero, suc, ◌+◌, ◌-◌, ◌%◌, ◌≤◌, ◌<◌, ◌≡◌, ◌⊎◌, List, [], ◌∷◌, ltb, ◌==◌, if◌then◌else◌, update,
}

pub record Ring {ℓ} (A : Type ℓ) : Type ℓ where
  pub buf : ℕ → A
  pub head : ℕ
  pub tail : ℕ
  pub count : ℕ

abbrev pub empty {ℓ} : {A : Type ℓ} → A → Ring A
empty a = record { buf = λ _. a; head = 0; tail = 0; count = 0 }

-- `i = (i + 1) % cap`
unfoldable pub next : ℕ → ℕ → ℕ
next cap i = (i + 1) % cap

module _ {ℓ} {A : Type ℓ} (cap : ℕ) where
  -- `buf[head] = a; head = (head + 1) % cap; count++`
  unfoldable pub put : A → Ring A → Ring A
  unfolding next update
  put a r = record r { buf = update r.buf r.head a; head = next cap r.head; count = r.count + 1 }

  -- `tail = (tail + 1) % cap; count--`, after the entry at `tail` was read
  unfoldable pub advance : Ring A → Ring A
  unfolding next
  advance r = record r { tail = next cap r.tail; count = r.count - 1 }

  -- `while (n < len && count < cap)`: what did not fit, and the ring.
  unfoldable pub fill : List A → Ring A → List A × Ring A
  unfolding put
  fill [] r = ([], r)
  fill (x ∷ xs) r = let more = fill xs (put x r) in if ltb r.count cap then more else (x ∷ xs, r)

  -- `while (n < len && count > 0)`: what was taken, and the ring.
  unfoldable pub drain : ℕ → Ring A → List A × Ring A
  unfolding advance
  drain zero r = ([], r)
  drain (suc k) r =
      let more = drain k (advance r) in
      if ltb 0 r.count then (r.buf r.tail ∷ more.0, more.1) else ([], r)

  -- The entries from position `t`, in the order in which they are read.
  unfoldable pub window : ℕ → ℕ → (ℕ → A) → List A
  unfolding next
  window zero t buf = []
  window (suc n) t buf = buf t ∷ window n (next cap t) buf

  unfoldable pub contents : Ring A → List A
  unfolding window
  contents r = window r.count r.tail r.buf

  pub record Inv (r : Ring A) : Type 0 where
    pub tail_in : r.tail < cap
    pub head_in : r.head < cap
    pub count_in : r.count ≤ cap
    pub meets : (r.tail + r.count ≡ r.head) ⊎ (r.tail + r.count ≡ r.head + cap)
