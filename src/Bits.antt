-- ===== src/Bits.antt =====
-- Single bits of a machine word: the tests and assignments `w & (1 << k)`, `w |= 1 << k` and
-- `w &= ~(1 << k)` that kernel/mm/pmm.c, kernel/fs/wfs.c and the role masks use.
pub mod Steps
pub mod Laws
use Prim.Native.Nat.{bit_and, bit_or}
use wos.Prelude.{ℕ, ◌-◌, ◌^◌, Bool, not, ◌==◌}

-- `(w & (1 << k)) != 0`
unfoldable pub test_bit : ℕ → ℕ → Bool
test_bit w k = not (bit_and w (2 ^ k) == 0)

-- `w | (1 << k)`
unfoldable pub set_bit : ℕ → ℕ → ℕ
set_bit w k = bit_or w (2 ^ k)

-- `w & ~(1 << k)` on words of `n` bits
unfoldable pub clear_bit : (n w k : ℕ) → ℕ
clear_bit n w k = bit_and w (2 ^ n - 1 - 2 ^ k)
