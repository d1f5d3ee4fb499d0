-- ===== src/Frames/Bitmap.antt =====
-- `bitmap_set`, `bitmap_clear` and `bitmap_test` of kernel/mm/pmm.c, and the number of set bits.
use wos.Prelude.{
  ℕ, zero, suc, ◌+◌, ◌/◌, ◌%◌, ◌^◌, ◌≤◌, ◌<◌, ◌≡◌, Bool, true, false, ◌==◌, if◌then◌else◌, update,
  ltb, arith,
}
use wos.Bits.{test_bit, set_bit, clear_bit}
use wos.Bits.Laws.{test_bit-set_bit, test_bit-clear_bit, set_bit-lt, clear_bit-lt}

abbrev pub Words : Type 0
Words = ℕ → ℕ

unfoldable pub test : Words → ℕ → Bool
test bitmap frame = test_bit (bitmap (frame / 64)) (frame % 64)

unfoldable pub assign : Words → ℕ → Words
unfolding update
assign bitmap frame = update bitmap (frame / 64) (set_bit (bitmap (frame / 64)) (frame % 64))

unfoldable pub unassign : Words → ℕ → Words
unfolding update
unassign bitmap frame = update bitmap (frame / 64) (clear_bit 64 (bitmap (frame / 64)) (frame % 64))

-- Every entry is a 64-bit word.
abbrev pub IsWords : Words → Type 0
IsWords bitmap = (i : ℕ) → bitmap i < 2 ^ 64

pub test-assign : (w : Words) (f g : ℕ) → test (assign w f) g ≡ (if f == g then true else test w g)
unfolding test assign
test-assign w f g = ground (arith, test_bit-set_bit (w (f / 64)) (f % 64) (g % 64))

pub test-unassign :
    (w : Words) (f g : ℕ) → IsWords w → test (unassign w f) g ≡ (if f == g then false else test w g)
unfolding test unassign
test-unassign w f g ws =
    ground (arith, test_bit-clear_bit 64 (w (f / 64)) (f % 64) (g % 64) (ws (f / 64)) (omega arith))

pub assign-IsWords : (w : Words) (f : ℕ) → IsWords w → IsWords (assign w f)
unfolding assign
assign-IsWords w f ws i =
    ground (arith, ws i, set_bit-lt 64 (w (f / 64)) (f % 64) (ws (f / 64)) (omega arith))

pub unassign-IsWords : (w : Words) (f : ℕ) → IsWords w → IsWords (unassign w f)
unfolding unassign
unassign-IsWords w f ws i =
    ground (arith, ws i, clear_bit-lt 64 (w (f / 64)) (f % 64) (ws (f / 64)) (omega arith))

-- The number of set bits below `n`.
unfoldable pub popcount : Words → ℕ → ℕ
popcount w zero = 0
popcount w (suc n) = (if test w n then 1 else 0) + popcount w n

pub popcount-le : (w : Words) (n : ℕ) → popcount w n ≤ n
unfolding popcount
popcount-le w zero = omega arith
popcount-le w (suc n) = ground (arith, popcount-le w n)

pub popcount-assign :
    (w : Words) (n f : ℕ)
    → test w f ≡ false
    → popcount (assign w f) n ≡ popcount w n + (if ltb f n then 1 else 0)
unfolding popcount
popcount-assign w zero f h = ground arith
popcount-assign w (suc n) f h = ground (arith, test-assign w f n, popcount-assign w n f)

pub popcount-unassign :
    (w : Words) (n f : ℕ)
    → IsWords w
    → test w f ≡ true
    → popcount (unassign w f) n + (if ltb f n then 1 else 0) ≡ popcount w n
unfolding popcount
popcount-unassign w zero f ws h = ground arith
popcount-unassign w (suc n) f ws h =
    ground (arith, test-unassign w f n ws, popcount-unassign w n f ws h)

-- A clear bit leaves room in the count.
pub popcount-lt : (w : Words) (n f : ℕ) → f < n → test w f ≡ false → popcount w n < n
unfolding popcount
popcount-lt w zero f lt h = elim lt [ ]
popcount-lt w (suc n) f lt h = ground (arith, popcount-le w n, popcount-lt w n f)
