-- ===== src/Wfs/Volume/Bitmap.antt =====
-- The bitmap of blocks of kernel/fs/wfs.c, bit by bit, and the number of free blocks in a range.
use wos.Prelude.{
  ℕ, zero, suc, ◌+◌, ◌/◌, ◌%◌, ◌^◌, ◌≤◌, ◌<◌, ◌≡◌, Bool, true, false, ◌&&◌, update, arith, ltb, leb,
  ◌==◌, if◌then◌else◌,
}
use wos.Bits.{test_bit, set_bit, clear_bit}
use wos.Bits.Laws.{test_bit-set_bit, test_bit-clear_bit, set_bit-lt, clear_bit-lt}
use wos.Wfs.Device.{Bytes}

unfoldable pub used : Bytes → (block : ℕ) → Bool
used bitmap block = test_bit (bitmap (block / 8)) (block % 8)

unfoldable pub use_bit : Bytes → (block : ℕ) → Bytes
use_bit bitmap block = update bitmap (block / 8) (set_bit (bitmap (block / 8)) (block % 8))

unfoldable pub free_bit : Bytes → (block : ℕ) → Bytes
free_bit bitmap block = update bitmap (block / 8) (clear_bit 8 (bitmap (block / 8)) (block % 8))

abbrev pub IsBytes : Bytes → Type 0
IsBytes b = (i : ℕ) → b i < 2 ^ 8

pub used-use_bit :
    (w : Bytes) (f g : ℕ) → used (use_bit w f) g ≡ (if f == g then true else used w g)
unfolding used use_bit update
used-use_bit w f g = ground (arith, test_bit-set_bit (w (f / 8)) (f % 8) (g % 8))

pub used-free_bit :
    (w : Bytes) (f g : ℕ) → IsBytes w → used (free_bit w f) g ≡ (if f == g then false else used w g)
unfolding used free_bit update
used-free_bit w f g ws =
    ground (arith, test_bit-clear_bit 8 (w (f / 8)) (f % 8) (g % 8) (ws (f / 8)) (omega arith))

pub use_bit-IsBytes : (w : Bytes) (f : ℕ) → IsBytes w → IsBytes (use_bit w f)
unfolding use_bit update
use_bit-IsBytes w f ws i =
    ground (arith, ws i, set_bit-lt 8 (w (f / 8)) (f % 8) (ws (f / 8)) (omega arith))

pub free_bit-IsBytes : (w : Bytes) (f : ℕ) → IsBytes w → IsBytes (free_bit w f)
unfolding free_bit update
free_bit-IsBytes w f ws i =
    ground (arith, ws i, clear_bit-lt 8 (w (f / 8)) (f % 8) (ws (f / 8)) (omega arith))

-- The free ones of `n` blocks from `from` on.
unfoldable pub free_count : Bytes → (from n : ℕ) → ℕ
free_count w from zero = 0
free_count w from (suc n) = (if used w from then 0 else 1) + free_count w (from + 1) n

pub free_count-le : (w : Bytes) (from n : ℕ) → free_count w from n ≤ n
unfolding free_count
free_count-le w from zero = omega arith
free_count-le w from (suc n) = ground (arith, free_count-le w (from + 1) n)

pub free_count-use_bit :
    (w : Bytes) (from n f : ℕ)
    → used w f ≡ false
    → free_count (use_bit w f) from n + (if leb from f && ltb f (from + n) then 1 else 0)
      ≡ free_count w from n
unfolding free_count
free_count-use_bit w from zero f h = ground arith
free_count-use_bit w from (suc n) f h =
    ground (arith, free_count-use_bit w (from + 1) n f h, used-use_bit w f from)

pub free_count-free_bit :
    (w : Bytes) (from n f : ℕ)
    → IsBytes w
    → used w f ≡ true
    → free_count (free_bit w f) from n
      ≡ free_count w from n + (if leb from f && ltb f (from + n) then 1 else 0)
unfolding free_count
free_count-free_bit w from zero f ws h = ground arith
free_count-free_bit w from (suc n) f ws h =
    ground (arith, free_count-free_bit w (from + 1) n f ws h, used-free_bit w f from ws)
