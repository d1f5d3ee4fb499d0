-- ===== src/Bits/Steps.antt =====
-- The native bit operations by their lowest digit.
use Prim.Native.Nat.{max, bit_and, bit_or, digits, bit_and-bitwise, bit_or-bitwise}
use native.Mathlib.Nat.{pow-succ'}
use wos.Prelude.{ℕ, zero, suc, ◌+◌, ◌-◌, ◌*◌, ◌/◌, ◌%◌, ◌^◌, ◌≤◌, ◌<◌, min, ◌≡◌, refl, ◌∙◌, arith}

-- Two counts of digits that both cover the first number give the same result.
pub counts_agree :
    (stop : ℕ → ℕ) (digit : ℕ → ℕ → ℕ) (x y count other : ℕ)
    → (x ≤ count) × (x ≤ other)
    → digits stop digit count x y ≡ digits stop digit other x y
counts_agree stop digit zero y zero zero covers = refl
counts_agree stop digit zero y (suc count) zero covers = refl
counts_agree stop digit zero y zero (suc other) covers = refl
counts_agree stop digit zero y (suc count) (suc other) covers = refl
counts_agree stop digit (suc x) y zero other covers = absurd (omega (arith, covers.0))
counts_agree stop digit (suc x) y (suc count) zero covers = absurd (omega (arith, covers.1))
counts_agree stop digit (suc x) y (suc count) (suc other) covers =
    omega
      (arith, counts_agree stop digit (suc x / 2) (y / 2) count other (omega arith, omega arith))

pub bit_and-step : (x y : ℕ) → bit_and x y ≡ bit_and (x / 2) (y / 2) * 2 + min (x % 2) (y % 2)
bit_and-step zero y = omega (arith, bit_and-bitwise 0 y, bit_and-bitwise 0 (y / 2))
bit_and-step (suc x) y =
    let halved =
      counts_agree (λ _. 0) min (suc x / 2) (y / 2) x (suc x / 2) (omega arith, omega arith) in
    omega (arith, halved, bit_and-bitwise (suc x) y, bit_and-bitwise (suc x / 2) (y / 2))

pub bit_or-step : (a b : ℕ) → bit_or a b ≡ bit_or (a / 2) (b / 2) * 2 + max (a % 2) (b % 2)
bit_or-step zero b = omega (arith, bit_or-bitwise 0 b, bit_or-bitwise 0 (b / 2))
bit_or-step (suc x) y =
    let halved =
      counts_agree (λ b. b) max (suc x / 2) (y / 2) x (suc x / 2) (omega arith, omega arith) in
    omega (arith, halved, bit_or-bitwise (suc x) y, bit_or-bitwise (suc x / 2) (y / 2))

bit_and-zero_within : (bound x : ℕ) → x ≤ bound → bit_and x 0 ≡ 0
bit_and-zero_within bound zero covers = refl
bit_and-zero_within zero (suc x) covers = absurd (omega arith)
bit_and-zero_within (suc bound) (suc x) covers =
    let half = bit_and-zero_within bound (suc x / 2) (omega arith) in
    omega (arith, half, bit_and-step (suc x) 0)

pub bit_and-zero : (x : ℕ) → bit_and x 0 ≡ 0
bit_and-zero x = bit_and-zero_within x x (omega arith)

bit_or-zero_below : (n a : ℕ) → a ≤ n → bit_or a 0 ≡ a
bit_or-zero_below n zero h = refl
bit_or-zero_below zero (suc a) h = absurd (omega arith)
bit_or-zero_below (suc n) (suc a) h =
    omega (arith, bit_or-step (suc a) 0, bit_or-zero_below n (suc a / 2) (omega arith))

pub bit_or-zero : (a : ℕ) → bit_or a 0 ≡ a
bit_or-zero a = bit_or-zero_below a a (omega arith)

pub pow_pos : (k : ℕ) → 0 < 2 ^ k
pow_pos zero = omega arith
pow_pos (suc k) = omega (arith, pow-succ' 2 k, pow_pos k)

pub pow-lt : (k n : ℕ) → k < n → 2 ^ k < 2 ^ n
pow-lt k zero h = elim h [ ]
pow-lt zero (suc n) h = omega (arith, pow-succ' 2 n, pow_pos n)
pow-lt (suc k) (suc n) h = omega (arith, pow-succ' 2 n, pow-succ' 2 k, pow-lt k n (omega arith))

-- A mask of ones over a word keeps it.
pub bit_and-ones : (n a : ℕ) → a < 2 ^ n → bit_and a (2 ^ n - 1) ≡ a
bit_and-ones zero a h = let e : a ≡ 0 = omega arith in rw e
bit_and-ones (suc n) a h =
    let half : (2 ^ suc n - 1) / 2 ≡ 2 ^ n - 1 = omega (arith, pow-succ' 2 n, pow_pos n) in
    let odd : (2 ^ suc n - 1) % 2 ≡ 1 = omega (arith, pow-succ' 2 n, pow_pos n) in
    bit_and-step a (2 ^ suc n - 1)
    ∙ rw (half, odd) (omega (arith, bit_and-ones n (a / 2) (omega (arith, pow-succ' 2 n))))
