-- ===== src/Bits/Laws.antt =====
-- What an assignment of one bit does to the bits of the word.
use Prim.Native.Nat.{bit_and}
use native.Mathlib.Nat.{pow-succ', div-div-eq-div-mul, mul_assoc}
use wos.Prelude.{
  ℕ, zero, suc, ◌+◌, ◌-◌, ◌*◌, ◌/◌, ◌%◌, ◌^◌, ◌<◌, ◌≡◌, ◌≤◌, ap, ◌∙◌, true, false, ◌==◌,
  if◌then◌else◌, arith,
}
use wos.Bits.{test_bit, set_bit, clear_bit}
use wos.Bits.Steps.{
  bit_and-step, bit_or-step, bit_and-zero, bit_or-zero, bit_and-ones, pow_pos, pow-lt,
}

-- Each operation at bit 0, and at bit `k + 1` by bit `k` of the half.
test_bit-zero : (w : ℕ) → test_bit w 0 ≡ (w % 2 == 1)
unfolding test_bit
test_bit-zero w = ground (arith, bit_and-step w 1, bit_and-zero (w / 2))

test_bit-suc : (w k : ℕ) → test_bit w (suc k) ≡ test_bit (w / 2) k
unfolding test_bit
test_bit-suc w k =
    let half : 2 ^ suc k / 2 ≡ 2 ^ k = omega (arith, pow-succ' 2 k) in
    let even : 2 ^ suc k % 2 ≡ 0 = omega (arith, pow-succ' 2 k) in
    let step : bit_and w (2 ^ suc k) ≡ bit_and (w / 2) (2 ^ k) * 2 =
      bit_and-step w (2 ^ suc k) ∙ rw (half, even) (omega arith) in
    rw step (ground arith)

-- A mask of the upper bits rounds down.
pub bit_and-mask : (n e x : ℕ) → x < 2 ^ n → e ≤ n → bit_and x (2 ^ n - 2 ^ e) ≡ x / 2 ^ e * 2 ^ e
bit_and-mask n zero x small h = bit_and-ones n x small ∙ omega arith
bit_and-mask zero (suc e) x small h = absurd (omega arith)
bit_and-mask (suc n) (suc e) x small h =
    let half : (2 ^ suc n - 2 ^ suc e) / 2 ≡ 2 ^ n - 2 ^ e =
      omega (arith, pow-succ' 2 n, pow-succ' 2 e) in
    let doubled : 2 ^ e * 2 ≡ 2 ^ suc e = omega (arith, pow-succ' 2 e) in
    let even : (2 ^ suc n - 2 ^ suc e) % 2 ≡ 0 = omega (arith, pow-succ' 2 n, pow-succ' 2 e) in
    let below : x / 2 < 2 ^ n = omega (arith, pow-succ' 2 n) in
    let halves : x / 2 / 2 ^ e ≡ x / 2 ^ suc e =
      div-div-eq-div-mul x 2 (2 ^ e) ∙ ap (λ (m : ℕ). x / m) (omega (arith, pow-succ' 2 e)) in
    bit_and-step x (2 ^ suc n - 2 ^ suc e)
    ∙ rw (half, even, bit_and-mask n e (x / 2) below (omega arith), halves)
        (omega
          (arith, mul_assoc (x / 2 ^ suc e) (2 ^ e) 2, ap (λ (m : ℕ). x / 2 ^ suc e * m) doubled))

set_bit-zero : (w : ℕ) → set_bit w 0 ≡ w / 2 * 2 + 1
unfolding set_bit
set_bit-zero w = omega (arith, bit_or-step w 1, bit_or-zero (w / 2))

set_bit-suc : (w k : ℕ) → set_bit w (suc k) ≡ set_bit (w / 2) k * 2 + w % 2
unfolding set_bit
set_bit-suc w k =
    let half : 2 ^ suc k / 2 ≡ 2 ^ k = omega (arith, pow-succ' 2 k) in
    let even : 2 ^ suc k % 2 ≡ 0 = omega (arith, pow-succ' 2 k) in
    bit_or-step w (2 ^ suc k) ∙ rw (half, even) (omega arith)

clear_bit-zero : (n w : ℕ) → w < 2 ^ suc n → clear_bit (suc n) w 0 ≡ w / 2 * 2
unfolding clear_bit
clear_bit-zero n w h =
    let half : (2 ^ suc n - 1 - 1) / 2 ≡ 2 ^ n - 1 = omega (arith, pow-succ' 2 n, pow_pos n) in
    let even : (2 ^ suc n - 1 - 1) % 2 ≡ 0 = omega (arith, pow-succ' 2 n, pow_pos n) in
    bit_and-step w (2 ^ suc n - 1 - 1)
    ∙ rw (half, even) (omega (arith, bit_and-ones n (w / 2) (omega (arith, pow-succ' 2 n))))

clear_bit-suc :
    (n w k : ℕ) → k < n → clear_bit (suc n) w (suc k) ≡ clear_bit n (w / 2) k * 2 + w % 2
unfolding clear_bit
clear_bit-suc n w k h =
    let half : (2 ^ suc n - 1 - 2 ^ suc k) / 2 ≡ 2 ^ n - 1 - 2 ^ k =
      omega (arith, pow-succ' 2 n, pow-succ' 2 k, pow-lt k n h) in
    let odd : (2 ^ suc n - 1 - 2 ^ suc k) % 2 ≡ 1 =
      omega (arith, pow-succ' 2 n, pow-succ' 2 k, pow-lt k n h) in
    bit_and-step w (2 ^ suc n - 1 - 2 ^ suc k) ∙ rw (half, odd) (omega arith)

-- Setting bit `k` makes it 1 and leaves the others.
pub test_bit-set_bit :
    (w k j : ℕ) → test_bit (set_bit w k) j ≡ (if k == j then true else test_bit w j)
test_bit-set_bit w zero zero = ground (arith, test_bit-zero (set_bit w 0), set_bit-zero w)
test_bit-set_bit w zero (suc j) =
    let half : set_bit w 0 / 2 ≡ w / 2 = omega (arith, set_bit-zero w) in
    test_bit-suc (set_bit w 0) j ∙ rw half (ground (arith, test_bit-suc w j))
test_bit-set_bit w (suc k) zero =
    ground (arith, test_bit-zero (set_bit w (suc k)), test_bit-zero w, set_bit-suc w k)
test_bit-set_bit w (suc k) (suc j) =
    let half : set_bit w (suc k) / 2 ≡ set_bit (w / 2) k = omega (arith, set_bit-suc w k) in
    test_bit-suc (set_bit w (suc k)) j
    ∙ rw half (ground (arith, test_bit-suc w j, test_bit-set_bit (w / 2) k j))

-- Clearing bit `k` makes it 0 and leaves the others.
pub test_bit-clear_bit :
    (n w k j : ℕ)
    → w < 2 ^ n
    → k < n
    → test_bit (clear_bit n w k) j ≡ (if k == j then false else test_bit w j)
test_bit-clear_bit zero w k j fits h = elim h [ ]
test_bit-clear_bit (suc n) w zero zero fits h =
    ground (arith, test_bit-zero (clear_bit (suc n) w 0), clear_bit-zero n w)
test_bit-clear_bit (suc n) w zero (suc j) fits h =
    let half : clear_bit (suc n) w 0 / 2 ≡ w / 2 = omega (arith, clear_bit-zero n w fits) in
    test_bit-suc (clear_bit (suc n) w 0) j ∙ rw half (ground (arith, test_bit-suc w j))
test_bit-clear_bit (suc n) w (suc k) zero fits h =
    ground
      (arith, test_bit-zero (clear_bit (suc n) w (suc k)), test_bit-zero w, clear_bit-suc n w k)
test_bit-clear_bit (suc n) w (suc k) (suc j) fits h =
    let half : clear_bit (suc n) w (suc k) / 2 ≡ clear_bit n (w / 2) k =
      omega (arith, clear_bit-suc n w k (omega arith)) in
    let rest : test_bit (clear_bit n (w / 2) k) j ≡ (if k == j then false else test_bit (w / 2) j) =
      test_bit-clear_bit n (w / 2) k j (omega (arith, pow-succ' 2 n)) (omega arith) in
    test_bit-suc (clear_bit (suc n) w (suc k)) j ∙ rw half (ground (arith, test_bit-suc w j, rest))

-- The results are words again.
pub set_bit-lt : (n w k : ℕ) → w < 2 ^ n → k < n → set_bit w k < 2 ^ n
set_bit-lt zero w k fits h = elim h [ ]
set_bit-lt (suc n) w zero fits h = omega (arith, set_bit-zero w, pow-succ' 2 n)
set_bit-lt (suc n) w (suc k) fits h = omega (
  arith,
  set_bit-suc w k,
  pow-succ' 2 n,
  set_bit-lt n (w / 2) k (omega (arith, pow-succ' 2 n)) (omega arith),
)

pub clear_bit-lt : (n w k : ℕ) → w < 2 ^ n → k < n → clear_bit n w k < 2 ^ n
clear_bit-lt zero w k fits h = elim h [ ]
clear_bit-lt (suc n) w zero fits h = omega (arith, clear_bit-zero n w fits, pow-succ' 2 n)
clear_bit-lt (suc n) w (suc k) fits h = omega (
  arith,
  clear_bit-suc n w k (omega arith),
  pow-succ' 2 n,
  clear_bit-lt n (w / 2) k (omega (arith, pow-succ' 2 n)) (omega arith),
)
