-- ===== src/User/Hash/Equal.antt =====
-- The comparison of two hashes in constant time is a comparison.
use Prim.Native.Nat.{max, bit_or, bit_xor, differ, bit_xor-bitwise}
use native.Mathlib.Nat.{pow-succ'}
use wos.Prelude.{ℕ, zero, suc, ◌+◌, ◌*◌, ◌/◌, ◌%◌, ◌^◌, ◌<◌, List, ◌≡◌, ◌↔◌, refl, sym, true, arith}
use wos.Bits.Steps.{counts_agree, bit_or-step, bit_or-zero}
use wos.User.Hash.{hash_equal, or_bytes, mix, mix_all, hash_rounds, hash_password}

bit_xor-step : (a b : ℕ) → bit_xor a b ≡ bit_xor (a / 2) (b / 2) * 2 + differ (a % 2) (b % 2)
bit_xor-step zero b = omega (arith, bit_xor-bitwise 0 b, bit_xor-bitwise 0 (b / 2))
bit_xor-step (suc x) y =
    let halved =
      counts_agree (λ b. b) differ (suc x / 2) (y / 2) x (suc x / 2) (omega arith, omega arith) in
    omega (arith, halved, bit_xor-bitwise (suc x) y, bit_xor-bitwise (suc x / 2) (y / 2))

differ_cases : (a b : ℕ) → a < 2 → b < 2 → (differ a b ≡ 0) ↔ (a ≡ b)
differ_cases zero b ha hb = (sym, sym)
differ_cases (suc zero) zero ha hb = (λ e. absurd (omega arith), λ e. absurd (omega arith))
differ_cases (suc zero) (suc zero) ha hb = (λ _. refl, λ _. refl)
differ_cases (suc zero) (suc (suc b)) ha hb = absurd (omega arith)
differ_cases (suc (suc a)) b ha hb = absurd (omega arith)

differ_bit : (a b : ℕ) → a < 2 → b < 2 → differ a b < 2
differ_bit zero b ha hb = hb
differ_bit (suc zero) zero ha hb = omega arith
differ_bit (suc zero) (suc zero) ha hb = omega arith
differ_bit (suc zero) (suc (suc b)) ha hb = absurd (omega arith)
differ_bit (suc (suc a)) b ha hb = absurd (omega arith)

xor_zero-eq : (n a b : ℕ) → a < 2 ^ n → b < 2 ^ n → bit_xor a b ≡ 0 → a ≡ b
xor_zero-eq zero a b ha hb e = omega arith
xor_zero-eq (suc n) a b ha hb e = omega (
  arith,
  pow-succ' 2 n,
  xor_zero-eq n (a / 2) (b / 2) (omega (arith, pow-succ' 2 n)) (omega (arith, pow-succ' 2 n))
      (omega (arith, bit_xor-step a b)),
  (differ_cases (a % 2) (b % 2) (omega arith) (omega arith)).0 (omega (arith, bit_xor-step a b)),
)

xor_self : (n a : ℕ) → a < 2 ^ n → bit_xor a a ≡ 0
xor_self zero a h = let e : a ≡ 0 = omega arith in rw e refl
xor_self (suc n) a h = omega (
  arith,
  bit_xor-step a a,
  xor_self n (a / 2) (omega (arith, pow-succ' 2 n)),
  (differ_cases (a % 2) (a % 2) (omega arith) (omega arith)).1 refl,
)

bit_xor-bound : (n a b : ℕ) → a < 2 ^ n → b < 2 ^ n → bit_xor a b < 2 ^ n
bit_xor-bound zero a b ha hb =
    let e : a ≡ 0 = omega arith in rw e (omega (arith, bit_xor-bitwise 0 b))
bit_xor-bound (suc n) a b ha hb = omega (
  arith,
  pow-succ' 2 n,
  bit_xor-step a b,
  bit_xor-bound n (a / 2) (b / 2) (omega (arith, pow-succ' 2 n)) (omega (arith, pow-succ' 2 n)),
  differ_bit (a % 2) (b % 2) (omega arith) (omega arith),
)

max_bit : (a b : ℕ) → a < 2 → b < 2 → max a b < 2
max_bit a b ha hb = omega arith

bit_or-bound : (n a b : ℕ) → a < 2 ^ n → b < 2 ^ n → bit_or a b < 2 ^ n
bit_or-bound zero a b ha hb =
    let e : a ≡ 0 = omega arith in
    let f : b ≡ 0 = omega arith in rw (e, f) (omega (arith, bit_or-zero 0))
bit_or-bound (suc n) a b ha hb = omega (
  arith,
  pow-succ' 2 n,
  bit_or-step a b,
  bit_or-bound n (a / 2) (b / 2) (omega (arith, pow-succ' 2 n)) (omega (arith, pow-succ' 2 n)),
  max_bit (a % 2) (b % 2) (omega arith) (omega arith),
)

bit_or-none : (n a b : ℕ) → a < 2 ^ n → b < 2 ^ n → bit_or a b ≡ 0 → (a ≡ 0) × (b ≡ 0)
bit_or-none zero a b ha hb e = (omega arith, omega arith)
bit_or-none (suc n) a b ha hb e =
    let (l, r) =
      bit_or-none n (a / 2) (b / 2) (omega (arith, pow-succ' 2 n)) (omega (arith, pow-succ' 2 n))
        (omega (arith, bit_or-step a b)) in
    (omega (arith, bit_or-step a b), omega (arith, bit_or-step a b))

or_bytes-none :
    (n diff acc : ℕ) → acc < 256 → or_bytes n diff acc ≡ 0 → diff < 256 ^ n → (acc ≡ 0) × (diff ≡ 0)
unfolding or_bytes
or_bytes-none zero diff acc h e small = (e, omega arith)
or_bytes-none (suc n) diff acc h e small =
    (let mixed : bit_or acc (diff % 256) < 2 ^ 8 =
        bit_or-bound 8 acc (diff % 256) (omega arith) (omega arith) in
      let (zero_acc, zero_rest) =
        or_bytes-none n (diff / 256) (bit_or acc (diff % 256)) (omega arith) e
          (omega (arith, pow-succ' 256 n)) in
      let (l, r) = bit_or-none 8 acc (diff % 256) (omega arith) (omega arith) zero_acc in
      (l, omega arith))

or_bytes-zeros : (n : ℕ) → or_bytes n 0 0 ≡ 0
unfolding or_bytes
or_bytes-zeros zero = refl
or_bytes-zeros (suc n) = or_bytes-zeros n

-- On words of 64 bits, hash_equal is equality.
pub hash_equal_iff : (a b : ℕ) → a < 2 ^ 64 → b < 2 ^ 64 → (hash_equal a b ≡ true) ↔ (a ≡ b)
unfolding hash_equal
hash_equal_iff a b ha hb = (
  λ e.
      xor_zero-eq 64 a b ha hb
        (or_bytes-none 8 (bit_xor a b) 0 (omega arith) (ground arith)
          (bit_xor-bound 64 a b ha hb)).1,
  λ e. rw (e, xor_self 64 b hb) refl,
)

mix-bound : (h x : ℕ) → mix h x < 2 ^ 64
unfolding mix
mix-bound h x = omega arith

hash_rounds-bound :
    (rounds h salt : ℕ) (password : List ℕ)
    → h < 2 ^ 64
    → hash_rounds rounds h salt password < 2 ^ 64
unfolding hash_rounds
hash_rounds-bound zero h salt password small = small
hash_rounds-bound (suc rounds) h salt password small =
    hash_rounds-bound rounds (mix (mix_all h password) salt) salt password
      (mix-bound (mix_all h password) salt)

pub hash_password-bound :
    (salt : ℕ) (password : List ℕ) → salt < 2 ^ 64 → hash_password salt password < 2 ^ 64
unfolding hash_password
hash_password-bound salt password small =
    let start : bit_xor 0xcbf2_9ce4_8422_2325 salt < 2 ^ 64 =
      bit_xor-bound 64 0xcbf2_9ce4_8422_2325 salt (omega arith) small in
    ground (arith, hash_rounds-bound 4096 (bit_xor 0xcbf2_9ce4_8422_2325 salt) salt password start)
