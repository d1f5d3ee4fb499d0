-- ===== src/User/Digits.antt =====
-- `parse_u64` and `append_u64` of kernel/fs/user.c: decimal numbers of 64 bits.
use native.Mathlib.Nat.{pow-succ'}
use wos.Prelude.{
  ℕ, zero, suc, ◌+◌, ◌-◌, ◌*◌, ◌/◌, ◌%◌, ◌^◌, ◌≤◌, ◌<◌, ◌≡◌, refl, ◌∙◌, inl, inr, List, [], ◌∷◌,
  ◌++◌, Bool, true, false, ◌&&◌, arith, length, leb, ◌==◌, if◌then◌else◌, Bool-cases,
}

abbrev pub is_digit : ℕ → Bool
is_digit c = leb b'0' c && leb c b'9'

-- `parse_u64`, with the value of the digits that were read: the value, and what is left.
unfoldable pub parse_u64 : ℕ → List ℕ → ℕ × List ℕ
parse_u64 v [] = (v, [])
parse_u64 v (c ∷ cs) =
    let more = parse_u64 ((v * 10 + (c - b'0')) % 2 ^ 64) cs in
    if is_digit c then more else (v, c ∷ cs)

-- `while (v) { tmp[n++] = '0' + v % 10; v /= 10; }`, and the digits taken back in reverse, in front
-- of `acc`. A number of 64 bits has at most 20.
unfoldable pub digits_loop : (fuel : ℕ) → ℕ → List ℕ → List ℕ
digits_loop zero v acc = acc
digits_loop (suc fuel) v acc =
    let more = digits_loop fuel (v / 10) ((b'0' + v % 10) ∷ acc) in if v == 0 then acc else more

unfoldable pub print_u64 : ℕ → List ℕ
print_u64 v = if v == 0 then b'0' ∷ [] else digits_loop 20 v []

-- The text does not go on with a digit.
abbrev pub Stops : List ℕ → Type 0
Stops [] = Unit {0}
Stops (c ∷ cs) = is_digit c ≡ false

parse-Stops : (v : ℕ) (rest : List ℕ) → Stops rest → parse_u64 v rest ≡ (v, rest)
unfolding parse_u64
parse-Stops v [] h = refl
parse-Stops v (c ∷ cs) h = rw h

parse-digits_loop :
    (fuel v : ℕ) (acc : List ℕ)
    → v < 10 ^ fuel
    → v < 2 ^ 64
    → (rest : List ℕ) → parse_u64 0 (digits_loop fuel v acc ++ rest) ≡ parse_u64 v (acc ++ rest)
unfolding parse_u64 digits_loop
parse-digits_loop zero v acc h fits rest = let e : v ≡ 0 = omega arith in rw e
parse-digits_loop (suc fuel) v acc h fits rest = elim (Bool-cases (v == 0)) [
  | inl e ↦ let z : v ≡ 0 = ground arith in rw z
  | inr ne ↦
      let digit : is_digit (b'0' + v % 10) ≡ true = ground arith in
      let value : (v / 10 * 10 + (b'0' + v % 10 - b'0')) % 2 ^ 64 ≡ v = omega arith in
      rw ne (
        parse-digits_loop fuel (v / 10) ((b'0' + v % 10) ∷ acc) (omega (arith, pow-succ' 10 fuel))
          (omega arith) rest
        ∙ rw (digit, value))
]

-- A number of 64 bits that was printed is read back, whatever stands behind its last digit.
pub parse-print :
    (v : ℕ) (rest : List ℕ)
    → v < 2 ^ 64
    → Stops rest
    → parse_u64 0 (print_u64 v ++ rest) ≡ (v, rest)
unfolding print_u64 parse_u64
parse-print v rest fits stops = elim (Bool-cases (v == 0)) [
  | inl e ↦ let z : v ≡ 0 = ground arith in rw z (parse-Stops 0 rest stops)
  | inr ne ↦ rw ne (parse-digits_loop 20 v [] (omega arith) fits rest ∙ parse-Stops v rest stops)
]

length-digits_loop :
    (fuel k v : ℕ) (acc : List ℕ) → v < 10 ^ k → length (digits_loop fuel v acc) ≤ k + length acc
unfolding digits_loop
length-digits_loop zero k v acc h = omega arith
length-digits_loop (suc fuel) zero v acc h = let e : v ≡ 0 = omega arith in rw e (omega arith)
length-digits_loop (suc fuel) (suc k) v acc h = ground (
  arith,
  pow-succ' 10 k,
  length-digits_loop fuel k (v / 10) ((b'0' + v % 10) ∷ acc) (omega (arith, pow-succ' 10 k)),
)

pub length-print_u64 : (v : ℕ) → v < 2 ^ 32 → length (print_u64 v) ≤ 10
unfolding print_u64
length-print_u64 v h = ground (arith, length-digits_loop 20 10 v [] (omega arith))
