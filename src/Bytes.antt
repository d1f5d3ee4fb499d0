-- ===== src/Bytes.antt =====
-- kernel/lib/string.c: strings as the lists of their bytes up to the NUL, which is no part of them.
use wos.Prelude.{
  ℕ, zero, suc, ◌-◌, ◌<◌, ◌≡◌, ◌↔◌, refl, ap, List, [], ◌∷◌, Bool, true, false, ◌&&◌, arith, length,
  take, ltb, ◌==◌, if◌then◌else◌,
}

-- `strcmp(a, b) == 0`
unfoldable pub str_eq : List ℕ → List ℕ → Bool
str_eq [] [] = true
str_eq [] (y ∷ ys) = false
str_eq (x ∷ xs) [] = false
str_eq (x ∷ xs) (y ∷ ys) = (x == y) && str_eq xs ys

-- What `strlcpy(dst, src, n)` leaves in `dst`.
unfoldable pub strlcpy : List ℕ → (n : ℕ) → List ℕ
strlcpy src n = if ltb (length src) (n - 1) then src else take (n - 1) src

pub str_eq_iff : (xs ys : List ℕ) → (str_eq xs ys ≡ true) ↔ (xs ≡ ys)
unfolding str_eq
str_eq_iff [] [] = (λ _. refl, λ _. refl)
str_eq_iff [] (y ∷ ys) = (λ e. cc, λ e. cc)
str_eq_iff (x ∷ xs) [] = (λ e. cc, λ e. cc)
str_eq_iff (x ∷ xs) (y ∷ ys) =
    (λ e. ground (arith, str_eq_iff xs ys), λ e. ground (arith, str_eq_iff xs ys))

take-all : (n : ℕ) (xs : List ℕ) → length xs < suc n → take n xs ≡ xs
take-all zero [] h = refl
take-all zero (x ∷ xs) h = absurd (omega arith)
take-all (suc n) [] h = refl
take-all (suc n) (x ∷ xs) h = ap (λ (l : List ℕ). x ∷ l) (take-all n xs (omega arith))

-- A string that fits is copied whole.
pub strlcpy-fits : (xs : List ℕ) (n : ℕ) → length xs < n → strlcpy xs n ≡ xs
unfolding strlcpy
strlcpy-fits xs n h = ground (arith, take-all (n - 1) xs)
