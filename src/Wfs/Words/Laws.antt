-- ===== src/Wfs/Words/Laws.antt =====
-- Words that are put into a buffer and got back.
use wos.Prelude.{
  ℕ, zero, suc, ◌+◌, ◌-◌, ◌*◌, ◌/◌, ◌%◌, ◌^◌, ◌≤◌, ◌<◌, ◌≡◌, ◌⊎◌, refl, ◌∙◌, inr, List, [], ◌∷◌,
  length, get_or, arith,
}
use wos.Wfs.Device.{Bytes}
use wos.Wfs.Words.{get_word, put_word, get_words, put_words}

put_word-in :
    (b : Bytes) (at w k i : ℕ) → k < 4 → i ≡ at + k → put_word b at w i ≡ w / 256 ^ k % 256
unfolding put_word
put_word-in b at w k i h e = let offset : i - at ≡ k = omega arith in ground (arith, offset)

put_word-out : (b : Bytes) (at w i : ℕ) → (i < at) ⊎ (at + 4 ≤ i) → put_word b at w i ≡ b i
unfolding put_word
put_word-out b at w i h = ground arith

pub get_word-put_word : (b : Bytes) (at w : ℕ) → w < 2 ^ 32 → get_word (put_word b at w) at ≡ w
unfolding get_word
get_word-put_word b at w h = omega (
  arith,
  put_word-in b at w 0 at (omega arith) (omega arith),
  put_word-in b at w 1 (at + 1) (omega arith) refl,
  put_word-in b at w 2 (at + 2) (omega arith) refl,
  put_word-in b at w 3 (at + 3) (omega arith) refl,
)

pub get_word-put_word_apart :
    (b : Bytes) (at w o : ℕ)
    → (at + 4 ≤ o) ⊎ (o + 4 ≤ at)
    → get_word (put_word b at w) o ≡ get_word b o
unfolding get_word
get_word-put_word_apart b at w o h = ground (
  arith,
  put_word-out b at w o,
  put_word-out b at w (o + 1),
  put_word-out b at w (o + 2),
  put_word-out b at w (o + 3),
)

pub get_word-put_words_apart :
    (b : Bytes) (at : ℕ) (ws : List ℕ) (o : ℕ)
    → (at + length ws * 4 ≤ o) ⊎ (o + 4 ≤ at)
    → get_word (put_words b at ws) o ≡ get_word b o
unfolding put_words
get_word-put_words_apart b at [] o h = refl
get_word-put_words_apart b at (w ∷ ws) o h =
    get_word-put_words_apart (put_word b at w) (at + 4) ws o (ground arith)
    ∙ get_word-put_word_apart b at w o (ground arith)

-- Every number fits in a word.
abbrev pub AreWords : List ℕ → Type 0
AreWords [] = Unit {0}
AreWords (w ∷ ws) = (w < 2 ^ 32) × AreWords ws

pub get_word-put_words :
    (b : Bytes) (at w : ℕ) (ws : List ℕ) → w < 2 ^ 32 → get_word (put_words b at (w ∷ ws)) at ≡ w
unfolding put_words
get_word-put_words b at w ws h =
    get_word-put_words_apart (put_word b at w) (at + 4) ws at (inr (omega arith))
    ∙ get_word-put_word b at w h

AreWords-at : (ws : List ℕ) (j : ℕ) → AreWords ws → get_or ws j 0 < 2 ^ 32
AreWords-at [] j h = omega arith
AreWords-at (w ∷ ws) zero h = h.0
AreWords-at (w ∷ ws) (suc j) h = AreWords-at ws j h.1

-- Each word of a structure is at its own place.
pub get_word-put_words_at :
    (b : Bytes) (at : ℕ) (ws : List ℕ) (j o : ℕ)
    → AreWords ws
    → j < length ws
    → o ≡ at + j * 4
    → get_word (put_words b at ws) o ≡ get_or ws j 0
unfolding put_words
get_word-put_words_at b at [] j o h l e = absurd (omega arith)
get_word-put_words_at b at (w ∷ ws) zero o h l e =
    let e' : o ≡ at = omega arith in rw e' (get_word-put_words b at w ws h.0)
get_word-put_words_at b at (w ∷ ws) (suc j) o h l e =
    get_word-put_words_at (put_word b at w) (at + 4) ws j o h.1 (omega arith) (omega arith)

abbrev pub words_from : List ℕ → (j n : ℕ) → List ℕ
words_from ws j zero = []
words_from ws j (suc n) = get_or ws j 0 ∷ words_from ws (suc j) n

pub get_words-put_words :
    (b : Bytes) (at : ℕ) (ws : List ℕ) (n j o : ℕ)
    → AreWords ws
    → j + n ≤ length ws
    → o ≡ at + j * 4
    → get_words (put_words b at ws) o n ≡ words_from ws j n
unfolding get_words
get_words-put_words b at ws zero j o h l e = refl
get_words-put_words b at ws (suc n) j o h l e =
    rw
      (
        get_word-put_words_at b at ws j o h (omega arith) e,
        get_words-put_words b at ws n (suc j) (o + 4) h (omega arith) (omega arith),
      )
      refl

pub get_words-put_words_apart :
    (b : Bytes) (at : ℕ) (ws : List ℕ) (o n : ℕ)
    → (at + length ws * 4 ≤ o) ⊎ (o + n * 4 ≤ at)
    → get_words (put_words b at ws) o n ≡ get_words b o n
unfolding get_words
get_words-put_words_apart b at ws o zero h = refl
get_words-put_words_apart b at ws o (suc n) h =
    rw
      (
        get_word-put_words_apart b at ws o (ground arith),
        get_words-put_words_apart b at ws (o + 4) n (ground arith),
      )
      refl
