-- ===== src/Wfs/Words.antt =====
-- 32-bit words in a buffer of bytes, lowest byte first, as kernel/fs/wfs.c reads and writes them by
-- `memcpy` of structures and by its tables of block numbers.
pub mod Laws
use wos.Prelude.{
  ℕ, zero, suc, ◌+◌, ◌-◌, ◌*◌, ◌/◌, ◌%◌, ◌^◌, List, [], ◌∷◌, ◌&&◌, ltb, leb, if◌then◌else◌,
}
use wos.Wfs.Device.{Bytes}

abbrev pub zeroes : Bytes
zeroes = λ _. 0

unfoldable pub get_word : Bytes → (at : ℕ) → ℕ
get_word b at = b at + b (at + 1) * 2 ^ 8 + b (at + 2) * 2 ^ 16 + b (at + 3) * 2 ^ 24

unfoldable pub put_word : Bytes → (at : ℕ) → (w : ℕ) → Bytes
put_word b at w i = if leb at i && ltb i (at + 4) then w / 256 ^ (i - at) % 256 else b i

unfoldable pub get_words : Bytes → (at count : ℕ) → List ℕ
get_words b at zero = []
get_words b at (suc n) = get_word b at ∷ get_words b (at + 4) n

unfoldable pub put_words : Bytes → (at : ℕ) → List ℕ → Bytes
put_words b at [] = b
put_words b at (w ∷ ws) = put_words (put_word b at w) (at + 4) ws

-- `memcpy(dst + at, src + from, count)`
unfoldable pub copy_into : (dst : Bytes) (at : ℕ) (src : Bytes) (from count : ℕ) → Bytes
copy_into dst at src from count i =
    if leb at i && ltb i (at + count) then src (from + (i - at)) else dst i
