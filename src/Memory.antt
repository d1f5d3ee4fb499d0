-- ===== src/Memory.antt =====
-- kernel/lib/string.c: memory, as a function from addresses to bytes.
-- A word that is moved at once is read before it is written. Addresses do not wrap.
mod Copy
mod Tests
use wos.Prelude.{
  ℕ, zero, suc, ◌+◌, ◌-◌, ◌*◌, ◌/◌, ◌%◌, ◌^◌, Bool, true, false, ◌&&◌, ◌||◌, ltb, ◌==◌,
  if◌then◌else◌, update,
}

abbrev pub Mem : Type 0
Mem = ℕ → ℕ

-- `*dst++ = *src++`, the lowest byte first, as one word of `k` bytes: `word` is what was read.
unfoldable pub store : (k : ℕ) → (dst : ℕ) → (word : ℕ → ℕ) → Mem → Mem
store zero dst word m = m
store (suc k) dst word m = store k dst word (update m (dst + k) (word k))

unfoldable pub move_word : (k : ℕ) → (dst src : ℕ) → Mem → Mem
move_word k dst src m = store k dst (λ i. m (src + i)) m

-- `while (n >= k)`, `count` words of `k` bytes.
unfoldable pub copy_words : (k count : ℕ) → (dst src : ℕ) → Mem → Mem
copy_words k zero dst src m = m
copy_words k (suc count) dst src m = copy_words k count (dst + k) (src + k) (move_word k dst src m)

-- `while (n--) *d++ = *s++;`
unfoldable pub copy_bytes : (n : ℕ) → (dst src : ℕ) → Mem → Mem
copy_bytes zero dst src m = m
copy_bytes (suc n) dst src m = copy_bytes n (dst + 1) (src + 1) (update m dst (m src))

-- `while (n--) *--d = *--s;`, from the ends of the two areas.
unfoldable pub copy_back : (n : ℕ) → (dst src : ℕ) → Mem → Mem
copy_back zero dst src m = m
copy_back (suc n) dst src m = copy_back n dst src (update m (dst + n) (m (src + n)))

-- The words of `k` bytes, and the bytes that are left.
unfoldable pub copy_aligned : (k n : ℕ) → (dst src : ℕ) → Mem → Mem
copy_aligned k n dst src m =
    let words = n / k in
    copy_bytes (n % k) (dst + words * k) (src + words * k) (copy_words k words dst src m)

unfoldable pub memcpy : (dst src n : ℕ) → Mem → Mem
memcpy dst src n m =
    if (dst % 8 == 0) && (src % 8 == 0)
    then copy_aligned 8 n dst src m
    else if (dst % 4 == 0) && (src % 4 == 0)
    then copy_aligned 4 n dst src m
    else copy_bytes n dst src m

unfoldable pub memmove : (dst src n : ℕ) → Mem → Mem
memmove dst src n m =
    if (dst == src) || (n == 0)
    then m
    else if ltb dst src
    then copy_bytes n dst src m
    else copy_back n dst src m

-- `(word >> 8 * i) & 0xff`
abbrev pub byte_of : (word i : ℕ) → ℕ
byte_of word i = word / 256 ^ i % 256

unfoldable pub set_words : (k count : ℕ) → (word dst : ℕ) → Mem → Mem
set_words k zero word dst m = m
set_words k (suc count) word dst m = set_words k count word (dst + k) (store k dst (byte_of word) m)

unfoldable pub set_bytes : (n : ℕ) → (v dst : ℕ) → Mem → Mem
set_bytes zero v dst m = m
set_bytes (suc n) v dst m = set_bytes n v (dst + 1) (update m dst v)

unfoldable pub set_aligned : (k n : ℕ) → (word v dst : ℕ) → Mem → Mem
set_aligned k n word v dst m =
    let words = n / k in set_bytes (n % k) v (dst + words * k) (set_words k words word dst m)

unfoldable pub memset : (dst c n : ℕ) → Mem → Mem
memset dst c n m =
    let v = c % 256 in
    if dst % 8 == 0
    then set_aligned 8 n (v * 0x0101_0101_0101_0101 % 2 ^ 64) v dst m
    else if dst % 4 == 0
    then set_aligned 4 n (v * 0x0101_0101 % 2 ^ 32) v dst m
    else set_bytes n v dst m
