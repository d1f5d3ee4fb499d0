-- ===== src/Memory/Copy.antt =====
-- kernel/lib/string.c: what the copies and fills of memory leave behind.
use wos.Prelude.{
  ℕ, zero, suc, ◌+◌, ◌-◌, ◌*◌, ◌/◌, ◌%◌, ◌^◌, ◌<◌, ◌≤◌, ◌≡◌, ◌≢◌, ◌⊎◌, ap, inl, inr, Bool, ◌&&◌,
  ◌||◌, arith, Bool-cases, ltb, leb, ◌==◌, if◌then◌else◌, update,
}
use wos.Memory.{
  Mem, store, move_word, copy_words, copy_bytes, copy_back, copy_aligned, memcpy, memmove, byte_of,
  set_words, set_bytes, set_aligned, memset,
}

-- Whether the address `a` is one of the `n` from `dst` on.
abbrev pub inside : (dst n a : ℕ) → Bool
inside dst n a = leb dst a && ltb a (dst + n)

-- Equal addresses hold equal bytes.
same_at : (f : ℕ → ℕ) (x y : ℕ) → (x ≢ y) ⊎ (f x ≡ f y)
same_at f x y = elim (Bool-cases (x == y)) [
  | inl e ↦ inr (ap f (ground arith))
  | inr ne ↦ inl (ground arith)
]

store-at :
    (k dst : ℕ) (word : ℕ → ℕ) (m : Mem) (a : ℕ)
    → store k dst word m a ≡ (if inside dst k a then word (a - dst) else m a)
unfolding store update
store-at zero dst word m a = ground arith
store-at (suc k) dst word m a =
    ground (arith, store-at k dst word (update m (dst + k) (word k)) a, same_at word k (a - dst))

-- One area behind the other, or the copy goes down: a byte is read before it is overwritten.
copy_bytes-at :
    (n dst src : ℕ) (m : Mem)
    → (dst ≤ src) ⊎ (src + n ≤ dst)
    → (a : ℕ) → copy_bytes n dst src m a ≡ (if inside dst n a then m (src + (a - dst)) else m a)
unfolding copy_bytes update
copy_bytes-at zero dst src m h a = ground arith
copy_bytes-at (suc n) dst src m h a = ground (
  arith,
  copy_bytes-at n (dst + 1) (src + 1) (update m dst (m src)) (omega arith) a,
  same_at m (src + 1 + (a - (dst + 1))) (src + (a - dst)),
  same_at m src (src + (a - dst)),
)

copy_back-at :
    (n dst src : ℕ) (m : Mem)
    → src ≤ dst
    → (a : ℕ) → copy_back n dst src m a ≡ (if inside dst n a then m (src + (a - dst)) else m a)
unfolding copy_back update
copy_back-at zero dst src m h a = ground arith
copy_back-at (suc n) dst src m h a = ground (
  arith,
  copy_back-at n dst src (update m (dst + n) (m (src + n))) h a,
  same_at m (src + n) (src + (a - dst)),
)

set_bytes-at :
    (n v dst : ℕ) (m : Mem) (a : ℕ) → set_bytes n v dst m a ≡ (if inside dst n a then v else m a)
unfolding set_bytes update
set_bytes-at zero v dst m a = ground arith
set_bytes-at (suc n) v dst m a = ground (arith, set_bytes-at n v (dst + 1) (update m dst v) a)

suc_times : (count k : ℕ) → suc count * k ≡ k + count * k
suc_times count k = omega arith

move_word-at :
    (k dst src : ℕ) (m : Mem) (a : ℕ)
    → move_word k dst src m a ≡ (if inside dst k a then m (src + (a - dst)) else m a)
unfolding move_word
move_word-at k dst src m a = store-at k dst (λ i. m (src + i)) m a

copy_words-at :
    (k count dst src : ℕ) (m : Mem)
    → (dst ≤ src) ⊎ (src + count * k ≤ dst)
    → (a : ℕ)
    → copy_words k count dst src m a
      ≡ (if inside dst (count * k) a then m (src + (a - dst)) else m a)
unfolding copy_words
copy_words-at k zero dst src m h a = ground arith
copy_words-at k (suc count) dst src m h a = ground (
  arith,
  suc_times count k,
  copy_words-at k count (dst + k) (src + k) (move_word k dst src m)
      (ground (arith, suc_times count k)) a,
  move_word-at k dst src m a,
  move_word-at k dst src m (src + k + (a - (dst + k))),
  same_at m (src + k + (a - (dst + k))) (src + (a - dst)),
)

copy_aligned-at :
    (k n dst src : ℕ) (m : Mem)
    → (dst ≤ src) ⊎ (src + n ≤ dst)
    → n ≡ n / k * k + n % k
    → (a : ℕ) → copy_aligned k n dst src m a ≡ (if inside dst n a then m (src + (a - dst)) else m a)
unfolding copy_aligned
copy_aligned-at k n dst src m h split a =
    let w = n / k * k in
    let b = src + w + (a - (dst + w)) in
    ground (
      arith,
      copy_bytes-at (n % k) (dst + w) (src + w) (copy_words k (n / k) dst src m) (ground arith) a,
      copy_words-at k (n / k) dst src m (ground arith) a,
      copy_words-at k (n / k) dst src m (ground arith) b,
      same_at m b (src + (a - dst)),
    )

-- With the destination not above the source, or behind its end, memcpy leaves each byte of the
-- destination as the byte of the source was, and every other byte as it is; at any alignment.
pub memcpy-copies :
    (dst src n : ℕ) (m : Mem)
    → (dst ≤ src) ⊎ (src + n ≤ dst)
    → (a : ℕ) → memcpy dst src n m a ≡ (if inside dst n a then m (src + (a - dst)) else m a)
unfolding memcpy
memcpy-copies dst src n m h a = elim (Bool-cases ((dst % 8 == 0) && (src % 8 == 0))) [
  | inl eight ↦ rw eight (copy_aligned-at 8 n dst src m h (omega arith) a)
  | inr other ↦ elim (Bool-cases ((dst % 4 == 0) && (src % 4 == 0))) [
    | inl four ↦ rw (other, four) (copy_aligned-at 4 n dst src m h (omega arith) a)
    | inr odd ↦ rw (other, odd) (copy_bytes-at n dst src m h a)
  ]
]

-- Also where the two areas overlap, memmove leaves each byte of the destination as the byte of the
-- source was, and every other byte as it is.
pub memmove-copies :
    (dst src n : ℕ) (m : Mem) (a : ℕ)
    → memmove dst src n m a ≡ (if inside dst n a then m (src + (a - dst)) else m a)
unfolding memmove
memmove-copies dst src n m a = elim (Bool-cases ((dst == src) || (n == 0))) [
  | inl still ↦ rw still (ground (arith, same_at m a (src + (a - dst))))
  | inr moves ↦ elim (Bool-cases (ltb dst src)) [
    | inl up ↦ rw (moves, up) (copy_bytes-at n dst src m (ground arith) a)
    | inr down ↦ rw (moves, down) (copy_back-at n dst src m (ground arith) a)
  ]
]

set_words-at :
    (k count v word dst : ℕ) (m : Mem)
    → ((i : ℕ) → i < k → byte_of word i ≡ v)
    → (a : ℕ) → set_words k count word dst m a ≡ (if inside dst (count * k) a then v else m a)
unfolding set_words
set_words-at k zero v word dst m h a = ground arith
set_words-at k (suc count) v word dst m h a =
    let later = set_words-at k count v word (dst + k) (store k dst (byte_of word) m) h a in
    let first = store-at k dst (byte_of word) m a in
    elim (Bool-cases (inside dst k a)) [
      | inl within ↦ ground (arith, suc_times count k, later, first, h (a - dst) (ground arith))
      | inr outside ↦ ground (arith, suc_times count k, later, first)
    ]

set_aligned-at :
    (k n word v dst : ℕ) (m : Mem)
    → ((i : ℕ) → i < k → byte_of word i ≡ v)
    → n ≡ n / k * k + n % k
    → (a : ℕ) → set_aligned k n word v dst m a ≡ (if inside dst n a then v else m a)
unfolding set_aligned
set_aligned-at k n word v dst m h split a =
    let w = n / k * k in
    ground (
      arith,
      set_bytes-at (n % k) v (dst + w) (set_words k (n / k) word dst m) a,
      set_words-at k (n / k) v word dst m h a,
    )

byte_of-four : (v i : ℕ) → v < 256 → i < 4 → byte_of (v * 0x0101_0101 % 2 ^ 32) i ≡ v
byte_of-four v zero h l = omega arith
byte_of-four v (suc zero) h l = omega arith
byte_of-four v (suc (suc zero)) h l = omega arith
byte_of-four v (suc (suc (suc zero))) h l = omega arith
byte_of-four v (suc (suc (suc (suc i)))) h l = absurd (omega arith)

byte_of-eight : (v i : ℕ) → v < 256 → i < 8 → byte_of (v * 0x0101_0101_0101_0101 % 2 ^ 64) i ≡ v
byte_of-eight v zero h l = omega arith
byte_of-eight v (suc zero) h l = omega arith
byte_of-eight v (suc (suc zero)) h l = omega arith
byte_of-eight v (suc (suc (suc zero))) h l = omega arith
byte_of-eight v (suc (suc (suc (suc zero)))) h l = omega arith
byte_of-eight v (suc (suc (suc (suc (suc zero))))) h l = omega arith
byte_of-eight v (suc (suc (suc (suc (suc (suc zero)))))) h l = omega arith
byte_of-eight v (suc (suc (suc (suc (suc (suc (suc zero))))))) h l = omega arith
byte_of-eight v (suc (suc (suc (suc (suc (suc (suc (suc i)))))))) h l = absurd (omega arith)

-- memset leaves the low byte of its argument at each address of the area, and every other byte as it
-- is; at any alignment.
pub memset-fills :
    (dst c n : ℕ) (m : Mem) (a : ℕ) → memset dst c n m a ≡ (if inside dst n a then c % 256 else m a)
unfolding memset
memset-fills dst c n m a = elim (Bool-cases (dst % 8 == 0)) [
  | inl eight ↦ rw eight (
      set_aligned-at 8 n (c % 256 * 0x0101_0101_0101_0101 % 2 ^ 64) (c % 256) dst m
        (λ i l. byte_of-eight (c % 256) i (omega arith) l) (omega arith) a)
  | inr other ↦ elim (Bool-cases (dst % 4 == 0)) [
    | inl four ↦
        rw (other, four)
          (set_aligned-at 4 n (c % 256 * 0x0101_0101 % 2 ^ 32) (c % 256) dst m
            (λ i l. byte_of-four (c % 256) i (omega arith) l) (omega arith) a)
    | inr odd ↦ rw (other, odd) (set_bytes-at n (c % 256) dst m a)
  ]
]
