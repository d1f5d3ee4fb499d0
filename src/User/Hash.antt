-- ===== src/User/Hash.antt =====
-- `hash_password` and `hash_equal` of kernel/fs/user.c: words of 64 bits.
pub mod Equal
use Prim.Native.Nat.{bit_or, bit_xor}
use wos.Prelude.{ℕ, zero, suc, ◌*◌, ◌/◌, ◌%◌, ◌^◌, List, [], ◌∷◌, Bool, ◌==◌, if◌then◌else◌}

-- `h ^= x; h *= 0x100000001b3;`
pub mix : (h x : ℕ) → ℕ
mix h x = bit_xor h x * 0x1_0000_01b3 % 2 ^ 64

pub mix_all : ℕ → List ℕ → ℕ
mix_all h [] = h
mix_all h (c ∷ cs) = mix_all (mix h c) cs

pub hash_rounds : (rounds : ℕ) → (h salt : ℕ) → List ℕ → ℕ
hash_rounds zero h salt password = h
hash_rounds (suc rounds) h salt password =
    hash_rounds rounds (mix (mix_all h password) salt) salt password

-- Never 0, which means that no password is set.
unfoldable pub hash_password : (salt : ℕ) → List ℕ → ℕ
hash_password salt password =
    let h = hash_rounds 4096 (bit_xor 0xcbf2_9ce4_8422_2325 salt) salt password in
    if h == 0 then 1 else h

-- `for (i = 0; i < 8; i++) acc |= (uint8_t)(diff >> (i * 8));`: the bytes from `diff` on.
unfoldable pub or_bytes : (n diff acc : ℕ) → ℕ
or_bytes zero diff acc = acc
or_bytes (suc n) diff acc = or_bytes n (diff / 256) (bit_or acc (diff % 256))

unfoldable pub hash_equal : ℕ → ℕ → Bool
unfolding or_bytes
hash_equal a b = or_bytes 8 (bit_xor a b) 0 == 0
