-- ===== src/Shm.antt =====
-- kernel/mm/shm.c: where a shared memory object goes in the address space of a process.
mod Objects
mod Regions
mod Tests
use wos.Prelude.{
  ℕ, zero, suc, ◌+◌, ◌*◌, ◌%◌, ◌^◌, Bool, true, false, ◌&&◌, ◌||◌, Option, none, some, List, [],
  ◌∷◌, ltb, if◌then◌else◌,
}
use wos.Abi.{page_size}

-- USER_MMAP_BASE and USER_MMAP_TOP
abbrev pub mmap_base : ℕ
mmap_base = 2147483648

abbrev pub mmap_top : ℕ
mmap_top = 2952790016

-- `shm_mapping_t`; the object is a number that stands for its address.
pub record Mapping : Type 0 where
  pub shm : Option ℕ
  pub base : ℕ
  pub pages : ℕ

-- The sum of two values of type uint64_t.
abbrev pub add64 : ℕ → ℕ → ℕ
add64 a b = (a + b) % 2 ^ 64

abbrev pub in_use : Option ℕ → Bool
in_use none = false
in_use (some s) = true

pub end_of : Mapping → ℕ
end_of m = add64 m.base (m.pages * page_size)

-- The local variables `base` and `moved`.
pub record Place : Type 0 where
  pub base : ℕ
  pub moved : Bool

-- One round of the inner loop.
pub step : (want : ℕ) → Mapping → Place → Place
unfolding end_of
step want m p =
    if in_use m.shm && (ltb p.base (end_of m) && ltb m.base (add64 p.base want))
    then record { base = end_of m; moved = true }
    else p

pub sweep : (want : ℕ) → List Mapping → Place → Place
unfolding step
sweep want [] p = p
sweep want (m ∷ ms) p = sweep want ms (step want m p)

-- The outer loop, on fuel.
pub sweeps : (fuel want : ℕ) → List Mapping → ℕ → ℕ
unfolding sweep
sweeps zero want maps base = base
sweeps (suc fuel) want maps base =
    let p = sweep want maps (record { base = base; moved = false }) in
    let rest = sweeps fuel want maps p.base in if p.moved then rest else p.base

-- Every sweep but the last moves the base, by a byte or more.
pub find_region : List Mapping → (pages : ℕ) → ℕ
unfolding sweeps
find_region maps pages =
    let want = pages * page_size in
    let base = sweeps mmap_top want maps mmap_base in
    if ltb mmap_top (add64 base want) || ltb (add64 base want) base then 0 else base
