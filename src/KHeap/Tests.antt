-- ===== src/KHeap/Tests.antt =====
-- Runs of the heap, and its theorems at concrete heaps.
use wos.Prelude.{ℕ, inl, ◌<◌, ◌≡◌, ◌↔◌, refl, true, false, some, [], ◌∷◌, arith}
use wos.KHeap.{Block, Heap, panic, corrupted, ok, magic_number, init, kmalloc, kfree}
use wos.KHeap.Holds.{Holds}
use wos.KHeap.Valid.{
  IsValid, Allocates, Releases, init-IsValid, kmalloc-Allocates, kfree-Releases, kfree-panic,
  kmalloc_wraps,
}

-- 1 KiB at 0x1000: 24 bytes are in use, the rest is free.
abbrev small_heap : Heap
small_heap = record {
  blocks =
      record { addr = 0x1000; magic = magic_number; size = 24; free = false }
      ∷ record { addr = 0x1040; magic = magic_number; size = 920; free = true }
      ∷ [];
  total = 1024;
  used = 24;
}

from_init : kmalloc (init 0x1000 1024) 20 ≡ (some 0x1028, small_heap)
unfolding kmalloc init
from_init = refl

-- Outside the headers the memory is zero.
abbrev zeroed : ℕ → Block
zeroed a = record { addr = a; magic = 0; size = 0; free = false }

-- A payload that looks like a header: its pointer is released, and not caught.
abbrev forged : ℕ → Block
forged a = record { addr = a; magic = magic_number; size = 8; free = false }

forged_release : kfree forged small_heap (some 0x1078) ≡ corrupted
unfolding kfree
forged_release = refl

double_free : kfree zeroed (init 0x1000 1024) (some 0x1028) ≡ panic
unfolding kfree init
double_free = refl

small_heap-IsValid : IsValid 0x1000 small_heap
small_heap-IsValid = record {
  tiles = omega arith;
  merged = ground arith;
  counted = refl;
  small = omega arith;
}

init-IsValid_example : IsValid 0x1000 (init 0x1000 1024)
init-IsValid_example = init-IsValid 0x1000 1024 (omega arith) refl (omega arith)

-- A second block of 104 bytes.
abbrev fuller_heap : Heap
fuller_heap = record {
  blocks =
      record { addr = 0x1000; magic = magic_number; size = 24; free = false }
      ∷ record { addr = 0x1040; magic = magic_number; size = 104; free = false }
      ∷ record { addr = 0x10d0; magic = magic_number; size = 776; free = true }
      ∷ [];
  total = 1024;
  used = 128;
}

kmalloc-Allocates_example : Allocates 0x1000 small_heap small_heap-IsValid 100 0x1068 fuller_heap
unfolding kmalloc
kmalloc-Allocates_example =
    kmalloc-Allocates 0x1000 small_heap small_heap-IsValid 100 0x1068 fuller_heap refl

kfree-Releases_example :
    (h' : Heap) × (kfree zeroed small_heap (some 0x1028) ≡ ok h')
    × Releases 0x1000 small_heap small_heap-IsValid 0x1028 h'
kfree-Releases_example =
    kfree-Releases 0x1000 small_heap small_heap-IsValid zeroed 0x1028 (omega arith) (omega arith)
      (inl (refl, refl, omega arith))

freed : kfree zeroed small_heap (some 0x1028) ≡ ok (init 0x1000 1024)
unfolding kfree init
freed = refl

kfree-panic_example :
    (kfree zeroed small_heap (some 0x1068) ≡ panic) ↔ (¬ Holds 0x1068 0 small_heap.blocks)
kfree-panic_example =
    kfree-panic 0x1000 small_heap small_heap-IsValid zeroed 0x1068 (omega arith) (omega arith)
      (λ unlisted. omega arith)

kmalloc_wraps_example :
    ((kmalloc (init 0x1000 1024) 0xffff_ffff_ffff_ffff).0 ≡ some 0x1028)
    × (984 < 0xffff_ffff_ffff_ffff)
unfolding init
kmalloc_wraps_example =
    kmalloc_wraps 0x1000 (init 0x1000 1024)
      (init-IsValid 0x1000 1024 (omega arith) refl (omega arith)) 0xffff_ffff_ffff_ffff
      (omega arith) (omega arith) _ [] refl refl
