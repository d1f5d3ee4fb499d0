-- ===== src/KHeap.antt =====
-- kernel/mm/kheap.c: the kernel's first-fit heap with splitting and coalescing.
-- The doubly linked list of headers is a list in its order, each header with its address; `prev`
-- and `next` are the neighbours in the list. A header takes 40 bytes, and a payload begins right
-- behind it. Sizes are 64-bit words, and the sums that can wrap are written out.
mod Blocks
mod Alloc
mod Undo
mod Tests
mod Panic
mod Valid
mod Release
mod Holds
mod Free
use wos.Prelude.{
  ℕ, ◌+◌, ◌-◌, ◌*◌, ◌/◌, ◌%◌, ◌^◌, List, [], ◌∷◌, Bool, true, false, not, ◌&&◌, Option, none, some,
  leb, ◌==◌, if◌then◌else◌,
}

-- sizeof(struct block)
abbrev pub header : ℕ
header = 40

-- MIN_SPLIT
abbrev pub min_split : ℕ
min_split = 32

abbrev pub word : ℕ
word = 2 ^ 64

-- KHEAP_MAGIC
abbrev pub magic_number : ℕ
magic_number = 0x57484541

pub record Block : Type 0 where
  pub addr : ℕ
  pub magic : ℕ
  pub size : ℕ
  pub free : Bool

-- `heap_head` with all that it links to, `heap_total` and `heap_used`.
pub record Heap : Type 0 where
  pub blocks : List Block
  pub total : ℕ
  pub used : ℕ

pub init : (base size : ℕ) → Heap
init base size = record {
  blocks = record { addr = base; magic = magic_number; size = size - header; free = true } ∷ [];
  total = size;
  used = 0;
}

-- ALIGN_UP(size, 8) on a 64-bit word
abbrev pub align_8 : ℕ → ℕ
align_8 size = (size + 7) % word / 8 * 8

-- The header of what is left behind `size` bytes of the payload of `b`.
abbrev pub remainder : Block → ℕ → Block
remainder b size = record {
  addr = b.addr + header + size;
  magic = magic_number;
  size = b.size - size - header;
  free = true;
}

-- Takes the block `b`, with `rest` behind it: the header given out, and the list from it on.
pub take_block : ℕ → Block → List Block → Block × List Block
take_block size b rest =
    if leb ((size + header + min_split) % word) b.size
    then (let given : Block = record b { size = size; free = false } in
        (given, given ∷ remainder b size ∷ rest))
    else (let given : Block = record b { free = false } in (given, given ∷ rest))

-- `for (b = heap_head; b; b = b->next)`
pub first_fit : ℕ → List Block → Option (Block × List Block)
unfolding take_block
first_fit size [] = none
first_fit size (b ∷ bs) =
    let later : Option (Block × List Block) = elim (first_fit size bs) [
      | none ↦ none
      | some (g, bs') ↦ some (g, b ∷ bs')
    ] in
    if b.free && leb size b.size then some (take_block size b bs) else later

-- `none` is NULL.
pub kmalloc : Heap → ℕ → Option ℕ × Heap
unfolding first_fit
kmalloc h size = if size == 0 then (none, h) else elim (first_fit (align_8 size) h.blocks) [
  | none ↦ (none, h)
  | some (given, blocks) ↦ (
    some (given.addr + header),
    record h { blocks = blocks; used = (h.used + given.size) % word },
  )
]

-- `coalesce_with_next`, of the first header of the list.
pub coalesce_with_next : List Block → List Block
coalesce_with_next [] = []
coalesce_with_next (b ∷ []) = b ∷ []
coalesce_with_next (b ∷ n ∷ bs) =
    if n.free && b.free
    then record b { size = (b.size + n.size + header) % word } ∷ bs
    else b ∷ n ∷ bs

-- `panic` stops the machine. `corrupted` is a release that writes to memory which holds no header of
-- the list, but passes for one.
pub data Freed (A : Type 0) : Type 0 where
  panic : Freed A
  corrupted : Freed A
  ok : A → Freed A

abbrev pub after_block : Block → Freed (ℕ × List Block) → Freed (ℕ × List Block)
after_block b panic = panic
after_block b corrupted = corrupted
after_block b (ok (size, bs)) = ok (size, b ∷ bs)

-- The header passes the two checks of `kfree`.
abbrev pub can_free : Block → Bool
can_free b = (b.magic == magic_number) && not b.free

-- Frees the block that starts the list: its size, and the list.
pub free_first : Block → List Block → Freed (ℕ × List Block)
unfolding coalesce_with_next
free_first b bs =
    if can_free b then ok (b.size, coalesce_with_next (record b { free = true } ∷ bs)) else panic

-- Merges the block `p` with the list behind it, if that was freed: `b->prev` of `kfree`.
abbrev pub merge_prev : Block → Freed (ℕ × List Block) → Freed (ℕ × List Block)
merge_prev p panic = panic
merge_prev p corrupted = corrupted
merge_prev p (ok (size, bs)) = ok (size, coalesce_with_next (p ∷ bs))

-- The list has no header at the address: what the memory holds there, read as a header, is tested.
abbrev pub free_stray : Block → Freed (ℕ × List Block)
free_stray found = if can_free found then corrupted else panic

-- Frees the block at the address `a` behind the block `p`; `found` is what the memory holds at `a`
-- where that is no header of the list.
pub free_behind : (found : Block) → ℕ → Block → List Block → Freed (ℕ × List Block)
unfolding free_first
free_behind found a p [] = free_stray found
free_behind found a p (b ∷ bs) =
    let later = after_block p (free_behind found a b bs) in
    if b.addr == a then merge_prev p (free_first b bs) else later

pub free_at : (found : Block) → ℕ → List Block → Freed (ℕ × List Block)
unfolding free_behind
free_at found a [] = free_stray found
free_at found a (b ∷ bs) = if b.addr == a then free_first b bs else free_behind found a b bs

-- The heap after the list was freed from: `heap_used -= b->size`.
abbrev pub give_back : Heap → Freed (ℕ × List Block) → Freed Heap
give_back h panic = panic
give_back h corrupted = corrupted
give_back h (ok (size, blocks)) =
    ok (record h { blocks = blocks; used = (h.used + word - size) % word })

-- `memory` is what the memory outside the list's headers holds at an address, read as a header.
pub kfree : (memory : ℕ → Block) → Heap → Option ℕ → Freed Heap
unfolding free_at
kfree memory h none = ok h
kfree memory h (some p) =
    let a = (p + word - header) % word in give_back h (free_at (memory a) a h.blocks)

-- `kheap_used_bytes`, `kheap_total_bytes` and `kheap_free_bytes`
pub used_bytes : Heap → ℕ
used_bytes h = h.used

pub total_bytes : Heap → ℕ
total_bytes h = h.total

pub free_bytes : Heap → ℕ
free_bytes h = (h.total + word - h.used) % word
