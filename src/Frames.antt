-- ===== src/Frames.antt =====
-- kernel/mm/pmm.c: the allocator of physical frames, one bit per frame.
-- The bitmap is an array of 64-bit words; frame numbers and addresses are numbers that the machine's
-- memory keeps far below 2 ^ 64, so their sums do not wrap. Where a caller's count or alignment is added,
-- the wrap is written out.
pub mod Bitmap
mod Alloc
mod Runs
mod Tests
use Prim.Native.Nat.{bit_and, ◌^◌}
use wos.Prelude.{
  ℕ, zero, suc, ◌+◌, ◌-◌, ◌*◌, ◌/◌, ◌%◌, Bool, true, false, ◌&&◌, ◌||◌, not, Option, none, some,
  ltb, leb, ◌==◌, if◌then◌else◌,
}
use wos.Abi.{page_size}
use Bitmap.{Words, test, assign, unassign}

-- LOW_MEMORY_LIMIT
abbrev pub low_memory_limit : ℕ
low_memory_limit = 1024 * 1024 * 1024

-- The file's static variables.
pub record Frames : Type 0 where
  pub bitmap : Words
  pub total : ℕ
  pub usable : ℕ
  pub holes : ℕ
  pub used : ℕ
  pub reserved : ℕ
  pub heap_base : ℕ
  pub next_hint : ℕ
  pub next_hint_low : ℕ

pub mark_used : Frames → ℕ → Frames
mark_used p frame =
    if leb p.total frame || test p.bitmap frame
    then p
    else record p { bitmap = assign p.bitmap frame; used = p.used + 1 }

pub mark_free : Frames → ℕ → Frames
mark_free p frame =
    if leb p.total frame || not (test p.bitmap frame)
    then p
    else record p { bitmap = unassign p.bitmap frame; used = p.used - 1 }

-- ALIGN_UP and ALIGN_DOWN: `~(a - 1)` on 64 bits as a mask.
abbrev pub align_down : ℕ → ℕ → ℕ
align_down x a = bit_and x (2 ^ 64 - 1 - (a - 1))

abbrev pub align_up : ℕ → ℕ → ℕ
align_up x a = align_down ((x + (a - 1)) % 2 ^ 64) a

-- `for (a = ...; a < end; a += PAGE_SIZE)`, on fuel.
pub reserve_from : (fuel : ℕ) → Frames → (a end : ℕ) → Frames
unfolding mark_used
reserve_from zero p a end = p
reserve_from (suc fuel) p a end =
    let rest = reserve_from fuel (mark_used p (a / page_size)) (a + page_size) end in
    if ltb a end then rest else p

-- `for (a = ...; a + PAGE_SIZE <= end; a += PAGE_SIZE)`, on fuel.
pub free_from : (fuel : ℕ) → Frames → (a end : ℕ) → Frames
unfolding mark_free
free_from zero p a end = p
free_from (suc fuel) p a end =
    let rest = free_from fuel (mark_free p (a / page_size)) (a + page_size) end in
    if leb (a + page_size) end then rest else p

-- One round for every page up to `end`, and one more.
abbrev pub rounds : (start end : ℕ) → ℕ
rounds start end = (end - start) / page_size + 2

pub reserve_range : Frames → (start end : ℕ) → Frames
unfolding reserve_from
reserve_range p start end = reserve_from (rounds start end) p (align_down start page_size) end

pub free_range : Frames → (start end : ℕ) → Frames
unfolding free_from
free_range p start end = free_from (rounds start end) p (align_up start page_size) end

pub release_range : Frames → (start end : ℕ) → Frames
unfolding free_range
release_range p start end =
    let q = free_range p start end in
    let freed = p.used - q.used in
    record q { reserved = if ltb freed q.reserved then q.reserved - freed else 0 }

-- `for (f = from; f < to; f++)`: the first free frame among `n` from `f` on.
pub scan : Words → (n f : ℕ) → Option ℕ
scan bitmap zero f = none
scan bitmap (suc n) f = let rest = scan bitmap n (f + 1) in if test bitmap f then rest else some f

-- The two passes of `alloc_scan`, with the frame that they find.
pub find_free : Words → (start_frame end_frame hint : ℕ) → Option ℕ
unfolding scan
find_free bitmap start_frame end_frame hint =
    let begin = if leb start_frame hint && ltb hint end_frame then hint else start_frame in
    elim (scan bitmap (end_frame - begin) begin) [
      | some f ↦ some f
      | none ↦ scan bitmap (begin - start_frame) start_frame
    ]

abbrev pub taken : Frames → ℕ → Frames
taken p f = record p { bitmap = assign p.bitmap f; used = p.used + 1 }

-- The physical address, 0 for failure.
pub alloc_frame : Frames → ℕ × Frames
unfolding find_free
alloc_frame p = elim (find_free p.bitmap 0 p.total p.next_hint) [
  | none ↦ (0, p)
  | some f ↦ (f * page_size, record (taken p f) { next_hint = f + 1 })
]

abbrev pub low_limit : Frames → ℕ
low_limit p =
    if ltb p.total (low_memory_limit / page_size) then p.total else low_memory_limit / page_size

pub alloc_frame_low : Frames → ℕ × Frames
unfolding find_free
alloc_frame_low p = elim (find_free p.bitmap 0 (low_limit p) p.next_hint_low) [
  | none ↦ (0, p)
  | some f ↦ (f * page_size, record (taken p f) { next_hint_low = f + 1 })
]

-- `for (i = 0; i < count; i++) if (bitmap_test(start + i)) break;`: the `i` that stopped the loop.
pub blocked_at : Words → (start n i : ℕ) → Option ℕ
blocked_at bitmap start zero i = none
blocked_at bitmap start (suc n) i =
    let rest = blocked_at bitmap start n (i + 1) in if test bitmap (start + i) then some i else rest

-- The search for a run. A start that is taken is left for the first aligned one past the frame that
-- blocks it.
pub find_run : (fuel : ℕ) → Words → (count align limit start : ℕ) → Option ℕ
unfolding blocked_at
find_run zero bitmap count align limit start = none
find_run (suc fuel) bitmap count align limit start =
    if leb ((start + count) % 2 ^ 64) limit
    then (elim (blocked_at bitmap start count 0) [
      | none ↦ some start
      | some i ↦ find_run fuel bitmap count align limit (align_up (start + i + 1) align)
    ])
    else none

-- `for (i = 0; i < count; i++) bitmap_set(start + i);`
pub assign_run : Words → (start n : ℕ) → Words
assign_run bitmap start zero = bitmap
assign_run bitmap start (suc n) = assign_run (assign bitmap start) (start + 1) n

-- The search is given one round for each frame below the limit.
pub alloc_contiguous : Frames → (count align_frames : ℕ) → ℕ × Frames
unfolding find_run assign_run
alloc_contiguous p count align_frames =
    let align = if ltb align_frames 1 then 1 else align_frames in
    if count == 0
    then (0, p)
    else elim (find_run (low_limit p + 1) p.bitmap count align (low_limit p) (align_up 1 align)) [
      | none ↦ (0, p)
      | some start ↦ (
        start * page_size,
        record p { bitmap = assign_run p.bitmap start count; used = p.used + count },
      )
    ]

-- `none` is the panic on a frame that is free already.
pub free_frame : Frames → ℕ → Option Frames
free_frame p phys =
    let frame = phys / page_size in
    if leb p.total frame
    then some p
    else if not (test p.bitmap frame)
    then none
    else some (record p {
      bitmap = unassign p.bitmap frame;
      used = p.used - 1;
      next_hint = if ltb frame p.next_hint then frame else p.next_hint;
      next_hint_low =
          if ltb phys low_memory_limit && ltb frame p.next_hint_low then frame else p.next_hint_low;
    })

-- `for (i = 0; i < count; i++) pmm_free_frame(phys + i * PAGE_SIZE);`
pub free_contiguous : Frames → (phys count : ℕ) → Option Frames
unfolding free_frame
free_contiguous p phys zero = some p
free_contiguous p phys (suc count) = elim (free_frame p phys) [
  | none ↦ none
  | some q ↦ free_contiguous q (phys + page_size) count
]

-- The figures, in bytes.
pub total_bytes : Frames → ℕ
total_bytes p = p.usable * page_size

pub free_bytes : Frames → ℕ
free_bytes p = (p.total - p.used) * page_size

pub used_bytes : Frames → ℕ
unfolding total_bytes free_bytes
used_bytes p = total_bytes p - free_bytes p

pub kernel_bytes : Frames → ℕ
kernel_bytes p = p.reserved * page_size
