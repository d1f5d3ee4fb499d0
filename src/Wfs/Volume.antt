-- ===== src/Wfs/Volume.antt =====
-- The state of a mounted volume of kernel/fs/wfs.c, its superblock and bitmap of blocks in memory, and
-- the allocation of blocks.
pub mod Bitmap
pub mod Sound
pub mod Stored
pub mod Alloc
pub mod Gives
use wos.Prelude.{
  ℕ, zero, suc, ◌+◌, ◌-◌, ◌*◌, ◌/◌, ◌%◌, ◌^◌, Bool, true, false, not, ◌||◌, Option, none, some,
  update, ltb, leb, if◌then◌else◌,
}
use wos.Wfs.Volume.Bitmap.{used, use_bit, free_bit}
use wos.Abi.{Error, eio, Result, ok, err}
use wos.Exec.{Exec}
use wos.Wfs.Device.{Device, Bytes}
use wos.Wfs.Cache.{Io, block_read, block_write}
use wos.Wfs.Words.{zeroes}
use wos.Wfs.Layout.{Super, block_size, put_super}

-- The static variables of the file. `now` is what the clock, `rtc_epoch`, says, and `junk` what is in a
-- local buffer before anything is written there.
pub record Volume (d : Device) : Type 0 where
  pub sb : Super
  pub bitmap : Bytes
  pub mounted : Bool
  pub io : Io d
  pub now : ℕ
  pub junk : Bytes

module _ {d : Device} where
  -- `block_read` and `block_write` for a caller that returns -W_EIO where they fail.
  abbrev pub or_eio : Option Bytes × Io d → Exec (Volume d) Bytes
  or_eio (none, io) v = (err eio, record v { io = io })
  or_eio (some b, io) v = (ok b, record v { io = io })

  unfoldable pub load : (block : ℕ) → Exec (Volume d) Bytes
  load block v = or_eio (block_read d v.io block) v

  abbrev pub done_or_eio : Bool × Io d → Exec (Volume d) (Unit {0})
  done_or_eio (false, io) v = (err eio, record v { io = io })
  done_or_eio (true, io) v = (ok tt, record v { io = io })

  unfoldable pub store : (block : ℕ) → Bytes → Exec (Volume d) (Unit {0})
  store block b v = done_or_eio (block_write d v.io block b) v

  unfoldable pub sync_superblock : Exec (Volume d) (Unit {0})
  sync_superblock v = store 0 (put_super v.sb) v

  -- The block of the bitmap that has the bit of `block`, from the bitmap in memory.
  unfoldable pub sync_bitmap_for : (block : ℕ) → Exec (Volume d) (Unit {0})
  sync_bitmap_for block v =
      let index = block / (block_size * 8) in
      store ((v.sb.bitmap_start + index) % 2 ^ 32) (λ i. v.bitmap (index * block_size + i)) v

  abbrev pub bitmap_test : Volume d → (block : ℕ) → Bool
  bitmap_test v block = used v.bitmap block

  abbrev pub set_used : Volume d → (block : ℕ) → Volume d
  set_used v block = record v {
    bitmap = use_bit v.bitmap block;
    sb = record (v.sb) { free_blocks = (v.sb.free_blocks + 2 ^ 32 - 1) % 2 ^ 32 };
  }

  abbrev pub set_free : Volume d → (block : ℕ) → Volume d
  set_free v block = record v {
    bitmap = free_bit v.bitmap block;
    sb = record (v.sb) { free_blocks = (v.sb.free_blocks + 1) % 2 ^ 32 };
  }

  -- Both are written back, whether they arrive or not.
  unfoldable pub sync_both : (block : ℕ) → Volume d → Volume d
  sync_both block v = (sync_superblock (sync_bitmap_for block v).1).1

  -- Behind the write of zeroes, with its outcome.
  unfoldable pub after_zeroing : (block : ℕ) → Result (Unit {0}) × Volume d → ℕ × Volume d
  after_zeroing block (ok u, v) = (block, sync_both block v)
  after_zeroing block (err e, v) = (0, v)

  unfoldable pub take_block : (block : ℕ) → Volume d → ℕ × Volume d
  take_block block v = after_zeroing block (store block zeroes (set_used v block))

  -- The loop of `block_alloc` over `count` blocks from `block` on.
  unfoldable pub block_alloc_from : (count block : ℕ) → Volume d → ℕ × Volume d
  block_alloc_from zero block v = (0, v)
  block_alloc_from (suc n) block v =
      let later = block_alloc_from n (block + 1) v in
      let here = take_block block v in if bitmap_test v block then later else here

  unfoldable pub block_alloc : Volume d → ℕ × Volume d
  block_alloc v = block_alloc_from (v.sb.total_blocks - v.sb.data_start) v.sb.data_start v

  unfoldable pub block_free : (block : ℕ) → Volume d → Volume d
  block_free block v =
      if ltb block v.sb.data_start || leb v.sb.total_blocks block
      then v
      else if not (bitmap_test v block)
      then v
      else sync_both block (set_free v block)
