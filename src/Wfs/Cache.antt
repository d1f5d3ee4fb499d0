-- ===== src/Wfs/Cache.antt =====
-- The block cache of kernel/fs/wfs.c: 64 blocks, written through.
pub mod Coherent
pub mod Represented
pub mod Refines
pub mod Tests
use wos.Prelude.{
  ℕ, zero, suc, ◌+◌, ◌-◌, ◌*◌, ◌%◌, ◌^◌, List, [], ◌∷◌, Bool, true, false, not, ◌&&◌, Option, none,
  some, map, set, get_or, ltb, ◌==◌, if◌then◌else◌,
}
use wos.Wfs.Device.{Device, Bytes}

-- One entry of `cache`; a stamp of 0 means that it is empty.
pub record Slot : Type 0 where
  pub bytes : Bytes
  pub block : ℕ
  pub stamp : ℕ

abbrev pub empty_slot : Slot
empty_slot = record { bytes = λ _. 0; block = 0; stamp = 0 }

abbrev pub emptied : Slot → Slot
emptied s = record s { stamp = 0 }

-- CACHE_BLOCKS
abbrev pub cache_blocks : ℕ
cache_blocks = 64

-- The static variables from `partition_lba` to `cache_clock`, and the device.
pub record Io (d : Device) : Type 0 where
  pub partition : ℕ
  pub cache : List Slot
  pub clock : ℕ
  pub disk : d.State

abbrev pub holds : ℕ → Slot → Bool
holds block s = not (s.stamp == 0) && (s.block == block)

abbrev pub shift : Option ℕ → Option ℕ
shift none = none
shift (some i) = some (suc i)

-- `none` is the source's -1.
unfoldable pub cache_find : ℕ → List Slot → Option ℕ
cache_find block [] = none
cache_find block (s ∷ ss) =
    let later = shift (cache_find block ss) in if holds block s then some 0 else later

-- The loop of `cache_victim`, from entry `i` on.
unfoldable pub victim_from : (i worst oldest : ℕ) → List Slot → ℕ
victim_from i worst oldest [] = worst
victim_from i worst oldest (s ∷ ss) =
    let older = ltb s.stamp oldest in
    let later =
      victim_from (i + 1) (if older then i else worst) (if older then s.stamp else oldest) ss in
    if s.stamp == 0 then i else later

unfoldable pub cache_victim : List Slot → ℕ
cache_victim slots = victim_from 0 0 (2 ^ 64 - 1) slots

-- The slot that a block is in or goes to.
unfoldable pub slot_for : ℕ → List Slot → ℕ
slot_for block slots = elim (cache_find block slots) [ none ↦ cache_victim slots | some i ↦ i ]

module _ (d : Device) where
  -- The first of the two sectors of a block.
  abbrev pub sector_of : Io d → ℕ → ℕ
  sector_of io block = (io.partition + block * 2) % 2 ^ 32

  unfoldable pub cache_reset : Io d → Io d
  cache_reset io = record io { cache = map emptied io.cache; clock = 0 }

  abbrev pub put_slot : Io d → ℕ → Slot → Io d
  put_slot io i s = record io { cache = set io.cache i s }

  -- `cache[slot].stamp = ++cache_clock`, with what the slot then holds.
  abbrev pub stamped : Io d → ℕ → ℕ → Bytes → Io d
  stamped io i block bytes =
      let stamp = (io.clock + 1) % 2 ^ 64 in
      record io {
        cache = set io.cache i (record { bytes = bytes; block = block; stamp = stamp });
        clock = stamp;
      }

  -- A block that is not in the cache: the device fills the slot `i`. After a failure the slot is empty
  -- (its bytes are no longer of use).
  unfoldable pub fetch : Io d → (block i : ℕ) → Option Bytes → Option Bytes × Io d
  fetch io block i none = (none, put_slot io i (emptied (get_or io.cache i empty_slot)))
  fetch io block i (some bytes) = (some bytes, stamped io i block bytes)

  unfoldable pub read_at : Io d → (block : ℕ) → Option ℕ → Option Bytes × Io d
  read_at io block none =
      fetch io block (cache_victim io.cache) (d.read io.disk (sector_of io block) 2)
  read_at io block (some i) =
      let bytes = (get_or io.cache i empty_slot).bytes in (some bytes, stamped io i block bytes)

  unfoldable pub block_read : Io d → (block : ℕ) → Option Bytes × Io d
  block_read io block = read_at io block (cache_find block io.cache)

  -- Behind the write to the device, with its outcome.
  unfoldable pub after_write : Io d → (i : ℕ) → Bool × d.State → Bool × Io d
  after_write io i (true, disk) = (true, record io { disk = disk })
  after_write io i (false, disk) =
      (false, record (put_slot io i (emptied (get_or io.cache i empty_slot))) { disk = disk })

  unfoldable pub block_write : Io d → (block : ℕ) → Bytes → Bool × Io d
  block_write io block bytes =
      let i = slot_for block io.cache in
      after_write (stamped io i block bytes) i (d.write io.disk (sector_of io block) 2 bytes)

  -- Past the cache, straight from the device.
  unfoldable pub blocks_read : Io d → (first count : ℕ) → Option Bytes
  blocks_read io first count = d.read io.disk (sector_of io first) (count * 2 % 256)
