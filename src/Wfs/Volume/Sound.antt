-- ===== src/Wfs/Volume/Sound.antt =====
-- What holds of the superblock and the bitmap of kernel/fs/wfs.c in memory, between any two operations.
use wos.Prelude.{
  ℕ, zero, suc, ◌+◌, ◌-◌, ◌^◌, ◌≤◌, ◌<◌, ◌≡◌, Bool, true, false, ◌||◌, Option, none, some, arith,
  ltb, leb, Bool-cases, inl, inr,
}
use wos.Abi.{Result, ok, err}
use wos.Exec.Keeps.{Keeps}
use wos.Wfs.Device.{Device, Bytes}
use wos.Wfs.Cache.{Io, block_read, block_write}
use wos.Wfs.Layout.{Super, put_super}
use wos.Wfs.Words.{zeroes}
use wos.Wfs.Volume.{
  Volume, load, store, or_eio, done_or_eio, sync_superblock, sync_bitmap_for, sync_both, set_used,
  set_free, after_zeroing, take_block, block_alloc_from, block_alloc, block_free,
}
use wos.Wfs.Volume.Bitmap.{
  used, free_bit, IsBytes, free_count, free_count-le, free_count-use_bit, free_count-free_bit,
  use_bit-IsBytes, free_bit-IsBytes,
}

-- The superblock without the two counters.
abbrev pub fixed : Super → Super
fixed sb = record sb { free_blocks = 0; free_inodes = 0 }

-- All but the counters of the superblock is as it was when the volume was mounted (`g`), and the counter
-- of free blocks is the number of clear bits of the data area.
pub record Sound {d : Device} (g : Super) (v : Volume d) : Type 0 where
  pub geometry : fixed v.sb ≡ g
  pub small : v.sb.total_blocks < 2 ^ 32
  pub bytes : IsBytes v.bitmap
  pub counted :
      v.sb.free_blocks ≡ free_count v.bitmap v.sb.data_start (v.sb.total_blocks - v.sb.data_start)

module _ {d : Device} {g : Super} where
  pub set_io-Sound : (v : Volume d) (io : Io d) → Sound g v → Sound g (record v { io = io })
  set_io-Sound v io h = record {
    geometry = h.geometry;
    small = h.small;
    bytes = h.bytes;
    counted = h.counted;
  }

  or_eio-Sound : (out : Option Bytes × Io d) (v : Volume d) → Sound g v → Sound g (or_eio out v).1
  or_eio-Sound (none, io) v h = set_io-Sound v io h
  or_eio-Sound (some b, io) v h = set_io-Sound v io h

  pub load-Sound : (block : ℕ) → Keeps (Sound g) (load {d = d} block)
  unfolding load
  load-Sound block = record { at = λ v h. or_eio-Sound (block_read d v.io block) v h }

  done_or_eio-Sound : (out : Bool × Io d) (v : Volume d) → Sound g v → Sound g (done_or_eio out v).1
  done_or_eio-Sound (false, io) v h = set_io-Sound v io h
  done_or_eio-Sound (true, io) v h = set_io-Sound v io h

  pub store-Sound : (block : ℕ) (b : Bytes) → Keeps (Sound g) (store {d = d} block b)
  unfolding store
  store-Sound block b = record { at = λ v h. done_or_eio-Sound (block_write d v.io block b) v h }

  pub sync_superblock-Sound : Keeps (Sound g) (sync_superblock {d = d})
  unfolding sync_superblock
  sync_superblock-Sound = record { at = λ v h. (store-Sound 0 (put_super v.sb)).at v h }

  sync_both-Sound : (block : ℕ) (v : Volume d) → Sound g v → Sound g (sync_both block v)
  unfolding sync_both sync_bitmap_for
  sync_both-Sound block v h = sync_superblock-Sound.at _ ((store-Sound _ _).at v h)

  set_used-Sound :
      (v : Volume d) (block : ℕ)
      → Sound g v
      → used v.bitmap block ≡ false
      → v.sb.data_start ≤ block
      → block < v.sb.total_blocks
      → Sound g (set_used v block)
  set_used-Sound v block h free low high =
      let n = v.sb.total_blocks - v.sb.data_start in
      record {
        geometry = h.geometry;
        small = h.small;
        bytes = use_bit-IsBytes v.bitmap block h.bytes;
        counted = ground (
          arith,
          h.counted,
          h.small,
          free_count-use_bit v.bitmap v.sb.data_start n block free,
          free_count-le v.bitmap v.sb.data_start n,
        );
      }

  set_free-Sound :
      (v : Volume d) (block : ℕ)
      → Sound g v
      → used v.bitmap block ≡ true
      → v.sb.data_start ≤ block
      → block < v.sb.total_blocks
      → Sound g (set_free v block)
  set_free-Sound v block h taken low high =
      let n = v.sb.total_blocks - v.sb.data_start in
      record {
        geometry = h.geometry;
        small = h.small;
        bytes = free_bit-IsBytes v.bitmap block h.bytes;
        counted = ground (
          arith,
          h.counted,
          h.small,
          free_count-free_bit v.bitmap v.sb.data_start n block h.bytes taken,
          free_count-le (free_bit v.bitmap block) v.sb.data_start n,
        );
      }

  after_zeroing-Sound :
      (block : ℕ) (out : Result (Unit {0}) × Volume d)
      → Sound g out.1
      → Sound g (after_zeroing block out).1
  unfolding after_zeroing
  after_zeroing-Sound block (ok u, v) h = sync_both-Sound block v h
  after_zeroing-Sound block (err e, v) h = h

  take_block-Sound :
      (v : Volume d) (block : ℕ)
      → Sound g v
      → used v.bitmap block ≡ false
      → v.sb.data_start ≤ block
      → block < v.sb.total_blocks
      → Sound g (take_block block v).1
  unfolding take_block
  take_block-Sound v block h free low high =
      after_zeroing-Sound block _
        ((store-Sound block zeroes).at (set_used v block) (set_used-Sound v block h free low high))

  block_alloc_from-Sound :
      (n block : ℕ) (v : Volume d)
      → Sound g v
      → v.sb.data_start ≤ block
      → block + n ≤ v.sb.total_blocks
      → Sound g (block_alloc_from n block v).1
  unfolding block_alloc_from
  block_alloc_from-Sound zero block v h low high = h
  block_alloc_from-Sound (suc n) block v h low high = elim (Bool-cases (used v.bitmap block)) [
    | inl y ↦ rw y (block_alloc_from-Sound n (block + 1) v h (omega arith) (omega arith))
    | inr m ↦ rw m (take_block-Sound v block h m low (omega arith))
  ]

  pub block_alloc-Sound : (v : Volume d) → Sound g v → Sound g (block_alloc v).1
  unfolding block_alloc block_alloc_from
  block_alloc-Sound v h = elim (Bool-cases (leb v.sb.data_start v.sb.total_blocks)) [
    | inl y ↦ block_alloc_from-Sound _ v.sb.data_start v h (omega arith) (ground arith)
    | inr m ↦
        let e : v.sb.total_blocks - v.sb.data_start ≡ 0 = ground arith in rw (e, block_alloc_from) h
  ]

  pub block_free-Sound : (block : ℕ) (v : Volume d) → Sound g v → Sound g (block_free block v)
  unfolding block_free
  block_free-Sound block v h =
      elim (Bool-cases (ltb block v.sb.data_start || leb v.sb.total_blocks block)) [
        | inl y ↦ rw y h
        | inr m ↦ rw m (elim (Bool-cases (used v.bitmap block)) [
          | inl taken ↦ rw taken (
              sync_both-Sound block (set_free v block)
                (set_free-Sound v block h taken (ground arith) (ground arith)))
          | inr free ↦ rw free h
        ])
      ]
