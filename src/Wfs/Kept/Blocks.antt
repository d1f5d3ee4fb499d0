-- ===== src/Wfs/Kept/Blocks.antt =====
-- The block mapping of kernel/fs/wfs.c keeps what holds of the superblock and the bitmap.
use wos.Prelude.{ℕ, zero, suc, ◌+◌, Bool, true, false, List, [], ◌∷◌, ◌==◌, if◌then◌else◌}
use wos.Abi.{Result, ok, err}
use wos.Exec.{Exec, modify}
use wos.Exec.Keeps.{Keeps, Keeps-modify, keeps_rules}
use wos.Wfs.Device.{Device, Bytes}
use wos.Wfs.Layout.{Super}
use wos.Wfs.Volume.{Volume, load, block_alloc}
use wos.Wfs.Volume.Sound.{Sound, load-Sound, store-Sound, block_alloc-Sound, block_free-Sound}
use wos.Wfs.Mapping.{
  Pointer, Mapping, on_volume, or_enospc, new_block, counted, pointing, fill_slot, table_slot,
  through, bmap_direct, bmap_indirect, bmap_double, bmap, free_if, free_entries, free_read,
  free_table, free_middle, free_middles, free_outer, free_direct, free_indirect, free_double,
  wfs_truncate,
}
use wos.Wfs.Kept.{wfs_read_inode-Sound, write_inode-Sound}

-- The same of a call with the caller's inode.
pub record SoundMapping {d : Device} (g : Super) (s : Mapping d) : Type 0 where
  pub sound : Sound g s.volume

module _ {d : Device} {g : Super} where
  through_volume :
      (m : Volume d → ℕ × Volume d) (out : ℕ × Volume d) → Sound g out.1 → Sound g (or_enospc out).1
  through_volume m (zero, v) h = h
  through_volume m (suc b, v) h = h

  pub new_block-Sound : Keeps (Sound {d = d} g) new_block
  unfolding new_block
  new_block-Sound = record {
    at = λ v h. through_volume block_alloc (block_alloc v) (block_alloc-Sound v h);
  }

  pub on_volume-Sound :
      {A : Type 0} (m : Exec (Volume d) A)
      → Keeps (Sound g) m
      → Keeps (SoundMapping {d = d} g) (on_volume m)
  unfolding on_volume
  on_volume-Sound m k = record { at = λ s h. record { sound = k.at s.volume h.sound } }

  pub counted-Sound : Keeps (SoundMapping {d = d} g) (modify counted)
  counted-Sound = Keeps-modify counted (λ s h. record { sound = h.sound })

  pub pointing-Sound :
      (p : Pointer) (b : ℕ)
      → Keeps (SoundMapping {d = d} g) (modify (λ s. counted (pointing p b s)))
  pointing-Sound (Pointer.in_direct i) b = Keeps-modify _ (λ s h. record { sound = h.sound })
  pointing-Sound Pointer.in_indirect b = Keeps-modify _ (λ s h. record { sound = h.sound })
  pointing-Sound Pointer.in_double b = Keeps-modify _ (λ s h. record { sound = h.sound })

  pub ruleset mapping_rules = (
    keeps_rules, on_volume-Sound, new_block-Sound, load-Sound, store-Sound, counted-Sound,
    pointing-Sound,
  )

  fill_slot-Sound :
      (p : Pointer) (alloc : Bool) → Keeps (SoundMapping {d = d} g) (fill_slot p alloc)
  unfolding fill_slot
  fill_slot-Sound p alloc = search mapping_rules depth 14

  table_slot-Sound :
      (t i : ℕ) (alloc : Bool) → Keeps (SoundMapping {d = d} g) (table_slot t i alloc)
  unfolding table_slot
  table_slot-Sound t i alloc = search mapping_rules depth 14

  through-Sound : (t i : ℕ) (alloc : Bool) → Keeps (SoundMapping {d = d} g) (through t i alloc)
  unfolding through
  through-Sound t i alloc = search (mapping_rules, table_slot-Sound) depth 14

  ruleset bmap_rules = (mapping_rules, fill_slot-Sound, through-Sound)

  bmap_direct-Sound : (i : ℕ) (alloc : Bool) → Keeps (SoundMapping {d = d} g) (bmap_direct i alloc)
  unfolding bmap_direct
  bmap_direct-Sound i alloc = search bmap_rules depth 14

  bmap_indirect-Sound :
      (i : ℕ) (alloc : Bool) → Keeps (SoundMapping {d = d} g) (bmap_indirect i alloc)
  unfolding bmap_indirect
  bmap_indirect-Sound i alloc = search bmap_rules depth 14

  bmap_double-Sound : (i : ℕ) (alloc : Bool) → Keeps (SoundMapping {d = d} g) (bmap_double i alloc)
  unfolding bmap_double
  bmap_double-Sound i alloc = search bmap_rules depth 14

  pub bmap-Sound : (i : ℕ) (alloc : Bool) → Keeps (SoundMapping {d = d} g) (bmap i alloc)
  unfolding bmap
  bmap-Sound i alloc =
      search (bmap_rules, bmap_direct-Sound, bmap_indirect-Sound, bmap_double-Sound) depth 14

  if-Sound : (t : Bool) (v w : Volume d) → Sound g v → Sound g w → Sound g (if t then v else w)
  if-Sound true v w h k = h
  if-Sound false v w h k = k

  free_if-Sound : (b : ℕ) (v : Volume d) → Sound g v → Sound g (free_if b v)
  unfolding free_if
  free_if-Sound b v h = if-Sound (b == 0) v _ h (block_free-Sound b v h)

  free_entries-Sound :
      (n i : ℕ) (t : Bytes) (v : Volume d) → Sound g v → Sound g (free_entries n i t v)
  unfolding free_entries
  free_entries-Sound zero i t v h = h
  free_entries-Sound (suc n) i t v h = free_entries-Sound n (i + 1) t _ (free_if-Sound _ v h)

  free_read-Sound : (out : Result Bytes × Volume d) → Sound g out.1 → Sound g (free_read out)
  unfolding free_read
  free_read-Sound (ok t, v) h = free_entries-Sound _ 0 t v h
  free_read-Sound (err e, v) h = h

  free_table-Sound : (b : ℕ) (v : Volume d) → Sound g v → Sound g (free_table b v)
  unfolding free_table
  free_table-Sound b v h =
      if-Sound (b == 0) v _ h (free_read-Sound (load b v) ((load-Sound b).at v h))

  free_middle-Sound : (b : ℕ) (v : Volume d) → Sound g v → Sound g (free_middle b v)
  unfolding free_middle
  free_middle-Sound b v h =
      if-Sound (b == 0) v _ h (block_free-Sound b (free_table b v) (free_table-Sound b v h))

  free_middles-Sound :
      (n i : ℕ) (t : Bytes) (v : Volume d) → Sound g v → Sound g (free_middles n i t v)
  unfolding free_middles
  free_middles-Sound zero i t v h = h
  free_middles-Sound (suc n) i t v h = free_middles-Sound n (i + 1) t _ (free_middle-Sound _ v h)

  free_outer-Sound : (out : Result Bytes × Volume d) → Sound g out.1 → Sound g (free_outer out)
  unfolding free_outer
  free_outer-Sound (ok t, v) h = free_middles-Sound _ 0 t v h
  free_outer-Sound (err e, v) h = h

  free_direct-Sound : (bs : List ℕ) (v : Volume d) → Sound g v → Sound g (free_direct bs v)
  unfolding free_direct
  free_direct-Sound [] v h = h
  free_direct-Sound (b ∷ bs) v h = free_direct-Sound bs _ (free_if-Sound b v h)

  free_indirect-Sound : (b : ℕ) (v : Volume d) → Sound g v → Sound g (free_indirect b v)
  unfolding free_indirect
  free_indirect-Sound b v h =
      if-Sound (b == 0) v _ h (block_free-Sound b (free_table b v) (free_table-Sound b v h))

  free_double-Sound : (b : ℕ) (v : Volume d) → Sound g v → Sound g (free_double b v)
  unfolding free_double
  free_double-Sound b v h =
      if-Sound (b == 0) v _ h
        (block_free-Sound b _ (free_outer-Sound (load b v) ((load-Sound b).at v h)))

  truncate_with :
      (f : Volume d → Volume d)
      → ((v : Volume d) → Sound g v → Sound g (f v))
      → Keeps (Sound g) (modify f)
  truncate_with f k = Keeps-modify f k

  pub wfs_truncate-Sound : (ino : ℕ) → Keeps (Sound {d = d} g) (wfs_truncate ino)
  unfolding wfs_truncate
  wfs_truncate-Sound ino =
      search
        (
          keeps_rules, wfs_read_inode-Sound, write_inode-Sound, truncate_with, free_direct-Sound,
          free_indirect-Sound, free_double-Sound,
        )
        depth 20
