-- ===== src/Wfs/Kept.antt =====
-- The operations of kernel/fs/wfs.c on a mounted volume keep what holds of its superblock and bitmap.
pub mod Blocks
pub mod Files
pub mod Names
use wos.Prelude.{
  ℕ, zero, suc, ◌+◌, ◌-◌, ◌*◌, ◌/◌, ◌%◌, ◌^◌, ◌≤◌, ◌<◌, ◌≡◌, refl, Bool, true, false, not, ◌&&◌,
  ◌||◌, List, [], ◌∷◌, Option, none, some, ltb, leb, ◌==◌, if◌then◌else◌,
}
use wos.Abi.{Result, ok, err}
use wos.Exec.{Exec, pure, ignore, modify, attempt, ◌>>=◌, ◌>>◌}
use wos.Exec.Keeps.{Keeps, Keeps-modify, keeps_rules}
use wos.Wfs.Device.{Device, Bytes}
use wos.Wfs.Layout.{Super, Inode}
use wos.Wfs.Volume.{Volume, load, store}
use wos.Wfs.Volume.Sound.{Sound, load-Sound, store-Sound, sync_superblock-Sound}
use wos.Wfs.Inodes.{
  is_bad, is_free, set_free_inodes, wfs_read_inode, write_inode, claim_inode, inode_alloc_from,
  inode_alloc, inode_free, wfs_utime,
}

module _ {d : Device} {g : Super} where
  set_free_inodes-Sound : (f : ℕ → ℕ) (v : Volume d) → Sound g v → Sound g (set_free_inodes f v)
  set_free_inodes-Sound f v h = record {
    geometry = h.geometry;
    small = h.small;
    bytes = h.bytes;
    counted = h.counted;
  }

  pub count_inodes-Sound : (f : ℕ → ℕ) → Keeps (Sound {d = d} g) (modify (set_free_inodes f))
  count_inodes-Sound f = Keeps-modify (set_free_inodes f) (set_free_inodes-Sound f)

  pub ruleset volume_rules =
      (keeps_rules, load-Sound, store-Sound, sync_superblock-Sound, count_inodes-Sound)

  pub wfs_read_inode-Sound : (ino : ℕ) → Keeps (Sound {d = d} g) (wfs_read_inode ino)
  unfolding wfs_read_inode
  wfs_read_inode-Sound ino = search volume_rules

  pub write_inode-Sound : (ino : ℕ) (node : Inode) → Keeps (Sound {d = d} g) (write_inode ino node)
  unfolding write_inode
  write_inode-Sound ino node = search volume_rules

  claim_inode-Sound : (ino type : ℕ) → Keeps (Sound {d = d} g) (claim_inode ino type)
  unfolding claim_inode
  claim_inode-Sound ino type = search (volume_rules, write_inode-Sound) depth 14

  inode_alloc_from-Sound : (n ino type : ℕ) → Keeps (Sound {d = d} g) (inode_alloc_from n ino type)
  unfolding inode_alloc_from
  inode_alloc_from-Sound zero ino type = search volume_rules
  inode_alloc_from-Sound (suc n) ino type =
      search (volume_rules, wfs_read_inode-Sound, claim_inode-Sound, inode_alloc_from-Sound n) depth
        14

  pub inode_alloc-Sound : (type : ℕ) → Keeps (Sound {d = d} g) (inode_alloc type)
  unfolding inode_alloc
  inode_alloc-Sound type = search (volume_rules, inode_alloc_from-Sound) depth 14

  pub inode_free-Sound : (ino : ℕ) → Keeps (Sound {d = d} g) (inode_free ino)
  unfolding inode_free
  inode_free-Sound ino = search (volume_rules, write_inode-Sound) depth 14

  pub wfs_utime-Sound : (ino mtime : ℕ) → Keeps (Sound {d = d} g) (wfs_utime ino mtime)
  unfolding wfs_utime
  wfs_utime-Sound ino mtime =
      search (volume_rules, wfs_read_inode-Sound, write_inode-Sound) depth 14
