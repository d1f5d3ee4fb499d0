-- ===== src/Wfs/Inodes.antt =====
-- The inodes of kernel/fs/wfs.c: read, written, allocated and freed.
pub mod Written
use wos.Prelude.{
  ℕ, zero, suc, ◌+◌, ◌-◌, ◌*◌, ◌/◌, ◌%◌, ◌^◌, Bool, true, false, not, ◌||◌, leb, ◌==◌,
  if◌then◌else◌,
}
use wos.Abi.{Error, einval, enospc, Result, ok, err}
use wos.Exec.{Exec, pure, raise, gets, attempt, modify, ignore, ◌>>=◌, ◌>>◌}
use wos.Wfs.Device.{Device, Bytes}
use wos.Wfs.Layout.{
  Super, Inode, get_inode, put_inode, no_inode, inodes_per_block, inode_size, invalid_ino, root_ino,
  type_free,
}
use wos.Wfs.Volume.{Volume, load, store, sync_superblock}

-- The place of an inode in its block.
abbrev pub place_of : (ino : ℕ) → ℕ
place_of ino = ino % inodes_per_block * inode_size

abbrev pub is_free : Result Inode → Bool
is_free (ok node) = node.type == type_free
is_free (err e) = false

module _ {d : Device} where
  abbrev pub is_bad : Volume d → (ino : ℕ) → Bool
  is_bad v ino = (ino == invalid_ino) || leb v.sb.total_inodes ino

  abbrev pub block_of : Volume d → (ino : ℕ) → ℕ
  block_of v ino = (v.sb.inode_start + ino / inodes_per_block) % 2 ^ 32

  unfoldable pub wfs_read_inode : (ino : ℕ) → Exec (Volume d) Inode
  wfs_read_inode ino = do
    v ← gets (λ v. v)
    if is_bad v ino
        then raise einval
        else do b ← load (block_of v ino); pure (get_inode b (place_of ino))

  unfoldable pub write_inode : (ino : ℕ) → Inode → Exec (Volume d) (Unit {0})
  write_inode ino node = do
    v ← gets (λ v. v)
    if is_bad v ino
        then raise einval
        else do b ← load (block_of v ino); store (block_of v ino) (put_inode b (place_of ino) node)

  abbrev pub set_free_inodes : (ℕ → ℕ) → Volume d → Volume d
  set_free_inodes f v = record v {
    sb = record (v.sb) { free_inodes = f v.sb.free_inodes % 2 ^ 32 };
  }

  unfoldable pub claim_inode : (ino type : ℕ) → Exec (Volume d) ℕ
  claim_inode ino type = do
    now ← gets (λ v. v.now)
    write_inode ino (record no_inode { type = type; links = 1; mtime = now })
    modify (set_free_inodes (λ n. n + 2 ^ 32 - 1))
    ignore sync_superblock
    pure ino

  -- The loop of `inode_alloc` over `count` inodes from `ino` on.
  unfoldable pub inode_alloc_from : (count ino type : ℕ) → Exec (Volume d) ℕ
  inode_alloc_from zero ino type = raise enospc
  inode_alloc_from (suc n) ino type = do
    r ← attempt (wfs_read_inode ino)
    if is_free r then claim_inode ino type else inode_alloc_from n (ino + 1) type

  unfoldable pub inode_alloc : (type : ℕ) → Exec (Volume d) ℕ
  inode_alloc type = do
    total ← gets (λ v. v.sb.total_inodes)
    inode_alloc_from (total - root_ino) root_ino type

  unfoldable pub inode_free : (ino : ℕ) → Exec (Volume d) (Unit {0})
  inode_free ino = do
    ignore (write_inode ino no_inode)
    modify (set_free_inodes (λ n. n + 1))
    ignore sync_superblock

  unfoldable pub wfs_utime : (ino mtime : ℕ) → Exec (Volume d) (Unit {0})
  wfs_utime ino mtime = do
    node ← wfs_read_inode ino
    write_inode ino (record node { mtime = mtime })
