-- ===== src/Wfs/Calls.antt =====
-- Any sequence of calls of kernel/fs/wfs.c on a mounted volume.
use wos.Prelude.{ℕ, List, [], ◌∷◌}
use wos.Exec.{Exec, ignore}
use wos.Exec.Keeps.{Keeps, Keeps-ignore}
use wos.Wfs.Device.{Device, Bytes}
use wos.Wfs.Layout.{Super}
use wos.Wfs.Volume.{Volume}
use wos.Wfs.Volume.Sound.{Sound}
use wos.Wfs.Inodes.{wfs_read_inode, wfs_utime}
use wos.Wfs.Mapping.{wfs_truncate}
use wos.Wfs.Files.{wfs_read, wfs_write}
use wos.Wfs.Directories.{wfs_readdir}
use wos.Wfs.Paths.{wfs_lookup, wfs_create, wfs_unlink, wfs_rename}
use wos.Wfs.Kept.{wfs_read_inode-Sound, wfs_utime-Sound}
use wos.Wfs.Kept.Blocks.{wfs_truncate-Sound}
use wos.Wfs.Kept.Files.{wfs_read-Sound, wfs_write-Sound}
use wos.Wfs.Kept.Names.{
  wfs_readdir-Sound, wfs_lookup-Sound, wfs_create-Sound, wfs_unlink-Sound, wfs_rename-Sound,
}

-- The functions that the file offers, with their arguments.
pub data Call : Type 0 where
  stat : (ino : ℕ) → Call
  utime : (ino mtime : ℕ) → Call
  truncate : (ino : ℕ) → Call
  read : (ino offset : ℕ) (buf : Bytes) (len : ℕ) → Call
  write : (ino offset : ℕ) (src : Bytes) (len : ℕ) → Call
  readdir : (ino cursor : ℕ) → Call
  lookup : (path : List ℕ) → Call
  create : (path : List ℕ) (type : ℕ) → Call
  unlink : (path : List ℕ) → Call
  rename : (from to : List ℕ) → Call

module _ {d : Device} where
  abbrev pub call : Call → Exec (Volume d) (Unit {0})
  call (stat ino) = ignore (wfs_read_inode ino)
  call (utime ino mtime) = wfs_utime ino mtime
  call (truncate ino) = wfs_truncate ino
  call (read ino offset buf len) = ignore (wfs_read ino offset buf len)
  call (write ino offset src len) = ignore (wfs_write ino offset src len)
  call (readdir ino cursor) = ignore (wfs_readdir ino cursor)
  call (lookup path) = ignore (wfs_lookup path)
  call (create path type) = ignore (wfs_create path type)
  call (unlink path) = wfs_unlink path
  call (rename from to) = wfs_rename from to

  -- One call after the other, whether they fail or not.
  abbrev pub run : List Call → Volume d → Volume d
  run [] v = v
  run (c ∷ cs) v = run cs (call c v).1

  call-Sound : {g : Super} (c : Call) → Keeps (Sound {d = d} g) (call c)
  call-Sound (stat ino) = Keeps-ignore _ (wfs_read_inode-Sound ino)
  call-Sound (utime ino mtime) = wfs_utime-Sound ino mtime
  call-Sound (truncate ino) = wfs_truncate-Sound ino
  call-Sound (read ino offset buf len) = Keeps-ignore _ (wfs_read-Sound ino offset buf len)
  call-Sound (write ino offset src len) = Keeps-ignore _ (wfs_write-Sound ino offset src len)
  call-Sound (readdir ino cursor) = Keeps-ignore _ (wfs_readdir-Sound ino cursor)
  call-Sound (lookup path) = Keeps-ignore _ (wfs_lookup-Sound path)
  call-Sound (create path type) = Keeps-ignore _ (wfs_create-Sound path type)
  call-Sound (unlink path) = wfs_unlink-Sound path
  call-Sound (rename from to) = wfs_rename-Sound from to

  -- Whatever sequence of calls is made on a volume whose counter of free blocks is the number of clear
  -- bits of its data area in the bitmap, and whichever of the calls and of the transfers below them
  -- fail, the counter is that number afterwards, the bitmap still consists of bytes, and all of the
  -- superblock but its two counters is as it was.
  pub run-Sound : {g : Super} (cs : List Call) (v : Volume d) → Sound g v → Sound g (run cs v)
  run-Sound [] v h = h
  run-Sound (c ∷ cs) v h = run-Sound cs (call c v).1 ((call-Sound c).at v h)
