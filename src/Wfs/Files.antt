-- ===== src/Wfs/Files.antt =====
-- `wfs_read` and `wfs_write` of kernel/fs/wfs.c.
pub mod Runs
pub mod Contents
pub mod Reads
pub mod Failed
pub mod Updated
pub mod Writes
pub mod WriteLoop
pub mod WriteEnd
pub mod Outside
pub mod WriteBack
use wos.Prelude.{
  ℕ, zero, suc, ◌+◌, ◌-◌, ◌*◌, ◌/◌, ◌%◌, ◌^◌, Bool, true, false, not, ◌||◌, ◌&&◌, leb, ltb, min,
  Option, none, some, ◌==◌, if◌then◌else◌,
}
use wos.Abi.{Error, eio, efbig, enospc, Result, ok, err}
use wos.Exec.{Exec, pure, raise, lift, gets, attempt, modify, ignore, ◌>>=◌, ◌>>◌}
use wos.Wfs.Device.{Device, Bytes}
use wos.Wfs.Cache.{blocks_read}
use wos.Wfs.Words.{zeroes, copy_into}
use wos.Wfs.Layout.{Super, Inode, block_size, max_file_size}
use wos.Wfs.Volume.{Volume, load, store}
use wos.Wfs.Inodes.{wfs_read_inode, write_inode}
use wos.Wfs.Mapping.{Mapping, on_volume, bmap}

-- READ_RUN_BLOCKS
abbrev pub read_run_blocks : ℕ
read_run_blocks = 64

-- How far a transfer has come: the bytes that are done, and the buffer.
pub record Progress : Type 0 where
  pub done : ℕ
  pub buffer : Bytes

-- The part of the current block that is read or written.
abbrev pub chunk_of : (at left : ℕ) → ℕ
chunk_of at left = min (block_size - at % block_size) left

abbrev pub filled : Progress → (count : ℕ) → Bytes → (from : ℕ) → Progress
filled p count b from = record {
  done = p.done + count;
  buffer = copy_into p.buffer p.done b from count;
}

abbrev pub follows : Result ℕ → ℕ → Bool
follows (ok next) b = next == b
follows (err e) b = false

abbrev pub or_failed : Option Bytes → Result Bytes
or_failed none = err eio
or_failed (some b) = ok b

abbrev pub written_result : (done len : ℕ) → Option Error → Result ℕ
written_result zero zero o = ok 0
written_result zero (suc n) none = err enospc
written_result zero (suc n) (some e) = err e
written_result (suc m) len o = ok (suc m)

module _ {d : Device} where
  -- A run in a scope with `in` and `dirty`.
  unfoldable pub with_node : Inode → Exec (Mapping d) ℕ → Exec (Volume d) ℕ
  with_node node m v =
      let (r, s) = m (record { volume = v; node = node; dirty = false }) in (r, s.volume)

  -- `bmap` with `alloc` false: the inode stays as it is.
  unfoldable pub find_block : Inode → (index : ℕ) → Exec (Volume d) ℕ
  find_block node index = with_node node (bmap index false)

  -- The loop that gathers a run, from `run` blocks on.
  unfoldable pub run_from : (fuel : ℕ) → Inode → (block index run left : ℕ) → Exec (Volume d) ℕ
  run_from zero node block index run left = pure run
  run_from (suc n) node block index run left =
      if ltb run read_run_blocks && leb ((run + 1) * block_size) left
      then (do
        r ← attempt (find_block node (index + run))
        if follows r ((block + run) % 2 ^ 32)
            then run_from n node block index (run + 1) left
            else pure run)
      else pure run

  -- How many blocks from this one on are transferred at once.
  unfoldable pub run_of : Inode → (block index inpos left : ℕ) → Exec (Volume d) ℕ
  run_of node block index inpos left =
      if (inpos == 0) && not (block == 0) && leb block_size left
      then run_from read_run_blocks node block index 1 left
      else pure 1

  unfoldable pub load_run : (first count : ℕ) → Exec (Volume d) Bytes
  load_run first count v = (or_failed (blocks_read d v.io first count), v)

  -- One round of the loop of `wfs_read`, at the byte `at` of the file with `left` bytes to go.
  unfoldable pub read_round : Inode → (at left : ℕ) → Progress → Exec (Volume d) Progress
  read_round node at left p = do
    block ← find_block node (at / block_size)
    run ← run_of node block (at / block_size) (at % block_size) left
    if ltb 1 run
        then (do b ← load_run block run; pure (filled p (run * block_size) b 0))
        else if block == 0
        then pure (filled p (chunk_of at left) zeroes 0)
        else do b ← load block; pure (filled p (chunk_of at left) b (at % block_size))

  unfoldable pub read_loop :
      (fuel : ℕ) → Inode → (offset len : ℕ) → Progress → Exec (Volume d) Progress
  read_loop zero node offset len p = pure p
  read_loop (suc n) node offset len p =
      if ltb p.done len
      then (do
        p' ← read_round node ((offset + p.done) % 2 ^ 32) (len - p.done) p
        read_loop n node offset len p')
      else pure p

  -- What is in `buf` after a failure is not modelled: no caller reads it.
  unfoldable pub wfs_read : (ino offset : ℕ) → Bytes → (len : ℕ) → Exec (Volume d) Progress
  wfs_read ino offset buf len = do
    node ← wfs_read_inode ino
    let len' = if ltb node.size ((offset + len) % 2 ^ 32) then node.size - offset else len
    if leb node.size offset
        then pure (record { done = 0; buffer = buf })
        else read_loop (len' + 1) node offset len' (record { done = 0; buffer = buf })

  -- The block before the bytes are copied in; one that is written whole is not read.
  unfoldable pub old_block : (block chunk : ℕ) → Exec (Mapping d) Bytes
  old_block block chunk =
      if chunk == block_size then gets (λ s. s.volume.junk) else on_volume (load block)

  unfoldable pub write_chunk : (block at from chunk : ℕ) → Bytes → Exec (Mapping d) (Unit {0})
  write_chunk block at from chunk src = do
    old ← old_block block chunk
    on_volume (store block (copy_into old (at % block_size) src from chunk))

  unfoldable pub write_mapped :
      Result ℕ → (at from chunk : ℕ) → Bytes → Exec (Mapping d) (Option Error)
  write_mapped (err e) at from chunk src = pure (some e)
  write_mapped (ok block) at from chunk src = do write_chunk block at from chunk src; pure none

  -- One round of the loop of `wfs_write`: the error of `bmap`, if it ends the loop.
  unfoldable pub write_round : (at from chunk : ℕ) → Bytes → Exec (Mapping d) (Option Error)
  write_round at from chunk src = do
    r ← attempt (bmap (at / block_size) true)
    write_mapped r at from chunk src

  abbrev pub after_round :
      Option Error
      → (done : ℕ) → Exec (Mapping d) (ℕ × Option Error)
      → Exec (Mapping d) (ℕ × Option Error)
  after_round none done more = more
  after_round (some e) done more = pure (done, some e)

  -- The bytes that are done, and the error of `bmap` that ended the loop, if any.
  unfoldable pub write_loop :
      (fuel offset len done : ℕ) → Bytes → Exec (Mapping d) (ℕ × Option Error)
  write_loop zero offset len done src = pure (done, none)
  write_loop (suc n) offset len done src =
      let at = (offset + done) % 2 ^ 32 in
      let chunk = chunk_of at (len - done) in
      if ltb done len
      then (do
        o ← write_round at done chunk src
        after_round o done (write_loop n offset len (done + chunk) src))
      else pure (done, none)

  -- The size and the time of the inode after `done` bytes.
  unfoldable pub end_write : (offset done : ℕ) → Mapping d → Mapping d
  end_write offset done s =
      let end = (offset + done) % 2 ^ 32 in
      let grown =
        if ltb s.node.size end
        then record s { node = record (s.node) { size = end }; dirty = true }
        else s in
      if ltb 0 done
      then record grown { node = record (grown.node) { mtime = s.volume.now }; dirty = true }
      else grown

  unfoldable pub finish_write : (ino offset len : ℕ) → ℕ × Option Error → Exec (Mapping d) ℕ
  finish_write ino offset len (done, o) = do
    modify (end_write offset done)
    s ← gets (λ s. s)
    (if s.dirty then ignore (on_volume (write_inode ino s.node)) else pure tt)
    lift (written_result done len o)

  unfoldable pub write_all : (ino offset : ℕ) → Bytes → (len : ℕ) → Exec (Mapping d) ℕ
  write_all ino offset src len = do
    out ← write_loop (len + 1) offset len 0 src
    finish_write ino offset len out

  unfoldable pub wfs_write : (ino offset : ℕ) → Bytes → (len : ℕ) → Exec (Volume d) ℕ
  wfs_write ino offset src len = do
    node ← wfs_read_inode ino
    if ltb max_file_size ((offset + len) % 2 ^ 32)
        then raise efbig
        else with_node node (write_all ino offset src len)
