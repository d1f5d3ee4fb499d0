-- ===== src/Wfs/Files/Failed.antt =====
-- `wfs_write` of kernel/fs/wfs.c where there is no block for the first byte.
use wos.Prelude.{
  ℕ, zero, suc, ◌+◌, ◌-◌, ◌/◌, ◌%◌, ◌^◌, ◌≤◌, ◌<◌, ◌≡◌, refl, true, false, ltb, some, arith,
}
use wos.Abi.{Error, ok, err}
use wos.Exec.{◌>>=◌}
use wos.Wfs.Device.{Device, Bytes}
use wos.Wfs.Layout.{Inode, block_size, max_file_size}
use wos.Wfs.Volume.{Volume}
use wos.Wfs.Inodes.{wfs_read_inode, write_inode}
use wos.Wfs.Mapping.{Mapping, on_volume, bmap}
use wos.Wfs.Files.{
  chunk_of, written_result, with_node, write_mapped, write_round, write_loop, end_write,
  finish_write, write_all, wfs_write,
}

failed_result : (len : ℕ) (e : Error) → 0 < len → written_result 0 len (some e) ≡ err e
failed_result zero e h = absurd (omega arith)
failed_result (suc n) e h = refl

module _ {d : Device} where
  failed_round :
      (at from chunk : ℕ) (src : Bytes) (s s' : Mapping d) (e : Error)
      → bmap (at / block_size) true s ≡ (err e, s')
      → write_round at from chunk src s ≡ (ok (some e), s')
  unfolding write_round write_mapped ◌>>=◌
  failed_round at from chunk src s s' e h = rw h refl

  failed_loop :
      (offset len : ℕ) (src : Bytes) (s s' : Mapping d) (e : Error)
      → 0 < len
      → offset < 2 ^ 32
      → bmap (offset / block_size) true s ≡ (err e, s')
      → write_loop (len + 1) offset len 0 src s ≡ (ok (0, some e), s')
  unfolding write_loop ◌>>=◌
  failed_loop offset len src s s' e more small h =
      let fuel : len + 1 ≡ suc len = omega arith in
      let place : (offset + 0) % 2 ^ 32 ≡ offset = omega arith in
      let go : ltb 0 len ≡ true = ground arith in
      rw (fuel, place, go, failed_round offset 0 (chunk_of offset (len - 0)) src s s' e h) refl

  abbrev grown : ℕ → Mapping d → Mapping d
  grown offset s = record s { node = record (s.node) { size = offset }; dirty = true }

  failed_end :
      (offset : ℕ) (s : Mapping d)
      → offset < 2 ^ 32
      → s.node.size < offset
      → end_write offset 0 s ≡ grown offset s
  unfolding end_write
  failed_end offset s small short =
      let place : (offset + 0) % 2 ^ 32 ≡ offset = omega arith in
      let longer : ltb s.node.size offset ≡ true = ground arith in rw (place, longer) refl

  failed_write :
      (ino offset len : ℕ) (src : Bytes) (s s' : Mapping d) (e : Error)
      → 0 < len
      → offset < 2 ^ 32
      → bmap (offset / block_size) true s ≡ (err e, s')
      → s'.node.size < offset
      → (write_all ino offset src len s).0 ≡ err e
        × ((write_all ino offset src len s).1.volume
            ≡ (write_inode ino (record (s'.node) { size = offset }) s'.volume).1)
  unfolding write_all finish_write ◌>>=◌ on_volume
  failed_write ino offset len src s s' e more small h short =
      rw
        (
          failed_loop offset len src s s' e more small h,
          failed_end offset s' small short,
          failed_result len e more,
        )
        (refl, refl)

  read_then :
      (ino offset len : ℕ) (src : Bytes) (v v' : Volume d) (node : Inode)
      → wfs_read_inode ino v ≡ (ok node, v')
      → (offset + len) % 2 ^ 32 ≤ max_file_size
      → wfs_write ino offset src len v ≡ with_node node (write_all ino offset src len) v'
  unfolding wfs_write ◌>>=◌
  read_then ino offset len src v v' node r fits =
      let short : ltb max_file_size ((offset + len) % 2 ^ 32) ≡ false = ground arith in
      rw (r, short) refl

  -- A write of at least one byte that starts past the end of the file and for whose first byte `bmap` has
  -- no block, on a full volume for example, returns the error of `bmap`, and yet it writes an inode
  -- whose size is the offset that the write was to start at.
  pub wfs_write-fails :
      (ino offset len : ℕ) (src : Bytes) (v v' : Volume d) (node : Inode) (s : Mapping d)
      (e : Error)
      → wfs_read_inode ino v ≡ (ok node, v')
      → (offset + len) % 2 ^ 32 ≤ max_file_size
      → bmap (offset / block_size) true (record { volume = v'; node = node; dirty = false })
        ≡ (err e, s)
      → 0 < len
      → offset < 2 ^ 32
      → s.node.size < offset
      → ((wfs_write ino offset src len v).0 ≡ err e)
        × ((wfs_write ino offset src len v).1
            ≡ (write_inode ino (record (s.node) { size = offset }) s.volume).1)
  unfolding with_node
  wfs_write-fails ino offset len src v v' node s e r fits h more small short =
      rw (read_then ino offset len src v v' node r fits) (
        failed_write ino offset len src (record { volume = v'; node = node; dirty = false }) s e
          more small h short)
