-- ===== src/Wfs/Files/WriteEnd.antt =====
-- How `wfs_write` of kernel/fs/wfs.c ends: the new size and time of the inode, and its answer.
use wos.Prelude.{
  ℕ, zero, suc, ◌+◌, ◌%◌, ◌^◌, ◌<◌, ◌≡◌, refl, inl, inr, true, ltb, Option, none, some,
  if◌then◌else◌, arith, Bool-cases,
}
use wos.Abi.{Error, ok}
use wos.Exec.{◌>>=◌}
use wos.Wfs.Device.{Device}
use wos.Wfs.Layout.{Inode}
use wos.Wfs.Inodes.{write_inode}
use wos.Wfs.Mapping.{Mapping, on_volume}
use wos.Wfs.Files.{written_result, end_write, finish_write}

-- The inode after `done` bytes from `offset` on at the time `now`.
abbrev pub grown_node : (now offset done : ℕ) → Inode → Inode
grown_node now offset done node = record node {
  size = if ltb node.size (offset + done) then offset + done else node.size;
  mtime = now;
}

pub result_is : (c len n : ℕ) (o : Option Error) → written_result c len o ≡ ok n → c ≡ n
result_is zero zero n o e = cc
result_is zero (suc l) n none e = absurd cc
result_is zero (suc l) n (some x) e = absurd cc
result_is (suc c) len n o e = cc

module _ {d : Device} where
  ended : (offset c : ℕ) → Mapping d → Mapping d
  ended offset c s = record s { node = grown_node s.volume.now offset c s.node; dirty = true }

  end_write_lem :
      (offset c : ℕ) (s : Mapping d)
      → 0 < c
      → offset + c < 2 ^ 32
      → end_write offset c s ≡ ended offset c s
  unfolding end_write ended
  end_write_lem offset c s some_bytes small =
      let place : (offset + c) % 2 ^ 32 ≡ offset + c = omega arith in
      let go : ltb 0 c ≡ true = ground arith in
      elim (Bool-cases (ltb s.node.size (offset + c))) [
        | inl y ↦ rw (place, go, y) refl
        | inr n ↦ rw (place, go, n) refl
      ]

  pub finish_result :
      (ino offset len c : ℕ) (o : Option Error) (s : Mapping d)
      → (finish_write ino offset len (c, o) s).0 ≡ written_result c len o
  unfolding finish_write ◌>>=◌
  finish_result ino offset len c o s = elim (Bool-cases (end_write offset c s).dirty) [
    | inl y ↦ rw y refl
    | inr n ↦ rw n refl
  ]

  pub finish_lem :
      (ino offset len c : ℕ) (o : Option Error) (s : Mapping d)
      → 0 < c
      → offset + c < 2 ^ 32
      → (finish_write ino offset len (c, o) s).0 ≡ written_result c len o
        × ((finish_write ino offset len (c, o) s).1.volume
            ≡ (write_inode ino (grown_node s.volume.now offset c s.node) s.volume).1)
  unfolding finish_write ◌>>=◌ on_volume ended
  finish_lem ino offset len c o s some_bytes small =
      rw (end_write_lem offset c s some_bytes small) (refl, refl)
