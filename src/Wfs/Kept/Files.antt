-- ===== src/Wfs/Kept/Files.antt =====
-- `wfs_read` and `wfs_write` of kernel/fs/wfs.c keep what holds of the superblock and the bitmap.
use wos.Prelude.{ℕ, zero, suc, false, Option, none, some, arith}
use wos.Abi.{Error, Result, ok, err}
use wos.Exec.{Exec, modify}
use wos.Exec.Keeps.{Keeps, Keeps-modify, keeps_rules}
use wos.Wfs.Device.{Device, Bytes}
use wos.Wfs.Layout.{Super, Inode}
use wos.Wfs.Volume.Sound.{Sound, load-Sound}
use wos.Wfs.Kept.{wfs_read_inode-Sound, write_inode-Sound}
use wos.Wfs.Mapping.{Mapping, bmap}
use wos.Wfs.Kept.Blocks.{SoundMapping, on_volume-Sound, mapping_rules, bmap-Sound}
use wos.Wfs.Files.{
  Progress, find_block, run_from, run_of, load_run, read_round, read_loop, wfs_read, old_block,
  write_chunk, write_mapped, write_round, after_round, write_loop, end_write, finish_write,
  write_all, with_node, wfs_write,
}

module _ {d : Device} {g : Super} where
  with_node-Sound :
      (node : Inode) (m : Exec (Mapping d) ℕ)
      → Keeps (SoundMapping g) m
      → Keeps (Sound {d = d} g) (with_node node m)
  unfolding with_node
  with_node-Sound node m k = record { at = λ v h. (k.at _ (record { sound = h })).sound }

  find_block-Sound : (node : Inode) (i : ℕ) → Keeps (Sound {d = d} g) (find_block node i)
  unfolding find_block
  find_block-Sound node i = with_node-Sound node (bmap i false) (bmap-Sound i false)

  run_from-Sound :
      (n : ℕ) (node : Inode) (b i r l : ℕ) → Keeps (Sound {d = d} g) (run_from n node b i r l)
  unfolding run_from
  run_from-Sound zero node b i r l = search keeps_rules
  run_from-Sound (suc n) node b i r l =
      search (keeps_rules, find_block-Sound, run_from-Sound n) depth 14

  run_of-Sound : (node : Inode) (b i p l : ℕ) → Keeps (Sound {d = d} g) (run_of node b i p l)
  unfolding run_of
  run_of-Sound node b i p l = search (keeps_rules, run_from-Sound) depth 14

  load_run-Sound : (first count : ℕ) → Keeps (Sound {d = d} g) (load_run first count)
  unfolding load_run
  load_run-Sound first count = record { at = λ v h. h }

  read_round-Sound :
      (node : Inode) (at l : ℕ) (p : Progress) → Keeps (Sound {d = d} g) (read_round node at l p)
  unfolding read_round
  read_round-Sound node at l p =
      search (keeps_rules, find_block-Sound, run_of-Sound, load_run-Sound, load-Sound) depth 14

  read_loop-Sound :
      (n : ℕ) (node : Inode) (o l : ℕ) (p : Progress)
      → Keeps (Sound {d = d} g) (read_loop n node o l p)
  unfolding read_loop
  read_loop-Sound zero node o l p = search keeps_rules
  read_loop-Sound (suc n) node o l p =
      search (keeps_rules, read_round-Sound, read_loop-Sound n) depth 14

  pub wfs_read-Sound :
      (ino o : ℕ) (buf : Bytes) (l : ℕ) → Keeps (Sound {d = d} g) (wfs_read ino o buf l)
  unfolding wfs_read
  wfs_read-Sound ino o buf l = search (keeps_rules, wfs_read_inode-Sound, read_loop-Sound) depth 14

  old_block-Sound : (b c : ℕ) → Keeps (SoundMapping {d = d} g) (old_block b c)
  unfolding old_block
  old_block-Sound b c = search mapping_rules depth 14

  write_chunk-Sound :
      (b at from c : ℕ) (src : Bytes) → Keeps (SoundMapping {d = d} g) (write_chunk b at from c src)
  unfolding write_chunk
  write_chunk-Sound b at from c src = search (mapping_rules, old_block-Sound) depth 14

  write_mapped-Sound :
      (r : Result ℕ) (at from c : ℕ) (src : Bytes)
      → Keeps (SoundMapping {d = d} g) (write_mapped r at from c src)
  unfolding write_mapped
  write_mapped-Sound (err e) at from c src = search keeps_rules
  write_mapped-Sound (ok b) at from c src = search (keeps_rules, write_chunk-Sound) depth 14

  write_round-Sound :
      (at from c : ℕ) (src : Bytes) → Keeps (SoundMapping {d = d} g) (write_round at from c src)
  unfolding write_round
  write_round-Sound at from c src = search (keeps_rules, bmap-Sound, write_mapped-Sound) depth 14

  after_round-Sound :
      (o : Option Error) (n : ℕ) (more : Exec (Mapping d) (ℕ × Option Error))
      → Keeps (SoundMapping g) more
      → Keeps (SoundMapping g) (after_round o n more)
  after_round-Sound none n more k = k
  after_round-Sound (some e) n more k = search keeps_rules

  write_loop-Sound :
      (n o l c : ℕ) (src : Bytes) → Keeps (SoundMapping {d = d} g) (write_loop n o l c src)
  unfolding write_loop
  write_loop-Sound zero o l c src = search keeps_rules
  write_loop-Sound (suc n) o l c src =
      search (keeps_rules, write_round-Sound, after_round-Sound, write_loop-Sound n) depth 14

  end_write-Sound : (o c : ℕ) → Keeps (SoundMapping {d = d} g) (modify (end_write o c))
  unfolding end_write
  end_write-Sound o c =
      Keeps-modify (end_write o c) (λ s h. record { sound = ground (arith, h.sound) })

  finish_write-Sound :
      (ino o l : ℕ) (out : ℕ × Option Error)
      → Keeps (SoundMapping {d = d} g) (finish_write ino o l out)
  unfolding finish_write
  finish_write-Sound ino o l (c, e) =
      search (keeps_rules, on_volume-Sound, write_inode-Sound, end_write-Sound) depth 20

  write_all-Sound :
      (ino o : ℕ) (src : Bytes) (l : ℕ) → Keeps (SoundMapping {d = d} g) (write_all ino o src l)
  unfolding write_all
  write_all-Sound ino o src l = search (keeps_rules, write_loop-Sound, finish_write-Sound) depth 14

  pub wfs_write-Sound :
      (ino o : ℕ) (src : Bytes) (l : ℕ) → Keeps (Sound {d = d} g) (wfs_write ino o src l)
  unfolding wfs_write
  wfs_write-Sound ino o src l =
      search (keeps_rules, wfs_read_inode-Sound, with_node-Sound, write_all-Sound) depth 14
