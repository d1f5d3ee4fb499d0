-- ===== src/Wfs/Kept/Names.antt =====
-- The operations of kernel/fs/wfs.c on directories and paths keep what holds of the superblock and the
-- bitmap.
use wos.Prelude.{ℕ, zero, suc, Bool, List, [], ◌∷◌, Option, none, some}
use wos.Abi.{Result, ok, err}
use wos.Exec.{Exec, ignore}
use wos.Exec.Keeps.{Keeps, Keeps-bind, Keeps-ignore, Keeps-raise, keeps_rules}
use wos.Wfs.Device.{Device, Bytes}
use wos.Wfs.Layout.{Super, Inode}
use wos.Wfs.Volume.{Volume}
use wos.Wfs.Volume.Sound.{Sound}
use wos.Wfs.Kept.{wfs_read_inode-Sound, inode_alloc-Sound, inode_free-Sound}
use wos.Wfs.Kept.Blocks.{wfs_truncate-Sound}
use wos.Wfs.Kept.Files.{wfs_read-Sound, wfs_write-Sound}
use wos.Wfs.Directories.{
  Found, at_entry, scan, find_entry, dir_find, dir_add, dir_remove, dir_is_empty, list_found,
  wfs_readdir,
}
use wos.Wfs.Paths.{
  enter, enter_next, walk, skip_slashes, split_last, wfs_lookup, parent_of, resolve_split,
  resolve_parent, check_mounted, or_undo, add_dots, discard, wfs_create, wfs_unlink, below_parent,
  is_below, replace, move_entry, wfs_rename,
}

module _ {d : Device} {g : Super} where
  at_entry-Sound :
      (p : Bytes → Bool) (off : ℕ) (e : Option Bytes) (more : Bytes → Exec (Volume d) Found)
      → ((b : Bytes) → Keeps (Sound g) (more b))
      → Keeps (Sound g) (at_entry p off e more)
  at_entry-Sound p off none more k = search keeps_rules
  at_entry-Sound p off (some e) more k = search (keeps_rules, k)

  scan-Sound :
      (n : ℕ) (p : Bytes → Bool) (ino off : ℕ) (e : Bytes)
      → Keeps (Sound {d = d} g) (scan n p ino off e)
  unfolding scan
  scan-Sound zero p ino off e = search keeps_rules
  scan-Sound (suc n) p ino off e =
      search (keeps_rules, wfs_read-Sound, at_entry-Sound, scan-Sound n) depth 14

  find_entry-Sound :
      (p : Bytes → Bool) (ino : ℕ) (node : Inode) → Keeps (Sound {d = d} g) (find_entry p ino node)
  unfolding find_entry
  find_entry-Sound p ino node = search (keeps_rules, scan-Sound) depth 14

  ruleset entry_rules = (keeps_rules, wfs_read_inode-Sound, find_entry-Sound)

  pub dir_find-Sound : (ino : ℕ) (name : List ℕ) → Keeps (Sound {d = d} g) (dir_find ino name)
  unfolding dir_find
  dir_find-Sound ino name = search entry_rules depth 20

  pub dir_add-Sound :
      (dir : ℕ) (name : List ℕ) (ino : ℕ) → Keeps (Sound {d = d} g) (dir_add dir name ino)
  unfolding dir_add
  dir_add-Sound dir name ino = search (entry_rules, wfs_write-Sound) depth 20

  pub dir_remove-Sound : (dir : ℕ) (name : List ℕ) → Keeps (Sound {d = d} g) (dir_remove dir name)
  unfolding dir_remove
  dir_remove-Sound dir name = search (entry_rules, wfs_write-Sound) depth 20

  dir_is_empty-Sound : (ino : ℕ) → Keeps (Sound {d = d} g) (dir_is_empty ino)
  unfolding dir_is_empty
  dir_is_empty-Sound ino = search entry_rules depth 20

  list_found-Sound : (size : ℕ) (f : Found) → Keeps (Sound {d = d} g) (list_found size f)
  unfolding list_found
  list_found-Sound size none = search keeps_rules
  list_found-Sound size (some (off, e)) = search entry_rules depth 14

  pub wfs_readdir-Sound : (ino cursor : ℕ) → Keeps (Sound {d = d} g) (wfs_readdir ino cursor)
  unfolding wfs_readdir
  wfs_readdir-Sound ino cursor = search (entry_rules, scan-Sound, list_found-Sound) depth 20

  enter-Sound :
      (o : Option (List ℕ × List ℕ)) (ino : ℕ) (more : List ℕ → ℕ → Exec (Volume d) ℕ)
      → ((p : List ℕ) (i : ℕ) → Keeps (Sound g) (more p i))
      → Keeps (Sound g) (enter o ino more)
  unfolding enter
  enter-Sound none ino more k = search keeps_rules
  enter-Sound (some (name, rest)) ino more k = search (keeps_rules, dir_find-Sound, k) depth 14

  enter_next-Sound :
      (p : List ℕ) (ino : ℕ) (more : List ℕ → ℕ → Exec (Volume d) ℕ)
      → ((p : List ℕ) (i : ℕ) → Keeps (Sound g) (more p i))
      → Keeps (Sound g) (enter_next p ino more)
  unfolding enter_next
  enter_next-Sound [] ino more k = search keeps_rules
  enter_next-Sound (c ∷ p) ino more k = enter-Sound _ ino more k

  walk-Sound : (n : ℕ) (p : List ℕ) (ino : ℕ) → Keeps (Sound {d = d} g) (walk n p ino)
  unfolding walk
  walk-Sound zero p ino = search keeps_rules
  walk-Sound (suc n) p ino =
      enter_next-Sound (skip_slashes p) ino _ (λ rest next. walk-Sound n rest next)

  pub wfs_lookup-Sound : (path : List ℕ) → Keeps (Sound {d = d} g) (wfs_lookup path)
  unfolding wfs_lookup
  wfs_lookup-Sound path = search (keeps_rules, walk-Sound) depth 14

  parent_of-Sound : (path : List ℕ) → Keeps (Sound {d = d} g) (parent_of path)
  unfolding parent_of
  parent_of-Sound [] = search keeps_rules
  parent_of-Sound (c ∷ p) = search (keeps_rules, wfs_lookup-Sound) depth 14

  resolve_split-Sound : (o : Option (List ℕ × List ℕ)) → Keeps (Sound {d = d} g) (resolve_split o)
  unfolding resolve_split
  resolve_split-Sound none = search keeps_rules
  resolve_split-Sound (some (before, name)) = search (keeps_rules, parent_of-Sound) depth 14

  resolve_parent-Sound : (path : List ℕ) → Keeps (Sound {d = d} g) (resolve_parent path)
  unfolding resolve_parent
  resolve_parent-Sound path = resolve_split-Sound (split_last path)

  check_mounted-Sound : Keeps (Sound {d = d} g) check_mounted
  unfolding check_mounted
  check_mounted-Sound = search keeps_rules depth 14

  or_undo-Sound :
      (undo : Exec (Volume d) (Unit {0})) (r : Result (Unit {0}))
      → Keeps (Sound g) undo
      → Keeps (Sound g) (or_undo undo r)
  unfolding or_undo
  or_undo-Sound undo (ok u) k = search keeps_rules
  or_undo-Sound undo (err e) k =
      Keeps-bind (ignore undo) _ (Keeps-ignore undo k) (λ u. Keeps-raise e)

  add_dots-Sound : (ino parent : ℕ) → Keeps (Sound {d = d} g) (add_dots ino parent)
  unfolding add_dots
  add_dots-Sound ino parent = search (keeps_rules, dir_add-Sound) depth 14

  discard-Sound : (ino : ℕ) → Keeps (Sound {d = d} g) (discard ino)
  unfolding discard
  discard-Sound ino = search (keeps_rules, wfs_truncate-Sound, inode_free-Sound) depth 14

  ruleset path_rules = (
    entry_rules, check_mounted-Sound, resolve_parent-Sound, dir_find-Sound, dir_add-Sound,
    dir_remove-Sound, dir_is_empty-Sound, or_undo-Sound, discard-Sound,
  )

  pub wfs_create-Sound : (path : List ℕ) (type : ℕ) → Keeps (Sound {d = d} g) (wfs_create path type)
  unfolding wfs_create
  wfs_create-Sound path type =
      search (path_rules, inode_alloc-Sound, inode_free-Sound, add_dots-Sound) depth 40 fits 4000

  pub wfs_unlink-Sound : (path : List ℕ) → Keeps (Sound {d = d} g) (wfs_unlink path)
  unfolding wfs_unlink
  wfs_unlink-Sound path = search path_rules depth 40 fits 4000

  below_parent-Sound :
      (r : Result ℕ) (at : ℕ) (more : ℕ → Exec (Volume d) Bool)
      → ((i : ℕ) → Keeps (Sound g) (more i))
      → Keeps (Sound g) (below_parent r at more)
  unfolding below_parent
  below_parent-Sound (err e) at more k = search keeps_rules
  below_parent-Sound (ok up) at more k = search (keeps_rules, k)

  is_below-Sound : (n at ino : ℕ) → Keeps (Sound {d = d} g) (is_below n at ino)
  unfolding is_below
  is_below-Sound zero at ino = search keeps_rules
  is_below-Sound (suc n) at ino =
      search (keeps_rules, dir_find-Sound, below_parent-Sound, is_below-Sound n) depth 14

  replace-Sound :
      (dir : ℕ) (name : List ℕ) (ino : ℕ) (r : Result ℕ)
      → Keeps (Sound {d = d} g) (replace dir name ino r)
  unfolding replace
  replace-Sound dir name ino (err e) = search keeps_rules
  replace-Sound dir name ino (ok b) = search path_rules depth 20

  move_entry-Sound :
      (from : ℕ) (name : List ℕ) (to : ℕ) (name' : List ℕ) (ino : ℕ) (is_dir : Bool)
      → Keeps (Sound {d = d} g) (move_entry from name to name' ino is_dir)
  unfolding move_entry
  move_entry-Sound from name to name' ino is_dir = search path_rules depth 20 fits 4000

  pub wfs_rename-Sound : (from to : List ℕ) → Keeps (Sound {d = d} g) (wfs_rename from to)
  unfolding wfs_rename
  wfs_rename-Sound from to =
      search (path_rules, is_below-Sound, replace-Sound, move_entry-Sound) depth 60 fits 9000
