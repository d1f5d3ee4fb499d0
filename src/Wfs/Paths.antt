-- ===== src/Wfs/Paths.antt =====
-- The operations of kernel/fs/wfs.c that take a path.
pub mod Lookup
use wos.Prelude.{
  ℕ, zero, suc, ◌+◌, ◌-◌, ◌*◌, ◌/◌, ◌%◌, ◌^◌, Bool, true, false, not, ◌||◌, ◌&&◌, leb, ltb, List,
  [], ◌∷◌, length, get_or, Option, none, some, ◌==◌, if◌then◌else◌,
}
use wos.Abi.{Error, eio, einval, eexist, eisdir, enotempty, enametoolong, Result, ok, err}
use wos.Bytes.{str_eq, strlcpy}
use wos.Exec.{Exec, pure, raise, lift, gets, attempt, ignore, ◌>>=◌, ◌>>◌}
use wos.Wfs.Device.{Device, Bytes}
use wos.Wfs.Layout.{Super, Inode, type_dir, name_max, root_ino}
use wos.Wfs.Volume.{Volume}
use wos.Wfs.Inodes.{wfs_read_inode, inode_alloc, inode_free}
use wos.Wfs.Mapping.{wfs_truncate}
use wos.Wfs.Directories.{dot, dot_dot, is_dot, dir_find, dir_add, dir_remove, dir_is_empty}

-- '/'
abbrev pub slash : ℕ
slash = 47

-- W_PATH_MAX
abbrev pub path_max : ℕ
path_max = 255

-- `while (*p == '/') p++`
unfoldable pub skip_slashes : List ℕ → List ℕ
skip_slashes [] = []
skip_slashes (c ∷ p) = let rest = skip_slashes p in if c == slash then rest else c ∷ p

abbrev pub cons_name : ℕ → Option (List ℕ × List ℕ) → Option (List ℕ × List ℕ)
cons_name c none = none
cons_name c (some (name, rest)) = some (c ∷ name, rest)

-- The characters of the next name, and what is behind it; nothing if there are more than `room`.
unfoldable pub take_name : (room : ℕ) → List ℕ → Option (List ℕ × List ℕ)
take_name room [] = some ([], [])
take_name zero (c ∷ p) = if c == slash then some ([], c ∷ p) else none
take_name (suc n) (c ∷ p) =
    let rest = take_name n p in if c == slash then some ([], c ∷ p) else cons_name c rest

abbrev pub split_step : ℕ → List ℕ → Option (List ℕ × List ℕ) → Option (List ℕ × List ℕ)
split_step c p (some (before, behind)) = some (c ∷ before, behind)
split_step c p none = if c == slash then some ([], p) else none

-- `strrchr(path, '/')`: what is before the last slash and what is behind it.
unfoldable pub split_last : List ℕ → Option (List ℕ × List ℕ)
split_last [] = none
split_last (c ∷ p) = split_step c p (split_last p)

abbrev pub is_absolute : List ℕ → Bool
is_absolute [] = false
is_absolute (c ∷ p) = c == slash

abbrev pub is_ok {ℓ} : {A : Type ℓ} → Result A → Bool
is_ok (ok a) = true
is_ok (err e) = false

module _ {d : Device} where
  -- The next name of a path that does not start with a slash is looked up; `more` goes on behind it.
  unfoldable pub enter :
      Option (List ℕ × List ℕ) → (ino : ℕ) → (List ℕ → ℕ → Exec (Volume d) ℕ) → Exec (Volume d) ℕ
  enter none ino more = raise enametoolong
  enter (some (name, rest)) ino more = do next ← dir_find ino name; more rest next

  unfoldable pub enter_next :
      List ℕ → (ino : ℕ) → (List ℕ → ℕ → Exec (Volume d) ℕ) → Exec (Volume d) ℕ
  enter_next [] ino more = pure ino
  enter_next (c ∷ p) ino more = enter (take_name name_max (c ∷ p)) ino more

  -- The loop of `wfs_lookup`, on fuel.
  unfoldable pub walk : (fuel : ℕ) → List ℕ → (ino : ℕ) → Exec (Volume d) ℕ
  walk zero p ino = pure ino
  walk (suc n) p ino = enter_next (skip_slashes p) ino (λ rest next. walk n rest next)

  unfoldable pub wfs_lookup : (path : List ℕ) → Exec (Volume d) ℕ
  wfs_lookup path = do
    v ← gets (λ v. v)
    if not v.mounted
        then raise eio
        else if not (is_absolute path)
        then raise einval
        else walk (length path + 1) path v.sb.root_inode

  -- The inode of a directory, from its path without the last slash.
  unfoldable pub parent_of : (parent : List ℕ) → Exec (Volume d) ℕ
  parent_of [] = gets (λ v. v.sb.root_inode)
  parent_of (c ∷ p) =
      if ltb path_max (length (c ∷ p)) then raise enametoolong else wfs_lookup (c ∷ p)

  unfoldable pub resolve_split : Option (List ℕ × List ℕ) → Exec (Volume d) (ℕ × List ℕ)
  resolve_split none = raise einval
  resolve_split (some (before, name)) =
      if length name == 0
      then raise einval
      else if ltb name_max (length name)
      then raise enametoolong
      else do parent ← parent_of before; pure (parent, strlcpy name (name_max + 1))

  -- The inode of the parent, and the final component.
  unfoldable pub resolve_parent : (path : List ℕ) → Exec (Volume d) (ℕ × List ℕ)
  resolve_parent path = resolve_split (split_last path)

  unfoldable pub check_mounted : Exec (Volume d) (Unit {0})
  check_mounted = do mounted ← gets (λ v. v.mounted); if mounted then pure tt else raise eio

  -- `undo` before the error is returned.
  unfoldable pub or_undo :
      Exec (Volume d) (Unit {0}) → Result (Unit {0}) → Exec (Volume d) (Unit {0})
  or_undo undo (ok u) = pure tt
  or_undo undo (err e) = do ignore undo; raise e

  -- "." and ".." of a new directory.
  unfoldable pub add_dots : (ino parent : ℕ) → Exec (Volume d) (Unit {0})
  add_dots ino parent = do dir_add ino dot ino; dir_add ino dot_dot parent

  -- Behind the removal of the last name.
  unfoldable pub discard : (ino : ℕ) → Exec (Volume d) (Unit {0})
  discard ino = do ignore (wfs_truncate ino); inode_free ino

  unfoldable pub wfs_create : (path : List ℕ) → (type : ℕ) → Exec (Volume d) ℕ
  wfs_create path type = do
    check_mounted
    (parent, name) ← resolve_parent path
    existing ← attempt (dir_find parent name)
    if is_ok existing then raise eexist else do
      ino ← inode_alloc type
      r ← attempt (if type == type_dir then add_dots ino parent else pure tt)
      or_undo (inode_free ino) r
      r' ← attempt (dir_add parent name ino)
      or_undo (discard ino) r'
      pure ino

  unfoldable pub wfs_unlink : (path : List ℕ) → Exec (Volume d) (Unit {0})
  wfs_unlink path = do
    check_mounted
    (parent, name) ← resolve_parent path
    if is_dot name then raise einval else do
      ino ← dir_find parent name
      node ← wfs_read_inode ino
      empty ← (if node.type == type_dir then dir_is_empty ino else pure true)
      if not empty then raise enotempty else do dir_remove parent name; discard ino

  -- What the walk up from the destination does with the parent of `at`.
  unfoldable pub below_parent :
      Result ℕ → (at : ℕ) → (ℕ → Exec (Volume d) Bool) → Exec (Volume d) Bool
  below_parent (err e) at more = pure false
  below_parent (ok up) at more = if up == at then pure false else more up

  -- The walk up: whether `at` is the directory `ino` or below it, as far as `steps` steps tell.
  unfoldable pub is_below : (steps : ℕ) → (at ino : ℕ) → Exec (Volume d) Bool
  is_below zero at ino = pure false
  is_below (suc n) at ino =
      if at == ino
      then pure true
      else if at == root_ino
      then pure false
      else do up ← attempt (dir_find at dot_dot); below_parent up at (λ next. is_below n next ino)

  -- The file that has the new name already makes way; true if that is the file itself.
  unfoldable pub replace :
      (to_parent : ℕ) → (to_name : List ℕ) → (ino : ℕ) → Result ℕ → Exec (Volume d) Bool
  replace to_parent to_name ino (err e) = pure false
  replace to_parent to_name ino (ok existing) = if existing == ino then pure true else do
    victim ← wfs_read_inode existing
    if victim.type == type_dir
        then raise eisdir
        else do dir_remove to_parent to_name; discard existing; pure false

  -- The new entry goes in before the old one comes out.
  unfoldable pub move_entry :
      (from_parent : ℕ) (from_name : List ℕ) (to_parent : ℕ) (to_name : List ℕ) (ino : ℕ)
      (is_dir : Bool)
      → Exec (Volume d) (Unit {0})
  move_entry from_parent from_name to_parent to_name ino is_dir = do
    dir_add to_parent to_name ino
    r ← attempt (dir_remove from_parent from_name)
    or_undo (dir_remove to_parent to_name) r
    if is_dir && not (from_parent == to_parent)
        then (do ignore (dir_remove ino dot_dot); ignore (dir_add ino dot_dot to_parent))
        else pure tt

  unfoldable pub wfs_rename : (from to : List ℕ) → Exec (Volume d) (Unit {0})
  wfs_rename from to = do
    check_mounted
    (from_parent, from_name) ← resolve_parent from
    (to_parent, to_name) ← resolve_parent to
    if is_dot from_name || is_dot to_name then raise einval else do
      ino ← dir_find from_parent from_name
      node ← wfs_read_inode ino
      if (from_parent == to_parent) && str_eq from_name to_name then pure tt else do
        below ← (if node.type == type_dir then is_below 256 to_parent ino else pure false)
        if below then raise einval else do
          existing ← attempt (dir_find to_parent to_name)
          same ← replace to_parent to_name ino existing
          if same
              then pure tt
              else move_entry from_parent from_name to_parent to_name ino (node.type == type_dir)
