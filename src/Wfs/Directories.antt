-- ===== src/Wfs/Directories.antt =====
-- The directories of kernel/fs/wfs.c: files of entries of 32 bytes.
use wos.Prelude.{
  ℕ, zero, suc, ◌+◌, ◌-◌, ◌/◌, ◌%◌, Bool, true, false, not, ◌||◌, ◌&&◌, leb, ltb, List, [], ◌∷◌,
  length, get_or, Option, none, some, ◌==◌, if◌then◌else◌,
}
use wos.Abi.{eio, enoent, enotdir, enametoolong, Result, ok, err}
use wos.Bytes.{str_eq, strlcpy}
use wos.Exec.{Exec, pure, raise, lift, gets, attempt, ◌>>=◌, ◌>>◌}
use wos.Wfs.Device.{Device, Bytes}
use wos.Wfs.Words.{zeroes, get_word, put_word}
use wos.Wfs.Layout.{Inode, type_dir, type_file, name_max, dirent_size, invalid_ino}
use wos.Wfs.Volume.{Volume}
use wos.Wfs.Inodes.{wfs_read_inode}
use wos.Wfs.Files.{Progress, wfs_read, wfs_write}

-- The bytes from `at` on, up to a NUL, at most `count` of them.
unfoldable pub string_at : Bytes → (at count : ℕ) → List ℕ
string_at b at zero = []
string_at b at (suc n) = let rest = string_at b (at + 1) n in if b at == 0 then [] else b at ∷ rest

abbrev pub ino_of : Bytes → ℕ
ino_of ent = get_word ent 0

-- `ent.name`
abbrev pub name_of : Bytes → List ℕ
name_of ent = string_at ent 4 (name_max + 1)

unfoldable pub put_string : Bytes → (at : ℕ) → List ℕ → Bytes
put_string b at s i = if leb at i then get_or s (i - at) (b i) else b i

-- `ent.ino = ino; strlcpy(ent.name, name, sizeof(ent.name));` after the `memset`
unfoldable pub dirent : (ino : ℕ) → (name : List ℕ) → Bytes
dirent ino name = put_string (put_word zeroes 0 ino) 4 (strlcpy name (name_max + 1))

-- The two names that every directory has.
abbrev pub dot : List ℕ
dot = 46 ∷ []

abbrev pub dot_dot : List ℕ
dot_dot = 46 ∷ 46 ∷ []

abbrev pub is_dot : List ℕ → Bool
is_dot name = str_eq name dot || str_eq name dot_dot

-- What a loop over the entries does at one of them.
abbrev pub is_named : List ℕ → Bytes → Bool
is_named name ent = not (ino_of ent == invalid_ino) && str_eq (name_of ent) name

abbrev pub is_unused : Bytes → Bool
is_unused ent = ino_of ent == invalid_ino

abbrev pub is_entry : Bytes → Bool
is_entry ent = not (ino_of ent == invalid_ino)

-- An entry but "." and "..".
abbrev pub is_content : Bytes → Bool
is_content ent = is_entry ent && not (is_dot (name_of ent))

-- An entry, and its place in the directory.
abbrev pub Found : Type 0
Found = Option (ℕ × Bytes)

-- What `wfs_read` of an entry leaves in the buffer, unless it has read nothing.
abbrev pub read_some : Result Progress → Option Bytes
read_some (ok p) = if ltb 0 p.done then some p.buffer else none
read_some (err e) = none

-- The number of rounds of `for (off = from; off < size; off += WFS_DIRENT_SIZE)`.
abbrev pub rounds : (from size : ℕ) → ℕ
rounds from size = (size - from + (dirent_size - 1)) / dirent_size

abbrev pub or_enoent : Found → Result (ℕ × Bytes)
or_enoent none = err enoent
or_enoent (some f) = ok f

-- The slot for a new entry.
abbrev pub slot_of : Found → (size : ℕ) → ℕ
slot_of none size = size
slot_of (some (off, ent)) size = off

abbrev pub whole_or_eio : (done : ℕ) → Result (Unit {0})
whole_or_eio done = if done == dirent_size then ok tt else err eio

abbrev pub not_found : Result Found → Bool
not_found (ok none) = true
not_found (ok (some f)) = false
not_found (err e) = false

-- `wdirent_t`
pub record Listing : Type 0 where
  pub ino : ℕ
  pub type : ℕ
  pub name : List ℕ

abbrev pub type_or_file : Result Inode → ℕ
type_or_file (ok node) = node.type
type_or_file (err e) = type_file

abbrev pub listing : Bytes → Result Inode → Listing
listing ent target = record {
  ino = ino_of ent;
  type = type_or_file target;
  name = strlcpy (name_of ent) (name_max + 1);
}

module _ {d : Device} where
  abbrev pub at_entry :
      (Bytes → Bool)
      → (off : ℕ) → Option Bytes
      → (Bytes → Exec (Volume d) Found)
      → Exec (Volume d) Found
  at_entry p off none more = pure none
  at_entry p off (some ent) more = if p ent then pure (some (off, ent)) else more ent

  -- The loop over the entries of a directory from `off` on, up to the first that `p` holds of; `ent` is
  -- the caller's buffer. It ends early where an entry cannot be read.
  unfoldable pub scan :
      (rounds : ℕ) → (Bytes → Bool) → (ino off : ℕ) → Bytes → Exec (Volume d) Found
  scan zero p ino off ent = pure none
  scan (suc n) p ino off ent = do
    r ← attempt (wfs_read ino off ent dirent_size)
    at_entry p off (read_some r) (λ next. scan n p ino (off + dirent_size) next)

  unfoldable pub find_entry : (Bytes → Bool) → (ino : ℕ) → Inode → Exec (Volume d) Found
  find_entry p ino node = do junk ← gets (λ v. v.junk); scan (rounds 0 node.size) p ino 0 junk

  unfoldable pub dir_find : (ino : ℕ) → (name : List ℕ) → Exec (Volume d) ℕ
  dir_find ino name = do
    node ← wfs_read_inode ino
    if not (node.type == type_dir) then raise enotdir else do
      f ← find_entry (is_named name) ino node
      (_, ent) ← lift (or_enoent f)
      pure (ino_of ent)

  unfoldable pub dir_add : (dir_ino : ℕ) → (name : List ℕ) → (ino : ℕ) → Exec (Volume d) (Unit {0})
  dir_add dir_ino name ino = if ltb name_max (length name) then raise enametoolong else do
    node ← wfs_read_inode dir_ino
    f ← find_entry is_unused dir_ino node
    done ← wfs_write dir_ino (slot_of f node.size) (dirent ino name) dirent_size
    lift (whole_or_eio done)

  unfoldable pub dir_remove : (dir_ino : ℕ) → (name : List ℕ) → Exec (Volume d) (Unit {0})
  dir_remove dir_ino name = do
    node ← wfs_read_inode dir_ino
    f ← find_entry (is_named name) dir_ino node
    (off, _) ← lift (or_enoent f)
    wfs_write dir_ino off zeroes dirent_size
    pure tt

  unfoldable pub dir_is_empty : (ino : ℕ) → Exec (Volume d) Bool
  dir_is_empty ino = do
    f ← attempt (wfs_read_inode ino >>= find_entry is_content ino)
    pure (not_found f)

  -- The entry if there is one, and the cursor afterwards.
  unfoldable pub list_found : (size : ℕ) → Found → Exec (Volume d) (Option Listing × ℕ)
  list_found size none = pure (none, size)
  list_found size (some (off, ent)) = do
    target ← attempt (wfs_read_inode (ino_of ent))
    pure (some (listing ent target), off + dirent_size)

  unfoldable pub wfs_readdir : (ino cursor : ℕ) → Exec (Volume d) (Option Listing × ℕ)
  wfs_readdir ino cursor = do
    node ← wfs_read_inode ino
    let from = cursor - cursor % dirent_size
    if not (node.type == type_dir) then raise enotdir else do
      junk ← gets (λ v. v.junk)
      f ← scan (rounds from node.size) is_entry ino from junk
      list_found node.size f
