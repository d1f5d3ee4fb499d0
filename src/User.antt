-- ===== src/User.antt =====
-- kernel/fs/user.c: accounts, roles and password checks.
-- The table is the list of the array's entries. The files are behind the interface of `User.Disk`,
-- the calls of the filesystem that this code makes; the timer and the address that a salt is made
-- from are an argument.
mod Storage
mod Hash
mod Digits
mod Lines
mod Find
mod Rights
mod Add
mod Boot
mod Tests
use wos.Prelude.{
  ℕ, zero, suc, ◌+◌, ◌%◌, ◌^◌, ◌<◌, List, [], ◌∷◌, Bool, true, false, not, ◌&&◌, ◌||◌, Option, none,
  some, length, ltb, ◌==◌, if◌then◌else◌, set, min, replicate, get_or,
}
use wos.Abi.{Error, eperm, enoent, eacces, eexist, einval, enospc, enametoolong, Result, ok, err}
use wos.Bits.{test_bit}
use wos.Bytes.{str_eq, strlcpy}
use Storage.{Disk, ensure_dir, write_file, and_then}
use Hash.{hash_password, hash_equal}
use Lines.{
  Entry, blank, name_len, shell_max, print_users, print_password, parse_line, lines_from,
  parse_password, user_dir_path, user_password_path, home_path, config_dir, users_file,
}

-- W_MAX_USERS
abbrev pub max_users : ℕ
max_users = 32

-- The static variables, and the disk.
pub record Db (d : Disk) : Type 0 where
  pub users : List Entry
  pub next_uid : ℕ
  pub disk : d.State

-- `wuser_t`
pub record Account : Type 0 where
  pub uid : ℕ
  pub roles : ℕ
  pub name : List ℕ

abbrev pub named : List ℕ → Entry → Bool
named name e = e.used && str_eq e.name name

abbrev pub is_free : Entry → Bool
is_free e = not e.used

abbrev pub numbered : ℕ → Entry → Bool
numbered uid e = e.used && (e.uid == uid)

-- One place further on.
abbrev pub shift : Option (ℕ × Entry) → Option (ℕ × Entry)
shift none = none
shift (some (i, e)) = some (suc i, e)

-- The first entry that passes a test, with its place.
pub find_entry : (Entry → Bool) → List Entry → Option (ℕ × Entry)
find_entry p [] = none
find_entry p (e ∷ es) = let later = shift (find_entry p es) in if p e then some (0, e) else later

abbrev pub find_by_name : List ℕ → List Entry → Option (ℕ × Entry)
find_by_name name = find_entry (named name)

abbrev pub find_by_uid : ℕ → List Entry → Option (ℕ × Entry)
find_by_uid uid = find_entry (numbered uid)

abbrev pub fill : Entry → Account
fill e = record { uid = e.uid; roles = e.roles; name = strlcpy e.name (name_len + 1) }

-- W_ROOT_UID
abbrev pub root_uid : ℕ
root_uid = 0

abbrev pub root_name : List ℕ
root_name = b'r' ∷ b'o' ∷ b'o' ∷ b't' ∷ []

abbrev pub first_password : List ℕ
first_password = b'1' ∷ b'2' ∷ b'3' ∷ b'4' ∷ []

-- DEFAULT_SHELL
abbrev pub default_shell : List ℕ
default_shell =
    b'/' ∷ b'a' ∷ b'p' ∷ b'p' ∷ b'/' ∷ b'w' ∷ b'h' ∷ b'e' ∷ b'l' ∷ b'l' ∷ b'/' ∷ b'l' ∷ b'a' ∷ b'u'
    ∷ b'n' ∷ b'c' ∷ b'h' ∷ []

-- The bit of W_ROLE_USEREDITOR
abbrev pub usereditor : ℕ
usereditor = 1

-- `role` is the number of the role's bit.
pub user_has_role : List Entry → (uid role : ℕ) → Bool
user_has_role users uid role =
    (uid == root_uid)
    || (elim (find_by_uid uid users) [ none ↦ false | some (i, e) ↦ test_bit e.roles role ])

abbrev pub may_edit : List Entry → (actor : ℕ) → Bool
may_edit users actor = (actor == root_uid) || user_has_role users actor usereditor

abbrev pub or_missing : Option (ℕ × Entry) → Result Account
or_missing none = err enoent
or_missing (some (i, e)) = ok (fill e)

pub user_by_name : List Entry → List ℕ → Result Account
user_by_name users name = or_missing (find_by_name name users)

pub user_by_uid : List Entry → ℕ → Result Account
user_by_uid users uid = or_missing (find_by_uid uid users)

abbrev pub or_default : List ℕ → List ℕ
or_default [] = default_shell
or_default (c ∷ cs) = c ∷ cs

pub user_shell : List Entry → (uid cap : ℕ) → List ℕ
user_shell users uid cap = elim (find_by_uid uid users) [
  | none ↦ strlcpy default_shell cap
  | some (i, e) ↦ strlcpy (or_default e.shell) cap
]

-- Up to `max` accounts, in the table's order.
pub user_list : List Entry → (max : ℕ) → List Account
user_list [] max = []
user_list (e ∷ es) zero = []
user_list (e ∷ es) (suc max) = if e.used then fill e ∷ user_list es max else user_list es (suc max)

-- The stored hash is none, or that of the password.
abbrev pub knows : Entry → List ℕ → Bool
knows e password = (e.hash == 0) || hash_equal (hash_password e.salt password) e.hash

pub authenticate : (password : List ℕ) → Option (ℕ × Entry) → Result Account
authenticate password none = err enoent
authenticate password (some (i, e)) = if knows e password then ok (fill e) else err eacces

pub user_authenticate : List Entry → (name password : List ℕ) → Result Account
user_authenticate users name password = authenticate password (find_by_name name users)

abbrev pub with_password : Entry → (salt : ℕ) → List ℕ → Entry
with_password e salt [] = record e { salt = 0; hash = 0 }
with_password e salt (c ∷ cs) = record e { salt = salt; hash = hash_password salt (c ∷ cs) }

abbrev pub is_bad : ℕ → Bool
is_bad c = (c == b'/') || (c == b':') || (c == 10) || (c == b'.')

pub any_bad : List ℕ → Bool
any_bad [] = false
any_bad (c ∷ cs) = is_bad c || any_bad cs

abbrev pub is_nil : List ℕ → Bool
is_nil [] = true
is_nil (_ ∷ _) = false

module _ (d : Disk) where
  abbrev pub put_entry : Db d → ℕ → Entry → Db d
  put_entry db i e = record db { users = set db.users i e }

  -- The outcome of a call that changes the disk, with the table.
  abbrev pub on_disk : {A : Type 0} → Db d → Result A × d.State → Result A × Db d
  on_disk db (r, disk) = (r, record db { disk = disk })

  unfoldable pub save_user_list : Db d → Result (Unit {0}) × Db d
  save_user_list db = on_disk db (
      and_then (ensure_dir d db.disk config_dir)
        (λ _ s. write_file d s users_file (print_users db.users)))

  unfoldable pub save_password : Db d → Entry → Result (Unit {0}) × Db d
  save_password db e = on_disk db (
      and_then (ensure_dir d db.disk config_dir) (λ _ s.
        and_then (ensure_dir d s (user_dir_path e.name))
          (λ _ t. write_file d t (user_password_path e.name) (print_password e))))

  -- Behind the search for the name; `salt` is what `make_salt` returns.
  pub set_password :
      Db d
      → (salt actor : ℕ) → (old_password new_password : List ℕ) → Option (ℕ × Entry)
      → Result (Unit {0}) × Db d
  set_password db salt actor old_password new_password none = (err enoent, db)
  set_password db salt actor old_password new_password (some (i, e)) =
      let e' = with_password e salt new_password in
      if not (may_edit db.users actor) && not (e.uid == actor)
      then (err eperm, db)
      else if not (may_edit db.users actor) && not (knows e old_password)
      then (err eacces, db)
      else save_password (put_entry db i e') e'

  pub user_set_password :
      Db d → (salt actor : ℕ) → (name old_password new_password : List ℕ) → Result (Unit {0}) × Db d
  user_set_password db salt actor name old_password new_password =
      set_password db salt actor old_password new_password (find_by_name name db.users)

  pub set_roles : Db d → (actor roles : ℕ) → Option (ℕ × Entry) → Result (Unit {0}) × Db d
  set_roles db actor roles none =
      if not (may_edit db.users actor) then (err eperm, db) else (err enoent, db)
  set_roles db actor roles (some (i, e)) =
      if not (may_edit db.users actor)
      then (err eperm, db)
      else if e.uid == root_uid
      then (err eperm, db)
      else save_user_list (put_entry db i (record e { roles = roles }))

  pub user_set_roles : Db d → (actor : ℕ) → (name : List ℕ) → (roles : ℕ) → Result (Unit {0}) × Db d
  user_set_roles db actor name roles = set_roles db actor roles (find_by_name name db.users)

  pub set_shell :
      Db d → (actor : ℕ) → (shell : List ℕ) → Option (ℕ × Entry) → Result (Unit {0}) × Db d
  set_shell db actor shell none = (err enoent, db)
  set_shell db actor shell (some (i, e)) =
      if not (may_edit db.users actor) && not (e.uid == actor)
      then (err eperm, db)
      else if ltb shell_max (length shell)
      then (err enametoolong, db)
      else save_user_list (put_entry db i (record e { shell = strlcpy shell (shell_max + 1) }))

  pub user_set_shell : Db d → (actor : ℕ) → (name shell : List ℕ) → Result (Unit {0}) × Db d
  user_set_shell db actor name shell = set_shell db actor shell (find_by_name name db.users)

  -- The new account's entry.
  pub added : Db d → (salt : ℕ) → (name password : List ℕ) → (roles : ℕ) → Entry
  added db salt name [] roles = record blank {
    used = true;
    name = strlcpy name (name_len + 1);
    uid = db.next_uid;
    roles = roles;
  }
  added db salt name (c ∷ cs) roles = record blank {
    used = true;
    name = strlcpy name (name_len + 1);
    uid = db.next_uid;
    roles = roles;
    salt = salt;
    hash = hash_password salt (c ∷ cs);
  }

  -- After an error the entry is dropped again and the list saved once more; otherwise the home
  -- directory is made.
  pub end_add : (slot : ℕ) → Entry → Result (Unit {0}) × Db d → Result ℕ × Db d
  end_add slot e (err r, db) =
      (err r, (save_user_list (put_entry db slot (record e { used = false }))).1)
  end_add slot e (ok _, db) =
      (ok e.uid, record db { disk = (ensure_dir d db.disk (home_path e.name)).1 })

  -- `if (r == 0) r = save_password(e);`
  pub also_password : Entry → Result (Unit {0}) × Db d → Result (Unit {0}) × Db d
  also_password e (err r, db) = (err r, db)
  also_password e (ok _, db) = save_password db e

  pub finish_add : Db d → (slot : ℕ) → Entry → Result ℕ × Db d
  finish_add db slot e = end_add slot e (also_password e (save_user_list db))

  -- Behind the checks of the name: the account that has it, and the first free place.
  pub add_new :
      Db d
      → (salt : ℕ) → (name password : List ℕ) → (roles : ℕ) → (taken free : Option (ℕ × Entry))
      → Result ℕ × Db d
  add_new db salt name password roles (some _) free = (err eexist, db)
  add_new db salt name password roles none none = (err enospc, db)
  add_new db salt name password roles none (some (slot, _)) =
      let e = added db salt name password roles in
      finish_add (record db { users = set db.users slot e; next_uid = (db.next_uid + 1) % 2 ^ 32 })
        slot e

  pub user_add : Db d → (salt actor : ℕ) → (name password : List ℕ) → (roles : ℕ) → Result ℕ × Db d
  user_add db salt actor name password roles =
      if not (may_edit db.users actor)
      then (err eperm, db)
      else if is_nil name || ltb name_len (length name)
      then (err einval, db)
      else if any_bad name
      then (err einval, db)
      else add_new db salt name password roles (find_by_name name db.users)
          (find_entry is_free db.users)
