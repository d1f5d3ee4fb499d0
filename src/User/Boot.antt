-- ===== src/User/Boot.antt =====
-- `user_init` of kernel/fs/user.c, and what it calls to read the two kinds of file.
use wos.Prelude.{
  ℕ, ◌+◌, ◌%◌, ◌^◌, List, [], ◌∷◌, true, none, some, ltb, if◌then◌else◌, set, min, replicate,
  get_or,
}
use wos.Abi.{ok, err}
use wos.User.Storage.{Disk}
use wos.User.Hash.{hash_password}
use wos.User.Lines.{
  Entry, blank, parse_line, lines_from, parse_password, user_password_path, users_file,
}
use wos.User.{
  Db, max_users, find_entry, find_by_uid, is_free, root_uid, root_name, first_password, put_entry,
  save_user_list, save_password,
}

module _ (d : Disk) where
  -- `load_password`: what a missing or unreadable file leaves is 0 and 0.
  pub password_of : d.State → List ℕ → ℕ × ℕ
  password_of disk name = elim (d.lookup disk (user_password_path name)) [
    | err _ ↦ (0, 0)
    | ok ino ↦ elim (d.read disk ino 63) [ err _ ↦ (0, 0) | ok text ↦ parse_password text ]
  ]

  pub load_password : d.State → Entry → Entry
  load_password disk e =
      let (salt, hash) = password_of disk e.name in record e { salt = salt; hash = hash }

  -- `parse_list_line` behind the parsing: the first free place takes the entry.
  pub add_entry : Entry → Db d → Db d
  add_entry e db = elim (find_entry is_free db.users) [
    | none ↦ db
    | some (slot, _) ↦ record db {
      users = set db.users slot (load_password db.disk e);
      next_uid = if ltb e.uid db.next_uid then db.next_uid else (e.uid + 1) % 2 ^ 32;
    }
  ]

  pub parse_list_line : List ℕ → Db d → Db d
  parse_list_line line db = elim (parse_line line) [ none ↦ db | some e ↦ add_entry e db ]

  pub parse_lines : List (List ℕ) → Db d → Db d
  parse_lines [] db = db
  parse_lines (l ∷ ls) db = parse_lines ls (parse_list_line l db)

  -- What `user_init` reads of the list of users: at most `sizeof(text) - 1` bytes.
  pub list_text : d.State → List ℕ
  list_text disk = elim (d.lookup disk users_file) [
    | err _ ↦ []
    | ok ino ↦ elim (d.size disk ino) [
      | err _ ↦ []
      | ok size ↦ elim (d.read disk ino (min size 4095)) [ err _ ↦ [] | ok text ↦ text ]
    ]
  ]

  pub empty_db : d.State → Db d
  empty_db disk = record { users = replicate max_users blank; next_uid = 1; disk = disk }

  -- The root that is made where there is none, in the first place. Its shell is what that place held.
  pub default_root : (salt : ℕ) → List Entry → Entry
  default_root salt users = record (get_or users 0 blank) {
    used = true;
    uid = root_uid;
    roles = 0;
    salt = salt;
    hash = hash_password salt first_password;
    name = root_name;
  }

  -- Errors of the two saves are only printed.
  pub with_root : (salt : ℕ) → Db d → Db d
  with_root salt db =
      let e = default_root salt db.users in
      let saved = (save_user_list d (put_entry d db 0 e)).1 in
      elim (find_by_uid root_uid db.users) [ some _ ↦ db | none ↦ (save_password d saved e).1 ]

  pub user_init : (salt : ℕ) → d.State → Db d
  user_init salt disk =
      with_root salt (parse_lines (lines_from [] (list_text disk)) (empty_db disk))
