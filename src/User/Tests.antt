-- ===== src/User/Tests.antt =====
-- Runs of the accounts, and their theorems at concrete tables and disks.
use wos.Prelude.{ℕ, ◌≡◌, ◌≢◌, ◌↔◌, refl, inr, true, some, List, [], ◌∷◌, arith, length, map}
use wos.Abi.{ok, err, enoent, enospc}
use wos.User.Storage.{Disk, and_then, ensure_dir, open_file, write_file, write_whole}
use wos.User.Lines.{
  Entry, blank, parse_line, lines_from, print_users, print_password, append_users, append_entry,
  append_str, append_u64, append_shell, user_dir_path, user_password_path, home_path,
}
use wos.User.Lines.Trip.{Writable, line_of, listed, parse_line-line_of}
use wos.User.Lines.Whole.{Listable, accounts, print_users-parse_line}
use wos.User.Digits.{print_u64, digits_loop}
use wos.User.Hash.{hash_equal}
use wos.User.Hash.Equal.{hash_equal_iff}
use wos.Bytes.{str_eq, strlcpy}
use wos.User.Rights.{
  Guarded, MaySetPassword, user_set_password-Guarded, user_set_roles-Guarded,
  set_password-authenticate,
}
use wos.User.Add.{Added, user_add-authenticate}
use wos.User.{
  Db, find_entry, find_by_name, fill, may_edit, with_password, user_has_role, user_authenticate,
  user_set_password, user_set_roles, user_add, add_new, finish_add, end_add, also_password,
  save_user_list, save_password, added, any_bad, is_nil, root_uid,
}

-- A disk on which every file is there and every write succeeds, and one with no file and no room.
abbrev open_disk : Disk
open_disk = record {
  State = ℕ;
  lookup = λ s path. ok 1;
  create = λ s path is_dir. (ok 1, s);
  truncate = λ s ino. (ok tt, s);
  write = λ s ino text. (ok (length text), s);
  size = λ s ino. ok 0;
  read = λ s ino max. ok [];
}

abbrev full_disk : Disk
full_disk = record {
  State = ℕ;
  lookup = λ s path. err enoent;
  create = λ s path is_dir. (err enospc, s);
  truncate = λ s ino. (err enospc, s);
  write = λ s ino text. (err enospc, s);
  size = λ s ino. err enoent;
  read = λ s ino max. err enoent;
}

abbrev root : Entry
root = record blank { used = true; name = b'r' ∷ []; hash = 7 }

abbrev ada : Entry
ada = record blank { used = true; name = b'a' ∷ []; uid = 1; roles = 4; shell = b'/' ∷ b's' ∷ [] }

abbrev table : List Entry
table = root ∷ ada ∷ blank ∷ []

abbrev on_open : Db open_disk
on_open = record { users = table; next_uid = 2; disk = 0 }

abbrev on_full : Db full_disk
on_full = record { users = table; next_uid = 2; disk = 0 }

ada-found : find_by_name (b'a' ∷ []) table ≡ some (1, ada)
unfolding find_entry str_eq
ada-found = refl

ada-Writable : Writable ada
ada-Writable = record {
  named = λ e. absurd (ground arith);
  name_fits = omega arith;
  name_plain = (refl, tt);
  name_in_line = (refl, tt);
  uid_fits = omega arith;
  roles_fit = omega arith;
  shell_fits = omega arith;
  shell_in_line = (refl, (refl, tt));
}

root-Writable : Writable root
root-Writable = record {
  named = λ e. absurd (ground arith);
  name_fits = omega arith;
  name_plain = (refl, tt);
  name_in_line = (refl, tt);
  uid_fits = omega arith;
  roles_fit = omega arith;
  shell_fits = omega arith;
  shell_in_line = tt;
}

table-Listable : Listable table
table-Listable = (
  λ _. (root-Writable, (refl, tt), tt),
  ((λ _. (ada-Writable, (refl, tt), (refl, (refl, tt)))), ((λ e. absurd (ground arith)), tt)),
)

print_users-parse_line_example :
    map parse_line (lines_from [] (print_users table)) ≡ map some (accounts table)
print_users-parse_line_example = print_users-parse_line table (omega arith) table-Listable

parse_line-line_of_example : parse_line (line_of ada) ≡ some (listed ada)
parse_line-line_of_example = parse_line-line_of ada ada-Writable

hash_equal_iff_example : (hash_equal 300 301 ≡ true) ↔ ◌≡◌ {A = ℕ} 300 301
hash_equal_iff_example = hash_equal_iff 300 301 (omega arith) (omega arith)

user_set_password-Guarded_example :
    Guarded open_disk on_open
      (b'a' ∷ [])
      (MaySetPassword table 1 (b'p' ∷ []))
      (λ e. with_password e 5 (b'q' ∷ []))
      (user_set_password open_disk on_open 5 1 (b'a' ∷ []) (b'p' ∷ []) (b'q' ∷ []))
user_set_password-Guarded_example =
    user_set_password-Guarded open_disk on_open 5 1 (b'a' ∷ []) (b'p' ∷ []) (b'q' ∷ [])

user_set_roles-Guarded_example :
    Guarded open_disk on_open
      (b'a' ∷ [])
      (λ e. (may_edit table 0 ≡ true) × (e.uid ≢ root_uid))
      (λ e. record e { roles = 2 })
      (user_set_roles open_disk on_open 0 (b'a' ∷ []) 2)
user_set_roles-Guarded_example = user_set_roles-Guarded open_disk on_open 0 (b'a' ∷ []) 2

-- The owner, whose account has no password yet, sets one.
set_password-authenticate_example :
    user_authenticate
      (user_set_password open_disk on_open 5 1 (b'a' ∷ []) [] (b'q' ∷ [])).1.users
      (b'a' ∷ [])
      (b'q' ∷ [])
    ≡ ok (fill ada)
set_password-authenticate_example =
    set_password-authenticate open_disk on_open 5 1 (b'a' ∷ []) [] (b'q' ∷ []) (omega arith) 1 ada
      ada-found (inr (refl, refl))

added_two : (user_add open_disk on_open 5 0 (b'b' ∷ []) [] 8).0 ≡ ok 2
unfolding user_add add_new finish_add end_add also_password save_user_list save_password and_then
    ensure_dir open_file write_file write_whole find_entry user_has_role any_bad is_nil added str_eq
    strlcpy print_users append_users append_entry append_str append_u64 append_shell print_u64
    digits_loop print_password user_dir_path user_password_path home_path
added_two = refl

user_add-authenticate_example :
    Added open_disk on_open 0 (b'b' ∷ []) [] 8 2 (user_add open_disk on_open 5 0 (b'b' ∷ []) [] 8).1
user_add-authenticate_example =
    user_add-authenticate open_disk on_open 5 0 (b'b' ∷ []) [] 8 2 (omega arith) added_two
