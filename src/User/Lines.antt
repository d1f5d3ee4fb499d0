-- ===== src/User/Lines.antt =====
-- kernel/fs/user.c: the lines of /userconfig/users and of a password file, written and read.
pub mod Trip
pub mod Whole
use wos.Prelude.{
  ℕ, zero, suc, ◌+◌, ◌%◌, ◌^◌, List, [], ◌∷◌, ◌++◌, Bool, true, false, ◌||◌, Option, none, some,
  length, ltb, ◌==◌, if◌then◌else◌,
}
use wos.User.Digits.{parse_u64, print_u64}

-- W_NAME_LEN
abbrev pub name_len : ℕ
name_len = 31

-- W_SHELL_MAX
abbrev pub shell_max : ℕ
shell_max = 63

-- `user_entry_t`; the strings are the bytes up to the NUL.
pub record Entry : Type 0 where
  pub used : Bool
  pub name : List ℕ
  pub uid : ℕ
  pub roles : ℕ
  pub salt : ℕ
  pub hash : ℕ
  pub shell : List ℕ

-- An entry of zeros.
abbrev pub blank : Entry
blank = record { used = false; name = []; uid = 0; roles = 0; salt = 0; hash = 0; shell = [] }

abbrev pub colon : ℕ
colon = b':'

abbrev pub newline : ℕ
newline = 10

-- `text` is what the buffer holds, `cap` its size.
unfoldable pub append_str : (cap : ℕ) → (text s : List ℕ) → List ℕ
append_str cap text [] = text
append_str cap text (c ∷ cs) =
    let more = append_str cap (text ++ c ∷ []) cs in
    if ltb (length text + 1) cap then more else text

unfoldable pub append_u64 : (cap : ℕ) → List ℕ → ℕ → List ℕ
append_u64 cap text v = append_str cap text (print_u64 v)

-- The fourth field, written only where it is set.
unfoldable pub append_shell : (cap : ℕ) → List ℕ → List ℕ → List ℕ
append_shell cap text [] = text
append_shell cap text (c ∷ cs) = append_str cap (text ++ colon ∷ []) (c ∷ cs)

unfoldable pub append_entry : (cap : ℕ) → List ℕ → Entry → List ℕ
append_entry cap text e =
    append_shell cap
      (append_u64 cap
        (append_u64 cap (append_str cap text e.name ++ colon ∷ []) e.uid ++ colon ∷ []) e.roles)
      e.shell
    ++ newline ∷ []

unfoldable pub append_users : (cap : ℕ) → List ℕ → List Entry → List ℕ
append_users cap text [] = text
append_users cap text (e ∷ es) =
    append_users cap (if e.used then append_entry cap text e else text) es

-- `sizeof(text)`: W_MAX_USERS * 128
abbrev pub list_cap : ℕ
list_cap = 4096

unfoldable pub print_users : List Entry → List ℕ
print_users es = append_users list_cap [] es

unfoldable pub print_password : Entry → List ℕ
print_password e = append_u64 64 (append_u64 64 [] e.salt ++ colon ∷ []) e.hash ++ newline ∷ []

-- "/userconfig", and what paths are made from.
abbrev pub config_dir : List ℕ
config_dir = b'/' ∷ b'u' ∷ b's' ∷ b'e' ∷ b'r' ∷ b'c' ∷ b'o' ∷ b'n' ∷ b'f' ∷ b'i' ∷ b'g' ∷ []

abbrev pub users_dir : List ℕ
users_dir = b'/' ∷ b'u' ∷ b's' ∷ b'e' ∷ b'r' ∷ b'c' ∷ b'o' ∷ b'n' ∷ b'f' ∷ b'i' ∷ b'g' ∷ b'/' ∷ []

abbrev pub users_file : List ℕ
users_file =
    b'/' ∷ b'u' ∷ b's' ∷ b'e' ∷ b'r' ∷ b'c' ∷ b'o' ∷ b'n' ∷ b'f' ∷ b'i' ∷ b'g' ∷ b'/' ∷ b'u' ∷ b's'
    ∷ b'e' ∷ b'r' ∷ b's' ∷ []

abbrev pub password_file : List ℕ
password_file = b'/' ∷ b'p' ∷ b'a' ∷ b's' ∷ b's' ∷ b'w' ∷ b'o' ∷ b'r' ∷ b'd' ∷ []

abbrev pub homes : List ℕ
homes = b'/' ∷ b'h' ∷ b'o' ∷ b'm' ∷ b'e' ∷ b'/' ∷ []

-- W_PATH_MAX + 1
abbrev pub path_cap : ℕ
path_cap = 256

-- `user_dir_path`, `user_password_path`, and the home directory in `user_add`.
unfoldable pub user_dir_path : List ℕ → List ℕ
user_dir_path name = append_str path_cap (append_str path_cap [] users_dir) name

unfoldable pub user_password_path : List ℕ → List ℕ
user_password_path name =
    append_str path_cap (append_str path_cap (append_str path_cap [] users_dir) name) password_file

unfoldable pub home_path : List ℕ → List ℕ
home_path name = append_str path_cap (append_str path_cap [] homes) name

-- `while (*s && *s != stop && n < room)`: what is copied, and the rest.
unfoldable pub span_to : (stop room : ℕ) → List ℕ → List ℕ × List ℕ
span_to stop zero cs = ([], cs)
span_to stop (suc room) [] = ([], [])
span_to stop (suc room) (c ∷ cs) =
    let (a, b) = span_to stop room cs in if c == stop then ([], c ∷ cs) else (c ∷ a, b)

unfoldable pub parse_shell : List ℕ → List ℕ
parse_shell [] = []
parse_shell (c ∷ cs) =
    let (shell, rest) = span_to newline shell_max cs in if c == colon then shell else []

unfoldable pub parse_roles : (name : List ℕ) → (uid : ℕ) → List ℕ → Option Entry
parse_roles name uid [] = none
parse_roles name uid (c ∷ cs) =
    let (roles, rest) = parse_u64 0 cs in
    let e : Entry = record {
      used = true;
      name = name;
      uid = uid;
      roles = roles % 2 ^ 32;
      salt = 0;
      hash = 0;
      shell = parse_shell rest;
    } in
    if c == colon then some e else none

unfoldable pub parse_uid : (name rest : List ℕ) → Option Entry
parse_uid [] rest = none
parse_uid (n ∷ ns) [] = none
parse_uid (n ∷ ns) (c ∷ cs) =
    let (uid, rest) = parse_u64 0 cs in
    let e = parse_roles (n ∷ ns) (uid % 2 ^ 32) rest in if c == colon then e else none

-- The entry that a line stands for; none if it is malformed.
unfoldable pub parse_line : List ℕ → Option Entry
parse_line line = let (name, rest) = span_to colon name_len line in parse_uid name rest

-- `if (line[0]) parse_list_line(line);`, before the lines that follow.
unfoldable pub keep_line : List ℕ → List (List ℕ) → List (List ℕ)
keep_line [] later = later
keep_line (c ∷ cs) later = (c ∷ cs) ∷ later

-- `for (i = 0; i <= got; i++)` of `user_init`: the lines that are not empty. `line` is what is
-- read of the present one.
unfoldable pub lines_from : (line text : List ℕ) → List (List ℕ)
lines_from line [] = keep_line line []
lines_from line (c ∷ cs) =
    let longer = lines_from (line ++ c ∷ []) cs in
    let later = lines_from [] cs in
    if (c == newline) || (c == 0) then keep_line line later else longer

-- The salt and the hash of a password file.
unfoldable pub parse_hash : List ℕ → ℕ
parse_hash [] = 0
parse_hash (c ∷ cs) = let (hash, rest) = parse_u64 0 cs in if c == colon then hash else 0

unfoldable pub parse_password : List ℕ → ℕ × ℕ
parse_password text = let (salt, rest) = parse_u64 0 text in (salt, parse_hash rest)
