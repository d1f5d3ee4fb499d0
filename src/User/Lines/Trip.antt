-- ===== src/User/Lines/Trip.antt =====
-- kernel/fs/user.c: the line of an account that is written is the line that is read.
use wos.Prelude.{
  ℕ, zero, suc, ◌+◌, ◌%◌, ◌^◌, ◌<◌, ◌≤◌, ◌≡◌, ◌≢◌, refl, sym, ap, ◌∙◌, List, [], ◌∷◌, ◌++◌, true,
  false, some, length, length-append, ltb, ◌==◌, arith, append_assoc, append-nil,
}
use wos.User.Digits.{print_u64, parse-print, Stops}
use wos.User.Lines.{
  append_str, span_to, parse_shell, parse_roles, parse_uid, parse_line, Entry, colon, newline,
  name_len, shell_max,
}

-- No byte of the text is `stop`.
abbrev pub Lacks : (stop : ℕ) → List ℕ → Type 0
Lacks stop [] = Unit {0}
Lacks stop (c ∷ cs) = ((c == stop) ≡ false) × Lacks stop cs

pub append_str-fits :
    (cap : ℕ) (text s : List ℕ) → length text + length s < cap → append_str cap text s ≡ text ++ s
unfolding append_str
append_str-fits cap text [] h = sym (append-nil text)
append_str-fits cap text (c ∷ cs) h =
    let room : ltb (length text + 1) cap ≡ true = ground arith in
    rw room (
      append_str-fits cap (text ++ c ∷ []) cs (omega (arith, length-append text (c ∷ [])))
      ∙ append_assoc text (c ∷ []) cs)

span-stop :
    (stop room : ℕ) (s rest : List ℕ)
    → Lacks stop s
    → length s ≤ room
    → span_to stop room (s ++ stop ∷ rest) ≡ (s, stop ∷ rest)
unfolding span_to
span-stop stop zero [] rest h few = refl
span-stop stop zero (c ∷ cs) rest h few = absurd (omega arith)
span-stop stop (suc room) [] rest h few = let e : (stop == stop) ≡ true = ground arith in rw e
span-stop stop (suc room) (c ∷ cs) rest h few =
    rw (h.0, span-stop stop room cs rest h.1 (omega arith)) refl

span-end :
    (stop room : ℕ) (s : List ℕ) → Lacks stop s → length s ≤ room → span_to stop room s ≡ (s, [])
unfolding span_to
span-end stop zero [] h few = refl
span-end stop zero (c ∷ cs) h few = absurd (omega arith)
span-end stop (suc room) [] h few = refl
span-end stop (suc room) (c ∷ cs) h few = rw (h.0, span-end stop room cs h.1 (omega arith)) refl

-- An account whose line can be read back.
pub record Writable (e : Entry) : Type 0 where
  pub named : e.name ≢ []
  pub name_fits : length e.name ≤ name_len
  pub name_plain : Lacks colon e.name
  pub name_in_line : Lacks newline e.name
  pub uid_fits : e.uid < 2 ^ 32
  pub roles_fit : e.roles < 2 ^ 32
  pub shell_fits : length e.shell ≤ shell_max
  pub shell_in_line : Lacks newline e.shell

-- The fourth field.
unfoldable pub shell_field : List ℕ → List ℕ
shell_field [] = []
shell_field (c ∷ cs) = colon ∷ c ∷ cs

unfoldable pub line_of : Entry → List ℕ
line_of e =
    e.name ++ colon ∷ (print_u64 e.uid ++ colon ∷ (print_u64 e.roles ++ shell_field e.shell))

-- The fields that the list keeps.
abbrev pub listed : Entry → Entry
listed e = record e { used = true; salt = 0; hash = 0 }

field-Stops : (shell : List ℕ) → Stops (shell_field shell)
unfolding shell_field
field-Stops [] = tt
field-Stops (c ∷ cs) = refl

shell-trip :
    (shell : List ℕ)
    → length shell ≤ shell_max
    → Lacks newline shell
    → parse_shell (shell_field shell) ≡ shell
unfolding parse_shell shell_field
shell-trip [] few h = refl
shell-trip (c ∷ cs) few h =
    ap (λ (t : List ℕ × List ℕ). t.0) (span-end newline shell_max (c ∷ cs) h few)

roles-trip :
    (name : List ℕ) (uid roles : ℕ) (shell : List ℕ)
    → roles < 2 ^ 32
    → length shell ≤ shell_max
    → Lacks newline shell
    → parse_roles name uid (colon ∷ (print_u64 roles ++ shell_field shell))
      ≡ some (record {
        used = true;
        name = name;
        uid = uid;
        roles = roles;
        salt = 0;
        hash = 0;
        shell = shell;
      })
unfolding parse_roles
roles-trip name uid roles shell small few h =
    let same : roles % 2 ^ 32 ≡ roles = omega arith in
    rw
      (
        parse-print roles (shell_field shell) (omega arith) (field-Stops shell),
        same,
        shell-trip shell few h,
      )
      refl

uid-trip :
    (name : List ℕ) (e : Entry)
    → name ≢ []
    → e.uid < 2 ^ 32
    → e.roles < 2 ^ 32
    → length e.shell ≤ shell_max
    → Lacks newline e.shell
    → parse_uid name
        (colon ∷ (print_u64 e.uid ++ colon ∷ (print_u64 e.roles ++ shell_field e.shell)))
      ≡ some (record {
        used = true;
        name = name;
        uid = e.uid;
        roles = e.roles;
        salt = 0;
        hash = 0;
        shell = e.shell;
      })
unfolding parse_uid
uid-trip [] e some_name small small' few h = absurd (some_name refl)
uid-trip (n ∷ ns) e some_name small small' few h =
    let rest = colon ∷ (print_u64 e.roles ++ shell_field e.shell) in
    let same : e.uid % 2 ^ 32 ≡ e.uid = omega arith in
    rw (parse-print e.uid rest (omega arith) refl, same)
      (roles-trip (n ∷ ns) e.uid e.roles e.shell small' few h)

-- The line of an account gives back its name, number, roles and shell.
pub parse_line-line_of : (e : Entry) → Writable e → parse_line (line_of e) ≡ some (listed e)
unfolding parse_line line_of
parse_line-line_of e w =
    let rest = print_u64 e.uid ++ colon ∷ (print_u64 e.roles ++ shell_field e.shell) in
    rw (span-stop colon name_len e.name rest w.name_plain w.name_fits)
      (uid-trip e.name e w.named w.uid_fits w.roles_fit w.shell_fits w.shell_in_line)
