-- ===== src/User/Lines/Whole.antt =====
-- kernel/fs/user.c: the whole of /userconfig/users, written and read.
use wos.Prelude.{
  ℕ, zero, suc, ◌+◌, ◌*◌, ◌/◌, ◌%◌, ◌<◌, ◌≤◌, ◌≡◌, ◌≢◌, refl, sym, ap, ◌∙◌, inl, inr, List, [], ◌∷◌,
  ◌++◌, true, false, Option, some, map, length, length-append, ◌==◌, if◌then◌else◌, arith,
  append_assoc, append-nil, Bool-cases,
}
use wos.User.Digits.{print_u64, digits_loop, length-print_u64}
use wos.User.Lines.Trip.{
  append_str-fits, Lacks, Writable, line_of, shell_field, listed, parse_line-line_of,
}
use wos.User.Lines.{
  append_str, append_u64, append_shell, append_entry, append_users, list_cap, print_users,
  parse_line, lines_from, keep_line, Entry, colon, newline,
}

Lacks-append : (stop : ℕ) (xs ys : List ℕ) → Lacks stop xs → Lacks stop ys → Lacks stop (xs ++ ys)
Lacks-append stop [] ys h k = k
Lacks-append stop (x ∷ xs) ys h k = (h.0, Lacks-append stop xs ys h.1 k)

-- Digits are neither a newline nor a NUL.
digits_loop-Lacks :
    (stop fuel v : ℕ) (acc : List ℕ)
    → stop < 48
    → Lacks stop acc
    → Lacks stop (digits_loop fuel v acc)
unfolding digits_loop
digits_loop-Lacks stop zero v acc low h = h
digits_loop-Lacks stop (suc fuel) v acc low h = elim (Bool-cases (v == 0)) [
  | inl e ↦ rw e h
  | inr ne ↦
      rw ne (digits_loop-Lacks stop fuel (v / 10) ((b'0' + v % 10) ∷ acc) low (ground arith, h))
]

print_u64-Lacks : (stop v : ℕ) → stop < 48 → Lacks stop (print_u64 v)
unfolding print_u64
print_u64-Lacks stop v low = elim (Bool-cases (v == 0)) [
  | inl e ↦ rw e (ground arith, tt)
  | inr ne ↦ rw ne (digits_loop-Lacks stop 20 v [] low tt)
]

field-Lacks :
    (stop : ℕ) (shell : List ℕ) → stop < 48 → Lacks stop shell → Lacks stop (shell_field shell)
unfolding shell_field
field-Lacks stop [] low h = tt
field-Lacks stop (c ∷ cs) low h = (ground arith, h)

line_of-Lacks :
    (stop : ℕ) (e : Entry)
    → stop < 48
    → Lacks stop e.name
    → Lacks stop e.shell
    → Lacks stop (line_of e)
unfolding line_of
line_of-Lacks stop e low name shell =
    let colons : (colon == stop) ≡ false = ground arith in
    Lacks-append stop e.name
      (colon ∷ (print_u64 e.uid ++ colon ∷ (print_u64 e.roles ++ shell_field e.shell))) name
      (
        colons,
        Lacks-append stop (print_u64 e.uid) (colon ∷ (print_u64 e.roles ++ shell_field e.shell))
            (print_u64-Lacks stop e.uid low)
            (
              colons,
              Lacks-append stop (print_u64 e.roles) (shell_field e.shell)
                  (print_u64-Lacks stop e.roles low) (field-Lacks stop e.shell low shell),
            ),
      )

length-field : (shell : List ℕ) → length (shell_field shell) ≤ length shell + 1
unfolding shell_field
length-field [] = omega arith
length-field (c ∷ cs) = omega arith

length-line_of : (e : Entry) → Writable e → length (line_of e) ≤ 117
unfolding line_of
length-line_of e w = omega (
  arith,
  w.name_fits,
  w.shell_fits,
  length-append e.name
      (colon ∷ (print_u64 e.uid ++ colon ∷ (print_u64 e.roles ++ shell_field e.shell))),
  length-append (print_u64 e.uid) (colon ∷ (print_u64 e.roles ++ shell_field e.shell)),
  length-append (print_u64 e.roles) (shell_field e.shell),
  length-print_u64 e.uid w.uid_fits,
  length-print_u64 e.roles w.roles_fit,
  length-field e.shell,
)

append_shell-fits :
    (cap : ℕ) (text shell : List ℕ)
    → length text + length shell + 1 < cap
    → append_shell cap text shell ≡ text ++ shell_field shell
unfolding append_shell shell_field
append_shell-fits cap text [] h = sym (append-nil text)
append_shell-fits cap text (c ∷ cs) h =
    append_str-fits cap (text ++ colon ∷ []) (c ∷ cs)
      (omega (arith, length-append text (colon ∷ [])))
    ∙ append_assoc text (colon ∷ []) (c ∷ cs)

append_field :
    (cap : ℕ) (text s : List ℕ)
    → length text + length s < cap
    → append_str cap text s ++ colon ∷ [] ≡ text ++ (s ++ colon ∷ [])
append_field cap text s h = rw (append_str-fits cap text s h) (append_assoc text s (colon ∷ []))

joined :
    (text name uid roles field : List ℕ)
    → (((text ++ (name ++ colon ∷ [])) ++ (uid ++ colon ∷ [])) ++ roles ++ field) ++ newline ∷ []
      ≡ text ++ ((name ++ colon ∷ (uid ++ colon ∷ (roles ++ field))) ++ newline ∷ [])
joined text name uid roles field = simp append_assoc

append_entry-fits :
    (cap : ℕ) (text : List ℕ) (e : Entry)
    → Writable e
    → length text + 118 ≤ cap
    → append_entry cap text e ≡ text ++ (line_of e ++ newline ∷ [])
unfolding append_entry append_u64 line_of
append_entry-fits cap text e w h =
    let u = print_u64 e.uid in
    let r = print_u64 e.roles in
    let t1 = text ++ (e.name ++ colon ∷ []) in
    let t2 = t1 ++ (u ++ colon ∷ []) in
    let small_u : length u ≤ 10 = length-print_u64 e.uid w.uid_fits in
    let small_r : length r ≤ 10 = length-print_u64 e.roles w.roles_fit in
    let len1 : length t1 ≡ length text + length e.name + 1 =
      omega (arith, length-append text (e.name ++ colon ∷ []), length-append e.name (colon ∷ [])) in
    let len2 : length t2 ≡ length t1 + length u + 1 =
      omega (arith, length-append t1 (u ++ colon ∷ []), length-append u (colon ∷ [])) in
    let len3 : length (t2 ++ r) ≡ length t2 + length r = length-append t2 r in
    let e1 : append_str cap text e.name ++ colon ∷ [] ≡ t1 =
      append_field cap text e.name (omega (arith, w.name_fits)) in
    let e2 : append_str cap t1 u ++ colon ∷ [] ≡ t2 =
      append_field cap t1 u (omega (arith, w.name_fits)) in
    let e3 : append_str cap t2 r ≡ t2 ++ r =
      append_str-fits cap t2 r (omega (arith, w.name_fits)) in
    let e4 : append_shell cap (t2 ++ r) e.shell ≡ (t2 ++ r) ++ shell_field e.shell =
      append_shell-fits cap (t2 ++ r) e.shell (omega (arith, w.name_fits, w.shell_fits)) in
    rw (e1, e2, e3, e4) (joined text e.name u r (shell_field e.shell))

-- Every account in use can be written and read back; its strings hold no NUL.
abbrev pub Listable : List Entry → Type 0
Listable [] = Unit {0}
Listable (e ∷ es) = (e.used ≡ true → Writable e × Lacks 0 e.name × Lacks 0 e.shell) × Listable es

-- The accounts in use, with the fields that the list keeps.
pub accounts : List Entry → List Entry
accounts [] = []
accounts (e ∷ es) = let rest = accounts es in if e.used then listed e ∷ rest else rest

written : List Entry → List ℕ
written [] = []
written (e ∷ es) = let rest = written es in if e.used then line_of e ++ newline ∷ rest else rest

append_users-written :
    (cap : ℕ) (text : List ℕ) (es : List Entry)
    → Listable es
    → length text + length es * 118 ≤ cap
    → append_users cap text es ≡ text ++ written es
unfolding append_users written append_entry line_of
append_users-written cap text [] w h = sym (append-nil text)
append_users-written cap text (e ∷ es) w h = elim (Bool-cases e.used) [
  | inr unused ↦ rw unused (append_users-written cap text es w.1 (omega arith))
  | inl used ↦
      let longer = text ++ (line_of e ++ newline ∷ []) in
      let size : length longer ≡ length text + length (line_of e) + 1 = omega (
        arith,
        length-append text (line_of e ++ newline ∷ []),
        length-append (line_of e) (newline ∷ []),
      ) in
      rw (used, append_entry-fits cap text e (w.0 used).0 (omega arith))
        (append_users-written cap longer es w.1 (omega (arith, length-line_of e (w.0 used).0))
          ∙ append_assoc text (line_of e ++ newline ∷ []) (written es)
          ∙ ap (λ (t : List ℕ). text ++ t) (append_assoc (line_of e) (newline ∷ []) (written es)))
]

keep_line-some :
    (line : List ℕ) (later : List (List ℕ)) → line ≢ [] → keep_line line later ≡ line ∷ later
unfolding keep_line
keep_line-some [] later h = absurd (h refl)
keep_line-some (c ∷ cs) later h = refl

lines-line :
    (line s rest : List ℕ)
    → Lacks newline s
    → Lacks 0 s
    → line ++ s ≢ []
    → lines_from line (s ++ newline ∷ rest) ≡ (line ++ s) ∷ lines_from [] rest
unfolding lines_from
lines-line line [] rest h z some_line =
    let e : line ++ [] ≡ line = append-nil line in
    rw e (keep_line-some line (lines_from [] rest) (λ none. some_line (e ∙ none)))
lines-line line (c ∷ cs) rest h z some_line =
    let e : (line ++ c ∷ []) ++ cs ≡ line ++ c ∷ cs = append_assoc line (c ∷ []) cs in
    rw (h.0, z.0)
      (lines-line (line ++ c ∷ []) cs rest h.1 z.1 (λ none. some_line (sym e ∙ none))
        ∙ ap (λ (l : List ℕ). l ∷ lines_from [] rest) e)

line_of-some : (e : Entry) → e.name ≢ [] → line_of e ≢ []
unfolding line_of
line_of-some e h = starts e.name _ h
  where
    starts : (name : List ℕ) (rest : List ℕ) → name ≢ [] → name ++ rest ≢ []
    starts [] rest h = absurd (h refl)
    starts (c ∷ cs) rest h = λ e. absurd (ground arith)

no_lines : lines_from [] [] ≡ []
unfolding lines_from keep_line
no_lines = refl

parse_lines-written :
    (es : List Entry)
    → Listable es
    → map parse_line (lines_from [] (written es)) ≡ map some (accounts es)
unfolding written accounts lines_from line_of
parse_lines-written [] w = ap (λ (l : List (List ℕ)). map parse_line l) no_lines
parse_lines-written (e ∷ es) w = elim (Bool-cases e.used) [
  | inr unused ↦ rw unused (parse_lines-written es w.1)
  | inl used ↦
      let (fit, name, shell) = w.0 used in
      rw
        (
          used,
          lines-line [] (line_of e) (written es)
              (line_of-Lacks newline e (omega arith) fit.name_in_line fit.shell_in_line)
              (line_of-Lacks 0 e (omega arith) name shell) (line_of-some e fit.named),
          parse_line-line_of e fit,
        )
        (ap (λ (l : List (Option Entry)). some (listed e) ∷ l) (parse_lines-written es w.1))
]

-- In a table of at most 32 places whose accounts are listable, the lines of the list that
-- save_user_list writes are read back, in order, as exactly the accounts in use, each with its name,
-- number, roles and shell.
pub print_users-parse_line :
    (es : List Entry)
    → length es ≤ 32
    → Listable es
    → map parse_line (lines_from [] (print_users es)) ≡ map some (accounts es)
unfolding print_users
print_users-parse_line es few w =
    rw (append_users-written list_cap [] es w (omega arith)) (parse_lines-written es w)
