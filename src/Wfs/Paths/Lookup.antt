-- ===== src/Wfs/Paths/Lookup.antt =====
-- `wfs_lookup` of kernel/fs/wfs.c, a character at a time, against the names of the path one after the
-- other.
use mathlib.Core.Path.{fun_ext}
use wos.Prelude.{
  ℕ, zero, suc, ◌+◌, ◌≤◌, ◌<◌, ◌≡◌, refl, ap, ◌∙◌, inl, inr, List, [], ◌∷◌, length, Bool, true,
  false, not, leb, none, some, ◌==◌, if◌then◌else◌, arith, Bool-cases,
}
use wos.Abi.{enametoolong}
use wos.Exec.{Exec, pure, raise, ◌>>=◌}
use wos.Wfs.Device.{Device}
use wos.Wfs.Layout.{name_max}
use wos.Wfs.Volume.{Volume}
use wos.Wfs.Directories.{dir_find}
use wos.Wfs.Paths.{
  slash, skip_slashes, cons_name, take_name, enter, enter_next, walk, is_absolute, wfs_lookup,
}

abbrev pub glue : ℕ → List ℕ → List (List ℕ) → List (List ℕ)
glue c [] names = (c ∷ []) ∷ names
glue c (x ∷ p) [] = (c ∷ []) ∷ []
glue c (x ∷ p) (n ∷ names) = if x == slash then (c ∷ []) ∷ n ∷ names else (c ∷ n) ∷ names

-- The names of a path, without the empty ones between slashes.
unfoldable pub components : List ℕ → List (List ℕ)
components [] = []
components (c ∷ p) = let names = components p in if c == slash then names else glue c p names

-- The characters up to the next slash, and what is behind them.
abbrev until : List ℕ → List ℕ
until [] = []
until (c ∷ p) = let rest = until p in if c == slash then [] else c ∷ rest

abbrev behind : List ℕ → List ℕ
behind [] = []
behind (c ∷ p) = let rest = behind p in if c == slash then c ∷ p else rest

components-skip : (p : List ℕ) → components (skip_slashes p) ≡ components p
unfolding components skip_slashes
components-skip [] = refl
components-skip (c ∷ p) = elim (Bool-cases (c == slash)) [
  | inl y ↦ rw y (components-skip p)
  | inr n ↦ rw n (rw n refl)
]

length-skip : (p : List ℕ) → length (skip_slashes p) ≤ length p
unfolding skip_slashes
length-skip [] = omega arith
length-skip (c ∷ p) = ground (arith, length-skip p)

length-behind : (p : List ℕ) → length (behind p) ≤ length p
length-behind [] = omega arith
length-behind (c ∷ p) = ground (arith, length-behind p)

glue-slash :
    (c x : ℕ) (p : List ℕ) (names : List (List ℕ))
    → (x == slash) ≡ true
    → glue c (x ∷ p) names ≡ (c ∷ []) ∷ names
glue-slash c x p [] y = refl
glue-slash c x p (n ∷ names) y = rw y refl

-- Behind a name the other names follow.
components-until :
    (c : ℕ) (p : List ℕ)
    → (c == slash) ≡ false
    → components (c ∷ p) ≡ (c ∷ until p) ∷ components (behind p)
unfolding components
components-until c [] n = rw n refl
components-until c (x ∷ p) n = elim (Bool-cases (x == slash)) [
  | inl y ↦ rw (n, y, y) (glue-slash c x p (components p) y)
  | inr m ↦
      let first : components (c ∷ x ∷ p) ≡ glue c (x ∷ p) (components (x ∷ p)) = rw n refl in
      first ∙ ap (glue c (x ∷ p)) (components-until x p m) ∙ rw m refl
]

longer :
    (c : ℕ) (t : Bool) (name rest : List ℕ)
    → cons_name c (if t then some (name, rest) else none)
      ≡ (if t then some (c ∷ name, rest) else none)
longer c true name rest = refl
longer c false name rest = refl

-- One name of at most `room` characters.
take_name-until :
    (room : ℕ) (p : List ℕ)
    → take_name room p ≡ (if leb (length (until p)) room then some (until p, behind p) else none)
unfolding take_name
take_name-until room [] = ground arith
take_name-until zero (c ∷ p) = elim (Bool-cases (c == slash)) [
  | inl y ↦ rw y (ground arith)
  | inr n ↦ rw n (ground arith)
]
take_name-until (suc room) (c ∷ p) = elim (Bool-cases (c == slash)) [
  | inl y ↦ rw y (ground arith)
  | inr n ↦
      let same : leb (suc (length (until p))) (suc room) ≡ leb (length (until p)) room =
        ground arith in
      rw (n, same, take_name-until room p)
        (longer c (leb (length (until p)) room) (until p) (behind p))
]

components_nil : components [] ≡ []
unfolding components
components_nil = refl

-- What is left after the slashes does not start with one.
skipped : (c : ℕ) (q : List ℕ) → skip_slashes (c ∷ q) ≡ c ∷ q → (c == slash) ≡ false
unfolding skip_slashes
skipped c q s = elim (Bool-cases (c == slash)) [
  | inl y ↦
      let e : skip_slashes q ≡ c ∷ q = ground arith in
      let l : length (skip_slashes q) ≡ suc (length q) = ap length e in
      absurd (omega (arith, length-skip q))
  | inr n ↦ n
]

skip-skip : (p : List ℕ) → skip_slashes (skip_slashes p) ≡ skip_slashes p
unfolding skip_slashes
skip-skip [] = refl
skip-skip (c ∷ p) = elim (Bool-cases (c == slash)) [
  | inl y ↦ rw y (skip-skip p)
  | inr n ↦ rw n (rw n refl)
]

module _ {d : Device} where
  -- The names of a path, from the inode `ino` on.
  unfoldable pub descend : (ino : ℕ) → List (List ℕ) → Exec (Volume d) ℕ
  descend ino [] = pure ino
  descend ino (n ∷ names) =
      if leb (length n) name_max
      then dir_find ino n >>= (λ next. descend next names)
      else raise enametoolong

  fits-descend :
      (n : ℕ) (name rest : List ℕ) (ino : ℕ) (t : Bool)
      → ((i : ℕ) → walk n rest i ≡ descend i (components rest))
      → enter (if t then some (name, rest) else none) ino (λ p next. walk n p next) ≡ (
          if t
          then dir_find ino name >>= (λ next. descend next (components rest))
          else raise enametoolong)
  unfolding enter
  fits-descend n name rest ino true ih =
      ap (λ (f : ℕ → Exec (Volume d) ℕ). dir_find ino name >>= f) (fun_ext ih)
  fits-descend n name rest ino false ih = refl

  enter_next-descend :
      (n : ℕ) (q : List ℕ) (ino : ℕ)
      → length q ≤ n
      → skip_slashes q ≡ q
      → ((p : List ℕ) (i : ℕ) → length p < n → walk n p i ≡ descend i (components p))
      → enter_next q ino (λ rest next. walk n rest next) ≡ descend ino (components q)
  unfolding enter_next descend
  enter_next-descend n [] ino h s ih = rw (components_nil) refl
  enter_next-descend n (c ∷ q) ino h s ih =
      let solid = skipped c q s in
      rw (components-until c q solid, take_name-until name_max (c ∷ q), solid)
        (fits-descend n (c ∷ until q) (behind q) ino (leb (suc (length (until q))) name_max)
          (λ i. ih (behind q) i (omega (arith, length-behind q))))

  walk-descend :
      (n : ℕ) (p : List ℕ) (ino : ℕ) → length p < n → walk n p ino ≡ descend ino (components p)
  unfolding walk
  walk-descend zero p ino h = absurd (omega arith)
  walk-descend (suc n) p ino h =
      enter_next-descend n (skip_slashes p) ino (omega (arith, length-skip p)) (skip-skip p)
        (λ q i l. walk-descend n q i l)
      ∙ ap (descend ino) (components-skip p)

  both_checks :
      (t a : Bool) (x y z : Exec (Volume d) ℕ) (v : Volume d)
      → t ≡ true
      → a ≡ true
      → (if not t then x else if not a then y else z) v ≡ z v
  both_checks true true x y z v m h = refl
  both_checks true false x y z v m h = absurd cc
  both_checks false a x y z v m h = absurd cc

  -- On a mounted volume, the lookup of an absolute path is the walk from the root directory along the
  -- path's names between its slashes, however many slashes there are between two of them: each name
  -- of at most 27 characters is looked for in the directory that the one before it led to, a longer one
  -- ends the walk with -W_ENAMETOOLONG.
  pub wfs_lookup-descend :
      (path : List ℕ) (v : Volume d)
      → v.mounted ≡ true
      → is_absolute path ≡ true
      → wfs_lookup path v ≡ descend v.sb.root_inode (components path) v
  unfolding wfs_lookup ◌>>=◌
  wfs_lookup-descend path v m a =
      both_checks v.mounted (is_absolute path) _ _ _ v m a
      ∙ ap (λ (f : Exec (Volume d) ℕ). f v)
          (walk-descend (length path + 1) path v.sb.root_inode (omega arith))
