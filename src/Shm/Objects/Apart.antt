-- ===== src/Shm/Objects/Apart.antt =====
-- kernel/mm/shm.c: the mappings of a process do not overlap.
use wos.Prelude.{
  ℕ, zero, suc, ◌+◌, ◌*◌, ◌≤◌, ◌≡◌, ◌⊎◌, inl, inr, List, [], ◌∷◌, Bool, true, false, Option, none,
  some, arith, Bool-cases, ltb, ◌==◌, if◌then◌else◌, set,
}
use wos.Abi.{page_size}
use wos.Shm.{Mapping, mmap_top, in_use}
use wos.Shm.Objects.{find_mapping}
use wos.Shm.Regions.{Below, Blocked, Region, at, nowhere}

abbrev pub Bounded : Mapping → Type 0
Bounded m = m.base + m.pages * page_size ≤ mmap_top

-- Two mappings in use have no address in common.
abbrev pub Distinct : Mapping → Mapping → Type 0
Distinct m n =
    in_use m.shm ≡ true
    → in_use n.shm ≡ true
    → (m.base + m.pages * page_size ≤ n.base) ⊎ (n.base + n.pages * page_size ≤ m.base)

abbrev pub Apart : Mapping → List Mapping → Type 0
Apart m [] = Unit {0}
Apart m (n ∷ ns) = Distinct m n × Apart m ns

abbrev pub IsDisjoint : List Mapping → Type 0
IsDisjoint [] = Unit {0}
IsDisjoint (m ∷ ms) = Apart m ms × IsDisjoint ms

-- The mappings end at USER_MMAP_TOP at the latest, and no two in use overlap.
abbrev pub IsTable : List Mapping → Type 0
IsTable maps = Below maps × IsDisjoint maps

Distinct-sym : (m n : Mapping) → Distinct m n → Distinct n m
Distinct-sym m n d u v = elim (d v u) [ inl h ↦ inr h | inr h ↦ inl h ]

set-Below :
    (maps : List Mapping) (i : ℕ) (m : Mapping) → Below maps → Bounded m → Below (set maps i m)
set-Below [] i m b h = tt
set-Below (x ∷ xs) zero m b h = (h, b.1)
set-Below (x ∷ xs) (suc i) m b h = (b.0, set-Below xs i m b.1 h)

set-Apart :
    (x : Mapping) (maps : List Mapping) (i : ℕ) (m : Mapping)
    → Apart x maps
    → Distinct x m
    → Apart x (set maps i m)
set-Apart x [] i m a d = tt
set-Apart x (y ∷ ys) zero m a d = (d, a.1)
set-Apart x (y ∷ ys) (suc i) m a d = (a.0, set-Apart x ys i m a.1 d)

set-IsDisjoint :
    (maps : List Mapping) (i : ℕ) (m : Mapping)
    → IsDisjoint maps
    → Apart m maps
    → IsDisjoint (set maps i m)
set-IsDisjoint [] i m d a = tt
set-IsDisjoint (x ∷ xs) zero m d a = (a.1, d.1)
set-IsDisjoint (x ∷ xs) (suc i) m d a =
    (set-Apart x xs i m d.0 (Distinct-sym m x a.0), set-IsDisjoint xs i m d.1 a.1)

pub set-IsTable :
    (maps : List Mapping) (i : ℕ) (m : Mapping)
    → IsTable maps
    → Bounded m
    → Apart m maps
    → IsTable (set maps i m)
set-IsTable maps i m t b a = (set-Below maps i m t.0 b, set-IsDisjoint maps i m t.1 a)

-- A region that meets no mapping.
pub free-Apart :
    (m : Mapping) (maps : List Mapping)
    → (Blocked (m.pages * page_size) m.base maps → ⊥)
    → Apart m maps
free-Apart m [] free = tt
free-Apart m (n ∷ ns) free = (
  λ u v. elim (Bool-cases (ltb m.base (n.base + n.pages * page_size))) [
    | inl low ↦ elim (Bool-cases (ltb n.base (m.base + m.pages * page_size))) [
      | inl high ↦ absurd (free (inl (v, ground arith, ground arith)))
      | inr over ↦ inl (ground arith)
    ]
    | inr over ↦ inr (ground arith)
  ],
  free-Apart m ns (λ h. free (inr h)),
)

pub cleared-Apart : (m : Mapping) (maps : List Mapping) → Apart (record m { shm = none }) maps
cleared-Apart m [] = tt
cleared-Apart m (n ∷ ns) = (λ u v. absurd (ground arith), cleared-Apart m ns)

pub Region-top :
    {want base : ℕ} {maps : List Mapping}
    → Region want maps base
    → (base == 0) ≡ false
    → base + want ≤ mmap_top
Region-top (at base low high free least) there = high
Region-top (nowhere all) there = absurd (ground arith)

pub Region-free :
    {want base : ℕ} {maps : List Mapping}
    → Region want maps base
    → (base == 0) ≡ false
    → Blocked want base maps
    → ⊥
Region-free (at base low high free least) there = free
Region-free (nowhere all) there = absurd (ground arith)

-- A mapping that is found keeps the bound of the table.
abbrev pub Within : Option (ℕ × Mapping) → Type 0
Within none = Unit {0}
Within (some (i, m)) = Bounded m

pub find_mapping-Within :
    (addr : ℕ) (maps : List Mapping) → Below maps → Within (find_mapping addr maps)
unfolding find_mapping
find_mapping-Within addr [] b = tt
find_mapping-Within addr (m ∷ ms) b =
    here (in_use m.shm) (m.base == addr) m (find_mapping addr ms) b.0
      (find_mapping-Within addr ms b.1)
  where
    later : Option (ℕ × Mapping) → Option (ℕ × Mapping)
    later none = none
    later (some (i, found)) = some (suc i, found)

    later-Within : (o : Option (ℕ × Mapping)) → Within o → Within (later o)
    later-Within none w = tt
    later-Within (some (i, found)) w = w

    here :
        (u e : Bool) (m : Mapping) (o : Option (ℕ × Mapping))
        → Bounded m
        → Within o
        → Within (elim u [ true ↦ if e then some (0, m) else later o | false ↦ later o ])
    here true true m o b w = b
    here true false m o b w = later-Within o w
    here false e m o b w = later-Within o w
