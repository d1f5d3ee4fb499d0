-- ===== src/Wfs/Cache/Coherent.antt =====
-- The cache of kernel/fs/wfs.c implements a plain store of blocks: what it says of a block is what was
-- last written there.
use mathlib.Core.Option.{some-injective}
use wos.Prelude.{
  ℕ, zero, suc, ◌+◌, ◌*◌, ◌^◌, ◌≤◌, ◌≡◌, ◌≢◌, ◌⊎◌, refl, sym, ap, subst, ◌∙◌, inl, inr, List, [],
  ◌∷◌, true, false, Option, none, some, set, get_or, update, arith, Bool-cases, Option-cases, ◌==◌,
}
use wos.Wfs.Device.{Bytes}
use wos.Wfs.Cache.{Slot, empty_slot, holds, shift, cache_find, slot_for, cache_victim}

-- The sectors of the block have numbers of 32 bits.
abbrev pub InRange : (partition block : ℕ) → Type 0
InRange partition block = partition + block * 2 + 2 ≤ 2 ^ 32

-- Every slot that is not empty holds what the store has.
abbrev pub Honest : (partition : ℕ) → (ℕ → Bytes) → List Slot → Type 0
Honest partition store [] = Unit {0}
Honest partition store (s ∷ ss) =
    ((s.stamp ≡ 0) ⊎ (InRange partition s.block × (s.bytes ≡ store s.block)))
    × Honest partition store ss

abbrev pub Absent : (block : ℕ) → List Slot → Type 0
Absent block [] = Unit {0}
Absent block (s ∷ ss) = (holds block s ≡ false) × Absent block ss

-- No slot but the one at place `i` holds the block.
abbrev pub AbsentBut : (block i : ℕ) → List Slot → Type 0
AbsentBut block i [] = Unit {0}
AbsentBut block zero (s ∷ ss) = Absent block ss
AbsentBut block (suc i) (s ∷ ss) = (holds block s ≡ false) × AbsentBut block i ss

-- No block is in two slots.
abbrev pub Lone : List Slot → Type 0
Lone [] = Unit {0}
Lone (s ∷ ss) = ((s.stamp ≡ 0) ⊎ Absent s.block ss) × Lone ss

pub Absent-AbsentBut :
    (block i : ℕ) (slots : List Slot) → Absent block slots → AbsentBut block i slots
Absent-AbsentBut block i [] a = tt
Absent-AbsentBut block zero (s ∷ ss) a = a.1
Absent-AbsentBut block (suc i) (s ∷ ss) a = (a.0, Absent-AbsentBut block i ss a.1)

shift-none : (o : Option ℕ) → shift o ≡ none → o ≡ none
shift-none none h = refl
shift-none (some i) h = absurd (ground arith)

shift-some : (o : Option ℕ) (i : ℕ) → shift o ≡ some i → (j : ℕ) × (o ≡ some j) × (i ≡ suc j)
shift-some none i h = absurd (ground arith)
shift-some (some j) i h = (j, refl, ground arith)

find-hit :
    (block : ℕ) (s : Slot) (ss : List Slot)
    → holds block s ≡ true
    → cache_find block (s ∷ ss) ≡ some 0
unfolding cache_find
find-hit block s ss hit = ground arith

find-miss :
    (block : ℕ) (s : Slot) (ss : List Slot)
    → holds block s ≡ false
    → cache_find block (s ∷ ss) ≡ shift (cache_find block ss)
unfolding cache_find
find-miss block s ss miss = ground arith

pub missing-Absent :
    (block : ℕ) (slots : List Slot) → cache_find block slots ≡ none → Absent block slots
missing-Absent block [] h = tt
missing-Absent block (s ∷ ss) h = elim (Bool-cases (holds block s)) [
  | inl hit ↦
      let e : ◌≡◌ {A = Option ℕ} (some 0) none = sym (find-hit block s ss hit) ∙ h in
      absurd (ground arith)
  | inr miss ↦ (
    miss,
    missing-Absent block ss
        (shift-none (cache_find block ss) (sym (find-miss block s ss miss) ∙ h)),
  )
]

Absent-same :
    (block : ℕ) (s : Slot) (ss : List Slot)
    → holds block s ≡ true
    → (s.stamp ≡ 0) ⊎ Absent s.block ss
    → Absent block ss
Absent-same block s ss hit (inl e) = absurd (ground arith)
Absent-same block s ss hit (inr a) =
    let same : s.block ≡ block = ground arith in subst (λ (n : ℕ). Absent n ss) same a

abbrev pub Told : (partition : ℕ) → (ℕ → Bytes) → (block i : ℕ) → List Slot → Type 0
Told partition store block i slots =
    ((get_or slots i empty_slot).bytes ≡ store block)
    × InRange partition block
    × AbsentBut block i slots

first-Told :
    (partition : ℕ) (store : ℕ → Bytes) (block : ℕ) (s : Slot) (ss : List Slot)
    → holds block s ≡ true
    → (s.stamp ≡ 0) ⊎ (InRange partition s.block × (s.bytes ≡ store s.block))
    → (s.stamp ≡ 0) ⊎ Absent s.block ss
    → Told partition store block 0 (s ∷ ss)
first-Told partition store block s ss hit (inl e) l = absurd (ground arith)
first-Told partition store block s ss hit (inr h) l =
    let same : s.block ≡ block = ground arith in
    (h.1 ∙ ap store same, subst (InRange partition) same h.0, Absent-same block s ss hit l)

find-nil : (block i : ℕ) → cache_find block [] ≢ some i
unfolding cache_find
find-nil block i e = ground arith

-- What a found slot holds, and that no other slot holds it too.
pub found-Told :
    (partition : ℕ) (store : ℕ → Bytes) (block i : ℕ) (slots : List Slot)
    → Honest partition store slots
    → Lone slots
    → cache_find block slots ≡ some i
    → Told partition store block i slots
found-Told partition store block i [] h l f = absurd (find-nil block i f)
found-Told partition store block i (s ∷ ss) h l f = elim (Bool-cases (holds block s)) [
  | inl hit ↦
      let place : 0 ≡ i = some-injective _ _ (sym (find-hit block s ss hit) ∙ f) in
      subst (λ (n : ℕ). Told partition store block n (s ∷ ss)) place
        (first-Told partition store block s ss hit h.0 l.0)
  | inr miss ↦
      let (j, found, place) =
        shift-some (cache_find block ss) i (sym (find-miss block s ss miss) ∙ f) in
      let (bytes, range, apart) = found-Told partition store block j ss h.1 l.1 found in
      rw place (bytes, range, (miss, apart))
]

Absent-set :
    (block : ℕ) (slots : List Slot) (i : ℕ) (s : Slot)
    → Absent block slots
    → holds block s ≡ false
    → Absent block (set slots i s)
Absent-set block [] i s a h = tt
Absent-set block (x ∷ xs) zero s a h = (h, a.1)
Absent-set block (x ∷ xs) (suc i) s a h = (a.0, Absent-set block xs i s a.1 h)

rest-Lone :
    (x : Slot) (xs : List Slot) (i : ℕ) (s : Slot)
    → (x.stamp ≡ 0) ⊎ Absent x.block xs
    → (s.stamp ≡ 0) ⊎ AbsentBut s.block (suc i) (x ∷ xs)
    → (x.stamp ≡ 0) ⊎ Absent x.block (set xs i s)
rest-Lone x xs i s (inl e) a = inl e
rest-Lone x xs i s (inr l) (inl e) = inr (Absent-set x.block xs i s l (ground arith))
rest-Lone x xs i s (inr l) (inr a) = elim (Bool-cases (x.stamp == 0)) [
  | inl vacant ↦ inl (ground arith)
  | inr full ↦ inr (Absent-set x.block xs i s l (ground (arith, a.0)))
]

later-absent :
    (x : Slot) (xs : List Slot) (i : ℕ) (s : Slot)
    → (s.stamp ≡ 0) ⊎ AbsentBut s.block (suc i) (x ∷ xs)
    → (s.stamp ≡ 0) ⊎ AbsentBut s.block i xs
later-absent x xs i s (inl e) = inl e
later-absent x xs i s (inr a) = inr a.1

-- A slot for the block, where no other slot has it.
pub set-Lone :
    (slots : List Slot) (i : ℕ) (s : Slot)
    → Lone slots
    → (s.stamp ≡ 0) ⊎ AbsentBut s.block i slots
    → Lone (set slots i s)
set-Lone [] i s l a = tt
set-Lone (x ∷ xs) zero s l a = (a, l.1)
set-Lone (x ∷ xs) (suc i) s l a =
    (rest-Lone x xs i s l.0 a, set-Lone xs i s l.1 (later-absent x xs i s a))

abbrev pub Good : (partition : ℕ) → (ℕ → Bytes) → Slot → Type 0
Good partition store s = (s.stamp ≡ 0) ⊎ (InRange partition s.block × (s.bytes ≡ store s.block))

pub update-ne :
    (store : ℕ → Bytes) (block : ℕ) (bytes : Bytes) (n : ℕ)
    → n ≢ block
    → update store block bytes n ≡ store n
unfolding update
update-ne store block bytes n h = ground arith

apart-honest :
    (partition : ℕ) (store : ℕ → Bytes) (block : ℕ) (bytes : Bytes) (x : Slot)
    → Good partition store x
    → holds block x ≡ false
    → Good partition (update store block bytes) x
apart-honest partition store block bytes x (inl e) miss = inl e
apart-honest partition store block bytes x (inr h) miss = elim (Bool-cases (x.stamp == 0)) [
  | inl vacant ↦ inl (ground arith)
  | inr full ↦ inr (h.0, h.1 ∙ sym (update-ne store block bytes x.block (ground arith)))
]

Honest-update :
    (partition : ℕ) (store : ℕ → Bytes) (block : ℕ) (bytes : Bytes) (slots : List Slot)
    → Honest partition store slots
    → Absent block slots
    → Honest partition (update store block bytes) slots
Honest-update partition store block bytes [] h a = tt
Honest-update partition store block bytes (x ∷ xs) h a = (
  apart-honest partition store block bytes x h.0 a.0,
  Honest-update partition store block bytes xs h.1 a.1,
)

-- A copy of a block that is as the store has it.
pub copy-Honest :
    (partition : ℕ) (store : ℕ → Bytes) (slots : List Slot) (i : ℕ) (s : Slot)
    → Honest partition store slots
    → Good partition store s
    → Honest partition store (set slots i s)
copy-Honest partition store [] i s h g = tt
copy-Honest partition store (x ∷ xs) zero s h g = (g, h.1)
copy-Honest partition store (x ∷ xs) (suc i) s h g = (h.0, copy-Honest partition store xs i s h.1 g)

-- The store changes at one block, of which no other slot has a copy.
pub set-Honest :
    (partition : ℕ) (store : ℕ → Bytes) (block : ℕ) (bytes : Bytes) (slots : List Slot) (i : ℕ)
    (s : Slot)
    → Honest partition store slots
    → AbsentBut block i slots
    → (s.stamp ≡ 0) ⊎ (InRange partition s.block × (s.bytes ≡ update store block bytes s.block))
    → Honest partition (update store block bytes) (set slots i s)
set-Honest partition store block bytes [] i s h a g = tt
set-Honest partition store block bytes (x ∷ xs) zero s h a g =
    (g, Honest-update partition store block bytes xs h.1 a)
set-Honest partition store block bytes (x ∷ xs) (suc i) s h a g = (
  apart-honest partition store block bytes x h.0 a.0,
  set-Honest partition store block bytes xs i s h.1 a.1 g,
)

pub slot_for-AbsentBut :
    (partition : ℕ) (store : ℕ → Bytes) (block : ℕ) (slots : List Slot)
    → Honest partition store slots
    → Lone slots
    → AbsentBut block (slot_for block slots) slots
unfolding slot_for
slot_for-AbsentBut partition store block slots h l = elim (Option-cases (cache_find block slots)) [
  | inl none_found ↦
      rw (none_found, slot_for)
        (Absent-AbsentBut block (cache_victim slots) slots (missing-Absent block slots none_found))
  | inr (i, found) ↦ rw (found, slot_for) (found-Told partition store block i slots h l found).2
]
