-- ===== src/KHeap/Blocks.antt =====
-- The shape of the heap's list of headers.
use wos.Prelude.{
  ℕ, ◌+◌, ◌%◌, ◌≤◌, ◌≡◌, refl, List, [], ◌∷◌, Bool, false, ◌&&◌, Option, none, some, arith,
  Bool-cases, inl, inr, if◌then◌else◌,
}
use wos.KHeap.{Block, Freed, panic, corrupted, ok, can_free, free_stray, header, magic_number}

-- From address `s` to address `e` the blocks follow one another without a gap, each with a good
-- header and a payload of a multiple of 8 bytes.
abbrev pub Tiles : ℕ → ℕ → List Block → Type 0
Tiles s e [] = s ≡ e
Tiles s e (b ∷ bs) =
    (b.addr ≡ s) × (b.magic ≡ magic_number) × (b.size % 8 ≡ 0) × Tiles (s + header + b.size) e bs

-- No two neighbours are free; `f` tells whether the block in front is.
abbrev pub Merged : Bool → List Block → Type 0
Merged f [] = Unit {0}
Merged f (b ∷ bs) = ((f && b.free) ≡ false) × Merged b.free bs

-- The payload bytes that are given out.
abbrev pub in_use : List Block → ℕ
in_use [] = 0
in_use (b ∷ bs) = (if b.free then 0 else b.size) + in_use bs

abbrev pub OnSome {ℓ} : {A : Type ℓ} → (A → Type 0) → Option A → Type 0
OnSome P none = Unit {0}
OnSome P (some a) = P a

abbrev pub OnOk : {A : Type 0} → (A → Type 0) → Freed A → Type 0
OnOk P panic = Unit {0}
OnOk P corrupted = Unit {0}
OnOk P (ok a) = P a

pub Tiles-le : (s e : ℕ) (bs : List Block) → Tiles s e bs → s + in_use bs ≤ e
Tiles-le s e [] t = omega arith
Tiles-le s e (b ∷ bs) t = ground (arith, Tiles-le (s + header + b.size) e bs)

pub Merged-false : (f : Bool) (bs : List Block) → Merged f bs → Merged false bs
Merged-false f [] m = tt
Merged-false f (b ∷ bs) m = (refl, m.1)

pub stray-OnOk : (P : ℕ × List Block → Type 0) (found : Block) → OnOk P (free_stray found)
stray-OnOk P found = elim (Bool-cases (can_free found)) [
  | inl fits ↦ rw fits tt
  | inr bad ↦ rw bad tt
]
