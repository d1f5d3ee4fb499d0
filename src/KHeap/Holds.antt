-- ===== src/KHeap/Holds.antt =====
-- The payloads that are given out, and what an allocation and a release do to them.
use wos.Prelude.{
  ℕ, ◌+◌, ◌%◌, ◌≤◌, ◌<◌, ◌≡◌, ◌⊎◌, refl, inl, inr, List, [], ◌∷◌, true, false, ◌&&◌, Option, none,
  some, arith, leb, Bool-cases,
}
use wos.KHeap.{Block, header, word, min_split, remainder, take_block, first_fit}
use wos.KHeap.Blocks.{Tiles, OnSome, Tiles-le}

-- A block in use has its payload of at least `n` bytes at `p`.
abbrev pub Holds : ℕ → ℕ → List Block → Type 0
Holds p n [] = ⊥
Holds p n (b ∷ bs) = ((b.addr + header ≡ p) × (b.free ≡ false) × (n ≤ b.size)) ⊎ Holds p n bs

pub Holds-above :
    (s e p n : ℕ) (bs : List Block) → Tiles s e bs → Holds p n bs → (s + header ≤ p) × (p + n ≤ e)
Holds-above s e p n [] t h = absurd h
Holds-above s e p n (b ∷ bs) t (inl h) = omega (arith, Tiles-le (s + header + b.size) e bs t.3)
Holds-above s e p n (b ∷ bs) t (inr h) =
    omega (arith, Holds-above (s + header + b.size) e p n bs t.3 h)

-- Two payloads in use lie apart.
pub Holds-apart :
    (s e p q n m : ℕ) (bs : List Block)
    → Tiles s e bs
    → Holds p n bs
    → Holds q m bs
    → p < q
    → p + n + header ≤ q
Holds-apart s e p q n m [] t h k lt = absurd h
Holds-apart s e p q n m (b ∷ bs) t (inl h) (inl k) lt = omega arith
Holds-apart s e p q n m (b ∷ bs) t (inl h) (inr k) lt =
    omega (arith, Holds-above (s + header + b.size) e q m bs t.3 k)
Holds-apart s e p q n m (b ∷ bs) t (inr h) (inl k) lt =
    omega (arith, Holds-above (s + header + b.size) e p n bs t.3 h)
Holds-apart s e p q n m (b ∷ bs) t (inr h) (inr k) lt =
    Holds-apart (s + header + b.size) e p q n m bs t.3 h k lt

-- An allocation gives out a payload that was not in use, and leaves those that were.
pub record Fresh (s size : ℕ) (bs : List Block) (r : Block × List Block) : Type 0 where
  pub given : Holds (r.0.addr + header) size r.1
  pub unused : ¬ Holds (r.0.addr + header) 0 bs
  pub above : s ≤ r.0.addr
  pub kept : (q n : ℕ) → Holds q n bs → Holds q n r.1

take_block-Fresh :
    (s e size : ℕ) (b : Block) (bs : List Block)
    → Tiles s e (b ∷ bs)
    → b.free ≡ true
    → size ≤ b.size
    → Fresh s size (b ∷ bs) (take_block size b bs)
unfolding take_block
take_block-Fresh s e size b bs t is_free fits =
    elim (Bool-cases (leb ((size + header + min_split) % word) b.size)) [
      | inl split ↦ rw split (record {
        given = inl (refl, refl, omega arith);
        unused = λ h. absurd (unused h);
        above = omega arith;
        kept = λ q n h. kept q n h;
      })
      | inr whole ↦ rw whole (record {
        given = inl (refl, refl, fits);
        unused = λ h. absurd (unused h);
        above = omega arith;
        kept = λ q n h. kept' q n h;
      })
    ]
  where
    unused : Holds (b.addr + header) 0 (b ∷ bs) → ⊥
    unused (inl h) = cc
    unused (inr h) = omega (arith, Holds-above (s + header + b.size) e (b.addr + header) 0 bs t.3 h)

    kept :
        (q n : ℕ)
        → Holds q n (b ∷ bs)
        → Holds q n (record b { size = size; free = false } ∷ remainder b size ∷ bs)
    kept q n (inl h) = cc
    kept q n (inr h) = inr (inr h)

    kept' : (q n : ℕ) → Holds q n (b ∷ bs) → Holds q n (record b { free = false } ∷ bs)
    kept' q n (inl h) = cc
    kept' q n (inr h) = inr h

pub first_fit-Fresh :
    (s e size : ℕ) (bs : List Block) → Tiles s e bs → OnSome (Fresh s size bs) (first_fit size bs)
unfolding first_fit
first_fit-Fresh s e size [] t = tt
first_fit-Fresh s e size (b ∷ bs) t = elim (Bool-cases (b.free && leb size b.size)) [
  | inl hit ↦ rw hit (take_block-Fresh s e size b bs t (ground arith) (ground arith))
  | inr miss ↦
      rw miss (later (first_fit size bs) (first_fit-Fresh (s + header + b.size) e size bs t.3))
]
  where
    later :
        (r : Option (Block × List Block))
        → OnSome (Fresh (s + header + b.size) size bs) r
        → OnSome
            (Fresh s size (b ∷ bs))
            (elim r [ none ↦ none | some (g, bs') ↦ some (g, b ∷ bs') ])
    later none h = tt
    later (some (g, bs')) h = record {
      given = inr h.given;
      unused = λ u. ground (arith, h.unused);
      above = omega (arith, h.above);
      kept = λ q n k. ground (arith, h.kept q n);
    }
