-- ===== src/KHeap/Alloc.antt =====
-- The search for a block and its split keep the shape of the list.
use wos.Prelude.{
  ℕ, ◌+◌, ◌%◌, ◌≤◌, ◌<◌, ◌≡◌, ◌↔◌, refl, inl, inr, List, [], ◌∷◌, Bool, true, false, ◌&&◌, Option,
  none, some, arith, leb, Bool-cases,
}
use wos.KHeap.{Block, header, word, min_split, take_block, first_fit}
use wos.KHeap.Blocks.{Tiles, Merged, in_use, OnSome, Tiles-le, Merged-false}

-- What `first_fit` promises of the block that it gives out and of the list that it leaves.
pub record Given (s e size : ℕ) (f : Bool) (bs : List Block) (r : Block × List Block) : Type 0 where
  pub taken : r.0.free ≡ false
  pub fits : size ≤ r.0.size
  pub tiles : Tiles s e r.1
  pub merged : Merged f r.1
  pub counted : in_use r.1 ≡ in_use bs + r.0.size

-- A block that fits can be given out.
abbrev pub Fitting : ℕ → Block → Type 0
Fitting size b = (b.free ≡ true) × (size ≤ b.size)

abbrev pub NoneFits : ℕ → List Block → Type 0
NoneFits size [] = Unit {0}
NoneFits size (b ∷ bs) = (¬ Fitting size b) × NoneFits size bs

module _ (e size : ℕ) (small : e + header + min_split < word) (aligned : size % 8 ≡ 0) where
  take_block-Given :
      (s : ℕ) (f : Bool) (b : Block) (bs : List Block)
      → Tiles s e (b ∷ bs)
      → Merged f (b ∷ bs)
      → b.free ≡ true
      → size ≤ b.size
      → Given s e size f (b ∷ bs) (take_block size b bs)
  unfolding take_block
  take_block-Given s f b bs t m is_free fits =
      elim (Bool-cases (leb ((size + header + min_split) % word) b.size)) [
        | inl split ↦ rw split (record {
          taken = refl;
          fits = omega arith;
          tiles = ground (arith, Tiles-le _ e bs t.3);
          merged = ground arith;
          counted = ground arith;
        })
        | inr whole ↦ rw whole (record {
          taken = refl;
          fits = fits;
          tiles = t;
          merged = ground (arith, Merged-false b.free bs m.1);
          counted = ground arith;
        })
      ]

  pub first_fit-Given :
      (s : ℕ) (f : Bool) (bs : List Block)
      → Tiles s e bs
      → Merged f bs
      → OnSome (Given s e size f bs) (first_fit size bs)
  unfolding first_fit
  first_fit-Given s f [] t m = tt
  first_fit-Given s f (b ∷ bs) t m = elim (Bool-cases (b.free && leb size b.size)) [
    | inl hit ↦ rw hit (take_block-Given s f b bs t m (ground arith) (ground arith))
    | inr miss ↦
        let rest = first_fit-Given (s + header + b.size) b.free bs t.3 m.1 in
        rw miss (later (first_fit size bs) rest)
  ]
    where
      later :
          (r : Option (Block × List Block))
          → OnSome (Given (s + header + b.size) e size b.free bs) r
          → OnSome
              (Given s e size f (b ∷ bs))
              (elim r [ none ↦ none | some (g, bs') ↦ some (g, b ∷ bs') ])
      later none h = tt
      later (some (g, bs')) h = record {
        taken = h.taken;
        fits = h.fits;
        tiles = (t.0, t.1, t.2, h.tiles);
        merged = (m.0, h.merged);
        counted = omega (arith, h.counted);
      }

-- The search fails only where no free block is large enough.
pub first_fit-none : (size : ℕ) (bs : List Block) → (first_fit size bs ≡ none) ↔ NoneFits size bs
unfolding first_fit
first_fit-none size [] = (λ _. tt, λ _. refl)
first_fit-none size (b ∷ bs) = elim (Bool-cases (b.free && leb size b.size)) [
  | inl hit ↦ rw hit (λ c. cc, λ h. absurd (h.0 (ground arith, ground arith)))
  | inr miss ↦ rw miss (
    λ c. (λ fit. ground arith, (first_fit-none size bs).0 (ground arith)),
    λ h. ground (arith, (first_fit-none size bs).1 h.1),
  )
]
