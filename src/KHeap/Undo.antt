-- ===== src/KHeap/Undo.antt =====
-- A release right after an allocation restores the list exactly.
use wos.Prelude.{
  ℕ, ◌+◌, ◌%◌, ◌≤◌, ◌<◌, ◌≡◌, refl, inl, inr, List, [], ◌∷◌, true, false, ◌&&◌, Option, none, some,
  arith, leb, Bool-cases,
}
use wos.KHeap.{
  Block, ok, header, word, min_split, remainder, take_block, first_fit, free_first, free_behind,
  free_at,
}
use wos.KHeap.Blocks.{Tiles, Merged, OnSome, Tiles-le}
use wos.KHeap.Holds.{Fresh, first_fit-Fresh}

module _ (found : Block) (e size : ℕ) (small : e + header + min_split < word) where
  free_first-take_block :
      (s : ℕ) (b : Block) (bs : List Block)
      → Tiles s e (b ∷ bs)
      → Merged b.free bs
      → b.free ≡ true
      → size ≤ b.size
      → (rest : List Block) → (take_block size b bs).1 ≡ (take_block size b bs).0 ∷ rest
      → free_first (take_block size b bs).0 rest ≡ ok ((take_block size b bs).0.size, b ∷ bs)
  unfolding take_block free_first
  free_first-take_block s b [] t m is_free fits rest eq = ground (arith, Tiles-le _ e [] t.3)
  free_first-take_block s b (n ∷ bs) t m is_free fits rest eq =
      ground (arith, Tiles-le _ e (n ∷ bs) t.3)

  taken_from :
      (b : Block) (bs : List Block)
      → (rest : List Block) × ((take_block size b bs).1 ≡ (take_block size b bs).0 ∷ rest)
        × ((take_block size b bs).0.addr ≡ b.addr)
  unfolding take_block
  taken_from b bs = elim (Bool-cases (leb ((size + header + min_split) % word) b.size)) [
    | inl split ↦ rw split (remainder b size ∷ bs, refl, refl)
    | inr whole ↦ rw whole (bs, refl, refl)
  ]

  -- What `first_fit` gave out is freed again, at its place behind the block `p`.
  abbrev Undone : Block → List Block → Block × List Block → Type 0
  Undone p bs (g, bs') = free_behind found g.addr p bs' ≡ ok (g.size, p ∷ bs)

  take_block-Undone :
      (s : ℕ) (p b : Block) (bs : List Block)
      → Tiles s e (b ∷ bs)
      → Merged p.free (b ∷ bs)
      → b.free ≡ true
      → size ≤ b.size
      → Undone p (b ∷ bs) (take_block size b bs)
  unfolding free_behind
  take_block-Undone s p b bs t m is_free fits =
      let (rest, cut, at) = taken_from b bs in
      let freed = free_first-take_block s b bs t m.1 is_free fits rest cut in
      rw cut (ground (arith, freed))

  first_fit-Undone :
      (s : ℕ) (p : Block) (bs : List Block)
      → Tiles s e bs
      → Merged p.free bs
      → OnSome (Undone p bs) (first_fit size bs)
  unfolding first_fit free_behind
  first_fit-Undone s p [] t m = tt
  first_fit-Undone s p (b ∷ bs) t m = elim (Bool-cases (b.free && leb size b.size)) [
    | inl hit ↦ rw hit (take_block-Undone s p b bs t m (ground arith) (ground arith))
    | inr miss ↦ rw miss (
        later (first_fit size bs) (first_fit-Fresh (s + header + b.size) e size bs t.3)
          (first_fit-Undone (s + header + b.size) b bs t.3 m.1))
  ]
    where
      later :
          (r : Option (Block × List Block))
          → OnSome (Fresh (s + header + b.size) size bs) r
          → OnSome (Undone b bs) r
          → OnSome (Undone p (b ∷ bs)) (elim r [ none ↦ none | some (g, bs') ↦ some (g, b ∷ bs') ])
      later none f h = tt
      later (some (g, bs')) f h = ground (arith, f.above)

  -- The same from the head of the list.
  pub first_fit-free_at :
      (s : ℕ) (bs : List Block)
      → Tiles s e bs
      → Merged false bs
      → OnSome
          (λ (r : Block × List Block). free_at found r.0.addr r.1 ≡ ok (r.0.size, bs))
          (first_fit size bs)
  unfolding first_fit free_at
  first_fit-free_at s [] t m = tt
  first_fit-free_at s (b ∷ bs) t m = elim (Bool-cases (b.free && leb size b.size)) [
    | inl hit ↦ rw hit (
        let (rest, cut, at) = taken_from b bs in
        let freed = free_first-take_block s b bs t m.1 (ground arith) (ground arith) rest cut in
        rw cut (ground (arith, freed)))
    | inr miss ↦ rw miss (
        later (first_fit size bs) (first_fit-Fresh (s + header + b.size) e size bs t.3)
          (first_fit-Undone (s + header + b.size) b bs t.3 m.1))
  ]
    where
      later :
          (r : Option (Block × List Block))
          → OnSome (Fresh (s + header + b.size) size bs) r
          → OnSome (Undone b bs) r
          → OnSome
              (λ (r : Block × List Block). free_at found r.0.addr r.1 ≡ ok (r.0.size, b ∷ bs))
              (elim r [ none ↦ none | some (g, bs') ↦ some (g, b ∷ bs') ])
      later none f h = tt
      later (some (g, bs')) f h = ground (arith, f.above)
