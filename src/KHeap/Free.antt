-- ===== src/KHeap/Free.antt =====
-- Freeing a block and merging it with its neighbours keep the shape of the list.
use wos.Prelude.{
  ℕ, ◌+◌, ◌<◌, ◌≡◌, inl, inr, List, [], ◌∷◌, Bool, true, false, ◌&&◌, arith, Bool-cases, ◌==◌,
}
use wos.KHeap.{
  Block, Freed, panic, corrupted, ok, header, word, coalesce_with_next, can_free, free_first,
  merge_prev, after_block, free_behind, free_at,
}
use wos.KHeap.Blocks.{Tiles, Merged, in_use, OnOk, stray-OnOk, Tiles-le, Merged-false}

pub record Released (s e : ℕ) (f : Bool) (bs : List Block) (r : ℕ × List Block) : Type 0 where
  pub tiles : Tiles s e r.1
  pub merged : Merged f r.1
  pub counted : in_use bs ≡ in_use r.1 + r.0

module _ (e : ℕ) (small : e < word) where
  coalesce_with_next-Tiles :
      (s : ℕ) (bs : List Block) → Tiles s e bs → Tiles s e (coalesce_with_next bs)
  unfolding coalesce_with_next
  coalesce_with_next-Tiles s [] t = t
  coalesce_with_next-Tiles s (b ∷ []) t = t
  coalesce_with_next-Tiles s (b ∷ n ∷ bs) t = elim (Bool-cases (n.free && b.free)) [
    | inl both ↦ rw both (ground (arith, Tiles-le _ e bs t.3.3))
    | inr one ↦ rw one t
  ]

  freed-Released :
      (s : ℕ) (b : Block) (bs : List Block)
      → Tiles s e (b ∷ bs)
      → Merged false bs
      → b.free ≡ false
      → Released s e false (b ∷ bs) (b.size, coalesce_with_next (record b { free = true } ∷ bs))
  unfolding coalesce_with_next
  freed-Released s b [] t m f = record { tiles = t; merged = ground arith; counted = ground arith }
  freed-Released s b (n ∷ bs) t m f = elim (Bool-cases n.free) [
    | inl both ↦ rw both (record {
      tiles = ground (arith, Tiles-le _ e bs t.3.3);
      merged = ground arith;
      counted = ground (arith, Tiles-le _ e bs t.3.3);
    })
    | inr one ↦ rw one (record { tiles = t; merged = ground arith; counted = ground arith })
  ]

  pub free_first-Released :
      (s : ℕ) (b : Block) (bs : List Block)
      → Tiles s e (b ∷ bs)
      → Merged b.free bs
      → OnOk (Released s e false (b ∷ bs)) (free_first b bs)
  unfolding free_first
  free_first-Released s b bs t m = elim (Bool-cases (can_free b)) [
    | inr bad ↦ rw bad tt
    | inl good ↦ rw good (freed-Released s b bs t (Merged-false b.free bs m) (ground arith))
  ]

  -- Merging a block with the freed one behind it.
  merge_prev-Released :
      (s : ℕ) (f : Bool) (p : Block) (bs : List Block) (r : Freed (ℕ × List Block))
      → Tiles s e (p ∷ bs)
      → (f && p.free) ≡ false
      → OnOk (Released (s + header + p.size) e false bs) r
      → OnOk (Released s e f (p ∷ bs)) (merge_prev p r)
  unfolding coalesce_with_next
  merge_prev-Released s f p bs panic t m r = tt
  merge_prev-Released s f p bs corrupted t m r = tt
  merge_prev-Released s f p bs (ok (size, [])) t m r = record {
    tiles = (t.0, t.1, t.2, r.tiles);
    merged = (m, tt);
    counted = ground (arith, r.counted);
  }
  merge_prev-Released s f p bs (ok (size, n ∷ rest)) t m r = elim (Bool-cases (n.free && p.free)) [
    | inl both ↦ rw both (record {
      tiles = ground (arith, Tiles-le _ e rest r.tiles.3, r.tiles);
      merged = ground (arith, r.merged);
      counted = ground (arith, Tiles-le _ e rest r.tiles.3, r.counted, r.tiles);
    })
    | inr one ↦ rw one (record {
      tiles = (t.0, t.1, t.2, r.tiles);
      merged = ground (arith, r.merged);
      counted = ground (arith, r.counted);
    })
  ]

  after_block-Released :
      (s : ℕ) (f : Bool) (p : Block) (bs : List Block) (r : Freed (ℕ × List Block))
      → Tiles s e (p ∷ bs)
      → (f && p.free) ≡ false
      → OnOk (Released (s + header + p.size) e p.free bs) r
      → OnOk (Released s e f (p ∷ bs)) (after_block p r)
  after_block-Released s f p bs panic t m r = tt
  after_block-Released s f p bs corrupted t m r = tt
  after_block-Released s f p bs (ok (size, rest)) t m r = record {
    tiles = (t.0, t.1, t.2, r.tiles);
    merged = (m, r.merged);
    counted = ground (arith, r.counted);
  }

  free_behind-Released :
      (s : ℕ) (f : Bool) (found : Block) (a : ℕ) (p : Block) (bs : List Block)
      → Tiles s e (p ∷ bs)
      → Merged f (p ∷ bs)
      → OnOk (Released s e f (p ∷ bs)) (free_behind found a p bs)
  unfolding free_behind
  free_behind-Released s f found a p [] t m = stray-OnOk _ found
  free_behind-Released s f found a p (b ∷ bs) t m = elim (Bool-cases (b.addr == a)) [
    | inl hit ↦ rw hit (
        merge_prev-Released s f p (b ∷ bs) (free_first b bs) t m.0
          (free_first-Released _ b bs t.3 m.1.1))
    | inr miss ↦ rw miss (
        after_block-Released s f p (b ∷ bs) (free_behind found a b bs) t m.0
          (free_behind-Released (s + header + p.size) p.free found a b bs t.3 m.1))
  ]

  pub free_at-Released :
      (found : Block) (s a : ℕ) (bs : List Block)
      → Tiles s e bs
      → Merged false bs
      → OnOk (Released s e false bs) (free_at found a bs)
  unfolding free_at
  free_at-Released found s a [] t m = stray-OnOk _ found
  free_at-Released found s a (b ∷ bs) t m = elim (Bool-cases (b.addr == a)) [
    | inl hit ↦ rw hit (free_first-Released s b bs t m.1)
    | inr miss ↦ rw miss (free_behind-Released s false found a b bs t m)
  ]
