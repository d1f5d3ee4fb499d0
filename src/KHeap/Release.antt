-- ===== src/KHeap/Release.antt =====
-- A release keeps every other payload that is in use, and gives up its own.
use wos.Prelude.{
  ℕ, ◌+◌, ◌≤◌, ◌<◌, ◌≡◌, ◌≢◌, subst, inl, inr, List, [], ◌∷◌, true, false, ◌&&◌, arith, Bool-cases,
  ◌==◌,
}
use wos.KHeap.{
  Block, Freed, panic, corrupted, ok, header, word, coalesce_with_next, can_free, free_first,
  merge_prev, after_block, free_behind, free_at,
}
use wos.KHeap.Blocks.{Tiles, Merged, OnOk, stray-OnOk}
use wos.KHeap.Free.{Released, free_first-Released}
use wos.KHeap.Holds.{Holds, Holds-above}

coalesce_with_next-Holds :
    (q n e s : ℕ) (bs : List Block)
    → e < word
    → Tiles s e bs
    → Holds q n bs
    → Holds q n (coalesce_with_next bs)
unfolding coalesce_with_next
coalesce_with_next-Holds q n e s [] small t h = h
coalesce_with_next-Holds q n e s (b ∷ []) small t h = h
coalesce_with_next-Holds q n e s (b ∷ c ∷ bs) small t h = elim (Bool-cases (c.free && b.free)) [
  | inl both ↦ rw both (ground arith)
  | inr one ↦ rw one h
]

coalesce_with_next-unheld :
    (q e s : ℕ) (bs : List Block)
    → e < word
    → Tiles s e bs
    → Holds q 0 (coalesce_with_next bs)
    → Holds q 0 bs
unfolding coalesce_with_next
coalesce_with_next-unheld q e s [] small t h = h
coalesce_with_next-unheld q e s (b ∷ []) small t h = h
coalesce_with_next-unheld q e s (b ∷ c ∷ bs) small t h = ground arith

-- The outcome of freeing the block at `a`: the payloads in use are the others.
pub record Others (s a : ℕ) (bs : List Block) (r : ℕ × List Block) : Type 0 where
  pub above : s ≤ a
  pub kept : (q n : ℕ) → q ≢ a + header → Holds q n bs → Holds q n r.1
  pub released : ¬ Holds (a + header) 0 r.1
  pub nothing_new : (q : ℕ) → Holds q 0 r.1 → Holds q 0 bs

module _ (e : ℕ) (small : e < word) where
  free_first-Others :
      (s : ℕ) (b : Block) (bs : List Block)
      → Tiles s e (b ∷ bs)
      → OnOk (Others s b.addr (b ∷ bs)) (free_first b bs)
  unfolding free_first
  free_first-Others s b bs t = elim (Bool-cases (can_free b)) [
    | inr bad ↦ rw bad tt
    | inl good ↦ rw good (record {
      above = omega arith;
      kept = λ q n ne h.
          coalesce_with_next-Holds q n e s (record b { free = true } ∷ bs) small t (ground arith);
      released = λ h. ground (
        arith,
        coalesce_with_next-unheld (b.addr + header) e s (record b { free = true } ∷ bs) small t h,
        Holds-above (s + header + b.size) e (b.addr + header) 0 bs t.3,
      );
      nothing_new = λ q h.
          ground (arith, coalesce_with_next-unheld q e s (record b { free = true } ∷ bs) small t h);
    })
  ]

  merge_prev-Others :
      (s a : ℕ) (p : Block) (bs : List Block) (r : Freed (ℕ × List Block))
      → Tiles s e (p ∷ bs)
      → OnOk (Released (s + header + p.size) e false bs) r
      → OnOk (Others (s + header + p.size) a bs) r
      → OnOk (Others s a (p ∷ bs)) (merge_prev p r)
  merge_prev-Others s a p bs panic t l o = tt
  merge_prev-Others s a p bs corrupted t l o = tt
  merge_prev-Others s a p bs (ok (size, rest)) t l o =
      let t' : Tiles s e (p ∷ rest) = (t.0, t.1, t.2, l.tiles) in
      record {
        above = omega (arith, o.above);
        kept = λ q n ne h.
            coalesce_with_next-Holds q n e s (p ∷ rest) small t' (ground (arith, o.kept q n));
        released = λ h. ground (
          arith,
          coalesce_with_next-unheld (a + header) e s (p ∷ rest) small t' h,
          o.released,
          o.above,
        );
        nothing_new = λ q h.
            ground (arith, coalesce_with_next-unheld q e s (p ∷ rest) small t' h, o.nothing_new q);
      }

  after_block-Others :
      (s a : ℕ) (p : Block) (bs : List Block) (r : Freed (ℕ × List Block))
      → p.addr ≡ s
      → OnOk (Others (s + header + p.size) a bs) r
      → OnOk (Others s a (p ∷ bs)) (after_block p r)
  after_block-Others s a p bs panic t o = tt
  after_block-Others s a p bs corrupted t o = tt
  after_block-Others s a p bs (ok (size, rest)) t o = record {
    above = omega (arith, o.above);
    kept = λ q n ne h. ground (arith, o.kept q n);
    released = λ h. ground (arith, o.released, o.above);
    nothing_new = λ q h. ground (arith, o.nothing_new q);
  }

  free_behind-Others :
      (found : Block) (s a : ℕ) (p : Block) (bs : List Block)
      → Tiles s e (p ∷ bs)
      → Merged p.free bs
      → OnOk (Others s a (p ∷ bs)) (free_behind found a p bs)
  unfolding free_behind
  free_behind-Others found s a p [] t m = stray-OnOk _ found
  free_behind-Others found s a p (b ∷ bs) t m = elim (Bool-cases (b.addr == a)) [
    | inl hit ↦
        let same : b.addr ≡ a = ground arith in
        rw hit (
          merge_prev-Others s a p (b ∷ bs) (free_first b bs) t
            (free_first-Released e small (s + header + p.size) b bs t.3 m.1)
            (subst (λ (x : ℕ). OnOk (Others (s + header + p.size) x (b ∷ bs)) (free_first b bs))
              same (free_first-Others (s + header + p.size) b bs t.3)))
    | inr miss ↦ rw miss (
        after_block-Others s a p (b ∷ bs) (free_behind found a b bs) t.0
          (free_behind-Others found (s + header + p.size) a b bs t.3 m.1))
  ]

  pub free_at-Others :
      (found : Block) (s a : ℕ) (bs : List Block)
      → Tiles s e bs
      → Merged false bs
      → OnOk (Others s a bs) (free_at found a bs)
  unfolding free_at
  free_at-Others found s a [] t m = stray-OnOk _ found
  free_at-Others found s a (b ∷ bs) t m = elim (Bool-cases (b.addr == a)) [
    | inl hit ↦
        let same : b.addr ≡ a = ground arith in
        rw hit (
          subst (λ (x : ℕ). OnOk (Others s x (b ∷ bs)) (free_first b bs)) same
            (free_first-Others s b bs t))
    | inr miss ↦ rw miss (free_behind-Others found s a b bs t m.1)
  ]
