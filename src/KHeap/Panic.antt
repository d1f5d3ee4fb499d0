-- ===== src/KHeap/Panic.antt =====
-- The pointers at which a release stops the machine.
use wos.Prelude.{ℕ, ◌+◌, ◌≡◌, ◌≢◌, ◌⊎◌, inl, inr, List, [], ◌∷◌, arith, Bool-cases, ◌==◌}
use wos.KHeap.{
  Block, Freed, panic, corrupted, ok, header, magic_number, can_free, free_stray, free_first,
  merge_prev, after_block, free_behind, free_at,
}
use wos.KHeap.Blocks.{Tiles}
use wos.KHeap.Holds.{Holds, Holds-above}

-- The list has a header at the address.
abbrev pub Listed : ℕ → List Block → Type 0
Listed a [] = ⊥
Listed a (b ∷ bs) = (b.addr ≡ a) ⊎ Listed a bs

pub Holds-Listed : (a n : ℕ) (bs : List Block) → Holds (a + header) n bs → Listed a bs
Holds-Listed a n [] h = h
Holds-Listed a n (b ∷ bs) (inl h) = inl (omega (arith, h.0))
Holds-Listed a n (b ∷ bs) (inr h) = inr (Holds-Listed a n bs h)

-- A release goes through where a payload in use begins, and panics elsewhere, unless the memory that is
-- read there has the magic number but is no header of the list.
abbrev pub Decides : (found : Block) → ℕ → List Block → Freed (ℕ × List Block) → Type 0
Decides found a bs panic = ¬ Holds (a + header) 0 bs
Decides found a bs corrupted = (¬ Listed a bs) × (found.magic ≡ magic_number)
Decides found a bs (ok r) = Holds (a + header) 0 bs

free_stray-Decides : (found : Block) (a : ℕ) → Decides found a [] (free_stray found)
free_stray-Decides found a = elim (Bool-cases (can_free found)) [
  | inl fits ↦ rw fits (λ h. h, ground arith)
  | inr bad ↦ rw bad (λ h. h)
]

free_first-Decides :
    (found : Block) (s e a : ℕ) (b : Block) (bs : List Block)
    → Tiles s e (b ∷ bs)
    → b.addr ≡ a
    → Decides found a (b ∷ bs) (free_first b bs)
unfolding free_first
free_first-Decides found s e a b bs t same = elim (Bool-cases (can_free b)) [
  | inl good ↦ rw good (inl (ground arith))
  | inr bad ↦
      rw bad (λ h. ground (arith, Holds-above (s + header + b.size) e (a + header) 0 bs t.3))
]

merge_prev-Decides :
    (found : Block) (a : ℕ) (p : Block) (bs : List Block) (r : Freed (ℕ × List Block))
    → p.addr ≢ a
    → Decides found a bs r
    → Decides found a (p ∷ bs) (merge_prev p r)
merge_prev-Decides found a p bs panic ne d = λ h. ground (arith, d)
merge_prev-Decides found a p bs corrupted ne d = (λ l. elim l [ inl e ↦ ne e | inr h ↦ d.0 h ], d.1)
merge_prev-Decides found a p bs (ok r) ne d = inr d

after_block-Decides :
    (found : Block) (a : ℕ) (p : Block) (bs : List Block) (r : Freed (ℕ × List Block))
    → p.addr ≢ a
    → Decides found a bs r
    → Decides found a (p ∷ bs) (after_block p r)
after_block-Decides found a p bs panic ne d = λ h. ground (arith, d)
after_block-Decides found a p bs corrupted ne d =
    (λ l. elim l [ inl e ↦ ne e | inr h ↦ d.0 h ], d.1)
after_block-Decides found a p bs (ok r) ne d = inr d

free_behind-Decides :
    (found : Block) (s e a : ℕ) (p : Block) (bs : List Block)
    → Tiles s e (p ∷ bs)
    → p.addr ≢ a
    → Decides found a (p ∷ bs) (free_behind found a p bs)
unfolding free_behind
free_behind-Decides found s e a p [] t ne = beside (free_stray found) (free_stray-Decides found a)
  where
    beside : (r : Freed (ℕ × List Block)) → Decides found a [] r → Decides found a (p ∷ []) r
    beside panic d = λ h. ground arith
    beside corrupted d = (λ l. elim l [ inl e ↦ ne e | inr h ↦ h ], d.1)
    beside (ok r) d = absurd d
free_behind-Decides found s e a p (b ∷ bs) t ne = elim (Bool-cases (b.addr == a)) [
  | inl hit ↦ rw hit (
      merge_prev-Decides found a p (b ∷ bs) (free_first b bs) ne
        (free_first-Decides found (s + header + p.size) e a b bs t.3 (ground arith)))
  | inr miss ↦ rw miss (
      after_block-Decides found a p (b ∷ bs) (free_behind found a b bs) ne
        (free_behind-Decides found (s + header + p.size) e a b bs t.3 (ground arith)))
]

pub free_at-Decides :
    (found : Block) (s e a : ℕ) (bs : List Block)
    → Tiles s e bs
    → Decides found a bs (free_at found a bs)
unfolding free_at
free_at-Decides found s e a [] t = free_stray-Decides found a
free_at-Decides found s e a (b ∷ bs) t = elim (Bool-cases (b.addr == a)) [
  | inl hit ↦ rw hit (free_first-Decides found s e a b bs t (ground arith))
  | inr miss ↦ rw miss (free_behind-Decides found s e a b bs t (ground arith))
]
