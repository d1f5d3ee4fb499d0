-- ===== src/KHeap/Valid.antt =====
-- The calls of the heap, on a heap that is well formed.
use wos.Prelude.{
  ℕ, ◌+◌, ◌-◌, ◌%◌, ◌≤◌, ◌<◌, ◌≡◌, ◌≢◌, refl, ap, subst, ◌∙◌, ◌⊎◌, inl, inr, List, ◌∷◌, true, false,
  Option, none, some, arith, Bool-cases, ◌==◌, ◌↔◌,
}
use wos.KHeap.{
  Block, Heap, Freed, panic, corrupted, ok, header, magic_number, min_split, word, init, align_8,
  first_fit, take_block, kmalloc, free_at, give_back, kfree,
}
use wos.KHeap.Blocks.{Tiles, Merged, in_use, OnSome, OnOk, Tiles-le}
use wos.KHeap.Alloc.{Given, first_fit-Given, first_fit-none, NoneFits}
use wos.KHeap.Free.{Released, free_at-Released}
use wos.KHeap.Holds.{Holds, Holds-above, Fresh, first_fit-Fresh}
use wos.KHeap.Release.{Others, free_at-Others}
use wos.KHeap.Panic.{Listed, Holds-Listed, Decides, free_at-Decides}
use wos.KHeap.Undo.{first_fit-free_at}

-- The blocks fill the heap's memory from `base` on with no gap and no two free neighbours, and
-- `heap_used` counts the payload bytes in use. The memory ends well below the end of the words.
pub record IsValid (base : ℕ) (h : Heap) : Type 0 where
  pub tiles : Tiles base (base + h.total) h.blocks
  pub merged : Merged false h.blocks
  pub counted : h.used ≡ in_use h.blocks
  pub small : base + h.total + header + min_split < word

-- A heap of a multiple of 8 bytes, 40 at least, starts well formed.
pub init-IsValid :
    (base size : ℕ)
    → header ≤ size
    → size % 8 ≡ 0
    → base + size + header + min_split < word
    → IsValid base (init base size)
unfolding init
init-IsValid base size h a small = record {
  tiles = (refl, refl, omega arith, omega arith);
  merged = (refl, tt);
  counted = refl;
  small = small;
}

kfree-at :
    (memory : ℕ → Block) (h : Heap) (p : ℕ)
    → header ≤ p
    → p < word
    → kfree memory h (some p) ≡ give_back h (free_at (memory (p - header)) (p - header) h.blocks)
unfolding kfree
kfree-at memory h p above below =
    let at : (p + word - header) % word ≡ p - header = omega arith in
    ap (λ (a : ℕ). give_back h (free_at (memory a) a h.blocks)) at

module _ (base : ℕ) (h : Heap) (v : IsValid base h) where
  -- What an allocation of `size` bytes is: NULL with nothing changed, or a payload at `p`.
  pub record Allocates (size p : ℕ) (h' : Heap) : Type 0 where
    pub valid : IsValid base h'
    pub given : Holds p (align_8 size) h'.blocks
    pub unused : ¬ Holds p 0 h.blocks
    pub kept : (q n : ℕ) → Holds q n h.blocks → Holds q n h'.blocks
    pub undone : (memory : ℕ → Block) → kfree memory h' (some p) ≡ ok h

  abbrev pub Allocation : ℕ → Option ℕ × Heap → Type 0
  Allocation size (none, h') = h' ≡ h
  Allocation size (some p, h') = Allocates size p h'

  kmalloc-Allocation : (size : ℕ) → Allocation size (kmalloc h size)
  unfolding kmalloc
  kmalloc-Allocation size = elim (Bool-cases (size == 0)) [
    | inl e ↦ rw e refl
    | inr ne ↦ rw ne (
        found (first_fit (align_8 size) h.blocks)
          (first_fit-Given (base + h.total) (align_8 size) v.small (omega arith) base false h.blocks
            v.tiles v.merged)
          (first_fit-Fresh base (base + h.total) (align_8 size) h.blocks v.tiles)
          (λ found.
            first_fit-free_at found (base + h.total) (align_8 size) v.small base h.blocks v.tiles
              v.merged))
  ]
    where
      found :
          (r : Option (Block × List Block))
          → OnSome (Given base (base + h.total) (align_8 size) false h.blocks) r
          → OnSome (Fresh base (align_8 size) h.blocks) r
          → ((found : Block)
              → OnSome
                  (λ (r : Block × List Block). free_at found r.0.addr r.1 ≡ ok (r.0.size, h.blocks))
                  r)
          → Allocation size (elim r [
            | none ↦ (none, h)
            | some (given, blocks) ↦ (
              some (given.addr + header),
              record h { blocks = blocks; used = (h.used + given.size) % word },
            )
          ])
      found none g f u = refl
      found (some (b, bs)) g f u =
          let bound = Tiles-le base (base + h.total) bs g.tiles in
          let here =
            Holds-above base (base + h.total) (b.addr + header) (align_8 size) bs g.tiles f.given in
          let at : b.addr + header - header ≡ b.addr = omega arith in
          record {
            valid = record {
              tiles = g.tiles;
              merged = g.merged;
              counted = omega (arith, g.counted, v.counted, v.small);
              small = v.small;
            };
            given = f.given;
            unused = f.unused;
            kept = f.kept;
            undone = λ memory.
                kfree-at memory _ (b.addr + header) (omega arith) (omega (arith, v.small))
                ∙ ap (give_back (record h { blocks = bs; used = (h.used + b.size) % word }))
                    {y = ok (b.size, h.blocks)} (rw at (u (memory b.addr)))
                ∙ ap (λ (u : ℕ). ok (record h { used = u }))
                    (omega (arith, g.counted, v.counted, v.small));
          }

  -- An allocation either returns NULL and changes nothing, or returns a payload of the asked size,
  -- rounded up to 8, that was in no use. The heap stays well formed, every payload in use stays as it
  -- is, and freeing the new one restores the heap exactly.
  pub kmalloc-Allocates :
      (size p : ℕ) (h' : Heap) → kmalloc h size ≡ (some p, h') → Allocates size p h'
  kmalloc-Allocates size p h' e = subst (Allocation size) e (kmalloc-Allocation size)

  -- NULL is returned exactly for a size of 0 and where no free block has room for the size, rounded
  -- up to 8.
  pub kmalloc-none :
      (size : ℕ)
      → ((kmalloc h size).0 ≡ none) ↔ ((size ≡ 0) ⊎ ((size ≢ 0) × NoneFits (align_8 size) h.blocks))
  unfolding kmalloc
  kmalloc-none size = elim (Bool-cases (size == 0)) [
    | inl e ↦ rw e (λ _. inl (ground arith), λ _. refl)
    | inr ne ↦ rw ne (
      (λ c. inr (ground arith, (first_fit-none _ h.blocks).0 (ground arith))),
      (λ c. ground (arith, (first_fit-none (align_8 size) h.blocks).1)),
    )
  ]

  -- What a release of `p` does.
  pub record Releases (p : ℕ) (h' : Heap) : Type 0 where
    pub valid : IsValid base h'
    pub kept : (q n : ℕ) → q ≢ p → Holds q n h.blocks → Holds q n h'.blocks
    pub released : ¬ Holds p 0 h'.blocks
    pub nothing_new : (q : ℕ) → Holds q 0 h'.blocks → Holds q 0 h.blocks

  -- The outcomes of a release.
  abbrev Outcome : (found : Block) → ℕ → Freed Heap → Type 0
  Outcome found p panic = ¬ Holds p 0 h.blocks
  Outcome found p corrupted = (¬ Listed (p - header) h.blocks) × (found.magic ≡ magic_number)
  Outcome found p (ok h') = Holds p 0 h.blocks × Releases p h'

  release :
      (memory : ℕ → Block) (p : ℕ)
      → header ≤ p
      → p < word
      → Outcome (memory (p - header)) p (kfree memory h (some p))
  release memory p above below = rw (kfree-at memory h p above below) (
      done (free_at found (p - header) h.blocks)
        (free_at-Released (base + h.total) (omega (arith, v.small)) found base (p - header) h.blocks
          v.tiles v.merged)
        (free_at-Others (base + h.total) (omega (arith, v.small)) found base (p - header) h.blocks
          v.tiles v.merged)
        (free_at-Decides found base (base + h.total) (p - header) h.blocks v.tiles))
    where
      found : Block
      found = memory (p - header)

      back : p - header + header ≡ p
      back = omega arith

      done :
          (r : Freed (ℕ × List Block))
          → OnOk (Released base (base + h.total) false h.blocks) r
          → OnOk (Others base (p - header) h.blocks) r
          → Decides found (p - header) h.blocks r
          → Outcome found p (give_back h r)
      done panic l o d = rw (← back) d
      done corrupted l o d = d
      done (ok (size, bs)) l o d = (
        subst (λ (q : ℕ). Holds q 0 h.blocks) back d,
        record {
          valid = record {
            tiles = l.tiles;
            merged = l.merged;
            counted = omega (
              arith,
              l.counted,
              v.counted,
              v.small,
              Tiles-le base (base + h.total) h.blocks v.tiles,
            );
            small = v.small;
          };
          kept = λ q n ne k. o.kept q n (λ c. ne (c ∙ back)) k;
          released = subst (λ (q : ℕ). ¬ Holds q 0 bs) back o.released;
          nothing_new = o.nothing_new;
        },
      )

  -- On a well-formed heap, whatever the memory holds outside its headers, a release of a payload in use at
  -- a pointer of at least 40 below 2 ^ 64 returns. It keeps the heap well formed, gives up that
  -- payload, and keeps every other payload in use as it is; it puts none in use.
  pub kfree-Releases :
      (memory : ℕ → Block) (p : ℕ)
      → header ≤ p
      → p < word
      → Holds p 0 h.blocks
      → (h' : Heap) × (kfree memory h (some p) ≡ ok h') × Releases p h'
  kfree-Releases memory p above below held =
      read (kfree memory h (some p)) (release memory p above below)
    where
      listed : Listed (p - header) h.blocks
      listed =
          let back : p ≡ p - header + header = omega arith in
          Holds-Listed (p - header) 0 h.blocks (subst (λ (q : ℕ). Holds q 0 h.blocks) back held)

      read :
          (r : Freed Heap)
          → Outcome (memory (p - header)) p r
          → (h' : Heap) × (r ≡ ok h') × Releases p h'
      read panic o = absurd (o held)
      read corrupted o = absurd (o.0 listed)
      read (ok h') o = (h', refl, o.1)

  -- On a well-formed heap and at a pointer of at least 40 below 2 ^ 64, a release stops the machine exactly
  -- where the pointer is not a payload in use, so also at the second release of one payload; provided
  -- that, where the list has no header in front of the pointer, the memory there does not hold the magic
  -- number.
  pub kfree-panic :
      (memory : ℕ → Block) (p : ℕ)
      → header ≤ p
      → p < word
      → (¬ Listed (p - header) h.blocks → (memory (p - header)).magic ≢ magic_number)
      → (kfree memory h (some p) ≡ panic) ↔ (¬ Holds p 0 h.blocks)
  kfree-panic memory p above below other =
      read (kfree memory h (some p)) (release memory p above below)
    where
      read :
          (r : Freed Heap)
          → Outcome (memory (p - header)) p r
          → (r ≡ panic) ↔ (¬ Holds p 0 h.blocks)
      read panic o = (λ _. o, λ _. refl)
      read corrupted o = absurd (other o.0 o.1)
      read (ok h') o = (λ c. cc, λ unheld. absurd (unheld o.0))

first_fit-zero :
    (b : Block) (bs : List Block)
    → b.free ≡ true
    → (r : Block × List Block) × (first_fit 0 (b ∷ bs) ≡ some r) × (r.0.addr ≡ b.addr)
unfolding first_fit take_block
first_fit-zero b bs f = (take_block 0 b bs, ground arith, ground arith)

-- The bug: a request of the last seven sizes of a 64-bit word wraps to 0 when it is rounded up, and a
-- heap with a free block grants it: the payload is then smaller than the request.
pub kmalloc_wraps :
    (base : ℕ) (h : Heap)
    → IsValid base h
    → (size : ℕ) → word ≤ size + 7
    → size < word
    → (b : Block) (bs : List Block) → h.blocks ≡ b ∷ bs
    → b.free ≡ true
    → ((kmalloc h size).0 ≡ some (b.addr + header)) × (b.size < size)
unfolding kmalloc
kmalloc_wraps base h v size over fits b bs e f =
    let (r, found, at) = first_fit-zero b bs f in
    let nothing : align_8 size ≡ 0 = omega arith in
    let some_size : (size == 0) ≡ false = ground arith in
    let tiles = subst (Tiles base (base + h.total)) e v.tiles in
    let got : first_fit (align_8 size) h.blocks ≡ some r =
      rw nothing (ap (first_fit 0) e ∙ found) in
    (
      rw (some_size, got) (rw at),
      omega (arith, Tiles-le (base + header + b.size) (base + h.total) bs tiles.3, v.small),
    )
