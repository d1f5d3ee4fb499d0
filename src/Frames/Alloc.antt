-- ===== src/Frames/Alloc.antt =====
-- Single frames: what an allocation finds, and what a release gives back.
use wos.Prelude.{
  ℕ, zero, suc, ◌+◌, ◌-◌, ◌*◌, ◌/◌, ◌≤◌, ◌<◌, ◌≡◌, ◌≢◌, ◌⊎◌, refl, subst, inl, inr, true, false,
  Option, none, some, arith, Bool-cases, ltb, leb, ◌==◌, ◌&&◌, if◌then◌else◌,
}
use wos.Abi.{page_size}
use wos.Frames.Bitmap.{
  Words, test, IsWords, test-assign, test-unassign, assign-IsWords, unassign-IsWords, popcount,
  popcount-assign, popcount-unassign,
}
use wos.Frames.{
  Frames, scan, find_free, taken, alloc_frame, alloc_frame_low, low_limit, low_memory_limit,
  free_frame,
}

-- The entries are words, and `used_frames` is the number of set bits.
pub record IsValid (p : Frames) : Type 0 where
  pub words : IsWords p.bitmap
  pub counted : p.used ≡ popcount p.bitmap p.total

abbrev pub Scanned : Words → (lo hi : ℕ) → Option ℕ → Type 0
Scanned w lo hi none = (g : ℕ) → lo ≤ g → g < hi → test w g ≡ true
Scanned w lo hi (some f) = (lo ≤ f) × (f < hi) × (test w f ≡ false)

scan-Scanned : (w : Words) (n f hi : ℕ) → f + n ≡ hi → Scanned w f hi (scan w n f)
unfolding scan
scan-Scanned w zero f hi e = λ g lo lt. absurd (omega arith)
scan-Scanned w (suc n) f hi e = elim (Bool-cases (test w f)) [
  | inr free ↦ rw free (omega arith, omega arith, free)
  | inl full ↦ rw full (later full (scan w n (f + 1)) (scan-Scanned w n (f + 1) hi (omega arith)))
]
  where
    later : test w f ≡ true → (r : Option ℕ) → Scanned w (f + 1) hi r → Scanned w f hi r
    later full none h = λ g lo lt. elim (Bool-cases (f == g)) [
      | inl e ↦ let same : f ≡ g = ground arith in rw (← same) full
      | inr ne ↦ h g (ground arith) lt
    ]
    later full (some g) h = (omega arith, h.1, h.2)

find_free-Scanned :
    (w : Words) (lo hi hint : ℕ) → lo ≤ hi → Scanned w lo hi (find_free w lo hi hint)
unfolding find_free
find_free-Scanned w lo hi hint le =
    both (if leb lo hint && ltb hint hi then hint else lo) (ground arith)
  where
    both :
        (begin : ℕ)
        → (lo ≤ begin) × (begin ≤ hi)
        → Scanned w lo hi
            (elim (scan w (hi - begin) begin) [ some f ↦ some f | none ↦ scan w (begin - lo) lo ])
    both begin h =
        join (scan w (hi - begin) begin) (scan w (begin - lo) lo)
          (scan-Scanned w (hi - begin) begin hi (omega arith))
          (scan-Scanned w (begin - lo) lo begin (omega arith))
      where
        join :
            (r s : Option ℕ)
            → Scanned w begin hi r
            → Scanned w lo begin s
            → Scanned w lo hi (elim r [ some f ↦ some f | none ↦ s ])
        join (some f) s a b = (omega arith, a.1, a.2)
        join none (some f) a b = (b.0, omega arith, b.2)
        join none none a b = λ g l u. elim (Bool-cases (ltb g begin)) [
          | inl t ↦ b g l (ground arith)
          | inr t ↦ a g (ground arith) u
        ]

-- The frame `f` was free and is now in use; all others are as they were.
pub record Takes (p : Frames) (f : ℕ) (q : Frames) : Type 0 where
  pub was_free : test p.bitmap f ≡ false
  pub bits : (g : ℕ) → test q.bitmap g ≡ (if f == g then true else test p.bitmap g)
  pub one_more : q.used ≡ p.used + 1
  pub same_total : q.total ≡ p.total
  pub valid : IsValid q

-- The outcome of a search below `limit`: no free frame is there, and nothing changes; or the address
-- of a free one is returned, and it is taken.
abbrev pub Allocates : Frames → (limit : ℕ) → ℕ × Frames → Type 0
Allocates p limit (a, q) =
    ((a ≡ 0) × (q ≡ p) × ((g : ℕ) → g < limit → test p.bitmap g ≡ true))
    ⊎ ((f : ℕ) × (a ≡ f * page_size) × (f < limit) × Takes p f q)

taken-IsValid :
    (p : Frames) (f : ℕ) → IsValid p → f < p.total → test p.bitmap f ≡ false → IsValid (taken p f)
taken-IsValid p f v lt free = record {
  words = assign-IsWords p.bitmap f v.words;
  counted = ground (arith, popcount-assign p.bitmap p.total f free, v.counted);
}

-- `pmm_alloc_frame` finds a free frame if there is one, and takes just that one.
pub alloc_frame-Allocates : (p : Frames) → IsValid p → Allocates p p.total (alloc_frame p)
unfolding alloc_frame
alloc_frame-Allocates p v =
    found (find_free p.bitmap 0 p.total p.next_hint)
      (find_free-Scanned p.bitmap 0 p.total p.next_hint (omega arith))
  where
    found :
        (r : Option ℕ)
        → Scanned p.bitmap 0 p.total r
        → Allocates p p.total (elim r [
          | none ↦ (0, p)
          | some f ↦ (f * page_size, record (taken p f) { next_hint = f + 1 })
        ])
    found none h = inl (refl, refl, λ g lt. h g (omega arith) lt)
    found (some f) h =
        let v' = taken-IsValid p f v h.1 h.2 in
        inr (
          f,
          refl,
          h.1,
          record {
            was_free = h.2;
            bits = λ g. test-assign p.bitmap f g;
            one_more = refl;
            same_total = refl;
            valid = record { words = v'.words; counted = v'.counted };
          },
        )

-- So does `pmm_alloc_frame_low`, among the frames below the limit of the identity map.
pub alloc_frame_low-Allocates :
    (p : Frames)
    → IsValid p
    → Allocates p (low_limit p) (alloc_frame_low p) × (low_limit p * page_size ≤ low_memory_limit)
unfolding alloc_frame_low
alloc_frame_low-Allocates p v = (
  found (find_free p.bitmap 0 (low_limit p) p.next_hint_low)
      (find_free-Scanned p.bitmap 0 (low_limit p) p.next_hint_low (omega arith)),
  ground arith,
)
  where
    found :
        (r : Option ℕ)
        → Scanned p.bitmap 0 (low_limit p) r
        → Allocates p (low_limit p) (elim r [
          | none ↦ (0, p)
          | some f ↦ (f * page_size, record (taken p f) { next_hint_low = f + 1 })
        ])
    found none h = inl (refl, refl, λ g lt. h g (omega arith) lt)
    found (some f) h =
        let v' = taken-IsValid p f v (ground arith) h.2 in
        inr (
          f,
          refl,
          h.1,
          record {
            was_free = h.2;
            bits = λ g. test-assign p.bitmap f g;
            one_more = refl;
            same_total = refl;
            valid = record { words = v'.words; counted = v'.counted };
          },
        )

-- A release of an address in the frame `f`.
abbrev pub Frees : Frames → ℕ → Option Frames → Type 0
Frees p f none = (f < p.total) × (test p.bitmap f ≡ false)
Frees p f (some q) =
    ((p.total ≤ f) × (q ≡ p))
    ⊎ ((f < p.total)
        × (test p.bitmap f ≡ true)
        × ((g : ℕ) → test q.bitmap g ≡ (if f == g then false else test p.bitmap g))
        × (q.used + 1 ≡ p.used)
        × IsValid q)

-- `pmm_free_frame` panics exactly on a free frame of the machine, ignores an address past the end,
-- and otherwise gives back that frame alone.
pub free_frame-Frees :
    (p : Frames) (phys : ℕ) → IsValid p → Frees p (phys / page_size) (free_frame p phys)
unfolding free_frame
free_frame-Frees p phys v = elim (Bool-cases (leb p.total frame)) [
  | inl past ↦ rw past (inl (ground arith, refl))
  | inr inside ↦ rw inside (elim (Bool-cases (test p.bitmap frame)) [
    | inr free ↦ rw free (ground arith, free)
    | inl held ↦ rw held (
        let fewer = popcount-unassign p.bitmap p.total frame v.words held in
        inr (
          ground arith,
          held,
          λ g. test-unassign p.bitmap frame g v.words,
          ground (arith, fewer, v.counted),
          record {
            words = unassign-IsWords p.bitmap frame v.words;
            counted = ground (arith, fewer, v.counted);
          },
        ))
  ])
]
  where
    frame : ℕ
    frame = phys / page_size

-- A frame that was just taken can be released, and then every frame is as it was.
free-taken :
    (p q : Frames) (f : ℕ)
    → f < p.total
    → Takes p f q
    → (o : Option Frames) → Frees q f o
    → (r : Frames) × (o ≡ some r)
      × ((g : ℕ) → test r.bitmap g ≡ test p.bitmap g)
      × (r.used ≡ p.used)
free-taken p q f lt t none h = absurd (ground (arith, t.bits f))
free-taken p q f lt t (some r) (inl past) = absurd (omega (arith, t.same_total))
free-taken p q f lt t (some r) (inr h) =
    (r, refl, λ g. ground (arith, t.bits g, h.2 g, t.was_free), omega (arith, t.one_more, h.3))

-- A frame that `pmm_alloc_frame` just returned can be released without a panic, and then every frame
-- is as it was before, and so is the number of frames in use.
pub free-alloc :
    (p q : Frames) (a : ℕ)
    → IsValid p
    → alloc_frame p ≡ (a, q)
    → a ≢ 0
    → (r : Frames) × (free_frame q a ≡ some r)
      × ((g : ℕ) → test r.bitmap g ≡ test p.bitmap g)
      × (r.used ≡ p.used)
free-alloc p q a v e ne = undo (subst (Allocates p p.total) e (alloc_frame-Allocates p v))
  where
    undo :
        Allocates p p.total (a, q)
        → (r : Frames) × (free_frame q a ≡ some r)
          × ((g : ℕ) → test r.bitmap g ≡ test p.bitmap g)
          × (r.used ≡ p.used)
    undo (inl h) = absurd (ne h.0)
    undo (inr (f, at, lt, t)) =
        let frame : a / page_size ≡ f = omega (arith, at) in
        free-taken p q f lt t (free_frame q a)
          (subst (λ (x : ℕ). Frees q x (free_frame q a)) frame (free_frame-Frees q a t.valid))
