-- ===== src/Shm/Regions.antt =====
-- `find_region` of kernel/mm/shm.c.
use wos.Prelude.{
  ℕ, zero, suc, ◌+◌, ◌*◌, ◌^◌, ◌≤◌, ◌<◌, ◌≡◌, ◌⊎◌, ◌↔◌, refl, sym, ap, subst, ◌∙◌, inl, inr, List,
  [], ◌∷◌, Bool, true, false, ◌&&◌, ◌||◌, arith, Bool-cases, ltb, if◌then◌else◌,
}
use wos.Abi.{page_size}
use wos.Shm.{
  Mapping, Place, mmap_base, mmap_top, add64, in_use, end_of, step, sweep, sweeps, find_region,
}

-- The region of `want` bytes at `b` meets the mapping `m`.
abbrev pub Meets : (want b : ℕ) → Mapping → Type 0
Meets want b m = (in_use m.shm ≡ true) × (b < m.base + m.pages * page_size) × (m.base < b + want)

-- It meets one of the mappings.
abbrev pub Blocked : (want b : ℕ) → List Mapping → Type 0
Blocked want b [] = ⊥
Blocked want b (m ∷ ms) = Meets want b m ⊎ Blocked want b ms

-- The mappings end at USER_MMAP_TOP at the latest.
abbrev pub Below : List Mapping → Type 0
Below [] = Unit {0}
Below (m ∷ ms) = (m.base + m.pages * page_size ≤ mmap_top) × Below ms

-- What a region at `b` that meets one of `ms` meets is one of `maps`.
abbrev Among : (want : ℕ) → (ms maps : List Mapping) → Type 0
Among want ms maps = (b : ℕ) → Blocked want b ms → Blocked want b maps

-- No region starts lower than `base`.
abbrev Lowest : (want : ℕ) → List Mapping → (base : ℕ) → Type 0
Lowest want maps base = (b : ℕ) → mmap_base ≤ b → b < base → Blocked want b maps

abbrev at_end : Bool → ℕ → Place
at_end b n = record { base = n; moved = b }

-- What a sweep over `ms` makes of a place.
record Swept (want : ℕ) (ms maps : List Mapping) (p p' : Place) : Type 0 where
  lowest : Lowest want maps p'.base
  top : p'.base ≤ mmap_top
  outcome : ((p.base < p'.base) × (p'.moved ≡ true)) ⊎ ((p' ≡ p) × (Blocked want p.base ms → ⊥))

end_of-eq :
    (m : Mapping)
    → m.base + m.pages * page_size ≤ mmap_top
    → end_of m ≡ m.base + m.pages * page_size
unfolding end_of
end_of-eq m h = omega arith

test_iff :
    (u : Bool) (b e s t : ℕ)
    → ((u && (ltb b e && ltb s t)) ≡ true) ↔ ((u ≡ true) × (b < e) × (s < t))
test_iff true b e s t = ground arith
test_iff false b e s t = ground arith

step_cases :
    (want : ℕ) (m : Mapping) (p : Place)
    → p.base ≤ mmap_top
    → want < 2 ^ 63
    → m.base + m.pages * page_size ≤ mmap_top
    → (Meets want p.base m
        × (step want m p ≡ record { base = m.base + m.pages * page_size; moved = true }))
      ⊎ ((Meets want p.base m → ⊥) × (step want m p ≡ p))
unfolding step
step_cases want m p top small below =
    let fits : add64 p.base want ≡ p.base + want = omega arith in
    let ends = end_of-eq m below in
    let t = test_iff (in_use m.shm) p.base (end_of m) m.base (add64 p.base want) in
    elim (Bool-cases (in_use m.shm && (ltb p.base (end_of m) && ltb m.base (add64 p.base want)))) [
      | inl met ↦
          let h = t.0 met in
          inl (
            (h.0, subst (λ (n : ℕ). p.base < n) ends h.1, subst (λ (n : ℕ). m.base < n) fits h.2),
            ap (λ c. if c then record { base = end_of m; moved = true } else p) met
                ∙ ap (at_end true) ends,
          )
      | inr apart ↦ inr (
        λ h.
            clash
              (t.1 (
                h.0,
                subst (λ (n : ℕ). p.base < n) (sym ends) h.1,
                subst (λ (n : ℕ). m.base < n) (sym fits) h.2,
              ))
              apart,
        ap (λ c. if c then record { base = end_of m; moved = true } else p) apart,
      )
    ]
  where
    clash : {b : Bool} → b ≡ true → b ≡ false → ⊥
    clash h g = absurd (ground arith)

split_at : (a b : ℕ) → (a < b) ⊎ (b ≤ a)
split_at a b = elim (Bool-cases (ltb a b)) [
  | inl less ↦ inl (ground arith)
  | inr more ↦ inr (ground arith)
]

-- What keeps the region from `base` keeps it from all that is lower than its end.
raised :
    (want base : ℕ) (m : Mapping) (maps : List Mapping)
    → Lowest want maps base
    → Meets want base m
    → ((b : ℕ) → Meets want b m → Blocked want b maps)
    → Lowest want maps (m.base + m.pages * page_size)
raised want base m maps low met one b from to = elim (split_at b base) [
  | inl lower ↦ low b from lower
  | inr higher ↦ one b (met.0, to, omega (arith, met.2))
]

sweep-Swept :
    (want : ℕ) (ms maps : List Mapping) (p : Place)
    → p.base ≤ mmap_top
    → want < 2 ^ 63
    → Below ms
    → Among want ms maps
    → Lowest want maps p.base
    → Swept want ms maps p (sweep want ms p)
unfolding sweep
sweep-Swept want [] maps p top small below among low = record {
  lowest = low;
  top = top;
  outcome = inr (refl, λ h. h);
}
sweep-Swept want (m ∷ ms) maps p top small below among low =
    elim (step_cases want m p top small below.0) [
      | inl (met, e) ↦
          subst (λ (q : Place). Swept want (m ∷ ms) maps p (sweep want ms q)) (sym e)
            (moved_on met (
              sweep-Swept want ms maps (at_end true (m.base + m.pages * page_size)) below.0 small
                below.1 (λ b h. among b (inr h))
                (raised want p.base m maps low met (λ b h. among b (inl h)))))
      | inr (free, e) ↦
          subst (λ (q : Place). Swept want (m ∷ ms) maps p (sweep want ms q)) (sym e)
            (stayed free
              (sweep-Swept want ms maps p top small below.1 (λ b h. among b (inr h)) low))
    ]
  where
    moved_on :
        {want : ℕ} {m : Mapping} {ms maps : List Mapping} {p p' : Place}
        → Meets want p.base m
        → Swept want ms maps (at_end true (m.base + m.pages * page_size)) p'
        → Swept want (m ∷ ms) maps p p'
    moved_on {p = p} {p' = p'} met s = record {
      lowest = s.lowest;
      top = s.top;
      outcome = inl (elim s.outcome [
        | inl (further, moved) ↦ (omega (arith, met.1, further), moved)
        | inr (same, free) ↦ (
          subst (λ (q : Place). p.base < q.base) (sym same) met.1,
          ap (λ (q : Place). q.moved) same,
        )
      ]);
    }

    stayed :
        {want : ℕ} {m : Mapping} {ms maps : List Mapping} {p p' : Place}
        → (Meets want p.base m → ⊥)
        → Swept want ms maps p p'
        → Swept want (m ∷ ms) maps p p'
    stayed here s = record {
      lowest = s.lowest;
      top = s.top;
      outcome = elim s.outcome [
        | inl moved ↦ inl moved
        | inr (same, free) ↦ inr (same, λ h. elim h [ inl now ↦ here now | inr later ↦ free later ])
      ];
    }

-- The base that the sweeps leave: the lowest one that meets no mapping.
record Settled (want : ℕ) (maps : List Mapping) (base : ℕ) : Type 0 where
  lowest : Lowest want maps base
  bottom : mmap_base ≤ base
  top : base ≤ mmap_top
  free : Blocked want base maps → ⊥

sweeps-Settled :
    (fuel want : ℕ) (maps : List Mapping) (base : ℕ)
    → mmap_top < base + fuel
    → mmap_base ≤ base
    → base ≤ mmap_top
    → want < 2 ^ 63
    → Below maps
    → Lowest want maps base
    → Settled want maps (sweeps fuel want maps base)
unfolding sweeps
sweeps-Settled zero want maps base enough bottom top small below low = absurd (omega arith)
sweeps-Settled (suc fuel) want maps base enough bottom top small below low =
    let s = sweep-Swept want maps maps (at_end false base) top small below (λ b h. h) low in
    elim s.outcome [
      | inl (further, moved) ↦
          subst
            (λ c. Settled want maps (
              if c
              then sweeps fuel want maps (sweep want maps (at_end false base)).base
              else (sweep want maps (at_end false base)).base))
            (sym moved)
            (sweeps-Settled fuel want maps (sweep want maps (at_end false base)).base
              (omega (arith, enough, further)) (omega (arith, further)) s.top small below s.lowest)
      | inr (same, free) ↦
          subst
            (λ (q : Place).
              Settled want maps (if q.moved then sweeps fuel want maps q.base else q.base))
            (sym same) (record { lowest = low; bottom = bottom; top = top; free = free })
    ]

-- Where a region of `want` bytes goes: at the lowest address of the window where it meets no mapping;
-- or nowhere, as it would meet one wherever it lies in the window.
pub data Region (want : ℕ) (maps : List Mapping) : ℕ → Type 0 where
  at :
      (base : ℕ)
      → mmap_base ≤ base
      → base + want ≤ mmap_top
      → (Blocked want base maps → ⊥)
      → Lowest want maps base
      → Region want maps base
  nowhere :
      ((b : ℕ) → mmap_base ≤ b → b + want ≤ mmap_top → Blocked want b maps) → Region want maps 0

-- Where all the mappings lie below USER_MMAP_TOP, `find_region` returns the lowest address of the
-- window from which a region of the pages meets no mapping and ends in the window; it returns 0 exactly
-- where each region of that size in the window meets a mapping.
pub find_region-Region :
    (maps : List Mapping) (pages : ℕ)
    → Below maps
    → pages < 2 ^ 32
    → Region (pages * page_size) maps (find_region maps pages)
unfolding find_region
find_region-Region maps pages below small =
    let want = pages * page_size in
    let s =
      sweeps-Settled mmap_top want maps mmap_base (omega arith) (omega arith) (omega arith)
        (omega (arith, small)) below (λ b from to. absurd (omega (arith, from, to))) in
    chosen want maps (sweeps mmap_top want maps mmap_base) (omega (arith, small)) s
  where
    chosen :
        (want : ℕ) (maps : List Mapping) (base : ℕ)
        → want < 2 ^ 63
        → Settled want maps base
        → Region want maps
            (if ltb mmap_top (add64 base want) || ltb (add64 base want) base then 0 else base)
    chosen want maps base small s =
        let fits : add64 base want ≡ base + want = omega (arith, s.top, small) in
        elim (split_at mmap_top (base + want)) [
          | inl over ↦
              let zero_now : (if ltb mmap_top (add64 base want) || ltb (add64 base want) base
                    then 0
                    else base)
                  ≡ 0 =
                ground arith in
              subst (Region want maps) (sym zero_now)
                (nowhere (λ b from to. s.lowest b from (omega (arith, over, to))))
          | inr within ↦
              let base_now : (if ltb mmap_top (add64 base want) || ltb (add64 base want) base
                    then 0
                    else base)
                  ≡ base =
                ground arith in
              subst (Region want maps) (sym base_now) (at base s.bottom within s.free s.lowest)
        ]
