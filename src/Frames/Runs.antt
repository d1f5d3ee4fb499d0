-- ===== src/Frames/Runs.antt =====
-- Contiguous frames, for the buffers of a device.
use native.Mathlib.Nat.{div-mul-le_self}
use wos.Bits.Laws.{bit_and-mask}
use wos.Bits.Steps.{pow_pos, pow-lt}
use wos.Prelude.{
  ◌%◌, ◌^◌, ℕ, zero, suc, ◌+◌, ◌-◌, ◌*◌, ◌/◌, ◌≤◌, ◌<◌, ◌≡◌, ◌⊎◌, refl, inl, inr, true, false,
  Option, none, some, arith, Bool-cases, ltb, leb, ◌==◌, ◌&&◌, ◌||◌,
}
use wos.Abi.{page_size}
use wos.Frames.Bitmap.{
  Words, test, assign, IsWords, test-assign, assign-IsWords, popcount, popcount-assign,
}
use wos.Frames.{
  Frames, blocked_at, find_run, assign_run, alloc_contiguous, align_up, low_limit, low_memory_limit,
}
use wos.Frames.Alloc.{IsValid}

abbrev pub IsMultiple : ℕ → ℕ → Type 0
IsMultiple s a = (k : ℕ) × (s ≡ k * a)

-- What `align_up` computes for a power of two: the least multiple of `a` from `x` on.
abbrev rounded : ℕ → ℕ → ℕ
rounded x a = (x + (a - 1)) / a * a

rounded-ge : (x a : ℕ) → 0 < a → x ≤ rounded x a
rounded-ge x a h = grind arith

rounded-le : (x a : ℕ) → 0 < a → rounded x a < x + a
rounded-le x a h = omega (arith, div-mul-le_self (x + (a - 1)) a)

rounded-least : (x a k : ℕ) → 0 < a → x ≤ k * a → rounded x a ≤ k * a
rounded-least x a k h le = grind arith

align_up-rounded : (x e : ℕ) → e < 62 → x + 2 ^ e ≤ 2 ^ 64 → align_up x (2 ^ e) ≡ rounded x (2 ^ e)
align_up-rounded x e h fits =
    let some_align = pow_pos e in
    let sum : (x + (2 ^ e - 1)) % 2 ^ 64 ≡ x + (2 ^ e - 1) = omega arith in
    let mask : 2 ^ 64 - 1 - (2 ^ e - 1) ≡ 2 ^ 64 - 2 ^ e = omega arith in
    rw (sum, mask) (bit_and-mask 64 e (x + (2 ^ e - 1)) (omega arith) (omega arith))

abbrev Blocked : Words → (start i n : ℕ) → Option ℕ → Type 0
Blocked w start i n none = (j : ℕ) → i ≤ j → j < i + n → test w (start + j) ≡ false
Blocked w start i n (some b) = (i ≤ b) × (b < i + n) × (test w (start + b) ≡ true)

blocked_at-Blocked : (w : Words) (start n i : ℕ) → Blocked w start i n (blocked_at w start n i)
unfolding blocked_at
blocked_at-Blocked w start zero i = λ j lo hi. absurd (omega arith)
blocked_at-Blocked w start (suc n) i = elim (Bool-cases (test w (start + i))) [
  | inl full ↦ rw full (omega arith, omega arith, full)
  | inr free ↦
      rw free (later free (blocked_at w start n (i + 1)) (blocked_at-Blocked w start n (i + 1)))
]
  where
    later :
        test w (start + i) ≡ false
        → (r : Option ℕ) → Blocked w start (i + 1) n r
        → Blocked w start i (suc n) r
    later free none h = λ j lo hi. elim (Bool-cases (i == j)) [
      | inl e ↦ let same : i ≡ j = ground arith in rw (← same) free
      | inr ne ↦ h j (ground arith) (omega arith)
    ]
    later free (some b) h = (omega arith, omega arith, h.2)

-- A run of free frames from the aligned frame `s`; or none, and then each aligned place from `start`
-- on has a frame in use.
abbrev pub Run : Words → (count align limit start : ℕ) → Option ℕ → Type 0
Run w count align limit start (some s) =
    (start ≤ s)
    × (s + count ≤ limit)
    × IsMultiple s align
    × ((j : ℕ) → j < count → test w (s + j) ≡ false)
Run w count align limit start none =
    (s : ℕ)
    → start ≤ s
    → IsMultiple s align
    → s + count ≤ limit
    → (j : ℕ) × (j < count) × (test w (s + j) ≡ true)

module _ (w : Words) (count e limit : ℕ) (few : count < 2 ^ 62) (low : limit < 2 ^ 62)
    (small : e < 62) where
  abbrev align : ℕ
  align = 2 ^ e

  some_align : 0 < align
  some_align = pow_pos e

  align-lt : align < 2 ^ 62
  align-lt = pow-lt e 62 small

  find_run-Run :
      (fuel start : ℕ)
      → IsMultiple start align
      → limit < fuel + start
      → start ≤ limit + align
      → Run w count align limit start (find_run fuel w count align limit start)
  unfolding find_run
  find_run-Run zero start m enough near = λ s lo sm hi. absurd (omega arith)
  find_run-Run (suc fuel) start m enough near =
      elim (Bool-cases (leb ((start + count) % 2 ^ 64) limit)) [
        | inr past ↦ rw past (λ s lo sm hi. absurd (over (ground arith) lo hi))
        | inl inside ↦ rw inside (
            here (find_run-Run fuel) (blocked_at w start count 0)
              (blocked_at-Blocked w start count 0) (inside_limit (ground arith)))
      ]
    where
      sum : (start + count) % 2 ^ 64 ≡ start + count
      sum = omega (arith, near, few, low, align-lt)

      over : {s : ℕ} → limit < (start + count) % 2 ^ 64 → start ≤ s → s + count ≤ limit → ⊥
      over past lo hi = omega (arith, sum, past, lo, hi)

      inside_limit : (start + count) % 2 ^ 64 ≤ limit → start + count ≤ limit
      inside_limit h = omega (arith, sum, h)

      next : ℕ → ℕ
      next i = align_up (start + i + 1) align

      next_rounded :
          (i : ℕ) → i < count → start + count ≤ limit → next i ≡ rounded (start + i + 1) align
      next_rounded i lt le =
          align_up-rounded (start + i + 1) e small (omega (arith, lt, le, low, align-lt))

      skip :
          (i : ℕ)
          → i < count
          → test w (start + i) ≡ true
          → (r : Option ℕ) → Run w count align limit (rounded (start + i + 1) align) r
          → Run w count align limit start r
      skip i lt full (some s) h =
          (omega (arith, h.0, rounded-ge (start + i + 1) align some_align), h.1, h.2, h.3)
      skip i lt full none h = λ s lo sm hi. elim (Bool-cases (leb s (start + i))) [
        | inl before ↦
            let at : s + (start + i - s) ≡ start + i = ground arith in
            (start + i - s, ground arith, rw at full)
        | inr far ↦
            h s
              (omega (
                arith,
                sm.1,
                rounded-least (start + i + 1) align sm.0 some_align (ground (arith, sm.1)),
              ))
              sm hi
      ]

      here :
          ((start : ℕ)
            → IsMultiple start align
            → limit < fuel + start
            → start ≤ limit + align
            → Run w count align limit start (find_run fuel w count align limit start))
          → (r : Option ℕ) → Blocked w start 0 count r
          → start + count ≤ limit
          → Run w count align limit start
              (elim r [ none ↦ some start | some i ↦ find_run fuel w count align limit (next i) ])
      here ih none b le = (omega arith, le, m, λ j lt. b j (omega arith) (omega arith))
      here ih (some i) b le =
          let lt : i < count = omega (arith, b.1) in
          rw (next_rounded i lt le) (
            skip i lt b.2 _ (
              ih (rounded (start + i + 1) align) ((start + i + 1 + (align - 1)) / align, refl)
                (omega (arith, rounded-ge (start + i + 1) align some_align))
                (omega (arith, le, lt, rounded-le (start + i + 1) align some_align))))

pub test-assign_run :
    (w : Words) (start n g : ℕ)
    → test (assign_run w start n) g ≡ (leb start g && ltb g (start + n) || test w g)
unfolding assign_run
test-assign_run w start zero g = ground arith
test-assign_run w start (suc n) g =
    ground (arith, test-assign_run (assign w start) (start + 1) n g, test-assign w start g)

assign_run-IsWords : (w : Words) (start n : ℕ) → IsWords w → IsWords (assign_run w start n)
unfolding assign_run
assign_run-IsWords w start zero ws = ws
assign_run-IsWords w start (suc n) ws =
    assign_run-IsWords (assign w start) (start + 1) n (assign-IsWords w start ws)

popcount-assign_run :
    (w : Words) (start n total : ℕ)
    → start + n ≤ total
    → ((j : ℕ) → j < n → test w (start + j) ≡ false)
    → popcount (assign_run w start n) total ≡ popcount w total + n
unfolding assign_run
popcount-assign_run w start zero total le free = omega arith
popcount-assign_run w start (suc n) total le free =
    let at : start + 0 ≡ start = omega arith in
    let first : test w start ≡ false = rw at at (free 0 (omega arith)) in
    ground (
      arith,
      popcount-assign w total start first,
      popcount-assign_run (assign w start) (start + 1) n total (omega arith) rest,
    )
  where
    rest : (j : ℕ) → j < n → test (assign w start) (start + 1 + j) ≡ false
    rest j lt =
        let at : start + 1 + j ≡ start + suc j = omega arith in
        rw at (ground (arith, test-assign w start (start + suc j), free (suc j)))

-- The run of `count` frames from `s` was free, and is taken.
pub record TakesRun (p : Frames) (count align s : ℕ) (q : Frames) : Type 0 where
  pub aligned : IsMultiple s align
  pub not_zero : 0 < s
  pub low : (s + count) * page_size ≤ low_memory_limit
  pub inside : s + count ≤ p.total
  pub were_free : (j : ℕ) → j < count → test p.bitmap (s + j) ≡ false
  pub bits : (g : ℕ) → test q.bitmap g ≡ (leb s g && ltb g (s + count) || test p.bitmap g)
  pub valid : IsValid q

abbrev pub AllocatesRun : Frames → (count align : ℕ) → ℕ × Frames → Type 0
AllocatesRun p count align (a, q) =
    ((a ≡ 0)
      × (q ≡ p)
      × ((s : ℕ)
          → 1 ≤ s
          → IsMultiple s align
          → s + count ≤ low_limit p
          → (j : ℕ) × (j < count) × (test p.bitmap (s + j) ≡ true)))
    ⊎ ((s : ℕ) × (a ≡ s * page_size) × TakesRun p count align s q)

-- For a count below 2 ^ 62 and an alignment of a power of two below 2 ^ 62, `pmm_alloc_contiguous`
-- takes a run of free frames, aligned, low and not at frame 0, and nothing else; it fails only if each
-- such run has a frame in use.
pub alloc_contiguous-AllocatesRun :
    (p : Frames) (count e : ℕ)
    → IsValid p
    → 0 < count
    → count < 2 ^ 62
    → e < 62
    → AllocatesRun p count (2 ^ e) (alloc_contiguous p count (2 ^ e))
unfolding alloc_contiguous
alloc_contiguous-AllocatesRun p count e v some_count few small =
    let align = 2 ^ e in
    let some_align : 0 < align = pow_pos e in
    let nonzero : (count == 0) ≡ false = ground arith in
    let no_default : ltb align 1 ≡ false = ground arith in
    let first : align_up 1 align ≡ rounded 1 align =
      align_up-rounded 1 e small (omega (arith, pow-lt e 62 small)) in
    rw (nonzero, no_default, first)
      (found (find_run (low_limit p + 1) p.bitmap count align (low_limit p) (rounded 1 align)) (
        find_run-Run p.bitmap count e (low_limit p) few (ground arith) small (low_limit p + 1)
          (rounded 1 align) ((1 + (align - 1)) / align, refl) (omega arith)
          (omega (arith, rounded-le 1 align some_align))))
  where
    found :
        (r : Option ℕ)
        → Run p.bitmap count (2 ^ e) (low_limit p) (rounded 1 (2 ^ e)) r
        → AllocatesRun p count (2 ^ e) (elim r [
          | none ↦ (0, p)
          | some start ↦ (
            start * page_size,
            record p { bitmap = assign_run p.bitmap start count; used = p.used + count },
          )
        ])
    found none h = inl (
      refl,
      refl,
      λ s lo m hi.
          h s (omega (arith, m.1, rounded-least 1 (2 ^ e) m.0 (pow_pos e) (omega (arith, m.1)))) m
            hi,
    )
    found (some s) h = inr (
      s,
      refl,
      record {
        aligned = h.2;
        not_zero = omega (arith, h.0, rounded-ge 1 (2 ^ e) (pow_pos e));
        low = ground (arith, h.1);
        inside = ground (arith, h.1);
        were_free = h.3;
        bits = λ g. test-assign_run p.bitmap s count g;
        valid = record {
          words = assign_run-IsWords p.bitmap s count v.words;
          counted = omega (
            arith,
            v.counted,
            popcount-assign_run p.bitmap s count p.total (ground (arith, h.1)) h.3,
          );
        };
      },
    )
