-- ===== src/Sched/Fair.antt =====
-- A thread that can run is found.
use wos.Prelude.{
  Bool-cases, ◌==◌, not, ◌&&◌, ℕ, ◌≤◌, ◌≡◌, ◌⊎◌, refl, sym, ap, subst, inl, inr, List, [], ◌∷◌,
  ◌++◌, false, arith, length,
}
use wos.Sched.{
  Sched, is_ready, head_or, next_in, next_of, pick_from, pick_next, pick_rounds, is_empty,
}
use wos.Sched.Steps.{Within}
use wos.Sched.Walk.{
  Distinct, CanRun, Within-left, Within-right, Within-middle, next_of-split, Allowed, Allowed-run,
  Allowed-apart, found_among, found_first,
}

split_at : (t : ℕ) (q : List ℕ) → Within t q → (xs : List ℕ) × (ys : List ℕ) × (q ≡ xs ++ t ∷ ys)
split_at t [] h = absurd h
split_at t (x ∷ q) (inl e) = ([], q, ap (λ (y : ℕ). y ∷ q) (sym e))
split_at t (x ∷ q) (inr h) =
    let (xs, ys, e) = split_at t q h in (x ∷ xs, ys, ap (λ (l : List ℕ). x ∷ l) e)

next_in-Within :
    (first t : ℕ) (q : List ℕ) → (next_in first q t ≡ first) ⊎ Within (next_in first q t) q
unfolding next_in
next_in-Within first t [] = inl refl
next_in-Within first t (x ∷ []) = inl refl
next_in-Within first t (x ∷ y ∷ q) = ground (arith, next_in-Within first t (y ∷ q))

next_of-Within : (q : List ℕ) (t u : ℕ) → Within u q → Within (next_of q t) q
unfolding next_of
next_of-Within [] t u h = absurd h
next_of-Within (x ∷ q) t u h = elim (next_in-Within x t (x ∷ q)) [ inl e ↦ inl e | inr w ↦ w ]

pick_next-from :
    (s : Sched) (c u : ℕ) (q : List ℕ)
    → s.queue ≡ q
    → Within u q
    → pick_next s c
      ≡ pick_from pick_rounds s (s.cpu c).current (s.cpu c).idle (next_of s.queue (s.cpu c).current)
unfolding pick_next
pick_next-from s c u [] e h = absurd h
pick_next-from s c u (x ∷ q) e h =
    let some_thread : is_empty s.queue ≡ false = ap is_empty e in rw some_thread

Within-cases : (t : ℕ) (q : List ℕ) → Within t q ⊎ (¬ Within t q)
Within-cases t [] = inr (λ h. h)
Within-cases t (x ∷ q) = elim (Bool-cases (t == x)) [
  | inl same ↦ inl (inl (ground arith))
  | inr other ↦ elim (Within-cases t q) [
    | inl h ↦ inl (inr h)
    | inr h ↦ inr (λ w. elim w [ inl e ↦ absurd (ground arith) | inr v ↦ h v ])
  ]
]

Within-append : (u : ℕ) (xs ys : List ℕ) → Within u (xs ++ ys) → Within u xs ⊎ Within u ys
Within-append u [] ys h = inr h
Within-append u (x ∷ xs) ys (inl e) = inl (inl e)
Within-append u (x ∷ xs) ys (inr h) = elim (Within-append u xs ys h) [
  | inl w ↦ inl (inr w)
  | inr w ↦ inr w
]

Distinct-apart :
    (t : ℕ) (xs ys : List ℕ) → Distinct (xs ++ t ∷ ys) → (¬ Within t xs) × (¬ Within t ys)
Distinct-apart t [] ys d = (λ h. h, d.0)
Distinct-apart t (x ∷ xs) ys d =
    let rest = Distinct-apart t xs ys d.1 in
    (
      λ h. elim h [
        | inl e ↦ d.0 (subst (λ (v : ℕ). Within v (xs ++ t ∷ ys)) e (Within-middle t xs ys))
        | inr w ↦ rest.0 w
      ],
      rest.1,
    )

CanRun-cases : (s : Sched) (t : ℕ) → CanRun s t ⊎ (¬ CanRun s t)
CanRun-cases s t = elim (Bool-cases (not (s.thread t).is_idle && is_ready (s.thread t).state)) [
  | inl yes_run ↦ inl (ground arith)
  | inr no_run ↦ inr (λ h. absurd (ground arith))
]

module _ (s : Sched) (from idle u : ℕ) (d : Distinct s.queue) (few : length s.queue ≤ pick_rounds)
    (run : CanRun s u) (h : Within u s.queue) where
  -- The walk meets the current thread nowhere, or can stop at it.
  walk_through :
      ((l : List ℕ) → ((t : ℕ) → Within t l → Within t s.queue) → Allowed s from idle d l)
      → CanRun s (pick_from pick_rounds s from idle (next_of s.queue from))
  walk_through allowed =
      let first = next_of s.queue from in
      let (xs, ys, e) = split_at first s.queue (next_of-Within s.queue from u h) in
      found_among s from idle d pick_rounds first u xs [] ys e few
        (allowed (first ∷ ys) (λ t w. subst (Within t) (sym e) (Within-right t xs (first ∷ ys) w)))
        (allowed xs (λ t w. subst (Within t) (sym e) (Within-left t xs (first ∷ ys) w))) run
        (swap (Within-append u xs (first ∷ ys) (subst (Within u) e h)))
    where
      swap : {A B : Type 0} → A ⊎ B → B ⊎ A
      swap (inl a) = inr a
      swap (inr b) = inl b

  -- The current thread is in the queue: the walk comes to it last.
  walk_past :
      ¬ CanRun s from
      → (xs ys : List ℕ) → s.queue ≡ xs ++ from ∷ ys
      → CanRun s (pick_from pick_rounds s from idle (next_of s.queue from))
  walk_past no_run xs ys e =
      let apart = Distinct-apart from xs ys (subst Distinct e d) in
      rw (next_of-split s.queue from xs ys e d)
        (go xs ys e (Within-append u xs (from ∷ ys) (subst (Within u) e h)) apart)
    where
      not_from : {A : Type 0} → u ≡ from → A
      not_from same = absurd (no_run (subst (CanRun s) same run))

      go :
          (xs ys : List ℕ)
          → s.queue ≡ xs ++ from ∷ ys
          → Within u xs ⊎ Within u (from ∷ ys)
          → (¬ Within from xs) × (¬ Within from ys)
          → CanRun s (pick_from pick_rounds s from idle (head_or ys (head_or s.queue from)))
      go xs (y ∷ ys) e w apart =
          found_among s from idle d pick_rounds y u xs (from ∷ []) ys e few
            (Allowed-apart s from idle d (y ∷ ys) apart.1) (Allowed-apart s from idle d xs apart.0)
            run (elim w [ inl v ↦ inr v | inr (inl same) ↦ not_from same | inr (inr v) ↦ inl v ])
      go [] [] e w apart = elim w [
        | inl v ↦ absurd v
        | inr (inl same) ↦ not_from same
        | inr (inr v) ↦ absurd v
      ]
      go (x ∷ xs) [] e w apart =
          let head : head_or s.queue from ≡ x = ap (λ (l : List ℕ). head_or l from) e in
          rw head (
            found_first s from idle d pick_rounds x u xs (from ∷ []) e few
              (Allowed-apart s from idle d (x ∷ xs) apart.0) run
              (elim w [ inl v ↦ v | inr (inl same) ↦ not_from same | inr (inr v) ↦ absurd v ]))

-- With no more threads in the queue than `pick_next` looks at, and none twice, a processor whose
-- queue holds a thread that can run picks a thread that can run, whatever thread is current there. So it
-- never idles beside work, nor does a running thread keep the processor from a ready one.
pub pick_next-CanRun :
    (s : Sched) (c u : ℕ)
    → Distinct s.queue
    → length s.queue ≤ pick_rounds
    → Within u s.queue
    → CanRun s u
    → CanRun s (pick_next s c)
pick_next-CanRun s c u d few h run =
    let from = (s.cpu c).current in
    let idle = (s.cpu c).idle in
    rw (pick_next-from s c u s.queue refl h) (elim (CanRun-cases s from) [
      | inl current ↦
          walk_through s from idle u d few run h (λ l _. Allowed-run s from idle d current l)
      | inr no_run ↦ elim (Within-cases from s.queue) [
        | inr away ↦
            walk_through s from idle u d few run h
              (λ l sub. Allowed-apart s from idle d l (λ w. away (sub from w)))
        | inl there ↦
            let (xs, ys, e) = split_at from s.queue there in
            walk_past s from idle u d few run h no_run xs ys e
      ]
    ])
