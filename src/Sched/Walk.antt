-- ===== src/Sched/Walk.antt =====
-- The walk of `pick_next` of kernel/proc/sched.c over the queue.
use wos.Prelude.{
  Bool-cases, ◌==◌, ℕ, suc, ◌+◌, ◌-◌, ◌≤◌, ◌≡◌, ◌⊎◌, refl, sym, ap, subst, ◌∙◌, inl, inr, List, [],
  ◌∷◌, ◌++◌, true, false, arith, length, length-append, append_assoc, append-nil,
}
use wos.Sched.{Sched, is_ready, head_or, next_in, next_of, pick_from}
use wos.Sched.Steps.{Within}

abbrev pub Distinct : List ℕ → Type 0
Distinct [] = Unit {0}
Distinct (x ∷ xs) = (¬ Within x xs) × Distinct xs

abbrev pub CanRun : Sched → ℕ → Type 0
CanRun s t = ((s.thread t).is_idle ≡ false) × (is_ready (s.thread t).state ≡ true)

-- No thread of the list can run.
abbrev Passed : Sched → List ℕ → Type 0
Passed s [] = Unit {0}
Passed s (t ∷ ts) = (¬ CanRun s t) × Passed s ts

pub Within-middle : (t : ℕ) (xs ys : List ℕ) → Within t (xs ++ t ∷ ys)
Within-middle t [] ys = inl refl
Within-middle t (x ∷ xs) ys = inr (Within-middle t xs ys)

pub Within-left : (t : ℕ) (xs ys : List ℕ) → Within t xs → Within t (xs ++ ys)
Within-left t [] ys h = absurd h
Within-left t (x ∷ xs) ys (inl e) = inl e
Within-left t (x ∷ xs) ys (inr h) = inr (Within-left t xs ys h)

pub Within-right : (t : ℕ) (xs ys : List ℕ) → Within t ys → Within t (xs ++ ys)
Within-right t [] ys h = h
Within-right t (x ∷ xs) ys h = inr (Within-right t xs ys h)

next_in-split :
    (first t : ℕ) (xs ys : List ℕ)
    → Distinct (xs ++ t ∷ ys)
    → next_in first (xs ++ t ∷ ys) t ≡ head_or ys first
unfolding next_in
next_in-split first t [] [] d = refl
next_in-split first t [] (y ∷ ys) d = ground arith
next_in-split first t (x ∷ []) ys d = ground (arith, next_in-split first t [] ys d.1)
next_in-split first t (x ∷ x' ∷ xs) ys d =
    ground (arith, next_in-split first t (x' ∷ xs) ys d.1, Within-middle t (x' ∷ xs) ys)

pub next_of-split :
    (q : List ℕ) (t : ℕ) (xs ys : List ℕ)
    → q ≡ xs ++ t ∷ ys
    → Distinct q
    → next_of q t ≡ head_or ys (head_or q t)
unfolding next_of
next_of-split q t xs ys e d =
    ap (λ (l : List ℕ). next_in (head_or q t) l t) e
    ∙ next_in-split (head_or q t) t xs ys (subst Distinct e d)

head_or-middle : (a b t : ℕ) (xs ys : List ℕ) → head_or (xs ++ t ∷ ys) a ≡ head_or (xs ++ t ∷ ys) b
head_or-middle a b t [] ys = refl
head_or-middle a b t (x ∷ xs) ys = refl

head_or-split : (a b t : ℕ) (q xs ys : List ℕ) → q ≡ xs ++ t ∷ ys → head_or q a ≡ head_or q b
head_or-split a b t q xs ys e =
    ap (λ (l : List ℕ). head_or l a) e
    ∙ head_or-middle a b t xs ys
    ∙ sym (ap (λ (l : List ℕ). head_or l b) e)

-- `m` rounds after one for each thread of the list.
abbrev rounds_for : List ℕ → ℕ → ℕ
rounds_for [] m = m
rounds_for (x ∷ xs) m = suc (rounds_for xs m)

rounds_for-length : (xs : List ℕ) (m : ℕ) → rounds_for xs m ≡ length xs + m
rounds_for-length [] m = omega arith
rounds_for-length (x ∷ xs) m = omega (arith, rounds_for-length xs m)

module _ (s : Sched) (from idle : ℕ) (d : Distinct s.queue) where
  abbrev pub Chosen : ℕ → Type 0
  Chosen r = CanRun s r

  -- The walk does not stop at the current thread for anything but that it can run.
  abbrev pub Allowed : List ℕ → Type 0
  Allowed [] = Unit {0}
  Allowed (t ∷ ts) = ((t ≡ from) → CanRun s from) × Allowed ts

  one_round :
      (n t : ℕ)
      → ((t ≡ from) → CanRun s from)
      → Chosen (pick_from (suc n) s from idle t)
        ⊎ ((¬ CanRun s t)
            × (pick_from (suc n) s from idle t ≡ pick_from n s from idle (next_of s.queue t)))
  unfolding pick_from
  one_round n t allowed = elim (Bool-cases (t == from)) [
    | inl same ↦
        let e : t ≡ from = ground arith in
        let run = subst (CanRun s) (sym e) (allowed e) in inl (ground arith)
    | inr other ↦ ground arith
  ]

  -- A walk over the threads `seg` of the queue finds one, or passes them all.
  sweep :
      (m : ℕ) (xs : List ℕ) (t : ℕ) (seg rest : List ℕ)
      → s.queue ≡ xs ++ t ∷ (seg ++ rest)
      → Allowed (t ∷ seg)
      → Chosen (pick_from (rounds_for (t ∷ seg) m) s from idle t)
        ⊎ (Passed s (t ∷ seg)
            × (pick_from (rounds_for (t ∷ seg) m) s from idle t
                ≡ pick_from m s from idle (head_or rest (head_or s.queue t))))
  sweep m xs t [] rest e a = elim (one_round m t a.0) [
    | inl found ↦ inl found
    | inr (no_run, on) ↦
        inr ((no_run, tt), on ∙ ap (pick_from m s from idle) (next_of-split s.queue t xs rest e d))
  ]
  sweep m xs t (u ∷ seg) rest e a = elim (one_round (rounds_for (u ∷ seg) m) t a.0) [
    | inl found ↦ inl found
    | inr (no_run, on) ↦
        further no_run
          (on
            ∙ ap (pick_from (rounds_for (u ∷ seg) m) s from idle)
                (next_of-split s.queue t xs _ e d))
          (sweep m (xs ++ t ∷ []) u seg rest (e ∙ sym (append_assoc xs (t ∷ []) _)) a.1)
  ]
    where
      further :
          ¬ CanRun s t
          → pick_from (rounds_for (t ∷ u ∷ seg) m) s from idle t
            ≡ pick_from (rounds_for (u ∷ seg) m) s from idle u
          → (Chosen (pick_from (rounds_for (u ∷ seg) m) s from idle u)
              ⊎ (Passed s (u ∷ seg)
                  × (pick_from (rounds_for (u ∷ seg) m) s from idle u
                      ≡ pick_from m s from idle (head_or rest (head_or s.queue u)))))
          → Chosen (pick_from (rounds_for (t ∷ u ∷ seg) m) s from idle t)
            ⊎ (Passed s (t ∷ u ∷ seg)
                × (pick_from (rounds_for (t ∷ u ∷ seg) m) s from idle t
                    ≡ pick_from m s from idle (head_or rest (head_or s.queue t))))
      further no_run on (inl found) = inl (subst Chosen (sym on) found)
      further no_run on (inr (passed, after)) = inr (
        (no_run, passed),
        on
            ∙ after
            ∙ ap (λ (x : ℕ). pick_from m s from idle (head_or rest x))
                (head_or-split u t t s.queue xs (u ∷ seg ++ rest) e),
      )

  Passed-Within : (u : ℕ) (l : List ℕ) → Passed s l → Within u l → ¬ CanRun s u
  Passed-Within u [] p h = absurd h
  Passed-Within u (x ∷ l) p (inl e) = subst (λ (v : ℕ). ¬ CanRun s v) (sym e) p.0
  Passed-Within u (x ∷ l) p (inr h) = Passed-Within u l p.1 h

  -- A walk from `t` to the end of the queue and then over its first threads `pre`.
  walk_around :
      (k t : ℕ) (pre mid ys : List ℕ)
      → s.queue ≡ pre ++ (mid ++ t ∷ ys)
      → Allowed (t ∷ ys)
      → Allowed pre
      → Chosen (pick_from (rounds_for (t ∷ ys) (rounds_for pre k)) s from idle t)
        ⊎ (Passed s (t ∷ ys) × Passed s pre)
  walk_around k t [] mid ys e a b =
      elim (sweep k mid t ys [] (e ∙ ap (λ (l : List ℕ). mid ++ t ∷ l) (sym (append-nil ys))) a) [
        | inl found ↦ inl found
        | inr (passed, _) ↦ inr (passed, tt)
      ]
  walk_around k t (x ∷ xs) mid ys e a b =
      elim (sweep (rounds_for (x ∷ xs) k) ((x ∷ xs) ++ mid) t ys []
        (e
          ∙ ap (λ (l : List ℕ). (x ∷ xs) ++ (mid ++ t ∷ l)) (sym (append-nil ys))
          ∙ sym (append_assoc (x ∷ xs) mid _))
        a) [
          | inl found ↦ inl found
          | inr (passed, on) ↦
              wrap passed
                (on
                  ∙ ap (λ (l : List ℕ). pick_from (rounds_for (x ∷ xs) k) s from idle (head_or l t))
                      e)
                (sweep k [] x xs (mid ++ t ∷ ys) e b)
        ]
    where
      wrap :
          Passed s (t ∷ ys)
          → pick_from (rounds_for (t ∷ ys) (rounds_for (x ∷ xs) k)) s from idle t
            ≡ pick_from (rounds_for (x ∷ xs) k) s from idle x
          → (Chosen (pick_from (rounds_for (x ∷ xs) k) s from idle x)
              ⊎ (Passed s (x ∷ xs)
                  × (pick_from (rounds_for (x ∷ xs) k) s from idle x
                      ≡ pick_from k s from idle (head_or (mid ++ t ∷ ys) (head_or s.queue x)))))
          → Chosen (pick_from (rounds_for (t ∷ ys) (rounds_for (x ∷ xs) k)) s from idle t)
            ⊎ (Passed s (t ∷ ys) × Passed s (x ∷ xs))
      wrap passed on (inl found) = inl (subst Chosen (sym on) found)
      wrap passed on (inr (before, _)) = inr (passed, before)

  pub Allowed-run : CanRun s from → (l : List ℕ) → Allowed l
  Allowed-run run [] = tt
  Allowed-run run (t ∷ l) = (λ _. run, Allowed-run run l)

  pub Allowed-apart : (l : List ℕ) → ¬ Within from l → Allowed l
  Allowed-apart [] h = tt
  Allowed-apart (t ∷ l) h = (λ e. absurd (h (inl (sym e))), Allowed-apart l (λ w. h (inr w)))

  -- With a round for each thread of the queue, one that can run is picked.
  pub found_among :
      (n t u : ℕ) (pre mid ys : List ℕ)
      → s.queue ≡ pre ++ (mid ++ t ∷ ys)
      → length s.queue ≤ n
      → Allowed (t ∷ ys)
      → Allowed pre
      → CanRun s u
      → Within u (t ∷ ys) ⊎ Within u pre
      → Chosen (pick_from n s from idle t)
  found_among n t u pre mid ys e le a b run w =
      let k = n - length pre - length (t ∷ ys) in
      let total : rounds_for (t ∷ ys) (rounds_for pre k) ≡ n = omega (
        arith,
        rounds_for-length ys (rounds_for pre k),
        rounds_for-length pre k,
        ap length e,
        length-append {0} pre (mid ++ t ∷ ys),
        length-append {0} mid (t ∷ ys),
      ) in
      elim (walk_around k t pre mid ys e a b) [
        | inl found ↦ subst (λ (r : ℕ). Chosen (pick_from r s from idle t)) total found
        | inr (later, before) ↦ elim w [
          | inl h ↦ absurd (Passed-Within u (t ∷ ys) later h run)
          | inr h ↦ absurd (Passed-Within u pre before h run)
        ]
      ]

  -- The same from the head of the queue over its first threads.
  pub found_first :
      (n t u : ℕ) (seg rest : List ℕ)
      → s.queue ≡ t ∷ (seg ++ rest)
      → length s.queue ≤ n
      → Allowed (t ∷ seg)
      → CanRun s u
      → Within u (t ∷ seg)
      → Chosen (pick_from n s from idle t)
  found_first n t u seg rest e le a run w =
      let k = n - length (t ∷ seg) in
      let total : rounds_for (t ∷ seg) k ≡ n =
        omega (arith, rounds_for-length seg k, ap length e, length-append {0} seg rest) in
      elim (sweep k [] t seg rest e a) [
        | inl found ↦ subst (λ (r : ℕ). Chosen (pick_from r s from idle t)) total found
        | inr (passed, _) ↦ absurd (Passed-Within u (t ∷ seg) passed w run)
      ]
