-- ===== src/Pipe/Calls.antt =====
-- What one call of `pipe_read` or `pipe_write` does to the bytes in the pipe.
use wos.Prelude.{
  ℕ, suc, ◌+◌, ◌-◌, ◌<◌, ◌≡◌, ◌≢◌, ◌↔◌, refl, sym, ap, ◌⊎◌, inl, inr, List, [], ◌∷◌, ◌++◌, true,
  false, some, arith, length, length-append, Bool-cases, ltb, ◌==◌, min, append-nil,
}
use wos.Abi.{ok, err, epipe}
use wos.Ring.{fill, contents, Inv}
use wos.Ring.Laws.{Fills, fill-Fills, drain-contents}
use wos.Pipe.{Pipe, cap, is_pos, Read, Write, read, read_some, write_loop, broken, pollin}

-- The bytes `xs`, from position `n` on, moved into the pipe `p` up to `rest` and position `m`.
pub record Moved (p : Pipe) (xs : List ℕ) (n : ℕ) (q : Pipe) (rest : List ℕ) (m : ℕ) : Type 0 where
  pub taken : List ℕ
  pub split : xs ≡ taken ++ rest
  pub stored : contents cap q.ring ≡ contents cap p.ring ++ taken
  pub counted : m ≡ n + length taken
  pub valid : Inv cap q.ring
  pub readers_kept : q.readers ≡ p.readers
  pub writers_kept : q.writers ≡ p.writers

abbrev pub Writes : Pipe → List ℕ → ℕ → Write → Type 0
Writes p xs n Write.out_of_fuel = ⊥
Writes p xs n (Write.failed e) = ⊥
Writes p xs n (Write.blocked q rest m) =
    Moved p xs n q rest m × (q.ring.count ≡ cap) × (rest ≢ []) × (is_pos p.readers ≡ true)
Writes p xs n (Write.done q (ok m)) =
    Moved p xs n q [] m ⊎ ((q ≡ p) × (m ≡ n) × (0 < n) × (is_pos p.readers ≡ false) × (xs ≢ []))
Writes p xs n (Write.done q (err e)) =
    (q ≡ p) × (e ≡ epipe) × (n ≡ 0) × (is_pos p.readers ≡ false) × (xs ≢ [])

nothing-Moved : (p : Pipe) (xs : List ℕ) (n : ℕ) → Inv cap p.ring → Moved p xs n p xs n
nothing-Moved p xs n v = record {
  taken = [];
  split = refl;
  stored = sym (append-nil _);
  counted = omega arith;
  valid = v;
  readers_kept = refl;
  writers_kept = refl;
}

abbrev settled : Pipe → List ℕ → ℕ → Write
settled p [] n = Write.done p (ok n)
settled p (x ∷ xs) n = Write.blocked p (x ∷ xs) n

write_loop-settled :
    (fuel : ℕ) (p : Pipe) (xs : List ℕ) (n : ℕ)
    → is_pos p.readers ≡ true
    → (xs ≡ []) ⊎ (p.ring.count ≡ cap)
    → write_loop (suc fuel) p xs n ≡ settled p xs n
unfolding write_loop
write_loop-settled fuel p [] n live stop = refl
write_loop-settled fuel p (x ∷ xs) n live (inl e) = cc
write_loop-settled fuel p (x ∷ xs) n live (inr e) = rw (live, e)

settled-Writes :
    (p q : Pipe) (xs rest : List ℕ) (n m : ℕ)
    → is_pos p.readers ≡ true
    → (rest ≡ []) ⊎ (q.ring.count ≡ cap)
    → Moved p xs n q rest m
    → Writes p xs n (settled q rest m)
settled-Writes p q xs [] n m live stop moved = inl moved
settled-Writes p q xs (y ∷ ys) n m live (inl e) moved = cc
settled-Writes p q xs (y ∷ ys) n m live (inr e) moved = (moved, e, λ c. cc, live)

length-split :
    (xs taken rest : List ℕ) → xs ≡ taken ++ rest → length xs - length rest ≡ length taken
length-split xs taken rest e = omega (arith, ap length e, length-append {0} taken rest)

write_round :
    (fuel : ℕ) (p : Pipe) (xs : List ℕ) (n : ℕ)
    → Inv cap p.ring
    → is_pos p.readers ≡ true
    → let filled = fill cap xs p.ring in
      Writes p xs n (
        write_loop
          (suc fuel)
          (record p { ring = filled.1 })
          filled.0
          (n + (length xs - length filled.0)))
write_round fuel p xs n v live =
    rw (write_loop-settled fuel q rest m live filled.stopped)
      (settled-Writes p q xs rest n m live filled.stopped moved)
  where
    filled : Fills cap xs p.ring (fill cap xs p.ring).0 (fill cap xs p.ring).1
    filled = fill-Fills cap xs p.ring v

    q : Pipe
    q = record p { ring = (fill cap xs p.ring).1 }

    rest : List ℕ
    rest = (fill cap xs p.ring).0

    m : ℕ
    m = n + (length xs - length rest)

    moved : Moved p xs n q rest m
    moved = record {
      taken = filled.taken;
      split = filled.split;
      stored = filled.stored;
      counted = ap (λ (k : ℕ). n + k) (length-split xs filled.taken _ filled.split);
      valid = filled.valid;
      readers_kept = refl;
      writers_kept = refl;
    }

broken-Writes :
    (p : Pipe) (xs : List ℕ) (n : ℕ)
    → is_pos p.readers ≡ false
    → xs ≢ []
    → (ltb 0 n ≡ true) ⊎ (ltb 0 n ≡ false)
    → Writes p xs n (Write.done p (broken n))
broken-Writes p xs n gone left (inl t) = rw t (inr (refl, refl, ground arith, gone, left))
broken-Writes p xs n gone left (inr t) = rw t (refl, refl, ground arith, gone, left)

-- A write, or a write resumed with the bytes `xs` from position `n` on, never runs out of rounds.
-- It ends with all bytes in the pipe, in order and behind those already there; or it waits, which it
-- does only with a full pipe, bytes left and a reader, and has moved the bytes before `rest`; or no
-- reader is left, and then it moves nothing and reports the bytes written so far, or EPIPE if none.
pub write_loop-Writes :
    (fuel : ℕ) (p : Pipe) (xs : List ℕ) (n : ℕ)
    → Inv cap p.ring
    → Writes p xs n (write_loop (suc (suc fuel)) p xs n)
unfolding write_loop
write_loop-Writes fuel p [] n v = inl (nothing-Moved p [] n v)
write_loop-Writes fuel p (x ∷ xs) n v = elim (Bool-cases (is_pos p.readers)) [
  | inr gone ↦ rw gone (broken-Writes p (x ∷ xs) n gone (λ c. cc) (Bool-cases (ltb 0 n)))
  | inl live ↦ rw live (elim (Bool-cases (p.ring.count == cap)) [
    | inl full ↦ rw full (nothing-Moved p (x ∷ xs) n v, ground arith, λ c. cc, live)
    | inr room ↦ rw room (write_round fuel p (x ∷ xs) n v live)
  ])
]

abbrev pub Reads : Pipe → ℕ → Read → Type 0
Reads p len Read.blocked = (p.ring.count ≡ 0) × (is_pos p.writers ≡ true) × (0 < len)
Reads p len (Read.failed e) = ⊥
Reads p len (Read.done bytes q woken) =
    (contents cap p.ring ≡ bytes ++ contents cap q.ring)
    × (length bytes ≡ min len p.ring.count)
    × Inv cap q.ring
    × (q.readers ≡ p.readers)
    × (q.writers ≡ p.writers)
    × ((bytes ≡ []) → (len ≡ 0) ⊎ (is_pos p.writers ≡ false))

read_some-Reads :
    (p : Pipe) (len : ℕ) → Inv cap p.ring → 0 < p.ring.count → Reads p len (read_some p len)
unfolding read_some
read_some-Reads p len v h =
    let (split, count, valid, left) = drain-contents cap len p.ring v in
    (split, count, valid, refl, refl, λ e. ground (arith, ap length e))

-- A read waits exactly when the pipe is empty, a writer is left and something is asked for.
-- Otherwise it takes the oldest bytes, as many as are asked for and there are, and leaves the rest;
-- it returns no bytes only at a length of 0 or at the end of file, with every writer gone.
pub read-Reads :
    (p : Pipe) (len : ℕ)
    → Inv cap p.ring
    → Reads p len (read (some p) len)
      × ((read (some p) len ≡ Read.blocked)
          ↔ ((p.ring.count ≡ 0) × (is_pos p.writers ≡ true) × (0 < len)))
unfolding read read_some
read-Reads p len v = (outcome, (ground (arith, read_some p len), ground arith))
  where
    outcome : Reads p len (read (some p) len)
    outcome = elim (Bool-cases (len == 0)) [
      | inl e ↦ rw e (refl, ground arith, v, refl, refl, λ c. inl (ground arith))
      | inr n ↦ rw n (elim (Bool-cases (p.ring.count == 0)) [
        | inr c ↦ rw c (read_some-Reads p len v (ground arith))
        | inl c ↦ rw c (elim (Bool-cases (is_pos p.writers)) [
          | inl live ↦ rw live (ground arith, live, ground arith)
          | inr gone ↦ rw gone (refl, ground arith, v, refl, refl, λ _. inr gone)
        ])
      ])
    ]

-- `pipe_pollin` is true exactly when a read of some bytes would not wait.
pub pollin-read :
    (p : Pipe) (len : ℕ) → 0 < len → (pollin (some p) ≡ true) ↔ (read (some p) len ≢ Read.blocked)
unfolding pollin read read_some
pollin-read p len h = (ground arith, ground arith)
