-- ===== src/Pipe/Stream.antt =====
-- A pipe over its whole life: every sequence of writes, reads and changes of its ends, in any
-- interleaving of the readers and writers that share it.
use mathlib.Core.Option.{some-injective}
use wos.Prelude.{
  ℕ, ◌-◌, ◌≡◌, refl, sym, ap, subst, ◌∙◌, inl, inr, List, [], ◌∷◌, ◌++◌, Bool, true, Option, none,
  some, arith, length, take, append-nil, append_assoc,
}
use wos.Abi.{ok, err}
use wos.Ring.{contents, Inv}
use wos.Pipe.{Pipe, cap, Read, Write, create, ref, unref, read, write_loop}
use wos.Pipe.Calls.{Moved, Writes, Reads, write_loop-Writes, read-Reads}

-- What a call of `pipe_write` leaves: the pipe, and the position that it has reached.
abbrev pub reached : Write → ℕ → Option (Pipe × ℕ)
reached (Write.blocked q rest m) n = some (q, m)
reached (Write.done q (ok m)) n = some (q, m)
reached (Write.done q (err e)) n = some (q, n)
reached _ n = none

pub record History : Type 0 where
  pub pipe : Pipe
  pub sent : List ℕ
  pub received : List ℕ

-- One call at the pipe. A write enters with the bytes from position `n` on, 0 for a new one; it
-- has sent the bytes between that and the position that it reaches.
pub data Step (s : History) : History → Type 0 where
  writes :
      (bytes : List ℕ) (n m : ℕ) (q : Pipe)
      → reached (write_loop 3 s.pipe bytes n) n ≡ some (q, m)
      → Step s (record s { pipe = q; sent = s.sent ++ take (m - n) bytes })
  reads :
      (len : ℕ) (bytes : List ℕ) (q : Pipe) (woken : Bool)
      → read (some s.pipe) len ≡ Read.done bytes q woken
      → Step s (record s { pipe = q; received = s.received ++ bytes })
  refs :
      (write_end : Bool) (q : Pipe)
      → ref (some s.pipe) write_end ≡ some q
      → Step s (record s { pipe = q })
  unrefs :
      (write_end : Bool) (q : Pipe)
      → unref (some s.pipe) write_end ≡ some q
      → Step s (record s { pipe = q })

pub data Reach (s : History) : History → Type 0 where
  here : Reach s s
  then_step : {t u : History} → Reach s t → Step t u → Reach s u

-- The ring is well formed, and what was sent is what was received and then what the pipe holds.
pub record InOrder (s : History) : Type 0 where
  pub valid : Inv cap s.pipe.ring
  pub stream : s.sent ≡ s.received ++ contents cap s.pipe.ring

take-prefix : (xs ys : List ℕ) → take (length xs) (xs ++ ys) ≡ xs
take-prefix [] ys = refl
take-prefix (x ∷ xs) ys = ap (◌∷◌ x) (take-prefix xs ys)

Moved-sent :
    (p q : Pipe) (xs rest : List ℕ) (n m : ℕ)
    → Moved p xs n q rest m
    → contents cap q.ring ≡ contents cap p.ring ++ take (m - n) xs
Moved-sent p q xs rest n m moved =
    let all : m - n ≡ length moved.taken = omega (arith, moved.counted) in
    moved.stored
    ∙ ap (◌++◌ (contents cap p.ring)) (sym (take-prefix moved.taken rest) ∙ (rw (all, moved.split)))

abbrev Sent : Pipe → List ℕ → ℕ → Pipe × ℕ → Type 0
Sent p xs n (q, m) = Inv cap q.ring × (contents cap q.ring ≡ contents cap p.ring ++ take (m - n) xs)

nothing-Sent : (p : Pipe) (xs : List ℕ) (n : ℕ) → Inv cap p.ring → Sent p xs n (p, n)
nothing-Sent p xs n v =
    let none_sent : n - n ≡ 0 = omega arith in (v, rw none_sent (sym (append-nil _)))

-- The bytes that a write reports are in the pipe, behind those that were there.
Writes-Sent :
    (p : Pipe) (xs : List ℕ) (n : ℕ) (w : Write) (r : Pipe × ℕ)
    → Inv cap p.ring
    → Writes p xs n w
    → reached w n ≡ some r
    → Sent p xs n r
Writes-Sent p xs n Write.out_of_fuel r v h e = absurd h
Writes-Sent p xs n (Write.failed _) r v h e = absurd h
Writes-Sent p xs n (Write.blocked q rest m) r v h e =
    subst (Sent p xs n) (some-injective _ _ e) (h.0.valid, Moved-sent p q xs rest n m h.0)
Writes-Sent p xs n (Write.done q (ok m)) r v (inl moved) e =
    subst (Sent p xs n) (some-injective _ _ e) (moved.valid, Moved-sent p q xs [] n m moved)
Writes-Sent p xs n (Write.done q (ok m)) r v (inr kept) e =
    subst (Sent p xs n) (some-injective _ _ e) (rw (kept.0, kept.1) (nothing-Sent p xs n v))
Writes-Sent p xs n (Write.done q (err _)) r v kept e =
    subst (Sent p xs n) (some-injective _ _ e) (rw kept.0 (nothing-Sent p xs n v))

read-split :
    (p q : Pipe) (len : ℕ) (bytes : List ℕ) (woken : Bool)
    → Inv cap p.ring
    → read (some p) len ≡ Read.done bytes q woken
    → Inv cap q.ring × (contents cap p.ring ≡ bytes ++ contents cap q.ring)
read-split p q len bytes woken v e =
    let said : Reads p len (Read.done bytes q woken) =
      subst (Reads p len) e (read-Reads p len v).0 in
    (said.2, said.0)

ref-ring : (p q : Pipe) (write_end : Bool) → ref (some p) write_end ≡ some q → q.ring ≡ p.ring
unfolding ref
ref-ring p q write_end e = ground arith

unref-ring : (p q : Pipe) (write_end : Bool) → unref (some p) write_end ≡ some q → q.ring ≡ p.ring
unfolding unref
unref-ring p q write_end e = ground arith

Step-InOrder : {s t : History} → Step s t → InOrder s → InOrder t
Step-InOrder {s} (writes bytes n m q e) v =
    let (valid, stored) =
      Writes-Sent s.pipe bytes n _ (q, m) v.valid (write_loop-Writes 1 s.pipe bytes n v.valid) e in
    record { valid = valid; stream = rw (stored, v.stream) (append_assoc s.received _ _) }
Step-InOrder {s} (reads len bytes q woken e) v =
    let (valid, split) = read-split s.pipe q len bytes woken v.valid e in
    record { valid = valid; stream = v.stream ∙ rw split (sym (append_assoc s.received bytes _)) }
Step-InOrder {s} (refs write_end q e) v = record {
  valid = rw (ref-ring s.pipe q write_end e) v.valid;
  stream = rw (ref-ring s.pipe q write_end e) v.stream;
}
Step-InOrder {s} (unrefs write_end q e) v = record {
  valid = rw (unref-ring s.pipe q write_end e) v.valid;
  stream = rw (unref-ring s.pipe q write_end e) v.stream;
}

Reach-InOrder_from : {s t : History} → Reach s t → InOrder s → InOrder t
Reach-InOrder_from here v = v
Reach-InOrder_from (then_step r st) v = Step-InOrder st (Reach-InOrder_from r v)

create-InOrder :
    (p : Pipe) → create true ≡ some p → InOrder (record { pipe = p; sent = []; received = [] })
unfolding create contents
create-InOrder p e =
    subst (λ (p : Pipe). InOrder (record { pipe = p; sent = []; received = [] }))
      (some-injective _ _ e) (record { valid = ground arith; stream = refl })

-- From a new pipe on, whatever calls are made and in whatever order, waits and resumed writes
-- included: the bytes that the writes have sent are, in order, the bytes that the reads have
-- received and then the bytes in the buffer; and the ring stays well formed. So no byte is lost,
-- repeated or overtaken.
pub Reach-InOrder :
    (p : Pipe) (t : History)
    → create true ≡ some p
    → Reach (record { pipe = p; sent = []; received = [] }) t
    → InOrder t
Reach-InOrder p t e r = Reach-InOrder_from r (create-InOrder p e)
