-- ===== src/Socket/Listeners.antt =====
-- kernel/fs/socket.c: the table of listeners under any sequence of calls.
use mathlib.Core.Option.{some-injective}
use wos.Prelude.{
  ℕ, zero, suc, ◌≤◌, ◌≡◌, refl, sym, ap, subst, ◌∙◌, inl, inr, List, [], ◌∷◌, ◌++◌, Bool, Option,
  none, some, length, length-append, arith, set, get_elem?,
}
use wos.Abi.{Result}
use wos.Socket.{
  Listener, Accept, backlog_cap, find_listener, find_slot, listen, connect, accept, accept_from,
  unlisten,
}
use wos.Socket.Names.{Unused, Orderly, listen_at-Orderly, same-Orderly, connect-Connects}

-- The calls on the table of listeners. A name has at most 255 bytes, and a listener that accepts is
-- one of the table.
pub data Step (ls : List (Option Listener)) : List (Option Listener) → Type 0 where
  listens :
      (memory : Bool) (path : List ℕ) (owner : ℕ)
      → length path ≤ 255
      → Step ls (listen memory ls path owner).1
  connects : (theirs : Option ℕ) (path : List ℕ) (uid : ℕ) → Step ls (connect theirs ls path uid).1
  accepts :
      (i : ℕ) (l after : Listener) (e : ℕ)
      → get_elem? ls i ≡ some (some l)
      → accept l ≡ Accept.done e after
      → Step ls (set ls i (some after))
  closes : (i : ℕ) → Step ls (unlisten ls i)

pub data Reach (ls : List (Option Listener)) : List (Option Listener) → Type 0 where
  here : Reach ls ls
  then_step : {ms ns : List (Option Listener)} → Reach ls ms → Step ms ns → Reach ls ns

none-Unused :
    (path : List ℕ) (ls : List (Option Listener)) (i : ℕ)
    → Unused path ls
    → Unused path (unlisten ls i)
none-Unused path [] i u = tt
none-Unused path (none ∷ ls) zero u = u
none-Unused path (some x ∷ ls) zero u = u.1
none-Unused path (none ∷ ls) (suc i) u = none-Unused path ls i u
none-Unused path (some x ∷ ls) (suc i) u = (u.0, none-Unused path ls i u.1)

none-Orderly : (ls : List (Option Listener)) (i : ℕ) → Orderly ls → Orderly (unlisten ls i)
none-Orderly [] i o = tt
none-Orderly (none ∷ ls) zero o = o
none-Orderly (some x ∷ ls) zero o = o.2
none-Orderly (none ∷ ls) (suc i) o = none-Orderly ls i o
none-Orderly (some x ∷ ls) (suc i) o = (none-Unused x.path ls i o.0, o.1, none-Orderly ls i o.2)

Orderly-at :
    (ls : List (Option Listener)) (i : ℕ) (l : Listener)
    → Orderly ls
    → get_elem? ls i ≡ some (some l)
    → length l.backlog ≤ backlog_cap
Orderly-at [] i l o h = absurd (ground arith)
Orderly-at (none ∷ ls) zero l o h = absurd (ground (arith, some-injective _ _ h))
Orderly-at (some x ∷ ls) zero l o h =
    let same : x ≡ l = some-injective _ _ (some-injective _ _ h) in
    subst (λ (y : Listener). length y.backlog ≤ backlog_cap) same o.1
Orderly-at (none ∷ ls) (suc i) l o h = Orderly-at ls i l o h
Orderly-at (some x ∷ ls) (suc i) l o h = Orderly-at ls i l o.2 h

-- What is left of a listener that accepted.
accept-after :
    (l after : Listener) (e : ℕ) (backlog : List ℕ)
    → accept_from l backlog ≡ Accept.done e after
    → (es : List ℕ) × (after ≡ record l { backlog = es }) × (backlog ≡ e ∷ es)
unfolding accept_from
accept-after l after e [] h = absurd (ground arith)
accept-after l after e (x ∷ xs) h = (xs, ground arith, ground arith)

accept-is : (l : Listener) → accept_from l l.backlog ≡ accept l
unfolding accept
accept-is l = refl

Step-Orderly : {ls ms : List (Option Listener)} → Step ls ms → Orderly ls → Orderly ms
Step-Orderly {ls} (listens memory path owner few) o =
    unfold listen in
    listen_at-Orderly memory ls path owner (find_listener path ls) (find_slot ls) (refl, refl) o few
Step-Orderly {ls} (connects theirs path uid) o = elim (connect-Connects theirs ls path uid) [
  | inl (r, e) ↦
      subst Orderly (sym (ap (λ (x : Result (Unit {0}) × List (Option Listener)). x.1) e)) o
  | inr (good, c) ↦ subst Orderly (sym c.queued) (
      same-Orderly ls c.place c.listener (c.listener.backlog ++ c.endpoint ∷ []) c.stands o
        (omega (arith, c.room, length-append c.listener.backlog (c.endpoint ∷ []))))
]
Step-Orderly {ls} (accepts i l after e stands h) o =
    let (es, same, backlog) = accept-after l after e l.backlog (accept-is l ∙ h) in
    rw same (
      same-Orderly ls i l es stands o
        (omega (arith, ap length backlog, Orderly-at ls i l o stands)))
Step-Orderly {ls} (closes i) o = none-Orderly ls i o

-- From a table in which no two listeners answer to one name and no backlog is longer than
-- SOCK_BACKLOG, such as the empty one, whatever names of at most 255 bytes are listened to, and
-- whatever listeners are connected to, accepted from and closed, in whatever order, a table with the
-- same two properties is reached.
pub Reach-Orderly : {ls ms : List (Option Listener)} → Orderly ls → Reach ls ms → Orderly ms
Reach-Orderly o here = o
Reach-Orderly o (then_step r st) = Step-Orderly st (Reach-Orderly o r)
