-- ===== src/Socket/Names.antt =====
-- kernel/fs/socket.c: listeners, and who may connect to them.
use mathlib.Core.Option.{some-injective}
use wos.Prelude.{
  ℕ, zero, suc, ◌<◌, ◌≤◌, ◌≡◌, ◌≢◌, ◌⊎◌, refl, sym, ap, subst, ◌∙◌, inl, inr, List, [], ◌∷◌, ◌++◌,
  Bool, true, false, not, ◌&&◌, Option, none, some, length, arith, Bool-cases, leb, ◌==◌,
  if◌then◌else◌, set, get_elem?,
}
use wos.Abi.{Error, ok, err, enoent, eperm, ebusy, enomem}
use wos.Bytes.{str_eq, str_eq_iff, strlcpy-fits}
use wos.Socket.{
  Listener, backlog_cap, shift, find_listener, find_slot, listen_at, connect, connect_to,
}

-- No listener answers to the name.
abbrev pub Unused : List ℕ → List (Option Listener) → Type 0
Unused path [] = Unit {0}
Unused path (none ∷ ls) = Unused path ls
Unused path (some l ∷ ls) = (l.path ≢ path) × Unused path ls

-- No two listeners answer to one name, and no backlog is longer than SOCK_BACKLOG.
abbrev pub Orderly : List (Option Listener) → Type 0
Orderly [] = Unit {0}
Orderly (none ∷ ls) = Orderly ls
Orderly (some l ∷ ls) = Unused l.path ls × (length l.backlog ≤ backlog_cap) × Orderly ls

shift-none : (o : Option (ℕ × Listener)) → shift o ≡ none → o ≡ none
shift-none none h = refl
shift-none (some (i, l)) h = absurd (ground arith)

missing-Unused :
    (path : List ℕ) (ls : List (Option Listener)) → find_listener path ls ≡ none → Unused path ls
unfolding find_listener
missing-Unused path [] h = tt
missing-Unused path (none ∷ ls) h = missing-Unused path ls (shift-none (find_listener path ls) h)
missing-Unused path (some l ∷ ls) h = elim (Bool-cases (str_eq l.path path)) [
  | inl same ↦ absurd (taken path l (shift (find_listener path ls)) same h)
  | inr apart ↦ (
    λ e. absurd (ground (arith, (str_eq_iff l.path path).1 e)),
    missing-Unused path ls (
        shift-none (find_listener path ls) (passed path l (shift (find_listener path ls)) apart h)),
  )
]
  where
    taken :
        (path : List ℕ) (l : Listener) (later : Option (ℕ × Listener))
        → str_eq l.path path ≡ true
        → (if str_eq l.path path then some (0, l) else later) ≢ none
    taken path l later same h = ground arith

    passed :
        (path : List ℕ) (l : Listener) (later : Option (ℕ × Listener))
        → str_eq l.path path ≡ false
        → (if str_eq l.path path then some (0, l) else later) ≡ none
        → later ≡ none
    passed path l later apart h = ground arith

set-Unused :
    (path : List ℕ) (ls : List (Option Listener)) (i : ℕ) (l : Listener)
    → Unused path ls
    → l.path ≢ path
    → Unused path (set ls i (some l))
set-Unused path [] i l u h = tt
set-Unused path (none ∷ ls) zero l u h = (h, u)
set-Unused path (some x ∷ ls) zero l u h = (h, u.1)
set-Unused path (none ∷ ls) (suc i) l u h = set-Unused path ls i l u h
set-Unused path (some x ∷ ls) (suc i) l u h = (u.0, set-Unused path ls i l u.1 h)

-- A new name in any place.
fresh-Orderly :
    (ls : List (Option Listener)) (i : ℕ) (l : Listener)
    → Orderly ls
    → Unused l.path ls
    → length l.backlog ≤ backlog_cap
    → Orderly (set ls i (some l))
fresh-Orderly [] i l o u few = tt
fresh-Orderly (none ∷ ls) zero l o u few = (u, few, o)
fresh-Orderly (some x ∷ ls) zero l o u few = (u.1, few, o.2)
fresh-Orderly (none ∷ ls) (suc i) l o u few = fresh-Orderly ls i l o u few
fresh-Orderly (some x ∷ ls) (suc i) l o u few =
    (set-Unused x.path ls i l o.0 (λ e. u.0 (sym e)), o.1, fresh-Orderly ls i l o.2 u.1 few)

Unused-at :
    (path : List ℕ) (ls : List (Option Listener)) (i : ℕ) (l : Listener)
    → Unused path ls
    → get_elem? ls i ≡ some (some l)
    → l.path ≢ path
Unused-at path [] i l u h = absurd (ground arith)
Unused-at path (none ∷ ls) zero l u h = absurd (ground (arith, some-injective _ _ h))
Unused-at path (some x ∷ ls) zero l u h =
    let same : x ≡ l = some-injective _ _ (some-injective _ _ h) in
    subst (λ (y : Listener). y.path ≢ path) same u.0
Unused-at path (none ∷ ls) (suc i) l u h = Unused-at path ls i l u h
Unused-at path (some x ∷ ls) (suc i) l u h = Unused-at path ls i l u.1 h

-- The same name in the same place, with another backlog.
pub same-Orderly :
    (ls : List (Option Listener)) (i : ℕ) (old : Listener) (backlog : List ℕ)
    → get_elem? ls i ≡ some (some old)
    → Orderly ls
    → length backlog ≤ backlog_cap
    → Orderly (set ls i (some (record old { backlog = backlog })))
same-Orderly [] i old backlog h o few = tt
same-Orderly (none ∷ ls) zero old backlog h o few = absurd (ground (arith, some-injective _ _ h))
same-Orderly (some x ∷ ls) zero old backlog h o few =
    let same : x ≡ old = some-injective _ _ (some-injective _ _ h) in
    (subst (λ (y : Listener). Unused y.path ls) same o.0, few, o.2)
same-Orderly (none ∷ ls) (suc i) old backlog h o few = same-Orderly ls i old backlog h o few
same-Orderly (some x ∷ ls) (suc i) old backlog h o few = (
  set-Unused x.path ls i (record old { backlog = backlog }) o.0 (Unused-at x.path ls i old o.0 h),
  o.1,
  same-Orderly ls i old backlog h o.2 few,
)

pub listen_at-Orderly :
    (memory : Bool) (ls : List (Option Listener)) (path : List ℕ) (owner : ℕ)
    → (taken : Option (ℕ × Listener)) (slot : Option ℕ)
    → (find_listener path ls ≡ taken) × (find_slot ls ≡ slot)
    → Orderly ls
    → length path ≤ 255
    → Orderly (listen_at memory ls path owner taken slot).1
unfolding listen_at
listen_at-Orderly memory ls path owner (some t) slot h o few = o
listen_at-Orderly memory ls path owner none none h o few = o
listen_at-Orderly false ls path owner none (some i) h o few = o
listen_at-Orderly true ls path owner none (some i) h o few =
    rw (strlcpy-fits path 256 (omega arith)) (
      fresh-Orderly ls i (record { path = path; owner = owner; backlog = [] }) o
        (missing-Unused path ls h.0) (omega arith))

shift-some :
    (o : Option (ℕ × Listener)) (i : ℕ) (l : Listener)
    → shift o ≡ some (i, l)
    → (j : ℕ) × (o ≡ some (j, l)) × (i ≡ suc j)
shift-some none i l h = absurd (ground arith)
shift-some (some (j, x)) i l h = (j, ground arith, ground arith)

find-hit :
    (path : List ℕ) (x : Listener) (ls : List (Option Listener))
    → str_eq x.path path ≡ true
    → find_listener path (some x ∷ ls) ≡ some (0, x)
unfolding find_listener
find-hit path x ls hit = rw hit

find-miss :
    (path : List ℕ) (x : Listener) (ls : List (Option Listener))
    → str_eq x.path path ≡ false
    → find_listener path (some x ∷ ls) ≡ shift (find_listener path ls)
unfolding find_listener
find-miss path x ls miss = rw miss

-- The listener that is found answers to the name and stands in its place.
found-at :
    (path : List ℕ) (ls : List (Option Listener)) (i : ℕ) (l : Listener)
    → find_listener path ls ≡ some (i, l)
    → (get_elem? ls i ≡ some (some l)) × (l.path ≡ path)
unfolding find_listener
found-at path [] i l h = absurd (ground arith)
found-at path (none ∷ ls) i l h =
    let (j, found, place) = shift-some (find_listener path ls) i l h in
    rw place (found-at path ls j l found)
found-at path (some x ∷ ls) i l h = elim (Bool-cases (str_eq x.path path)) [
  | inl hit ↦
      let same : ◌≡◌ {A = ℕ × Listener} (0, x) (i, l) =
        some-injective _ _ (sym (find-hit path x ls hit) ∙ h) in
      let place : 0 ≡ i = ap (λ (t : ℕ × Listener). t.0) same in
      let listener : x ≡ l = ap (λ (t : ℕ × Listener). t.1) same in
      (
        subst (λ (n : ℕ). get_elem? (some x ∷ ls) n ≡ some (some l)) place
            (ap (λ (y : Listener). some (some y)) listener),
        subst (λ (y : Listener). y.path ≡ path) listener ((str_eq_iff x.path path).0 hit),
      )
  | inr miss ↦
      let (j, found, place) =
        shift-some (find_listener path ls) i l (sym (find-miss path x ls miss) ∙ h) in
      rw place (found-at path ls j l found)
]

-- What a connection did: the listener at the name belongs to the caller, or the caller is root; its
-- backlog had room, and now ends with the new endpoint.
pub record Connects (theirs : Option ℕ) (ls : List (Option Listener)) (path : List ℕ) (uid : ℕ)
    (after : List (Option Listener)) : Type 0 where
  pub place : ℕ
  pub listener : Listener
  pub endpoint : ℕ
  pub stands : get_elem? ls place ≡ some (some listener)
  pub answers_there : listener.path ≡ path
  pub permitted : (uid ≡ listener.owner) ⊎ (uid ≡ 0)
  pub room : length listener.backlog < backlog_cap
  pub memory : theirs ≡ some endpoint
  pub queued :
      after ≡ set ls place (some (record listener { backlog = listener.backlog ++ endpoint ∷ [] }))

guarded :
    (theirs : Option ℕ) (ls : List (Option Listener)) (path : List ℕ) (uid : ℕ)
    → (i : ℕ) (l : Listener) → find_listener path ls ≡ some (i, l)
    → ((r : Error) × (connect_to theirs ls uid (some (i, l)) ≡ (err r, ls)))
      ⊎ (((connect_to theirs ls uid (some (i, l))).0 ≡ ok tt)
          × Connects theirs ls path uid (connect_to theirs ls uid (some (i, l))).1)
unfolding connect_to
guarded none ls path uid i l h = elim (Bool-cases (not (uid == l.owner) && not (uid == 0))) [
  | inl stranger ↦ inl (eperm, rw stranger)
  | inr allowed ↦ elim (Bool-cases (leb backlog_cap (length l.backlog))) [
    | inl full ↦ inl (ebusy, rw (allowed, full))
    | inr room ↦ inl (enomem, rw (allowed, room))
  ]
]
guarded (some e) ls path uid i l h = elim (Bool-cases (not (uid == l.owner) && not (uid == 0))) [
  | inl stranger ↦ inl (eperm, rw stranger)
  | inr allowed ↦ elim (Bool-cases (leb backlog_cap (length l.backlog))) [
    | inl full ↦ inl (ebusy, rw (allowed, full))
    | inr room ↦
        let (stands, path_there) = found-at path ls i l h in
        rw (allowed, room)
          (inr (
            refl,
            record {
              place = i;
              listener = l;
              endpoint = e;
              stands = stands;
              answers_there = path_there;
              permitted = ground arith;
              room = ground arith;
              memory = refl;
              queued = refl;
            },
          ))
  ]
]

connect_to-cases :
    (theirs : Option ℕ) (ls : List (Option Listener)) (path : List ℕ) (uid : ℕ)
    → (found : Option (ℕ × Listener)) → find_listener path ls ≡ found
    → ((r : Error) × (connect_to theirs ls uid found ≡ (err r, ls)))
      ⊎ (((connect_to theirs ls uid found).0 ≡ ok tt)
          × Connects theirs ls path uid (connect_to theirs ls uid found).1)
unfolding connect_to
connect_to-cases theirs ls path uid none h = inl (enoent, refl)
connect_to-cases theirs ls path uid (some (i, l)) h = guarded theirs ls path uid i l h

-- A connection is made only to the listener at the name, with room in its backlog, by root or by the
-- user that the listener belongs to, and its only effect on the listeners is that its endpoint is the
-- last one in that backlog. Otherwise an error is returned and nothing changes.
pub connect-Connects :
    (theirs : Option ℕ) (ls : List (Option Listener)) (path : List ℕ) (uid : ℕ)
    → ((r : Error) × (connect theirs ls path uid ≡ (err r, ls)))
      ⊎ (((connect theirs ls path uid).0 ≡ ok tt)
          × Connects theirs ls path uid (connect theirs ls path uid).1)
unfolding connect
connect-Connects theirs ls path uid =
    connect_to-cases theirs ls path uid (find_listener path ls) refl
