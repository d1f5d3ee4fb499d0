-- ===== src/Socket/Descriptors.antt =====
-- kernel/fs/socket.c: the descriptors that travel with the bytes.
use wos.Prelude.{
  ℕ, zero, suc, ◌+◌, ◌-◌, ◌%◌, ◌^◌, ◌<◌, ◌≤◌, ◌≡◌, ◌⊎◌, refl, sym, ap, subst, ◌∙◌, inl, inr, List,
  [], ◌∷◌, ◌++◌, Bool, true, false, not, ◌&&◌, map, length, arith, append-nil, append_assoc,
  Bool-cases, ltb, leb, ◌==◌, if◌then◌else◌, update, min,
}
use wos.Ring.{Ring, put, advance, drain, contents, Inv}
use wos.Ring.Laws.{
  contents-put, put-Inv, contents-advance, advance-Inv, length-contents, drain-contents,
}
use wos.Abi.{ok, err}
use wos.Socket.Stream.{Sends, send_loop-Sends}
use wos.Socket.{
  Dir, Fd, Recv, Send, send, send_loop, cap, fd_cap, take_fds, queue_fds, drop_queued_fds, recv,
}

abbrev pub AllRead : (read : ℕ) → List Fd → Type 0
AllRead read [] = Unit {0}
AllRead read (fd ∷ fds) = (fd.at ≤ read) × AllRead read fds

-- The first descriptor, if there is one, was sent with bytes that are not read yet.
abbrev pub StillUnread : (read : ℕ) → List Fd → Type 0
StillUnread read [] = Unit {0}
StillUnread read (fd ∷ fds) = read < fd.at

-- The oldest descriptors are handed over, in order, each after the last byte it was sent with; and it
-- stops only at the number asked for or at one whose bytes are not read yet.
pub record Takes (want read : ℕ) (before : Ring Fd) (files : List ℕ) (after : Ring Fd)
    : Type 0 where
  pub taken : List Fd
  pub handed : files ≡ map (λ (fd : Fd). fd.file) taken
  pub split : contents fd_cap before ≡ taken ++ contents fd_cap after
  pub all_read : AllRead read taken
  pub stopped : (length taken ≡ want) ⊎ StillUnread read (contents fd_cap after)
  pub few : length taken ≤ want
  pub valid : Inv fd_cap after

nil-StillUnread : (read : ℕ) (fds : List Fd) → length fds ≡ 0 → StillUnread read fds
nil-StillUnread read [] h = tt
nil-StillUnread read (fd ∷ fds) h = absurd (omega arith)

empty-StillUnread :
    (read : ℕ) (ring : Ring Fd)
    → Inv fd_cap ring
    → (ltb 0 ring.count && leb (ring.buf ring.tail).at read) ≡ false
    → StillUnread read (contents fd_cap ring)
empty-StillUnread read ring v h = elim (Bool-cases (ltb 0 ring.count)) [
  | inl some_left ↦ rw (contents-advance fd_cap ring (ground arith)) (ground arith)
  | inr none_left ↦
      nil-StillUnread read (contents fd_cap ring) (ground (arith, length-contents fd_cap ring))
]

take_fds-Takes :
    (want read : ℕ) (ring : Ring Fd)
    → Inv fd_cap ring
    → Takes want read ring (take_fds want read ring).0 (take_fds want read ring).1
unfolding take_fds
take_fds-Takes zero read ring v = record {
  taken = [];
  handed = refl;
  split = refl;
  all_read = tt;
  stopped = inl refl;
  few = omega arith;
  valid = v;
}
take_fds-Takes (suc want) read ring v =
    elim (Bool-cases (ltb 0 ring.count && leb (ring.buf ring.tail).at read)) [
      | inr stop ↦ rw stop (record {
        taken = [];
        handed = refl;
        split = refl;
        all_read = tt;
        stopped = inr (empty-StillUnread read ring v stop);
        few = omega arith;
        valid = v;
      })
      | inl go ↦
          let rest =
            take_fds-Takes want read (advance fd_cap ring)
              (advance-Inv fd_cap ring v (ground arith)) in
          let fd = ring.buf ring.tail in
          rw go (record {
            taken = fd ∷ rest.taken;
            handed = ap (λ (l : List ℕ). fd.file ∷ l) rest.handed;
            split =
                contents-advance fd_cap ring (ground arith)
                ∙ ap (λ (l : List Fd). fd ∷ l) rest.split;
            all_read = (ground arith, rest.all_read);
            stopped = elim rest.stopped [ inl e ↦ inl (ap suc e) | inr u ↦ inr u ];
            few = omega (arith, rest.few);
            valid = rest.valid;
          })
    ]

-- How often `f` stands in a list of files.
unfoldable pub times : (f : ℕ) → List ℕ → ℕ
times f [] = 0
times f (g ∷ gs) = let more = times f gs in if f == g then suc more else more

queue_fds-refs :
    (at : ℕ) (fs : List ℕ) (ring : Ring Fd) (refs : ℕ → ℕ) (f : ℕ)
    → (queue_fds at fs (ring, refs)).1 f ≡ refs f + times f fs
unfolding queue_fds times update
queue_fds-refs at [] ring refs f = omega arith
queue_fds-refs at (g ∷ gs) ring refs f = ground (
  arith,
  queue_fds-refs at gs (put fd_cap (record { file = g; at = at }) ring) (update refs g (refs g + 1))
      f,
)

counted :
    (fd : Fd) (ring : Ring Fd) (n : ℕ)
    → ring.count + suc n ≤ fd_cap
    → (put fd_cap fd ring).count + n ≤ fd_cap
unfolding put
counted fd ring n h = omega arith

queue_fds-contents :
    (at : ℕ) (fs : List ℕ) (ring : Ring Fd) (refs : ℕ → ℕ)
    → Inv fd_cap ring
    → ring.count + length fs ≤ fd_cap
    → (contents fd_cap (queue_fds at fs (ring, refs)).0
        ≡ contents fd_cap ring ++ map (λ (f : ℕ). record { file = f; at = at }) fs)
      × Inv fd_cap (queue_fds at fs (ring, refs)).0
unfolding queue_fds
queue_fds-contents at [] ring refs v h = (sym (append-nil _), v)
queue_fds-contents at (g ∷ gs) ring refs v h =
    let fd : Fd = record { file = g; at = at } in
    let (stored, valid) =
      queue_fds-contents at gs (put fd_cap fd ring) (update refs g (refs g + 1))
        (put-Inv fd_cap fd ring v (omega arith)) (counted fd ring (length gs) h) in
    (stored ∙ rw (contents-put fd_cap fd ring v (omega arith)) (append_assoc _ (fd ∷ []) _), valid)

abbrev pub files_of : Ring Fd → List ℕ
files_of ring = map (λ (fd : Fd). fd.file) (contents fd_cap ring)

files-none : (ring : Ring Fd) → ring.count ≡ 0 → files_of ring ≡ []
files-none ring h = nil (contents fd_cap ring) (omega (arith, length-contents fd_cap ring))
  where
    nil : (fds : List Fd) → length fds ≡ 0 → map (λ (fd : Fd). fd.file) fds ≡ []
    nil [] h = refl
    nil (fd ∷ fds) h = absurd (omega arith)

files-some :
    (ring : Ring Fd)
    → 0 < ring.count
    → files_of ring ≡ (ring.buf ring.tail).file ∷ files_of (advance fd_cap ring)
files-some ring h = ap (map (λ (fd : Fd). fd.file)) (contents-advance fd_cap ring h)

-- Each file is released in turn.
abbrev pub release_all : {W : Type 0} → (ℕ → W → W) → List ℕ → W → W
release_all release [] w = w
release_all release (f ∷ fs) w = release_all release fs (release f w)

-- Giving back one of the files releases it and leaves the queue alone.
abbrev pub LeavesQueue :
    {W : Type 0} → (ℕ → Ring Fd × W → Ring Fd × W) → (ℕ → W → W) → List ℕ → Type 0
LeavesQueue {W} drop release [] = Unit {0}
LeavesQueue {W} drop release (f ∷ fs) =
    ((ring : Ring Fd) (w : W) → drop f (ring, w) ≡ (ring, release f w))
    × LeavesQueue drop release fs

fewer : (fuel : ℕ) (ring : Ring Fd) → ring.count ≤ suc fuel → (advance fd_cap ring).count ≤ fuel
unfolding advance
fewer fuel ring h = omega arith

-- Where giving back each queued file releases it and leaves this queue alone: as many rounds as there
-- are queued files empty the queue, and afterwards the files in it have been released once each, the
-- oldest first, and nothing else has been done.
pub drop_queued_fds-releases :
    {W : Type 0} (drop : ℕ → Ring Fd × W → Ring Fd × W) (release : ℕ → W → W) (fuel : ℕ)
    → (ring : Ring Fd) (w : W) → LeavesQueue drop release (files_of ring)
    → ring.count ≤ fuel
    → ((drop_queued_fds drop fuel (ring, w)).0.count ≡ 0)
      × ((drop_queued_fds drop fuel (ring, w)).1 ≡ release_all release (files_of ring) w)
unfolding drop_queued_fds
drop_queued_fds-releases drop release zero ring w leaves le =
    let none_left : ring.count ≡ 0 = omega arith in (none_left, rw (files-none ring none_left) refl)
drop_queued_fds-releases {W} drop release (suc fuel) ring w leaves le =
    elim (Bool-cases (ltb 0 ring.count)) [
      | inr empty ↦
          let none_left : ring.count ≡ 0 = ground arith in
          rw empty (none_left, rw (files-none ring none_left) refl)
      | inl more ↦
          let all = files-some ring (ground arith) in
          let leaves' = subst (LeavesQueue drop release) all leaves in
          let g = (ring.buf ring.tail).file in
          let later =
            drop_queued_fds-releases drop release fuel (advance fd_cap ring) (release g w) leaves'.1
              (fewer fuel ring le) in
          let this : drop g (ring, w) ≡ (ring, release g w) = leaves'.0 ring w in
          rw (more, all, this) later
    ]

-- A receive waits exactly on an empty direction whose peer is there. Otherwise it takes the oldest
-- bytes, as many as are asked for and there are, counts them in `read`, and hands over descriptors.
abbrev pub Receives : (gone : Bool) → Dir → (len want : ℕ) → Recv → Type 0
Receives gone d len want Recv.blocked = (d.bytes.count ≡ 0) × (d.fds.count ≡ 0) × (gone ≡ false)
Receives gone d len want (Recv.done bytes files q) =
    ((0 < d.bytes.count) ⊎ ((0 < d.fds.count) ⊎ (gone ≡ true)))
    × (contents cap d.bytes ≡ bytes ++ contents cap q.bytes)
    × (length bytes ≡ min len d.bytes.count)
    × (q.read ≡ (d.read + length bytes) % 2 ^ 64)
    × (q.written ≡ d.written)
    × Takes want q.read d.fds files q.fds
    × Inv cap q.bytes

-- On well-formed rings: a receive waits exactly if there is neither a byte nor a descriptor and the
-- peer is there. Otherwise it takes the oldest bytes, as many as are asked for and there are, and
-- counts them; and of the descriptors it hands over the oldest, in order, at most as many as are
-- asked for, each only when the last byte it was sent with is read. It keeps one back only if that
-- byte is not read yet, or enough are handed over.
pub recv-Receives :
    (gone : Bool) (d : Dir) (len want : ℕ)
    → Inv cap d.bytes
    → Inv fd_cap d.fds
    → Receives gone d len want (recv gone d len want)
unfolding recv
recv-Receives gone d len want v w =
    elim (Bool-cases ((d.bytes.count == 0) && ((d.fds.count == 0) && not gone))) [
      | inl empty ↦ rw empty (ground arith, ground arith, ground arith)
      | inr full ↦
          let (split, len_taken, valid, left) = drain-contents cap len d.bytes v in
          let read = (d.read + length (drain cap len d.bytes).0) % 2 ^ 64 in
          rw full
            (ground arith, split, len_taken, refl, refl, take_fds-Takes want read d.fds w, valid)
    ]

-- The direction that a send leaves behind.
abbrev pub left_by : Dir → Send → Dir
left_by d Send.out_of_fuel = d
left_by d Send.blocked_fds = d
left_by d (Send.blocked q rest m) = q
left_by d (Send.done q r) = q

Sends-fds :
    (before : Dir) (gone : Bool) (d : Dir) (xs : List ℕ) (n : ℕ) (r : Send)
    → Sends gone d xs n r
    → (left_by before r).fds ≡ d.fds
Sends-fds before gone d xs n Send.out_of_fuel h = absurd h
Sends-fds before gone d xs n Send.blocked_fds h = absurd h
Sends-fds before gone d xs n (Send.blocked q rest m) h = h.0.fds_kept
Sends-fds before gone d xs n (Send.done q (ok m)) (inl moved) = moved.fds_kept
Sends-fds before gone d xs n (Send.done q (ok m)) (inr same) = ap (λ (t : Dir). t.fds) same.0
Sends-fds before gone d xs n (Send.done q (err e)) h = ap (λ (t : Dir). t.fds) h.0

send-fits :
    (gone : Bool) (d : Dir) (refs : ℕ → ℕ) (bytes fds : List ℕ)
    → d.fds.count + length fds ≤ fd_cap
    → let queued = queue_fds ((d.written + length bytes) % 2 ^ 64) fds (d.fds, refs) in
      send gone d refs bytes fds
      ≡ (send_loop 3 gone (record d { fds = queued.0 }) bytes 0, queued.1)
unfolding send
send-fits gone d refs bytes fds h =
    let few : ltb fd_cap (length fds) ≡ false = ground arith in
    let room : ltb (fd_cap - d.fds.count) (length fds) ≡ false = ground arith in rw (few, room)

-- A send whose descriptors have room queues all of them, in order and behind those already there,
-- each to be delivered with the last byte of the message, and takes one reference for each; however
-- the bytes fare.
pub send-queues :
    (gone : Bool) (d : Dir) (refs : ℕ → ℕ) (bytes fds : List ℕ)
    → Inv cap d.bytes
    → Inv fd_cap d.fds
    → d.written < 2 ^ 64
    → d.fds.count + length fds ≤ fd_cap
    → (contents fd_cap (left_by d (send gone d refs bytes fds).0).fds
        ≡ contents fd_cap d.fds
          ++ map (λ (f : ℕ). record { file = f; at = (d.written + length bytes) % 2 ^ 64 }) fds)
      × ((f : ℕ) → (send gone d refs bytes fds).1 f ≡ refs f + times f fds)
send-queues gone d refs bytes fds v w small h =
    let place = (d.written + length bytes) % 2 ^ 64 in
    let queued = queue_fds place fds (d.fds, refs) in
    let d' = record d { fds = queued.0 } in
    let e = send-fits gone d refs bytes fds h in
    let kept =
      Sends-fds d gone d' bytes 0 (send_loop 3 gone d' bytes 0)
        (send_loop-Sends 1 gone d' bytes 0 v small) in
    (
      ap (λ (r : Send × (ℕ → ℕ)). contents fd_cap (left_by d r.0).fds) e
          ∙ ap (contents fd_cap) kept
          ∙ (queue_fds-contents place fds d.fds refs w h).0,
      λ f. ap (λ (r : Send × (ℕ → ℕ)). r.1 f) e ∙ queue_fds-refs place fds d.fds refs f,
    )
