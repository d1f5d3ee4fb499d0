-- ===== src/Socket/Stream.antt =====
-- kernel/fs/socket.c: the bytes that `socket_send` moves.
use wos.Prelude.{
  ℕ, suc, ◌+◌, ◌-◌, ◌%◌, ◌^◌, ◌<◌, ◌≤◌, ◌≡◌, ◌≢◌, ◌⊎◌, refl, sym, ap, subst, ◌∙◌, inl, inr, List,
  [], ◌∷◌, ◌++◌, Bool, true, false, length, length-append, arith, append-nil, Bool-cases, ltb, ◌==◌,
}
use wos.Abi.{ok, err, epipe}
use wos.Ring.{Ring, fill, contents, Inv}
use wos.Ring.Laws.{Fills, fill-Fills, length-contents}
use wos.Socket.{Dir, Send, cap, fd_cap, write_chunk, send, send_loop, pollout, queue_fds}

-- The bytes `xs`, from position `n` on, moved into `d` up to `rest` and position `m`.
pub record Moved (d : Dir) (xs : List ℕ) (n : ℕ) (q : Dir) (rest : List ℕ) (m : ℕ) : Type 0 where
  pub taken : List ℕ
  pub split : xs ≡ taken ++ rest
  pub stored : contents cap q.bytes ≡ contents cap d.bytes ++ taken
  pub position : m ≡ n + length taken
  pub written_on : q.written ≡ (d.written + length taken) % 2 ^ 64
  pub read_kept : q.read ≡ d.read
  pub fds_kept : q.fds ≡ d.fds
  pub valid : Inv cap q.bytes

-- All bytes are in, or the sender waits with a full buffer and bytes left, or the peer is gone and
-- nothing was moved by this call.
abbrev pub Sends : (gone : Bool) → Dir → List ℕ → ℕ → Send → Type 0
Sends gone d xs n Send.out_of_fuel = ⊥
Sends gone d xs n Send.blocked_fds = ⊥
Sends gone d xs n (Send.blocked q rest m) =
    Moved d xs n q rest m × (q.bytes.count ≡ cap) × (rest ≢ []) × (gone ≡ false)
Sends gone d xs n (Send.done q (ok m)) =
    Moved d xs n q [] m ⊎ ((q ≡ d) × (m ≡ n) × (0 < n) × (gone ≡ true) × (xs ≢ []))
Sends gone d xs n (Send.done q (err e)) =
    (q ≡ d) × (e ≡ epipe) × (n ≡ 0) × (gone ≡ true) × (xs ≢ [])

nothing-Moved :
    (d : Dir) (xs : List ℕ) (n : ℕ) → Inv cap d.bytes → d.written < 2 ^ 64 → Moved d xs n d xs n
nothing-Moved d xs n v small = record {
  taken = [];
  split = refl;
  stored = sym (append-nil _);
  position = omega arith;
  written_on = omega arith;
  read_kept = refl;
  fds_kept = refl;
  valid = v;
}

-- What the loop does where nothing is left to do.
abbrev settled : Dir → List ℕ → ℕ → Send
settled d [] n = Send.done d (ok n)
settled d (x ∷ xs) n = Send.blocked d (x ∷ xs) n

send_loop-settled :
    (fuel : ℕ) (d : Dir) (xs : List ℕ) (n : ℕ)
    → (xs ≡ []) ⊎ (d.bytes.count ≡ cap)
    → send_loop (suc fuel) false d xs n ≡ settled d xs n
unfolding send_loop
send_loop-settled fuel d [] n stop = refl
send_loop-settled fuel d (x ∷ xs) n (inl e) = cc
send_loop-settled fuel d (x ∷ xs) n (inr e) = rw e

settled-Sends :
    (d q : Dir) (xs rest : List ℕ) (n m : ℕ)
    → (rest ≡ []) ⊎ (q.bytes.count ≡ cap)
    → Moved d xs n q rest m
    → Sends false d xs n (settled q rest m)
settled-Sends d q xs [] n m stop moved = inl moved
settled-Sends d q xs (y ∷ ys) n m (inl e) moved = cc
settled-Sends d q xs (y ∷ ys) n m (inr e) moved = (moved, e, λ c. cc, refl)

-- The direction after one filling of its buffer.
abbrev filled : Dir → List ℕ → Dir
filled d xs =
    let (left, ring) = fill cap xs d.bytes in
    record d { bytes = ring; written = (d.written + (length xs - length left)) % 2 ^ 64 }

filled-Moved :
    (d : Dir) (xs : List ℕ) (n : ℕ)
    → Inv cap d.bytes
    → Moved d xs n
        (filled d xs)
        (fill cap xs d.bytes).0
        (n + (length xs - length (fill cap xs d.bytes).0))
filled-Moved d xs n v =
    let f = fill-Fills cap xs d.bytes v in
    let moved : length xs - length (fill cap xs d.bytes).0 ≡ length f.taken =
      omega (arith, ap length f.split, length-append f.taken (fill cap xs d.bytes).0) in
    record {
      taken = f.taken;
      split = f.split;
      stored = f.stored;
      position = ap (λ (k : ℕ). n + k) moved;
      written_on = ap (λ (k : ℕ). (d.written + k) % 2 ^ 64) moved;
      read_kept = refl;
      fds_kept = refl;
      valid = f.valid;
    }

-- On a well-formed buffer and with two rounds or more, a send, or a send resumed with the bytes from
-- some position on, never runs out of rounds. It ends with all bytes in the buffer, in order and
-- behind those already there, and counted in `written`; or it waits, which it does only with a full
-- buffer, bytes left and a peer; or the peer is gone, and then it moves nothing and reports the bytes
-- sent so far, or EPIPE if none. It touches neither the descriptors nor the count of bytes read.
pub send_loop-Sends :
    (fuel : ℕ) (gone : Bool) (d : Dir) (xs : List ℕ) (n : ℕ)
    → Inv cap d.bytes
    → d.written < 2 ^ 64
    → Sends gone d xs n (send_loop (suc (suc fuel)) gone d xs n)
unfolding send_loop
send_loop-Sends fuel gone d [] n v small = inl (nothing-Moved d [] n v small)
send_loop-Sends fuel true d (x ∷ xs) n v small = elim (Bool-cases (ltb 0 n)) [
  | inl some_sent ↦ rw some_sent (inr (refl, refl, ground arith, refl, λ e. cc))
  | inr none_sent ↦ rw none_sent (refl, refl, ground arith, refl, λ e. cc)
]
send_loop-Sends fuel false d (x ∷ xs) n v small = elim (Bool-cases (d.bytes.count == cap)) [
  | inl full ↦ rw full (nothing-Moved d (x ∷ xs) n v small, ground arith, (λ e. cc), refl)
  | inr room ↦
      let f = fill-Fills cap (x ∷ xs) d.bytes v in
      let left = (fill cap (x ∷ xs) d.bytes).0 in
      rw room (
        subst (Sends false d (x ∷ xs) n)
          (sym (
            send_loop-settled fuel (filled d (x ∷ xs)) left (n + (suc (length xs) - length left))
              f.stopped))
          (settled-Sends d (filled d (x ∷ xs)) (x ∷ xs) left n (n + (suc (length xs) - length left))
            f.stopped (filled-Moved d (x ∷ xs) n v)))
]

-- What a whole send came to: the bytes are in the buffer, and all are counted.
pub record SendsAll (d : Dir) (bytes : List ℕ) (r : Send) : Type 0 where
  pub after : Dir
  pub result : r ≡ Send.done after (ok (length bytes))
  pub stored : contents cap after.bytes ≡ contents cap d.bytes ++ bytes

fits-nil :
    (taken rest : List ℕ) (xs : List ℕ) → xs ≡ taken ++ rest → length xs ≤ length taken → rest ≡ []
fits-nil taken [] xs e h = refl
fits-nil taken (y ∷ ys) xs e h = absurd (omega (arith, ap length e, length-append taken (y ∷ ys)))

room-nil :
    (d : Dir) (xs : List ℕ)
    → Inv cap d.bytes
    → d.bytes.count + length xs ≤ cap
    → (fill cap xs d.bytes).0 ≡ []
room-nil d xs v h =
    let f = fill-Fills cap xs d.bytes v in
    elim f.stopped [
      | inl e ↦ e
      | inr full ↦ fits-nil f.taken (fill cap xs d.bytes).0 xs f.split (
          omega (
            arith,
            full,
            ap length f.stored,
            length-append (contents cap d.bytes) f.taken,
            length-contents cap d.bytes,
            length-contents cap (fill cap xs d.bytes).1,
          ))
    ]

send_loop-nil :
    (fuel : ℕ) (q : Dir) (rest : List ℕ) (n m : ℕ)
    → rest ≡ []
    → n ≡ m
    → send_loop (suc fuel) false q rest n ≡ Send.done q (ok m)
unfolding send_loop
send_loop-nil fuel q [] n m e same = rw same
send_loop-nil fuel q (x ∷ xs) n m e same = absurd (ground arith)

all_stored :
    (d : Dir) (xs rest : List ℕ) (q : Ring ℕ)
    → Fills cap xs d.bytes rest q
    → rest ≡ []
    → contents cap q ≡ contents cap d.bytes ++ xs
all_stored d xs rest q f e =
    f.stored
    ∙ ap (λ (t : List ℕ). contents cap d.bytes ++ t)
        (sym (f.split ∙ ap (λ (t : List ℕ). f.taken ++ t) e ∙ append-nil f.taken))

send_loop-room :
    (d : Dir) (bytes : List ℕ)
    → Inv cap d.bytes
    → d.bytes.count + length bytes ≤ cap
    → SendsAll d bytes (send_loop 3 false d bytes 0)
unfolding send_loop
send_loop-room d [] v h = record { after = d; result = refl; stored = sym (append-nil _) }
send_loop-room d (x ∷ xs) v h =
    let room : (d.bytes.count == cap) ≡ false = ground arith in
    let left = (fill cap (x ∷ xs) d.bytes).0 in
    let none_left : left ≡ [] = room-nil d (x ∷ xs) v h in
    let f = fill-Fills cap (x ∷ xs) d.bytes v in
    rw room (record {
      after = filled d (x ∷ xs);
      result =
          send_loop-nil 1 (filled d (x ∷ xs)) left (0 + (suc (length xs) - length left))
            (suc (length xs)) none_left (rw none_left (omega arith));
      stored = all_stored d (x ∷ xs) left (fill cap (x ∷ xs) d.bytes).1 f none_left;
    })

send-no_fds :
    (d : Dir) (refs : ℕ → ℕ) (bytes : List ℕ)
    → (send false d refs bytes []).0 ≡ send_loop 3 false d bytes 0
unfolding send queue_fds
send-no_fds d refs bytes = let fits : ltb (fd_cap - d.fds.count) 0 ≡ false = ground arith in rw fits

-- What a poll promises: after W_POLLOUT on a connection whose peer is there, a send of up to
-- W_SEND_CHUNK bytes, with no descriptors, does not wait and puts all its bytes into the buffer.
pub pollout-SendsAll :
    (d : Dir) (refs : ℕ → ℕ) (bytes : List ℕ)
    → Inv cap d.bytes
    → pollout false d ≡ true
    → length bytes ≤ write_chunk
    → SendsAll d bytes (send false d refs bytes []).0
unfolding pollout
pollout-SendsAll d refs bytes v ready small =
    subst (SendsAll d bytes) (sym (send-no_fds d refs bytes))
      (send_loop-room d bytes v (ground arith))
