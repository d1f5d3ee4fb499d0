-- ===== src/Socket.antt =====
-- kernel/fs/socket.c and kernel/include/socket.h: local sockets, byte streams that carry descriptors.
-- `Dir` is one direction of a connection: its two rings and its two cumulative counts. A file is a
-- number; the references to it are what `vfs_fd_retain` and `vfs_fd_drop` count. A call that has to
-- wait returns `blocked` and is resumed on what is left.
mod Names
mod Listeners
mod Stream
mod Descriptors
mod Tests
use wos.Prelude.{
  ℕ, zero, suc, ◌+◌, ◌-◌, ◌%◌, ◌^◌, List, [], ◌∷◌, ◌++◌, Bool, true, false, not, ◌&&◌, ◌||◌, Option,
  none, some, length, set, update, ltb, leb, ◌==◌, if◌then◌else◌,
}
use wos.Abi.{
  Error, eperm, enoent, ebadf, enomem, ebusy, eexist, einval, enfile, epipe, Result, ok, err,
}
use wos.Bytes.{str_eq, strlcpy}
use wos.Ring.{Ring, put, advance, fill, drain}

-- SOCK_CAP, SOCK_FD_CAP, SOCK_WRITE_CHUNK, SOCK_BACKLOG and MAX_LISTENERS.
abbrev pub cap : ℕ
cap = 4096

abbrev pub fd_cap : ℕ
fd_cap = 28

abbrev pub write_chunk : ℕ
write_chunk = 1024

abbrev pub backlog_cap : ℕ
backlog_cap = 8

abbrev pub max_listeners : ℕ
max_listeners = 8

-- `sock_fd_t`
pub record Fd : Type 0 where
  pub file : ℕ
  pub at : ℕ

-- `sock_dir_t`
pub record Dir : Type 0 where
  pub bytes : Ring ℕ
  pub written : ℕ
  pub read : ℕ
  pub fds : Ring Fd

-- The loop over `fds` in `socket_send`, with the references that it takes.
unfoldable pub queue_fds : (at : ℕ) → List ℕ → Ring Fd × (ℕ → ℕ) → Ring Fd × (ℕ → ℕ)
queue_fds at [] s = s
queue_fds at (f ∷ fs) (ring, refs) =
    queue_fds at fs (put fd_cap (record { file = f; at = at }) ring, update refs f (refs f + 1))

pub data Send : Type 0 where
  out_of_fuel : Send
  blocked_fds : Send
  blocked : (after : Dir) (rest : List ℕ) (n : ℕ) → Send
  done : (after : Dir) → Result ℕ → Send

-- `return n > 0 ? (int)n : -W_EPIPE`
abbrev pub broken : ℕ → Result ℕ
broken n = if ltb 0 n then ok n else err epipe

-- `while (n < len)`, entered with the bytes from position `n` on. `gone` is `peer_gone(s)`.
unfoldable pub send_loop : (fuel : ℕ) → (gone : Bool) → Dir → (rest : List ℕ) → (n : ℕ) → Send
send_loop zero gone d rest n = out_of_fuel
send_loop (suc fuel) gone d [] n = done d (ok n)
send_loop (suc fuel) gone d (x ∷ xs) n =
    let more : Send =
      let (left, ring) = fill cap (x ∷ xs) d.bytes in
      let moved = suc (length xs) - length left in
      send_loop fuel gone (record d { bytes = ring; written = (d.written + moved) % 2 ^ 64 }) left
        (n + moved) in
    if gone then done d (broken n) else if d.bytes.count == cap then blocked d (x ∷ xs) n else more

-- `socket_send` on a connected endpoint; `refs` counts the references to each file. Each round but
-- the last fills the ring or uses up the input, so three rounds are enough.
unfoldable pub send : (gone : Bool) → Dir → (refs : ℕ → ℕ) → (bytes fds : List ℕ) → Send × (ℕ → ℕ)
send gone d refs bytes fds =
    if ltb fd_cap (length fds)
    then (done d (err einval), refs)
    else if ltb (fd_cap - d.fds.count) (length fds)
    then (if gone then done d (err epipe) else blocked_fds, refs)
    else let (ring, refs') = queue_fds ((d.written + length bytes) % 2 ^ 64) fds (d.fds, refs) in
      (send_loop 3 gone (record d { fds = ring }) bytes 0, refs')

-- The loop that hands over descriptors, at most `want`, whose place was read past.
unfoldable pub take_fds : (want : ℕ) → (read : ℕ) → Ring Fd → List ℕ × Ring Fd
take_fds zero read ring = ([], ring)
take_fds (suc want) read ring =
    let fd = ring.buf ring.tail in
    let more = take_fds want read (advance fd_cap ring) in
    if ltb 0 ring.count && leb fd.at read then (fd.file ∷ more.0, more.1) else ([], ring)

pub data Recv : Type 0 where
  blocked : Recv
  done : (bytes fds : List ℕ) (after : Dir) → Recv

abbrev pub recv_some : Dir → (len want : ℕ) → Recv
recv_some d len want =
    let (taken, ring) = drain cap len d.bytes in
    let read = (d.read + length taken) % 2 ^ 64 in
    let (files, fds) = take_fds want read d.fds in
    done taken files (record d { bytes = ring; read = read; fds = fds })

unfoldable pub recv : (gone : Bool) → Dir → (len want : ℕ) → Recv
recv gone d len want =
    if (d.bytes.count == 0) && ((d.fds.count == 0) && not gone)
    then blocked
    else recv_some d len want

-- The descriptors that were never delivered are given back, on fuel. `drop` is `vfs_fd_drop`: it may
-- free what the descriptor refers to, with all that this gives back in turn, so it works on this queue and
-- all other state `W`.
unfoldable pub drop_queued_fds :
    {W : Type 0} → (drop : ℕ → Ring Fd × W → Ring Fd × W) → (fuel : ℕ) → Ring Fd × W → Ring Fd × W
drop_queued_fds drop zero s = s
drop_queued_fds drop (suc fuel) s =
    let t = drop (s.0.buf s.0.tail).file s in
    let rest = drop_queued_fds drop fuel (advance fd_cap t.0, t.1) in
    if ltb 0 s.0.count then rest else s

-- Readiness of a connected endpoint; `inward` and `outward` are its two directions.
unfoldable pub pollin : (gone : Bool) → (inward : Dir) → Bool
pollin gone d = ltb 0 d.bytes.count || (ltb 0 d.fds.count || gone)

unfoldable pub pollout : (gone : Bool) → (outward : Dir) → Bool
pollout gone d = gone || leb (d.bytes.count + write_chunk) cap

unfoldable pub hungup : (gone : Bool) → (inward : Dir) → Bool
hungup gone d = gone && ((d.bytes.count == 0) && (d.fds.count == 0))

-- A listener: where it answers, for whom, and the endpoints that wait to be accepted.
pub record Listener : Type 0 where
  pub path : List ℕ
  pub owner : ℕ
  pub backlog : List ℕ

abbrev pub answers : List ℕ → Option Listener → Bool
answers path none = false
answers path (some l) = str_eq l.path path

abbrev pub shift : {A : Type 0} → Option (ℕ × A) → Option (ℕ × A)
shift none = none
shift (some (i, a)) = some (suc i, a)

-- `find_listener`, with the place of the listener.
unfoldable pub find_listener : List ℕ → List (Option Listener) → Option (ℕ × Listener)
find_listener path [] = none
find_listener path (none ∷ ls) = shift (find_listener path ls)
find_listener path (some l ∷ ls) =
    let later = shift (find_listener path ls) in if str_eq l.path path then some (0, l) else later

unfoldable pub find_slot : List (Option Listener) → Option ℕ
find_slot [] = none
find_slot (none ∷ ls) = some 0
find_slot (some l ∷ ls) = elim (find_slot ls) [ none ↦ none | some i ↦ some (suc i) ]

-- `memory` says whether `socket_alloc` finds room. W_PATH_MAX + 1 is 256.
pub listen_at :
    (memory : Bool)
    → List (Option Listener)
    → (path : List ℕ) → (owner : ℕ) → (taken : Option (ℕ × Listener)) (slot : Option ℕ)
    → Result ℕ × List (Option Listener)
listen_at memory ls path owner (some _) slot = (err eexist, ls)
listen_at memory ls path owner none none = (err enfile, ls)
listen_at false ls path owner none (some i) = (err enomem, ls)
listen_at true ls path owner none (some i) =
    (ok i, set ls i (some (record { path = strlcpy path 256; owner = owner; backlog = [] })))

pub listen :
    (memory : Bool)
    → List (Option Listener)
    → (path : List ℕ) → (owner : ℕ) → Result ℕ × List (Option Listener)
listen memory ls path owner = listen_at memory ls path owner (find_listener path ls) (find_slot ls)

-- `theirs` is the endpoint that is queued, if there is memory for the connection and both its ends.
pub connect_to :
    (theirs : Option ℕ)
    → List (Option Listener)
    → (uid : ℕ) → Option (ℕ × Listener)
    → Result (Unit {0}) × List (Option Listener)
connect_to theirs ls uid none = (err enoent, ls)
connect_to none ls uid (some (i, l)) =
    if not (uid == l.owner) && not (uid == 0)
    then (err eperm, ls)
    else if leb backlog_cap (length l.backlog)
    then (err ebusy, ls)
    else (err enomem, ls)
connect_to (some e) ls uid (some (i, l)) =
    if not (uid == l.owner) && not (uid == 0)
    then (err eperm, ls)
    else if leb backlog_cap (length l.backlog)
    then (err ebusy, ls)
    else (ok tt, set ls i (some (record l { backlog = l.backlog ++ e ∷ [] })))

pub connect :
    (theirs : Option ℕ)
    → List (Option Listener)
    → (path : List ℕ) → (uid : ℕ) → Result (Unit {0}) × List (Option Listener)
connect theirs ls path uid = connect_to theirs ls uid (find_listener path ls)

pub data Accept : Type 0 where
  blocked : Accept
  done : (endpoint : ℕ) (after : Listener) → Accept

unfoldable pub accept_from : Listener → List ℕ → Accept
accept_from l [] = blocked
accept_from l (e ∷ es) = done e (record l { backlog = es })

unfoldable pub accept : Listener → Accept
accept l = accept_from l l.backlog

-- What the last release of a listener does to the table.
abbrev pub unlisten : List (Option Listener) → (i : ℕ) → List (Option Listener)
unlisten ls i = set ls i none
