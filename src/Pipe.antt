-- ===== src/Pipe.antt =====
-- kernel/fs/pipe.c and kernel/include/pipe.h: anonymous pipes.
-- A `pipe_t *` is an `Option Pipe`, with `none` for NULL. A call that has to wait returns `blocked`
-- with what it has done so far; the scheduler resumes it by calling it again on the rest.
mod Calls
mod Stream
mod Refs
mod Tests
use wos.Prelude.{
  ℕ, zero, suc, ◌+◌, ◌-◌, List, [], ◌∷◌, Bool, true, false, ◌&&◌, ◌||◌, not, Option, none, some,
  ltb, ◌==◌, if◌then◌else◌, length,
}
use wos.Abi.{Result, ok, err, Error, ebadf, epipe}
use wos.Ring
use wos.Ring.{Ring, fill, drain}

-- The reference counts are `int`s, which a release too many takes below zero.
pub data ℤ : Type 0 where
  pos : ℕ → ℤ
  negsuc : ℕ → ℤ

abbrev pub incr : ℤ → ℤ
incr (pos n) = pos (suc n)
incr (negsuc zero) = pos 0
incr (negsuc (suc n)) = negsuc n

abbrev pub decr : ℤ → ℤ
decr (pos zero) = negsuc 0
decr (pos (suc n)) = pos n
decr (negsuc n) = negsuc (suc n)

-- `x > 0`
abbrev pub is_pos : ℤ → Bool
is_pos (pos zero) = false
is_pos (pos (suc n)) = true
is_pos (negsuc n) = false

-- PIPE_CAP
abbrev pub cap : ℕ
cap = 4096

-- `struct pipe`: the buffer with `head`, `tail` and `count` is a ring of bytes.
pub record Pipe : Type 0 where
  pub used : Bool
  pub ring : Ring ℕ
  pub readers : ℤ
  pub writers : ℤ

-- `memory` says whether `kzalloc` finds room.
unfoldable pub create : (memory : Bool) → Option Pipe
create false = none
create true = some (record { used = true; ring = Ring.empty 0; readers = pos 1; writers = pos 1 })

unfoldable pub ref : Option Pipe → (write_end : Bool) → Option Pipe
ref none write_end = none
ref (some p) true = some (record p { writers = incr p.writers })
ref (some p) false = some (record p { readers = incr p.readers })

-- The pipe after `kfree` is gone.
free_unused : Pipe → Option Pipe
free_unused p = if not (is_pos p.readers) && not (is_pos p.writers) then none else some p

unfoldable pub unref : Option Pipe → (write_end : Bool) → Option Pipe
unfolding free_unused
unref none write_end = none
unref (some p) true = free_unused (record p { writers = decr p.writers })
unref (some p) false = free_unused (record p { readers = decr p.readers })

-- `woken` tells whether the call made `sched_wake(WAIT_PIPE)`.
pub data Read : Type 0 where
  blocked : Read
  failed : Error → Read
  done : List ℕ → (after : Pipe) → (woken : Bool) → Read

read_some : Pipe → ℕ → Read
read_some p len =
    let (bytes, ring) = drain cap len p.ring in done bytes (record p { ring = ring }) true

unfoldable pub read : Option Pipe → (len : ℕ) → Read
unfolding read_some
read none len = failed ebadf
read (some p) len =
    if len == 0
    then done [] p false
    else if (p.ring.count == 0) && is_pos p.writers
    then blocked
    else if p.ring.count == 0
    then done [] p false
    else read_some p len

-- A writer that waits keeps the bytes that are left and the number written.
pub data Write : Type 0 where
  out_of_fuel : Write
  failed : Error → Write
  blocked : (after : Pipe) (rest : List ℕ) (n : ℕ) → Write
  done : (after : Pipe) → Result ℕ → Write

-- `return n > 0 ? (int)n : -W_EPIPE`
abbrev pub broken : ℕ → Result ℕ
broken n = if ltb 0 n then ok n else err epipe

-- `while (n < len)`, entered with the bytes from position `n` on.
unfoldable pub write_loop : (fuel : ℕ) → Pipe → (rest : List ℕ) → (n : ℕ) → Write
write_loop zero p rest n = out_of_fuel
write_loop (suc fuel) p [] n = done p (ok n)
write_loop (suc fuel) p (x ∷ xs) n =
    let more : Write =
      let (left, ring) = fill cap (x ∷ xs) p.ring in
      write_loop fuel (record p { ring = ring }) left (n + (suc (length xs) - length left)) in
    if not (is_pos p.readers)
    then done p (broken n)
    else if p.ring.count == cap
    then blocked p (x ∷ xs) n
    else more

-- Each round but the last fills the ring or uses up the input, so three rounds are enough.
unfoldable pub write : Option Pipe → List ℕ → Write
unfolding write_loop
write none bytes = failed ebadf
write (some p) bytes = write_loop 3 p bytes 0

unfoldable pub pollin : Option Pipe → Bool
pollin none = true
pollin (some p) = ltb 0 p.ring.count || not (is_pos p.writers)

unfoldable pub pollout : Option Pipe → Bool
pollout none = true
pollout (some p) = ltb p.ring.count cap || not (is_pos p.readers)
