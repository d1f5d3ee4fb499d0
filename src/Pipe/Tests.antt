-- ===== src/Pipe/Tests.antt =====
-- Runs of the pipe, and its theorems at concrete pipes.
use wos.Prelude.{◌≡◌, refl, inr, true, false, none, some, [], ◌∷◌, not, arith, update}
use wos.Abi.{err, epipe}
use wos.Ring
use wos.Ring.{Inv, put, fill, drain, advance, next, contents, window}
use wos.Pipe.{Pipe, pos, cap, Write, create, unref, read, write, write_loop, pollout}
use wos.Pipe.Calls.{Writes, Reads, write_loop-Writes, read-Reads}
use wos.Pipe.Stream.{here, then_step, writes, reads, InOrder, Reach-InOrder}
use wos.Pipe.Refs.{waits, pollout-write}

abbrev fresh : Pipe
fresh = record { used = true; ring = Ring.empty 0; readers = pos 1; writers = pos 1 }

-- Two bytes at the end of the array, the next write at its start.
abbrev wrapped : Pipe
wrapped = record fresh {
  ring = record { buf = update (update (λ _. 0) 4094 7) 4095 8; head = 0; tail = 4094; count = 2 };
}

wrapped-Inv : Inv cap wrapped.ring
wrapped-Inv = record {
  tail_in = omega arith;
  head_in = omega arith;
  count_in = omega arith;
  meets = inr (omega arith);
}

write_wraps : Writes wrapped (9 ∷ []) 0 (write (some wrapped) (9 ∷ []))
unfolding write
write_wraps = write_loop-Writes 1 wrapped (9 ∷ []) 0 wrapped-Inv

broken_pipe :
    write (some (record fresh { readers = pos 0 })) (1 ∷ [])
    ≡ Write.done (record fresh { readers = pos 0 }) (err epipe)
unfolding write
broken_pipe = refl

last_reference : unref (some (record fresh { writers = pos 0 })) false ≡ none
unfolding unref
last_reference = refl

write_loop-Writes_example : Writes wrapped (9 ∷ []) 0 (write_loop 3 wrapped (9 ∷ []) 0)
write_loop-Writes_example = write_loop-Writes 1 wrapped (9 ∷ []) 0 wrapped-Inv

read-Reads_example : Reads wrapped 1 (read (some wrapped) 1)
read-Reads_example = (read-Reads wrapped 1 wrapped-Inv).0

-- The pipe after the bytes 1 and 2 went in and 1 was read.
abbrev used_pipe : Pipe
used_pipe = record fresh { ring = advance cap (put cap 2 (put cap 1 fresh.ring)) }

Reach-InOrder_example : InOrder (record { pipe = used_pipe; sent = 1 ∷ 2 ∷ []; received = 1 ∷ [] })
unfolding create write_loop read fill drain
Reach-InOrder_example = Reach-InOrder fresh _ refl (
    then_step
      (then_step here
        (writes (1 ∷ 2 ∷ []) 0 2 (record fresh { ring = put cap 2 (put cap 1 fresh.ring) }) refl))
      (reads 1 (1 ∷ []) used_pipe true refl))

pollout-write_example : pollout (some wrapped) ≡ not (waits (write (some wrapped) (1 ∷ [])))
pollout-write_example = pollout-write wrapped 1 wrapped-Inv
