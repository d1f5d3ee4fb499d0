-- ===== src/Socket/Tests.antt =====
-- Runs of the sockets, and their theorems at concrete directions and tables.
use wos.Prelude.{
  ◌-◌, ℕ, ◌+◌, ◌%◌, ◌^◌, ◌≤◌, ◌≡◌, ◌⊎◌, refl, inl, inr, true, false, none, some, List, [], ◌∷◌,
  ◌++◌, Option, arith, map, update,
}
use wos.Abi.{Error, ok, err, eperm}
use wos.Ring
use wos.Ring.{Ring, Inv, contents, window, next}
use wos.Bytes.{str_eq}
use wos.Socket.Stream.{Sends, SendsAll, send_loop-Sends, pollout-SendsAll}
use wos.Socket.Descriptors.{
  Receives, recv-Receives, send-queues, drop_queued_fds-releases, release_all, times, files_of,
  left_by,
}
use wos.Socket.Names.{Orderly, Connects, connect-Connects}
use wos.Socket.Listeners.{here, then_step, listens, connects, Reach-Orderly}
use wos.Socket.{
  Dir, Listener, cap, fd_cap, send, send_loop, recv, drop_queued_fds, pollout, listen, connect,
  connect_to, find_listener,
}

abbrev quiet : Dir
quiet = record {
  bytes = Ring.empty 0;
  written = 0;
  read = 0;
  fds = Ring.empty (record { file = 0; at = 0 });
}

-- Two bytes that were sent with file 3, and one more with file 4.
abbrev busy : Dir
busy = record {
  bytes = record {
    buf = update (update (update (λ _. 0) 4095 7) 0 8) 1 9;
    head = 2;
    tail = 4095;
    count = 3;
  };
  written = 3;
  read = 0;
  fds = record {
    buf =
        update (update (λ _. record { file = 0; at = 0 }) 0 (record { file = 3; at = 2 })) 1
          (record { file = 4; at = 3 });
    head = 2;
    tail = 0;
    count = 2;
  };
}

quiet-Inv : Inv cap quiet.bytes × Inv fd_cap quiet.fds
quiet-Inv = (
  record {
    tail_in = omega arith;
    head_in = omega arith;
    count_in = omega arith;
    meets = inl (omega arith);
  },
  record {
    tail_in = omega arith;
    head_in = omega arith;
    count_in = omega arith;
    meets = inl (omega arith);
  },
)

busy-Inv : Inv cap busy.bytes × Inv fd_cap busy.fds
busy-Inv = (
  record {
    tail_in = omega arith;
    head_in = omega arith;
    count_in = omega arith;
    meets = inr (omega arith);
  },
  record {
    tail_in = omega arith;
    head_in = omega arith;
    count_in = omega arith;
    meets = inl (omega arith);
  },
)

abbrev no_refs : ℕ → ℕ
no_refs _ = 0

abbrev held : ℕ → ℕ
held _ = 2

abbrev door : Listener
door = record { path = b'd' ∷ []; owner = 1; backlog = [] }

abbrev table : List (Option Listener)
table = none ∷ some door ∷ []

writable : pollout false busy ≡ true
unfolding pollout
writable = refl

few : (f : ℕ) → times f (files_of busy.fds) ≤ held f
unfolding times contents window next update
few f = ground arith

pollout-SendsAll_example : SendsAll busy (1 ∷ 2 ∷ []) (send false busy no_refs (1 ∷ 2 ∷ []) []).0
pollout-SendsAll_example =
    pollout-SendsAll busy no_refs (1 ∷ 2 ∷ []) busy-Inv.0 writable (omega arith)

send_loop-Sends_example : Sends false busy (5 ∷ []) 0 (send_loop 3 false busy (5 ∷ []) 0)
send_loop-Sends_example = send_loop-Sends 1 false busy (5 ∷ []) 0 busy-Inv.0 (omega arith)

recv-Receives_example : Receives false busy 2 5 (recv false busy 2 5)
recv-Receives_example = recv-Receives false busy 2 5 busy-Inv.0 busy-Inv.1

send-queues_example :
    (contents fd_cap (left_by quiet (send false quiet held (1 ∷ 2 ∷ []) (6 ∷ 6 ∷ [])).0).fds
      ≡ contents fd_cap quiet.fds
        ++ map (λ (f : ℕ). record { file = f; at = (0 + 2) % 2 ^ 64 }) (6 ∷ 6 ∷ []))
    × ((f : ℕ)
        → (send false quiet held (1 ∷ 2 ∷ []) (6 ∷ 6 ∷ [])).1 f ≡ held f + times f (6 ∷ 6 ∷ []))
send-queues_example =
    send-queues false quiet held (1 ∷ 2 ∷ []) (6 ∷ 6 ∷ []) quiet-Inv.0 quiet-Inv.1 (omega arith)
      (omega arith)

abbrev one_less : ℕ → (ℕ → ℕ) → ℕ → ℕ
one_less f refs = update refs f (refs f - 1)

-- The queue of two descriptors, of the files 3 and 4: a reference to each is given back.
drop_queued_fds-releases_example :
    ((drop_queued_fds (λ f s. (s.0, one_less f s.1)) 2 (busy.fds, held)).0.count ≡ 0)
    × ((drop_queued_fds (λ f s. (s.0, one_less f s.1)) 2 (busy.fds, held)).1
        ≡ release_all one_less (files_of busy.fds) held)
unfolding contents window next
drop_queued_fds-releases_example =
    drop_queued_fds-releases (λ f s. (s.0, one_less f s.1)) one_less 2 busy.fds held
      (λ r w. refl, (λ r w. refl, tt)) (omega arith)

connect-Connects_example :
    ((r : Error) × (connect (some 5) table (b'd' ∷ []) 1 ≡ (err r, table)))
    ⊎ (((connect (some 5) table (b'd' ∷ []) 1).0 ≡ ok tt)
        × Connects (some 5) table (b'd' ∷ []) 1 (connect (some 5) table (b'd' ∷ []) 1).1)
connect-Connects_example = connect-Connects (some 5) table (b'd' ∷ []) 1

Reach-Orderly_example :
    Orderly (connect (some 5) (listen true table (b'e' ∷ []) 2).1 (b'd' ∷ []) 1).1
Reach-Orderly_example =
    Reach-Orderly (tt, omega arith, tt)
      (then_step (then_step here (listens true (b'e' ∷ []) 2 (omega arith)))
        (connects (some 5) (b'd' ∷ []) 1))

stranger : connect (some 5) table (b'd' ∷ []) 2 ≡ (err eperm, table)
unfolding connect connect_to find_listener str_eq
stranger = refl
