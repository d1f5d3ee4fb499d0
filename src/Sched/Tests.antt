-- ===== src/Sched/Tests.antt =====
-- Runs of the scheduler, and its theorems on two processors.
use wos.Prelude.{◌+◌, ◌≡◌, ◌==◌, refl, true, false, inl, inr, [], ◌∷◌, arith, if◌then◌else◌}
use wos.Sched.{
  ready, running, blocked, nothing, pipe, Thread, Sched, schedule, reschedule, pick_next, pick_from,
  next_of, switch_to, sched_block,
}
use wos.Sched.Exclusive.{Exclusive}
use wos.Sched.Fair.{pick_next-CanRun}
use wos.Sched.Walk.{CanRun}
use wos.Sched.Steps.{here, then_step, yields, blocks, Reach-Exclusive}

-- Thread 2 c is the idle thread of processor `c`, and runs on it. Thread 1 is ready.
abbrev idle_machine : Sched
idle_machine = record {
  queue = 0 ∷ 1 ∷ 2 ∷ [];
  thread = λ t. record {
    state = if t == 1 then ready else running;
    reason = nothing;
    wake_at = 0;
    is_idle = if t == 1 then false else true;
    cpu_ticks = 0;
  };
  active = true;
  cpu = λ c. record { current = c + c; idle = c + c };
}

takes_thread : ((schedule idle_machine 0).cpu 0).current ≡ 1
unfolding schedule reschedule pick_next pick_from next_of switch_to
takes_thread = refl

idle_machine-Exclusive : Exclusive idle_machine
idle_machine-Exclusive = record {
  apart = λ a b e. omega arith;
  own_idle = λ a b e. omega arith;
  idle_apart = λ a b e. omega arith;
  marked = λ a. ground arith;
  runs = λ a. ground arith;
}

Reach-Exclusive_example : Exclusive (sched_block (schedule idle_machine 0) 0 pipe)
Reach-Exclusive_example = Reach-Exclusive idle_machine-Exclusive (
    then_step (then_step here (yields 0))
      (blocks 0 pipe (unfold schedule reschedule pick_next pick_from next_of switch_to in refl)))

abbrev waiting : Thread
waiting = record { state = blocked; reason = pipe; wake_at = 7; is_idle = false; cpu_ticks = 0 }

abbrev one_waits : Sched
one_waits = record idle_machine { thread = λ t. if t == 1 then waiting else idle_machine.thread t }

pick_next-CanRun_example : CanRun idle_machine (pick_next idle_machine 0)
pick_next-CanRun_example =
    pick_next-CanRun idle_machine 0 1 (omega arith) (omega arith) (inr (inl refl)) (refl, refl)
