-- ===== src/Sched.antt =====
-- kernel/proc/sched.c: the round-robin scheduler of all processors over one run queue.
-- A thread is a number, with its fields in `thread`. The circular queue is the list of its threads
-- from `run_queue` on; the last is followed by the first. `cpu` is what each processor has of its
-- own. The kernel lock makes every function here one step. The switch of stacks and of address
-- spaces, and the exit of a process that was told to stop, are not part of the model.
mod Exclusive
mod Steps
mod Walk
mod Fair
mod Tests
use wos.Prelude.{
  ℕ, zero, suc, ◌+◌, ◌-◌, ◌%◌, ◌^◌, List, [], ◌∷◌, Bool, true, false, not, ◌&&◌, ltb, ◌==◌,
  if◌then◌else◌, update,
}

pub data State : Type 0 where
  unused ready running blocked zombie : State

-- The values of `wait_reason_t`.
pub data Reason : Type 0 where
  nothing input child pipe time socket : Reason

pub record Thread : Type 0 where
  pub state : State
  pub reason : Reason
  pub wake_at : ℕ
  pub is_idle : Bool
  pub cpu_ticks : ℕ

pub record Cpu : Type 0 where
  pub current : ℕ
  pub idle : ℕ

pub record Sched : Type 0 where
  pub queue : List ℕ
  pub thread : ℕ → Thread
  pub active : Bool
  pub cpu : ℕ → Cpu

abbrev pub is_ready : State → Bool
is_ready ready = true
is_ready _ = false

abbrev pub is_running : State → Bool
is_running running = true
is_running _ = false

abbrev pub is_blocked : State → Bool
is_blocked blocked = true
is_blocked _ = false

abbrev pub reason_code : Reason → ℕ
reason_code nothing = 0
reason_code input = 1
reason_code child = 2
reason_code pipe = 3
reason_code time = 4
reason_code socket = 5

abbrev pub set_thread : Sched → ℕ → Thread → Sched
set_thread s t th = record s { thread = update s.thread t th }

abbrev pub set_cpu : Sched → ℕ → Cpu → Sched
set_cpu s c x = record s { cpu = update s.cpu c x }

pub sched_current_is_idle : Sched → (c : ℕ) → Bool
sched_current_is_idle s c = s.active && ((s.cpu c).current == (s.cpu c).idle)

-- Just behind the head.
pub insert_second : ℕ → List ℕ → List ℕ
insert_second t [] = t ∷ []
insert_second t (r ∷ rest) = r ∷ t ∷ rest

pub sched_add : Sched → ℕ → Sched
unfolding insert_second
sched_add s t = record s { queue = insert_second t s.queue }

-- The queue without `t`. If that was the head, the next one is the head.
pub unlink : ℕ → List ℕ → List ℕ
unlink t [] = []
unlink t (r ∷ rest) = if r == t then rest else r ∷ unlink t rest

pub sched_remove : Sched → ℕ → Sched
unfolding unlink
sched_remove s t = record s { queue = unlink t s.queue }

pub sched_adopt_idle : Sched → (c idle : ℕ) → Sched
unfolding sched_add update
sched_adopt_idle s c idle =
    sched_add
      (set_thread (set_cpu s c (record { current = idle; idle = idle })) idle
        (record (s.thread idle) { state = running; is_idle = true }))
      idle

pub sched_init : Sched → (c idle : ℕ) → Sched
unfolding sched_adopt_idle
sched_init s c idle = record (sched_adopt_idle s c idle) { active = true }

-- The thread behind `t` among `rest`, whose end is followed by `first`. A thread that is not in
-- the queue has no successor, and then the head serves.
pub next_in : (first : ℕ) → List ℕ → (t : ℕ) → ℕ
next_in first [] t = first
next_in first (x ∷ []) t = first
next_in first (x ∷ y ∷ rest) t = if x == t then y else next_in first (y ∷ rest) t

abbrev pub head_or : List ℕ → ℕ → ℕ
head_or [] d = d
head_or (x ∷ xs) d = x

pub next_of : List ℕ → (t : ℕ) → ℕ
unfolding next_in
next_of queue t = next_in (head_or queue t) queue t

-- MAX_THREADS + 1
abbrev pub pick_rounds : ℕ
pick_rounds = 65

-- `for (i = 0; i < MAX_THREADS + 1; i++)` of `pick_next`, with `idle` as the fallback.
pub pick_from : (rounds : ℕ) → Sched → (from idle t : ℕ) → ℕ
pick_from zero s from idle t = idle
pick_from (suc rounds) s from idle t =
    let later = pick_from rounds s from idle (next_of s.queue t) in
    if not (s.thread t).is_idle && is_ready (s.thread t).state
    then t
    else if (t == from) && is_running (s.thread t).state
    then t
    else later

abbrev pub is_empty : List ℕ → Bool
is_empty [] = true
is_empty (_ ∷ _) = false

pub pick_next : Sched → (c : ℕ) → ℕ
pick_next s c =
    let from = (s.cpu c).current in
    if is_empty s.queue
    then (s.cpu c).idle
    else pick_from pick_rounds s from (s.cpu c).idle (next_of s.queue from)

-- `prev` is put back if it was running, and `next` runs on the processor `c`.
pub switch_to : Sched → (c prev next : ℕ) → Sched
unfolding update
switch_to s c prev next =
    let old = s.thread prev in
    let put_back =
      if is_running old.state then set_thread s prev (record old { state = ready }) else s in
    let chosen = set_thread put_back next (record (put_back.thread next) { state = running }) in
    set_cpu chosen c (record (s.cpu c) { current = next })

-- `schedule` behind its test of `active`.
pub reschedule : Sched → (c : ℕ) → Sched
reschedule s c =
    let prev = (s.cpu c).current in
    let next = pick_next s c in
    let idle = (s.cpu c).idle in
    if not (next == prev)
    then switch_to s c prev next
    else if is_running (s.thread prev).state
    then s
    else if idle == prev
    then s
    else switch_to s c prev idle

pub schedule : Sched → (c : ℕ) → Sched
unfolding reschedule
schedule s c = if s.active then reschedule s c else s

-- `sched_block` and `sched_block_until`, up to the switch: the current thread waits.
pub block_current : Sched → (c : ℕ) → Reason → (wake_at : ℕ) → Sched
unfolding update
block_current s c r wake_at =
    let t = (s.cpu c).current in
    set_thread s t (record (s.thread t) { state = blocked; reason = r; wake_at = wake_at })

pub sched_block : Sched → (c : ℕ) → Reason → Sched
sched_block s c r = if not s.active then s else schedule (block_current s c r 0) c

pub sched_block_until : Sched → (c : ℕ) → Reason → (until_tick : ℕ) → Sched
sched_block_until s c r until_tick =
    if not s.active
    then s
    else schedule (block_current s c r (if until_tick == 0 then 1 else until_tick)) c

pub sched_sleep_until : Sched → (c until_tick : ℕ) → Sched
unfolding sched_block_until
sched_sleep_until s c until_tick = sched_block_until s c time until_tick

abbrev pub woken : Thread → Thread
woken t = record t { state = ready; reason = nothing }

-- The walk round the queue that wakes each thread that passes the test.
pub wake_where : (Thread → Bool) → List ℕ → (ℕ → Thread) → ℕ → Thread
wake_where p [] thread = thread
wake_where p (t ∷ rest) thread =
    wake_where p rest (if p (thread t) then update thread t (woken (thread t)) else thread)

abbrev pub waits_for : Reason → Thread → Bool
waits_for r t = is_blocked t.state && (reason_code t.reason == reason_code r)

pub sched_wake : Sched → Reason → Sched
unfolding wake_where
sched_wake s r = record s { thread = wake_where (waits_for r) s.queue s.thread }

-- `(int32_t)(now - wake_at) >= 0`, on 32-bit tick counts.
abbrev pub reached : (now wake_at : ℕ) → Bool
reached now wake_at = ltb ((now + 2 ^ 32 - wake_at) % 2 ^ 32) (2 ^ 31)

abbrev pub has_expired : (now : ℕ) → Thread → Bool
has_expired now t = is_blocked t.state && (not (t.wake_at == 0) && reached now t.wake_at)

pub wake_expired : Sched → (now : ℕ) → Sched
unfolding wake_where
wake_expired s now = record s { thread = wake_where (has_expired now) s.queue s.thread }

-- The timer interrupt: charge the tick, wake, and choose again.
pub sched_tick : Sched → (c now : ℕ) → Sched
unfolding wake_expired
sched_tick s c now =
    let t = (s.cpu c).current in
    let charged = set_thread s t (record (s.thread t) { cpu_ticks = (s.thread t).cpu_ticks + 1 }) in
    if not s.active then s else schedule (wake_expired charged now) c
