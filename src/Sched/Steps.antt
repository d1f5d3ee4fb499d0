-- ===== src/Sched/Steps.antt =====
-- The calls of the scheduler, from any processor and in any order.
use wos.Prelude.{
  ℕ, ◌+◌, ◌%◌, ◌^◌, ◌<◌, ◌≡◌, ◌⊎◌, refl, inl, inr, List, [], ◌∷◌, Bool, true, false, arith,
  Bool-cases, ◌==◌, leb, if◌then◌else◌, update,
}
use wos.Sched.{
  blocked, Thread, Sched, Reason, is_running, set_thread, block_current, schedule, sched_block,
  sched_block_until, wake_where, woken, waits_for, has_expired, reached, sched_wake, wake_expired,
  sched_tick,
}
use wos.Sched.Exclusive.{
  Exclusive, Others, Exclusive-Others, schedule-Exclusive, woken-Exclusive, update_cases,
}

-- A call, and the processor that makes it.
pub data Step (s : Sched) : Sched → Type 0 where
  yields : (c : ℕ) → Step s (schedule s c)
  blocks :
      (c : ℕ) (r : Reason)
      → (s.thread (s.cpu c).current).is_idle ≡ false
      → Step s (sched_block s c r)
  blocks_until :
      (c : ℕ) (r : Reason) (tick : ℕ)
      → (s.thread (s.cpu c).current).is_idle ≡ false
      → Step s (sched_block_until s c r tick)
  wakes : (r : Reason) → Step s (sched_wake s r)
  ticks : (c now : ℕ) → Step s (sched_tick s c now)

pub data Reach (s : Sched) : Sched → Type 0 where
  here : Reach s s
  then_step : {t u : Sched} → Reach s t → Step t u → Reach s u

block_current-Others :
    (s : Sched) (c : ℕ) (r : Reason) (w : ℕ) → Exclusive s → Others c (block_current s c r w)
unfolding block_current
block_current-Others s c r w e = record {
  apart = e.apart;
  own_idle = e.own_idle;
  idle_apart = e.idle_apart;
  marked = λ a. ground (
    arith,
    e.marked a,
    update_cases s.thread (s.cpu c).current
        (record (s.thread (s.cpu c).current) { state = blocked; reason = r; wake_at = w })
        (s.cpu a).idle,
  );
  runs = λ a away. ground (
    arith,
    e.runs a,
    e.apart a c,
    update_cases s.thread (s.cpu c).current
        (record (s.thread (s.cpu c).current) { state = blocked; reason = r; wake_at = w })
        (s.cpu a).current,
  );
}

block_current-idle :
    (s : Sched) (c : ℕ) (r : Reason) (w : ℕ)
    → (s.thread (s.cpu c).current).is_idle ≡ false
    → ((block_current s c r w).thread (s.cpu c).current).is_idle ≡ false
unfolding block_current update
block_current-idle s c r w h = ground arith

blocked-Exclusive :
    (s : Sched) (c : ℕ) (r : Reason) (w : ℕ)
    → s.active ≡ true
    → Exclusive s
    → (s.thread (s.cpu c).current).is_idle ≡ false
    → Exclusive (schedule (block_current s c r w) c)
unfolding block_current
blocked-Exclusive s c r w on e h =
    schedule-Exclusive (block_current s c r w) c (block_current-Others s c r w e)
      (inr (block_current-idle s c r w h)) on

expired_asleep : (now : ℕ) (th : Thread) → is_running th.state ≡ true → has_expired now th ≡ false
expired_asleep now th h = ground arith

waiting_asleep : (r : Reason) (th : Thread) → is_running th.state ≡ true → waits_for r th ≡ false
waiting_asleep r th h = ground arith

charged-Exclusive :
    (s : Sched) (t : ℕ) (n : ℕ)
    → Exclusive s
    → Exclusive (set_thread s t (record (s.thread t) { cpu_ticks = n }))
charged-Exclusive s t n e = record {
  apart = e.apart;
  own_idle = e.own_idle;
  idle_apart = e.idle_apart;
  marked = λ a. ground (
    arith,
    e.marked a,
    update_cases s.thread t (record (s.thread t) { cpu_ticks = n }) (s.cpu a).idle,
  );
  runs = λ a. ground (
    arith,
    e.runs a,
    update_cases s.thread t (record (s.thread t) { cpu_ticks = n }) (s.cpu a).current,
  );
}

yield-Exclusive : (s : Sched) (c : ℕ) → Exclusive s → Exclusive (schedule s c)
yield-Exclusive s c e = elim (Bool-cases s.active) [
  | inl on ↦ schedule-Exclusive s c (Exclusive-Others c s e) (inl (e.runs c)) on
  | inr off ↦ let same : schedule s c ≡ s = unfold schedule in ground (arith, off) in rw same e
]

Step-Exclusive : {s t : Sched} → Step s t → Exclusive s → Exclusive t
Step-Exclusive {s} (yields c) e = yield-Exclusive s c e
Step-Exclusive {s} (blocks c r h) e = elim (Bool-cases s.active) [
  | inl on ↦
      let same : sched_block s c r ≡ schedule (block_current s c r 0) c =
        unfold sched_block in ground (arith, on) in
      rw same (blocked-Exclusive s c r 0 on e h)
  | inr off ↦
      let same : sched_block s c r ≡ s = unfold sched_block in ground (arith, off) in rw same e
]
Step-Exclusive {s} (blocks_until c r tick h) e = elim (Bool-cases s.active) [
  | inl on ↦
      let w = if tick == 0 then 1 else tick in
      let same : sched_block_until s c r tick ≡ schedule (block_current s c r w) c =
        unfold sched_block_until in ground (arith, on) in
      rw same (blocked-Exclusive s c r w on e h)
  | inr off ↦
      let same : sched_block_until s c r tick ≡ s =
        unfold sched_block_until in ground (arith, off) in
      rw same e
]
Step-Exclusive {s} (wakes r) e =
    unfold sched_wake in woken-Exclusive (waits_for r) s (waiting_asleep r) e
Step-Exclusive {s} (ticks c now) e = elim (Bool-cases s.active) [
  | inl on ↦
      let t = (s.cpu c).current in
      let charged =
        set_thread s t (record (s.thread t) { cpu_ticks = (s.thread t).cpu_ticks + 1 }) in
      let same : sched_tick s c now ≡ schedule (wake_expired charged now) c =
        unfold sched_tick in ground (arith, on) in
      rw same (
        yield-Exclusive (wake_expired charged now) c (
          unfold wake_expired in
          woken-Exclusive (has_expired now) charged (expired_asleep now)
            (charged-Exclusive s t _ e)))
  | inr off ↦
      let same : sched_tick s c now ≡ s = unfold sched_tick in ground (arith, off) in rw same e
]

-- From a state in which every processor runs a thread of its own and has an idle thread of its own,
-- no sequence of calls by any of them, a thread that blocks not being an idle one, puts a thread on
-- two processors or leaves one with a thread that is not running.
pub Reach-Exclusive : {s t : Sched} → Exclusive s → Reach s t → Exclusive t
Reach-Exclusive e here = e
Reach-Exclusive e (then_step r st) = Step-Exclusive st (Reach-Exclusive e r)

-- The test on the signed 32-bit difference of tick counts is the order of time, also where the count
-- wraps: with the deadline and the present both less than 2 ^ 31 ticks after some moment, a deadline
-- is reached exactly if it is not later than the present.
pub reached-leb :
    (moment deadline present : ℕ)
    → deadline < 2 ^ 31
    → present < 2 ^ 31
    → reached ((moment + present) % 2 ^ 32) ((moment + deadline) % 2 ^ 32) ≡ leb deadline present
reached-leb moment deadline present hd hp = ground arith

abbrev pub Within : ℕ → List ℕ → Type 0
Within t [] = ⊥
Within t (x ∷ xs) = (t ≡ x) ⊎ Within t xs

wake_where-stable :
    (p : Thread → Bool) (q : List ℕ) (thread : ℕ → Thread) (t : ℕ)
    → p (thread t) ≡ false
    → wake_where p q thread t ≡ thread t
unfolding wake_where
wake_where-stable p [] thread t off = refl
wake_where-stable p (x ∷ q) thread t off = ground (
  arith,
  wake_where-stable p q thread t,
  wake_where-stable p q (update thread x (woken (thread x))) t,
  update_cases thread x (woken (thread x)) t,
)

wake_where-Within :
    (p : Thread → Bool) (q : List ℕ) (thread : ℕ → Thread) (t : ℕ)
    → ((th : Thread) → p (woken th) ≡ false)
    → Within t q
    → wake_where p q thread t ≡ (if p (thread t) then woken (thread t) else thread t)
unfolding wake_where
wake_where-Within p [] thread t once h = absurd h
wake_where-Within p (x ∷ q) thread t once (inl h) = ground (
  arith,
  wake_where-stable p q thread t,
  wake_where-stable p q (update thread x (woken (thread x))) t,
  update_cases thread x (woken (thread x)) t,
  once (thread x),
)
wake_where-Within p (x ∷ q) thread t once (inr h) = ground (
  arith,
  wake_where-Within p q thread t once h,
  wake_where-Within p q (update thread x (woken (thread x))) t once h,
  update_cases thread x (woken (thread x)) t,
  once (thread x),
)

-- A wake-up for a reason makes exactly the threads in the queue that wait for it ready, and changes
-- nothing else of them.
pub sched_wake-waits :
    (s : Sched) (r : Reason) (t : ℕ)
    → Within t s.queue
    → (sched_wake s r).thread t
      ≡ (if waits_for r (s.thread t) then woken (s.thread t) else s.thread t)
unfolding sched_wake
sched_wake-waits s r t h = wake_where-Within (waits_for r) s.queue s.thread t (λ th. refl) h

-- The timer makes exactly the threads in the queue ready that wait with a deadline, a wake time that
-- is not 0, which the present has reached; it changes nothing else of them.
pub wake_expired-reached :
    (s : Sched) (now t : ℕ)
    → Within t s.queue
    → (wake_expired s now).thread t
      ≡ (if has_expired now (s.thread t) then woken (s.thread t) else s.thread t)
unfolding wake_expired
wake_expired-reached s now t h =
    wake_where-Within (has_expired now) s.queue s.thread t (λ th. refl) h
