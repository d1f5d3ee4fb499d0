-- ===== src/Sched/Exclusive.antt =====
-- No thread runs on two processors.
use wos.Prelude.{
  ℕ, zero, suc, ◌≡◌, ◌≢◌, ◌⊎◌, refl, subst, ◌∙◌, inl, inr, List, [], ◌∷◌, Bool, true, false, arith,
  Bool-cases, ◌==◌, update,
}
use wos.Sched.{
  Thread, Sched, is_ready, is_running, pick_from, next_of, pick_next, pick_rounds, is_empty,
  switch_to, reschedule, schedule, woken, wake_where,
}

-- Every processor but `c` runs its own thread, no two the same, and keeps its own idle thread.
pub record Others (c : ℕ) (s : Sched) : Type 0 where
  pub apart : (a b : ℕ) → (s.cpu a).current ≡ (s.cpu b).current → a ≡ b
  pub own_idle : (a b : ℕ) → (s.cpu a).current ≡ (s.cpu b).idle → a ≡ b
  pub idle_apart : (a b : ℕ) → (s.cpu a).idle ≡ (s.cpu b).idle → a ≡ b
  pub marked : (a : ℕ) → (s.thread (s.cpu a).idle).is_idle ≡ true
  pub runs : (a : ℕ) → a ≢ c → is_running (s.thread (s.cpu a).current).state ≡ true

-- So does `c`.
pub record Exclusive (s : Sched) : Type 0 where
  pub apart : (a b : ℕ) → (s.cpu a).current ≡ (s.cpu b).current → a ≡ b
  pub own_idle : (a b : ℕ) → (s.cpu a).current ≡ (s.cpu b).idle → a ≡ b
  pub idle_apart : (a b : ℕ) → (s.cpu a).idle ≡ (s.cpu b).idle → a ≡ b
  pub marked : (a : ℕ) → (s.thread (s.cpu a).idle).is_idle ≡ true
  pub runs : (a : ℕ) → is_running (s.thread (s.cpu a).current).state ≡ true

pub Exclusive-Others : (c : ℕ) (s : Sched) → Exclusive s → Others c s
Exclusive-Others c s e = record {
  apart = e.apart;
  own_idle = e.own_idle;
  idle_apart = e.idle_apart;
  marked = e.marked;
  runs = λ a _. e.runs a;
}

-- What `pick_next` can return.
abbrev pub Picked : Sched → (from idle t : ℕ) → Type 0
Picked s from idle t =
    (((s.thread t).is_idle ≡ false) × (is_ready (s.thread t).state ≡ true))
    ⊎ ((t ≡ from) × (is_running (s.thread from).state ≡ true))
    ⊎ (t ≡ idle)

pick_from-Picked :
    (n : ℕ) (s : Sched) (from idle t : ℕ) → Picked s from idle (pick_from n s from idle t)
unfolding pick_from
pick_from-Picked zero s from idle t = inr (inr refl)
pick_from-Picked (suc n) s from idle t =
    ground (arith, pick_from-Picked n s from idle (next_of s.queue t))

pick_next-Picked : (s : Sched) (c : ℕ) → Picked s (s.cpu c).current (s.cpu c).idle (pick_next s c)
unfolding pick_next
pick_next-Picked s c = elim (Bool-cases (is_empty s.queue)) [
  | inl e ↦ rw e (inr (inr refl))
  | inr e ↦ rw e (pick_from-Picked pick_rounds s _ _ _)
]

module _ (s : Sched) (c next : ℕ) (o : Others c s)
    (unused : (a : ℕ) → a ≢ c → (s.cpu a).current ≢ next)
    (fit : ((s.thread next).is_idle ≡ false) ⊎ (next ≡ (s.cpu c).idle)) where
  switch_to-Exclusive : Exclusive (switch_to s c (s.cpu c).current next)
  unfolding switch_to
  switch_to-Exclusive = record {
    apart = λ a b e. ground (arith, o.apart a b, unused a, unused b);
    own_idle = λ a b e. ground (arith, o.own_idle a b, o.idle_apart c b, o.marked b);
    idle_apart = λ a b e. ground (arith, o.idle_apart a b);
    marked = λ a. ground (arith, o.marked a);
    runs = λ a. ground (arith, o.runs a, o.apart a c, unused a);
  }

-- `schedule` is entered with the current thread running, or no longer running and not idle.
abbrev pub MaySwitch : Sched → ℕ → Type 0
MaySwitch s c =
    (is_running (s.thread (s.cpu c).current).state ≡ true)
    ⊎ ((s.thread (s.cpu c).current).is_idle ≡ false)

module _ (s : Sched) (c : ℕ) (o : Others c s) (m : MaySwitch s c) where
  keep-Exclusive : is_running (s.thread (s.cpu c).current).state ≡ true → Exclusive s
  keep-Exclusive run = record {
    apart = o.apart;
    own_idle = o.own_idle;
    idle_apart = o.idle_apart;
    marked = o.marked;
    runs = λ a. elim (Bool-cases (a == c)) [
      | inl e ↦
          let same : c ≡ a = ground arith in
          subst (λ (x : ℕ). is_running (s.thread (s.cpu x).current).state ≡ true) same run
      | inr ne ↦ o.runs a (ground arith)
    ];
  }

  Picked-Exclusive :
      (next : ℕ)
      → Picked s (s.cpu c).current (s.cpu c).idle next
      → (next == (s.cpu c).current) ≡ false
      → Exclusive (switch_to s c (s.cpu c).current next)
  Picked-Exclusive next (inl (real, is_free)) ne =
      switch_to-Exclusive s c next o (λ a away. ground (arith, o.runs a away)) (inl real)
  Picked-Exclusive next (inr (inl same)) ne = absurd (ground arith)
  Picked-Exclusive next (inr (inr idle)) ne =
      switch_to-Exclusive s c next o (λ a away. ground (arith, o.own_idle a c)) (inr idle)

  reschedule-Exclusive : Exclusive (reschedule s c)
  unfolding reschedule
  reschedule-Exclusive = elim (Bool-cases (pick_next s c == (s.cpu c).current)) [
    | inr ne ↦ rw ne (Picked-Exclusive (pick_next s c) (pick_next-Picked s c) ne)
    | inl e ↦ rw e (elim (Bool-cases (is_running (s.thread (s.cpu c).current).state)) [
      | inl run ↦ rw run (keep-Exclusive run)
      | inr stopped ↦ rw stopped (elim (Bool-cases ((s.cpu c).idle == (s.cpu c).current)) [
        | inl mine ↦ absurd (ground (arith, o.marked c))
        | inr other ↦ rw other (
            switch_to-Exclusive s c (s.cpu c).idle o (λ a away. ground (arith, o.own_idle a c))
              (inr refl))
      ])
    ])
  ]

  -- Where every processor but `c` runs its own thread and `c` may switch, each runs its own after
  -- `schedule` of an active scheduler.
  pub schedule-Exclusive : s.active ≡ true → Exclusive (schedule s c)
  schedule-Exclusive on =
      let open_lem : schedule s c ≡ reschedule s c = unfold schedule in ground (arith, on) in
      rw open_lem reschedule-Exclusive

pub update_cases {ℓ} :
    {A : Type ℓ} (f : ℕ → A) (i : ℕ) (a : A) (j : ℕ)
    → ((j ≡ i) × (update f i a j ≡ a)) ⊎ ((j ≢ i) × (update f i a j ≡ f j))
unfolding update
update_cases f i a j = ground arith

-- A thread that was woken was waiting; no other changes.
wake_where-same :
    (p : Thread → Bool) (q : List ℕ) (thread : ℕ → Thread) (t : ℕ)
    → ((th : Thread) → is_running th.state ≡ true → p th ≡ false)
    → ((wake_where p q thread t).is_idle ≡ (thread t).is_idle)
      × ((is_running (thread t).state ≡ false) ⊎ (wake_where p q thread t ≡ thread t))
unfolding wake_where
wake_where-same p [] thread t asleep = (refl, inr refl)
wake_where-same p (x ∷ q) thread t asleep = ground (
  arith,
  wake_where-same p q thread t asleep,
  wake_where-same p q (update thread x (woken (thread x))) t asleep,
  update_cases thread x (woken (thread x)) t,
  asleep (thread x),
)

-- A wake-up of any threads that are not running keeps every processor on its own thread.
pub woken-Exclusive :
    (p : Thread → Bool) (s : Sched)
    → ((th : Thread) → is_running th.state ≡ true → p th ≡ false)
    → Exclusive s
    → Exclusive (record s { thread = wake_where p s.queue s.thread })
woken-Exclusive p s asleep e = record {
  apart = e.apart;
  own_idle = e.own_idle;
  idle_apart = e.idle_apart;
  marked = λ a. (wake_where-same p s.queue s.thread _ asleep).0 ∙ e.marked a;
  runs = λ a. ground (arith, wake_where-same p s.queue s.thread (s.cpu a).current asleep, e.runs a);
}
