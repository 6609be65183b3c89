-- ===== src/Kernel/Sched/Clock.antt =====
-- The clock interrupt and the system call `wait_clock` of kernel/task.c and kernel/clock.c.
use domin_os.Base.{
  ℕ, ◌≤◌, ◌%◌, ◌+◌, ◌≡◌, refl, ap, ◌≢◌, true, false, none, List, [], ◌∷◌, arith, leb, ◌==◌,
  Bool-cases, inl, inr, Ensures,
}
use domin_os.Word.{word}
use domin_os.Queue.{Ptr}
use domin_os.Kernel.{running, ready, sleeping, Kernel}
use domin_os.Kernel.Lists.{has, is_queued, update_task, set_state, insert_in, add_tasks, state_of}
use domin_os.Kernel.Facts.{has-insert_self}
use domin_os.Kernel.Invariant.{WellFormed, Absent, Absent-of_state, update_task-WellFormed_keep}
use domin_os.Kernel.Sched.{
  is_state, is_current, set_task_state, wake_each, try_wakeup_tasks, schedule, clock_handler,
  wait_clock,
}
use domin_os.Kernel.Sched.Moves.{
  placed, placed-WellFormed, set_task_state-current, is_linked-has, WellFormed-ext,
}
use domin_os.Kernel.Sched.Loops.{
  Waking, stamped, woken, asleep_state, Waking-later, woken-Waking, wake-woken, Waking-start,
}
use domin_os.Kernel.Sched.Highest.{Scheduled, schedule-Scheduled}

-- The current task, asleep, cannot be made ready: it is taken out of no list, and so the assertion
-- on its link fails.
ready_current-none :
    (t : Ptr) (k : Kernel)
    → k.current ≡ t
    → state_of k t ≡ sleeping
    → has t (k.queues sleeping) ≡ true
    → set_task_state ready t (stamped t k) ≡ none
unfolding set_task_state add_tasks
ready_current-none t k c s h =
    let awake : is_state (stamped t k) t ready ≡ false = ground (arith, s) in
    let here : is_current k t ≡ true = ground arith in
    let linked = is_linked-has sleeping t (update_task t (set_state ready) (stamped t k)) refl h in
    rw (awake, here, linked)

wake_each-none :
    (k0 : Kernel) (ts : List Ptr) (k : Kernel)
    → Waking k0 ts k
    → has k0.current ts ≡ true
    → (k0.task k0.current).wake_time ≤ k0.total_ticks
    → wake_each ts k ≡ none
unfolding wake_each
wake_each-none k0 [] k v h d = cc
wake_each-none k0 (t ∷ ts) k v h d = elim (Bool-cases (k.current == t)) [
  | inl me ↦
      let due : leb (k.task t).wake_time k.total_ticks ≡ true =
        ground (arith, me, v.same_current, v.same_ticks, v.same_task, d) in
      rw (due, ready_current-none t k (ground arith) (asleep_state k0 t ts k v) v.pending.0)
  | inr other ↦ elim (Bool-cases (leb (k.task t).wake_time k.total_ticks)) [
    | inl due ↦
        let c : k.current ≢ t = ground arith in
        rw (due, wake-woken k0 t ts k v c)
          (wake_each-none k0 ts (woken t k) (woken-Waking k0 t ts k v (ground arith) c)
            (ground (arith, v.same_current)) d)
    | inr later ↦ rw later (
        wake_each-none k0 ts k (Waking-later k0 t ts k v (ground arith))
          (ground (arith, v.same_current)) d)
  ]
]

-- The state in which `wait_clock` calls `schedule`.
abbrev pub stamp : ℕ → Kernel → Kernel
stamp clock k = update_task k.current (λ x. record x { wake_time = clock }) k

abbrev pub sleeper : ℕ → Kernel → Kernel
sleeper clock k = placed sleeping k.current (stamp clock k)

module _ (clock : ℕ) (k : Kernel) (w : WellFormed k) (r : state_of k k.current ≡ running) where
  stamp_formed : WellFormed (stamp clock k)
  stamp_formed =
      update_task-WellFormed_keep k.current (λ x. record x { wake_time = clock }) k refl refl w

  stamp_state : state_of (stamp clock k) k.current ≡ running
  stamp_state = ground (arith, r)

  stamp-Absent : Absent k.current (stamp clock k)
  stamp-Absent =
      Absent-of_state k.current (stamp clock k) stamp_formed (ap is_queued stamp_state)
        (λ e. ground (arith, stamp_state))

  wait_clock-schedule : wait_clock clock k ≡ schedule (sleeper clock k)
  unfolding wait_clock
  wait_clock-schedule = rw (
      set_task_state-current sleeping k.current (stamp clock k) (λ e. ground (arith, stamp_state))
        refl stamp-Absent)

  sleeper_formed : WellFormed (sleeper clock k)
  sleeper_formed =
      placed-WellFormed sleeping k.current (stamp clock k) stamp_formed stamp-Absent refl

  sleeper_listed : has (sleeper clock k).current ((sleeper clock k).queues sleeping) ≡ true
  unfolding placed insert_in
  sleeper_listed = has-insert_self _ k.current (k.queues sleeping)

  -- `wait_clock` by a running task for a tick that has come already, from a well-formed state,
  -- panics: the assertion of queue_add fails.
  pub wait_clock-none : clock ≤ k.total_ticks → wait_clock clock k ≡ none
  unfolding schedule try_wakeup_tasks placed insert_in
  wait_clock-none due =
      let none_left =
        wake_each-none (sleeper clock k) _ (sleeper clock k)
          (Waking-start (sleeper clock k) sleeper_formed) sleeper_listed (ground arith) in
      rw (wait_clock-schedule, none_left)

-- The clock interrupt keeps the contract of `schedule`.
pub clock_handler-Scheduled :
    (k : Kernel)
    → WellFormed k
    → state_of k k.current ≡ running
    → Ensures (Scheduled (record k { total_ticks = (k.total_ticks + 1) % word })) (clock_handler k)
unfolding clock_handler
clock_handler-Scheduled k w r = schedule-Scheduled _ (record {
  formed = WellFormed-ext k _ refl refl refl w;
  awake = λ e. ground arith;
  not_ready = λ e. ground arith;
})
