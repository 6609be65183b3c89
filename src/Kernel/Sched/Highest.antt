-- ===== src/Kernel/Sched/Highest.antt =====
-- The scheduler's contract: after `schedule` no ready task has a higher priority than the one that
-- runs.
use domin_os.Base.{
  ◌≤◌, ◌≡◌, refl, sym, ap, subst, ◌∙◌, ◌≢◌, ◌⊎◌, true, false, Option, none, some, List, [], ◌∷◌,
  arith, ◌==◌, Bool-cases, inl, inr, All, All-map, Ensures, Ensures-bind,
}
use domin_os.Word.{int_lt}
use domin_os.Queue.{Ptr}
use domin_os.Queue.Spec.{last?, last?-max, All-insert}
use domin_os.Kernel.{running, ready, sleeping, Kernel}
use domin_os.Kernel.Lists.{has, erase, unlinked, prio_key, insert_in, state_of, is_queued}
use domin_os.Kernel.Facts.{All-erase, has-insert}
use domin_os.Kernel.Invariant.{
  WellFormed, Absent, Absent-of_state, same_state-eq, update_task-WellFormed_keep,
}
use domin_os.Kernel.Sched.{is_state, enter, switch_to, choose, schedule}
use domin_os.Kernel.Sched.Moves.{
  placed, placed-WellFormed, set_task_state-current, made_running, made_running-WellFormed,
  set_task_running-linked,
}
use domin_os.Kernel.Sched.Loops.{SleepsOn, IsAwake, All-has, Waking, try_wakeup_tasks-Waking}
use domin_os.Kernel.Sched.Reap.{Reaping, reap_zombies-Reaping}

-- Every ready task is at most as urgent as the current one.
abbrev pub IsHighest : Kernel → Type 0
IsHighest k = All (λ t. prio_key k t ≤ prio_key k k.current) (k.queues ready)

-- What `schedule` ensures: the invariant, no due sleeper, and a current task of the highest priority
-- unless nothing is ready.
pub record Scheduled (k0 : Kernel) (k : Kernel) : Type 0 where
  pub formed : WellFormed k
  pub asleep : All (SleepsOn k) (k.queues sleeping)
  pub highest : (IsHighest k × (state_of k k.current ≡ running)) ⊎ (k.queues ready ≡ [])

last?-mem : (xs : List Ptr) (z : Ptr) → last? xs ≡ some z → has z xs ≡ true
unfolding last?
last?-mem [] z h = cc
last?-mem (x ∷ []) z h = ground arith
last?-mem (x ∷ (y ∷ ys)) z h = ground (arith, last?-mem (y ∷ ys) z h)

last?-nil : (xs : List Ptr) → last? xs ≡ none → xs ≡ []
unfolding last?
last?-nil [] h = refl
last?-nil (x ∷ []) h = cc
last?-nil (x ∷ (y ∷ ys)) h = absurd (ground (arith, last?-nil (y ∷ ys) h))

-- All that the switch to `new` needs, `new` being the top of the ready queue.
record Next (new : Ptr) (k : Kernel) : Type 0 where
  formed : WellFormed k
  asleep : All (SleepsOn k) (k.queues sleeping)
  waits : has new (k.queues ready) ≡ true
  is_ready : state_of k new ≡ ready
  top : All (λ t. prio_key k t ≤ prio_key k new) (k.queues ready)

enter-Scheduled :
    (k0 : Kernel) (new : Ptr) (k : Kernel) → Next new k → Ensures (Scheduled k0) (enter new k)
unfolding enter made_running unlinked
enter-Scheduled k0 new k n =
    rw
      (set_task_running-linked new k (ap is_queued n.is_ready)
        (subst (λ s. has new (k.queues s) ≡ true) (sym n.is_ready) n.waits))
      (elim (Bool-cases (k.task new).first_start) [
        | inl f ↦
            let e : ((made_running new k).task new).first_start ≡ true = ground arith in
            rw e (record {
              formed =
                  update_task-WellFormed_keep new (λ x. record x { first_start = false })
                    (made_running new k) refl refl formed_running;
              asleep =
                  All-map (erase new (k.queues sleeping)) (λ p h. ground arith)
                    (All-erase (SleepsOn k) new (k.queues sleeping) n.asleep);
              highest = inl (
                All-map (erase new (k.queues ready)) (λ p h. ground arith)
                    (All-erase _ new (k.queues ready) n.top),
                ground arith,
              );
            })
        | inr f ↦
            let e : ((made_running new k).task new).first_start ≡ false = ground arith in
            rw e (record {
              formed = formed_running;
              asleep =
                  All-map (erase new (k.queues sleeping)) (λ p h. ground arith)
                    (All-erase (SleepsOn k) new (k.queues sleeping) n.asleep);
              highest = inl (
                All-map (erase new (k.queues ready)) (λ p h. ground arith)
                    (All-erase _ new (k.queues ready) n.top),
                ground arith,
              );
            })
      ])
  where
    formed_running : WellFormed (made_running new k)
    formed_running = made_running-WellFormed new k n.formed (λ e. ground (arith, n.is_ready))

-- The running task goes back to the ready queue, behind the new one.
placed-Next :
    (old new : Ptr) (k : Kernel)
    → Next new k
    → Absent old k
    → old ≢ new
    → prio_key k old ≤ prio_key k new
    → Next new (placed ready old k)
unfolding placed insert_in
placed-Next old new k n a ne le = record {
  formed = placed-WellFormed ready old k n.formed a refl;
  asleep = All-map (k.queues sleeping) (λ p h. ground arith) n.asleep;
  waits = has-insert _ old new (k.queues ready) n.waits;
  is_ready = ground (arith, n.is_ready);
  top =
      All-insert _ _ old (k.queues ready) (ground arith)
        (All-map (k.queues ready) (λ p h. ground arith) n.top);
}

choose-Scheduled :
    (k0 : Kernel) (k : Kernel) (top : Option Ptr)
    → WellFormed k
    → All (SleepsOn k) (k.queues sleeping)
    → state_of k k.current ≢ ready
    → last? (k.queues ready) ≡ top
    → Ensures (Scheduled k0) (choose top k)
unfolding choose switch_to
choose-Scheduled k0 k none w a r e = record {
  formed = w;
  asleep = a;
  highest = inr (last?-nil (k.queues ready) e);
}
choose-Scheduled k0 k (some new) w a r e =
    let waits = last?-mem (k.queues ready) new e in
    let is_ready = All-has (λ p. state_of k p ≡ ready) new (k.queues ready) (w.own ready) waits in
    let top = last?-max (prio_key k) (k.queues ready) new (w.sorted ready) e in
    let n : Next new k = record {
      formed = w;
      asleep = a;
      waits = waits;
      is_ready = is_ready;
      top = top;
    } in
    let ne : k.current ≢ new = λ q. r (ap (state_of k) q ∙ is_ready) in
    let off : (k.current == new) ≡ false = ground arith in
    rw off (elim (Bool-cases (is_state k k.current running)) [
      | inl run ↦
          let s = same_state-eq (state_of k k.current) running run in
          rw run (elim (Bool-cases (int_lt (k.task new).priority (k.task k.current).priority)) [
            | inl lt ↦ rw lt (record {
              formed = w;
              asleep = a;
              highest = inl (All-map (k.queues ready) (λ p h. ground arith) top, s);
            })
            | inr ge ↦
                let gone =
                  Absent-of_state k.current k w (ap is_queued s) (λ q. ground (arith, s)) in
                rw (ge, set_task_state-current ready k.current k r refl gone)
                  (enter-Scheduled k0 new (placed ready k.current k)
                    (placed-Next k.current new k n gone ne (ground arith)))
          ])
      | inr stop ↦ rw stop (enter-Scheduled k0 new k n)
    ])

-- The lists are well formed, and the task that calls is neither ready nor a sleeper that is due.
pub record IsSettled (k : Kernel) : Type 0 where
  pub formed : WellFormed k
  pub awake : IsAwake k
  pub not_ready : state_of k k.current ≢ ready

-- From a well-formed state in which the calling task is not ready, and not a sleeper that is
-- due, `schedule` ends without a panic, keeps the lists well formed, leaves no task asleep that
-- is due, and leaves as current a running task whose priority no ready task exceeds, unless no
-- task is ready.
pub schedule-Scheduled : (k : Kernel) → IsSettled k → Ensures (Scheduled k) (schedule k)
unfolding schedule
schedule-Scheduled k s =
    Ensures-bind (Waking k []) (Scheduled k) _ _ (try_wakeup_tasks-Waking k s.formed s.awake)
      λ k1 v.
        Ensures-bind (Reaping k1 []) (Scheduled k) _ _
          (reap_zombies-Reaping k1 v.formed
            (All-map (k1.queues sleeping) (λ p h. ground arith) v.asleep))
          λ k2 u.
            choose-Scheduled k k2 _ u.formed u.asleep
              (λ e.
                s.not_ready (rw (u.same_tasks, u.same_current, v.same_current, v.same_task) at e))
              refl
