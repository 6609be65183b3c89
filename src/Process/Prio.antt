-- ===== src/Process/Prio.antt =====
-- Changes of priority: kernel/prio.c.
use domin_os.Base.{
  ℕ, Bool, true, false, Option, some, [], ◌==◌, if◌then◌else◌, ◌>>=◌, ◌&&◌, ◌≡◌, refl, sym, ap, ◌∙◌,
  ◌≢◌, ◌≤◌, ◌⊎◌, inl, inr, arith, Bool-cases, All-map, Ensures, Ensures-bind, Ensures-mono,
}
use domin_os.Word.{int_lt}
use domin_os.Queue.{Ptr}
use domin_os.Queue.Spec.{last?, last?-max}
use domin_os.Kernel.{TaskState, running, ready, zombie, interrupted_msg, Kernel}
use domin_os.Kernel.Lists.{
  has, is_queued, unlinked, update_task, insert_in, add_tasks, del_tasks, state_of, same_state,
  prio_key,
}
use domin_os.Kernel.Facts.{has-insert_self, has-insert, has-erase_ne}
use domin_os.Kernel.Invariant.{
  WellFormed, Absent, Absent-of_state, unlinked-WellFormed, unlinked-Absent, is_linked-Absent,
  update_task-WellFormed, insert_in-WellFormed,
}
use domin_os.Kernel.Sched.{is_state, is_current}
use domin_os.Kernel.Sched.Moves.{is_linked-has, same_state-ne, WellFormed-ext}
use domin_os.Kernel.Sched.Highest.{IsHighest, Scheduled, schedule-Scheduled}
use domin_os.Process.{
  pid_to_task, update_queue_priority, chprio_schedule, change_priority, chprio, min_prio, max_prio,
}
use domin_os.Msg.Control.{msg_reinsert}

abbrev pub with_priority : ℕ → Ptr → Kernel → Kernel
with_priority n t k = update_task t (λ x. record x { priority = n }) k

-- The call is for a living task other than idle, with a priority that is allowed.
pub record IsAllowed (pid n : ℕ) (t : Ptr) (k : Kernel) : Type 0 where
  pub found : pid_to_task pid k ≡ some t
  pub busy : t ≢ k.idle
  pub alive : state_of k t ≢ zombie
  pub low : min_prio ≤ n
  pub high : n ≤ max_prio

module _ (pid n : ℕ) (t : Ptr) (k : Kernel) (a : IsAllowed pid n t k) where
  chprio-change : chprio pid n k ≡ (change_priority t n k >>= λ k1. some ((k.task t).priority, k1))
  unfolding chprio
  chprio-change =
      let awake : (t == k.idle) ≡ false = ground (arith, a.busy) in
      let live = same_state-ne (state_of k t) zombie a.alive in
      let above : int_lt max_prio n ≡ false = ground (arith, a.high) in
      let below : int_lt n min_prio ≡ false = ground (arith, a.low, a.high) in
      rw (chprio, a.found, awake, live, above, below)

not_taken : (b : Bool) (x y : Option Kernel) → b ≡ false → (if b then x else y) ≡ y
not_taken b x y e = rw e refl

-- A well-formed state in which the current task runs and none that is ready is more urgent.
pub record IsFair (k : Kernel) : Type 0 where
  pub formed : WellFormed k
  pub highest : (IsHighest k × (state_of k k.current ≡ running)) ⊎ (k.queues ready ≡ [])

module _ (pid n : ℕ) (k : Kernel) (a : IsAllowed pid n k.current k) (w : WellFormed k)
    (r : state_of k k.current ≡ running) (top : Ptr) (e : last? (k.queues ready) ≡ some top) where
  abbrev lowered : Kernel
  lowered = with_priority n k.current k

  lowered_state : state_of lowered k.current ≡ running
  lowered_state = ground (arith, r)

  lowered_formed : WellFormed lowered
  lowered_formed =
      update_task-WellFormed k.current (λ x. record x { priority = n }) k w
        (Absent-of_state k.current k w (ap is_queued r) (λ q. ground (arith, r)))

  lowered_schedule : Ensures IsFair (chprio_schedule k.current n lowered)
  unfolding chprio_schedule
  lowered_schedule =
      let me : is_current lowered k.current ≡ true = ground arith in
      rw (me, e)
        (elim (Bool-cases (int_lt n (lowered.task top).priority)) [
          | inl lt ↦ rw lt (
              Ensures-mono (Scheduled lowered) IsFair _
                (schedule-Scheduled lowered (record {
                  formed = lowered_formed;
                  awake = λ q. ground (arith, lowered_state);
                  not_ready = λ q. ground (arith, lowered_state);
                }))
                λ k1 s. record { formed = s.formed; highest = s.highest })
          | inr ge ↦ rw ge (record {
            formed = lowered_formed;
            highest = inl (
              All-map (k.queues ready) (λ p h. ground arith)
                  (last?-max (prio_key lowered) (k.queues ready) top (lowered_formed.sorted ready)
                    e),
              lowered_state,
            );
          })
        ])

  lowered_no_msg : is_state lowered k.current interrupted_msg ≡ false
  lowered_no_msg = same_state-ne _ interrupted_msg (λ q. ground (arith, lowered_state))

  lowered_stays : update_queue_priority k.current lowered ≡ some lowered
  unfolding update_queue_priority
  lowered_stays =
      let unqueued : is_queued (state_of lowered k.current) ≡ false = ap is_queued lowered_state in
      rw (unqueued, lowered_no_msg) refl

  lowered_change : change_priority k.current n k ≡ chprio_schedule k.current n lowered
  unfolding change_priority
  lowered_change = rw lowered_stays (not_taken _ _ _ lowered_no_msg)

  -- A running task other than idle that sets its own priority to one from 1 to 256, in a
  -- well-formed state with some ready task, gets the old priority back without a panic;
  -- afterwards the lists are well formed and a running task that no ready one exceeds is
  -- current, unless none is ready.
  pub chprio-IsFair :
      Ensures (λ x. (x.0 ≡ (k.task k.current).priority) × IsFair x.1) (chprio pid n k)
  chprio-IsFair =
      rw (chprio-change pid n k.current k a, lowered_change)
        (Ensures-bind IsFair (λ x. (x.0 ≡ (k.task k.current).priority) × IsFair x.1) _
          (λ k1. some ((k.task k.current).priority, k1)) lowered_schedule λ k1 f. (refl, f))

-- The task has the priority, and its place in the list of its state is right for it.
pub record Repositioned (t : Ptr) (n : ℕ) (k after : Kernel) : Type 0 where
  pub formed : WellFormed after
  pub priority_set : (after.task t).priority ≡ n
  pub same_state_of : state_of after t ≡ state_of k t
  pub listed : has t (after.queues (state_of k t)) ≡ true
  pub members :
      (s : TaskState) (p : Ptr) → p ≢ t → has p (k.queues s) ≡ true → has p (after.queues s) ≡ true
  pub others : (p : Ptr) → p ≢ t → after.task p ≡ k.task p
  pub same_current : after.current ≡ k.current

module _ (n : ℕ) (t : Ptr) (k : Kernel) (w : WellFormed k) (q : is_queued (state_of k t) ≡ true)
    (h : has t (k.queues (state_of k t)) ≡ true) where
  abbrev changed : Kernel
  changed = with_priority n t k

  changed_state : state_of changed t ≡ state_of k t
  changed_state = ground arith

  changed-unlinked-WellFormed : WellFormed (unlinked t changed)
  unfolding unlinked
  changed-unlinked-WellFormed = WellFormed-ext (with_priority n t (unlinked t k)) _ refl refl refl (
      update_task-WellFormed t (λ x. record x { priority = n }) (unlinked t k)
        (unlinked-WellFormed t k w) (unlinked-Absent t k w (λ e. ground (arith, ap is_queued e))))

  changed-Absent : Absent t (unlinked t changed)
  unfolding unlinked
  changed-Absent =
      let a = unlinked-Absent t k w (λ e. ground (arith, ap is_queued e)) in
      record { lists = a.lists; senders = a.senders; receivers = a.receivers }

  -- A task that is not current and waits in a list of task.c is moved within that list.
  pub update_queue_priority-Repositioned :
      Ensures (Repositioned t n k) (update_queue_priority t changed)
  unfolding update_queue_priority del_tasks add_tasks
  update_queue_priority-Repositioned =
      let queued : is_queued (state_of changed t) ≡ true = rw changed_state q in
      let linked = is_linked-has (state_of changed t) t changed queued (rw changed_state h) in
      let same : same_state (state_of k t) (state_of changed t) ≡ true = ground arith in
      let st : state_of (unlinked t changed) t ≡ state_of changed t = unfold unlinked in refl in
      rw (queued, linked, is_linked-Absent t (unlinked t changed) changed-Absent)
        (record {
          formed =
              insert_in-WellFormed _ t (unlinked t changed) changed-unlinked-WellFormed
                changed-Absent st queued;
          priority_set = unfold insert_in unlinked in ground arith;
          same_state_of = unfold insert_in unlinked in ground arith;
          listed = unfold insert_in unlinked in rw same (has-insert_self (prio_key changed) t _);
          members = λ s p ne m.
              unfold insert_in unlinked in
              elim (Bool-cases (same_state s (state_of changed t))) [
                | inl e ↦ rw e (has-insert _ t p _ (has-erase_ne p t (k.queues s) ne ∙ m))
                | inr e ↦ rw e (has-erase_ne p t (k.queues s) ne ∙ m)
              ];
          others = λ p ne. unfold insert_in unlinked in ground arith;
          same_current = unfold insert_in unlinked in refl;
        })

module _ (pid n : ℕ) (t : Ptr) (k : Kernel) (a : IsAllowed pid n t k) (w : WellFormed k)
    (q : is_queued (state_of k t) ≡ true) (h : has t (k.queues (state_of k t)) ≡ true)
    (away : k.current ≢ t)
    (calm : (state_of k t ≢ ready) ⊎ (int_lt (k.task k.current).priority n ≡ false)) where
  rest-Repositioned :
      (k1 : Kernel)
      → Repositioned t n k k1
      → Ensures
          (Repositioned t n k)
          (if is_state k1 t interrupted_msg then msg_reinsert t k1 else chprio_schedule t n k1)
  unfolding chprio_schedule
  rest-Repositioned k1 r =
      let no_msg : is_state k1 t interrupted_msg ≡ false =
        same_state-ne _ interrupted_msg
          (λ e. ground (arith, ap is_queued (sym r.same_state_of ∙ e))) in
      let me : is_current k1 t ≡ false = ground (arith, r.same_current, away) in
      let same = r.others k.current away in
      let no_switch : (is_state k1 t ready
            && int_lt (k1.task k1.current).priority (k1.task t).priority)
          ≡ false =
        elim calm [
          | inl e ↦ rw (same_state-ne (state_of k1 t) ready (λ g. e (sym r.same_state_of ∙ g))) refl
          | inr e ↦ rw (r.same_current, same, r.priority_set, e) (ground arith)
        ] in
      rw no_msg (rw me (rw no_switch r))

  -- `chprio` of a living task other than idle that waits in a list of task.c, with a priority
  -- from 1 to 256 that does not make a ready task exceed the current one, returns the old
  -- priority without a panic; the task has the new one and is still in its list, the lists are
  -- well formed, and no other task is changed or leaves its list.
  pub chprio-Repositioned :
      Ensures (λ x. (x.0 ≡ (k.task t).priority) × Repositioned t n k x.1) (chprio pid n k)
  unfolding change_priority
  chprio-Repositioned = rw (chprio-change pid n t k a) (
      Ensures-bind (Repositioned t n k) (λ x. (x.0 ≡ (k.task t).priority) × Repositioned t n k x.1)
        _ (λ k1. some ((k.task t).priority, k1))
        (Ensures-bind (Repositioned t n k) (Repositioned t n k) _ _
          (update_queue_priority-Repositioned n t k w q h) rest-Repositioned)
        λ k1 r. (refl, r))
