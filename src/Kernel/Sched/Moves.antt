-- ===== src/Kernel/Sched/Moves.antt =====
-- `__set_task_state` and `set_task_running` succeed where the task's link is as they expect, and keep
-- the invariant.
use domin_os.Base.{◌≡◌, refl, ap, ◌≢◌, true, false, some, arith, Bool-cases, inl, inr}
use domin_os.Queue.{Ptr}
use domin_os.Kernel.{
  TaskState, startup, running, ready, sleeping, zombie, interrupted_msg, interrupted_child, Task,
  Kernel,
}
use domin_os.Kernel.Lists.{
  has, is_queued, is_linked, unlinked, del_tasks, update_task, set_state, insert_in, add_tasks,
  state_of, same_state,
}
use domin_os.Kernel.Invariant.{
  WellFormed, Absent, is_linked-Absent, unlinked-WellFormed, unlinked-Absent,
  update_task-WellFormed, insert_in-WellFormed, same_state-eq,
}
use domin_os.Kernel.Sched.{is_current, set_task_state, set_task_running}

-- The task goes to the list of its new state.
unfoldable pub placed : TaskState → Ptr → Kernel → Kernel
unfolding insert_in
placed s t k = insert_in s t (update_task t (set_state s) k)

Absent-update : (t : Ptr) (f : Task → Task) (k : Kernel) → Absent t k → Absent t (update_task t f k)
Absent-update t f k a = record { lists = a.lists; senders = a.senders; receivers = a.receivers }

pub placed-WellFormed :
    (s : TaskState) (t : Ptr) (k : Kernel)
    → WellFormed k
    → Absent t k
    → is_queued s ≡ true
    → WellFormed (placed s t k)
unfolding placed
placed-WellFormed s t k w a q =
    insert_in-WellFormed s t _ (update_task-WellFormed t (set_state s) k w a)
      (Absent-update t (set_state s) k a) (ground arith) q

pub is_linked-has :
    (s : TaskState) (t : Ptr) (k : Kernel)
    → is_queued s ≡ true
    → has t (k.queues s) ≡ true
    → is_linked t k ≡ true
unfolding is_linked
is_linked-has ready t k q h = ground arith
is_linked-has sleeping t k q h = ground arith
is_linked-has zombie t k q h = ground arith
is_linked-has interrupted_child t k q h = ground arith
is_linked-has s t k q h = cc

pub same_state-ne : (a b : TaskState) → a ≢ b → same_state a b ≡ false
same_state-ne a b n = elim (Bool-cases (same_state a b)) [
  | inl h ↦ absurd (n (same_state-eq a b h))
  | inr h ↦ h
]

module _ (s : TaskState) (t : Ptr) (k : Kernel) (new : state_of k t ≢ s) where
  -- The current task is in no list, and is not taken out of one.
  pub set_task_state-current :
      k.current ≡ t → Absent t k → set_task_state s t k ≡ some (placed s t k)
  unfolding set_task_state placed add_tasks
  set_task_state-current c a = rw (same_state-ne (state_of k t) s new) (
      let here : is_current k t ≡ true = ground arith in
      rw here (rw (is_linked-Absent t _ (Absent-update t (set_state s) k a))))

  -- Any other task is moved from the list of its state.
  pub set_task_state-moved :
      Absent t (unlinked t k)
      → k.current ≢ t
      → is_queued (state_of k t) ≡ true
      → has t (k.queues (state_of k t)) ≡ true
      → set_task_state s t k ≡ some (placed s t (unlinked t k))
  unfolding set_task_state placed del_tasks add_tasks
  set_task_state-moved a c q h =
      let m : state_of k t ≢ interrupted_msg = λ e. ground (arith, ap is_queued e) in
      let u : state_of k t ≢ startup = λ e. ground (arith, ap is_queued e) in
      let away : is_current k t ≡ false = ground arith in
      rw (
        same_state-ne (state_of k t) s new,
        away,
        same_state-ne (state_of k t) startup u,
        same_state-ne (state_of k t) interrupted_msg m,
        is_linked-has (state_of k t) t k q h,
        is_linked-Absent t _ (Absent-update t (set_state s) (unlinked t k) a),
      )

  pub set_task_state-linked :
      WellFormed k
      → k.current ≢ t
      → is_queued (state_of k t) ≡ true
      → has t (k.queues (state_of k t)) ≡ true
      → set_task_state s t k ≡ some (placed s t (unlinked t k))
  set_task_state-linked w c q h =
      set_task_state-moved (unlinked-Absent t k w (λ e. ground (arith, ap is_queued e))) c q h

-- The lists do not mention `current`, nor what else the kernel keeps about its tasks.
pub WellFormed-ext :
    (k k' : Kernel)
    → k'.task ≡ k.task
    → k'.queues ≡ k.queues
    → k'.mqueues ≡ k.mqueues
    → WellFormed k
    → WellFormed k'
WellFormed-ext k k' et eq em w = record {
  own = λ s. rw (et, eq) (w.own s);
  once = λ s. rw eq (w.once s);
  sorted = λ s. rw (et, eq) (w.sorted s);
  only = λ s h. rw eq (w.only s h);
  waiting = λ i q h. rw et (w.waiting i q (rw em at h));
}

unfoldable pub made_running : Ptr → Kernel → Kernel
made_running t k = record (update_task t (set_state running) (unlinked t k)) { current = t }

pub made_running-WellFormed :
    (t : Ptr) (k : Kernel)
    → WellFormed k
    → state_of k t ≢ interrupted_msg
    → WellFormed (made_running t k)
unfolding made_running
made_running-WellFormed t k w m =
    WellFormed-ext (update_task t (set_state running) (unlinked t k)) _ refl refl refl (
      update_task-WellFormed t (set_state running) (unlinked t k) (unlinked-WellFormed t k w)
        (unlinked-Absent t k w m))

pub set_task_running-linked :
    (t : Ptr) (k : Kernel)
    → is_queued (state_of k t) ≡ true
    → has t (k.queues (state_of k t)) ≡ true
    → set_task_running t k ≡ some (made_running t k)
unfolding set_task_running made_running del_tasks
set_task_running-linked t k q h = rw (
  same_state-ne (state_of k t) startup (λ e. ground (arith, ap is_queued e)),
  same_state-ne (state_of k t) running (λ e. ground (arith, ap is_queued e)),
  is_linked-has (state_of k t) t k q h,
)
