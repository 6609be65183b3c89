-- ===== src/Process/Exit.antt =====
-- How a process dies: kernel/exit.c and kernel/kill.c.
use domin_os.Base.{
  ℕ, true, false, none, some, ◌==◌, ◌≡◌, refl, sym, ap, ◌∙◌, ◌≢◌, ◌⊎◌, inl, inr, arith, Bool-cases,
  Ensures, Ensures-bind,
}
use domin_os.Queue.{Ptr}
use domin_os.Kernel.{ready, zombie, interrupted_child, Kernel}
use domin_os.Kernel.Lists.{
  has, erase, is_queued, unlinked, update_task, insert_in, state_of, nb_queue,
}
use domin_os.Kernel.Facts.{has-insert_self, has-erase_ne}
use domin_os.Kernel.Invariant.{WellFormed, unlinked-WellFormed, unlinked-Absent, same_state-eq}
use domin_os.Kernel.Sched.{set_task_state, is_state, is_current, schedule}
use domin_os.Kernel.Sched.Moves.{placed, placed-WellFormed, set_task_state-linked, same_state-ne}
use domin_os.Kernel.Sched.Highest.{Scheduled, schedule-Scheduled}
use domin_os.Msg.Control.{queue_from_msg}
use domin_os.Process.{
  died, exit_task, kill, free_pid, remove_from_global_list, unlock_interrupted_child_parent,
  pid_to_task,
}
use domin_os.Process.Bury.{Differs, Placed, Moved, set_task_state-Moved}

-- The task with the priority of a dead one.
abbrev pub doomed : Ptr → Kernel → Kernel
doomed t k = update_task t (died k.total_ticks) k

-- A task that can die in good order: it lives, is not idle, is where its state says, waits at no
-- message queue, and a parent that waits for a child is in the list of such tasks.
pub record CanExit (t : Ptr) (k : Kernel) : Type 0 where
  pub formed : WellFormed k
  pub busy : t ≢ k.idle
  pub alive : state_of k t ≢ zombie
  pub place : Placed t k
  pub known : has t k.global_list ≡ true
  pub no_queue : queue_from_msg nb_queue 0 ((doomed t k).task t).pid (doomed t k) ≡ none
  pub apart : (k.task t).parent ≢ t
  pub parent_place :
      state_of k (k.task t).parent ≡ interrupted_child
      → (k.current ≢ (k.task t).parent)
        × (has (k.task t).parent (k.queues interrupted_child) ≡ true)

-- What its death leaves behind.
pub record Exited (t : Ptr) (retval : ℕ) (k after : Kernel) : Type 0 where
  pub formed : WellFormed after
  pub dead : state_of after t ≡ zombie
  pub value : (after.task t).retval ≡ retval
  pub listed : has t (after.queues zombie) ≡ true
  pub forgotten : after.global_list ≡ erase t k.global_list
  pub pid_freed : after.pid_used (k.task t).pid ≡ false
  pub parent_woken :
      state_of k (k.task t).parent ≡ interrupted_child
      → (state_of after (k.task t).parent ≡ ready)
        × (has (k.task t).parent (after.queues ready) ≡ true)
  pub others :
      (p : Ptr)
      → p ≢ t
      → (p ≢ (k.task t).parent) ⊎ (state_of k p ≢ interrupted_child)
      → after.task p ≡ k.task p
  pub same_current : after.current ≡ k.current

-- The state in which the task goes to the list of the dead.
abbrev dying : Ptr → ℕ → Kernel → Kernel
dying t v k =
    update_task t (λ x. record x { retval = v })
      (record (doomed t k) {
        global_list = erase t k.global_list;
        pid_used = free_pid ((doomed t k).task t).pid k.pid_used;
      })

module _ (t : Ptr) (v : ℕ) (k : Kernel) (c : CanExit t k) where
  dying-Differs : Differs t k (dying t v k)
  dying-Differs = record {
    off = λ p n. ground arith;
    state_kept = ground arith;
    queues_kept = refl;
    mqueues_kept = refl;
    current_kept = refl;
  }

  abbrev par : Ptr
  par = (k.task t).parent

  -- With a parent that does not wait.
  quiet-Exited :
      (k5 : Kernel)
      → Moved t k (dying t v k) k5
      → state_of k par ≢ interrupted_child
      → Exited t v k k5
  unfolding free_pid
  quiet-Exited k5 m n = record {
    formed = m.formed;
    dead = m.dead;
    value = ground (arith, m.value);
    listed = m.listed;
    forgotten = m.globals;
    pid_freed = ground (arith, m.pids);
    parent_woken = λ e. absurd (n e);
    others = λ p h g. m.others p h;
    same_current = m.same_current;
  }

  -- With a parent that waits, which goes to the list of ready tasks.
  woken-Exited :
      (k5 : Kernel)
      → Moved t k (dying t v k) k5
      → state_of k par ≡ interrupted_child
      → Ensures (Exited t v k) (set_task_state ready par k5)
  unfolding free_pid placed insert_in unlinked
  woken-Exited k5 m e =
      let st : state_of k5 par ≡ interrupted_child = ap (λ x. x.state) (m.others par c.apart) ∙ e in
      let pp = c.parent_place e in
      rw
        (set_task_state-linked ready par k5 (λ r. ground (arith, st)) m.formed
          (λ q. pp.0 (sym m.same_current ∙ q)) (ap is_queued st)
          (rw st (m.members interrupted_child par c.apart pp.1)))
        (record {
          formed =
              placed-WellFormed ready par (unlinked par k5) (unlinked-WellFormed par k5 m.formed)
                (unlinked-Absent par k5 m.formed (λ q. ground (arith, st))) refl;
          dead = ground (arith, m.dead, c.apart);
          value = ground (arith, m.value, c.apart);
          listed = has-erase_ne t par (k5.queues zombie) (λ q. c.apart (sym q)) ∙ m.listed;
          forgotten = m.globals;
          pid_freed = ground (arith, m.pids);
          parent_woken = λ r. (ground arith, has-insert_self _ par (erase par (k5.queues ready)));
          others = λ p h g. elim g [
            | inl n ↦ ground (arith, m.others p h)
            | inr n ↦ elim (Bool-cases (p == par)) [
              | inl s ↦ absurd (n (ap (state_of k) (ground arith) ∙ e))
              | inr s ↦ rw s (m.others p h)
            ]
          ];
          same_current = m.same_current;
        })

  unlock-Exited :
      (k5 : Kernel)
      → Moved t k (dying t v k) k5
      → Ensures (Exited t v k) (unlock_interrupted_child_parent (k5.task t).parent k5)
  unfolding unlock_interrupted_child_parent
  unlock-Exited k5 m =
      let same : (k5.task t).parent ≡ par = ground (arith, m.parent) in
      rw same (elim (Bool-cases (is_state k5 par interrupted_child)) [
        | inl e ↦ rw e (
            woken-Exited k5 m (
              sym (ap (λ x. x.state) (m.others par c.apart)) ∙ same_state-eq _ interrupted_child e))
        | inr e ↦ rw e (quiet-Exited k5 m λ q. ground (arith, m.others par c.apart))
      ])

  -- A task that can die does: `__exit_task` returns 0 and ends without a panic.
  pub exit_task-Exited : Ensures (λ r. (r.0 ≡ 0) × Exited t v k r.1) (exit_task t v k)
  unfolding exit_task remove_from_global_list
  exit_task-Exited =
      let awake : (t == k.idle) ≡ false = ground (arith, c.busy) in
      let live : is_state k t zombie ≡ false = same_state-ne (state_of k t) zombie c.alive in
      rw (awake, live, c.no_queue, c.known)
        (Ensures-bind (Moved t k (dying t v k)) _ _ _
          (set_task_state-Moved t k (dying t v k) c.formed dying-Differs c.alive c.place)
          λ k5 m. Ensures-bind (Exited t v k) _ _ _ (unlock-Exited k5 m) λ k6 x. (refl, x))

-- `kill` of a living task that is not idle, not current, in the list that its state says and at
-- no message queue, whose parent is another task and, if it waits for a child, not current and
-- in the list of such tasks, from a well-formed state, returns 0 and ends without a panic: the
-- task is a zombie in the list of zombies with the value 0, it is out of the global list, its
-- number is free, a parent that waits for a child is ready and in the ready list, every other
-- task is as it was, and the lists are well formed.
pub kill-Exited :
    (pid : ℕ) (t : Ptr) (k : Kernel)
    → pid_to_task pid k ≡ some t
    → CanExit t k
    → k.current ≢ t
    → Ensures (λ r. (r.0 ≡ 0) × Exited t 0 k r.1) (kill pid k)
unfolding kill
kill-Exited pid t k f c n =
    let awake : (t == k.idle) ≡ false = ground (arith, c.busy) in
    rw (kill, f, awake)
      (Ensures-bind (λ r. (r.0 ≡ 0) × Exited t 0 k r.1) (λ r. (r.0 ≡ 0) × Exited t 0 k r.1) _ _
        (exit_task-Exited t 0 k c)
        λ r x.
          let away : is_current r.1 t ≡ false = ground (arith, n, x.1.same_current) in rw away x)

-- The current task that ends itself, by `kill` or `exit`: it dies, and the scheduler's contract
-- holds from there.
exit_schedule :
    (v : ℕ) (k k1 : Kernel) → Exited k.current v k k1 → Ensures (Scheduled k1) (schedule k1)
exit_schedule v k k1 x = schedule-Scheduled k1 (record {
  formed = x.formed;
  awake = λ e. ground (arith, x.same_current, x.dead);
  not_ready = λ e. ground (arith, x.same_current, x.dead);
})

-- `kill` of the calling task, under the same conditions, returns 0 after the task has died as
-- above, and the contract of `schedule` holds from the state in which it died.
pub kill-Scheduled :
    (pid : ℕ) (k : Kernel)
    → pid_to_task pid k ≡ some k.current
    → CanExit k.current k
    → Ensures
        (λ r. (r.0 ≡ 0) × (k1 : Kernel) × Exited k.current 0 k k1 × Scheduled k1 r.1)
        (kill pid k)
unfolding kill
kill-Scheduled pid k f c =
    let awake : (k.current == k.idle) ≡ false = ground (arith, c.busy) in
    rw (kill, f, awake)
      (Ensures-bind (λ r. (r.0 ≡ 0) × Exited k.current 0 k r.1) _ _ _
        (exit_task-Exited k.current 0 k c)
        λ r x.
          let me : is_current r.1 k.current ≡ true = ground (arith, x.1.same_current) in
          rw me (
            Ensures-bind (Scheduled r.1) _ _ _ (exit_schedule 0 k r.1 x.1)
              λ k2 s. (x.0, r.1, x.1, s)))
