-- ===== src/Process/Bury.antt =====
-- A task goes to the list of the dead: the step of kernel/exit.c that kernel/task.c carries out.
use domin_os.Base.{true, ◌≡◌, refl, sym, ap, ◌∙◌, ◌≢◌, ◌⊎◌, inl, inr, arith, Bool-cases, Ensures}
use domin_os.Queue.{Ptr}
use domin_os.Kernel.{TaskState, running, zombie, interrupted_msg, Kernel}
use domin_os.Kernel.Lists.{has, is_queued, unlinked, insert_in, state_of, same_state, prio_key}
use domin_os.Kernel.Facts.{has-insert_self, has-insert, has-erase_ne, All-off, IsSorted-off}
use domin_os.Kernel.Invariant.{
  WellFormed, Absent, Absent-of_state, unlinked-WellFormed, unlinked-Absent,
}
use domin_os.Kernel.Sched.{set_task_state}
use domin_os.Kernel.Sched.Moves.{
  placed, placed-WellFormed, set_task_state-current, set_task_state-moved,
}

-- The two states have the same lists, and the same tasks but for `t`, which keeps its state.
pub record Differs (t : Ptr) (k k' : Kernel) : Type 0 where
  pub off : (p : Ptr) → p ≢ t → k'.task p ≡ k.task p
  pub state_kept : state_of k' t ≡ state_of k t
  pub queues_kept : k'.queues ≡ k.queues
  pub mqueues_kept : k'.mqueues ≡ k.mqueues
  pub current_kept : k'.current ≡ k.current

Differs-WellFormed :
    (t : Ptr) (k k' : Kernel)
    → ((p : Ptr) → p ≢ t → k'.task p ≡ k.task p)
    → k'.queues ≡ k.queues
    → k'.mqueues ≡ k.mqueues
    → WellFormed k
    → Absent t k
    → WellFormed k'
Differs-WellFormed t k k' off eq em w a = record {
  own = λ s. rw eq (
      All-off (λ p. state_of k p ≡ s) (λ p. state_of k' p ≡ s) t (k.queues s)
        (λ p n h. ap (λ x. x.state) (off p n) ∙ h) (a.lists s) (w.own s));
  once = λ s. rw eq (w.once s);
  sorted = λ s. rw eq (
      IsSorted-off (prio_key k) (prio_key k') t (k.queues s) (λ p n. rw (off p n) refl) (a.lists s)
        (w.sorted s));
  only = λ s e. rw eq (w.only s e);
  waiting = λ i q e.
      let e' = rw em at e in
      (
        All-off (λ p. state_of k p ≡ interrupted_msg) (λ p. state_of k' p ≡ interrupted_msg) t
            q.senders (λ p n h. ap (λ x. x.state) (off p n) ∙ h) (a.senders i q e')
            (w.waiting i q e').0,
        All-off (λ p. state_of k p ≡ interrupted_msg) (λ p. state_of k' p ≡ interrupted_msg) t
            q.receivers (λ p n h. ap (λ x. x.state) (off p n) ∙ h) (a.receivers i q e')
            (w.waiting i q e').1,
      );
}

Absent-ext :
    (t : Ptr) (k k' : Kernel)
    → k'.queues ≡ k.queues
    → k'.mqueues ≡ k.mqueues
    → Absent t k
    → Absent t k'
Absent-ext t k k' eq em a = record {
  lists = λ s. rw eq (a.lists s);
  senders = λ i q e. a.senders i q (rw em at e);
  receivers = λ i q e. a.receivers i q (rw em at e);
}

-- A task that is where its state says, so that it can be moved: it runs, or its list holds it.
unfoldable pub Placed : Ptr → Kernel → Type 0
Placed t k =
    ((k.current ≡ t) × (state_of k t ≡ running))
    ⊎ ((k.current ≢ t)
        × (is_queued (state_of k t) ≡ true)
        × (has t (k.queues (state_of k t)) ≡ true))

-- What moving `t` to the list of dead tasks does.
pub record Moved (t : Ptr) (k k' after : Kernel) : Type 0 where
  pub formed : WellFormed after
  pub dead : state_of after t ≡ zombie
  pub value : (after.task t).retval ≡ (k'.task t).retval
  pub number : (after.task t).pid ≡ (k'.task t).pid
  pub parent : (after.task t).parent ≡ (k'.task t).parent
  pub listed : has t (after.queues zombie) ≡ true
  pub others : (p : Ptr) → p ≢ t → after.task p ≡ k.task p
  pub members :
      (s : TaskState) (p : Ptr) → p ≢ t → has p (k.queues s) ≡ true → has p (after.queues s) ≡ true
  pub globals : after.global_list ≡ k'.global_list
  pub pids : after.pid_used ≡ k'.pid_used
  pub same_current : after.current ≡ k.current

module _ (t : Ptr) (k k' : Kernel) (w : WellFormed k) (d : Differs t k k')
    (alive : state_of k t ≢ zombie) where
  placed-Moved :
      (kk : Kernel)
      → WellFormed kk
      → Absent t kk
      → kk.task ≡ k'.task
      → ((s : TaskState) (p : Ptr) → p ≢ t → has p (kk.queues s) ≡ has p (k.queues s))
      → kk.global_list ≡ k'.global_list
      → kk.pid_used ≡ k'.pid_used
      → kk.current ≡ k'.current
      → Moved t k k' (placed zombie t kk)
  unfolding placed insert_in
  placed-Moved kk wk a et eq eg ep ec = record {
    formed = placed-WellFormed zombie t kk wk a refl;
    dead = ground arith;
    value = ground (arith, et);
    number = ground (arith, et);
    parent = ground (arith, et);
    listed = has-insert_self _ t (kk.queues zombie);
    others = λ p n. ground (arith, et, d.off p n);
    members = λ s p n h. elim (Bool-cases (same_state s zombie)) [
      | inl z ↦ rw z (has-insert _ t p (kk.queues s) (eq s p n ∙ h))
      | inr z ↦ rw z (eq s p n ∙ h)
    ];
    globals = eg;
    pids = ep;
    same_current = ec ∙ d.current_kept;
  }

  pub set_task_state-Moved : Placed t k → Ensures (Moved t k k') (set_task_state zombie t k')
  unfolding Placed
  set_task_state-Moved (inl (c, r)) =
      let a = Absent-of_state t k w (ap is_queued r) (λ e. ground (arith, r)) in
      let a' = Absent-ext t k k' d.queues_kept d.mqueues_kept a in
      rw
        (set_task_state-current zombie t k' (λ e. alive (sym d.state_kept ∙ e)) (d.current_kept ∙ c)
          a')
        (placed-Moved k' (Differs-WellFormed t k k' d.off d.queues_kept d.mqueues_kept w a) a' refl
          (λ s p n. rw d.queues_kept refl) refl refl refl)
  set_task_state-Moved (inr (c, q, h)) =
      let a = unlinked-Absent t k w (λ e. ground (arith, ap is_queued e)) in
      let eq : (unlinked t k').queues ≡ (unlinked t k).queues =
        unfold unlinked in rw d.queues_kept refl in
      let em : (unlinked t k').mqueues ≡ (unlinked t k).mqueues =
        unfold unlinked in rw d.mqueues_kept refl in
      let a' = Absent-ext t (unlinked t k) (unlinked t k') eq em a in
      let wk =
        Differs-WellFormed t (unlinked t k) (unlinked t k') (unfold unlinked in d.off) eq em
          (unlinked-WellFormed t k w) a in
      rw
        (set_task_state-moved zombie t k' (λ e. alive (sym d.state_kept ∙ e)) a'
          (λ e. c (sym d.current_kept ∙ e)) (ap is_queued d.state_kept ∙ q)
          (rw (d.state_kept, d.queues_kept) h))
        (placed-Moved (unlinked t k') wk a' (unfold unlinked in refl)
          (λ s p n. unfold unlinked in rw d.queues_kept (has-erase_ne p t (k.queues s) n))
          (unfold unlinked in refl) (unfold unlinked in refl) (unfold unlinked in refl))
