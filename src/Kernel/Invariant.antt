-- ===== src/Kernel/Invariant.antt =====
-- The invariant of the task lists, and what the list operations of kernel/task.c do to it.
use domin_os.Base.{
  ℕ, zero, suc, ◌≡◌, refl, sym, ap, ◌∙◌, ◌≢◌, true, false, some, [], arith, Bool-cases,
  Option-cases, inl, inr, All, All-map, IsNodup,
}
use domin_os.Queue.{Ptr}
use domin_os.Queue.Spec.{IsSorted, All-insert, insert-IsSorted, insert-IsNodup}
use domin_os.Kernel.{
  TaskState, startup, running, ready, sleeping, zombie, interrupted_sem, interrupted_msg,
  interrupted_io, interrupted_child, Task, MQueue, Kernel,
}
use domin_os.Kernel.Lists.{
  has, erase, same_state, is_queued, waits_below, nb_queue, is_linked, erase_msg, unlinked,
  prio_key, update_task, insert_in, state_of,
}
use domin_os.Kernel.Facts.{
  has-of_state, Fresh-of_has, All-erase, erase-IsNodup, erase-IsSorted, has-erase-false,
  has-erase_self, All-off, IsSorted-off, IsSorted-ext,
}

abbrev pub Waiting : Kernel → MQueue → Type 0
Waiting k q =
    All (λ t. state_of k t ≡ interrupted_msg) q.senders
    × All (λ t. state_of k t ≡ interrupted_msg) q.receivers

-- Each list holds tasks of its own state, none twice, in rising order of priority; there is no list
-- for the other states; and a task that waits at a message queue is in that state.
pub record WellFormed (k : Kernel) : Type 0 where
  pub own : (s : TaskState) → All (λ t. state_of k t ≡ s) (k.queues s)
  pub once : (s : TaskState) → IsNodup (k.queues s)
  pub sorted : (s : TaskState) → IsSorted (prio_key k) (k.queues s)
  pub only : (s : TaskState) → is_queued s ≡ false → k.queues s ≡ []
  pub waiting : (i : ℕ) (q : MQueue) → k.mqueues i ≡ some q → Waiting k q

-- The task's `tasks` link is in no list.
pub record Absent (t : Ptr) (k : Kernel) : Type 0 where
  pub lists : (s : TaskState) → has t (k.queues s) ≡ false
  pub senders : (i : ℕ) (q : MQueue) → k.mqueues i ≡ some q → has t q.senders ≡ false
  pub receivers : (i : ℕ) (q : MQueue) → k.mqueues i ≡ some q → has t q.receivers ≡ false

waits_below-Absent : (n : ℕ) (t : Ptr) (k : Kernel) → Absent t k → waits_below n t k.mqueues ≡ false
unfolding waits_below
waits_below-Absent zero t k a = refl
waits_below-Absent (suc n) t k a = elim (Option-cases (k.mqueues n)) [
  | inl e ↦ rw e (waits_below-Absent n t k a)
  | inr (q, e) ↦ rw (e, a.senders n q e, a.receivers n q e) (waits_below-Absent n t k a)
]

pub is_linked-Absent : (t : Ptr) (k : Kernel) → Absent t k → is_linked t k ≡ false
unfolding is_linked
is_linked-Absent t k a =
    rw (a.lists ready, a.lists sleeping, a.lists zombie, a.lists interrupted_child)
      (waits_below-Absent nb_queue t k a)

-- A task that runs or starts up is in no list.
pub Absent-of_state :
    (t : Ptr) (k : Kernel)
    → WellFormed k
    → is_queued (state_of k t) ≡ false
    → state_of k t ≢ interrupted_msg
    → Absent t k
Absent-of_state t k w n m = record {
  lists = λ s. elim (Bool-cases (is_queued s)) [
    | inl e ↦ has-of_state (state_of k) s t (k.queues s) (w.own s) (λ q. cc)
    | inr e ↦ rw (w.only s e)
  ];
  senders = λ i q e. has-of_state (state_of k) interrupted_msg t _ (w.waiting i q e).0 m;
  receivers = λ i q e. has-of_state (state_of k) interrupted_msg t _ (w.waiting i q e).1 m;
}

-- A queue after an unlinking is a queue from before it.
unlinked-queue :
    (t : Ptr) (k : Kernel) (i : ℕ) (q : MQueue)
    → (unlinked t k).mqueues i ≡ some q
    → (q' : MQueue) × (k.mqueues i ≡ some q')
      × (q.senders ≡ erase t q'.senders)
      × (q.receivers ≡ erase t q'.receivers)
unfolding unlinked erase_msg
unlinked-queue t k i q e = elim (Option-cases (k.mqueues i)) [
  | inl n ↦ absurd (ground arith)
  | inr (q', n) ↦ (q', n, ground arith, ground arith)
]

-- `queue_del` keeps the invariant, and leaves the task in no list.
pub unlinked-WellFormed : (t : Ptr) (k : Kernel) → WellFormed k → WellFormed (unlinked t k)
unfolding unlinked erase_msg
unlinked-WellFormed t k w = record {
  own = λ s. All-erase _ t (k.queues s) (w.own s);
  once = λ s. erase-IsNodup t (k.queues s) (w.once s);
  sorted = λ s. erase-IsSorted (prio_key k) t (k.queues s) (w.sorted s);
  only = λ s e. rw (w.only s e) (unfold erase in refl);
  waiting = λ i q e.
      let (q', n, a, b) = unlinked-queue t k i q e in
      let h = w.waiting i q' n in
      (rw a (All-erase _ t q'.senders h.0), rw b (All-erase _ t q'.receivers h.1));
}

pub unlinked-Absent :
    (t : Ptr) (k : Kernel) → WellFormed k → state_of k t ≢ interrupted_msg → Absent t (unlinked t k)
unfolding unlinked
unlinked-Absent t k w m = record {
  lists = λ s. has-erase_self t (k.queues s) (w.once s);
  senders = λ i q e.
      let (q', n, a, b) = unlinked-queue t k i q e in
      rw a (
        has-erase-false t t q'.senders
          (has-of_state (state_of k) interrupted_msg t _ (w.waiting i q' n).0 m));
  receivers = λ i q e.
      let (q', n, a, b) = unlinked-queue t k i q e in
      rw b (
        has-erase-false t t q'.receivers
          (has-of_state (state_of k) interrupted_msg t _ (w.waiting i q' n).1 m));
}

-- A task in no list can be changed at will.
pub update_task-WellFormed :
    (t : Ptr) (f : Task → Task) (k : Kernel)
    → WellFormed k
    → Absent t k
    → WellFormed (update_task t f k)
update_task-WellFormed t f k w a = record {
  own = λ s.
      All-off (λ p. state_of k p ≡ s) (λ p. state_of (update_task t f k) p ≡ s) t (k.queues s)
        (λ p n h. ground arith) (a.lists s) (w.own s);
  once = w.once;
  sorted = λ s.
      IsSorted-off (prio_key k) (prio_key (update_task t f k)) t (k.queues s) (λ p n. ground arith)
        (a.lists s) (w.sorted s);
  only = w.only;
  waiting = λ i q e. (
    All-off (λ p. state_of k p ≡ interrupted_msg)
        (λ p. state_of (update_task t f k) p ≡ interrupted_msg) t q.senders (λ p n h. ground arith)
        (a.senders i q e) (w.waiting i q e).0,
    All-off (λ p. state_of k p ≡ interrupted_msg)
        (λ p. state_of (update_task t f k) p ≡ interrupted_msg) t q.receivers
        (λ p n h. ground arith) (a.receivers i q e) (w.waiting i q e).1,
  );
}

-- A listed task can be changed where neither its state nor its priority changes.
pub update_task-WellFormed_keep :
    (t : Ptr) (f : Task → Task) (k : Kernel)
    → (f (k.task t)).state ≡ (k.task t).state
    → (f (k.task t)).priority ≡ (k.task t).priority
    → WellFormed k
    → WellFormed (update_task t f k)
update_task-WellFormed_keep t f k es ep w = record {
  own = λ s. All-map (k.queues s) (λ p h. ground arith) (w.own s);
  once = w.once;
  sorted = λ s.
      IsSorted-ext (prio_key k) (prio_key (update_task t f k)) (k.queues s) (λ p. ground arith)
        (w.sorted s);
  only = w.only;
  waiting = λ i q e. (
    All-map q.senders (λ p h. ground arith) (w.waiting i q e).0,
    All-map q.receivers (λ p h. ground arith) (w.waiting i q e).1,
  );
}

-- The tests on states.
pub same_state-eq : (a b : TaskState) → same_state a b ≡ true → a ≡ b
same_state-eq startup b h = ground arith
same_state-eq running b h = ground arith
same_state-eq ready b h = ground arith
same_state-eq sleeping b h = ground arith
same_state-eq zombie b h = ground arith
same_state-eq interrupted_sem b h = ground arith
same_state-eq interrupted_msg b h = ground arith
same_state-eq interrupted_io b h = ground arith
same_state-eq interrupted_child b h = ground arith

-- A task of the right state in no list can be put in the list of its state.
pub insert_in-WellFormed :
    (s : TaskState) (t : Ptr) (k : Kernel)
    → WellFormed k
    → Absent t k
    → state_of k t ≡ s
    → is_queued s ≡ true
    → WellFormed (insert_in s t k)
unfolding insert_in
insert_in-WellFormed s t k w a e q = record {
  own = λ p. elim (Bool-cases (same_state p s)) [
    | inl h ↦
        rw h (All-insert (prio_key k) _ t (k.queues p) (e ∙ sym (same_state-eq p s h)) (w.own p))
    | inr h ↦ rw h (w.own p)
  ];
  once = λ p. elim (Bool-cases (same_state p s)) [
    | inl h ↦
        rw h (insert-IsNodup (prio_key k) t (k.queues p) (Fresh-of_has t _ (a.lists p)) (w.once p))
    | inr h ↦ rw h (w.once p)
  ];
  sorted = λ p. elim (Bool-cases (same_state p s)) [
    | inl h ↦ rw h (insert-IsSorted (prio_key k) t (k.queues p) (w.sorted p))
    | inr h ↦ rw h (w.sorted p)
  ];
  only = λ p n. elim (Bool-cases (same_state p s)) [
    | inl h ↦ absurd (ground (arith, ap is_queued (same_state-eq p s h)))
    | inr h ↦ rw h (w.only p n)
  ];
  waiting = w.waiting;
}
