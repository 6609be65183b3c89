-- ===== src/Process/Wait.antt =====
-- Waiting for a child: kernel/wait.c.
use domin_os.Base.{
  true, none, some, List, [], ◌∷◌, ◌==◌, ◌≡◌, refl, sym, ap, ◌∙◌, ◌≢◌, ◌⊎◌, inl, inr, arith,
  Bool-cases, All, Ensures, Ensures-bind, Ensures-mono,
}
use domin_os.Queue.{Ptr}
use domin_os.Kernel.{running, zombie, interrupted_child, Kernel}
use domin_os.Kernel.Lists.{has, erase, is_queued, unlinked, del_tasks, insert_in, state_of}
use domin_os.Kernel.Invariant.{
  WellFormed, Absent, Absent-of_state, unlinked-WellFormed, unlinked-Absent, same_state-eq,
}
use domin_os.Kernel.Sched.{is_state, free_task}
use domin_os.Kernel.Sched.Moves.{
  placed, placed-WellFormed, set_task_state-current, is_linked-has, WellFormed-ext,
}
use domin_os.Kernel.Sched.Highest.{Scheduled, schedule-Scheduled}
use domin_os.Process.{Waited, child, waits, first_zombie, collect, block_on_child, wait_any_child}

-- Whether the children hold no dead one, or the first that is dead.
first_zombie_lem :
    (cs : List Ptr) (k : Kernel)
    → ((first_zombie cs k ≡ none) × All (λ c. state_of k c ≢ zombie) cs)
      ⊎ ((z : Ptr) × (first_zombie cs k ≡ some z) × (has z cs ≡ true) × (state_of k z ≡ zombie))
unfolding first_zombie
first_zombie_lem [] k = inl (refl, tt)
first_zombie_lem (c ∷ cs) k = elim (Bool-cases (is_state k c zombie)) [
  | inl e ↦ rw e (inr (c, refl, ground arith, same_state-eq (state_of k c) zombie e))
  | inr e ↦ rw e (elim (first_zombie_lem cs k) [
    | inl (n, a) ↦ inl (n, (λ s. ground (arith, s), a))
    | inr (z, f, h, s) ↦ inr (z, f, ground arith, s)
  ])
]

-- `z` was a dead child of the caller; its number and value are returned, and it is freed: it is in no
-- list, and no child of any task that had it once.
pub record Collected (k : Kernel) (reply : Waited) (after : Kernel) (z : Ptr) : Type 0 where
  pub was_child : has z (k.children k.current) ≡ true
  pub was_dead : state_of k z ≡ zombie
  pub reply_of : reply ≡ child (k.task z).pid (k.task z).retval
  pub formed : WellFormed after
  pub gone : Absent z after
  pub orphaned : (p : Ptr) → after.children p ≡ erase z (k.children p)
  pub freed_one : after.freed ≡ z ∷ k.freed
  pub same_task : after.task ≡ k.task
  pub same_current : after.current ≡ k.current

collect-Collected :
    (z : Ptr) (k : Kernel)
    → WellFormed k
    → has z (k.children k.current) ≡ true
    → state_of k z ≡ zombie
    → has z (k.queues zombie) ≡ true
    → Ensures (λ r. Collected k r.0 r.1 z) (collect z k)
unfolding collect free_task del_tasks
collect-Collected z k w c s h = rw (is_linked-has zombie z k refl h) (
    let a = unlinked-Absent z k w (λ e. ground (arith, s)) in
    record {
      was_child = c;
      was_dead = s;
      reply_of = refl;
      formed = WellFormed-ext (unlinked z k) _ refl refl refl (unlinked-WellFormed z k w);
      gone = record { lists = a.lists; senders = a.senders; receivers = a.receivers };
      orphaned = λ p. unfold unlinked in refl;
      freed_one = unfold unlinked in refl;
      same_task = unfold unlinked in refl;
      same_current = unfold unlinked in refl;
    })

All-has_not :
    (k : Kernel) (c : Ptr) (cs : List Ptr)
    → All (λ x. state_of k x ≢ zombie) cs
    → has c cs ≡ true
    → state_of k c ≢ zombie
All-has_not k c [] a m = cc
All-has_not k c (x ∷ xs) a m = elim (Bool-cases (c == x)) [
  | inl e ↦ λ s. a.0 (ap (state_of k) (sym (ground arith)) ∙ s)
  | inr e ↦ All-has_not k c xs a.1 (ground arith)
]

-- A caller of `wait_any_child` with a dead child, in a well-formed state in which the dead are
-- in the list of zombies, does not wait: it gets the number and value of one of its dead
-- children, which is freed, in no list, and no longer a child.
pub wait_any_child-Collected :
    (k : Kernel) (c : Ptr)
    → WellFormed k
    → has c (k.children k.current) ≡ true
    → state_of k c ≡ zombie
    → ((z : Ptr) → state_of k z ≡ zombie → has z (k.queues zombie) ≡ true)
    → Ensures (λ r. (z : Ptr) × Collected k r.0 r.1 z) (wait_any_child k)
unfolding wait_any_child
wait_any_child-Collected k c w h s l = go (k.children k.current) refl h
  where
    go :
        (cs : List Ptr)
        → k.children k.current ≡ cs
        → has c cs ≡ true
        → Ensures (λ r. (z : Ptr) × Collected k r.0 r.1 z) (wait_any_child k)
    go [] e m = cc
    go (x ∷ xs) e m = elim (first_zombie_lem (x ∷ xs) k) [
      | inl (n, a) ↦ absurd (All-has_not k c (x ∷ xs) a m s)
      | inr (z, f, g, d) ↦
          rw (wait_any_child, e, f)
            (Ensures-mono (λ r. Collected k r.0 r.1 z) _ (collect z k)
              (collect-Collected z k w (rw e g) d (l z d)) λ r q. (z, q))
    ]

-- The caller in the list of tasks that wait for a child.
abbrev pub waiter : Kernel → Kernel
waiter k = placed interrupted_child k.current k

-- A running caller of `wait_any_child` that has children, none of them dead, in a well-formed
-- state, is put in the list of tasks that wait for a child, without a panic, and the contract of
-- `schedule` holds from there.
pub wait_any_child-Scheduled :
    (k : Kernel) (c : Ptr) (cs : List Ptr)
    → WellFormed k
    → state_of k k.current ≡ running
    → k.children k.current ≡ c ∷ cs
    → All (λ x. state_of k x ≢ zombie) (c ∷ cs)
    → Ensures (λ r. (r.0 ≡ waits) × Scheduled (waiter k) r.1) (wait_any_child k)
unfolding block_on_child wait_any_child
wait_any_child-Scheduled k c cs w r e a =
    let gone = Absent-of_state k.current k w (ap is_queued r) (λ q. ground (arith, r)) in
    elim (first_zombie_lem (c ∷ cs) k) [
      | inr (z, f, h, s) ↦ absurd (All-has_not k z (c ∷ cs) a h s)
      | inl (f, b) ↦
          rw
            (
              wait_any_child,
              e,
              f,
              set_task_state-current interrupted_child k.current k (λ q. ground (arith, r)) refl
                  gone,
            )
            (Ensures-bind (Scheduled (waiter k)) _ _ _
              (schedule-Scheduled (waiter k) (record {
                formed = placed-WellFormed interrupted_child k.current k w gone refl;
                awake = λ q. unfold placed insert_in in ground arith;
                not_ready = λ q. unfold placed insert_in in ground arith;
              }))
              λ k1 v. (refl, v))
    ]
