-- ===== src/Kernel/Sched/Loops.antt =====
-- The loops of `schedule` that wake the sleepers that are due and free the dead tasks.
use domin_os.Base.{
  ◌≤◌, ◌<◌, ◌≡◌, refl, sym, ap, subst, ◌∙◌, ◌≢◌, ◌⊎◌, true, false, some, List, [], ◌∷◌, arith, leb,
  ◌==◌, Bool-cases, inl, inr, All, All-map, All-zip, IsNodup, Ensures,
}
use domin_os.Queue.{Ptr}
use domin_os.Kernel.{ready, sleeping, Kernel}
use domin_os.Kernel.Lists.{has, erase, is_queued, unlinked, update_task, insert_in, state_of}
use domin_os.Kernel.Facts.{
  has-insert, has-insert_self, All-erase, has-erase_ne, has-erase_self, Fresh-of_has,
}
use domin_os.Kernel.Invariant.{
  WellFormed, unlinked-WellFormed, unlinked-Absent, update_task-WellFormed_keep,
}
use domin_os.Kernel.Sched.{set_task_state, wake_each, try_wakeup_tasks}
use domin_os.Kernel.Sched.Moves.{placed, placed-WellFormed, set_task_state-linked}

-- `t` sleeps past the present tick.
abbrev pub SleepsOn : Kernel → Ptr → Type 0
SleepsOn k t = k.total_ticks < (k.task t).wake_time

-- What becomes of a task that slept when the loop began, `ts` being left to visit: it is made ready
-- exactly if it was due.
pub data Fate (k0 : Kernel) (ts : List Ptr) (k : Kernel) (t : Ptr) : Type 0 where
  to_visit : has t ts ≡ true → (k.task t).wake_time ≡ (k0.task t).wake_time → Fate k0 ts k t
  sleeps_on : SleepsOn k0 t → SleepsOn k t → has t (k.queues sleeping) ≡ true → Fate k0 ts k t
  made_ready :
      (k0.task t).wake_time ≤ k0.total_ticks → has t (k.queues ready) ≡ true → Fate k0 ts k t

-- What holds between two rounds of the loop over the sleepers, `ts` being left to visit.
pub record Waking (k0 : Kernel) (ts : List Ptr) (k : Kernel) : Type 0 where
  pub formed : WellFormed k
  pub pending : All (λ t. has t (k.queues sleeping) ≡ true) ts
  pub distinct : IsNodup ts
  pub asleep : All (λ t. (has t ts ≡ true) ⊎ SleepsOn k t) (k.queues sleeping)
  pub fate : (t : Ptr) → has t (k0.queues sleeping) ≡ true → Fate k0 ts k t
  pub same_current : k.current ≡ k0.current
  pub same_ticks : k.total_ticks ≡ k0.total_ticks
  pub same_task : k.task k0.current ≡ k0.task k0.current

pub All-has : (P : Ptr → Type 0) (t : Ptr) (xs : List Ptr) → All P xs → has t xs ≡ true → P t
All-has P t [] a h = cc
All-has P t (x ∷ xs) a h = elim (Bool-cases (t == x)) [
  | inl e ↦ subst P (ground arith) a.0
  | inr e ↦ All-has P t xs a.1 (ground arith)
]

-- The state after a sleeper is made ready.
abbrev pub stamped : Ptr → Kernel → Kernel
stamped t k = update_task t (λ x. record x { wake_time = 0 }) k

abbrev pub woken : Ptr → Kernel → Kernel
woken t k = placed ready t (unlinked t (stamped t k))

module _ (k0 : Kernel) (t : Ptr) (ts : List Ptr) (k : Kernel) (v : Waking k0 (t ∷ ts) k) where
  pub asleep_state : state_of k t ≡ sleeping
  asleep_state =
      All-has (λ p. state_of k p ≡ sleeping) t (k.queues sleeping) (v.formed.own sleeping)
        v.pending.0

  pub stamped_formed : WellFormed (stamped t k)
  stamped_formed =
      update_task-WellFormed_keep t (λ x. record x { wake_time = 0 }) k refl refl v.formed

  later-Fate : SleepsOn k t → (p : Ptr) → Fate k0 (t ∷ ts) k p → Fate k0 ts k p
  later-Fate n p (to_visit h e) = elim (Bool-cases (p == t)) [
    | inl me ↦
        let q : p ≡ t = ground arith in
        sleeps_on (ground (arith, v.same_ticks)) (ground arith)
          (subst (λ x. has x (k.queues sleeping) ≡ true) (sym q) v.pending.0)
    | inr other ↦ to_visit (ground arith) e
  ]
  later-Fate n p (sleeps_on a b h) = sleeps_on a b h
  later-Fate n p (made_ready d h) = made_ready d h

  woken-Fate :
      (k.task t).wake_time ≤ k.total_ticks
      → (p : Ptr) → Fate k0 (t ∷ ts) k p
      → Fate k0 ts (woken t k) p
  unfolding placed insert_in unlinked
  woken-Fate d p (to_visit h e) = elim (Bool-cases (p == t)) [
    | inl me ↦
        let q : p ≡ t = ground arith in
        made_ready (ground (arith, v.same_ticks))
          (rw q (has-insert_self _ t (erase t (k.queues ready))))
    | inr other ↦ to_visit (ground arith) (ground arith)
  ]
  woken-Fate d p (sleeps_on a b h) =
      let other : p ≢ t = λ q. ground arith in
      sleeps_on a (ground arith) (has-erase_ne p t (k.queues sleeping) other ∙ h)
  woken-Fate d p (made_ready a h) = elim (Bool-cases (p == t)) [
    | inl me ↦
        let q : p ≡ t = ground arith in
        made_ready a (rw q (has-insert_self _ t (erase t (k.queues ready))))
    | inr other ↦
        let off : p ≢ t = ground arith in
        made_ready a
          (has-insert _ t p (erase t (k.queues ready)) (has-erase_ne p t (k.queues ready) off ∙ h))
  ]

  -- A sleeper that is not due stays.
  pub Waking-later : SleepsOn k t → Waking k0 ts k
  Waking-later n = record {
    formed = v.formed;
    pending = v.pending.1;
    distinct = v.distinct.1;
    asleep = All-map (k.queues sleeping) (λ p h. ground arith) v.asleep;
    fate = λ p h. later-Fate n p (v.fate p h);
    same_current = v.same_current;
    same_ticks = v.same_ticks;
    same_task = v.same_task;
  }

  pub woken-Waking : (k.task t).wake_time ≤ k.total_ticks → k.current ≢ t → Waking k0 ts (woken t k)
  unfolding placed insert_in unlinked
  woken-Waking d c = record {
    formed =
        placed-WellFormed ready t (unlinked t (stamped t k))
          (unlinked-WellFormed t (stamped t k) stamped_formed)
          (unlinked-Absent t (stamped t k) stamped_formed (λ e. ground (arith, asleep_state))) refl;
    pending =
        All-map ts (λ p h. has-erase_ne p t (k.queues sleeping) (λ e. h.0 (sym e)) ∙ h.1)
          (All-zip (λ p. t ≢ p) _ ts v.distinct.0 v.pending.1);
    distinct = v.distinct.1;
    asleep =
        All-map (erase t (k.queues sleeping)) (λ p h. ground arith)
          (All-zip (λ p. t ≢ p) _ (erase t (k.queues sleeping))
            (Fresh-of_has t _ (has-erase_self t (k.queues sleeping) (v.formed.once sleeping)))
            (All-erase _ t (k.queues sleeping) v.asleep));
    fate = λ p h. woken-Fate d p (v.fate p h);
    same_current = v.same_current;
    same_ticks = v.same_ticks;
    same_task =
        let ne : (k0.current == t) ≡ false = ground (arith, v.same_current) in rw ne v.same_task;
  }

  pub wake-woken : k.current ≢ t → set_task_state ready t (stamped t k) ≡ some (woken t k)
  wake-woken c =
      let e : state_of (stamped t k) t ≡ sleeping = ground (arith, asleep_state) in
      set_task_state-linked ready t (stamped t k) (λ h. ground (arith, e)) stamped_formed c
        (ap is_queued e) (subst (λ s. has t (k.queues s) ≡ true) (sym e) v.pending.0)

-- `schedule` is called with no due sleeper as the current task.
abbrev pub IsAwake : Kernel → Type 0
IsAwake k = state_of k k.current ≡ sleeping → SleepsOn k k.current

wake_each-Waking :
    (k0 : Kernel) (ts : List Ptr) (k : Kernel)
    → IsAwake k0
    → Waking k0 ts k
    → Ensures (Waking k0 []) (wake_each ts k)
unfolding wake_each
wake_each-Waking k0 [] k h v = v
wake_each-Waking k0 (t ∷ ts) k h v = elim (Bool-cases (leb (k.task t).wake_time k.total_ticks)) [
  | inl due ↦
      let c : k.current ≢ t = λ e.
        ground (arith, e, v.same_current, v.same_ticks, v.same_task, asleep_state k0 t ts k v, h) in
      rw (due, wake-woken k0 t ts k v c)
        (wake_each-Waking k0 ts (woken t k) h (woken-Waking k0 t ts k v (ground arith) c))
  | inr later ↦ rw later (wake_each-Waking k0 ts k h (Waking-later k0 t ts k v (ground arith)))
]

pub has_self : (xs : List Ptr) → All (λ t. has t xs ≡ true) xs
has_self [] = tt
has_self (x ∷ xs) = (ground arith, All-map xs (λ p h. ground arith) (has_self xs))

pub Waking-start : (k : Kernel) → WellFormed k → Waking k (k.queues sleeping) k
Waking-start k w = record {
  formed = w;
  pending = has_self (k.queues sleeping);
  distinct = w.once sleeping;
  asleep = All-map (k.queues sleeping) (λ p e. inl e) (has_self (k.queues sleeping));
  fate = λ t h. to_visit h refl;
  same_current = refl;
  same_ticks = refl;
  same_task = refl;
}

-- From a well-formed state in which the current task is not a sleeper that is due,
-- `try_wakeup_tasks` ends without a panic and keeps the lists well formed; a task that slept is
-- made ready if it is due, and sleeps on if not.
pub try_wakeup_tasks-Waking :
    (k : Kernel) → WellFormed k → IsAwake k → Ensures (Waking k []) (try_wakeup_tasks k)
unfolding try_wakeup_tasks
try_wakeup_tasks-Waking k w h = wake_each-Waking k (k.queues sleeping) k h (Waking-start k w)
