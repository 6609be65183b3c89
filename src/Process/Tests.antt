-- ===== src/Process/Tests.antt =====
-- Runs of the process calls, and the theorems at a kernel with a family of tasks.
use domin_os.Base.{
  ℕ, Bool, true, false, none, some, List, [], ◌∷◌, leb, ◌==◌, if◌then◌else◌, ◌>>=◌, ◌≡◌, refl, ◌≤◌,
  ◌⊎◌, inl, inr, arith, All, IsNodup, Ensures,
}
use domin_os.Word.{neg}
use domin_os.Queue.{Ptr}
use domin_os.Queue.Spec.{IsSorted, last?}
use domin_os.Kernel.{
  TaskState, startup, running, ready, sleeping, zombie, interrupted_child, Task, Kernel,
}
use domin_os.Kernel.Lists.{prio_key, is_queued}
use domin_os.Kernel.Invariant.{WellFormed}
use domin_os.Kernel.Tests.{a_task}
use domin_os.Msg.Control.{queue_from_msg}
use domin_os.Process.{
  Waited, waits, child, alloc_pid, set_pid, free_pid, pid_to_task, find_pid, kill, chprio, getprio,
  wait_any_child, first_zombie, find_child, wait_specific_child,
}
use domin_os.Process.Pids.{IsLowest, alloc_pid-IsLowest}
use domin_os.Process.Bury.{Placed}
use domin_os.Process.Exit.{CanExit, Exited, kill-Exited}
use domin_os.Process.Prio.{IsAllowed, IsFair, chprio-IsFair}
use domin_os.Process.Wait.{Collected, wait_any_child-Collected}

-- 1 is idle; 2 runs, and is a child of 3, which waits for it; 4 is dead, and 5 starts up.
abbrev family_tasks : Ptr → Task
family_tasks p =
    if p == 1
    then a_task 0 ready 1 0
    else if p == 2
    then record (a_task 1 running 10 0) { parent = 3 }
    else if p == 3
    then a_task 2 interrupted_child 20 0
    else if p == 4
    then record (a_task 3 zombie 5 0) { parent = 2; retval = 7 }
    else record (a_task 4 startup 5 0) { parent = 2 }

abbrev family_lists : TaskState → List Ptr
family_lists ready = 1 ∷ []
family_lists interrupted_child = 3 ∷ []
family_lists zombie = 4 ∷ []
family_lists _ = []

-- The list holds the children of task 2.
abbrev family : List Ptr → Kernel
family cs = record {
  task = family_tasks;
  current = 2;
  idle = 1;
  queues = family_lists;
  global_list = 1 ∷ 2 ∷ 3 ∷ [];
  children = λ p. if p == 1 then 3 ∷ [] else if p == 2 then cs else if p == 3 then 2 ∷ [] else [];
  total_ticks = 5;
  mqueues = λ i. none;
  cpt_rst = 0;
  pid_used = λ p. leb p 2;
  freed = [];
}

family_own : (s : TaskState) → All (λ t. (family_tasks t).state ≡ s) (family_lists s)
family_own ready = (refl, tt)
family_own interrupted_child = (refl, tt)
family_own zombie = (refl, tt)
family_own _ = tt

family_once : (s : TaskState) → IsNodup (family_lists s)
family_once ready = (tt, tt)
family_once interrupted_child = (tt, tt)
family_once zombie = (tt, tt)
family_once _ = tt

family-IsSorted : (cs : List Ptr) (s : TaskState) → IsSorted (prio_key (family cs)) (family_lists s)
family-IsSorted cs ready = (tt, tt)
family-IsSorted cs interrupted_child = (tt, tt)
family-IsSorted cs zombie = (tt, tt)
family-IsSorted cs _ = tt

family_only : (s : TaskState) → is_queued s ≡ false → family_lists s ≡ []
family_only ready h = cc
family_only interrupted_child h = cc
family_only zombie h = cc
family_only _ h = refl

family_formed : (cs : List Ptr) → WellFormed (family cs)
family_formed cs = record {
  own = family_own;
  once = family_once;
  sorted = family-IsSorted cs;
  only = family_only;
  waiting = λ i q e. cc;
}

two-CanExit : CanExit 2 (family [])
unfolding queue_from_msg Placed
two-CanExit = record {
  formed = family_formed [];
  busy = λ e. ground arith;
  alive = λ e. cc;
  place = inl (refl, refl);
  known = refl;
  no_queue = refl;
  apart = λ e. ground arith;
  parent_place = λ e. (λ h. ground arith, refl);
}

three-CanExit : CanExit 3 (family [])
unfolding queue_from_msg Placed
three-CanExit = record {
  formed = family_formed [];
  busy = λ e. ground arith;
  alive = λ e. cc;
  place = inr (λ h. ground arith, refl, refl);
  known = refl;
  no_queue = refl;
  apart = λ e. ground arith;
  parent_place = λ e. cc;
}

find_three : pid_to_task 2 (family []) ≡ some 3
unfolding pid_to_task find_pid
find_three = refl

find_two : pid_to_task 1 (family []) ≡ some 2
unfolding pid_to_task
find_two = refl

priority_of : getprio 2 (family []) ≡ 20
unfolding getprio pid_to_task find_pid
priority_of = refl

collects : (wait_any_child (family (5 ∷ 4 ∷ [])) >>= λ r. some r.0) ≡ some (child 3 7)
unfolding wait_any_child first_zombie domin_os.Process.collect domin_os.Kernel.Sched.free_task
    domin_os.Kernel.Lists.del_tasks domin_os.Kernel.Lists.is_linked
    domin_os.Kernel.Lists.waits_below
collects = refl

kill-Exited_example : Ensures (λ r. (r.0 ≡ 0) × Exited 3 0 (family []) r.1) (kill 2 (family []))
kill-Exited_example = kill-Exited 2 3 (family []) find_three three-CanExit (λ e. ground arith)

two-IsAllowed : IsAllowed 1 9 2 (family [])
two-IsAllowed = record {
  found = find_two;
  busy = λ e. ground arith;
  alive = λ e. cc;
  low = omega arith;
  high = omega arith;
}

three-IsAllowed : IsAllowed 2 9 3 (family [])
three-IsAllowed = record {
  found = find_three;
  busy = λ e. ground arith;
  alive = λ e. cc;
  low = omega arith;
  high = omega arith;
}

chprio-IsFair_example : Ensures (λ x. (x.0 ≡ 10) × IsFair x.1) (chprio 1 9 (family []))
chprio-IsFair_example =
    chprio-IsFair 1 9 (family []) two-IsAllowed (family_formed []) refl 1 (unfold last? in refl)

wait_any_child-Collected_example :
    Ensures
      (λ r. (z : Ptr) × Collected (family (5 ∷ 4 ∷ [])) r.0 r.1 z)
      (wait_any_child (family (5 ∷ 4 ∷ [])))
wait_any_child-Collected_example =
    wait_any_child-Collected (family (5 ∷ 4 ∷ [])) 4 (family_formed (5 ∷ 4 ∷ [])) refl refl
      (λ z h. ground arith)

-- All numbers to 31 are used.
abbrev full : ℕ → Bool
full p = leb p 31

alloc_pid-IsLowest_example :
    ((p : ℕ) × (alloc_pid 40 (λ p. leb p 2) ≡ some (p, set_pid p (λ p. leb p 2)))
      × IsLowest (λ p. leb p 2) p)
    ⊎ ((alloc_pid 40 (λ p. leb p 2) ≡ some (neg 1, λ p. leb p 2))
        × ((q : ℕ) → q ≤ 32 → leb q 2 ≡ true))
alloc_pid-IsLowest_example = alloc_pid-IsLowest 40 (λ p. leb p 2) (omega arith)

allocates : alloc_pid 40 (λ p. leb p 2) ≡ some (3, set_pid 3 (λ p. leb p 2))
unfolding alloc_pid domin_os.Process.alloc_from
allocates = refl
