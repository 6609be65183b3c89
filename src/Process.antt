-- ===== src/Process.antt =====
-- The calls that end, reprioritise and wait for processes: kernel/exit.c, kernel/kill.c,
-- kernel/prio.c, kernel/wait.c and kernel/pid_allocator.c, with `pid_to_task`, `queue_from_state`
-- and the global list of kernel/task.c. Results are `int` bit patterns; errors are negative.
pub mod Pids
pub mod Bury
pub mod Exit
pub mod Prio
pub mod Wait
pub mod Tests
use domin_os.Base.{
  ℕ, zero, suc, ◌+◌, ◌-◌, ◌%◌, Bool, true, false, ◌||◌, ◌&&◌, not, Option, none, some, List, [],
  ◌∷◌, ltb, leb, ◌==◌, if◌then◌else◌, ◌>>=◌, ◌≡◌, ◌≢◌, ◌≤◌, ◌<◌,
}
use domin_os.Word.{word, neg, int_lt, sub32}
use domin_os.Queue.{Ptr}
use domin_os.Queue.Spec.{last?}
use domin_os.Kernel.{
  TaskState, startup, running, ready, sleeping, zombie, interrupted_sem, interrupted_msg,
  interrupted_io, interrupted_child, Task, Kernel,
}
use domin_os.Kernel.Lists.{
  has, erase, is_linked, del_tasks, update_task, insert_in, add_tasks, state_of, nb_queue,
  is_queued,
}
use domin_os.Kernel.Sched.{is_state, is_current, set_task_state, schedule, free_task}
use domin_os.Msg.Control.{Side, queue_from_msg, insert_side, msg_reinsert}

abbrev pub esrch : ℕ
esrch = neg 3

abbrev pub einval : ℕ
einval = neg 22

abbrev pub echild : ℕ
echild = neg 10

abbrev pub min_prio : ℕ
min_prio = 1

abbrev pub max_prio : ℕ
max_prio = 256

-- PID_MAX.
abbrev pub pid_max : ℕ
pid_max = 31

-- The bitmap of kernel/pid_allocator.c, as the test of a bit.
unfoldable pub set_pid : ℕ → (ℕ → Bool) → ℕ → Bool
set_pid pid used = λ p. if p == pid then true else used p

unfoldable pub free_pid : ℕ → (ℕ → Bool) → ℕ → Bool
free_pid pid used = λ p. if p == pid then false else used p

-- The loop of `alloc_pid` from `pid` on.
unfoldable pub alloc_from : ℕ → ℕ → (ℕ → Bool) → Option ℕ
alloc_from zero pid used = none
alloc_from (suc fuel) pid used =
    let rest = alloc_from fuel (pid + 1) used in
    if used pid then if ltb pid_max pid then some (neg 1) else rest else some pid

unfoldable pub alloc_pid : ℕ → (ℕ → Bool) → Option (ℕ × (ℕ → Bool))
alloc_pid fuel used = do
  pid ← alloc_from fuel 0 used
  some (if pid == neg 1 then (pid, used) else (pid, set_pid pid used))

-- The walk of `pid_to_task` over the global list.
unfoldable pub find_pid : ℕ → List Ptr → Kernel → Option Ptr
find_pid pid [] k = none
find_pid pid (t ∷ ts) k =
    let rest = find_pid pid ts k in if (k.task t).pid == pid then some t else rest

unfoldable pub pid_to_task : ℕ → Kernel → Option Ptr
pid_to_task pid k =
    if (k.task k.current).pid == pid then some k.current else find_pid pid k.global_list k

unfoldable pub remove_from_global_list : Ptr → Kernel → Option Kernel
remove_from_global_list t k =
    if has t k.global_list then some (record k { global_list = erase t k.global_list }) else none

unfoldable pub unlock_interrupted_child_parent : Ptr → Kernel → Option Kernel
unlock_interrupted_child_parent parent k =
    if is_state k parent interrupted_child then set_task_state ready parent k else some k

-- The priority of a dead task: the earlier it died, the higher.
abbrev pub died : ℕ → Task → Task
died now t = record t { priority = sub32 (word - 1) now }

unfoldable pub exit_task : Ptr → ℕ → Kernel → Option (ℕ × Kernel)
exit_task t retval k =
    if t == k.idle then some (einval, k) else if is_state k t zombie then some (esrch, k) else do
      let k1 = update_task t (died k.total_ticks) k
      k2 ← elim (queue_from_msg nb_queue 0 (k1.task t).pid k1) [
        | none ↦ some k1
        | some side ↦ del_tasks t k1
      ]
      k3 ← remove_from_global_list t k2
      let k4 = record k3 { pid_used = free_pid (k3.task t).pid k3.pid_used }
      k5 ← set_task_state zombie t (update_task t (λ x. record x { retval = retval }) k4)
      k6 ← unlock_interrupted_child_parent (k5.task t).parent k5
      some (0, k6)

-- `exit` must not return: if no other task runs, the call of `panic` is reached.
unfoldable pub exit : ℕ → Kernel → Option Kernel
exit retval k = do
  r ← exit_task k.current retval k
  k2 ← schedule r.1
  if k2.current == k.current then none else some k2

unfoldable pub kill : ℕ → Kernel → Option (ℕ × Kernel)
kill pid k = elim (pid_to_task pid k) [
  | none ↦ some (esrch, k)
  | some t ↦ if t == k.idle then some (einval, k) else do
    r ← exit_task t 0 k
    k2 ← if is_current r.1 t then schedule r.1 else some r.1
    some (r.0, k2)
]

unfoldable pub getprio : ℕ → Kernel → ℕ
getprio pid k = elim (pid_to_task pid k) [ none ↦ esrch | some t ↦ (k.task t).priority ]

-- `queue_update` on the list of the task's state, and on a message queue.
unfoldable pub update_queue_priority : Ptr → Kernel → Option Kernel
update_queue_priority t k =
    if is_queued (state_of k t)
    then del_tasks t k >>= add_tasks (state_of k t) t
    else if is_state k t interrupted_msg
    then elim (queue_from_msg nb_queue 0 (k.task t).pid k) [
      | none ↦ some k
      | some side ↦ del_tasks t k >>= λ k1. some (insert_side side t k1)
    ]
    else some k

-- The end of `chprio`, after the queues are in order. A caller that `schedule` switches out is the
-- current task again when it goes on, so that the second test fails after the first schedule. The
-- top of an empty ready queue is NULL, and reading its priority a fault.
unfoldable pub chprio_schedule : Ptr → ℕ → Kernel → Option Kernel
chprio_schedule t priority k =
    if not (is_current k t)
      && (is_state k t ready && int_lt (k.task k.current).priority (k.task t).priority)
    then schedule k
    else if is_current k t
    then (last? (k.queues ready) >>= λ top.
        if int_lt priority (k.task top).priority then schedule k else some k)
    else some k

-- What `chprio` does once the arguments are found to be good.
unfoldable pub change_priority : Ptr → ℕ → Kernel → Option Kernel
change_priority t priority k = do
  k1 ← update_queue_priority t (update_task t (λ x. record x { priority = priority }) k)
  (if is_state k1 t interrupted_msg then msg_reinsert t k1 else chprio_schedule t priority k1)

unfoldable pub chprio : ℕ → ℕ → Kernel → Option (ℕ × Kernel)
chprio pid priority k = elim (pid_to_task pid k) [
  | none ↦ some (esrch, k)
  | some t ↦
      if t == k.idle
      then some (einval, k)
      else if is_state k t zombie
      then some (esrch, k)
      else if int_lt max_prio priority || int_lt priority min_prio
      then some (einval, k)
      else change_priority t priority k >>= λ k1. some ((k.task t).priority, k1)
]

-- What a pass of a wait comes to: a dead child with its pid and value, no child to wait for, or a
-- wait, after which the same pass is made again.
pub data Waited : Type 0 where
  child : (pid retval : ℕ) → Waited
  failed : (code : ℕ) → Waited
  waits : Waited

unfoldable pub first_zombie : List Ptr → Kernel → Option Ptr
first_zombie [] k = none
first_zombie (c ∷ cs) k =
    let rest = first_zombie cs k in if is_state k c zombie then some c else rest

unfoldable pub collect : Ptr → Kernel → Option (Waited × Kernel)
collect c k = do k1 ← free_task c k; some (child (k.task c).pid (k.task c).retval, k1)

unfoldable pub block_on_child : Kernel → Option (Waited × Kernel)
block_on_child k = do
  k1 ← set_task_state interrupted_child k.current k
  k2 ← schedule k1
  some (waits, k2)

unfoldable pub wait_any_child : Kernel → Option (Waited × Kernel)
wait_any_child k = elim (k.children k.current) [
  | [] ↦ some (failed echild, k)
  | c ∷ cs ↦ elim (first_zombie (c ∷ cs) k) [ some z ↦ collect z k | none ↦ block_on_child k ]
]

unfoldable pub find_child : ℕ → List Ptr → Kernel → Option Ptr
find_child pid [] k = none
find_child pid (c ∷ cs) k =
    let rest = find_child pid cs k in if (k.task c).pid == pid then some c else rest

-- The inner loop of `__wait_specific_child`.
unfoldable pub wait_child : Ptr → Kernel → Option (Waited × Kernel)
wait_child c k = if is_state k c zombie then collect c k else block_on_child k

unfoldable pub wait_specific_child : ℕ → Kernel → Option (Waited × Kernel)
wait_specific_child pid k =
    if elim (pid_to_task pid k) [ none ↦ false | some t ↦ t == k.idle ]
    then some (failed einval, k)
    else elim (find_child pid (k.children k.current) k) [
      | none ↦ some (failed echild, k)
      | some c ↦ wait_child c k
    ]

-- `waitpid`, once the address for the value is found to be the program's.
unfoldable pub waitpid : ℕ → Kernel → Option (Waited × Kernel)
waitpid pid k = if not (int_lt 0 pid) then wait_any_child k else wait_specific_child pid k
