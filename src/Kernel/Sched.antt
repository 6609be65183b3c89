-- ===== src/Kernel/Sched.antt =====
-- The state changes and the scheduler of kernel/task.c. `schedule` ends in a context switch: here it
-- sets `current`, and what the task that is switched out does when it runs again is the caller's
-- second half.
pub mod Moves
pub mod Loops
pub mod Reap
pub mod Highest
pub mod Clock
use domin_os.Base.{
  ℕ, ◌+◌, ◌%◌, Bool, true, false, ◌||◌, ◌&&◌, not, Option, none, some, List, [], ◌∷◌, ltb, leb,
  ◌==◌, if◌then◌else◌, ◌>>=◌,
}
use domin_os.Word.{word, int_lt}
use domin_os.Queue.{Ptr}
use domin_os.Queue.Spec.{last?}
use domin_os.Kernel.{
  TaskState, startup, running, ready, sleeping, zombie, interrupted_sem, interrupted_msg,
  interrupted_io, interrupted_child, Task, Kernel,
}
use domin_os.Kernel.Lists.{
  has, erase, same_state, is_linked, del_tasks, prio_key, update_task, set_state, insert_in,
  add_tasks, state_of,
}

abbrev pub is_state : Kernel → Ptr → TaskState → Bool
is_state k t s = same_state (state_of k t) s

abbrev pub is_current : Kernel → Ptr → Bool
is_current k t = k.current == t

-- `__set_task_state`, for the list of state `s`: set_task_ready, set_task_sleeping, set_task_zombie
-- and set_task_interrupted_child.
unfoldable pub set_task_state : TaskState → Ptr → Kernel → Option Kernel
set_task_state s t k = if is_state k t s then some k else do
  k1 ←
      if not (is_current k t) && (not (is_state k t startup) && not (is_state k t interrupted_msg))
      then del_tasks t k
      else some k
  add_tasks s t (update_task t (set_state s) k1)

unfoldable pub set_task_running : Ptr → Kernel → Option Kernel
set_task_running t k = do
  k1 ← if not (is_state k t startup) && not (is_state k t running) then del_tasks t k else some k
  some (record (update_task t (set_state running) k1) { current = t })

-- The loop of `try_wakeup_tasks`. It reads the successor before the body runs, and the body takes
-- only the visited task out of the list, so it visits what was in the list at the start.
unfoldable pub wake_each : List Ptr → Kernel → Option Kernel
unfolding set_task_state
wake_each [] k = some k
wake_each (t ∷ ts) k = do
  k1 ←
      if leb (k.task t).wake_time k.total_ticks
      then set_task_state ready t (update_task t (λ x. record x { wake_time = 0 }) k)
      else some k
  wake_each ts k1

unfoldable pub try_wakeup_tasks : Kernel → Option Kernel
unfolding wake_each
try_wakeup_tasks k = wake_each (k.queues sleeping) k

-- `free_task`: out of the list of its state and out of its parent's children. The page directory,
-- pages and stacks that it gives back are no part of this state.
unfoldable pub free_task : Ptr → Kernel → Option Kernel
unfolding erase
free_task t k = do
  k1 ← if is_linked t k then del_tasks t k else some k
  some (record k1 { children = λ p. erase t (k1.children p); freed = t ∷ k1.freed })

-- The test of `reap_zombies`. A parent may be freed already: its memory is read all the same.
unfoldable pub must_free : Kernel → Ptr → Bool
must_free k t =
    let parent = (k.task t).parent in
    not (is_current k t) && ((parent == k.idle) || is_state k parent zombie)

unfoldable pub reap_each : List Ptr → Kernel → Option Kernel
unfolding free_task must_free
reap_each [] k = some k
reap_each (t ∷ ts) k = do k1 ← if must_free k t then free_task t k else some k; reap_each ts k1

unfoldable pub reap_zombies : Kernel → Option Kernel
unfolding reap_each
reap_zombies k = reap_each (k.queues zombie) k

-- The switch itself; a task that starts for the first time enters user mode.
unfoldable pub enter : Ptr → Kernel → Option Kernel
unfolding set_task_running
enter new k = do
  k1 ← set_task_running new k
  some (
      if (k1.task new).first_start
      then update_task new (λ x. record x { first_start = false }) k1
      else k1)

unfoldable pub switch_to : Ptr → Ptr → Kernel → Option Kernel
unfolding set_task_state enter
switch_to old new k = do
  k1 ← if is_state k old running then set_task_state ready old k else some k
  enter new k1

-- What `schedule` does once it has read the top of the ready queue.
unfoldable pub choose : Option Ptr → Kernel → Option Kernel
unfolding switch_to
choose none k = some k
choose (some new) k =
    if k.current == new
    then some k
    else if is_state k k.current running && int_lt (k.task new).priority (k.task k.current).priority
    then some k
    else switch_to k.current new k

unfoldable pub schedule : Kernel → Option Kernel
unfolding try_wakeup_tasks reap_zombies choose
schedule k = do k1 ← try_wakeup_tasks k; k2 ← reap_zombies k1; choose (last? (k2.queues ready)) k2

-- For a task that a message queue let go: it is in no list.
unfoldable pub set_task_ready_or_running : Ptr → Kernel → Option Kernel
unfolding schedule
set_task_ready_or_running t k = do
  k1 ← add_tasks ready t (update_task t (set_state ready) k)
  if int_lt (k1.task k1.current).priority (k1.task t).priority then schedule k1 else some k1

unfoldable pub set_task_interrupted_msg : Ptr → Kernel → Option Kernel
unfolding schedule
set_task_interrupted_msg t k = schedule (update_task t (set_state interrupted_msg) k)

-- The clock interrupt, and the system call `wait_clock`.
unfoldable pub clock_handler : Kernel → Option Kernel
unfolding schedule
clock_handler k = schedule (record k { total_ticks = (k.total_ticks + 1) % word })

unfoldable pub wait_clock : ℕ → Kernel → Option Kernel
unfolding set_task_state schedule
wait_clock clock k = do
  k1 ←
      set_task_state sleeping k.current
        (update_task k.current (λ x. record x { wake_time = clock }) k)
  schedule k1
