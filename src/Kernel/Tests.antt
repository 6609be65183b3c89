-- ===== src/Kernel/Tests.antt =====
-- A kernel with four tasks, and the theorems at it.
use domin_os.Base.{
  ℕ, ◌≡◌, refl, false, none, some, List, [], ◌∷◌, ◌==◌, if◌then◌else◌, All, IsNodup, Ensures,
}
use mathlib.Core.Option
use domin_os.Queue.{Ptr}
use domin_os.Queue.Spec.{IsSorted, insert, last?}
use domin_os.Kernel.Lists.{prio_key, is_queued, del_tasks, add_tasks, waits_below}
use domin_os.Kernel.Sched.Clock.{clock_handler-Scheduled}
use domin_os.Kernel.{TaskState, running, ready, sleeping, zombie, Task, Kernel}
use domin_os.Kernel.Invariant.{WellFormed}
use domin_os.Kernel.Sched.{schedule, try_wakeup_tasks, clock_handler}
use domin_os.Kernel.Sched.Loops.{Waking, try_wakeup_tasks-Waking}
use domin_os.Kernel.Sched.Highest.{Scheduled, IsSettled, schedule-Scheduled}

abbrev pub a_task : ℕ → TaskState → ℕ → ℕ → Task
a_task pid s prio wake = record {
  pid = pid;
  comm = [];
  state = s;
  parent = 1;
  priority = prio;
  wake_time = wake;
  retval = 0;
  msg_val = 0;
  first_start = false;
}

-- 1 is idle, 2 runs, 3 sleeps until tick 12 and 4 is dead.
abbrev pub tasks : Ptr → Task
tasks p =
    if p == 1
    then a_task 0 ready 1 0
    else if p == 2
    then a_task 1 running 10 0
    else if p == 3
    then a_task 2 sleeping 20 12
    else a_task 3 zombie 5 0

abbrev pub lists : TaskState → List Ptr
lists ready = 1 ∷ []
lists sleeping = 3 ∷ []
lists zombie = 4 ∷ []
lists _ = []

abbrev pub small : ℕ → Kernel
small now = record {
  task = tasks;
  current = 2;
  idle = 1;
  queues = lists;
  global_list = 1 ∷ 2 ∷ 3 ∷ [];
  children = λ p. if p == 1 then 4 ∷ 3 ∷ 2 ∷ [] else [];
  total_ticks = now;
  mqueues = λ i. none;
  cpt_rst = 0;
  pid_used = λ p. p == 0;
  freed = [];
}

own_list : (s : TaskState) → All (λ t. (tasks t).state ≡ s) (lists s)
own_list ready = (refl, tt)
own_list sleeping = (refl, tt)
own_list zombie = (refl, tt)
own_list _ = tt

once_list : (s : TaskState) → IsNodup (lists s)
once_list ready = (tt, tt)
once_list sleeping = (tt, tt)
once_list zombie = (tt, tt)
once_list _ = tt

IsSorted-list : (now : ℕ) (s : TaskState) → IsSorted (prio_key (small now)) (lists s)
IsSorted-list now ready = (tt, tt)
IsSorted-list now sleeping = (tt, tt)
IsSorted-list now zombie = (tt, tt)
IsSorted-list now _ = tt

only_list : (s : TaskState) → is_queued s ≡ false → lists s ≡ []
only_list ready h = cc
only_list sleeping h = cc
only_list zombie h = cc
only_list _ h = refl

pub small-WellFormed : (now : ℕ) → WellFormed (small now)
small-WellFormed now = record {
  own = own_list;
  once = once_list;
  sorted = IsSorted-list now;
  only = only_list;
  waiting = λ i q e. cc;
}

small-IsSettled : IsSettled (small 15)
small-IsSettled = record { formed = small-WellFormed 15; awake = λ e. cc; not_ready = λ e. cc }

-- At tick 15 the sleeper is due, and outranks the running task.
woken_runs : Option.map (λ k. k.current) (schedule (small 15)) ≡ some 3
unfolding schedule del_tasks add_tasks waits_below insert last?
woken_runs = refl

try_wakeup_tasks-Waking_example : Ensures (Waking (small 15) []) (try_wakeup_tasks (small 15))
try_wakeup_tasks-Waking_example = try_wakeup_tasks-Waking (small 15) (small-WellFormed 15) (λ e. cc)

schedule-Scheduled_example : Ensures (Scheduled (small 15)) (schedule (small 15))
schedule-Scheduled_example = schedule-Scheduled (small 15) small-IsSettled

clock_handler-Scheduled_example : Ensures (Scheduled (small 16)) (clock_handler (small 15))
clock_handler-Scheduled_example = clock_handler-Scheduled (small 15) (small-WellFormed 15) refl
