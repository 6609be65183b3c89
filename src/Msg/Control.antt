-- ===== src/Msg/Control.antt =====
-- `pdelete`, `preset`, `pcount` and the lookups by pid of kernel/msg.c.
use domin_os.Base.{
  ℕ, zero, suc, ◌+◌, ◌-◌, ◌%◌, Bool, false, ◌||◌, Option, none, some, List, [], ◌∷◌, reverse, ◌==◌,
  if◌then◌else◌, length, ◌>>=◌,
}
use domin_os.Word.{word, neg}
use domin_os.Queue.{Ptr}
use domin_os.Queue.Spec.{insert}
use domin_os.Kernel.{ready, MQueue, Kernel}
use domin_os.Kernel.Lists.{prio_key, nb_queue, del_tasks}
use domin_os.Kernel.Sched.{set_task_state}
use domin_os.Msg.{get_mqueue, put_mqueue, alloc_mqueue, is_empty}

-- The loops of `pdelete`: every waiting task, from the most urgent on, is made ready. Each has left
-- its list before `set_task_ready`.
unfoldable pub release_all : List Ptr → Kernel → Option Kernel
release_all [] k = some k
release_all (t ∷ ts) k = do k1 ← set_task_state ready t k; release_all ts k1

-- The loop of `free_mqueue`: the messages freed from `msg_ptr`, whose chain is `cur`, on, while the
-- variable `next` is the chain `next`.
unfoldable pub free_loop : List ℕ → List ℕ → List ℕ
free_loop [] cur = []
free_loop (n ∷ ns) [] = []
free_loop (n ∷ ns) (m ∷ r) = m ∷ free_loop r r

abbrev pub chain_next : List ℕ → List ℕ
chain_next [] = []
chain_next (m ∷ ms) = ms

-- The messages that `free_mqueue` gives back.
unfoldable pub free_mqueue : MQueue → List ℕ
unfolding free_loop
free_mqueue q = if is_empty q then [] else free_loop (chain_next q.msgs) q.msgs

abbrev pub emptied : MQueue → MQueue
emptied q = record q { senders = []; receivers = [] }

unfoldable pub pdelete : ℕ → Kernel → Option (ℕ × Kernel)
unfolding get_mqueue release_all
pdelete id k = do
  entry ← get_mqueue id k
  elim entry [
    | none ↦ some (neg 1, k)
    | some q ↦ do
      k1 ← release_all (reverse q.senders) (
          put_mqueue id (some (record q { senders = [] }))
            (record k { cpt_rst = (k.cpt_rst + 1) % word }))
      k2 ← release_all (reverse q.receivers) (put_mqueue id (some (emptied q)) k1)
      some (0, put_mqueue id none k2)
  ]

unfoldable pub preset : ℕ → Kernel → Option (ℕ × Kernel)
unfolding get_mqueue pdelete alloc_mqueue
preset id k = do
  entry ← get_mqueue id k
  elim entry [
    | none ↦ some (neg 1, k)
    | some q ↦ do
      (_, k1) ← pdelete id (record k { cpt_rst = (k.cpt_rst + 1) % word })
      some (0, alloc_mqueue id q.count k1)
  ]

-- `pcount` with a `count` that is not NULL, as the pair of what it returns and what it stores; and
-- with NULL.
unfoldable pub pcount : ℕ → Bool → Kernel → Option (ℕ × Option ℕ)
unfolding get_mqueue
pcount id wanted k = do
  entry ← get_mqueue id k
  elim entry [
    | none ↦ some (neg 1, none)
    | some q ↦
        if wanted
        then (if q.count == 0
            then some (0, some ((word - length q.receivers) % word))
            else some (0, some (length q.senders + q.count)))
        else some (0, none)
  ]

-- The two lists of a message queue.
pub data Side : Type 0 where
  sender receiver : ℕ → Side

abbrev pub has_pid : ℕ → List Ptr → Kernel → Bool
has_pid pid [] k = false
has_pid pid (t ∷ ts) k = ((k.task t).pid == pid) || has_pid pid ts k

-- `queue_from_msg`, over the `n` queues from `i` on.
unfoldable pub queue_from_msg : ℕ → ℕ → ℕ → Kernel → Option Side
queue_from_msg zero i pid k = none
queue_from_msg (suc n) i pid k =
    let rest = queue_from_msg n (i + 1) pid k in
    elim (k.mqueues i) [
      | none ↦ rest
      | some q ↦
          if has_pid pid q.senders k
          then some (sender i)
          else if has_pid pid q.receivers k
          then some (receiver i)
          else rest
    ]

-- `queue_add(self, queue, struct task, tasks, priority)` on such a list.
unfoldable pub insert_side : Side → Ptr → Kernel → Kernel
insert_side (sender i) t k = elim (k.mqueues i) [
  | none ↦ k
  | some q ↦ put_mqueue i (some (record q { senders = insert (prio_key k) t q.senders })) k
]
insert_side (receiver i) t k = elim (k.mqueues i) [
  | none ↦ k
  | some q ↦ put_mqueue i (some (record q { receivers = insert (prio_key k) t q.receivers })) k
]

-- `msg_reinsert`; with no queue it links the task through a null head.
unfoldable pub msg_reinsert : Ptr → Kernel → Option Kernel
unfolding queue_from_msg insert_side
msg_reinsert t k = do
  side ← queue_from_msg nb_queue 0 (k.task t).pid k
  k1 ← del_tasks t k
  some (insert_side side t k1)
