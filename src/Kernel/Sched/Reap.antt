-- ===== src/Kernel/Sched/Reap.antt =====
-- The loop of `schedule` that frees the zombies that nobody will wait for.
use domin_os.Base.{
  ◌≡◌, refl, sym, ◌∙◌, ◌≢◌, ◌⊎◌, true, false, some, List, [], ◌∷◌, arith, Bool-cases, inl, inr, All,
  All-map, All-zip, IsNodup, Ensures,
}
use domin_os.Queue.{Ptr}
use domin_os.Kernel.{sleeping, zombie, Kernel}
use domin_os.Kernel.Lists.{has, erase, unlinked, del_tasks}
use domin_os.Kernel.Facts.{All-erase, has-erase_ne, has-erase_self, Fresh-of_has}
use domin_os.Kernel.Invariant.{WellFormed, unlinked-WellFormed}
use domin_os.Kernel.Sched.{free_task, must_free, reap_each, reap_zombies}
use domin_os.Kernel.Sched.Moves.{is_linked-has, WellFormed-ext}
use domin_os.Kernel.Sched.Loops.{SleepsOn, has_self}

-- What holds between two rounds of the loop over the zombies, `ts` being left to visit.
pub record Reaping (k0 : Kernel) (ts : List Ptr) (k : Kernel) : Type 0 where
  pub formed : WellFormed k
  pub pending : All (λ t. has t (k.queues zombie) ≡ true) ts
  pub distinct : IsNodup ts
  pub asleep : All (SleepsOn k) (k.queues sleeping)
  pub reaped : All (λ t. (has t ts ≡ true) ⊎ (must_free k t ≡ false)) (k.queues zombie)
  pub kept :
      (t : Ptr)
      → has t (k0.queues zombie) ≡ true
      → must_free k0 t ≡ false
      → has t (k.queues zombie) ≡ true
  pub same_current : k.current ≡ k0.current
  pub same_idle : k.idle ≡ k0.idle
  pub same_ticks : k.total_ticks ≡ k0.total_ticks
  pub same_tasks : k.task ≡ k0.task

abbrev buried : Ptr → Kernel → Kernel
buried t k = record (unlinked t k) {
  children = λ p. erase t ((unlinked t k).children p);
  freed = t ∷ (unlinked t k).freed;
}

module _ (k0 : Kernel) (t : Ptr) (ts : List Ptr) (k : Kernel) (v : Reaping k0 (t ∷ ts) k) where
  kept-Reaping : must_free k t ≡ false → Reaping k0 ts k
  kept-Reaping n = record {
    formed = v.formed;
    pending = v.pending.1;
    distinct = v.distinct.1;
    asleep = v.asleep;
    reaped = All-map (k.queues zombie) (λ p h. ground arith) v.reaped;
    kept = v.kept;
    same_current = v.same_current;
    same_idle = v.same_idle;
    same_ticks = v.same_ticks;
    same_tasks = v.same_tasks;
  }

  free_task-zombie : free_task t k ≡ some (buried t k)
  unfolding free_task del_tasks
  free_task-zombie = rw (is_linked-has zombie t k refl v.pending.0)

  buried-Reaping : must_free k t ≡ true → Reaping k0 ts (buried t k)
  unfolding unlinked must_free
  buried-Reaping due = record {
    formed =
        WellFormed-ext (unlinked t k) (buried t k) refl refl refl
          (unlinked-WellFormed t k v.formed);
    pending =
        All-map ts (λ p h. has-erase_ne p t (k.queues zombie) (λ e. h.0 (sym e)) ∙ h.1)
          (All-zip (λ p. t ≢ p) _ ts v.distinct.0 v.pending.1);
    distinct = v.distinct.1;
    asleep = All-erase (SleepsOn k) t (k.queues sleeping) v.asleep;
    reaped =
        All-map (erase t (k.queues zombie)) (λ p h. ground arith)
          (All-zip (λ p. t ≢ p) _ (erase t (k.queues zombie))
            (Fresh-of_has t _ (has-erase_self t (k.queues zombie) (v.formed.once zombie)))
            (All-erase _ t (k.queues zombie) v.reaped));
    kept = λ p h f.
        let ne : p ≢ t =
          λ e. ground (arith, e, f, due, v.same_tasks, v.same_current, v.same_idle) in
        has-erase_ne p t (k.queues zombie) ne ∙ v.kept p h f;
    same_current = v.same_current;
    same_idle = v.same_idle;
    same_ticks = v.same_ticks;
    same_tasks = v.same_tasks;
  }

reap_each-Reaping :
    (k0 : Kernel) (ts : List Ptr) (k : Kernel)
    → Reaping k0 ts k
    → Ensures (Reaping k0 []) (reap_each ts k)
unfolding reap_each
reap_each-Reaping k0 [] k v = v
reap_each-Reaping k0 (t ∷ ts) k v = elim (Bool-cases (must_free k t)) [
  | inl h ↦
      rw (h, free_task-zombie k0 t ts k v)
        (reap_each-Reaping k0 ts (buried t k) (buried-Reaping k0 t ts k v h))
  | inr h ↦ rw h (reap_each-Reaping k0 ts k (kept-Reaping k0 t ts k v h))
]

pub reap_zombies-Reaping :
    (k : Kernel)
    → WellFormed k
    → All (SleepsOn k) (k.queues sleeping)
    → Ensures (Reaping k []) (reap_zombies k)
unfolding reap_zombies
reap_zombies-Reaping k w h = reap_each-Reaping k (k.queues zombie) k (record {
  formed = w;
  pending = has_self (k.queues zombie);
  distinct = w.once zombie;
  asleep = h;
  reaped = All-map (k.queues zombie) (λ p e. inl e) (has_self (k.queues zombie));
  kept = λ t e f. e;
  same_current = refl;
  same_idle = refl;
  same_ticks = refl;
  same_tasks = refl;
})
