-- ===== src/Process/Pids.antt =====
-- Process numbers: kernel/pid_allocator.c, and the lookup `pid_to_task` of kernel/task.c.
use domin_os.Base.{
  ℕ, zero, suc, ◌+◌, Bool, true, false, Option, none, some, List, [], ◌∷◌, ltb, ◌==◌, ◌≡◌, refl,
  ◌≢◌, ◌≤◌, ◌<◌, ◌⊎◌, inl, inr, arith, Bool-cases, All,
}
use domin_os.Word.{neg}
use domin_os.Queue.{Ptr}
use domin_os.Kernel.{Kernel}
use domin_os.Kernel.Lists.{has}
use domin_os.Process.{alloc_from, alloc_pid, set_pid, free_pid, find_pid, pid_to_task}

-- The lowest number that is not used.
pub record IsLowest (used : ℕ → Bool) (pid : ℕ) : Type 0 where
  pub unused : used pid ≡ false
  pub in_map : pid ≤ 32
  pub lower : (q : ℕ) → q < pid → used q ≡ true

alloc_from_lem :
    (fuel pid : ℕ) (used : ℕ → Bool)
    → pid ≤ 32
    → 32 < fuel + pid
    → ((q : ℕ) → q < pid → used q ≡ true)
    → ((p : ℕ) × (alloc_from fuel pid used ≡ some p) × IsLowest used p)
      ⊎ ((alloc_from fuel pid used ≡ some (neg 1)) × ((q : ℕ) → q ≤ 32 → used q ≡ true))
unfolding alloc_from
alloc_from_lem zero pid used b f l = ground arith
alloc_from_lem (suc fuel) pid used b f l = elim (Bool-cases (used pid)) [
  | inr e ↦ rw e (inl (pid, refl, record { unused = e; in_map = b; lower = l }))
  | inl e ↦
      let more : (q : ℕ) → q < suc pid → used q ≡ true =
        λ q h. elim (Bool-cases (q == pid)) [ inl s ↦ ground arith | inr s ↦ l q (ground arith) ] in
      elim (Bool-cases (ltb 31 pid)) [
        | inl s ↦ rw (e, s) (inr (refl, λ q h. more q (ground arith)))
        | inr s ↦
            rw (e, s)
              (alloc_from_lem fuel (pid + 1) used (ground arith) (omega arith)
                (λ q h. more q (omega arith)))
      ]
]

-- `alloc_pid` with 33 steps of fuel or more ends: it marks and returns the lowest unused number
-- from 0 to 32, or returns -1 with nothing changed if all of these are used.
pub alloc_pid-IsLowest :
    (fuel : ℕ) (used : ℕ → Bool)
    → 32 < fuel
    → ((p : ℕ) × (alloc_pid fuel used ≡ some (p, set_pid p used)) × IsLowest used p)
      ⊎ ((alloc_pid fuel used ≡ some (neg 1, used)) × ((q : ℕ) → q ≤ 32 → used q ≡ true))
unfolding alloc_pid
alloc_pid-IsLowest fuel used f =
    elim (alloc_from_lem fuel 0 used (omega arith) (omega arith) (λ q h. ground arith)) [
      | inl (p, e, l) ↦
          let small : (p == neg 1) ≡ false = ground (arith, l.in_map) in
          rw e (inl (p, rw small refl, l))
      | inr (e, l) ↦ rw e (inr (refl, l))
    ]

-- When the numbers 0 to 31 are used and 32 is not, `alloc_pid` returns 32, though PID_MAX is 31.
pub alloc_pid-beyond :
    (fuel : ℕ) (used : ℕ → Bool)
    → 32 < fuel
    → ((q : ℕ) → q ≤ 31 → used q ≡ true)
    → used 32 ≡ false
    → alloc_pid fuel used ≡ some (32, set_pid 32 used)
alloc_pid-beyond fuel used f l u = elim (alloc_pid-IsLowest fuel used f) [
  | inl (p, e, h) ↦
      let at_least : 31 < p = elim (Bool-cases (ltb 31 p)) [
        | inl s ↦ ground arith
        | inr s ↦ ground (arith, h.unused, l p (ground arith))
      ] in
      let same : p ≡ 32 = omega (arith, h.in_map) in rw same at e
  | inr (e, h) ↦ ground (arith, h 32 (omega arith))
]

-- Freeing the number that `alloc_pid` has just returned, if that is not -1, leaves every number
-- as used or unused as it was.
pub free_pid-alloc_pid :
    (fuel : ℕ) (used used1 : ℕ → Bool) (p : ℕ)
    → 32 < fuel
    → alloc_pid fuel used ≡ some (p, used1)
    → p ≢ neg 1
    → (q : ℕ) → free_pid p used1 q ≡ used q
unfolding free_pid set_pid
free_pid-alloc_pid fuel used used1 p f e n q = elim (alloc_pid-IsLowest fuel used f) [
  | inl (r, g, l) ↦ ground (arith, l.unused)
  | inr (g, l) ↦ ground arith
]

-- `pid_to_task` gives a task that has the number and is current or in the global list; it gives
-- NULL only if there is no such task.
unfoldable pub Found : ℕ → Kernel → Option Ptr → Type 0
Found pid k none = ((k.task k.current).pid ≢ pid) × All (λ t. (k.task t).pid ≢ pid) k.global_list
Found pid k (some t) = ((k.task t).pid ≡ pid) × ((t ≡ k.current) ⊎ (has t k.global_list ≡ true))

find_pid_lem :
    (pid : ℕ) (ts : List Ptr) (k : Kernel)
    → ((find_pid pid ts k ≡ none) × All (λ t. (k.task t).pid ≢ pid) ts)
      ⊎ ((t : Ptr) × (find_pid pid ts k ≡ some t) × ((k.task t).pid ≡ pid) × (has t ts ≡ true))
unfolding find_pid
find_pid_lem pid [] k = inl (refl, tt)
find_pid_lem pid (t ∷ ts) k = elim (Bool-cases ((k.task t).pid == pid)) [
  | inl e ↦ rw e (inr (t, refl, ground arith, ground arith))
  | inr e ↦ rw e (elim (find_pid_lem pid ts k) [
    | inl (n, a) ↦ inl (n, (ground arith, a))
    | inr (u, g, p, h) ↦ inr (u, g, p, ground arith)
  ])
]

-- `pid_to_task` returns a task that has the number and is current or in the global list; it
-- returns NULL only if no such task has it.
pub pid_to_task-Found : (pid : ℕ) (k : Kernel) → Found pid k (pid_to_task pid k)
unfolding pid_to_task Found
pid_to_task-Found pid k = elim (Bool-cases ((k.task k.current).pid == pid)) [
  | inl e ↦ rw e (ground arith, inl refl)
  | inr e ↦ rw e (elim (find_pid_lem pid k.global_list k) [
    | inl (n, a) ↦ rw n (ground arith, a)
    | inr (u, g, p, h) ↦ rw g (p, inr h)
  ])
]
