-- ===== src/Msg/Manage.antt =====
-- `pcreate`, `pdelete`, `preset`, `pcount`: what they promise, and where they do not keep it.
use domin_os.Base.{
  ℕ, zero, suc, ◌≤◌, ◌<◌, ◌+◌, ◌-◌, ◌%◌, ◌^◌, ◌≡◌, refl, ap, ◌∙◌, ◌≢◌, ◌⊎◌, inl, inr, ◌↔◌, true,
  false, none, some, List, [], ◌∷◌, arith, ltb, ◌==◌, if◌then◌else◌, ◌>>=◌, length, Ensures,
  Ensures-bind, Option-cases, dec_lt,
}
use domin_os.Word.{word, neg, int_lt}
use domin_os.Kernel.{MQueue, Kernel}
use domin_os.Kernel.Lists.{nb_queue}
use domin_os.Msg.{
  put_mqueue, first_available, new_mqueue, alloc_mqueue, pcreate, done, psend_loop, is_full,
}
use domin_os.Msg.Control.{free_loop, chain_next, free_mqueue, pdelete, preset}

-- The search finds the first unused index, and fails only if none is left.
first_available-first :
    (n i : ℕ) (k : Kernel) (j : ℕ)
    → first_available n i k ≡ some j
    → (i ≤ j) × (j < i + n) × (k.mqueues j ≡ none) × ((h : ℕ) → i ≤ h → h < j → k.mqueues h ≢ none)
unfolding first_available
first_available-first zero i k j e = cc
first_available-first (suc n) i k j e = elim (Option-cases (k.mqueues i)) [
  | inl u ↦ (ground arith, ground arith, ground arith, λ h lo hi. absurd (ground arith))
  | inr (q, u) ↦
      let rest = first_available-first n (i + 1) k j (ground arith) in
      (
        omega (arith, rest),
        omega (arith, rest),
        rest.2,
        λ h lo hi z. elim (dec_lt i h) [
          | yes p ↦ rest.3 h (omega arith) hi z
          | no p ↦ let at : i ≡ h = omega arith in ground (arith, u, z, at)
        ],
      )
]

first_available-none :
    (n i : ℕ) (k : Kernel)
    → first_available n i k ≡ none
    → (h : ℕ) → i ≤ h
    → h < i + n
    → k.mqueues h ≢ none
unfolding first_available
first_available-none zero i k e h lo hi = absurd (omega arith)
first_available-none (suc n) i k e h lo hi = elim (Option-cases (k.mqueues i)) [
  | inl u ↦ absurd (ground arith)
  | inr (q, u) ↦ elim (dec_lt i h) [
    | yes p ↦ first_available-none n (i + 1) k (ground arith) h (omega arith) (omega arith)
    | no p ↦ λ z. let at : i ≡ h = omega arith in ground (arith, u, z, at)
  ]
]

free_loop-all : (n : ℕ) (ns cur : List ℕ) → free_loop (n ∷ ns) cur ≡ cur
unfolding free_loop
free_loop-all n ns [] = refl
free_loop-all n ns (m ∷ []) = refl
free_loop-all n ns (m ∷ (x ∷ r)) = ap (◌∷◌ m) (free_loop-all x r (x ∷ r))

-- `free_mqueue` gives back all messages of a queue exactly if it does not hold exactly one.
pub free_mqueue_lem :
    (q : MQueue) → q.count ≡ length q.msgs → (free_mqueue q ≡ q.msgs) ↔ (q.count ≢ 1)
unfolding free_mqueue
free_mqueue_lem q c = go q.msgs c
  where
    go :
        (ms : List ℕ)
        → q.count ≡ length ms
        → ((if q.count == 0 then [] else free_loop (chain_next ms) ms) ≡ ms) ↔ (q.count ≢ 1)
    go [] e = (λ h. ground arith, λ h. ground arith)
    go (m ∷ []) e = (λ h. absurd (unfold free_loop in ground arith), λ h. absurd (h e))
    go (m ∷ (x ∷ r)) e = (λ h. ground arith, λ h. ground (arith, free_loop-all x r (m ∷ (x ∷ r))))

-- `pcreate` refuses a capacity that is no positive 16-bit number, takes the lowest unused queue for
-- any other, and fails only if every queue is used.
pub record Created (count : ℕ) (k : Kernel) (r : ℕ × Kernel) : Type 0 where
  pub large : int_lt 32767 count ≡ true → r ≡ (neg 3, k)
  pub negative : int_lt 0 count ≡ false → r ≡ (neg 2, k)
  pub made :
      int_lt 32767 count ≡ false
      → int_lt 0 count ≡ true
      → ((r ≡ (neg 1, k)) × ((i : ℕ) → i < nb_queue → k.mqueues i ≢ none))
        ⊎ ((id : ℕ) × (id < nb_queue)
            × (k.mqueues id ≡ none)
            × ((i : ℕ) → i < id → k.mqueues i ≢ none)
            × (r ≡ (id, put_mqueue id (some (new_mqueue count)) k)))

-- `pcreate` returns -3 for a capacity above 32767 and -2 for one that is not positive; for any
-- other it takes the lowest unused queue, leaving it empty, and returns -1 with nothing changed
-- only if every queue is used.
pub pcreate-Created : (count : ℕ) (k : Kernel) → Created count k (pcreate count k)
unfolding pcreate
pcreate-Created count k = record {
  large = λ h. ground arith;
  negative = λ h. ground arith;
  made = λ a b. elim (Option-cases (first_available nb_queue 0 k)) [
    | inl e ↦
        inl (rw (a, b, e), λ i h. first_available-none nb_queue 0 k e i (omega arith) (omega arith))
    | inr (id, e) ↦
        let found = first_available-first nb_queue 0 k id e in
        inr (id, omega (arith, found), found.2, (λ i h. found.3 i (omega arith) h), rw (a, b, e))
  ];
}

-- What deleting a queue at which no task waits comes to.
pub record Deleted (id : ℕ) (k : Kernel) (r : ℕ × Kernel) : Type 0 where
  pub success : r.0 ≡ 0
  pub same_task : r.1.task ≡ k.task
  pub same_current : r.1.current ≡ k.current
  pub counter : r.1.cpt_rst ≡ (k.cpt_rst + 1) % word
  pub unused : r.1.mqueues id ≡ none
  pub others : (j : ℕ) → j ≢ id → r.1.mqueues j ≡ k.mqueues j

pub pdelete-Deleted :
    (id : ℕ) (k : Kernel) (q : MQueue)
    → k.mqueues id ≡ some q
    → id < nb_queue
    → q.senders ≡ []
    → q.receivers ≡ []
    → Ensures (Deleted id k) (pdelete id k)
unfolding pdelete
pdelete-Deleted id k q here ok s r =
    let in_table : ltb id nb_queue ≡ true = ground arith in
    rw (in_table, here, s, r)
      (record {
        success = refl;
        same_task = refl;
        same_current = refl;
        counter = refl;
        unused = ground arith;
        others = λ j n. ground arith;
      })

-- `preset` of a queue at which no task waits leaves an empty queue whose capacity is the number
-- of messages that it held, not its old capacity.
pub preset-capacity :
    (id : ℕ) (k : Kernel) (q : MQueue)
    → k.mqueues id ≡ some q
    → id < nb_queue
    → q.senders ≡ []
    → q.receivers ≡ []
    → Ensures (λ r. (r.0 ≡ 0) × (r.1.mqueues id ≡ some (new_mqueue q.count))) (preset id k)
unfolding preset alloc_mqueue
preset-capacity id k q here ok s r =
    let in_table : ltb id nb_queue ≡ true = ground arith in
    rw (in_table, here)
      (Ensures-bind (Deleted id (record k { cpt_rst = (k.cpt_rst + 1) % word })) _ _ _
        (pdelete-Deleted id _ q here ok s r) λ x d. (refl, ground arith))

-- A sender that runs again at a queue with room returns -1 if another queue, at which no task
-- waited, was deleted since its call began (while the counter of deletions has not wrapped).
pub psend_loop-other_deleted :
    (id j msg : ℕ) (k : Kernel) (q p : MQueue)
    → id ≢ j
    → id < nb_queue
    → k.mqueues id ≡ some q
    → q.count < q.size
    → j < nb_queue
    → k.mqueues j ≡ some p
    → p.senders ≡ []
    → p.receivers ≡ []
    → k.cpt_rst < 2 ^ 31 - 1
    → Ensures (λ r. r.0 ≡ done (neg 1)) (pdelete j k >>= λ r. psend_loop id msg k.cpt_rst r.1)
unfolding psend_loop
psend_loop-other_deleted id j msg k q p ne ok here room okj at s r small =
    Ensures-bind (Deleted j k) _ (pdelete j k) _ (pdelete-Deleted j k p at okj s r) λ x d.
      let still : x.1.mqueues id ≡ some q = d.others id ne ∙ here in
      let in_table : ltb id nb_queue ≡ true = ground arith in
      let free_room : is_full q ≡ false = ground arith in
      let newer : int_lt k.cpt_rst x.1.cpt_rst ≡ true = ground (arith, d.counter) in
      ground (arith, still, newer)
