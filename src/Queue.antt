-- ===== src/Queue.antt =====
-- shared/queue.h: circular doubly linked lists with priorities, at the level of their pointers.
-- A link is the address of a `struct list_link`; `Links` holds the two fields of every link. A queue
-- is built over one link field, so an element is named by the address of its link, and `key` is what
-- the macros read through `queue_entry(...)->priofield`, in the order of the C comparison.
-- `none` is the panic of a failed assertion, or a walk that runs out of fuel.
pub mod Seg
pub mod Spec
pub mod Refine
mod Tests
use domin_os.Base.{
  ℕ, zero, suc, ◌≡◌, Bool, true, ◌&&◌, ◌||◌, not, Option, none, some, List, [], ◌∷◌, ltb, ◌==◌,
  if◌then◌else◌,
}

abbrev pub Ptr : Type 0
Ptr = ℕ

abbrev pub null : Ptr
null = 0

pub record Links : Type 0 where
  pub prev : Ptr → Ptr
  pub next : Ptr → Ptr

-- `a->prev = v` and `a->next = v`.
abbrev pub set_prev : Ptr → Ptr → Links → Links
set_prev a v l = record l { prev = λ p. if p == a then v else l.prev p }

abbrev pub set_next : Ptr → Ptr → Links → Links
set_next a v l = record l { next = λ p. if p == a then v else l.next p }

-- INIT_LIST_HEAD, INIT_LINK (and RESET_LINK), IS_LINK_NULL.
unfoldable pub init_list_head : Ptr → Links → Links
init_list_head p l = set_prev p p (set_next p p l)

unfoldable pub init_link : Ptr → Links → Links
init_link p l = set_prev p null (set_next p null l)

unfoldable pub is_link_null : Links → Ptr → Bool
is_link_null l p = (l.next p == null) && (l.prev p == null)

unfoldable pub queue_empty : Links → Ptr → Bool
queue_empty l head = l.next head == head

-- The walk of `queue_add`: the first link at or after `cur` that is the head or whose element does
-- not come before the new one.
unfoldable pub find_place : (Ptr → ℕ) → Links → Ptr → Ptr → ℕ → Ptr → Option Ptr
find_place key l head elem zero cur = none
find_place key l head elem (suc fuel) cur =
    let rest = find_place key l head elem fuel (l.next cur) in
    if not (cur == head) && ltb (key cur) (key elem) then rest else some cur

-- The four writes of `queue_add`, in its order.
unfoldable pub link_before : Ptr → Ptr → Links → Links
link_before elem cur l =
    let l1 = set_next elem cur l in
    let l2 = set_prev elem (l1.prev cur) l1 in
    let l3 = set_next (l2.prev cur) elem l2 in set_prev cur elem l3

unfoldable pub queue_add : (Ptr → ℕ) → ℕ → Ptr → Ptr → Links → Option Links
unfolding find_place link_before is_link_null
queue_add key fuel elem head l =
    if is_link_null l elem
    then elim (find_place key l head elem fuel (l.next head)) [
      | none ↦ none
      | some cur ↦ some (link_before elem cur l)
    ]
    else none

-- The four writes of `queue_del`, in its order.
unfoldable pub unlink : Ptr → Links → Links
unlink elem l =
    let l1 = set_next (l.prev elem) (l.next elem) l in
    let l2 = set_prev (l1.next elem) (l1.prev elem) l1 in set_prev elem null (set_next elem null l2)

unfoldable pub queue_del : Ptr → Links → Option Links
unfolding unlink
queue_del elem l =
    if (l.prev elem == null) || (l.next elem == null) then none else some (unlink elem l)

-- `queue_out` returns NULL on an empty queue.
unfoldable pub take_last : Ptr → Links → Links
take_last head l =
    let out = l.prev head in
    let l1 = set_prev head (l.prev (l.prev head)) l in
    let l2 = set_next (l1.prev head) head l1 in set_next out null (set_prev out null l2)

unfoldable pub queue_out : Ptr → Links → Option Ptr × Links
unfolding queue_empty take_last
queue_out head l = if queue_empty l head then (none, l) else (some (l.prev head), take_last head l)

unfoldable pub queue_top : Ptr → Links → Option Ptr
unfolding queue_empty
queue_top head l = if queue_empty l head then none else some (l.prev head)

unfoldable pub queue_bottom : Ptr → Links → Option Ptr
unfolding queue_empty
queue_bottom head l = if queue_empty l head then none else some (l.next head)

-- The elements that `queue_for_each` visits, in its order; `none` when the fuel runs out.
unfoldable pub walk_next : Links → Ptr → ℕ → Ptr → Option (List Ptr)
walk_next l head zero cur = none
walk_next l head (suc fuel) cur =
    let rest = walk_next l head fuel (l.next cur) in
    if cur == head then some [] else elim rest [ none ↦ none | some ps ↦ some (cur ∷ ps) ]

unfoldable pub queue_for_each : ℕ → Ptr → Links → Option (List Ptr)
unfolding walk_next
queue_for_each fuel head l = walk_next l head fuel (l.next head)

-- `queue_for_each_prev`.
unfoldable pub walk_prev : Links → Ptr → ℕ → Ptr → Option (List Ptr)
walk_prev l head zero cur = none
walk_prev l head (suc fuel) cur =
    let rest = walk_prev l head fuel (l.prev cur) in
    if cur == head then some [] else elim rest [ none ↦ none | some ps ↦ some (cur ∷ ps) ]

unfoldable pub queue_for_each_prev : ℕ → Ptr → Links → Option (List Ptr)
unfolding walk_prev
queue_for_each_prev fuel head l = walk_prev l head fuel (l.prev head)

unfoldable pub queue_update : (Ptr → ℕ) → ℕ → Ptr → Ptr → Links → Option Links
unfolding queue_del queue_add
queue_update key fuel elem head l = elim (queue_del elem l) [
  | none ↦ none
  | some l' ↦ queue_add key fuel elem head l'
]
