-- ===== src/Queue/Tests.antt =====
-- A queue of two elements, runs of the operations on it, and the theorems at it.
use domin_os.Base.{
  ℕ, ◌≡◌, refl, true, none, some, [], ◌∷◌, arith, ◌==◌, if◌then◌else◌, false, ◌>>=◌,
}
use domin_os.Queue.{
  Ptr, Links, init_list_head, is_link_null, queue_add, queue_del, queue_out, queue_top,
  queue_bottom, queue_for_each, queue_for_each_prev, queue_update,
}
use domin_os.Queue.Seg.{IsRing}
use domin_os.Queue.Spec.{last?, insert}
use domin_os.Queue.Refine.Add.{Added, queue_add-insert}
use domin_os.Queue.Refine.Remove.{Outcome, queue_del-remove, queue_out-last}
use domin_os.Queue.Refine.Walk.{queue_for_each_lem, queue_top-last}

abbrev head : Ptr
head = 100

-- 10 has priority 3, 20 has priority 5, 30 has priority 5 and is not linked.
abbrev key : Ptr → ℕ
key p = if p == 10 then 3 else 5

abbrev two : Links
two = record {
  prev = λ p. if p == 100 then 20 else (if p == 20 then 10 else (if p == 10 then 100 else 0));
  next = λ p. if p == 100 then 10 else (if p == 10 then 20 else (if p == 20 then 100 else 0));
}

two-IsRing : IsRing two head (10 ∷ 20 ∷ [])
two-IsRing = record {
  chain = (refl, refl, (refl, refl, (refl, refl)));
  apart = omega arith;
  not_null = omega arith;
}

-- Equal priorities: 30 goes before 20 in the list, so 20 leaves first.
add_keeps_order : insert key 30 (10 ∷ 20 ∷ []) ≡ 10 ∷ 30 ∷ 20 ∷ []
unfolding insert
add_keeps_order = refl

visits : queue_for_each_prev 3 head two ≡ some (20 ∷ 10 ∷ [])
unfolding queue_for_each_prev
visits = refl

-- A priority that has fallen moves the element to the front.
updates :
    (queue_update (λ p. if p == 20 then 1 else 3) 3 20 head two >>= queue_for_each 3 head)
    ≡ some (20 ∷ 10 ∷ [])
unfolding queue_update queue_for_each
updates = refl

panics_twice : queue_add key 3 10 head two ≡ none
unfolding queue_add
panics_twice = refl

bottom : queue_bottom head two ≡ some 10
unfolding queue_bottom
bottom = refl

fresh_head : is_link_null (init_list_head 7 two) 7 ≡ false
unfolding is_link_null init_list_head
fresh_head = refl

queue_add-insert_example : Added key 30 head (10 ∷ 20 ∷ []) two (queue_add key 3 30 head two)
queue_add-insert_example =
    queue_add-insert two head key 30 (10 ∷ 20 ∷ []) 3 two-IsRing (omega arith) (omega arith)
      (unfold is_link_null in refl) (omega arith)

queue_del-remove_example :
    (l' : Links) × (queue_del 10 two ≡ some l')
    × IsRing l' head (20 ∷ [])
    × (is_link_null l' 10 ≡ true)
queue_del-remove_example = queue_del-remove two head [] 10 (20 ∷ []) two-IsRing

queue_out-last_example : Outcome (10 ∷ 20 ∷ []) head (queue_out head two)
queue_out-last_example = queue_out-last two head (10 ∷ 20 ∷ []) two-IsRing

queue_for_each_lem_example : queue_for_each 3 head two ≡ some (10 ∷ 20 ∷ [])
queue_for_each_lem_example = queue_for_each_lem two head 3 (10 ∷ 20 ∷ []) two-IsRing (omega arith)

queue_top-last_example : queue_top head two ≡ last? (10 ∷ 20 ∷ [])
queue_top-last_example = queue_top-last two head (10 ∷ 20 ∷ []) two-IsRing
