-- ===== src/ListHead/Tests.antt =====
-- Lists of a few heads, and the theorems at inputs that meet their hypotheses.
use sginx.Base.{◌≡◌, refl, [], ◌∷◌, cell, arith}
use sginx.Base.Run.{ok}
use sginx.ListHead.{Heads, list_add, list_add_tail, list_del, list_for_each}
use sginx.ListHead.Ring.{IsRing}
use sginx.ListHead.Add.{list_add_correct}
use sginx.ListHead.Del.{list_del_correct}

-- the list at 1 with the entries 2 and 3, and the empty list at 5
abbrev two_lists : Heads
two_lists = record {
  prev = cell (0 ∷ 3 ∷ 1 ∷ 2 ∷ 0 ∷ 5 ∷ []);
  next = cell (0 ∷ 2 ∷ 3 ∷ 1 ∷ 0 ∷ 5 ∷ []);
}

two_lists-IsRing : IsRing two_lists 1 (2 ∷ 3 ∷ [])
two_lists-IsRing = record { linked = ground arith; distinct = ground arith }

empty-IsRing : IsRing two_lists 5 []
empty-IsRing = record { linked = ground arith; distinct = ground arith }

queue_test : list_for_each 4 (list_del (list_add_tail two_lists 4 1) 2) 1 ≡ ok (3 ∷ 4 ∷ [])
unfolding list_for_each list_del list_add_tail
queue_test = refl

list_add_correct_example :
    IsRing (list_add two_lists 4 1) 1 (4 ∷ 2 ∷ 3 ∷ [])
    × IsRing (list_add_tail two_lists 4 1) 1 (2 ∷ 3 ∷ 4 ∷ [])
list_add_correct_example =
    list_add_correct two_lists 4 1 (2 ∷ 3 ∷ []) two_lists-IsRing (ground arith)

list_del_correct_example :
    IsRing (list_del two_lists 2) 1 (3 ∷ [])
    × ((list_del two_lists 2).next 2 ≡ 3)
    × ((list_del two_lists 2).prev 2 ≡ 1)
list_del_correct_example = list_del_correct two_lists 1 2 [] (3 ∷ []) two_lists-IsRing
