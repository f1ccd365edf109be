-- ===== src/ListHead.antt =====
-- src/core/sgx_list.h: doubly linked rings of list heads.
-- A list head is an address; the memory gives the contents of its two fields.
pub mod Ring
pub mod Add
pub mod Del
pub mod Walk
mod Tests
use sginx.Base.{ℕ, zero, suc, Bool, ◌&&◌, List, [], ◌∷◌, ◌==◌, if◌then◌else◌, write}
use sginx.Base.Run.{Run, ok, out_of_fuel, ◌>>=◌}

-- struct sgx_list_head, at every address
pub record Heads : Type 0 where
  pub prev : ℕ → ℕ
  pub next : ℕ → ℕ

-- `p -> next = q`, and `p -> prev = q`
abbrev pub set_next : Heads → ℕ → ℕ → Heads
set_next m p q = record m { next = write m.next p q }

abbrev pub set_prev : Heads → ℕ → ℕ → Heads
set_prev m p q = record m { prev = write m.prev p q }

-- INIT_LIST_HEAD
unfoldable pub init_list_head : Heads → ℕ → Heads
init_list_head m ptr = set_prev (set_next m ptr ptr) ptr ptr

-- __list_add
unfoldable pub insert_between : Heads → (new prev next : ℕ) → Heads
insert_between m new prev next =
    set_prev (set_next (set_prev (set_next m new next) next new) prev new) new prev

unfoldable pub list_add : Heads → (new head : ℕ) → Heads
unfolding insert_between
list_add m new head = insert_between m new head (m.next head)

unfoldable pub list_add_tail : Heads → (new head : ℕ) → Heads
unfolding insert_between
list_add_tail m new head = insert_between m new (m.prev head) head

-- __list_del
unfoldable pub join : Heads → (prev next : ℕ) → Heads
join m prev next = set_prev (set_next m prev next) next prev

unfoldable pub list_del : Heads → ℕ → Heads
unfolding join
list_del m entry = join m (m.prev entry) (m.next entry)

unfoldable pub list_empty : Heads → ℕ → Bool
list_empty m head = (m.next head == head) && (m.prev head == head)

-- the positions that list_for_each takes, from `pos` on: along `next`, or along `prev` for
-- list_for_each_prev
unfoldable pub walk : ℕ → (ℕ → ℕ) → (head pos : ℕ) → Run (List ℕ)
walk zero step head pos = out_of_fuel
walk (suc k) step head pos =
    let later : Run (List ℕ) = (do rest ← walk k step head (step pos); ok (pos ∷ rest)) in
    if pos == head then ok [] else later

unfoldable pub list_for_each : ℕ → Heads → ℕ → Run (List ℕ)
unfolding walk
list_for_each fuel m head = walk fuel m.next head (m.next head)

unfoldable pub list_for_each_prev : ℕ → Heads → ℕ → Run (List ℕ)
unfolding walk
list_for_each_prev fuel m head = walk fuel m.prev head (m.prev head)
