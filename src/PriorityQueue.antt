-- ===== src/PriorityQueue.antt =====
-- src/core/sgx_priority_queue.c: the binary heap that holds the timers.
-- `node` is a C array whose cell 0 is unused. It is a function from indices, with the number of
-- `cells` of its block; a read or write at another index is a `fault`. The field `cmp` is the
-- argument `cmp` of the operations. What malloc answers is an argument: `none` is NULL. The calls
-- of free are recorded in `frees`, the latest first, and leave the cells alone.
pub mod Items
pub mod Order
pub mod Up
pub mod Push
pub mod Room
pub mod Down
pub mod Pop
pub mod Kept
pub mod Clear
mod Tests
use sginx.Base.{
  ℕ, zero, suc, ◌+◌, ◌-◌, ◌*◌, ◌/◌, ◌%◌, ◌^◌, Bool, true, false, ◌&&◌, ◌||◌, Option, none, some,
  List, [], ◌∷◌, ltb, leb, ◌==◌, if◌then◌else◌, write,
}
use sginx.Base.Run.{Run, ok, fault, out_of_fuel, ◌>>=◌}

-- SGX_OK, and the -1 of a failed call.
pub data Status : Type 0 where
  sgx_ok failed : Status

-- An address: a block and the offset of a cell in it.
pub record Ptr : Type 0 where
  pub block : ℕ
  pub offset : ℕ

-- What malloc returns: the block's name and what its cells happen to hold.
pub record Block {ℓ} (A : Type ℓ) : Type ℓ where
  pub name : ℕ
  pub content : ℕ → A

pub record Queue {ℓ} (A : Type ℓ) : Type ℓ where
  pub node : ℕ → A
  pub block : ℕ
  pub cells : ℕ
  pub size : ℕ
  pub max_size : ℕ
  pub frees : List Ptr

abbrev pub ptr : ℕ → ℕ → Ptr
ptr b i = record { block = b; offset = i }

-- A value of type size_t.
abbrev pub word : ℕ → ℕ
word n = n % 2 ^ 64

-- The cells of a block of `sizeof(void *) * n` bytes.
abbrev pub cells_of : ℕ → ℕ
cells_of n = word (8 * n) / 8

-- x | 1
abbrev pub or_one : ℕ → ℕ
or_one x = x - x % 2 + 1

-- an int, as a bit pattern of 32 bits, in the order of the signed numbers
abbrev pub signed_rank : ℕ → ℕ
signed_rank x = (x + 2 ^ 31) % 2 ^ 32

-- sgx_priority_queue_greater, on the ints that its arguments point at
unfoldable pub greater : ℕ → ℕ → Bool
greater x y = ltb (signed_rank y) (signed_rank x)

module _ {ℓ} {A : Type ℓ} where
  -- `pqueue -> node[i]`, read
  pub load : Queue A → ℕ → Run A
  load q i = if ltb i q.cells then ok (q.node i) else fault

  -- sgx_priority_queue_init
  unfoldable pub init : ℕ → Option (Block A) → Option (Queue A)
  init max_size none = none
  init max_size (some b) = some (record {
    node = b.content;
    block = b.name;
    cells = cells_of (word (max_size + 1));
    size = 0;
    max_size = max_size;
    frees = [];
  })

  -- sgx_priority_queue_empty
  unfoldable pub empty : Queue A → Bool
  empty q = q.size == 0

  -- sgx_priority_queue_size
  unfoldable pub size_of : Queue A → ℕ
  size_of q = q.size

  -- sgx_priority_queue_top
  unfoldable pub top : Queue A → Run (Option A)
  unfolding empty load
  top q = if empty q then ok none else (do a ← load q 1; ok (some a))

  -- the block that memcpy fills: `size + 1` cells of the old one, and the new one's own content
  abbrev pub copied : Queue A → (ℕ → A) → ℕ → A
  copied q content i = if leb i q.size then q.node i else content i

  -- priority_queue_resize
  unfoldable pub resize : Queue A → ℕ → Option (Block A) → Run (Status × Queue A)
  resize q new_size none = ok (failed, q)
  resize q new_size (some b) =
      if leb new_size q.size
      then ok (failed, q)
      else if ltb q.size q.cells && ltb q.size (cells_of new_size)
      then ok (
        sgx_ok,
        record q {
          node = copied q b.content;
          block = b.name;
          cells = cells_of new_size;
          max_size = new_size;
          frees = ptr q.block 0 ∷ q.frees;
        },
      )
      else fault

  -- priority_queue_swap
  pub swap : Queue A → ℕ → ℕ → Run (Queue A)
  unfolding load
  swap q x y = do
    temp ← load q x
    other ← load q y
    ok (record q { node = write (write q.node x other) y temp })

  -- `if(priority_queue_resize(...) < 0) return -1;`, and what follows
  abbrev pub unless_failed :
      Status × Queue A → (Queue A → Run (Status × Queue A)) → Run (Status × Queue A)
  unless_failed (sgx_ok, q) next = next q
  unless_failed (failed, q) next = ok (failed, q)

  -- the end of sgx_priority_queue_pop: the array shrinks when it is at most a quarter full
  pub shrink : Queue A → Option (Block A) → Run (Status × Queue A)
  unfolding resize
  shrink q answer =
      if ltb 0 q.size && leb q.size (word (q.max_size + 2 ^ 64 - 1) / 4)
      then (do r ← resize q (q.max_size / 2) answer; unless_failed r (λ q'. ok (sgx_ok, q')))
      else ok (sgx_ok, q)

  -- `free(pqueue -> node + pqueue -> size); pqueue -> size --;`
  abbrev pub drop_last : Queue A → Queue A
  drop_last q = record q { size = q.size - 1; frees = ptr q.block q.size ∷ q.frees }

module _ {ℓ} {A : Type ℓ} (cmp : A → A → Bool) where
  -- priority_queue_up
  pub up_loop : ℕ → Queue A → ℕ → Run (Queue A)
  up_loop zero q index = out_of_fuel
  up_loop (suc k) q index =
      let rise : Run (Queue A) = (do q' ← swap q index (index / 2); up_loop k q' (index / 2)) in
      let round : Run (Queue A) = do
        a ← load q index
        b ← load q (index / 2)
        if cmp a b then rise else ok q
      in if ltb 1 index then round else ok q

  unfoldable pub up : Queue A → ℕ → Run (Queue A)
  unfolding up_loop swap load
  up q index = up_loop (index + 1) q index

  -- priority_queue_cmp
  pub compare : Queue A → ℕ → ℕ → Run Bool
  compare q x y =
      if ltb q.size x || ltb q.size y
      then ok false
      else (do a ← load q x; b ← load q y; ok (cmp a b))

  -- priority_queue_down. The statement `index_t | 1;` computes a value and drops it, so both
  -- outcomes of the first comparison go on with the left child.
  pub down_loop : ℕ → Queue A → ℕ → Run (ℕ × Queue A)
  down_loop zero q index = out_of_fuel
  down_loop (suc k) q index =
      let index_t = word (2 * index) in
      let sink : Run (ℕ × Queue A) = (do q' ← swap q index_t index; down_loop k q' index_t) in
      let round : Run (ℕ × Queue A) = do
        right ← compare q (or_one index_t) index_t
        lower ← compare q index_t index
        if lower then sink else ok (index, q)
      in if leb index_t q.size then round else ok (index, q)

  unfoldable pub down : Queue A → ℕ → Run (ℕ × Queue A)
  unfolding down_loop compare swap load
  down q index = down_loop (q.size + 1) q index

  -- the rest of sgx_priority_queue_push, after the array was made large enough
  pub insert : Queue A → A → Run (Status × Queue A)
  unfolding up
  insert q value =
      let size = word (q.size + 1) in
      let stored = record q { node = write q.node size value; size = size } in
      if ltb size q.cells then (do q' ← up stored size; ok (sgx_ok, q')) else fault

  -- sgx_priority_queue_push
  unfoldable pub push : Queue A → A → Option (Block A) → Run (Status × Queue A)
  unfolding insert resize
  push q value answer =
      if word (q.size + 1) == q.max_size
      then (do r ← resize q (word (q.max_size * 2)) answer; unless_failed r (λ q'. insert q' value))
      else insert q value

  -- sgx_priority_queue_pop
  unfoldable pub pop : Queue A → Option (Block A) → Run (Status × Queue A)
  unfolding shrink down swap empty
  pop q answer =
      if empty q
      then ok (sgx_ok, q)
      else (do q1 ← swap q 1 q.size; r ← down (drop_last q1) 1; shrink r.1 answer)

  -- sgx_priority_queue_clear: the answers of malloc are those of the rounds in turn, and the
  -- status of each pop is dropped
  unfoldable pub clear_loop : ℕ → Queue A → (ℕ → Option (Block A)) → Run (Queue A)
  unfolding empty
  clear_loop zero q answers = out_of_fuel
  clear_loop (suc k) q answers =
      let rest : Run (Queue A) = do r ← pop q (answers 0); clear_loop k r.1 (λ i. answers (i + 1))
      in if empty q then ok q else rest

  unfoldable pub clear : Queue A → (ℕ → Option (Block A)) → Run (Queue A)
  unfolding clear_loop
  clear q answers = clear_loop (q.size + 1) q answers
