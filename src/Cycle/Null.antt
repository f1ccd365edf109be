-- ===== src/Cycle/Null.antt =====
-- What sgx_init_cycle of src/core/sgx_cycle.c comes to.
use sginx.Base.{ℕ, ◌≡◌, inl, refl, Bool, true, Option, none, some}
use sginx.Base.Run.{Run, ok, Returns, with_value, returns, Returns-bind}
use sginx.Palloc.{Pool, create_pool}
use sginx.Palloc.Alloc.{pcalloc}
use sginx.Palloc.Release.{destroy_pool}
use sginx.Palloc.Operations.{clear-IsLinked}
use sginx.Palloc.Linked.{IsLinked, palloc-IsLinked}
use sginx.Cycle.{Str, Cycle, Ended, no_pool, destroyed, World, fill_cycle, with_pool, init_cycle}

module _ (pstrdup : Pool → Str → Run (Option ℕ × Pool))
    (array_init : Pool → ℕ → ℕ → Run (Bool × Pool)) (world : World) where
  -- NULL is returned: there was no pool; or the pool that was created had no memory for the cycle, and
  -- it was destroyed; or it had, a string was copied with it, and it was destroyed as the copy left it
  pub data IsNull (pool_size cycle_size : ℕ) (old : Cycle) : Ended → Type 0 where
    without_pool : world.created ≡ none → IsNull pool_size cycle_size old no_pool
    no_memory :
        (pool left : Pool)
        → create_pool world.page_size pool_size world.created ≡ some pool
        → pcalloc pool cycle_size world.calloc ≡ ok (none, left)
        → IsNull pool_size cycle_size old (destroyed (destroy_pool world.debug left))
    prefix_is_null :
        (pool held left : Pool) (at : ℕ) (copy : Option ℕ)
        → create_pool world.page_size pool_size world.created ≡ some pool
        → pcalloc pool cycle_size world.calloc ≡ ok (some at, held)
        → pstrdup held old.conf_prefix ≡ ok (copy, left)
        → IsNull pool_size cycle_size old (destroyed (destroy_pool world.debug left))

  copied-IsNull :
      (pool_size cycle_size at : ℕ) (old : Cycle) (pool held : Pool)
      → create_pool world.page_size pool_size world.created ≡ some pool
      → pcalloc pool cycle_size world.calloc ≡ ok (some at, held)
      → Returns (λ (p, pool'). IsLinked pool') (pstrdup held old.conf_prefix)
      → Returns
          (IsNull pool_size cycle_size old)
          (fill_cycle pstrdup array_init world old (some at, held))
  copied-IsNull pool_size cycle_size at old pool held made got (with_value (copy, left) e linked) =
      rw e (returns (prefix_is_null pool held left at copy made got e))

  fill_cycle-IsNull :
      ((pool : Pool) (s : Str)
        → IsLinked pool
        → Returns (λ (p, pool'). IsLinked pool') (pstrdup pool s))
      → (pool_size cycle_size : ℕ) (old : Cycle) (pool : Pool)
      → create_pool world.page_size pool_size world.created ≡ some pool
      → (got : Option ℕ × Pool) → pcalloc pool cycle_size world.calloc ≡ ok got
      → IsLinked got.1
      → Returns (IsNull pool_size cycle_size old) (fill_cycle pstrdup array_init world old got)
  fill_cycle-IsNull dups pool_size cycle_size old pool made (none, left) got linked =
      returns (no_memory pool left made got)
  fill_cycle-IsNull dups pool_size cycle_size old pool made (some at, held) got linked =
      copied-IsNull pool_size cycle_size at old pool held made got
        (dups held old.conf_prefix linked)

  pcalloc-IsNull :
      ((pool : Pool) (s : Str)
        → IsLinked pool
        → Returns (λ (p, pool'). IsLinked pool') (pstrdup pool s))
      → (pool_size cycle_size : ℕ) (old : Cycle) (pool : Pool)
      → create_pool world.page_size pool_size world.created ≡ some pool
      → Returns (λ (p, pool'). IsLinked pool') (pcalloc pool cycle_size world.calloc)
      → Returns
          (IsNull pool_size cycle_size old)
          (with_pool pstrdup array_init world cycle_size old (some pool))
  pcalloc-IsNull dups pool_size cycle_size old pool made (with_value got e linked) =
      rw e (fill_cycle-IsNull dups pool_size cycle_size old pool made got e linked)

  with_pool-IsNull :
      ((pool : Pool) (s : Str)
        → IsLinked pool
        → Returns (λ (p, pool'). IsLinked pool') (pstrdup pool s))
      → (pool_size cycle_size : ℕ) (old : Cycle) (created : Option ℕ) → world.created ≡ created
      → Returns (IsNull pool_size cycle_size old) (
          with_pool pstrdup array_init world cycle_size old
            (create_pool world.page_size pool_size created))
  unfolding create_pool pcalloc
  with_pool-IsNull dups pool_size cycle_size old none e = returns (without_pool e)
  with_pool-IsNull dups pool_size cycle_size old (some p) e =
      pcalloc-IsNull dups pool_size cycle_size old _ (rw e refl) (
        Returns-bind (palloc-IsLinked _ cycle_size true world.calloc (inl refl))
          λ got linked. returns (clear-IsLinked cycle_size got linked))

  -- sgx_pstrdup returns and leaves a pool that allocates from one of its blocks. Then sgx_init_cycle
  -- returns NULL for every old cycle and every answer of the system. Either sgx_create_pool failed; or
  -- the cycle found no memory in the new pool, and sgx_destroy_pool was called for that pool as
  -- sgx_pcalloc left it; or the cycle was allocated, the first string was copied, `prefix` was tested
  -- before it is set, and sgx_destroy_pool was called for the pool as the copy left it.
  pub init_cycle-IsNull :
      ((pool : Pool) (s : Str)
        → IsLinked pool
        → Returns (λ (p, pool'). IsLinked pool') (pstrdup pool s))
      → (pool_size cycle_size : ℕ) (old : Cycle)
      → Returns
          (IsNull pool_size cycle_size old)
          (init_cycle pstrdup array_init world pool_size cycle_size old)
  unfolding init_cycle
  init_cycle-IsNull dups pool_size cycle_size old =
      with_pool-IsNull dups pool_size cycle_size old world.created refl
