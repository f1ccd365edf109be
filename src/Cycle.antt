-- ===== src/Cycle.antt =====
-- sgx_init_cycle of src/core/sgx_cycle.c, over the pool of src/core/sgx_palloc.c, up to the place where
-- the source breaks off. The model reads `cycle -> prefix.datra` and `conf_file,data` as `.data`. The
-- functions sgx_pstrdup and sgx_array_init, which are not there, are arguments; the time functions and
-- the copies of bytes are left out. The cycle holds the strings that it copies, and otherwise zeros.
pub mod Null
mod Tests
use sginx.Base.{ℕ, ◌+◌, ◌==◌, Bool, true, false, Option, none, some, List, if◌then◌else◌}
use sginx.Base.Run.{Run, ok, ◌>>=◌}
use sginx.Palloc.{Pool, Call, Answers, create_pool}
use sginx.Palloc.Alloc.{pcalloc, palloc}
use sginx.Palloc.Release.{destroy_pool}

-- sgx_str_t, with its pointer `data`
pub record Str : Type 0 where
  pub len : ℕ
  pub bytes : Option ℕ

-- sgx_cycle_t
pub record Cycle : Type 0 where
  pub conf_prefix : Str
  pub prefix : Str
  pub conf_file : Str
  pub conf_param : Str
  pub paths_nelts : ℕ

-- how sgx_init_cycle ends: NULL without a pool, NULL with the calls of a pool that it has destroyed, or
-- where the source breaks off
pub data Ended : Type 0 where
  no_pool : Ended
  destroyed : List Call → Ended
  goes_on : Cycle → Pool → Ended

-- what sgx_create_pool, sgx_pcalloc and sgx_pnalloc are answered, sgx_pagesize, whether SGX_DEBUG is
-- set, and sizeof(sgx_conf_dump_t)
pub record World : Type 0 where
  pub created : Option ℕ
  pub calloc : Answers
  pub nalloc : Answers
  pub page_size : ℕ
  pub debug : Bool
  pub dump_size : ℕ

abbrev pub empty_str : Str
empty_str = record { len = 0; bytes = none }

-- a cycle behind sgx_pcalloc
abbrev pub zeroed_cycle : Cycle
zeroed_cycle = record {
  conf_prefix = empty_str;
  prefix = empty_str;
  conf_file = empty_str;
  conf_param = empty_str;
  paths_nelts = 0;
}

abbrev pub is_null : Option ℕ → Bool
is_null none = true
is_null (some p) = false

module _ (pstrdup : Pool → Str → Run (Option ℕ × Pool))
    (array_init : Pool → ℕ → ℕ → Run (Bool × Pool)) (world : World) where
  abbrev pub destroy_null : Pool → Run Ended
  destroy_null pool = ok (destroyed (destroy_pool world.debug pool))

  -- both arrays
  abbrev pub init_arrays : Cycle → Cycle → Pool → Run Ended
  init_arrays old cycle pool =
      let n = if old.paths_nelts == 0 then 10 else old.paths_nelts in
      array_init pool n 8 >>= λ (done, p1).
      if done
      then (array_init p1 n world.dump_size >>= λ (done', p2).
          if done' then ok (goes_on (record cycle { paths_nelts = n }) p2) else destroy_null p2)
      else destroy_null p1

  abbrev pub copy_param : Cycle → Cycle → Pool → Run Ended
  copy_param old cycle pool = pstrdup pool old.conf_param >>= λ (param, p1).
      if is_null param
      then destroy_null p1
      else init_arrays old
          (record cycle { conf_param = record { len = old.conf_param.len; bytes = param } }) p1

  abbrev pub copy_file : Cycle → Cycle → Pool → Run Ended
  copy_file old cycle pool =
      palloc pool (old.conf_file.len + 1) false world.nalloc >>= λ (file, p1).
      if is_null file
      then destroy_null p1
      else copy_param old
          (record cycle { conf_file = record { len = old.conf_file.len; bytes = file } }) p1

  abbrev pub copy_prefix : Cycle → Cycle → Pool → Run Ended
  copy_prefix old cycle pool = pstrdup pool old.prefix >>= λ (prefix, p1).
      if is_null prefix
      then destroy_null p1
      else copy_file old (record cycle { prefix = record { len = old.prefix.len; bytes = prefix } })
          p1

  -- behind the first copy: it is stored in conf_prefix, and `prefix` is tested
  abbrev pub test_prefix : Cycle → Cycle → Pool → Run Ended
  test_prefix old cycle pool =
      if is_null cycle.prefix.bytes then destroy_null pool else copy_prefix old cycle pool

  abbrev pub fill_cycle : Cycle → Option ℕ × Pool → Run Ended
  fill_cycle old (none, pool) = destroy_null pool
  fill_cycle old (some at, pool) = pstrdup pool old.conf_prefix >>= λ (copied, p1).
      test_prefix old
        (record zeroed_cycle { conf_prefix = record { len = old.conf_prefix.len; bytes = copied } })
        p1

  abbrev pub with_pool : (cycle_size : ℕ) → Cycle → Option Pool → Run Ended
  with_pool cycle_size old none = ok no_pool
  with_pool cycle_size old (some pool) =
      pcalloc pool cycle_size world.calloc >>= λ got. fill_cycle old got

  -- sgx_init_cycle, with SGX_CYCLE_POOL_SIZE and sizeof(sgx_cycle_t)
  unfoldable pub init_cycle : (pool_size cycle_size : ℕ) → Cycle → Run Ended
  init_cycle pool_size cycle_size old =
      with_pool cycle_size old (create_pool world.page_size pool_size world.created)
