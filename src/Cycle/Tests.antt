-- ===== src/Cycle/Tests.antt =====
-- An old cycle with short strings, and the theorem at it.
use sginx.Base.{ℕ, Bool, true, false, Option, none, some}
use sginx.Base.Run.{Run, ok, Returns}
use sginx.Palloc.{Pool}
use sginx.Palloc.Alloc.{palloc}
use sginx.Palloc.Linked.{palloc-IsLinked}
use sginx.Cycle.{Str, Cycle, World, init_cycle}
use sginx.Cycle.Null.{IsNull, init_cycle-IsNull}

abbrev str : Str
str = record { len = 9; bytes = some 600 }

abbrev old : Cycle
old = record { conf_prefix = str; prefix = str; conf_file = str; conf_param = str; paths_nelts = 2 }

-- the pool is at 4096, and there is no other memory
abbrev world : World
world = record {
  created = some 4096;
  calloc = record { alloc = none; memalign = none };
  nalloc = record { alloc = none; memalign = none };
  page_size = 4096;
  debug = false;
  dump_size = 32;
}

-- the bytes of the copy are taken from the pool
abbrev pstrdup : Pool → Str → Run (Option ℕ × Pool)
pstrdup pool s = palloc pool s.len false world.nalloc

abbrev array_init : Pool → ℕ → ℕ → Run (Bool × Pool)
array_init pool n size = ok (true, pool)

init_cycle-IsNull_example :
    Returns
      (IsNull pstrdup array_init world 16384 600 old)
      (init_cycle pstrdup array_init world 16384 600 old)
init_cycle-IsNull_example =
    init_cycle-IsNull pstrdup array_init world
      (λ pool s linked. palloc-IsLinked pool s.len false world.nalloc linked) 16384 600 old
