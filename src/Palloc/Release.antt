-- ===== src/Palloc/Release.antt =====
-- The cleanups of a pool, its reset and its destruction, of src/core/sgx_palloc.c.
use sginx.Base.{
  ℕ, ◌+◌, Bool, true, false, Option, none, some, List, [], ◌∷◌, ◌==◌, if◌then◌else◌, write,
}
use sginx.Base.Run.{Run, ok, fault, ◌>>=◌}
use sginx.Palloc.{
  Data, Large, Cleanup, cleanup_file, Call, freed, handled, Pool, Answers, pool_header, blocks,
}
use sginx.Palloc.Alloc.{palloc}

-- sizeof(sgx_pool_cleanup_t)
abbrev pub cleanup_size : ℕ
cleanup_size = 24

-- the end of sgx_pool_cleanup_add, with the data or the lack of it
abbrev pub link_cleanup : ℕ → Option ℕ → Pool → Pool
link_cleanup clean argument pool = record pool {
  cleanup = record { at = clean; handler = none; argument = argument } ∷ pool.cleanup;
}

abbrev pub with_data : ℕ → Option ℕ × Pool → Option ℕ × Pool
with_data clean (none, pool) = (none, pool)
with_data clean (some memory, pool) = (some clean, link_cleanup clean (some memory) pool)

-- sgx_pool_cleanup_add behind its first allocation
abbrev pub cleanup_rest : ℕ → Answers → Option ℕ × Pool → Run (Option ℕ × Pool)
cleanup_rest size answers (none, pool) = ok (none, pool)
cleanup_rest size answers (some clean, pool) =
    if size == 0
    then ok (some clean, link_cleanup clean none pool)
    else do memory ← palloc pool size true answers; ok (with_data clean memory)

-- sgx_pool_cleanup_add, with the answers in its first and in its second allocation
unfoldable pub cleanup_add : Pool → ℕ → Answers → Answers → Run (Option ℕ × Pool)
cleanup_add pool size first second = do
  clean ← palloc pool cleanup_size true first
  cleanup_rest size second clean

-- sgx_pool_cleanup_file_t
pub record CleanupFile : Type 0 where
  pub fd : ℕ
  pub name : List ℕ

-- the tests of sgx_pool_run_cleanup_file, over the files in memory
abbrev pub is_file_of : (ℕ → CleanupFile) → ℕ → Cleanup → Run Bool
is_file_of file_at fd c = elim c.handler [
  | some cleanup_file ↦ elim c.argument [ none ↦ fault | some file ↦ ok ((file_at file).fd == fd) ]
  | _ ↦ ok false
]

abbrev pub skip_entry : Cleanup → List Cleanup × Option Call → List Cleanup × Option Call
skip_entry c (rest, call) = (c ∷ rest, call)

-- the loop of sgx_pool_run_cleanup_file: the entries behind it, and the handler it has called
unfoldable pub run_file : (ℕ → CleanupFile) → ℕ → List Cleanup → Run (List Cleanup × Option Call)
run_file file_at fd [] = ok ([], none)
run_file file_at fd (c ∷ cleanup) =
    let skip = (run_file file_at fd cleanup >>= λ rest. ok (skip_entry c rest)) in
    is_file_of file_at fd c >>= λ found.
    if found
    then ok (record c { handler = none } ∷ cleanup, some (handled cleanup_file c.argument))
    else skip

abbrev noted : Option Call → List Call → List Call
noted none calls = calls
noted (some call) calls = call ∷ calls

-- sgx_pool_run_cleanup_file
unfoldable pub run_cleanup_file : (ℕ → CleanupFile) → Pool → ℕ → Run Pool
run_cleanup_file file_at pool fd = do
  (cleanup, call) ← run_file file_at fd pool.cleanup
  ok (record pool { cleanup = cleanup; calls = noted call pool.calls })

abbrev pub free_alloc : Option ℕ → List Call → List Call
free_alloc none calls = calls
free_alloc (some a) calls = freed (some a) ∷ calls

-- the loop over the large blocks in sgx_destroy_pool and sgx_reset_pool
abbrev pub free_large : List Large → List Call → List Call
free_large [] calls = calls
free_large (l ∷ large) calls = free_large large (free_alloc l.alloc calls)

-- the loop over the blocks in sgx_destroy_pool, from the block `now` and those behind it
abbrev pub free_blocks : ℕ → List ℕ → List Call → List Call
free_blocks now [] calls = calls
free_blocks now (next ∷ more) calls = free_blocks next more (freed (some now) ∷ calls)

abbrev pub call_handler : Cleanup → List Call → List Call
call_handler c calls = elim c.handler [ none ↦ calls | some h ↦ handled h c.argument ∷ calls ]

-- the loop over the cleanups in sgx_destroy_pool
abbrev pub run_cleanups : List Cleanup → List Call → List Call
run_cleanups [] calls = calls
run_cleanups (c ∷ cleanup) calls = run_cleanups cleanup (call_handler c calls)

-- the calls of sgx_destroy_pool, where `debug` is SGX_DEBUG
unfoldable pub destroy_pool : Bool → Pool → List Call
destroy_pool debug pool =
    let calls = if debug then run_cleanups pool.cleanup pool.calls else pool.calls in
    free_blocks pool.self pool.more (free_large pool.large calls)

-- the loop over the blocks in sgx_reset_pool
unfoldable pub reset_blocks : (ℕ → Data) → List ℕ → ℕ → Data
reset_blocks data_at [] = data_at
reset_blocks data_at (now ∷ rest) =
    let d = record (data_at now) { begin = now + pool_header; failed = 0 } in
    reset_blocks (write data_at now d) rest

-- sgx_reset_pool
unfoldable pub reset_pool : Pool → Pool
reset_pool pool = record pool {
  data_at = reset_blocks pool.data_at (blocks pool);
  current = pool.self;
  chain = none;
  large = [];
  calls = free_large pool.large pool.calls;
}
