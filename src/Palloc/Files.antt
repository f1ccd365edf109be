-- ===== src/Palloc/Files.antt =====
-- sgx_pool_run_cleanup_file of src/core/sgx_palloc.c, and the two handlers for files.
use sginx.Base.{
  ℕ, ◌≡◌, refl, Bool, true, false, Option, none, some, List, [], ◌∷◌, ◌++◌, All, All-append, ◌==◌,
  if◌then◌else◌,
}
use sginx.Base.Run.{ok}
use sginx.Palloc.{Pool, Cleanup, cleanup_file, handled}
use sginx.Palloc.Release.{CleanupFile, is_file_of, run_file, run_cleanup_file}

-- what the handlers do: sgx_close_file, sgx_delete_file, and messages to the log
pub data FileCall : Type 0 where
  closes : ℕ → FileCall
  deletes : List ℕ → FileCall
  logs : FileCall

-- the end of both handlers, where sgx_close_file fails or not
abbrev pub close : Bool → CleanupFile → List FileCall
close fails file = closes file.fd ∷ (if fails then logs ∷ [] else [])

-- sgx_pool_cleanup_file
unfoldable pub cleanup_file_handler : Bool → CleanupFile → List FileCall
cleanup_file_handler fails file = close fails file

-- ENOENT on Linux
abbrev pub enoent : ℕ
enoent = 2

-- sgx_pool_delete_file, with the error of sgx_delete_file
unfoldable pub delete_file_handler : Option ℕ → Bool → CleanupFile → List FileCall
delete_file_handler none fails file = deletes file.name ∷ close fails file
delete_file_handler (some error) fails file =
    if error == enoent
    then deletes file.name ∷ close fails file
    else deletes file.name ∷ logs ∷ close fails file

module _ (file_at : ℕ → CleanupFile) (fd : ℕ) where
  -- an entry that sgx_pool_run_cleanup_file passes over
  abbrev pub IsOther : Cleanup → Type 0
  IsOther c = is_file_of file_at fd c ≡ ok false

  run_file-others :
      (all : List Cleanup) → All IsOther all → run_file file_at fd all ≡ ok (all, none)
  unfolding run_file
  run_file-others [] others = refl
  run_file-others (c ∷ all) others = rw (others.0, run_file-others all others.1) refl

  run_file-first :
      (front back : List Cleanup) (c : Cleanup)
      → All IsOther front
      → is_file_of file_at fd c ≡ ok true
      → run_file file_at fd (front ++ c ∷ back)
        ≡ ok (front ++ record c { handler = none } ∷ back, some (handled cleanup_file c.argument))
  unfolding run_file
  run_file-first [] back c others is = rw is refl
  run_file-first (d ∷ front) back c others is =
      rw (others.0, run_file-first front back c others.1 is) refl

-- When one entry of the cleanups is for the file of a descriptor and no other is, a first call of
-- sgx_pool_run_cleanup_file calls that entry's handler with the file and takes the handler out of
-- the entry, and a second call for the descriptor changes nothing.
run_cleanup_file_once :
    (file_at : ℕ → CleanupFile) (fd : ℕ) (pool : Pool) (front back : List Cleanup) (c : Cleanup)
    → pool.cleanup ≡ front ++ c ∷ back
    → All (IsOther file_at fd) front
    → is_file_of file_at fd c ≡ ok true
    → All (IsOther file_at fd) back
    → let after : Pool = record pool {
      cleanup = front ++ record c { handler = none } ∷ back;
      calls = handled cleanup_file c.argument ∷ pool.calls;
    } in
      (run_cleanup_file file_at pool fd ≡ ok after) × (run_cleanup_file file_at after fd ≡ ok after)
unfolding run_cleanup_file
run_cleanup_file_once file_at fd pool front back c whole before is behind =
    let done : Cleanup = record c { handler = none } in
    let others = All-append (IsOther file_at fd) front (done ∷ back) (before, (refl, behind)) in
    (
      rw (run_cleanup_file, whole, run_file-first file_at fd front back c before is) refl,
      rw (run_cleanup_file, run_file-others file_at fd (front ++ done ∷ back) others) refl,
    )
