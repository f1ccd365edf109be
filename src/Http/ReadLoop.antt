-- ===== src/Http/ReadLoop.antt =====
-- sgx_request_run of src/http/http.c: the loop that reads a request into the ring buffer.
-- What the calls of read answer, in turn, is an argument. MAX_BUF, which nothing defines, is taken
-- for SGX_MAX_BUF. The label `err`, which the function lacks, is an end of its own. The overflow of
-- the buffer is logged only. The global ROOT, which nothing reads, is left out.
pub mod Ring
pub mod Rounds
mod Tests
use sginx.Base.{
  fill, ℕ, suc, ◌+◌, ◌-◌, ◌%◌, ◌^◌, List, [], ◌∷◌, ltb, if◌then◌else◌, write, length, minus,
}
use sginx.Base.Run.{Run, ok, out_of_fuel, ◌>>=◌}
use sginx.Http.{Request, max_buf}
use sginx.Timer.{Timers, Time, timer_del}

-- what read returns: some bytes, of which no byte is the end of the stream; -1 with EAGAIN; -1 with
-- another error
pub data Answer : Type 0 where
  got : List ℕ → Answer
  would_block broken : Answer

-- how the loop ends: at the `break` for EAGAIN, or at `goto err`
pub data End : Type 0 where
  drained err : End

abbrev pub min : ℕ → ℕ → ℕ
min a b = if ltb a b then a else b

-- `remain_size`, the bytes that read is asked for
abbrev pub remain_size : Request → ℕ
remain_size r = min (minus (minus max_buf (minus r.last r.pos)) 1) (max_buf - r.last % max_buf)

-- read stores bytes at `plast`, and `last` is advanced
abbrev pub store : Request → List ℕ → Request
store r cs = record r {
  buf = fill r.buf (r.last % max_buf) cs;
  last = (r.last + length cs) % 2 ^ 64;
}

-- the loop, while read is given answers
unfoldable pub read_loop : List Answer → Request → Run (End × Request)
read_loop [] r = out_of_fuel
read_loop (would_block ∷ rest) r = ok (drained, r)
read_loop (broken ∷ rest) r = ok (err, r)
read_loop (got [] ∷ rest) r = ok (err, r)
read_loop (got (c ∷ cs) ∷ rest) r = read_loop rest (store r (c ∷ cs))

-- sgx_request_run of the request at the address `ptr`
unfoldable pub request_run :
    Timers → ℕ → Time → List Answer → Request → Run (Timers × End × Request)
unfolding read_loop timer_del
request_run t ptr value answers r = do
  t' ← timer_del t ptr value
  (e, r') ← read_loop answers r
  ok (t', e, r')
