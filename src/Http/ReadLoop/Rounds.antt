-- ===== src/Http/ReadLoop/Rounds.antt =====
-- The loop of sgx_request_run over all its reads.
use sginx.Base.{
  ℕ, suc, ◌+◌, ◌-◌, ◌^◌, ◌<◌, ◌≤◌, ◌≡◌, refl, List, [], ◌∷◌, ◌++◌, some, true, ◌≢◌, arith, length,
  length-append,
}
use sginx.Base.Run.{ok, Returns, with_value, returns, Returns-map, Returns-bind}
use sginx.Timer.{Timers, Time, timer_del}
use sginx.Http.{Request}
use sginx.Http.ReadLoop.{
  Answer, got, would_block, broken, drained, err, store, remain_size, read_loop, request_run,
}
use sginx.Http.ReadLoop.Ring.{HasRoom, Stored, store-Stored, Stored-append, remain_size_lem}

-- what some reads deliver, put together
abbrev pub joined : List (List ℕ) → List ℕ
joined [] = []
joined (cs ∷ more) = cs ++ joined more

-- each read delivers something, and no more than it was asked for
abbrev pub AreReads : List (List ℕ) → Request → Type 0
AreReads [] r = Unit
AreReads (cs ∷ more) r = (0 < length cs) × (length cs ≤ remain_size r) × AreReads more (store r cs)

-- the answers of a socket that delivers this and then has nothing more
abbrev pub answers_of : List (List ℕ) → List Answer
answers_of [] = would_block ∷ []
answers_of (cs ∷ more) = got cs ∷ answers_of more

read_loop-reads :
    (chunks : List (List ℕ)) (r : Request)
    → HasRoom r
    → AreReads chunks r
    → r.last + length (joined chunks) < 2 ^ 64
    → Returns
        (λ (e, r'). (e ≡ drained) × Stored r (joined chunks) r')
        (read_loop (answers_of chunks) r)
unfolding read_loop
read_loop-reads [] r v reads small =
    with_value (drained, r) refl
      (
        refl,
        record {
          has_room = v;
          pos = refl;
          last = omega arith;
          others = refl;
          bytes = λ k lt. absurd (omega arith);
          unread = λ p from before. refl;
        },
      )
read_loop-reads ([] ∷ more) r v reads small = absurd (omega (arith, reads.0))
read_loop-reads ((c ∷ cs) ∷ more) r v reads small =
    let sum = length-append (c ∷ cs) (joined more) in
    let first = store-Stored r (c ∷ cs) v reads.1 (omega (arith, sum)) in
    Returns-map
      (read_loop-reads more (store r (c ∷ cs)) first.has_room reads.2
        (omega (arith, sum, first.last)))
      (λ (e, r') (end, rest).
        (end, Stored-append r (store r (c ∷ cs)) r' (c ∷ cs) (joined more) v first rest))

timer_del-Returns :
    (t : Timers) (ptr p : ℕ) (value : Time)
    → t.timer ptr ≡ some p
    → Returns (λ t'. (t'.node p).del ≡ true) (timer_del t ptr value)
unfolding timer_del
timer_del-Returns t ptr p value has = rw (has, timer_del) (returns (ground arith))

-- From a request whose positions fit the ring, with reads that deliver something and no more than
-- they were asked for until the socket has nothing more, sgx_request_run deletes the request's timer
-- and returns from its loop at EAGAIN. `last` has grown by the number of bytes read, the ring holds
-- them in their order behind the bytes that were not parsed yet, which are kept, the other
-- fields are as they were, and the positions fit the ring again.
pub request_run_correct :
    (t : Timers) (ptr p : ℕ) (value : Time) (chunks : List (List ℕ)) (r : Request)
    → t.timer ptr ≡ some p
    → HasRoom r
    → AreReads chunks r
    → r.last + length (joined chunks) < 2 ^ 64
    → Returns
        (λ (t', e, r'). ((t'.node p).del ≡ true) × (e ≡ drained) × Stored r (joined chunks) r')
        (request_run t ptr value (answers_of chunks) r)
unfolding request_run
request_run_correct t ptr p value chunks r has v reads small =
    Returns-bind (timer_del-Returns t ptr p value has) (λ t' deleted.
      Returns-bind (read_loop-reads chunks r v reads small)
        (λ (e, r') (end, stored). returns (deleted, end, stored)))

-- When the unread bytes fill the ring but for one, read is asked for no bytes. Its answer, unless it
-- is EAGAIN, ends the loop at `err` with the request as it was.
full-closed :
    (r : Request) (answer : Answer) (rest : List Answer)
    → HasRoom r
    → r.last - r.pos ≡ 8123
    → ((cs : List ℕ) → answer ≡ got cs → length cs ≤ remain_size r)
    → answer ≢ would_block
    → read_loop (answer ∷ rest) r ≡ ok (err, r)
unfolding read_loop
full-closed r would_block rest v full fits ne = absurd (ne refl)
full-closed r broken rest v full fits ne = refl
full-closed r (got []) rest v full fits ne = refl
full-closed r (got (c ∷ cs)) rest v full fits ne =
    absurd (omega (arith, remain_size_lem r v (suc (length cs)) (fits (c ∷ cs) refl)))
