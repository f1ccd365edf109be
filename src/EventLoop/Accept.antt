-- ===== src/EventLoop/Accept.antt =====
-- The inner loop of the event loop, which takes new connections.
use sginx.Base.{
  ℕ, ◌+◌, ◌^◌, ◌<◌, ◌≡◌, ◌≢◌, refl, ap, ◌∙◌, Option, some, List, [], ◌∷◌, arith, length,
}
use sginx.Base.Run.{Run, ok, Returns, with_value, returns, Returns-map, Returns-bind, ◌>>=◌}
use sginx.PriorityQueue.{Block}
use sginx.PriorityQueue.Order.{IsValid}
use sginx.Timer.{Timers, Time}
use sginx.Timer.Add.{InKeyOrder, IsFresh, add_correct}
use sginx.EventLoop.{
  Registration, Loop, Connection, AcceptAnswer, connection, no_more, timeout_default, accept_one,
  accept_loop,
}

-- sgx_timer_add can do its work on these timers
pub record CanAdd (t : Timers) (p : ℕ) : Type 0 where
  pub valid : IsValid t.queue
  pub order : InKeyOrder t
  pub fresh : IsFresh t p
  pub small : t.queue.max_size < 2 ^ 59

-- a connection with memory for its timer
abbrev pub served : ℕ → Option ℕ → ℕ → Block ℕ → Time → Connection
served fd new_request p b time = record {
  fd = fd;
  new_request = new_request;
  node = some p;
  grown = some b;
  time = time;
}

-- the calls of sgx_epoll_add for some connections, before the earlier ones
abbrev pub registered_after : List Connection → List Registration → List Registration
registered_after [] old = old
registered_after (c ∷ cs) old =
    registered_after cs (record { epfd = c.new_request; fd = c.fd; ptr = c.new_request } ∷ old)

Returns-bind_value {ℓ ℓ' κ κ'} :
    {S : Type ℓ} {T : Type κ} {Good : S → Type ℓ'} {Fine : T → Type κ'} {first : Run S}
    {second : S → Run T}
    → Returns Good first
    → ((s : S) → first ≡ ok s → Good s → Returns Fine (second s))
    → Returns Fine (first >>= second)
Returns-bind_value (with_value s e good) next = rw e (next s e good)

module _ (close_conn listen_socket : ℕ) where
  -- accept delivers these connections, and each time there is memory for a timer
  pub data CanAccept : Loop → ℕ → List AcceptAnswer → List Connection → Type 0 where
    ends :
        (s : Loop) (request : ℕ) (rest : List AcceptAnswer)
        → CanAccept s request (no_more ∷ rest) []
    takes :
        (s : Loop) (request p : ℕ) (b : Block ℕ) (fd : ℕ) (new_request : Option ℕ) (time : Time)
        (rest : List AcceptAnswer) (cs : List Connection)
        → CanAdd s.timers p
        → ((u : Loop)
            → accept_one close_conn listen_socket s request (served fd new_request p b time) ≡ ok u
            → CanAccept u request rest cs)
        → CanAccept s request
            (connection (served fd new_request p b time) ∷ rest)
            (served fd new_request p b time ∷ cs)

  -- what the loop over accept leaves behind
  pub record Accepted (s : Loop) (request : ℕ) (cs : List Connection) (u : Loop) : Type 0 where
    pub others : (q : ℕ) → q ≢ request → u.timers.timer q ≡ s.timers.timer q
    pub size : u.timers.queue.size ≡ s.timers.queue.size + length cs
    pub registered : u.registered ≡ registered_after cs s.registered
    pub kept : (u.fd_of ≡ s.fd_of) × (u.closed ≡ s.closed)

  accept_one-Accepted :
      (s : Loop) (request p : ℕ) (b : Block ℕ) (fd : ℕ) (new_request : Option ℕ) (time : Time)
      → CanAdd s.timers p
      → Returns
          (λ u. Accepted s request (served fd new_request p b time ∷ []) u)
          (accept_one close_conn listen_socket s request (served fd new_request p b time))
  unfolding accept_one
  accept_one-Accepted s request p b fd new_request time can =
      Returns-bind
        (add_correct s.timers request timeout_default (some close_conn) p time b can.valid can.order
          can.fresh can.small)
        (λ t added. returns (record {
          others = added.others;
          size = added.size;
          registered = refl;
          kept = (refl, refl);
        }))

  -- When accept delivers some connections, for each of which there is memory for a timer, and then
  -- nothing more, the loop over accept returns. It has called sgx_epoll_add for each connection
  -- with the new request in the place of the epoll descriptor, and it has added a timer for each;
  -- but no request other than that of
  -- the listening socket got a timer.
  pub accept_loop-Accepted :
      (s : Loop) (request : ℕ) (answers : List AcceptAnswer) (cs : List Connection)
      → CanAccept s request answers cs
      → Returns (Accepted s request cs) (accept_loop close_conn listen_socket answers s request)
  unfolding accept_loop
  accept_loop-Accepted s request _ _ (ends _ _ rest) =
      returns (record {
        others = λ q ne. refl;
        size = omega arith;
        registered = refl;
        kept = (refl, refl);
      })
  accept_loop-Accepted s request _ _ (takes _ _ p b fd new_request time rest cs can more) =
      Returns-bind_value (accept_one-Accepted s request p b fd new_request time can) (λ u e one.
        Returns-map (accept_loop-Accepted u request rest cs (more u e)) (λ v later. record {
          others = λ q ne. later.others q ne ∙ one.others q ne;
          size = omega (arith, later.size, one.size);
          registered = later.registered ∙ ap (registered_after cs) one.registered;
          kept = (later.kept.0 ∙ one.kept.0, later.kept.1 ∙ one.kept.1);
        }))
