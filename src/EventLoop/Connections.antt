-- ===== src/EventLoop/Connections.antt =====
-- The timers of the event loop of src/core/sgx_rush.c under new connections, while the clock shows
-- times of one timeout.
use sginx.Base.{
  ℕ, ◌+◌, ◌*◌, ◌^◌, ◌≤◌, ◌<◌, ◌≡◌, ◌∙◌, refl, Option, none, some, List, [], ◌∷◌, arith, length,
}
use sginx.Base.Run.{Returns, returns, Returns-map, Returns-bind}
use sginx.PriorityQueue.Order.{IsValid}
use sginx.Timer.Quiet.{Quiet, InWindow, timer_add-Added}
use sginx.EventLoop.{
  Loop, Connection, AcceptAnswer, connection, no_more, timeout_default, given_out, accept_one,
  accept_loop,
}

-- the timer queue is valid, at most `n` timers were added to it, none is due before `base` and a
-- timeout, and no request was freed
pub record Within (base n : ℕ) (s : Loop) : Type 0 where
  pub valid : IsValid s.timers.queue
  pub few : s.timers.queue.size ≤ n
  pub tight : s.timers.queue.max_size ≤ 2 * n + 20
  pub quiet : Quiet (base + timeout_default) s.timers
  pub none_freed : s.freed ≡ []

-- accept fails in the end, and until then malloc gives a node for each connection's timer, which is
-- added at a time of the timeout from `base` on
abbrev pub Ends : (base : ℕ) → List AcceptAnswer → Type 0
Ends base [] = ⊥
Ends base (no_more ∷ rest) = Unit
Ends base (connection c ∷ rest) =
    (((p : ℕ) × (c.node ≡ some p)) × InWindow base timeout_default c.time) × Ends base rest

-- the connections before accept fails
abbrev pub accepted : List AcceptAnswer → ℕ
accepted [] = 0
accepted (no_more ∷ rest) = 0
accepted (connection c ∷ rest) = 1 + accepted rest

-- `u` is `s` after `n` more connections
pub record Served (base m n : ℕ) (s u : Loop) : Type 0 where
  pub within : Within base (m + n) u
  pub registered : length u.registered ≡ length s.registered + n
  pub fd_of : u.fd_of ≡ s.fd_of

given_out-none : (c : Option ℕ) (freed : List ℕ) → freed ≡ [] → given_out c freed ≡ []
given_out-none none freed e = e
given_out-none (some p) freed e = rw e refl

pub Served-step :
    (base m j k : ℕ) (s u v : Loop)
    → Served base m j s u
    → Served base (m + j) k u v
    → Served base m (j + k) s v
Served-step base m j k s u v first later = record {
  within = record {
    valid = later.within.valid;
    few = omega (arith, later.within.few);
    tight = omega (arith, later.within.tight);
    quiet = later.within.quiet;
    none_freed = later.within.none_freed;
  };
  registered = omega (arith, first.registered, later.registered);
  fd_of = later.fd_of ∙ first.fd_of;
}

pub Served-none : (base m : ℕ) (s : Loop) → Within base m s → Served base m 0 s s
Served-none base m s within = record {
  within = record {
    valid = within.valid;
    few = omega (arith, within.few);
    tight = omega (arith, within.tight);
    quiet = within.quiet;
    none_freed = within.none_freed;
  };
  registered = omega arith;
  fd_of = refl;
}

module _ (base close_at listen_socket : ℕ) where
  accept_one-Served :
      (m : ℕ) (s : Loop) (request p : ℕ) (c : Connection)
      → c.node ≡ some p
      → InWindow base timeout_default c.time
      → base + 1000 < 2 ^ 64
      → Within base m s
      → m < 2 ^ 57
      → Returns (Served base m 1 s) (accept_one close_at listen_socket s request c)
  unfolding accept_one
  accept_one-Served m s request p c node inside no_wrap within small = rw node (
      Returns-bind
        (timer_add-Added base timeout_default s.timers request (some close_at) p c.grown c.time
          within.valid (omega (arith, within.tight)) within.quiet inside no_wrap)
        λ t added. returns (record {
          within = record {
            valid = added.valid;
            few = omega (arith, added.size, within.few);
            tight = ground (arith, added.max_size, within.few, within.tight);
            quiet = added.quiet;
            none_freed = given_out-none c.new_request s.freed within.none_freed;
          };
          registered = omega arith;
          fd_of = refl;
        }))

  pub accept_loop-Served :
      (m : ℕ) (answers : List AcceptAnswer) (s : Loop) (request : ℕ)
      → Ends base answers
      → base + 1000 < 2 ^ 64
      → Within base m s
      → m + accepted answers ≤ 2 ^ 57
      → Returns
          (Served base m (accepted answers) s)
          (accept_loop close_at listen_socket answers s request)
  unfolding accept_loop
  accept_loop-Served m [] s request ends no_wrap within small = absurd ends
  accept_loop-Served m (no_more ∷ rest) s request ends no_wrap within small =
      returns (Served-none base m s within)
  accept_loop-Served m (connection c ∷ rest) s request ends no_wrap within small =
      Returns-bind
        (accept_one-Served m s request ends.0.0.0 c ends.0.0.1 ends.0.1 no_wrap within
          (omega arith))
        λ u one.
          Returns-map
            (accept_loop-Served (m + 1) rest u request ends.1 no_wrap one.within (omega arith))
            (λ v later. Served-step base m 1 (accepted rest) s u v one later)
