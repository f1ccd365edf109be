-- ===== src/EventLoop/Main.antt =====
-- main of src/core/sgx_rush.c: its main_start, and any number of rounds of its loop.
use sginx.Base.{ℕ, ◌≡◌, refl, false, none, List, arith, length, write}
use sginx.Base.Run.{Run, Returns, returns, Returns-bind}
use sginx.Conf.Stops.{read_conf-ends}
use sginx.EventLoop.{Turn}
use sginx.EventLoop.Connections.{Within}
use sginx.EventLoop.Sockets.{Sockets, get_listen_fd}
use sginx.EventLoop.Start.{Before, Replies, Started, fd_value, main_start, main}

-- the listening socket of main, or -1
abbrev pub listens_at : Before → Replies → ℕ
listens_at b a = fd_value (get_listen_fd b.sockets a.listen b.port).0

-- the descriptors of the requests, with that of the listening socket at `p`
abbrev pub fds : Before → Replies → ℕ → ℕ → ℕ
fds b a p = write (λ q. (b.request q).fd) p (listens_at b a)

-- the loop can start
abbrev pub Ready : (base : ℕ) → Before → Replies → ℕ → Started → Type 0
Ready base b a p st =
    (st.listen_socket ≡ listens_at b a)
    × (st.loop.fd_of ≡ fds b a p)
    × Within base 0 st.loop
    × (length st.loop.registered ≡ 1)

main_start-exits :
    (b : Before) (a : Replies) → a.sigaction ≡ false → Returns (λ o. o ≡ none) (main_start b a)
unfolding main_start
main_start-exits b a fails =
    Returns-bind (read_conf-ends a.conf_file b.reading 8192 (omega arith))
      λ o ends. rw fails (returns refl)

-- If sigaction fails, main ends there, for every configuration file.
main_exits :
    (close_conn : ℕ) (b : Before) (a : Replies) (turns : List Turn)
    → a.sigaction ≡ false
    → Returns (λ o. o ≡ none) (main close_conn b a turns)
unfolding main
main_exits close_conn b a turns fails =
    Returns-bind (main_start-exits b a fails) λ st e. rw e (returns refl)
