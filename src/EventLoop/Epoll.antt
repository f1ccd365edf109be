-- ===== src/EventLoop/Epoll.antt =====
-- src/core/sgx_epool.c, the wrappers of epoll, as the calls that they make. What the system answers is
-- an argument; a failure is logged only, since sgx_check of src/core/sgx_log.h does nothing else.
use sginx.Base.{
  ℕ, ◌+◌, ◌^◌, Bool, true, false, ◌&&◌, Option, none, some, List, ◌∷◌, ltb, if◌then◌else◌,
}

-- EPOLL_CTL_ADD, EPOLL_CTL_MOD and EPOLL_CTL_DEL
pub data Op : Type 0 where
  ctl_add ctl_mod ctl_del : Op

-- a call of epoll_ctl; `event` is the pointer in its event's data
pub record Ctl : Type 0 where
  pub op : Op
  pub epfd : ℕ
  pub fd : ℕ
  pub event : Option ℕ

-- the calls of epoll_ctl, the latest first, the pointer `events`, and how many failures were logged
pub record Epolls : Type 0 where
  pub calls : List Ctl
  pub events : Option ℕ
  pub logged : ℕ

-- sgx_check
abbrev pub check : Bool → Epolls → Epolls
check holds e = record e { logged = if holds then e.logged else e.logged + 1 }

abbrev pub is_there : Option ℕ → Bool
is_there none = false
is_there (some p) = true

-- an int is positive
abbrev pub positive : ℕ → Bool
positive n = ltb 0 n && ltb n (2 ^ 31)

-- sgx_epoll_create, for what epoll_create1 and malloc answer
unfoldable pub epoll_create : Epolls → (fd : ℕ) → Option ℕ → ℕ × Epolls
epoll_create e fd events =
    let made : Epolls = record (check (positive fd) e) { events = events } in
    (fd, check (is_there events) made)

abbrev pub control : Op → Epolls → (epfd fd : ℕ) → Option ℕ → (done : Bool) → Epolls
control op e epfd fd event done =
    check done
      (record e { calls = record { op = op; epfd = epfd; fd = fd; event = event } ∷ e.calls })

-- sgx_epoll_add, sgx_epoll_mod and sgx_epoll_del
unfoldable pub epoll_add : Epolls → (epfd fd : ℕ) → Option ℕ → (done : Bool) → Epolls
epoll_add = control ctl_add

unfoldable pub epoll_mod : Epolls → (epfd fd : ℕ) → Option ℕ → (done : Bool) → Epolls
epoll_mod = control ctl_mod

unfoldable pub epoll_del : Epolls → (epfd fd : ℕ) → Option ℕ → (done : Bool) → Epolls
epoll_del = control ctl_del

-- sgx_epool_wait: the number is checked, and nothing is returned
unfoldable pub epoll_wait : Epolls → (num : ℕ) → Option ℕ × Epolls
epoll_wait e num = (none, check (ltb num (2 ^ 31)) e)
