-- ===== src/EventLoop/Sockets.antt =====
-- sgx_get_listen_fd and sgx_socket_unblock of src/core/sgx_rush.c, as what they do to descriptors. What
-- the system answers is an argument. An address is its port; the host's order of bytes is left out.
use sginx.Base.{
  ℕ, ◌%◌, ◌^◌, ◌≡◌, refl, Bool, true, false, Option, none, some, List, ◌∷◌, write, arith,
}
use Prim.Native.Nat.{bit_or}

-- what is known of descriptors: which have been opened and not been closed, and their settings
pub record Sockets : Type 0 where
  pub opened : List ℕ
  pub reuse : ℕ → Bool
  pub bound : ℕ → Option ℕ
  pub listening : ℕ → Bool
  pub flags : ℕ → ℕ

-- what socket, setsockopt, bind and listen answer: a descriptor, or whether they succeed
pub record Answers : Type 0 where
  pub socket : Option ℕ
  pub setsockopt : Bool
  pub bind : Bool
  pub listen : Bool

abbrev pub listens : Sockets → ℕ → Bool → Option ℕ × Sockets
listens s fd true = (some fd, record s { listening = write s.listening fd true })
listens s fd false = (none, s)

abbrev pub binds : Sockets → (fd port : ℕ) → (bind listen : Bool) → Option ℕ × Sockets
binds s fd port true listen =
    listens (record s { bound = write s.bound fd (some (port % 2 ^ 16)) }) fd listen
binds s fd port false listen = (none, s)

abbrev pub sets_reuse : Sockets → (fd port : ℕ) → (set bind listen : Bool) → Option ℕ × Sockets
sets_reuse s fd port true bind listen =
    binds (record s { reuse = write s.reuse fd true }) fd port bind listen
sets_reuse s fd port false bind listen = (none, s)

-- sgx_get_listen_fd; `none` is -1
unfoldable pub get_listen_fd : Sockets → Answers → ℕ → Option ℕ × Sockets
get_listen_fd s answers port = elim answers.socket [
  | none ↦ (none, s)
  | some fd ↦
      sets_reuse (record s { opened = fd ∷ s.opened }) fd port answers.setsockopt answers.bind
        answers.listen
]

-- O_NONBLOCK on Linux
abbrev pub nonblock : ℕ
nonblock = 2048

-- fcntl(fd, F_SETFL, flags), which answers a value if it does not fail
abbrev pub set_flags : Sockets → (fd flags : ℕ) → Option ℕ → Sockets
set_flags s fd flags none = s
set_flags s fd flags (some value) = record s { flags = write s.flags fd flags }

-- sgx_socket_unblock behind the first call, with its value; `true` is 0 and `false` is -1
abbrev pub unblock_rest : Sockets → ℕ → (first second : Option ℕ) → Bool × Sockets
unblock_rest s fd none second = (false, s)
unblock_rest s fd (some flag) none = (false, s)
unblock_rest s fd (some flag) (some value) =
    (true, set_flags s fd (bit_or flag nonblock) (some value))

-- sgx_socket_unblock
unfoldable pub socket_unblock : Sockets → ℕ → (first second : Option ℕ) → Bool × Sockets
socket_unblock s fd first second = unblock_rest (set_flags s fd 0 first) fd first second

-- When both calls of fcntl succeed and the first answers 0, the descriptor has the flag O_NONBLOCK and
-- no other, whatever flags it had.
socket_unblock_clears :
    (s : Sockets) (fd value : ℕ)
    → let (done, s') = socket_unblock s fd (some 0) (some value) in
      (done ≡ true) × (s'.flags fd ≡ nonblock)
unfolding socket_unblock
socket_unblock_clears s fd value = (refl, ground arith)

-- A socket that socket has opened stays open, whatever the later calls answer.
get_listen_fd_opened :
    (s : Sockets) (answers : Answers) (port fd : ℕ)
    → answers.socket ≡ some fd
    → (get_listen_fd s answers port).1.opened ≡ fd ∷ s.opened
unfolding get_listen_fd
get_listen_fd_opened s answers port fd opens =
    rw (get_listen_fd, opens) (kept answers.setsockopt answers.bind answers.listen)
  where
    kept :
        (set bind listen : Bool)
        → (sets_reuse (record s { opened = fd ∷ s.opened }) fd port set bind listen).1.opened
          ≡ fd ∷ s.opened
    kept false bind listen = refl
    kept true false listen = refl
    kept true true false = refl
    kept true true true = refl

-- When the four calls succeed, sgx_get_listen_fd returns the descriptor, which listens at the port
-- modulo 2^16.
get_listen_fd_listens :
    (s : Sockets) (port fd : ℕ)
    → let all : Answers = record {
      socket = some fd;
      setsockopt = true;
      bind = true;
      listen = true;
    } in
      let (got, s') = get_listen_fd s all port in
      (got ≡ some fd) × (s'.listening fd ≡ true) × (s'.bound fd ≡ some (port % 2 ^ 16))
unfolding get_listen_fd
get_listen_fd_listens s port fd = (refl, ground arith, ground arith)
