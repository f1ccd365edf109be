-- ===== src/Mini/Start.antt =====
-- sgx_start and main of src/test/sgx_mini.c. What the system answers is an argument; the host's order of
-- bytes and the printed lines are left out. A thread is what pthread_create gets for it.
use sginx.Base.{
  ℕ, ◌≡◌, refl, Bool, true, false, Option, none, some, List, [], ◌∷◌, ◌==◌, if◌then◌else◌,
}
use sginx.Base.Run.{Run, ok, out_of_fuel, ◌>>=◌}

-- what socket, bind, getsockname and listen answer: a descriptor, whether they succeed, and a port
pub record Answers : Type 0 where
  pub socket : Option ℕ
  pub bind : Bool
  pub getsockname : Option ℕ
  pub listen : Bool

-- the socket, the port that it was bound to, where 0 stands for any, its backlog, and `*sgx_port`
pub record Listening : Type 0 where
  pub fd : ℕ
  pub bound : ℕ
  pub backlog : ℕ
  pub port : Option ℕ

-- _INT_LIS
abbrev pub int_lis : ℕ
int_lis = 7

-- the port that is asked for; `none` is NULL
abbrev pub asked : Option ℕ → ℕ
asked none = 0
asked (some p) = p

-- `sgx_port && !*sgx_port`
abbrev pub wants_port : Option ℕ → Bool
wants_port none = false
wants_port (some p) = p == 0

-- `*sgx_port` behind getsockname; the outer `none` is exit
abbrev pub named : Bool → Option ℕ → Option ℕ → Option (Option ℕ)
named false port got = some port
named true port none = none
named true port (some p) = some (some p)

-- sgx_start behind socket; `none` is exit(EXIT_FAILURE)
abbrev pub listens : Answers → Option ℕ → ℕ → Option (Option ℕ) → Option Listening
listens a port fd none = none
listens a port fd (some port') =
    if a.listen
    then some (record { fd = fd; bound = asked port; backlog = int_lis; port = port' })
    else none

-- sgx_start
unfoldable pub start : Answers → Option ℕ → Option Listening
start a port = elim a.socket [
  | none ↦ none
  | some fd ↦
      if a.bind then listens a port fd (named (wants_port port) port a.getsockname) else none
]

-- what accept answers in the loop of main: a descriptor, or an error, which ends it
pub data AcceptResult : Type 0 where
  client : ℕ → AcceptResult
  refused : AcceptResult

-- the arguments of the threads, in order, and the descriptors that main closes
pub record Ran : Type 0 where
  pub threads : List ℕ
  pub closed : List ℕ

-- the loop of main: the descriptor itself is the argument of the thread. pthread_create never answers
-- less than 0, and what it answers is not used otherwise
unfoldable pub main_loop : List AcceptResult → Run (List ℕ)
main_loop [] = out_of_fuel
main_loop (refused ∷ answers) = ok []
main_loop (client fd ∷ answers) = main_loop answers >>= λ threads. ok (fd ∷ threads)

abbrev pub main_rest : List AcceptResult → Option Listening → Run (Option Ran)
main_rest answers none = ok none
main_rest answers (some l) =
    main_loop answers >>= λ threads. ok (some (record { threads = threads; closed = l.fd ∷ [] }))

-- main
unfoldable pub main : Answers → List AcceptResult → Run (Option Ran)
main a answers = main_rest answers (start a (some 0))

abbrev clients : List ℕ → List AcceptResult → List AcceptResult
clients [] rest = rest
clients (fd ∷ fds) rest = client fd ∷ clients fds rest

main_loop-clients :
    (fds : List ℕ) (rest : List AcceptResult) → main_loop (clients fds (refused ∷ rest)) ≡ ok fds
unfolding main_loop
main_loop-clients [] rest = refl
main_loop-clients (fd ∷ fds) rest = rw (main_loop-clients fds rest) refl

-- When the calls of sgx_start succeed, main calls pthread_create for every client, with its descriptor,
-- until accept fails, and then closes the listening socket and nothing else.
main_serves :
    (a : Answers) (fd p : ℕ) (fds : List ℕ) (rest : List AcceptResult)
    → a.socket ≡ some fd
    → a.bind ≡ true
    → a.getsockname ≡ some p
    → a.listen ≡ true
    → main a (clients fds (refused ∷ rest)) ≡ ok (some (record { threads = fds; closed = fd ∷ [] }))
unfolding main start
main_serves a fd p fds rest socket bind name listen =
    rw (socket, bind, name, listen, main_loop-clients fds rest) refl
