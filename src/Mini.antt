-- ===== src/Mini.antt =====
-- sgx_get_fd_line of src/test/sgx_mini.c, and the loop over header lines that calls it.
-- The bytes that the descriptor will deliver are a list, behind whose end read and recv fail. The
-- buffer is a function from indices.
pub mod Line
pub mod Request
pub mod Environ
pub mod Cgi
pub mod Serve
pub mod Start
mod Tests
use sginx.Base.{
  ℕ, zero, suc, ◌+◌, ◌-◌, Bool, not, ◌&&◌, List, [], ◌∷◌, ltb, ◌==◌, if◌then◌else◌, write,
}
use sginx.Base.Run.{Run, ok, out_of_fuel}

-- what sgx_get_fd_line returns, the buffer behind it, and the bytes that are left
pub record LineRead : Type 0 where
  pub count : ℕ
  pub buf : ℕ → ℕ
  pub left : List ℕ

-- `*sgx_tail = '\0'; return sgx_tail - sgx_buf;`
abbrev pub finish : (ℕ → ℕ) → ℕ → List ℕ → LineRead
finish buf i left = record { count = i; buf = write buf i 0; left = left }

-- behind a '\r': a '\n' that follows is consumed, and a '\n' is stored only if none follows
unfoldable pub after_cr : (ℕ → ℕ) → ℕ → List ℕ → LineRead
after_cr buf i [] = finish (write buf i 10) (suc i) []
after_cr buf i (c ∷ rest) =
    if c == 10 then finish buf i rest else finish (write buf i 10) (suc i) (c ∷ rest)

-- the loop; `size` is already smaller by one
unfoldable pub line_loop : List ℕ → (size : ℕ) → (ℕ → ℕ) → ℕ → LineRead
unfolding after_cr
line_loop [] size buf i = finish buf i []
line_loop (c ∷ rest) size buf i =
    let later = line_loop rest size (write buf i c) (suc i) in
    let round = if c == 13 then after_cr buf i rest else later in
    if ltb i size then round else finish buf i (c ∷ rest)

unfoldable pub get_fd_line : List ℕ → (ℕ → ℕ) → (size : ℕ) → LineRead
unfolding line_loop
get_fd_line bytes buf size = line_loop bytes (size - 1) buf 0

-- _INT_BUF
abbrev pub int_buf : ℕ
int_buf = 1024

-- strcmp("\n", sgx_buf) is 0
abbrev pub is_newline : (ℕ → ℕ) → Bool
is_newline buf = (buf 0 == b'\n') && (buf 1 == 0)

-- the loop over the header lines, and the bytes that are left behind it
unfoldable pub skip_headers : ℕ → List ℕ → (ℕ → ℕ) → Run (List ℕ)
skip_headers zero bytes buf = out_of_fuel
skip_headers (suc fuel) bytes buf =
    let l = get_fd_line bytes buf int_buf in
    let later = skip_headers fuel l.left l.buf in
    if not (l.count == 0) && not (is_newline l.buf) then later else ok l.left
