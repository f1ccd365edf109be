-- ===== src/Mini/Cgi/Loops.antt =====
-- The loops over header lines in src/test/sgx_mini.c end, for any bytes of the connection.
use sginx.Base.{
  ℕ, zero, suc, ◌+◌, ◌<◌, ◌≤◌, ◌≡◌, ◌≢◌, ap, Bool, true, false, not, ◌&&◌, List, [], ◌∷◌, ◌==◌, ltb,
  Bool-cases, ltb→lt, inl, inr, arith, length, write,
}
use sginx.Base.Run.{Run, Returns, returns, Returns-bind}
use sginx.Mini.{LineRead, line_loop, after_cr, get_fd_line, skip_headers, int_buf, is_newline}
use sginx.Mini.Request.{same_word}
use sginx.Mini.Cgi.{text_at, header_length, read_length, length_name}

-- a line takes bytes off the stream, and the buffer still ends in a NUL
record IsTaken (bytes : List ℕ) (size i : ℕ) (l : LineRead) : Type 0 where
  pub more : i ≤ l.count
  pub fewer : length l.left ≤ length bytes
  pub shorter : i < l.count → length l.left < length bytes
  pub last : l.buf size ≡ 0

after_cr-IsTaken :
    (c : ℕ) (rest : List ℕ) (size : ℕ) (buf : ℕ → ℕ) (i : ℕ)
    → buf size ≡ 0
    → i < size
    → IsTaken (c ∷ rest) size i (after_cr buf i rest)
unfolding after_cr
after_cr-IsTaken c [] size buf i nul lt = record {
  more = omega arith;
  fewer = omega arith;
  shorter = λ some_bytes. omega arith;
  last = ground arith;
}
after_cr-IsTaken c (d ∷ rest) size buf i nul lt = elim (Bool-cases (d == 10)) [
  | inl e ↦ rw e (record {
    more = omega arith;
    fewer = omega arith;
    shorter = λ lt'. absurd (omega arith);
    last = ground arith;
  })
  | inr e ↦ rw e (record {
    more = omega arith;
    fewer = omega arith;
    shorter = λ lt'. omega arith;
    last = ground arith;
  })
]

line_loop-IsTaken :
    (bytes : List ℕ) (size : ℕ) (buf : ℕ → ℕ) (i : ℕ)
    → buf size ≡ 0
    → i ≤ size
    → IsTaken bytes size i (line_loop bytes size buf i)
unfolding line_loop
line_loop-IsTaken [] size buf i nul le = record {
  more = omega arith;
  fewer = omega arith;
  shorter = λ lt. absurd (omega arith);
  last = ground arith;
}
line_loop-IsTaken (c ∷ rest) size buf i nul le = elim (Bool-cases (ltb i size)) [
  | inr e ↦ rw e (record {
    more = omega arith;
    fewer = omega arith;
    shorter = λ lt. absurd (omega arith);
    last = ground arith;
  })
  | inl e ↦ elim (Bool-cases (c == 13)) [
    | inl e' ↦ rw (e, e') (after_cr-IsTaken c rest size buf i nul (ltb→lt i size e))
    | inr e' ↦
        let lt : i < size = ltb→lt i size e in
        let later =
          line_loop-IsTaken rest size (write buf i c) (suc i) (ground (arith, nul, lt)) lt in
        rw (e, e')
          (record {
            more = omega (arith, later.more);
            fewer = omega (arith, later.fewer);
            shorter = λ lt'. omega (arith, later.fewer);
            last = later.last;
          })
  ]
]

get_fd_line-shorter :
    (bytes : List ℕ) (buf : ℕ → ℕ)
    → buf 1023 ≡ 0
    → ((get_fd_line bytes buf int_buf).count == 0) ≡ false
    → length (get_fd_line bytes buf int_buf).left < length bytes
unfolding get_fd_line
get_fd_line-shorter bytes buf nul some_bytes =
    (line_loop-IsTaken bytes 1023 buf 0 nul (omega arith)).shorter (ground (arith, some_bytes))

get_fd_line-last :
    (bytes : List ℕ) (buf : ℕ → ℕ) → buf 1023 ≡ 0 → (get_fd_line bytes buf int_buf).buf 1023 ≡ 0
unfolding get_fd_line
get_fd_line-last bytes buf nul = (line_loop-IsTaken bytes 1023 buf 0 nul (omega arith)).last

goes_on : (p q : Bool) → not p && not q ≡ true → p ≡ false
goes_on p q e = ground (arith, e)

-- the call ends with a value
abbrev pub IsReturning : {S : Type 0} → Run S → Type 0
IsReturning call = Returns {0, 0} (λ s. Unit) call

pub skip_headers-returns :
    (fuel : ℕ) (bytes : List ℕ) (buf : ℕ → ℕ)
    → buf 1023 ≡ 0
    → length bytes < fuel
    → IsReturning (skip_headers fuel bytes buf)
unfolding skip_headers
skip_headers-returns zero bytes buf nul lt = absurd (omega arith)
skip_headers-returns (suc fuel) bytes buf nul lt =
    let l = get_fd_line bytes buf int_buf in
    elim (Bool-cases (not (l.count == 0) && not (is_newline l.buf))) [
      | inr e ↦ rw e (returns tt)
      | inl e ↦
          let shorter =
            get_fd_line-shorter bytes buf nul (goes_on (l.count == 0) (is_newline l.buf) e) in
          rw e (
            skip_headers-returns fuel l.left l.buf (get_fd_line-last bytes buf nul)
              (omega (arith, shorter)))
    ]

-- there is a NUL at `n`, so the string ends inside the buffer
text_at-returns :
    (room : ℕ) (buf : ℕ → ℕ) (i n : ℕ)
    → buf n ≡ 0
    → i ≤ n
    → n < i + room
    → IsReturning (text_at room buf i)
unfolding text_at
text_at-returns zero buf i n nul le lt = absurd (omega arith)
text_at-returns (suc room) buf i n nul le lt = elim (Bool-cases (buf i == 0)) [
  | inl e ↦ rw e (returns tt)
  | inr e ↦
      let before : i ≢ n = λ same. absurd (ground (arith, nul, e, ap buf same)) in
      rw e (
        Returns-bind (text_at-returns room buf (suc i) n nul (omega (arith, before)) (omega arith))
          (λ text u. returns tt))
]

header_length-returns :
    (buf : ℕ → ℕ) (contlen : ℕ) → buf 1023 ≡ 0 → IsReturning (header_length buf contlen)
header_length-returns buf contlen nul =
    Returns-bind (text_at-returns int_buf buf 0 1023 nul (omega arith) (omega arith)) (λ name u.
      elim (Bool-cases (same_word name length_name)) [
        | inr e ↦ rw e (returns tt)
        | inl e ↦ rw e (
            Returns-bind (text_at-returns 1008 buf 16 1023 nul (omega arith) (omega arith))
              (λ text u'. returns tt))
      ])

pub read_length-returns :
    (fuel : ℕ) (bytes : List ℕ) (buf : ℕ → ℕ) (contlen : ℕ)
    → buf 1023 ≡ 0
    → length bytes < fuel
    → IsReturning (read_length fuel bytes buf contlen)
unfolding read_length
read_length-returns zero bytes buf contlen nul lt = absurd (omega arith)
read_length-returns (suc fuel) bytes buf contlen nul lt =
    let l = get_fd_line bytes buf int_buf in
    elim (Bool-cases (not (l.count == 0) && not (is_newline l.buf))) [
      | inr e ↦ rw e (returns tt)
      | inl e ↦
          let last : write l.buf 15 0 1023 ≡ 0 = get_fd_line-last bytes buf nul in
          let shorter =
            get_fd_line-shorter bytes buf nul (goes_on (l.count == 0) (is_newline l.buf) e) in
          rw e (
            Returns-bind (header_length-returns (write l.buf 15 0) contlen last) (λ contlen' u.
              read_length-returns fuel l.left (write l.buf 15 0) contlen' last
                (omega (arith, shorter))))
    ]
