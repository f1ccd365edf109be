-- ===== src/Http/Line/Method.antt =====
-- The recognition of the method.
use sginx.Base.{ℕ, ◌+◌, ◌-◌, ◌<◌, ◌≡◌, ◌≢◌, inl, inr, true, false, Bool-cases, some, arith}
use sginx.Http.{
  buf_start, method_unknown, method_get, method_head, method_post, Request, byte_at, str_cmp,
}
use sginx.Http.Line.{method_code}

-- the four bytes at `m`
pub record Word (r : Request) (m c0 c1 c2 c3 : ℕ) : Type 0 where
  pub first : byte_at r m ≡ c0
  pub second : byte_at r (m + 1) ≡ c1
  pub third : byte_at r (m + 2) ≡ c2
  pub fourth : byte_at r (m + 3) ≡ c3

abbrev pub Bytes : Request → Type 0
Bytes r = (i : ℕ) → r.buf i < 256

module _ (r : Request) (bytes : Bytes r) where
  str_cmp_exact :
      (m c0 c1 c2 c3 : ℕ)
      → c0 < 256
      → c1 < 256
      → c2 < 256
      → c3 < 256
      → (Word r m c0 c1 c2 c3 → str_cmp r m c0 c1 c2 c3 ≡ true)
        × (¬ Word r m c0 c1 c2 c3 → str_cmp r m c0 c1 c2 c3 ≡ false)
  str_cmp_exact m c0 c1 c2 c3 h0 h1 h2 h3 =
      let b0 = bytes (m - buf_start) in
      let b1 = bytes (m + 1 - buf_start) in
      let b2 = bytes (m + 2 - buf_start) in
      let b3 = bytes (m + 3 - buf_start) in
      (
        λ w. ground arith,
        λ w. elim (Bool-cases (str_cmp r m c0 c1 c2 c3)) [
          | inl e ↦ absurd (w (ground arith))
          | inr e ↦ e
        ],
      )

  -- What the switch over the method's length makes of it, when `request_start` is its address `m`
  -- and the ring holds bytes. Three bytes are GET exactly when they and the next byte are "GET ";
  -- four are POST or HEAD exactly when they spell it; other words of these lengths leave the old
  -- value of `method`. All other lengths give SGX_HTTP_UNKNOWN.
  method_code_exact :
      (m p : ℕ)
      → r.request_start ≡ some m
      → (Word r m b'G' b'E' b'T' b' ' → method_code r (m + 3) ≡ method_get)
        × (¬ Word r m b'G' b'E' b'T' b' ' → method_code r (m + 3) ≡ r.method)
        × (Word r m b'P' b'O' b'S' b'T' → method_code r (m + 4) ≡ method_post)
        × (Word r m b'H' b'E' b'A' b'D' → method_code r (m + 4) ≡ method_head)
        × (¬ Word r m b'P' b'O' b'S' b'T'
            → ¬ Word r m b'H' b'E' b'A' b'D'
            → method_code r (m + 4) ≡ r.method)
        × (p ≢ m + 3 → p ≢ m + 4 → method_code r p ≡ method_unknown)
  unfolding method_code
  method_code_exact m p begins =
      let get =
        str_cmp_exact m b'G' b'E' b'T' b' ' (omega arith) (omega arith) (omega arith)
          (omega arith) in
      let post =
        str_cmp_exact m b'P' b'O' b'S' b'T' (omega arith) (omega arith) (omega arith)
          (omega arith) in
      let head =
        str_cmp_exact m b'H' b'E' b'A' b'D' (omega arith) (omega arith) (omega arith)
          (omega arith) in
      (
        λ w. rw (begins, get.0 w) (ground arith),
        λ w. rw (begins, get.1 w) (ground arith),
        λ w. rw (begins, post.0 w) (ground arith),
        λ w.
            rw (begins, post.1 (λ u. absurd (omega (arith, u.first, w.first))), head.0 w)
              (ground arith),
        λ w v. rw (begins, post.1 w, head.1 v) (ground arith),
        λ n3 n4. rw begins (ground arith),
      )
