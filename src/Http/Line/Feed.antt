-- ===== src/Http/Line/Feed.antt =====
-- The request line's parser over the bytes that it reads.
use sginx.Base.{ℕ, List, arith}
use sginx.Http.{Code, State, start, Request}
use sginx.Http.Loop.Feed.{KeepsBuf, feed}
use sginx.Http.Line.{finish, line_step}

module _ (shift_z : ℕ → ℕ) where
  abbrev pub feed_line : List ℕ → State → ℕ → Request → Code × Request
  feed_line = feed (line_step shift_z) finish

  pub line_step-KeepsBuf : KeepsBuf (line_step shift_z)
  unfolding line_step
  line_step-KeepsBuf start p c r = ground arith
  line_step-KeepsBuf _ p c r = ground arith
