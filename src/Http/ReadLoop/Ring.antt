-- ===== src/Http/ReadLoop/Ring.antt =====
-- One read into the ring buffer.
use sginx.Base.{
  ℕ, ◌+◌, ◌-◌, ◌%◌, ◌^◌, ◌<◌, ◌≤◌, ◌≡◌, ◌∙◌, ap, sym, ◌++◌, length-append, refl, List, arith, ltb,
  inl, inr, Bool-cases, length, cell,
}
use sginx.Base.Fill.{fill-away, fill-inside, cell-front, cell-back}
use sginx.Http.{Request}
use sginx.Http.ReadLoop.{store, remain_size}

-- the request's positions fit the ring, with room for one byte more
pub record HasRoom (r : Request) : Type 0 where
  pub ordered : r.pos ≤ r.last
  pub room : r.last - r.pos < 8124
  pub small : r.last < 2 ^ 64

pub remain_size_lem :
    (r : Request)
    → HasRoom r
    → (n : ℕ) → n ≤ remain_size r
    → (r.last - r.pos + n < 8124) × (r.last % 8124 + n ≤ 8124)
remain_size_lem r (v) n le = ground arith

-- the ring holds the bytes from a position on
abbrev pub Holds : (ℕ → ℕ) → ℕ → List ℕ → Type 0
Holds buf p cs = (k : ℕ) → k < length cs → buf ((p + k) % 8124) ≡ cell cs k

-- what a read leaves behind: the positions, the new bytes and the unread ones
pub record Stored (r : Request) (cs : List ℕ) (r' : Request) : Type 0 where
  pub has_room : HasRoom r'
  pub pos : r'.pos ≡ r.pos
  pub last : r'.last ≡ r.last + length cs
  pub others : r' ≡ record r { buf = r'.buf; last = r'.last }
  pub bytes : Holds r'.buf r.last cs
  pub unread : (p : ℕ) → r.pos ≤ p → p < r.last → r'.buf (p % 8124) ≡ r.buf (p % 8124)

-- an unread byte that does not stand before the place of the read stands behind it
behind :
    (p pos last n : ℕ)
    → pos ≤ p
    → p < last
    → last - pos + n < 8124
    → last % 8124 ≤ p % 8124
    → last % 8124 + n ≤ p % 8124
behind p pos last n from before room le = omega arith

pub store-Stored :
    (r : Request) (cs : List ℕ)
    → HasRoom r
    → length cs ≤ remain_size r
    → r.last + length cs < 2 ^ 64
    → Stored r cs (store r cs)
store-Stored r cs v le small =
    let (room, fits) = remain_size_lem r v (length cs) le in
    record {
      has_room = record { ordered = omega arith; room = omega arith; small = omega arith };
      pos = refl;
      last = omega arith;
      others = refl;
      bytes = λ k lt. fill-inside r.buf (r.last % 8124) cs k ((r.last + k) % 8124) lt (omega arith);
      unread = λ p from before. elim (Bool-cases (ltb (p % 8124) (r.last % 8124))) [
        | inl e ↦ (fill-away r.buf (r.last % 8124) cs (p % 8124)).0 (ground arith)
        | inr e ↦
            (fill-away r.buf (r.last % 8124) cs (p % 8124)).1
              (behind p r.pos r.last (length cs) from before room (ground arith))
      ];
    }

-- two reads store what one read of both parts would
pub Stored-append :
    (r r1 r2 : Request) (cs ds : List ℕ)
    → HasRoom r
    → Stored r cs r1
    → Stored r1 ds r2
    → Stored r (cs ++ ds) r2
Stored-append r r1 r2 cs ds v s1 s2 = record {
  has_room = s2.has_room;
  pos = s2.pos ∙ s1.pos;
  last = omega (arith, s1.last, s2.last, length-append cs ds);
  others = s2.others ∙ ap (λ (q : Request). record q { buf = r2.buf; last = r2.last }) s1.others;
  bytes = λ k lt. elim (Bool-cases (ltb k (length cs))) [
    | inl e ↦
        s2.unread (r.last + k) (omega (arith, s1.pos, v.ordered)) (ground (arith, s1.last))
        ∙ s1.bytes k (ground arith)
        ∙ sym (cell-front cs ds k (ground arith))
    | inr e ↦
        let far : length cs ≤ k = ground arith in
        let j = k - length cs in
        ap (λ p. r2.buf (p % 8124)) (omega (arith, s1.last))
        ∙ s2.bytes j (omega (arith, length-append cs ds))
        ∙ sym (cell-back cs ds j k (omega arith))
  ];
  unread = λ p from before.
      s2.unread p (omega (arith, s1.pos)) (omega (arith, s1.last)) ∙ s1.unread p from before;
}
