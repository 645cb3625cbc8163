-- ===== src/Upload/Fill.antt =====
-- The buffer holds the part of the content that it stands for.
use regclient.Base.{
  ℕ, zero, suc, ◌+◌, ◌-◌, ◌≤◌, ◌<◌, min, ◌≡◌, refl, sym, ap, ◌∙◌, ◌⊎◌, inl, inr, Bool, true, false,
  not, ◌&&◌, ◌||◌, none, some, List, [], ◌++◌, arith, ltb, leb, ◌==◌, Bool-cases, length, take,
  drop, length-take,
}
use regclient.Base.Text.{Chars}
use regclient.Errs.{ok}
use regclient.Upload.Chunks.{
  slice, write, Buffer, unless_failed, refill, buf_end, fill_next, fill, zeros,
}
use regclient.Upload.{begin}
use regclient.Upload.Slices.{
  drop-drop, length-drop, drop-all, take-slice, length-write, slice-write, drop-nil,
}

-- A buffer over `content`: the slice holds the content from `buf_start` on, the reader has given what
-- precedes its end, and the reader of the body is up to date unless it is to be made again.
pub record IsBuffer (content : List ℕ) (b : Buffer) : Type 0 where
  pub room : b.off < length b.mem
  pub fits : b.off + b.len ≤ length b.mem
  pub holds : slice b.mem b.off b.len ≡ slice content b.buf_start b.len
  pub left : b.rest ≡ drop (b.buf_start + b.len) content
  pub digested : b.seen ≡ take (b.buf_start + b.len) content
  pub within : b.buf_start + b.len ≤ length content
  pub renewed : b.buf_change ≡ false → (b.rdr_off ≡ b.off) × (b.rdr_len ≡ b.len)
  pub sized : b.chunk_size ≡ b.len
  pub ended : b.final_chunk ≡ true → b.rest ≡ []

pub length-slice :
    (content : List ℕ) (a n : ℕ) → a + n ≤ length content → length (slice content a n) ≡ n
length-slice content a n h = omega (arith, length-take n (drop a content), length-drop a content)

-- What a refill reads.
abbrev pub read_size : Buffer → ℕ
read_size b = min (length b.mem - b.off) (length b.rest)

abbrev pub is_short : Buffer → Bool
is_short b = ltb (length b.rest) (length b.mem - b.off)

-- The buffer behind a refill that does not fail.
abbrev pub refilled : Buffer → Buffer
refilled b = record b {
  mem = write b.mem b.off (take (read_size b) b.rest);
  len = read_size b;
  buf_start = b.buf_start + b.len;
  buf_change =
      b.buf_change
      || not (length b.mem - b.off == b.len)
      || not (read_size b == length b.mem - b.off);
  final_chunk = b.final_chunk || is_short b;
  chunk_size = read_size b;
  rest = drop (read_size b) b.rest;
  seen = b.seen ++ take (read_size b) b.rest;
}

pub refill-refilled : (b : Buffer) → refill none b ≡ ok (refilled b)
unfolding refill
refill-refilled b = elim (Bool-cases (is_short b)) [
  | inl s ↦ ap (λ c. unless_failed c none (refilled b)) s
  | inr s ↦ ap (λ c. unless_failed c none (refilled b)) s
]

refill-IsBuffer :
    (content : List ℕ) (b : Buffer) → IsBuffer content b → IsBuffer content (refilled b)
refill-IsBuffer content b v =
    let n = read_size b in
    let bytes = take n b.rest in
    let size : length bytes ≡ n = omega (arith, length-take n b.rest) in
    let left_size : length b.rest ≡ length content - (b.buf_start + b.len) =
      ap length v.left ∙ length-drop (b.buf_start + b.len) content in
    let same : length (write b.mem b.off bytes) ≡ length b.mem =
      length-write b.mem bytes b.off (omega (arith, size, v.room)) in
    let read : bytes ≡ slice content (b.buf_start + b.len) n = ap (take n) v.left in
    record {
      room = omega (arith, same, v.room);
      fits = omega (arith, same, v.room);
      holds =
          ap (slice (write b.mem b.off bytes) b.off) (sym size)
          ∙ slice-write b.mem bytes b.off (omega (arith, v.room))
          ∙ read;
      left = ap (drop n) v.left ∙ drop-drop n (b.buf_start + b.len) content;
      digested =
          ap (λ xs. xs ++ bytes) v.digested
          ∙ ap (λ xs. take (b.buf_start + b.len) content ++ xs) read
          ∙ take-slice (b.buf_start + b.len) n content;
      within = omega (arith, left_size, v.within);
      renewed = λ c. ground (arith, v.renewed, c);
      sized = refl;
      ended = λ f. elim (Bool-cases b.final_chunk) [
        | inl g ↦ ap (drop n) (v.ended g) ∙ drop-nil n
        | inr g ↦ drop-all n b.rest (ground (arith, f, g))
      ];
    }

-- The start of the next chunk is in the buffer or at its end.
pub record IsNear (chunk_start : ℕ) (b : Buffer) : Type 0 where
  pub reached : b.buf_start ≤ chunk_start
  pub known : chunk_start ≤ buf_end b

-- Whether a refill is needed, and what a filled buffer is like.
abbrev Wanted : ℕ → Buffer → Type 0
Wanted chunk_start b = (chunk_start < buf_end b) ⊎ (b.final_chunk ≡ false) ⊎ (b.len ≡ 0)

abbrev pub Filled : ℕ → Buffer → Type 0
Filled chunk_start b = (chunk_start < buf_end b) ⊎ ((b.len ≡ 0) × (b.final_chunk ≡ true))

refilled-IsNear :
    (chunk_start : ℕ) (b : Buffer)
    → IsNear chunk_start b
    → leb (buf_end b) chunk_start ≡ true
    → IsNear chunk_start (refilled b)
refilled-IsNear chunk_start b v h = record {
  reached = ground (arith, h, v.reached);
  known = ground (arith, h, v.known);
}

refilled-Wanted :
    (content : List ℕ) (chunk_start : ℕ) (b : Buffer)
    → IsBuffer content b
    → IsNear chunk_start b
    → leb (buf_end b) chunk_start ≡ true
    → b.final_chunk ≡ false
    → Wanted chunk_start (refilled b)
refilled-Wanted content chunk_start b v w h f = elim (Bool-cases (is_short b)) [
  | inr full ↦ inr (inl (ground (arith, f, full)))
  | inl short ↦ elim (Bool-cases (length b.rest == 0)) [
    | inl none_left ↦ inr (inr (ground (arith, none_left)))
    | inr some_left ↦ inl (ground (arith, h, w.known, some_left, v.room))
  ]
]

stops-Filled :
    (chunk_start : ℕ) (b : Buffer)
    → Wanted chunk_start b
    → leb (buf_end b) chunk_start && not b.final_chunk ≡ false
    → Filled chunk_start b
stops-Filled chunk_start b w h = ground (arith, w, h)

-- Enough fuel for the inner loop.
abbrev Enough : ℕ → Buffer → Type 0
Enough fuel b = (length b.rest + 2 ≤ fuel) ⊎ ((b.final_chunk ≡ true) × (1 ≤ fuel))

refilled-Enough :
    (content : List ℕ) (fuel : ℕ) (b : Buffer)
    → IsBuffer content b
    → b.final_chunk ≡ false
    → Enough (suc fuel) b
    → Enough fuel (refilled b)
refilled-Enough content fuel b v f h = elim (Bool-cases (is_short b)) [
  | inl short ↦ inr (ground (arith, short), ground (arith, h, f))
  | inr full ↦ inl (ground (arith, h, f, full, v.room, length-drop (read_size b) b.rest))
]

-- The inner loop ends with a buffer that holds the next chunk, or with an empty one at the end of the
-- content.
pub fill-IsBuffer :
    (content : List ℕ) (fuel chunk_start : ℕ) (b : Buffer)
    → IsBuffer content b
    → IsNear chunk_start b
    → Wanted chunk_start b
    → Enough fuel b
    → (b' : Buffer) × (fill fuel none chunk_start b ≡ some (ok b'))
      × IsBuffer content b'
      × IsNear chunk_start b'
      × Filled chunk_start b'
unfolding fill
fill-IsBuffer content zero chunk_start b v n w e = absurd (ground (arith, e))
fill-IsBuffer content (suc fuel) chunk_start b v n w e =
    elim (Bool-cases (leb (buf_end b) chunk_start && not b.final_chunk)) [
      | inr stop ↦ (
        b,
        ap (λ c. fill_next c (refill none b) (fill fuel none chunk_start) b) stop,
        v,
        n,
        stops-Filled chunk_start b w stop,
      )
      | inl go ↦
          let h : leb (buf_end b) chunk_start ≡ true = ground (arith, go) in
          let f : b.final_chunk ≡ false = ground (arith, go) in
          let (b', q, v', n', d) =
            fill-IsBuffer content fuel chunk_start (refilled b) (refill-IsBuffer content b v)
              (refilled-IsNear chunk_start b n h) (refilled-Wanted content chunk_start b v n h f)
              (refilled-Enough content fuel b v f e) in
          (
            b',
            ap (λ c. fill_next c (refill none b) (fill fuel none chunk_start) b) go
                ∙ ap (λ r. fill_next true r (fill fuel none chunk_start) b) (refill-refilled b)
                ∙ q,
            v',
            n',
            d,
          )
    ]

length-zeros : (n : ℕ) → length (zeros n) ≡ n
unfolding zeros
length-zeros zero = refl
length-zeros (suc n) = ap suc (length-zeros n)

pub begin-IsBuffer :
    (content : List ℕ) (buf_size : ℕ) (url : Chars)
    → 0 < buf_size
    → IsBuffer content (begin buf_size url content).buffer
begin-IsBuffer content buf_size url h = record {
  room = omega (arith, length-zeros buf_size, h);
  fits = omega (arith, length-zeros buf_size, h);
  holds = refl;
  left = refl;
  digested = refl;
  within = omega arith;
  renewed = λ c. (refl, refl);
  sized = refl;
  ended = λ c. absurd cc;
}
