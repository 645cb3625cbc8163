-- ===== src/Upload/Ready.antt =====
-- The request with a chunk carries the part of the content that it names.
use mathlib.Core.Path.{subst}
use regclient.Base.{
  ℕ, ◌+◌, ◌-◌, ◌<◌, ◌≡◌, refl, sym, ap, ◌∙◌, ◌⊎◌, inl, inr, Bool, true, false, ◌&&◌, List, arith,
  ltb, Bool-cases, take, drop,
}
use regclient.Upload.Chunks.{slice, Buffer, buf_end, shift, renew, renew_if}
use regclient.Upload.Slices.{drop-slice}
use regclient.Upload.Fill.{IsBuffer, IsNear, Filled}

-- The tests of `shift`.
abbrev inside : ℕ → Buffer → Bool
inside chunk_start b = ltb b.buf_start chunk_start && ltb chunk_start (buf_end b)

abbrev moved : ℕ → Buffer → Buffer
moved chunk_start b = record b {
  off = b.off + (chunk_start - b.buf_start);
  len = b.len - (chunk_start - b.buf_start);
  buf_start = chunk_start;
  chunk_size = b.len - (chunk_start - b.buf_start);
  buf_change = true;
}

moved-IsBuffer :
    (content : List ℕ) (chunk_start : ℕ) (b : Buffer)
    → IsBuffer content b
    → inside chunk_start b ≡ true
    → IsBuffer content (moved chunk_start b)
moved-IsBuffer content chunk_start b v h =
    let k = chunk_start - b.buf_start in
    let here : b.buf_start + k ≡ chunk_start = ground (arith, h) in
    let end : chunk_start + (b.len - k) ≡ b.buf_start + b.len = ground (arith, h) in
    record {
      room = ground (arith, v.room, v.fits, h);
      fits = ground (arith, v.fits, h);
      holds =
          sym (drop-slice k b.off b.len b.mem)
          ∙ ap (drop k) v.holds
          ∙ drop-slice k b.buf_start b.len content
          ∙ ap (λ a. slice content a (b.len - k)) here;
      left = v.left ∙ ap (λ n. drop n content) (sym end);
      digested = v.digested ∙ ap (λ n. take n content) (sym end);
      within = omega (arith, end, v.within);
      renewed = λ c. absurd cc;
      sized = refl;
      ended = v.ended;
    }

shift-moved :
    (chunk_start : ℕ) (b : Buffer)
    → inside chunk_start b ≡ true
    → shift chunk_start b ≡ moved chunk_start b
unfolding shift
shift-moved chunk_start b h = rw h refl

shift-same : (chunk_start : ℕ) (b : Buffer) → inside chunk_start b ≡ false → shift chunk_start b ≡ b
unfolding shift
shift-same chunk_start b h = rw h refl

-- A buffer whose slice starts with the next chunk, and whose reader is up to date.
pub record IsReady (content : List ℕ) (chunk_start : ℕ) (b : Buffer) : Type 0 where
  pub buffer : IsBuffer content b
  pub start : b.buf_start ≡ chunk_start
  pub reader : (b.rdr_off ≡ b.off) × (b.rdr_len ≡ b.len)
  pub filled : (0 < b.len) ⊎ ((b.len ≡ 0) × (b.final_chunk ≡ true))

renew-IsReady :
    (content : List ℕ) (chunk_start : ℕ) (b : Buffer)
    → IsBuffer content b
    → b.buf_start ≡ chunk_start
    → (0 < b.len) ⊎ ((b.len ≡ 0) × (b.final_chunk ≡ true))
    → IsReady content chunk_start (renew b)
unfolding renew
renew-IsReady content chunk_start b v e f = elim (Bool-cases b.buf_change) [
  | inl c ↦ subst (IsReady content chunk_start) (sym (ap (λ d. renew_if d b) c)) (record {
    buffer = record {
      room = v.room;
      fits = v.fits;
      holds = v.holds;
      left = v.left;
      digested = v.digested;
      within = v.within;
      renewed = λ d. (refl, refl);
      sized = v.sized;
      ended = v.ended;
    };
    start = e;
    reader = (refl, refl);
    filled = f;
  })
  | inr c ↦
      subst (IsReady content chunk_start) (sym (ap (λ d. renew_if d b) c))
        (record { buffer = v; start = e; reader = v.renewed c; filled = f })
]

-- The buffer that a turn sends from.
pub renew-shift :
    (content : List ℕ) (chunk_start : ℕ) (b : Buffer)
    → IsBuffer content b
    → IsNear chunk_start b
    → Filled chunk_start b
    → IsReady content chunk_start (renew (shift chunk_start b))
renew-shift content chunk_start b v n f = elim (Bool-cases (inside chunk_start b)) [
  | inl h ↦
      subst (λ c. IsReady content chunk_start (renew c)) (sym (shift-moved chunk_start b h))
        (renew-IsReady content chunk_start (moved chunk_start b)
          (moved-IsBuffer content chunk_start b v h) refl (inl (ground (arith, h))))
  | inr h ↦
      subst (λ c. IsReady content chunk_start (renew c)) (sym (shift-same chunk_start b h))
        (renew-IsReady content chunk_start b v (ground (arith, h, n.reached, n.known, f))
          (ground (arith, h, n.reached, n.known, f)))
]

-- The body of the request.
pub slice-IsReady :
    (content : List ℕ) (chunk_start : ℕ) (b : Buffer)
    → IsReady content chunk_start b
    → slice b.mem b.rdr_off b.rdr_len ≡ slice content chunk_start b.chunk_size
slice-IsReady content chunk_start b v =
    ap (λ n. slice b.mem n b.rdr_len) v.reader.0
    ∙ ap (slice b.mem b.off) v.reader.1
    ∙ v.buffer.holds
    ∙ ap (λ n. slice content n b.len) v.start
    ∙ ap (slice content chunk_start) (sym v.buffer.sized)
