-- ===== src/Upload/Endless.antt =====
-- A registry that has no room for the whole blob.
use regclient.Base.{
  ℕ, zero, suc, ◌+◌, ◌-◌, ◌≤◌, ◌<◌, min, ◌≡◌, refl, sym, ap, ◌∙◌, inl, inr, Bool, true, none, some,
  List, arith, Bool-cases, length, drop,
}
use regclient.Base.Text.{Chars}
use regclient.Errs.{ok}
use regclient.Descriptor.{Descriptor}
use regclient.Upload.Chunks.{buf_end, Buffer}
use regclient.Upload.{
  Server, Patch, Upload, chunk, goes_on, turn, continued, loop, begin, finished, put_upload_chunked,
}
use regclient.Upload.Slices.{length-drop}
use regclient.Upload.Fill.{IsBuffer, IsNear, begin-IsBuffer}
use regclient.Upload.Honest.{IsAnswer, send-IsAnswer, turn-IsReady}

-- A registry keeps no more than `limit` bytes, and says so in its answers.
pub record IsFull {S : Type 0} (srv : Server S) (limit : ℕ) : Type 0 where
  pub replies :
      (s : S) (p : Patch)
      → p.first ≤ limit
      → 0 < p.body_len
      → IsAnswer srv s p (min p.body_len (limit - p.first))

module _ {S : Type 0} (srv : Server S) (content : List ℕ) (limit : ℕ) (full : IsFull srv limit)
    (small : limit < length content) where
  -- An upload that the registry has room for, so far.
  record IsStuck (u : Upload) : Type 0 where
    buffer : IsBuffer content u.buffer
    reader : (u.buffer.rdr_off ≡ u.buffer.off) × (u.buffer.rdr_len ≡ u.buffer.len)
    near : IsNear u.chunk_start u.buffer
    more : u.chunk_start ≤ limit

  -- The end of the buffer is the end of the content, where the reader is at its end.
  buf_end-IsBuffer :
      (b : Buffer) → IsBuffer content b → b.final_chunk ≡ true → buf_end b ≡ length content
  buf_end-IsBuffer b v f =
      let rest : length (drop (buf_end b) content) ≡ 0 =
        sym (ap length v.left) ∙ ap length (v.ended f) in
      omega (arith, rest, length-drop (buf_end b) content, v.within)

  goes_on-IsStuck : (u : Upload) → IsStuck u → goes_on u ≡ true
  goes_on-IsStuck u v = elim (Bool-cases u.buffer.final_chunk) [
    | inl f ↦ ground (arith, v.more, buf_end-IsBuffer u.buffer v.buffer f)
    | inr f ↦ ground (arith, f)
  ]

  turn-IsStuck :
      (s : S) (u : Upload)
      → IsStuck u
      → (s' : S) × (u' : Upload) × (turn srv none s u ≡ some (s', ok u')) × IsStuck u'
  turn-IsStuck s u v =
      let (b, e, w) = turn-IsReady srv content s u v.buffer v.reader v.near (goes_on-IsStuck u v) in
      let u1 = record u { buffer = b } in
      let some_left : 0 < b.len = elim w.filled [
        | inl l ↦ l
        | inr (l, f) ↦ absurd (omega (arith, l, buf_end-IsBuffer b w.buffer f, w.start, v.more))
      ] in
      let kept = min b.chunk_size (limit - u.chunk_start) in
      let r = full.replies s (chunk u1) v.more (omega (arith, w.buffer.sized, some_left)) in
      let (n, q) = send-IsAnswer srv content s u1 kept w some_left r in
      (
        (srv.patch s (chunk u1)).0,
        record u1 { chunk_start = u.chunk_start + kept; retry_cur = n; chunk_url = r.url },
        e ∙ ap some q,
        record {
          buffer = w.buffer;
          reader = w.reader;
          near = record {
            reached = omega (arith, w.start);
            known = omega (arith, w.start, w.buffer.sized);
          };
          more = omega (arith, v.more);
        },
      )

  loop-IsStuck : (fuel : ℕ) (s : S) (u : Upload) → IsStuck u → loop srv fuel none s u ≡ none
  unfolding loop
  loop-IsStuck zero s u v = refl
  loop-IsStuck (suc fuel) s u v =
      let (s', u', q, v') = turn-IsStuck s u v in
      ap (λ c. continued c (turn srv none s u) (loop srv fuel none) s u) (goes_on-IsStuck u v)
      ∙ ap (λ t. continued true t (loop srv fuel none) s u) q
      ∙ loop-IsStuck fuel s' u' v'

  begin-IsStuck : (buf_size : ℕ) (url : Chars) → 0 < buf_size → IsStuck (begin buf_size url content)
  begin-IsStuck buf_size url h = record {
    buffer = begin-IsBuffer content buf_size url h;
    reader = (refl, refl);
    near = record { reached = omega arith; known = omega arith };
    more = omega arith;
  }

  -- A defect: the limit of ten retries is not looked at where a registry refuses a chunk in a way
  -- that can be recovered from, or accepts it and keeps nothing. Where a registry keeps no more than
  -- `limit` bytes and says so in its answers, the upload of a larger blob never ends, whatever the
  -- fuel.
  pub put_upload_chunked-none :
      (digest : List ℕ → Chars) (valid : Chars → Bool) (d : Descriptor) (fuel buf_size : ℕ)
      (url : Chars) (s : S)
      → 0 < buf_size
      → put_upload_chunked srv digest valid fuel d buf_size url content none s ≡ none
  unfolding put_upload_chunked
  put_upload_chunked-none digest valid d fuel buf_size url s h =
      ap (finished srv digest valid d)
        (loop-IsStuck fuel s (begin buf_size url content) (begin-IsStuck buf_size url h))
