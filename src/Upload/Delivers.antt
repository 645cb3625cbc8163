-- ===== src/Upload/Delivers.antt =====
-- What a registry has after the loop of `blobPutUploadChunked`.
use regclient.Base.{
  ℕ, zero, suc, ◌+◌, ◌-◌, ◌≤◌, ◌<◌, ◌≡◌, refl, sym, ap, ◌∙◌, ◌⊎◌, inl, inr, Bool, true, false, not,
  ◌&&◌, none, some, List, [], ◌++◌, arith, Bool-cases, length, take, drop, length-take,
}
use regclient.Base.Text.{Chars, chars_eq, chars_eq_iff}
use regclient.Errs.{ok}
use regclient.Descriptor.{Descriptor}
use regclient.Base.Int.{pos}
use regclient.Upload.Chunks.{slice, buf_end}
use regclient.Upload.{
  Server, Upload, chunk, send, goes_on, turn, continued, loop, begin, same_size, put_result,
  finish_if, finish, finished, put_upload_chunked,
}
use regclient.Upload.Slices.{take-slice, take-take, take-all, length-drop}
use regclient.Upload.Fill.{IsBuffer, IsNear, length-slice, begin-IsBuffer}
use regclient.Upload.Honest.{IsHonest, send-IsAnswer, send_nothing, turn-IsReady}
use regclient.Upload.Ready.{IsReady, slice-IsReady}

-- The state between turns: the registry has the content up to the next chunk.
pub record IsUpload {S : Type 0} (stored : S → List ℕ) (content : List ℕ) (s : S) (u : Upload)
    : Type 0 where
  pub buffer : IsBuffer content u.buffer
  pub reader : (u.buffer.rdr_off ≡ u.buffer.off) × (u.buffer.rdr_len ≡ u.buffer.len)
  pub near : IsNear u.chunk_start u.buffer
  pub counted : length (stored s) ≡ u.chunk_start
  pub has : stored s ≡ take u.chunk_start content

module _ {S : Type 0} (srv : Server S) (stored : S → List ℕ) (refusals : S → ℕ) (content : List ℕ)
    (honest : IsHonest srv stored refusals) where
  -- A turn stores something or takes a refusal, or it is the last one.
  abbrev Moves : S → Upload → S → Upload → Type 0
  Moves s u s' u' =
      (refusals s' + u.chunk_start < refusals s + u'.chunk_start) ⊎ (goes_on u' ≡ false)

  send-IsUpload :
      (s : S) (u : Upload)
      → IsReady content u.chunk_start u.buffer
      → length (stored s) ≡ u.chunk_start
      → stored s ≡ take u.chunk_start content
      → (s' : S) × (u' : Upload) × (send srv s u ≡ (s', ok u'))
        × IsUpload stored content s' u'
        × Moves s u s' u'
  send-IsUpload s u v n p = elim v.filled [
    | inr (l, f) ↦ (
      s,
      u,
      send_nothing srv content s u v l,
      record {
        buffer = v.buffer;
        reader = v.reader;
        near = record { reached = omega (arith, v.start); known = omega (arith, v.start) };
        counted = n;
        has = p;
      },
      inr (ground (arith, l, f, v.start)),
    )
    | inl l ↦
        let b = u.buffer in
        let body = slice-IsReady content u.chunk_start b v in
        let size : length (chunk u).body ≡ b.chunk_size =
          ap length body
          ∙ length-slice content u.chunk_start b.chunk_size
              (omega (arith, v.buffer.within, v.buffer.sized, v.start)) in
        let r = honest.replies s (chunk u) (sym n) size (omega (arith, v.buffer.sized, l)) in
        let (m, q) = send-IsAnswer srv content s u r.kept v l r.answer in
        let s' = (srv.patch s (chunk u)).0 in
        let part : take r.kept (chunk u).body ≡ slice content u.chunk_start r.kept =
          ap (take r.kept) body
          ∙ take-take r.kept b.chunk_size (drop u.chunk_start content) r.part in
        let has : stored s' ≡ take (u.chunk_start + r.kept) content =
          r.keeps
          ∙ ap (λ xs. xs ++ take r.kept (chunk u).body) p
          ∙ ap (λ xs. take u.chunk_start content ++ xs) part
          ∙ take-slice u.chunk_start r.kept content in
        (
          s',
          record u {
            chunk_start = u.chunk_start + r.kept;
            retry_cur = m;
            chunk_url = r.answer.url;
          },
          q,
          record {
            buffer = v.buffer;
            reader = v.reader;
            near = record {
              reached = omega (arith, v.start);
              known = omega (arith, v.start, r.part, v.buffer.sized);
            };
            counted =
                ap length has
                ∙ omega (
                  arith,
                  length-take (u.chunk_start + r.kept) content,
                  v.buffer.within,
                  v.start,
                  r.part,
                  v.buffer.sized,
                );
            has = has;
          },
          inl (omega (arith, r.moves)),
        )
  ]

  turn-IsUpload :
      (s : S) (u : Upload)
      → IsUpload stored content s u
      → goes_on u ≡ true
      → (s' : S) × (u' : Upload) × (turn srv none s u ≡ some (s', ok u'))
        × IsUpload stored content s' u'
        × Moves s u s' u'
  turn-IsUpload s u v g =
      let (b, e, w) = turn-IsReady srv content s u v.buffer v.reader v.near g in
      let (s', u', q, v', m) = send-IsUpload s (record u { buffer = b }) w v.counted v.has in
      (s', u', e ∙ ap some q, v', m)

  -- At the end the registry has the whole content, and the whole content was digested.
  pub record IsDelivered (s : S) (u : Upload) : Type 0 where
    pub all_stored : stored s ≡ content
    pub all_seen : u.buffer.seen ≡ content
    pub all_counted : u.chunk_start ≡ length content

  ends-IsDelivered :
      (s : S) (u : Upload) → IsUpload stored content s u → goes_on u ≡ false → IsDelivered s u
  ends-IsDelivered s u v g =
      let f : u.buffer.final_chunk ≡ true = ground (arith, g) in
      let rest : length (drop (buf_end u.buffer) content) ≡ 0 =
        sym (ap length v.buffer.left) ∙ ap length (v.buffer.ended f) in
      let n : buf_end u.buffer ≡ length content =
        omega (arith, rest, length-drop (buf_end u.buffer) content, v.buffer.within) in
      let c : u.chunk_start ≡ length content = ground (arith, g, n, v.near.known) in
      record {
        all_stored = v.has ∙ take-all u.chunk_start content (omega (arith, c));
        all_seen = v.buffer.digested ∙ take-all (buf_end u.buffer) content (omega (arith, n));
        all_counted = c;
      }

  loop-IsDelivered :
      (fuel : ℕ) (s : S) (u : Upload)
      → IsUpload stored content s u
      → (refusals s + (length content - u.chunk_start) + 2 ≤ fuel)
        ⊎ ((goes_on u ≡ false) × (1 ≤ fuel))
      → (s' : S) × (u' : Upload) × (loop srv fuel none s u ≡ some (s', ok u')) × IsDelivered s' u'
  unfolding loop
  loop-IsDelivered zero s u v h = absurd (ground (arith, h))
  loop-IsDelivered (suc fuel) s u v h = elim (Bool-cases (goes_on u)) [
    | inr stop ↦ (
      s,
      u,
      ap (λ c. continued c (turn srv none s u) (loop srv fuel none) s u) stop,
      ends-IsDelivered s u v stop,
    )
    | inl go ↦
        let (s1, u1, q, v1, m) = turn-IsUpload s u v go in
        let enough : (refusals s1 + (length content - u1.chunk_start) + 2 ≤ fuel)
            ⊎ ((goes_on u1 ≡ false) × (1 ≤ fuel)) =
          elim m [
            | inl more ↦ inl (ground (arith, h, go, more, v1.near.known, v1.buffer.within))
            | inr last ↦ inr (last, ground (arith, h, go))
          ] in
        let (s', u', e, d) = loop-IsDelivered fuel s1 u1 v1 enough in
        (
          s',
          u',
          ap (λ c. continued c (turn srv none s u) (loop srv fuel none) s u) go
              ∙ ap (λ t. continued true t (loop srv fuel none) s u) q
              ∙ e,
          d,
        )
  ]

  begin-IsUpload :
      (buf_size : ℕ) (url : Chars) (s : S)
      → 0 < buf_size
      → stored s ≡ []
      → IsUpload stored content s (begin buf_size url content)
  begin-IsUpload buf_size url s h e = record {
    buffer = begin-IsBuffer content buf_size url h;
    reader = (refl, refl);
    near = record { reached = omega arith; known = omega arith };
    counted = ap length e;
    has = e;
  }

  finish_good :
      (digest : List ℕ → Chars) (valid : Chars → Bool) (d : Descriptor) (s : S) (u : Upload)
      → IsDelivered s u
      → (valid d.digest ≡ false) ⊎ (digest content ≡ d.digest)
      → (d.size ≡ pos 0) ⊎ (d.size ≡ pos (length content))
      → finish srv digest valid d s u
        ≡ put_result
            (record d { digest = digest content; size = pos (length content) })
            (srv.put s (srv.with_digest u.chunk_url (digest content)))
  unfolding finish
  finish_good digest valid d s u w a z =
      let seen : digest u.buffer.seen ≡ digest content = ap digest w.all_seen in
      let good : valid d.digest && not (chars_eq (digest u.buffer.seen) d.digest) ≡ false = elim a [
        | inl i ↦ ground (arith, i)
        | inr i ↦ ground (arith, (chars_eq_iff (digest u.buffer.seen) d.digest).1 (seen ∙ i))
      ] in
      let sized : not (same_size d.size 0) && not (same_size d.size u.chunk_start) ≡ false =
        elim z [ inl i ↦ rw i refl | inr i ↦ rw (i, w.all_counted) (ground arith) ] in
      ap
        (λ c.
          finish_if srv digest valid c
            (not (same_size d.size 0) && not (same_size d.size u.chunk_start)) d s u)
        good
      ∙ ap (λ c. finish_if srv digest valid false c d s u) sized
      ∙ ap
          (λ x.
            put_result (record d { digest = x; size = pos u.chunk_start })
              (srv.put s (srv.with_digest u.chunk_url x)))
          seen
      ∙ ap
          (λ x.
            put_result (record d { digest = digest content; size = pos x })
              (srv.put s (srv.with_digest u.chunk_url (digest content))))
          w.all_counted

  -- A chunked upload of any content, in chunks of any size, to a registry that follows the protocol
  -- and has nothing of it yet: the registry may keep a part of each chunk only, and refuse chunks as
  -- often as it likes but not for ever. The upload comes to its last request, for which the registry
  -- has the whole content, with the digest and the size of the content; the descriptor may have had
  -- them before, or not.
  pub put_upload_chunked-delivers :
      (digest : List ℕ → Chars) (valid : Chars → Bool) (d : Descriptor) (fuel buf_size : ℕ)
      (url : Chars) (s : S)
      → 0 < buf_size
      → stored s ≡ []
      → refusals s + length content + 2 ≤ fuel
      → (valid d.digest ≡ false) ⊎ (digest content ≡ d.digest)
      → (d.size ≡ pos 0) ⊎ (d.size ≡ pos (length content))
      → (s' : S) × (url' : Chars) × (stored s' ≡ content)
        × (put_upload_chunked srv digest valid fuel d buf_size url content none s
            ≡ some (
                put_result
                  (record d { digest = digest content; size = pos (length content) })
                  (srv.put s' (srv.with_digest url' (digest content)))))
  unfolding put_upload_chunked
  put_upload_chunked-delivers digest valid d fuel buf_size url s h e n a z =
      let (s', u', q, w) =
        loop-IsDelivered fuel s (begin buf_size url content) (begin-IsUpload buf_size url s h e)
          (inl (omega (arith, n))) in
      (
        s',
        u'.chunk_url,
        w.all_stored,
        ap (finished srv digest valid d) q ∙ ap some (finish_good digest valid d s' u' w a z),
      )
