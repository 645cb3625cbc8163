-- ===== src/Upload/Honest.antt =====
-- What a registry may answer, and what a turn of the loop makes of it.
use regclient.Base.{
  ℕ, ◌+◌, ◌-◌, ◌≤◌, ◌<◌, ◌≡◌, refl, ap, ◌∙◌, ◌⊎◌, inl, inr, true, false, not, ◌&&◌, none, some,
  List, ◌++◌, arith, ltb, ◌==◌, Bool-cases, length, take,
}
use regclient.Base.Text.{Chars}
use regclient.Errs.{ok}
use regclient.Upload.Chunks.{shift, renew, Buffer}
use regclient.Upload.{
  Server, Patch, Headers, answered, Upload, upload_cur_bytes, recoverable, next_start, react,
  follow, advance, concluded, received, chunk, send_if, send, goes_on, filled, turn,
}
use regclient.Upload.Fill.{IsBuffer, IsNear, fill-IsBuffer}
use regclient.Upload.Ready.{IsReady, renew-shift}

-- An answer that is understood: it accepts the request, or it refuses it in a way that can be
-- recovered from, and it tells in the Range header how many bytes of the chunk are kept.
pub record IsAnswer {S : Type 0} (srv : Server S) (s : S) (p : Patch) (kept : ℕ) : Type 0 where
  pub status : ℕ
  pub headers : Headers
  pub url : Chars
  pub answers : (srv.patch s p).1 ≡ answered status headers
  pub accepts : (status ≡ 201) ⊎ (status ≡ 202) ⊎ (recoverable status headers ≡ true)
  pub tells : next_start p.first p.body_len (upload_cur_bytes headers.range) ≡ some (p.first + kept)
  pub leads : follow srv p.url headers ≡ some url

-- An answer to a chunk that starts where the registry's bytes end: the registry keeps a part of it,
-- and an answer that keeps nothing takes one of the refusals that are left.
pub record Reply {S : Type 0} (srv : Server S) (stored : S → List ℕ) (refusals : S → ℕ) (s : S)
    (p : Patch) : Type 0 where
  pub kept : ℕ
  pub answer : IsAnswer srv s p kept
  pub keeps : stored (srv.patch s p).0 ≡ stored s ++ take kept p.body
  pub part : kept ≤ p.body_len
  pub moves : refusals (srv.patch s p).0 < refusals s + kept

-- A registry that follows the protocol of chunked uploads.
pub record IsHonest {S : Type 0} (srv : Server S) (stored : S → List ℕ) (refusals : S → ℕ)
    : Type 0 where
  pub replies :
      (s : S) (p : Patch)
      → p.first ≡ length (stored s)
      → length p.body ≡ p.body_len
      → 0 < p.body_len
      → Reply srv stored refusals s p

module _ {S : Type 0} (srv : Server S) where
  react-known :
      (s : S) (url : Chars) (retry_cur status : ℕ) (h : Headers)
      → (status ≡ 201) ⊎ (status ≡ 202) ⊎ (recoverable status h ≡ true)
      → (n : ℕ) × (react srv s url retry_cur status h ≡ (s, ok (n, h)))
  unfolding react
  react-known s url retry_cur status h (inl e) = (retry_cur, rw e refl)
  react-known s url retry_cur status h (inr (inl e)) = (retry_cur - 1, rw e refl)
  react-known s url retry_cur status h (inr (inr e)) = elim (Bool-cases (status == 201)) [
    | inl a ↦ (retry_cur, rw a refl)
    | inr a ↦ (retry_cur + 1, rw (a, e) refl)
  ]

  -- The upload behind an answer.
  pub send-IsAnswer :
      (content : List ℕ) (s : S) (u : Upload) (kept : ℕ)
      → IsReady content u.chunk_start u.buffer
      → 0 < u.buffer.len
      → (r : IsAnswer srv s (chunk u) kept)
      → (n : ℕ) × (send srv s u ≡ (
        (srv.patch s (chunk u)).0,
        ok (record u { chunk_start = u.chunk_start + kept; retry_cur = n; chunk_url = r.url }),
      ))
  unfolding send
  send-IsAnswer content s u kept v l r =
      let s' = (srv.patch s (chunk u)).0 in
      let (n, e) = react-known s' u.chunk_url u.retry_cur r.status r.headers r.accepts in
      let here : ltb 0 u.buffer.chunk_size && not (u.chunk_start == u.buffer.buf_start) ≡ false =
        ground (arith, v.start) in
      let sends : ltb 0 u.buffer.chunk_size ≡ true = ground (arith, v.buffer.sized, l) in
      (
        n,
        ap (λ c. send_if srv c (ltb 0 u.buffer.chunk_size) s u) here
            ∙ ap (λ c. send_if srv false c s u) sends
            ∙ ap (λ a. received srv u (s', a)) r.answers
            ∙ ap (concluded srv u) e
            ∙ ap (λ c. (s', advance u n c (follow srv u.chunk_url r.headers))) r.tells
            ∙ ap (λ c. (s', advance u n (some (u.chunk_start + kept)) c)) r.leads,
      )

  pub send_nothing :
      (content : List ℕ) (s : S) (u : Upload)
      → IsReady content u.chunk_start u.buffer
      → u.buffer.len ≡ 0
      → send srv s u ≡ (s, ok u)
  unfolding send
  send_nothing content s u v l =
      let here : ltb 0 u.buffer.chunk_size && not (u.chunk_start == u.buffer.buf_start) ≡ false =
        ground (arith, v.start) in
      let none_left : ltb 0 u.buffer.chunk_size ≡ false = ground (arith, v.buffer.sized, l) in
      ap (λ c. send_if srv c (ltb 0 u.buffer.chunk_size) s u) here
      ∙ ap (λ c. send_if srv false c s u) none_left

-- A turn fills the buffer, and sends from it.
pub turn-IsReady :
    {S : Type 0} (srv : Server S) (content : List ℕ) (s : S) (u : Upload)
    → IsBuffer content u.buffer
    → (u.buffer.rdr_off ≡ u.buffer.off) × (u.buffer.rdr_len ≡ u.buffer.len)
    → IsNear u.chunk_start u.buffer
    → goes_on u ≡ true
    → (b : Buffer) × (turn srv none s u ≡ some (send srv s (record u { buffer = b })))
      × IsReady content u.chunk_start b
unfolding turn
turn-IsReady srv content s u v reader near g =
    let b = record u.buffer { buf_change = false } in
    let w : IsBuffer content b = record {
      room = v.room;
      fits = v.fits;
      holds = v.holds;
      left = v.left;
      digested = v.digested;
      within = v.within;
      renewed = λ c. reader;
      sized = v.sized;
      ended = v.ended;
    } in
    let near' : IsNear u.chunk_start b = record { reached = near.reached; known = near.known } in
    let (b', e, w', n', f) =
      fill-IsBuffer content (length b.rest + 2) u.chunk_start b w near' (ground (arith, g))
        (inl (omega arith)) in
    (
      renew (shift u.chunk_start b'),
      ap (filled srv s u) e,
      renew-shift content u.chunk_start b' w' n' f,
    )
