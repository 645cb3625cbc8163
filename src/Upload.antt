-- ===== src/Upload.antt =====
-- scheme/reg/blob.go: `blobPutUploadChunked`, which sends a blob of any size to a registry in chunks.
-- The registry is a parameter with a state of its own, and so are the parts of a URL and the digest.
pub mod Chunks
pub mod Slices
pub mod Fill
pub mod Ready
pub mod Honest
pub mod Delivers
pub mod Endless
mod Tests
use regclient.Base.{
  ℕ, zero, suc, ◌+◌, ◌-◌, ◌*◌, ◌/◌, ◌%◌, ◌≤◌, ◌<◌, min, String, ◌≡◌, refl, sym, ap, ◌∙◌, ◌≢◌, ◌↔◌,
  ◌⊎◌, inl, inr, Bool, true, false, not, ◌&&◌, ◌||◌, Option, none, some, List, [], ◌∷◌, ◌++◌, map,
  arith, ltb, leb, ◌==◌, ==_iff, if◌then◌else◌, Bool-cases, Option-cases, some-injective, is_some,
  length, get_elem?, take, drop, length-append, length-take, All, All-append, In, Nowhere, any, all,
}
use regclient.Base.Int.{ℤ, pos, negsuc, atoi}
use regclient.Base.Text.{Chars, chars_eq}
use regclient.Upload.Chunks.{Buffer, slice, buf_end, fill, shift, renew, zeros}
use regclient.Errs.{Error, Result, ok, err, other, digest_mismatch, mismatch}
use regclient.Descriptor.{Descriptor, is_empty}
use regclient.Reghttp.Next.{http_error, again, ends, start, next}

-- A request with a chunk, and the headers of an answer.
pub record Patch : Type 0 where
  pub url : Chars
  pub first : ℕ
  pub last : ℕ
  pub body_len : ℕ
  pub body : List ℕ

pub record Headers : Type 0 where
  pub request_url : Chars
  pub location : Chars
  pub range : Chars

pub data Answer : Type 0 where
  -- the request fails for another reason than its status, or cannot be closed
  no_answer : Error → Answer
  answered : ℕ → Headers → Answer

-- A registry: the answers to `PATCH`, `blobUploadStatus`, and the status of the last `PUT`.
pub record Server (S : Type 0) : Type 0 where
  pub patch : S → Patch → S × Answer
  pub status : S → Chars → S × Result Headers
  pub put : S → Chars → S × Result ℕ
  -- the location against the URL of a request, and a URL with a digest in its query
  pub resolve : Chars → Chars → Option Chars
  pub with_digest : Chars → Chars → Chars

pub record Upload : Type 0 where
  pub buffer : Buffer
  pub chunk_start : ℕ
  pub retry_cur : ℕ
  pub chunk_url : Chars

-- What follows the first dash.
unfoldable pub after_dash : Chars → Option Chars
after_dash [] = none
after_dash (c ∷ cs) = let later = after_dash cs in if c == b'-' then some cs else later

-- `blobUploadCurBytes` on the Range header.
unfoldable pub upload_cur_bytes : Chars → Option ℤ
upload_cur_bytes range = elim (after_dash range) [ none ↦ none | some s ↦ atoi s ]

abbrev pub retry_limit : ℕ
retry_limit = 10

abbrev pub recoverable : ℕ → Headers → Bool
recoverable status h =
    leb 400 status && ltb status 500 && not (is_empty h.location) && not (is_empty h.range)

-- The answer of `blobUploadStatus` behind a status that is none of a success.
abbrev pub react_status : {S : Type 0} → ℕ → ℕ → S × Result Headers → S × Result (ℕ × Headers)
react_status retry_cur status (s, err e) = (s, err (http_error status))
react_status retry_cur status (s, ok h) =
    (s, if ltb retry_limit retry_cur then err (http_error status) else ok (retry_cur, h))

-- Where the next chunk starts; `none` is below zero.
abbrev pub next_start : ℕ → ℕ → Option ℤ → Option ℕ
next_start chunk_start chunk_size none = some (chunk_start + chunk_size)
next_start chunk_start chunk_size (some (pos n)) = some (n + 1)
next_start chunk_start chunk_size (some (negsuc zero)) = some 0
next_start chunk_start chunk_size (some (negsuc (suc n))) = none

-- The upload before the first turn.
abbrev pub begin : ℕ → Chars → List ℕ → Upload
begin buf_size url content = record {
  buffer = record {
    mem = zeros buf_size;
    off = 0;
    len = 0;
    rdr_off = 0;
    rdr_len = 0;
    buf_start = 0;
    buf_change = false;
    final_chunk = false;
    chunk_size = 0;
    rest = content;
    seen = [];
  };
  chunk_start = 0;
  retry_cur = 0;
  chunk_url = url;
}

-- The upload behind an answer. A start below zero is an error in the next turn of the loop.
abbrev pub advance : Upload → ℕ → Option ℕ → Option Chars → Result Upload
advance u retry_cur none url = err other
advance u retry_cur (some start) none = err other
advance u retry_cur (some start) (some url) =
    ok (record u { chunk_start = start; retry_cur = retry_cur; chunk_url = url })

abbrev pub chunk : Upload → Patch
chunk u = record {
  url = u.chunk_url;
  first = u.chunk_start;
  last = u.chunk_start + u.buffer.chunk_size - 1;
  body_len = u.buffer.chunk_size;
  body = slice u.buffer.mem u.buffer.rdr_off u.buffer.rdr_len;
}

abbrev pub goes_on : Upload → Bool
goes_on u = not u.buffer.final_chunk || ltb u.chunk_start (buf_end u.buffer)

abbrev pub same_size : ℤ → ℕ → Bool
same_size (pos a) n = a == n
same_size (negsuc a) n = false

abbrev pub continued :
    {S : Type 0}
    → Bool
    → Option (S × Result Upload)
    → (S → Upload → Option (S × Result Upload))
    → S
    → Upload
    → Option (S × Result Upload)
continued false t next s u = some (s, ok u)
continued true none next s u = none
continued true (some (s', err e)) next s u = some (s', err e)
continued true (some (s', ok u')) next s u = next s' u'

abbrev pub put_result : {S : Type 0} → Descriptor → S × Result ℕ → S × Result Descriptor
put_result d (s, err e) = (s, err e)
put_result d (s, ok status) =
    (s, if status == 201 || status == 204 then ok d else err (http_error status))

module _ {S : Type 0} (srv : Server S) where
  -- The retries, and the headers that tell how far the upload is.
  unfoldable pub react : S → Chars → ℕ → ℕ → Headers → S × Result (ℕ × Headers)
  react s url retry_cur status h =
      if status == 201
      then (s, ok (retry_cur, h))
      else if recoverable status h
      then (s, ok (retry_cur + 1, h))
      else if not (status == 202)
      then react_status (retry_cur + 1) status (srv.status s url)
      else (s, ok (retry_cur - 1, h))

  unfoldable pub follow : Chars → Headers → Option Chars
  follow url h = if is_empty h.location then some url else srv.resolve h.request_url h.location

  abbrev pub concluded : Upload → S × Result (ℕ × Headers) → S × Result Upload
  concluded u (s, err e) = (s, err e)
  concluded u (s, ok (retry_cur, h)) = (
    s,
    advance u retry_cur (next_start u.chunk_start u.buffer.chunk_size (upload_cur_bytes h.range))
        (follow u.chunk_url h),
  )

  abbrev pub received : Upload → S × Answer → S × Result Upload
  received u (s, no_answer e) = (s, err e)
  received u (s, answered status h) = concluded u (react s u.chunk_url u.retry_cur status h)

  -- A turn of the loop behind the filling of the buffer: whether the chunk starts elsewhere, and
  -- whether there is one.
  abbrev pub send_if : Bool → Bool → S → Upload → S × Result Upload
  send_if true some_left s u = (s, err other)
  send_if false true s u = received u (srv.patch s (chunk u))
  send_if false false s u = (s, ok u)

  unfoldable pub send : S → Upload → S × Result Upload
  send s u =
      send_if (ltb 0 u.buffer.chunk_size && not (u.chunk_start == u.buffer.buf_start))
        (ltb 0 u.buffer.chunk_size) s u

  abbrev pub filled : S → Upload → Option (Result Buffer) → Option (S × Result Upload)
  filled s u none = none
  filled s u (some (err e)) = some (s, err e)
  filled s u (some (ok b)) = some (send s (record u { buffer = renew (shift u.chunk_start b) }))

  unfoldable pub turn : Option Error → S → Upload → Option (S × Result Upload)
  turn ending s u =
      let b = record u.buffer { buf_change = false } in
      filled s u (fill (length b.rest + 2) ending u.chunk_start b)

  -- The loop; `none` means that the fuel ran out.
  unfoldable pub loop : ℕ → Option Error → S → Upload → Option (S × Result Upload)
  loop zero ending s u = none
  loop (suc fuel) ending s u = continued (goes_on u) (turn ending s u) (loop fuel ending) s u

  -- Behind the loop: the checks of digest and size, and the last `PUT`.
  module _ (digest : List ℕ → Chars) (valid : Chars → Bool) where
    -- Whether the digest differs, and whether the size differs.
    abbrev pub finish_if : Bool → Bool → Descriptor → S → Upload → S × Result Descriptor
    finish_if true other_size d s u = (s, err digest_mismatch)
    finish_if false true d s u = (s, err mismatch)
    finish_if false false d s u =
        let computed = digest u.buffer.seen in
        put_result (record d { digest = computed; size = pos u.chunk_start })
          (srv.put s (srv.with_digest u.chunk_url computed))

    unfoldable pub finish : Descriptor → S → Upload → S × Result Descriptor
    finish d s u =
        finish_if (valid d.digest && not (chars_eq (digest u.buffer.seen) d.digest))
          (not (same_size d.size 0) && not (same_size d.size u.chunk_start)) d s u

    abbrev pub finished : Descriptor → Option (S × Result Upload) → Option (S × Result Descriptor)
    finished d none = none
    finished d (some (s, err e)) = some (s, err e)
    finished d (some (s, ok u)) = some (finish d s u)

    -- `blobPutUploadChunked`, with the size of a chunk, the URL, what the reader gives, and how it
    -- ends.
    unfoldable pub put_upload_chunked :
        ℕ → Descriptor → ℕ → Chars → List ℕ → Option Error → S → Option (S × Result Descriptor)
    put_upload_chunked fuel d buf_size url content ending s =
        finished d (loop fuel ending s (begin buf_size url content))
