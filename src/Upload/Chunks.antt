-- ===== src/Upload/Chunks.antt =====
-- scheme/reg/blob.go: the buffer of `blobPutUploadChunked`, and how it is filled.
use regclient.Base.{
  ℕ, zero, suc, ◌+◌, ◌-◌, min, Bool, true, false, not, ◌&&◌, ◌||◌, Option, none, some, List, [],
  ◌∷◌, ◌++◌, ltb, leb, ◌==◌, if◌then◌else◌, length, take, drop,
}
use regclient.Errs.{Error, Result, ok, err}

-- `xs[off:off+len]`, and the array behind a write at an offset.
abbrev pub slice : List ℕ → ℕ → ℕ → List ℕ
slice xs off len = take len (drop off xs)

abbrev pub write : List ℕ → ℕ → List ℕ → List ℕ
write xs off bytes = take off xs ++ (bytes ++ drop (off + length bytes) xs)

-- The buffer. `mem` is the array that `bufBytes` (`off`, `len`) and the slice that `bufRdr` was made
-- of (`rdr_off`, `rdr_len`) share; `rest` is what the reader has left, `seen` what was digested.
pub record Buffer : Type 0 where
  pub mem : List ℕ
  pub off : ℕ
  pub len : ℕ
  pub rdr_off : ℕ
  pub rdr_len : ℕ
  pub buf_start : ℕ
  pub buf_change : Bool
  pub final_chunk : Bool
  pub chunk_size : ℕ
  pub rest : List ℕ
  pub seen : List ℕ

abbrev pub buf_end : Buffer → ℕ
buf_end b = b.buf_start + b.len

-- A failure of the reader before the buffer is full; its end is no failure.
abbrev pub unless_failed : Bool → Option Error → Buffer → Result Buffer
unless_failed true (some e) b = err e
unless_failed true none b = ok b
unless_failed false ending b = ok b

-- The body of the inner loop: the next chunk is read into the buffer (`io.ReadFull`). A reader ends
-- with the error `ending`, if there is one.
unfoldable pub refill : Option Error → Buffer → Result Buffer
refill ending b =
    let room = length b.mem - b.off in
    let n = min room (length b.rest) in
    unless_failed (ltb (length b.rest) room) ending (record b {
      mem = write b.mem b.off (take n b.rest);
      len = n;
      buf_start = b.buf_start + b.len;
      buf_change = b.buf_change || not (room == b.len) || not (n == room);
      final_chunk = b.final_chunk || ltb (length b.rest) room;
      chunk_size = n;
      rest = drop n b.rest;
      seen = b.seen ++ take n b.rest;
    })

abbrev pub fill_next :
    Bool → Result Buffer → (Buffer → Option (Result Buffer)) → Buffer → Option (Result Buffer)
fill_next false r next b = some (ok b)
fill_next true (err e) next b = some (err e)
fill_next true (ok b') next b = next b'

-- The inner loop.
unfoldable pub fill : ℕ → Option Error → ℕ → Buffer → Option (Result Buffer)
fill zero ending chunk_start b = none
fill (suc fuel) ending chunk_start b =
    fill_next (leb (buf_end b) chunk_start && not b.final_chunk) (refill ending b)
      (fill fuel ending chunk_start) b

-- The next chunk is inside the buffer.
unfoldable pub shift : ℕ → Buffer → Buffer
shift chunk_start b =
    if ltb b.buf_start chunk_start && ltb chunk_start (buf_end b)
    then record b {
      off = b.off + (chunk_start - b.buf_start);
      len = b.len - (chunk_start - b.buf_start);
      buf_start = chunk_start;
      chunk_size = b.len - (chunk_start - b.buf_start);
      buf_change = true;
    }
    else b

-- The reader of the body is made again where the slice has changed.
abbrev pub renew_if : Bool → Buffer → Buffer
renew_if true b = record b { rdr_off = b.off; rdr_len = b.len }
renew_if false b = b

unfoldable pub renew : Buffer → Buffer
renew b = renew_if b.buf_change b

-- A new buffer.
unfoldable pub zeros : ℕ → List ℕ
zeros zero = []
zeros (suc n) = 0 ∷ zeros n
