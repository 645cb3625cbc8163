-- ===== src/Blob.antt =====
-- types/blob/reader.go: the reader of a blob, which checks the
-- size and the digest of what it reads. The reader below it is a parameter with its own state, and so
-- is the digest.
pub mod Reads
pub mod Verified
mod Tests
use regclient.Base.{
  ℕ, zero, suc, ◌+◌, ◌-◌, ◌*◌, ◌/◌, ◌%◌, ◌≤◌, ◌<◌, min, String, ◌≡◌, refl, sym, ap, ◌∙◌, ◌≢◌, ◌↔◌,
  ◌⊎◌, inl, inr, Bool, true, false, not, ◌&&◌, ◌||◌, Option, none, some, List, [], ◌∷◌, ◌++◌, map,
  arith, ltb, leb, ◌==◌, ==_iff, if◌then◌else◌, Bool-cases, Option-cases, some-injective, is_some,
  length, get_elem?, take, drop, length-append, length-take, All, All-append, In, Nowhere, any, all,
}
use regclient.Base.Int.{ℤ, pos, negsuc, ltb_ℤ, number}
use regclient.Base.Text.{Chars, chars_eq}
use regclient.Limitread.{Source, ReadErr, more, eof, panics, failed, limit_read}
use regclient.Errs.{
  Error, Result, ok, err, digest_mismatch, short_read, size_limit_exceeded, unsupported, other,
}
use regclient.Descriptor.{Descriptor}

-- The sentinel of a failure.
abbrev pub sentinel : List Error → Error
sentinel [] = other
sentinel (e ∷ es) = e

-- `BReader`. `limit` is the `Limit` of the `LimitRead`, where there is one; `hashed` is what the
-- digester was given.
pub record BReader (S : Type 0) : Type 0 where
  pub desc : Descriptor
  pub read_bytes : ℕ
  pub limit : Option ℤ
  pub hashed : List ℕ
  pub source : S

-- The limit for a size, none for a size that is not set.
unfoldable pub limit_for : ℤ → Option ℤ
limit_for (pos zero) = none
limit_for (pos (suc n)) = some (pos (suc n))
limit_for (negsuc n) = none

-- `NewReader` with a reader and a descriptor.
abbrev pub new_reader : {S : Type 0} → Descriptor → S → BReader S
new_reader d s = record {
  desc = d;
  read_bytes = 0;
  limit = limit_for d.size;
  hashed = [];
  source = s;
}

-- The check of the size at the end; a size that is not set is set.
abbrev pub check_size : ℕ → ℤ → ReadErr
check_size read_bytes size =
    if ltb_ℤ (pos read_bytes) size
    then failed (short_read ∷ [])
    else if ltb_ℤ size (pos read_bytes)
    then failed (size_limit_exceeded ∷ [])
    else eof

abbrev pub is_unset : ℤ → Bool
is_unset (pos zero) = true
is_unset (pos (suc n)) = false
is_unset (negsuc n) = false

abbrev pub sentinels : ReadErr → List Error
sentinels more = []
sentinels eof = []
sentinels panics = []
sentinels (failed es) = es

-- What a read of the whole blob comes to: it returns, or the process panics.
pub data BodyResult : Type 0 where
  returns : Result (List ℕ) → BodyResult
  crashes : BodyResult

-- What was read, before what is read later.
abbrev pub continue_with : List ℕ → Option BodyResult → Option BodyResult
continue_with bytes none = none
continue_with bytes (some crashes) = some crashes
continue_with bytes (some (returns (err e))) = some (returns (err e))
continue_with bytes (some (returns (ok later))) = some (returns (ok (bytes ++ later)))

module _ (digest : List ℕ → Chars) (valid : Chars → Bool) where
  -- The check of the digest at the end; a digest that is not valid is set.
  abbrev pub check_digest : Chars → List ℕ → ReadErr → ReadErr
  check_digest wanted hashed e =
      if valid wanted && not (chars_eq wanted (digest hashed))
      then failed (digest_mismatch ∷ sentinels e)
      else e

  unfoldable pub checks : Descriptor → ℕ → List ℕ → ReadErr
  checks d read_bytes hashed =
      check_digest d.digest hashed (if is_unset d.size then eof else check_size read_bytes d.size)

  -- The descriptor behind the end.
  unfoldable pub completed : Descriptor → ℕ → List ℕ → Descriptor
  completed d read_bytes hashed = record d {
    size = if is_unset d.size then pos read_bytes else d.size;
    digest = if valid d.digest then d.digest else digest hashed;
  }

  -- `Read` behind the read of the source.
  abbrev pub tee :
      {S : Type 0} → BReader S → S × List ℕ × ReadErr × Option ℤ → List ℕ × ReadErr × BReader S
  tee r (s, bytes, eof, limit) =
      let n = r.read_bytes + length bytes in
      let hashed = r.hashed ++ bytes in
      (
        bytes,
        checks r.desc n hashed,
        record {
          desc = completed r.desc n hashed;
          read_bytes = n;
          limit = limit;
          hashed = hashed;
          source = s;
        },
      )
  tee r (s, bytes, more, limit) = (
    bytes,
    more,
    record r {
      read_bytes = r.read_bytes + length bytes;
      limit = limit;
      hashed = r.hashed ++ bytes;
      source = s;
    },
  )
  tee r (s, bytes, panics, limit) = (bytes, panics, record r { limit = limit; source = s })
  tee r (s, bytes, failed es, limit) = (
    bytes,
    failed es,
    record r {
      read_bytes = r.read_bytes + length bytes;
      limit = limit;
      hashed = r.hashed ++ bytes;
      source = s;
    },
  )

  module _ {S : Type 0} (from : Source S) where
    -- `Read`.
    unfoldable pub read : BReader S → ℕ → List ℕ × ReadErr × BReader S
    read r n = tee r (limit_read from r.source n r.limit)

    -- `io.ReadAll`, with the room for the next read behind a number of bytes.
    abbrev pub read_next :
        (BReader S → Option BodyResult) → List ℕ × ReadErr × BReader S → Option BodyResult
    read_next next (bytes, eof, r) = some (returns (ok bytes))
    read_next next (bytes, panics, r) = some crashes
    read_next next (bytes, failed es, r) = some (returns (err (sentinel es)))
    read_next next (bytes, more, r) = continue_with bytes (next r)

    -- `RawBody`; `none` means that the fuel ran out.
    unfoldable pub raw_body : ℕ → (ℕ → ℕ) → BReader S → Option BodyResult
    raw_body zero room r = none
    raw_body (suc fuel) room r = read_next (raw_body fuel room) (read r (room r.read_bytes))

-- Where a seek starts from.
pub data Whence : Type 0 where
  seek_start seek_current seek_end : Whence

abbrev is_zero : ℤ → Bool
is_zero (pos zero) = true
is_zero (pos (suc n)) = false
is_zero (negsuc n) = false

-- The reader behind a seek of the source to its start, which gives the source or an error, and the
-- position.
abbrev pub rewound : {S : Type 0} → BReader S → S × Result ℤ → Result ℤ × BReader S
rewound r (s, err e) = (err e, record r { source = s })
rewound r (s, ok (negsuc n)) = (ok (pos r.read_bytes), record r { source = s })
rewound r (s, ok (pos (suc n))) = (ok (pos r.read_bytes), record r { source = s })
rewound r (s, ok (pos zero)) = (
  ok (pos 0),
  record r { read_bytes = 0; limit = limit_for r.desc.size; hashed = []; source = s },
)

-- `Seek`; a source that cannot seek is `none`.
unfoldable pub seek :
    {S : Type 0} → Option (S → S × Result ℤ) → BReader S → ℤ → Whence → Result ℤ × BReader S
seek seeker r offset seek_current =
    if is_zero offset then (ok (pos r.read_bytes), r) else (err other, r)
seek seeker r offset seek_end = (err other, r)
seek none r offset seek_start = (err other, r)
seek (some rewind) r offset seek_start =
    if is_zero offset then rewound r (rewind r.source) else (err other, r)
