-- ===== src/Limitread.antt =====
-- internal/limitread/limitread.go: a reader that fails behind a number of bytes. The reader below it
-- is a parameter with its own state. A limit is a 64-bit integer; `none` is a reader without a limit.
use regclient.Base.{
  ℕ, ◌+◌, ◌-◌, min, ltb, Option, none, some, List, [], ◌∷◌, ◌==◌, if◌then◌else◌, length,
}
use regclient.Base.Int.{ℤ, pos, negsuc, max_int}
use regclient.Errs.{Error, size_limit_exceeded}

-- How a read ends: there is more to come, `io.EOF` itself, the process panics, or another error, with
-- the sentinels that it wraps, the outer ones first.
pub data ReadErr : Type 0 where
  more eof panics : ReadErr
  failed : List Error → ReadErr

-- A read of at most a number of bytes.
abbrev pub Source : Type 0 → Type 0
Source S = S → ℕ → S × List ℕ × ReadErr

-- `lr.Limit -= n`, for a limit that is not below zero.
unfoldable pub minus : ℕ → ℕ → ℤ
minus l n = if ltb l n then negsuc (n - l - 1) else pos (l - n)

module _ {S : Type 0} (from : Source S) where
  -- What `LimitRead.Read` returns of a read within a limit, with the limit that is left.
  abbrev pub within_limit : ℕ → S × List ℕ × ReadErr → S × List ℕ × ReadErr × Option ℤ
  within_limit l (s, bytes, e) = (
    s,
    bytes,
    (if ltb l (length bytes) then failed (size_limit_exceeded ∷ []) else e),
    some (minus l (length bytes)),
  )

  -- `LimitRead.Read`, where there is a limit. At the largest one `lr.Limit + 1` wraps to a number
  -- below zero, so that every room is larger and the slice panics.
  abbrev pub limit_read : S → ℕ → Option ℤ → S × List ℕ × ReadErr × Option ℤ
  limit_read s n none = let (s', bytes, e) = from s n in (s', bytes, e, none)
  limit_read s n (some (negsuc k)) = (s, [], failed (size_limit_exceeded ∷ []), some (negsuc k))
  limit_read s n (some (pos l)) =
      if l == max_int
      then (s, [], panics, some (pos l))
      else within_limit l (from s (min n (l + 1)))
