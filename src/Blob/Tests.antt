-- ===== src/Blob/Tests.antt =====
-- A stream that gives two bytes at a time, and a blob that is read from it.
use regclient.Base.{
  ℕ, ◌<◌, min, ◌≡◌, refl, inl, inr, true, Option, none, some, List, [], ◌∷◌, ◌++◌, arith, length,
  take, drop,
}
use regclient.Base.Int.{pos, max_int}
use regclient.Base.Text.{Chars, chars_eq}
use regclient.Errs.{ok, err, short_read, digest_mismatch, size_limit_exceeded, other}
use regclient.Descriptor.{Descriptor}
use regclient.Limitread.{Source, more, eof, minus}
use regclient.Blob.{
  BodyResult, returns, crashes, seek_start, seek_end, limit_for, new_reader, checks, completed,
  read, raw_body, seek,
}
use regclient.Blob.Reads.{Piece, IsStream}
use regclient.Blob.Verified.{raw_body-matches}

abbrev size_of : ℕ → List ℕ → ℕ
size_of n s = min (min n 2) (length s)

abbrev by_twos : Source (List ℕ)
by_twos [] n = ([], [], eof)
by_twos (x ∷ xs) n = (drop (size_of n (x ∷ xs)) (x ∷ xs), take (size_of n (x ∷ xs)) (x ∷ xs), more)

by_twos-Piece : (s : List ℕ) (n : ℕ) → 0 < n → Piece by_twos (λ t. t) s n
by_twos-Piece [] n h = record {
  after = [];
  size = 0;
  error = eof;
  gives = refl;
  fits = omega arith;
  bounded = omega arith;
  rest = refl;
  goes_on = inr (refl, refl);
}
by_twos-Piece (x ∷ xs) n h = record {
  after = drop (size_of n (x ∷ xs)) (x ∷ xs);
  size = size_of n (x ∷ xs);
  error = more;
  gives = refl;
  fits = omega arith;
  bounded = omega arith;
  rest = refl;
  goes_on = inl (refl, omega (arith, h));
}

by_twos-IsStream : IsStream by_twos (λ s. s)
by_twos-IsStream = record { pieces = by_twos-Piece }

abbrev body : List ℕ
body = 1 ∷ 2 ∷ 3 ∷ 4 ∷ 5 ∷ []

-- The digest of a content is the content itself here.
abbrev digest : List ℕ → Chars
digest xs = xs

abbrev blob : Descriptor
blob = record {
  media_type = [];
  digest = body;
  size = pos 5;
  urls = none;
  annotations = none;
  content = [];
  platform = none;
  artifact_type = [];
}

abbrev run : Descriptor → List ℕ → Option BodyResult
run d s = raw_body digest (λ c. true) by_twos 9 (λ k. 4) (new_reader d s)

runs :
    (run blob body ≡ some (returns (ok body)))
    × (run blob (1 ∷ 2 ∷ []) ≡ some (returns (err digest_mismatch)))
    × (run blob (body ++ 6 ∷ []) ≡ some (returns (err size_limit_exceeded)))
    × (run (record blob { size = pos 6 }) body ≡ some (returns (err short_read)))
    × (run (record blob { size = pos max_int }) body ≡ some crashes)
unfolding raw_body read limit_for checks completed chars_eq minus
runs = (refl, refl, refl, refl, refl)

-- A reader is sent back to its start, and nowhere else.
seeks :
    (seek
        (some (λ s. (body, ok (pos 0))))
        (record (new_reader blob []) { read_bytes = 5 })
        (pos 0)
        seek_start
      ≡ (ok (pos 0), new_reader blob body))
    × ((seek none (new_reader blob body) (pos 0) seek_end).0 ≡ err other)
unfolding seek limit_for
seeks = (refl, refl)

raw_body-matches_example :
    raw_body digest (λ c. true) by_twos 6 (λ k. 4) (new_reader blob body) ≡ some (returns (ok body))
unfolding chars_eq
raw_body-matches_example =
    raw_body-matches digest (λ c. true) by_twos (λ s. s) body blob 4 by_twos-IsStream (λ k. 4) body
      6 (λ k. omega arith) refl refl (omega arith) refl (omega arith)
