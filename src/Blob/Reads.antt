-- ===== src/Blob/Reads.antt =====
-- A source that gives a content piece by piece, and a read of it within a limit.
use regclient.Base.{
  ℕ, zero, suc, ◌+◌, ltb, arith, false, ◌≤◌, ◌<◌, min, ◌≡◌, refl, ap, ◌∙◌, ◌⊎◌, Bool, some, List,
  [], ◌∷◌, ◌++◌, ◌==◌, if◌then◌else◌, length, take, drop,
}
use regclient.Base.Text.{Chars}
use regclient.Errs.{size_limit_exceeded}
use regclient.Base.Int.{pos, max_int}
use regclient.Limitread.{
  panics, minus, Source, ReadErr, more, eof, failed, within_limit, limit_read,
}
use regclient.Blob.{BReader, tee, read}

-- A read of at most `n` bytes: a part of what is left, which is not empty unless it is the end.
pub record Piece {S : Type 0} (from : Source S) (left : S → List ℕ) (s : S) (n : ℕ) : Type 0 where
  pub after : S
  pub size : ℕ
  pub error : ReadErr
  pub gives : from s n ≡ (after, take size (left s), error)
  pub fits : size ≤ n
  pub bounded : size ≤ length (left s)
  pub rest : left after ≡ drop size (left s)
  pub goes_on : ((error ≡ more) × (0 < size)) ⊎ ((error ≡ eof) × (length (left after) ≡ 0))

pub record IsStream {S : Type 0} (from : Source S) (left : S → List ℕ) : Type 0 where
  pub pieces : (s : S) (n : ℕ) → 0 < n → Piece from left s n

pub take-drop : (n : ℕ) (xs : List ℕ) → take n xs ++ drop n xs ≡ xs
take-drop zero xs = refl
take-drop (suc n) [] = refl
take-drop (suc n) (x ∷ xs) = ap (λ ys. x ∷ ys) (take-drop n xs)

module _ (digest : List ℕ → Chars) (valid : Chars → Bool) {S : Type 0} (from : Source S)
    (left : S → List ℕ) where
  -- The error behind the limit.
  abbrev limited : Bool → ReadErr → ReadErr
  limited b e = if b then failed (size_limit_exceeded ∷ []) else e

  pub read-Piece :
      (r : BReader S) (m l : ℕ) (b : Bool) (e : ReadErr)
      → r.limit ≡ some (pos l)
      → l < max_int
      → (p : Piece from left r.source (min m (l + 1)))
      → ltb l (length (take p.size (left r.source))) ≡ b
      → p.error ≡ e
      → read digest valid from r m
        ≡ tee digest valid r (
          p.after,
          take p.size (left r.source),
          (if b then failed (size_limit_exceeded ∷ []) else e),
          some (minus l (length (take p.size (left r.source)))),
        )
  unfolding read
  read-Piece r m l b e h s p c q =
      let bytes = take p.size (left r.source) in
      let lim = some (minus l (length bytes)) in
      let sound : (l == max_int) ≡ false = ground (arith, s) in
      ap (λ o. tee digest valid r (limit_read from r.source m o)) h
      ∙ ap
          (λ x. tee digest valid r (
            if x
            then (r.source, [], panics, some (pos l))
            else within_limit from l (from r.source (min m (l + 1)))))
          sound
      ∙ ap (λ a. tee digest valid r (within_limit from l a)) p.gives
      ∙ ap (λ d. tee digest valid r (p.after, bytes, limited d p.error, lim)) c
      ∙ ap (λ d. tee digest valid r (p.after, bytes, limited b d, lim)) q
