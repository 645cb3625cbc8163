-- ===== src/Blob/Verified.antt =====
-- What a blob's reader accepts: the content with the size and the digest of the descriptor.
use mathlib.Core.Path.{subst}
use mathlib.Core.List.{append-nil, append_assoc}
use regclient.Base.{
  ℕ, zero, suc, ◌+◌, ◌-◌, ◌≤◌, ◌<◌, min, ◌≡◌, refl, sym, ap, ◌∙◌, inl, inr, Bool, true, false, not,
  ◌&&◌, Option, some, List, [], ◌∷◌, ◌++◌, arith, ltb, ◌==◌, if◌then◌else◌, Bool-cases, length,
  take, length-append, length-take,
}
use regclient.Base.Int.{pos, negsuc, max_int}
use regclient.Base.Text.{Chars, chars_eq}
use regclient.Errs.{digest_mismatch, short_read, size_limit_exceeded, Error, ok, err}
use regclient.Descriptor.{Descriptor, same}
use regclient.Limitread.{
  Source, ReadErr, more, eof, panics, failed, minus, within_limit, limit_read,
}
use regclient.Blob.{
  BodyResult, returns, crashes, tee, read, BReader, continue_with, checks, read_next, check_size,
  is_unset, sentinels, check_digest, raw_body, limit_for, new_reader, completed,
}
use regclient.Blob.Reads.{IsStream, take-drop, read-Piece}

minus-pos : (l n : ℕ) → ltb l n ≡ false → minus l n ≡ pos (l - n)
unfolding minus
minus-pos l n h = ap (λ b. if b then negsuc (n - l - 1) else pos (l - n)) h

module _ (digest : List ℕ → Chars) (valid : Chars → Bool) {S : Type 0} (from : Source S)
    (left : S → List ℕ) (content : List ℕ) (d : Descriptor) (n : ℕ) where
  -- The content is what the descriptor says.
  abbrev pub matches : Bool
  matches = (length content == suc n) && chars_eq d.digest (digest content)

  abbrev pub Outcome : Bool → List ℕ → Option BodyResult → Type 0
  Outcome true bytes o = o ≡ some (returns (ok bytes))
  Outcome false bytes o = (e : Error) × (o ≡ some (returns (err e)))

  -- A reader in the middle of the content.
  record IsReading (r : BReader S) : Type 0 where
    same_desc : r.desc ≡ d
    split : r.hashed ++ left r.source ≡ content
    counted : r.read_bytes ≡ length r.hashed
    spare : ℕ
    limited : r.limit ≡ some (pos spare)
    spare_size : spare + length r.hashed ≡ suc n

  Outcome-err :
      (e : Error) (bytes : List ℕ) (o : Option BodyResult)
      → matches ≡ false
      → o ≡ some (returns (err e))
      → Outcome matches bytes o
  Outcome-err e bytes o m q = subst (λ b. Outcome b bytes o) (sym m) (e, q)

  Outcome-next :
      (b : Bool) (bytes later whole : List ℕ) (o : Option BodyResult)
      (next : BReader S → Option BodyResult) (r : BReader S)
      → bytes ++ later ≡ whole
      → next r ≡ o
      → Outcome b later o
      → Outcome b whole (read_next digest valid from next (bytes, more, r))
  Outcome-next true bytes later whole o next r w q e =
      ap (continue_with bytes) (q ∙ e) ∙ ap (λ xs. some (returns (ok xs))) w
  Outcome-next false bytes later whole o next r w q (f, e) = (f, ap (continue_with bytes) (q ∙ e))

  -- The check of the size, for a size that is set.
  check_size-eof : (k : ℕ) → k ≡ suc n → check_size k (pos (suc n)) ≡ eof
  check_size-eof k e =
      let a : ltb k (suc n) ≡ false = ground (arith, e) in
      let b : ltb (suc n) k ≡ false = ground (arith, e) in rw (a, b) refl

  check_size-short : (k : ℕ) → k < suc n → check_size k (pos (suc n)) ≡ failed (short_read ∷ [])
  check_size-short k h = let a : ltb k (suc n) ≡ true = ground (arith, h) in rw a refl

  checked :
      (k : ℕ) (hashed : List ℕ)
      → d.size ≡ pos (suc n)
      → checks digest valid d k hashed
        ≡ check_digest digest valid d.digest hashed (check_size k (pos (suc n)))
  unfolding checks
  checked k hashed z =
      ap
        (λ z'.
          check_digest digest valid d.digest hashed (if is_unset z' then eof else check_size k z'))
        z

  check_digest-same :
      (hashed : List ℕ) (e : ReadErr)
      → chars_eq d.digest (digest hashed) ≡ true
      → check_digest digest valid d.digest hashed e ≡ e
  check_digest-same hashed e h =
      let a : valid d.digest && not (chars_eq d.digest (digest hashed)) ≡ false =
        ground (arith, h) in
      ap (λ b. if b then failed (digest_mismatch ∷ sentinels e) else e) a

  check_digest-other :
      (hashed : List ℕ) (e : ReadErr)
      → valid d.digest ≡ true
      → chars_eq d.digest (digest hashed) ≡ false
      → check_digest digest valid d.digest hashed e ≡ failed (digest_mismatch ∷ sentinels e)
  check_digest-other hashed e v h =
      let a : valid d.digest && not (chars_eq d.digest (digest hashed)) ≡ true =
        ground (arith, v, h) in
      ap (λ b. if b then failed (digest_mismatch ∷ sentinels e) else e) a

  mismatched : (b : Bool) → b ≡ false → b ≡ chars_eq d.digest (digest content) → matches ≡ false
  mismatched b e q = ground (arith, e, q)

  matched :
      (b : Bool)
      → b ≡ true
      → b ≡ chars_eq d.digest (digest content)
      → (length content == suc n) ≡ true
      → matches ≡ true
  matched b e q f = ground (arith, e, q, f)

  -- The checks at the end of a content that is not too long.
  checks-Outcome :
      (k : ℕ) (hashed bytes : List ℕ) (next : BReader S → Option BodyResult) (r : BReader S)
      → hashed ≡ content
      → k ≡ length content
      → valid d.digest ≡ true
      → d.size ≡ pos (suc n)
      → length content ≤ suc n
      → Outcome matches bytes
          (read_next digest valid from next (bytes, checks digest valid d k hashed, r))
  checks-Outcome k hashed bytes next r h c v z l =
      let ended : ReadErr → Option BodyResult =
        λ e. read_next digest valid from next (bytes, e, r) in
      let o = ended (checks digest valid d k hashed) in
      let start = checked k hashed z in
      elim (Bool-cases (chars_eq d.digest (digest hashed))) [
        | inr differs ↦
            Outcome-err digest_mismatch bytes o
              (mismatched (chars_eq d.digest (digest hashed)) differs
                (ap (λ xs. chars_eq d.digest (digest xs)) h))
              (ap ended (start ∙ check_digest-other hashed (check_size k (pos (suc n))) v differs))
        | inl same ↦ elim (Bool-cases (length content == suc n)) [
          | inl full ↦
              subst (λ b. Outcome b bytes o)
                (sym (
                  matched (chars_eq d.digest (digest hashed)) same
                    (ap (λ xs. chars_eq d.digest (digest xs)) h) full))
                (ap ended (
                  start
                  ∙ check_digest-same hashed (check_size k (pos (suc n))) same
                  ∙ check_size-eof k (ground (arith, c, full))))
          | inr short ↦ Outcome-err short_read bytes o (ground (arith, short)) (
              ap ended (
                start
                ∙ check_digest-same hashed (check_size k (pos (suc n))) same
                ∙ check_size-short k (ground (arith, c, short, l))))
        ]
      ]

  module _ (stream : IsStream from left) (room : ℕ → ℕ) (roomy : (k : ℕ) → 0 < room k)
      (known : valid d.digest ≡ true) (sized : d.size ≡ pos (suc n)) (small : suc n < max_int) where
    nil_left : (xs : List ℕ) → length xs ≡ 0 → xs ≡ []
    nil_left [] h = refl
    nil_left (x ∷ xs) h = absurd (omega (arith, h))

    raw_body-Outcome :
        (fuel : ℕ) (r : BReader S)
        → IsReading r
        → length (left r.source) < fuel
        → Outcome matches (left r.source) (raw_body digest valid from fuel room r)
    unfolding raw_body
    raw_body-Outcome zero r v h = absurd (omega (arith, h))
    raw_body-Outcome (suc fuel) r v h =
        let m = room r.read_bytes in
        let p = stream.pieces r.source (min m (v.spare + 1)) (omega (arith, roomy r.read_bytes)) in
        let bytes = take p.size (left r.source) in
        let size : length bytes ≡ p.size =
          omega (arith, length-take p.size (left r.source), p.bounded) in
        let total : length r.hashed + length (left r.source) ≡ length content =
          sym (length-append r.hashed (left r.source)) ∙ ap length v.split in
        let hashed = r.hashed ++ bytes in
        let hashed_size : length hashed ≡ length r.hashed + p.size =
          omega (arith, length-append r.hashed bytes, size) in
        let parts : bytes ++ left p.after ≡ left r.source =
          ap (λ xs. bytes ++ xs) p.rest ∙ take-drop p.size (left r.source) in
        let lim = some (minus v.spare (length bytes)) in
        let small_limit : v.spare < max_int = omega (arith, v.spare_size, small) in
        let next = raw_body digest valid from fuel room in
        elim (Bool-cases (ltb v.spare (length bytes))) [
          | inl over ↦
              Outcome-err size_limit_exceeded (left r.source)
                (raw_body digest valid from (suc fuel) room r)
                (ground (arith, over, size, p.bounded, total, v.spare_size))
                (ap (read_next digest valid from next) (
                  read-Piece digest valid from left r m v.spare true p.error v.limited small_limit p
                    over refl))
          | inr under ↦ elim p.goes_on [
            | inl (e, some_read) ↦
                let r' = record r {
                  read_bytes = r.read_bytes + length bytes;
                  limit = lim;
                  hashed = hashed;
                  source = p.after;
                } in
                let v' : IsReading r' = record {
                  same_desc = v.same_desc;
                  split =
                      append_assoc r.hashed bytes (left p.after)
                      ∙ ap (λ xs. r.hashed ++ xs) parts
                      ∙ v.split;
                  counted = omega (arith, v.counted, hashed_size, size);
                  spare = v.spare - length bytes;
                  limited = ap some (minus-pos v.spare (length bytes) under);
                  spare_size = ground (arith, under, hashed_size, size, v.spare_size);
                } in
                let q = ap (read_next digest valid from next) (
                  read-Piece digest valid from left r m v.spare false more v.limited small_limit p
                    under e) in
                subst (Outcome matches (left r.source)) (sym q) (
                  Outcome-next matches bytes (left p.after) (left r.source)
                    (raw_body digest valid from fuel room r') next r' parts refl
                    (raw_body-Outcome fuel r' v' (
                      omega (
                        arith,
                        h,
                        some_read,
                        ap length parts,
                        length-append bytes (left p.after),
                        size,
                      ))))
            | inr (e, nothing) ↦
                let k = r.read_bytes + length bytes in
                let r' : BReader S = record {
                  desc = completed digest valid r.desc k hashed;
                  read_bytes = k;
                  limit = lim;
                  hashed = hashed;
                  source = p.after;
                } in
                let q = ap (read_next digest valid from next) (
                  read-Piece digest valid from left r m v.spare false eof v.limited small_limit p
                    under e) in
                let c =
                  ap
                    (λ c.
                      read_next digest valid from next (bytes, checks digest valid c k hashed, r'))
                    v.same_desc in
                let whole : bytes ≡ left r.source =
                  sym (append-nil bytes)
                  ∙ ap (λ xs. bytes ++ xs) (sym (nil_left (left p.after) nothing))
                  ∙ parts in
                let all : hashed ≡ content = ap (λ xs. r.hashed ++ xs) whole ∙ v.split in
                subst (Outcome matches (left r.source)) (sym (q ∙ c)) (
                  subst
                    (λ xs. Outcome matches xs (
                      read_next digest valid from next (bytes, checks digest valid d k hashed, r')))
                    whole
                    (checks-Outcome k hashed bytes next r' all
                      (omega (arith, ap length all, hashed_size, size, v.counted)) known sized
                      (ground (arith, under, ap length all, hashed_size, size, v.spare_size))))
          ]
        ]

  new_reader-IsReading :
      (s : S) → d.size ≡ pos (suc n) → left s ≡ content → IsReading (new_reader d s)
  unfolding limit_for
  new_reader-IsReading s z e = record {
    same_desc = refl;
    split = e;
    counted = refl;
    spare = suc n;
    limited = ap limit_for z;
    spare_size = omega arith;
  }

  raw_body-panics :
      (room : ℕ → ℕ) (s : S) (fuel : ℕ)
      → d.size ≡ pos (suc n)
      → suc n ≡ max_int
      → raw_body digest valid from (suc fuel) room (new_reader d s) ≡ some crashes
  unfolding raw_body read limit_for
  raw_body-panics room s fuel z e =
      let r = new_reader d s in
      let top : (suc n == max_int) ≡ true = ground (arith, e) in
      let next = raw_body digest valid from fuel room in
      ap
        (λ o.
          read_next digest valid from next
            (tee digest valid (record r { limit = o }) (limit_read from s (room 0) o)))
        (ap limit_for z)
      ∙ ap
          (λ x. read_next digest valid from next (
            tee digest valid (record r { limit = some (pos (suc n)) })
              (if x
                then (s, [], panics, some (pos (suc n)))
                else within_limit from (suc n) (from s (min (room 0) (suc n + 1))))))
          top

  -- What a read of the whole blob comes to, by whether the size is the largest of 64 bits.
  abbrev pub Ends : Bool → Option BodyResult → Type 0
  Ends true o = o ≡ some crashes
  Ends false o = Outcome matches content o

  -- `RawBody` on a blob of which the size and the digest are known, over a stream that gives a
  -- content in pieces of any sizes, comes to an end. It returns the content if the content has the
  -- size and the digest, and an error if not; where the size is the largest 64-bit integer, it
  -- panics, whatever the content is.
  pub raw_body-matches :
      (stream : IsStream from left) (room : ℕ → ℕ) (s : S) (fuel : ℕ)
      → ((k : ℕ) → 0 < room k)
      → valid d.digest ≡ true
      → d.size ≡ pos (suc n)
      → suc n ≤ max_int
      → left s ≡ content
      → length content < fuel
      → Ends (suc n == max_int) (raw_body digest valid from fuel room (new_reader d s))
  raw_body-matches stream room s zero roomy known sized small e h = absurd (omega (arith, h))
  raw_body-matches stream room s (suc fuel) roomy known sized small e h =
      let o = raw_body digest valid from (suc fuel) room (new_reader d s) in
      elim (Bool-cases (suc n == max_int)) [
        | inl top ↦
            subst (λ b. Ends b o) (sym top)
              (raw_body-panics room s fuel sized (ground (arith, top)))
        | inr below ↦
            subst (λ b. Ends b o) (sym below)
              (subst (λ xs. Outcome matches xs o) e
                (raw_body-Outcome stream room roomy known sized (ground (arith, below, small))
                  (suc fuel) (new_reader d s) (new_reader-IsReading s sized e)
                  (omega (arith, h, ap length e))))
      ]
