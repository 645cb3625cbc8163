-- ===== src/Ref/Names.antt =====
-- Reading a common name back.
use mathlib.Core.List.{append-nil, append_assoc}
use regclient.Base.{
  ℕ, ◌≡◌, refl, sym, ap, ◌∙◌, Bool, true, false, not, ◌&&◌, [], ◌∷◌, ◌++◌, ◌==◌, ==_iff,
  if◌then◌else◌, drop, All,
}
use regclient.Base.Text.{Chars, chars_eq_iff}
use regclient.Ref.{Ref, reg, is_empty, suffix, prefix, common_name}

-- Splits a text at the first character that fails the test.
unfoldable pub span : (ℕ → Bool) → Chars → Chars × Chars
span p [] = ([], [])
span p (c ∷ cs) = let rest = span p cs in if p c then (c ∷ rest.0, rest.1) else ([], c ∷ cs)

-- Takes a part that begins with the separator and runs while the test holds.
unfoldable pub take_part : ℕ → (ℕ → Bool) → Chars → Chars × Chars
take_part sep p [] = ([], [])
take_part sep p (c ∷ cs) = if c == sep then span p cs else ([], c ∷ cs)

abbrev pub name_char : ℕ → Bool
name_char c = not (c == b':') && not (c == b'@')

abbrev pub tag_char : ℕ → Bool
tag_char c = not (c == b'@')

abbrev pub registry_char : ℕ → Bool
registry_char c = not (c == b'/')

abbrev any_char : ℕ → Bool
any_char c = true

-- Tag and digest behind a name.
unfoldable pub read_version : Chars → Chars × Chars
read_version s =
    let tagged = take_part b':' tag_char s in (tagged.0, (take_part b'@' any_char tagged.1).0)

-- Registry, repository, tag and digest of a name of the scheme `reg`.
unfoldable pub read_reg : Chars → Chars × Chars × Chars × Chars
read_reg s =
    let at_slash = span registry_char s in
    let name = span name_char (drop 1 at_slash.1) in
    let version = read_version name.1 in (at_slash.0, name.0, version.0, version.1)

abbrev Stops : (ℕ → Bool) → Chars → Type 0
Stops p [] = Unit
Stops p (c ∷ cs) = p c ≡ false

span-append :
    (p : ℕ → Bool) (xs ys : Chars)
    → All (λ c. p c ≡ true) xs
    → Stops p ys
    → span p (xs ++ ys) ≡ (xs, ys)
unfolding span
span-append p [] [] h s = refl
span-append p [] (c ∷ ys) h s = rw s
span-append p (x ∷ xs) ys h s = rw (h.0, span-append p xs ys h.1 s)

All-true : (xs : Chars) → All (λ c. any_char c ≡ true) xs
All-true [] = tt
All-true (x ∷ xs) = (refl, All-true xs)

take_part-suffix :
    (sep : ℕ) (p : ℕ → Bool) (xs ys : Chars)
    → All (λ c. p c ≡ true) xs
    → Stops p ys
    → Stops (λ c. c == sep) ys
    → take_part sep p (suffix sep xs ++ ys) ≡ (xs, ys)
unfolding take_part suffix
take_part-suffix sep p [] [] h s d = refl
take_part-suffix sep p [] (c ∷ ys) h s d = rw d
take_part-suffix sep p (x ∷ xs) ys h s d =
    rw ((==_iff sep sep).1 refl) (span-append p (x ∷ xs) ys h s)

digest-Stops :
    (digest : Chars)
    → Stops tag_char (suffix b'@' digest) × Stops (λ c. c == b':') (suffix b'@' digest)
unfolding suffix
digest-Stops [] = (tt, tt)
digest-Stops (d ∷ ds) = (refl, refl)

read_version-suffix :
    (tag digest : Chars)
    → All (λ c. tag_char c ≡ true) tag
    → read_version (suffix b':' tag ++ suffix b'@' digest) ≡ (tag, digest)
unfolding read_version
read_version-suffix tag digest h =
    let (s, d) = digest-Stops digest in
    let at_tag = take_part-suffix b':' tag_char tag (suffix b'@' digest) h s d in
    let at_digest = take_part-suffix b'@' any_char digest [] (All-true digest) tt tt in
    rw at_tag (
      ap (λ s. (tag, (take_part b'@' any_char s).0)) (sym (append-nil (suffix b'@' digest)))
      ∙ ap (λ r. (tag, r.0)) at_digest)

version-Stops : (tag digest : Chars) → Stops name_char (suffix b':' tag ++ suffix b'@' digest)
unfolding suffix
version-Stops [] [] = tt
version-Stops [] (d ∷ ds) = refl
version-Stops (t ∷ ts) digest = refl

-- A reference whose parts are told apart by their separators: the registry is not empty and holds
-- no slash, the repository is not empty and holds no colon and no `@`, the tag holds no `@`.
pub record IsWellFormed (r : Ref) : Type 0 where
  pub scheme_reg : r.scheme ≡ reg
  pub registry_set : is_empty r.registry ≡ false
  pub registry_chars : All (λ c. registry_char c ≡ true) r.registry
  pub repository_set : is_empty r.repository ≡ false
  pub repository_chars : All (λ c. name_char c ≡ true) r.repository
  pub tag_chars : All (λ c. tag_char c ≡ true) r.tag

read_reg-parts :
    (registry repository tag digest : Chars)
    → is_empty registry ≡ false
    → All (λ c. registry_char c ≡ true) registry
    → All (λ c. name_char c ≡ true) repository
    → All (λ c. tag_char c ≡ true) tag
    → read_reg (prefix registry ++ (repository ++ (suffix b':' tag ++ suffix b'@' digest)))
      ≡ (registry, repository, tag, digest)
unfolding read_reg prefix
read_reg-parts [] repository tag digest set h n t = cc
read_reg-parts (x ∷ xs) repository tag digest set h n t =
    let rest = repository ++ (suffix b':' tag ++ suffix b'@' digest) in
    let at_slash = span-append registry_char (x ∷ xs) (b'/' ∷ rest) h refl in
    let at_name =
      span-append name_char repository (suffix b':' tag ++ suffix b'@' digest) n
        (version-Stops tag digest) in
    let at_version = read_version-suffix tag digest t in
    rw (append_assoc (x ∷ xs) (b'/' ∷ []) rest) (rw at_slash (rw at_name (rw at_version)))

common_name-parts :
    (r : Ref)
    → r.scheme ≡ reg
    → is_empty r.repository ≡ false
    → common_name r
      ≡ prefix r.registry ++ (r.repository ++ (suffix b':' r.tag ++ suffix b'@' r.digest))
unfolding common_name
common_name-parts r s h = rw ((chars_eq_iff r.scheme reg).1 s) (rw h refl)

-- The common name of a reference of the scheme `reg` with a registry and a repository that are not
-- empty says all of it, where no part holds one of the separators that end it: registry,
-- repository, tag and digest are read back from it. So two such references with one common name
-- agree in the four fields.
pub read_reg-common_name :
    (r : Ref)
    → IsWellFormed r
    → read_reg (common_name r) ≡ (r.registry, r.repository, r.tag, r.digest)
read_reg-common_name r w =
    ap read_reg (common_name-parts r w.scheme_reg w.repository_set)
    ∙ read_reg-parts r.registry r.repository r.tag r.digest w.registry_set w.registry_chars
        w.repository_chars w.tag_chars
