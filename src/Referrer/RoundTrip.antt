-- ===== src/Referrer/RoundTrip.antt =====
-- Adding a referrer and deleting it again.
use regclient.Base.{
  ◌≡◌, refl, sym, ap, ◌∙◌, true, false, Option, none, some, List, [], ◌∷◌, ◌++◌, arith,
}
use regclient.Base.Text.{Chars, chars_eq, chars_eq_iff}
use regclient.Errs.{Error, ok}
use regclient.Descriptor.{Descriptor}
use regclient.Referrer.{
  Manifest, Orig, artifact, index, image, unsupported_orig, ReferrerList, has_digest, pull_up_orig,
  pull_up, outcome, set_entries, append_entry, add_to, add, remove_digest, delete_found, delete,
}

abbrev digest_or : Chars → Option Descriptor → Chars
digest_or x none = x
digest_or x (some d) = d.digest

digest-pull_up_orig : (d : Descriptor) (o : Orig) → digest_or d.digest (pull_up_orig d o) ≡ d.digest
digest-pull_up_orig d (artifact a t) = refl
digest-pull_up_orig d (index a t) = refl
digest-pull_up_orig d (image a t c) = refl
digest-pull_up_orig d unsupported_orig = refl

digest-pull_up : (m : Manifest) (d : Descriptor) → pull_up m ≡ some d → d.digest ≡ m.desc.digest
unfolding pull_up
digest-pull_up m d h = sym (ap (digest_or m.desc.digest) h) ∙ digest-pull_up_orig m.desc m.orig

has_digest-append :
    (x : Chars) (d : Descriptor) (ds : List Descriptor)
    → d.digest ≡ x
    → has_digest x (ds ++ d ∷ []) ≡ true
unfolding has_digest
has_digest-append x d [] h = ground (arith, (chars_eq_iff d.digest x).1 h)
has_digest-append x d (e ∷ es) h = ground (arith, has_digest-append x d es h)

remove_digest-append :
    (x : Chars) (d : Descriptor) (ds : List Descriptor)
    → d.digest ≡ x
    → has_digest x ds ≡ false
    → remove_digest x (ds ++ d ∷ []) ≡ ds
unfolding remove_digest has_digest
remove_digest-append x d [] h k = ground (arith, (chars_eq_iff d.digest x).1 h)
remove_digest-append x d (e ∷ es) h k =
    let a : chars_eq e.digest x ≡ false = ground (arith, k) in
    rw a (ap (λ xs. e ∷ xs) (remove_digest-append x d es h (ground (arith, k))))

-- A list that shows the entries of its manifest.
abbrev pub managed : List Descriptor → ReferrerList
managed ds = record { manifest = some ds; descriptors = ds }

-- A referrer that is not in the list is added as its last entry, once only; when it is deleted, the
-- entries are the ones from before. The manifest can be encoded, before and after.
pub delete-add :
    (update : List Descriptor → Option Error) (rl : ReferrerList) (ds : List Descriptor)
    (m : Manifest) (d : Descriptor)
    → rl.manifest ≡ some ds
    → pull_up m ≡ some d
    → has_digest m.desc.digest ds ≡ false
    → update (ds ++ d ∷ []) ≡ none
    → update ds ≡ none
    → let added = managed (ds ++ d ∷ []) in
      (add update rl m ≡ (ok tt, added))
      × (add update added m ≡ (ok tt, added))
      × (delete update added m ≡ (ok tt, managed ds))
unfolding add delete set_entries
delete-add update rl ds m d e p n u v =
    let x = m.desc.digest in
    let s : d.digest ≡ x = digest-pull_up m d p in
    let added = managed (ds ++ d ∷ []) in
    (
      ap (add_to update rl m) e
          ∙ ap (λ b. append_entry update rl ds b (pull_up m)) n
          ∙ ap (append_entry update rl ds false) p
          ∙ ap (λ o. (outcome o, added)) u,
      ap (λ b. append_entry update added (ds ++ d ∷ []) b (pull_up m)) (has_digest-append x d ds s),
      ap (delete_found update added (remove_digest x (ds ++ d ∷ []))) (has_digest-append x d ds s)
          ∙ ap (set_entries update) (remove_digest-append x d ds s n)
          ∙ ap (λ o. (outcome o, managed ds)) v,
    )
