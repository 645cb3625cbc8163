-- ===== src/OciDir/Lookup.antt =====
-- `indexGet` behind `indexSet`.
use regclient.Base.{◌≡◌, ◌∙◌, ◌≢◌, inl, inr, false, List, [], ◌∷◌, arith, Bool-cases}
use regclient.Base.Text.{Chars, chars_eq, chars_eq_iff}
use regclient.Errs.{ok}
use regclient.Ref.{Ref}
use regclient.Descriptor.{Descriptor, is_empty}
use regclient.OciDir.{
  find, has_tag, has_digest, annotate, replaces, replace_first, index_set, index_get,
}
use regclient.OciDir.Set.{index_set-tags, digest-annotate}

index_get_tag :
    (ms : List Descriptor) (r : Ref) (d : Descriptor)
    → is_empty r.tag ≡ false
    → r.digest ≡ []
    → find (has_tag r.tag) ms ≡ ok d
    → index_get ms r ≡ ok d
unfolding index_get
index_get_tag ms r d h e f = ground arith

index_get_digest :
    (ms : List Descriptor) (r : Ref)
    → is_empty r.digest ≡ false
    → index_get ms r ≡ find (has_digest r.digest) ms
unfolding index_get
index_get_digest ms r h = ground arith

-- A descriptor that is put under a tag is what that tag gives, with the tag in its annotations.
pub index_get-index_set :
    (ms : List Descriptor) (r : Ref) (d : Descriptor)
    → is_empty r.tag ≡ false
    → r.digest ≡ []
    → index_get (index_set ms r d) r ≡ ok (annotate d r.tag)
index_get-index_set ms r d h e =
    index_get_tag (index_set ms r d) r (annotate d r.tag) h e (index_set-tags ms r d h).1

-- Another tag gives what it gave before.
pub index_get-index_set_other :
    (ms : List Descriptor) (r r' : Ref) (d e : Descriptor)
    → is_empty r.tag ≡ false
    → is_empty r'.tag ≡ false
    → r.tag ≢ r'.tag
    → r'.digest ≡ []
    → find (has_tag r'.tag) ms ≡ ok e
    → index_get (index_set ms r d) r' ≡ ok e
index_get-index_set_other ms r r' d e h h' n g f =
    index_get_tag (index_set ms r d) r' e h' g ((index_set-tags ms r d h).2 r'.tag h' n ∙ f)

find_digest :
    (tag digest : Chars) (d : Descriptor) (es : List Descriptor)
    → d.digest ≡ digest
    → (e : Descriptor) × (find (has_digest digest) (replace_first tag d es) ≡ ok e)
      × (e.digest ≡ digest)
unfolding find replace_first
find_digest tag digest d [] h = (d, rw ((chars_eq_iff d.digest digest).1 h), h)
find_digest tag digest d (e ∷ es) h = elim (Bool-cases (replaces tag d.digest e)) [
  | inl hit ↦ (d, ground (arith, chars_eq_iff d.digest digest), h)
  | inr miss ↦ elim (Bool-cases (chars_eq e.digest digest)) [
    | inl here ↦ (e, ground arith, (chars_eq_iff e.digest digest).0 here)
    | inr there ↦ let (e', s, q) = find_digest tag digest d es h in (e', ground (arith, s), q)
  ]
]

-- Whatever tag it is put under, or none, the digest of a descriptor is found afterwards.
pub index_get-index_set_digest :
    (ms : List Descriptor) (r r' : Ref) (d : Descriptor)
    → is_empty r'.digest ≡ false
    → d.digest ≡ r'.digest
    → (e : Descriptor) × (index_get (index_set ms r d) r' ≡ ok e) × (e.digest ≡ r'.digest)
unfolding index_set
index_get-index_set_digest ms r r' d h q =
    let (e, s, p) =
      find_digest r.tag r'.digest (annotate d r.tag) ms (digest-annotate d r.tag ∙ q) in
    (e, index_get_digest (index_set ms r d) r' h ∙ s, p)
