-- ===== src/OciDir/Set.antt =====
-- The entries of an index behind `indexSet`.
use regclient.Base.{
  ℕ, ◌+◌, ◌≡◌, refl, ◌∙◌, ◌≢◌, inl, inr, true, false, none, some, List, [], ◌∷◌, arith,
  if◌then◌else◌, Option-cases,
}
use regclient.Base.Text.{Chars, chars_eq, chars_eq_iff, chars_eq_inst}
use regclient.Base.Maps.{lookup-insert}
use regclient.Errs.{ok}
use regclient.Ref.{Ref}
use regclient.Descriptor.{Descriptor, is_empty}
use regclient.OciDir.{
  ref_name, name_of, name_or_empty, find, has_tag, annotate, replaces, prune, replace_first,
  index_set,
}

-- The annotated descriptor carries the tag.
pub name_of-annotate :
    (d : Descriptor) (tag : Chars) → is_empty tag ≡ false → name_of (annotate d tag) ≡ some tag
unfolding name_of annotate
name_of-annotate d tag h = rw h (
    lookup-insert ref_name ref_name tag (elim d.annotations [ none ↦ [] | some m ↦ m ])
    ∙ rw ((chars_eq_iff ref_name ref_name).1 refl) refl)

pub digest-annotate : (d : Descriptor) (tag : Chars) → (annotate d tag).digest ≡ d.digest
unfolding annotate
digest-annotate d tag = ground arith

-- How many entries carry a tag.
unfoldable pub tag_count : Chars → List Descriptor → ℕ
tag_count tag [] = 0
tag_count tag (e ∷ es) = (if has_tag tag e then 1 else 0) + tag_count tag es

-- An entry with the tag is one that `indexSet` replaces.
has_tag-replaces :
    (tag digest : Chars) (e : Descriptor)
    → is_empty tag ≡ false
    → has_tag tag e ≡ true
    → replaces tag digest e ≡ true
unfolding has_tag replaces name_or_empty
has_tag-replaces tag digest e h k = elim (Option-cases (name_of e)) [
  | inl unnamed ↦ ground arith
  | inr (n, named) ↦ ground arith
]

-- An entry with another tag is not.
other_tag-stays :
    (tag tag' digest : Chars) (e : Descriptor)
    → is_empty tag' ≡ false
    → tag ≢ tag'
    → has_tag tag' e ≡ true
    → replaces tag digest e ≡ false
unfolding has_tag replaces name_or_empty
other_tag-stays tag tag' digest e h n k = elim (Option-cases (name_of e)) [
  | inl unnamed ↦ ground arith
  | inr (name, named) ↦ ground (arith, chars_eq_iff name tag', chars_eq_iff name tag)
]

tag_count-prune :
    (tag digest : Chars) (es : List Descriptor)
    → is_empty tag ≡ false
    → tag_count tag (prune tag digest es) ≡ 0
unfolding tag_count prune
tag_count-prune tag digest [] h = refl
tag_count-prune tag digest (e ∷ es) h =
    ground (arith, tag_count-prune tag digest es h, has_tag-replaces tag digest e)

tag_count-replace_first :
    (tag : Chars) (d : Descriptor) (es : List Descriptor)
    → is_empty tag ≡ false
    → has_tag tag d ≡ true
    → tag_count tag (replace_first tag d es) ≡ 1
unfolding tag_count replace_first
tag_count-replace_first tag d [] h k = ground arith
tag_count-replace_first tag d (e ∷ es) h k = ground (
  arith,
  tag_count-replace_first tag d es h k,
  tag_count-prune tag d.digest es h,
  has_tag-replaces tag d.digest e,
)

find-replace_first :
    (tag : Chars) (d : Descriptor) (es : List Descriptor)
    → is_empty tag ≡ false
    → has_tag tag d ≡ true
    → find (has_tag tag) (replace_first tag d es) ≡ ok d
unfolding find replace_first
find-replace_first tag d [] h k = rw k
find-replace_first tag d (e ∷ es) h k =
    ground (arith, find-replace_first tag d es h k, has_tag-replaces tag d.digest e)

find-prune :
    (tag tag' digest : Chars) (es : List Descriptor)
    → is_empty tag' ≡ false
    → tag ≢ tag'
    → find (has_tag tag') (prune tag digest es) ≡ find (has_tag tag') es
unfolding find prune
find-prune tag tag' digest [] h n = refl
find-prune tag tag' digest (e ∷ es) h n =
    ground (arith, find-prune tag tag' digest es h n, other_tag-stays tag tag' digest e h n)

find-replace_first_other :
    (tag tag' : Chars) (d : Descriptor) (es : List Descriptor)
    → is_empty tag' ≡ false
    → tag ≢ tag'
    → has_tag tag' d ≡ false
    → find (has_tag tag') (replace_first tag d es) ≡ find (has_tag tag') es
unfolding find replace_first
find-replace_first_other tag tag' d [] h n k = rw k
find-replace_first_other tag tag' d (e ∷ es) h n k = ground (
  arith,
  find-replace_first_other tag tag' d es h n k,
  find-prune tag tag' d.digest es h n,
  other_tag-stays tag tag' d.digest e h n,
)

has_tag_named :
    (e : Descriptor) (n tag : Chars) → name_of e ≡ some n → has_tag tag e ≡ chars_eq n tag
unfolding has_tag
has_tag_named e n tag h = rw (h, has_tag)

not_same : (s t : Chars) → s ≢ t → chars_eq s t ≡ false
not_same s t n = ground (arith, chars_eq_iff s t)

-- What `indexSet` with a tag does to the tags of an index: exactly one entry has the tag, the first
-- entry with the tag is the new descriptor, and the first entry of any other tag is as before.
pub index_set-tags :
    (ms : List Descriptor) (r : Ref) (d : Descriptor)
    → is_empty r.tag ≡ false
    → (tag_count r.tag (index_set ms r d) ≡ 1)
      × (find (has_tag r.tag) (index_set ms r d) ≡ ok (annotate d r.tag))
      × ((tag : Chars)
          → is_empty tag ≡ false
          → r.tag ≢ tag
          → find (has_tag tag) (index_set ms r d) ≡ find (has_tag tag) ms)
unfolding index_set
index_set-tags ms r d h =
    let named = name_of-annotate d r.tag h in
    let tagged : has_tag r.tag (annotate d r.tag) ≡ true =
      has_tag_named (annotate d r.tag) r.tag r.tag named ∙ (chars_eq_iff r.tag r.tag).1 refl in
    (
      tag_count-replace_first r.tag (annotate d r.tag) ms h tagged,
      find-replace_first r.tag (annotate d r.tag) ms h tagged,
      λ tag g n.
          find-replace_first_other r.tag tag (annotate d r.tag) ms g n
            (has_tag_named (annotate d r.tag) r.tag tag named ∙ not_same r.tag tag n),
    )
