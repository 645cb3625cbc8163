-- ===== src/Descriptor/Search.antt =====
-- What `DescriptorListSearch` returns.
use regclient.Base.{
  some-injective, String, ◌≡◌, refl, sym, ◌∙◌, ◌≢◌, ◌↔◌, ◌⊎◌, inl, inr, Bool, true, false, Option,
  none, some, List, [], ◌∷◌, arith, Bool-cases, Option-cases, In,
}
use regclient.Base.Text.{Chars, eq_iff}
use regclient.Errs.{ok}
use regclient.Platform.{
  Platform, zero_platform, Compare, normalize, normal_os, normal_arch, new_compare, is_compatible,
  compatible, favour, better_than, better,
}
use regclient.Platform.Normal.{normalize-normalize}
use regclient.Platform.Match.{compatible-arch}
use regclient.Descriptor.{
  Descriptor, MatchOpt, is_empty, filters, choose, match, match_annotations, match_platforms,
  filter_matches, scan, descriptor_list_filter, descriptor_list_search,
}

-- `new_compare` normalizes its host, and `better` normalizes it again.
compatible-normalize : (a b : Platform) → compatible (normalize a) b ≡ compatible a b
unfolding compatible new_compare is_compatible
compatible-normalize a b = rw (normalize-normalize a)

better-compatible :
    (want p prev : Platform) → better (new_compare want) p prev ≡ true → compatible want p ≡ true
unfolding better new_compare
better-compatible want p prev h = ground (arith, compatible-normalize want p)

zero-normal : ((normalize zero_platform).os ≡ "") × ((normalize zero_platform).architecture ≡ "")
unfolding normalize normal_os normal_arch
zero-normal = (refl, refl)

favour_wins :
    (host target prev : String) (agree differ : Bool)
    → prev ≢ target
    → target ≡ host
    → favour host target prev agree differ ≡ true
unfolding favour
favour_wins host target prev agree differ n e =
    ground (arith, eq_iff prev target, eq_iff target host)

favour_open :
    (host target prev : String)
    → (prev ≡ host → target ≡ host)
    → favour host target prev true true ≡ true
unfolding favour
favour_open host target prev f = ground (arith, eq_iff target host, eq_iff prev host)

no_system : (◌≢◌ {A = String} "" "windows") × (◌≢◌ {A = String} "" "darwin")
no_system = (λ e. cc ((eq_iff "" "windows").1 e), λ e. cc ((eq_iff "" "darwin").1 e))

better_than-first :
    (host target first : Platform)
    → first.os ≡ ""
    → first.architecture ≡ ""
    → host.architecture ≢ ""
    → host.architecture ≡ target.architecture
    → (host.os ≡ target.os)
      ⊎ ((target.os ≡ "linux") × ((host.os ≡ "windows") ⊎ (host.os ≡ "darwin")))
    → better_than host target first ≡ true
unfolding better_than
better_than-first host target first os arch n e s =
    rw
      (favour_wins host.architecture target.architecture first.architecture _ _
        (λ q. n (e ∙ sym q ∙ arch)) (sym e))
      (favour_open host.os target.os first.os (λ q. ground (arith, no_system)))

-- A target that the host can run is better than no target.
better-zero :
    (want p : Platform)
    → (normalize want).architecture ≢ ""
    → compatible want p ≡ true
    → better (new_compare want) p zero_platform ≡ true
unfolding better new_compare
better-zero want p n h =
    let (arch, os, _) = compatible-arch want p h in
    let (zero_os, zero_arch) = zero-normal in
    let wins =
      better_than-first (normalize want) (normalize p) (normalize zero_platform) zero_os zero_arch n
        arch os in
    ground (arith, compatible-normalize want p)

filter_matches-In :
    (d : Descriptor) (opt : MatchOpt) (dl : List Descriptor)
    → In d (filter_matches dl opt)
    → In d dl × (match d opt ≡ true)
unfolding filter_matches
filter_matches-In d opt [] h = elim h [ ]
filter_matches-In d opt (x ∷ dl) h = elim (Bool-cases (match x opt)) [
  | inl hit ↦ elim (kept hit) [
    | inl e ↦ (inl e, rw e hit)
    | inr m ↦ let (i, q) = filter_matches-In d opt dl m in (inr i, q)
  ]
  | inr miss ↦
      let (i, q) = filter_matches-In d opt dl (rw (miss, filter_matches) at h) in (inr i, q)
]
  where
    kept : match x opt ≡ true → In d (x ∷ filter_matches dl opt)
    kept hit = rw (hit, filter_matches) at h

In-filter_matches :
    (d : Descriptor) (opt : MatchOpt) (dl : List Descriptor)
    → In d dl
    → match d opt ≡ true
    → In d (filter_matches dl opt)
unfolding filter_matches
In-filter_matches d opt [] h q = elim h [ ]
In-filter_matches d opt (x ∷ dl) (inl e) q = rw (sym e ∙ refl) (rw q (inl refl))
In-filter_matches d opt (x ∷ dl) (inr m) q = elim (Bool-cases (match x opt)) [
  | inl hit ↦ rw hit (inr (In-filter_matches d opt dl m q))
  | inr miss ↦ rw miss (In-filter_matches d opt dl m q)
]

platform-compatible :
    (want p prev : Platform) (x : Descriptor)
    → x.platform ≡ some p
    → better (new_compare want) p prev ≡ true
    → match_platforms (some want) x.platform ≡ true
unfolding match_platforms
platform-compatible want p prev x e b = rw e (better-compatible want p prev b)

-- The scan returns what it holds, or an entry of the list that the host can run.
scan-In :
    (want : Platform) (dl : List Descriptor) (ret : Option Descriptor) (prev : Platform)
    (d : Descriptor)
    → scan (new_compare want) dl ret prev ≡ some d
    → (ret ≡ some d) ⊎ (In d dl × (match_platforms (some want) d.platform ≡ true))
unfolding scan
scan-In want [] ret prev d h = inl h
scan-In want (x ∷ dl) ret prev d h = elim (Option-cases x.platform) [
  | inl no_platform ↦ later ret (scan-In want dl ret prev d (rw (no_platform, scan) at h))
  | inr (p, e) ↦ elim (Bool-cases (better (new_compare want) p prev)) [
    | inl wins ↦ elim (scan-In want dl (some x) p d (rw wins at (rw (e, scan) at h))) [
      | inl at_x ↦
          let same = sym (some-injective at_x) in
          inr (inl same, rw same (platform-compatible want p prev x e wins))
      | inr (m, q) ↦ inr (inr m, q)
    ]
    | inr loses ↦ later ret (scan-In want dl ret prev d (rw loses at (rw (e, scan) at h)))
  ]
]
  where
    later :
        (r : Option Descriptor)
        → (r ≡ some d) ⊎ (In d dl × (match_platforms (some want) d.platform ≡ true))
        → (r ≡ some d) ⊎ (In d (x ∷ dl) × (match_platforms (some want) d.platform ≡ true))
    later r (inl q) = inl q
    later r (inr (m, q)) = inr (inr m, q)

scan-some :
    (comp : Compare) (dl : List Descriptor) (r : Descriptor) (prev : Platform)
    → (r' : Descriptor) × (scan comp dl (some r) prev ≡ some r')
unfolding scan
scan-some comp [] r prev = (r, refl)
scan-some comp (x ∷ dl) r prev = elim (Option-cases x.platform) [
  | inl no_platform ↦ let (r', s) = scan-some comp dl r prev in (r', rw (no_platform, scan) s)
  | inr (p, e) ↦ elim (Bool-cases (better comp p prev)) [
    | inl wins ↦ let (r', s) = scan-some comp dl x p in (r', ground (arith, e, wins, s))
    | inr loses ↦ let (r', s) = scan-some comp dl r prev in (r', rw (e, scan) (rw loses s))
  ]
]

-- An entry that the host can run is enough for the scan to find one.
scan-found :
    (want : Platform) (dl : List Descriptor) (d : Descriptor)
    → (normalize want).architecture ≢ ""
    → In d dl
    → match_platforms (some want) d.platform ≡ true
    → (r : Descriptor) × (scan (new_compare want) dl none zero_platform ≡ some r)
unfolding scan match_platforms
scan-found want [] d n m q = elim m [ ]
scan-found want (x ∷ dl) d n m q = elim (Option-cases x.platform) [
  | inl no_platform ↦ elim m [
    | inl e ↦ absurd (cc (rw no_platform at (rw e at q)))
    | inr m' ↦ let (r, s) = scan-found want dl d n m' q in (r, rw (no_platform, scan) s)
  ]
  | inr (p, e) ↦ elim (Bool-cases (better (new_compare want) p zero_platform)) [
    | inl wins ↦ let (r, s) = scan-some (new_compare want) dl x p in (r, ground (arith, e, wins, s))
    | inr loses ↦ elim m [
      | inl at_x ↦
          let runs : compatible want p ≡ true = rw e at (rw at_x at q) in
          absurd (cc (better-zero want p n runs))
      | inr m' ↦ let (r, s) = scan-found want dl d n m' q in (r, rw (e, scan) (rw loses s))
    ]
  ]
]

choose-In :
    (l : List Descriptor) (want : Option Platform) (d : Descriptor)
    → choose l want ≡ ok d
    → In d l × (match_platforms want d.platform ≡ true)
unfolding choose match_platforms
choose-In [] want d h = cc
choose-In (x ∷ l) none d h = (inl (ground arith), refl)
choose-In (x ∷ l) (some want) d h =
    elim (Option-cases (scan (new_compare want) (x ∷ l) none zero_platform)) [
      | inl nothing ↦ cc (rw (nothing, choose) at h)
      | inr (r, found) ↦
          elim (scan-In want (x ∷ l) none zero_platform d
            (found ∙ same r (rw (found, choose) at h))) [ inl absent ↦ cc | inr there ↦ there ]
    ]
  where
    same : (r : Descriptor) → ok r ≡ ok d → some r ≡ some d
    same r e = cc

-- The normalized platform names an architecture, if there is one.
abbrev pub NamesArch : Option Platform → Type 0
NamesArch none = Unit
NamesArch (some want) = (normalize want).architecture ≢ ""

choose-found :
    (l : List Descriptor) (want : Option Platform) (d : Descriptor)
    → NamesArch want
    → In d l
    → match_platforms want d.platform ≡ true
    → (r : Descriptor) × (choose l want ≡ ok r)
unfolding choose
choose-found [] want d n m q = elim m [ ]
choose-found (x ∷ l) none d n m q = (x, refl)
choose-found (x ∷ l) (some want) d n m q =
    let (r, s) = scan-found want (x ∷ l) d n m q in (r, rw (s, choose))

match-platform :
    (d : Descriptor) (opt : MatchOpt)
    → match d opt ≡ true
    → match_platforms opt.platform d.platform ≡ true
unfolding match
match-platform d opt h = ground arith

match_nothing :
    (m : Option (List (Chars × Chars))) (wanted : List (Chars × Chars))
    → is_empty wanted ≡ true
    → match_annotations m wanted ≡ true
unfolding match_annotations
match_nothing none wanted h = h
match_nothing (some m) [] h = refl
match_nothing (some m) (w ∷ wanted) h = cc

match-parts :
    (d : Descriptor) (opt : MatchOpt)
    → filters opt ≡ false
    → match d opt ≡ match_platforms opt.platform d.platform
unfolding match
match-parts d opt h = ground (arith, match_nothing d.annotations opt.annotations)

module _ (sort : MatchOpt → List Descriptor → List Descriptor)
    (sort_keeps : (opt : MatchOpt) (l : List Descriptor) (d : Descriptor)
      → In d (sort opt l) ↔ In d l) where
  list_filter-In :
      (dl : List Descriptor) (opt : MatchOpt) (d : Descriptor)
      → In d (descriptor_list_filter sort dl opt) ↔ (In d dl × (match d opt ≡ true))
  unfolding descriptor_list_filter
  list_filter-In dl opt d = elim (Bool-cases (is_empty opt.sort_annotation)) [
    | inl unsorted ↦
        rw unsorted (λ m. filter_matches-In d opt dl m, λ q. In-filter_matches d opt dl q.0 q.1)
    | inr sorted ↦ rw sorted (
      λ m. filter_matches-In d opt dl ((sort_keeps opt _ d).0 m),
      λ q. (sort_keeps opt _ d).1 (In-filter_matches d opt dl q.0 q.1),
    )
  ]

  -- A descriptor that the search returns stands in the list and matches all the options, whether the
  -- search filters first or compares platforms only, and however the matches are sorted.
  pub descriptor_list_search-match :
      (dl : List Descriptor) (opt : MatchOpt) (d : Descriptor)
      → descriptor_list_search sort dl opt ≡ ok d
      → In d dl × (match d opt ≡ true)
  unfolding descriptor_list_search
  descriptor_list_search-match dl opt d h = elim (Bool-cases (filters opt)) [
    | inl filtered ↦
        (list_filter-In dl opt d).0
          (choose-In (descriptor_list_filter sort dl opt) opt.platform d (rw filtered at h)).0
    | inr plain ↦
        let (m, q) = choose-In dl opt.platform d (rw plain at h) in (m, match-parts d opt plain ∙ q)
  ]

  -- The search finds something whenever an entry of the list matches the options, if the platform
  -- asked for, where there is one, names an architecture.
  pub descriptor_list_search-found :
      (dl : List Descriptor) (opt : MatchOpt) (d : Descriptor)
      → In d dl
      → match d opt ≡ true
      → NamesArch opt.platform
      → (r : Descriptor) × (descriptor_list_search sort dl opt ≡ ok r)
  unfolding descriptor_list_search
  descriptor_list_search-found dl opt d m q n = elim (Bool-cases (filters opt)) [
    | inl filtered ↦
        let l = descriptor_list_filter sort dl opt in
        let (r, s) =
          choose-found l opt.platform d n ((list_filter-In dl opt d).1 (m, q))
            (match-platform d opt q) in
        (r, rw filtered s)
    | inr plain ↦
        let (r, s) = choose-found dl opt.platform d n m (match-platform d opt q) in (r, rw plain s)
  ]
