-- ===== src/Upload/Tests.antt =====
-- Registries that follow the protocol and that do not, and instances of the theorems on them.
use regclient.Base.{
  ℕ, ◌+◌, ◌-◌, ◌≡◌, refl, ap, inl, inr, false, ◌&&◌, none, some, List, [], ◌∷◌, ◌++◌, arith, ◌==◌,
  if◌then◌else◌, length, take,
}
use regclient.Base.Int.{pos, atoi, number, digits}
use regclient.Base.Text.{Chars, codes}
use regclient.Errs.{ok}
use regclient.Descriptor.{Descriptor}
use regclient.Upload.Chunks.{refill, fill, shift, renew, zeros}
use regclient.Upload.{
  Server, Patch, Headers, Answer, answered, after_dash, upload_cur_bytes, put_result, react, follow,
  send, turn, loop, finish, put_upload_chunked,
}
use regclient.Upload.Honest.{IsHonest}
use regclient.Upload.Delivers.{put_upload_chunked-delivers}
use regclient.Upload.Endless.{IsFull, put_upload_chunked-none}

abbrev blob : List ℕ
blob = 5 ∷ 6 ∷ 7 ∷ 8 ∷ 9 ∷ []

abbrev url : Chars
url = codes "/u"

-- The digest of a content is the content itself here.
abbrev digest : List ℕ → Chars
digest xs = xs

abbrev target : Descriptor
target = record {
  media_type = [];
  digest = [];
  size = pos 5;
  urls = none;
  annotations = none;
  content = [];
  platform = none;
  artifact_type = [];
}

abbrev no_headers : Headers
no_headers = record { request_url = url; location = []; range = [] }

abbrev with_digest : Chars → Chars → Chars
with_digest u d = u ++ d

-- A registry that keeps every chunk, and tells nothing.
abbrev keeps_all : Server (List ℕ)
keeps_all = record {
  patch = λ s p. (s ++ take p.body_len p.body, answered 202 no_headers);
  status = λ s u. (s, ok no_headers);
  put = λ s u. (s, ok 201);
  resolve = λ u l. some l;
  with_digest = with_digest;
}

-- A registry that keeps two bytes of a chunk at most, and refuses the chunks at odd offsets that it
-- sees for the first time.
range_to : ℕ → Chars
range_to n = codes "0-" ++ (b'0' + (n - 1)) ∷ []

keeps_two : List ℕ × ℕ → Patch → (List ℕ × ℕ) × Answer
keeps_two s p =
    if p.first == 2 && s.1 == 0
    then (
      (s.0, 1),
      answered 416 (record { request_url = url; location = url; range = range_to (length s.0) }),
    )
    else (let s' = s.0 ++ take 2 p.body in
        (
          (s', s.1),
          answered 202 (record { request_url = url; location = []; range = range_to (length s') }),
        ))

abbrev in_parts : Server (List ℕ × ℕ)
in_parts = record {
  patch = keeps_two;
  status = λ s u. (s, ok no_headers);
  put = λ s u. (s, ok 201);
  resolve = λ u l. some l;
  with_digest = with_digest;
}

uploads_in_parts :
    put_upload_chunked in_parts digest (λ d. false) 9 target 3 url blob none ([], 0)
    ≡ some ((blob, 1), ok (record target { digest = blob }))
unfolding put_upload_chunked loop turn fill refill shift renew send react follow finish zeros
    upload_cur_bytes after_dash atoi number digits keeps_two range_to
uploads_in_parts = refl

keeps_all-IsHonest : IsHonest keeps_all (λ s. s) (λ s. 0)
unfolding follow upload_cur_bytes after_dash
keeps_all-IsHonest = record {
  replies = λ s p e n h. record {
    kept = p.body_len;
    answer = record {
      status = 202;
      headers = no_headers;
      url = p.url;
      answers = refl;
      accepts = inr (inl refl);
      tells = refl;
      leads = refl;
    };
    keeps = refl;
    part = omega arith;
    moves = omega (arith, h);
  };
}

put_upload_chunked-delivers_example :
    (s' : List ℕ) × (url' : Chars) × (s' ≡ blob)
    × (put_upload_chunked keeps_all digest (λ d. false) 7 target 2 url blob none []
        ≡ some (put_result (record target { digest = blob; size = pos 5 }) (s', ok 201)))
put_upload_chunked-delivers_example =
    put_upload_chunked-delivers keeps_all (λ s. s) (λ s. 0) blob keeps_all-IsHonest digest
      (λ d. false) target 7 2 url [] (omega arith) refl (omega arith) (inl refl) (inr refl)

-- A registry with room for one byte.
abbrev full : Headers
full = record { request_url = url; location = url; range = codes "0-0" }

abbrev keeps_one : Server (Unit {0})
keeps_one = record {
  patch = λ s p. (s, answered 416 full);
  status = λ s u. (s, ok full);
  put = λ s u. (s, ok 201);
  resolve = λ u l. some l;
  with_digest = with_digest;
}

keeps_one-IsFull : IsFull keeps_one 1
unfolding follow upload_cur_bytes after_dash atoi number digits
keeps_one-IsFull = record {
  replies = λ s p h n. record {
    status = 416;
    headers = full;
    url = url;
    answers = refl;
    accepts = inr (inr refl);
    tells = ap some (omega (arith, h, n));
    leads = refl;
  };
}

put_upload_chunked-none_example :
    put_upload_chunked keeps_one digest (λ d. false) 1000 target 3 url blob none tt ≡ none
put_upload_chunked-none_example =
    put_upload_chunked-none keeps_one blob 1 keeps_one-IsFull (omega arith) digest (λ d. false)
      target 1000 3 url tt (omega arith)
