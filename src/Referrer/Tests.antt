-- ===== src/Referrer/Tests.antt =====
-- A signature that is added to a list of referrers, and an instance of the theorem.
use regclient.Base.{◌≡◌, refl, true, none, [], ◌∷◌}
use regclient.Base.Int.{pos}
use regclient.Base.Text.{codes, chars_eq}
use regclient.Errs.{err, ok, not_found}
use regclient.Descriptor.{Descriptor}
use regclient.Referrer.{Manifest, image, has_digest, pull_up, remove_digest, delete, is_empty_list}
use regclient.Referrer.RoundTrip.{managed, delete-add}

abbrev sbom : Descriptor
sbom = record {
  media_type = [];
  digest = codes "sha256:aa";
  size = pos 9;
  urls = none;
  annotations = none;
  content = [];
  platform = none;
  artifact_type = [];
}

abbrev signature : Manifest
signature = record {
  desc = record sbom { digest = codes "sha256:bb" };
  orig = image none [] (codes "application/sig");
}

abbrev listed : Descriptor
listed = record sbom { digest = codes "sha256:bb"; artifact_type = codes "application/sig" }

delete_missing : (delete (λ ds. none) (managed (sbom ∷ [])) signature).0 ≡ err not_found
unfolding delete has_digest remove_digest chars_eq
delete_missing = refl

empty_list : is_empty_list (managed []) ≡ true
unfolding is_empty_list
empty_list = refl

delete-add_example :
    delete (λ ds. none) (managed (sbom ∷ listed ∷ [])) signature ≡ (ok tt, managed (sbom ∷ []))
unfolding pull_up has_digest chars_eq
delete-add_example =
    (delete-add (λ ds. none) (managed (sbom ∷ [])) (sbom ∷ []) signature listed refl refl refl refl
      refl).2
