-- ===== src/Strparse/Tests.antt =====
-- Runs of `SplitCSKV`, and instances of its theorems.
use regclient.Base.{◌≡◌, refl, false, List, [], ◌∷◌}
use regclient.Base.Text.{Chars, codes, chars_eq}
use regclient.Errs.{ok, err, is_ok, parsing_failed}
use regclient.Strparse.{split_cskv, add_entry}
use regclient.Strparse.Balance.{is_closed, split_cskv-is_closed}
use regclient.Strparse.RoundTrip.{render, collect, split_cskv-render}

abbrev os_entries : List (Chars × Chars)
os_entries = (codes "osver", codes "10,0") ∷ (codes "a=b", codes "") ∷ []

split_run :
    split_cskv (codes "a=1,\"b,c\"=x\\,y,")
    ≡ ok ((codes "a", codes "1") ∷ (codes "b,c", codes "x,y") ∷ [])
unfolding split_cskv add_entry chars_eq
split_run = refl

split_open_quote : split_cskv (codes "a=\"1") ≡ err parsing_failed
unfolding split_cskv add_entry chars_eq
split_open_quote = refl

split_cskv-render_example : split_cskv (render os_entries) ≡ ok (collect [] os_entries)
split_cskv-render_example = split_cskv-render os_entries

split_cskv-is_closed_example :
    is_ok (split_cskv (codes "a=\"1\",b\\")) ≡ is_closed false false (codes "a=\"1\",b\\")
split_cskv-is_closed_example = split_cskv-is_closed (codes "a=\"1\",b\\")
