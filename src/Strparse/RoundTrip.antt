-- ===== src/Strparse/RoundTrip.antt =====
-- Reading back a list of entries that was written with escapes.
use mathlib.Core.List.{append-nil, append_assoc}
use regclient.Base.{◌≡◌, refl, ◌||◌, List, [], ◌∷◌, ◌++◌, arith, ◌==◌, if◌then◌else◌}
use regclient.Base.Text.{Chars}
use regclient.Errs.{ok}
use regclient.Strparse.{State, in_key, in_val, Parser, add_entry, start, run, split_cskv}

-- A backslash before each character that `SplitCSKV` treats specially.
unfoldable pub escape : Chars → Chars
escape [] = []
escape (c ∷ cs) =
    let rest = escape cs in
    if c == b'"' || c == b'\\' || c == b'=' || c == b',' then b'\\' ∷ c ∷ rest else c ∷ rest

-- Entries as text: escaped key, equal sign, escaped value; commas between entries.
unfoldable pub render : List (Chars × Chars) → Chars
unfolding escape
render [] = []
render ((k, v) ∷ []) = escape k ++ (b'=' ∷ escape v)
render ((k, v) ∷ e ∷ es) = escape k ++ (b'=' ∷ (escape v ++ (b',' ∷ render (e ∷ es))))

-- The map that the entries make, from left to right.
unfoldable pub collect : List (Chars × Chars) → List (Chars × Chars) → List (Chars × Chars)
unfolding add_entry
collect m [] = m
collect m ((k, v) ∷ es) = collect (add_entry k v m) es

abbrev at : State → Chars → Chars → List (Chars × Chars) → Parser
at s k v m = record { state = s; key = k; val = v; result = m }

run-key :
    (k rest k' v : Chars) (m : List (Chars × Chars))
    → run (at in_key k' v m) (escape k ++ rest) ≡ run (at in_key (k' ++ k) v m) rest
unfolding run escape
run-key [] rest k' v m = rw append-nil
run-key (c ∷ cs) rest k' v m =
    ground (arith, run-key cs rest (k' ++ c ∷ []) v m, append_assoc k' (c ∷ []) cs)

run-val :
    (w rest k v : Chars) (m : List (Chars × Chars))
    → run (at in_val k v m) (escape w ++ rest) ≡ run (at in_val k (v ++ w) m) rest
unfolding run escape
run-val [] rest k v m = rw append-nil
run-val (c ∷ cs) rest k v m =
    ground (arith, run-val cs rest k (v ++ c ∷ []) m, append_assoc v (c ∷ []) cs)

run-render :
    (es : List (Chars × Chars)) (m : List (Chars × Chars))
    → run (start m) (render es) ≡ ok (collect m es)
unfolding run render collect
run-render [] m = refl
run-render ((k, v) ∷ []) m =
    rw (run-key k (b'=' ∷ escape v) [] [] m, ← append-nil (escape v), run-val v [] k [] m)
run-render ((k, v) ∷ e ∷ es) m =
    rw run-key
      (rw (run-val v (b',' ∷ render (e ∷ es)) k [] m) (run-render (e ∷ es) (add_entry k v m)))

-- Whatever characters its keys and values hold, a list of entries that is written with escapes is
-- read back as the map of its entries with a non-empty key, the later entry winning.
pub split_cskv-render : (es : List (Chars × Chars)) → split_cskv (render es) ≡ ok (collect [] es)
unfolding split_cskv
split_cskv-render es = run-render es []
