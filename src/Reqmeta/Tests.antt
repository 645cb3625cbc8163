-- ===== src/Reqmeta/Tests.antt =====
-- Runs of the choice, and an instance of its theorem.
use regclient.Base.{ℕ, ◌≡◌, refl, some, List, [], ◌∷◌, get_elem?}
use regclient.Base.Int.{pos}
use regclient.Reqmeta.{
  Data, manifest, query, blob, is_small, scan_large, cutoff, count_small, count_large, improves,
  scan_small, largest, large_or_old, small_wanted, data_next,
}
use regclient.Reqmeta.Choice.{IsChoice, data_next-IsChoice}

abbrev layer : ℕ → Data
layer n = record { kind = blob; size = pos n }

abbrev queued : List Data
queued =
    layer 50
    ∷ record { kind = query; size = pos 0 }
    ∷ layer 900
    ∷ record { kind = manifest; size = pos 700 }
    ∷ record { kind = manifest; size = pos 600 }
    ∷ []

abbrev active : List Data
active = layer 10 ∷ layer 20 ∷ []

small_first : data_next queued active ≡ pos 4
unfolding data_next small_wanted scan_small count_small is_small improves
small_first = refl

largest_first : data_next (layer 50 ∷ layer 900 ∷ []) active ≡ pos 1
unfolding data_next small_wanted scan_small count_small is_small improves large_or_old largest
    scan_large count_large cutoff
largest_first = refl

data_next-IsChoice_example :
    (k : ℕ) × (d : Data) × (data_next queued active ≡ pos k)
    × (get_elem? queued k ≡ some d)
    × IsChoice queued active k d
data_next-IsChoice_example = (data_next-IsChoice active).1 (layer 50) (
    record { kind = query; size = pos 0 }
    ∷ layer 900
    ∷ record { kind = manifest; size = pos 700 }
    ∷ record { kind = manifest; size = pos 600 }
    ∷ [])
