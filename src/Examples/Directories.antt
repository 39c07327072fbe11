-- ===== src/Examples/Directories.antt =====
-- The theorems on directory entries (src/filesystem/FD.cc) at concrete inputs.
use lbw.Prelude.{ℕ, ◌-◌, ◌≤◌, ◌≡◌, List, [], ◌∷◌, ◌++◌, Option, none, some, length, drop, arith}
use lbw.Prelude.Results.{ok}
use lbw.Dirents.{Stat, DirData, Written, compat_format, get_dents}
use lbw.Dirents.Packing.{total, listing, Stops, get_dents_lem}

-- A directory of three names, of which the empty one cannot be examined.
abbrev some_dir : DirData
some_dir = record { pos = 0; contents = (97 ∷ []) ∷ [] ∷ (98 ∷ 99 ∷ []) ∷ [] }

abbrev some_stat : List ℕ → Option Stat
some_stat [] = none
some_stat (c ∷ cs) = some (record { st_ino = c; st_mode = 0 })

get_dents_example :
    (w : Written) × (d' : DirData) × (get_dents compat_format some_stat (some some_dir) 20
      ≡ ok (w, d'))
    × (w.bytes ≤ 20)
    × (w.bytes ≡ total compat_format w.records)
    × (some_dir.pos ≤ d'.pos)
    × (d'.pos ≤ length some_dir.contents)
    × (d'.contents ≡ some_dir.contents)
    × Stops compat_format some_stat (20 - w.bytes) (drop d'.pos some_dir.contents)
    × (w.records ++ listing compat_format some_stat d'.pos (drop d'.pos d'.contents)
        ≡ listing compat_format some_stat some_dir.pos (drop some_dir.pos some_dir.contents))
get_dents_example = get_dents_lem compat_format some_stat some_dir 20 (omega arith)
