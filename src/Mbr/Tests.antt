-- ===== src/Mbr/Tests.antt =====
-- A sector whose second entry is in use.
use curls.Prelude.{ℕ, ◌+◌, ◌≡◌, refl, ◌&&◌, ◌++◌, some, List, [], ◌∷◌, arith}
use curls.Prelude.Tests.{ltb}
use curls.Prelude.Lists.{replicate}
use curls.Mbr.{Partition, partitions, entry, is_used, scan}
use curls.Mbr.Scan.{Ascending, has_index, scan-table}

abbrev sector : List ℕ
sector =
    replicate 462 0
    ++ (0 ∷ 0 ∷ 0 ∷ 0 ∷ 12 ∷ 0 ∷ 0 ∷ 0 ∷ 0 ∷ 8 ∷ 0 ∷ 0 ∷ 0 ∷ 1 ∷ 0 ∷ 0 ∷ [])
    ++ replicate 32 0
    ++ (85 ∷ 170 ∷ [])

scan-table_example :
    (ps : List Partition) × (scan 4 (some sector) ≡ partitions ps)
    × Ascending sector 0 4 ps
    × ((j : ℕ) → has_index (j + 1) ps ≡ (ltb j 4 && is_used (entry sector j)))
scan-table_example = scan-table 4 sector (omega arith) refl refl
