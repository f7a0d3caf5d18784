-- ===== src/Fat/Tests.antt =====
-- A device of sectors in memory: the table starts at sector 10, and cluster 5 is the first free one.
use curls.Prelude.{ℕ, ◌*◌, ◌<◌, ◌≡◌, ◌⊎◌, refl, Option, some, List, ◌∷◌, arith}
use curls.Prelude.Tests.{◌==◌, if◌then◌else◌}
use curls.Prelude.Lists.{replicate}
use curls.Prelude.Store.{update}
use curls.Fat.{low28, get_next_cluster, set_cluster, find_free_cluster}
use curls.Fat.Entry.{IsDevice, get-set_cluster}
use curls.Fat.Free.{AllUsed, LowestFree, find_free_cluster-LowestFree}

abbrev disk_read : (ℕ → List ℕ) → ℕ → Option (List ℕ)
disk_read d s = some (d s)

abbrev disk_write : (ℕ → List ℕ) → ℕ → List ℕ → ℕ → List ℕ
unfolding update
disk_write d s words = update d s words

abbrev sector : List ℕ
sector = 7 ∷ 7 ∷ 3 ∷ 4 ∷ 268435455 ∷ replicate 123 0

disk-IsDevice : IsDevice (ℕ → List ℕ) disk_read disk_write
unfolding update
disk-IsDevice = record { written = λ d s words q. ground arith }

get-set_cluster_example :
    get_next_cluster
      (ℕ → List ℕ)
      disk_read
      disk_write
      10
      5
      (set_cluster (ℕ → List ℕ) disk_read disk_write 10 5 9 (λ _. sector))
    ≡ (if 5 == 5
        then low28 9
        else get_next_cluster (ℕ → List ℕ) disk_read disk_write 10 5 (λ _. sector))
get-set_cluster_example =
    get-set_cluster (ℕ → List ℕ) disk_read disk_write disk-IsDevice 10 5 9 (λ _. sector) sector
      (omega arith) refl refl 5 (omega arith)

find_free_cluster-LowestFree_example :
    ((find_free_cluster 10 2 (λ _. some sector) ≡ 0) × AllUsed (λ _. sector) 0 (2 * 128))
    ⊎ ((find_free_cluster 10 2 (λ _. some sector) < 2 * 128)
        × LowestFree (λ _. sector) 0 (find_free_cluster 10 2 (λ _. some sector)))
find_free_cluster-LowestFree_example =
    find_free_cluster-LowestFree 10 2 (λ _. sector) (λ _. some sector) (omega arith) (λ t h. refl)
