-- ===== src/Fat/Entry.antt =====
-- Writing an entry and reading it back.
use curls.Prelude.{
  ℕ, ◌+◌, ◌*◌, ◌/◌, ◌^◌, ◌<◌, ◌≡◌, ◌≢◌, refl, sym, ap, ◌∙◌, inl, inr, true, Option, some, List,
  arith,
}
use curls.Prelude.Tests.{◌==◌, if◌then◌else◌, Bool-cases}
use curls.Prelude.Lists.{length, get_or, set, get_or-set_self, get_or-set_ne}
use curls.Fat.{
  low28, sector_of, entry_of, get_next_cluster, set_cluster, entry_in, write_entry, merge,
}

-- What the development asks of a device at the sectors of a table: a read gives 128 words, and gives
-- back what was written.
pub record IsDevice (D : Type 0) (block_read : D → ℕ → Option (List ℕ))
    (block_write : D → ℕ → List ℕ → D) : Type 0 where
  pub written :
      (d : D) (s : ℕ) (words : List ℕ) (q : ℕ)
      → block_read (block_write d s words) q ≡ (if q == s then some words else block_read d q)

low28-merge : (old value : ℕ) → low28 (old / 2 ^ 28 * 2 ^ 28 + low28 value) ≡ low28 value
low28-merge old value = omega arith

-- Two clusters with one sector and one entry in it are the same.
same_place :
    (start a b : ℕ)
    → a < 2 ^ 30
    → b < 2 ^ 30
    → sector_of start a ≡ sector_of start b
    → entry_of a ≡ entry_of b
    → a ≡ b
same_place start a b ha hb s e = omega arith

-- On a device that keeps what is written, where the sector of the cluster can be read and has 128
-- words: after `fat32_set_cluster` the cluster has the low 28 bits of the value as its next one, and
-- every other cluster has the next one that it had. Cluster numbers are below 2 ^ 30, since the
-- code takes 4 times the number in 32 bits.
pub get-set_cluster :
    (D : Type 0) (block_read : D → ℕ → Option (List ℕ)) (block_write : D → ℕ → List ℕ → D)
    → IsDevice D block_read block_write
    → (start cluster value : ℕ) (d : D) (words : List ℕ) → cluster < 2 ^ 30
    → block_read d (sector_of start cluster) ≡ some words
    → length words ≡ 128
    → (c : ℕ) → c < 2 ^ 30
    → get_next_cluster D block_read block_write start c
        (set_cluster D block_read block_write start cluster value d)
      ≡ (if c == cluster then low28 value else get_next_cluster D block_read block_write start c d)
unfolding get_next_cluster set_cluster entry_in write_entry merge
get-set_cluster D block_read block_write dev start cluster value d words h found len c hc =
    let i : entry_of cluster < length words = omega (arith, len) in
    let new = get_or words (entry_of cluster) 0 / 2 ^ 28 * 2 ^ 28 + low28 value in
    let after : set_cluster D block_read block_write start cluster value d
        ≡ block_write d (sector_of start cluster) (set words (entry_of cluster) new) =
      ap
        (λ o.
          write_entry D block_read block_write (sector_of start cluster) (entry_of cluster) value o
            d)
        found in
    let there : block_read
          (block_write d (sector_of start cluster) (set words (entry_of cluster) new))
          (sector_of start c)
        ≡ (if sector_of start c == sector_of start cluster
            then some (set words (entry_of cluster) new)
            else block_read d (sector_of start c)) =
      dev.written d (sector_of start cluster) (set words (entry_of cluster) new)
        (sector_of start c) in
    ap (λ d'. entry_in D block_read block_write (entry_of c) (block_read d' (sector_of start c)))
      after
    ∙ ap (entry_in D block_read block_write (entry_of c)) there
    ∙ elim (Bool-cases (c == cluster)) [
      | inl e ↦
          let same : c ≡ cluster = ground arith in
          let s : (sector_of start c == sector_of start cluster) ≡ true =
            ground (arith, ap (sector_of start) same) in
          rw (e, s)
            (ap low28 (
                ap (λ k. get_or (set words (entry_of cluster) new) (entry_of k) 0) same
                ∙ get_or-set_self words (entry_of cluster) new 0 i)
              ∙ low28-merge (get_or words (entry_of cluster) 0) value)
      | inr e ↦ elim (Bool-cases (sector_of start c == sector_of start cluster)) [
        | inr s ↦ rw (e, s) refl
        | inl s ↦
            let one_sector : sector_of start c ≡ sector_of start cluster = ground arith in
            let apart : entry_of cluster ≢ entry_of c = λ z.
              let both : c ≡ cluster = same_place start c cluster hc h one_sector (sym z) in
              let r : (c == cluster) ≡ true = ground arith in cc in
            let old : block_read d (sector_of start c) ≡ some words =
              ap (block_read d) one_sector ∙ found in
            rw (e, s, old)
              (ap low28 (get_or-set_ne words (entry_of cluster) (entry_of c) new 0 apart))
      ]
    ]
