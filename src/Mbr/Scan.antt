-- ===== src/Mbr/Scan.antt =====
-- What the scan of the partition table gives.
use curls.Prelude.{
  ℕ, zero, suc, ◌+◌, ◌<◌, ◌≤◌, ◌≡◌, refl, ap, ◌∙◌, some, ◌*◌, ◌^◌, inl, inr, Bool, true, false,
  ◌&&◌, ◌||◌, List, [], ◌∷◌, arith,
}
use curls.Prelude.Tests.{ltb, leb, ◌==◌, Bool-cases}
use curls.Prelude.Lists.{length}
use curls.Mbr.{
  Partition, partitions, byte, entry, is_used, is_jump, is_fat_at, scan_entries, scan_sector, scan,
}

-- The list has the index in the table among its members.
abbrev pub has_index : ℕ → List Partition → Bool
has_index i [] = false
has_index i (p ∷ ps) = (p.index == i) || has_index i ps

-- From the number `i` on, each is an entry in use, and the numbers go up, below `e`.
abbrev pub Ascending : List ℕ → ℕ → ℕ → List Partition → Type 0
Ascending bytes i e [] = i ≤ e
Ascending bytes i e (p ∷ ps) =
    (j : ℕ) × (i ≤ j)
    × (j < e)
    × (p ≡ entry bytes j)
    × (is_used (entry bytes j) ≡ true)
    × Ascending bytes (j + 1) e ps

Ascending-weaken :
    (bytes : List ℕ) (i e : ℕ) (ps : List Partition)
    → Ascending bytes (i + 1) e ps
    → Ascending bytes i e ps
Ascending-weaken bytes i e [] h = omega arith
Ascending-weaken bytes i e (p ∷ ps) (j, from, below, same, used, rest) =
    (j, omega arith, below, same, used, rest)

scan_entries-Ascending :
    (k room i e : ℕ) (bytes : List ℕ)
    → i + k ≡ e
    → Ascending bytes i e (scan_entries k room i bytes)
      × (length (scan_entries k room i bytes) ≤ room)
unfolding scan_entries
scan_entries-Ascending zero room i e bytes h = (omega arith, omega arith)
scan_entries-Ascending (suc k) zero i e bytes h = (omega arith, omega arith)
scan_entries-Ascending (suc k) (suc room) i e bytes h =
    elim (Bool-cases (is_used (entry bytes i))) [
      | inl u ↦
          let r = scan_entries-Ascending k room (i + 1) e bytes (omega arith) in
          rw u ((i, omega arith, omega arith, refl, u, r.0), omega (arith, r.1))
      | inr u ↦
          let r = scan_entries-Ascending k (suc room) (i + 1) e bytes (omega arith) in
          rw u (Ascending-weaken bytes i e (scan_entries k (suc room) (i + 1) bytes) r.0, r.1)
    ]

has_index-scan_entries :
    (k room i j : ℕ) (bytes : List ℕ)
    → k ≤ room
    → has_index (j + 1) (scan_entries k room i bytes)
      ≡ (leb i j && (ltb j (i + k) && is_used (entry bytes j)))
unfolding scan_entries
has_index-scan_entries zero room i j bytes h = ground arith
has_index-scan_entries (suc k) zero i j bytes h = absurd (omega arith)
has_index-scan_entries (suc k) (suc room) i j bytes h =
    elim (Bool-cases (is_used (entry bytes i))) [
      | inl u ↦
          let rest = has_index-scan_entries k room (i + 1) j bytes (omega arith) in
          rw (u, rest)
            (elim (Bool-cases (i == j)) [
              | inl same ↦
                  let there : j ≡ i = ground arith in
                  let used : is_used (entry bytes j) ≡ true =
                    ap (λ n. is_used (entry bytes n)) there ∙ u in
                  rw used (ground arith)
              | inr other ↦ step (is_used (entry bytes j)) i j k other
            ])
      | inr u ↦
          let rest = has_index-scan_entries k (suc room) (i + 1) j bytes (omega arith) in
          rw (u, rest)
            (elim (Bool-cases (i == j)) [
              | inl same ↦
                  let there : j ≡ i = ground arith in
                  let free : is_used (entry bytes j) ≡ false =
                    ap (λ n. is_used (entry bytes n)) there ∙ u in
                  rw free (ground arith)
              | inr other ↦ skip (is_used (entry bytes j)) i j k other
            ])
    ]
  where
    step :
        (b : Bool) (i j k : ℕ)
        → (i == j) ≡ false
        → ((i + 1 == j + 1) || (leb (i + 1) j && (ltb j (i + 1 + k) && b)))
          ≡ (leb i j && (ltb j (i + suc k) && b))
    step b i j k h = ground arith

    skip :
        (b : Bool) (i j k : ℕ)
        → (i == j) ≡ false
        → (leb (i + 1) j && (ltb j (i + 1 + k) && b)) ≡ (leb i j && (ltb j (i + suc k) && b))
    skip b i j k h = ground arith

-- A sector with the signature 0xAA55 and without the marks of a FAT boot sector, and room for at
-- least 4 partitions: `mbr_scan` gives the used entries of the table, all of them and no other, in
-- the order of the table, with their numbers from 1 to 4.
pub scan-table :
    (max : ℕ) (bytes : List ℕ)
    → 4 ≤ max
    → (byte bytes 510 + byte bytes 511 * 2 ^ 8 == 43605) ≡ true
    → (is_jump bytes && (is_fat_at bytes 54 || is_fat_at bytes 82)) ≡ false
    → (ps : List Partition) × (scan max (some bytes) ≡ partitions ps)
      × Ascending bytes 0 4 ps
      × ((j : ℕ) → has_index (j + 1) ps ≡ (ltb j 4 && is_used (entry bytes j)))
unfolding scan scan_sector
scan-table max bytes room sig plain =
    let some_room : (max == 0) ≡ false = ground arith in
    (
      scan_entries 4 max 0 bytes,
      rw (some_room, sig, plain) refl,
      (scan_entries-Ascending 4 max 0 4 bytes refl).0,
      λ j. has_index-scan_entries 4 max 0 j bytes room ∙ ground arith,
    )
