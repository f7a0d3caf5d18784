-- ===== src/Mbr.antt =====
-- kernel/modules/partition/mbr.c: the partition table in the first sector of a disk, as the list of
-- its 512 bytes.
pub mod Scan
mod Tests
use curls.Prelude.{
  ℕ, zero, suc, ◌+◌, ◌*◌, ◌^◌, Bool, true, false, ◌&&◌, ◌||◌, Option, none, some, List, [], ◌∷◌,
}
use curls.Prelude.Tests.{not, ltb, ◌==◌, if◌then◌else◌}
use curls.Prelude.Lists.{get_or}

-- `kabi_partition_t` without `found`, which is always set.
pub record Partition : Type 0 where
  pub start_lba : ℕ
  pub sector_count : ℕ
  pub kind : ℕ
  pub index : ℕ

-- What `mbr_scan` returns: a count with the partitions, or an error.
pub data Found : Type 0 where
  partitions : List Partition → Found
  invalid io_error no_entry : Found

abbrev pub byte : List ℕ → ℕ → ℕ
byte bytes i = get_or bytes i 0

abbrev pub le32 : List ℕ → ℕ → ℕ
le32 bytes i =
    byte bytes i
    + byte bytes (i + 1) * 2 ^ 8
    + byte bytes (i + 2) * 2 ^ 16
    + byte bytes (i + 3) * 2 ^ 24

-- The entry `i` of the table, which starts at byte 446.
abbrev pub entry : List ℕ → ℕ → Partition
entry bytes i = record {
  start_lba = le32 bytes (446 + i * 16 + 8);
  sector_count = le32 bytes (446 + i * 16 + 12);
  kind = byte bytes (446 + i * 16 + 4);
  index = i + 1;
}

-- `p->type != 0 && p->sector_count > 0`
abbrev pub is_used : Partition → Bool
is_used p = not (p.kind == 0) && ltb 0 p.sector_count

-- `for (int i = …; i < 4 && found_count < max_parts; i++)`, with the rounds and the room left.
pub scan_entries : ℕ → ℕ → ℕ → List ℕ → List Partition
scan_entries zero room i bytes = []
scan_entries (suc k) zero i bytes = []
scan_entries (suc k) (suc room) i bytes =
    let taken = scan_entries k room (i + 1) bytes in
    let rest = scan_entries k (suc room) (i + 1) bytes in
    if is_used (entry bytes i) then entry bytes i ∷ taken else rest

-- 0xEB or 0xE9
abbrev pub is_jump : List ℕ → Bool
is_jump bytes = (byte bytes 0 == 235) || (byte bytes 0 == 233)

-- `memory_compare(buffer + i, "FAT", 3) == 0`
abbrev pub is_fat_at : List ℕ → ℕ → Bool
is_fat_at bytes i =
    (byte bytes i == 70) && ((byte bytes (i + 1) == 65) && (byte bytes (i + 2) == 84))

-- The label `fallback`: the whole disk as one partition of the kind FAT32 with LBA.
pub fallback : List ℕ → Found
fallback bytes =
    if is_jump bytes
    then partitions (record { start_lba = 0; sector_count = 0; kind = 12; index = 0 } ∷ [])
    else no_entry

pub scan_sector : ℕ → Option (List ℕ) → Found
unfolding scan_entries fallback
scan_sector max none = io_error
scan_sector max (some bytes) =
    if not (byte bytes 510 + byte bytes 511 * 2 ^ 8 == 43605)
    then fallback bytes
    else if is_jump bytes && (is_fat_at bytes 54 || is_fat_at bytes 82)
    then fallback bytes
    else partitions (scan_entries 4 max 0 bytes)

-- `mbr_scan` with what the device reads at sector 0, and room for `max` partitions.
pub scan : ℕ → Option (List ℕ) → Found
unfolding scan_sector
scan max sector = if max == 0 then invalid else scan_sector max sector

-- `parts[i].type == PARTITION_TYPE_FAT32_CHS || … LBA`
abbrev pub is_fat32 : Partition → Bool
is_fat32 p = (p.kind == 11) || (p.kind == 12)

pub first_fat32 : List Partition → Option Partition
first_fat32 [] = none
first_fat32 (p ∷ ps) = if is_fat32 p then some p else first_fat32 ps

pub first_of : Found → Option Partition
unfolding first_fat32
first_of (partitions ps) = first_fat32 ps
first_of invalid = none
first_of io_error = none
first_of no_entry = none

-- `mbr_find_fat32`, where every error is none.
pub find_fat32 : Option (List ℕ) → Option Partition
unfolding scan first_of
find_fat32 sector = first_of (scan 4 sector)
