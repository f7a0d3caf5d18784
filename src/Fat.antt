-- ===== src/Fat.antt =====
-- The file allocation table of kernel/fs/fat32/fat32_fat.c. A sector is the list of its 128
-- little-endian words of 32 bits; the block device is a parameter.
pub mod Entry
pub mod Free
mod Tests
use curls.Prelude.{
  ℕ, zero, suc, ◌+◌, ◌*◌, ◌/◌, ◌%◌, ◌^◌, Bool, true, false, Option, none, some, List, [], ◌∷◌,
}
use curls.Prelude.Tests.{ltb, ◌==◌, if◌then◌else◌}
use curls.Prelude.Lists.{get_or, set}

-- The cluster number that stands for an error or the end of a chain.
abbrev pub end_of_chain : ℕ
end_of_chain = 268435455

-- `x & 0x0FFFFFFF`
abbrev pub low28 : ℕ → ℕ
low28 x = x % 2 ^ 28

-- `fat_lba_start + (fat_offset / 512)` with `fat_offset = cluster * 4` in 32 bits
abbrev pub sector_of : ℕ → ℕ → ℕ
sector_of start cluster = (start + cluster * 4 % 2 ^ 32 / 512) % 2 ^ 32

-- The word of the sector at `fat_offset % 512`.
abbrev pub entry_of : ℕ → ℕ
entry_of cluster = cluster * 4 % 2 ^ 32 % 512 / 4

-- `kabi_block_read`, where an error is none, and `kabi_block_write` on the state of the device.
module _ (D : Type 0) (block_read : D → ℕ → Option (List ℕ))
    (block_write : D → ℕ → List ℕ → D) where
  pub entry_in : ℕ → Option (List ℕ) → ℕ
  entry_in i none = end_of_chain
  entry_in i (some words) = low28 (get_or words i 0)

  -- `fat32_get_next_cluster`
  pub get_next_cluster : ℕ → ℕ → D → ℕ
  unfolding entry_in
  get_next_cluster start cluster d =
      entry_in (entry_of cluster) (block_read d (sector_of start cluster))

  -- `(old_val & 0xF0000000) | (value & 0x0FFFFFFF)`
  pub merge : ℕ → ℕ → ℕ
  merge old value = old / 2 ^ 28 * 2 ^ 28 + low28 value

  pub write_entry : ℕ → ℕ → ℕ → Option (List ℕ) → D → D
  unfolding merge
  write_entry sector i value none d = d
  write_entry sector i value (some words) d =
      block_write d sector (set words i (merge (get_or words i 0) value))

  -- `fat32_set_cluster`
  pub set_cluster : ℕ → ℕ → ℕ → D → D
  unfolding write_entry
  set_cluster start cluster value d =
      write_entry (sector_of start cluster) (entry_of cluster) value
        (block_read d (sector_of start cluster)) d

-- The loop over the entries of one sector, with the rounds that are left.
pub scan_entries : ℕ → ℕ → ℕ → List ℕ → Option ℕ
scan_entries zero s i words = none
scan_entries (suc k) s i words =
    let cluster = (s * 128 + i) % 2 ^ 32 in
    let rest = scan_entries k s (i + 1) words in
    if ltb cluster 2 then rest else if low28 (get_or words i 0) == 0 then some cluster else rest

pub or_rest : Option ℕ → ℕ → ℕ
or_rest (some cluster) rest = cluster
or_rest none rest = rest

pub scan_read : ℕ → ℕ → Option (List ℕ) → ℕ
unfolding scan_entries or_rest
scan_read s rest none = 0
scan_read s rest (some words) = or_rest (scan_entries 128 s 0 words) rest

-- The loop over the sectors, with the rounds that are left; the device as a function.
pub scan_sectors : ℕ → ℕ → ℕ → (ℕ → Option (List ℕ)) → ℕ
unfolding scan_read
scan_sectors zero s start read = 0
scan_sectors (suc k) s start read =
    let rest = scan_sectors k (s + 1) start read in scan_read s rest (read ((start + s) % 2 ^ 32))

-- `fat32_find_free_cluster`; 0 is none or an error.
pub find_free_cluster : ℕ → ℕ → (ℕ → Option (List ℕ)) → ℕ
unfolding scan_sectors
find_free_cluster start sectors_per_fat read = scan_sectors sectors_per_fat 0 start read
