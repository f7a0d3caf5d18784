-- ===== src/Block.antt =====
-- The table of block devices of kernel/core/block_dev.c, with `kabi_block_read` and `kabi_block_write` of
-- kernel/core/kabi_bridge.c. Names are lists of characters, short enough for the 32 bytes of `name`.
pub mod Register
mod Tests
use curls.Prelude.{
  ℕ, zero, suc, ◌+◌, ◌%◌, ◌^◌, Bool, true, false, ◌&&◌, Option, none, some, List, [], ◌∷◌, ◌++◌,
}
use curls.Prelude.Tests.{not, ltb, leb, ◌==◌, if◌then◌else◌}
use curls.Prelude.Int.{ℤ, pos, negsuc, minus_one}
use curls.Prelude.Lists.{length, get_elem?}
use curls.Mbr
use curls.Mbr.{Partition, Found, partitions, invalid, io_error, no_entry}

-- `kabi_block_device_t`; `driver` stands for the two functions of the disk, none
-- of which is NULL, where the code would panic.
pub record Device : Type 0 where
  pub name : List ℕ
  pub driver : ℕ
  pub size : ℕ
  pub is_partition : Bool
  pub parent_dev : ℕ
  pub start_lba : ℕ

-- MAX_BLOCK_DEVICES
abbrev pub max_devices : ℕ
max_devices = 16

-- `devices[device_count++] = dev` where there is room.
pub append_device : Device → List Device → List Device
append_device d ds = if ltb (length ds) max_devices then ds ++ d ∷ [] else ds

-- The device of a partition: usb0 gives usb0p1.
pub partition_device : Device → ℕ → Partition → Device
partition_device parent id p = record {
  name = parent.name ++ 112 ∷ (48 + p.index) ∷ [];
  driver = parent.driver;
  size = p.sector_count;
  is_partition = true;
  parent_dev = id;
  start_lba = p.start_lba;
}

-- The loop of `block_dev_scan_partitions`.
pub append_partitions : Device → ℕ → List Partition → List Device → List Device
unfolding append_device partition_device
append_partitions parent id [] ds = ds
append_partitions parent id (p ∷ ps) ds =
    append_partitions parent id ps (append_device (partition_device parent id p) ds)

-- The partitions that are found; an error is none.
pub found_partitions : Found → List Partition
found_partitions (partitions ps) = ps
found_partitions invalid = []
found_partitions io_error = []
found_partitions no_entry = []

-- The driver's functions: what a disk holds at a sector, or none for an error, and whether a write succeeds
-- with the disks after it.
module _ {D : Type 0} (read_sector : ℕ → ℕ → D → Option (List ℕ))
    (write_sector : ℕ → ℕ → List ℕ → D → Bool × D) where
  -- The sector that a device has for a number.
  pub target_lba : Device → ℕ → ℕ
  target_lba d lba = if d.is_partition then (lba + d.start_lba) % 2 ^ 64 else lba

  pub read_at : Option Device → ℕ → D → Option (List ℕ)
  unfolding target_lba
  read_at none lba disks = none
  read_at (some d) lba disks = read_sector d.driver (target_lba d lba) disks

  -- `kabi_block_read`, where every error is none.
  pub kabi_block_read : List Device → ℕ → ℕ → D → Option (List ℕ)
  unfolding read_at
  kabi_block_read ds id lba disks = read_at (get_elem? ds id) lba disks

  pub write_at : Option Device → ℕ → List ℕ → D → Bool × D
  unfolding target_lba
  write_at none lba bytes disks = (false, disks)
  write_at (some d) lba bytes disks = write_sector d.driver (target_lba d lba) bytes disks

  -- `kabi_block_write`
  pub kabi_block_write : List Device → ℕ → ℕ → List ℕ → D → Bool × D
  unfolding write_at
  kabi_block_write ds id lba bytes disks = write_at (get_elem? ds id) lba bytes disks

  -- `block_dev_scan_partitions`
  pub block_dev_scan_partitions : ℕ → Device → D → List Device → List Device
  unfolding append_partitions found_partitions kabi_block_read
  block_dev_scan_partitions id parent disks ds =
      append_partitions parent id (found_partitions (Mbr.scan 4 (kabi_block_read ds id 0 disks))) ds

  -- `block_dev_register`
  pub block_dev_register : Device → D → List Device → ℤ × List Device
  unfolding block_dev_scan_partitions
  block_dev_register dev disks ds =
      let added = ds ++ dev ∷ [] in
      if leb max_devices (length ds)
      then (minus_one, ds)
      else if not dev.is_partition
      then (pos (length ds), block_dev_scan_partitions (length ds) dev disks added)
      else (pos (length ds), added)

-- `block_dev_get_by_index`
pub block_dev_get_by_index : ℤ → List Device → Option Device
block_dev_get_by_index (negsuc n) ds = none
block_dev_get_by_index (pos n) ds = get_elem? ds n
