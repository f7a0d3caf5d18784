-- ===== src/Block/Tests.antt =====
-- The device table at a disk with one partition of a sector.
use curls.Prelude.{ℕ, ◌≡◌, Bool, true, false, Option, some, List, [], ◌∷◌}
use curls.Prelude.Lists.{replicate, set}
use curls.Block.{Device, block_dev_register}
use curls.Block.Register.{registered, block_dev_register-registered}

abbrev first_sector : List ℕ
first_sector = set (set (set (set (set (replicate 512 0) 450 12) 454 64) 458 1) 510 85) 511 170

abbrev disk : ℕ → ℕ → ℕ → Option (List ℕ)
disk driver lba disks = some first_sector

abbrev counted : ℕ → ℕ → List ℕ → ℕ → Bool × ℕ
counted driver lba bytes disks = (true, disks)

abbrev usb : Device
usb = record {
  name = 117 ∷ [];
  driver = 1;
  size = 100;
  is_partition = false;
  parent_dev = 0;
  start_lba = 0;
}

block_dev_register-registered_example :
    block_dev_register disk counted usb 7 (usb ∷ []) ≡ registered disk counted usb 7 (usb ∷ [])
block_dev_register-registered_example = block_dev_register-registered disk counted usb 7 (usb ∷ [])
