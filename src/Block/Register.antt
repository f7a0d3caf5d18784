-- ===== src/Block/Register.antt =====
-- `block_dev_register` of kernel/core/block_dev.c: the new device and its partitions.
use curls.Prelude.{
  ℕ, ◌+◌, ◌-◌, ◌%◌, ◌^◌, ◌<◌, ◌≡◌, ◌≢◌, refl, ap, sym, ◌∙◌, inl, inr, Bool, false, Option, some,
  List, [], ◌∷◌, ◌++◌, append_assoc, append-nil, arith,
}
use curls.Prelude.Tests.{not, ltb, leb, if◌then◌else◌, Bool-cases, if_elim}
use curls.Prelude.Int.{ℤ, pos, minus_one}
use curls.Prelude.Lists.{length, get_elem?, take, length-append, take-nil, take_pos}
use curls.Mbr
use curls.Mbr.{Partition, Found}
use curls.Block.{
  Device, append_device, partition_device, append_partitions, found_partitions, target_lba, read_at,
  kabi_block_read, block_dev_scan_partitions, block_dev_register,
}

-- The devices of partitions, in order.
abbrev pub partition_devices : Device → ℕ → List Partition → List Device
partition_devices parent id [] = []
partition_devices parent id (p ∷ ps) = partition_device parent id p ∷ partition_devices parent id ps

append_partitions-take :
    (parent : Device) (id : ℕ) (ps : List Partition) (ds : List Device)
    → append_partitions parent id ps ds
      ≡ ds ++ take (16 - length ds) (partition_devices parent id ps)
unfolding append_partitions append_device
append_partitions-take parent id [] ds =
    sym (ap (λ es. ds ++ es) (take-nil (16 - length ds)) ∙ append-nil ds)
append_partitions-take parent id (p ∷ ps) ds =
    let d : Device = partition_device parent id p in
    let rest : List Device = partition_devices parent id ps in
    if_elim (λ es. append_partitions parent id ps es ≡ ds ++ take (16 - length ds) (d ∷ rest))
      (ltb (length ds) 16) (ds ++ d ∷ []) ds
      (λ e.
        let room : 16 - length ds ≢ 0 = λ z. ground arith in
        let fewer : 16 - length (ds ++ d ∷ []) ≡ 16 - length ds - 1 =
          omega (arith, length-append ds (d ∷ [])) in
        append_partitions-take parent id ps (ds ++ d ∷ [])
        ∙ append_assoc ds (d ∷ []) (take (16 - length (ds ++ d ∷ [])) rest)
        ∙ ap (λ n. ds ++ d ∷ take n rest) fewer
        ∙ sym (ap (λ es. ds ++ es) (take_pos (16 - length ds) d rest room)))
      (λ e.
        let full : 16 - length ds ≡ 0 = ground arith in
        append_partitions-take parent id ps ds
        ∙ ap (λ n. ds ++ take n rest) full
        ∙ sym (ap (λ n. ds ++ take n (d ∷ rest)) full))

get_elem?-here : (ds es : List Device) (d : Device) → get_elem? (ds ++ d ∷ es) (length ds) ≡ some d
get_elem?-here [] es d = refl
get_elem?-here (e ∷ ds) es d = get_elem?-here ds es d

module _ {D : Type 0} (read_sector : ℕ → ℕ → D → Option (List ℕ))
    (write_sector : ℕ → ℕ → List ℕ → D → Bool × D) where
  -- The partitions on the disk of a device.
  abbrev pub partitions_on : Device → D → List Partition
  partitions_on dev disks = found_partitions (Mbr.scan 4 (read_sector dev.driver 0 disks))

  -- What `block_dev_register` should give: the number of the device and the table with it at the end, and, for a
  -- disk, as many of its partitions after it as there is room for.
  abbrev pub registered : Device → D → List Device → ℤ × List Device
  registered dev disks ds = if leb 16 (length ds) then (minus_one, ds) else (
    pos (length ds),
    ds
        ++ dev
          ∷ take (15 - length ds) (
              if dev.is_partition
              then []
              else partition_devices dev (length ds) (partitions_on dev disks)),
  )

  first_sector :
      (dev : Device) (disks : D) (ds : List Device)
      → dev.is_partition ≡ false
      → kabi_block_read read_sector write_sector (ds ++ dev ∷ []) (length ds) 0 disks
        ≡ read_sector dev.driver 0 disks
  unfolding kabi_block_read read_at target_lba
  first_sector dev disks ds e =
      ap (λ o. read_at read_sector write_sector o 0 disks) (get_elem?-here ds [] dev)
      ∙ ap (λ b. read_sector dev.driver (if b then (0 + dev.start_lba) % 2 ^ 64 else 0) disks) e

  scan-registered :
      (dev : Device) (disks : D) (ds : List Device)
      → length ds < 16
      → dev.is_partition ≡ false
      → block_dev_scan_partitions read_sector write_sector (length ds) dev disks (ds ++ dev ∷ [])
        ≡ ds
          ++ dev
            ∷ take (15 - length ds) (partition_devices dev (length ds) (partitions_on dev disks))
  unfolding block_dev_scan_partitions
  scan-registered dev disks ds room e =
      let fewer : 16 - length (ds ++ dev ∷ []) ≡ 15 - length ds =
        omega (arith, length-append ds (dev ∷ [])) in
      let ps : List Partition = partitions_on dev disks in
      ap (λ s. append_partitions dev (length ds) (found_partitions (Mbr.scan 4 s)) (ds ++ dev ∷ []))
        (first_sector dev disks ds e)
      ∙ append_partitions-take dev (length ds) ps (ds ++ dev ∷ [])
      ∙ append_assoc ds (dev ∷ []) _
      ∙ ap (λ n. ds ++ dev ∷ take n (partition_devices dev (length ds) ps)) fewer

  -- Where there is room.
  abbrev added : Device → D → List Device → ℤ × List Device
  added dev disks ds =
      if not dev.is_partition
      then (
        pos (length ds),
        block_dev_scan_partitions read_sector write_sector (length ds) dev disks (ds ++ dev ∷ []),
      )
      else (pos (length ds), ds ++ dev ∷ [])

  abbrev expected : Device → D → List Device → Bool → List Device
  expected dev disks ds b =
      ds
      ++ dev
        ∷ take (15 - length ds)
            (if b then [] else partition_devices dev (length ds) (partitions_on dev disks))

  added-registered :
      (dev : Device) (disks : D) (ds : List Device)
      → length ds < 16
      → added dev disks ds ≡ (pos (length ds), expected dev disks ds dev.is_partition)
  added-registered dev disks ds room = elim (Bool-cases dev.is_partition) [
    | inl e ↦
        ap
          (λ b.
            if not b
            then (
              pos (length ds),
              block_dev_scan_partitions read_sector write_sector (length ds) dev disks
                  (ds ++ dev ∷ []),
            )
            else (pos (length ds), ds ++ dev ∷ []))
          e
        ∙ sym (ap (λ es. (pos (length ds), ds ++ dev ∷ es)) (take-nil (15 - length ds)))
        ∙ sym (ap (λ b. (pos (length ds), expected dev disks ds b)) e)
    | inr e ↦
        ap
          (λ b.
            if not b
            then (
              pos (length ds),
              block_dev_scan_partitions read_sector write_sector (length ds) dev disks
                  (ds ++ dev ∷ []),
            )
            else (pos (length ds), ds ++ dev ∷ []))
          e
        ∙ ap (λ es. (pos (length ds), es)) (scan-registered dev disks ds room e)
        ∙ sym (ap (λ b. (pos (length ds), expected dev disks ds b)) e)
  ]

  -- `block_dev_register` puts the device at the end of the table, gives its number, and for a device that is no
  -- partition adds the used partitions that its own first sector lists, each with the number of the disk and its
  -- offset, as long as the table of 16 has room; a full table refuses it with -1 and stays. No device that was
  -- there changes its number.
  pub block_dev_register-registered :
      (dev : Device) (disks : D) (ds : List Device)
      → block_dev_register read_sector write_sector dev disks ds ≡ registered dev disks ds
  unfolding block_dev_register
  block_dev_register-registered dev disks ds = elim (Bool-cases (leb 16 (length ds))) [
    | inl full ↦
        ap (λ b. if b then (minus_one, ds) else added dev disks ds) full
        ∙ sym (
            ap
              (λ b.
                if b
                then (minus_one, ds)
                else (pos (length ds), expected dev disks ds dev.is_partition))
              full)
    | inr room ↦
        ap (λ b. if b then (minus_one, ds) else added dev disks ds) room
        ∙ added-registered dev disks ds (ground arith)
        ∙ sym (
            ap
              (λ b.
                if b
                then (minus_one, ds)
                else (pos (length ds), expected dev disks ds dev.is_partition))
              room)
  ]
