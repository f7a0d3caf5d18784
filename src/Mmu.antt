-- ===== src/Mmu.antt =====
-- The page tables of kernel/arch/x86_64/mmu/mmu.c: four levels of tables with 512 entries each. A table is
-- named by its physical address, where PHYSMAP shows it.
pub mod Tree
pub mod Walk
pub mod Map
pub mod Page
mod Tests
use curls.Prelude.{ℕ, ◌+◌, ◌*◌, ◌/◌, ◌%◌, ◌^◌, ◌<◌, ◌≡◌, ◌≢◌, Bool, true, false, Option, none, some}
use curls.Prelude.Tests.{◌==◌, if◌then◌else◌}
use curls.Prelude.Bits.{test_bit, set_bit, bit_or}
use curls.Prelude.Store.{update}

-- The allocator of frames, which `alloc_table` calls: the address of a frame, or none if all are in
-- use. A frame that it gives is page-aligned, below 2 ^ 52, not NULL and was not in use; it is in use
-- afterwards, with those that were.
pub record Frames (S : Type 0) : Type 0 where
  pub alloc : S → Option (ℕ × S)
  pub in_use : S → ℕ → Bool
  pub aligned : (s s' : S) (a : ℕ) → alloc s ≡ some (a, s') → a % 4096 ≡ 0
  pub small : (s s' : S) (a : ℕ) → alloc s ≡ some (a, s') → a < 2 ^ 52
  pub unused : (s s' : S) (a : ℕ) → alloc s ≡ some (a, s') → in_use s a ≡ false
  pub used : (s s' : S) (a : ℕ) → alloc s ≡ some (a, s') → in_use s' a ≡ true
  pub kept : (s s' : S) (a x : ℕ) → alloc s ≡ some (a, s') → in_use s x ≡ true → in_use s' x ≡ true

-- The tables by address and index, and the state of the allocator.
pub record Mmu (S : Type 0) : Type 0 where
  pub frames : S
  pub tables : ℕ → ℕ → ℕ

-- MMU_PRESENT, MMU_WRITABLE and MMU_USER are the bits 0, 1 and 2.
abbrev pub is_present : ℕ → Bool
is_present e = test_bit e 0

-- `e & ~0xFFFULL`
abbrev pub target : ℕ → ℕ
target e = e / 4096 * 4096

-- PML4_IDX, PDPT_IDX, PD_IDX and PT_IDX
abbrev pub pml4_index : ℕ → ℕ
pml4_index v = v / 2 ^ 39 % 512

abbrev pub pdpt_index : ℕ → ℕ
pdpt_index v = v / 2 ^ 30 % 512

abbrev pub pd_index : ℕ → ℕ
pd_index v = v / 2 ^ 21 % 512

abbrev pub pt_index : ℕ → ℕ
pt_index v = v / 2 ^ 12 % 512

pub entry_at : ℕ → Option ℕ → Option (ℕ × ℕ)
entry_at i none = none
entry_at i (some t) = some (t, i)

module _ {S : Type 0} where
  unfoldable pub set_entry : ℕ → ℕ → ℕ → Mmu S → Mmu S
  set_entry t i e m = record m { tables = update m.tables t (update (m.tables t) i e) }

  -- The table that a present entry points to.
  pub next_table : Mmu S → Option ℕ → ℕ → Option ℕ
  next_table m none i = none
  next_table m (some t) i = if is_present (m.tables t i) then some (target (m.tables t i)) else none

  -- The walk to the last table of `mmu_get_entry`; its entry is at `pt_index`.
  pub mmu_get_table : Mmu S → ℕ → ℕ → Option ℕ
  unfolding next_table
  mmu_get_table m root v =
      next_table m (next_table m (next_table m (some root) (pml4_index v)) (pdpt_index v))
        (pd_index v)

  -- `mmu_get_entry`: the table and the index of the entry.
  pub mmu_get_entry : Mmu S → ℕ → ℕ → Option (ℕ × ℕ)
  unfolding mmu_get_table entry_at
  mmu_get_entry m root v = entry_at (pt_index v) (mmu_get_table m root v)

  -- The frame that the processor finds for an address.
  pub translate : Mmu S → ℕ → ℕ → Option ℕ
  unfolding next_table mmu_get_table
  translate m root v = next_table m (mmu_get_table m root v) (pt_index v)

  -- `mmu_unmap_page`
  pub unmap_at : ℕ → Option ℕ → Mmu S → Mmu S
  unfolding set_entry
  unmap_at i none m = m
  unmap_at i (some t) m = set_entry t i 0 m

  pub mmu_unmap_page : ℕ → ℕ → Mmu S → Mmu S
  unfolding unmap_at mmu_get_table
  mmu_unmap_page root v m = unmap_at (pt_index v) (mmu_get_table m root v) m

  -- A new table of zeros, and the entry that points to it; none is the panic without frames.
  pub with_table : ℕ → ℕ → Option (ℕ × S) → Mmu S → Option (ℕ × Mmu S)
  unfolding set_entry
  with_table t i none m = none
  with_table t i (some (a, s)) m = some (
    a,
    set_entry t i (set_bit (set_bit (set_bit a 0) 1) 2)
        (record { frames = s; tables = update m.tables a (λ j. 0) }),
  )

  -- `pt->entries[PT_IDX(virt)] = (phys & ~0xFFFULL) | flags | MMU_PRESENT;`
  pub map_at : ℕ → ℕ → ℕ → Option (ℕ × Mmu S) → Option (Mmu S)
  unfolding set_entry
  map_at i phys flags none = none
  map_at i phys flags (some (t, m)) =
      some (set_entry t i (set_bit (bit_or 64 (target phys) flags) 0) m)

module _ {S : Type 0} (F : Frames S) where
  -- `get_or_alloc_table`
  pub get_or_alloc_table : ℕ → ℕ → ℕ → Mmu S → Option (ℕ × Mmu S)
  unfolding with_table set_entry
  get_or_alloc_table t i flags m =
      let entry = m.tables t i in
      let shared = if test_bit flags 2 then set_bit entry 2 else entry in
      if is_present entry
      then some (target shared, if test_bit flags 2 then set_entry t i shared m else m)
      else with_table t i (F.alloc m.frames) m

  pub then_table : ℕ → ℕ → Option (ℕ × Mmu S) → Option (ℕ × Mmu S)
  unfolding get_or_alloc_table
  then_table i flags none = none
  then_table i flags (some (t, m)) = get_or_alloc_table t i flags m

  -- The three tables on the path of an address.
  pub get_or_alloc_path : ℕ → ℕ → ℕ → Mmu S → Option (ℕ × Mmu S)
  unfolding then_table get_or_alloc_table
  get_or_alloc_path root v flags m =
      then_table (pd_index v) flags
        (then_table (pdpt_index v) flags (get_or_alloc_table root (pml4_index v) flags m))

  -- `mmu_map_page`
  pub mmu_map_page : ℕ → ℕ → ℕ → ℕ → Mmu S → Option (Mmu S)
  unfolding map_at get_or_alloc_path
  mmu_map_page root v phys flags m =
      map_at (pt_index v) phys flags (get_or_alloc_path root v flags m)

  -- The end of `get_page` where tables are made.
  pub path_entry : ℕ → Option (ℕ × Mmu S) → Option (Option (ℕ × ℕ) × Mmu S)
  path_entry i none = none
  path_entry i (some (t, m)) = some (some (t, i), m)

  pub page_or_path : ℕ → ℕ → Bool → Option (ℕ × ℕ) → Mmu S → Option (Option (ℕ × ℕ) × Mmu S)
  unfolding path_entry get_or_alloc_path
  page_or_path root v make (some e) m = some (some e, m)
  page_or_path root v false none m = some (none, m)
  page_or_path root v true none m = path_entry (pt_index v) (get_or_alloc_path root v 7 m)

  -- `get_page`: the entry of the page or NULL, or the panic.
  unfoldable pub get_page : ℕ → ℕ → Bool → Mmu S → Option (Option (ℕ × ℕ) × Mmu S)
  unfolding page_or_path mmu_get_entry
  get_page root v make m = page_or_path root v make (mmu_get_entry m root v) m
