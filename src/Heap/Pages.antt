-- ===== src/Heap/Pages.antt =====
-- The loop of `expand` of libc/kheap.c that maps the new pages of the heap, over the page tables of Mmu.
use curls.Prelude.{ℕ, zero, suc, ◌+◌, ◌%◌, Bool, true, Option, none, some}
use curls.Prelude.Tests.{if◌then◌else◌}
use curls.Mmu.{Frames, Mmu, target, set_entry, get_page}

-- What the loop reads: the allocator of frames (`pmm_first_free`, `pmm_set_frame`), `pmm_is_ready`, what
-- `kmalloc_int` gives for a page while that is 0, `kernel_directory`, and two fields of `heap_t`.
pub record Paging (S : Type 0) : Type 0 where
  pub frames : Frames S
  pub is_ready : Bool
  pub kmalloc_int : S → Option (ℕ × S)
  pub root : ℕ
  pub readonly : Bool
  pub supervisor : Bool

module _ {S : Type 0} where
  -- MMU_PRESENT, MMU_WRITABLE and MMU_USER
  abbrev pub page_flags : Paging S → ℕ
  page_flags k = 1 + (if k.readonly then 0 else 2) + (if k.supervisor then 0 else 4)

  -- The address of a frame for a page.
  pub page_frame : Paging S → S → Option (ℕ × S)
  page_frame k s = if k.is_ready then k.frames.alloc s else k.kmalloc_int s

  -- PAGE_SET_FRAME; none is the panic without frames.
  pub set_frame_of : ℕ → ℕ → Option (ℕ × S) → Mmu S → Option (Mmu S)
  unfolding set_entry
  set_frame_of t i none m = none
  set_frame_of t i (some (a, s)) m =
      some (set_entry t i (m.tables t i % 4096 + target a) (record m { frames = s }))

  -- A round behind `get_page`, whose NULL is a fault; PAGE_SET_FLAGS.
  pub fill_page : Paging S → Option (Option (ℕ × ℕ) × Mmu S) → Option (Mmu S)
  unfolding set_entry set_frame_of page_frame
  fill_page k none = none
  fill_page k (some (none, m)) = none
  fill_page k (some (some (t, i), m)) =
      let flagged = set_entry t i (target (m.tables t i) + page_flags k) m in
      set_frame_of t i (page_frame k flagged.frames) flagged

  pub and_then : Option (Mmu S) → (Mmu S → Option (Mmu S)) → Option (Mmu S)
  and_then none f = none
  and_then (some m) f = f m

  -- `while (i < new_size)`, with the rounds that are left and the next address.
  unfoldable pub map_pages : Paging S → ℕ → ℕ → Mmu S → Option (Mmu S)
  unfolding and_then fill_page get_page
  map_pages k zero a m = some m
  map_pages k (suc n) a m =
      and_then (fill_page k (get_page k.frames k.root a true m)) (map_pages k n (a + 4096))
