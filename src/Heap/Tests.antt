-- ===== src/Heap/Tests.antt =====
-- The theorems on the kernel heap at concrete rows of tiles.
use curls.Prelude.{ℕ, ◌%◌, ◌≡◌, refl, Bool, true, false, none, [], ◌∷◌, arith}
use curls.Prelude.Tests.{◌==◌, if◌then◌else◌}
use curls.Heap.{Header, Footer, Heap, magic_number, sizes}
use curls.Heap.Index.{IsSorted}
use curls.Heap.Alloc.{take_hole, allocated}
use curls.Heap.Pages.{Paging}
use curls.Mmu.{Mmu}
use curls.Pmm.Frames.{Ready, frames}
use curls.Prelude.Lists.{replicate}
use curls.Heap.Free.{free_internal}
use curls.Heap.Tiles.{Tile, IsTile, IsZip, at}
use curls.Heap.Gap.{at_hole, at_block, place_row}
use curls.Heap.Row.{Refines, opened}
use curls.Heap.Merge.{free_row, free_internal-free_row}
use curls.Heap.Take.{IsAllocated, take_hole-aligned}
use curls.Heap.BestBlock.{TakesBest, alloc-TakesBest}
use curls.Heap.Stale.{IsStale, take_hole-IsStale}

abbrev head : Bool → ℕ → Header
head free n = record { magic = magic_number; is_hole = free; size = n }

abbrev foot : ℕ → Footer
foot a = record { magic = magic_number; header = a }

abbrev tile : Bool → ℕ → Tile
tile free n = record { free = free; bytes = n }

-- A block, a hole, a block, and a hole up to the end.
abbrev four : Heap
four = record {
  headers = λ x.
      if x == 4096
      then head false 100
      else if x == 4196
      then head true 200
      else if x == 4396
      then head false 104
      else if x == 4500
      then head true 5692
      else record { magic = 0; is_hole = false; size = 0 };
  footers = λ x.
      if x == 4180
      then foot 4096
      else if x == 4380
      then foot 4196
      else if x == 4484
      then foot 4396
      else if x == 10176
      then foot 4500
      else record { magic = 0; header = 0 };
  index = 4196 ∷ 4500 ∷ [];
  start = 4096;
  finish = 10192;
  top = 100000;
}

abbrev Intact : Heap → ℕ → Bool → ℕ → Type 0
Intact h a free n = IsTile h a (tile free n)

first : Intact four 4096 false 100
first = record {
  head_magic = refl;
  head_hole = refl;
  head_size = refl;
  foot_magic = refl;
  foot_header = refl;
  large = omega arith;
}

second : Intact four 4196 true 200
second = record {
  head_magic = refl;
  head_hole = refl;
  head_size = refl;
  foot_magic = refl;
  foot_header = refl;
  large = omega arith;
}

third : Intact four 4396 false 104
third = record {
  head_magic = refl;
  head_hole = refl;
  head_size = refl;
  foot_magic = refl;
  foot_header = refl;
  large = omega arith;
}

fourth : Intact four 4500 true 5692
fourth = record {
  head_magic = refl;
  head_hole = refl;
  head_size = refl;
  foot_magic = refl;
  foot_header = refl;
  large = omega arith;
}

four-IsSorted : IsSorted (sizes four) four.index
four-IsSorted = ground arith

four-IsZip :
    IsZip four (at [] 4096 (tile false 100) (tile true 200 ∷ tile false 104 ∷ tile true 5692 ∷ []))
four-IsZip = record {
  lefts = refl;
  here = first;
  rights = (second, (third, (fourth, refl)));
  exact = λ x. ground arith;
  sorted = four-IsSorted;
  above = omega arith;
  below = omega arith;
}

four-at_block :
    IsZip four (at_block (tile true 200 ∷ tile false 100 ∷ []) 4396 104 (tile true 5692 ∷ []))
four-at_block = record {
  lefts = (omega arith, (second, (omega arith, (first, refl))));
  here = third;
  rights = (fourth, refl);
  exact = λ x. ground arith;
  sorted = four-IsSorted;
  above = omega arith;
  below = omega arith;
}

four-at_last :
    IsZip four (at_hole (tile false 104 ∷ tile true 200 ∷ tile false 100 ∷ []) 4500 5692 [])
four-at_last = record {
  lefts = (omega arith, (third, (omega arith, (second, (omega arith, (first, refl))))));
  here = fourth;
  rights = refl;
  exact = λ x. ground arith;
  sorted = four-IsSorted;
  above = omega arith;
  below = omega arith;
}

-- A block, and a hole that starts 32 bytes below a page.
abbrev two : Heap
two = record {
  headers = λ x.
      if x == 4096
      then head false 4064
      else if x == 8160
      then head true 1000
      else record { magic = 0; is_hole = false; size = 0 };
  footers = λ x.
      if x == 8144
      then foot 4096
      else if x == 9144
      then foot 8160
      else record { magic = 0; header = 0 };
  index = 8160 ∷ [];
  start = 4096;
  finish = 9160;
  top = 100000;
}

two-at_hole : IsZip two (at_hole (tile false 4064 ∷ []) 8160 1000 [])
two-at_hole =
    let block : Intact two 4096 false 4064 = record {
      head_magic = refl;
      head_hole = refl;
      head_size = refl;
      foot_magic = refl;
      foot_header = refl;
      large = omega arith;
    } in
    let hole : Intact two 8160 true 1000 = record {
      head_magic = refl;
      head_hole = refl;
      head_size = refl;
      foot_magic = refl;
      foot_header = refl;
      large = omega arith;
    } in
    record {
      lefts = (omega arith, (block, refl));
      here = hole;
      rights = refl;
      exact = λ x. ground arith;
      sorted = ground arith;
      above = omega arith;
      below = omega arith;
    }

free_internal-free_row_example :
    Refines IsZip
      (free_internal 4408 four)
      (free_row (opened (tile true 200 ∷ tile false 100 ∷ []) 4396 104 (tile true 5692 ∷ [])))
free_internal-free_row_example =
    free_internal-free_row four (tile true 200 ∷ tile false 100 ∷ []) 4396 104 (tile true 5692 ∷ [])
      four-at_block (omega arith)

-- 64 frames, of which 0 and 1 are the kernel's; the frame 2 is the root table.
abbrev memory : Ready
memory = record {
  pmm = record {
    is_set_up = true;
    bitmap = 4 ∷ 0 ∷ 0 ∷ [];
    ref_count = replicate 64 0;
    total = 64;
    kernel_limit = 2;
  };
  words = refl;
  small = omega arith;
  is_up = refl;
}

abbrev paging : Paging Ready
paging = record {
  frames = frames;
  is_ready = true;
  kmalloc_int = λ s. none;
  root = 8192;
  readonly = false;
  supervisor = true;
}

abbrev tables : Mmu Ready
tables = record { frames = memory; tables = λ t i. 0 }

alloc-TakesBest_example : TakesBest paging tables 100 four
alloc-TakesBest_example =
    alloc-TakesBest paging tables four [] 4096 (tile false 100)
      (tile true 200 ∷ tile false 104 ∷ tile true 5692 ∷ []) 100 4196 four-IsZip (omega arith)
      (omega arith) (ground arith) (omega arith)

take_hole-aligned_example :
    ((8192 % 4096) ≡ 0)
    × IsAllocated (take_hole 100 true 1 four) (
        place_row 100
          (tile true 3680 ∷ tile false 104 ∷ tile true 200 ∷ tile false 100 ∷ [])
          8180
          2012
          [])
take_hole-aligned_example =
    take_hole-aligned four (tile false 104 ∷ tile true 200 ∷ tile false 100 ∷ []) 4500 5692 100 [] 1
      four-at_last (omega arith) (omega arith) (omega arith) refl refl (omega arith) (omega arith)

take_hole-IsStale_example :
    (g : Heap) × ((take_hole 100 true 0 two ≡ allocated 8192 g) × IsStale two g 8160 1000 20)
take_hole-IsStale_example =
    take_hole-IsStale two (tile false 4064 ∷ []) 8160 1000 100 [] 0 two-at_hole (omega arith)
      (omega arith) (omega arith) refl refl (omega arith) (omega arith) (omega arith)
