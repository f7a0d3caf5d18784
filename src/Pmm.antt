-- ===== src/Pmm.antt =====
-- The physical memory manager of kernel/cpu/paging.c: a bitmap of frames in 32-bit words, and an
-- 8-bit count of references for each frame.
pub mod Bitmap
pub mod FirstFree
pub mod Refs
pub mod Frames
mod Tests
use curls.Prelude.{
  ℕ, zero, suc, ◌+◌, ◌-◌, ◌*◌, ◌/◌, ◌%◌, ◌^◌, Bool, true, false, ◌&&◌, ◌||◌, Option, none, some,
  List, [], ◌∷◌,
}
use curls.Prelude.Tests.{not, ltb, leb, ◌==◌, if◌then◌else◌}
use curls.Prelude.Int.{ℤ, pos, negsuc, minus_one}
use curls.Prelude.Lists.{get_or, set}
use curls.Prelude.Bits.{test_bit, set_bit, clear_bit}

-- The globals; `is_set_up` is whether the two arrays are allocated, which happens together, and
-- `kernel_limit` is `(free_mem_addr + 0xFFF) / 0x1000`.
pub record Pmm : Type 0 where
  pub is_set_up : Bool
  pub bitmap : List ℕ
  pub ref_count : List ℕ
  pub total : ℕ
  pub kernel_limit : ℕ

pub word : ℕ → Pmm → ℕ
word i p = get_or p.bitmap i 0

-- `frame_bitmap[frame / 32] |= (1 << (frame % 32));`
pub mark : ℕ → Pmm → Pmm
unfolding word
mark frame p = record p {
  bitmap = set p.bitmap (frame / 32) (set_bit (word (frame / 32) p) (frame % 32));
}

-- `frame_bitmap[frame / 32] &= ~(1 << (frame % 32));`
pub unmark : ℕ → Pmm → Pmm
unfolding word
unmark frame p = record p {
  bitmap = set p.bitmap (frame / 32) (clear_bit (word (frame / 32) p) (frame % 32));
}

-- `!frame_bitmap || frame >= total_frames`
abbrev pub is_refused : ℕ → Pmm → Bool
is_refused frame p = not p.is_set_up || leb p.total frame

-- `pmm_set_frame`
pub set_frame : ℕ → Pmm → Pmm
unfolding mark
set_frame frame p = if is_refused frame p then p else mark frame p

-- `pmm_clear_frame`
pub clear_frame : ℕ → Pmm → Pmm
unfolding unmark
clear_frame frame p = if is_refused frame p then p else unmark frame p

-- `pmm_test_frame`
pub test_frame : ℕ → Pmm → ℤ
unfolding word
test_frame frame p =
    if is_refused frame p
    then minus_one
    else if test_bit (word (frame / 32) p) (frame % 32)
    then pos 1
    else pos 0

-- The loop over the bits of the word `i`, with the rounds that are left.
pub scan_bits : ℕ → ℕ → ℕ → Pmm → Option ℕ × Pmm
unfolding word mark
scan_bits zero j i p = (none, p)
scan_bits (suc k) j i p =
    let frame = (i * 32 + j) % 2 ^ 32 in
    let rest = scan_bits k (j + 1) i p in
    let reserved = scan_bits k (j + 1) i (mark frame p) in
    if test_bit (word i p) j
    then rest
    else if leb p.total frame
    then (none, p)
    else if ltb frame p.kernel_limit
    then reserved
    else (some frame, p)

pub scan_word : ℕ → Pmm → Option ℕ × Pmm
unfolding scan_bits
scan_word i p = if word i p == 2 ^ 32 - 1 then (none, p) else scan_bits 32 0 i p

pub or_else : Option ℕ × Pmm → Option ℕ × Pmm → Option ℕ × Pmm
or_else (some f, p) rest = (some f, p)
or_else (none, p) rest = rest

-- The loop over the words, with the rounds that are left.
pub scan : ℕ → ℕ → Pmm → Option ℕ × Pmm
unfolding scan_word or_else
scan zero i p = (none, p)
scan (suc k) i p = let rest = scan k (i + 1) (scan_word i p).1 in or_else (scan_word i p) rest

-- `pmm_first_free`; `(uint32_t)-1` is `none`.
pub first_free : Pmm → Option ℕ × Pmm
unfolding scan
first_free p = if not p.is_set_up then (none, p) else scan (p.total / 32) 0 p

-- `frame_ref_count[frame]`
pub refs : ℕ → Pmm → ℕ
refs frame p = get_or p.ref_count frame 0

pub set_refs : ℕ → ℕ → Pmm → Pmm
set_refs frame n p = record p { ref_count = set p.ref_count frame n }

-- `frame_add_ref`, which wraps at 8 bits.
pub add_ref : ℕ → Pmm → Pmm
unfolding mark refs set_refs
add_ref frame p =
    let n = (refs frame p + 1) % 2 ^ 8 in
    if is_refused frame p
    then p
    else if refs frame p == 0
    then set_refs frame n (mark frame p)
    else set_refs frame n p

-- `frame_remove_ref`
pub remove_ref : ℕ → Pmm → Pmm
unfolding unmark refs set_refs
remove_ref frame p =
    let n = refs frame p - 1 in
    if is_refused frame p || (refs frame p == 0)
    then p
    else if n == 0
    then unmark frame (set_refs frame n p)
    else set_refs frame n p

-- `frame_get_ref`
pub get_ref : ℕ → Pmm → ℕ
unfolding refs
get_ref frame p = if is_refused frame p then 0 else refs frame p

abbrev pub is_one : ℤ → Bool
is_one (pos n) = n == 1
is_one (negsuc n) = false

-- The loop of `get_pmm_stats`, with the rounds that are left.
pub count_used : ℕ → ℕ → Pmm → ℕ
unfolding test_frame
count_used zero i p = 0
count_used (suc k) i p =
    let rest = count_used k (i + 1) p in if is_one (test_frame i p) then rest + 1 else rest
