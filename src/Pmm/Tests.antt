-- ===== src/Pmm/Tests.antt =====
-- The memory manager at concrete inputs: 64 frames, of which 0 and 1 are the kernel's; frame 2 is used.
use curls.Prelude.{ℕ, ◌*◌, ◌/◌, ◌≡◌, refl, true, false, [], ◌∷◌, arith}
use curls.Prelude.Lists.{replicate}
use curls.Pmm.{Pmm, first_free, refs, add_ref, remove_ref}
use curls.Prelude.Bits.{test_bit}
use curls.Pmm.Bitmap.{used, IsValid}
use curls.Pmm.FirstFree.{Searched, first_free-Searched}
use curls.Pmm.Refs.{share_unshare, add_ref_wraps}

abbrev small : ℕ → Pmm
small n = record {
  is_set_up = true;
  bitmap = 4 ∷ 0 ∷ 0 ∷ [];
  ref_count = 0 ∷ 0 ∷ n ∷ replicate 61 0;
  total = 64;
  kernel_limit = 2;
}

small-IsValid : (n : ℕ) → IsValid (small n)
small-IsValid n = record { words = refl; counts = refl; small = omega arith }

first_free-Searched_example : Searched (small 1) 0 (64 / 32 * 32) (first_free (small 1))
first_free-Searched_example = first_free-Searched (small 1) (small-IsValid 1) refl

share_unshare_example :
    ((g : ℕ) → refs g (remove_ref 2 (add_ref 2 (small 1))) ≡ refs g (small 1))
    × ((g : ℕ) → used (remove_ref 2 (add_ref 2 (small 1))) g ≡ used (small 1) g)
unfolding refs used test_bit
share_unshare_example =
    share_unshare (small 1) 2 (small-IsValid 1) refl (omega arith) (omega arith) (omega arith) refl

add_ref_wraps_example :
    (refs 2 (add_ref 2 (small 255)) ≡ 0)
    × (used (remove_ref 2 (add_ref 2 (add_ref 2 (small 255)))) 2 ≡ false)
unfolding refs
add_ref_wraps_example = add_ref_wraps (small 255) 2 (small-IsValid 255) refl (omega arith) refl
