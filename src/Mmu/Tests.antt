-- ===== src/Mmu/Tests.antt =====
-- The theorems on page tables with an allocator that counts frames, on a root table without entries.
use curls.Prelude.{
  ℕ, ◌+◌, ◌*◌, ◌<◌, ◌≡◌, ◌≢◌, refl, ap, sym, ◌∙◌, inl, inr, ◌&&◌, Option, none, some, arith,
}
use curls.Prelude.Tests.{ltb, ◌==◌, if◌then◌else◌, Bool-cases}
use curls.Prelude.Bits.{test_bit}
use curls.Mmu.{Frames, Mmu, mmu_map_page, mmu_unmap_page, translate, next_table}
use curls.Mmu.Tree.{IsTree}
use curls.Mmu.Map.{page_of, MapResult, mmu_map_page-MapResult, mmu_unmap_page-translate}

-- The state is the number of frames in use, of at most 100.
abbrev give : ℕ → Option (ℕ × ℕ)
give s = if ltb s 100 then some (s * 4096, s + 1) else none

abbrev or_zero : Option (ℕ × ℕ) → ℕ × ℕ
or_zero none = (0, 0)
or_zero (some p) = p

no_table : {p : ℕ × ℕ} → none ≡ some p → ⊥
no_table e = absurd (cc)

given : (s s' a : ℕ) → give s ≡ some (a, s') → (s < 100) × ((a ≡ s * 4096) × (s' ≡ s + 1))
given s s' a e = elim (Bool-cases (ltb s 100)) [
  | inl q ↦
      let same : some (s * 4096, s + 1) ≡ some (a, s') =
        sym (ap (λ b. if b then some (s * 4096, s + 1) else none) q) ∙ e in
      (ground arith, (sym (ap (λ o. (or_zero o).0) same), sym (ap (λ o. (or_zero o).1) same)))
  | inr q ↦ absurd (no_table (sym (ap (λ b. if b then some (s * 4096, s + 1) else none) q) ∙ e))
]

abbrev counter : Frames ℕ
counter = record {
  alloc = give;
  in_use = λ s a. ltb a (s * 4096);
  aligned = λ s s' a e. let g = given s s' a e in omega (arith, g.1.0);
  small = λ s s' a e. let g = given s s' a e in omega (arith, g.0, g.1.0);
  unused = λ s s' a e. let g = given s s' a e in ground (arith, g.1.0);
  used = λ s s' a e. let g = given s s' a e in ground (arith, g.1.0, g.1.1);
  kept = λ s s' a x e u. let g = given s s' a e in ground (arith, g.1.1);
}

-- The root is the frame 1.
abbrev empty_root : Mmu ℕ
empty_root = record { frames = 2; tables = λ t i. 0 }

empty_root-IsTree : IsTree counter empty_root 4096
unfolding next_table test_bit
empty_root-IsTree = record {
  level = λ t. if t == 4096 then 4 else 0;
  parent = λ t. 0;
  place = λ t. 0;
  root_level = refl;
  child = λ t i n u l e. absurd (cc);
  in_use = λ t l. ground arith;
}

mmu_map_page-MapResult_example :
    MapResult counter empty_root 4096 305419896 81920
      (mmu_map_page counter 4096 305419896 81920 6 empty_root)
mmu_map_page-MapResult_example =
    mmu_map_page-MapResult counter empty_root 4096 305419896 81920 6 empty_root-IsTree (omega arith)
      (omega arith)

-- The page 5 is mapped to the frame 20.
abbrev one_page : Mmu ℕ
one_page = record {
  frames = 5;
  tables = λ t i.
      if (t == 4096) && (i == 0)
      then 8199
      else if (t == 8192) && (i == 0)
      then 12295
      else if (t == 12288) && (i == 0)
      then 16391
      else if (t == 16384) && (i == 5)
      then 81927
      else 0;
}

one_page-IsTree : IsTree counter one_page 4096
unfolding next_table test_bit
one_page-IsTree = record {
  level = λ t.
      if t == 4096
      then 4
      else if t == 8192
      then 3
      else if t == 12288
      then 2
      else if t == 16384
      then 1
      else 0;
  parent = λ t. if t == 8192 then 4096 else if t == 12288 then 8192 else 12288;
  place = λ t. 0;
  root_level = refl;
  child = λ t i n u l e. ground arith;
  in_use = λ t l. ground arith;
}

mmu_unmap_page-translate_example :
    (IsTree counter (mmu_unmap_page 4096 20490 one_page) 4096)
    × ((translate (mmu_unmap_page 4096 20490 one_page) 4096 20490 ≡ none)
        × ((w : ℕ)
            → page_of w ≢ page_of 20490
            → translate (mmu_unmap_page 4096 20490 one_page) 4096 w ≡ translate one_page 4096 w))
mmu_unmap_page-translate_example =
    mmu_unmap_page-translate counter one_page 4096 20490 one_page-IsTree
