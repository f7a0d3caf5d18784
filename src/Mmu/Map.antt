-- ===== src/Mmu/Map.antt =====
-- `mmu_map_page` and `mmu_unmap_page` of kernel/arch/x86_64/mmu/mmu.c as changes of the map from pages to
-- frames.
use curls.Prelude.{
  ℕ, suc, ◌*◌, ◌/◌, ◌%◌, ◌^◌, ◌<◌, ◌≡◌, ◌≢◌, refl, ap, ap₂, sym, subst, ◌∙◌, inl, inr, true, ◌&&◌,
  Option, none, some, arith,
}
use curls.Prelude.Tests.{◌==◌, if◌then◌else◌, Bool-cases}
use curls.Prelude.Bits.{test_bit, set_bit, bit_or, bit_or-page, set_bit-page, test_bit-set_self}
use curls.Mmu.{
  Frames, Mmu, is_present, target, set_entry, next_table, get_or_alloc_path, mmu_get_table,
  translate, map_at, mmu_map_page, unmap_at, mmu_unmap_page, pml4_index, pdpt_index, pd_index,
  pt_index,
}
use curls.Mmu.Tree.{IsTree, set_entry_self, set_entry_other}
use curls.Mmu.Walk.{AtLevel, AtLevel-next, PathTo, get_or_alloc_path-PathTo}

-- The page of an address, in the 48 bits that the tables translate.
abbrev pub page_of : ℕ → ℕ
page_of v = v % 2 ^ 48 / 4096

page_of-indices :
    (v w : ℕ)
    → pml4_index v ≡ pml4_index w
    → pdpt_index v ≡ pdpt_index w
    → pd_index v ≡ pd_index w
    → pt_index v ≡ pt_index w
    → page_of v ≡ page_of w
page_of-indices v w a b c d = omega arith

module _ {S : Type 0} where
  -- A step that ended at a table came from a table.
  came_from :
      (m : Mmu S) (o : Option ℕ) (i u : ℕ)
      → next_table m o i ≡ some u
      → (x : ℕ) × ((o ≡ some x) × (next_table m (some x) i ≡ some u))
  unfolding next_table
  came_from m none i u e = absurd (cc)
  came_from m (some x) i u e = (x, (refl, e))

module _ {S : Type 0} (F : Frames S) (m : Mmu S) (root : ℕ) (tree : IsTree F m root) where
  one_link :
      (x y i j u n : ℕ)
      → tree.level x ≡ suc (suc n)
      → tree.level y ≡ suc (suc n)
      → next_table m (some x) i ≡ some u
      → next_table m (some y) j ≡ some u
      → (x ≡ y) × (i ≡ j)
  one_link x y i j u n lx ly ex ey =
      let cx = tree.child x i n u lx ex in
      let cy = tree.child y j n u ly ey in (sym cx.1.0 ∙ cy.1.0, sym cx.1.1 ∙ cy.1.1)

  table_level : (v : ℕ) → AtLevel F m root tree 1 (mmu_get_table m root v)
  unfolding mmu_get_table
  table_level v =
      AtLevel-next F m root tree 0 (pd_index v)
        (next_table m (next_table m (some root) (pml4_index v)) (pdpt_index v))
        (AtLevel-next F m root tree 1 (pdpt_index v) (next_table m (some root) (pml4_index v))
          (AtLevel-next F m root tree 2 (pml4_index v) (some root) tree.root_level))

  -- Two addresses with the same last table have the same three indices.
  one_walk :
      (v w t : ℕ)
      → mmu_get_table m root v ≡ some t
      → mmu_get_table m root w ≡ some t
      → (pml4_index v ≡ pml4_index w) × ((pdpt_index v ≡ pdpt_index w) × (pd_index v ≡ pd_index w))
  unfolding mmu_get_table
  one_walk v w t ev ew =
      let (x2, (e2, p2)) =
        came_from m (next_table m (next_table m (some root) (pml4_index v)) (pdpt_index v))
          (pd_index v) t ev in
      let (x3, (e3, p3)) =
        came_from m (next_table m (some root) (pml4_index v)) (pdpt_index v) x2 e2 in
      let (y2, (f2, q2)) =
        came_from m (next_table m (next_table m (some root) (pml4_index w)) (pdpt_index w))
          (pd_index w) t ew in
      let (y3, (f3, q3)) =
        came_from m (next_table m (some root) (pml4_index w)) (pdpt_index w) y2 f2 in
      let lx3 : tree.level x3 ≡ 3 = (tree.child root (pml4_index v) 2 x3 tree.root_level e3).0 in
      let ly3 : tree.level y3 ≡ 3 = (tree.child root (pml4_index w) 2 y3 tree.root_level f3).0 in
      let lx2 : tree.level x2 ≡ 2 = (tree.child x3 (pdpt_index v) 1 x2 lx3 p3).0 in
      let ly2 : tree.level y2 ≡ 2 = (tree.child y3 (pdpt_index w) 1 y2 ly3 q3).0 in
      let at2 = one_link x2 y2 (pd_index v) (pd_index w) t 0 lx2 ly2 p2 q2 in
      let at3 =
        one_link x3 y3 (pdpt_index v) (pdpt_index w) x2 1 lx3 ly3 p3 (q3 ∙ ap some (sym at2.0)) in
      let at4 =
        one_link root root (pml4_index v) (pml4_index w) x3 2 tree.root_level tree.root_level e3
          (f3 ∙ ap some (sym at3.0)) in
      (at4.1, (at3.1, at2.1))

  -- A write to a table of level 1.
  module _ (t i e : ℕ) (l : tree.level t ≡ 1) where
    leaf_other :
        (o : Option ℕ) (n j : ℕ)
        → AtLevel F m root tree (suc (suc n)) o
        → next_table (set_entry t i e m) o j ≡ next_table m o j
    unfolding next_table
    leaf_other none n j a = refl
    leaf_other (some x) n j a = set_entry_other t i e x j m (elim (Bool-cases (x == t)) [
      | inr f ↦ ap (λ b. b && (j == i)) f
      | inl f ↦ let same : x ≡ t = ground arith in absurd (omega (arith, a, l, ap tree.level same))
    ])

    leaf-IsTree : IsTree F (set_entry t i e m) root
    unfolding set_entry
    leaf-IsTree = record {
      level = tree.level;
      parent = tree.parent;
      place = tree.place;
      root_level = tree.root_level;
      child = λ x j n u a b. tree.child x j n u a (sym (leaf_other (some x) n j a) ∙ b);
      in_use = tree.in_use;
    }

    same_table : (w : ℕ) → mmu_get_table (set_entry t i e m) root w ≡ mmu_get_table m root w
    unfolding mmu_get_table
    same_table w =
        let g : Mmu S = set_entry t i e m in
        let o1 : Option ℕ = next_table m (some root) (pml4_index w) in
        let o2 : Option ℕ = next_table m o1 (pdpt_index w) in
        let l1 : AtLevel F m root tree 3 o1 =
          AtLevel-next F m root tree 2 (pml4_index w) (some root) tree.root_level in
        let l2 : AtLevel F m root tree 2 o2 = AtLevel-next F m root tree 1 (pdpt_index w) o1 l1 in
        ap (λ o. next_table g (next_table g o (pdpt_index w)) (pd_index w))
          (leaf_other (some root) 2 (pml4_index w) tree.root_level)
        ∙ ap (λ o. next_table g o (pd_index w)) (leaf_other o1 1 (pdpt_index w) l1)
        ∙ leaf_other o2 0 (pd_index w) l2

    leaf_here :
        (v : ℕ)
        → mmu_get_table m root v ≡ some t
        → pt_index v ≡ i
        → translate (set_entry t i e m) root v ≡ (if is_present e then some (target e) else none)
    unfolding translate
    leaf_here v walk at =
        ap₂ (λ o k. next_table (set_entry t i e m) o k) (same_table v ∙ walk) at
        ∙ set_entry_self t i e m

    leaf_step :
        (v w : ℕ) (o : Option ℕ)
        → mmu_get_table m root w ≡ o
        → mmu_get_table m root v ≡ some t
        → pt_index v ≡ i
        → page_of w ≢ page_of v
        → next_table (set_entry t i e m) o (pt_index w) ≡ next_table m o (pt_index w)
    unfolding next_table
    leaf_step v w none ew walk at other = refl
    leaf_step v w (some x) ew walk at other =
        set_entry_other t i e x (pt_index w) m (elim (Bool-cases ((x == t) && (pt_index w == i))) [
          | inr f ↦ f
          | inl f ↦
              let same : x ≡ t = ground arith in
              let at_w : pt_index w ≡ i = ground arith in
              let (a, (b, c)) = one_walk w v t (ew ∙ ap some same) walk in
              absurd (other (page_of-indices w v a b c (at_w ∙ sym at)))
        ])

    leaf_elsewhere :
        (v w : ℕ)
        → mmu_get_table m root v ≡ some t
        → pt_index v ≡ i
        → page_of w ≢ page_of v
        → translate (set_entry t i e m) root w ≡ translate m root w
    unfolding translate
    leaf_elsewhere v w walk at other =
        ap (λ o. next_table (set_entry t i e m) o (pt_index w)) (same_table w)
        ∙ leaf_step v w (mmu_get_table m root w) refl walk at other

no_zero : (if is_present 0 then some (target 0) else none) ≡ none
unfolding test_bit
no_zero = refl

-- The entry that `mmu_map_page` writes is present and points to the frame.
written_entry :
    (phys flags : ℕ)
    → phys < 2 ^ 52
    → flags < 4096
    → (is_present (set_bit (bit_or 64 (target phys) flags) 0) ≡ true)
      × (target (set_bit (bit_or 64 (target phys) flags) 0) ≡ target phys)
written_entry phys flags small low =
    let page : bit_or 64 (target phys) flags / 4096 ≡ target phys / 4096 =
      bit_or-page (target phys) flags (omega arith) low in
    (
      test_bit-set_self (bit_or 64 (target phys) flags) 0,
      ap (λ y. y * 4096) (set_bit-page (bit_or 64 (target phys) flags) 0 (omega arith) ∙ page)
          ∙ omega arith,
    )

module _ {S : Type 0} (F : Frames S) where
  -- The page of `v` goes to the frame, and all other pages to where they went.
  pub record Maps (m : Mmu S) (root v phys : ℕ) (m' : Mmu S) : Type 0 where
    pub tree : IsTree F m' root
    pub mapped : translate m' root v ≡ some (target phys)
    pub others : (w : ℕ) → page_of w ≢ page_of v → translate m' root w ≡ translate m root w

  abbrev pub MapResult : Mmu S → ℕ → ℕ → ℕ → Option (Mmu S) → Type 0
  MapResult m root v phys none = Unit
  MapResult m root v phys (some m') = Maps m root v phys m'

  map_at-MapResult :
      (m : Mmu S) (root v phys flags : ℕ) (r : Option (ℕ × Mmu S))
      → phys < 2 ^ 52
      → flags < 4096
      → PathTo F m root v r
      → MapResult m root v phys (map_at (pt_index v) phys flags r)
  unfolding map_at
  map_at-MapResult m root v phys flags none small low p = tt
  map_at-MapResult m root v phys flags (some (t, m3)) small low p =
      let e : ℕ = set_bit (bit_or 64 (target phys) flags) 0 in
      let i : ℕ = pt_index v in
      record {
        tree = leaf-IsTree F m3 root p.tree t i e p.last;
        mapped =
            leaf_here F m3 root p.tree t i e p.last v p.walk refl
            ∙ ap (λ b. if b then some (target e) else none) (written_entry phys flags small low).0
            ∙ ap some (written_entry phys flags small low).1;
        others = λ w other.
            leaf_elsewhere F m3 root p.tree t i e p.last v w p.walk refl other ∙ p.same w;
      }

  -- `mmu_map_page`, with flags below the page size and unless it panics for want of frames, is an update of the map
  -- from pages to frames: the page of the address goes to the given frame, each other page goes where
  -- it went before, also those whose tables are new, and the tables are a tree as before.
  pub mmu_map_page-MapResult :
      (m : Mmu S) (root v phys flags : ℕ)
      → IsTree F m root
      → phys < 2 ^ 52
      → flags < 4096
      → MapResult m root v phys (mmu_map_page F root v phys flags m)
  unfolding mmu_map_page
  mmu_map_page-MapResult m root v phys flags tree small low =
      map_at-MapResult m root v phys flags (get_or_alloc_path F root v flags m) small low
        (get_or_alloc_path-PathTo F m root v flags tree)

  unmap_at-same :
      (m : Mmu S) (root v : ℕ) (o : Option ℕ)
      → IsTree F m root
      → mmu_get_table m root v ≡ o
      → (IsTree F (unmap_at (pt_index v) o m) root)
        × ((translate (unmap_at (pt_index v) o m) root v ≡ none)
            × ((w : ℕ)
                → page_of w ≢ page_of v
                → translate (unmap_at (pt_index v) o m) root w ≡ translate m root w))
  unfolding unmap_at translate next_table
  unmap_at-same m root v none tree e =
      (tree, (ap (λ o. next_table m o (pt_index v)) e, λ w other. refl))
  unmap_at-same m root v (some t) tree e =
      let last : tree.level t ≡ 1 =
        subst (AtLevel F m root tree 1) e (table_level F m root tree v) in
      (
        leaf-IsTree F m root tree t (pt_index v) 0 last,
        (
          leaf_here F m root tree t (pt_index v) 0 last v e refl ∙ no_zero,
          λ w other. leaf_elsewhere F m root tree t (pt_index v) 0 last v w e refl other,
        ),
      )

  -- `mmu_unmap_page` takes the page of the address out of the map from pages to frames, each other page goes where
  -- it went before, and the tables are a tree as before.
  pub mmu_unmap_page-translate :
      (m : Mmu S) (root v : ℕ)
      → IsTree F m root
      → (IsTree F (mmu_unmap_page root v m) root)
        × ((translate (mmu_unmap_page root v m) root v ≡ none)
            × ((w : ℕ)
                → page_of w ≢ page_of v
                → translate (mmu_unmap_page root v m) root w ≡ translate m root w))
  unfolding mmu_unmap_page
  mmu_unmap_page-translate m root v tree = unmap_at-same m root v (mmu_get_table m root v) tree refl
