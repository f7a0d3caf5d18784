-- ===== src/Mmu/Page.antt =====
-- `get_page` of kernel/arch/x86_64/mmu/mmu.c.
use curls.Prelude.{ℕ, ◌≡◌, refl, ap, Bool, true, false, Option, none, some}
use curls.Mmu.{
  Frames, Mmu, entry_at, mmu_get_entry, translate, get_or_alloc_path, path_entry, page_or_path,
  get_page, pt_index,
}
use curls.Mmu.Tree.{IsTree}
use curls.Mmu.Walk.{PathTo, get_or_alloc_path-PathTo}

module _ {S : Type 0} (F : Frames S) where
  -- The entry that `get_page` gives is the one of the address in the tables that it leaves, which translate every
  -- address as before.
  pub record IsPage (m : Mmu S) (root v : ℕ) (o : Option (ℕ × ℕ)) (m' : Mmu S) : Type 0 where
    pub tree : IsTree F m' root
    pub entry : mmu_get_entry m' root v ≡ o
    pub same : (w : ℕ) → translate m' root w ≡ translate m root w

  abbrev pub PageResult : Mmu S → ℕ → ℕ → Option (Option (ℕ × ℕ) × Mmu S) → Type 0
  PageResult m root v none = Unit
  PageResult m root v (some (o, m')) = IsPage m root v o m'

  path_entry-PageResult :
      (m : Mmu S) (root v : ℕ) (r : Option (ℕ × Mmu S))
      → PathTo F m root v r
      → PageResult m root v (path_entry F (pt_index v) r)
  unfolding path_entry mmu_get_entry entry_at
  path_entry-PageResult m root v none p = tt
  path_entry-PageResult m root v (some (t, m')) p = record {
    tree = p.tree;
    entry = ap (entry_at (pt_index v)) p.walk;
    same = p.same;
  }

  page_or_path-PageResult :
      (m : Mmu S) (root v : ℕ) (make : Bool) (o : Option (ℕ × ℕ))
      → IsTree F m root
      → mmu_get_entry m root v ≡ o
      → PageResult m root v (page_or_path F root v make o m)
  unfolding page_or_path
  page_or_path-PageResult m root v make (some x) tree e = record {
    tree = tree;
    entry = e;
    same = λ w. refl;
  }
  page_or_path-PageResult m root v false none tree e = record {
    tree = tree;
    entry = e;
    same = λ w. refl;
  }
  page_or_path-PageResult m root v true none tree e =
      path_entry-PageResult m root v (get_or_alloc_path F root v 7 m)
        (get_or_alloc_path-PathTo F m root v 7 tree)

  -- `get_page`, unless it panics for want of frames, gives the entry that the tables have for the address once it is
  -- done, or NULL where they have none; the tables stay a tree and translate every address as before.
  pub get_page-PageResult :
      (m : Mmu S) (root v : ℕ) (make : Bool)
      → IsTree F m root
      → PageResult m root v (get_page F root v make m)
  unfolding get_page
  get_page-PageResult m root v make tree =
      page_or_path-PageResult m root v make (mmu_get_entry m root v) tree refl
