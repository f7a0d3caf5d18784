-- ===== src/Mmu/Tree.antt =====
-- The tables as a tree: each has a level and one entry that points to it.
use curls.Prelude.{
  ℕ, suc, ◌*◌, ◌%◌, ◌≡◌, ◌≢◌, refl, ap, ap₂, sym, subst, ◌∙◌, inl, inr, ◌⊎◌, Bool, true, false,
  ◌&&◌, Option, none, some, arith,
}
use curls.Prelude.Tests.{◌==◌, if◌then◌else◌, Bool-cases, if_elim, ==_refl}
use curls.Prelude.Bits.{test_bit, set_bit, set_bit-page, test_bit-set_self, test_bit-set_ne}
use curls.Prelude.Store.{update}
use curls.Mmu.{
  Frames, Mmu, is_present, target, set_entry, next_table, with_table, get_or_alloc_table,
}

no_table : (u : ℕ) → none ≡ some u → ⊥
no_table u e = absurd (cc)

some_inj : (u v : ℕ) → some u ≡ some v → u ≡ v
some_inj u v e = cc

module _ {S : Type 0} where
  pub set_entry_self :
      (t i e : ℕ) (m : Mmu S)
      → next_table (set_entry t i e m) (some t) i ≡ (if is_present e then some (target e) else none)
  unfolding set_entry update next_table
  set_entry_self t i e m = ground arith

  pub set_entry_other :
      (t i e x j : ℕ) (m : Mmu S)
      → ((x == t) && (j == i)) ≡ false
      → next_table (set_entry t i e m) (some x) j ≡ next_table m (some x) j
  unfolding set_entry update next_table
  set_entry_other t i e x j m h = ground arith

  zeroed_old :
      (m : Mmu S) (s : S) (a x j : ℕ)
      → (x == a) ≡ false
      → next_table (record { frames = s; tables = update m.tables a (λ k. 0) }) (some x) j
        ≡ next_table m (some x) j
  unfolding update next_table
  zeroed_old m s a x j h = ground arith

  zeroed_new :
      (m : Mmu S) (s : S) (a j : ℕ)
      → next_table (record { frames = s; tables = update m.tables a (λ k. 0) }) (some a) j ≡ none
  unfolding update next_table test_bit
  zeroed_new m s a j = ground arith

  link_present :
      (m : Mmu S) (t i : ℕ)
      → is_present (m.tables t i) ≡ true
      → next_table m (some t) i ≡ some (target (m.tables t i))
  unfolding next_table
  link_present m t i p = ap (λ b. if b then some (target (m.tables t i)) else none) p

  link_absent :
      (m : Mmu S) (t i : ℕ) → is_present (m.tables t i) ≡ false → next_table m (some t) i ≡ none
  unfolding next_table
  link_absent m t i p = ap (λ b. if b then some (target (m.tables t i)) else none) p

module _ {S : Type 0} (F : Frames S) where
  -- Levels 4 to 1 are those of the tables, and 0 is no table.
  pub record IsTree (m : Mmu S) (root : ℕ) : Type 0 where
    pub level : ℕ → ℕ
    pub parent : ℕ → ℕ
    pub place : ℕ → ℕ
    pub root_level : level root ≡ 4
    pub child :
        (t i n u : ℕ)
        → level t ≡ suc (suc n)
        → next_table m (some t) i ≡ some u
        → (level u ≡ suc n) × ((parent u ≡ t) × (place u ≡ i))
    pub in_use : (t : ℕ) → level t ≢ 0 → F.in_use m.frames t ≡ true

  -- Every entry of the table is absent.
  abbrev pub IsEmpty : Mmu S → ℕ → Type 0
  IsEmpty m t = (j : ℕ) → next_table m (some t) j ≡ none

  -- What `get_or_alloc_table` leaves: the entry points to `u`, all other links of the tables are as they were, and
  -- where there was no link `u` is empty.
  pub record Linked (m : Mmu S) (root t i n : ℕ) (tree : IsTree m root) (u : ℕ) (m' : Mmu S)
      : Type 0 where
    pub tree' : IsTree m' root
    pub kept_level : (x : ℕ) → tree.level x ≢ 0 → tree'.level x ≡ tree.level x
    pub child_level : tree'.level u ≡ suc n
    pub link : next_table m' (some t) i ≡ some u
    pub others :
        (x j : ℕ)
        → tree.level x ≢ 0
        → ((x == t) && (j == i)) ≡ false
        → next_table m' (some x) j ≡ next_table m (some x) j
    pub here :
        (next_table m (some t) i ≡ some u) ⊎ ((next_table m (some t) i ≡ none) × IsEmpty m' u)

  -- The entry was there; it may get the USER bit.
  shared-Linked :
      (m : Mmu S) (root t i n flags : ℕ) (tree : IsTree m root)
      → tree.level t ≡ suc (suc n)
      → is_present (m.tables t i) ≡ true
      → Linked m root t i n tree
          (target (m.tables t i))
          (set_entry t i (set_bit (m.tables t i) 2) m)
  unfolding set_entry update next_table
  shared-Linked m root t i n flags tree l p =
      let e : ℕ = m.tables t i in
      let m' : Mmu S = set_entry t i (set_bit e 2) m in
      let stays : is_present (set_bit e 2) ≡ true =
        test_bit-set_ne e 2 0 (λ z. omega (arith, z)) ∙ p in
      let page : target (set_bit e 2) ≡ target e =
        ap (λ y. y * 4096) (set_bit-page e 2 (omega arith)) in
      let same : (x j : ℕ) → next_table m' (some x) j ≡ next_table m (some x) j = λ x j.
        elim (Bool-cases ((x == t) && (j == i))) [
          | inr o ↦ set_entry_other t i (set_bit e 2) x j m o
          | inl o ↦
              let at_t : x ≡ t = ground arith in
              let at_i : j ≡ i = ground arith in
              ap₂ (λ y k. next_table m' (some y) k) at_t at_i
              ∙ set_entry_self t i (set_bit e 2) m
              ∙ ap (λ b. if b then some (target (set_bit e 2)) else none) stays
              ∙ ap some page
              ∙ sym (link_present m t i p)
              ∙ sym (ap₂ (λ y k. next_table m (some y) k) at_t at_i)
        ] in
      record {
        tree' = record {
          level = tree.level;
          parent = tree.parent;
          place = tree.place;
          root_level = tree.root_level;
          child = λ x j k u a b. tree.child x j k u a (sym (same x j) ∙ b);
          in_use = tree.in_use;
        };
        kept_level = λ x a. refl;
        child_level = (tree.child t i n (target e) l (link_present m t i p)).0;
        link = same t i ∙ link_present m t i p;
        others = λ x j a b. same x j;
        here = inl (link_present m t i p);
      }

  -- Nothing changes.
  found-Linked :
      (m : Mmu S) (root t i n : ℕ) (tree : IsTree m root)
      → tree.level t ≡ suc (suc n)
      → is_present (m.tables t i) ≡ true
      → Linked m root t i n tree (target (m.tables t i)) m
  found-Linked m root t i n tree l p = record {
    tree' = tree;
    kept_level = λ x a. refl;
    child_level = (tree.child t i n (target (m.tables t i)) l (link_present m t i p)).0;
    link = link_present m t i p;
    others = λ x j a b. refl;
    here = inl (link_present m t i p);
  }

  no_level_of :
      (m : Mmu S) (root a : ℕ) (s : S) (tree : IsTree m root)
      → F.alloc m.frames ≡ some (a, s)
      → tree.level a ≡ 0
  no_level_of m root a s tree e = elim (Bool-cases (tree.level a == 0)) [
    | inl q ↦ ground arith
    | inr q ↦
        let used : F.in_use m.frames a ≡ true = tree.in_use a (λ z. ground arith) in
        let unused : F.in_use m.frames a ≡ false = F.unused m.frames s a e in absurd (cc)
  ]

  -- The tree with a new leaf `a` below the entry `i` of `t`.
  new-IsTree :
      (m m' : Mmu S) (root t i n a : ℕ) (tree : IsTree m root)
      → tree.level t ≡ suc (suc n)
      → tree.level a ≡ 0
      → (a == t) ≡ false
      → next_table m' (some t) i ≡ some a
      → ((x j : ℕ)
          → (x == a) ≡ false
          → ((x == t) && (j == i)) ≡ false
          → next_table m' (some x) j ≡ next_table m (some x) j)
      → ((j : ℕ) → next_table m' (some a) j ≡ none)
      → (root == a) ≡ false
      → ((x : ℕ) → tree.level x ≢ 0 → F.in_use m'.frames x ≡ true)
      → F.in_use m'.frames a ≡ true
      → IsTree m' root
  new-IsTree m m' root t i n a tree l no_level apart link old empty not_root kept used = record {
    level = λ x. if x == a then suc n else tree.level x;
    parent = λ x. if x == a then t else tree.parent x;
    place = λ x. if x == a then i else tree.place x;
    root_level = ap (λ b. if b then suc n else tree.level root) not_root ∙ tree.root_level;
    child = λ x j k u q r. elim (Bool-cases (x == a)) [
      | inl f ↦
          let same : x ≡ a = ground arith in
          let gone : next_table m' (some x) j ≡ none =
            ap (λ y. next_table m' (some y) j) same ∙ empty j in
          absurd (no_table u (sym gone ∙ r))
      | inr f ↦
          let level_x : tree.level x ≡ suc (suc k) =
            sym (ap (λ b. if b then suc n else tree.level x) f) ∙ q in
          elim (Bool-cases ((x == t) && (j == i))) [
            | inl g ↦
                let at_t : x ≡ t = ground arith in
                let at_i : j ≡ i = ground arith in
                let same_u : u ≡ a =
                  some_inj u a (sym r ∙ ap₂ (λ y z. next_table m' (some y) z) at_t at_i ∙ link) in
                let new_u : (u == a) ≡ true = ground arith in
                (
                  ap (λ b. if b then suc n else tree.level u) new_u
                      ∙ omega (arith, l, level_x, ap tree.level at_t),
                  (
                    ap (λ b. if b then t else tree.parent u) new_u ∙ sym at_t,
                    ap (λ b. if b then i else tree.place u) new_u ∙ sym at_i,
                  ),
                )
            | inr g ↦
                let c = tree.child x j k u level_x (sym (old x j f g) ∙ r) in
                let old_u : (u == a) ≡ false = elim (Bool-cases (u == a)) [
                  | inr y ↦ y
                  | inl y ↦
                      let same_u : u ≡ a = ground arith in
                      absurd (omega (arith, ap tree.level same_u, no_level, c.0))
                ] in
                (
                  ap (λ b. if b then suc n else tree.level u) old_u ∙ c.0,
                  (
                    ap (λ b. if b then t else tree.parent u) old_u ∙ c.1.0,
                    ap (λ b. if b then i else tree.place u) old_u ∙ c.1.1,
                  ),
                )
          ]
    ];
    in_use = λ x q. elim (Bool-cases (x == a)) [
      | inl f ↦ let same : x ≡ a = ground arith in ap (F.in_use m'.frames) same ∙ used
      | inr f ↦ kept x (λ z. q (ap (λ b. if b then suc n else tree.level x) f ∙ z))
    ];
  }

  -- A new table, at an address that is no table.
  new-Linked :
      (m : Mmu S) (root t i n a : ℕ) (s : S) (tree : IsTree m root)
      → tree.level t ≡ suc (suc n)
      → is_present (m.tables t i) ≡ false
      → F.alloc m.frames ≡ some (a, s)
      → Linked m root t i n tree a (
          set_entry t i
            (set_bit (set_bit (set_bit a 0) 1) 2)
            (record { frames = s; tables = update m.tables a (λ j. 0) }))
  unfolding set_entry new-IsTree
  new-Linked m root t i n a s tree l p e =
      let z : Mmu S = record { frames = s; tables = update m.tables a (λ j. 0) } in
      let entry : ℕ = set_bit (set_bit (set_bit a 0) 1) 2 in
      let m' : Mmu S = set_entry t i entry z in
      let no_level : tree.level a ≡ 0 = no_level_of m root a s tree e in
      let apart : (a == t) ≡ false = elim (Bool-cases (a == t)) [
        | inr q ↦ q
        | inl q ↦
            let same : a ≡ t = ground arith in
            absurd (omega (arith, ap tree.level same, no_level, l))
      ] in
      let present : is_present entry ≡ true =
        test_bit-set_ne (set_bit (set_bit a 0) 1) 2 0 (λ y. omega (arith, y))
        ∙ test_bit-set_ne (set_bit a 0) 1 0 (λ y. omega (arith, y))
        ∙ test_bit-set_self a 0 in
      let page : target entry ≡ a =
        let aligned : a % 4096 ≡ 0 = F.aligned m.frames s a e in
        ap (λ y. y * 4096)
          (set_bit-page (set_bit (set_bit a 0) 1) 2 (omega arith)
            ∙ set_bit-page (set_bit a 0) 1 (omega arith)
            ∙ set_bit-page a 0 (omega arith))
        ∙ omega arith in
      let link : next_table m' (some t) i ≡ some a =
        set_entry_self t i entry z
        ∙ ap (λ b. if b then some (target entry) else none) present
        ∙ ap some page in
      let old : (x j : ℕ)
          → (x == a) ≡ false
          → ((x == t) && (j == i)) ≡ false
          → next_table m' (some x) j ≡ next_table m (some x) j =
        λ x j f g. set_entry_other t i entry x j z g ∙ zeroed_old m s a x j f in
      let empty : (j : ℕ) → next_table m' (some a) j ≡ none =
        λ j. set_entry_other t i entry a j z (ap (λ b. b && (j == i)) apart) ∙ zeroed_new m s a j in
      let is_old : (x : ℕ) → tree.level x ≢ 0 → (x == a) ≡ false = λ x q.
        elim (Bool-cases (x == a)) [
          | inr f ↦ f
          | inl f ↦ let same : x ≡ a = ground arith in absurd (q (ap tree.level same ∙ no_level))
        ] in
      record {
        tree' =
            new-IsTree m m' root t i n a tree l no_level apart link old empty
              (is_old root (λ q. omega (arith, q, tree.root_level)))
              (λ x q. F.kept m.frames s a x e (tree.in_use x q)) (F.used m.frames s a e);
        kept_level = λ x q. ap (λ b. if b then suc n else tree.level x) (is_old x q);
        child_level = ap (λ b. if b then suc n else tree.level a) (==_refl a);
        link = link;
        others = λ x j q g. old x j (is_old x q) g;
        here = inr (link_absent m t i p, empty);
      }

  -- The result of `get_or_alloc_table`, where there is one.
  abbrev pub LinkedTo : (m : Mmu S) (root t i n : ℕ) → IsTree m root → Option (ℕ × Mmu S) → Type 0
  LinkedTo m root t i n tree none = Unit
  LinkedTo m root t i n tree (some (u, m')) = Linked m root t i n tree u m'

  with_table-LinkedTo :
      (m : Mmu S) (root t i n : ℕ) (tree : IsTree m root) (r : Option (ℕ × S))
      → F.alloc m.frames ≡ r
      → tree.level t ≡ suc (suc n)
      → is_present (m.tables t i) ≡ false
      → LinkedTo m root t i n tree (with_table t i r m)
  unfolding with_table
  with_table-LinkedTo m root t i n tree none e l p = tt
  with_table-LinkedTo m root t i n tree (some (a, s)) e l p = new-Linked m root t i n a s tree l p e

  pub get_or_alloc_table-LinkedTo :
      (m : Mmu S) (root t i n flags : ℕ) (tree : IsTree m root)
      → tree.level t ≡ suc (suc n)
      → LinkedTo m root t i n tree (get_or_alloc_table F t i flags m)
  unfolding get_or_alloc_table
  get_or_alloc_table-LinkedTo m root t i n flags tree l =
      let e : ℕ = m.tables t i in
      let shared_or_not : Bool → Type 0 = λ b.
        Linked m root t i n tree (target (if b then set_bit e 2 else e))
          (if b then set_entry t i (if b then set_bit e 2 else e) m else m) in
      if_elim {A = Option (ℕ × Mmu S)} (LinkedTo m root t i n tree) (is_present e)
        (some (
          target (if test_bit flags 2 then set_bit e 2 else e),
          if test_bit flags 2
              then set_entry t i (if test_bit flags 2 then set_bit e 2 else e) m
              else m,
        ))
        (with_table t i (F.alloc m.frames) m)
        (λ p. elim (Bool-cases (test_bit flags 2)) [
          | inl q ↦ subst shared_or_not (sym q) (
              subst (λ u. Linked m root t i n tree u (set_entry t i (set_bit e 2) m))
                (sym (ap (λ y. y * 4096) (set_bit-page e 2 (omega arith))))
                (shared-Linked m root t i n flags tree l p))
          | inr q ↦ subst shared_or_not (sym q) (found-Linked m root t i n tree l p)
        ])
        (λ p. with_table-LinkedTo m root t i n tree (F.alloc m.frames) refl l p)
