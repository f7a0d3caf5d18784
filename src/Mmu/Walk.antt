-- ===== src/Mmu/Walk.antt =====
-- What a new table changes for the walks of all addresses.
use curls.Prelude.{
  ℕ, suc, ◌+◌, ◌≡◌, ◌≢◌, refl, ap, ap₂, sym, subst, ◌∙◌, inl, inr, ◌⊎◌, false, ◌&&◌, Option, none,
  some, arith,
}
use curls.Prelude.Tests.{◌==◌, Bool-cases, Option-cases}
use curls.Mmu.{
  Frames, Mmu, next_table, get_or_alloc_table, get_or_alloc_path, then_table, mmu_get_table,
  translate, pml4_index, pdpt_index, pd_index, pt_index,
}
use curls.Mmu.Tree.{IsTree, IsEmpty, Linked, LinkedTo, get_or_alloc_table-LinkedTo}

module _ {S : Type 0} (F : Frames S) where
  -- A walk stands at a table of a level, or has ended.
  abbrev pub AtLevel : (m : Mmu S) (root : ℕ) → IsTree F m root → ℕ → Option ℕ → Type 0
  AtLevel m root tree n none = Unit
  AtLevel m root tree n (some x) = tree.level x ≡ n

  pub AtLevel-next :
      (m : Mmu S) (root : ℕ) (tree : IsTree F m root) (n i : ℕ) (o : Option ℕ)
      → AtLevel m root tree (suc (suc n)) o
      → AtLevel m root tree (suc n) (next_table m o i)
  unfolding next_table
  AtLevel-next m root tree n i none a = tt
  AtLevel-next m root tree n i (some x) a = elim (Option-cases (next_table m (some x) i)) [
    | inl e ↦ subst (AtLevel m root tree (suc n)) (sym e) tt
    | inr (u, e) ↦ subst (AtLevel m root tree (suc n)) (sym e) (tree.child x i n u a e).0
  ]

  -- A walk that has ended, or stands at an empty table.
  abbrev pub IsDead : Mmu S → Option ℕ → Type 0
  IsDead m none = Unit
  IsDead m (some x) = IsEmpty F m x

  IsDead-next : (m : Mmu S) (o : Option ℕ) (i : ℕ) → IsDead m o → next_table m o i ≡ none
  unfolding next_table
  IsDead-next m none i d = refl
  IsDead-next m (some x) i d = d i

  -- Two walks stand at the same table, or the first has ended where the second is dead.
  abbrev pub Agree : Mmu S → Option ℕ → Option ℕ → Type 0
  Agree m' o o' = (o ≡ o') ⊎ ((o ≡ none) × IsDead m' o')

  module _ (m m' : Mmu S) (root t i n u : ℕ) (tree : IsTree F m root)
      (k : Linked F m root t i n tree u m') where
    same_next :
        (x j : ℕ) → tree.level x ≢ 0 → Agree m' (next_table m (some x) j) (next_table m' (some x) j)
    same_next x j q = elim (Bool-cases ((x == t) && (j == i))) [
      | inr f ↦ inl (sym (k.others x j q f))
      | inl f ↦
          let at_t : x ≡ t = ground arith in
          let at_i : j ≡ i = ground arith in
          let now : next_table m' (some x) j ≡ some u =
            ap₂ (λ y z. next_table m' (some y) z) at_t at_i ∙ k.link in
          let was : next_table m (some x) j ≡ next_table m (some t) i =
            ap₂ (λ y z. next_table m (some y) z) at_t at_i in
          elim k.here [
            | inl e ↦ inl (was ∙ e ∙ sym now)
            | inr (e, d) ↦ inr (was ∙ e, subst (IsDead m') (sym now) d)
          ]
    ]

    Agree-next :
        (o o' : Option ℕ) (l j : ℕ)
        → AtLevel m root tree (suc l) o
        → Agree m' o o'
        → Agree m' (next_table m o j) (next_table m' o' j)
    unfolding next_table
    Agree-next none o' l j a (inl e) = subst (λ y. Agree m' none (next_table m' y j)) e (inl refl)
    Agree-next (some x) o' l j a (inl e) =
        subst (λ y. Agree m' (next_table m (some x) j) (next_table m' y j)) e
          (same_next x j (λ z. omega (arith, a, z)))
    Agree-next o o' l j a (inr (e, d)) =
        inl (ap (λ y. next_table m y j) e ∙ sym (IsDead-next m' o' j d))

    -- The entries of the last tables are as they were.
    leaf_next :
        (o o' : Option ℕ) (j : ℕ)
        → AtLevel m root tree 1 o
        → tree.level t ≡ suc (suc n)
        → Agree m' o o'
        → next_table m' o' j ≡ next_table m o j
    unfolding next_table
    leaf_next none o' j a l (inl e) = ap (λ y. next_table m' y j) (sym e)
    leaf_next (some x) o' j a l (inl e) =
        let apart : ((x == t) && (j == i)) ≡ false = elim (Bool-cases (x == t)) [
          | inr f ↦ ap (λ b. b && (j == i)) f
          | inl f ↦
              let same : x ≡ t = ground arith in absurd (omega (arith, a, l, ap tree.level same))
        ] in
        ap (λ y. next_table m' y j) (sym e) ∙ k.others x j (λ z. omega (arith, a, z)) apart
    leaf_next o o' j a l (inr (e, d)) = IsDead-next m' o' j d ∙ sym (ap (λ y. next_table m y j) e)

    -- No address is translated in another way.
    pub translate-Linked :
        (v : ℕ) → tree.level t ≡ suc (suc n) → translate m' root v ≡ translate m root v
    unfolding translate mmu_get_table
    translate-Linked v l =
        let a : ℕ = pml4_index v in
        let b : ℕ = pdpt_index v in
        let c : ℕ = pd_index v in
        let o1 : Option ℕ = next_table m (some root) a in
        let p1 : Option ℕ = next_table m' (some root) a in
        let o2 : Option ℕ = next_table m o1 b in
        let p2 : Option ℕ = next_table m' p1 b in
        let l1 : AtLevel m root tree 3 o1 =
          AtLevel-next m root tree 2 a (some root) tree.root_level in
        let l2 : AtLevel m root tree 2 o2 = AtLevel-next m root tree 1 b o1 l1 in
        let l3 : AtLevel m root tree 1 (next_table m o2 c) = AtLevel-next m root tree 0 c o2 l2 in
        let s1 : Agree m' o1 p1 =
          Agree-next (some root) (some root) 3 a tree.root_level (inl refl) in
        let s2 : Agree m' o2 p2 = Agree-next o1 p1 2 b l1 s1 in
        let s3 : Agree m' (next_table m o2 c) (next_table m' p2 c) = Agree-next o2 p2 1 c l2 s2 in
        leaf_next (next_table m o2 c) (next_table m' p2 c) (pt_index v) l3 l s3

  -- The result of `get_or_alloc_path`: the last table on the path of `v`.
  pub record IsPath (m : Mmu S) (root v t : ℕ) (m' : Mmu S) : Type 0 where
    pub tree : IsTree F m' root
    pub last : tree.level t ≡ 1
    pub walk : mmu_get_table m' root v ≡ some t
    pub same : (w : ℕ) → translate m' root w ≡ translate m root w

  abbrev pub PathTo : Mmu S → ℕ → ℕ → Option (ℕ × Mmu S) → Type 0
  PathTo m root v none = Unit
  PathTo m root v (some (t, m')) = IsPath m root v t m'

  -- A link stays when an entry of a table of another level is linked.
  link_stays :
      (m m' : Mmu S) (root t i n u : ℕ) (tree : IsTree F m root)
      → Linked F m root t i n tree u m'
      → (x j l : ℕ) → tree.level t ≡ suc (suc n)
      → tree.level x ≡ suc (suc (suc (n + l)))
      → next_table m' (some x) j ≡ next_table m (some x) j
  link_stays m m' root t i n u tree k x j l p q =
      let apart : ((x == t) && (j == i)) ≡ false = elim (Bool-cases (x == t)) [
        | inr f ↦ ap (λ b. b && (j == i)) f
        | inl f ↦
            let same : x ≡ t = ground arith in absurd (omega (arith, p, q, ap tree.level same))
      ] in
      k.others x j (λ z. omega (arith, q, z)) apart

  third :
      (m m2 : Mmu S) (root v t3 t2 : ℕ) (tree : IsTree F m2 root)
      → tree.level t3 ≡ 3
      → tree.level t2 ≡ 2
      → next_table m2 (some root) (pml4_index v) ≡ some t3
      → next_table m2 (some t3) (pdpt_index v) ≡ some t2
      → ((w : ℕ) → translate m2 root w ≡ translate m root w)
      → (r : Option (ℕ × Mmu S)) → LinkedTo F m2 root t2 (pd_index v) 0 tree r
      → PathTo m root v r
  unfolding mmu_get_table
  third m m2 root v t3 t2 tree l3 l2 e4 e3 same none k = tt
  third m m2 root v t3 t2 tree l3 l2 e4 e3 same (some (t1, m3)) k = record {
    tree = k.tree';
    last = k.child_level;
    walk =
        ap (λ o. next_table m3 (next_table m3 o (pdpt_index v)) (pd_index v))
          (link_stays m2 m3 root t2 (pd_index v) 0 t1 tree k root (pml4_index v) 1 l2
              tree.root_level
            ∙ e4)
        ∙ ap (λ o. next_table m3 o (pd_index v))
            (link_stays m2 m3 root t2 (pd_index v) 0 t1 tree k t3 (pdpt_index v) 0 l2 l3 ∙ e3)
        ∙ k.link;
    same = λ w. translate-Linked m2 m3 root t2 (pd_index v) 0 t1 tree k w l2 ∙ same w;
  }

  second :
      (m m1 : Mmu S) (root v flags t3 : ℕ) (tree : IsTree F m1 root)
      → tree.level t3 ≡ 3
      → next_table m1 (some root) (pml4_index v) ≡ some t3
      → ((w : ℕ) → translate m1 root w ≡ translate m root w)
      → (r : Option (ℕ × Mmu S)) → LinkedTo F m1 root t3 (pdpt_index v) 1 tree r
      → PathTo m root v (then_table F (pd_index v) flags r)
  unfolding then_table
  second m m1 root v flags t3 tree l3 e4 same none k = tt
  second m m1 root v flags t3 tree l3 e4 same (some (t2, m2)) k =
      third m m2 root v t3 t2 k.tree' (k.kept_level t3 (λ z. omega (arith, l3, z)) ∙ l3)
        k.child_level
        (link_stays m1 m2 root t3 (pdpt_index v) 1 t2 tree k root (pml4_index v) 0 l3
            tree.root_level
          ∙ e4)
        k.link (λ w. translate-Linked m1 m2 root t3 (pdpt_index v) 1 t2 tree k w l3 ∙ same w)
        (get_or_alloc_table F t2 (pd_index v) flags m2)
        (get_or_alloc_table-LinkedTo F m2 root t2 (pd_index v) 0 flags k.tree' k.child_level)

  first :
      (m : Mmu S) (root v flags : ℕ) (tree : IsTree F m root) (r : Option (ℕ × Mmu S))
      → LinkedTo F m root root (pml4_index v) 2 tree r
      → PathTo m root v (then_table F (pd_index v) flags (then_table F (pdpt_index v) flags r))
  unfolding then_table
  first m root v flags tree none k = tt
  first m root v flags tree (some (t3, m1)) k =
      second m m1 root v flags t3 k.tree' k.child_level k.link
        (λ w. translate-Linked m m1 root root (pml4_index v) 2 t3 tree k w tree.root_level)
        (get_or_alloc_table F t3 (pdpt_index v) flags m1)
        (get_or_alloc_table-LinkedTo F m1 root t3 (pdpt_index v) 1 flags k.tree' k.child_level)

  -- The path of an address, made where it is missing, changes no translation.
  pub get_or_alloc_path-PathTo :
      (m : Mmu S) (root v flags : ℕ)
      → IsTree F m root
      → PathTo m root v (get_or_alloc_path F root v flags m)
  unfolding get_or_alloc_path
  get_or_alloc_path-PathTo m root v flags tree =
      first m root v flags tree (get_or_alloc_table F root (pml4_index v) flags m)
        (get_or_alloc_table-LinkedTo F m root root (pml4_index v) 2 flags tree tree.root_level)
