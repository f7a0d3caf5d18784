-- ===== src/Vfs/Dup.antt =====
-- `dup`, `dup2` and the search for a free descriptor.
use curls.Prelude.{
  ℕ, zero, suc, ◌+◌, ◌<◌, ◌≡◌, refl, sym, ap, ◌∙◌, subst, ◌≢◌, inl, inr, ◌⊎◌, Bool, true, false,
  ◌||◌, none, some, List, ◌++◌, arith,
}
use curls.Prelude.Tests.{not, ltb, ◌==◌, if◌then◌else◌, Bool-cases}
use curls.Prelude.Int.{ℤ, pos, negsuc, minus_one}
use curls.Prelude.Lists.{get_or, set, length-set, length-append, get_or-set_self, get_or-set_ne}
use curls.Prelude.Store.{at_or_else}
use curls.Task.{null}
use curls.Vfs.{
  add_end, set_refcount, at_pipe, Vfs, slot, lookup, index, in_range, put_slot, add_ref, close,
  first_free, dup_to, dup, dup2, max_fd,
}
use curls.Vfs.Counts.{tally, one_if, tally-append, tally-set}
use curls.Vfs.Refs.{slots, Counted}
use curls.Vfs.Attach.{add_ref-Counted, add_ref-slots, add_ref-same}
use curls.Vfs.Close.{Closed, close-Closed}

-- `fd` is the lowest free descriptor from `i` on.
pub record Lowest (i : ℕ) (table : List ℕ) (fd : ℕ) : Type 0 where
  pub from : i < suc fd
  pub free : get_or table fd null ≡ null
  pub below : (j : ℕ) → (ltb j i || not (ltb j fd) || not (get_or table j null == null)) ≡ true

-- All of the `k` descriptors from `i` on are in use.
abbrev pub AllUsed : ℕ → ℕ → List ℕ → Type 0
AllUsed i end table =
    (j : ℕ) → (ltb j i || not (ltb j end) || not (get_or table j null == null)) ≡ true

pub first_free-cases :
    (k i : ℕ) (table : List ℕ)
    → ((first_free k i table ≡ none) × AllUsed i (i + k) table)
      ⊎ ((fd : ℕ) × (first_free k i table ≡ some fd) × (fd < i + k) × Lowest i table fd)
unfolding first_free
first_free-cases zero i table = inl (refl, λ j. ground arith)
first_free-cases (suc k) i table = elim (Bool-cases (get_or table i null == null)) [
  | inl e ↦ inr (
    i,
    rw e refl,
    omega arith,
    record { from = omega arith; free = ground arith; below = λ j. ground arith },
  )
  | inr e ↦ elim (first_free-cases k (i + 1) table) [
    | inl (nothing, used) ↦
        inl (rw e nothing, λ j. next j (i + suc k) (i + 1 + k) e (omega arith) (used j))
    | inr (fd, ran, small, l) ↦ inr (
      fd,
      rw e ran,
      omega arith,
      record {
        from = omega (arith, l.from);
        free = l.free;
        below = λ j. next j fd fd e refl (l.below j);
      },
    )
  ]
]
  where
    next :
        (j a b : ℕ)
        → (get_or table i null == null) ≡ false
        → a ≡ b
        → (ltb j (i + 1) || not (ltb j b) || not (get_or table j null == null)) ≡ true
        → (ltb j i || not (ltb j a) || not (get_or table j null == null)) ≡ true
    next j a b e s h = elim (Bool-cases (j == i)) [
      | inl same ↦
          let here : j ≡ i = ground arith in
          let used : (get_or table j null == null) ≡ false =
            ap (λ k. get_or table k null == null) here ∙ e in
          rw used (ground arith)
      | inr other ↦ ground arith
    ]

module _ (v : Vfs) (c : Counted v) (fd : ℕ) (h : fd < 32) (empty : slot fd v ≡ null) (f : ℕ)
    (n : f ≢ null) where
  with_one :
      (q : ℕ → Bool)
      → q null ≡ false
      → tally q (set v.table fd f ++ v.others) ≡ tally q (slots v) + one_if (q f)
  with_one q z =
      let moved : tally q (set v.table fd f) + one_if (q (slot fd v))
          ≡ tally q v.table + one_if (q f) =
        tally-set q v.table fd f (omega (arith, c.size)) in
      let none_there : one_if (q (slot fd v)) ≡ 0 = ap (λ s. one_if (q s)) empty ∙ ap one_if z in
      omega (
        arith,
        moved,
        none_there,
        tally-append q (set v.table fd f) v.others,
        tally-append q v.table v.others,
      )

  attach-Counted : Counted (add_ref f (put_slot fd f v))
  unfolding put_slot
  attach-Counted =
      add_ref-Counted f (put_slot fd f v) v.table v.others c n (length-set v.table fd f ∙ c.size)
        (omega (
          arith,
          c.room,
          length-append (set v.table fd f) v.others,
          length-append v.table v.others,
          length-set v.table fd f,
        ))
        with_one

-- What a new descriptor for the open file `f` changes.
pub record Attached (v : Vfs) (fd f : ℕ) (v' : Vfs) : Type 0 where
  pub counted : Counted v'
  pub slots_of : (j : ℕ) → slot j v' ≡ (if j == fd then f else slot j v)
  pub others : v'.others ≡ v.others
  pub same_offset : (s : ℕ) → (v'.files s).offset ≡ (v.files s).offset

attach-Attached :
    (v : Vfs) (fd f : ℕ)
    → Counted v
    → fd < 32
    → slot fd v ≡ null
    → f ≢ null
    → Attached v fd f (add_ref f (put_slot fd f v))
unfolding put_slot
attach-Attached v fd f c h empty n = record {
  counted = attach-Counted v c fd h empty f n;
  slots_of = λ j.
      ap (λ tb. get_or tb j null) (add_ref-slots f (put_slot fd f v)).0
      ∙ at_or_else fd f (λ j. get_or (set v.table fd f) j null) (λ j. slot j v)
          (get_or-set_self v.table fd f null (omega (arith, c.size)))
          (λ a k. get_or-set_ne v.table fd a f null (λ z. k (sym z))) j;
  others = (add_ref-slots f (put_slot fd f v)).1;
  same_offset = (add_ref-same f (put_slot fd f v)).offset;
}

-- `dup` gives -1 and changes nothing if the number is no open descriptor, or if none of 3 to 31
-- is free. Otherwise it gives the lowest free descriptor from 3 on, which then holds the same open
-- file; no other slot changes and the counts stay exact.
pub dup-Attached :
    (v : Vfs) (oldfd : ℤ)
    → Counted v
    → ((dup oldfd v ≡ (minus_one, v)) × ((lookup oldfd v ≡ null) ⊎ AllUsed 3 32 v.table))
      ⊎ ((fd : ℕ) × (v' : Vfs) × (dup oldfd v ≡ (pos fd, v'))
          × (fd < 32)
          × (lookup oldfd v ≢ null)
          × Lowest 3 v.table fd
          × Attached v fd (lookup oldfd v) v')
unfolding dup dup_to
dup-Attached v oldfd c = elim (Bool-cases (lookup oldfd v == null)) [
  | inl e ↦ inl (rw e refl, inl (ground arith))
  | inr e ↦ elim (first_free-cases 29 3 v.table) [
    | inl (full, used) ↦ inl (rw (e, full) refl, inr used)
    | inr (fd, free, small, l) ↦ inr (
      fd,
      add_ref (lookup oldfd v) (put_slot fd (lookup oldfd v) v),
      rw (e, free) refl,
      small,
      ground arith,
      l,
      attach-Attached v fd (lookup oldfd v) c small l.free (ground arith),
    )
  ]
]

close_there :
    (v : Vfs) (n : ℕ)
    → Counted v
    → n < 32
    → (slot n v == null) ≡ false
    → Closed v n (close (pos n) v).1
close_there v n c h used = elim (close-Closed v (pos n) c) [
  | inl (none_there, _) ↦
      let looked : lookup (pos n) v ≡ slot n v = ground arith in absurd (ground arith)
  | inr (_, v', ran, d) ↦ subst (λ w. Closed v n w) (sym (ap (λ (r : ℤ × Vfs). r.1) ran)) d
]

-- The state in which the slot `n` holds nothing.
abbrev pub emptied : ℕ → Vfs → Vfs
emptied n v = if slot n v == null then v else (close (pos n) v).1

record Cleared (v : Vfs) (n : ℕ) (u : Vfs) : Type 0 where
  counted : Counted u
  empty : slot n u ≡ null
  slots_of : (j : ℕ) → slot j u ≡ (if j == n then null else slot j v)
  others : u.others ≡ v.others

emptied-Cleared : (v : Vfs) (n : ℕ) → Counted v → n < 32 → Cleared v n (emptied n v)
emptied-Cleared v n c h = elim (Bool-cases (slot n v == null)) [
  | inl e ↦
      let there : slot n v ≡ null = ground arith in
      rw e (record {
        counted = c;
        empty = there;
        slots_of = λ j. at_or_else n null (λ j. slot j v) (λ j. slot j v) there (λ a k. refl) j;
        others = refl;
      })
  | inr e ↦
      let d : Closed v n (close (pos n) v).1 = close_there v n c h e in
      rw e (record {
        counted = d.counted;
        empty =
            ap (λ tb. get_or tb n null) d.table
            ∙ get_or-set_self v.table n null null (omega (arith, c.size));
        slots_of = λ j.
            ap (λ tb. get_or tb j null) d.table
            ∙ at_or_else n null (λ j. get_or (set v.table n null) j null) (λ j. slot j v)
                (get_or-set_self v.table n null null (omega (arith, c.size)))
                (λ a k. get_or-set_ne v.table n a null null (λ z. k (sym z))) j;
        others = d.others;
      })
]

-- A new reference frees nothing.
add_ref-events : (f : ℕ) (v : Vfs) → (add_ref f v).events ≡ v.events
unfolding add_ref add_end set_refcount at_pipe
add_ref-events f v = ground arith

-- What `dup2` leaves: the new number is another name of the open file.
pub record Moved (v : Vfs) (fd f : ℕ) (v' : Vfs) : Type 0 where
  pub counted : Counted v'
  pub slots_of : (j : ℕ) → slot j v' ≡ (if j == fd then f else slot j v)
  pub others : v'.others ≡ v.others
  pub events : v'.events ≡ (emptied fd v).events

pub dup2-Moved :
    (v : Vfs) (oldfd : ℤ) (newfd : ℤ)
    → Counted v
    → ((dup2 oldfd newfd v ≡ (minus_one, v))
        × (((lookup oldfd v ≡ null) ⊎ (in_range newfd ≡ false))))
      ⊎ (((index oldfd ≡ index newfd) × (dup2 oldfd newfd v ≡ (newfd, v)))
          ⊎ ((index oldfd ≢ index newfd)
              × (v' : Vfs) × (dup2 oldfd newfd v ≡ (newfd, v'))
              × Moved v (index newfd) (lookup oldfd v) v'))
unfolding dup2
dup2-Moved v oldfd (negsuc n) c = inl (refl, inr refl)
dup2-Moved v (negsuc m) (pos n) c = inl (ground arith, inl refl)
dup2-Moved v (pos m) (pos n) c = elim (Bool-cases (ltb n max_fd)) [
  | inr e ↦ inl (rw e refl, inr e)
  | inl e ↦ elim (Bool-cases (lookup (pos m) v == null)) [
    | inl e2 ↦ inl (rw (e, e2) refl, inl (ground arith))
    | inr e2 ↦ elim (Bool-cases (m == n)) [
      | inl e3 ↦ let same : m ≡ n = ground arith in inr (inl (same, rw (e, e2, e3) refl))
      | inr e3 ↦
          let small : n < 32 = ground arith in
          let u : Cleared v n (emptied n v) = emptied-Cleared v n c small in
          let f = lookup (pos m) v in
          let a : Attached (emptied n v) n f (add_ref f (put_slot n f (emptied n v))) =
            attach-Attached (emptied n v) n f u.counted small u.empty (ground arith) in
          inr (
            inr (
              (λ z. let r : (m == n) ≡ true = ground arith in absurd (ground arith)),
              add_ref f (put_slot n f (emptied n v)),
              rw (e, e2, e3) refl,
              record {
                counted = a.counted;
                slots_of = λ j.
                    a.slots_of j ∙ ap (λ s. if j == n then f else s) (u.slots_of j) ∙ ground arith;
                others = a.others ∙ u.others;
                events = add_ref-events f (put_slot n f (emptied n v));
              },
            ))
    ]
  ]
]
