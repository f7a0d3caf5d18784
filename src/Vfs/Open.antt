-- ===== src/Vfs/Open.antt =====
-- New open files: `open` on a found node, and `pipe`.
use curls.Prelude.{
  ℕ, ◌+◌, ◌<◌, ◌≡◌, refl, sym, ap, ap₂, ◌∙◌, subst, ◌≢◌, inl, inr, ◌⊎◌, Bool, true, false, ◌&&◌,
  ◌||◌, [], ◌∷◌, ◌++◌, append-nil, arith,
}
use curls.Prelude.Tests.{not, ◌==◌, if◌then◌else◌, Bool-cases}
use curls.Prelude.Int.{pos, minus_one}
use curls.Prelude.Lists.{get_or, set, length-set, length-append, get_or-set_self, get_or-set_ne}
use curls.Prelude.Store.{update, update_self, at_or_else}
use curls.Prelude.Bits.{test_bit}
use curls.Task.{null}
use curls.Vfs.{zeroed, Vfs, is_pipe, slot, put_slot, file_create, truncate, open_at, open_node}
use curls.Vfs.Counts.{tally, is, one_if, tally-append, tally-set, tally-agree, tally-ext}
use curls.Vfs.Refs.{slots, Counted, is_reader, is_writer}
use curls.Vfs.Dup.{Lowest, AllUsed, first_free-cases}

-- A new file at an address that no slot holds, in an empty slot.
module _ (a node flags fd : ℕ) (v : Vfs) (c : Counted v) (n : a ≢ null)
    (fresh : tally (is a) (slots v) ≡ 0) (h : fd < 32) (empty : slot fd v ≡ null) where
  installed : Vfs
  installed = put_slot fd a (file_create a node flags v)

  slots_with :
      (q : ℕ → Bool) → q null ≡ false → tally q (slots installed) ≡ tally q (slots v) + one_if (q a)
  unfolding installed put_slot file_create
  slots_with q z =
      let moved : tally q (set v.table fd a) + one_if (q (slot fd v))
          ≡ tally q v.table + one_if (q a) =
        tally-set q v.table fd a (omega (arith, c.size)) in
      let none_there : one_if (q (slot fd v)) ≡ 0 = ap (λ s. one_if (q s)) empty ∙ ap one_if z in
      omega (
        arith,
        moved,
        none_there,
        tally-append q (set v.table fd a) v.others,
        tally-append q v.table v.others,
      )

  installed-refcount :
      (f : ℕ) → (installed.files f).refcount ≡ (if f == a then 1 else (v.files f).refcount)
  unfolding installed put_slot file_create update
  installed-refcount f = ground arith

  installed-refs : (f : ℕ) → (installed.files f).refcount ≡ tally (is f) (slots installed)
  installed-refs f = elim (Bool-cases (f == a)) [
    | inl e ↦
        let same : a ≡ f = ground arith in
        let here : is a a ≡ true = ground arith in
        installed-refcount f
        ∙ rw e (
            sym (
              subst (λ g. tally (is g) (slots installed) ≡ 1) same
                (slots_with (is a) refl ∙ ap₂ (λ k (b : Bool). k + one_if b) fresh here)))
    | inr e ↦
        let off : is f a ≡ false = ground arith in
        installed-refcount f
        ∙ rw e (
            c.refs f
            ∙ sym (
                slots_with (is f) refl
                ∙ ap (λ b. tally (is f) (slots v) + one_if b) off
                ∙ omega arith))
  ]

  -- A property of slots that the new file has not, and that the others keep.
  keeps_tally :
      (q r : ℕ → Bool)
      → q null ≡ false
      → r null ≡ false
      → r a ≡ false
      → ((s : ℕ) → s ≢ a → q s ≡ r s)
      → tally q (slots v) ≡ tally r (slots installed)
  keeps_tally q r z z' off same =
      tally-agree a q r (slots v) fresh (z ∙ sym z') same
      ∙ sym (slots_with r z' ∙ ap (λ b. tally r (slots v) + one_if b) off ∙ omega arith)

  installed-Counted : is_pipe (v.nodes node) ≡ false → Counted installed
  unfolding installed put_slot file_create update is_reader is_writer
  installed-Counted plain = record {
    refs = installed-refs;
    readers = λ p.
        c.readers p
        ∙ keeps_tally (is_reader v p) (is_reader installed p) refl refl (ground arith)
            (λ s k. ground arith);
    writers = λ p.
        c.writers p
        ∙ keeps_tally (is_writer v p) (is_writer installed p) refl refl (ground arith)
            (λ s k. ground arith);
    size = length-set v.table fd a ∙ c.size;
    room = omega (
      arith,
      c.room,
      length-append (set v.table fd a) v.others,
      length-append v.table v.others,
      length-set v.table fd a,
    );
  }

-- Truncation moves no count.
truncate-Counted : (node flags : ℕ) (v : Vfs) → Counted v → Counted (truncate node flags v)
unfolding truncate update is_reader is_writer
truncate-Counted node flags v c =
    elim (Bool-cases (test_bit flags 9 && (test_bit flags 0 || test_bit flags 1))) [
      | inr e ↦ rw e c
      | inl e ↦ rw e (record {
        refs = c.refs;
        readers = λ p. c.readers p ∙ tally-ext _ _ (slots v) (λ s. ground arith);
        writers = λ p. c.writers p ∙ tally-ext _ _ (slots v) (λ s. ground arith);
        size = c.size;
        room = c.room;
      })
    ]

truncate-same :
    (node flags : ℕ) (v : Vfs)
    → ((truncate node flags v).table ≡ v.table)
      × ((truncate node flags v).others ≡ v.others)
      × ((n : ℕ) → ((truncate node flags v).nodes n).flags ≡ (v.nodes n).flags)
unfolding truncate update
truncate-same node flags v = ground arith

-- O_TRUNC with O_WRONLY or O_RDWR.
abbrev truncates : ℕ → Bool
truncates flags = test_bit flags 9 && (test_bit flags 0 || test_bit flags 1)

-- The node is empty if the flags ask for that, its memory is zeroed if it has some, and no other node
-- changes.
pub record Truncated (v : Vfs) (node flags : ℕ) (v' : Vfs) : Type 0 where
  pub length_of : (v'.nodes node).length ≡ (if truncates flags then 0 else (v.nodes node).length)
  pub kept : (j : ℕ) → j ≢ node → v'.nodes j ≡ v.nodes j
  pub impl : (v'.nodes node).impl ≡ (v.nodes node).impl
  pub zeroed_memory : v'.events ≡ (
      if truncates flags && not ((v.nodes node).impl == 0)
      then v.events ++ zeroed (v.nodes node).impl ∷ []
      else v.events)

truncate-Truncated : (node flags : ℕ) (v : Vfs) → Truncated v node flags (truncate node flags v)
unfolding truncate update
truncate-Truncated node flags v = record {
  length_of = ground arith;
  kept = λ j n. ground arith;
  impl = ground arith;
  zeroed_memory = elim (Bool-cases (truncates flags)) [
    | inr e ↦ rw e refl
    | inl e ↦ elim (Bool-cases ((v.nodes node).impl == 0)) [
      | inl z ↦ rw (e, z) (append-nil v.events)
      | inr z ↦ rw (e, z) refl
    ]
  ];
}

-- What a successful `open` leaves.
pub record Opened (v : Vfs) (a node flags fd : ℕ) (v' : Vfs) : Type 0 where
  pub counted : Counted v'
  pub slots_of : (j : ℕ) → slot j v' ≡ (if j == fd then a else slot j v)
  pub file : v'.files a ≡ record { node = node; offset = 0; flags = flags; refcount = 1 }
  pub truncated : Truncated v node flags v'

opened :
    (a node flags fd : ℕ) (v u : Vfs)
    → Counted v
    → Counted u
    → u.table ≡ v.table
    → u.others ≡ v.others
    → is_pipe (u.nodes node) ≡ false
    → a ≢ null
    → tally (is a) (slots v) ≡ 0
    → fd < 32
    → slot fd v ≡ null
    → Truncated v node flags u
    → Opened v a node flags fd (put_slot fd a (file_create a node flags u))
unfolding put_slot file_create installed
opened a node flags fd v u c cu tables rest plain n fresh h empty cut =
    let fresh' : tally (is a) (slots u) ≡ 0 =
      ap₂ (λ xs ys. tally (is a) (xs ++ ys)) tables rest ∙ fresh in
    let empty' : slot fd u ≡ null = ap (λ xs. get_or xs fd null) tables ∙ empty in
    record {
      counted = installed-Counted a node flags fd u cu n fresh' h empty' plain;
      slots_of = λ j.
          ap (λ tb. get_or (set tb fd a) j null) tables
          ∙ at_or_else fd a (λ j. get_or (set v.table fd a) j null) (λ j. slot j v)
              (get_or-set_self v.table fd a null (omega (arith, c.size)))
              (λ b k. get_or-set_ne v.table fd b a null (λ z. k (sym z))) j;
      file = update_self u.files a _;
      truncated = record {
        length_of = cut.length_of;
        kept = cut.kept;
        impl = cut.impl;
        zeroed_memory = cut.zeroed_memory;
      };
    }

-- `open` on a found node that is no pipe, with a file at an address that no slot holds. It gives -1
-- when 3 to 31 are in use. Otherwise it gives the lowest free descriptor from 3 on, which holds the new
-- file at offset 0 with one reference; no other slot changes. In both cases the counts stay exact, and the
-- node is made empty just if the flags have O_TRUNC with O_WRONLY or O_RDWR; its memory is then zeroed.
pub open_node-Opened :
    (a node flags : ℕ) (v : Vfs)
    → Counted v
    → a ≢ null
    → tally (is a) (slots v) ≡ 0
    → is_pipe (v.nodes node) ≡ false
    → ((v' : Vfs) × (open_node a node flags v ≡ (minus_one, v'))
        × AllUsed 3 32 v.table
        × Counted v'
        × Truncated v node flags v')
      ⊎ ((fd : ℕ) × (v' : Vfs) × (open_node a node flags v ≡ (pos fd, v'))
          × (fd < 32)
          × Lowest 3 v.table fd
          × Opened v a node flags fd v')
unfolding open_node open_at
open_node-Opened a node flags v c n fresh plain =
    let u = truncate node flags v in
    let cu : Counted u = truncate-Counted node flags v c in
    let (tables, rest, kinds) = truncate-same node flags v in
    elim (first_free-cases 29 3 v.table) [
      | inl (full, used) ↦ inl (u, rw full refl, used, cu, truncate-Truncated node flags v)
      | inr (fd, free, small, l) ↦ inr (
        fd,
        put_slot fd a (file_create a node flags u),
        rw free refl,
        small,
        l,
        opened a node flags fd v u c cu tables rest (ap (λ k. test_bit k 12) (kinds node) ∙ plain) n
            fresh small l.free (truncate-Truncated node flags v),
      )
    ]
