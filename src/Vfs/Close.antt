-- ===== src/Vfs/Close.antt =====
-- `close` and `vfs_close_all_fds`: exact counts, and what is freed when.
use curls.Prelude.{
  ℕ, zero, suc, ◌+◌, ◌^◌, ◌<◌, ◌≡◌, refl, sym, ap, ◌∙◌, ◌≢◌, inl, inr, ◌⊎◌, Bool, true, false, List,
  [], ◌∷◌, ◌++◌, arith,
}
use curls.Prelude.Tests.{ltb, ◌==◌, if◌then◌else◌, Bool-cases}
use curls.Prelude.Int.{ℤ, pos, negsuc, minus_one}
use curls.Prelude.Lists.{
  length, get_or, set, length-set, length-append, get_or-set_self, get_or-set_ne, get_or-out,
}
use curls.Prelude.Store.{at_or_else}
use curls.Task.{null}
use curls.Vfs.{
  Vfs, Event, freed_file, slot, lookup, index, put_slot, close_slot, close, close_from,
  close_all_fds, node_events, max_fd,
}
use curls.Vfs.Counts.{tally, is, one_if, tally-append, tally-set}
use curls.Vfs.Refs.{slots, Counted}
use curls.Vfs.Detach.{drop_ref-Counted, drop_ref-slots, drop_ref-events}

module _ (v : Vfs) (c : Counted v) (fd : ℕ) (h : fd < 32) (n : slot fd v ≢ null) where
  after-set :
      (q : ℕ → Bool)
      → q null ≡ false
      → tally q (set v.table fd null ++ v.others) + one_if (q (slot fd v)) ≡ tally q (slots v)
  after-set q z =
      let moved : tally q (set v.table fd null) + one_if (q (slot fd v))
          ≡ tally q v.table + one_if (q null) =
        tally-set q v.table fd null (omega (arith, c.size)) in
      let none_there : one_if (q null) ≡ 0 = ap one_if z in
      omega (
        arith,
        moved,
        none_there,
        tally-append q (set v.table fd null) v.others,
        tally-append q v.table v.others,
      )

  room-set : length (set v.table fd null ++ v.others) < 2 ^ 32
  room-set = omega (
    arith,
    c.room,
    length-append (set v.table fd null) v.others,
    length-append v.table v.others,
    length-set v.table fd null,
  )

  pub close_slot-Counted : Counted (close_slot fd v)
  unfolding close_slot put_slot
  close_slot-Counted =
      drop_ref-Counted (slot fd v) (put_slot fd null v) v.table v.others c n
        (length-set v.table fd null ∙ c.size) room-set after-set

  pub close_slot-slots :
      ((close_slot fd v).table ≡ set v.table fd null) × ((close_slot fd v).others ≡ v.others)
  unfolding close_slot put_slot
  close_slot-slots = drop_ref-slots (slot fd v) (put_slot fd null v)

-- What the last reference to the file at `f` calls, in the state that it leaves.
abbrev pub last_events : ℕ → ℕ → Vfs → List Event
last_events f node v' =
    if tally (is f) (slots v') == 0 then node_events node v' ++ freed_file f ∷ [] else []

-- What closing a descriptor in use does.
pub record Closed (v : Vfs) (fd : ℕ) (v' : Vfs) : Type 0 where
  pub counted : Counted v'
  pub table : v'.table ≡ set v.table fd null
  pub others : v'.others ≡ v.others
  pub events : v'.events ≡ v.events ++ last_events (slot fd v) (v.files (slot fd v)).node v'

close_slot-Closed :
    (v : Vfs) (fd : ℕ) → Counted v → fd < 32 → slot fd v ≢ null → Closed v fd (close_slot fd v)
unfolding close_slot put_slot
close_slot-Closed v fd c h n =
    let c' : Counted (close_slot fd v) = close_slot-Counted v c fd h n in
    let same : is (slot fd v) (slot fd v) ≡ true = ground arith in
    record {
      counted = c';
      table = (close_slot-slots v c fd h n).0;
      others = (close_slot-slots v c fd h n).1;
      events =
          drop_ref-events (slot fd v) (put_slot fd null v)
          ∙ ap
              (λ k.
                v.events
                ++ (if k == 0
                    then node_events (v.files (slot fd v)).node (close_slot fd v)
                      ++ freed_file (slot fd v) ∷ []
                    else []))
              (c'.refs (slot fd v));
    }

-- With exact counts: `close` of a number that is no open descriptor gives -1 and changes nothing.
-- Otherwise it gives 0, the slot is empty, every other slot stays, the counts stay exact, and the
-- file is torn down and freed exactly when no slot of any task holds it any more.
pub close-Closed :
    (v : Vfs) (fd : ℤ)
    → Counted v
    → ((lookup fd v ≡ null) × (close fd v ≡ (minus_one, v)))
      ⊎ ((lookup fd v ≢ null) × (v' : Vfs) × (close fd v ≡ (pos 0, v')) × Closed v (index fd) v')
unfolding close
close-Closed v (negsuc n) c = inl (refl, refl)
close-Closed v (pos n) c = elim (Bool-cases (lookup (pos n) v == null)) [
  | inl e ↦ inl ((ground arith), rw e refl)
  | inr e ↦
      let used : lookup (pos n) v ≢ null = ground arith in
      let small : n < 32 = ground arith in
      let here : slot n v ≢ null = ground arith in
      inr (used, close_slot n v, rw e refl, close_slot-Closed v n c small here)
]

-- The loop over the descriptors `i` to 31 empties them and keeps the counts exact.
pub record Emptied (v : Vfs) (i : ℕ) (v' : Vfs) : Type 0 where
  pub counted : Counted v'
  pub others : v'.others ≡ v.others
  pub slots_of : (j : ℕ) → slot j v' ≡ (if ltb j i then slot j v else null)

close_here : Vfs → ℕ → Vfs
close_here v i = if slot i v == null then v else close_slot i v

record Here (v : Vfs) (i : ℕ) (v' : Vfs) : Type 0 where
  counted : Counted v'
  others : v'.others ≡ v.others
  slots_of : (j : ℕ) → slot j v' ≡ (if j == i then null else slot j v)

close_here-Here : (v : Vfs) (i : ℕ) → Counted v → i < 32 → Here v i (close_here v i)
unfolding close_here
close_here-Here v i c h = elim (Bool-cases (slot i v == null)) [
  | inl e ↦ rw e (record {
    counted = c;
    others = refl;
    slots_of =
        λ j. at_or_else i null (λ j. slot j v) (λ j. slot j v) (ground arith) (λ a n. refl) j;
  })
  | inr e ↦
      let d : Closed v i (close_slot i v) = close_slot-Closed v i c h (ground arith) in
      rw e (record {
        counted = d.counted;
        others = d.others;
        slots_of = λ j.
            ap (λ tb. get_or tb j null) d.table
            ∙ at_or_else i null (λ j. get_or (set v.table i null) j null) (λ j. slot j v)
                (get_or-set_self v.table i null null (omega (arith, c.size)))
                (λ a n. get_or-set_ne v.table i a null null (λ z. n (sym z))) j;
      })
]

close_from-Emptied :
    (k : ℕ) (v : Vfs) (i : ℕ) → Counted v → i + k ≡ 32 → Emptied v i (close_from k i v)
unfolding close_from close_here
close_from-Emptied zero v i c h = record {
  counted = c;
  others = refl;
  slots_of = λ j. elim (Bool-cases (ltb j i)) [
    | inl e ↦ rw e refl
    | inr e ↦
        rw e
          (get_or-out v.table j null (let out : 32 < suc j = ground arith in omega (arith, c.size)))
  ];
}
close_from-Emptied (suc k) v i c h =
    let one : Here v i (close_here v i) = close_here-Here v i c (omega arith) in
    let rest : Emptied (close_here v i) (i + 1) (close_from k (i + 1) (close_here v i)) =
      close_from-Emptied k (close_here v i) (i + 1) one.counted (omega arith) in
    record {
      counted = rest.counted;
      others = rest.others ∙ one.others;
      slots_of = λ j.
          rest.slots_of j
          ∙ ap (λ s. if ltb j (i + 1) then s else null) (one.slots_of j)
          ∙ ground arith;
    }

-- A task that exits: afterwards its table is empty, no slot of another task has changed, and
-- every count of references, readers and writers is exact for the slots that are left.
pub close_all_fds-Emptied :
    (v : Vfs)
    → Counted v
    → Counted (close_all_fds v)
      × ((close_all_fds v).others ≡ v.others)
      × ((fd : ℕ) → slot fd (close_all_fds v) ≡ null)
unfolding close_all_fds
close_all_fds-Emptied v c =
    let r : Emptied v 0 (close_from max_fd 0 v) = close_from-Emptied max_fd v 0 c (omega arith) in
    (r.counted, r.others, λ fd. r.slots_of fd ∙ ground arith)
