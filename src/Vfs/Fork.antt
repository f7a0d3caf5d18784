-- ===== src/Vfs/Fork.antt =====
-- The descriptors that a child inherits in `task_fork`.
use curls.Prelude.{
  ℕ, ◌+◌, ◌^◌, ◌<◌, ◌≡◌, refl, sym, ap, ap₂, ◌∙◌, inl, inr, Bool, List, [], ◌∷◌, ◌++◌, append-nil,
  append_assoc, arith,
}
use curls.Prelude.Tests.{◌==◌, Bool-cases}
use curls.Prelude.Lists.{length, length-append}
use curls.Task.{null}
use curls.Vfs.{Vfs, inherit, inherit_all, fork_table}
use curls.Vfs.Counts.{tally, one_if, tally-append}
use curls.Vfs.Refs.{slots, Counted, is_reader, is_writer}
use curls.Vfs.Attach.{add_ref-Counted, add_ref-slots}

-- What one more slot with `f` among the others does.
record Inherited (v : Vfs) (fs : List ℕ) (v' : Vfs) : Type 0 where
  counted : Counted v'
  table : v'.table ≡ v.table
  others : v'.others ≡ v.others ++ fs

more-slots :
    (q : ℕ → Bool) (xs ys : List ℕ) (f : ℕ)
    → tally q (xs ++ (ys ++ f ∷ [])) ≡ tally q (xs ++ ys) + one_if (q f)
more-slots q xs ys f =
    omega
      (arith, tally-append q xs (ys ++ f ∷ []), tally-append q xs ys, tally-append q ys (f ∷ []))

more-room : (xs ys : List ℕ) (f : ℕ) → length (xs ++ (ys ++ f ∷ [])) ≡ length (xs ++ ys) + 1
more-room xs ys f =
    omega (arith, length-append xs (ys ++ f ∷ []), length-append xs ys, length-append ys (f ∷ []))

inherit-null :
    (v : Vfs)
    → Counted v
    → length (slots v) + 1 < 2 ^ 32
    → Counted (record v { others = v.others ++ null ∷ [] })
unfolding is_reader is_writer
inherit-null v c room = record {
  refs = λ f. c.refs f ∙ (omega (arith, more-slots _ v.table v.others null));
  readers = λ p. c.readers p ∙ (omega (arith, more-slots (is_reader v p) v.table v.others null));
  writers = λ p. c.writers p ∙ (omega (arith, more-slots (is_writer v p) v.table v.others null));
  size = c.size;
  room = omega (arith, room, more-room v.table v.others null);
}

inherit-Inherited :
    (v : Vfs) (f : ℕ)
    → Counted v
    → length (slots v) + 1 < 2 ^ 32
    → Inherited v (f ∷ []) (inherit f v)
unfolding inherit
inherit-Inherited v f c room = elim (Bool-cases (f == null)) [
  | inl e ↦
      let at_null : null ≡ f = ground arith in
      rw e (record {
        counted = inherit-null v c room;
        table = refl;
        others = ap (λ g. v.others ++ g ∷ []) at_null;
      })
  | inr e ↦ rw e (record {
    counted =
        add_ref-Counted f (record v { others = v.others ++ f ∷ [] }) v.table v.others c
          (ground arith) c.size (omega (arith, room, more-room v.table v.others f))
          (λ q z. more-slots q v.table v.others f);
    table = (add_ref-slots f (record v { others = v.others ++ f ∷ [] })).0;
    others = (add_ref-slots f (record v { others = v.others ++ f ∷ [] })).1;
  })
]

inherit_all-Inherited :
    (fs : List ℕ) (v : Vfs)
    → Counted v
    → length (slots v) + length fs < 2 ^ 32
    → Inherited v fs (inherit_all fs v)
unfolding inherit_all
inherit_all-Inherited [] v c room = record {
  counted = c;
  table = refl;
  others = sym (append-nil v.others);
}
inherit_all-Inherited (f ∷ fs) v c room =
    let one : Inherited v (f ∷ []) (inherit f v) = inherit-Inherited v f c (omega (arith, room)) in
    let len : length (slots (inherit f v)) ≡ length (slots v) + 1 =
      ap₂ (λ xs ys. length (xs ++ ys)) one.table one.others ∙ more-room v.table v.others f in
    let rest : Inherited (inherit f v) fs (inherit_all fs (inherit f v)) =
      inherit_all-Inherited fs (inherit f v) one.counted (omega (arith, room, len)) in
    record {
      counted = rest.counted;
      table = rest.table ∙ one.table;
      others = rest.others ∙ ap (λ xs. xs ++ fs) one.others ∙ append_assoc v.others (f ∷ []) fs;
    }

-- A fork: the parent keeps its descriptors, the child's slots are a copy of them, and with room
-- for 32 more references the counts are exact for the parent, the child and all other tasks.
pub fork_table-Counted :
    (v : Vfs)
    → Counted v
    → length (slots v) + 32 < 2 ^ 32
    → Counted (fork_table v)
      × ((fork_table v).table ≡ v.table)
      × ((fork_table v).others ≡ v.others ++ v.table)
unfolding fork_table
fork_table-Counted v c room =
    let r : Inherited v v.table (inherit_all v.table v) =
      inherit_all-Inherited v.table v c (omega (arith, room, c.size)) in
    (r.counted, r.table, r.others)
