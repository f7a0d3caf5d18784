-- ===== src/Vfs/Detach.antt =====
-- A reference that a file loses keeps the counts exact.
use curls.Prelude.{
  ℕ, suc, ◌+◌, ◌-◌, ◌^◌, ◌<◌, ◌≡◌, refl, sym, ap, ◌∙◌, ap₂, subst, ◌≢◌, inl, inr, Bool, true, false,
  List, [], ◌∷◌, ◌++◌, arith, append-nil,
}
use curls.Prelude.Tests.{◌==◌, if◌then◌else◌, Bool-cases, ==_refl}
use curls.Prelude.Lists.{length}
use curls.Prelude.Store.{update}
use curls.Task.{null}
use curls.Pipe
use curls.Pipe.{Pipe, World, inc32, dec32}
use curls.Vfs.{
  Vfs, File, at_pipe, remove_end, remove_end, set_refcount, drop_ref, teardown, node_events,
  freed_file, drop_ref, teardown,
}
use curls.Vfs.Counts.{tally, is, one_if, tally-ext, tally-le}
use curls.Vfs.Refs.{
  slots, is_reader, is_writer, Counted, SameObjects, is_reader-same, is_writer-same,
}

-- A 32-bit count that goes down with what it counts.
recount32 :
    (b : Bool) (k old new : ℕ)
    → k ≡ old
    → new + one_if b ≡ old
    → old < 2 ^ 32
    → (if b then dec32 k else k) ≡ new
recount32 true k old new e m h = omega arith
recount32 false k old new e m h = omega arith

recount :
    (b : Bool) (k old new : ℕ) → k ≡ old → new + one_if b ≡ old → (if b then k - 1 else k) ≡ new
recount true k old new e m = omega arith
recount false k old new e m = omega arith

module _ (f : ℕ) (v : Vfs) where
  pub drop_ref-same : SameObjects v (drop_ref f v)
  unfolding drop_ref remove_end set_refcount at_pipe teardown update
  drop_ref-same = record {
    node = λ s. ground arith;
    flags = λ s. ground arith;
    offset = λ s. ground arith;
    nodes = λ n. ground arith;
  }

  pub drop_ref-refcount :
      (a : ℕ)
      → ((drop_ref f v).files a).refcount
        ≡ (if a == f then dec32 (v.files a).refcount else (v.files a).refcount)
  unfolding drop_ref remove_end set_refcount at_pipe teardown update
  drop_ref-refcount a = ground arith

  drop_ref-readers :
      (p : ℕ)
      → f ≢ null
      → ((drop_ref f v).pipes p).readers
        ≡ (if is_reader v p f then (v.pipes p).readers - 1 else (v.pipes p).readers)
  unfolding drop_ref remove_end set_refcount at_pipe teardown update is_reader Pipe.remove_reader
      Pipe.remove_writer Pipe.drop_count
  drop_ref-readers p n = ground arith

  drop_ref-writers :
      (p : ℕ)
      → f ≢ null
      → ((drop_ref f v).pipes p).writers
        ≡ (if is_writer v p f then (v.pipes p).writers - 1 else (v.pipes p).writers)
  unfolding drop_ref remove_end set_refcount at_pipe teardown update is_writer Pipe.remove_reader
      Pipe.remove_writer Pipe.drop_count
  drop_ref-writers p n = ground arith

  pub drop_ref-slots : ((drop_ref f v).table ≡ v.table) × ((drop_ref f v).others ≡ v.others)
  unfolding drop_ref remove_end set_refcount at_pipe teardown
  drop_ref-slots = ground arith

  -- Where the slots hold one reference to `f` less, the counts are exact again.
  pub drop_ref-Counted :
      (table others : List ℕ)
      → Counted (record v { table = table; others = others })
      → f ≢ null
      → length v.table ≡ 32
      → length (slots v) < 2 ^ 32
      → ((q : ℕ → Bool)
          → q null ≡ false
          → tally q (slots v) + one_if (q f) ≡ tally q (table ++ others))
      → Counted (drop_ref f v)
  unfolding is_reader is_writer
  drop_ref-Counted table others c n size room less = record {
    refs = λ a.
        let new : tally (is a) (slots v) + one_if (a == f) ≡ tally (is a) (table ++ others) =
          ap (λ b. tally (is a) (slots v) + one_if b) (ground arith) ∙ less (is a) refl in
        drop_ref-refcount a
        ∙ recount32 (a == f) _ _ _ (c.refs a) new (
            let b : tally (is a) (table ++ others) < suc (length (table ++ others)) =
              tally-le (is a) (table ++ others) in
            omega (arith, c.room))
        ∙ ap (tally (is a)) same;
    readers = λ p.
        drop_ref-readers p n
        ∙ recount (is_reader v p f) _ _ _ (c.readers p) (less (is_reader v p) refl)
        ∙ tally-ext _ _ (slots v) (λ s. sym (is_reader-same v (drop_ref f v) p s drop_ref-same))
        ∙ ap (tally (is_reader (drop_ref f v) p)) same;
    writers = λ p.
        drop_ref-writers p n
        ∙ recount (is_writer v p f) _ _ _ (c.writers p) (less (is_writer v p) refl)
        ∙ tally-ext _ _ (slots v) (λ s. sym (is_writer-same v (drop_ref f v) p s drop_ref-same))
        ∙ ap (tally (is_writer (drop_ref f v) p)) same;
    size = ap length drop_ref-slots.0 ∙ size;
    room = subst (λ xs. length xs < 2 ^ 32) same room;
  }
    where
      same : slots v ≡ slots (drop_ref f v)
      same = ap₂ (λ xs ys. xs ++ ys) (sym drop_ref-slots.0) (sym drop_ref-slots.1)

remove_end-files : (g : File) (u : Vfs) → (remove_end g u).files ≡ u.files
unfolding remove_end at_pipe
remove_end-files g u = ground arith

remove_end-events : (g : File) (u : Vfs) → (remove_end g u).events ≡ u.events
unfolding remove_end at_pipe
remove_end-events g u = ground arith

drop_ref-last :
    (f : ℕ) (v : Vfs)
    → (dec32 (v.files f).refcount == 0) ≡ true
    → (drop_ref f v).events
      ≡ v.events ++ (node_events (v.files f).node (drop_ref f v) ++ freed_file f ∷ [])
unfolding drop_ref teardown set_refcount update node_events
drop_ref-last f v e =
    let u = set_refcount f (dec32 (v.files f).refcount) v in
    let left = remove_end (v.files f) u in
    let node : (left.files f).node ≡ (v.files f).node =
      ap (λ (h : ℕ → File). (h f).node) (remove_end-files (v.files f) u) ∙ ground arith in
    rw e (
      ap₂ (λ es k. es ++ (node_events k left ++ freed_file f ∷ []))
        (remove_end-events (v.files f) u) node)

drop_ref-kept :
    (f : ℕ) (v : Vfs)
    → (dec32 (v.files f).refcount == 0) ≡ false
    → (drop_ref f v).events ≡ v.events ++ []
unfolding drop_ref set_refcount
drop_ref-kept f v e = rw e (
    remove_end-events (v.files f) (set_refcount f (dec32 (v.files f).refcount) v)
    ∙ sym (append-nil v.events))

-- What a lost reference calls: nothing while the count is not 0.
pub drop_ref-events :
    (f : ℕ) (v : Vfs)
    → (drop_ref f v).events
      ≡ v.events
        ++ (if ((drop_ref f v).files f).refcount == 0
            then node_events (v.files f).node (drop_ref f v) ++ freed_file f ∷ []
            else [])
drop_ref-events f v =
    let count : ((drop_ref f v).files f).refcount ≡ dec32 (v.files f).refcount =
      drop_ref-refcount f v f ∙ rw (==_refl f) refl in
    elim (Bool-cases (dec32 (v.files f).refcount == 0)) [
      | inl e ↦ rw (count, e) (drop_ref-last f v e)
      | inr e ↦ rw (count, e) (drop_ref-kept f v e)
    ]
