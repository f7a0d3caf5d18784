-- ===== src/Vfs/Attach.antt =====
-- A new reference to a file keeps the counts exact.
use curls.Prelude.{
  ℕ, ◌+◌, ◌^◌, ◌<◌, ◌≡◌, refl, sym, ap, ◌∙◌, ap₂, subst, ◌≢◌, Bool, true, false, List, ◌++◌, arith,
}
use curls.Prelude.Tests.{◌==◌, if◌then◌else◌}
use curls.Prelude.Lists.{length}
use curls.Prelude.Store.{update}
use curls.Task.{null}
use curls.Pipe
use curls.Pipe.{Pipe, World, inc32, dec32}
use curls.Vfs.{Vfs, at_pipe, add_end, set_refcount, add_ref}
use curls.Vfs.Counts.{tally, is, one_if, tally-ext, tally-le}
use curls.Vfs.Refs.{
  slots, is_reader, is_writer, Counted, SameObjects, is_reader-same, is_writer-same,
}

-- A 32-bit count that goes up with what it counts.
recount :
    (b : Bool) (k old new : ℕ)
    → k ≡ old
    → new ≡ old + one_if b
    → new < 2 ^ 32
    → (if b then inc32 k else k) ≡ new
recount true k old new e m h = omega arith
recount false k old new e m h = omega arith

module _ (f : ℕ) (v : Vfs) where
  pub add_ref-same : SameObjects v (add_ref f v)
  unfolding add_ref add_end set_refcount at_pipe update
  add_ref-same = record {
    node = λ s. ground arith;
    flags = λ s. ground arith;
    offset = λ s. ground arith;
    nodes = λ n. ground arith;
  }

  add_ref-refcount :
      (a : ℕ)
      → ((add_ref f v).files a).refcount
        ≡ (if a == f then inc32 (v.files a).refcount else (v.files a).refcount)
  unfolding add_ref add_end set_refcount at_pipe update
  add_ref-refcount a = ground arith

  add_ref-readers :
      (p : ℕ)
      → f ≢ null
      → ((add_ref f v).pipes p).readers
        ≡ (if is_reader v p f then inc32 (v.pipes p).readers else (v.pipes p).readers)
  unfolding add_ref add_end set_refcount at_pipe update is_reader Pipe.add_reader Pipe.add_writer
  add_ref-readers p n = ground arith

  add_ref-writers :
      (p : ℕ)
      → f ≢ null
      → ((add_ref f v).pipes p).writers
        ≡ (if is_writer v p f then inc32 (v.pipes p).writers else (v.pipes p).writers)
  unfolding add_ref add_end set_refcount at_pipe update is_writer Pipe.add_reader Pipe.add_writer
  add_ref-writers p n = ground arith

  pub add_ref-slots : ((add_ref f v).table ≡ v.table) × ((add_ref f v).others ≡ v.others)
  unfolding add_ref add_end set_refcount at_pipe
  add_ref-slots = ground arith

  -- Where the slots hold one more reference to `f`, the counts are exact again.
  pub add_ref-Counted :
      (table others : List ℕ)
      → Counted (record v { table = table; others = others })
      → f ≢ null
      → length v.table ≡ 32
      → length (slots v) < 2 ^ 32
      → ((q : ℕ → Bool)
          → q null ≡ false
          → tally q (slots v) ≡ tally q (table ++ others) + one_if (q f))
      → Counted (add_ref f v)
  unfolding is_reader is_writer
  add_ref-Counted table others c n size room more = record {
    refs = λ a.
        let new : tally (is a) (slots v) ≡ tally (is a) (table ++ others) + one_if (a == f) =
          more (is a) refl ∙ ap (λ b. tally (is a) (table ++ others) + one_if b) (ground arith) in
        add_ref-refcount a
        ∙ recount (a == f) _ _ _ (c.refs a) new (below (is a))
        ∙ ap (tally (is a)) same;
    readers = λ p.
        add_ref-readers p n
        ∙ recount (is_reader v p f) _ _ _ (c.readers p) (more (is_reader v p) refl)
            (below (is_reader v p))
        ∙ tally-ext _ _ (slots v) (λ s. sym (is_reader-same v (add_ref f v) p s add_ref-same))
        ∙ ap (tally (is_reader (add_ref f v) p)) same;
    writers = λ p.
        add_ref-writers p n
        ∙ recount (is_writer v p f) _ _ _ (c.writers p) (more (is_writer v p) refl)
            (below (is_writer v p))
        ∙ tally-ext _ _ (slots v) (λ s. sym (is_writer-same v (add_ref f v) p s add_ref-same))
        ∙ ap (tally (is_writer (add_ref f v) p)) same;
    size = ap length add_ref-slots.0 ∙ size;
    room = subst (λ xs. length xs < 2 ^ 32) same room;
  }
    where
      same : slots v ≡ slots (add_ref f v)
      same = ap₂ (λ xs ys. xs ++ ys) (sym add_ref-slots.0) (sym add_ref-slots.1)

      below : (q : ℕ → Bool) → tally q (slots v) < 2 ^ 32
      below q = omega (arith, tally-le q (slots v))
