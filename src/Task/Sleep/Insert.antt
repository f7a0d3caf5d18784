-- ===== src/Task/Sleep/Insert.antt =====
-- `sleepq_insert` puts the task into its place and keeps the queue sorted.
use curls.Prelude.{
  ℕ, ◌≤◌, ◌<◌, ◌≡◌, ◌≢◌, refl, sym, ap, ◌∙◌, inl, inr, false, some, List, [], ◌∷◌, subst, arith,
}
use curls.Prelude.Tests.{leb, ◌==◌, if◌then◌else◌, Bool-cases}
use curls.Prelude.Lists.{length}
use curls.Prelude.Store.{update, at_or_else}
use curls.Task.{Tasks, null}
use curls.Task.Sleep.{Sleepers, insert_loop, with_tasks, prepare, push, insert}
use curls.Task.Sleep.Chain.{
  Queued, SameKeys-all, Fresh, Chain, AllFrom, IsSorted, SameKeys, Chain-update, AllFrom-same,
  IsSorted-same, AllFrom-le, SameKeys-update,
}
use curls.Task.Sleep.Behind.{
  behind, behind-same, Fresh-behind, Distinct-behind, AllFrom-behind, IsSorted-behind,
}
use curls.Task.Sleep.Link.{Linked, insert_loop-Linked}

-- The place that the code chooses: before an equal head, else behind all that wake no later.
pub place : Tasks → ℕ → ℕ → List ℕ → List ℕ
unfolding behind
place ts t k [] = t ∷ []
place ts t k (x ∷ xs) = if leb k (ts x).sleep_until then t ∷ x ∷ xs else x ∷ behind ts t k xs

-- What `sleepq_insert` leaves.
pub record Inserted (s : Sleepers) (t k : ℕ) (xs : List ℕ) (s' : Sleepers) : Type 0 where
  pub queued : Queued s'.head s'.tasks (place s.tasks t k xs)
  pub keys : (a : ℕ) → (s'.tasks a).sleep_until ≡ (if a == t then k else (s.tasks a).sleep_until)

module _ (t k : ℕ) (s : Sleepers) where
  prepare-key : (prepare t k s.tasks t).sleep_until ≡ k
  unfolding prepare update
  prepare-key = ground arith

  prepare-others : (a : ℕ) → a ≢ t → (prepare t k s.tasks a).sleep_until ≡ (s.tasks a).sleep_until
  unfolding prepare update
  prepare-others a n = ground arith

  prepare-next : (a : ℕ) → a ≢ t → (prepare t k s.tasks a).sleep_next ≡ (s.tasks a).sleep_next
  unfolding prepare update
  prepare-next a n = ground arith

  push-key :
      (a : ℕ)
      → (push t s.head (prepare t k s.tasks) a).sleep_until ≡ (prepare t k s.tasks a).sleep_until
  unfolding push update
  push-key a = ground arith

  push-first : (push t s.head (prepare t k s.tasks) t).sleep_next ≡ s.head
  unfolding push update
  push-first = ground arith

  prepare-Chain :
      (p : ℕ) (xs : List ℕ) → Fresh t xs → Chain s.tasks p xs → Chain (prepare t k s.tasks) p xs
  unfolding prepare
  prepare-Chain p xs f c = Chain-update s.tasks t _ p xs f c

  push-Chain :
      (p : ℕ) (xs : List ℕ)
      → Fresh t xs
      → Chain (prepare t k s.tasks) p xs
      → Chain (push t s.head (prepare t k s.tasks)) p xs
  unfolding push
  push-Chain p xs f c = Chain-update (prepare t k s.tasks) t _ p xs f c

  prepare-keys : (xs : List ℕ) → Fresh t xs → SameKeys s.tasks (prepare t k s.tasks) xs
  unfolding prepare
  prepare-keys xs f = SameKeys-update s.tasks t _ xs f

  push-keys : (xs : List ℕ) → Fresh t xs → SameKeys s.tasks (push t s.head (prepare t k s.tasks)) xs
  push-keys [] f = tt
  push-keys (x ∷ xs) f = (push-key x ∙ prepare-others x (λ e. f.0 (sym e)), push-keys xs f.1)

  -- The task becomes the head.
  head-Inserted :
      (xs : List ℕ)
      → t ≢ null
      → Fresh t xs
      → Queued s.head s.tasks xs
      → AllFrom k s.tasks xs
      → place s.tasks t k xs ≡ t ∷ xs
      → Inserted s t k xs (record { head = t; tasks = push t s.head (prepare t k s.tasks) })
  head-Inserted xs tn f q later e = record {
    queued = rw e (record {
      chain = (
        refl,
        tn,
        subst (λ p. Chain (push t s.head (prepare t k s.tasks)) p xs) (sym push-first)
            (push-Chain s.head xs f (prepare-Chain s.head xs f q.chain)),
      );
      distinct = (f, q.distinct);
      sorted = (
        subst (λ j. AllFrom j (push t s.head (prepare t k s.tasks)) xs)
            (sym (push-key t ∙ prepare-key))
            (AllFrom-same k s.tasks (push t s.head (prepare t k s.tasks)) xs (push-keys xs f)
              later),
        IsSorted-same s.tasks (push t s.head (prepare t k s.tasks)) xs (push-keys xs f) q.sorted,
      );
    });
    keys = λ a. push-key a ∙ at_or_else t k _ _ prepare-key prepare-others a;
  }

  -- The task goes behind the head `x`.
  loop-Inserted :
      (x : ℕ) (xs : List ℕ) (us : Tasks)
      → t ≢ x
      → Fresh t xs
      → Queued s.head s.tasks (x ∷ xs)
      → leb k (s.tasks x).sleep_until ≡ false
      → Linked (prepare t k s.tasks) t k x xs us
      → Inserted s t k (x ∷ xs) (record { head = s.head; tasks = us })
  unfolding place
  loop-Inserted x xs us n f q e l =
      let same : (prepare t k s.tasks x).sleep_until ≡ (s.tasks x).sleep_until =
        prepare-others x (λ e'. n (sym e')) in
      let pt : Tasks = prepare t k s.tasks in
      let order : IsSorted pt (x ∷ xs) =
        IsSorted-same s.tasks pt (x ∷ xs) (same, prepare-keys xs f) q.sorted in
      let late : (prepare t k s.tasks x).sleep_until ≤ k = ground arith in
      let sorted : IsSorted us (x ∷ behind (prepare t k s.tasks) t k xs) =
        IsSorted-same pt us (x ∷ behind pt t k xs)
          (SameKeys-all pt us (x ∷ behind pt t k xs) l.keys)
          (
            AllFrom-behind pt t k prepare-key (pt x).sleep_until xs late order.0,
            IsSorted-behind pt t k prepare-key xs order.1,
          ) in
      let as_before = behind-same s.tasks (prepare t k s.tasks) t k xs (prepare-keys xs f) in
      record {
        queued = rw e (record {
          chain = (q.chain.0, q.chain.1, subst (Chain us (us x).sleep_next) as_before l.chain);
          distinct = (
            Fresh-behind s.tasks x t k xs (λ e'. n (sym e')) q.distinct.0,
            Distinct-behind s.tasks t k xs f q.distinct.1,
          );
          sorted = subst (λ ys. IsSorted us (x ∷ ys)) as_before sorted;
        });
        keys = λ a. l.keys a ∙ at_or_else t k _ _ prepare-key prepare-others a;
      }

insert-behind :
    (fuel t k : ℕ) (s : Sleepers) (us : Tasks)
    → s.head ≢ null
    → leb k (prepare t k s.tasks s.head).sleep_until ≡ false
    → insert_loop fuel t k s.head (prepare t k s.tasks) ≡ some us
    → insert fuel t k s ≡ some (record { head = s.head; tasks = us })
unfolding insert with_tasks
insert-behind fuel t k s us full late ran =
    let there : (s.head == null) ≡ false = ground arith in rw (there, late, ran)

-- A task that is not in the queue is put into its place. The queue stays sorted by wake tick and
-- holds every task once; the task wakes at the tick that is asked for, all others as before. The
-- loop ends within as many rounds as the queue is long.
pub insert-Inserted :
    (fuel t k : ℕ) (s : Sleepers) (xs : List ℕ)
    → length xs < fuel
    → t ≢ null
    → Fresh t xs
    → Queued s.head s.tasks xs
    → (s' : Sleepers) × (insert fuel t k s ≡ some s') × Inserted s t k xs s'
unfolding insert place
insert-Inserted fuel t k s [] f tn ft q = (
  record { head = t; tasks = push t s.head (prepare t k s.tasks) },
  rw q.chain,
  head-Inserted t k s [] tn ft q tt refl,
)
insert-Inserted fuel t k s (x ∷ xs) f tn ft q =
    let xt : t ≢ x = ft.0 in
    let same : (prepare t k s.tasks s.head).sleep_until ≡ (s.tasks x).sleep_until =
      ap (λ a. (prepare t k s.tasks a).sleep_until) q.chain.0
      ∙ prepare-others t k s x (λ e. xt (sym e)) in
    let full : (s.head == null) ≡ false = ground arith in
    elim (Bool-cases (leb k (s.tasks x).sleep_until)) [
      | inl e ↦ (
        record { head = t; tasks = push t s.head (prepare t k s.tasks) },
        rw (full, same, e),
        head-Inserted t k s (x ∷ xs) tn ft q
            (let early : k ≤ (s.tasks x).sleep_until = ground arith in
              (early, AllFrom-le k _ s.tasks xs early q.sorted.0))
            (rw e),
      )
      | inr e ↦
          let rest = prepare-Chain t k s (s.tasks x).sleep_next xs ft.1 q.chain.2 in
          let (us, ran, l) =
            insert_loop-Linked fuel (prepare t k s.tasks) t k x xs (omega arith) xt tn ft.1
              q.distinct.0 q.distinct.1
              (subst (λ p. Chain (prepare t k s.tasks) p xs)
                (sym (prepare-next t k s x (λ e'. xt (sym e')))) rest) in
          (
            record { head = s.head; tasks = us },
            insert-behind fuel t k s us (λ z. q.chain.1 (sym q.chain.0 ∙ z)) (rw same e)
                (subst (λ h. insert_loop fuel t k h (prepare t k s.tasks) ≡ some us) (sym q.chain.0)
                  ran),
            loop-Inserted t k s x xs us xt ft.1 q e l,
          )
    ]
