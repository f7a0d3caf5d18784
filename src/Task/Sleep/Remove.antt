-- ===== src/Task/Sleep/Remove.antt =====
-- `sleepq_remove` takes the task out of the queue and leaves the others in order.
use curls.Prelude.{
  ℕ, zero, suc, ◌<◌, ◌≡◌, ◌≢◌, refl, sym, ap, ◌∙◌, inl, inr, true, false, some, List, [], ◌∷◌,
  subst, arith,
}
use curls.Prelude.Tests.{◌==◌, if◌then◌else◌, Bool-cases}
use curls.Prelude.Lists.{length}
use curls.Prelude.Store.{update, at_or_else}
use curls.Task.{Tasks, null}
use curls.Task.Sleep.{Sleepers, detach, unset, remove_loop, with_tasks, remove}
use curls.Task.Sleep.Erase.{erase, Fresh-erase_self, Distinct-erase, IsSorted-erase, erase-Fresh}
use curls.Task.Sleep.Unlink.{
  step_end, remove_loop-Unlinked, strip, detach_alone, detach_keys, detach_fields, detach-Chain,
}
use curls.Task.Sleep.Chain.{Queued, Fresh, Chain, SameKeys, Chain-frame, IsSorted-same}

-- What `sleepq_remove` leaves.
pub record Removed (s : Sleepers) (t : ℕ) (xs : List ℕ) (s' : Sleepers) : Type 0 where
  pub queued : Queued s'.head s'.tasks (erase t xs)
  pub off : Fresh t (erase t xs)
  pub unlinked : (s'.tasks t).sleep_next ≡ null
  pub keys : (a : ℕ) → (s'.tasks a).sleep_until ≡ (if a == t then 0 else (s.tasks a).sleep_until)
  pub fields : (a : ℕ) → strip (s'.tasks a) ≡ strip (s.tasks a)

module _ (t : ℕ) (s : Sleepers) where
  unset-key : (unset t s.tasks t).sleep_until ≡ 0
  unfolding unset update
  unset-key = ground arith

  unset-others : (a : ℕ) → a ≢ t → (unset t s.tasks a).sleep_until ≡ (s.tasks a).sleep_until
  unfolding unset update
  unset-others a n = ground arith

  unset-fields : (a : ℕ) → strip (unset t s.tasks a) ≡ strip (s.tasks a)
  unfolding unset update strip
  unset-fields a = ground arith

  unset-next : (a : ℕ) → (unset t s.tasks a).sleep_next ≡ (s.tasks a).sleep_next
  unfolding unset update
  unset-next a = ground arith

  unset-Chain : (p : ℕ) (xs : List ℕ) → Chain s.tasks p xs → Chain (unset t s.tasks) p xs
  unset-Chain p xs c = Chain-frame s.tasks (unset t s.tasks) p xs (λ a n. unset-next a) c

  unset-keys :
      (us : Tasks) (xs : List ℕ)
      → ((a : ℕ) → (us a).sleep_until ≡ (unset t s.tasks a).sleep_until)
      → Fresh t xs
      → SameKeys s.tasks us xs
  unset-keys us [] h f = tt
  unset-keys us (x ∷ xs) h f = (h x ∙ unset-others x (λ z. f.0 (sym z)), unset-keys us xs h f.1)

  remove-behind :
      (fuel : ℕ) (us : Tasks)
      → (s.tasks t).sleep_until ≢ 0
      → s.head ≢ t
      → remove_loop fuel t s.head (unset t s.tasks) ≡ some us
      → remove fuel t s ≡ some (record { head = s.head; tasks = us })
  unfolding remove with_tasks
  remove-behind fuel us n m ran =
      let asleep : ((s.tasks t).sleep_until == 0) ≡ false = ground arith in
      let later : (s.head == t) ≡ false = ground arith in rw (asleep, later, ran)

  remove-first :
      (fuel : ℕ)
      → (s.tasks t).sleep_until ≢ 0
      → s.head ≡ t
      → remove fuel t s
        ≡ some
            (record { head = (unset t s.tasks t).sleep_next; tasks = detach t (unset t s.tasks) })
  unfolding remove
  remove-first fuel n e =
      let asleep : ((s.tasks t).sleep_until == 0) ≡ false = ground arith in
      let first : (s.head == t) ≡ true = ground arith in rw (asleep, first)

  -- From what the pointers do to what the queue holds.
  finish :
      (xs : List ℕ) (head : ℕ) (us : Tasks)
      → Queued s.head s.tasks xs
      → Chain us head (erase t xs)
      → (us t).sleep_next ≡ null
      → ((a : ℕ) → (us a).sleep_until ≡ (unset t s.tasks a).sleep_until)
      → ((a : ℕ) → strip (us a) ≡ strip (unset t s.tasks a))
      → Removed s t xs (record { head = head; tasks = us })
  finish xs head us q c alone keys fields =
      let off : Fresh t (erase t xs) = Fresh-erase_self t xs q.distinct in
      record {
        queued = record {
          chain = c;
          distinct = Distinct-erase t xs q.distinct;
          sorted =
              IsSorted-same s.tasks us (erase t xs) (unset-keys us (erase t xs) keys off)
                (IsSorted-erase t s.tasks xs q.sorted);
        };
        off = off;
        unlinked = alone;
        keys = λ a. keys a ∙ at_or_else t 0 _ _ unset-key unset-others a;
        fields = λ a. fields a ∙ unset-fields a;
      }

-- A sleeping task is taken off the queue, wherever in it it stands, and no longer asleep; the
-- others stay queued in order, each once, with their wake ticks. The loop ends within as many
-- rounds as the queue is long, and one.
pub remove-Removed :
    (fuel t : ℕ) (s : Sleepers) (xs : List ℕ)
    → suc (length xs) < fuel
    → t ≢ null
    → (s.tasks t).sleep_until ≢ 0
    → Queued s.head s.tasks xs
    → (s' : Sleepers) × (remove fuel t s ≡ some s') × Removed s t xs s'
unfolding erase
remove-Removed zero t s xs f tn n q = absurd (omega arith)
remove-Removed (suc fuel) t s [] f tn n q =
    let ts : Tasks = unset t s.tasks in
    (
      record { head = s.head; tasks = detach t ts },
      remove-behind t s (suc fuel) (detach t ts) n (λ e. tn (sym e ∙ q.chain))
          (ap (λ p. remove_loop (suc fuel) t p ts) q.chain ∙ step_end fuel t ts),
      finish t s [] s.head (detach t ts) q q.chain (detach_alone t t ts) (detach_keys t t ts)
          (detach_fields t t ts),
    )
remove-Removed (suc fuel) t s (x ∷ xs) f tn n q =
    let ts : Tasks = unset t s.tasks in
    elim (Bool-cases (x == t)) [
      | inl e ↦
          let same : x ≡ t = ground arith in
          let next : (s.tasks x).sleep_next ≡ (unset t s.tasks t).sleep_next =
            ap (λ a. (s.tasks a).sleep_next) same ∙ sym (unset-next t s t) in
          let rest : Chain (detach t ts) (ts t).sleep_next xs =
            detach-Chain t t ts xs (ts t).sleep_next (subst (λ a. Fresh a xs) same q.distinct.0) (
              subst (λ p. Chain ts p xs) next
                (unset-Chain t s (s.tasks x).sleep_next xs q.chain.2)) in
          (
            record { head = (ts t).sleep_next; tasks = detach t ts },
            remove-first t s (suc fuel) n (q.chain.0 ∙ same),
            finish t s (x ∷ xs) (ts t).sleep_next (detach t ts) q (rw e rest) (detach_alone t t ts)
                (detach_keys t t ts) (detach_fields t t ts),
          )
      | inr e ↦
          let tx : t ≢ x = λ z. let r : (x == t) ≡ true = ground arith in cc in
          let rest : Chain ts (ts x).sleep_next xs =
            subst (λ p. Chain ts p xs) (sym (unset-next t s x))
              (unset-Chain t s (s.tasks x).sleep_next xs q.chain.2) in
          let (us, ran, l) =
            remove_loop-Unlinked (suc fuel) ts t x xs (omega arith) tx tn q.chain.1 q.distinct.0
              q.distinct.1 rest in
          (
            record { head = s.head; tasks = us },
            remove-behind t s (suc fuel) us n (λ z. tx (sym z ∙ q.chain.0))
                (ap (λ p. remove_loop (suc fuel) t p ts) q.chain.0 ∙ ran),
            finish t s (x ∷ xs) s.head us q (rw e (q.chain.0, q.chain.1, l.chain)) l.alone l.keys
                l.fields,
          )
    ]

-- What holds of the queue after `sleepq_remove`, whether the task slept or not.
pub record Gone (s : Sleepers) (t : ℕ) (xs : List ℕ) (s' : Sleepers) : Type 0 where
  pub queued : Queued s'.head s'.tasks (erase t xs)
  pub off : Fresh t (erase t xs)
  pub fields : (a : ℕ) → strip (s'.tasks a) ≡ strip (s.tasks a)

pub remove-Gone :
    (fuel t : ℕ) (s : Sleepers) (xs : List ℕ)
    → suc (length xs) < fuel
    → t ≢ null
    → ((s.tasks t).sleep_until ≡ 0 → Fresh t xs)
    → Queued s.head s.tasks xs
    → (s' : Sleepers) × (remove fuel t s ≡ some s') × Gone s t xs s'
unfolding remove
remove-Gone fuel t s xs f tn aw q = elim (Bool-cases ((s.tasks t).sleep_until == 0)) [
  | inl e ↦
      let out = aw (ground arith) in
      let same = sym (erase-Fresh t xs out) in
      (
        s,
        rw e,
        record {
          queued = subst (Queued s.head s.tasks) same q;
          off = subst (Fresh t) same out;
          fields = λ a. refl;
        },
      )
  | inr e ↦
      let (s', ran, r) = remove-Removed fuel t s xs f tn (ground arith) q in
      (s', ran, record { queued = r.queued; off = r.off; fields = r.fields })
]
