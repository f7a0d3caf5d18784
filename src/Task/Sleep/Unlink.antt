-- ===== src/Task/Sleep/Unlink.antt =====
-- The walk of `sleepq_remove` to the task before the one that leaves, and the unlinking there.
use curls.Prelude.{
  ℕ, zero, suc, ◌<◌, ◌≡◌, ◌≢◌, refl, sym, ap, ◌∙◌, inl, inr, true, false, some, List, [], ◌∷◌,
  subst, arith,
}
use curls.Prelude.Tests.{◌==◌, Bool-cases}
use curls.Prelude.Lists.{length}
use curls.Prelude.Store.{update}
use curls.Task.{Task, Tasks, null}
use curls.Task.Sleep.{detach, unlink, remove_loop}
use curls.Task.Sleep.Erase.{erase}
use curls.Task.Sleep.Chain.{Fresh, Distinct, Chain, Chain-update}

-- A task without what only the sleep queue uses.
unfoldable pub strip : Task → Task
strip r = record r { sleep_until = 0; sleep_next = 0 }

pub record Unlinked (ts : Tasks) (t prev : ℕ) (xs : List ℕ) (us : Tasks) : Type 0 where
  pub chain : Chain us (us prev).sleep_next (erase t xs)
  pub alone : (us t).sleep_next ≡ null
  pub others : (a : ℕ) → a ≢ prev → a ≢ t → Fresh a xs → us a ≡ ts a
  pub keys : (a : ℕ) → (us a).sleep_until ≡ (ts a).sleep_until
  pub fields : (a : ℕ) → strip (us a) ≡ strip (ts a)

module _ (t prev : ℕ) (ts : Tasks) where
  pub detach_alone : (detach t ts t).sleep_next ≡ null
  unfolding detach update
  detach_alone = ground arith

  detach_others : (a : ℕ) → a ≢ t → detach t ts a ≡ ts a
  unfolding detach update
  detach_others a n = ground arith

  pub detach_keys : (a : ℕ) → (detach t ts a).sleep_until ≡ (ts a).sleep_until
  unfolding detach update
  detach_keys a = ground arith

  pub detach_fields : (a : ℕ) → strip (detach t ts a) ≡ strip (ts a)
  unfolding detach update strip
  detach_fields a = ground arith

  unlink_fields : (a : ℕ) → strip (unlink t prev ts a) ≡ strip (ts a)
  unfolding unlink update strip
  unlink_fields a = ground arith

  unlink_alone : (unlink t prev ts t).sleep_next ≡ null
  unfolding unlink update
  unlink_alone = ground arith

  unlink_next : t ≢ prev → (unlink t prev ts prev).sleep_next ≡ (ts t).sleep_next
  unfolding unlink update
  unlink_next n = ground arith

  unlink_others : (a : ℕ) → a ≢ prev → a ≢ t → unlink t prev ts a ≡ ts a
  unfolding unlink update
  unlink_others a n m = ground arith

  unlink_keys : (a : ℕ) → (unlink t prev ts a).sleep_until ≡ (ts a).sleep_until
  unfolding unlink update
  unlink_keys a = ground arith

  unlink-Chain :
      (xs : List ℕ) (p : ℕ)
      → Fresh t xs
      → Fresh prev xs
      → Chain ts p xs
      → Chain (unlink t prev ts) p xs
  unfolding unlink detach
  unlink-Chain xs p ft fp c = Chain-update _ t _ p xs ft (Chain-update ts prev _ p xs fp c)

  pub detach-Chain : (xs : List ℕ) (p : ℕ) → Fresh t xs → Chain ts p xs → Chain (detach t ts) p xs
  unfolding detach
  detach-Chain xs p ft c = Chain-update ts t _ p xs ft c

  -- The rounds of the loop.
  step_found :
      (fuel : ℕ)
      → prev ≢ null
      → (ts prev).sleep_next ≡ t
      → remove_loop (suc fuel) t prev ts ≡ some (unlink t prev ts)
  unfolding remove_loop
  step_found fuel n e =
      let there : (prev == null) ≡ false = ground arith in
      let hit : ((ts prev).sleep_next == t) ≡ true = ground arith in rw (there, hit)

  step_on :
      (fuel : ℕ)
      → prev ≢ null
      → (ts prev).sleep_next ≢ t
      → remove_loop (suc fuel) t prev ts ≡ remove_loop fuel t (ts prev).sleep_next ts
  unfolding remove_loop
  step_on fuel n e =
      let there : (prev == null) ≡ false = ground arith in
      let miss : ((ts prev).sleep_next == t) ≡ false = ground arith in rw (there, miss)

pub step_end : (fuel t : ℕ) (ts : Tasks) → remove_loop (suc fuel) t null ts ≡ some (detach t ts)
unfolding remove_loop
step_end fuel t ts = refl

pub remove_loop-Unlinked :
    (fuel : ℕ) (ts : Tasks) (t prev : ℕ) (xs : List ℕ)
    → suc (length xs) < fuel
    → t ≢ prev
    → t ≢ null
    → prev ≢ null
    → Fresh prev xs
    → Distinct xs
    → Chain ts (ts prev).sleep_next xs
    → (us : Tasks) × (remove_loop fuel t prev ts ≡ some us) × Unlinked ts t prev xs us
unfolding erase
remove_loop-Unlinked zero ts t prev xs f tp tn pn fp d c = absurd (omega arith)
remove_loop-Unlinked (suc zero) ts t prev xs f tp tn pn fp d c = absurd (omega arith)
remove_loop-Unlinked (suc (suc fuel)) ts t prev [] f tp tn pn fp d c = (
  detach t ts,
  step_on t prev ts (suc fuel) pn (λ e. tn (sym e ∙ c))
      ∙ ap (λ p. remove_loop (suc fuel) t p ts) c
      ∙ step_end fuel t ts,
  record {
    chain = ap (λ (r : Task). r.sleep_next) (detach_others t prev ts prev (λ e. tp (sym e))) ∙ c;
    alone = detach_alone t prev ts;
    others = λ a n m fa. detach_others t prev ts a m;
    keys = detach_keys t prev ts;
    fields = detach_fields t prev ts;
  },
)
remove_loop-Unlinked (suc (suc fuel)) ts t prev (x ∷ xs) f tp tn pn fp d c =
    elim (Bool-cases (x == t)) [
      | inl e ↦
          let same : x ≡ t = ground arith in
          (
            unlink t prev ts,
            step_found t prev ts (suc fuel) pn (c.0 ∙ same),
            record {
              chain = rw e (
                  subst (λ p. Chain (unlink t prev ts) p xs)
                    (sym (unlink_next t prev ts tp ∙ ap (λ a. (ts a).sleep_next) (sym same)))
                    (unlink-Chain t prev ts xs (ts x).sleep_next (subst (λ a. Fresh a xs) same d.0)
                      fp.1 c.2));
              alone = unlink_alone t prev ts;
              others = λ a n m fa. unlink_others t prev ts a n m;
              keys = unlink_keys t prev ts;
              fields = unlink_fields t prev ts;
            },
          )
      | inr e ↦
          let tx : t ≢ x = λ z. let r : (x == t) ≡ true = ground arith in cc in
          let (us, ran, l) =
            remove_loop-Unlinked (suc fuel) ts t x xs (omega arith) tx tn c.1 d.0 d.1 c.2 in
          (
            us,
            step_on t prev ts (suc fuel) pn (λ z. tx (sym z ∙ c.0))
                ∙ ap (λ p. remove_loop (suc fuel) t p ts) c.0
                ∙ ran,
            record {
              chain = rw e (
                ap (λ (r : Task). r.sleep_next) (l.others prev fp.0 (λ z. tp (sym z)) fp.1) ∙ c.0,
                c.1,
                l.chain,
              );
              alone = l.alone;
              others = λ a n m fa. l.others a fa.0 m fa.1;
              keys = l.keys;
              fields = l.fields;
            },
          )
    ]
