-- ===== src/Task/Sleep/Link.antt =====
-- The walk of `sleepq_insert` to the task after which the new one goes, and the linking there.
use curls.Prelude.{
  ℕ, zero, suc, ◌<◌, ◌≡◌, ◌≢◌, refl, sym, ap, ◌∙◌, inl, inr, true, false, ◌&&◌, some, List, [], ◌∷◌,
  subst, arith,
}
use curls.Prelude.Tests.{not, leb, ◌==◌, Bool-cases}
use curls.Prelude.Lists.{length}
use curls.Prelude.Store.{update}
use curls.Task.{Tasks, null}
use curls.Task.Sleep.{link_after, insert_loop}
use curls.Task.Sleep.Chain.{Fresh, Distinct, Chain, Chain-update}
use curls.Task.Sleep.Behind.{behind}

pub record Linked (ts : Tasks) (t k prev : ℕ) (xs : List ℕ) (us : Tasks) : Type 0 where
  pub chain : Chain us (us prev).sleep_next (behind ts t k xs)
  pub others : (a : ℕ) → a ≢ t → a ≢ prev → Fresh a xs → us a ≡ ts a
  pub keys : (a : ℕ) → (us a).sleep_until ≡ (ts a).sleep_until

-- The two writes behind `prev`, where `rest` comes after `prev`.
module _ (ts : Tasks) (t prev : ℕ) (rest : List ℕ) (tp : t ≢ prev) (tn : t ≢ null)
    (ft : Fresh t rest) (fp : Fresh prev rest) (c : Chain ts (ts prev).sleep_next rest) where
  relinked : Tasks
  relinked = link_after t prev ts

  link_after-first : (relinked prev).sleep_next ≡ t
  unfolding relinked link_after update
  link_after-first = ground arith

  link_after-second : (relinked t).sleep_next ≡ (ts prev).sleep_next
  unfolding relinked link_after update
  link_after-second = ground arith

  link_after-Chain : Chain relinked (relinked prev).sleep_next (t ∷ rest)
  unfolding relinked link_after
  link_after-Chain =
      let kept = Chain-update (update ts t _) prev _ _ rest fp (Chain-update ts t _ _ rest ft c) in
      (link_after-first, tn, subst (λ q. Chain relinked q rest) (sym link_after-second) kept)

  link_after-others : (a : ℕ) → a ≢ t → a ≢ prev → relinked a ≡ ts a
  unfolding relinked link_after update
  link_after-others a at ap' = ground arith

  link_after-keys : (a : ℕ) → (relinked a).sleep_until ≡ (ts a).sleep_until
  unfolding relinked link_after update
  link_after-keys a = ground arith

  Linked-here : (k : ℕ) → behind ts t k rest ≡ t ∷ rest → Linked ts t k prev rest relinked
  Linked-here k e = record {
    chain = rw e link_after-Chain;
    others = λ a at ap' f. link_after-others a at ap';
    keys = link_after-keys;
  }

pub insert_loop-Linked :
    (fuel : ℕ) (ts : Tasks) (t k prev : ℕ) (xs : List ℕ)
    → length xs < fuel
    → t ≢ prev
    → t ≢ null
    → Fresh t xs
    → Fresh prev xs
    → Distinct xs
    → Chain ts (ts prev).sleep_next xs
    → (us : Tasks) × (insert_loop fuel t k prev ts ≡ some us) × Linked ts t k prev xs us
unfolding insert_loop behind relinked
insert_loop-Linked zero ts t k prev xs f tp tn ft fp d c = absurd (omega arith)
insert_loop-Linked (suc fuel) ts t k prev [] f tp tn ft fp d c =
    (relinked ts t prev [] tp tn ft fp c, rw c, Linked-here ts t prev [] tp tn ft fp c k refl)
insert_loop-Linked (suc fuel) ts t k prev (x ∷ xs) f tp tn ft fp d c =
    elim (Bool-cases (leb (ts x).sleep_until k)) [
      | inl e ↦
          let (out, ran, l) =
            insert_loop-Linked fuel ts t k x xs (omega arith) ft.0 tn ft.1 d.0 d.1 c.2 in
          let there : (out prev).sleep_next ≡ x =
            ap (λ r. r.sleep_next) (l.others prev (λ q. tp (sym q)) fp.0 fp.1) ∙ c.0 in
          let more : (not ((ts prev).sleep_next == null)
                && leb (ts (ts prev).sleep_next).sleep_until k)
              ≡ true =
            rw (c.0, e) (ground arith) in
          (
            out,
            rw (more, c.0) ran,
            record {
              chain = rw e (there, c.1, l.chain);
              others = λ a at ap' fa. l.others a at fa.0 fa.1;
              keys = l.keys;
            },
          )
      | inr e ↦
          let stop : (not ((ts prev).sleep_next == null)
                && leb (ts (ts prev).sleep_next).sleep_until k)
              ≡ false =
            rw (c.0, e) (ground arith) in
          (
            relinked ts t prev (x ∷ xs) tp tn ft fp c,
            rw stop,
            Linked-here ts t prev (x ∷ xs) tp tn ft fp c k (rw e),
          )
    ]
