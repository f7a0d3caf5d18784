-- ===== src/Vfs/Pipes/Search.antt =====
-- The search of `pipe` for two free descriptors.
use curls.Prelude.{
  ℕ, zero, suc, ◌+◌, ◌<◌, ◌≤◌, ◌≡◌, refl, sym, subst, ap, ◌∙◌, inl, inr, true, false, ◌||◌, Option,
  none, some, List, arith,
}
use curls.Prelude.Tests.{ltb, leb, not, ◌==◌, Bool-cases, if_elim}
use curls.Prelude.Lists.{get_or}
use curls.Task.{null}
use curls.Vfs.Pipes.{two_free}

-- The descriptors from `i` to `end`, without `end`, are in use, except perhaps `r`.
abbrev pub AllUsedBut : ℕ → ℕ → ℕ → List ℕ → Type 0
AllUsedBut r i end table =
    (j : ℕ) → (ltb j i || (leb end j || ((j == r) || not (get_or table j null == null)))) ≡ true

-- The two lowest free descriptors, in order.
pub record TwoFree (i end : ℕ) (table : List ℕ) (rfd wfd : ℕ) : Type 0 where
  pub from : i ≤ rfd
  pub order : rfd < wfd
  pub to : wfd < end
  pub free_reader : get_or table rfd null ≡ null
  pub free_writer : get_or table wfd null ≡ null
  pub lowest : AllUsedBut rfd i wfd table

abbrev pub Finds : ℕ → ℕ → List ℕ → Option ℕ → Option (ℕ × ℕ) → Type 0
Finds i end table none none = (r : ℕ) × AllUsedBut r i end table
Finds i end table (some f) none = AllUsedBut f i end table
Finds i end table none (some (r, w)) = TwoFree i end table r w
Finds i end table (some f) (some (r, w)) =
    (r ≡ f) × ((i ≤ w) × ((w < end) × ((get_or table w null ≡ null) × AllUsedBut f i w table)))

AllUsedBut-later :
    (r i e e' : ℕ) (table : List ℕ)
    → e ≡ e'
    → (get_or table i null == null) ≡ false
    → AllUsedBut r (i + 1) e table
    → AllUsedBut r i e' table
AllUsedBut-later r i e e' table same u a j = elim (Bool-cases (j == i)) [
  | inl z ↦
      let at : j ≡ i = ground arith in
      let here : (get_or table j null == null) ≡ false =
        ap (λ k. get_or table k null == null) at ∙ u in
      ground arith
  | inr z ↦ let there = a j in ground arith
]

AllUsedBut-first :
    (i e e' : ℕ) (table : List ℕ) → e ≡ e' → AllUsedBut i (i + 1) e table → AllUsedBut i i e' table
AllUsedBut-first i e e' table same a j = elim (Bool-cases (j == i)) [
  | inl z ↦ ground arith
  | inr z ↦ let there = a j in ground arith
]

Finds-later :
    (k i : ℕ) (table : List ℕ) (first : Option ℕ) (o : Option (ℕ × ℕ))
    → (get_or table i null == null) ≡ false
    → Finds (i + 1) (i + 1 + k) table first o
    → Finds i (i + suc k) table first o
Finds-later k i table none none u f =
    (f.0, AllUsedBut-later f.0 i (i + 1 + k) (i + suc k) table (omega arith) u f.1)
Finds-later k i table (some a) none u f =
    AllUsedBut-later a i (i + 1 + k) (i + suc k) table (omega arith) u f
Finds-later k i table none (some (r, w)) u f = record {
  from = omega (arith, f.from);
  order = f.order;
  to = omega (arith, f.to);
  free_reader = f.free_reader;
  free_writer = f.free_writer;
  lowest = AllUsedBut-later r i w w table refl u f.lowest;
}
Finds-later k i table (some a) (some (r, w)) u f = (
  f.0,
  (
    omega (arith, f.1.0),
    (omega (arith, f.1.1.0), (f.1.1.1.0, AllUsedBut-later a i w w table refl u f.1.1.1.1)),
  ),
)

Finds-first :
    (k i : ℕ) (table : List ℕ) (o : Option (ℕ × ℕ))
    → get_or table i null ≡ null
    → Finds (i + 1) (i + 1 + k) table (some i) o
    → Finds i (i + suc k) table none o
Finds-first k i table none e f =
    (i, AllUsedBut-first i (i + 1 + k) (i + suc k) table (omega arith) f)
Finds-first k i table (some (r, w)) e f = record {
  from = omega (arith, f.0);
  order = omega (arith, f.0, f.1.0);
  to = omega (arith, f.1.1.0);
  free_reader = ap (λ j. get_or table j null) f.0 ∙ e;
  free_writer = f.1.1.1.0;
  lowest =
      subst (λ x. AllUsedBut x i w table) (sym f.0) (AllUsedBut-first i w w table refl f.1.1.1.1);
}

pub Finds-two_free :
    (k i : ℕ) (table : List ℕ) (first : Option ℕ)
    → Finds i (i + k) table first (two_free k i table first)
unfolding two_free
Finds-two_free zero i table none = (0, λ j. ground arith)
Finds-two_free zero i table (some f) = λ j. ground arith
Finds-two_free (suc k) i table none =
    if_elim (Finds i (i + suc k) table none) (get_or table i null == null)
      (two_free k (i + 1) table (some i)) (two_free k (i + 1) table none)
      (λ e.
        Finds-first k i table (two_free k (i + 1) table (some i)) (ground arith)
          (Finds-two_free k (i + 1) table (some i)))
      (λ e.
        Finds-later k i table none (two_free k (i + 1) table none) e
          (Finds-two_free k (i + 1) table none))
Finds-two_free (suc k) i table (some f) =
    if_elim (Finds i (i + suc k) table (some f)) (get_or table i null == null) (some (f, i))
      (two_free k (i + 1) table (some f))
      (λ e. (refl, (omega arith, (omega arith, (ground arith, λ j. ground arith)))))
      (λ e.
        Finds-later k i table (some f) (two_free k (i + 1) table (some f)) e
          (Finds-two_free k (i + 1) table (some f)))
