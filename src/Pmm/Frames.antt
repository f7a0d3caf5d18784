-- ===== src/Pmm/Frames.antt =====
-- The frames of kernel/cpu/paging.c as the allocator of the page tables: `pmm_first_free` and
-- `pmm_set_frame`, as `alloc_table` of kernel/arch/x86_64/mmu/mmu.c calls them.
use curls.Prelude.{
  ℕ, zero, suc, ◌+◌, ◌-◌, ◌*◌, ◌/◌, ◌%◌, ◌^◌, ◌<◌, ◌≡◌, refl, sym, ap, ◌∙◌, subst, Bool, true,
  false, Option, none, some, arith,
}
use curls.Prelude.Tests.{not, leb, ltb, ◌==◌, if◌then◌else◌, if_elim, ==_refl}
use curls.Prelude.Lists.{length, length-set}
use curls.Prelude.Bits.{test_bit}
use curls.Pmm.{
  Pmm, word, mark, is_refused, set_frame, scan_bits, scan_word, or_else, scan, first_free,
}
use curls.Pmm.Bitmap.{used, used-mark}
use curls.Pmm.FirstFree.{Scanned, Searched, first_free_found}
use curls.Mmu.{Frames}

-- The bitmap is there.
abbrev IsUp : Option ℕ × Pmm → Type 0
IsUp r = r.1.is_set_up ≡ true

scan_bits-IsUp : (k j i : ℕ) (p : Pmm) → p.is_set_up ≡ true → IsUp (scan_bits k j i p)
unfolding scan_bits mark
scan_bits-IsUp zero j i p u = u
scan_bits-IsUp (suc k) j i p u =
    let frame : ℕ = (i * 32 + j) % 2 ^ 32 in
    let rest : Option ℕ × Pmm = scan_bits k (j + 1) i p in
    let reserved : Option ℕ × Pmm = scan_bits k (j + 1) i (mark frame p) in
    if_elim {A = Option ℕ × Pmm} IsUp (test_bit (word i p) j) rest
      (if leb p.total frame
        then (none, p)
        else if ltb frame p.kernel_limit
        then reserved
        else (some frame, p))
      (λ e. scan_bits-IsUp k (j + 1) i p u)
      (λ e.
        if_elim {A = Option ℕ × Pmm} IsUp (leb p.total frame) (none, p)
          (if ltb frame p.kernel_limit then reserved else (some frame, p)) (λ f. u)
          (λ f.
            if_elim {A = Option ℕ × Pmm} IsUp (ltb frame p.kernel_limit) reserved (some frame, p)
              (λ g. scan_bits-IsUp k (j + 1) i (mark frame p) u) (λ g. u)))

scan_word-IsUp : (i : ℕ) (p : Pmm) → p.is_set_up ≡ true → IsUp (scan_word i p)
unfolding scan_word
scan_word-IsUp i p u =
    if_elim {A = Option ℕ × Pmm} IsUp (word i p == 2 ^ 32 - 1) (none, p) (scan_bits 32 0 i p)
      (λ e. u) (λ e. scan_bits-IsUp 32 0 i p u)

or_else-IsUp : (r s : Option ℕ × Pmm) → IsUp r → IsUp s → IsUp (or_else r s)
unfolding or_else
or_else-IsUp (none, p) s a b = b
or_else-IsUp (some f, p) s a b = a

scan-IsUp : (k i : ℕ) (p : Pmm) → p.is_set_up ≡ true → IsUp (scan k i p)
unfolding scan
scan-IsUp zero i p u = u
scan-IsUp (suc k) i p u =
    let v : IsUp (scan_word i p) = scan_word-IsUp i p u in
    or_else-IsUp (scan_word i p) (scan k (i + 1) (scan_word i p).1) v
      (scan-IsUp k (i + 1) (scan_word i p).1 v)

first_free-IsUp : (p : Pmm) → p.is_set_up ≡ true → IsUp (first_free p)
unfolding first_free
first_free-IsUp p u =
    if_elim {A = Option ℕ × Pmm} IsUp (not p.is_set_up) (none, p) (scan (p.total / 32) 0 p) (λ e. u)
      (λ e. scan-IsUp (p.total / 32) 0 p u)

-- The manager once it is set up.
pub record Ready : Type 0 where
  pub pmm : Pmm
  pub is_up : pmm.is_set_up ≡ true
  pub words : length pmm.bitmap ≡ pmm.total / 32 + 1
  pub small : pmm.total < 2 ^ 32

abbrev pub in_use : Ready → ℕ → Bool
in_use s a = used s.pmm (a / 4096)

-- What the page tables ask of a frame that they get.
record IsGiven (s : Ready) (a : ℕ) (s' : Ready) : Type 0 where
  aligned : a % 4096 ≡ 0
  small : a < 2 ^ 52
  unused : in_use s a ≡ false
  used_now : in_use s' a ≡ true
  kept : (x : ℕ) → in_use s x ≡ true → in_use s' x ≡ true

abbrev Gives : Ready → Option (ℕ × Ready) → Type 0
Gives s none = Unit
Gives s (some (a, s')) = IsGiven s a s'

-- `pmm_set_frame` of the frame that is found, which is below `total_frames`.
set_found : (f : ℕ) (q : Pmm) → q.is_set_up ≡ true → f < q.total → set_frame f q ≡ mark f q
unfolding set_frame
set_found f q u l =
    let taken : is_refused f q ≡ false = ground arith in ap (λ b. if b then q else mark f q) taken

set_frame-is_set_up : (f : ℕ) (q : Pmm) → (set_frame f q).is_set_up ≡ q.is_set_up
unfolding set_frame mark
set_frame-is_set_up f q =
    if_elim (λ r. r.is_set_up ≡ q.is_set_up) (is_refused f q) q (mark f q) (λ e. refl) (λ e. refl)

set_frame-total : (f : ℕ) (q : Pmm) → (set_frame f q).total ≡ q.total
unfolding set_frame mark
set_frame-total f q =
    if_elim (λ r. r.total ≡ q.total) (is_refused f q) q (mark f q) (λ e. refl) (λ e. refl)

length-set_frame : (f : ℕ) (q : Pmm) → length (set_frame f q).bitmap ≡ length q.bitmap
unfolding set_frame mark
length-set_frame f q =
    if_elim (λ r. length r.bitmap ≡ length q.bitmap) (is_refused f q) q (mark f q) (λ e. refl)
      (λ e. length-set q.bitmap (f / 32) _)

-- `pmm_set_frame`
abbrev set_ready : ℕ → Ready → Ready
set_ready f q = record {
  pmm = set_frame f q.pmm;
  is_up = set_frame-is_set_up f q.pmm ∙ q.is_up;
  words = length-set_frame f q.pmm ∙ q.words ∙ ap (λ n. n / 32 + 1) (sym (set_frame-total f q.pmm));
  small = omega (arith, q.small, set_frame-total f q.pmm);
}

found :
    (p q : Pmm) (e f : ℕ)
    → Searched p 0 e (some f, q)
    → (f < e) × ((used p f ≡ false) × Scanned p 0 f q)
unfolding Searched
found p q e f (a, b, c, d, s) = (b, (d, s))

module _ (s : Ready) where
  abbrev end : ℕ
  end = s.pmm.total / 32 * 32

  abbrev after : (q : Pmm) (f : ℕ) → Scanned s.pmm 0 f q → q.is_set_up ≡ true → Ready
  after q f c u = record {
    pmm = q;
    is_up = u;
    words = c.same_words ∙ s.words ∙ ap (λ n. n / 32 + 1) (sym c.same_total);
    small = omega (arith, s.small, c.same_total);
  }

  abbrev take : (r : Option ℕ × Pmm) → Searched s.pmm 0 end r → IsUp r → Option (ℕ × Ready)
  take (none, q) h u = none
  take (some f, q) h u = some (f * 4096, set_ready f (after q f (found s.pmm q end f h).1.1 u))

  take-Gives : (r : Option ℕ × Pmm) (h : Searched s.pmm 0 end r) (u : IsUp r) → Gives s (take r h u)
  take-Gives (none, q) h u = tt
  take-Gives (some f, q) h u =
      let (low, (free, c)) = found s.pmm q end f h in
      let here : f * 4096 / 4096 ≡ f = omega arith in
      let marks : set_frame f q ≡ mark f q = set_found f q u (omega (arith, low, c.same_total)) in
      let words : f / 32 < length q.bitmap = omega (arith, low, c.same_words, s.words) in
      let now : (g : ℕ) → used (set_frame f q) g ≡ (if g == f then true else used q g) =
        λ g. ap (λ r. used r g) marks ∙ used-mark q f words g in
      record {
        aligned = omega arith;
        small = omega (arith, low, s.small);
        unused = ap (used s.pmm) here ∙ free;
        used_now =
            now (f * 4096 / 4096)
            ∙ ap (λ g. if g == f then true else used q g) here
            ∙ ap (λ b. if b then true else used q f) (==_refl f);
        kept = λ x y. now (x / 4096) ∙ ground (arith, c.marked (x / 4096));
      }

abbrev alloc_frame : Ready → Option (ℕ × Ready)
alloc_frame s =
    take s (first_free s.pmm) (first_free_found s.pmm s.words s.small s.is_up)
      (first_free-IsUp s.pmm s.is_up)

given : (s s' : Ready) (a : ℕ) → alloc_frame s ≡ some (a, s') → IsGiven s a s'
given s s' a e = subst (Gives s) e (
    take-Gives s (first_free s.pmm) (first_free_found s.pmm s.words s.small s.is_up)
      (first_free-IsUp s.pmm s.is_up))

-- `pmm_first_free` and then `pmm_set_frame` keep what the page tables rely on: the frame is aligned, was not
-- in use, and is in use from then on with all that were.
pub frames : Frames Ready
frames = record {
  alloc = alloc_frame;
  in_use = in_use;
  aligned = λ s s' a e. (given s s' a e).aligned;
  small = λ s s' a e. (given s s' a e).small;
  unused = λ s s' a e. (given s s' a e).unused;
  used = λ s s' a e. (given s s' a e).used_now;
  kept = λ s s' a x e u. (given s s' a e).kept x u;
}
