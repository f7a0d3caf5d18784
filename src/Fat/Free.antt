-- ===== src/Fat/Free.antt =====
-- The search for a free cluster.
use curls.Prelude.{
  ℕ, zero, suc, ◌+◌, ◌*◌, ◌%◌, ◌^◌, ◌<◌, ◌≤◌, ◌≡◌, ◌/◌, refl, sym, ap, ap₂, ◌∙◌, subst, inl, inr,
  ◌⊎◌, true, ◌&&◌, ◌||◌, Option, none, some, List, arith,
}
use curls.Prelude.Tests.{not, ltb, leb, ◌==◌, Bool-cases}
use curls.Prelude.Lists.{get_or}
use curls.Fat.{low28, scan_entries, or_rest, scan_read, scan_sectors, find_free_cluster}

-- The entry of a cluster, where the sectors of the table are known.
abbrev pub entry : (ℕ → List ℕ) → ℕ → ℕ
entry table cluster = low28 (get_or (table (cluster / 128)) (cluster % 128) 0)

-- None of the clusters from `a` to `e` is free, but for the two that are reserved.
abbrev pub AllUsed : (ℕ → List ℕ) → ℕ → ℕ → Type 0
AllUsed table a e = (c : ℕ) → (ltb c a || (leb e c || (ltb c 2 || not (entry table c == 0)))) ≡ true

-- The lowest free cluster from `a` on.
pub record LowestFree (table : ℕ → List ℕ) (a c : ℕ) : Type 0 where
  pub from : a ≤ c
  pub usable : 2 ≤ c
  pub free : entry table c ≡ 0
  pub below : AllUsed table a c

scan_entries-cases :
    (k s i : ℕ) (table : ℕ → List ℕ)
    → i + k ≡ 128
    → s < 2 ^ 25
    → ((scan_entries k s i (table s) ≡ none) × AllUsed table (s * 128 + i) (s * 128 + 128))
      ⊎ ((c : ℕ) × (scan_entries k s i (table s) ≡ some c)
          × (c < s * 128 + 128)
          × LowestFree table (s * 128 + i) c)
unfolding scan_entries
scan_entries-cases zero s i table h hs = inl (refl, λ c. ground arith)
scan_entries-cases (suc k) s i table h hs =
    let cl : (s * 128 + i) % 2 ^ 32 ≡ s * 128 + i = omega arith in
    let at : entry table (s * 128 + i) ≡ low28 (get_or (table s) i 0) =
      let quot : (s * 128 + i) / 128 ≡ s = omega arith in
      let rem : (s * 128 + i) % 128 ≡ i = omega arith in
      ap₂ (λ x y. low28 (get_or (table x) y 0)) quot rem in
    elim (Bool-cases (not (ltb (s * 128 + i) 2) && (low28 (get_or (table s) i 0) == 0))) [
      | inl e ↦ inr (
        s * 128 + i,
        ground arith,
        omega arith,
        record {
          from = omega arith;
          usable = ground arith;
          free = at ∙ ground arith;
          below = λ c. ground arith;
        },
      )
      | inr e ↦
          let skip : (ltb (s * 128 + i) 2 || not (entry table (s * 128 + i) == 0)) ≡ true =
            ground arith in
          let on : scan_entries (suc k) s i (table s) ≡ scan_entries k s (i + 1) (table s) =
            ground arith in
          elim (scan_entries-cases k s (i + 1) table (omega arith) hs) [
            | inl (nothing, used) ↦ inl (
              on ∙ nothing,
              λ c.
                  step table (s * 128 + i) (s * 128 + (i + 1)) (s * 128 + 128) (omega arith) skip c
                    (used c),
            )
            | inr (c, ran, small, l) ↦ inr (
              c,
              on ∙ ran,
              small,
              record {
                from = omega (arith, l.from);
                usable = l.usable;
                free = l.free;
                below = λ d.
                    step table (s * 128 + i) (s * 128 + (i + 1)) c (omega arith) skip d (l.below d);
              },
            )
          ]
    ]
  where
    step :
        (table : ℕ → List ℕ) (a b e : ℕ)
        → b ≡ a + 1
        → (ltb a 2 || not (entry table a == 0)) ≡ true
        → (c : ℕ) → (ltb c b || (leb e c || (ltb c 2 || not (entry table c == 0)))) ≡ true
        → (ltb c a || (leb e c || (ltb c 2 || not (entry table c == 0)))) ≡ true
    step table a b e n skip c h = elim (Bool-cases (c == a)) [
      | inl same ↦
          let there : a ≡ c = ground arith in
          let here : (ltb c 2 || not (entry table c == 0)) ≡ true =
            ap (λ k. ltb k 2 || not (entry table k == 0)) (sym there) ∙ skip in
          ground (arith, here)
      | inr other ↦ ground arith
    ]

-- What a search in the clusters from `a` to `e` gives.
Searched : (ℕ → List ℕ) → ℕ → ℕ → ℕ → Type 0
Searched table a e r = ((r ≡ 0) × AllUsed table a e) ⊎ ((r < e) × LowestFree table a r)

AllUsed-trans :
    (table : ℕ → List ℕ) (a b e : ℕ) → AllUsed table a b → AllUsed table b e → AllUsed table a e
AllUsed-trans table a b e x y c = ground (arith, x c, y c)

scan_sectors-Searched :
    (k s start n : ℕ) (table : ℕ → List ℕ) (read : ℕ → Option (List ℕ))
    → s + k ≡ n
    → n < 2 ^ 25
    → ((t : ℕ) → t < n → read ((start + t) % 2 ^ 32) ≡ some (table t))
    → Searched table (s * 128) (n * 128) (scan_sectors k s start read)
unfolding scan_sectors scan_read or_rest Searched
scan_sectors-Searched zero s start n table read h small good = inl (refl, λ c. ground arith)
scan_sectors-Searched (suc k) s start n table read h small good =
    let rest = scan_sectors k (s + 1) start read in
    let here : scan_sectors (suc k) s start read ≡ or_rest (scan_entries 128 s 0 (table s)) rest =
      ap (scan_read s rest) (good s (omega arith)) in
    let end : (s + 1) * 128 ≡ s * 128 + 128 = omega arith in
    let zero_first : s * 128 + 0 ≡ s * 128 = omega arith in
    elim (scan_entries-cases 128 s 0 table refl (omega arith)) [
      | inr (c, ran, below, l) ↦
          subst (Searched table (s * 128) (n * 128)) (sym (here ∙ ap (λ o. or_rest o rest) ran))
            (inr (omega arith, subst (λ a. LowestFree table a c) zero_first l))
      | inl (nothing, used) ↦
          let used' : AllUsed table (s * 128) ((s + 1) * 128) =
            subst (λ a. AllUsed table a ((s + 1) * 128)) zero_first
              (subst (λ e. AllUsed table (s * 128 + 0) e) (sym end) used) in
          subst (Searched table (s * 128) (n * 128)) (sym (here ∙ ap (λ o. or_rest o rest) nothing))
            (elim (scan_sectors-Searched k (s + 1) start n table read (omega arith) small good) [
              | inl (none_there, others) ↦
                  inl (
                    none_there,
                    AllUsed-trans table (s * 128) ((s + 1) * 128) (n * 128) used' others,
                  )
              | inr (below, l) ↦ inr (
                below,
                record {
                  from = omega (arith, l.from);
                  usable = l.usable;
                  free = l.free;
                  below = AllUsed-trans table (s * 128) ((s + 1) * 128) rest used' l.below;
                },
              )
            ])
    ]

-- With a table of fewer than 2 ^ 25 sectors that can all be read, `fat32_find_free_cluster` gives
-- the lowest free cluster from 2 on, and 0 exactly when there is none in the table.
pub find_free_cluster-LowestFree :
    (start n : ℕ) (table : ℕ → List ℕ) (read : ℕ → Option (List ℕ))
    → n < 2 ^ 25
    → ((t : ℕ) → t < n → read ((start + t) % 2 ^ 32) ≡ some (table t))
    → ((find_free_cluster start n read ≡ 0) × AllUsed table 0 (n * 128))
      ⊎ ((find_free_cluster start n read < n * 128)
          × LowestFree table 0 (find_free_cluster start n read))
unfolding find_free_cluster Searched
find_free_cluster-LowestFree start n table read small good =
    subst (λ a. Searched table a (n * 128) (scan_sectors n 0 start read)) zero_times
      (scan_sectors-Searched n 0 start n table read (omega arith) small good)
  where
    zero_times : 0 * 128 ≡ 0
    zero_times = omega arith
