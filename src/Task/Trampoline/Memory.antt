-- ===== src/Task/Trampoline/Memory.antt =====
-- Bytes in memory, little-endian words, and what a write leaves for a read.
use curls.Prelude.{
  ℕ, zero, suc, ◌+◌, ◌/◌, ◌%◌, ◌<◌, ◌≤◌, ◌≡◌, refl, ap, ap₂, ◌∙◌, ◌⊎◌, inl, inr, List, [], ◌∷◌,
  arith,
}
use curls.Prelude.Lists.{length}
use curls.Prelude.Store.{update, update_self, update_ne}

-- `for (i …) a[i] = bytes[i];`
unfoldable pub store : List ℕ → ℕ → (ℕ → ℕ) → ℕ → ℕ
store [] a m = m
store (b ∷ bs) a m = store bs (a + 1) (update m a b)

-- The `w` bytes of a word.
abbrev pub le_bytes : ℕ → ℕ → List ℕ
le_bytes zero n = []
le_bytes (suc w) n = n % 256 ∷ le_bytes w (n / 256)

abbrev pub load : ℕ → ℕ → (ℕ → ℕ) → List ℕ
load zero a m = []
load (suc k) a m = m a ∷ load k (a + 1) m

-- A read of one byte outside of what is written.
pub store-out :
    (bs : List ℕ) (a x : ℕ) (m : ℕ → ℕ) → (x < a) ⊎ (a + length bs ≤ x) → store bs a m x ≡ m x
unfolding store
store-out [] a x m h = refl
store-out (b ∷ bs) a x m (inl h) =
    store-out bs (a + 1) x (update m a b) (inl (omega arith)) ∙ update_ne m a x b (omega arith)
store-out (b ∷ bs) a x m (inr h) =
    store-out bs (a + 1) x (update m a b) (inr (omega arith)) ∙ update_ne m a x b (omega arith)

pub load-store_self : (bs : List ℕ) (a : ℕ) (m : ℕ → ℕ) → load (length bs) a (store bs a m) ≡ bs
unfolding store
load-store_self [] a m = refl
load-store_self (b ∷ bs) a m =
    ap₂ (λ x xs. x ∷ xs)
      (store-out bs (a + 1) a (update m a b) (inl (omega arith)) ∙ update_self m a b)
      (load-store_self bs (a + 1) (update m a b))

pub load-store_ne :
    (k : ℕ) (bs : List ℕ) (a b : ℕ) (m : ℕ → ℕ)
    → (a + k ≤ b) ⊎ (b + length bs ≤ a)
    → load k a (store bs b m) ≡ load k a m
load-store_ne zero bs a b m h = refl
load-store_ne (suc k) bs a b m (inl h) =
    ap₂ (λ x xs. x ∷ xs) (store-out bs b a m (inl (omega arith)))
      (load-store_ne k bs (a + 1) b m (inl (omega arith)))
load-store_ne (suc k) bs a b m (inr h) =
    ap₂ (λ x xs. x ∷ xs) (store-out bs b a m (inr h))
      (load-store_ne k bs (a + 1) b m (inr (omega arith)))

pub length-le_bytes : (w n : ℕ) → length (le_bytes w n) ≡ w
length-le_bytes zero n = refl
length-le_bytes (suc w) n = ap suc (length-le_bytes w (n / 256))
