-- ===== src/Prelude/Bits.antt =====
-- One bit of an unsigned word, by recursion on the binary digits: `x & (1 << k)`,
-- `x | (1 << k)` and `x & ~(1 << k)` for a word `x` and a bit number `k`.
use Prim.Native.Nat.{ℕ, zero, suc, ◌+◌, ◌-◌, ◌*◌, ◌/◌, ◌%◌, ◌<◌, ◌^◌}
use mathlib.Core.Path.{◌≡◌, refl, ap, ap₂, sym, ◌∙◌}
use mathlib.Core.Logic.{◌≢◌}
use mathlib.Core.Bool.{Bool, true, false, ◌&&◌}
use native.Mathlib.Omega.{arith}
use native.Mathlib.Nat.{pow-suc}
use curls.Prelude.Tests.{◌==◌, if◌then◌else◌}

unfoldable pub test_bit : ℕ → ℕ → Bool
test_bit x zero = x % 2 == 1
test_bit x (suc k) = test_bit (x / 2) k

unfoldable pub set_bit : ℕ → ℕ → ℕ
set_bit x zero = x / 2 * 2 + 1
set_bit x (suc k) = set_bit (x / 2) k * 2 + x % 2

unfoldable pub clear_bit : ℕ → ℕ → ℕ
clear_bit x zero = x / 2 * 2
clear_bit x (suc k) = clear_bit (x / 2) k * 2 + x % 2

half_of : (a b : ℕ) → b < 2 → (a * 2 + b) / 2 ≡ a
half_of a b h = omega arith

bit_of : (a b : ℕ) → b < 2 → (a * 2 + b) % 2 ≡ b
bit_of a b h = omega arith

pub test_bit-set_self : (x k : ℕ) → test_bit (set_bit x k) k ≡ true
unfolding test_bit set_bit
test_bit-set_self x zero = ground (arith, bit_of (x / 2) 1)
test_bit-set_self x (suc k) =
    rw (half_of (set_bit (x / 2) k) (x % 2) (omega arith)) (test_bit-set_self (x / 2) k)

pub test_bit-set_ne : (x k j : ℕ) → k ≢ j → test_bit (set_bit x k) j ≡ test_bit x j
unfolding test_bit set_bit
test_bit-set_ne x zero zero h = absurd (h refl)
test_bit-set_ne x zero (suc j) h = rw (half_of (x / 2) 1 (omega arith))
test_bit-set_ne x (suc k) zero h = rw (bit_of (set_bit (x / 2) k) (x % 2) (omega arith))
test_bit-set_ne x (suc k) (suc j) h =
    rw (half_of (set_bit (x / 2) k) (x % 2) (omega arith))
      (test_bit-set_ne (x / 2) k j (λ e. h (ap suc e)))

pub test_bit-clear_self : (x k : ℕ) → test_bit (clear_bit x k) k ≡ false
unfolding test_bit clear_bit
test_bit-clear_self x zero = ground arith
test_bit-clear_self x (suc k) =
    rw (half_of (clear_bit (x / 2) k) (x % 2) (omega arith)) (test_bit-clear_self (x / 2) k)

pub test_bit-clear_ne : (x k j : ℕ) → k ≢ j → test_bit (clear_bit x k) j ≡ test_bit x j
unfolding test_bit clear_bit
test_bit-clear_ne x zero zero h = absurd (h refl)
test_bit-clear_ne x zero (suc j) h = ap (λ y. test_bit y j) (omega arith)
test_bit-clear_ne x (suc k) zero h = rw (bit_of (clear_bit (x / 2) k) (x % 2) (omega arith))
test_bit-clear_ne x (suc k) (suc j) h =
    rw (half_of (clear_bit (x / 2) k) (x % 2) (omega arith))
      (test_bit-clear_ne (x / 2) k j (λ e. h (ap suc e)))

-- Setting a bit of a w-bit word stays a w-bit word.
pub set_bit-lt : (w x k : ℕ) → k < w → x < 2 ^ w → set_bit x k < 2 ^ w
unfolding set_bit
set_bit-lt zero x k h b = elim h [ ]
set_bit-lt (suc w) x zero h b = omega (arith, pow-suc 2 w)
set_bit-lt (suc w) x (suc k) h b =
    omega (arith, pow-suc 2 w, set_bit-lt w (x / 2) k (omega arith) (omega (arith, pow-suc 2 w)))

pow-pos : (w : ℕ) → 0 < 2 ^ w
pow-pos zero = omega arith
pow-pos (suc w) = omega (arith, pow-suc 2 w, pow-pos w)

-- A word with all of its w bits set.
pub test_bit-ones : (w k : ℕ) → k < w → test_bit (2 ^ w - 1) k ≡ true
unfolding test_bit
test_bit-ones zero k h = absurd (omega arith)
test_bit-ones (suc w) zero h =
    let odd : (2 ^ suc w - 1) % 2 ≡ 1 = omega (arith, pow-suc 2 w, pow-pos w) in rw odd refl
test_bit-ones (suc w) (suc k) h =
    let half : (2 ^ suc w - 1) / 2 ≡ 2 ^ w - 1 = omega (arith, pow-suc 2 w, pow-pos w) in
    rw half (test_bit-ones w k (omega arith))

-- `x | y` in `w` bits.
unfoldable pub bit_or : ℕ → ℕ → ℕ → ℕ
bit_or zero x y = 0
bit_or (suc w) x y = bit_or w (x / 2) (y / 2) * 2 + (if (x % 2 == 0) && (y % 2 == 0) then 0 else 1)

bit_or-zero : (w x : ℕ) → x < 2 ^ w → bit_or w x 0 ≡ x
unfolding bit_or
bit_or-zero zero x h = omega arith
bit_or-zero (suc w) x h =
    let rest : bit_or w (x / 2) 0 ≡ x / 2 = bit_or-zero w (x / 2) (omega (arith, pow-suc 2 w)) in
    ground arith

abbrev halves : ℕ → ℕ → ℕ
halves zero x = x
halves (suc k) x = halves k (x / 2)

abbrev wider : ℕ → ℕ → ℕ
wider zero w = w
wider (suc k) w = suc (wider k w)

bit_or-half : (w x y : ℕ) → bit_or (suc w) x y / 2 ≡ bit_or w (x / 2) (y / 2)
unfolding bit_or
bit_or-half w x y =
    half_of (bit_or w (x / 2) (y / 2)) (if (x % 2 == 0) && (y % 2 == 0) then 0 else 1)
      (ground arith)

bit_or-halves :
    (k w x y : ℕ) → halves k (bit_or (wider k w) x y) ≡ bit_or w (halves k x) (halves k y)
bit_or-halves zero w x y = refl
bit_or-halves (suc k) w x y =
    ap (halves k) (bit_or-half (wider k w) x y) ∙ bit_or-halves k w (x / 2) (y / 2)

halves-page : (x : ℕ) → halves 12 x ≡ x / 4096
halves-page x = omega arith

-- The bits of a page address stay where flags below the page size are set.
pub bit_or-page : (x y : ℕ) → x < 2 ^ 64 → y < 4096 → bit_or 64 x y / 4096 ≡ x / 4096
bit_or-page x y hx hy =
    let halved : bit_or 64 x y / 4096 ≡ bit_or 52 (x / 4096) (y / 4096) =
      sym (halves-page (bit_or 64 x y))
      ∙ bit_or-halves 12 52 x y
      ∙ ap₂ (bit_or 52) (halves-page x) (halves-page y) in
    let none_left : y / 4096 ≡ 0 = omega arith in
    halved ∙ ap (bit_or 52 (x / 4096)) none_left ∙ bit_or-zero 52 (x / 4096) (omega arith)

-- The low bits of a page address are flags.
pub set_bit-page : (x k : ℕ) → k < 3 → set_bit x k / 4096 ≡ x / 4096
unfolding set_bit
set_bit-page x zero h = omega arith
set_bit-page x (suc zero) h = omega arith
set_bit-page x (suc (suc zero)) h = omega arith
set_bit-page x (suc (suc (suc k))) h = absurd (omega arith)
