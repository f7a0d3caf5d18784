-- ===== src/Prelude/Int.antt =====
-- C's `int` and `int64_t`: integers, and their two's complement bit patterns.
use Prim.Native.Nat.{ℕ, ◌-◌, ◌%◌, ◌^◌}
use curls.Prelude.Tests.{ltb, if◌then◌else◌}

pub data ℤ : Type 0 where
  pos : ℕ → ℤ
  negsuc : ℕ → ℤ

-- -1
abbrev pub minus_one : ℤ
minus_one = negsuc 0

-- `(uint64_t)z` for a `z` of at most 64 bits
abbrev pub to_u64 : ℤ → ℕ
to_u64 (pos n) = n % 2 ^ 64
to_u64 (negsuc n) = (2 ^ 64 - 1 - n) % 2 ^ 64

-- `(int)x` for a `uint64_t`
abbrev pub to_int : ℕ → ℤ
to_int x = if ltb (x % 2 ^ 32) (2 ^ 31) then pos (x % 2 ^ 32) else negsuc (2 ^ 32 - 1 - x % 2 ^ 32)
