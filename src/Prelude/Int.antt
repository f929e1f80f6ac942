-- ===== src/Prelude/Int.antt =====
-- Go's int, int64 and time.Duration: integers, with two's complement where the code adds to one.
-- `negsuc n` is -(n + 1).
use Prim.Native.Nat.{ℕ, ◌+◌, ◌-◌, ◌%◌, ◌^◌, ◌<◌}
use mathlib.Core.Path.{◌≡◌}
use mathlib.Core.Bool.{Bool, true, false, not}
use mathlib.Core.Logic.{◌↔◌}
use native.Mathlib.Omega.{arith}
use tracearr.Prelude.Tests.{Eq, ltb, nat_beq, if◌then◌else◌}

pub data ℤ : Type 0 where
  pos : ℕ → ℤ
  negsuc : ℕ → ℤ

abbrev pub int_beq : ℤ → ℤ → Bool
int_beq (pos a) (pos b) = nat_beq a b
int_beq (negsuc a) (negsuc b) = nat_beq a b
int_beq _ _ = false

pub int_beq_iff : (a b : ℤ) → (int_beq a b ≡ true) ↔ (a ≡ b)
int_beq_iff (pos a) (pos b) = ground arith
int_beq_iff (negsuc a) (negsuc b) = ground arith
int_beq_iff (pos a) (negsuc b) = ground arith
int_beq_iff (negsuc a) (pos b) = ground arith

instance abbrev pub int_eq : Eq ℤ
int_eq = record { beq = int_beq; beq_iff = int_beq_iff }

-- x != 0
abbrev pub is_nonzero : ℤ → Bool
is_nonzero a = not (int_beq a (pos 0))

-- x > 0
abbrev pub is_positive : ℤ → Bool
is_positive (pos n) = ltb 0 n
is_positive (negsuc n) = false

-- The 64 bits of an int, and the int that 64 bits stand for.
abbrev pub to_bits : ℤ → ℕ
to_bits (pos n) = n % 2 ^ 64
to_bits (negsuc n) = 2 ^ 64 - 1 - n % 2 ^ 64

abbrev pub of_bits : ℕ → ℤ
of_bits b = if ltb b (2 ^ 63) then pos b else negsuc (2 ^ 64 - 1 - b)

-- x + 1, which wraps
unfoldable pub wrapping_suc : ℤ → ℤ
wrapping_suc a = of_bits ((to_bits a + 1) % 2 ^ 64)

pub wrapping_suc-pos : (n : ℕ) → n + 1 < 2 ^ 63 → wrapping_suc (pos n) ≡ pos (n + 1)
unfolding wrapping_suc
wrapping_suc-pos n h = ground arith
