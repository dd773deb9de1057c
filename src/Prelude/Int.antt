-- ===== src/Prelude/Int.antt =====
-- Integers over the native numbers: positions counted from the front or from the back.
use Prim.Native.Nat.{ℕ, suc, ◌+◌, ◌-◌}
use mathlib.Core.Bool.{Bool, true, false}
use ophyd_service.Prelude.Tests.{leb, ltb, eqb, if◌then◌else◌}

-- `negsuc n` is -(n + 1).
pub data ℤ : Type 0 where
  pos : ℕ → ℤ
  negsuc : ℕ → ℤ

-- a - b
abbrev pub sub_ℕ : ℕ → ℕ → ℤ
sub_ℕ a b = if leb b a then pos (a - b) else negsuc (b - a - 1)

-- n + z
abbrev pub add_ℕ : ℕ → ℤ → ℤ
add_ℕ n (pos k) = pos (n + k)
add_ℕ n (negsuc k) = sub_ℕ n (suc k)

abbrev pub is_eq : ℤ → ℤ → Bool
is_eq (pos a) (pos b) = eqb a b
is_eq (negsuc a) (negsuc b) = eqb a b
is_eq _ _ = false

abbrev pub is_lt : ℤ → ℤ → Bool
is_lt (pos a) (pos b) = ltb a b
is_lt (pos a) (negsuc b) = false
is_lt (negsuc a) (pos b) = true
is_lt (negsuc a) (negsuc b) = ltb b a
