-- ===== src/Base/Integers.antt =====
-- Python integers, as far as the program looks at them: exit codes, which may be negative.
use Prim.Native.Nat.{ℕ}
use mathlib.Core.Bool.{Bool, false}
use mathlib.Core.List.{List}
use condora.Base.Tests.{nat_beq}
use condora.Base.Equality.{nat_eq}
use condora.Base.Lists.{contains}

-- `negsuc n` is -(n + 1).
pub data ℤ : Type 0 where
  pos : ℕ → ℤ
  negsuc : ℕ → ℤ

-- `z == n`, for a numeral `n` that is not negative.
abbrev pub is_code : ℤ → ℕ → Bool
is_code (pos m) n = nat_beq m n
is_code (negsuc m) n = false

-- `z in codes`, for a set of codes that are not negative. It is shut: the tables are long.
unfoldable pub in_codes : ℤ → List ℕ → Bool
in_codes (pos n) codes = contains n codes
in_codes (negsuc n) codes = false
