-- ===== src/Base/Int.antt =====
-- Python's int, as an integer, and the comparisons that the code makes.
use Prim.Native.Nat.{ℕ, zero, suc, ◌+◌, ◌-◌, ◌*◌}
use Prim.Native.String.{String}
use mathlib.Core.Bool.{Bool, true, false}
use sth_boring.Base.Tests.{ltb, leb, nat_eq, if◌then◌else◌}
use sth_boring.Base.Text.{◌<>◌, str}

-- `negsuc n` is -(n + 1).
pub data ℤ : Type 0 where
  pos : ℕ → ℤ
  negsuc : ℕ → ℤ

abbrev pub pos_part : ℤ → ℕ
pos_part (pos n) = n
pos_part (negsuc n) = 0

abbrev pub neg_part : ℤ → ℕ
neg_part (pos n) = 0
neg_part (negsuc n) = suc n

-- `a <= 0`
abbrev pub is_positive : ℤ → Bool
is_positive (pos zero) = false
is_positive (pos (suc n)) = true
is_positive (negsuc n) = false

-- `a * k`, for a positive `k`
abbrev pub scaled : ℤ → ℕ → ℤ
scaled (pos n) k = pos (n * k)
scaled (negsuc n) k = negsuc (suc n * k - 1)

-- `a < b` and `a == b`
abbrev pub int_lt : ℤ → ℤ → Bool
int_lt a b = ltb (pos_part a + neg_part b) (pos_part b + neg_part a)

abbrev pub int_eq : ℤ → ℤ → Bool
int_eq a b = nat_eq (pos_part a + neg_part b) (pos_part b + neg_part a)

-- `str(n)`
abbrev pub int_text : ℤ → String
int_text (pos n) = str n
int_text (negsuc n) = "-" <> str (suc n)

-- `max(1, n)`
abbrev pub at_least_one : ℤ → ℕ
at_least_one (pos (suc n)) = suc n
at_least_one _ = 1

-- `a + b`
abbrev pub plus : ℤ → ℤ → ℤ
plus (pos a) (pos b) = pos (a + b)
plus (pos a) (negsuc b) = if leb (suc b) a then pos (a - suc b) else negsuc (b - a)
plus (negsuc a) (pos b) = if leb (suc a) b then pos (b - suc a) else negsuc (a - b)
plus (negsuc a) (negsuc b) = negsuc (suc (a + b))

-- `a - b`
abbrev pub minus : ℤ → ℤ → ℤ
minus a (pos zero) = a
minus a (pos (suc n)) = plus a (negsuc n)
minus a (negsuc n) = plus a (pos (suc n))
