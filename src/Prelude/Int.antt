-- ===== src/Prelude/Int.antt =====
-- Signed results of C calls. `negsuc n` is -(n + 1).
use Prim.Native.Nat.{ℕ, suc, ◌-◌}
use mathlib.Core.Bool.{Bool, true, false}
use service_payment_bridge.Prelude.Tests.{leb, ◌==◌, if◌then◌else◌}

pub data ℤ : Type 0 where
  pos : ℕ → ℤ
  negsuc : ℕ → ℤ

-- The tests `r < 0` and `r == k` of the source, for a numeral `k ≥ 0`.
abbrev pub is_neg : ℤ → Bool
is_neg (pos n) = false
is_neg (negsuc n) = true

abbrev pub is : ℕ → ℤ → Bool
is k (pos n) = n == k
is k (negsuc n) = false

-- -k
abbrev pub neg : ℕ → ℤ
neg k = if k == 0 then pos 0 else negsuc (k - 1)

-- r + 1
abbrev pub succ : ℤ → ℤ
succ (pos n) = pos (suc n)
succ (negsuc n) = neg n

abbrev pub pos_part : ℤ → ℕ
pos_part (pos n) = n
pos_part (negsuc n) = 0

-- `r <= k`
abbrev pub at_most : ℕ → ℤ → Bool
at_most k (pos n) = leb n k
at_most k (negsuc n) = true
