-- ===== src/Card/Amount.antt =====
-- EmvCommon.c: FormatAmt_Str and FormatAmtToDisp_Api, an amount with two decimals. The callers give at most
-- 12 digits.
use service_payment_bridge.Prelude.{
  ℕ, zero, suc, ◌-◌, ◌≤◌, ◌<◌, ◌≡◌, ◌≢◌, refl, ap, ◌∙◌, true, [], ◌∷◌, ◌++◌, Bytes, codes, cstr,
  length, take, drop, take-append-drop, length-drop, ltb, ◌==◌, if◌then◌else◌, arith, inl, inr,
  Bool-cases,
}
use service_payment_bridge.Qris.Amount.{value_from, value_from-append}

-- "for (i = 0; i < cLen; i++)": the text behind its leading zeros.
unfoldable pub skip_zeros : Bytes → Bytes
skip_zeros [] = []
skip_zeros (c ∷ s) = let rest = skip_zeros s in if c == b'0' then rest else c ∷ s

-- The digits over the end of "0.00".
unfoldable pub point : Bytes → Bytes
point s =
    let n = length s in
    if ltb 2 n then take (n - 2) s ++ b'.' ∷ drop (n - 2) s else take (4 - n) (codes "0.00") ++ s

-- FormatAmt_Str
unfoldable pub format_amt_str : Bytes → Bytes
unfolding skip_zeros point
format_amt_str src = point (skip_zeros src)

-- FormatAmtToDisp_Api: packed digits, by BcdToAsc_Api, or at most 12 bytes of a text.
unfoldable pub format_amt_to_disp : (Bytes → ℕ → Bytes) → Bytes → ℕ → Bytes
unfolding format_amt_str
format_amt_to_disp bcd_to_asc amount flag =
    if flag == 0
    then format_amt_str (bcd_to_asc amount 12)
    else format_amt_str (take 12 (cstr amount))

value_from-skip_zeros : (s : Bytes) → value_from 0 (skip_zeros s) ≡ value_from 0 s
unfolding skip_zeros value_from
value_from-skip_zeros [] = refl
value_from-skip_zeros (c ∷ s) = elim (Bool-cases (c == b'0')) [
  | inl q ↦ let e : c ≡ b'0' = ground (arith, q) in rw (e, value_from-skip_zeros s) refl
  | inr q ↦ rw q refl
]

value_from-dot : (p s : Bytes) → value_from 0 (p ++ b'.' ∷ s) ≡ value_from 0 (p ++ s)
unfolding value_from
value_from-dot p s = rw (value_from-append p (b'.' ∷ s) 0, value_from-append p s 0) refl

value_from-point : (s : Bytes) → value_from 0 (point s) ≡ value_from 0 s
unfolding point value_from
value_from-point [] = refl
value_from-point (a ∷ []) = refl
value_from-point (a ∷ b ∷ []) = refl
value_from-point (a ∷ b ∷ c ∷ s) =
    let t : Bytes = a ∷ b ∷ c ∷ s in
    let q : ltb 2 (length t) ≡ true = ground arith in
    rw q (
      value_from-dot (take (length t - 2) t) (drop (length t - 2) t)
      ∙ ap (value_from 0) (take-append-drop (length t - 2) t))

-- At least one digit in front of the point, and no zero in front of another digit.
abbrev pub IsWhole : Bytes → Type 0
IsWhole [] = ⊥
IsWhole (c ∷ []) = Unit
IsWhole (c ∷ d ∷ s) = c ≢ b'0'

-- A text that does not begin with '0'.
abbrev NoZero : Bytes → Type 0
NoZero [] = Unit
NoZero (c ∷ s) = c ≢ b'0'

skip_zeros-NoZero : (s : Bytes) → NoZero (skip_zeros s)
unfolding skip_zeros
skip_zeros-NoZero [] = tt
skip_zeros-NoZero (c ∷ s) = elim (Bool-cases (c == b'0')) [
  | inl q ↦ rw q (skip_zeros-NoZero s)
  | inr q ↦ rw q (ground (arith, q))
]

take-IsWhole : (n : ℕ) (s : Bytes) → NoZero s → 0 < n → n ≤ length s → IsWhole (take n s)
take-IsWhole zero s h p q = absurd (omega arith)
take-IsWhole (suc n) [] h p q = absurd (omega arith)
take-IsWhole (suc zero) (c ∷ s) h p q = tt
take-IsWhole (suc (suc n)) (c ∷ []) h p q = tt
take-IsWhole (suc (suc n)) (c ∷ d ∷ s) h p q = h

-- A whole number, a point and two decimals.
abbrev pub IsPrice : Bytes → Type 0
IsPrice t = (w : Bytes) × (f : Bytes) × (t ≡ w ++ b'.' ∷ f) × IsWhole w × (length f ≡ 2)

point-IsPrice : (s : Bytes) → NoZero s → IsPrice (point s)
unfolding point
point-IsPrice [] h = (codes "0", codes "00", refl, tt, refl)
point-IsPrice (a ∷ []) h = (codes "0", b'0' ∷ a ∷ [], refl, tt, refl)
point-IsPrice (a ∷ b ∷ []) h = (codes "0", a ∷ b ∷ [], refl, tt, refl)
point-IsPrice (a ∷ b ∷ c ∷ s) h =
    let t : Bytes = a ∷ b ∷ c ∷ s in
    let q : ltb 2 (length t) ≡ true = ground arith in
    rw q (
      take (length t - 2) t,
      drop (length t - 2) t,
      refl,
      take-IsWhole (length t - 2) t h (omega arith) (omega arith),
      omega (arith, length-drop {0} (length t - 2) t),
    )

-- An amount in cents is shown as a price, a whole number without leading zeros, a point and two decimals,
-- and the digits of that text stand for the same number of cents.
pub format_amt_str_lem :
    (src : Bytes)
    → IsPrice (format_amt_str src) × (value_from 0 (format_amt_str src) ≡ value_from 0 src)
unfolding format_amt_str
format_amt_str_lem src = (
  point-IsPrice (skip_zeros src) (skip_zeros-NoZero src),
  value_from-point (skip_zeros src) ∙ value_from-skip_zeros src,
)
