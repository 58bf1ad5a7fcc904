-- ===== src/Speech/Decimals.antt =====
-- AmtToMp3.c: amounts with two decimals.
use service_payment_bridge.Prelude.{
  ℕ, ◌≡◌, ◌≢◌, refl, false, none, some, ◌∷◌, ◌++◌, [], Bytes, codes, find, has_prefix, length,
  drop-append, str_eq, ◌==◌, arith,
}
use service_payment_bridge.Speech.{amt_to_mp3, decimals_of, tokens, last_value, overrun}

abbrev pub NoPoint : Bytes → Type 0
NoPoint [] = Unit
NoPoint (c ∷ s) = (c ≢ 46) × NoPoint s

find-point : (w s : Bytes) → NoPoint w → find (codes ".") (w ++ 46 ∷ s) ≡ some (length w)
unfolding find has_prefix
find-point [] s h = refl
find-point (c ∷ w) s h = ground (arith, find-point w s h.1, h.0)

two_digits :
    (a b : ℕ)
    → a ≢ 46
    → b ≢ 46
    → str_eq (a ∷ b ∷ []) (codes "00") ≡ false
    → decimals_of (46 ∷ a ∷ b ∷ []) ≡ none
unfolding decimals_of tokens last_value str_eq
two_digits a b h k e =
    let na : (a == 46) ≡ false = ground (arith, h) in
    let nb : (b == 46) ≡ false = ground (arith, k) in rw (na, nb, e) refl

-- An amount with two decimals that are not "00" writes past tmp[2], whatever stands before the point.
pub amt_to_mp3_two_decimals :
    (w currency_s currency : Bytes) (a b : ℕ)
    → NoPoint w
    → a ≢ 46
    → b ≢ 46
    → str_eq (a ∷ b ∷ []) (codes "00") ≡ false
    → amt_to_mp3 (w ++ 46 ∷ a ∷ b ∷ []) currency_s currency ≡ overrun
unfolding amt_to_mp3
amt_to_mp3_two_decimals w currency_s currency a b n h k e =
    rw
      (
        amt_to_mp3,
        find-point w (a ∷ b ∷ []) n,
        drop-append w (46 ∷ a ∷ b ∷ []),
        two_digits a b h k e,
      )
      refl
