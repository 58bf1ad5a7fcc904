-- ===== src/Prelude/Find.antt =====
-- The first occurrence of a text, in a longer text and in a shorter one.
use Prim.Native.Nat.{ℕ, ◌+◌, ◌<◌, ◌≤◌}
use mathlib.Core.Bool.{true}
use mathlib.Core.List.{[], ◌∷◌, ◌++◌}
use mathlib.Core.Option.{none, some}
use mathlib.Core.Logic.{inl, inr}
use mathlib.Core.Path.{◌≡◌, sym, ◌∙◌}
use native.Mathlib.Omega.{arith}
use service_payment_bridge.Prelude.Lists.{length}
use service_payment_bridge.Prelude.Tests.{Option-cases}
use service_payment_bridge.Prelude.Text.{Bytes, has_prefix, find}

has_prefix-append : (s t b : Bytes) → length t ≤ length s → has_prefix (s ++ b) t ≡ has_prefix s t
unfolding has_prefix
has_prefix-append s [] b h = ground arith
has_prefix-append [] (d ∷ t) b h = absurd (omega arith)
has_prefix-append (c ∷ s) (d ∷ t) b h = ground (arith, has_prefix-append s t b)

has_prefix-le : (s t : Bytes) → has_prefix s t ≡ true → length t ≤ length s
unfolding has_prefix
has_prefix-le s [] h = omega arith
has_prefix-le [] (d ∷ t) h = cc
has_prefix-le (c ∷ s) (d ∷ t) h = ground (arith, has_prefix-le s t)

has_prefix_longer : (s t b : Bytes) → has_prefix s t ≡ true → has_prefix (s ++ b) t ≡ true
has_prefix_longer s t b h = rw (has_prefix-append s t b (has_prefix-le s t h)) h

pub find-le : (t s : Bytes) (n : ℕ) → find t s ≡ some n → n + length t ≤ length s
unfolding find
find-le t [] n h = ground (arith, has_prefix-le [] t)
find-le t (c ∷ s) n h = elim (Option-cases (find t s)) [
  | inl e ↦ ground (arith, e, has_prefix-le (c ∷ s) t)
  | inr (k, e) ↦ ground (arith, e, has_prefix-le (c ∷ s) t, find-le t s k e)
]

-- What is found stays found when more text follows.
pub find-append : (t s b : Bytes) (n : ℕ) → find t s ≡ some n → find t (s ++ b) ≡ some n
unfolding find
find-append [] [] [] n h = h
find-append [] [] (c ∷ b) n h = h
find-append (d ∷ t) [] b n h = absurd (ground (arith, h))
find-append t (c ∷ s) b n h = elim (Option-cases (find t s)) [
  | inl e ↦ ground (arith, e, has_prefix_longer (c ∷ s) t b)
  | inr (k, e) ↦
      ground (arith, e, has_prefix-append (c ∷ s) t b, find-append t s b k e, find-le t s k e)
]

-- In a text that ends before the first occurrence does, there is none.
pub find-none :
    (t p r : Bytes) (n : ℕ) → find t (p ++ r) ≡ some n → length p < n + length t → find t p ≡ none
find-none t p r n h k = elim (Option-cases (find t p)) [
  | inl e ↦ e
  | inr (m, e) ↦
      let same : some m ≡ some n = sym (find-append t p r m e) ∙ h in
      let eq : m ≡ n = ground (arith, same) in absurd (omega (arith, find-le t p m e))
]
