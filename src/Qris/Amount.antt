-- ===== src/Qris/Amount.antt =====
-- func.c: GetAmount's padding. display.c: formatRupiah.
use service_payment_bridge.Prelude.{
  ℕ, zero, suc, ◌+◌, ◌-◌, ◌*◌, ◌/◌, ◌%◌, ◌≤◌, ◌<◌, ◌≡◌, refl, ◌∙◌, ap, Bool, true, false, ◌&&◌,
  List, [], Bool-cases, inl, inr, ◌∷◌, ◌++◌, Bytes, codes, length, replicate, length-append, ltb,
  leb, ◌==◌, if◌then◌else◌, arith,
}

-- `%ld` of a number that is not negative, on fuel.
unfoldable pub decimal_fuel : ℕ → ℕ → Bytes
decimal_fuel zero n = []
decimal_fuel (suc f) n =
    let rest = decimal_fuel f (n / 10) in
    if ltb n 10 then (n + 48) ∷ [] else rest ++ (n % 10 + 48) ∷ []

unfoldable pub decimal : ℕ → Bytes
unfolding decimal_fuel
decimal n = decimal_fuel (suc n) n

-- The loop of formatRupiah: `i > 0` is the flag, and `len - i` the number of digits left.
unfoldable pub group : Bool → Bytes → Bytes
group later [] = []
group later (d ∷ ds) =
    if later && (length (d ∷ ds) % 3 == 0) then b'.' ∷ d ∷ group true ds else d ∷ group true ds

-- formatRupiah of an amount in sen that is not negative.
unfoldable pub format_rupiah : ℕ → Bytes
unfolding decimal group
format_rupiah sen = codes "Rp " ++ group false (decimal (sen / 100))

-- GetAmount: the digits typed, at most 12, padded with '0' on the left to the 12 that are packed.
unfoldable pub pad_amount : Bytes → Bytes
pad_amount ds = replicate (12 - length ds) b'0' ++ ds

-- The number that a run of digits stands for; other bytes are passed over.
abbrev pub is_digit : ℕ → Bool
is_digit c = leb b'0' c && leb c b'9'

unfoldable pub value_from : ℕ → Bytes → ℕ
value_from acc [] = acc
value_from acc (c ∷ cs) = value_from (if is_digit c then 10 * acc + (c - 48) else acc) cs

pub value_from-append :
    (s t : Bytes) (acc : ℕ) → value_from acc (s ++ t) ≡ value_from (value_from acc s) t
unfolding value_from
value_from-append [] t acc = refl
value_from-append (c ∷ s) t acc =
    value_from-append s t (if is_digit c then 10 * acc + (c - 48) else acc)

pub value_from-digit : (acc k : ℕ) → k < 10 → value_from acc ((k + 48) ∷ []) ≡ 10 * acc + k
unfolding value_from
value_from-digit acc k h = ground arith

pub value_from-decimal : (f n : ℕ) → n < f → value_from 0 (decimal_fuel f n) ≡ n
unfolding decimal_fuel
value_from-decimal zero n h = elim h [ ]
value_from-decimal (suc f) n h = ground (
  arith,
  value_from-digit 0 n,
  value_from-append (decimal_fuel f (n / 10)) ((n % 10 + 48) ∷ []) 0,
  value_from-digit (n / 10) (n % 10),
  value_from-decimal f (n / 10),
)

value_from-group :
    (ds : Bytes) (later : Bool) (acc : ℕ) → value_from acc (group later ds) ≡ value_from acc ds
unfolding value_from group
value_from-group [] later acc = refl
value_from-group (d ∷ ds) later acc =
    ground (arith, value_from-group ds true (if is_digit d then 10 * acc + (d - 48) else acc))

pub value_from-replicate :
    (n : ℕ) (ds : Bytes) → value_from 0 (replicate n b'0' ++ ds) ≡ value_from 0 ds
unfolding value_from
value_from-replicate zero ds = refl
value_from-replicate (suc n) ds = value_from-replicate n ds

-- Runs of digits, each behind a dot.
abbrev pub dots : List Bytes → Bytes
dots [] = []
dots (m ∷ ms) = b'.' ∷ m ++ dots ms

abbrev pub joined : List Bytes → Bytes
joined [] = []
joined (m ∷ ms) = m ++ joined ms

abbrev pub AllThree : List Bytes → Type 0
AllThree [] = Unit
AllThree (m ∷ ms) = (length m ≡ 3) × AllThree ms

-- The digits in runs of three from the right: a first run, and the runs behind a dot.
abbrev pub Runs : Bytes → Bytes → Bytes → List Bytes → Type 0
Runs text ds h ms = (text ≡ h ++ dots ms) × (h ++ joined ms ≡ ds) × AllThree ms

group-Runs :
    (ds : Bytes)
    → (h : Bytes) × (ms : List Bytes) × Runs (group true ds) ds h ms × (length h ≡ length ds % 3)
unfolding group
group-Runs [] = ([], [], (refl, refl, tt), refl)
group-Runs (d ∷ ds) =
    let (h, ms, (e, w, three), l) = group-Runs ds in
    elim (Bool-cases (length (d ∷ ds) % 3 == 0)) [
      | inl q ↦ (
        [],
        (d ∷ h) ∷ ms,
        (rw q (ap (λ x. b'.' ∷ d ∷ x) e), ap (λ x. d ∷ x) w, (ground arith, three)),
        ground arith,
      )
      | inr q ↦ (d ∷ h, ms, (rw q (ap (λ x. d ∷ x) e), ap (λ x. d ∷ x) w, three), ground arith)
    ]

length-decimal : (f n : ℕ) → 1 ≤ length (decimal_fuel (suc f) n)
unfolding decimal_fuel
length-decimal f n = ground (arith, length-append (decimal_fuel f (n / 10)) ((n % 10 + 48) ∷ []))

-- The first digit has no dot before it.
group-parts :
    (ds : Bytes)
    → 1 ≤ length ds
    → (h : Bytes) × (ms : List Bytes) × Runs (group false ds) ds h ms
      × (1 ≤ length h)
      × (length h ≤ 3)
unfolding group
group-parts [] l = absurd (omega (arith, l))
group-parts (d ∷ ds) l =
    let (h, ms, (e, w, three), k) = group-Runs ds in
    (d ∷ h, ms, (ap (λ x. d ∷ x) e, ap (λ x. d ∷ x) w, three), ground arith, ground arith)

-- The text of an amount in sen is "Rp " and the decimal digits of the whole Rupiah, of which a first run of
-- one to three stands alone and each run behind it has three digits and a dot before it; read as a number
-- the digits are the amount in whole Rupiah.
pub value-format_rupiah :
    (sen : ℕ)
    → (h : Bytes) × (ms : List Bytes) × (format_rupiah sen ≡ codes "Rp " ++ (h ++ dots ms))
      × (h ++ joined ms ≡ decimal (sen / 100))
      × (1 ≤ length h)
      × (length h ≤ 3)
      × AllThree ms
      × (value_from 0 (h ++ joined ms) ≡ sen / 100)
unfolding format_rupiah decimal
value-format_rupiah sen =
    let (h, ms, (e, w, three), low, high) =
      group-parts (decimal (sen / 100)) (length-decimal (sen / 100) (sen / 100)) in
    (
      h,
      ms,
      ap (λ x. codes "Rp " ++ x) e,
      w,
      low,
      high,
      three,
      ap (value_from 0) w ∙ value_from-decimal (suc (sen / 100)) (sen / 100) (omega arith),
    )

length-replicate : (n : ℕ) → length {A = ℕ} (replicate n b'0') ≡ n
length-replicate zero = refl
length-replicate (suc n) = ap suc (length-replicate n)

-- GetAmount packs exactly 12 digits, and they stand for the amount typed.
pad_amount_lem :
    (ds : Bytes)
    → length ds ≤ 12
    → (length (pad_amount ds) ≡ 12) × (value_from 0 (pad_amount ds) ≡ value_from 0 ds)
unfolding pad_amount
pad_amount_lem ds h = (
  omega (
    arith,
    length-append {0} (replicate (12 - length ds) b'0') ds,
    length-replicate (12 - length ds),
  ),
  value_from-replicate (12 - length ds) ds,
)
