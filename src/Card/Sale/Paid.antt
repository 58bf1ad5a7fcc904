-- ===== src/Card/Sale/Paid.antt =====
-- Card.c, TransInsertCard: what a sale that is shown as paid has done.
use service_payment_bridge.Prelude.{
  ℕ, suc, ◌+◌, ◌*◌, ◌/◌, ◌%◌, ◌^◌, ◌-◌, ◌<◌, ◌++◌, ◌≡◌, refl, ap, sym, ◌∙◌, Bool, true, false,
  Option, none, some, [], ◌∷◌, Bytes, length, leb, ℤ, pos, negsuc, is, if◌then◌else◌, arith, inl,
  inr, Bool-cases,
}
use service_payment_bridge.Qris.Amount.{
  decimal, pad_amount, value_from, value_from-append, value_from-decimal, value_from-digit,
  value_from-replicate,
}
use service_payment_bridge.Speech.{Spoken}
use service_payment_bridge.Card.Data.{Trans}
use service_payment_bridge.Card.Kernel.{
  Run, Result, ok, stop, overrun, logged, set_card_type, emv_clear, set_trade_amt, init_param,
}
use service_payment_bridge.Card.Contact.{prepared, emv_card_proc}
use service_payment_bridge.Card.Contact.Log.{zero_of}
use service_payment_bridge.Card.Contact.Order.{Approved, app_emv_trans-Approved}
use service_payment_bridge.Card.Contact.Parts.{full_transaction}
use service_payment_bridge.Card.Sale.{
  Event, card, escape, timeout, Environment, number_kept, shown_number, disp_card_no, Outcome,
  not_entered, failed, overran, waits, paid, two_digits, as_int, price, announced_price, confirmed,
  settled, emv_get_card, trans_insert_card,
}

value_from-price : (n : ℕ) → value_from 0 (price (pos n)) ≡ n
unfolding price value_from decimal
value_from-price n =
    value_from-append (decimal (n / 100)) (b'.' ∷ two_digits (n % 100)) 0
    ∙ ground (
      arith,
      value_from-decimal (suc (n / 100)) (n / 100),
      value_from-digit (n / 100) (n % 100 / 10),
      value_from-digit (10 * (n / 100) + n % 100 / 10) (n % 10),
    )

number_kept-log : (o : Option Bytes) (r : Run) → (number_kept o r).log ≡ r.log
number_kept-log none r = refl
number_kept-log (some n) r = refl

shown_number-log :
    (e : Environment) (track : Option Bytes) (c : ℤ) (o : Option (ℤ × Trans)) (r : Run)
    → (shown_number e track c o r).1.log ≡ r.log
unfolding shown_number
shown_number-log e track c none r = refl
shown_number-log e track c (some (negsuc n, t)) r = refl
shown_number-log e track c (some (pos n, t)) r = number_kept-log _ _

-- The code is 0 only behind ENTER.
shown_number-enter :
    (e : Environment) (track : Option Bytes) (enter : Bool) (o : Option (ℤ × Trans)) (r : Run)
    (z : ℤ)
    → (shown_number e track (if enter then pos 0 else negsuc 7) o r).0 ≡ some z
    → is 0 z ≡ true
    → enter ≡ true
unfolding shown_number
shown_number-enter e track true o r z h q = refl
shown_number-enter e track false none r z h q = cc
shown_number-enter e track false (some (negsuc n, t)) r z h q =
    let w : z ≡ pos 0 = zero_of z q in cc
shown_number-enter e track false (some (pos n, t)) r z h q = let w : z ≡ pos 0 = zero_of z q in cc

abbrev shown_text : Outcome → Bytes
shown_text not_entered = []
shown_text failed = []
shown_text overran = []
shown_text waits = []
shown_text (paid t s) = t

disp_card_no-log :
    (e : Environment) (enter : Bool) (r : Run) → (disp_card_no e enter r).1.log ≡ r.log
unfolding disp_card_no
disp_card_no-log e enter r = shown_number-log e (e.platform.tlv r.clock 0x57) _ _ r

disp_card_no-enter :
    (e : Environment) (enter : Bool) (r : Run) (z : ℤ)
    → (disp_card_no e enter r).0 ≡ some z
    → is 0 z ≡ true
    → enter ≡ true
unfolding disp_card_no
disp_card_no-enter e enter r z h q =
    shown_number-enter e (e.platform.tlv r.clock 0x57) enter _ r z h q

emv_card_proc-Approved :
    (e : Environment) (fuel : ℕ) (r : Run)
    → (emv_card_proc e.conversion e.platform true false fuel r).0 ≡ some (ok (pos 0))
    → Approved full_transaction (emv_card_proc e.conversion e.platform true false fuel r).1.log
unfolding emv_card_proc
emv_card_proc-Approved e fuel r h =
    elim (Bool-cases (is 0 (e.platform.answer r.clock set_card_type))) [
      | inl q ↦ rw q (
          app_emv_trans-Approved e.conversion e.platform true fuel
            (prepared e.platform (emv_clear ∷ set_trade_amt ∷ init_param ∷ [])
              (logged r set_card_type (e.platform.answer r.clock set_card_type)))
            (rw q at h))
      | inr q ↦ absurd (nonzero (e.platform.answer r.clock set_card_type) q (rw q at h))
    ]
  where
    nonzero :
        (y : ℤ) → is 0 y ≡ false → ◌≡◌ {A = Option (Result ℤ)} (some (ok y)) (some (ok (pos 0))) → ⊥
    nonzero y h q = let w : y ≡ pos 0 = cc in let u : is 0 y ≡ true = rw w refl in cc

emv_get_card-Approved :
    (e : Environment) (fuel : ℕ) (event : Event) (r : Run)
    → (emv_get_card e fuel false event r).0 ≡ some (ok (pos 0))
    → Approved full_transaction (emv_get_card e fuel false event r).1.log
unfolding emv_get_card
emv_get_card-Approved e fuel card r h = emv_card_proc-Approved e fuel _ h
emv_get_card-Approved e fuel escape r h = cc
emv_get_card-Approved e fuel timeout r h = cc

announced_price-paid :
    (cents : ℤ) (t : Bytes) (s : Spoken) → announced_price cents ≡ paid t s → t ≡ price cents
unfolding announced_price
announced_price-paid cents t s h = elim (Bool-cases (leb 12 (length (price cents)))) [
  | inl q ↦ ground (arith, q, h)
  | inr q ↦ sym (ap shown_text (rw q at h))
]

confirmed-paid :
    (cents : ℤ) (o : Option ℤ) (r : Run) (t : Bytes) (s : Spoken)
    → (confirmed cents (o, r)).0 ≡ paid t s
    → (z : ℤ) × (o ≡ some z) × (is 0 z ≡ true) × (t ≡ price cents)
unfolding confirmed
confirmed-paid cents none r t s h = cc
confirmed-paid cents (some z) r t s h = elim (Bool-cases (is 0 z)) [
  | inl q ↦ (z, refl, q, announced_price-paid cents t s (rw q at h))
  | inr q ↦ ground (arith, q, h)
]

confirmed-run : (cents : ℤ) (o : Option ℤ) (r : Run) → (confirmed cents (o, r)).1 ≡ r
unfolding confirmed
confirmed-run cents none r = refl
confirmed-run cents (some z) r = elim (Bool-cases (is 0 z)) [
  | inl q ↦ rw q refl
  | inr q ↦ rw q refl
]

settled-paid :
    (e : Environment) (cents : ℤ) (enter : Bool) (o : Option (Result ℤ)) (r : Run) (t : Bytes)
    (s : Spoken)
    → (settled e cents enter (o, r)).0 ≡ paid t s
    → (o ≡ some (ok (pos 0)))
      × (enter ≡ true)
      × (t ≡ price cents)
      × ((settled e cents enter (o, r)).1.log ≡ r.log)
unfolding settled
settled-paid e cents enter none r t s h = cc
settled-paid e cents enter (some overrun) r t s h = cc
settled-paid e cents enter (some (stop z)) r t s h = cc
settled-paid e cents enter (some (ok z)) r t s h = elim (Bool-cases (is 0 z)) [
  | inl q ↦
      let d = disp_card_no e enter r in
      let k = confirmed-paid cents d.0 d.1 t s (rw q at h) in
      rw q (
        ap (λ y. some (ok y)) (zero_of z q),
        disp_card_no-enter e enter r k.0 k.1 k.2,
        k.3,
        ap (λ u. u.log) (confirmed-run cents d.0 d.1) ∙ disp_card_no-log e enter r,
      )
  | inr q ↦ ground (arith, q, h)
]

value_from-pad_amount : (d : Bytes) → value_from 0 (pad_amount d) ≡ value_from 0 d
unfolding pad_amount
value_from-pad_amount d = value_from-replicate (12 - length d) d

as_int-small : (n : ℕ) → n < 2 ^ 31 → as_int n ≡ pos n
unfolding as_int
as_int-small n h = ground arith

-- Where AscToBcd_Api and BcdToLong_Api give the number that 12 digits stand for, and the amount entered is
-- below 2^31 cents: a sale by a card in the slot that is shown as paid had digits entered, the text shown is
-- their amount as "units.cents" and reads as that amount, ENTER was pressed, and the kernel's whole
-- transaction was made, each call of it answered EMV_OK.
pub trans_insert_card-Approved :
    (e : Environment) (cents : Bytes → ℕ) (fuel : ℕ) (entered : Option Bytes) (event : Event)
    (enter : Bool) (r : Run) (t : Bytes) (s : Spoken)
    → ((ds : Bytes) → cents ds ≡ value_from 0 ds)
    → ((ds : Bytes) → entered ≡ some ds → value_from 0 ds < 2 ^ 31)
    → (trans_insert_card e cents fuel entered event enter r).0 ≡ paid t s
    → (enter ≡ true)
      × ((d : Bytes) × (entered ≡ some d)
          × (t ≡ decimal (value_from 0 d / 100) ++ b'.' ∷ two_digits (value_from 0 d % 100))
          × (value_from 0 t ≡ value_from 0 d))
      × Approved full_transaction (trans_insert_card e cents fuel entered event enter r).1.log
unfolding trans_insert_card price
trans_insert_card-Approved e cents fuel none event enter r t s reads small h = cc
trans_insert_card-Approved e cents fuel (some d) event enter r t s reads small h =
    let x = emv_get_card e fuel false event r in
    let k = settled-paid e (as_int (cents (pad_amount d))) enter x.0 x.1 t s h in
    let amount : as_int (cents (pad_amount d)) ≡ pos (value_from 0 d) =
      ap as_int (reads (pad_amount d) ∙ value_from-pad_amount d)
      ∙ as_int-small (value_from 0 d) (small d refl) in
    let shown : t ≡ price (pos (value_from 0 d)) = k.2 ∙ ap price amount in
    (
      k.1,
      (d, refl, shown, ap (value_from 0) shown ∙ value_from-price (value_from 0 d)),
      rw k.3 (emv_get_card-Approved e fuel event r k.0),
    )
