-- ===== src/Card/Sale.antt =====
-- Card.c: the sale (DetectCardEvent, GetCard, EmvGetCard, TransTapCard, TransInsertCard); func.c: DispCardNo. The
-- screens are left out except "Paid" and what is announced. No message is sent: the code shows "Connecting"
-- and waits.
pub mod Wait
pub mod Paid
use service_payment_bridge.Prelude.{
  ℕ, zero, suc, ◌+◌, ◌/◌, ◌%◌, ◌^◌, ◌-◌, Bool, true, false, ◌||◌, not, Option, none, some, List, [],
  ◌∷◌, ◌++◌, Bytes, codes, length, ℤ, pos, negsuc, is, ltb, leb, ◌==◌, if◌then◌else◌,
}
use service_payment_bridge.Qris.Amount.{decimal, pad_amount}
use service_payment_bridge.Speech.{Spoken, amt_to_mp3}
use service_payment_bridge.Card.Track.{Conversion, overlay, get_card_no_from_track2_data}
use service_payment_bridge.Card.Data.{Trans, get_emv_track_data}
use service_payment_bridge.Card.Kernel.{
  Call, Allowed, set_card_type, Platform, Run, Result, ok, stop, overrun, Action, logged,
  ctl_pre_process, app_common_sel_kernel,
}
use service_payment_bridge.Card.Contactless.{
  Issuer, finish, app_paypass_trans, app_paywave_trans, app_quics_trans, app_rupay_trans,
}
use service_payment_bridge.Card.Contact.{emv_card_proc}

-- What DetectCardEvent returns: CardData[0] for a card, ESC, TIMEOUT.
pub data Event : Type 0 where
  card escape timeout : Event

-- Its rounds: the timer, whether the key is ESC, whether there is a card.
unfoldable pub detect_card_event : List (Bool × Bool × Bool) → Option Event
detect_card_event [] = none
detect_card_event ((expired, esc, there) ∷ rs) =
    let rest = detect_card_event rs in
    if expired then some timeout else if esc then some escape else if there then some card else rest

-- What a part of the sale takes from outside.
pub record Environment : Type 0 where
  pub conversion : Conversion
  pub platform : Platform
  pub issuer : Issuer

-- "if (g_ucKerType == ...)": the transaction of the kernel selected, -1 for none.
unfoldable pub of_kernel : Environment → ℕ → ℕ → Run → Option (Result ℤ) × Run
unfolding finish
of_kernel e fuel kernel r =
    let rupay_result = app_rupay_trans e.platform r in
    if kernel == 3
    then app_paywave_trans e.conversion e.platform e.issuer fuel r
    else if kernel == 7
    then app_paypass_trans e.conversion e.platform fuel r
    else if kernel == 8
    then app_quics_trans e.platform fuel r
    else if kernel == 9
    then finish rupay_result.0 rupay_result.1
    else (some (ok (negsuc 0)), r)

unfoldable pub with_kernel : Environment → ℕ → Option ℤ × Run → Option (Result ℤ) × Run
unfolding of_kernel
with_kernel e fuel (none, r) = (none, r)
with_kernel e fuel (some (pos n), r) = of_kernel e fuel n r
with_kernel e fuel (some (negsuc n), r) = (some (ok (negsuc 0)), r)

unfoldable pub card_there : Environment → ℕ → Allowed → Run → Option (Result ℤ) × Run
unfolding with_kernel app_common_sel_kernel
card_there e fuel allowed r = with_kernel e fuel (
    app_common_sel_kernel e.platform fuel allowed
      (logged r set_card_type (e.platform.answer r.clock set_card_type)))

-- "while (1)": for ESC and TIMEOUT the `break` ends the switch only. `none` waits.
unfoldable pub await_card : Environment → ℕ → Allowed → List Event → Run → Option (Result ℤ) × Run
unfolding card_there
await_card e fuel allowed [] r = (none, r)
await_card e fuel allowed (card ∷ events) r = card_there e fuel allowed r
await_card e fuel allowed (escape ∷ events) r = await_card e fuel allowed events r
await_card e fuel allowed (timeout ∷ events) r = await_card e fuel allowed events r

unfoldable pub pre_processed :
    Result Allowed × Run → (Allowed → Run → Option (Result ℤ) × Run) → Option (Result ℤ) × Run
pre_processed (ok a, r) next = next a r
pre_processed (stop z, r) next = (some (ok z), r)
pre_processed (overrun, r) next = (some overrun, r)

-- GetCard, with what PiccOpen_Api answers.
unfoldable pub get_card : Environment → ℕ → ℤ → List Event → Run → Option (Result ℤ) × Run
unfolding await_card pre_processed ctl_pre_process
get_card e fuel picc_open events r =
    let rest =
      pre_processed (ctl_pre_process e.platform r)
        (λ allowed s. await_card e fuel allowed events s) in
    if is 0 picc_open then rest else (some (ok (negsuc 0)), r)

-- EmvGetCard with its callers' mode, which has no MASK_INCARDNO_MAGCARD: the errors of a card only differ in
-- what is announced. PAN_ICCARD is 5.
unfoldable pub emv_get_card : Environment → ℕ → Bool → Event → Run → Option (Result ℤ) × Run
unfolding emv_card_proc
emv_get_card e fuel simple card r =
    emv_card_proc e.conversion e.platform true simple fuel
      (record r { card = record r.card { entry_mode = 5 } })
emv_get_card e fuel simple escape r = (some (ok (negsuc 0)), r)
emv_get_card e fuel simple timeout r = (some (ok (negsuc 0)), r)

-- DispCardNo: the number shown, and whether ENTER confirms it. ERR_NOTACCEPT is -8.
abbrev pub number_kept : Option Bytes → Run → Run
number_kept none r = r
number_kept (some n) r = record r { main_acc = overlay (n ++ 0 ∷ []) r.main_acc }

abbrev pub track_of : Option Bytes → Bytes
track_of none = []
track_of (some b) = b

unfoldable pub shown_number :
    Environment → Option Bytes → ℤ → Option (ℤ × Trans) → Run → Option ℤ × Run
shown_number e track code none r = (none, r)
shown_number e track code (some (negsuc n, t)) r = (some code, record r { card = t })
shown_number e track code (some (pos n, t)) r = (
  some code,
  number_kept (get_card_no_from_track2_data e.conversion (track_of track)) (record r { card = t }),
)

unfoldable pub disp_card_no : Environment → Bool → Run → Option ℤ × Run
unfolding shown_number
disp_card_no e enter r =
    let tlv : ℕ → Option Bytes = e.platform.tlv r.clock in
    shown_number e (tlv 0x57) (if enter then pos 0 else negsuc 7)
      (get_emv_track_data e.conversion tlv r.card) r

-- The ends of a sale: no amount was entered, "Transaction failed", the amount shown behind "Paid: " with its
-- announcement, an overrun, a wait without an end.
pub data Outcome : Type 0 where
  not_entered failed overran waits : Outcome
  paid : Bytes → Spoken → Outcome

abbrev pub two_digits : ℕ → Bytes
two_digits n = (n / 10 + 48) ∷ (n % 10 + 48) ∷ []

-- `int amt`: the 32 bits of what BcdToLong_Api gives.
unfoldable pub as_int : ℕ → ℤ
as_int n = let m = n % 2 ^ 32 in if ltb m (2 ^ 31) then pos m else negsuc (2 ^ 32 - m - 1)

-- sprintf "%d.%02d" of amt / 100 and amt % 100 into buf[12]. Both are negative or 0 for a negative amount,
-- whose sign therefore stands in each part that is not 0.
unfoldable pub negative_part : Bytes → ℕ → Bytes
unfolding decimal
negative_part nothing n = if n == 0 then nothing else b'-' ∷ decimal n

unfoldable pub price : ℤ → Bytes
unfolding decimal negative_part
price (pos n) = decimal (n / 100) ++ b'.' ∷ two_digits (n % 100)
price (negsuc n) =
    negative_part (codes "0") (suc n / 100) ++ b'.' ∷ negative_part (codes "00") (suc n % 100)

unfoldable pub announced_price : ℤ → Outcome
unfolding price
announced_price cents =
    if leb 12 (length (price cents))
    then overran
    else paid (price cents) (amt_to_mp3 (price cents) (codes "Dollar") (codes "Cent"))

unfoldable pub confirmed : ℤ → Option ℤ × Run → Outcome × Run
unfolding announced_price
confirmed cents (none, r) = (overran, r)
confirmed cents (some z, r) = if is 0 z then (announced_price cents, r) else (failed, r)

unfoldable pub settled : Environment → ℤ → Bool → Option (Result ℤ) × Run → Outcome × Run
unfolding confirmed disp_card_no
settled e cents enter (none, r) = (waits, r)
settled e cents enter (some overrun, r) = (overran, r)
settled e cents enter (some (stop z), r) = (failed, r)
settled e cents enter (some (ok z), r) =
    let rest = confirmed cents (disp_card_no e enter r) in if is 0 z then rest else (failed, r)

-- TransTapCard and TransInsertCard: the digits of GetAmount, if ENTER ends them; `cents` is what AscToBcd_Api
-- and BcdToLong_Api make of 12 digits, before it is stored in an int; the run is that of an emptied PosCom.
unfoldable pub trans_tap_card :
    Environment → (Bytes → ℕ) → ℕ → Option Bytes → ℤ → List Event → Bool → Run → Outcome × Run
unfolding get_card settled as_int
trans_tap_card e cents fuel none picc_open events enter r = (not_entered, r)
trans_tap_card e cents fuel (some digits) picc_open events enter r =
    settled e (as_int (cents (pad_amount digits))) enter (get_card e fuel picc_open events r)

unfoldable pub trans_insert_card :
    Environment → (Bytes → ℕ) → ℕ → Option Bytes → Event → Bool → Run → Outcome × Run
unfolding emv_get_card settled as_int
trans_insert_card e cents fuel none event enter r = (not_entered, r)
trans_insert_card e cents fuel (some digits) event enter r =
    settled e (as_int (cents (pad_amount digits))) enter (emv_get_card e fuel false event r)
