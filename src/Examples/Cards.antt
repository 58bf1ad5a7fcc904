-- ===== src/Examples/Cards.antt =====
-- Card payments at concrete inputs.
use service_payment_bridge.Prelude.{
  Bytes, Option, ap, ◌/◌, ◌%◌, ◌++◌, ◌<◌, ◌^◌, str_eq, ◌∷◌, true, ◌≡◌, refl, false, none, some, [],
  codes, pos, take, replicate, ◌==◌, if◌then◌else◌, arith, ◌↔◌,
}
use service_payment_bridge.Qris.Amount.{decimal, value_from, pad_amount}
use service_payment_bridge.Speech.{amt_to_mp3}
use service_payment_bridge.Card.Amount.{IsPrice, format_amt_str, format_amt_str_lem}
use service_payment_bridge.Card.Track.{Conversion, match_track2_and_pan}
use service_payment_bridge.Card.Track.Match.{Digits, match_track2_and_pan_lem}
use service_payment_bridge.Card.Data.{
  Trans, get_emv_track_data, emv_save_data_online, emv_save_data,
}
use service_payment_bridge.Card.Kernel.{Platform, online_pin, chip, Run}
use service_payment_bridge.Card.Contactless.{
  Issuer, app_paypass_trans, app_paywave_trans, app_quics_trans, app_rupay_trans,
}
use service_payment_bridge.Card.Contact.Order.{Approved}
use service_payment_bridge.Card.Contact.Parts.{full_transaction}
use service_payment_bridge.Card.Sale.{
  card, escape, timeout, Environment, get_card, paid, two_digits, trans_insert_card,
}
use service_payment_bridge.Card.Sale.Paid.{trans_insert_card-Approved}
use service_payment_bridge.Card.Sale.Wait.{get_card-NoCard}
use service_payment_bridge.Card.Contactless.Alike.{with_pin}
use service_payment_bridge.Card.Contactless.Pin.{contactless_pin_lost}

format_amt_str_lem_example :
    IsPrice (format_amt_str (codes "000000012345"))
    × (value_from 0 (format_amt_str (codes "000000012345")) ≡ value_from 0 (codes "000000012345"))
format_amt_str_lem_example = format_amt_str_lem (codes "000000012345")

-- A platform whose digits are the bytes themselves; a card with the number 4111 on both tracks.
abbrev as_text : Conversion
as_text = record { bcd_to_asc = λ s n. s; form_bcd_to_asc = λ s n. take n s }

number-Digits : Digits (codes "4111")
number-Digits = (
  omega arith,
  omega arith,
  (omega arith, omega arith, (omega arith, omega arith, (omega arith, omega arith, tt))),
)

match_track2_and_pan_lem_example :
    (match_track2_and_pan as_text (codes "4111D2512") (codes "4111FF") ≡ some 0)
    ↔ (take 19 (codes "4111") ≡ codes "4111")
match_track2_and_pan_lem_example =
    match_track2_and_pan_lem as_text (codes "4111D2512") (codes "4111FF") (codes "4111")
      (codes "2512") (codes "4111") 2 (omega arith) (omega arith) refl refl number-Digits
      number-Digits

-- Every call is answered EMV_OK; the card is read by its chip, and an online PIN is asked for.
abbrev chip_card : Platform
chip_card = record {
  answer = λ t c. pos 0;
  path = λ t. chip;
  cvm = λ t. online_pin;
  online = λ t. 1;
  pin_block = λ t. codes "12345678";
  tlv = λ t n.
      if n == 0x57
      then some (codes "4111D2512")
      else if n == 0x5A
      then some (codes "4111FF")
      else none;
  sys_time = λ t. replicate 7 0x20;
}

abbrev no_card : Trans
no_card = record {
  trade_date = replicate 4 0;
  trade_time = replicate 3 0;
  exp_date = replicate 4 0;
  hold_card_name = replicate 21 0;
  app_crypto = replicate 8 0;
  auth_rsp_code = replicate 2 0;
  tvr = replicate 5 0;
  aip = replicate 2 0;
  unknow_num = replicate 4 0;
  aid = replicate 33 0;
  app_lable = replicate 17 0;
  tsi = replicate 2 0;
  atc = replicate 2 0;
  app_prefer_name = replicate 17 0;
  pan_seq_no = replicate 1 0;
  pan_seq_no_ok = false;
  entry_mode = 0;
  icc_fall_back = false;
}

abbrev start : Run
start = record {
  log = [];
  clock = 0;
  icc_online = 0;
  trans_online = 0;
  main_acc = replicate 22 0;
  pin_input = false;
  card = no_card;
}

abbrev no_update : Issuer
no_update = record { refund = false; update_asked = false; picc_open = pos 0; waves = [] }

-- The cardholder cancels at the PIN pad.
abbrev cancelled : Platform
cancelled = with_pin chip_card (λ t. pos 27) (λ t. replicate 8 0)

contactless_pin_lost_example :
    ((app_paypass_trans as_text chip_card 3 start).0
      ≡ (app_paypass_trans as_text cancelled 3 start).0)
    × ((app_paywave_trans as_text chip_card no_update 3 start).0
        ≡ (app_paywave_trans as_text cancelled no_update 3 start).0)
    × ((app_quics_trans chip_card 3 start).0 ≡ (app_quics_trans cancelled 3 start).0)
    × ((app_rupay_trans chip_card start).0 ≡ (app_rupay_trans cancelled start).0)
contactless_pin_lost_example =
    contactless_pin_lost chip_card (λ t. pos 27) (λ t. replicate 8 0) as_text no_update 3 start

abbrev desk : Environment
desk = record { conversion = as_text; platform = chip_card; issuer = no_update }

-- ESC and a time-out in front of a card.
get_card-NoCard_example :
    (get_card desk 3 (pos 0) (escape ∷ timeout ∷ card ∷ []) start
      ≡ get_card desk 3 (pos 0) (card ∷ []) start)
    × ((get_card desk 3 (pos 0) (escape ∷ timeout ∷ []) start).0 ≡ none)
get_card-NoCard_example =
    get_card-NoCard desk 3 (escape ∷ timeout ∷ []) (card ∷ []) (pos 0) start tt

-- 12.50 by a card in the slot.
twelve_fifty_paid :
    (trans_insert_card desk (value_from 0) 3 (some (codes "1250")) card true start).0
    ≡ paid (codes "12.50") (amt_to_mp3 (codes "12.50") (codes "Dollar") (codes "Cent"))
unfolding trans_insert_card get_emv_track_data match_track2_and_pan str_eq emv_save_data_online
    emv_save_data value_from pad_amount
twelve_fifty_paid = refl

abbrev content_or : Option Bytes → Bytes
content_or none = []
content_or (some b) = b

twelve_fifty_small : (ds : Bytes) → some (codes "1250") ≡ some ds → value_from 0 ds < 2 ^ 31
unfolding value_from
twelve_fifty_small ds e =
    let w : codes "1250" ≡ ds = ap content_or e in
    let small : value_from 0 (codes "1250") < 2 ^ 31 = omega arith in rw (← w) small

trans_insert_card-Approved_example :
    (true ≡ true)
    × ((d : Bytes) × (some (codes "1250") ≡ some d)
        × (codes "12.50"
            ≡ decimal (value_from 0 d / 100) ++ b'.' ∷ two_digits (value_from 0 d % 100))
        × (value_from 0 (codes "12.50") ≡ value_from 0 d))
    × Approved full_transaction
        (trans_insert_card desk (value_from 0) 3 (some (codes "1250")) card true start).1.log
trans_insert_card-Approved_example =
    trans_insert_card-Approved desk (value_from 0) 3 (some (codes "1250")) card true start
      (codes "12.50") (amt_to_mp3 (codes "12.50") (codes "Dollar") (codes "Cent")) (λ ds. refl)
      twelve_fifty_small twelve_fifty_paid
