-- ===== src/Card/Contact.antt =====
-- EmvCommon.c: App_EmvTrans and EmvCardProc, the transaction of a card in the slot. The screens are left out,
-- and so is what the code hands to the kernel (its parameters, the amount, the PIN pad's serial number)
-- beyond the calls themselves.
pub mod Log
pub mod Parts
pub mod Order
use service_payment_bridge.Prelude.{
  ℕ, zero, suc, ◌+◌, Bool, true, false, Option, none, some, List, [], ◌∷◌, Bytes, ℤ, pos, negsuc,
  is, ◌==◌, if◌then◌else◌,
}
use service_payment_bridge.Card.Track.{Conversion}
use service_payment_bridge.Card.Data.{
  Trans, emv_save_data, emv_save_data_online, get_emv_track_data,
}
use service_payment_bridge.Card.Kernel.{
  Call, emv_select, emv_reselect, emv_init, emv_read, emv_auth, emv_restrictions, emv_verify,
  emv_risk, emv_term_act, set_card_type, emv_clear, set_trade_amt, init_param, read_serial,
  set_serial, Platform, Run, Result, ok, stop, overrun, Action, ◌>>=◌, ◌>>◌, pure, leave, change,
  output, logged, result_of, calls,
}
use service_payment_bridge.Card.Contactless.{check, transaction}

-- PEDReadPinPadSn_Api, and tag 9F1E if it succeeds; the results are only logged.
unfoldable pub tell_serial : Platform → Action (Unit {0})
unfolding result_of
tell_serial p = do
  ret ← result_of p read_serial
  if is 0 ret then result_of p set_serial >>= (λ _. pure tt) else pure tt

unfoldable pub keep_card : Option Trans → Action (Unit {0})
keep_card none r = (overrun, r)
keep_card (some t) r = (ok tt, record r { card = t })

unfoldable pub keep_read : Option (ℤ × Trans) → Action ℤ
keep_read none r = (overrun, r)
keep_read (some (z, t)) r = (ok z, record r { card = t })

-- GetEmvTrackData; on an error E_TRANS_FAIL, 2, is returned.
abbrev pub not_negative : ℤ → Action (Unit {0})
not_negative (pos n) = pure tt
not_negative (negsuc n) = leave (pos 2)

unfoldable pub read_track : Conversion → Platform → Action (Unit {0})
unfolding keep_read
read_track v p = (λ r. keep_read (get_emv_track_data v (p.tlv r.clock) r.card) r) >>= not_negative

-- "if (PosCom.stTrans.IccOnline == TRUE) EmvSaveDataOnline(); EmvSaveData();"
unfoldable pub save_online : Platform → Action (Unit {0})
unfolding keep_card
save_online p r =
    if r.trans_online == 1
    then keep_card (emv_save_data_online (p.tlv r.clock) r.card) r
    else (ok tt, r)

unfoldable pub save_all : Platform → Bool → Action (Unit {0})
unfolding keep_card
save_all p sale r =
    let online : Bool = if r.trans_online == 0 then false else true in
    keep_card (emv_save_data (p.tlv r.clock) online sale (p.sys_time r.clock) r.card) r

-- EMV_TermActAnalyse_Api writes IccOnline.
unfoldable pub term_act_analyse : Platform → Action (Unit {0})
unfolding result_of
term_act_analyse p = do
  ret ← result_of p emv_term_act
  online ← output p.online
  change (λ r. record r { trans_online = online })
  check ret

unfoldable pub emv_rest : Platform → Bool → Bool → Action ℤ
unfolding calls term_act_analyse save_online save_all
emv_rest p sale true = pure (pos 0)
emv_rest p sale false = do
  calls p (emv_auth ∷ emv_restrictions ∷ emv_verify ∷ emv_risk ∷ [])
  term_act_analyse p
  save_online p
  save_all p sale
  pure (pos 0)

-- From "RESELECT" to "EMVRESULT"; the last flag is CARD_EMVSIMPLE.
unfoldable pub emv_body : Conversion → Platform → Bool → Bool → Action ℤ
unfolding calls tell_serial read_track emv_rest
emv_body v p sale simple = do
  calls p (emv_init ∷ emv_read ∷ [])
  tell_serial p
  read_track v p
  emv_rest p sale simple

-- App_EmvTrans
unfoldable pub app_emv_trans :
    Conversion → Platform → Bool → Bool → ℕ → Run → Option (Result ℤ) × Run
unfolding transaction emv_body
app_emv_trans v p sale simple fuel r =
    let z = p.answer r.clock emv_select in
    transaction p emv_reselect (emv_body v p sale simple) fuel z
      (logged (record r { trans_online = 1 }) emv_select z)

-- EmvCardProc
unfoldable pub prepared : Platform → List Call → Run → Run
prepared p [] r = r
prepared p (c ∷ cs) r = prepared p cs (logged r c (p.answer r.clock c))

unfoldable pub emv_card_proc :
    Conversion → Platform → Bool → Bool → ℕ → Run → Option (Result ℤ) × Run
unfolding app_emv_trans prepared
emv_card_proc v p sale simple fuel r =
    let z = p.answer r.clock set_card_type in
    let s = logged r set_card_type z in
    let rest =
      app_emv_trans v p sale simple fuel
        (prepared p (emv_clear ∷ set_trade_amt ∷ init_param ∷ []) s) in
    if is 0 z then rest else (some (ok z), s)
