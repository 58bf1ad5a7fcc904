-- ===== src/Card/Contactless.antt =====
-- EmvCommon.c: the transactions of the contactless kernels (App_PaypassTrans, App_PaywaveTrans with
-- PaywaveTransComplete, App_QuicsTrans, App_RupayTrans); func.c: EnterPIN. The screens and the antenna are left out.
pub mod Alike
pub mod Pin
use service_payment_bridge.Prelude.{
  ℕ, zero, suc, ◌+◌, Bool, true, false, ◌&&◌, not, Option, none, some, List, [], ◌∷◌, Bytes, ℤ, pos,
  negsuc, is, take, leb, ◌==◌, if◌then◌else◌,
}
use service_payment_bridge.Card.Track.{Conversion, get_pan_number}
use service_payment_bridge.Card.Kernel.{
  Kernel, paypass, paywave, quics, rupay, Call, select_next, init, read_data, offline_auth,
  restrictions, verify, risk, term_act, card_act, mag_stripe, complete_mag, complete, ped_get_pwd,
  Cvm, no_cvm, signature, online_pin, ReadPath, mag, chip, Platform, Run, Result, ok, stop, overrun,
  Action, ◌>>=◌, ◌>>◌, pure, leave, change, output, logged, result_of, calls, is_select_next,
}

-- GetPanNumber on MainAcc.
unfoldable pub keep_pan : Option Bytes → Action (Unit {0})
keep_pan none r = (overrun, r)
keep_pan (some a) r = (ok tt, record r { main_acc = a })

unfoldable pub get_pan : Conversion → Platform → Action (Unit {0})
unfolding keep_pan
get_pan v p r = keep_pan (get_pan_number v (p.tlv r.clock) r.main_acc) r

-- memcmp(sPIN, "\0\0\0\0\0\0\0\0", 8) == 0
abbrev pub is_blank : Bytes → Bool
is_blank [] = true
is_blank (c ∷ s) = c == 0 && is_blank s

-- EnterPIN: the PIN pad's result is only logged.
unfoldable pub enter_pin : Platform → Action ℤ
unfolding result_of
enter_pin p = do
  ret ← result_of p ped_get_pwd
  block ← output p.pin_block
  change (λ r. record r { pin_input = not (is_blank (take 8 block)) })
  pure (pos 0)

-- "if (ret != 0) return ret;"
abbrev pub check : ℤ → Action (Unit {0})
check z = if is 0 z then pure tt else leave z

unfoldable pub pin_if_asked : Platform → Cvm → Action (Unit {0})
unfolding enter_pin
pin_if_asked p no_cvm = pure tt
pin_if_asked p signature = pure tt
pin_if_asked p online_pin = enter_pin p >>= check

-- From "SELECT_NEXT" to "TRANS_COMPLETED".
unfoldable pub paypass_rest : Platform → ReadPath → Action ℤ
unfolding calls result_of pin_if_asked
paypass_rest p mag = do
  calls p (mag_stripe paypass ∷ complete_mag paypass ∷ [])
  cvm ← output p.cvm
  pin_if_asked p cvm
  pure (pos 0)
paypass_rest p chip = do
  calls p (restrictions paypass ∷ verify paypass ∷ [])
  cvm ← output p.cvm
  calls p (term_act paypass ∷ card_act paypass ∷ [])
  ret ← result_of p (complete paypass)
  online ← output p.online
  change (λ r. record r { icc_online = online })
  check ret
  pin_if_asked p cvm
  pure (pos 0)

unfoldable pub paypass_body : Conversion → Platform → Action ℤ
unfolding paypass_rest calls get_pan
paypass_body v p = do
  calls p (init paypass ∷ [])
  path ← output p.path
  calls p (read_data paypass ∷ [])
  get_pan v p
  paypass_rest p path

-- What PaywaveTransComplete meets: a refund; whether PayWave_Completion_Api asks for the issuer's update; the
-- antenna; and for each turn until the 60 seconds are over, what PayWave_ProcIssuerUpdate_Api answers to a
-- card, if there is one.
pub record Issuer : Type 0 where
  pub refund : Bool
  pub update_asked : Bool
  pub picc_open : ℤ
  pub waves : List (Option ℤ)

-- ERR_AGAIN is -105.
abbrev pub is_again : ℤ → Bool
is_again (pos n) = false
is_again (negsuc n) = n == 104

-- "while (!TimerCheck_Api(timerid, 60 * 1000))", with the last `ret`.
unfoldable pub wave_again : ℤ → List (Option ℤ) → ℤ
wave_again ret [] = ret
wave_again ret (none ∷ ws) = wave_again ret ws
wave_again ret (some z ∷ ws) = let rest = wave_again z ws in if is_again z then rest else z

-- ERR_EMVDENIAL is -9.
abbrev pub is_denial : ℤ → Bool
is_denial (pos n) = false
is_denial (negsuc n) = n == 8

-- PaywaveTransComplete
unfoldable pub completed : Issuer → ℤ → ℤ
unfolding wave_again
completed i ret =
    if i.update_asked
    then if is 0 i.picc_open then wave_again (pos 0) i.waves else pos 1
    else if is_denial ret && i.refund
    then pos 0
    else ret

unfoldable pub paywave_trans_complete : Platform → Issuer → Action ℤ
unfolding result_of completed
paywave_trans_complete p i = do ret ← result_of p (complete paywave); pure (completed i ret)

-- The kernel's path for magnetic stripes ends with MsgMsdNoSupport, -1017.
unfoldable pub paywave_online : Platform → Issuer → ℕ → Action ℤ
unfolding paywave_trans_complete
paywave_online p i zero = pure (pos 0)
paywave_online p i (suc n) = paywave_trans_complete p i

unfoldable pub paywave_rest : Conversion → Platform → Issuer → ReadPath → Action ℤ
unfolding calls get_pan pin_if_asked paywave_online
paywave_rest v p i mag = leave (negsuc 1016)
paywave_rest v p i chip = do
  calls p (read_data paywave ∷ [])
  get_pan v p
  calls p (restrictions paywave ∷ offline_auth paywave ∷ verify paywave ∷ [])
  cvm ← output p.cvm
  online ← output p.online
  pin_if_asked p cvm
  change (λ r. record r { icc_online = online })
  paywave_online p i online

unfoldable pub paywave_body : Conversion → Platform → Issuer → Action ℤ
unfolding calls paywave_rest
paywave_body v p i = do calls p (init paywave ∷ []); path ← output p.path; paywave_rest v p i path

-- "if (ret == ERR_SELECTNEXT) { ret = ...SelectApp_Api(NULL); goto ...; }", where `c` is that call: fuel bounds the applications.
unfoldable pub settle :
    Result ℤ × Run → (ℤ → Run → Option (Result ℤ) × Run) → Option (Result ℤ) × Run
settle (ok z, r) next = (some (ok z), r)
settle (overrun, r) next = (some overrun, r)
settle (stop z, r) next = if is_select_next z then next z r else (some (ok z), r)

unfoldable pub transaction : Platform → Call → Action ℤ → ℕ → ℤ → Run → Option (Result ℤ) × Run
unfolding settle
transaction p c body zero z r = (none, r)
transaction p c body (suc fuel) z r =
    settle (if is 0 z then body r else (stop z, r))
      (λ _ r'. let y = p.answer r'.clock c in transaction p c body fuel y (logged r' c y))

-- App_PaypassTrans and App_PaywaveTrans
unfoldable pub app_paypass_trans : Conversion → Platform → ℕ → Run → Option (Result ℤ) × Run
unfolding transaction paypass_body
app_paypass_trans v p fuel r = transaction p (select_next paypass) (paypass_body v p) fuel (pos 0) r

unfoldable pub app_paywave_trans :
    Conversion → Platform → Issuer → ℕ → Run → Option (Result ℤ) × Run
unfolding transaction paywave_body
app_paywave_trans v p i fuel r =
    transaction p (select_next paywave) (paywave_body v p i) fuel (pos 0) r

-- App_QuicsTrans behind its loop: the kernel writes IccOnline of the transaction.
unfoldable pub quics_rest : Platform → Action ℤ
unfolding calls result_of pin_if_asked
quics_rest p = do
  calls p (read_data quics ∷ offline_auth quics ∷ [])
  change (λ r. record r { trans_online = 0 })
  ret ← result_of p (verify quics)
  cvm ← output p.cvm
  online ← output p.online
  change (λ r. record r { trans_online = online })
  check ret
  pin_if_asked p cvm
  pure (pos 0)

-- Only the application's start is repeated for the next application.
unfoldable pub quics_body : Platform → Action ℤ
unfolding calls quics_rest
quics_body p = do calls p (init quics ∷ []); pure (pos 0)

unfoldable pub finish : Result ℤ → Run → Option (Result ℤ) × Run
finish (ok y) r = (some (ok y), r)
finish (stop y) r = (some (ok y), r)
finish overrun r = (some overrun, r)

unfoldable pub behind : Option (Result ℤ) × Run → Action ℤ → Option (Result ℤ) × Run
unfolding finish
behind (none, r) next = (none, r)
behind (some overrun, r) next = (some overrun, r)
behind (some (stop z), r) next = (some (ok z), r)
behind (some (ok z), r) next = if is 0 z then finish (next r).0 (next r).1 else (some (ok z), r)

unfoldable pub app_quics_trans : Platform → ℕ → Run → Option (Result ℤ) × Run
unfolding transaction quics_body quics_rest behind
app_quics_trans p fuel r =
    behind (transaction p (select_next quics) (quics_body p) fuel (pos 0) r) (quics_rest p)

-- App_RupayTrans
unfoldable pub app_rupay_trans : Platform → Action ℤ
unfolding calls result_of pin_if_asked
app_rupay_trans p = do
  calls p
      (init rupay ∷ read_data rupay ∷ offline_auth rupay ∷ restrictions rupay ∷ verify rupay ∷ [])
  cvm ← output p.cvm
  calls p (risk rupay ∷ [])
  change (λ r. record r { trans_online = 0 })
  ret ← result_of p (term_act rupay)
  online ← output p.online
  change (λ r. record r { trans_online = online })
  check ret
  pin_if_asked p cvm
  pure (pos 0)
