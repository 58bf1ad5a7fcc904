-- ===== src/Card/Kernel.antt =====
-- EmvCommon.c: calls of the EMV kernels, and the choice of a kernel (CTLPreProcess, App_CommonSelKernel). A
-- kernel is the platform's: what it answers may depend on the moment.
use service_payment_bridge.Prelude.{
  ℕ, zero, suc, ◌+◌, Bool, true, false, Option, none, some, List, [], ◌∷◌, Bytes, ℤ, pos, negsuc,
  is, ◌==◌, if◌then◌else◌,
}
use service_payment_bridge.Card.Data.{Trans}

pub data Kernel : Type 0 where
  paypass paywave quics rupay : Kernel

-- The calls: of a contactless kernel, of the EMV kernel for contact cards, and of the PIN pad.
pub data Call : Type 0 where
  pre_process select select_next init read_data offline_auth : Kernel → Call
  restrictions verify risk term_act card_act mag_stripe : Kernel → Call
  complete_mag complete : Kernel → Call
  select_ppse ped_get_pwd : Call
  emv_select emv_reselect emv_init emv_read emv_auth : Call
  emv_restrictions emv_verify emv_risk emv_term_act : Call
  set_card_type emv_clear set_trade_amt init_param read_serial set_serial : Call

-- How the cardholder is verified, as far as the code tells; the way that a card is read.
pub data Cvm : Type 0 where
  no_cvm signature online_pin : Cvm

pub data ReadPath : Type 0 where
  mag chip : ReadPath

-- What the platform gives at a moment: the result of a call, and what calls write through their pointers.
-- `tlv` is Common_GetTLV_Api, `sys_time` GetSysTime_Api, `pin_block` sPIN behind PEDGetPwd_Api.
pub record Platform : Type 0 where
  pub answer : ℕ → Call → ℤ
  pub path : ℕ → ReadPath
  pub cvm : ℕ → Cvm
  pub online : ℕ → ℕ
  pub pin_block : ℕ → Bytes
  pub tlv : ℕ → ℕ → Option Bytes
  pub sys_time : ℕ → Bytes

-- The calls made with their answers, the last one first, and the number of answers taken; IccOnline of
-- EmvCommon.c and of PosCom.stTrans, MainAcc, EntryMode[1] = PIN_HAVE_INPUT, and other fields of it.
pub record Run : Type 0 where
  pub log : List (Call × ℤ)
  pub clock : ℕ
  pub icc_online : ℕ
  pub trans_online : ℕ
  pub main_acc : Bytes
  pub pin_input : Bool
  pub card : Trans

-- A part of a function: it goes on with a value, leaves with a code, or writes past a buffer.
pub data Result (A : Type 0) : Type 0 where
  ok : A → Result A
  stop : ℤ → Result A
  overrun : Result A

abbrev pub Action : Type 0 → Type 0
Action A = Run → Result A × Run

abbrev pub resumed : {A B : Type 0} → Result A → (A → Action B) → Action B
resumed (ok a) f r = f a r
resumed (stop z) f r = (stop z, r)
resumed overrun f r = (overrun, r)

infixl 5 ◌>>=◌ ◌>>◌
abbrev pub ◌>>=◌ : {A B : Type 0} → Action A → (A → Action B) → Action B
◌>>=◌ m f r = resumed (m r).0 f (m r).1

abbrev pub ◌>>◌ : {B : Type 0} → Action (Unit {0}) → Action B → Action B
m >> k = m >>= λ _. k

abbrev pub pure : {A : Type 0} → A → Action A
pure a r = (ok a, r)

abbrev pub leave : {A : Type 0} → ℤ → Action A
leave z r = (stop z, r)

abbrev pub change : (Run → Run) → Action (Unit {0})
change f r = (ok tt, f r)

-- What a call wrote, at the moment behind it.
abbrev pub output : {A : Type 0} → (ℕ → A) → Action A
output f r = (ok (f r.clock), r)

abbrev pub logged : Run → Call → ℤ → Run
logged r c z = record r { log = (c, z) ∷ r.log; clock = r.clock + 1 }

-- "ret = ...": the call and its result.
unfoldable pub result_of : Platform → Call → Action ℤ
result_of p c r = let z = p.answer r.clock c in (ok z, logged r c z)

-- "ret = ...; if (ret != EMV_OK) goto or return"
unfoldable pub call : Platform → Call → Action (Unit {0})
call p c r = let z = p.answer r.clock c in (if is 0 z then ok tt else stop z, logged r c z)

-- Several of them in a row.
unfoldable pub calls : Platform → List Call → Action (Unit {0})
unfolding call
calls p [] = pure tt
calls p (c ∷ cs) = call p c >> calls p cs

-- ERR_SELECTNEXT is -114.
abbrev pub is_select_next : ℤ → Bool
is_select_next (pos n) = false
is_select_next (negsuc n) = n == 113

-- CTLPreProcess: whether PayWave and qUICS may be selected; the other two results are only logged.
abbrev pub Allowed : Type 0
Allowed = Bool × Bool

unfoldable pub ctl_pre_process : Platform → Action Allowed
unfolding result_of
ctl_pre_process p = do
  paypass_result ← result_of p (pre_process paypass)
  paywave_result ← result_of p (pre_process paywave)
  quics_result ← result_of p (pre_process quics)
  rupay_result ← result_of p (pre_process rupay)
  pure (is 0 paywave_result, is 0 quics_result)

-- "while (1) { ret = ...SelectApp_Api(NULL); ... }": fuel bounds the applications that a kernel names.
unfoldable pub reselect : Platform → Kernel → ℕ → ℤ → Run → Option ℤ × Run
reselect p k zero z r = if is_select_next z then (none, r) else (some z, r)
reselect p k (suc fuel) z r =
    let y = p.answer r.clock (select_next k) in
    let rest = reselect p k fuel y (logged r (select_next k) y) in
    if is_select_next z then rest else (some z, r)

unfoldable pub select_kernel : Platform → ℕ → Kernel → Run → Option ℤ × Run
unfolding reselect
select_kernel p fuel k r =
    let z = p.answer r.clock (select k) in reselect p k fuel z (logged r (select k) z)

abbrev pub code_of : Kernel → ℕ
code_of paywave = 3
code_of paypass = 7
code_of quics = 8
code_of rupay = 9

-- The kernels in turn; the first that answers EMV_OK is taken. TYPE_KER_ERR is 0.
unfoldable pub chosen : Kernel → Option ℤ × Run → (Run → Option ℤ × Run) → Option ℤ × Run
chosen k (none, r) next = (none, r)
chosen k (some z, r) next = if is 0 z then (some (pos (code_of k)), r) else next r

unfoldable pub first_of_kernels : Platform → ℕ → List Kernel → Run → Option ℤ × Run
unfolding select_kernel chosen
first_of_kernels p fuel [] r = (some (pos 0), r)
first_of_kernels p fuel (k ∷ ks) r =
    chosen k (select_kernel p fuel k r) (λ r'. first_of_kernels p fuel ks r')

abbrev pub if_allowed : Bool → Kernel → List Kernel → List Kernel
if_allowed true k ks = k ∷ ks
if_allowed false k ks = ks

-- App_CommonSelKernel
unfoldable pub app_common_sel_kernel : Platform → ℕ → Allowed → Run → Option ℤ × Run
unfolding first_of_kernels
app_common_sel_kernel p fuel (paywave_allowed, quics_allowed) r =
    let z = p.answer r.clock select_ppse in
    let rest =
      first_of_kernels p fuel
        (paypass ∷ if_allowed paywave_allowed paywave (if_allowed quics_allowed quics (rupay ∷ [])))
        (logged r select_ppse z) in
    if is 0 z then rest else (some z, logged r select_ppse z)
