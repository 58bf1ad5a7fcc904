-- ===== src/Tms/Account.antt =====
-- tms_tms.c: what the terminal asks of the server outside a download (Tms_DeviceAuth, Tms_TermInfoUpload,
-- Tms_TermLocationUpload, TmsTermAuth_Api, TmsTermLocUpload_Api, TmsParamSet_Api, TmsConnectServer), what the
-- status file says after an update (TmsStatusCheck_Api, CheckTmsStatus, Tms_GetFirmwareVerSion), and
-- TmsRemoteUpgrade. What Tms_CreateTxdRxdResolve does with a session is a parameter; tips are left out.
pub mod Flag
use service_payment_bridge.Prelude.{
  ℕ, zero, suc, ◌+◌, Bool, true, false, ◌||◌, ◌&&◌, not, Option, none, some, List, [], ◌∷◌, ◌++◌,
  Bytes, codes, ℤ, pos, negsuc, is, at_most, length, take, drop, str_eq, ltb, leb, ◌==◌,
  if◌then◌else◌,
}
use service_payment_bridge.Tms.Reply.{Session, Answer}
use service_payment_bridge.Tms.Trade.{
  File, Trade, Status, uncomplete, complete, updated, is_complete, Kind, device_auth,
  terminfo_upload, location_upload, type_app, type_lib, type_param, type_firmware, type_wifibsp,
}

-- GtermAuthFlag and the session; `none` is an overrun.
pub record Account : Type 0 where
  pub authenticated : Bool
  pub session : Session

abbrev pub Exchange : Type 0
Exchange = Session → Answer

abbrev pub asking : Kind → Session → Session
asking k s = record s { kind = k; resp_code = []; resp_msg = [] }

-- Tms_DeviceAuth, Tms_TermInfoUpload, Tms_TermLocationUpload
unfoldable pub device_authentication : Exchange → Session → Answer
device_authentication x s = x (asking device_auth s)

unfoldable pub term_info_upload : Exchange → Session → Answer
term_info_upload x s = x (asking terminfo_upload s)

unfoldable pub term_location_upload : Exchange → Session → Answer
term_location_upload x s = x (asking location_upload s)

abbrev pub with_session : Bool → Answer → Option (ℕ × Account)
with_session flag none = none
with_session flag (some (c, s)) = some (c, record { authenticated = flag; session = s })

-- TmsTermAuth_Api: the result of the last exchange is returned. Tms_BufMalloc's failure is 29.
unfoldable pub uploaded : Exchange → Answer → Option (ℕ × Account)
unfolding term_location_upload
uploaded x none = none
uploaded x (some (c, s)) = with_session true (term_location_upload x s)

unfoldable pub authenticated_with : Exchange → Answer → Option (ℕ × Account)
unfolding uploaded term_info_upload
authenticated_with x none = none
authenticated_with x (some (suc c, s)) = with_session false (some (suc c, s))
authenticated_with x (some (zero, s)) = uploaded x (term_info_upload x s)

unfoldable pub tms_term_auth_api : Exchange → Bool → Account → Option (ℕ × Account)
unfolding authenticated_with device_authentication
tms_term_auth_api x memory a =
    if memory then authenticated_with x (device_authentication x a.session) else some (29, a)

-- TmsParamSet_Api: texts into version[32], sn[18], hostDomainName[64], hostPort[8], hostIP[16]; the PIN pad's
-- serial number is its text behind two digits, with the number they stand for.
pub record Host : Type 0 where
  pub domain : Bytes
  pub port : Bytes
  pub ip : Bytes

unfoldable pub tms_param_set_api :
    (Bytes → ℕ) → Host → Option Bytes → Session → Option (ℤ × Session)
tms_param_set_api asc_to_long h serial s =
    let number : Bytes = elim serial [
      | none ↦ []
      | some t ↦ take (asc_to_long (take 2 t)) (drop 2 t)
    ] in
    if length h.domain == 0
    then some
        (negsuc 0, record s { version = []; sn = []; resp_code = []; resp_msg = []; files = [] })
    else if leb 64 (length h.domain)
        || (leb 8 (length h.port) || (leb 16 (length h.ip) || ltb 18 (length number)))
    then none
    else some (
      pos 0,
      record s { version = codes "1.0"; sn = number; resp_code = []; resp_msg = []; files = [] },
    )

-- TmsConnectServer: the parameters are set, and the connection's result returned.
unfoldable pub tms_connect_server :
    (Bytes → ℕ) → Host → Option Bytes → ℤ → Session → Option (ℤ × Session)
unfolding tms_param_set_api
tms_connect_server asc_to_long h serial connect s =
    elim (tms_param_set_api asc_to_long h serial s) [
      | none ↦ none
      | some (negsuc n, t) ↦ some (negsuc n, t)
      | some (pos n, t) ↦ some (connect, t)
    ]

-- TmsTermLocUpload_Api behind a connection: the second test of GtermAuthFlag never holds.
unfoldable pub tms_term_loc_upload_api : Exchange → Bool → Account → Option (ℕ × Account)
unfolding term_location_upload
tms_term_loc_upload_api x memory a =
    if a.authenticated
    then if memory then with_session true (term_location_upload x a.session) else some (29, a)
    else some (3, a)

-- Tms_GetFirmwareVerSion: sysReadBPVersion_Api's result and text.
unfoldable pub get_firmware_version : ℤ × Bytes → Option Bytes
get_firmware_version (pos n, s) = some s
get_firmware_version (negsuc n, s) = none

-- TmsStatusCheck_Api: its three loops over the files of the status file.
abbrev pub is_uncomplete : Status → Bool
is_uncomplete uncomplete = true
is_uncomplete complete = false
is_uncomplete updated = false

unfoldable pub any_uncomplete : List File → Bool
any_uncomplete [] = false
any_uncomplete (f ∷ fs) =
    let rest = any_uncomplete fs in if is_uncomplete f.status then true else rest

-- The code of a file that is not installed, in the second loop.
abbrev pub another : Bytes → Option Bytes → Bool
another v none = false
another v (some w) = not (str_eq v w)

unfoldable pub not_replaced : Option Bytes → File → Option ℤ
not_replaced firmware f =
    if is_complete f.status
    then if str_eq f.kind type_param
      then some (negsuc 2)
      else if str_eq f.kind type_firmware
      then if another f.version firmware then some (negsuc 4) else none
      else if str_eq f.kind type_lib || str_eq f.kind type_wifibsp
      then some (negsuc 5)
      else none
    else none

unfoldable pub first_code : (File → Option ℤ) → List File → Option ℤ
first_code test [] = none
first_code test (f ∷ fs) =
    let rest = first_code test fs in elim (test f) [ none ↦ rest | some z ↦ some z ]

unfoldable pub old_app : Bytes → File → Option ℤ
old_app current f =
    if is_complete f.status && (str_eq f.kind type_app && not (str_eq f.version current))
    then some (negsuc 3)
    else none

-- The result, and whether the status file is deleted.
unfoldable pub tms_status_check_api : Option Trade → Option Bytes → Bytes → ℤ × Bool
unfolding any_uncomplete not_replaced first_code old_app
tms_status_check_api none firmware current = (negsuc 0, false)
tms_status_check_api (some g) firmware current =
    let third : ℤ × Bool = elim (first_code (old_app current) g.files) [
      | none ↦ (pos 0, true)
      | some z ↦ (z, false)
    ] in
    let second : ℤ × Bool = elim (first_code (not_replaced firmware) g.files) [
      | none ↦ third
      | some z ↦ (z, false)
    ] in
    if any_uncomplete g.files then (negsuc 1, false) else second

-- CheckTmsStatus: whether TmsUpdate_Api is called.
unfoldable pub check_tms_status : ℤ → Bool
check_tms_status (pos n) = false
check_tms_status (negsuc n) = ltb 1 n && ltb n 6

-- TmsRemoteUpgrade: "1e" in the folder is there, or is written, or the folder cannot be made; then what
-- TmsDownload_Api and TmsUpdate_Api return.
unfoldable pub folder_made : ℤ → ℤ → ℤ → Option ℤ
folder_made size write again =
    if at_most 0 size
    then if is 0 write then if at_most 0 again then some again else none else some write
    else none

unfoldable pub tms_remote_upgrade : Option ℤ → ℤ → ℤ → ℤ → ℤ
tms_remote_upgrade (some z) connect download install = z
tms_remote_upgrade none connect download install =
    if is 0 connect then if is 0 download then install else download else connect
