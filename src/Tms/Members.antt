-- ===== src/Tms/Members.antt =====
-- tms_tms.c: the members of the messages to the server (Tms_CreatePacket down to cJSON_PrintUnformatted,
-- GetFirmwareModuleData), for a machine other than the Q181 and the Q190.
use service_payment_bridge.Prelude.{
  ℕ, ◌/◌, Bool, true, false, Option, none, some, List, [], ◌∷◌, ◌++◌, Bytes, codes, ℤ, pos, find,
  length, take, drop, str_eq, ◌==◌, if◌then◌else◌,
}
use service_payment_bridge.Qris.Amount.{decimal}
use service_payment_bridge.Tms.Reply.{Session}
use service_payment_bridge.Tms.Trade.{
  File, is_complete, Kind, device_auth, terminfo_upload, getterm_task, urlgetfile, notify, update,
  location_upload,
}

-- What is added to a cJSON object: a text (`none` is NULL), a number, an array of objects of these.
pub data Scalar : Type 0 where
  text : Option Bytes → Scalar
  number : ℤ → Scalar

abbrev pub Object : Type 0
Object = List (Bytes × Scalar)

pub data Value : Type 0 where
  scalar : Scalar → Value
  objects : List Object → Value

abbrev pub Fields : Type 0
Fields = List (Bytes × Value)

abbrev pub text_field : Bytes → Bytes → Bytes × Value
text_field name s = (name, scalar (text (some s)))

abbrev pub number_field : Bytes → ℤ → Bytes × Value
number_field name z = (name, scalar (number z))

-- GetFirmwareModuleData: the network types, and the module's name where it is known.
abbrev pub has : Bytes → Bytes → Bool
has s t = elim (find t s) [ none ↦ false | some k ↦ true ]

unfoldable pub firmware_code : Bytes → Bytes
firmware_code net =
    if has net (codes "2G")
    then if has net (codes "4G") then codes "11" else codes "02"
    else if has net (codes "4G")
    then codes "03"
    else codes "00"

unfoldable pub first_module : Bytes → List (Bytes × Bytes) → Bytes
first_module name [] = codes "00"
first_module name ((part, code) ∷ more) =
    let rest = first_module name more in if has name part then code else rest

abbrev pub modules : List (Bytes × Bytes)
modules =
    (codes "MC6699", codes "01")
    ∷ (codes "V77-LC610", codes "10")
    ∷ (codes "LC610", codes "02")
    ∷ (codes "Q161-L610-LG", codes "03")
    ∷ (codes "L509", codes "04")
    ∷ (codes "Q161Pro-L610-LG", codes "05")
    ∷ (codes "L610", codes "06")
    ∷ (codes "L511C", codes "07")
    ∷ (codes "ZX800", codes "08")
    ∷ (codes "EC200A_AUAB", codes "09")
    ∷ []

unfoldable pub module_code : Option Bytes → Bytes
unfolding first_module
module_code none = []
module_code (some name) = first_module name modules

-- CommBaseStationInfo_Api and CommWifiScanAp_Api: at most five of each.
pub record Station : Type 0 where
  pub ci : ℤ
  pub lac : ℤ
  pub mcc : ℤ
  pub mnc : ℤ
  pub rxlev : ℤ

pub record AccessPoint : Type 0 where
  pub bssid : List Bytes
  pub signal : ℤ

-- What the platform tells of the terminal; sizes are in bytes, `bssid` above is the bytes' hexadecimal texts,
-- and `bat_charge` is BatChargeProc_Api's result.
pub record Device : Type 0 where
  pub wireless_ip : Bytes
  pub wifi_mac : Bytes
  pub wifi_ip : Option Bytes
  pub net_type : Bytes
  pub module_name : Option Bytes
  pub imei : Bytes
  pub os_version : Bytes
  pub hard_version : Bytes
  pub total_memory : ℕ
  pub available_memory : ℕ
  pub free_storage : ℕ
  pub bat_charge : ℕ
  pub sound_level : ℕ
  pub carrier : Bytes
  pub mobile_network : Option Bytes
  pub stations : List Station
  pub access_points : List AccessPoint

-- enum TRANCOMM_MODE
pub data Mode : Type 0 where
  no_mode sim wifi : Mode

abbrev pub or_else : Bytes → Bytes → Bytes
or_else s d = if length s == 0 then d else s

abbrev pub text_of : Option Bytes → Bytes
text_of none = []
text_of (some s) = s

-- The parts of TYPE_DEVICEAUTH, TYPE_TERMINFO_UPLOAD and TYPE_GETTERM_TASK.
unfoldable pub auth_fields : Device → Mode → Fields
auth_fields d no_mode =
    text_field (codes "mac") (codes "nomac") ∷ text_field (codes "ip") (codes "noip") ∷ []
auth_fields d sim =
    text_field (codes "mac") (codes "nomac")
    ∷ text_field (codes "ip") (or_else d.wireless_ip (codes "noip"))
    ∷ []
auth_fields d wifi =
    text_field (codes "mac") (or_else d.wifi_mac (codes "nomac"))
    ∷ text_field (codes "ip") (or_else (text_of d.wifi_ip) (codes "noip"))
    ∷ []

unfoldable pub module_fields : Bytes → Device → Fields
unfolding firmware_code module_code
module_fields token d =
    text_field (codes "token") token
    ∷ text_field (codes "firmware") (firmware_code d.net_type)
    ∷ text_field (codes "module") (module_code d.module_name)
    ∷ []

abbrev pub megabytes : ℕ → Bytes
megabytes n = decimal (n / 1048576)

unfoldable pub info_fields : Bytes → Device → Fields
unfolding module_fields decimal
info_fields token d =
    module_fields token d
    ++ (text_field (codes "imei") d.imei
        ∷ text_field (codes "osVersion") d.os_version
        ∷ text_field (codes "hardVersion") d.hard_version
        ∷ text_field (codes "totalMemory") (megabytes d.total_memory)
        ∷ text_field (codes "availableMemory") (megabytes d.available_memory)
        ∷ text_field (codes "totalStorage") (codes "16")
        ∷ text_field (codes "availableStorage") (megabytes d.free_storage)
        ∷ text_field (codes "batterCapacity") (codes "2000")
        ∷ text_field (codes "batteryLevel")
            (if d.bat_charge == 0xaa then codes "99" else decimal d.bat_charge)
        ∷ text_field (codes "chargingState") (if d.bat_charge == 0xaa then codes "0" else codes "1")
        ∷ text_field (codes "volumeLevel") (decimal d.sound_level)
        ∷ [])

-- TYPE_NOTIFY
unfoldable pub notify_fields : Bytes → File → Fields
unfolding decimal
notify_fields token f =
    text_field (codes "token") token
    ∷ text_field (codes "taskId") (decimal f.task_id)
    ∷ text_field (codes "taskItemId") (decimal f.item_id)
    ∷ text_field (codes "status") (if is_complete f.status then codes "0" else codes "2")
    ∷ []

-- TYPE_LOCATION_UPLOAD
unfoldable pub tower : Station → Object
tower b =
    (codes "cellId", number b.ci)
    ∷ (codes "locationAreaCode", number b.lac)
    ∷ (codes "mobileCountryCode", number b.mcc)
    ∷ (codes "mobileNetworkCode", number b.mnc)
    ∷ (codes "signalStrength", number b.rxlev)
    ∷ (codes "timingAdvance", number (pos 0))
    ∷ (codes "age", number (pos 0))
    ∷ []

unfoldable pub towers : List Station → List Object
unfolding tower
towers [] = []
towers (b ∷ bs) = tower b ∷ towers bs

-- The bytes with ':' between them.
unfoldable pub mac_text : List Bytes → Bytes
mac_text [] = []
mac_text (b ∷ []) = b
mac_text (b ∷ c ∷ bs) = b ++ b':' ∷ mac_text (c ∷ bs)

unfoldable pub points : List AccessPoint → List Object
unfolding mac_text
points [] = []
points (a ∷ l) =
    ((codes "macAddress", text (some (mac_text a.bssid)))
      ∷ (codes "signalStrength", number a.signal)
      ∷ (codes "age", number (pos 0))
      ∷ [])
    ∷ points l

abbrev pub is_cdma : Option Bytes → ℤ
is_cdma none = pos 0
is_cdma (some s) = if str_eq s (codes "CDMA") then pos 1 else pos 0

unfoldable pub place_fields : Device → Mode → Fields
unfolding towers points
place_fields d no_mode = text_field (codes "latlng") [] ∷ []
place_fields d sim =
    text_field (codes "carrier") d.carrier
    ∷ number_field (codes "cdma") (is_cdma d.mobile_network)
    ∷ (codes "network", scalar (text d.mobile_network))
    ∷ (codes "cellTowers", objects (towers d.stations))
    ∷ []
place_fields d wifi = (codes "wifiAccessPoints", objects (points d.access_points)) ∷ []

abbrev pub mode_number : Mode → ℕ
mode_number no_mode = 0
mode_number sim = 1
mode_number wifi = 2

unfoldable pub location_fields : Bytes → Device → Mode → Fields
unfolding place_fields
location_fields token d m =
    text_field (codes "token") token
    ∷ number_field (codes "uploadType") (pos (mode_number m))
    ∷ text_field (codes "imei") d.imei
    ∷ place_fields d m

-- "YYYY/MM/DD hh:mm:ss" of 14 digits.
unfoldable pub time_text : Bytes → Bytes
time_text s =
    take 4 s
    ++ b'/'
      ∷ (take 2 (drop 4 s)
          ++ b'/'
            ∷ (take 2 (drop 6 s)
                ++ b' '
                  ∷ (take 2 (drop 8 s)
                      ++ b':' ∷ (take 2 (drop 10 s) ++ b':' ∷ take 2 (drop 12 s)))))

unfoldable pub kind_fields : Session → Device → File → Mode → Kind → Fields
unfolding auth_fields info_fields module_fields notify_fields location_fields
kind_fields s d f m device_auth = auth_fields d m
kind_fields s d f m terminfo_upload = info_fields s.token d
kind_fields s d f m getterm_task = module_fields s.token d
kind_fields s d f m notify = notify_fields s.token f
kind_fields s d f m location_upload = location_fields s.token d m
kind_fields s d f m urlgetfile = []
kind_fields s d f m update = []

abbrev pub url_path : Kind → Bytes
url_path device_auth = codes "POST /server/trad/deviceAuthentication"
url_path terminfo_upload = codes "POST /server/trad/reportDeviceInfo"
url_path getterm_task = codes "POST /server/trad/getDeviceTask"
url_path notify = codes "POST /server/trad/taskResultNotify"
url_path location_upload = codes "POST /server/trad/reportDeviceLocation"
url_path urlgetfile = []
url_path update = []

-- The members of the message, in their order; `f` is TmsTrade.file[ii].
unfoldable pub members : Session → Device → File → Mode → Bytes → Fields
unfolding kind_fields time_text
members s d f m now =
    text_field (codes "version") s.version
    ∷ text_field (codes "time") (time_text now)
    ∷ text_field (codes "sn") s.sn
    ∷ kind_fields s d f m s.kind
