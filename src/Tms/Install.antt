-- ===== src/Tms/Install.antt =====
-- tms_tms.c, TmsUpdate_Api: the files that are downloaded are put to use, settings first, then the Wi-Fi
-- chip's firmware, the terminal's firmware and libraries, and the application last.
pub mod Calm
pub mod Order
pub mod Ignored
use service_payment_bridge.Prelude.{
  ℕ, zero, suc, ◌+◌, ◌-◌, ◌*◌, Bool, true, false, ◌||◌, ◌&&◌, Option, none, some, List, ◌∷◌, ◌++◌,
  [], Bytes, ℤ, pos, is, codes, find, str_eq, length, take, drop, set, get_elem?, ltb,
  if◌then◌else◌,
}
use service_payment_bridge.Tms.Trade.{
  Trade, File, Status, complete, uncomplete, updated, is_complete, file_dir, suffix, type_app,
  type_lib, type_param, type_firmware, type_wifibsp,
}

-- What tmsUpdate_Api is told to install.
pub data Part : Type 0 where
  app firmware library : Part

-- The calls of the file API, the Wi-Fi chip and the installer, with the installer's answer.
pub data Act : Type 0 where
  deleted : Bytes → Act
  renamed : Bytes → Bytes → Act
  unzipped : Bytes → Bytes → Act
  installed : Part → Bytes → ℤ → Act
  sent : ℕ → Act
  sent_last : Act
  saved : Trade → Act

-- The terminal's answers to the call made at a moment. `read` gives the result and the bytes read,
-- `wifi_older` is CompareFWVersion on the Wi-Fi chip, whose opening and closing are left
-- out.
pub record Machine : Type 0 where
  pub rename : ℕ → ℤ
  pub unzip : ℕ → ℤ
  pub install : ℕ → ℤ
  pub read : ℕ → ℤ × ℕ
  pub send : ℕ → ℤ
  pub size : ℕ → ℕ
  pub wifi_older : Bytes → ℕ → ℤ

-- GFfile, the calls made, the last one first, and the number of answers taken.
pub record Run : Type 0 where
  pub trade : Trade
  pub acts : List Act
  pub clock : ℕ

abbrev pub act : Run → Act → Run
act r a = record r { acts = a ∷ r.acts; clock = r.clock + 1 }

abbrev pub put_file : Run → ℕ → File → Run
put_file r i f = record r { trade = record r.trade { files = set r.trade.files i f } }

abbrev pub full_name : File → Bytes
full_name f = file_dir ++ f.name

-- Tms_DelAllDownloadInfo: "strcat(buf, ".bak")" stands where `buf` is empty.
unfoldable pub delete_file : Run → File → Run
delete_file r f =
    if str_eq f.kind type_firmware
      || (str_eq f.kind type_app || (str_eq f.kind type_lib || str_eq f.kind type_wifibsp))
    then act r (deleted (full_name f))
    else if str_eq f.kind type_param
    then act (act r (deleted (full_name f))) (deleted suffix)
    else r

unfoldable pub delete_files : Run → List File → Run
unfolding delete_file
delete_files r [] = r
delete_files r (f ∷ fs) = delete_files (delete_file r f) fs

unfoldable pub delete_all : Run → Run
unfolding delete_files
delete_all r =
    act (delete_files r (take (suc r.trade.current) r.trade.files))
      (deleted (codes "/ext/tms/_tms_dinfo_"))

-- What a file's turn gives: the run, and whether the update goes on, returns -k, or runs out of fuel.
pub data End : Type 0 where
  next waits : End
  fails : ℕ → End

abbrev pub Step : Type 0
Step = Run × End

-- A .zip file is unpacked and removed, and its name ends in the unpacked file's suffix.
unfoldable pub unpacked : Machine → Run → ℕ → File → Bytes → Option ℕ → Run × File × Bool
unpacked m r i f ext none = (r, f, true)
unpacked m r i f ext (some k) =
    let r' = act (act r (unzipped (full_name f) file_dir)) (deleted (full_name f)) in
    let g = record f { name = take k f.name ++ (ext ++ drop (k + 4) f.name) } in
    if is 0 (m.unzip r.clock)
    then (act (put_file r' i g) (saved (put_file r' i g).trade), g, true)
    else (r', f, false)

unfoldable pub unpack : Machine → Run → ℕ → File → Bytes → Run × File × Bool
unfolding unpacked
unpack m r i f ext = unpacked m r i f ext (find (codes ".zip") f.name)

-- "replace font and parameter files"
unfoldable pub settled : Run → ℕ → File → Bool → Step
unfolding delete_all
settled r i f true =
    let r' = put_file r i (record f { status = updated }) in (act r' (saved r'.trade), next)
settled r i f false = (delete_all r, fails 3)

unfoldable pub unzip_param : Machine → Run → ℕ → File → Option ℕ → Step
unfolding settled
unzip_param m r i f none = settled r i f true
unzip_param m r i f (some k) =
    settled (act (act r (unzipped (full_name f) (codes "/ext/"))) (deleted (full_name f))) i f
      (is 0 (m.unzip r.clock))

unfoldable pub replace_param : Machine → Run → ℕ → File → Step
unfolding unzip_param settled
replace_param m r i f =
    let name = full_name f in
    let r1 = act r (deleted name) in
    let r2 = act r1 (renamed (name ++ suffix) name) in
    let r3 = act r2 (renamed (name ++ suffix) name) in
    let zip = find (codes ".zip") f.name in
    if is 0 (m.rename r1.clock)
    then unzip_param m r2 i f zip
    else if is 0 (m.rename r2.clock)
    then unzip_param m r3 i f zip
    else settled r3 i f false

-- The Wi-Fi chip's firmware is sent in blocks; a failure leaves the loop. Fuel bounds the blocks.
unfoldable pub send_blocks : Machine → Run → ℕ → ℕ → ℕ → Run × End
send_blocks m r j len zero = (r, waits)
send_blocks m r j len (suc fuel) =
    let got = m.read r.clock in
    let rest = send_blocks m (act r (sent got.1)) (j + got.1) len fuel in
    if ltb j len
    then if is 0 got.0
      then if is 0 (m.send r.clock) then rest else (act r (sent got.1), next)
      else (record r { clock = r.clock + 1 }, next)
    else (r, next)

-- The last package is sent in any case, and its answer alone decides.
unfoldable pub sent_all : Machine → ℕ → File → Run × End → Step
unfolding delete_all
sent_all m i f (r, waits) = (r, waits)
sent_all m i f (r, fails k) = (r, fails k)
sent_all m i f (r, next) =
    let r1 = act r sent_last in
    let r2 = put_file r1 i (record f { status = updated }) in
    if is 0 (m.send r.clock)
    then if is 0 (m.wifi_older f.version r1.clock)
      then (r1, next)
      else (act (act r2 (saved r2.trade)) (deleted (full_name f)), next)
    else (delete_all r1, fails 6)

unfoldable pub update_wifi : Machine → ℕ → Run → ℕ → File → Step
unfolding unpack send_blocks sent_all delete_all
update_wifi m fuel r i f =
    let u = unpack m r i f (codes ".bin") in
    if u.2
    then sent_all m i u.1 (send_blocks m u.0 0 (m.size u.0.clock) fuel)
    else (delete_all u.0, fails 6)

-- tmsUpdate_Api
abbrev pub install_as : Machine → Run → Part → File → Run
install_as m r p f = act r (installed p (full_name f) (m.install r.clock))

-- "update firmware"
unfoldable pub update_firmware : Machine → Run → ℕ → File → Step
unfolding unpack delete_all
update_firmware m r i f =
    let u = unpack m r i f (codes ".bin") in
    let part = if str_eq f.kind type_firmware then firmware else library in
    let done = install_as m u.0 part u.1 in
    if u.2
    then if is 0 (m.install u.0.clock) then (done, next) else (delete_all done, fails 4)
    else (delete_all u.0, fails 4)

-- "replace APP": the installer's answer is not looked at.
unfoldable pub replace_app : Machine → Run → ℕ → File → Step
unfolding unpack delete_all
replace_app m r i f =
    let u = unpack m r i f (codes ".img") in
    if u.2 then (install_as m u.0 app u.1, next) else (delete_all u.0, fails 5)

-- The files of a kind that are complete, in their order, from the i-th on.
abbrev pub Body : Type 0
Body = Run → ℕ → File → Step

unfoldable pub go_on : Step → (Run → Step) → Step
go_on (r, next) rest = rest r
go_on (r, waits) rest = (r, waits)
go_on (r, fails k) rest = (r, fails k)

unfoldable pub each : (Bytes → Bool) → Body → Run → ℕ → ℕ → Step
unfolding go_on
each kind body r i zero = (r, next)
each kind body r i (suc n) = elim (get_elem? r.trade.files i) [
  | none ↦ (r, next)
  | some f ↦
      let turn = if is_complete f.status && kind f.kind then body r i f else (r, next) in
      go_on turn (λ r'. each kind body r' (suc i) n)
]

abbrev pub is_complete_or_updated : Status → Bool
is_complete_or_updated uncomplete = false
is_complete_or_updated complete = true
is_complete_or_updated updated = true

-- TmsUpdate_Api, from a status file that is read; -2 while a file is not complete.
abbrev pub all_complete : List File → Bool
all_complete [] = true
all_complete (f ∷ fs) = is_complete_or_updated f.status && all_complete fs

-- The four loops over the files.
abbrev pub params : Machine → ℕ → Run → Step
params m n r = each (str_eq type_param) (replace_param m) r 0 n

abbrev pub wifis : Machine → ℕ → ℕ → Run → Step
wifis m fuel n r = each (str_eq type_wifibsp) (update_wifi m fuel) r 0 n

abbrev pub systems : Machine → ℕ → Run → Step
systems m n r = each (λ k. str_eq type_firmware k || str_eq type_lib k) (update_firmware m) r 0 n

abbrev pub apps : Machine → ℕ → Run → Step
apps m n r = each (str_eq type_app) (replace_app m) r 0 n

abbrev pub forget : Run → Step
forget r = (act r (deleted (codes "/ext/tms/_tms_dinfo_")), next)

unfoldable pub update_api : Machine → ℕ → Run → Step
unfolding each replace_param update_wifi update_firmware replace_app go_on
update_api m fuel r =
    let n = length r.trade.files in
    if all_complete r.trade.files
    then go_on (go_on (go_on (go_on (params m n r) (wifis m fuel n)) (systems m n)) (apps m n))
        forget
    else (r, fails 2)
