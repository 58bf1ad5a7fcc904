-- ===== src/Tms/Versions.antt =====
-- tms_tms.c: whether a file of a task is newer than what the terminal has (Tms_CheckNeedDownFile,
-- CompareFWVersion, CompareVosVersion), and whether a download can be resumed (Tms_CompareVersions).
pub mod Once
use service_payment_bridge.Prelude.{
  ℕ, zero, suc, ◌+◌, Bool, true, false, ◌&&◌, Option, none, some, List, ◌∷◌, ◌++◌, [], Bytes, ℤ,
  pos, negsuc, at_most, is, codes, find, index_of, length, take, drop, replicate, str_eq, ltb, leb,
  ◌==◌, if◌then◌else◌,
}
use service_payment_bridge.Tms.Trade.{
  Trade, File, type_app, type_lib, type_param, type_firmware, type_wifibsp,
}

-- `strcmp(s, t) > 0`
unfoldable pub greater : Bytes → Bytes → Bool
greater [] t = false
greater (c ∷ s) [] = true
greater (c ∷ s) (d ∷ t) = let rest = greater s t in if c == d then rest else ltb d c

-- A version without its points.
unfoldable pub digits_only : Bytes → Bytes
digits_only [] = []
digits_only (c ∷ s) = let rest = digits_only s in if c == 46 then rest else c ∷ rest

-- What stands behind the first point.
unfoldable pub after_point : Bytes → Option Bytes
after_point s = elim (find (codes ".") s) [ none ↦ none | some k ↦ some (drop (k + 1) s) ]

-- "for(i = 0; i < 3; i++)": the fourth part of a version.
unfoldable pub fourth_part : Bytes → Option Bytes
unfolding after_point
fourth_part s = elim (after_point s) [
  | none ↦ none
  | some a ↦ elim (after_point a) [ none ↦ none | some b ↦ after_point b ]
]

-- What the terminal reports: wifiGetUserVersion_Api, twice; sysReadBPVersion_Api; sysReadVerInfo_Api;
-- and the version that the application gave.
pub record Terminal : Type 0 where
  pub wifi : ℤ × Bytes
  pub wifi_again : ℤ × Bytes
  pub base : ℤ × Bytes
  pub system : ℤ × Bytes
  pub app : Bytes

-- 0: the file is needed.
unfoldable pub newer_than : Bytes → Option Bytes → ℕ
newer_than tmp none = 1
newer_than tmp (some p) = if greater p tmp then 0 else 1

unfoldable pub compare_wifi : ℤ × Bytes → Bytes → ℕ
unfolding newer_than fourth_part digits_only greater
compare_wifi r new =
    if at_most 0 r.0 then 1 else newer_than (digits_only (drop 1 r.1)) (fourth_part new)

-- The first "T", or else the first "t".
unfoldable pub find_to : Bytes → Option ℕ
find_to p = elim (index_of b'T' p) [ some k ↦ some k | none ↦ index_of b't' p ]

-- "<old>to<new>": the old version is the present one, and the new one is later.
unfoldable pub leads_on : Bytes → Bytes → Option ℕ → ℕ
leads_on tmp p none = 1
leads_on tmp p (some k) =
    let n = length tmp in
    if k == n && (str_eq (take n p) tmp && greater (take n (drop (k + 2) p ++ replicate n 0)) tmp)
    then 0
    else 1

unfoldable pub from_to : Bytes → Option Bytes → ℕ
unfolding find_to leads_on
from_to tmp none = 1
from_to tmp (some p) = leads_on tmp p (find_to p)

unfoldable pub compare_base : ℤ × Bytes → Bytes → ℕ
unfolding from_to fourth_part digits_only greater
compare_base r new = if at_most 0 r.0 then 1 else from_to (digits_only r.1) (fourth_part new)

-- The second try is made on -6300.
unfoldable pub wifi_version : Terminal → ℤ → ℤ × Bytes
wifi_version t (pos n) = t.wifi
wifi_version t (negsuc n) = if n == 6299 then t.wifi_again else t.wifi

-- CompareFWVersion
unfoldable pub compare_fw_version : Terminal → Bytes → ℕ → ℕ
unfolding compare_wifi compare_base wifi_version
compare_fw_version t new flag =
    if flag == 1 then compare_wifi (wifi_version t t.wifi.0) new else compare_base t.base new

-- CompareVosVersion
unfoldable pub compare_vos_version : Terminal → Bytes → ℕ
unfolding newer_than fourth_part digits_only greater
compare_vos_version t new =
    if is 0 t.system.0
    then elim (find (codes "-V") t.system.1) [
      | none ↦ 1
      | some k ↦ newer_than (digits_only (drop (k + 2) t.system.1)) (fourth_part new)
    ]
    else 1

-- Tms_CheckNeedDownFile
unfoldable pub check_need_down_file : Terminal → File → ℕ
unfolding compare_fw_version compare_vos_version greater
check_need_down_file t f =
    if str_eq f.kind type_app
    then if greater f.version t.app then 0 else 1
    else if str_eq f.kind type_param
    then 0
    else if str_eq f.kind type_firmware
    then compare_fw_version t f.version 0
    else if str_eq f.kind type_lib
    then compare_vos_version t f.version
    else if str_eq f.kind type_wifibsp
    then compare_fw_version t f.version 1
    else 1

-- Tms_CompareVersions
unfoldable pub same_file : File → File → Bool
same_file f g =
    str_eq f.name g.name
    && (str_eq f.kind g.kind && (str_eq f.version g.version && f.size == g.size))

unfoldable pub same_files : List File → List File → Bool
unfolding same_file
same_files [] [] = true
same_files [] (g ∷ gs) = false
same_files (f ∷ fs) [] = false
same_files (f ∷ fs) (g ∷ gs) = same_file f g && same_files fs gs

-- The download is resumed, or all of it is deleted; with 25 files the loop reads behind file[25], and
-- without a status file what is deleted was never set.
pub data Resumed : Type 0 where
  resumed all_deleted : Trade → Resumed
  beyond never_read : Resumed

unfoldable pub compare_versions : Trade → Option Trade → Resumed
unfolding same_files
compare_versions curr none = never_read
compare_versions curr (some g) =
    if length curr.files == length g.files
    then if same_files g.files curr.files
      then if leb 25 (length g.files) then beyond else resumed g
      else all_deleted g
    else all_deleted g
