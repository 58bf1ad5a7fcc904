-- ===== src/Card/Data.antt =====
-- EmvCommon.c: what a transaction keeps of the card (EmvSaveData, EmvSaveDataOnline, GetEmvTrackData,
-- GetPosEntryMode and the two functions behind it). A tag that the kernel lacks leaves the variables alone.
use service_payment_bridge.Prelude.{
  ℕ, ◌+◌, ◌-◌, Bool, true, false, ◌||◌, Option, none, some, [], ◌++◌, Bytes, ℤ, pos, negsuc, cstr,
  length, take, drop, set, replicate, ltb, leb, ◌==◌, if◌then◌else◌,
}
use service_payment_bridge.Card.Track.{Conversion, overlay, remove_tail_chars, match_track2_and_pan}

-- Fields of PosCom.stTrans, each an array of its length.
pub record Trans : Type 0 where
  pub trade_date : Bytes
  pub trade_time : Bytes
  pub exp_date : Bytes
  pub hold_card_name : Bytes
  pub app_crypto : Bytes
  pub auth_rsp_code : Bytes
  pub tvr : Bytes
  pub aip : Bytes
  pub unknow_num : Bytes
  pub aid : Bytes
  pub app_lable : Bytes
  pub tsi : Bytes
  pub atc : Bytes
  pub app_prefer_name : Bytes
  pub pan_seq_no : Bytes
  pub pan_seq_no_ok : Bool
  pub entry_mode : ℕ
  pub icc_fall_back : Bool

-- `none` is a write past an array.
infixl 5 ◌>>=◌
abbrev ◌>>=◌ : {A B : Type 0} → Option A → (A → Option B) → Option B
none >>= f = none
some a >>= f = f a

-- Common_GetTLV_Api into an array.
unfoldable pub field_into : Bytes → Option Bytes → Option Bytes
field_into a none = some a
field_into a (some b) = if ltb (length a) (length b) then none else some (overlay b a)

-- HoldCardName, with its NUL at iLength, which is the tag's length or what it was before.
unfoldable pub name_into : Bytes → Option Bytes → ℕ → Option Bytes
name_into a none before = if leb (length a) before then none else some (set a before 0)
name_into a (some b) before =
    if leb (length a) (length b) then none else some (set (overlay b a) (length b) 0)

abbrev pub length_or : ℕ → Option Bytes → ℕ
length_or n none = n
length_or n (some b) = length b

abbrev pub bytes_or_zero : Option Bytes → Bytes
bytes_or_zero none = []
bytes_or_zero (some b) = b

-- The first 3 bytes of a buffer of zeros with the tag in front.
abbrev pub three_of : Option Bytes → Bytes
three_of o = take 3 (bytes_or_zero o ++ replicate 3 0)

-- From 0x5f24 on, the same in both functions; `before` is iLength.
unfoldable pub save_tags : (ℕ → Option Bytes) → ℕ → Trans → Option Trans
unfolding field_into name_into
save_tags tlv before t = do
  name ← name_into t.hold_card_name (tlv 0x5F20) (length_or before (tlv 0x5F24))
  crypto ← field_into t.app_crypto (tlv 0x9F26)
  code ← field_into t.auth_rsp_code (tlv 0x8A)
  tvr ← field_into t.tvr (tlv 0x95)
  tsi ← field_into t.tsi (tlv 0x9B)
  atc ← field_into t.atc (tlv 0x9F36)
  some (record t {
    exp_date = overlay (three_of (tlv 0x5F24)) t.exp_date;
    hold_card_name = name;
    app_crypto = crypto;
    auth_rsp_code = code;
    tvr = tvr;
    tsi = tsi;
    atc = atc;
  })

-- EmvSaveData: an offline sale takes the date and the time, GetSysTime_Api's 7 bytes. That 9F74 is set to
-- "ECC001" where it is missing is left out. EmvSaveDataOnline is save_tags from 0 on.
unfoldable pub emv_save_data : (ℕ → Option Bytes) → Bool → Bool → Bytes → Trans → Option Trans
unfolding save_tags
emv_save_data tlv online sale time t =
    if online
    then save_tags tlv 0 t
    else if sale
    then save_tags tlv (length_or 0 (tlv 0x9F74))
        (record t { trade_date = take 4 time; trade_time = take 3 (drop 4 time) })
    else save_tags tlv 0 t

unfoldable pub emv_save_data_online : (ℕ → Option Bytes) → Trans → Option Trans
unfolding save_tags
emv_save_data_online tlv t = save_tags tlv 0 t

-- Tags 57 and 5A: 0, -1 for numbers that differ, -2 for none. `none` is an overrun of sTemp[30].
unfoldable pub tracks_agree : Conversion → Option Bytes → Option Bytes → Option ℤ
tracks_agree v none none = some (negsuc 1)
tracks_agree v none (some pan) = if ltb 29 (length pan) then none else some (pos 0)
tracks_agree v (some track) none = if ltb 30 (length track) then none else some (pos 0)
tracks_agree v (some track) (some pan) =
    if ltb 30 (length track) || ltb 29 (length pan)
    then none
    else elim (match_track2_and_pan v track pan) [
      | none ↦ none
      | some n ↦ if n == 0 then some (pos 0) else some (negsuc 0)
    ]

abbrev pub is_some : Option Bytes → Bool
is_some none = false
is_some (some b) = true

-- The date only if there is a number under 5A.
abbrev pub date_read : Option Bytes → Option Bytes → Bytes → Bytes
date_read none date d = d
date_read (some pan) none d = d
date_read (some pan) (some b) d = overlay (three_of (some b)) d

-- BcdToAsc_Api into szAID, and RemoveTailChars.
abbrev pub without_tail : Bytes → Bytes
without_tail a =
    let s = cstr a in
    let r = remove_tail_chars b'F' s in overlay (r ++ replicate (length s - length r) 0) a

unfoldable pub aid_into : Conversion → Bytes → Option Bytes → Option Bytes
aid_into v a none = some a
aid_into v a (some b) =
    let text = v.bcd_to_asc b (length b + length b) in
    if ltb (length a) (length text) then none else some (without_tail (overlay text a))

unfoldable pub read_names : Conversion → (ℕ → Option Bytes) → Trans → Option Trans
unfolding field_into aid_into
read_names v tlv t = do
  seq ← field_into t.pan_seq_no (tlv 0x5F34)
  lable ← field_into t.app_lable (tlv 0x50)
  prefer ← field_into t.app_prefer_name (tlv 0x9F12)
  aid ← aid_into v t.aid (tlv 0x4F)
  aip ← field_into t.aip (tlv 0x82)
  number ← field_into t.unknow_num (tlv 0x9F37)
  some (record t {
    pan_seq_no = seq;
    pan_seq_no_ok = is_some (tlv 0x5F34);
    exp_date = date_read (tlv 0x5A) (tlv 0x5F24) t.exp_date;
    app_lable = lable;
    app_prefer_name = prefer;
    aid = aid;
    aip = aip;
    unknow_num = number;
  })

-- GetEmvTrackData: the result with the fields; track 2 is tag 57 itself.
unfoldable pub get_emv_track_data : Conversion → (ℕ → Option Bytes) → Trans → Option (ℤ × Trans)
unfolding tracks_agree read_names
get_emv_track_data v tlv t = elim (tracks_agree v (tlv 0x57) (tlv 0x5A)) [
  | none ↦ none
  | some (negsuc n) ↦ some (negsuc n, t)
  | some (pos n) ↦ elim (read_names v tlv t) [ none ↦ none | some u ↦ some (pos 0, u) ]
]

-- GetPosEntryMode, GetPosBatchCaptureInfo, GetPosAdviceSupportInfo and CEmvIoCtrl, which writes nothing for
-- another name.
unfoldable pub get_pos_entry_mode : Trans → ℕ
get_pos_entry_mode t =
    if t.entry_mode == 5 || (t.entry_mode == 0x91 || t.entry_mode == 7)
    then 5
    else if t.entry_mode == 2
    then if t.icc_fall_back then 0x92 else 2
    else 0

unfoldable pub cemv_io_ctrl : Trans → ℕ → ℕ → ℕ
unfolding get_pos_entry_mode
cemv_io_ctrl t ioname iovalue =
    if ioname == 0
    then get_pos_entry_mode t
    else if ioname == 1
    then 0
    else if ioname == 2
    then 1
    else iovalue
