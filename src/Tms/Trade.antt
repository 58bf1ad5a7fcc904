-- ===== src/Tms/Trade.antt =====
-- inc/tms_tms.h: the state of remote management (struct __FileStruct__, struct __TmsTrade__), and the
-- terminal that it runs on. The MD5 context is the bytes that it has taken in; MD5, the file API, the
-- socket and the display are not the code modelled here.
use service_payment_bridge.Prelude.{
  ℕ, ◌+◌, Bool, true, false, Option, List, [], ◌∷◌, ◌++◌, Bytes, ℤ, codes, str_eq, length, take,
  drop, get_elem?, if◌then◌else◌,
}
use service_payment_bridge.Http.Payload.{Device}

pub data Status : Type 0 where
  uncomplete complete updated : Status

abbrev pub is_complete : Status → Bool
is_complete uncomplete = false
is_complete complete = true
is_complete updated = false

pub record File : Type 0 where
  pub name : Bytes
  pub kind : Bytes
  pub version : Bytes
  pub path : Bytes
  pub md5 : Bytes
  pub size : ℕ
  pub start : ℕ
  pub status : Status
  pub task_id : ℕ
  pub item_id : ℕ

pub data Kind : Type 0 where
  device_auth terminfo_upload getterm_task urlgetfile notify update location_upload : Kind

-- `files` has the first `fnum` entries of file[25]; `current` is curfindex, `hashed` the context.
pub record Trade : Type 0 where
  pub kind : Kind
  pub message : Bytes
  pub current : ℕ
  pub files : List File
  pub hashed : Bytes

abbrev pub file_dir : Bytes
file_dir = codes "/ext/tms/"

abbrev pub suffix : Bytes
suffix = codes ".bak"

abbrev pub type_app : Bytes
type_app = codes "APP"

abbrev pub type_lib : Bytes
type_lib = codes "DD"

abbrev pub type_param : Bytes
type_param = codes "PF"

abbrev pub type_firmware : Bytes
type_firmware = codes "UF"

abbrev pub type_wifibsp : Bytes
type_wifibsp = codes "WB"

-- Where a file is kept until it is installed.
unfoldable pub place : File → Bytes
place f = if str_eq type_param f.kind then file_dir ++ (f.name ++ suffix) else file_dir ++ f.name

-- What is done to the file system: bytes written at an offset (WriteFile_Api with its result 0; with another result the file is as before), a file
-- removed, the status file written.
pub data Call : Type 0 where
  wrote : Bytes → ℕ → Bytes → Call
  removed : Bytes → Call
  saved : Trade → Call

-- The bytes of a file after the calls, the last call first: a write replaces as many bytes as it has, from its
-- offset on, and leaves those behind.
unfoldable pub content : Bytes → List Call → Bytes
content p [] = []
content p (wrote q n b ∷ l) =
    let old = content p l in
    if str_eq q p then take n old ++ (b ++ drop (n + length b) old) else old
content p (removed q ∷ l) = let old = content p l in if str_eq q p then [] else old
content p (saved t ∷ l) = content p l

-- The terminal answers the call made at a moment: dev_send, dev_recv, TmsConnect_Api, WriteFile_Api.
pub record Terminal : Type 0 where
  pub send : ℕ → Bytes → ℤ
  pub device : Device
  pub connect : ℕ → ℤ
  pub write : ℕ → ℤ
  pub digest : Bytes → Bytes

-- The program's state, with the calls made so far, the last one first, and the number of answers taken.
pub record State : Type 0 where
  pub trade : Trade
  pub log : List Call
  pub clock : ℕ

-- TmsTrade.file[i]
abbrev pub file_at : State → ℕ → Option File
file_at s i = get_elem? s.trade.files i
