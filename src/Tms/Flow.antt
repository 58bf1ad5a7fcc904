-- ===== src/Tms/Flow.antt =====
-- tms_tms.c: the course of a download (Tms_RequestTermTask, Tms_CommProcess, Tms_Notify,
-- TmsDownload_Api). An exchange with the server is what Tms_CreateTxdRxdResolve returns for it.
pub mod Complete
use service_payment_bridge.Prelude.{
  ℕ, zero, suc, ◌+◌, Bool, true, false, ◌||◌, Option, none, some, List, ◌∷◌, ◌++◌, [], codes,
  str_eq, take, length, ◌==◌, if◌then◌else◌,
}
use service_payment_bridge.Tms.Download.{
  download_files, Outcome, ended, returned, never_set, overran, waits, is_uncomplete,
}
use service_payment_bridge.Tms.Store.{save}
use service_payment_bridge.Tms.Trade.{
  Kind, device_auth, terminfo_upload, getterm_task, urlgetfile, notify, update, location_upload,
  Trade, File, State, Terminal, Call, removed, file_dir, suffix, type_app, type_lib, type_param,
  type_firmware, type_wifibsp,
}
use service_payment_bridge.Tms.Versions.{
  Resumed, resumed, all_deleted, beyond, never_read, compare_versions,
}

-- The code of an exchange of a kind about the i-th file, at a moment; the files that the tasks list; the
-- status file, if it is not empty, and what is read from it.
pub record Server : Type 0 where
  pub exchange : ℕ → Kind → ℕ → ℕ
  pub tasks : List File
  pub stored : Bool
  pub status_file : Option Trade

abbrev pub with_kind : State → Kind → State
with_kind s k = record s { trade = record s.trade { kind = k; message = [] } }

abbrev pub ticked : State → State
ticked s = record s { clock = s.clock + 1 }

-- Tms_DelAllDownloadInfo: the files up to the current one, and the status file; ".bak" is appended to an
-- empty buffer.
unfoldable pub deletions : List File → List Call → List Call
deletions [] l = l
deletions (f ∷ fs) l = deletions fs (
    if str_eq f.kind type_firmware
      || (str_eq f.kind type_app || (str_eq f.kind type_lib || str_eq f.kind type_wifibsp))
    then removed (file_dir ++ f.name) ∷ l
    else if str_eq f.kind type_param
    then removed suffix ∷ removed (file_dir ++ f.name) ∷ l
    else l)

abbrev pub all_removed : State → Trade → State
all_removed s g = record s {
  log = removed (codes "/ext/tms/_tms_dinfo_") ∷ deletions (take (suc g.current) g.files) s.log;
}

-- Tms_CompareVersions, where the status file is not empty.
unfoldable pub resume_with : State → Resumed → State × Option Outcome
resume_with s (resumed g) = (record s { trade = g }, none)
resume_with s (all_deleted g) = (all_removed s g, none)
resume_with s beyond = (s, some overran)
resume_with s never_read = (s, some overran)

-- Tms_RequestTermTask; `none` goes on.
unfoldable pub request_term_task : Server → State → State × Option Outcome
unfolding resume_with
request_term_task v s =
    let code = v.exchange s.clock getterm_task 0 in
    let t = ticked (with_kind s getterm_task) in
    let listed = record t { trade = record t.trade { files = v.tasks } } in
    if code == 0
    then if length v.tasks == 0
      then (listed, some (ended 28))
      else if v.stored
      then resume_with listed (compare_versions listed.trade v.status_file)
      else (listed, none)
    else (t, some (ended code))

abbrev pub all_loaded : List File → Bool
all_loaded [] = true
all_loaded (f ∷ fs) = if is_uncomplete f.status then false else all_loaded fs

-- One message for each file.
unfoldable pub notify_files : Server → State → List File → ℕ → State × ℕ
notify_files v s [] i = (s, 0)
notify_files v s (f ∷ fs) i =
    let rest = notify_files v (ticked s) fs (i + 1) in
    let code = v.exchange s.clock notify i in if code == 0 then rest else (ticked s, code)

-- Tms_Notify
unfoldable pub notify_all : Server → State → State × ℕ
unfolding notify_files
notify_all v s =
    if all_loaded s.trade.files
    then notify_files v (with_kind s notify) s.trade.files 0
    else (s, 15)

-- "_TMS_NOTIFY_"
unfoldable pub finished : Terminal → State × ℕ → State × Outcome
unfolding save
finished e (s, zero) = ((save e (record s { trade = record s.trade { kind = update } })).0, ended 0)
finished e (s, suc c) = (s, ended (suc c))

unfoldable pub after_download : Terminal → Server → State × Outcome → State × Outcome
unfolding notify_all finished
after_download e v (s, ended zero) = finished e (notify_all v s)
after_download e v (s, ended (suc c)) = (s, ended (suc c))
after_download e v (s, returned zero) = finished e (notify_all v s)
after_download e v (s, returned (suc c)) = (s, returned (suc c))
after_download e v (s, never_set) = (s, never_set)
after_download e v (s, overran) = (s, overran)
after_download e v (s, waits) = (s, waits)

-- What the kind of the trade, new or resumed, asks for.
unfoldable pub proceed : Terminal → Server → State → ℕ → Kind → State × Outcome
unfolding after_download
proceed e v s fuel update = (s, ended 0)
proceed e v s fuel notify = finished e (notify_all v s)
proceed e v s fuel device_auth = after_download e v (download_files e s none fuel)
proceed e v s fuel terminfo_upload = after_download e v (download_files e s none fuel)
proceed e v s fuel getterm_task = after_download e v (download_files e s none fuel)
proceed e v s fuel urlgetfile = after_download e v (download_files e s none fuel)
proceed e v s fuel location_upload = after_download e v (download_files e s none fuel)

unfoldable pub requested : Terminal → Server → ℕ → State × Option Outcome → State × Outcome
unfolding proceed
requested e v fuel (s, none) = proceed e v s fuel s.trade.kind
requested e v fuel (s, some o) = (s, o)

-- Tms_CommProcess
unfoldable pub comm_process : Terminal → Server → State → ℕ → State × Outcome
unfolding requested request_term_task
comm_process e v s fuel = requested e v fuel (request_term_task v s)

-- TmsDownload_Api, behind the allocation of the buffers: the terminal is authenticated first.
unfoldable pub download_api : Terminal → Server → State → Bool → ℕ → State × Outcome
unfolding comm_process
download_api e v s authenticated fuel =
    let auth = v.exchange s.clock device_auth 0 in
    let s1 = ticked (with_kind s device_auth) in
    let info = v.exchange s1.clock terminfo_upload 0 in
    let s2 = ticked (with_kind s1 terminfo_upload) in
    if authenticated
    then comm_process e v s fuel
    else if auth == 0
    then if info == 0 then comm_process e v s2 fuel else (s2, ended info)
    else (s1, ended 3)
