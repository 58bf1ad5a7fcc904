-- ===== src/Tms/Flow/Complete.antt =====
-- tms_tms.c, Tms_CommProcess: what the result 0 promises.
use service_payment_bridge.Prelude.{
  ℕ, zero, suc, ◌+◌, ◌≡◌, refl, true, false, Option, none, some, List, ◌∷◌, [], length, ◌==◌, inl,
  inr, arith, Bool-cases,
}
use service_payment_bridge.Tms.Download.{
  download_files, Outcome, ended, returned, never_set, overran, waits,
}
use service_payment_bridge.Tms.Trade.{
  Kind, device_auth, terminfo_upload, getterm_task, urlgetfile, notify, update, location_upload,
  Trade, File, State, Terminal,
}
use service_payment_bridge.Tms.Versions.{
  Resumed, resumed, all_deleted, beyond, never_read, compare_versions,
}
use service_payment_bridge.Tms.Flow.{
  Server, with_kind, ticked, resume_with, request_term_task, all_loaded, notify_files, notify_all,
  finished, after_download, proceed, requested, comm_process,
}

-- The files are there, and the trade is marked for the update.
abbrev pub Loaded : State → Type 0
Loaded s = (s.trade.kind ≡ update) × (all_loaded s.trade.files ≡ true)

-- What an end of the download promises.
abbrev pub Ready : State → Outcome → Type 0
Ready s (ended zero) = Loaded s
Ready s (ended (suc c)) = Unit
Ready s (returned c) = Unit
Ready s never_set = Unit
Ready s overran = Unit
Ready s waits = Unit

notify_files-files :
    (v : Server) (s : State) (fs : List File) (i : ℕ)
    → (notify_files v s fs i).0.trade.files ≡ s.trade.files
unfolding notify_files
notify_files-files v s [] i = refl
notify_files-files v s (f ∷ fs) i = elim (Bool-cases (v.exchange s.clock notify i == 0)) [
  | inl e ↦ rw e (notify_files-files v (ticked s) fs (i + 1))
  | inr e ↦ rw e refl
]

finished-Ready :
    (e : Terminal) (x : State × ℕ)
    → (x.1 ≡ 0 → all_loaded x.0.trade.files ≡ true)
    → Ready (finished e x).0 (finished e x).1
unfolding finished
finished-Ready e (s, zero) h = (refl, h refl)
finished-Ready e (s, suc c) h = tt

notify_all-loaded :
    (v : Server) (s : State)
    → (notify_all v s).1 ≡ 0
    → all_loaded (notify_all v s).0.trade.files ≡ true
unfolding notify_all
notify_all-loaded v s h = elim (Bool-cases (all_loaded s.trade.files)) [
  | inl e ↦ rw (e, notify_files-files v (with_kind s notify) s.trade.files 0) e
  | inr e ↦ absurd (ground (arith, e, h))
]

notified-Ready :
    (e : Terminal) (v : Server) (s : State)
    → Ready (finished e (notify_all v s)).0 (finished e (notify_all v s)).1
notified-Ready e v s = finished-Ready e (notify_all v s) (notify_all-loaded v s)

after_download-Ready :
    (e : Terminal) (v : Server) (x : State × Outcome)
    → Ready (after_download e v x).0 (after_download e v x).1
unfolding after_download
after_download-Ready e v (s, ended zero) = notified-Ready e v s
after_download-Ready e v (s, ended (suc c)) = tt
after_download-Ready e v (s, returned zero) = notified-Ready e v s
after_download-Ready e v (s, returned (suc c)) = tt
after_download-Ready e v (s, never_set) = tt
after_download-Ready e v (s, overran) = tt
after_download-Ready e v (s, waits) = tt

proceed-Ready :
    (e : Terminal) (v : Server) (s : State) (fuel : ℕ) (k : Kind)
    → (k ≡ update → Loaded s)
    → Ready (proceed e v s fuel k).0 (proceed e v s fuel k).1
unfolding proceed
proceed-Ready e v s fuel update h = h refl
proceed-Ready e v s fuel notify h = notified-Ready e v s
proceed-Ready e v s fuel device_auth h = after_download-Ready e v (download_files e s none fuel)
proceed-Ready e v s fuel terminfo_upload h = after_download-Ready e v (download_files e s none fuel)
proceed-Ready e v s fuel getterm_task h = after_download-Ready e v (download_files e s none fuel)
proceed-Ready e v s fuel urlgetfile h = after_download-Ready e v (download_files e s none fuel)
proceed-Ready e v s fuel location_upload h = after_download-Ready e v (download_files e s none fuel)

-- What a request leaves: a trade that is marked for the update only with its files, or a code.
abbrev Truthful : State × Option Outcome → Type 0
Truthful (s, none) = s.trade.kind ≡ update → Loaded s
Truthful (s, some o) = Ready s o

Ready-code : (s : State) (c : ℕ) → (c == 0) ≡ false → Ready s (ended c)
Ready-code s zero h = cc
Ready-code s (suc c) h = tt

compare_versions-resumed :
    (t : Trade) (o : Option Trade) (g : Trade) → compare_versions t o ≡ resumed g → o ≡ some g
unfolding compare_versions
compare_versions-resumed t none g h = cc
compare_versions-resumed t (some f) g h = ground (arith, h)

resume_with-Truthful :
    (s : State) (o : Option Trade) (x : Resumed)
    → s.trade.kind ≡ getterm_task
    → ((g : Trade) → o ≡ some g → g.kind ≡ update → all_loaded g.files ≡ true)
    → ((g : Trade) → x ≡ resumed g → o ≡ some g)
    → Truthful (resume_with s x)
unfolding resume_with
resume_with-Truthful s o (resumed g) k h r = λ q. (q, h g (r g refl) q)
resume_with-Truthful s o (all_deleted g) k h r = λ q. cc
resume_with-Truthful s o beyond k h r = tt
resume_with-Truthful s o never_read k h r = tt

request_term_task-Truthful :
    (v : Server) (s : State)
    → ((g : Trade) → v.status_file ≡ some g → g.kind ≡ update → all_loaded g.files ≡ true)
    → Truthful (request_term_task v s)
unfolding request_term_task
request_term_task-Truthful v s h =
    let t = ticked (with_kind s getterm_task) in
    let listed : State = record t { trade = record t.trade { files = v.tasks } } in
    elim (Bool-cases (v.exchange s.clock getterm_task 0 == 0)) [
      | inr e ↦ rw e (Ready-code t (v.exchange s.clock getterm_task 0) e)
      | inl e ↦ elim (Bool-cases (length v.tasks == 0)) [
        | inl g ↦ rw (e, g) tt
        | inr g ↦ elim (Bool-cases v.stored) [
          | inr q ↦ rw (e, g, q) (λ k. cc)
          | inl q ↦
              rw (e, g, q)
                (resume_with-Truthful listed v.status_file
                  (compare_versions listed.trade v.status_file) refl h
                  (λ a b. compare_versions-resumed listed.trade v.status_file a b))
        ]
      ]
    ]

requested-Ready :
    (e : Terminal) (v : Server) (fuel : ℕ) (x : State × Option Outcome)
    → Truthful x
    → Ready (requested e v fuel x).0 (requested e v fuel x).1
unfolding requested
requested-Ready e v fuel (s, none) t = proceed-Ready e v s fuel s.trade.kind t
requested-Ready e v fuel (s, some o) t = t

-- Where a status file that is marked for the update has all its files, a download that ends with 0, new
-- or resumed, leaves no file uncomplete and the trade marked for the update.
pub comm_process-Ready :
    (e : Terminal) (v : Server) (s : State) (fuel : ℕ)
    → ((g : Trade) → v.status_file ≡ some g → g.kind ≡ update → all_loaded g.files ≡ true)
    → Ready (comm_process e v s fuel).0 (comm_process e v s fuel).1
unfolding comm_process
comm_process-Ready e v s fuel h =
    requested-Ready e v fuel (request_term_task v s) (request_term_task-Truthful v s h)
