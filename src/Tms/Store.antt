-- ===== src/Tms/Store.antt =====
-- tms_tms.c, Tms_WriteFile and Tms_DelFile: a piece of the current file is stored, and the whole file
-- is checked by its MD5.
pub mod Intact
pub mod Writes
pub mod Going
use service_payment_bridge.Prelude.{
  ℕ, suc, ◌+◌, ◌-◌, Bool, Option, none, some, List, ◌∷◌, ◌++◌, [], Bytes, ℤ, is, str_eq, length,
  take, set, ltb, ◌==◌, if◌then◌else◌,
}
use service_payment_bridge.Tms.Trade.{
  Trade, File, State, Terminal, Call, wrote, removed, saved, Status, complete, place, file_at,
}

abbrev pub put : State → File → State
put s f = record s { trade = record s.trade { files = set s.trade.files s.trade.current f } }

-- WriteFile_Api(_DOWN_STATUS_, &TmsTrade, 0, sizeof(TmsTrade)), and what it returns.
unfoldable pub save : Terminal → State → State × ℤ
save e s = (record s { log = saved s.trade ∷ s.log; clock = s.clock + 1 }, e.write s.clock)

-- Tms_DelFile
abbrev pub del_file : State → File → State
del_file s f = record s { log = removed (place f) ∷ s.log }

-- The file starts again, with the code that says why.
unfoldable pub restart : Terminal → State → File → ℕ → State × ℕ
unfolding save
restart e s f code = ((save e (del_file (put s (record f { start = 0 })) f)).0, code)

-- The last write of the status file.
unfoldable pub kept : Terminal → State → State × ℕ
unfolding save
kept e s = ((save e s).0, if is 0 (save e s).1 then 0 else 13)

-- The file is complete, and the next one is current.
abbrev pub finished : State → File → State
finished s f = record s {
  trade = record s.trade {
    files = set s.trade.files s.trade.current (record f { status = complete });
    current = s.trade.current + 1;
  };
}

-- "check md5"
unfoldable pub checked : Terminal → State → File → State × ℕ
unfolding restart kept
checked e s f =
    if str_eq f.md5 (take 16 (e.digest s.trade.hashed))
    then kept e (finished s f)
    else restart e s f 14

-- The piece is in the file.
unfoldable pub advanced : Terminal → State → File → Bytes → State × ℕ
unfolding checked restart kept
advanced e s f b =
    let g = record f { start = f.start + length b } in
    let t = put (record s { trade = record s.trade { hashed = s.trade.hashed ++ b } }) g in
    if g.start == g.size
    then checked e t g
    else if ltb g.size g.start
    then restart e t g 25
    else kept e t

-- Tms_WriteFile of the current file `f`.
unfoldable pub write_file : Terminal → State → File → Bytes → State × ℕ
unfolding advanced
write_file e s f b =
    if is 0 (e.write s.clock)
    then advanced e (record s { log = wrote (place f) f.start b ∷ s.log; clock = s.clock + 1 }) f b
    else (record s { clock = s.clock + 1 }, 13)
