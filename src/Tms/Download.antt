-- ===== src/Tms/Download.antt =====
-- tms_tms.c, Tms_DownloadUrlFilesOneByOne: the files of the tasks are downloaded in pieces, one file
-- after the other.

pub mod Pieces
pub mod Safety
pub mod Endless
use service_payment_bridge.Prelude.{
  ℕ, zero, suc, ◌+◌, ◌-◌, Bool, true, false, Option, none, some, List, ◌++◌, [], Bytes, is, cstr,
  length, take, drop, replicate, ltb, leb, ◌⊎◌, inl, inr, ◌==◌, if◌then◌else◌,
}
use service_payment_bridge.Tms.Exchange.{
  Turn, reply, lost, undefined, waiting, fails, returns, fetch, piece_len,
}
use service_payment_bridge.Tms.Exchange
use service_payment_bridge.Tms.Packet.{need_reconnect}
use service_payment_bridge.Tms.Store.{write_file}
use service_payment_bridge.Tms.Trade.{
  Trade, File, State, Terminal, Status, uncomplete, complete, updated, is_complete, file_at,
}

-- How a piece, a file or the whole download ends.
pub data After : Type 0 where
  fine broken_off : After
  stopped left : ℕ → After
  out_of_fuel : After

-- What stands in the zeroed buffer behind the blank line.
unfoldable pub piece : Bytes → ℕ → ℕ → Bytes
piece b n len = take len (drop (n + 4) (b ++ replicate 7168 0))

-- "Connection: close" in the reply: connect again.
unfoldable pub reconnected : Terminal → State → Option Bool → State × After
reconnected e s none = (s, broken_off)
reconnected e s (some false) = (s, fine)
reconnected e s (some true) =
    (record s { clock = s.clock + 1 }, if is 0 (e.connect s.clock) then fine else stopped 5)

-- The result of Tms_WriteFile, whose code is lost.
unfoldable pub stored : Terminal → State × ℕ → Option Bool → State × After
unfolding reconnected
stored e r close = if r.1 == 0 then reconnected e r.0 close else (r.0, stopped 13)

unfoldable pub store_reply : Terminal → State → File → Bytes → ℕ → State × After
unfolding stored piece
store_reply e s f b n =
    let close : Option Bool = need_reconnect (cstr b) in
    if ltb 0 (length b - (n + 4))
    then if ltb 7168 (n + 4 + piece_len f)
      then (s, broken_off)
      else stored e (write_file e s f (piece b n (piece_len f))) close
    else reconnected e s close

unfoldable pub taken : Terminal → State → File → Turn → State × After
unfolding store_reply
taken e s f (reply b n) = store_reply e s f b n
taken e s f lost = (s, stopped 7)
taken e s f undefined = (s, broken_off)
taken e s f waiting = (s, out_of_fuel)
taken e s f (fails c) = (s, stopped c)
taken e s f (returns c m) = (record s { trade = record s.trade { message = m } }, left c)

-- The answers taken so far; respMsg is cleared.
abbrev pub asked : State → ℕ → State
asked s t = record s { trade = record s.trade { message = [] }; clock = t }

-- One turn of the loop over a file's pieces.
unfoldable pub next_piece : Terminal → State → File → State × After
unfolding taken
next_piece e s f = let r = fetch e s.clock f in taken e (asked s r.1) f r.0

abbrev pub is_uncomplete : Status → Bool
is_uncomplete uncomplete = true
is_uncomplete complete = false
is_uncomplete updated = false

-- After a piece: `none` lets the loop go on.
unfoldable pub passed : Option File → Option After
passed none = some broken_off
passed (some f) =
    if ltb f.size f.start
    then some (stopped 25)
    else if is_complete f.status
    then some fine
    else none

-- The end of the turns that follow a piece.
abbrev pub one_more : Option After → After
one_more none = fine
one_more (some a) = a

-- What a piece lets the loop do: `p` is the state of the file, `rest` the turns that would follow.
unfoldable pub turned : State → Option After → State × Option After → State × Option After
turned s none rest = (rest.0, some (one_more rest.1))
turned s (some a) rest = (s, some a)

unfoldable pub after_piece :
    State → After → Option After → State × Option After → State × Option After
unfolding turned
after_piece s fine p rest = turned s p rest
after_piece s broken_off p rest = (s, some broken_off)
after_piece s (stopped k) p rest = (s, some (stopped k))
after_piece s (left k) p rest = (s, some (left k))
after_piece s out_of_fuel p rest = (s, some out_of_fuel)

-- "for - one file": the file with index `c`, from `i` on; `none` where no piece is asked for.
unfoldable pub pieces : Terminal → State → ℕ → ℕ → ℕ → State × Option After
unfolding passed after_piece
pieces e s c i zero = (s, some out_of_fuel)
pieces e s c i (suc fuel) = elim (file_at s c) [
  | none ↦ (s, some broken_off)
  | some f ↦
      let r : State × After = next_piece e s f in
      let rest = pieces e r.0 c (i + 6000) fuel in
      if ltb i f.size then after_piece r.0 r.1 (passed (file_at r.0 c)) rest else (s, none)
]

-- The download ends with a code, the connection closed unless it is 0; or it returns a code at once.
pub data Outcome : Type 0 where
  ended returned : ℕ → Outcome
  never_set overran waits : Outcome

-- "_tms_MD5Init", where a file starts.
unfoldable pub begun : State → File → State
begun s f = if f.start == 0 then record s { trade = record s.trade { hashed = [] } } else s

unfoldable pub finish : Option ℕ → Outcome
finish none = never_set
finish (some c) = ended c

-- What the end of a file's loop lets the loop over the files do: go on with a result, or end. A loop without
-- a turn leaves the result of the file before, which is not set at the first file.
unfoldable pub goes_on : Option ℕ → Option After → Option ℕ ⊎ Outcome
goes_on none none = inr never_set
goes_on (some c) none = if c == 0 then inl (some 0) else inr (ended c)
goes_on ret (some fine) = inl (some 0)
goes_on ret (some broken_off) = inr overran
goes_on ret (some (stopped c)) = inr (ended c)
goes_on ret (some (left c)) = inr (returned c)
goes_on ret (some out_of_fuel) = inr waits

unfoldable pub resume : Option ℕ ⊎ Outcome → State → (Option ℕ → State × Outcome) → State × Outcome
resume (inl ret) s rest = rest ret
resume (inr o) s rest = (s, o)

-- "while --all files": fuel bounds the files, and for each file the pieces. `ret` is the result so far.
unfoldable pub download_files : Terminal → State → Option ℕ → ℕ → State × Outcome
unfolding goes_on finish begun resume
download_files e s ret zero = (s, waits)
download_files e s ret (suc fuel) = elim (file_at s s.trade.current) [
  | none ↦ (s, finish ret)
  | some f ↦
      let r = pieces e (begun s f) s.trade.current f.start (suc fuel) in
      let rest : Option ℕ → State × Outcome = λ x. download_files e r.0 x fuel in
      if is_uncomplete f.status
      then if ltb f.size f.start then (s, ended 25) else resume (goes_on ret r.1) r.0 rest
      else (s, finish ret)
]
