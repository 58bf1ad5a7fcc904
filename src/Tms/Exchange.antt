-- ===== src/Tms/Exchange.antt =====
-- tms_tms.c, Tms_DownloadUrlFilesOneByOne: one request for a piece of a file, and its reply. `waiting`
-- means that the fuel ran out, `undefined` that a buffer was overrun.

use service_payment_bridge.Prelude.{
  ℕ, zero, suc, ◌+◌, ◌-◌, min, Bool, true, false, Option, none, some, ◌++◌, [], Bytes, ℤ, pos,
  negsuc, is, codes, cstr, find, length, take, ltb, leb, ◌==◌, if◌then◌else◌,
}
use service_payment_bridge.Http.Payload.{Device, bytes, timed_out, broken}
use service_payment_bridge.Http.Reply.{room}
use service_payment_bridge.Qris.Amount.{decimal}
use service_payment_bridge.Tms.Packet.{
  blank, ContentLen, no_contentlen, format_wrong, tmp_overrun, framed, get_content_len,
  get_domain_name,
}
use service_payment_bridge.Tms.Trade.{File, Terminal}

-- At most EXFCONTENT_LEN bytes.
unfoldable pub piece_len : File → ℕ
piece_len f = min (f.size - f.start) 6000

-- The host of the file's address, if it fits dname[64].
unfoldable pub host_of : Option Bytes → Option Bytes
host_of none = some []
host_of (some d) = if ltb (length d) 64 then some d else none

abbrev header_lines : Bytes
header_lines =
    codes "Accept: image/gif, image/x-xbitmap, image/jpeg, image/pjpeg, */*\r\n"
    ++ codes "User-Agent: Mozilla/4.0 (compatible; MSIE 5.5; Windows 98)\r\n"

-- The range that is missing next, first and last byte.
unfoldable pub range_request : File → Bytes → Bytes
range_request f host =
    codes "GET "
    ++ (f.path
        ++ (codes " HTTP/1.1\r\n"
            ++ (header_lines
                ++ (codes "Range: bytes="
                    ++ (decimal f.start
                        ++ (codes "-"
                            ++ (decimal (f.start + piece_len f - 1)
                                ++ (codes "\r\nHost: " ++ (host ++ codes "\r\n\r\n")))))))))

-- What one request gives: a whole reply with the offset of its blank line, no bytes, a code that ends
-- the loops, a code that is returned at once.
pub data Turn : Type 0 where
  reply : Bytes → ℕ → Turn
  lost undefined waiting : Turn
  fails : ℕ → Turn
  returns : ℕ → Bytes → Turn

-- Tms_ReConnect: two tries at most. Every call of the terminal takes one answer.
unfoldable pub reconnect : Terminal → ℕ → Bool × ℕ
reconnect e t = if is 0 (e.connect t) then (true, t + 1) else (is 0 (e.connect (t + 1)), t + 1 + 1)

-- dev_send; on 0xff, Tms_ReSend.
unfoldable pub resend : Terminal → Bytes → Bool × ℕ → Bool × ℕ
resend e text (true, t) = (is 0 (e.send t text), t + 1)
resend e text (false, t) = (false, t)

unfoldable pub ask : Terminal → ℕ → Bytes → Bool × ℕ
unfolding resend reconnect
ask e t text =
    if is 0 (e.send t text)
    then (true, t + 1)
    else if is 255 (e.send t text)
    then resend e text (reconnect e (t + 1))
    else (false, t + 1)

-- "HTTP/1.1 200 OK" or "206" on the first line, which tmp[32] holds; respMsg[32] keeps another line.
unfoldable pub status_ok : Bytes → Bool
status_ok line = elim (find (codes "200") line) [
  | some k ↦ true
  | none ↦ elim (find (codes "206") line) [ some k ↦ true | none ↦ false ]
]

-- `none`: receive on.
unfoldable pub compared : Bytes → ℕ → ℤ → Option Turn
compared b n (negsuc t) = some (fails 7)
compared b n (pos t) =
    if ltb t (length b) then some (fails 7) else if length b == t then some (reply b n) else none

unfoldable pub first_line : Bytes → ℕ → ℤ → Option ℕ → Option Turn
unfolding compared status_ok
first_line b n t none = some (returns 8 [])
first_line b n t (some zero) = some undefined
first_line b n t (some (suc m)) =
    if leb 32 m
    then some undefined
    else if status_ok (take m b)
    then compared b n t
    else some (returns 2 (take 31 (take m b)))

unfoldable pub judged : Bytes → Option ℕ → ContentLen → Option Turn
unfolding first_line
judged b n no_contentlen = none
judged b n format_wrong = none
judged b n tmp_overrun = some undefined
judged b none (framed t) = some undefined
judged b (some n) (framed t) = first_line b n t (find (codes "\n") (cstr b))

-- "while(1)": fuel bounds the receives.
unfoldable pub receive_reply : Device → Bytes → ℕ → ℕ → Turn × ℕ
unfolding judged
receive_reply d b i zero = (waiting, i)
receive_reply d b i (suc fuel) = elim (d.recv i (room b)) [
  | timed_out ↦ (lost, i + 1)
  | broken ↦ (lost, i + 1)
  | bytes r ↦
      let more = receive_reply d (b ++ r) (i + 1) fuel in
      let judgement : Option Turn =
        judged (b ++ r) (find blank (cstr (b ++ r))) (get_content_len (cstr (b ++ r))) in
      if length r == 0 then (lost, i + 1) else elim judgement [ none ↦ more | some a ↦ (a, i + 1) ]
]

-- One request, from REQUESTFILE on; 2048 receives are enough.
unfoldable pub attempt : Terminal → ℕ → File → Turn × ℕ
unfolding receive_reply ask host_of
attempt e t f = elim (host_of (get_domain_name f.path)) [
  | none ↦ (undefined, t)
  | some host ↦
      let asked : Bool × ℕ = ask e t (range_request f host) in
      if asked.0 then receive_reply e.device [] asked.1 2048 else (fails 6, asked.1)
]

-- "receive failed twice for same request ,then failed"
unfoldable pub second : Turn × ℕ → Turn × ℕ
second (lost, t) = (fails 7, t)
second (reply b n, t) = (reply b n, t)
second (undefined, t) = (undefined, t)
second (waiting, t) = (waiting, t)
second (fails c, t) = (fails c, t)
second (returns c m, t) = (returns c m, t)

unfoldable pub retried : Turn × ℕ → (ℕ → Turn × ℕ) → Turn × ℕ
unfolding second
retried (lost, t) again = second (again t)
retried (reply b n, t) again = (reply b n, t)
retried (undefined, t) again = (undefined, t)
retried (waiting, t) again = (waiting, t)
retried (fails c, t) again = (fails c, t)
retried (returns c m, t) again = (returns c m, t)

unfoldable pub fetch : Terminal → ℕ → File → Turn × ℕ
unfolding attempt retried
fetch e t f = retried (attempt e t f) (λ u. attempt e u f)
