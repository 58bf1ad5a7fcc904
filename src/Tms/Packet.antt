-- ===== src/Tms/Packet.antt =====
-- tms_tms.c: the framing of the server's replies (Tms_Trim, Tms_getContentLen, Tms_NeedReConnect,
-- Tms_getDomainName, Tms_RecvPacket). The reply's buffer is zeroed before a receive, so the C string in
-- it is that of the bytes received.
pub mod Bounds
pub mod Head
pub mod Fragments
use service_payment_bridge.Prelude.{
  ℕ, zero, suc, ◌+◌, ◌-◌, Bool, true, false, ◌&&◌, ◌||◌, Option, none, some, [], ◌∷◌, ◌++◌, Bytes,
  ℤ, pos, negsuc, codes, cstr, str_eq, find, length, take, drop, ltb, leb, ◌==◌, if◌then◌else◌,
}
use service_payment_bridge.Config.Lines.{atoi}
use service_payment_bridge.Http.Payload.{Device, bytes, timed_out, broken, trim}
use service_payment_bridge.Http.Reply.{crlf, room}

abbrev pub blank : Bytes
blank = 13 ∷ 10 ∷ 13 ∷ 10 ∷ []

-- -1 on an empty string.
unfoldable pub tms_trim : Bytes → Option Bytes
tms_trim s = if length s == 0 then none else some (trim s)

-- The value of a header that the search finds first: the text up to its line's end, if that is not
-- behind the blank line. `too_long` is a value that does not fit tmp[16] as a string.
pub data Value : Type 0 where
  no_blank no_header no_end behind too_long : Value
  value : Bytes → ℕ → Value

unfoldable pub value_of : Bytes → ℕ → ℕ → ℕ → Value
value_of p n s j =
    if ltb n (s + j) then behind else if leb 16 j then too_long else value (take j (drop s p)) n

unfoldable pub header_end : Bytes → ℕ → ℕ → Value
unfolding value_of
header_end p n s = elim (find crlf (drop s p)) [ none ↦ no_end | some j ↦ value_of p n s j ]

unfoldable pub header_start : Bytes → Bytes → ℕ → Value
unfolding header_end
header_start name p n = elim (find name p) [
  | none ↦ no_header
  | some k ↦ header_end p n (k + length name)
]

unfoldable pub header_value : Bytes → Bytes → Value
unfolding header_start
header_value name p = elim (find blank p) [ none ↦ no_blank | some n ↦ header_start name p n ]

-- n + c
abbrev pub plus : ℕ → ℤ → ℤ
plus n (pos m) = pos (n + m)
plus n (negsuc m) = if leb (m + 1) n then pos (n - (m + 1)) else negsuc (m - n)

pub data ContentLen : Type 0 where
  no_contentlen format_wrong tmp_overrun : ContentLen
  framed : ℤ → ContentLen

abbrev pub content_length : Bytes
content_length = codes "Content-Length:"

-- *Clen
unfoldable pub announced : Bytes → ℤ
unfolding tms_trim
announced v = elim (tms_trim v) [ none ↦ pos 0 | some t ↦ atoi t ]

unfoldable pub length_of : Value → ContentLen
length_of no_blank = no_contentlen
length_of no_header = no_contentlen
length_of no_end = format_wrong
length_of behind = format_wrong
length_of too_long = tmp_overrun
length_of (value v n) = framed (plus (n + 4) (announced v))

-- Tms_getContentLen, with *Tlen.
unfoldable pub get_content_len : Bytes → ContentLen
unfolding header_value length_of
get_content_len p = length_of (header_value content_length p)

-- Tms_NeedReConnect: the reply's "Connection:" is "close". A value too long for tmp[16] has no answer.
unfoldable pub closes : Value → Option Bool
unfolding tms_trim
closes no_blank = some false
closes no_header = some false
closes no_end = some false
closes behind = some false
closes too_long = none
closes (value v n) = elim (tms_trim v) [
  | none ↦ some false
  | some t ↦ some (str_eq t (codes "close"))
]

unfoldable pub need_reconnect : Bytes → Option Bool
unfolding header_value closes
need_reconnect p = closes (header_value (codes "Connection:") p)

-- Tms_getDomainName: the text between the first "//" and the next "/".
unfoldable pub get_domain_name : Bytes → Option Bytes
get_domain_name url = elim (find (codes "//") url) [
  | none ↦ none
  | some k ↦ elim (find (codes "/") (drop (k + 2) url)) [
    | none ↦ none
    | some j ↦ some (take j (drop (k + 2) url))
  ]
]

-- Tms_RecvPacket. A failure closes the connection; `overrun` is a write past tmp[16]; `waiting` means
-- that the fuel ran out.
pub data Packet : Type 0 where
  packet : Bytes → ℕ → Packet
  receive_error overrun waiting : Packet

unfoldable pub judged : Bytes → ℕ → ContentLen → Packet → Packet
judged b i no_contentlen more = more
judged b i format_wrong more = more
judged b i tmp_overrun more = overrun
judged b i (framed (negsuc t)) more = receive_error
judged b i (framed (pos t)) more =
    if ltb t (length b) then receive_error else if length b == t then packet b i else more

-- "while(1)", from the i-th receive on; fuel bounds the receives.
unfoldable pub recv_packet : Device → Bytes → ℕ → ℕ → Packet
unfolding judged
recv_packet d b i zero = waiting
recv_packet d b i (suc fuel) = elim (d.recv i (room b)) [
  | timed_out ↦ receive_error
  | broken ↦ receive_error
  | bytes r ↦
      let more = recv_packet d (b ++ r) (suc i) fuel in
      if length r == 0
      then receive_error
      else judged (b ++ r) (suc i) (get_content_len (cstr (b ++ r))) more
]
