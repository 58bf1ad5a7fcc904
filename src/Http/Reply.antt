-- ===== src/Http/Reply.antt =====
-- httpDownload.c, __httpDownload: the status line and the headers of a reply. The buffer is the list of
-- the bytes received and not yet read; the receives count on from the i-th.
pub mod Print
pub mod Lines
use service_payment_bridge.Prelude.{
  ℕ, zero, suc, ◌+◌, ◌-◌, ◌<◌, ◌≡◌, ◌≢◌, refl, ap, ◌∙◌, Bool, false, ◌&&◌, none, some, List, [],
  ◌∷◌, ◌++◌, Bytes, ℤ, pos, negsuc, neg, is, codes, cstr, length, take, drop, set, leb, ◌==◌,
  if◌then◌else◌, arith, str_eq, index_of, find, has_prefix,
}
use service_payment_bridge.Config.Lines.{atoi}
use service_payment_bridge.Http.Payload.{Device, bytes, timed_out, broken, receive_buf_size, trim}
use mathlib.Core.List.{map}
use service_payment_bridge.Http.Url.{Parsed, parse_url}

abbrev pub crlf : Bytes
crlf = 13 ∷ 10 ∷ []

-- The room that is left in the buffer, less one byte for the NUL.
abbrev pub room : Bytes → ℕ
room b = receive_buf_size - 1 - length b

-- The status line: the code, the rest of the buffer and the number of receives; a timeout returns 0,
-- any other failure a negative code.
pub data StatusLine : Type 0 where
  status : ℕ → Bytes → ℕ → StatusLine
  ended : ℤ → StatusLine
  waiting : StatusLine

-- -r
abbrev minus : ℤ → ℤ
minus (pos n) = neg n
minus (negsuc n) = pos (n + 1)

-- "p1[4] = 0; ret = atoi(p1 + 1)", in a buffer where the line ends at `n` and the space is at `k`.
unfoldable pub status_code : Bytes → ℕ → ℕ → ℕ → StatusLine
status_code b n k i =
    let cut = set (set b n 0) (k + 4) 0 in
    let code = atoi (cstr (drop (k + 1) cut)) in
    if is 200 code
    then status 200 (drop (n + 2) cut) i
    else if is 301 code
    then status 301 (drop (n + 2) cut) i
    else if is 206 code
    then status 206 (drop (n + 2) cut) i
    else ended (minus code)

-- "Check HTTP status": fuel bounds the receives.
unfoldable pub read_status : Device → Bytes → ℕ → ℕ → StatusLine
read_status d b i zero = waiting
read_status d b i (suc fuel) = elim (d.recv i (room b)) [
  | timed_out ↦ ended (pos 0)
  | broken ↦ ended (neg 6)
  | bytes r ↦
      let more = read_status d (b ++ r) (suc i) fuel in
      elim (find crlf (cstr (b ++ r))) [
        | none ↦ more
        | some n ↦ elim (index_of 32 (take n (b ++ r))) [
          | none ↦ ended (neg 6)
          | some k ↦ status_code (b ++ r) n k (suc i)
        ]
      ]
]

-- payload_flag, with the total of a Content-Length.
pub data Framing : Type 0 where
  unknown chunked : Framing
  known : ℤ → Framing

pub data Header : Type 0 where
  malformed : Header
  location : Parsed → Header
  kept : Framing → Header

abbrev pub lower : ℕ → ℕ
lower c = if leb b'A' c && leb c b'Z' then c + 32 else c

-- `strcasecmp(s, t) == 0`
abbrev pub same_name : Bytes → Bytes → Bool
same_name s t = str_eq (map lower s) (map lower t)

-- One header, without its line end.
unfoldable pub parse_header : Bytes → Framing → Header
parse_header line f = elim (index_of b':' line) [
  | none ↦ malformed
  | some k ↦
      let name = trim (take k line) in
      let value = trim (drop (k + 1) line) in
      if same_name name (codes "Location")
      then location (parse_url value)
      else if same_name name (codes "Content-Length")
      then kept (known (atoi value))
      else if same_name name (codes "Transfer-Encoding")
      then if str_eq value (codes "chunked") then kept chunked else kept f
      else kept f
]

-- The end of the headers: the framing, the bytes of the payload that are there, the receives so far.
pub data Headers : Type 0 where
  payload : Framing → Bytes → ℕ → Headers
  relocated : Parsed → ℕ → Headers
  receive_error header_waiting : Headers

-- "Check HTTP headers": fuel bounds the turns of the loop.
unfoldable pub read_headers : Device → Bytes → Framing → ℕ → ℕ → Headers
read_headers d p f i zero = header_waiting
read_headers d p f i (suc fuel) = elim (find crlf (cstr p)) [
  | none ↦ elim (d.recv i (room p)) [
    | timed_out ↦ receive_error
    | broken ↦ receive_error
    | bytes r ↦ read_headers d (p ++ r) f (suc i) fuel
  ]
  | some n ↦ if n == 0 then payload f (drop 2 p) i else elim (parse_header (take n p) f) [
    | malformed ↦ receive_error
    | location u ↦ relocated u i
    | kept g ↦ read_headers d (drop (suc (suc n)) p) g i fuel
  ]
]
