-- ===== src/Http/Request.antt =====
-- httpDownload.c: __httpDownload, from the URL to the return, with the connections that it makes.
pub mod Sockets
use service_payment_bridge.Prelude.{
  ℕ, zero, suc, ◌+◌, ◌≡◌, refl, Bool, Option, none, some, List, [], ◌∷◌, ◌++◌, Bytes, codes, ℤ, pos,
  neg, pos_part, if◌then◌else◌, arith, Bool-cases, inl, inr,
}
use service_payment_bridge.Qris.Amount.{decimal}
use service_payment_bridge.Http.Chunked.{
  Chunked, chunked_total, chunked_error, chunked_waiting, read_chunks,
}
use service_payment_bridge.Http.Payload.{
  Device, Writes, Ended, receive_error, out_of_fuel, whole, receive_payload,
}
use service_payment_bridge.Http.Reply
use service_payment_bridge.Http.Reply.{
  StatusLine, status, ended, waiting, read_status, Framing, unknown, chunked, known, Headers,
  payload, relocated, header_waiting, read_headers,
}
use service_payment_bridge.Http.Url.{
  UrlEntry, Parsed, parsed, unsupported_url, url_domain_too_long, url_path_too_long, port_overrun,
  parse_url,
}

pub data Method : Type 0 where
  get post : Method

-- The other side: whether the k-th connect and its send succeed, and what it then answers.
pub record Peer : Type 0 where
  pub connects : ℕ → Bool
  pub sends : ℕ → Bool
  pub device : ℕ → Device

pub data Act : Type 0 where
  connected : UrlEntry → Act
  sent : Bytes → Act
  redirected disconnected : Act

-- "Prepare the HTTP request"; no end of the range stands for a negative one.
unfoldable pub request_text : Method → UrlEntry → ℕ → Option ℕ → Bytes
request_text m e start end =
    elim m [ get ↦ codes "GET " | post ↦ codes "POST " ]
    ++ (e.path
        ++ (codes " HTTP/1.1"
            ++ (13
                ∷ 10
                ∷ (codes "Host:"
                    ++ (e.domain
                        ++ (13
                            ∷ 10
                            ∷ (codes "Range:bytes="
                                ++ (decimal start
                                    ++ (b'-'
                                        ∷ (elim end [ none ↦ [] | some n ↦ decimal n ]
                                            ++ (13 ∷ 10 ∷ 13 ∷ 10 ∷ [])))))))))))

-- The device after `i` receives.
abbrev later : ℕ → Device → Device
later i d = record { recv = λ j max. d.recv (i + j) max }

-- What a request does, what it writes to the file and what it returns (`none`: the fuel is
-- used up, or port[8] is overrun).
abbrev pub Outcome : Type 0
Outcome = List Act × Writes × Option ℤ

abbrev code_of : Ended → ℤ → Option ℤ
code_of (whole n) total = some total
code_of receive_error total = some (neg 6)
code_of out_of_fuel total = none

abbrev chunked_code : Chunked → Option ℤ
chunked_code (chunked_total n) = some (pos n)
chunked_code chunked_error = some (neg 6)
chunked_code chunked_waiting = none

abbrev closing : Option ℤ → List Act
closing none = []
closing (some r) = disconnected ∷ []

-- "p is after header now": the payload, and the end of the function.
unfoldable pub receive_body :
    Device → (Bytes → Option ℕ) → ℕ → ℕ → Framing → Bytes → ℕ → ℕ → Outcome
receive_body d scan old start unknown p i fuel = (disconnected ∷ [], [], some (neg 6))
receive_body d scan old start (known total) p i fuel =
    let (ws, e) = receive_payload (later i d) start (pos_part total) p fuel in
    (closing (code_of e total), ws, code_of e total)
receive_body d scan old start chunked p i fuel =
    let (ws, c) = read_chunks d scan start p 0 0 old i fuel in
    (closing (chunked_code c), ws, chunked_code c)

pub data Replied : Type 0 where
  done : Outcome → Replied
  redirect : Parsed → Replied

-- The reply to a request that was sent.
unfoldable pub receive_reply : Device → (Bytes → Option ℕ) → ℕ → ℕ → ℕ → Replied
receive_reply d scan old start fuel = elim (read_status d [] 0 fuel) [
  | waiting ↦ done ([], [], none)
  | ended r ↦ done (disconnected ∷ [], [], some r)
  | status code rest i ↦ elim (read_headers d rest unknown i fuel) [
    | Reply.receive_error ↦ done (disconnected ∷ [], [], some (neg 6))
    | header_waiting ↦ done ([], [], none)
    | relocated u j ↦ redirect u
    | payload f p j ↦ done (receive_body d scan old start f p j fuel)
  ]
]

-- From the label relocate_301 on, for the k-th connection; `more` bounds the redirects.
unfoldable pub request_from :
    Peer → (Bytes → Option ℕ) → ℕ → Method → ℕ → Option ℕ → ℕ → Parsed → ℕ → ℕ → Outcome
request_from w scan old m start end fuel u k zero = ([], [], none)
request_from w scan old m start end fuel unsupported_url k (suc more) = ([], [], some (neg 1))
request_from w scan old m start end fuel url_domain_too_long k (suc more) = ([], [], some (neg 2))
request_from w scan old m start end fuel url_path_too_long k (suc more) = ([], [], some (neg 3))
request_from w scan old m start end fuel port_overrun k (suc more) = ([], [], none)
request_from w scan old m start end fuel (parsed e) k (suc more) =
    let text = request_text m e start end in
    if w.connects k
    then (if w.sends k
        then elim (receive_reply (w.device k) scan old start fuel) [
          | done r ↦ (connected e ∷ sent text ∷ r.0, r.1, r.2)
          | redirect v ↦
              let r = request_from w scan old m start end fuel v (suc k) more in
              (connected e ∷ sent text ∷ redirected ∷ r.0, r.1, r.2)
        ]
        else (connected e ∷ disconnected ∷ [], [], some (neg 5)))
    else ([], [], some (neg 4))

-- __httpDownload
unfoldable pub request :
    Peer → (Bytes → Option ℕ) → ℕ → Method → ℕ → Option ℕ → ℕ → ℕ → Bytes → Outcome
request w scan old m start end fuel more url =
    request_from w scan old m start end fuel (parse_url url) 0 more
