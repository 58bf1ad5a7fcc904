-- ===== src/Http/Request/Sockets.antt =====
-- httpDownload.c: the sockets that __httpDownload opens and closes.
use service_payment_bridge.Prelude.{
  ℕ, zero, suc, ◌+◌, ◌≡◌, refl, Option, none, some, List, [], ◌∷◌, Bytes, ℤ, neg, arith, Bool-cases,
  inl, inr,
}
use service_payment_bridge.Http.Payload.{Device}
use service_payment_bridge.Http.Reply
use service_payment_bridge.Http.Reply.{
  StatusLine, status, ended, waiting, read_status, Framing, unknown, chunked, known, Headers,
  payload, relocated, header_waiting, read_headers,
}
use service_payment_bridge.Http.Url.{
  UrlEntry, Parsed, parsed, unsupported_url, url_domain_too_long, url_path_too_long, port_overrun,
  parse_url,
}
use service_payment_bridge.Http.Request.{
  Method, Peer, Act, request_text, Outcome, closing, receive_body, Replied, receive_reply,
  request_from, request, connected, sent, redirected, disconnected, done, redirect,
}

-- How often a socket is opened, closed, and left behind by a redirect.
abbrev pub opens : Act → ℕ
opens (connected e) = 1
opens _ = 0

abbrev pub closes : Act → ℕ
closes disconnected = 1
closes _ = 0

abbrev pub redirects : Act → ℕ
redirects redirected = 1
redirects _ = 0

abbrev pub count : (Act → ℕ) → List Act → ℕ
count f [] = 0
count f (a ∷ acts) = f a + count f acts

-- One socket is closed exactly when the function returns.
abbrev ClosesOnce : List Act → Option ℤ → Type 0
ClosesOnce acts none = acts ≡ []
ClosesOnce acts (some r) = acts ≡ disconnected ∷ []

closing-ClosesOnce : (r : Option ℤ) → ClosesOnce (closing r) r
closing-ClosesOnce none = refl
closing-ClosesOnce (some r) = refl

receive_body-ClosesOnce :
    (d : Device) (scan : Bytes → Option ℕ) (old start : ℕ) (f : Framing) (p : Bytes) (i fuel : ℕ)
    → ClosesOnce
        (receive_body d scan old start f p i fuel).0
        (receive_body d scan old start f p i fuel).2
unfolding receive_body
receive_body-ClosesOnce d scan old start unknown p i fuel = refl
receive_body-ClosesOnce d scan old start (known t) p i fuel = closing-ClosesOnce _
receive_body-ClosesOnce d scan old start chunked p i fuel = closing-ClosesOnce _

abbrev RepliedOnce : Replied → Type 0
RepliedOnce (done r) = ClosesOnce r.0 r.2
RepliedOnce (redirect u) = Unit

headers_once :
    (d : Device) (scan : Bytes → Option ℕ) (old start fuel : ℕ) (h : Headers)
    → RepliedOnce (elim h as (λ x. Replied) [
      | Reply.receive_error ↦ done (disconnected ∷ [], [], some (neg 6))
      | header_waiting ↦ done ([], [], none)
      | relocated u j ↦ redirect u
      | payload f p j ↦ done (receive_body d scan old start f p j fuel)
    ])
headers_once d scan old start fuel Reply.receive_error = refl
headers_once d scan old start fuel header_waiting = refl
headers_once d scan old start fuel (relocated u j) = tt
headers_once d scan old start fuel (payload f p j) =
    receive_body-ClosesOnce d scan old start f p j fuel

receive_reply-RepliedOnce :
    (d : Device) (scan : Bytes → Option ℕ) (old start fuel : ℕ) (l : StatusLine)
    → read_status d [] 0 fuel ≡ l
    → RepliedOnce (receive_reply d scan old start fuel)
unfolding receive_reply
receive_reply-RepliedOnce d scan old start fuel waiting e = rw (e, receive_reply) refl
receive_reply-RepliedOnce d scan old start fuel (ended r) e = rw (e, receive_reply) refl
receive_reply-RepliedOnce d scan old start fuel (status c rest i) e =
    rw (e, receive_reply) (headers_once d scan old start fuel (read_headers d rest unknown i fuel))

-- What an outcome says of the sockets.
abbrev pub Leaks : Outcome → Type 0
Leaks (acts, ws, none) = Unit
Leaks (acts, ws, some r) = count opens acts ≡ count closes acts + count redirects acts

redirect-Leaks :
    (e : UrlEntry) (b : Bytes) (z : Outcome)
    → Leaks z
    → Leaks (connected e ∷ sent b ∷ redirected ∷ z.0, z.1, z.2)
redirect-Leaks e b (acts, ws, none) h = tt
redirect-Leaks e b (acts, ws, some r) h = omega (arith, h)

reply-Leaks :
    (e : UrlEntry) (b : Bytes) (x : Replied) (r : Parsed → Outcome)
    → RepliedOnce x
    → ((v : Parsed) → Leaks (r v))
    → Leaks (elim x as (λ y. Outcome) [
      | done q ↦ (connected e ∷ sent b ∷ q.0, q.1, q.2)
      | redirect v ↦ (connected e ∷ sent b ∷ redirected ∷ (r v).0, (r v).1, (r v).2)
    ])
reply-Leaks e b (done (acts, ws, none)) r h k = tt
reply-Leaks e b (done (acts, ws, some n)) r h k = rw h refl
reply-Leaks e b (redirect v) r h k = redirect-Leaks e b (r v) (k v)

request_from-Leaks :
    (w : Peer) (scan : Bytes → Option ℕ) (old : ℕ) (m : Method) (start : ℕ) (end : Option ℕ)
    (fuel : ℕ) (u : Parsed) (k more : ℕ)
    → Leaks (request_from w scan old m start end fuel u k more)
unfolding request_from
request_from-Leaks w scan old m start end fuel u k zero = tt
request_from-Leaks w scan old m start end fuel unsupported_url k (suc more) = refl
request_from-Leaks w scan old m start end fuel url_domain_too_long k (suc more) = refl
request_from-Leaks w scan old m start end fuel url_path_too_long k (suc more) = refl
request_from-Leaks w scan old m start end fuel port_overrun k (suc more) = tt
request_from-Leaks w scan old m start end fuel (parsed e) k (suc more) =
    elim (Bool-cases (w.connects k)) [
      | inl c ↦ elim (Bool-cases (w.sends k)) [
        | inl s ↦
            rw (c, request_from)
              (rw s (
                reply-Leaks e (request_text m e start end)
                  (receive_reply (w.device k) scan old start fuel)
                  (λ v. request_from w scan old m start end fuel v (suc k) more)
                  (receive_reply-RepliedOnce (w.device k) scan old start fuel _ refl)
                  (λ v. request_from-Leaks w scan old m start end fuel v (suc k) more)))
        | inr s ↦ rw (c, request_from) (rw s refl)
      ]
      | inr c ↦ rw (c, request_from) refl
    ]

-- Whatever the other side does, when __httpDownload returns, of the sockets that it opened those are
-- closed that it was not redirected from: each redirect leaves one open.
pub request-Leaks :
    (w : Peer) (scan : Bytes → Option ℕ) (old : ℕ) (m : Method) (start : ℕ) (end : Option ℕ)
    (fuel more : ℕ) (url : Bytes)
    → Leaks (request w scan old m start end fuel more url)
unfolding request
request-Leaks w scan old m start end fuel more url =
    request_from-Leaks w scan old m start end fuel (parse_url url) 0 more
