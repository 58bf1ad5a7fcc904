-- ===== src/Http/Url.antt =====
-- httpDownload.c: parseURL, on the bytes of the URL without its NUL.
pub mod Text
use service_payment_bridge.Prelude.{
  ℕ, suc, ◌+◌, ◌≤◌, ◌<◌, ◌≡◌, ◌≢◌, refl, ap, ◌&&◌, Option, none, some, [], ◌∷◌, ◌++◌, Bytes, codes,
  length, take, drop, ltb, leb, ◌==◌, if◌then◌else◌, arith, ◌∙◌, Option-cases, inl, inr,
  length-take, length-drop, has_prefix, index_of, find, append-nil,
}

pub data Protocol : Type 0 where
  http https : Protocol

-- URL_ENTRY, each array as the string that it holds.
pub record UrlEntry : Type 0 where
  pub protocol : Protocol
  pub domain : Bytes
  pub path : Bytes
  pub port : Bytes

abbrev pub max_domain_length : ℕ
max_domain_length = 128

abbrev pub max_path_length : ℕ
max_path_length = 128

pub data Parsed : Type 0 where
  unsupported_url url_domain_too_long url_path_too_long : Parsed
  port_overrun : Parsed
  parsed : UrlEntry → Parsed

-- "Protocol analysis": the protocol and what follows it.
unfoldable pub protocol_of : Bytes → Option (Protocol × Bytes)
protocol_of url = elim (find (codes "://") url) [
  | none ↦ some (Protocol.http, url)
  | some n ↦
      if (n == 5) && has_prefix url (codes "https")
      then some (Protocol.https, drop (n + 3) url)
      else if (n == 4) && has_prefix url (codes "http")
      then some (Protocol.http, drop (n + 3) url)
      else none
]

unfoldable pub default_port : Protocol → Bytes
default_port Protocol.http = codes "80"
default_port Protocol.https = codes "443"

-- "Port analysis": a ':' cuts the domain. The port is copied into port[8] without a bound: `port_overrun`
-- is a port that overruns it.
unfoldable pub with_port : Protocol → Bytes → Bytes → Parsed
with_port p d path = elim (index_of b':' d) [
  | none ↦ parsed (record { protocol = p; domain = d; path = path; port = default_port p })
  | some n ↦
      if leb 8 (length (drop (suc n) d))
      then port_overrun
      else parsed (record { protocol = p; domain = take n d; path = path; port = drop (suc n) d })
]

-- "Domain analysis" and "Path analysis", with the offset of the first '/'.
unfoldable pub after_protocol : Protocol → Bytes → Parsed
after_protocol p rest = elim (index_of b'/' rest) [
  | none ↦
      if ltb (length rest) max_domain_length
      then with_port p rest (codes "/")
      else url_domain_too_long
  | some n ↦
      if ltb n max_domain_length
      then if ltb (length (drop n rest)) max_path_length
        then with_port p (take n rest) (drop n rest)
        else url_path_too_long
      else url_domain_too_long
]

-- parseURL
unfoldable pub parse_url : Bytes → Parsed
parse_url url = elim (protocol_of url) [
  | none ↦ unsupported_url
  | some (p, rest) ↦ after_protocol p rest
]
