-- ===== src/Http/Url/Text.antt =====
-- httpDownload.c: what parseURL makes of a URL that is written from its parts.
use service_payment_bridge.Prelude.{
  take-append, drop-append, ℕ, suc, ◌≤◌, ◌<◌, ◌≡◌, ◌≢◌, refl, ap, Option, none, some, [], ◌∷◌, ◌++◌,
  Bytes, codes, length, drop, arith, false, ◌∙◌, leb, has_prefix, index_of, find, append-nil,
}
use service_payment_bridge.Http.Url.{
  Protocol, UrlEntry, max_domain_length, max_path_length, protocol_of, default_port, with_port,
  after_protocol, parse_url, parsed,
}

-- A URL by its parts, as a user writes it.
pub record Url : Type 0 where
  pub protocol : Protocol
  pub host : Bytes
  pub port : Option Bytes
  pub path : Option Bytes

abbrev scheme : Protocol → Bytes
scheme Protocol.http = codes "http://"
scheme Protocol.https = codes "https://"

abbrev port_text : Option Bytes → Bytes
port_text none = []
port_text (some t) = b':' ∷ t

abbrev path_text : Option Bytes → Bytes
path_text none = []
path_text (some t) = b'/' ∷ t

abbrev pub text : Url → Bytes
text u = scheme u.protocol ++ ((u.host ++ port_text u.port) ++ path_text u.path)

abbrev pub entry_of : Url → UrlEntry
entry_of u = record {
  protocol = u.protocol;
  domain = u.host;
  path = elim u.path [ none ↦ codes "/" | some t ↦ b'/' ∷ t ];
  port = elim u.port [ none ↦ default_port u.protocol | some t ↦ t ];
}

abbrev pub Lacks : ℕ → Bytes → Type 0
Lacks d [] = Unit
Lacks d (c ∷ s) = (c ≢ d) × Lacks d s

pub record IsUrl (u : Url) : Type 0 where
  pub host_colon : Lacks b':' u.host
  pub domain_slash : Lacks b'/' (u.host ++ port_text u.port)
  pub domain_length : length (u.host ++ port_text u.port) < max_domain_length
  pub port_length : length (port_text u.port) ≤ 8
  pub path_length : length (path_text u.path) < max_path_length

pub index_of-none : (d : ℕ) (s : Bytes) → Lacks d s → index_of d s ≡ none
unfolding index_of
index_of-none d [] h = refl
index_of-none d (c ∷ s) h = ground (arith, index_of-none d s h.1)

pub index_of-append : (d : ℕ) (s t : Bytes) → Lacks d s → index_of d (s ++ d ∷ t) ≡ some (length s)
unfolding index_of
index_of-append d [] t h = ground arith
index_of-append d (c ∷ s) t h = ground (arith, index_of-append d s t h.1)

pub drop-suc-append : (s : Bytes) (c : ℕ) (t : Bytes) → drop (suc (length s)) (s ++ c ∷ t) ≡ t
drop-suc-append [] c t = refl
drop-suc-append (d ∷ s) c t = drop-suc-append s c t

with_port-text :
    (p : Protocol) (host : Bytes) (port : Option Bytes) (path : Bytes)
    → Lacks b':' host
    → length (port_text port) ≤ 8
    → with_port p (host ++ port_text port) path
      ≡ parsed (record {
        protocol = p;
        domain = host;
        path = path;
        port = elim port [ none ↦ default_port p | some t ↦ t ];
      })
unfolding with_port
with_port-text p host none path h l =
    ap (λ x. with_port p x path) (append-nil host) ∙ rw (index_of-none b':' host h, with_port) refl
with_port-text p host (some t) path h l =
    let fits : leb 8 (length t) ≡ false = ground (arith, l) in
    rw
      (
        index_of-append b':' host t h,
        take-append host (b':' ∷ t),
        drop-suc-append host b':' t,
        with_port,
        fits,
      )
      refl

after_protocol-text :
    (p : Protocol) (domain : Bytes) (path : Option Bytes)
    → Lacks b'/' domain
    → length domain < max_domain_length
    → length (path_text path) < max_path_length
    → after_protocol p (domain ++ path_text path)
      ≡ with_port p domain (elim path [ none ↦ codes "/" | some t ↦ b'/' ∷ t ])
unfolding after_protocol
after_protocol-text p d none h k l =
    ap (after_protocol p) (append-nil d)
    ∙ rw (index_of-none b'/' d h, after_protocol) (ground arith)
after_protocol-text p d (some t) h k l =
    rw
      (
        index_of-append b'/' d t h,
        take-append d (b'/' ∷ t),
        drop-append d (b'/' ∷ t),
        after_protocol,
      )
      (ground arith)

parse_url-scheme : (p : Protocol) (s : Bytes) → parse_url (scheme p ++ s) ≡ after_protocol p s
unfolding parse_url protocol_of find has_prefix
parse_url-scheme Protocol.http s = refl
parse_url-scheme Protocol.https s = refl

-- Of "http" or "https", "://", a host without ':', with or without ":port" and with or without a
-- path that begins with '/', where host and port hold no '/' and are below 128 bytes together, the port is
-- below 8 bytes and the path is below 128 bytes, parseURL returns exactly the parts, with "/" for a missing path and 80 or 443 for
-- a missing port.
pub parse_url-text : (u : Url) → IsUrl u → parse_url (text u) ≡ parsed (entry_of u)
parse_url-text u h =
    parse_url-scheme u.protocol ((u.host ++ port_text u.port) ++ path_text u.path)
    ∙ after_protocol-text u.protocol (u.host ++ port_text u.port) u.path h.domain_slash
        h.domain_length h.path_length
    ∙ with_port-text u.protocol u.host u.port _ h.host_colon h.port_length
