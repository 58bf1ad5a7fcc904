-- ===== src/Http/Reply/Lines.antt =====
-- httpDownload.c: what the headers of a reply say, by their names.
use service_payment_bridge.Prelude.{
  ℕ, ◌<◌, ◌≡◌, refl, ◌∙◌, ap, false, List, [], ◌∷◌, ◌++◌, Bytes, codes, length, take-append, arith,
  index_of, str_eq,
}
use service_payment_bridge.Config.Lines.{atoi}
use service_payment_bridge.Http.Payload.{Device, trim, skip_spaces, cut_spaces}
use service_payment_bridge.Http.Url.{parse_url}
use service_payment_bridge.Http.Url.Text.{Lacks, index_of-none, index_of-append}
use service_payment_bridge.Http.Reply.{
  Framing, chunked, known, Header, malformed, location, kept, parse_header, same_name, Headers,
  read_headers, payload, relocated, receive_error,
}
use service_payment_bridge.Http.Reply.Print.{
  print_headers, PlainLines, fold_headers, read_headers-print,
}

-- A header line as a server writes it.
pub data Line : Type 0 where
  content_length : Bytes → Line
  transfer_chunked : Line
  location_of : Bytes → Line
  named : Bytes → Bytes → Line
  bare : Bytes → Line

abbrev pub line_text : Line → Bytes
line_text (content_length v) = codes "Content-Length: " ++ v
line_text transfer_chunked = codes "Transfer-Encoding: chunked"
line_text (location_of v) = codes "Location: " ++ v
line_text (named n v) = n ++ b':' ∷ v
line_text (bare t) = t

abbrev pub texts : List Line → List Bytes
texts [] = []
texts (l ∷ ls) = line_text l ∷ texts ls

abbrev pub IsOther : Bytes → Type 0
IsOther n =
    (same_name n (codes "Location") ≡ false)
    × (same_name n (codes "Content-Length") ≡ false)
    × (same_name n (codes "Transfer-Encoding") ≡ false)

-- The values hold no blank; a name holds no ':' and is none of the three, in any case of its letters; a bare
-- line has no ':'.
abbrev pub IsLine : Line → Type 0
IsLine (content_length v) = Lacks 32 v
IsLine transfer_chunked = Unit
IsLine (location_of v) = Lacks 32 v
IsLine (named n v) = Lacks b':' n × IsOther (trim n)
IsLine (bare t) = Lacks b':' t

abbrev pub AreLines : List Line → Type 0
AreLines [] = Unit
AreLines (l ∷ ls) = IsLine l × AreLines ls

-- What the lines say together.
abbrev pub said : List Line → Framing → Bytes → ℕ → Headers
said [] f rest i = payload f rest i
said (content_length v ∷ ls) f rest i = said ls (known (atoi v)) rest i
said (transfer_chunked ∷ ls) f rest i = said ls chunked rest i
said (location_of v ∷ ls) f rest i = relocated (parse_url v) i
said (named n v ∷ ls) f rest i = said ls f rest i
said (bare t ∷ ls) f rest i = receive_error

cut_spaces-plain : (s : Bytes) → Lacks 32 s → cut_spaces s ≡ s
unfolding cut_spaces
cut_spaces-plain [] h = refl
cut_spaces-plain (c ∷ []) h = ground (arith, h.0)
cut_spaces-plain (c ∷ d ∷ s) h = rw (cut_spaces-plain (d ∷ s) h.1) (ground arith)

trim-plain : (s : Bytes) → Lacks 32 s → trim (32 ∷ s) ≡ s
unfolding trim skip_spaces cut_spaces
trim-plain [] h = refl
trim-plain (c ∷ s) h = ground (arith, h.0, cut_spaces-plain (c ∷ s) h)

parse_header-content_length :
    (v : Bytes) (f : Framing)
    → Lacks 32 v
    → parse_header (line_text (content_length v)) f ≡ kept (known (atoi v))
unfolding parse_header index_of str_eq trim cut_spaces skip_spaces
parse_header-content_length v f h = ap (λ t. kept (known (atoi t))) (trim-plain v h)

parse_header-location :
    (v : Bytes) (f : Framing)
    → Lacks 32 v
    → parse_header (line_text (location_of v)) f ≡ location (parse_url v)
unfolding parse_header index_of str_eq trim cut_spaces skip_spaces
parse_header-location v f h = ap (λ t. location (parse_url t)) (trim-plain v h)

parse_header-named :
    (n v : Bytes) (f : Framing)
    → Lacks b':' n
    → IsOther (trim n)
    → parse_header (n ++ b':' ∷ v) f ≡ kept f
unfolding parse_header
parse_header-named n v f h o =
    rw (index_of-append b':' n v h, parse_header, take-append n (b':' ∷ v), o.0, o.1, o.2) refl

parse_header-bare : (t : Bytes) (f : Framing) → Lacks b':' t → parse_header t f ≡ malformed
unfolding parse_header
parse_header-bare t f h = rw (index_of-none b':' t h, parse_header) refl

parse_header-chunked : (f : Framing) → parse_header (line_text transfer_chunked) f ≡ kept chunked
unfolding parse_header index_of str_eq trim skip_spaces cut_spaces
parse_header-chunked f = refl

-- What a line leads to, and what the lines behind it say.
abbrev led : Header → (Framing → Headers) → ℕ → Headers
led malformed r i = receive_error
led (location u) r i = relocated u i
led (kept g) r i = r g

fold_headers-led :
    (l : Bytes) (ls : List Bytes) (f : Framing) (rest : Bytes) (i : ℕ) (x : Header)
    → parse_header l f ≡ x
    → fold_headers (l ∷ ls) f rest i ≡ led x (λ g. fold_headers ls g rest i) i
fold_headers-led l ls f rest i malformed e = rw (fold_headers, e) refl
fold_headers-led l ls f rest i (location u) e = rw (fold_headers, e) refl
fold_headers-led l ls f rest i (kept g) e = rw (fold_headers, e) refl

fold_headers-said :
    (ls : List Line) (f : Framing) (rest : Bytes) (i : ℕ)
    → AreLines ls
    → fold_headers (texts ls) f rest i ≡ said ls f rest i
fold_headers-said [] f rest i h = refl
fold_headers-said (content_length v ∷ ls) f rest i h =
    fold_headers-led (line_text (content_length v)) (texts ls) f rest i _
      (parse_header-content_length v f h.0)
    ∙ fold_headers-said ls (known (atoi v)) rest i h.1
fold_headers-said (transfer_chunked ∷ ls) f rest i h =
    fold_headers-led (line_text transfer_chunked) (texts ls) f rest i _ (parse_header-chunked f)
    ∙ fold_headers-said ls chunked rest i h.1
fold_headers-said (location_of v ∷ ls) f rest i h =
    fold_headers-led (line_text (location_of v)) (texts ls) f rest i _
      (parse_header-location v f h.0)
fold_headers-said (named n v ∷ ls) f rest i h =
    fold_headers-led (line_text (named n v)) (texts ls) f rest i _
      (parse_header-named n v f h.0.0 h.0.1)
    ∙ fold_headers-said ls f rest i h.1
fold_headers-said (bare t ∷ ls) f rest i h =
    fold_headers-led (line_text (bare t)) (texts ls) f rest i _ (parse_header-bare t f h.0)

-- Headers that are in the buffer whole, in lines that are not empty and hold no carriage return and no NUL,
-- are read line by line, each by its name: "Content-Length: n" without a blank in n sets the total to n,
-- "Transfer-Encoding: chunked" announces chunks, and the last of these counts; the first "Location: url",
-- without a blank in it, ends the reading with the parts of the URL, and a line without ':' with an error;
-- a line of another name, in whatever letters, changes nothing. Exactly the bytes behind the empty line are
-- left, and no receive is made.
pub read_headers-lines :
    (d : Device) (ls : List Line) (rest : Bytes) (f : Framing) (i fuel : ℕ)
    → AreLines ls
    → PlainLines (texts ls)
    → length (texts ls) < fuel
    → read_headers d (print_headers (texts ls) rest) f i fuel ≡ said ls f rest i
read_headers-lines d ls rest f i fuel a p k =
    read_headers-print d (texts ls) rest f i fuel p k ∙ fold_headers-said ls f rest i a
