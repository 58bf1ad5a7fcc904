-- ===== src/Http/Reply/Print.antt =====
-- httpDownload.c: headers that a server sends are read line by line.
use service_payment_bridge.Prelude.{
  take-append, ℕ, zero, suc, ◌<◌, ◌≡◌, ◌≢◌, refl, ◌∙◌, false, some, List, [], ◌∷◌, ◌++◌, Bytes,
  cstr, length, drop, ◌==◌, arith, find, has_prefix,
}
use service_payment_bridge.Http.Payload.{Device}
use service_payment_bridge.Http.Reply.{
  crlf, Framing, Header, parse_header, Headers, read_headers, malformed, location, kept, payload,
  relocated, receive_error,
}

-- Header lines as a server sends them, and what follows them.
abbrev pub print_headers : List Bytes → Bytes → Bytes
print_headers [] rest = 13 ∷ 10 ∷ rest
print_headers (l ∷ ls) rest = l ++ 13 ∷ 10 ∷ print_headers ls rest

-- No carriage return and no NUL.
abbrev pub Plain : Bytes → Type 0
Plain [] = Unit
Plain (c ∷ s) = (c ≢ 13) × (c ≢ 0) × Plain s

abbrev pub PlainLines : List Bytes → Type 0
PlainLines [] = Unit
PlainLines (l ∷ ls) = Plain l × (0 < length l) × PlainLines ls

-- What the lines say, one after the other.
abbrev pub fold_headers : List Bytes → Framing → Bytes → ℕ → Headers
fold_headers [] f rest i = payload f rest i
fold_headers (l ∷ ls) f rest i = elim (parse_header l f) [
  | malformed ↦ receive_error
  | location u ↦ relocated u i
  | kept g ↦ fold_headers ls g rest i
]

pub find-crlf :
    (l rest : Bytes) → Plain l → find crlf (cstr (l ++ 13 ∷ 10 ∷ rest)) ≡ some (length l)
unfolding find has_prefix cstr
find-crlf [] rest h = refl
find-crlf (c ∷ l) rest h = ground (arith, find-crlf l rest h.2)

pub drop_line : (s : Bytes) (c e : ℕ) (t : Bytes) → drop (suc (suc (length s))) (s ++ c ∷ e ∷ t) ≡ t
drop_line [] c e t = refl
drop_line (d ∷ s) c e t = drop_line s c e t

not_empty : (l : Bytes) → 0 < length l → (length l == 0) ≡ false
not_empty [] k = absurd (omega arith)
not_empty (c ∷ l) k = ground arith

-- What follows a line, under what the rest of the lines is read as.
rest_read :
    {r r' : Framing → Headers} (x : Header) (i : ℕ)
    → ((g : Framing) → r g ≡ r' g)
    → elim x as (λ y. Headers) [
      | malformed ↦ receive_error
      | location u ↦ relocated u i
      | kept g ↦ r g
    ]
      ≡ elim x as (λ y. Headers) [
        | malformed ↦ receive_error
        | location u ↦ relocated u i
        | kept g ↦ r' g
      ]
rest_read malformed i h = refl
rest_read (location u) i h = refl
rest_read (kept g) i h = h g

-- One turn of the loop, by what the line says.
header_turn :
    (d : Device) (l : Bytes) (ls : List Bytes) (rest : Bytes) (f : Framing) (i fuel : ℕ)
    (x : Header)
    → Plain l
    → 0 < length l
    → parse_header l f ≡ x
    → read_headers d (print_headers (l ∷ ls) rest) f i (suc fuel) ≡ elim x [
      | malformed ↦ receive_error
      | location u ↦ relocated u i
      | kept g ↦ read_headers d (print_headers ls rest) g i fuel
    ]
unfolding read_headers
header_turn d l ls rest f i fuel malformed h k e =
    rw
      (
        find-crlf l (print_headers ls rest) h,
        take-append l (13 ∷ 10 ∷ print_headers ls rest),
        e,
        not_empty l k,
        read_headers,
      )
      refl
header_turn d l ls rest f i fuel (location u) h k e =
    rw
      (
        find-crlf l (print_headers ls rest) h,
        take-append l (13 ∷ 10 ∷ print_headers ls rest),
        e,
        not_empty l k,
        read_headers,
      )
      refl
header_turn d l ls rest f i fuel (kept g) h k e =
    rw
      (
        find-crlf l (print_headers ls rest) h,
        take-append l (13 ∷ 10 ∷ print_headers ls rest),
        e,
        not_empty l k,
        drop_line l 13 10 (print_headers ls rest),
        read_headers,
      )
      refl

headers_end :
    (d : Device) (rest : Bytes) (f : Framing) (i fuel : ℕ)
    → read_headers d (13 ∷ 10 ∷ rest) f i (suc fuel) ≡ payload f rest i
unfolding read_headers
headers_end d rest f i fuel = rw (find-crlf [] rest tt, read_headers) refl

-- The headers are read line by line.
pub read_headers-print :
    (d : Device) (ls : List Bytes) (rest : Bytes) (f : Framing) (i fuel : ℕ)
    → PlainLines ls
    → length ls < fuel
    → read_headers d (print_headers ls rest) f i fuel ≡ fold_headers ls f rest i
read_headers-print d ls rest f i zero h k = absurd (omega arith)
read_headers-print d [] rest f i (suc fuel) h k = headers_end d rest f i fuel
read_headers-print d (l ∷ ls) rest f i (suc fuel) h k =
    header_turn d l ls rest f i fuel (parse_header l f) h.0 h.1 refl
    ∙ rest_read (parse_header l f) i (λ g. read_headers-print d ls rest g i fuel h.2 (omega arith))
