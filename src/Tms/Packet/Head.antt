-- ===== src/Tms/Packet/Head.antt =====
-- tms_tms.c, Tms_getContentLen: the head of a reply announces its length, once it is there.
use service_payment_bridge.Prelude.{
  ℕ, zero, suc, ◌+◌, ◌-◌, ◌<◌, ◌≤◌, ◌≡◌, ◌≢◌, refl, sym, ap, false, some, [], ◌∷◌, ◌++◌, Bytes, ℤ,
  pos, cstr, find, find-append, find-none, length, length-drop, take, drop, ltb, leb, arith,
}
use service_payment_bridge.Http.Reply.{crlf}
use service_payment_bridge.Tms.Packet.{
  blank, content_length, no_contentlen, framed, announced, get_content_len, header_value,
  header_start, header_end, value_of, length_of,
}

abbrev pub NoNul : Bytes → Type 0
NoNul [] = Unit
NoNul (c ∷ s) = (c ≢ 0) × NoNul s

-- The head of a reply: it ends with its first blank line, and its first "Content-Length:" stands on a
-- line of its own, whose value has at most 15 bytes.
pub record Head (head : Bytes) : Type 0 where
  pub end : ℕ
  pub start : ℕ
  pub size : ℕ
  pub plain : NoNul head
  pub ends : find blank head ≡ some end
  pub whole : length head ≡ end + 4
  pub named : find content_length head ≡ some start
  pub line : find crlf (drop (start + 15) head) ≡ some size
  pub inside : start + 15 + size ≤ end
  pub short : size < 16

-- What the head announces as the length of the body.
abbrev pub body_length : {head : Bytes} → Head head → ℤ
body_length {head} h = announced (take h.size (drop (h.start + 15) head))

cstr-append : (s t : Bytes) → NoNul s → cstr (s ++ t) ≡ s ++ cstr t
unfolding cstr
cstr-append [] t h = refl
cstr-append (c ∷ s) t h = ground (arith, cstr-append s t h.1)

drop-append_le : (n : ℕ) (s t : Bytes) → n ≤ length s → drop n (s ++ t) ≡ drop n s ++ t
drop-append_le zero s t h = refl
drop-append_le (suc n) [] t h = absurd (omega arith)
drop-append_le (suc n) (c ∷ s) t h = drop-append_le n s t (omega arith)

take-append_le : (n : ℕ) (s t : Bytes) → n ≤ length s → take n (s ++ t) ≡ take n s
take-append_le zero s t h = refl
take-append_le (suc n) [] t h = absurd (omega arith)
take-append_le (suc n) (c ∷ s) t h = ap (λ r. c ∷ r) (take-append_le n s t (omega arith))

-- Whatever follows the head, its length is read.
get_content_len-Head :
    {head : Bytes} (h : Head head) (x : Bytes) (m : ℕ)
    → body_length h ≡ pos m
    → get_content_len (head ++ x) ≡ framed (pos (h.end + 4 + m))
unfolding get_content_len header_value header_start header_end value_of length_of
get_content_len-Head {head} h x m e =
    let room : length (drop (h.start + 15) head) ≡ length head - (h.start + 15) =
      length-drop (h.start + 15) head in
    let kept = drop-append_le (h.start + 15) head x (omega (arith, h.whole, h.inside)) in
    let cut =
      take-append_le h.size (drop (h.start + 15) head) x (omega (arith, h.whole, h.inside)) in
    let before : ltb h.end (h.start + 15 + h.size) ≡ false = ground (arith, h.inside) in
    let fits : leb 16 h.size ≡ false = ground (arith, h.short) in
    rw
      (
        find-append blank head x h.end h.ends,
        find-append content_length head x h.start h.named,
        kept,
        find-append crlf (drop (h.start + 15) head) x h.size h.line,
        header_start,
        header_end,
        value_of,
        length_of,
        before,
        fits,
        kept,
        cut,
        e,
      )
      refl

-- One list in two parts, cut at two places.
append_split :
    (p r s t : Bytes) → p ++ r ≡ s ++ t → length p ≤ length s → s ≡ p ++ drop (length p) s
append_split [] r s t e h = refl
append_split (c ∷ p) r [] t e h = absurd (omega arith)
append_split (c ∷ p) r (d ∷ s) t e h =
    let tails : p ++ r ≡ s ++ t = cc in
    let heads : c ≡ d = cc in let rest = append_split p r s t tails (omega arith) in cc

NoNul-prefix : (p r : Bytes) → NoNul (p ++ r) → NoNul p
NoNul-prefix [] r h = tt
NoNul-prefix (c ∷ p) r h = (h.0, NoNul-prefix p r h.1)

cstr_plain : (s : Bytes) → NoNul s → cstr s ≡ s
unfolding cstr
cstr_plain [] h = refl
cstr_plain (c ∷ s) h = ground (arith, cstr_plain s h.1)

-- A part that ends inside the head has no length yet.
pub inside_head :
    {head : Bytes} (h : Head head) (p rest body : Bytes)
    → p ++ rest ≡ head ++ body
    → length p < length head
    → get_content_len (cstr p) ≡ no_contentlen
unfolding get_content_len header_value length_of
inside_head {head} h p rest body e k =
    let split = append_split p rest head body e (omega arith) in
    let plain : NoNul (p ++ drop (length p) head) = rw (← split) h.plain in
    let ends : find blank (p ++ drop (length p) head) ≡ some h.end = rw (← split) h.ends in
    let missing = find-none blank p (drop (length p) head) h.end ends (omega (arith, h.whole)) in
    rw (cstr_plain p (NoNul-prefix p (drop (length p) head) plain), header_value, missing) refl

-- A part that holds the head has the length of the whole.
pub behind_head :
    {head : Bytes} (h : Head head) (p rest body : Bytes)
    → p ++ rest ≡ head ++ body
    → length head ≤ length p
    → body_length h ≡ pos (length body)
    → get_content_len (cstr p) ≡ framed (pos (h.end + 4 + length body))
behind_head {head} h p rest body e k l =
    let split = append_split head body p rest (sym e) k in
    rw (split, cstr-append head (drop (length head) p) h.plain)
      (get_content_len-Head h (cstr (drop (length head) p)) (length body) l)
