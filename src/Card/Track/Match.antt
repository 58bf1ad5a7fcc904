-- ===== src/Card/Track/Match.antt =====
-- func.c, MatchTrack2AndPan: the card's number in track 2 and the one under tag 5A.
use service_payment_bridge.Prelude.{
  ℕ, zero, suc, ◌*◌, ◌≤◌, ◌≡◌, refl, ◌↔◌, true, false, some, [], ◌∷◌, ◌++◌, Bytes, length, take,
  replicate, str_eq, leb, ◌==◌, if◌then◌else◌, arith,
}
use service_payment_bridge.Card.Track.{
  Conversion, put_front, remove_tail_chars, mark_separator, up_to_separator, same_pan,
  match_track2_and_pan,
}

-- Decimal digits.
abbrev pub Digits : Bytes → Type 0
Digits [] = Unit
Digits (c ∷ s) = (b'0' ≤ c) × (c ≤ b'9') × Digits s

remove_tail_chars-replicate : (k : ℕ) → remove_tail_chars b'F' (replicate k b'F') ≡ []
unfolding remove_tail_chars
remove_tail_chars-replicate zero = refl
remove_tail_chars-replicate (suc k) = rw (remove_tail_chars-replicate k) refl

put_front_digit : (c : ℕ) (s : Bytes) → c ≤ b'9' → put_front b'F' c s ≡ c ∷ s
put_front_digit c [] h = ground arith
put_front_digit c (d ∷ s) h = refl

remove_tail_chars-Digits :
    (s : Bytes) (k : ℕ) → Digits s → remove_tail_chars b'F' (s ++ replicate k b'F') ≡ s
unfolding remove_tail_chars
remove_tail_chars-Digits [] k h = remove_tail_chars-replicate k
remove_tail_chars-Digits (c ∷ s) k h =
    rw (remove_tail_chars-Digits s k h.2) (put_front_digit c s h.1)

-- In front of the separator nothing is removed.
remove_tail_chars-track :
    (s r : Bytes)
    → Digits s
    → (t : Bytes) × (remove_tail_chars b'F' (s ++ b'D' ∷ r) ≡ s ++ b'D' ∷ t)
unfolding remove_tail_chars
remove_tail_chars-track [] r h = go (remove_tail_chars b'F' r)
  where
    go : (u : Bytes) → (t : Bytes) × (put_front b'F' b'D' u ≡ b'D' ∷ t)
    go [] = ([], refl)
    go (d ∷ u) = (d ∷ u, refl)
remove_tail_chars-track (c ∷ s) r h =
    let (t, e) = remove_tail_chars-track s r h.2 in
    (t, rw e (put_front_digit c (s ++ b'D' ∷ t) h.1))

mark_separator-track : (s t : Bytes) → Digits s → mark_separator (s ++ b'D' ∷ t) ≡ s ++ b'=' ∷ t
unfolding mark_separator
mark_separator-track [] t h = refl
mark_separator-track (c ∷ s) t h =
    let q : (c == b'D') ≡ false = ground arith in rw (q, mark_separator-track s t h.2) refl

up_to_separator-take :
    (n : ℕ) (s t : Bytes) → Digits s → up_to_separator n (s ++ b'=' ∷ t) ≡ take n s
unfolding up_to_separator
up_to_separator-take zero s t h = refl
up_to_separator-take (suc n) [] t h = refl
up_to_separator-take (suc n) (c ∷ s) t h =
    let q : (c == b'=') ≡ false = ground arith in rw (q, up_to_separator-take n s t h.2) refl

same_pan-Digits :
    (p r q : Bytes) (k : ℕ)
    → Digits p
    → Digits q
    → same_pan (p ++ b'D' ∷ r) (q ++ replicate k b'F') ≡ (if str_eq (take 19 p) q then 0 else 1)
unfolding same_pan
same_pan-Digits p r q k hp hq =
    let (t, e) = remove_tail_chars-track p r hp in
    rw
      (
        e,
        mark_separator-track p t hp,
        up_to_separator-take 19 p t hp,
        remove_tail_chars-Digits q k hq,
      )
      refl

pub str_eq_iff : (s t : Bytes) → (str_eq s t ≡ true) ↔ (s ≡ t)
unfolding str_eq
str_eq_iff [] [] = (λ h. refl, λ h. refl)
str_eq_iff [] (d ∷ t) = (λ h. cc, λ h. cc)
str_eq_iff (c ∷ s) [] = (λ h. cc, λ h. cc)
str_eq_iff (c ∷ s) (d ∷ t) =
    (λ h. ground (arith, h, (str_eq_iff s t).0), λ h. ground (arith, h, (str_eq_iff s t).1))

-- Where track 2 reads as the digits `p`, 'D' and a rest, and tag 5A as the digits `q` with padding, and both
-- have at most 127 bytes: they match exactly if `q` is `p`, or its first 19 digits where `p` is longer.
pub match_track2_and_pan_lem :
    (v : Conversion) (track pan p r q : Bytes) (k : ℕ)
    → length track ≤ 127
    → length pan ≤ 127
    → v.bcd_to_asc track (length track * 2) ≡ p ++ b'D' ∷ r
    → v.bcd_to_asc pan (length pan * 2) ≡ q ++ replicate k b'F'
    → Digits p
    → Digits q
    → (match_track2_and_pan v track pan ≡ some 0) ↔ (take 19 p ≡ q)
unfolding match_track2_and_pan
match_track2_and_pan_lem v track pan p r q k ht hp et ep dp dq =
    let a : leb (length track) 127 ≡ true = ground arith in
    let b : leb (length pan) 127 ≡ true = ground arith in
    rw (a, b, et, ep, same_pan-Digits p r q k dp dq)
      (
        λ h. (str_eq_iff (take 19 p) q).0 (ground (arith, h)),
        λ h. ground (arith, (str_eq_iff (take 19 p) q).1 h),
      )
