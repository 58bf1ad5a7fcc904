-- ===== src/Card/Track.antt =====
-- func.c: RemoveTailChars, MatchTrack2AndPan, GetPanNumber, GetCardNoFromTrack2Data; EmvCommon.c:
-- GetCardFromTrack. A hexadecimal text has no NUL in it.
pub mod Match
use service_payment_bridge.Prelude.{
  ℕ, zero, suc, ◌+◌, ◌-◌, ◌*◌, min, Bool, true, false, ◌||◌, ◌&&◌, Option, none, some, [], ◌∷◌,
  ◌++◌, Bytes, length, take, drop, set, get_or, index_of, str_eq, ltb, leb, ◌==◌, if◌then◌else◌,
}

-- The platform's conversions, with the number of digits asked for: BcdToAsc_Api and FormBcdToAsc.
pub record Conversion : Type 0 where
  pub bcd_to_asc : Bytes → ℕ → Bytes
  pub form_bcd_to_asc : Bytes → ℕ → Bytes

-- RemoveTailChars: a text without the run of `c` at its end.
abbrev pub put_front : ℕ → ℕ → Bytes → Bytes
put_front c d [] = if d == c then [] else d ∷ []
put_front c d (e ∷ s) = d ∷ e ∷ s

unfoldable pub remove_tail_chars : ℕ → Bytes → Bytes
remove_tail_chars c [] = []
remove_tail_chars c (d ∷ s) = put_front c d (remove_tail_chars c s)

-- The first 'D' becomes '='.
unfoldable pub mark_separator : Bytes → Bytes
mark_separator [] = []
mark_separator (c ∷ s) = let rest = mark_separator s in if c == b'D' then b'=' ∷ s else c ∷ rest

-- The text up to '=', at most `n` bytes of it.
unfoldable pub up_to_separator : ℕ → Bytes → Bytes
up_to_separator zero s = []
up_to_separator (suc n) [] = []
up_to_separator (suc n) (c ∷ s) =
    let rest = up_to_separator n s in if c == b'=' then [] else c ∷ rest

unfoldable pub same_pan : Bytes → Bytes → ℕ
unfolding remove_tail_chars mark_separator up_to_separator
same_pan track pan =
    if str_eq (up_to_separator 19 (mark_separator (remove_tail_chars b'F' track)))
      (remove_tail_chars b'F' pan)
    then 0
    else 1

-- MatchTrack2AndPan; `none` is a text that does not fit its 256 bytes.
unfoldable pub match_track2_and_pan : Conversion → Bytes → Bytes → Option ℕ
unfolding same_pan
match_track2_and_pan v track pan =
    if leb (length track) 127 && leb (length pan) 127
    then some (same_pan (v.bcd_to_asc track (length track * 2)) (v.bcd_to_asc pan (length pan * 2)))
    else none

-- A text written over the front of an array.
abbrev pub overlay : Bytes → Bytes → Bytes
overlay s a = s ++ drop (length s) a

-- "for (i = tlvLen * 2 - 1; i >= 0; --i)": the padding becomes NUL.
unfoldable pub strip_padding : ℕ → Bytes → Bytes
strip_padding zero a = a
strip_padding (suc i) a =
    let rest = strip_padding i (set a i 0) in
    if get_or a i 0 == b'F' || get_or a i 0 == b'f' then rest else a

-- The text in front of the last 'D' of the first `n` bytes.
unfoldable pub before_last : ℕ → Bytes → Option Bytes
before_last zero s = none
before_last (suc i) s =
    let rest = before_last i s in if get_or s i 0 == b'D' then some (take i s) else rest

-- GetPanNumber: what the kernel holds under tags 5A and 57, and MainAcc[22]. `none` is a write past it.
unfoldable pub pan_from_track2 : Conversion → Option Bytes → Bytes → Option Bytes
unfolding before_last
pan_from_track2 v none acc = some acc
pan_from_track2 v (some b) acc = elim (before_last (length b * 2) (v.bcd_to_asc b (length b * 2))) [
  | none ↦ some acc
  | some p ↦ if ltb 22 (length p) then none else some (overlay p acc)
]

unfoldable pub get_pan_number : Conversion → (ℕ → Option Bytes) → Bytes → Option Bytes
unfolding pan_from_track2 strip_padding
get_pan_number v tlv acc = elim (tlv 0x5A) [
  | none ↦ pan_from_track2 v (tlv 0x57) acc
  | some b ↦
      if ltb 22 (length b * 2)
      then none
      else some (strip_padding (length b * 2) (overlay (v.bcd_to_asc b (length b * 2)) acc))
]

-- GetCardNoFromTrack2Data: the text up to '=', if it is among the first 20 bytes.
unfoldable pub get_card_no_from_track2_data : Conversion → Bytes → Option Bytes
get_card_no_from_track2_data v track =
    let text = v.form_bcd_to_asc track (min 20 (length track * 2)) in
    elim (index_of b'=' text) [ none ↦ none | some k ↦ some (take k text) ]

-- "while (track[i] != '=') { if (i > limit) return E_ERR_SWIPE; i++; }" from `i` on.
unfoldable pub separator_at : ℕ → ℕ → Bytes → Option ℕ
separator_at limit i [] = none
separator_at limit i (c ∷ s) =
    let rest = separator_at limit (suc i) s in
    if c == b'=' then some i else (if ltb limit i then none else rest)

-- E_ERR_SWIPE is 12.
unfoldable pub card_number : ℕ → ℕ → ℕ → Bytes → Bytes → Option ℕ → ℕ × Bytes
card_number low limit skip track card none = (12, card)
card_number low limit skip track card (some i) =
    if ltb i low || ltb limit i then (12, card) else (0, take (i - skip) (drop skip track))

-- GetCardFromTrack: the result and the card's number, from the arrays of tracks 2 and 3.
unfoldable pub get_card_from_track : Bytes → Bytes → Bytes → ℕ × Bytes
unfolding separator_at card_number
get_card_from_track card track2 track3 =
    let t2 = set track2 37 0 in
    let t3 = set track3 104 0 in
    if get_or t2 0 0 == 0
    then if get_or t3 0 0 == 0
      then (0, card)
      else card_number 15 21 2 t3 card (separator_at 21 0 t3)
    else card_number 13 19 0 t2 card (separator_at 19 0 t2)
