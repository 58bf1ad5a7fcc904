-- ===== src/Base64/RoundTrip.antt =====
-- tms_base64.c: what is encoded is decoded again.
use service_payment_bridge.Prelude.{
  ℕ, suc, ◌+◌, ◌-◌, ◌*◌, ◌/◌, ◌%◌, ◌<◌, ◌≤◌, ◌≡◌, refl, ap, ◌∙◌, true, false, some, ◌∷◌, ◌++◌, [],
  Bytes, length, length-append, take-append, ◌==◌, arith,
}
use service_payment_bridge.Base64.{
  base_code, char_index, group, base64_encode, bytes_of, decode_groups, padding, base64_decode,
}

pub char_index-base_code : (i : ℕ) → i < 64 → char_index (base_code i) ≡ i
unfolding char_index base_code
char_index-base_code i h = ground arith

base_code_ne : (i : ℕ) → (base_code i == b'=') ≡ false
unfolding base_code
base_code_ne i = ground arith

abbrev pub IsBytes : Bytes → Type 0
IsBytes [] = Unit
IsBytes (c ∷ s) = (c < 256) × IsBytes s

-- What is decoded behind the bytes that were encoded.
abbrev junk : ℕ → Bytes → Bytes
junk next [] = []
junk next (a ∷ []) = 0 ∷ 0 ∷ []
junk next (a ∷ b ∷ []) = next / 64 * 64 % 256 ∷ []
junk next (a ∷ b ∷ c ∷ s) = junk next s

triple : {x y z x' y' z' : ℕ} → x ≡ x' → y ≡ y' → z ≡ z' → x ∷ y ∷ z ∷ [] ≡ x' ∷ y' ∷ z' ∷ []
triple p q r = cc

char_index-pad : char_index b'=' ≡ 0
unfolding char_index
char_index-pad = refl

group_bytes :
    (a b c : ℕ)
    → a < 256
    → b < 256
    → c < 256
    → bytes_of
        (char_index (base_code (a / 4)))
        (char_index (base_code (a % 4 * 16 + b / 16)))
        (char_index (base_code (b % 16 * 4 + c / 64)))
        (char_index (base_code (c % 64)))
      ≡ a ∷ b ∷ c ∷ []
group_bytes a b c h k l =
    rw
      (
        char_index-base_code (a / 4) (omega arith),
        char_index-base_code (a % 4 * 16 + b / 16) (omega arith),
        char_index-base_code (b % 16 * 4 + c / 64) (omega arith),
        char_index-base_code (c % 64) (omega arith),
      )
      (triple (omega arith) (omega arith) (omega arith))

decode_groups-encode :
    (next : ℕ) (s : Bytes)
    → next < 256
    → IsBytes s
    → decode_groups (base64_encode next s) ≡ s ++ junk next s
unfolding decode_groups base64_encode
decode_groups-encode next [] n h = refl
decode_groups-encode next (a ∷ []) n h =
    rw
      (
        char_index-pad,
        char_index-base_code (a / 4) (omega (arith, h.0)),
        char_index-base_code (a % 4 * 16) (omega arith),
      )
      (triple (omega (arith, h.0)) (omega arith) refl)
decode_groups-encode next (a ∷ b ∷ []) n h =
    rw
      (
        char_index-pad,
        char_index-base_code (a / 4) (omega (arith, h.0)),
        char_index-base_code (a % 4 * 16 + b / 16) (omega (arith, h.1.0)),
        char_index-base_code (b % 16 * 4 + next / 64) (omega arith),
      )
      (triple (omega (arith, h.0, h.1.0)) (omega (arith, h.1.0)) (omega arith))
decode_groups-encode next (a ∷ b ∷ c ∷ s) n h =
    ap (λ (t : Bytes). t ++ decode_groups (base64_encode next s))
      (group_bytes a b c h.0 h.1.0 h.1.1.0)
    ∙ ap (λ (t : Bytes). a ∷ b ∷ c ∷ t) (decode_groups-encode next s n h.1.1.1)

-- A character more at the front.
padding_cons : (x y z : ℕ) (s : Bytes) → padding (x ∷ y ∷ z ∷ s) ≡ padding (y ∷ z ∷ s)
unfolding padding
padding_cons x y z s =
    let last : suc (suc (suc (length s))) - 1 ≡ suc (suc (length s)) = omega arith in
    let before : suc (suc (suc (length s))) - 2 ≡ suc (length s) = omega arith in
    let last' : suc (suc (length s)) - 1 ≡ suc (length s) = omega arith in
    let before' : suc (suc (length s)) - 2 ≡ length s = omega arith in
    rw (last, before, last', before') refl

-- A group more at the front of a text of two characters at least.
padding-group :
    (a b c x y : ℕ) (t : Bytes) → padding (group a b c ++ x ∷ y ∷ t) ≡ padding (x ∷ y ∷ t)
padding-group a b c x y t =
    padding_cons (base_code (a / 4)) (base_code (a % 4 * 16 + b / 16))
      (base_code (b % 16 * 4 + c / 64)) (base_code (c % 64) ∷ x ∷ y ∷ t)
    ∙ (padding_cons (base_code (a % 4 * 16 + b / 16)) (base_code (b % 16 * 4 + c / 64))
          (base_code (c % 64)) (x ∷ y ∷ t)
        ∙ (padding_cons (base_code (b % 16 * 4 + c / 64)) (base_code (c % 64)) x (y ∷ t)
            ∙ padding_cons (base_code (c % 64)) x y t))

padding_append : (a b c : ℕ) (t : Bytes) → 2 ≤ length t → padding (group a b c ++ t) ≡ padding t
padding_append a b c [] h = absurd (omega arith)
padding_append a b c (x ∷ []) h = absurd (omega arith)
padding_append a b c (x ∷ y ∷ t) h = padding-group a b c x y t

encode_long : (next : ℕ) (s : Bytes) → 0 < length s → 2 ≤ length (base64_encode next s)
unfolding base64_encode
encode_long next [] h = absurd (omega arith)
encode_long next (a ∷ []) h = omega arith
encode_long next (a ∷ b ∷ []) h = omega arith
encode_long next (a ∷ b ∷ c ∷ s) h = omega arith

padding_two : (a b next : ℕ) → padding (base64_encode next (a ∷ b ∷ [])) ≡ 1
unfolding padding base64_encode
padding_two a b next = rw (base_code_ne (b % 16 * 4 + next / 64)) refl

padding_three : (a b c : ℕ) → padding (group a b c) ≡ 0
unfolding padding
padding_three a b c = rw (base_code_ne (c % 64)) refl

encode_cons :
    (next a b c : ℕ) (s : Bytes)
    → base64_encode next (a ∷ b ∷ c ∷ s) ≡ group a b c ++ base64_encode next s
unfolding base64_encode
encode_cons next a b c s = refl

padding_one : (a next : ℕ) → padding (base64_encode next (a ∷ [])) ≡ 2
unfolding padding base64_encode
padding_one a next = refl

-- The padding counts the bytes behind.
padding-encode :
    (next : ℕ) (s : Bytes) → 0 < length s → padding (base64_encode next s) ≡ length (junk next s)
padding-encode next [] h = absurd (omega arith)
padding-encode next (a ∷ []) h = padding_one a next
padding-encode next (a ∷ b ∷ []) h = padding_two a b next
padding-encode next (a ∷ b ∷ c ∷ []) h =
    rw (encode_cons next a b c []) (unfold base64_encode in padding_three a b c)
padding-encode next (a ∷ b ∷ c ∷ x ∷ s) h = rw (encode_cons next a b c (x ∷ s)) (
    padding_append a b c (base64_encode next (x ∷ s)) (encode_long next (x ∷ s) (omega arith))
    ∙ padding-encode next (x ∷ s) (omega arith))

length-encode : (next : ℕ) (s : Bytes) → (length (base64_encode next s) % 4 == 0) ≡ true
unfolding base64_encode
length-encode next [] = refl
length-encode next (a ∷ []) = refl
length-encode next (a ∷ b ∷ []) = refl
length-encode next (a ∷ b ∷ c ∷ s) = ground (arith, length-encode next s)

-- Encoding bytes, at least one, and decoding the text gives the bytes again, whatever byte stands
-- behind them in memory.
pub base64_decode-encode :
    (next : ℕ) (s : Bytes)
    → next < 256
    → IsBytes s
    → 0 < length s
    → base64_decode (base64_encode next s) ≡ some s
unfolding base64_decode
base64_decode-encode next s n h k =
    let size : length s + length (junk next s) - length (junk next s) ≡ length s = omega arith in
    rw
      (
        length-encode next s,
        decode_groups-encode next s n h,
        padding-encode next s k,
        length-append s (junk next s),
        size,
        take-append s (junk next s),
      )
      refl
