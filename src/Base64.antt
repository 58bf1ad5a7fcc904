-- ===== src/Base64.antt =====
-- tms_base64.c: Base64, in groups of three bytes and four characters.
pub mod RoundTrip
use service_payment_bridge.Prelude.{
  ℕ, zero, suc, ◌+◌, ◌-◌, ◌*◌, ◌/◌, ◌%◌, Bool, true, false, ◌&&◌, Option, none, some, List, ◌∷◌,
  ◌++◌, [], Bytes, codes, length, get_or, take, leb, ◌==◌, if◌then◌else◌,
}

-- BASE_CODE, by index.
unfoldable pub base_code : ℕ → ℕ
base_code i =
    if leb i 25
    then i + 65
    else if leb i 51
    then i + 71
    else if leb i 61
    then i - 4
    else if i == 62
    then 43
    else 47

-- _tms_GetCharIndex
unfoldable pub char_index : ℕ → ℕ
char_index c =
    if leb b'A' c && leb c b'Z'
    then c - 65
    else if leb b'a' c && leb c b'z'
    then c - 97 + 26
    else if leb b'0' c && leb c b'9'
    then c - 48 + 52
    else if c == b'+'
    then 62
    else if c == b'/'
    then 63
    else 0

-- A whole group: the two lowest bits of one byte go before the four highest of the next.
abbrev pub group : ℕ → ℕ → ℕ → Bytes
group a b c =
    base_code (a / 4)
    ∷ base_code (a % 4 * 16 + b / 16)
    ∷ base_code (b % 16 * 4 + c / 64)
    ∷ base_code (c % 64)
    ∷ []

-- _tms_fnBase64Encode. With two bytes left it also reads the byte behind them, `next`; `char` is
-- unsigned here.
unfoldable pub base64_encode : ℕ → Bytes → Bytes
base64_encode next [] = []
base64_encode next (a ∷ []) = base_code (a / 4) ∷ base_code (a % 4 * 16) ∷ b'=' ∷ b'=' ∷ []
base64_encode next (a ∷ b ∷ []) =
    base_code (a / 4)
    ∷ base_code (a % 4 * 16 + b / 16)
    ∷ base_code (b % 16 * 4 + next / 64)
    ∷ b'='
    ∷ []
base64_encode next (a ∷ b ∷ c ∷ s) = group a b c ++ base64_encode next s

-- The three bytes of four characters, each stored in a byte.
abbrev pub bytes_of : ℕ → ℕ → ℕ → ℕ → Bytes
bytes_of w x y z = (w * 4 + x / 16) % 256 ∷ (x * 16 + y / 4) % 256 ∷ (y * 64 + z) % 256 ∷ []

-- The loop of _tms_fnBase64Decode.
unfoldable pub decode_groups : Bytes → Bytes
decode_groups [] = []
decode_groups (w ∷ []) = []
decode_groups (w ∷ x ∷ []) = []
decode_groups (w ∷ x ∷ y ∷ []) = []
decode_groups (w ∷ x ∷ y ∷ z ∷ s) =
    bytes_of (char_index w) (char_index x) (char_index y) (char_index z) ++ decode_groups s

-- "su_num": the "=" at the end.
unfoldable pub padding : Bytes → ℕ
padding s =
    if get_or s (length s - 1) 0 == b'='
    then if get_or s (length s - 2) 0 == b'=' then 2 else 1
    else 0

-- _tms_fnBase64Decode: the bytes that its result counts.
unfoldable pub base64_decode : Bytes → Option Bytes
unfolding padding decode_groups
base64_decode s =
    if length s % 4 == 0
    then some (take (length (decode_groups s) - padding s) (decode_groups s))
    else none
