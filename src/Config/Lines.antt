-- ===== src/Config/Lines.antt =====
-- param.c: applyCfgLine and readMqttCfg.
use service_payment_bridge.Prelude.{
  ℕ, zero, suc, ◌+◌, ◌-◌, ◌*◌, Bool, ◌&&◌, ◌||◌, Option, none, some, [], ◌∷◌, Bytes, codes, cstr,
  str_eq, length, take, drop, get_or, leb, ◌==◌, if◌then◌else◌, ℤ, pos, neg,
}

-- What the file can set.
pub record Cfg : Type 0 where
  pub server : Bytes
  pub port : Bytes
  pub ssl : ℤ
  pub merchant : Bytes
  pub user : Bytes
  pub pass : Bytes

-- snprintf(dst, n, "%s", val)
abbrev pub copy : ℕ → Bytes → Bytes
copy n val = take (n - 1) val

-- atoi: blanks, a sign, and digits up to the first other byte.
unfoldable pub digits_value : ℕ → Bytes → ℕ
digits_value acc [] = acc
digits_value acc (c ∷ cs) =
    let rest = digits_value (10 * acc + (c - 48)) cs in
    if leb b'0' c && leb c b'9' then rest else acc

abbrev is_space : ℕ → Bool
is_space c = c == 32 || (leb 9 c && leb c 13)

unfoldable pub atoi : Bytes → ℤ
unfolding digits_value
atoi [] = pos 0
atoi (c ∷ cs) =
    let rest = atoi cs in
    if is_space c
    then rest
    else if c == b'-'
    then neg (digits_value 0 cs)
    else if c == b'+'
    then pos (digits_value 0 cs)
    else pos (digits_value 0 (c ∷ cs))

-- applyCfgLine; a key that is not known changes nothing.
unfoldable pub apply_cfg_line : Bytes → Bytes → Cfg → Cfg
apply_cfg_line key val g =
    if str_eq key (codes "server")
    then record g { server = copy 128 val }
    else if str_eq key (codes "port")
    then record g { port = copy 8 val }
    else if str_eq key (codes "ssl")
    then record g { ssl = atoi val }
    else if str_eq key (codes "merchant")
    then record g { merchant = copy 32 val }
    else if str_eq key (codes "user")
    then record g { user = copy 64 val }
    else if str_eq key (codes "pass")
    then record g { pass = copy 64 val }
    else g

abbrev pub is_newline : ℕ → Bool
is_newline c = c == 13 || c == 10

abbrev pub is_blank : ℕ → Bool
is_blank c = c == 32 || c == 9

-- "strpbrk(line, "\r\n")": the line, and the text behind the line ends (`none`: next is NULL).
unfoldable pub line_of : Bytes → Bytes
line_of [] = []
line_of (c ∷ s) = if is_newline c then [] else c ∷ line_of s

unfoldable pub skip_newlines : Bytes → Bytes
skip_newlines [] = []
skip_newlines (c ∷ s) = let rest = skip_newlines s in if is_newline c then rest else c ∷ s

unfoldable pub next_line : Bytes → Option Bytes
unfolding skip_newlines
next_line [] = none
next_line (c ∷ s) = if is_newline c then some (skip_newlines s) else next_line s

unfoldable pub skip_blanks : Bytes → Bytes
skip_blanks [] = []
skip_blanks (c ∷ s) = let rest = skip_blanks s in if is_blank c then rest else c ∷ s

-- The blanks at the end of the value are cut.
unfoldable pub trim_end : Bytes → Bytes
trim_end [] = []
trim_end (c ∷ s) = elim (trim_end s) [
  | [] ↦ (if is_blank c then [] else c ∷ [])
  | d ∷ t ↦ c ∷ d ∷ t
]

-- "strchr(line, '=')": the key and the value.
unfoldable pub key_of : Bytes → Bytes
key_of [] = []
key_of (c ∷ s) = if c == b'=' then [] else c ∷ key_of s

unfoldable pub value_of : Bytes → Option Bytes
value_of [] = none
value_of (c ∷ s) = if c == b'=' then some s else value_of s

-- The body of the loop for one line.
unfoldable pub apply_line : Bytes → Cfg → Cfg
apply_line line g =
    let l = skip_blanks line in
    elim (value_of l) [ none ↦ g | some v ↦ apply_cfg_line (key_of l) (trim_end v) g ]

-- The loop, on fuel.
unfoldable pub read_lines : ℕ → Bytes → Cfg → Cfg
read_lines zero s g = g
read_lines (suc f) [] g = g
read_lines (suc f) (c ∷ s) g =
    let g' = apply_line (line_of (c ∷ s)) g in
    elim (next_line (c ∷ s)) [ none ↦ g' | some rest ↦ read_lines f rest g' ]

-- The byte order mark of UTF-8 is passed over.
unfoldable pub skip_bom : Bytes → Bytes
skip_bom s =
    if (get_or s 0 0 == 0xEF) && (get_or s 1 0 == 0xBB) && (get_or s 2 0 == 0xBF)
    then drop 3 s
    else s

-- readMqttCfg on the 512 bytes at most that ReadFile_Api gives; `none`: the read failed.
unfoldable pub read_mqtt_cfg : Option Bytes → Cfg → Cfg
read_mqtt_cfg none g = g
read_mqtt_cfg (some b) g = let s = skip_bom (cstr (take 512 b)) in read_lines (suc (length s)) s g
