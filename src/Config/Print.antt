-- ===== src/Config/Print.antt =====
-- param.c: what readMqttCfg makes of a file that is written as "key=value" lines.
use service_payment_bridge.Prelude.{
  take_short, ℕ, zero, suc, ◌≤◌, ◌<◌, ◌≡◌, ◌≢◌, refl, false, some, List, [], ◌∷◌, ◌++◌, Bytes,
  length, length-append, arith, ◌∙◌, cstr,
}
use service_payment_bridge.Config.Lines.{
  Cfg, apply_cfg_line, is_newline, is_blank, line_of, skip_newlines, next_line, skip_blanks,
  trim_end, key_of, value_of, apply_line, read_lines, skip_bom, read_mqtt_cfg,
}

pub record Entry : Type 0 where
  pub key : Bytes
  pub value : Bytes

abbrev pub print : List Entry → Bytes
print [] = []
print (e ∷ es) = e.key ++ b'=' ∷ e.value ++ 10 ∷ print es

abbrev pub apply_all : List Entry → Cfg → Cfg
apply_all [] g = g
apply_all (e ∷ es) g = apply_all es (apply_cfg_line e.key e.value g)

abbrev pub NoNewline : Bytes → Type 0
NoNewline [] = Unit
NoNewline (c ∷ s) = (is_newline c ≡ false) × NoNewline s

abbrev pub NoEquals : Bytes → Type 0
NoEquals [] = Unit
NoEquals (c ∷ s) = (c ≢ b'=') × NoEquals s

abbrev pub StartsPlain : Bytes → Type 0
StartsPlain [] = ⊥
StartsPlain (c ∷ s) = is_blank c ≡ false

-- No blank at the end.
abbrev pub EndsPlain : Bytes → Type 0
EndsPlain [] = Unit
EndsPlain (c ∷ []) = is_blank c ≡ false
EndsPlain (c ∷ (d ∷ s)) = EndsPlain (d ∷ s)

pub record IsEntry (e : Entry) : Type 0 where
  pub key_line : NoNewline e.key
  pub key_plain : NoEquals e.key
  pub key_start : StartsPlain e.key
  pub value_line : NoNewline e.value
  pub value_end : EndsPlain e.value

abbrev pub AreEntries : List Entry → Type 0
AreEntries [] = Unit
AreEntries (e ∷ es) = IsEntry e × AreEntries es

line_of-append : (s t : Bytes) → NoNewline s → line_of (s ++ 10 ∷ t) ≡ s
unfolding line_of
line_of-append [] t h = refl
line_of-append (c ∷ s) t h = ground (arith, line_of-append s t h.1)

next_line-append : (s t : Bytes) → NoNewline s → next_line (s ++ 10 ∷ t) ≡ some (skip_newlines t)
unfolding next_line
next_line-append [] t h = refl
next_line-append (c ∷ s) t h = ground (arith, next_line-append s t h.1)

key_of-append : (s t : Bytes) → NoEquals s → key_of (s ++ b'=' ∷ t) ≡ s
unfolding key_of
key_of-append [] t h = refl
key_of-append (c ∷ s) t h = ground (arith, key_of-append s t h.1)

value_of-append : (s t : Bytes) → NoEquals s → value_of (s ++ b'=' ∷ t) ≡ some t
unfolding value_of
value_of-append [] t h = refl
value_of-append (c ∷ s) t h = ground (arith, value_of-append s t h.1)

trim_end_plain : (s : Bytes) → EndsPlain s → trim_end s ≡ s
unfolding trim_end
trim_end_plain [] h = refl
trim_end_plain (c ∷ []) h = ground arith
trim_end_plain (c ∷ (d ∷ s)) h = rw (trim_end_plain (d ∷ s) h, trim_end) refl

skip_blanks_plain : (s t : Bytes) → StartsPlain s → skip_blanks (s ++ t) ≡ s ++ t
unfolding skip_blanks
skip_blanks_plain [] t h = absurd h
skip_blanks_plain (c ∷ s) t h = ground arith

apply_line-entry :
    (e : Entry) (g : Cfg)
    → IsEntry e
    → apply_line (e.key ++ b'=' ∷ e.value) g ≡ apply_cfg_line e.key e.value g
unfolding apply_line
apply_line-entry e g h = ground (
  arith,
  skip_blanks_plain e.key (b'=' ∷ e.value) h.key_start,
  value_of-append e.key e.value h.key_plain,
  key_of-append e.key e.value h.key_plain,
  trim_end_plain e.value h.value_end,
)

NoNewline-append : (s t : Bytes) → NoNewline s → NoNewline t → NoNewline (s ++ t)
NoNewline-append [] t h k = k
NoNewline-append (c ∷ s) t h k = (h.0, NoNewline-append s t h.1 k)

-- A text that does not begin with a line end.
skip_newlines_plain : (s t : Bytes) → NoNewline s → 0 < length s → skip_newlines (s ++ t) ≡ s ++ t
unfolding skip_newlines
skip_newlines_plain [] t h k = absurd (omega arith)
skip_newlines_plain (c ∷ s) t h k = ground arith

key_nonempty : (s : Bytes) → StartsPlain s → 0 < length s
key_nonempty [] h = absurd h
key_nonempty (c ∷ s) h = omega arith

abbrev line : Entry → Bytes
line e = e.key ++ b'=' ∷ e.value

line_plain : (e : Entry) → IsEntry e → NoNewline (line e) × (0 < length (line e))
line_plain e h = (
  NoNewline-append e.key (b'=' ∷ e.value) h.key_line (refl, h.value_line),
  omega (arith, length-append {0} e.key (b'=' ∷ e.value)),
)

skip_newlines-print : (es : List Entry) → AreEntries es → skip_newlines (print es) ≡ print es
unfolding skip_newlines
skip_newlines-print [] h = refl
skip_newlines-print (e ∷ es) h =
    skip_newlines_plain (line e) (10 ∷ print es) (line_plain e h.0).0 (line_plain e h.0).1

read_lines_line :
    (f : ℕ) (l rest : Bytes) (g : Cfg)
    → NoNewline l
    → 0 < length l
    → read_lines (suc f) (l ++ 10 ∷ rest) g ≡ read_lines f (skip_newlines rest) (apply_line l g)
unfolding read_lines
read_lines_line f [] rest g h k = absurd (omega arith)
read_lines_line f (c ∷ l) rest g h k =
    ground (arith, line_of-append (c ∷ l) rest h, next_line-append (c ∷ l) rest h)

read_lines-print :
    (f : ℕ) (es : List Entry) (g : Cfg)
    → length es < f
    → AreEntries es
    → read_lines f (print es) g ≡ apply_all es g
unfolding read_lines
read_lines-print zero es g h a = absurd (omega arith)
read_lines-print (suc f) [] g h a = refl
read_lines-print (suc f) (e ∷ es) g h a =
    read_lines_line f (line e) (print es) g (line_plain e a.0).0 (line_plain e a.0).1
    ∙ rw (skip_newlines-print es a.1, apply_line-entry e g a.0)
        (read_lines-print f es (apply_cfg_line e.key e.value g) (omega arith) a.1)

length-print : (es : List Entry) → length es ≤ length (print es)
length-print [] = omega arith
length-print (e ∷ es) = omega (arith, length-print es, length-append {0} (line e) (10 ∷ print es))

abbrev NoNul : Bytes → Type 0
NoNul [] = Unit
NoNul (c ∷ s) = (c ≢ 0) × NoNul s

cstr_whole : (s : Bytes) → NoNul s → cstr s ≡ s
unfolding cstr
cstr_whole [] h = refl
cstr_whole (c ∷ s) h = ground (arith, cstr_whole s h.1)

-- A file of at most 512 bytes without a NUL or a byte order mark, of lines "key=value" where no key
-- holds '=' or begins with a blank, no value ends in a blank and neither holds a line end, sets exactly
-- what its entries set one after another; the fuel of the model is enough for it.
pub read_mqtt_cfg-print :
    (es : List Entry) (g : Cfg)
    → AreEntries es
    → NoNul (print es)
    → length (print es) ≤ 512
    → skip_bom (print es) ≡ print es
    → read_mqtt_cfg (some (print es)) g ≡ apply_all es g
unfolding read_mqtt_cfg
read_mqtt_cfg-print es g a z l b =
    rw (take_short 512 (print es) l, cstr_whole (print es) z, b)
      (read_lines-print (suc (length (print es))) es g (omega (arith, length-print es)) a)
