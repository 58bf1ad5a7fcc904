-- ===== src/Speech.antt =====
-- AmtToMp3.c: the words of an amount and the audio files that speak them.
pub mod Value
pub mod Decimals
use service_payment_bridge.Prelude.{
  ℕ, zero, suc, ◌+◌, ◌-◌, ◌/◌, ◌%◌, Bool, true, false, Option, none, some, List, ◌∷◌, ◌++◌, [],
  Bytes, pos_part, is_neg, codes, find, length, take, drop, get_or, str_eq, ltb, leb, ◌==◌,
  if◌then◌else◌,
}
use service_payment_bridge.Config.Lines.{atoi}

abbrev pub units : List Bytes
units =
    []
    ∷ codes "One"
    ∷ codes "Two"
    ∷ codes "Three"
    ∷ codes "Four"
    ∷ codes "Five"
    ∷ codes "Six"
    ∷ codes "Seven"
    ∷ codes "Eight"
    ∷ codes "Nine"
    ∷ []

abbrev pub teen : List Bytes
teen =
    codes "Ten"
    ∷ codes "Eleven"
    ∷ codes "Twelve"
    ∷ codes "Thirteen"
    ∷ codes "Fourteen"
    ∷ codes "Fifteen"
    ∷ codes "Sixteen"
    ∷ codes "Seventeen"
    ∷ codes "Eighteen"
    ∷ codes "Nineteen"
    ∷ []

abbrev pub tens : List Bytes
tens =
    []
    ∷ []
    ∷ codes "Twenty"
    ∷ codes "Thirty"
    ∷ codes "Forty"
    ∷ codes "Fifty"
    ∷ codes "Sixty"
    ∷ codes "Seventy"
    ∷ codes "Eighty"
    ∷ codes "Ninety"
    ∷ []

abbrev pub suffixes : List Bytes
suffixes = [] ∷ codes "Thousand" ∷ codes "Million" ∷ codes "Billion" ∷ []

abbrev pub blank : Bytes
blank = 32 ∷ []

abbrev pub word_of : List Bytes → ℕ → Bytes
word_of t i = get_or t i []

-- convertThreeDigits, from an empty TMP.
unfoldable pub convert_three_digits : ℕ → Bytes
convert_three_digits num =
    let hundred = num / 100 in
    let ten = num / 10 % 10 in
    let one = num % 10 in
    let head : Bytes = if ltb 0 hundred then word_of units hundred ++ codes " Hundred " else [] in
    let joint : Bytes = if ltb 0 hundred then codes "And " else [] in
    if ltb 1 ten
    then head ++ (joint ++ (word_of tens ten ++ (blank ++ (word_of units one ++ blank))))
    else if ten == 1
    then head ++ (joint ++ (word_of teen one ++ blank))
    else if ltb 0 one
    then head ++ (joint ++ (word_of units one ++ blank))
    else head

-- RESULT[i]
unfoldable pub group_text : ℕ → ℕ → Bytes
unfolding convert_three_digits
group_text i three =
    if three == 0
    then []
    else convert_three_digits three
      ++ (if length (word_of suffixes i) == 0 then blank else word_of suffixes i ++ codes " And ")

-- doAmt: RESULT from the i-th entry on. An int has at most four groups.
unfoldable pub do_amt : ℕ → ℕ → ℕ → List Bytes
unfolding group_text
do_amt zero i amt = []
do_amt (suc fuel) i amt =
    let rest = do_amt fuel (i + 1) (amt / 1000) in
    if amt == 0 then [] else group_text i (amt % 1000) ∷ rest

-- "for (int i = CONTENT_IDX; i >= 0; i--) strcat(results, RESULT[i])"
unfoldable pub joined : List Bytes → Bytes
joined [] = []
joined (x ∷ xs) = joined xs ++ x

-- replaceStr(data, "  ", " "): `none` where tmp[24] is overrun. Each round drops a byte.
unfoldable pub replace_blanks : ℕ → Bytes → Option Bytes
replace_blanks zero s = some s
replace_blanks (suc fuel) s = elim (find (blank ++ blank) s) [
  | none ↦ some s
  | some k ↦
      let rest = replace_blanks fuel (take k s ++ (blank ++ drop (k + 2) s)) in
      if leb 24 (length s) then none else rest
]

-- The words of an amount and the plural of its currency.
unfoldable pub amount_words : ℕ → Bytes → Option Bytes
unfolding do_amt joined replace_blanks
amount_words amt currency =
    let results = joined (do_amt 4 0 amt) in
    let text = take (length results - 1) results ++ (currency ++ codes "s") in
    replace_blanks (length text) text

abbrev pub mp3 : Bytes → Bytes
mp3 name = codes "english." ++ (name ++ codes ".mp3")

-- The files of the words that a blank ends; what follows the last blank has none. `part` is tmp.
unfoldable pub files_of : Bytes → Bytes → Bytes
files_of part [] = []
files_of part (c ∷ s) =
    let rest = files_of (if c == 32 then [] else part ++ c ∷ []) s in
    if c == 32 then mp3 part ++ (codes "," ++ rest) else rest

pub data Spoken : Type 0 where
  invalid overrun : Spoken
  spoken : Bytes → Bytes → Spoken

-- strtok(pos, "."): the texts between the points, where there is one.
unfoldable pub tokens : Bytes → Bytes → List Bytes
tokens w [] = if length w == 0 then [] else w ∷ []
tokens w (c ∷ s) =
    let rest = tokens (if c == 46 then [] else w ++ c ∷ []) s in
    if c == 46 then if length w == 0 then rest else w ∷ rest else rest

-- The last of them counts; tmp[2] holds one digit.
unfoldable pub last_value : ℕ → List Bytes → Option ℕ
last_value v [] = some v
last_value v (t ∷ ts) =
    let rest = last_value (pos_part (atoi t)) ts in if leb 2 (length t) then none else rest

-- The part from the point on, if it is not ".00".
unfoldable pub decimals_of : Bytes → Option ℕ
unfolding tokens last_value
decimals_of rest = if str_eq rest (codes ".00") then some 0 else last_value 0 (tokens [] rest)

abbrev pub received : Bytes → Bytes → Spoken
received words sequence =
    spoken (words ++ codes " Received") (sequence ++ codes ",english.Received.mp3")

-- The part of the small currency, if there is one.
unfoldable pub with_decimals : Bytes → Bytes → ℕ → Option Bytes → Bytes → Spoken
with_decimals words sequence zero more currency = received words sequence
with_decimals words sequence (suc d) none currency = overrun
with_decimals words sequence (suc d) (some more) currency =
    received (words ++ (codes " And " ++ more))
      (sequence ++ (codes ",english.And.mp3," ++ (files_of [] more ++ mp3 (currency ++ codes "s"))))

unfoldable pub speak_amount : Bytes → Bytes → ℕ → ℕ → Spoken
unfolding amount_words with_decimals files_of
speak_amount currency_s currency amt decimal =
    if amt == 0 then invalid else elim (amount_words amt currency_s) [
      | none ↦ overrun
      | some words ↦
          with_decimals words (files_of [] words ++ mp3 (currency_s ++ codes "s")) decimal
            (amount_words decimal currency) currency
    ]

-- AmtToMp3, up to the JSON: the words and the list of files. Of a negative amount doAmt says nothing, and
-- `strlen(results) - 1` is no length for strncpy.
unfoldable pub amt_to_mp3 : Bytes → Bytes → Bytes → Spoken
unfolding decimals_of speak_amount
amt_to_mp3 amt currency_s currency = elim (find (codes ".") amt) [
  | none ↦ invalid
  | some k ↦ elim (decimals_of (drop k amt)) [
    | none ↦ overrun
    | some d ↦
        if leb 12 k
        then overrun
        else if is_neg (atoi (take k amt))
        then overrun
        else speak_amount currency_s currency (pos_part (atoi (take k amt))) d
  ]
]
