-- ===== src/Speech/Value.antt =====
-- AmtToMp3.c, doAmt: the words say the amount.
use service_payment_bridge.Prelude.{
  ℕ, zero, suc, ◌+◌, ◌*◌, Bool, true, false, Option, none, some, List, ◌∷◌, ◌++◌, [], Bytes, codes,
  str_eq, ◌==◌, if◌then◌else◌,
}
use service_payment_bridge.Speech.{units, teen, tens, group_text}

-- The place of a word in a list, from `n` on.
place_of : Bytes → List Bytes → ℕ → Option ℕ
place_of w [] n = none
place_of w (v ∷ vs) n = if str_eq w v then some n else place_of w vs (n + 1)

-- What a word adds to the value that is read so far.
word_value : ℕ → Bytes → ℕ
unfolding place_of str_eq
word_value v [] = v
word_value v (c ∷ w) = elim (place_of (c ∷ w) units 0) [
  | some n ↦ v + n
  | none ↦ elim (place_of (c ∷ w) teen 0) [
    | some n ↦ v + n + 10
    | none ↦ elim (place_of (c ∷ w) tens 0) [
      | some n ↦ v + 10 * n
      | none ↦
          if str_eq (c ∷ w) (codes "Hundred")
          then 100 * v
          else if str_eq (c ∷ w) (codes "Thousand")
          then 1000 * v
          else if str_eq (c ∷ w) (codes "Million")
          then 1000000 * v
          else if str_eq (c ∷ w) (codes "Billion")
          then 1000000000 * v
          else v
    ]
  ]
]

-- A text read word by word; other words count nothing.
read_words : ℕ → Bytes → Bytes → ℕ
unfolding word_value
read_words v w [] = word_value v w
read_words v w (c ∷ s) =
    read_words (if c == 32 then word_value v w else v) (if c == 32 then [] else w ++ c ∷ []) s

-- 1000 to a power
abbrev limit : ℕ → ℕ
limit zero = 1
limit (suc n) = 1000 * limit n

-- Every group below `n`, with the i-th suffix, is read as its number of units, thousands, and so on.
all_read : ℕ → ℕ → Bool
all_read i zero = true
all_read i (suc g) = if read_words 0 [] (group_text i g) == g * limit i then all_read i g else false

-- What the texts of RESULT say together.
abbrev pub spoken_value : List Bytes → ℕ
unfolding read_words
spoken_value [] = 0
spoken_value (x ∷ xs) = read_words 0 [] x + spoken_value xs
