-- ===== src/Qris/Message.antt =====
-- mqtt.c: onTopicMessageArrived. The payload is read as a C string, since the buffer is zeroed.
use service_payment_bridge.Prelude.{
  take_short, ℕ, zero, suc, ◌+◌, ◌-◌, ◌*◌, ◌≤◌, ◌<◌, ◌≡◌, ◌≢◌, refl, ap, Bool, true, false, not,
  Option, none, some, List, [], ◌∷◌, ◌++◌, Bytes, codes, cstr, has_prefix, find, length, take, drop,
  length-take, ◌==◌, if◌then◌else◌, arith, ℤ, pos, negsuc, length-append, ◌||◌, ◌&&◌,
}
use mathlib.Core.List.{reverse, reverse_aux}

-- The variables that the two threads share.
pub record Shared : Type 0 where
  pub req_pending : Bool
  pub req_amount : ℕ
  pub reply_ready : Bool
  pub reply : Bytes
  pub paid : Bool

abbrev pub qris_max_len : ℕ
qris_max_len = 512

-- "strchr(pStart, '+')": the bytes before it, and the text behind it (`none`: pStart becomes NULL).
unfoldable pub head_path : Bytes → Bytes
head_path [] = []
head_path (c ∷ s) = if c == b'+' then [] else c ∷ head_path s

unfoldable pub after_plus : Bytes → Option Bytes
after_plus [] = none
after_plus (c ∷ s) = if c == b'+' then some s else after_plus s

-- The loop over the list of paths; each is cut to the 127 bytes that `one` holds.
unfoldable pub paths : ℕ → Bytes → List Bytes
paths zero s = []
paths (suc f) [] = []
paths (suc f) (c ∷ s) =
    take 127 (head_path (c ∷ s))
    ∷ elim (after_plus (c ∷ s)) [ none ↦ [] | some rest ↦ paths f rest ]

-- audioFilePlayPath_Api answers from the attempts made before, the last one first.
abbrev pub Player : Type 0
Player = List Bytes → Bytes → ℤ

abbrev pub is_busy : ℤ → Bool
is_busy (pos n) = false
is_busy (negsuc n) = n == 2

-- The attempts for one path, with `n` left: -3 means that the player is busy.
unfoldable pub play : Player → ℕ → Bytes → List Bytes → List Bytes
play o zero p log = log
play o (suc n) p log =
    let rest = play o n p (p ∷ log) in if is_busy (o log p) then rest else p ∷ log

unfoldable pub play_all : Player → List Bytes → List Bytes → List Bytes
play_all o [] log = log
play_all o (p ∷ ps) log = play_all o ps (play o 150 p log)

pub record Outcome : Type 0 where
  pub shared : Shared
  pub attempts : List Bytes
  pub spoken : Option Bytes
  pub printed : Option Bytes

abbrev pub qris_reply_prefix : Bytes
qris_reply_prefix = codes "QR:"

abbrev pub contains : Bytes → Bytes → Bool
contains t s = elim (find t s) [ none ↦ false | some i ↦ true ]

-- onTopicMessageArrived, for a payload of at least one byte, as the string `buf`.
unfoldable pub on_buffer : Player → Bytes → Shared → Outcome
on_buffer o buf g =
    if has_prefix buf qris_reply_prefix
    then record {
      shared = record g { reply = take (qris_max_len - 1) (drop 3 buf); reply_ready = true };
      attempts = [];
      spoken = none;
      printed = none;
    }
    else if contains (codes ".mp3") buf
    then record {
      shared = record g { paid = true };
      attempts = play_all o (paths (suc (length buf)) buf) [];
      spoken = none;
      printed = some buf;
    }
    else record { shared = g; attempts = []; spoken = some buf; printed = some buf }

unfoldable pub on_topic_message : Player → Bytes → Shared → Outcome
on_topic_message o [] g = record { shared = g; attempts = []; spoken = none; printed = none }
on_topic_message o (c ∷ payload) g = on_buffer o (cstr (c ∷ payload)) g

-- A path name of the backend: not empty, no '+', short enough for the device.
abbrev pub NoPlus : Bytes → Type 0
NoPlus [] = Unit
NoPlus (c ∷ s) = (c ≢ b'+') × NoPlus s

abbrev pub ArePaths : List Bytes → Type 0
ArePaths [] = Unit
ArePaths (p ∷ ps) = (0 < length p) × (length p ≤ 127) × NoPlus p × ArePaths ps

abbrev pub join_plus : List Bytes → Bytes
join_plus [] = []
join_plus (p ∷ []) = p
join_plus (p ∷ (q ∷ ps)) = p ++ b'+' ∷ join_plus (q ∷ ps)

head_path-append : (p r : Bytes) → NoPlus p → head_path (p ++ b'+' ∷ r) ≡ p
unfolding head_path
head_path-append [] r h = refl
head_path-append (c ∷ p) r h = ground (arith, head_path-append p r h.1)

after_plus-append : (p r : Bytes) → NoPlus p → after_plus (p ++ b'+' ∷ r) ≡ some r
unfolding after_plus
after_plus-append [] r h = refl
after_plus-append (c ∷ p) r h = ground (arith, after_plus-append p r h.1)

head_path_whole : (p : Bytes) → NoPlus p → head_path p ≡ p
unfolding head_path
head_path_whole [] h = refl
head_path_whole (c ∷ p) h = ground (arith, head_path_whole p h.1)

after_plus_whole : (p : Bytes) → NoPlus p → after_plus p ≡ none
unfolding after_plus
after_plus_whole [] h = refl
after_plus_whole (c ∷ p) h = ground (arith, after_plus_whole p h.1)

paths-join_plus :
    (f : ℕ) (ps : List Bytes) → length ps < f → ArePaths ps → paths f (join_plus ps) ≡ ps
unfolding paths
paths-join_plus zero ps h a = absurd (omega arith)
paths-join_plus (suc f) [] h a = refl
paths-join_plus (suc f) ([] ∷ ps) h a = absurd (omega arith)
paths-join_plus (suc f) ((c ∷ p) ∷ []) h a =
    rw (head_path_whole (c ∷ p) a.2, after_plus_whole (c ∷ p) a.2)
      (ap (λ x. x ∷ []) (take_short 127 (c ∷ p) a.1))
paths-join_plus (suc f) ((c ∷ p) ∷ (q ∷ ps)) h a =
    let rest = join_plus (q ∷ ps) in
    rw
      (
        head_path-append (c ∷ p) rest a.2,
        after_plus-append (c ∷ p) rest a.2,
        take_short 127 (c ∷ p) a.1,
      )
      (ap (◌∷◌ (c ∷ p)) (paths-join_plus f (q ∷ ps) (omega arith) a.3))

length-join_plus : (ps : List Bytes) → ArePaths ps → length ps ≤ length (join_plus ps)
length-join_plus [] a = omega arith
length-join_plus (p ∷ []) a = omega arith
length-join_plus (p ∷ (q ∷ ps)) a =
    omega (arith, length-join_plus (q ∷ ps) a.3, length-append {0} p (b'+' ∷ join_plus (q ∷ ps)))

play_idle :
    (o : Player) (n : ℕ) (p : Bytes) (log : List Bytes)
    → is_busy (o log p) ≡ false
    → play o (suc n) p log ≡ p ∷ log
unfolding play
play_idle o n p log h = ground arith

play_all_idle :
    (o : Player) (ps log : List Bytes)
    → ((l : List Bytes) (p : Bytes) → is_busy (o l p) ≡ false)
    → play_all o ps log ≡ reverse_aux ps log
unfolding play_all
play_all_idle o [] log h = refl
play_all_idle o (p ∷ ps) log h =
    rw (play_idle o 149 p log (h log p)) (play_all_idle o ps (p ∷ log) h)

-- A message that is the '+'-joined list of audio names, each not empty, with no '+' and of at most 127
-- bytes, that holds ".mp3" and is no QR reply, has exactly those files played in that order while
-- the player is never busy, and marks the payment as made.
pub on_buffer-join_plus :
    (o : Player) (ps : List Bytes) (g : Shared)
    → ArePaths ps
    → ((l : List Bytes) (p : Bytes) → is_busy (o l p) ≡ false)
    → has_prefix (join_plus ps) qris_reply_prefix ≡ false
    → contains (codes ".mp3") (join_plus ps) ≡ true
    → ((on_buffer o (join_plus ps) g).attempts ≡ reverse ps)
      × ((on_buffer o (join_plus ps) g).shared ≡ record g { paid = true })
unfolding on_buffer
on_buffer-join_plus o ps g a idle h k =
    let enough = length-join_plus ps a in
    rw (h, k, paths-join_plus (suc (length (join_plus ps))) ps (omega arith) a)
      (play_all_idle o ps [] idle, refl)

length-play :
    (o : Player) (n : ℕ) (p : Bytes) (log : List Bytes) → length (play o n p log) ≤ n + length log
unfolding play
length-play o zero p log = omega arith
length-play o (suc n) p log = ground (arith, length-play o n p (p ∷ log))

length-play_all :
    (o : Player) (ps log : List Bytes) → length (play_all o ps log) ≤ 150 * length ps + length log
unfolding play_all
length-play_all o [] log = omega arith
length-play_all o (p ∷ ps) log =
    omega (arith, length-play o 150 p log, length-play_all o ps (play o 150 p log))

-- Whatever the message and the player do: the request variables are left alone, a payment is marked
-- only by a message that holds ".mp3" and is no QR reply, a reply only by a message that begins with
-- "QR:", and then at most 511 bytes of it are kept and no audio is played, while any other message
-- leaves the kept reply as it was.
pub on_buffer-shared :
    (o : Player) (buf : Bytes) (g : Shared)
    → let r = on_buffer o buf g in
      (r.shared.req_pending ≡ g.req_pending)
      × (r.shared.req_amount ≡ g.req_amount)
      × (r.shared.paid
          ≡ (g.paid || (contains (codes ".mp3") buf && not (has_prefix buf qris_reply_prefix))))
      × (r.shared.reply_ready ≡ (g.reply_ready || has_prefix buf qris_reply_prefix))
      × (if has_prefix buf qris_reply_prefix
          then (length r.shared.reply < 512) × (r.attempts ≡ []) × (r.spoken ≡ none)
          else r.shared.reply ≡ g.reply)
unfolding on_buffer
on_buffer-shared o buf g = ground (arith, length-take 511 (drop 3 buf))
