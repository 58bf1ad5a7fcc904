-- ===== src/Qris/Wait.antt =====
-- display.c: the waiting loops of QrisDinamis and qrisWaitPayment. Each round of a loop reads the
-- shared flag, the keyboard and the timer; a list gives what the rounds find.
use service_payment_bridge.Prelude.{
  ℕ, zero, suc, ◌+◌, ◌≤◌, ◌<◌, ◌≡◌, refl, Bool, Option, none, some, List, [], ◌∷◌, length,
  if◌then◌else◌, arith, ap,
}

-- One round of qrisWaitPayment: G_qrisPaid, a key from GetKey_Api, and TimerCheck_Api's answer to
-- "have (420 - remaining + 1) seconds passed since the start".
pub record Round : Type 0 where
  pub paid : Bool
  pub key : Bool
  pub second : Bool

pub data End : Type 0 where
  shows_paid : End
  cancelled : End
  shows_expired : End

abbrev pub qris_display_sec : ℕ
qris_display_sec = 420

-- The loop with `remaining` seconds: how it ends (`none`: the rounds given are used up first), and
-- the values that qrisShowCountdown was called with, in order.
unfoldable pub wait_loop : ℕ → List Round → Option End × List ℕ
wait_loop zero rs = (some shows_expired, [])
wait_loop (suc remaining) [] = (none, [])
wait_loop (suc remaining) (r ∷ rs) =
    let later = wait_loop (suc remaining) rs in
    let (e, shown) = wait_loop remaining rs in
    let ticked : Option End × List ℕ = (e, remaining ∷ shown) in
    if r.paid
    then (some shows_paid, [])
    else if r.key
    then (some cancelled, [])
    else if r.second
    then ticked
    else later

-- qrisWaitPayment
unfoldable pub wait_payment : List Round → Option End × List ℕ
wait_payment rs = let (e, shown) = wait_loop qris_display_sec rs in (e, qris_display_sec ∷ shown)

-- The wait for the reply in QrisDinamis: at most 150 looks at G_qrisReplyReady, and one more behind
-- the loop. The list gives what the looks find; a look beyond the list finds false.
unfoldable pub reply_loop : ℕ → List Bool → List Bool
reply_loop zero ls = ls
reply_loop (suc n) [] = []
reply_loop (suc n) (l ∷ ls) = let rest = reply_loop n ls in if l then l ∷ ls else rest

abbrev pub seconds : List Round → ℕ
seconds [] = 0
seconds (r ∷ rs) = (if r.second then 1 else 0) + seconds rs

-- A payment is seen in some round, and up to it no key.
abbrev pub PaidFirst : List Round → Type 0
PaidFirst [] = ⊥
PaidFirst (r ∷ rs) = if r.paid then Unit else (if r.key then ⊥ else PaidFirst rs)

-- A key is pressed in some round, and up to it no payment is seen.
abbrev pub KeyFirst : List Round → Type 0
KeyFirst [] = ⊥
KeyFirst (r ∷ rs) = if r.paid then ⊥ else (if r.key then Unit else KeyFirst rs)

wait_loop-cancelled : (n : ℕ) (rs : List Round) → (wait_loop n rs).0 ≡ some cancelled → KeyFirst rs
unfolding wait_loop
wait_loop-cancelled zero rs h = cc
wait_loop-cancelled (suc n) [] h = cc
wait_loop-cancelled (suc n) (r ∷ rs) h =
    ground (arith, wait_loop-cancelled n rs, wait_loop-cancelled (suc n) rs)

wait_loop-none : (n : ℕ) (rs : List Round) → (wait_loop n rs).0 ≡ none → seconds rs < n
unfolding wait_loop
wait_loop-none zero rs h = cc
wait_loop-none (suc n) [] h = omega arith
wait_loop-none (suc n) (r ∷ rs) h = ground (arith, wait_loop-none n rs, wait_loop-none (suc n) rs)

wait_loop-shows_paid :
    (n : ℕ) (rs : List Round) → (wait_loop n rs).0 ≡ some shows_paid → PaidFirst rs
unfolding wait_loop
wait_loop-shows_paid zero rs h = cc
wait_loop-shows_paid (suc n) [] h = cc
wait_loop-shows_paid (suc n) (r ∷ rs) h =
    ground (arith, wait_loop-shows_paid n rs, wait_loop-shows_paid (suc n) rs)

wait_loop-shows_expired :
    (n : ℕ) (rs : List Round) → (wait_loop n rs).0 ≡ some shows_expired → n ≤ seconds rs
unfolding wait_loop
wait_loop-shows_expired zero rs h = omega arith
wait_loop-shows_expired (suc n) [] h = cc
wait_loop-shows_expired (suc n) (r ∷ rs) h =
    ground (arith, wait_loop-shows_expired n rs, wait_loop-shows_expired (suc n) rs)

-- What the rounds show when the wait ends.
abbrev pub Justifies : List Round → Option End → Type 0
Justifies rs (some shows_paid) = PaidFirst rs
Justifies rs (some cancelled) = KeyFirst rs
Justifies rs (some shows_expired) = 420 ≤ seconds rs
Justifies rs none = seconds rs < 420

justified : (rs : List Round) (e : Option End) → (wait_loop 420 rs).0 ≡ e → Justifies rs e
justified rs (some shows_paid) h = wait_loop-shows_paid 420 rs h
justified rs (some cancelled) h = wait_loop-cancelled 420 rs h
justified rs (some shows_expired) h = wait_loop-shows_expired 420 rs h
justified rs none h = wait_loop-none 420 rs h

-- "PEMBAYARAN BERHASIL" is shown only when a payment was seen before any key, a cancel follows only
-- from a key before any payment, "QR kedaluwarsa" is shown only after the timer has reported 420
-- seconds, and the wait goes on only while it has reported fewer.
pub wait_payment_lem : (rs : List Round) → Justifies rs (wait_payment rs).0
unfolding wait_payment
wait_payment_lem rs = justified rs (wait_loop 420 rs).0 refl

-- n - 1, ..., n - k
abbrev pub descending : ℕ → ℕ → List ℕ
descending zero k = []
descending (suc n) zero = []
descending (suc n) (suc k) = n ∷ descending n k

wait_loop-descending :
    (n : ℕ) (rs : List Round) → (wait_loop n rs).1 ≡ descending n (length (wait_loop n rs).1)
unfolding wait_loop
wait_loop-descending zero rs = refl
wait_loop-descending (suc n) [] = refl
wait_loop-descending (suc n) (r ∷ rs) =
    ground (arith, wait_loop-descending n rs, wait_loop-descending (suc n) rs)

-- The countdown on the screen starts at 420 and falls by one each time, with no value left out.
wait_payment-descending :
    (rs : List Round) → (wait_payment rs).1 ≡ 420 ∷ descending 420 (length (wait_loop 420 rs).1)
unfolding wait_payment
wait_payment-descending rs = ap (◌∷◌ 420) (wait_loop-descending 420 rs)
