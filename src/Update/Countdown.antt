-- ===== src/Update/Countdown.antt =====
-- tms.c: tmsRestTimer, tmsCheckOnceTimer and tmsCheckUpdate. TimerCheck_Api's answer is an argument.
use service_payment_bridge.Prelude.{
  ℕ, suc, ◌+◌, ◌-◌, ◌*◌, ◌%◌, ◌≤◌, ◌<◌, ◌≡◌, refl, Bool, true, false, Option, none, some, List, [],
  ◌∷◌, ◌++◌, ℤ, pos, negsuc, neg, at_most, leb, ◌==◌, if◌then◌else◌, arith, Bool-cases, inl, inr,
  ap, ◌∙◌,
}
use native.Mathlib.Decide.{dec_lt}

abbrev pub tms_play_once_time : ℕ
tms_play_once_time = 5

abbrev pub tms_max_time : ℕ
tms_max_time = 35

-- `tmsPlayTimer` (`none` for -1) and `tmsTotleTime`.
pub record Countdown : Type 0 where
  pub timer : Option ℕ
  pub total : ℤ

pub data Tip : Type 0 where
  new_app_found : ℤ → Tip
  seconds_to_update : ℤ → Tip

-- One call's answers: the timer that TimerSet_Api gives, and whether TimerCheck_Api reports 5 s.
pub record Tick : Type 0 where
  pub new_timer : ℕ
  pub expired : Bool

abbrev pub less_five : ℤ → ℤ
less_five (pos n) = if leb 5 n then pos (n - 5) else neg (5 - n)
less_five (negsuc n) = negsuc (n + 5)

abbrev pub is_max : ℤ → Bool
is_max (pos n) = n == tms_max_time
is_max (negsuc n) = false

abbrev pub tens : ℤ → Bool
tens (pos n) = n % 10 == 0
tens (negsuc n) = (n + 1) % 10 == 0

-- tmsCheckOnceTimer: the timer is started by the first call, which reports no time-out.
unfoldable pub check_once_timer : Tick → Countdown → Countdown × Bool
check_once_timer k c = elim c.timer [
  | none ↦ (record c { timer = some k.new_timer }, false)
  | some t ↦ (c, k.expired)
]

-- The body of "if (tmsCheckOnceTimer())".
unfoldable pub count_down : Tick → Countdown → Countdown × List Tip × ℕ
count_down k c =
    let left = less_five c.total in
    if is_max c.total
    then (record { timer = some k.new_timer; total = left }, new_app_found left ∷ [], 2)
    else if at_most 0 left
    then (record c { total = left }, [], 0)
    else (
      record { timer = some k.new_timer; total = left },
      (if tens left then seconds_to_update left ∷ [] else []),
      2,
    )

-- tmsCheckUpdate: 0 when the update is to start, else 2.
unfoldable pub check_update : Tick → Countdown → Countdown × List Tip × ℕ
check_update k c =
    let (c', fired) = check_once_timer k c in if fired then count_down k c' else (c', [], 2)

-- The loop of checkAppUpdate over its calls: it is left when 0 is returned.
unfoldable pub count_run : List Tick → Countdown → Countdown × List Tip × Bool
count_run [] c = (c, [], false)
count_run (k ∷ ks) c =
    let (c', tips, r) = check_update k c in
    let (c'', more, done) = count_run ks c' in
    if r == 0 then (c', tips, true) else (c'', tips ++ more, done)

abbrev pub fired : List Tick → ℕ
fired [] = 0
fired (k ∷ ks) = (if k.expired then 1 else 0) + fired ks

abbrev IsStarted : Option ℕ → Type 0
IsStarted none = ⊥
IsStarted (some t) = Unit

-- After `n` time-outs since the start, with the timer set.
abbrev After : ℕ → Countdown → Type 0
After n c = (c.total ≡ pos (35 - 5 * n)) × (n ≤ 6) × IsStarted c.timer

check_update_waits :
    (k : Tick) (n : ℕ) (c : Countdown)
    → After n c
    → k.expired ≡ false
    → ((check_update k c).2 ≡ 2) × After n (check_update k c).0
unfolding check_update check_once_timer
check_update_waits k n c h e = ground arith

check_update_fires :
    (k : Tick) (n : ℕ) (c : Countdown)
    → After n c
    → k.expired ≡ true
    → n < 6
    → ((check_update k c).2 ≡ 2) × After (suc n) (check_update k c).0
unfolding check_update check_once_timer count_down
check_update_fires k n c h e lt = ground arith

check_update_ends :
    (k : Tick) (c : Countdown) → After 6 c → k.expired ≡ true → (check_update k c).2 ≡ 0
unfolding check_update check_once_timer count_down
check_update_ends k c h e = ground arith

count_run-After :
    (ks : List Tick) (n : ℕ) (c : Countdown) → After n c → (count_run ks c).2 ≡ leb 7 (n + fired ks)
unfolding count_run
count_run-After [] n c h = ground arith
count_run-After (k ∷ ks) n c h =
    let c' = (check_update k c).0 in
    elim (Bool-cases k.expired) [
      | inl e ↦ elim (dec_lt n 6) [
        | yes lt ↦ ground (arith, check_update_fires k n c h e lt, count_run-After ks (suc n) c')
        | no ge ↦
            let six : n ≡ 6 = omega arith in ground (arith, check_update_ends k c (rw six at h) e)
      ]
      | inr e ↦ ground (arith, check_update_waits k n c h e, count_run-After ks n c')
    ]

-- From the initial time and with the timer set, the wait ends exactly when the timer has reported
-- seven time-outs, whatever calls report none in between.
count_run_seven :
    (ks : List Tick) (t : ℕ)
    → (count_run ks (record { timer = some t; total = pos tms_max_time })).2 ≡ leb 7 (fired ks)
count_run_seven ks t =
    count_run-After ks 0 (record { timer = some t; total = pos 35 }) (refl, omega arith, tt)
    ∙ ap (leb 7) (omega arith)

-- Once the count has reached 0 it stays there: the first time-out of a later update starts it at
-- once, with no announcement.
pub check_update_again :
    (k : Tick) (c : Countdown) (t : ℕ)
    → at_most 0 c.total ≡ true
    → c.timer ≡ some t
    → k.expired ≡ true
    → ((check_update k c).1 ≡ [])
      × ((check_update k c).2 ≡ 0)
      × (at_most 0 (check_update k c).0.total ≡ true)
unfolding check_update check_once_timer count_down
check_update_again k c t h e f = ground arith
