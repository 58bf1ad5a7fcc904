-- ===== src/Monitor/Battery.antt =====
-- monitor.c: PlayPowrValue and BatChargeProc. A timer is `none` before TimerSet_Api gives one (-1).
use service_payment_bridge.Prelude.{
  ℕ, zero, suc, ◌<◌, ◌≡◌, ◌⊎◌, refl, Bool, true, false, not, ◌&&◌, ◌||◌, Option, none, some, List,
  [], ◌∷◌, ◌++◌, ℤ, pos, negsuc, at_most, is, leb, if◌then◌else◌, arith,
}

pub data Status : Type 0 where
  normal low off full charging error : Status

-- What the device plays or does; `electricity` carries the percentage.
pub data Act : Type 0 where
  say_charging say_fault say_full : Act
  say_electricity : ℤ → Act
  say_too_low say_low power_off : Act

-- What BatChargeProc_Api reports: its result, and the value of `isElect`.
pub record Reading : Type 0 where
  pub level : ℤ
  pub elect : ℤ

abbrev pub bater_warm : ℕ
bater_warm = 15

abbrev pub bater_powr_off : ℕ
bater_powr_off = 3

abbrev is_minus : ℕ → ℤ → Bool
is_minus k (pos n) = false
is_minus zero (negsuc n) = false
is_minus (suc k) (negsuc n) = leb n k && leb k n

-- PlayPowrValue
unfoldable pub play_powr_value : Bool → Reading → List Act
play_powr_value type r =
    if is 0xaa r.level
    then say_charging ∷ []
    else if is_minus 2 r.level
    then say_fault ∷ []
    else if is 1 r.elect
    then say_full ∷ []
    else if type
    then say_electricity r.level
      ∷ (if at_most bater_powr_off r.level
          then say_too_low ∷ power_off ∷ []
          else if at_most bater_warm r.level
          then say_low ∷ []
          else [])
    else []

-- The value that BatChargeProc computes from the reading; `none`: it returns -1.
unfoldable pub classify : Reading → Option Status
classify r =
    if is 0xaa r.level
    then some charging
    else if is_minus 2 r.level || is_minus 1 r.level
    then none
    else if is 1 r.elect
    then some full
    else if at_most bater_powr_off r.level
    then some off
    else if at_most bater_warm r.level
    then some low
    else some normal

-- The static variables of the file, and the answers to one call: two readings (the second one for
-- PlayPowrValue), the timers that TimerSet_Api would give, what TimerCheck_Api says of a period, and
-- the hour of GetSysTime_Api.
pub record Watch : Type 0 where
  pub timer : Option ℕ
  pub status : Status

pub record Answers : Type 0 where
  pub reading : Reading
  pub second : Reading
  pub third : Reading
  pub new_timer : ℕ
  pub expired : Option ℕ → ℕ → Bool
  pub hour : ℕ

abbrev same_status : Status → Status → Bool
same_status normal normal = true
same_status low low = true
same_status off off = true
same_status full full = true
same_status charging charging = true
same_status error error = true
same_status _ _ = false

abbrev is_full : Status → Bool
is_full full = true
is_full _ = false

abbrev is_normal : Status → Bool
is_normal normal = true
is_normal _ = false

-- `BAT_LOW`, `BAT_OFF`, `BAT_FULL` or `BAT_ERROR`
abbrev is_repeated : Status → Bool
is_repeated low = true
is_repeated off = true
is_repeated full = true
is_repeated error = true
is_repeated _ = false

-- "if(Ret != batStatue)": the new status, announced when it is not the normal one.
unfoldable pub change_status : Answers → Status → Watch → Watch × List Act
change_status a new w =
    if same_status new w.status
    then (w, [])
    else if is_normal new
    then (record w { status = new }, [])
    else (record { timer = some a.new_timer; status = new }, play_powr_value false a.second)

-- "if(TimerCheck_Api(batChargePlayTimer, timers))": the repeated announcement; the flag is -1's.
unfoldable pub repeat_status : Answers → Watch → Watch × List Act × Bool
repeat_status a w =
    if a.expired w.timer (if is_full w.status then 120000 else 300000)
    then (if is_repeated w.status
        then (if is_full w.status && not (leb 8 a.hour && leb a.hour 22)
            then (record w { timer = some a.new_timer }, [], true)
            else (record w { timer = some a.new_timer }, play_powr_value false a.third, false))
        else (record w { timer = some a.new_timer }, [], false))
    else (w, [], false)

-- The static timer is set on the first call.
unfoldable pub start_timer : Answers → Watch → Watch
start_timer a w = elim w.timer [ none ↦ record w { timer = some a.new_timer } | some t ↦ w ]

unfoldable pub charge_on : Answers → Option Status → Watch → Watch × List Act × Bool
charge_on a none w = (w, [], true)
charge_on a (some new) w =
    let (w', first) = change_status a new w in
    let (w'', more, failed) = repeat_status a w' in (w'', first ++ more, failed)

-- BatChargeProc: the variables, the actions in order, and whether it returned -1.
unfoldable pub bat_charge_proc : Answers → Watch → Watch × List Act × Bool
bat_charge_proc a w = charge_on a (classify a.reading) (start_timer a w)

-- A low battery is to be announced, or the device to be powered off.
abbrev pub Warns : Act → Type 0
Warns say_too_low = Unit
Warns say_low = Unit
Warns power_off = Unit
Warns (say_electricity k) = Unit
Warns _ = ⊥

abbrev pub NoneWarns : List Act → Type 0
NoneWarns [] = Unit
NoneWarns (x ∷ xs) = (¬ Warns x) × NoneWarns xs

play_powr_value-NoneWarns : (r : Reading) → NoneWarns (play_powr_value false r)
unfolding play_powr_value
play_powr_value-NoneWarns r = ground arith

NoneWarns-append : (xs ys : List Act) → NoneWarns xs → NoneWarns ys → NoneWarns (xs ++ ys)
NoneWarns-append [] ys h k = k
NoneWarns-append (x ∷ xs) ys h k = (h.0, NoneWarns-append xs ys h.1 k)

change_status-NoneWarns :
    (a : Answers) (new : Status) (w : Watch) → NoneWarns (change_status a new w).1
unfolding change_status
change_status-NoneWarns a new w = ground (arith, play_powr_value-NoneWarns a.second)

repeat_status-NoneWarns : (a : Answers) (w : Watch) → NoneWarns (repeat_status a w).1
unfolding repeat_status
repeat_status-NoneWarns a w = ground (arith, play_powr_value-NoneWarns a.third)

charge_on-NoneWarns : (a : Answers) (c : Option Status) (w : Watch) → NoneWarns (charge_on a c w).1
unfolding charge_on
charge_on-NoneWarns a none w = tt
charge_on-NoneWarns a (some new) w =
    NoneWarns-append _ _ (change_status-NoneWarns a new w)
      (repeat_status-NoneWarns a (change_status a new w).0)

-- Whatever the readings, BatChargeProc never announces a low battery nor powers the device off: it
-- asks PlayPowrValue for type 0, which leaves those cases silent.
pub bat_charge_proc_silent : (a : Answers) (w : Watch) → NoneWarns (bat_charge_proc a w).1
unfolding bat_charge_proc
bat_charge_proc_silent a w = charge_on-NoneWarns a (classify a.reading) (start_timer a w)

-- The status after a call, by what the reading says.
abbrev pub Follows : Option Status → Watch → Watch × List Act × Bool → Type 0
Follows (some s) w r = r.0.status ≡ s
Follows none w r = (r.0.status ≡ w.status) × (r.1 ≡ [])

follows :
    (a : Answers) (c : Option Status) (w u : Watch)
    → u.status ≡ w.status
    → Follows c w (charge_on a c u)
unfolding charge_on change_status repeat_status
follows a none w u h = (h, refl)
follows a (some new) w u h = ground arith

-- A reading that is no fault becomes the status, and a fault leaves the status and plays nothing.
bat_charge_proc-status :
    (a : Answers) (w : Watch) → Follows (classify a.reading) w (bat_charge_proc a w)
unfolding bat_charge_proc start_timer
bat_charge_proc-status a w = follows a (classify a.reading) w (start_timer a w) (ground arith)

-- A full battery is not announced again between 23:00 and 7:59.
pub bat_charge_proc_night :
    (a : Answers) (w : Watch)
    → classify a.reading ≡ some full
    → w.status ≡ full
    → (a.hour < 8) ⊎ (22 < a.hour)
    → (bat_charge_proc a w).1 ≡ []
unfolding bat_charge_proc charge_on change_status repeat_status start_timer
bat_charge_proc_night a w h k n = ground arith
