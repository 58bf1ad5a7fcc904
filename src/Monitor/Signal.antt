-- ===== src/Monitor/Signal.antt =====
-- monitor.c: SingalProc. `signalCount` is an unsigned short.
use service_payment_bridge.Prelude.{
  ℕ, ◌+◌, ◌*◌, ◌%◌, ◌≤◌, Bool, true, false, ◌&&◌, List, [], ◌∷◌, ℤ, at_most, ltb, length,
  if◌then◌else◌, arith,
}

-- One call's answers: whether TimerCheck_Api reports 3 s, and the strength of CommSignalProc_Api.
pub record Poll : Type 0 where
  pub fired : Bool
  pub strength : ℤ

-- The count, and whether "signal is poor" is played.
unfoldable pub signal_proc : Poll → ℕ → ℕ × Bool
signal_proc p count =
    if p.fired
    then (if at_most 1 p.strength && ltb 100 count then (0, true) else ((count + 1) % 65536, false))
    else (count, false)

-- A run of calls: the last count, and the announcements made.
unfoldable pub signal_run : List Poll → ℕ → ℕ × ℕ
signal_run [] count = (count, 0)
signal_run (p ∷ ps) count =
    let (count', played) = signal_proc p count in
    let (last, n) = signal_run ps count' in (last, (if played then 1 else 0) + n)

signal_proc_cost :
    (p : Poll) (count : ℕ)
    → (signal_proc p count).0 + (if (signal_proc p count).1 then 102 else 0) ≤ count + 1
unfolding signal_proc
signal_proc_cost p count = ground arith

-- Over any run of calls, each announcement of a poor signal is paid for by 102 polls: with `count`
-- the counter at the start, 102 * announcements + counter at the end ≤ count + calls.
signal_run_sparse :
    (ps : List Poll) (count : ℕ)
    → 102 * (signal_run ps count).1 + (signal_run ps count).0 ≤ count + length ps
unfolding signal_run
signal_run_sparse [] count = omega arith
signal_run_sparse (p ∷ ps) count =
    ground (arith, signal_proc_cost p count, signal_run_sparse ps (signal_proc p count).0)
