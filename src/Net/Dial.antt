-- ===== src/Net/Dial.antt =====
-- network.c: the dialling loop of net_connect ends.
use service_payment_bridge.Prelude.{
  ℕ, zero, suc, ◌+◌, ◌*◌, ◌≤◌, ◌≡◌, ◌≢◌, refl, Bool, true, false, Option, none, some, [], ◌∷◌,
  Bytes, ℤ, pos, arith,
}
use service_payment_bridge.Net.Connect.{redial, dial, connect_sim, connect_on, net_connect}
use service_payment_bridge.Net.Device.{Call, Commode, Oracle, Net, Log, invoke, get_commode}

-- The milliseconds that the thread has slept since it last set a timer.
abbrev pub slept : Log → ℕ
slept [] = 0
slept ((Call.delay k, r) ∷ l) = k + slept l
slept ((Call.timer_set, r) ∷ l) = 0
slept (_ ∷ l) = slept l

-- TimerCheck_Api reports 1 once the time that it is asked about has passed.
abbrev pub Clock : Oracle → Type 0
Clock o = (l : Log) (id : ℤ) (t : ℕ) → t ≤ slept l → o.ret l (Call.timer_check id t) ≡ pos 1

module _ (o : Oracle) (clock : Clock o) where
  redial_expired :
      (id : ℤ) (timeout : ℕ) (s : Net)
      → timeout ≤ slept s.log + 1000
      → (redial o id timeout s).0 ≡ pos 1
  unfolding redial invoke
  redial_expired id timeout s h = clock _ id timeout (omega arith)

  slept-redial :
      (id : ℤ) (timeout : ℕ) (s : Net) → slept (redial o id timeout s).1.log ≡ slept s.log + 1000
  unfolding redial invoke
  slept-redial id timeout s = omega arith

  slept-check : (s : Net) → slept (invoke o Call.ppp_check s).1.log ≡ slept s.log
  unfolding invoke
  slept-check s = refl

  dial-ne-none :
      (n : ℕ) (id : ℤ) (timeout : ℕ) (s : Net)
      → timeout ≤ slept s.log + 1000 * suc n
      → (dial o (suc n) id timeout s).0 ≢ none
  unfolding dial
  dial-ne-none zero id timeout s h =
      let s' = (invoke o Call.ppp_check s).1 in
      ground (arith, redial_expired id timeout s', slept-check s)
  dial-ne-none (suc n) id timeout s h =
      let s' = (invoke o Call.ppp_check s).1 in
      ground (
        arith,
        slept-check s,
        slept-redial id timeout s',
        dial-ne-none n id timeout (redial o id timeout s').1,
      )

  connect_sim-ne-none :
      (d : Option Bool) (host port : Bytes) (ssl : ℤ) (s : Net)
      → d ≢ none
      → (connect_sim o d ssl host port s).0 ≢ none
  unfolding connect_sim
  connect_sim-ne-none none host port ssl s h = absurd (h refl)
  connect_sim-ne-none (some false) host port ssl s h = λ e. cc
  connect_sim-ne-none (some true) host port ssl s h = λ e. cc

  connect_on-ne-none :
      (m : Commode) (n : ℕ) (host port : Bytes) (timeout : ℕ) (ssl : ℤ) (s : Net)
      → timeout ≤ 1000 * suc n
      → (connect_on o m (suc n) host port timeout ssl s).0 ≢ none
  unfolding connect_on
  connect_on-ne-none Commode.wifi n host port timeout ssl s h = λ e. cc
  connect_on-ne-none Commode.sim n host port timeout ssl s h =
      let s' = (invoke o Call.timer_set s).1 in
      let id = (invoke o Call.timer_set s).0 in
      connect_sim-ne-none _ host port ssl _ (dial-ne-none n id timeout s' (omega arith))

  -- net_connect returns: once the timer reports its time-out, a number of rounds that covers the
  -- time-out, at a second a round, is enough for the dialling loop.
  pub net_connect-ne-none :
      (n : ℕ) (host port : Bytes) (timeout : ℕ) (ssl : ℤ) (s : Net)
      → timeout ≤ 1000 * suc n
      → (net_connect o (suc n) host port timeout ssl s).0 ≢ none
  unfolding net_connect get_commode
  net_connect-ne-none n host port timeout ssl s h =
      connect_on-ne-none s.commode n host port timeout ssl s h
