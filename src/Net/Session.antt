-- ===== src/Net/Session.antt =====
-- network.c: the table over any sequence of connects and closes.
use service_payment_bridge.Prelude.{
  ℕ, ◌+◌, ◌≤◌, ◌≡◌, refl, ◌∙◌, Bool, true, false, Option, none, some, List, [], ◌∷◌, Bytes, ℤ,
  length, get_elem?, length-set, arith, Option-cases, inl, inr,
}
use service_payment_bridge.Net.Balance.{creates, closes, Same, dial-Quiet, Quiet-invoke}
use service_payment_bridge.Net.Connect.{
  Ptr, null, slot, cast, Conn, connect_sim, connect_on, net_connect,
}
use service_payment_bridge.Net.Device.{
  Call, Slot, Commode, Oracle, Net, invoke, get_commode, get_sockets, set_sockets, net_init,
}
use service_payment_bridge.Net.Pool.{
  KeepsBalance, valid_count, valid_count-le-length, valid_count-set_closed, Connected,
  connect_sim-Connected, connect_on-Connected,
}
use service_payment_bridge.Net.Transfer.{entry, target, close_call, close_target, net_close}

-- What every operation keeps: the size of the table, and the balance of sockets.
record Keeps (s t : Net) : Type 0 where
  table_size : length t.sockets ≡ length s.sockets
  balance : KeepsBalance s t

Keeps-of_Connected : {ssl : ℤ} {c : Conn} {s t : Net} → Connected ssl c s t → Keeps s t
Keeps-of_Connected {s = s} r = record {
  table_size = elim r.outcome [
    | inl (i, k, e, f, g) ↦ rw g (length-set s.sockets i _)
    | inr (n, g) ↦ rw g refl
  ];
  balance = r.balance;
}

Keeps-of_Same : {s t : Net} → Same s t → Keeps s t
Keeps-of_Same a = record {
  table_size = rw a.same_sockets refl;
  balance = rw (a.same_creates, a.same_closes, a.same_sockets) (omega arith);
}

Keeps-trans : {s t u : Net} → Keeps s t → Keeps t u → Keeps s u
Keeps-trans a b = record {
  table_size = b.table_size ∙ a.table_size;
  balance = omega (arith, a.balance, b.balance);
}

module _ (o : Oracle) where
  connect_sim-Keeps :
      (d : Option Bool) (host port : Bytes) (ssl : ℤ) (s : Net)
      → Keeps s (connect_sim o d ssl host port s).1
  unfolding connect_sim
  connect_sim-Keeps none host port ssl s = record { table_size = refl; balance = omega arith }
  connect_sim-Keeps (some false) host port ssl s =
      Keeps-of_Connected (connect_sim-Connected o (some false) host port ssl s _ refl)
  connect_sim-Keeps (some true) host port ssl s =
      Keeps-of_Connected (connect_sim-Connected o (some true) host port ssl s _ refl)

  connect_on-Keeps :
      (m : Commode) (fuel : ℕ) (host port : Bytes) (timeout : ℕ) (ssl : ℤ) (s : Net)
      → Keeps s (connect_on o m fuel host port timeout ssl s).1
  unfolding connect_on
  connect_on-Keeps Commode.wifi fuel host port timeout ssl s =
      Keeps-of_Connected (connect_on-Connected o Commode.wifi fuel host port timeout ssl s _ refl)
  connect_on-Keeps Commode.sim fuel host port timeout ssl s =
      Keeps-trans (Keeps-of_Same (Quiet-invoke o Call.timer_set (λ r. refl) refl s)) (
        Keeps-trans (Keeps-of_Same (dial-Quiet o fuel _ timeout _))
          (connect_sim-Keeps _ host port ssl _))

  close_entry-Keeps :
      (m : Commode) (i : ℕ) (x : Slot) (s : Net)
      → s.commode ≡ m
      → get_elem? s.sockets i ≡ some x
      → Keeps s (close_target o (entry i x) s).1
  unfolding close_target close_call get_commode get_sockets set_sockets invoke
  close_entry-Keeps Commode.wifi i x s e h = ground (
    arith,
    length-set s.sockets i (record x { valid = false }),
    valid_count-set_closed s.sockets i x (record x { valid = false }) h,
  )
  close_entry-Keeps Commode.sim i x s e h = ground (
    arith,
    length-set s.sockets i (record x { valid = false }),
    valid_count-set_closed s.sockets i x (record x { valid = false }) h,
  )

  net_close-Keeps : (p : Ptr) (s : Net) → Keeps s (net_close o p s).1
  unfolding net_close close_target target get_sockets
  net_close-Keeps null s = record { table_size = refl; balance = omega arith }
  net_close-Keeps (cast n) s = record { table_size = refl; balance = omega arith }
  net_close-Keeps (slot i) s = elim (Option-cases (get_elem? s.sockets i)) [
    | inl e ↦ rw (e, net_close, target) (record { table_size = refl; balance = omega arith })
    | inr (x, e) ↦ rw (e, target) (close_entry-Keeps s.commode i x s refl e)
  ]

-- What the threads of the firmware do with the table: connect, close, and change the mode.
pub data Op : Type 0 where
  connect : ℕ → Bytes → Bytes → ℕ → ℤ → Op
  close : Ptr → Op
  switch : Commode → Op

unfoldable pub apply : Oracle → Op → Net → Net
apply o (connect fuel host port timeout ssl) s = (net_connect o fuel host port timeout ssl s).1
apply o (close p) s = (net_close o p s).1
apply o (switch m) s = record s { commode = m }

unfoldable pub run : Oracle → List Op → Net → Net
run o [] s = s
run o (x ∷ xs) s = run o xs (apply o x s)

apply-Keeps : (o : Oracle) (x : Op) (s : Net) → Keeps s (apply o x s)
unfolding apply net_connect get_commode
apply-Keeps o (connect fuel host port timeout ssl) s =
    connect_on-Keeps o s.commode fuel host port timeout ssl s
apply-Keeps o (close p) s = net_close-Keeps o p s
apply-Keeps o (switch m) s = record { table_size = refl; balance = omega arith }

run-Keeps : (o : Oracle) (xs : List Op) (s : Net) → Keeps s (run o xs s)
unfolding run
run-Keeps o [] s = record { table_size = refl; balance = omega arith }
run-Keeps o (x ∷ xs) s = Keeps-trans (apply-Keeps o x s) (run-Keeps o xs (apply o x s))

-- After net_init, whatever connects, closes and changes of mode follow and whatever the platform
-- answers, the sockets made exceed those given back by the number of entries in use, which is at
-- most 10.
pub run_bounded :
    (o : Oracle) (xs : List Op) (m : Commode)
    → let t = run o xs (net_init m []) in
      (creates t.log ≡ closes t.log + valid_count t.sockets) × (valid_count t.sockets ≤ 10)
unfolding net_init
run_bounded o xs m =
    let k = run-Keeps o xs (net_init m []) in
    (
      omega (arith, k.balance),
      omega (arith, k.table_size, valid_count-le-length (run o xs (net_init m [])).sockets),
    )
