-- ===== src/Examples/Sockets.antt =====
-- network.c at concrete inputs: a platform that answers 7 to a create and reports every time-out.
use service_payment_bridge.Prelude.{
  ◌+◌, ◌≤◌, ◌≡◌, ◌≢◌, refl, none, some, List, [], ◌∷◌, codes, ℤ, pos, negsuc, arith,
}
use service_payment_bridge.Net.Balance.{creates, closes}
use service_payment_bridge.Net.Connect.{
  slot, net_connect, connect_on, connect_with, open_wifi, open_wifi_tcp, keep_socket,
}
use service_payment_bridge.Net.Device.{
  Call, Commode, Oracle, Net, net_init, find_free, invoke, get_commode, get_sockets, set_sockets,
}
use service_payment_bridge.Net.Dial.{Clock, net_connect-ne-none}
use service_payment_bridge.Net.Pool.{valid_count, Connected, net_connect-Connected}
use service_payment_bridge.Net.Session.{Op, connect, close, switch, run, run_bounded}

abbrev answer : Call → ℤ
answer Call.wifi_socket_create = pos 7
answer (Call.timer_check id t) = pos 1
answer (Call.wifi_recv sock len t) = pos 1
answer Call.wifi_ssl_socket_create = negsuc 0
answer _ = pos 0

abbrev platform : Oracle
platform = record { ret = λ l c. answer c; filled = λ l c. [] }

abbrev booted : Net
booted = net_init Commode.wifi []

abbrev some_ops : List Op
some_ops =
    connect 3 (codes "host") (codes "80") 60000 (pos 0) ∷ close (slot 0) ∷ switch Commode.sim ∷ []

run_bounded_example :
    let t = run platform some_ops (net_init Commode.wifi []) in
    (creates t.log ≡ closes t.log + valid_count t.sockets) × (valid_count t.sockets ≤ 10)
run_bounded_example = run_bounded platform some_ops Commode.wifi

net_connect-Connected_example :
    Connected
      (pos 0)
      (record { ptr = slot 0; err = some (pos 0) })
      booted
      (net_connect platform 3 (codes "host") (codes "80") 60000 (pos 0) booted).1
unfolding net_init net_connect get_commode connect_on connect_with get_sockets find_free open_wifi
    open_wifi_tcp keep_socket invoke set_sockets
net_connect-Connected_example =
    net_connect-Connected platform 3 (codes "host") (codes "80") 60000 (pos 0) booted
      (record { ptr = slot 0; err = some (pos 0) }) refl

platform-Clock : Clock platform
platform-Clock l id t h = refl

net_connect-ne-none_example :
    (net_connect platform 60 (codes "host") (codes "80") 60000 (pos 0) booted).0 ≢ none
net_connect-ne-none_example =
    net_connect-ne-none platform platform-Clock 59 (codes "host") (codes "80") 60000 (pos 0) booted
      (omega arith)
