-- ===== src/Net/Connect.antt =====
-- network.c: getCertificate and net_connect. The lines that only write the log are left out.
use service_payment_bridge.Prelude.{
  ℕ, zero, suc, Bool, true, false, Option, none, some, [], Bytes, codes, cstr, ℤ, pos, negsuc, is,
  is_neg, neg, ltb, at_most, set, if◌then◌else◌, pos_part,
}
use service_payment_bridge.Net.Device.{
  Call, Commode, Oracle, M, pure, ◌>>=◌, ◌>>◌, invoke, buffer, get_commode, get_sockets,
  set_sockets, find_free, certi_len,
}

-- A `void *` result: NULL, the address of a table entry, or a number that is cast to a pointer.
pub data Ptr : Type 0 where
  null : Ptr
  slot : ℕ → Ptr
  cast : ℤ → Ptr

-- What net_connect returns, and what it leaves in `*errCode` (`none`: it does not write it).
pub record Conn : Type 0 where
  pub ptr : Ptr
  pub err : Option ℤ

-- The part between the choice of an entry and its use: a connected socket, or an early return.
pub data Opened : Type 0 where
  socket : ℤ → Opened
  failed : Conn → Opened

abbrev pub fail_with : ℕ → Conn
fail_with k = record { ptr = null; err = some (neg k) }

abbrev pub root : Bytes
root = codes "/ext/app/data/ca.pem"

abbrev pub chain : Bytes
chain = codes "/ext/app/data/cli.crt"

abbrev pub private_key : Bytes
private_key = codes "/ext/app/data/pri.key"

abbrev pub is_minus_one : ℤ → Bool
is_minus_one (pos n) = false
is_minus_one (negsuc zero) = true
is_minus_one (negsuc (suc n)) = false

module _ (o : Oracle) where
  -- The result, and what the zeroed buffer of the caller then holds as a C string. A file of exactly CERTI_LEN bytes
  -- without a NUL is taken up to its end, behind which the code's strlen reads on.
  unfoldable pub get_certificate : Bytes → M (ℤ × Bytes)
  get_certificate name = do
    n ← invoke o (Call.file_size name)
    if at_most 0 n
        then pure (neg 1, [])
        else if ltb certi_len (pos_part n)
        then pure (neg 2, [])
        else do
          b ← buffer o (Call.read_file name)
          r ← invoke o (Call.read_file name)
          if is 0 r then pure (pos 0, cstr b) else pure (neg 3, [])

  unfoldable pub wifi_certificate : ℕ → Bytes → M ℤ
  wifi_certificate k name = do c ← get_certificate name; invoke o (Call.wifi_download_crt k c.1)

  unfoldable pub sim_certificate : ℕ → Bytes → M ℤ
  sim_certificate k name = do c ← get_certificate name; invoke o (Call.send_ssl_file k c.1)

  -- WIFI, `ssl == 0`
  unfoldable pub open_wifi_tcp : Bytes → Bytes → M Opened
  open_wifi_tcp host port = do
    sock ← invoke o Call.wifi_socket_create
    if is_neg sock then pure (failed (fail_with 4)) else do
      r ← invoke o (Call.wifi_tcp_connect sock host port 60000)
      if is 0 r
          then pure (socket sock)
          else do invoke o (Call.wifi_socket_close sock); pure (failed (fail_with 5))

  -- WIFI, the TLS configuration of a socket
  unfoldable pub configure_wifi_ssl : ℤ → ℤ → M ℤ
  configure_wifi_ssl ssl sock = if is 1 ssl then invoke o (Call.wifi_ssl_config sock 0) else do
    invoke o (Call.wifi_ssl_config sock 3)
    wifi_certificate 0 root
    wifi_certificate 1 chain
    wifi_certificate 2 private_key

  -- WIFI, `ssl != 0`; the failure of the create is `return -4`
  unfoldable pub open_wifi_ssl : ℤ → Bytes → Bytes → M Opened
  open_wifi_ssl ssl host port = do
    sock ← invoke o Call.wifi_ssl_socket_create
    if is_neg sock then pure (failed (record { ptr = cast (neg 4); err = none })) else do
      configure_wifi_ssl ssl sock
      r ← invoke o (Call.wifi_ssl_connect sock host port 60000)
      if is 0 r
          then pure (socket sock)
          else do invoke o (Call.wifi_ssl_socket_close sock); pure (failed (fail_with 5))

  -- A round of the loop below whose check failed.
  unfoldable pub redial : ℤ → ℕ → M ℤ
  redial id timeout = do
    invoke o Call.ppp_open
    invoke o (Call.delay 1000)
    invoke o (Call.timer_check id timeout)

  -- The loop over wirelessCheckPppDial_Api: `some true` when it is left by `break`, `some false` on
  -- the time-out, `none` when the fuel is used up.
  unfoldable pub dial : ℕ → ℤ → ℕ → M (Option Bool)
  dial zero id timeout s = (none, s)
  dial (suc fuel) id timeout s =
      let (r, s') = invoke o Call.ppp_check s in
      let (t, s'') = redial id timeout s' in
      let rest = dial fuel id timeout s'' in
      if is 0 r then (some true, s') else if is 1 t then (some false, s'') else rest

  -- SIM, the TLS mode of the module
  unfoldable pub configure_sim_ssl : ℤ → M ℤ
  configure_sim_ssl ssl =
      if is 2 ssl
      then (do
        invoke o (Call.set_ssl_mode 1)
        sim_certificate 0 root
        sim_certificate 1 private_key
        sim_certificate 2 chain)
      else invoke o (Call.set_ssl_mode 0)

  -- SIM, `ssl == 0`
  unfoldable pub open_sim_tcp : Bytes → Bytes → M Opened
  open_sim_tcp host port = do
    sock ← invoke o Call.socket_create
    if is_neg sock then pure (failed (fail_with 4)) else do
      r ← invoke o (Call.tcp_connect sock host port 10000)
      if is 0 r
          then pure (socket sock)
          else do invoke o (Call.socket_close sock); pure (failed (fail_with 5))

  -- SIM, `ssl != 0`; only -1 counts as a failed create
  unfoldable pub open_sim_ssl : ℤ → Bytes → Bytes → M Opened
  open_sim_ssl ssl host port = do
    configure_sim_ssl ssl
    invoke o (Call.set_ssl_ver 4)
    sock ← invoke o Call.ssl_socket_create
    if is_minus_one sock then pure (failed (fail_with 4)) else do
      r ← invoke o (Call.ssl_connect sock host port 10000)
      if is 0 r
          then pure (socket sock)
          else do invoke o (Call.ssl_socket_close sock); pure (failed (fail_with 5))

  unfoldable pub open_wifi : ℤ → Bytes → Bytes → M Opened
  open_wifi ssl host port =
      if is 0 ssl then open_wifi_tcp host port else open_wifi_ssl ssl host port

  unfoldable pub open_sim : ℤ → Bytes → Bytes → M Opened
  open_sim ssl host port = if is 0 ssl then open_sim_tcp host port else open_sim_ssl ssl host port

  -- `sockets[i] = {1, ssl, sock}; *errCode = 0; return &sockets[i];`
  unfoldable pub keep_socket : ℕ → ℤ → Opened → M Conn
  keep_socket i ssl (failed c) = pure c
  keep_socket i ssl (socket sock) = do
    ss ← get_sockets
    set_sockets (set ss i (record { valid = true; socket = sock; ssl = ssl }))
    pure (record { ptr = slot i; err = some (pos 0) })

  -- The choice of an entry, the opening of a socket, and the entry's use.
  unfoldable pub connect_with : ℤ → M Opened → M Conn
  connect_with ssl opening = do
    ss ← get_sockets
    elim (find_free ss) [ none ↦ pure (fail_with 3) | some i ↦ do r ← opening; keep_socket i ssl r ]

  unfoldable pub connect_sim : Option Bool → ℤ → Bytes → Bytes → M (Option Conn)
  connect_sim none ssl host port = pure none
  connect_sim (some false) ssl host port = pure (some (fail_with 1))
  connect_sim (some true) ssl host port = do
    invoke o Call.set_dns
    c ← connect_with ssl (open_sim ssl host port)
    pure (some c)

  unfoldable pub connect_on : Commode → ℕ → Bytes → Bytes → ℕ → ℤ → M (Option Conn)
  connect_on Commode.wifi fuel host port timeout ssl = do
    c ← connect_with ssl (open_wifi ssl host port)
    pure (some c)
  connect_on Commode.sim fuel host port timeout ssl = do
    id ← invoke o Call.timer_set
    dialled ← dial fuel id timeout
    connect_sim dialled ssl host port

  -- net_connect; `none` only when the dialling loop runs out of fuel.
  unfoldable pub net_connect : ℕ → Bytes → Bytes → ℕ → ℤ → M (Option Conn)
  net_connect fuel host port timeout ssl = do
    m ← get_commode
    connect_on m fuel host port timeout ssl
