-- ===== src/Net/Balance.antt =====
-- network.c: no connect path leaks a socket. Sockets made and given back are counted over the log.
use service_payment_bridge.Prelude.{
  ℕ, zero, suc, ◌+◌, ◌≡◌, refl, ◌∙◌, Bool, Option, none, [], ◌∷◌, Bytes, ℤ, is, is_neg,
  if◌then◌else◌, arith, Bool-cases, inl, inr,
}
use service_payment_bridge.Net.Connect.{
  root, chain, private_key, Ptr, null, slot, cast, Opened, socket, failed, is_minus_one,
  get_certificate, wifi_certificate, sim_certificate, configure_wifi_ssl, configure_sim_ssl,
  open_wifi_tcp, open_wifi_ssl, open_sim_tcp, open_sim_ssl, open_wifi, open_sim, dial, redial,
}
use service_payment_bridge.Net.Device.{Call, Oracle, Net, Log, M, pure, ◌>>=◌, invoke, buffer}

-- A create whose answer the code takes for a socket.
abbrev pub made : Call → ℤ → ℕ
made Call.wifi_socket_create r = if is_neg r then 0 else 1
made Call.wifi_ssl_socket_create r = if is_neg r then 0 else 1
made Call.socket_create r = if is_neg r then 0 else 1
made Call.ssl_socket_create r = if is_minus_one r then 0 else 1
made _ r = 0

abbrev pub freed : Call → ℕ
freed (Call.wifi_socket_close k) = 1
freed (Call.wifi_ssl_socket_close k) = 1
freed (Call.socket_close k) = 1
freed (Call.ssl_socket_close k) = 1
freed _ = 0

abbrev pub creates : Log → ℕ
creates [] = 0
creates ((c, r) ∷ l) = made c r + creates l

abbrev pub closes : Log → ℕ
closes [] = 0
closes ((c, r) ∷ l) = freed c + closes l

-- Between two states: the table and the mode are the same, and no socket was made or given back.
pub record Same (s t : Net) : Type 0 where
  pub same_sockets : t.sockets ≡ s.sockets
  pub same_commode : t.commode ≡ s.commode
  pub same_creates : creates t.log ≡ creates s.log
  pub same_closes : closes t.log ≡ closes s.log

abbrev pub Quiet : {A : Type 0} → M A → Type 0
Quiet m = (s : Net) → Same s (m s).1

pub Same-trans : {s t u : Net} → Same s t → Same t u → Same s u
Same-trans a b = record {
  same_sockets = b.same_sockets ∙ a.same_sockets;
  same_commode = b.same_commode ∙ a.same_commode;
  same_creates = b.same_creates ∙ a.same_creates;
  same_closes = b.same_closes ∙ a.same_closes;
}

Quiet-pure : {A : Type 0} (a : A) → Quiet (pure a)
Quiet-pure a s = record {
  same_sockets = refl;
  same_commode = refl;
  same_creates = refl;
  same_closes = refl;
}

Quiet-bind :
    {A B : Type 0} (m : M A) (f : A → M B) → Quiet m → ((a : A) → Quiet (f a)) → Quiet (m >>= f)
Quiet-bind m f h k s = Same-trans (h s) (k (m s).0 (m s).1)

module _ (o : Oracle) where
  pub Quiet-invoke : (c : Call) → ((r : ℤ) → made c r ≡ 0) → freed c ≡ 0 → Quiet (invoke o c)
  unfolding invoke
  Quiet-invoke c h k s = record {
    same_sockets = refl;
    same_commode = refl;
    same_creates = omega (arith, h (o.ret s.log c));
    same_closes = omega (arith, k);
  }

  get_certificate-Quiet : (name : Bytes) → Quiet (get_certificate o name)
  unfolding get_certificate invoke buffer
  get_certificate-Quiet name s = ground arith

  wifi_certificate-Quiet : (k : ℕ) (name : Bytes) → Quiet (wifi_certificate o k name)
  unfolding wifi_certificate
  wifi_certificate-Quiet k name =
      Quiet-bind (get_certificate o name) (λ c. invoke o (Call.wifi_download_crt k c.1))
        (get_certificate-Quiet name)
        (λ c. Quiet-invoke (Call.wifi_download_crt k c.1) (λ r. refl) refl)

  sim_certificate-Quiet : (k : ℕ) (name : Bytes) → Quiet (sim_certificate o k name)
  unfolding sim_certificate
  sim_certificate-Quiet k name =
      Quiet-bind (get_certificate o name) (λ c. invoke o (Call.send_ssl_file k c.1))
        (get_certificate-Quiet name) (λ c. Quiet-invoke (Call.send_ssl_file k c.1) (λ r. refl) refl)

  configure_wifi_ssl-Quiet : (ssl sock : ℤ) → Quiet (configure_wifi_ssl o ssl sock)
  unfolding configure_wifi_ssl
  configure_wifi_ssl-Quiet ssl sock s = elim (Bool-cases (is 1 ssl)) [
    | inl h ↦ rw h (Quiet-invoke (Call.wifi_ssl_config sock 0) (λ r. refl) refl s)
    | inr h ↦ rw h (
        Same-trans (Quiet-invoke (Call.wifi_ssl_config sock 3) (λ r. refl) refl s) (
          Same-trans (wifi_certificate-Quiet 0 root _) (
            Same-trans (wifi_certificate-Quiet 1 chain _)
              (wifi_certificate-Quiet 2 private_key _))))
  ]

  configure_sim_ssl-Quiet : (ssl : ℤ) → Quiet (configure_sim_ssl o ssl)
  unfolding configure_sim_ssl
  configure_sim_ssl-Quiet ssl s = elim (Bool-cases (is 2 ssl)) [
    | inl h ↦ rw h (
        Same-trans (Quiet-invoke (Call.set_ssl_mode 1) (λ r. refl) refl s) (
          Same-trans (sim_certificate-Quiet 0 root _)
            (Same-trans (sim_certificate-Quiet 1 private_key _) (sim_certificate-Quiet 2 chain _))))
    | inr h ↦ rw h (Quiet-invoke (Call.set_ssl_mode 0) (λ r. refl) refl s)
  ]

  -- The dialling loop makes no socket.
  pub dial-Quiet : (fuel : ℕ) (id : ℤ) (timeout : ℕ) (s : Net) → Same s (dial o fuel id timeout s).1
  unfolding dial redial invoke
  dial-Quiet zero id timeout s = Quiet-pure {A = Option Bool} none s
  dial-Quiet (suc fuel) id timeout s =
      ground
        (arith, dial-Quiet fuel id timeout (redial o id timeout (invoke o Call.ppp_check s).1).1)

abbrev pub IsEntry : Ptr → Type 0
IsEntry null = ⊥
IsEntry (slot i) = Unit
IsEntry (cast n) = ⊥

-- What was made is handed out or given back.
abbrev Settled : Opened → Net → Net → Type 0
Settled (socket k) s t = (creates t.log ≡ suc (creates s.log)) × (closes t.log ≡ closes s.log)
Settled (failed c) s t =
    (creates t.log + closes s.log ≡ closes t.log + creates s.log) × (¬ IsEntry c.ptr)

pub record Opens (r : Opened) (s t : Net) : Type 0 where
  pub table : t.sockets ≡ s.sockets
  pub mode : t.commode ≡ s.commode
  pub settled : Settled r s t

module _ (o : Oracle) where
  open_wifi_tcp-Opens :
      (host port : Bytes) (s : Net)
      → Opens (open_wifi_tcp o host port s).0 s (open_wifi_tcp o host port s).1
  unfolding open_wifi_tcp invoke
  open_wifi_tcp-Opens host port s = ground arith

  open_wifi_ssl-Opens :
      (ssl : ℤ) (host port : Bytes) (s : Net)
      → Opens (open_wifi_ssl o ssl host port s).0 s (open_wifi_ssl o ssl host port s).1
  unfolding open_wifi_ssl invoke
  open_wifi_ssl-Opens ssl host port s = ground (
    arith,
    configure_wifi_ssl-Quiet o ssl (o.ret s.log Call.wifi_ssl_socket_create)
        (invoke o Call.wifi_ssl_socket_create s).1,
  )

  open_sim_tcp-Opens :
      (host port : Bytes) (s : Net)
      → Opens (open_sim_tcp o host port s).0 s (open_sim_tcp o host port s).1
  unfolding open_sim_tcp invoke
  open_sim_tcp-Opens host port s = ground arith

  open_sim_ssl-Opens :
      (ssl : ℤ) (host port : Bytes) (s : Net)
      → Opens (open_sim_ssl o ssl host port s).0 s (open_sim_ssl o ssl host port s).1
  unfolding open_sim_ssl invoke
  open_sim_ssl-Opens ssl host port s = ground (arith, configure_sim_ssl-Quiet o ssl s)

  pub open_wifi-Opens :
      (ssl : ℤ) (host port : Bytes) (s : Net)
      → Opens (open_wifi o ssl host port s).0 s (open_wifi o ssl host port s).1
  unfolding open_wifi
  open_wifi-Opens ssl host port s =
      ground (arith, open_wifi_tcp-Opens host port s, open_wifi_ssl-Opens ssl host port s)

  pub open_sim-Opens :
      (ssl : ℤ) (host port : Bytes) (s : Net)
      → Opens (open_sim o ssl host port s).0 s (open_sim o ssl host port s).1
  unfolding open_sim
  open_sim-Opens ssl host port s =
      ground (arith, open_sim_tcp-Opens host port s, open_sim_ssl-Opens ssl host port s)
