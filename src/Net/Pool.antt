-- ===== src/Net/Pool.antt =====
-- network.c: the entries of the table over net_connect and net_close, and the sockets that they hold.
use service_payment_bridge.Prelude.{
  ℕ, zero, suc, ◌+◌, ◌≤◌, ◌<◌, ◌≡◌, ◌⊎◌, refl, ap, ◌∙◌, Bool, true, false, Option, none, some, List,
  [], ◌∷◌, Bytes, ℤ, pos, neg, is, is_neg, length, get_elem?, set, if◌then◌else◌, arith,
  Option-cases, inl, inr,
}
use mathlib.Core.Option
use mathlib.Core.Path.{subst}
use service_payment_bridge.Net.Balance.{
  creates, closes, Same, Opens, open_wifi-Opens, open_sim-Opens, dial-Quiet, Quiet-invoke, IsEntry,
}
use service_payment_bridge.Net.Connect.{
  slot, cast, Conn, Opened, socket, failed, fail_with, open_wifi, open_sim, keep_socket,
  open_wifi_ssl, connect_with, connect_sim, connect_on, net_connect,
}
use service_payment_bridge.Net.Device.{
  Call, Slot, Commode, Oracle, Net, M, invoke, get_commode, get_sockets, set_sockets, find_free,
}

some_inj : {x y : Conn} → some x ≡ some y → x ≡ y
some_inj h = cc

abbrev pub valid_count : List Slot → ℕ
valid_count [] = 0
valid_count (x ∷ xs) = (if x.valid then 1 else 0) + valid_count xs

-- Each socket that was made and not given back is held by an entry of the table.
abbrev pub Balanced : Net → Type 0
Balanced s = creates s.log ≡ closes s.log + valid_count s.sockets

pub valid_count-le-length : (ss : List Slot) → valid_count ss ≤ length ss
valid_count-le-length [] = omega arith
valid_count-le-length (x ∷ ss) = ground (arith, valid_count-le-length ss)

-- From one state to a later one, the sockets made less those given back change as the entries in use.
abbrev pub KeepsBalance : Net → Net → Type 0
KeepsBalance s t =
    creates t.log + closes s.log + valid_count s.sockets
    ≡ creates s.log + closes t.log + valid_count t.sockets

-- The entry that the search finds is in the table and free.
pub record IsFree (ss : List Slot) (i : ℕ) : Type 0 where
  pub inside : i < length ss
  pub unused : Option.map (λ x. x.valid) (get_elem? ss i) ≡ some false

find_free-IsFree : (ss : List Slot) (i : ℕ) → find_free ss ≡ some i → IsFree ss i
unfolding find_free
find_free-IsFree [] i h = cc
find_free-IsFree (x ∷ ss) zero h = ground arith
find_free-IsFree (x ∷ ss) (suc i) h = ground (arith, find_free-IsFree ss i)

valid_count-set_free :
    (ss : List Slot) (i : ℕ) (x : Slot)
    → find_free ss ≡ some i
    → x.valid ≡ true
    → valid_count (set ss i x) ≡ suc (valid_count ss)
unfolding find_free
valid_count-set_free [] i x h v = cc
valid_count-set_free (y ∷ ss) zero x h v = ground arith
valid_count-set_free (y ∷ ss) (suc i) x h v = ground (arith, valid_count-set_free ss i x)

pub valid_count-set_closed :
    (ss : List Slot) (i : ℕ) (x y : Slot)
    → get_elem? ss i ≡ some x
    → x.valid ≡ true
    → y.valid ≡ false
    → suc (valid_count (set ss i y)) ≡ valid_count ss
valid_count-set_closed [] i x y h v w = cc
valid_count-set_closed (z ∷ ss) zero x y h v w = ground arith
valid_count-set_closed (z ∷ ss) (suc i) x y h v w = ground (arith, valid_count-set_closed ss i x y)

-- What a connect leaves: a free entry taken, or the table as it was; and the balance kept.
abbrev pub Taken : ℤ → Conn → List Slot → List Slot → Type 0
Taken ssl c ss ts =
    (i : ℕ) × (k : ℤ) × (c ≡ record { ptr = slot i; err = some (pos 0) })
    × IsFree ss i
    × (ts ≡ set ss i (record { valid = true; socket = k; ssl = ssl }))

abbrev pub Refused : Conn → List Slot → List Slot → Type 0
Refused c ss ts = (¬ IsEntry c.ptr) × (ts ≡ ss)

pub record Connected (ssl : ℤ) (c : Conn) (s t : Net) : Type 0 where
  pub outcome : Taken ssl c s.sockets t.sockets ⊎ Refused c s.sockets t.sockets
  pub mode_kept : t.commode ≡ s.commode
  pub balance : KeepsBalance s t

module _ (o : Oracle) where
  keep_socket-Connected :
      (ssl : ℤ) (i : ℕ) (r : Opened) (s t : Net)
      → find_free s.sockets ≡ some i
      → Opens r s t
      → Connected ssl (keep_socket o i ssl r t).0 s (keep_socket o i ssl r t).1
  unfolding keep_socket get_sockets set_sockets
  keep_socket-Connected ssl i (socket k) s t h p = record {
    outcome = inl (i, k, refl, find_free-IsFree s.sockets i h, rw p.table refl);
    mode_kept = p.mode;
    balance = rw p.table (
        omega (
          arith,
          p.settled,
          valid_count-set_free s.sockets i (record { valid = true; socket = k; ssl = ssl }) h refl,
        ));
  }
  keep_socket-Connected ssl i (failed c) s t h p = record {
    outcome = inr (p.settled.1, p.table);
    mode_kept = p.mode;
    balance = rw p.table (omega (arith, p.settled));
  }

  connect_with-Connected :
      (ssl : ℤ) (m : M Opened) (s : Net)
      → ((u : Net) → Opens (m u).0 u (m u).1)
      → Connected ssl (connect_with o ssl m s).0 s (connect_with o ssl m s).1
  unfolding connect_with get_sockets find_free
  connect_with-Connected ssl m s h = elim (Option-cases (find_free s.sockets)) [
    | inl e ↦
        rw (e, connect_with)
          (record { outcome = inr ((λ h. h), refl); mode_kept = refl; balance = omega arith })
    | inr (i, e) ↦ rw (e, connect_with) (keep_socket-Connected ssl i (m s).0 s (m s).1 e (h s))
  ]

Connected-of_Same :
    {ssl : ℤ} {c : Conn} {s u t : Net} → Same s u → Connected ssl c u t → Connected ssl c s t
Connected-of_Same {ssl} {c} {s} {u} {t} a r = record {
  outcome =
      subst (λ ss. Taken ssl c ss t.sockets ⊎ Refused c ss t.sockets) a.same_sockets r.outcome;
  mode_kept = r.mode_kept ∙ a.same_commode;
  balance = omega (arith, a.same_creates, a.same_closes, ap valid_count a.same_sockets, r.balance);
}

module _ (o : Oracle) where
  pub connect_sim-Connected :
      (d : Option Bool) (host port : Bytes) (ssl : ℤ) (s : Net) (c : Conn)
      → (connect_sim o d ssl host port s).0 ≡ some c
      → Connected ssl c s (connect_sim o d ssl host port s).1
  unfolding connect_sim
  connect_sim-Connected none host port ssl s c h = cc
  connect_sim-Connected (some false) host port ssl s c h =
      subst (λ d. Connected ssl d s s) (some_inj h)
        (record { outcome = inr ((λ h. h), refl); mode_kept = refl; balance = omega arith })
  connect_sim-Connected (some true) host port ssl s c h =
      subst (λ d. Connected ssl d s (connect_sim o (some true) ssl host port s).1) (some_inj h)
        (Connected-of_Same (Quiet-invoke o Call.set_dns (λ r. refl) refl s) (
          connect_with-Connected o ssl (open_sim o ssl host port) _
            (open_sim-Opens o ssl host port)))

  pub connect_on-Connected :
      (m : Commode) (fuel : ℕ) (host port : Bytes) (timeout : ℕ) (ssl : ℤ) (s : Net) (c : Conn)
      → (connect_on o m fuel host port timeout ssl s).0 ≡ some c
      → Connected ssl c s (connect_on o m fuel host port timeout ssl s).1
  unfolding connect_on
  connect_on-Connected Commode.wifi fuel host port timeout ssl s c h =
      subst (λ d. Connected ssl d s (connect_on o Commode.wifi fuel host port timeout ssl s).1)
        (some_inj h)
        (connect_with-Connected o ssl (open_wifi o ssl host port) s
          (open_wifi-Opens o ssl host port))
  connect_on-Connected Commode.sim fuel host port timeout ssl s c h =
      Connected-of_Same (Quiet-invoke o Call.timer_set (λ r. refl) refl s) (
        Connected-of_Same (dial-Quiet o fuel _ timeout _)
          (connect_sim-Connected _ host port ssl _ c h))

  -- When net_connect returns, either it hands out an entry of the table that was free before, filled
  -- with the TLS mode asked for, and `*errCode` is 0; or it returns no entry and the table is as it
  -- was. The other entries are untouched, the mode is kept, and the sockets made less those given back
  -- change exactly as the number of entries in use.
  pub net_connect-Connected :
      (fuel : ℕ) (host port : Bytes) (timeout : ℕ) (ssl : ℤ) (s : Net) (c : Conn)
      → (net_connect o fuel host port timeout ssl s).0 ≡ some c
      → Connected ssl c s (net_connect o fuel host port timeout ssl s).1
  unfolding net_connect get_commode
  net_connect-Connected fuel host port timeout ssl s c h =
      connect_on-Connected s.commode fuel host port timeout ssl s c h

-- With every entry in use, the search finds none.
find_free_full : (ss : List Slot) → valid_count ss ≡ length ss → find_free ss ≡ none
unfolding find_free
find_free_full [] h = refl
find_free_full (x ∷ ss) h = ground (arith, valid_count-le-length ss, find_free_full ss)

-- With every entry in use, net_connect on WIFI returns NULL with error -3 and makes no call at all.
pub net_connect_full :
    (o : Oracle) (fuel : ℕ) (host port : Bytes) (timeout : ℕ) (ssl : ℤ) (s : Net)
    → s.commode ≡ Commode.wifi
    → valid_count s.sockets ≡ length s.sockets
    → net_connect o fuel host port timeout ssl s ≡ (some (fail_with 3), s)
unfolding net_connect get_commode connect_on connect_with get_sockets
net_connect_full o fuel host port timeout ssl s m h = ground (arith, find_free_full s.sockets h)

-- On WIFI with TLS, a create that fails makes net_connect return the pointer (void *)-4, which is not
-- NULL, and leaves `*errCode` unwritten: the callers' test for NULL takes it for a connection.
pub net_connect_ssl_create_failure :
    (o : Oracle) (fuel : ℕ) (host port : Bytes) (timeout : ℕ) (ssl : ℤ) (s : Net) (i : ℕ)
    → s.commode ≡ Commode.wifi
    → find_free s.sockets ≡ some i
    → is 0 ssl ≡ false
    → is_neg (o.ret s.log Call.wifi_ssl_socket_create) ≡ true
    → (net_connect o fuel host port timeout ssl s).0
      ≡ some (record { ptr = cast (neg 4); err = none })
unfolding net_connect get_commode connect_on connect_with get_sockets open_wifi open_wifi_ssl
    keep_socket invoke
net_connect_ssl_create_failure o fuel host port timeout ssl s i m f h k = ground arith
