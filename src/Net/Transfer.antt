-- ===== src/Net/Transfer.antt =====
-- network.c: net_close, net_read and net_write, on an entry of the table.
use service_payment_bridge.Prelude.{
  ℕ, zero, suc, Bool, true, false, Option, none, some, List, Bytes, ℤ, pos, negsuc, is, is_neg, neg,
  succ, length, get_elem?, set, if◌then◌else◌, ◌==◌,
}
use service_payment_bridge.Net.Connect.{Ptr, null, slot, cast}
use service_payment_bridge.Net.Device.{
  Call, Slot, Commode, Oracle, M, pure, ◌>>=◌, ◌>>◌, invoke, get_commode, get_sockets, set_sockets,
}

-- What a dereference finds: the entry behind the address, or no object of the table.
pub data Target : Type 0 where
  none_given : Target
  entry : ℕ → Slot → Target
  dangling : Target

unfoldable pub target : List Slot → Ptr → Target
target ss null = none_given
target ss (cast n) = dangling
target ss (slot i) = elim (get_elem? ss i) [ none ↦ dangling | some x ↦ entry i x ]

-- The first byte decides: whether to go on, by the rule of each mode.
abbrev first_fails : Commode → ℤ → Bool
first_fails Commode.wifi r = is_neg r
first_fails Commode.sim r = if is 1 r then false else true

abbrev less_one : ℕ → ℤ
less_one zero = negsuc 0
less_one (suc n) = pos n

-- The receive call of the entry's kind, for a length that the source computes as an int.
unfoldable pub recv_call : Commode → Slot → ℤ → ℕ → Call
recv_call Commode.wifi x len timeout =
    if is 0 x.ssl
    then Call.wifi_recv x.socket len timeout
    else Call.wifi_ssl_recv x.socket len timeout
recv_call Commode.sim x len timeout =
    if is 0 x.ssl then Call.recv x.socket len timeout else Call.ssl_recv x.socket len timeout

module _ (o : Oracle) where
  unfoldable pub close_call : Commode → Slot → M ℤ
  close_call Commode.wifi x =
      if is 0 x.ssl
      then (do invoke o (Call.wifi_tcp_close x.socket); invoke o (Call.wifi_socket_close x.socket))
      else invoke o (Call.wifi_ssl_socket_close x.socket)
  close_call Commode.sim x =
      if is 0 x.ssl
      then invoke o (Call.socket_close x.socket)
      else invoke o (Call.ssl_socket_close x.socket)

  -- `none` is undefined behaviour: the pointer is not NULL and no address of an entry.
  unfoldable pub close_target : Target → M (Option ℤ)
  close_target none_given = pure (some (neg 1))
  close_target dangling = pure none
  close_target (entry i x) =
      if x.valid
      then (do
        m ← get_commode
        close_call m x
        ss ← get_sockets
        set_sockets (set ss i (record x { valid = false }))
        pure (some (pos 0)))
      else pure (some (pos 0))

  unfoldable pub net_close : Ptr → M (Option ℤ)
  net_close p = do ss ← get_sockets; close_target (target ss p)

  unfoldable pub read_entry : Commode → Slot → ℕ → ℕ → M ℤ
  read_entry m x need timeout = do
    r ← invoke o (recv_call m x (pos 1) timeout)
    if is 0 r
        then pure (pos 0)
        else if first_fails m r
        then pure (neg 1)
        else if need == 1
        then pure (pos 1)
        else do
          more ← invoke o (recv_call m x (less_one need) 10)
          if is_neg more then pure (neg 1) else pure (succ more)

  unfoldable pub read_target : Target → ℕ → ℕ → M (Option ℤ)
  read_target none_given need timeout = pure (some (neg 1))
  read_target dangling need timeout = pure none
  read_target (entry i x) need timeout =
      if x.valid
      then (do m ← get_commode; r ← read_entry m x need timeout; pure (some r))
      else pure (some (neg 1))

  -- net_read
  unfoldable pub net_read : Ptr → ℕ → ℕ → M (Option ℤ)
  net_read p need timeout = do ss ← get_sockets; read_target (target ss p) need timeout

  -- WIFI reports 0 for success; the length is returned in its place.
  unfoldable pub write_entry : Commode → Slot → Bytes → ℕ → M ℤ
  write_entry Commode.wifi x b timeout = do
    r ← invoke o (
        if is 0 x.ssl
        then Call.wifi_send x.socket b timeout
        else Call.wifi_ssl_send x.socket b 10000)
    if is 0 r then pure (pos (length b)) else pure (neg 1)
  write_entry Commode.sim x b timeout =
      invoke o (if is 0 x.ssl then Call.send x.socket b else Call.ssl_send x.socket b)

  unfoldable pub write_target : Target → Bytes → ℕ → M (Option ℤ)
  write_target none_given b timeout = pure (some (neg 1))
  write_target dangling b timeout = pure none
  write_target (entry i x) b timeout =
      if x.valid
      then (do m ← get_commode; r ← write_entry m x b timeout; pure (some r))
      else pure (some (neg 1))

  -- net_write
  unfoldable pub net_write : Ptr → Bytes → ℕ → M (Option ℤ)
  net_write p b timeout = do ss ← get_sockets; write_target (target ss p) b timeout
