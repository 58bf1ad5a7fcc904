-- ===== src/Net/Laws.antt =====
-- network.c: net_close, net_read and net_write on entries and on other pointers.
use service_payment_bridge.Prelude.{
  ℕ, zero, suc, ◌≤◌, ◌<◌, ◌≡◌, refl, true, false, some, List, [], ◌∷◌, Bytes, pos, negsuc, is,
  pos_part, length, get_elem?, set, get_elem?-set_self, arith,
}
use service_payment_bridge.Net.Connect.{Ptr, slot}
use service_payment_bridge.Net.Device.{
  Slot, Commode, Oracle, Net, Log, invoke, get_commode, get_sockets, set_sockets,
}
use service_payment_bridge.Net.Transfer.{
  Target, none_given, entry, dangling, target, close_call, close_target, net_close, recv_call,
  read_entry, read_target, net_read, write_entry, write_target, net_write,
}

-- A receive call returns at most the length that it is given.
abbrev pub Receives : Oracle → Type 0
Receives o =
    (l : Log) (m : Commode) (x : Slot) (n t : ℕ) → pos_part (o.ret l (recv_call m x (pos n) t)) ≤ n

lt_of_get_elem? : (ss : List Slot) (i : ℕ) {x : Slot} → get_elem? ss i ≡ some x → i < length ss
lt_of_get_elem? [] i h = cc
lt_of_get_elem? (y ∷ ss) zero h = omega arith
lt_of_get_elem? (y ∷ ss) (suc i) h = omega (arith, lt_of_get_elem? ss i h)

module _ (o : Oracle) where
  read_entry-le :
      (m : Commode) (x : Slot) (need timeout k : ℕ) (s : Net)
      → Receives o
      → 0 < need
      → (read_entry o m x need timeout s).0 ≡ pos k
      → k ≤ need
  unfolding read_entry invoke
  read_entry-le m x zero timeout k s d h e = absurd (omega arith)
  read_entry-le m x (suc need) timeout k s d h e =
      let r = recv_call m x (pos 1) timeout in
      ground (arith, d s.log m x 1 timeout, d ((r, o.ret s.log r) ∷ s.log) m x need 10)

  read_target-le :
      (t : Target) (need timeout k : ℕ) (s : Net)
      → Receives o
      → 0 < need
      → (read_target o t need timeout s).0 ≡ some (pos k)
      → k ≤ need
  unfolding read_target get_commode
  read_target-le none_given need timeout k s d h e = cc
  read_target-le dangling need timeout k s d h e = cc
  read_target-le (entry i x) need timeout k s d h e =
      ground (arith, read_entry-le s.commode x need timeout k s d h)

  -- A call of net_read for `need` bytes, at least one, that returns a count returns at most `need`,
  -- provided the platform's receive calls return at most the length that they are given.
  net_read-le :
      (p : Ptr) (need timeout k : ℕ) (s : Net)
      → Receives o
      → 0 < need
      → (net_read o p need timeout s).0 ≡ some (pos k)
      → k ≤ need
  unfolding net_read get_sockets
  net_read-le p need timeout k s d h e = read_target-le (target s.sockets p) need timeout k s d h e

  -- Asked for no byte, net_read still has the platform write one byte to the buffer.
  net_read_zero :
      (i : ℕ) (x : Slot) (timeout : ℕ) (s : Net)
      → get_elem? s.sockets i ≡ some x
      → x.valid ≡ true
      → is 1 (o.ret s.log (recv_call s.commode x (pos 1) timeout)) ≡ true
      → (net_read o (slot i) 0 timeout s).1.log
        ≡ (
          recv_call s.commode x (negsuc 0) 10,
          o.ret
              ((recv_call s.commode x (pos 1) timeout, pos 1) ∷ s.log)
              (recv_call s.commode x (negsuc 0) 10),
        )
          ∷ (recv_call s.commode x (pos 1) timeout, pos 1)
          ∷ s.log
  unfolding net_read get_sockets target read_target get_commode read_entry invoke
  net_read_zero i x timeout s h v r = ground arith

  -- On WIFI a count that net_write returns is the whole length.
  pub net_write_whole :
      (p : Ptr) (b : Bytes) (timeout k : ℕ) (s : Net)
      → s.commode ≡ Commode.wifi
      → (net_write o p b timeout s).0 ≡ some (pos k)
      → k ≡ length b
  unfolding net_write write_target write_entry target get_sockets get_commode invoke
  net_write_whole p b timeout k s m e = ground arith

  close_entry_frees :
      (m : Commode) (i : ℕ) (x : Slot) (s : Net)
      → s.commode ≡ m
      → x.valid ≡ true
      → ((close_target o (entry i x) s).0 ≡ some (pos 0))
        × ((close_target o (entry i x) s).1.sockets ≡ set s.sockets i (record x { valid = false }))
  unfolding close_target close_call get_commode get_sockets set_sockets invoke
  close_entry_frees Commode.wifi i x s m v = ground arith
  close_entry_frees Commode.sim i x s m v = ground arith

  close_free :
      (x : Slot) (i : ℕ) (s : Net)
      → x.valid ≡ false
      → close_target o (entry i x) s ≡ (some (pos 0), s)
  unfolding close_target
  close_free x i s v = ground arith

  -- net_close of an entry in use returns 0, frees that entry and changes no other. A second close
  -- of it returns 0 and makes no call: a socket is never given back twice through the table.
  pub net_close_twice :
      (i : ℕ) (x : Slot) (s : Net)
      → get_elem? s.sockets i ≡ some x
      → x.valid ≡ true
      → let t = (net_close o (slot i) s).1 in
        (t.sockets ≡ set s.sockets i (record x { valid = false }))
        × ((net_close o (slot i) s).0 ≡ some (pos 0))
        × (net_close o (slot i) t ≡ (some (pos 0), t))
  unfolding net_close get_sockets target
  net_close_twice i x s h v = ground (
    arith,
    close_entry_frees s.commode i x s refl v,
    get_elem?-set_self s.sockets i (record x { valid = false }),
    lt_of_get_elem? s.sockets i h,
    close_free (record x { valid = false }) i (close_target o (entry i x) s).1,
  )
