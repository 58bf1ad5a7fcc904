-- ===== src/Tms/Download/Pieces.antt =====
-- tms_tms.c, Tms_DownloadUrlFilesOneByOne: one piece keeps the files sound.
use service_payment_bridge.Prelude.{
  ℕ, ◌+◌, ◌-◌, ◌≡◌, Bool, true, false, Option, none, some, Bytes, is, cstr, length, get_elem?, ltb,
  ◌==◌, inl, inr, arith, Bool-cases,
}
use service_payment_bridge.Tms.Packet.{need_reconnect}
use service_payment_bridge.Tms.Exchange.{
  Turn, reply, lost, undefined, waiting, fails, returns, fetch, piece_len,
}
use service_payment_bridge.Tms.Store.{write_file}
use service_payment_bridge.Tms.Store.Going.{Tracked, write_file-Tracked}
use service_payment_bridge.Tms.Store.Intact.{IsSound, get_elem?_lt}
use service_payment_bridge.Tms.Store.Writes.{write_file-IsSound}
use service_payment_bridge.Tms.Trade.{File, State, Terminal, is_complete}
use service_payment_bridge.Tms.Download.{
  After, fine, broken_off, stopped, left, out_of_fuel, reconnected, stored, store_reply, taken,
  next_piece, piece, asked,
}

-- What a step in the loop over a file's pieces leaves: files that are sound, and the file tracked where
-- the loop goes on.
abbrev pub Leaves : Terminal → ℕ → State → After → Type 0
Leaves e c s fine = IsSound e s × Tracked c s
Leaves e c s broken_off = IsSound e s
Leaves e c s (stopped k) = IsSound e s
Leaves e c s (left k) = IsSound e s
Leaves e c s out_of_fuel = IsSound e s

Leaves-IsSound : (e : Terminal) (c : ℕ) (s : State) (a : After) → Leaves e c s a → IsSound e s
Leaves-IsSound e c s fine l = l.0
Leaves-IsSound e c s broken_off l = l
Leaves-IsSound e c s (stopped k) l = l
Leaves-IsSound e c s (left k) l = l
Leaves-IsSound e c s out_of_fuel l = l

reconnected-Leaves :
    (e : Terminal) (c : ℕ) (s : State) (close : Option Bool)
    → IsSound e s
    → Tracked c s
    → Leaves e c (reconnected e s close).0 (reconnected e s close).1
unfolding reconnected
reconnected-Leaves e c s none v t = v
reconnected-Leaves e c s (some false) v t = (v, t)
reconnected-Leaves e c s (some true) v t = elim (Bool-cases (is 0 (e.connect s.clock))) [
  | inl good ↦ rw good (v, t)
  | inr bad ↦ rw bad v
]

stored-Leaves :
    (e : Terminal) (c : ℕ) (r : State × ℕ) (close : Option Bool)
    → IsSound e r.0
    → (r.1 ≡ 0 → Tracked c r.0)
    → Leaves e c (stored e r close).0 (stored e r close).1
unfolding stored
stored-Leaves e c r close v t = elim (Bool-cases (r.1 == 0)) [
  | inl good ↦ rw good (reconnected-Leaves e c r.0 close v (t (ground (arith, good))))
  | inr bad ↦ rw bad v
]

-- Where the file that is current is tracked.
module _ (e : Terminal) (s : State) (f : File) (v : IsSound e s)
    (at_c : get_elem? s.trade.files s.trade.current ≡ some f) (u : is_complete f.status ≡ false)
    (t : Tracked s.trade.current s) where
  store_reply-Leaves :
      (b : Bytes) (n : ℕ)
      → Leaves e s.trade.current (store_reply e s f b n).0 (store_reply e s f b n).1
  unfolding store_reply
  store_reply-Leaves b n = elim (Bool-cases (ltb 0 (length b - (n + 4)))) [
    | inl some_bytes ↦ elim (Bool-cases (ltb 7168 (n + 4 + piece_len f))) [
      | inl over ↦ rw (some_bytes, over) v
      | inr inside ↦
          rw (some_bytes, inside)
            (stored-Leaves e s.trade.current (write_file e s f (piece b n (piece_len f)))
              (need_reconnect (cstr b))
              (write_file-IsSound e s f (piece b n (piece_len f)) v at_c u (t f at_c u).1)
              (write_file-Tracked e s f (piece b n (piece_len f))
                (get_elem?_lt s.trade.files s.trade.current f at_c) (t f at_c u).1))
    ]
    | inr empty ↦ rw empty (reconnected-Leaves e s.trade.current s (need_reconnect (cstr b)) v t)
  ]

  taken-Leaves : (x : Turn) → Leaves e s.trade.current (taken e s f x).0 (taken e s f x).1
  unfolding taken
  taken-Leaves (reply b n) = store_reply-Leaves b n
  taken-Leaves lost = v
  taken-Leaves undefined = v
  taken-Leaves waiting = v
  taken-Leaves (fails c) = v
  taken-Leaves (returns c m) = v

pub next_piece-Leaves :
    (e : Terminal) (s : State) (f : File)
    → IsSound e s
    → get_elem? s.trade.files s.trade.current ≡ some f
    → is_complete f.status ≡ false
    → Tracked s.trade.current s
    → Leaves e s.trade.current (next_piece e s f).0 (next_piece e s f).1
unfolding next_piece
next_piece-Leaves e s f v at_c u t =
    taken-Leaves e (asked s (fetch e s.clock f).1) f v at_c u t (fetch e s.clock f).0
