-- ===== src/Tms/Download/Endless.antt =====
-- tms_tms.c, Tms_DownloadUrlFilesOneByOne: replies without a body.
use service_payment_bridge.Prelude.{
  ℕ, zero, suc, ◌+◌, ◌-◌, ◌≡◌, ◌≤◌, ◌<◌, refl, true, false, Option, none, some, Bytes, cstr, length,
  ltb, arith, Bool-cases, inl, inr, ◌==◌,
}
use service_payment_bridge.Tms.Exchange.{reply, fetch}
use service_payment_bridge.Tms.Packet.{need_reconnect}
use service_payment_bridge.Tms.Trade.{File, State, Terminal, is_complete, file_at}
use service_payment_bridge.Tms.Download.Safety.{not_complete}
use service_payment_bridge.Tms.Download.{
  After, fine, out_of_fuel, broken_off, stopped, left, next_piece, taken, store_reply, reconnected,
  asked, passed, pieces, after_piece, turned, one_more, is_uncomplete, begun, goes_on, resume,
  download_files, Outcome, waits,
}

-- Every request for the file is answered by the reply `b`, which ends with its blank line and keeps the connection.
pub record Empty (e : Terminal) (f : File) (b : Bytes) (n : ℕ) : Type 0 where
  pub answered : (t : ℕ) → (fetch e t f).0 ≡ reply b n
  pub bare : length b ≤ n + 4
  pub kept : need_reconnect (cstr b) ≡ some false

next_piece-fine :
    (e : Terminal) (b : Bytes) (n : ℕ) (s : State) (f : File)
    → Empty e f b n
    → next_piece e s f ≡ (asked s (fetch e s.clock f).1, fine)
unfolding next_piece taken store_reply reconnected
next_piece-fine e b n s f v =
    let nothing : ltb 0 (length b - (n + 4)) ≡ false = ground (arith, v.bare) in
    rw (v.answered s.clock, taken, nothing, v.kept) refl

-- The loop goes on.
abbrev Idle : Option After → Type 0
Idle none = Unit
Idle (some fine) = Unit
Idle (some out_of_fuel) = Unit
Idle (some broken_off) = ⊥
Idle (some (stopped k)) = ⊥
Idle (some (left k)) = ⊥

-- It goes on behind at least one turn.
abbrev Going : Option After → Type 0
Going none = ⊥
Going (some a) = Idle (some a)

Idle-one_more : (a : Option After) → Idle a → Idle (some (one_more a))
Idle-one_more none h = tt
Idle-one_more (some a) h = h

module _ (e : Terminal) (b : Bytes) (n : ℕ) (f : File) (v : Empty e f b n)
    (todo : is_complete f.status ≡ false) (within : f.start < f.size) where
  -- What does not change.
  abbrev Same : State → State → Type 0
  Same s s' = (s'.trade.files ≡ s.trade.files) × (s'.trade.current ≡ s.trade.current)

  passed-none : passed (some f) ≡ none
  unfolding passed
  passed-none =
      let inside : ltb f.size f.start ≡ false = ground (arith, within) in rw (inside, todo) refl

  pieces-Idle :
      (s : State) (c i fuel : ℕ)
      → file_at s c ≡ some f
      → Idle (pieces e s c i fuel).1 × Same s (pieces e s c i fuel).0
  unfolding pieces after_piece turned
  pieces-Idle s c i zero x = (tt, (refl, refl))
  pieces-Idle s c i (suc fuel) x = elim (Bool-cases (ltb i f.size)) [
    | inr done ↦ rw (x, pieces, done) (tt, (refl, refl))
    | inl more ↦
        let s1 = asked s (fetch e s.clock f).1 in
        let rest = pieces-Idle s1 c (i + 6000) fuel x in
        rw (x, pieces, more, next_piece-fine e b n s f v, x, passed-none)
          (Idle-one_more (pieces e s1 c (i + 6000) fuel).1 rest.0, rest.1)
  ]

  -- The first turn is made.
  pieces-Going :
      (s : State) (c fuel : ℕ) → file_at s c ≡ some f → Going (pieces e s c f.start (suc fuel)).1
  unfolding pieces after_piece turned
  pieces-Going s c fuel x =
      let more : ltb f.start f.size ≡ true = ground (arith, within) in
      let s1 = asked s (fetch e s.clock f).1 in
      rw (x, pieces, more, next_piece-fine e b n s f v, x, passed-none)
        (Idle-one_more (pieces e s1 c (f.start + 6000) fuel).1
          (pieces-Idle s1 c (f.start + 6000) fuel x).0)

  begun-Same : (s : State) → Same s (begun s f)
  unfolding begun
  begun-Same s = elim (Bool-cases (f.start == 0)) [
    | inl h ↦ rw h (refl, refl)
    | inr h ↦ rw h (refl, refl)
  ]

  resume-waits :
      (ret : Option ℕ) (a : Option After) (s : State) (rest : Option ℕ → State × Outcome)
      → Going a
      → ((r : Option ℕ) → (rest r).1 ≡ waits)
      → (resume (goes_on ret a) s rest).1 ≡ waits
  unfolding resume goes_on
  resume-waits ret none s rest i h = absurd i
  resume-waits ret (some fine) s rest i h = h (some 0)
  resume-waits ret (some out_of_fuel) s rest i h = refl
  resume-waits ret (some broken_off) s rest i h = absurd i
  resume-waits ret (some (stopped k)) s rest i h = absurd i
  resume-waits ret (some (left k)) s rest i h = absurd i

  download_waits :
      (open_file : is_uncomplete f.status ≡ true) (s : State) (ret : Option ℕ) (fuel : ℕ)
      → file_at s s.trade.current ≡ some f
      → (download_files e s ret fuel).1 ≡ waits
  unfolding download_files
  download_waits open_file s ret zero x = refl
  download_waits open_file s ret (suc fuel) x =
      let inside : ltb f.size f.start ≡ false = ground (arith, within) in
      let c = s.trade.current in
      let s1 = begun s f in
      let same = begun-Same s in
      let here : file_at s1 c ≡ some f = rw same.0 x in
      let idle = pieces-Idle s1 c f.start (suc fuel) here in
      let r = pieces e s1 c f.start (suc fuel) in
      let still : file_at r.0 r.0.trade.current ≡ some f =
        rw (idle.1.0, idle.1.1, same.0, same.1) x in
      rw (x, download_files, open_file, inside)
        (resume-waits ret r.1 r.0 (λ a. download_files e r.0 a fuel) (pieces-Going s1 c fuel here)
          (λ a. download_waits open_file r.0 a fuel still))

-- A server that answers every request by a reply without a body, on a connection that it keeps, keeps the
-- download going for ever, where the file at hand is not complete and starts short of its size: no fuel is
-- enough.
pub download_files-waits :
    (e : Terminal) (b : Bytes) (n : ℕ) (f : File) (v : Empty e f b n) (s : State) (ret : Option ℕ)
    (fuel : ℕ)
    → is_uncomplete f.status ≡ true
    → f.start < f.size
    → file_at s s.trade.current ≡ some f
    → (download_files e s ret fuel).1 ≡ waits
download_files-waits e b n f v s ret fuel u w x =
    download_waits e b n f v (not_complete f.status u) w u s ret fuel x
