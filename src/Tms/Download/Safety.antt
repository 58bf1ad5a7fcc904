-- ===== src/Tms/Download/Safety.antt =====
-- tms_tms.c, Tms_DownloadUrlFilesOneByOne: whatever the server sends, a file that is marked complete has
-- its size and its MD5 on the disk.
use service_payment_bridge.Prelude.{
  ℕ, zero, suc, ◌+◌, ◌≡◌, refl, sym, ap, ◌∙◌, true, false, Option, none, some, List, [], get_elem?,
  ltb, ◌==◌, ◌⊎◌, inl, inr, arith, Bool-cases,
}
use service_payment_bridge.Tms.Store.Going.{Tracked}
use service_payment_bridge.Tms.Store.Intact.{Tracks, IsSound}
use service_payment_bridge.Tms.Trade.{
  File, State, Terminal, Status, uncomplete, complete, updated, is_complete, file_at,
}
use service_payment_bridge.Tms.Download.{
  After, fine, broken_off, stopped, left, out_of_fuel, next_piece, pieces, passed, is_uncomplete,
  begun, goes_on, download_files, Outcome, turned, after_piece, resume,
}
use service_payment_bridge.Tms.Download.Pieces.{Leaves, next_piece-Leaves}

-- The file with index `c` is not complete.
abbrev Open : ℕ → State → Type 0
Open c s = (f : File) → get_elem? s.trade.files c ≡ some f → is_complete f.status ≡ false

passed-Open : (c : ℕ) (s : State) → passed (file_at s c) ≡ none → Open c s
unfolding passed
passed-Open c s h f x = let p : passed (some f) ≡ none = rw x at h in ground (arith, p)

after_piece-IsSound :
    (e : Terminal) (c : ℕ) (s : State) (a : After) (p : Option After) (rest : State × Option After)
    → Leaves e c s a
    → (IsSound e s → Tracked c s → p ≡ none → IsSound e rest.0)
    → IsSound e (after_piece s a p rest).0
unfolding after_piece turned
after_piece-IsSound e c s fine none rest l h = h l.0 l.1 refl
after_piece-IsSound e c s fine (some a) rest l h = l.0
after_piece-IsSound e c s broken_off p rest l h = l
after_piece-IsSound e c s (stopped k) p rest l h = l
after_piece-IsSound e c s (left k) p rest l h = l
after_piece-IsSound e c s out_of_fuel p rest l h = l

Tracked-at : (s : State) (b c : ℕ) → b ≡ c → Tracked c s → Tracked b s
Tracked-at s b c h t f x u =
    let y : get_elem? s.trade.files c ≡ some f = rw h at x in
    let (now, tracked) = t f y u in (now ∙ sym h, tracked)

pieces_turn :
    (e : Terminal) (s : State) (c i fuel : ℕ) (x : Option File)
    → file_at s c ≡ x
    → IsSound e s
    → Tracked c s
    → Open c s
    → ((s' : State)
        → IsSound e s'
        → Tracked c s'
        → Open c s'
        → IsSound e (pieces e s' c (i + 6000) fuel).0)
    → IsSound e (pieces e s c i (suc fuel)).0
unfolding pieces
pieces_turn e s c i fuel none x v t o ih = rw (x, pieces) v
pieces_turn e s c i fuel (some f) x v t o ih = elim (Bool-cases (ltb i f.size)) [
  | inl more ↦
      let open_file = o f x in
      let here : s.trade.current ≡ c = (t f x open_file).0 in
      let step : Leaves e c (next_piece e s f).0 (next_piece e s f).1 =
        rw (← here) (
          next_piece-Leaves e s f v (rw here x) open_file
            (Tracked-at s s.trade.current c here t)) in
      rw (x, pieces, more)
        (after_piece-IsSound e c (next_piece e s f).0 (next_piece e s f).1
          (passed (file_at (next_piece e s f).0 c))
          (pieces e (next_piece e s f).0 c (i + 6000) fuel) step
          (λ v' t' p. ih (next_piece e s f).0 v' t' (passed-Open c (next_piece e s f).0 p)))
  | inr done ↦ rw (x, pieces, done) v
]

pieces-IsSound :
    (e : Terminal) (s : State) (c i fuel : ℕ)
    → IsSound e s
    → Tracked c s
    → Open c s
    → IsSound e (pieces e s c i fuel).0
pieces-IsSound e s c i zero v t o = unfold pieces in v
pieces-IsSound e s c i (suc fuel) v t o =
    pieces_turn e s c i fuel (file_at s c) refl v t o
      (λ s' v' t' o'. pieces-IsSound e s' c (i + 6000) fuel v' t' o')

same_file :
    (fs : List File) (c : ℕ) (f g : File)
    → get_elem? fs c ≡ some f
    → get_elem? fs c ≡ some g
    → g ≡ f
same_file fs c f g x y = cc

-- Nothing is taken in, and nothing of the file is there.
Tracks-nil : (s : State) (g : File) → g.start ≡ 0 → Tracks [] s.log g
Tracks-nil s g z = (omega arith, rw z refl)

-- "_tms_MD5Init": a file that has not begun is tracked from its start.
begun-IsSound :
    (e : Terminal) (s : State) (f : File)
    → IsSound e s
    → get_elem? s.trade.files s.trade.current ≡ some f
    → IsSound e (begun s f)
      × Tracked s.trade.current (begun s f)
      × ((begun s f).trade.files ≡ s.trade.files)
unfolding begun
begun-IsSound e s f v at_c = elim (Bool-cases (f.start == 0)) [
  | inl fresh ↦
      let zero_at : (g : File) → get_elem? s.trade.files s.trade.current ≡ some g → g.start ≡ 0 =
        λ g y. rw (same_file s.trade.files s.trade.current f g at_c y) (ground (arith, fresh)) in
      rw fresh (
        record {
          apart = v.apart;
          whole = v.whole;
          fresh = v.fresh;
          tracks = λ g y. inl (zero_at g y);
        },
        λ g y u. (refl, Tracks-nil s g (zero_at g y)),
        refl,
      )
  | inr on ↦ rw on (
    v,
    λ g y u. elim (v.tracks g y) [
      | inl z ↦ absurd (
          ground (
            arith,
            on,
            z,
            ap (λ (a : File). a.start) (same_file s.trade.files s.trade.current f g at_c y),
          ))
      | inr t ↦ (refl, t)
    ],
    refl,
  )
]

pub not_complete : (st : Status) → is_uncomplete st ≡ true → is_complete st ≡ false
not_complete uncomplete h = refl
not_complete complete h = cc
not_complete updated h = refl

resume-IsSound :
    (e : Terminal) (o : Option ℕ ⊎ Outcome) (s : State) (rest : Option ℕ → State × Outcome)
    → IsSound e s
    → ((r : Option ℕ) → IsSound e (rest r).0)
    → IsSound e (resume o s rest).0
unfolding resume
resume-IsSound e (inl r) s rest v h = h r
resume-IsSound e (inr o) s rest v h = v

download_turn :
    (e : Terminal) (s : State) (ret : Option ℕ) (fuel : ℕ) (x : Option File)
    → file_at s s.trade.current ≡ x
    → IsSound e s
    → ((s' : State) (r : Option ℕ) → IsSound e s' → IsSound e (download_files e s' r fuel).0)
    → IsSound e (download_files e s ret (suc fuel)).0
unfolding download_files
download_turn e s ret fuel none x v ih = rw (x, download_files) v
download_turn e s ret fuel (some f) x v ih = elim (Bool-cases (is_uncomplete f.status)) [
  | inr other ↦ rw (x, download_files, other) v
  | inl todo ↦ elim (Bool-cases (ltb f.size f.start)) [
    | inl over ↦ rw (x, download_files, todo, over) v
    | inr inside ↦
        let (v', t', same) = begun-IsSound e s f v x in
        let r = pieces e (begun s f) s.trade.current f.start (suc fuel) in
        let sound : IsSound e r.0 =
          pieces-IsSound e (begun s f) s.trade.current f.start (suc fuel) v' t' (λ g y.
            rw (same_file s.trade.files s.trade.current f g x (rw same at y))
              (not_complete f.status todo)) in
        rw (x, download_files, todo, inside)
          (resume-IsSound e (goes_on ret r.1) r.0 (λ a. download_files e r.0 a fuel) sound
            (λ a. ih r.0 a sound))
  ]
]

-- Whatever the server and the terminal answer, the download keeps the files sound, where no two
-- of them share a place: a file that is marked complete has, at its place on the disk, at least as many
-- bytes as its size says, and the first of them, as many as its size, have its MD5. What an older and
-- longer file has left behind them stays there.
pub download_files-IsSound :
    (e : Terminal) (s : State) (ret : Option ℕ) (fuel : ℕ)
    → IsSound e s
    → IsSound e (download_files e s ret fuel).0
download_files-IsSound e s ret zero v = unfold download_files in v
download_files-IsSound e s ret (suc fuel) v =
    download_turn e s ret fuel (file_at s s.trade.current) refl v
      (λ s' r v'. download_files-IsSound e s' r fuel v')
