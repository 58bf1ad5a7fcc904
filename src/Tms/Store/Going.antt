-- ===== src/Tms/Store/Going.antt =====
-- tms_tms.c, Tms_WriteFile with the result 0: the file is complete, or the context is up to its end.
use service_payment_bridge.Prelude.{
  ℕ, ◌+◌, ◌≡◌, ◌<◌, refl, ap, false, some, List, ◌++◌, ◌∷◌, Bytes, is, length, length-set, take,
  set, get_elem?, get_elem?-set_self, ltb, ◌==◌, inl, inr, arith, Bool-cases, str_eq,
}
use service_payment_bridge.Tms.Store.{write_file, advanced, checked, finished, restart, kept, put}
use service_payment_bridge.Tms.Store.Intact.{Tracks}
use service_payment_bridge.Tms.Store.Writes.{Tracks-stored}
use service_payment_bridge.Tms.Trade.{
  File, State, Terminal, complete, is_complete, wrote, place, content,
}

-- The file with index `c`, as long as it is not complete, is the current one and is tracked.
abbrev pub Tracked : ℕ → State → Type 0
Tracked c s =
    (f : File)
    → get_elem? s.trade.files c ≡ some f
    → is_complete f.status ≡ false
    → (s.trade.current ≡ c) × Tracks s.trade.hashed s.log f

set_here :
    (fs : List File) (c : ℕ) (a g : File)
    → c < length fs
    → get_elem? (set fs c a) c ≡ some g
    → g ≡ a
set_here fs c a g h x = cc (get_elem?-set_self fs c a h)

kept-Tracked : (e : Terminal) (c : ℕ) (s : State) → Tracked c s → Tracked c (kept e s).0
unfolding kept content
kept-Tracked e c s t f x u = t f x u

finished-Tracked :
    (s : State) (f : File)
    → s.trade.current < length s.trade.files
    → Tracked s.trade.current (finished s f)
finished-Tracked s f inside g x u =
    let same = set_here s.trade.files s.trade.current (record f { status = complete }) g inside x in
    let status : g.status ≡ complete = ap (λ (a : File). a.status) same in
    absurd (ground (arith, rw status at u))

checked-Tracked :
    (e : Terminal) (s : State) (f : File)
    → s.trade.current < length s.trade.files
    → (checked e s f).1 ≡ 0
    → Tracked s.trade.current (checked e s f).0
unfolding checked restart
checked-Tracked e s f inside h =
    elim (Bool-cases (str_eq f.md5 (take 16 (e.digest s.trade.hashed)))) [
      | inl good ↦
          rw good (kept-Tracked e s.trade.current (finished s f) (finished-Tracked s f inside))
      | inr bad ↦ absurd (ground (arith, bad, h))
    ]

put-Tracked :
    (s : State) (g : File)
    → s.trade.current < length s.trade.files
    → Tracks s.trade.hashed s.log g
    → Tracked s.trade.current (put s g)
put-Tracked s g inside t f x u = (refl, rw (set_here s.trade.files s.trade.current g f inside x) t)

advanced-Tracked :
    (e : Terminal) (s : State) (f : File) (b : Bytes)
    → s.trade.current < length s.trade.files
    → Tracks s.trade.hashed s.log f
    → (advanced e (record s { log = wrote (place f) f.start b ∷ s.log; clock = s.clock + 1 }) f b).1
      ≡ 0
    → Tracked s.trade.current
        (advanced e
          (record s { log = wrote (place f) f.start b ∷ s.log; clock = s.clock + 1 })
          f
          b).0
unfolding advanced restart
advanced-Tracked e s f b inside t h =
    let g : File = record f { start = f.start + length b } in
    let r : State = record s {
      trade = record s.trade { hashed = s.trade.hashed ++ b };
      log = wrote (place f) f.start b ∷ s.log;
      clock = s.clock + 1;
    } in
    let long : s.trade.current < length (put r g).trade.files =
      omega (arith, length-set s.trade.files s.trade.current g, inside) in
    elim (Bool-cases (g.start == g.size)) [
      | inl full ↦ rw full (checked-Tracked e (put r g) g long (rw full at h))
      | inr more ↦ elim (Bool-cases (ltb g.size g.start)) [
        | inl over ↦ absurd (ground (arith, more, over, h))
        | inr under ↦
            rw (more, under)
              (kept-Tracked e s.trade.current (put r g)
                (put-Tracked r g inside (Tracks-stored s.trade.hashed s.log f b t)))
      ]
    ]

-- After a write that returns 0.
pub write_file-Tracked :
    (e : Terminal) (s : State) (f : File) (b : Bytes)
    → s.trade.current < length s.trade.files
    → Tracks s.trade.hashed s.log f
    → (write_file e s f b).1 ≡ 0
    → Tracked s.trade.current (write_file e s f b).0
unfolding write_file
write_file-Tracked e s f b inside t h = elim (Bool-cases (is 0 (e.write s.clock))) [
  | inl good ↦ rw good (advanced-Tracked e s f b inside t (rw good at h))
  | inr bad ↦ absurd (ground (arith, bad, h))
]
