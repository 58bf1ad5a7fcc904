-- ===== src/Tms/Store/Writes.antt =====
-- tms_tms.c, Tms_WriteFile: the files stay sound on every branch.
use service_payment_bridge.Prelude.{
  ℕ, ◌+◌, ◌≡◌, refl, ap, sym, false, some, List, ◌∷◌, ◌++◌, Bytes, is, str_eq, length, take, set,
  get_elem?, get_elem?-set_self, ltb, ◌==◌, arith, Bool-cases, inl, inr, length-append,
  append_assoc, take-append, drop, ◌∙◌,
}
use service_payment_bridge.Tms.Trade.{
  File, State, Terminal, Call, wrote, saved, complete, is_complete, place, content,
}
use service_payment_bridge.Tms.Store.{put, finished, restart, kept, checked, advanced, write_file}
use service_payment_bridge.Tms.Store.Intact.{
  Tracks, Sound, IsSound, str_eq_refl, Sound-set, Kept-same, Kept-open, get_elem?_lt,
}

-- A file that is begun again.
restart-IsSound :
    (e : Terminal) (s : State) (f : File) (code : ℕ)
    → IsSound e s
    → get_elem? s.trade.files s.trade.current ≡ some f
    → is_complete f.status ≡ false
    → IsSound e (restart e s f code).0
unfolding restart content place
restart-IsSound e s f code v at_c u =
    Sound-set e s.trade.files s.trade.current s.trade.current s.trade.hashed s.trade.hashed s.log
      (restart e s f code).0.log f (record f { start = 0 }) v at_c refl (λ q n. ground (arith, n))
      (Kept-open e (restart e s f code).0.log (record f { start = 0 }) f.status u)
      (inr (refl, inl refl))

-- A write of the status file changes no other.
kept-IsSound : (e : Terminal) (s : State) → IsSound e s → IsSound e (kept e s).0
unfolding kept content
kept-IsSound e s v = record {
  apart = v.apart;
  whole = λ i f x. Kept-same e s.log (saved s.trade ∷ s.log) f f.status refl (v.whole i f x);
  fresh = v.fresh;
  tracks = v.tracks;
}

checked-IsSound :
    (e : Terminal) (s : State) (f : File)
    → IsSound e s
    → get_elem? s.trade.files s.trade.current ≡ some f
    → is_complete f.status ≡ false
    → f.start ≡ f.size
    → take f.size (content (place f) s.log) ≡ s.trade.hashed
    → length s.trade.hashed ≡ f.size
    → IsSound e (checked e s f).0
unfolding checked content place
checked-IsSound e s f v at_c u full same long =
    elim (Bool-cases (str_eq f.md5 (take 16 (e.digest s.trade.hashed)))) [
      | inl good ↦ rw good (
          kept-IsSound e (finished s f) (
            Sound-set e s.trade.files s.trade.current (s.trade.current + 1) s.trade.hashed
              s.trade.hashed s.log s.log f (record f { status = complete }) v at_c refl
              (λ q n. refl) (omega (arith, ap length same), rw same (rw good refl), full)
              (inl (omega arith))))
      | inr bad ↦ rw bad (restart-IsSound e s f 14 v at_c u)
    ]

-- The piece is on the disk behind the part that the context has taken in.
pub written :
    (l : List Call) (f : File) (h b : Bytes)
    → Tracks h l f
    → take (f.start + length b) (content (place f) (wrote (place f) f.start b ∷ l)) ≡ h ++ b
unfolding content
written l f h b t =
    let old = content (place f) l in
    let long : f.start + length b ≡ length (h ++ b) = omega (arith, t.0, length-append h b) in
    rw (str_eq_refl (place f), t.1)
      (ap (λ n. take n (h ++ (b ++ drop (f.start + length b) old))) long
        ∙ ap (take (length (h ++ b))) (sym (append_assoc h b (drop (f.start + length b) old)))
        ∙ take-append (h ++ b) (drop (f.start + length b) old))

elsewhere :
    (p q b : Bytes) (n : ℕ) (l : List Call)
    → str_eq p q ≡ false
    → content q (wrote p n b ∷ l) ≡ content q l
unfolding content
elsewhere p q b n l h = rw h refl

pub place_start : (f : File) (n : ℕ) → place (record f { start = n }) ≡ place f
unfolding place
place_start f n = refl

-- The context stays up to the end of what is on the disk.
pub Tracks-stored :
    (h : Bytes) (l : List Call) (f : File) (b : Bytes)
    → Tracks h l f
    → Tracks (h ++ b) (wrote (place f) f.start b ∷ l) (record f { start = f.start + length b })
Tracks-stored h l f b t =
    let long = length-append h b in
    (omega (arith, t.0, long), rw (place_start f (f.start + length b)) (written l f h b t))

-- The current file with a piece more.
stored-Sound :
    (e : Terminal) (s : State) (f : File) (b : Bytes)
    → IsSound e s
    → get_elem? s.trade.files s.trade.current ≡ some f
    → is_complete f.status ≡ false
    → Tracks s.trade.hashed s.log f
    → Sound e
        (set s.trade.files s.trade.current (record f { start = f.start + length b }))
        s.trade.current
        (s.trade.hashed ++ b)
        (wrote (place f) f.start b ∷ s.log)
stored-Sound e s f b v at_c u t =
    Sound-set e s.trade.files s.trade.current s.trade.current s.trade.hashed (s.trade.hashed ++ b)
      s.log (wrote (place f) f.start b ∷ s.log) f (record f { start = f.start + length b }) v at_c
      (place_start f (f.start + length b)) (λ q n. elsewhere (place f) q b f.start s.log n)
      (Kept-open e (wrote (place f) f.start b ∷ s.log) (record f { start = f.start + length b })
        f.status u)
      (inr (refl, inr (Tracks-stored s.trade.hashed s.log f b t)))

advanced-IsSound :
    (e : Terminal) (s : State) (f : File) (b : Bytes)
    → IsSound e s
    → get_elem? s.trade.files s.trade.current ≡ some f
    → is_complete f.status ≡ false
    → Tracks s.trade.hashed s.log f
    → IsSound e
        (advanced e
          (record s { log = wrote (place f) f.start b ∷ s.log; clock = s.clock + 1 })
          f
          b).0
unfolding advanced place
advanced-IsSound e s f b v at_c u t =
    let g : File = record f { start = f.start + length b } in
    let s' : State =
      put
        (record s {
          trade = record s.trade { hashed = s.trade.hashed ++ b };
          log = wrote (place f) f.start b ∷ s.log;
          clock = s.clock + 1;
        })
        g in
    let sound : IsSound e s' = stored-Sound e s f b v at_c u t in
    let here : get_elem? s'.trade.files s'.trade.current ≡ some g =
      get_elem?-set_self s.trade.files s.trade.current g
        (get_elem?_lt s.trade.files s.trade.current f at_c) in
    elim (Bool-cases (g.start == g.size)) [
      | inl full ↦
          let size : g.start ≡ g.size = ground (arith, full) in
          rw full (
            checked-IsSound e s' g sound here u size
              (rw (place_start f (f.start + length b), ← size) (written s.log f s.trade.hashed b t))
              (omega (arith, size, t.0, length-append s.trade.hashed b)))
      | inr more ↦ elim (Bool-cases (ltb g.size g.start)) [
        | inl over ↦ rw (more, over) (restart-IsSound e s' g 25 sound here u)
        | inr under ↦ rw (more, under) (kept-IsSound e s' sound)
      ]
    ]

-- Storing a piece of the current file, where the context has taken in what is on the disk, keeps the
-- files sound, whatever the writes answer: a file is complete only when its size of bytes is at its place,
-- and they have its MD5.
pub write_file-IsSound :
    (e : Terminal) (s : State) (f : File) (b : Bytes)
    → IsSound e s
    → get_elem? s.trade.files s.trade.current ≡ some f
    → is_complete f.status ≡ false
    → Tracks s.trade.hashed s.log f
    → IsSound e (write_file e s f b).0
unfolding write_file
write_file-IsSound e s f b v at_c u t = elim (Bool-cases (is 0 (e.write s.clock))) [
  | inl good ↦ rw good (advanced-IsSound e s f b v at_c u t)
  | inr bad ↦ rw bad v
]
