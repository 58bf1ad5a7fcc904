-- ===== src/Tms/Install/Calm.antt =====
-- tms_tms.c, TmsUpdate_Api: what every call but the installer's preserves is preserved by the steps that
-- install nothing.
use service_payment_bridge.Prelude.{
  ℕ, zero, suc, ◌+◌, ◌≡◌, refl, Bool, true, false, ◌||◌, ◌&&◌, Option, none, some, List, ◌∷◌, ◌++◌,
  [], Bytes, is, codes, find, str_eq, take, get_elem?, ltb, if◌then◌else◌, Bool-cases, inl, inr,
}
use service_payment_bridge.Tms.Trade.{
  File, suffix, is_complete, type_app, type_firmware, type_lib, type_wifibsp, type_param,
}
use service_payment_bridge.Tms.Install.{
  Act, deleted, renamed, unzipped, installed, sent, sent_last, saved, Machine, Run, act, full_name,
  delete_file, delete_files, delete_all, End, next, waits, fails, Step, unpacked, unpack, settled,
  unzip_param, replace_param, send_blocks, sent_all, update_wifi, Body, go_on, each,
}

abbrev pub Calm : Act → Type 0
Calm (deleted n) = Unit
Calm (renamed a b) = Unit
Calm (unzipped a b) = Unit
Calm (installed p n z) = ⊥
Calm (sent n) = Unit
Calm sent_last = Unit
Calm (saved t) = Unit

-- What a step leaves: `P` where the update goes on, `Q` where it ends.
abbrev pub Post : (List Act → Type 0) → (List Act → Type 0) → Step → Type 0
Post P Q (r, next) = P r.acts
Post P Q (r, waits) = Q r.acts
Post P Q (r, fails k) = Q r.acts

pub Post-imp :
    (P Q : List Act → Type 0) (x : Step) → ((l : List Act) → P l → Q l) → Post P P x → Post P Q x
Post-imp P Q (r, next) h p = p
Post-imp P Q (r, waits) h p = h r.acts p
Post-imp P Q (r, fails k) h p = h r.acts p

pub go_on-Post :
    (P P' Q : List Act → Type 0) (x : Step) (rest : Run → Step)
    → Post P Q x
    → ((r : Run) → P r.acts → Post P' Q (rest r))
    → Post P' Q (go_on x rest)
unfolding go_on
go_on-Post P P' Q (r, next) rest p h = h r p
go_on-Post P P' Q (r, waits) rest p h = p
go_on-Post P P' Q (r, fails k) rest p h = p

-- A loop over the files, whose body keeps `P` as long as it goes on.
module _ (P Q : List Act → Type 0) (kind : Bytes → Bool) (body : Body)
    (step : (r : Run) (i : ℕ) (f : File) → P r.acts → Post P Q (body r i f)) where
  turn-Post :
      (r : Run) (i : ℕ) (f : File)
      → P r.acts
      → Post P Q (if is_complete f.status && kind f.kind then body r i f else (r, next))
  turn-Post r i f p = elim (Bool-cases (is_complete f.status && kind f.kind)) [
    | inl e ↦ rw e (step r i f p)
    | inr e ↦ rw e p
  ]

  each_turn :
      (r : Run) (i n : ℕ) (x : Option File)
      → get_elem? r.trade.files i ≡ x
      → P r.acts
      → ((r' : Run) → P r'.acts → Post P Q (each kind body r' (suc i) n))
      → Post P Q (each kind body r i (suc n))
  unfolding each
  each_turn r i n none e p ih = rw (e, each) p
  each_turn r i n (some f) e p ih =
      rw (e, each)
        (go_on-Post P P Q (if is_complete f.status && kind f.kind then body r i f else (r, next))
          (λ r'. each kind body r' (suc i) n) (turn-Post r i f p) ih)

  pub each-Post : (r : Run) (i n : ℕ) → P r.acts → Post P Q (each kind body r i n)
  each-Post r i zero p = unfold each in p
  each-Post r i (suc n) p =
      each_turn r i n (get_elem? r.trade.files i) refl p (λ r' p'. each-Post r' (suc i) n p')

module _ (P : List Act → Type 0) (calm : (a : Act) (l : List Act) → Calm a → P l → P (a ∷ l)) where
  delete_file-Calm : (r : Run) (f : File) → P r.acts → P (delete_file r f).acts
  unfolding delete_file
  delete_file-Calm r f p =
      elim (Bool-cases (
        str_eq f.kind type_firmware
        || (str_eq f.kind type_app || (str_eq f.kind type_lib || str_eq f.kind type_wifibsp)))) [
          | inl e ↦ rw e (calm (deleted (full_name f)) r.acts tt p)
          | inr e ↦ elim (Bool-cases (str_eq f.kind type_param)) [
            | inl g ↦
                rw (e, g) (calm (deleted suffix) _ tt (calm (deleted (full_name f)) r.acts tt p))
            | inr g ↦ rw (e, g) p
          ]
        ]

  delete_files-Calm : (r : Run) (fs : List File) → P r.acts → P (delete_files r fs).acts
  unfolding delete_files
  delete_files-Calm r [] p = p
  delete_files-Calm r (f ∷ fs) p = delete_files-Calm (delete_file r f) fs (delete_file-Calm r f p)

  pub delete_all-Calm : (r : Run) → P r.acts → P (delete_all r).acts
  unfolding delete_all
  delete_all-Calm r p =
      calm (deleted (codes "/ext/tms/_tms_dinfo_")) _ tt
        (delete_files-Calm r (take (suc r.trade.current) r.trade.files) p)

  unpacked-Calm :
      (m : Machine) (r : Run) (i : ℕ) (f : File) (ext : Bytes) (k : Option ℕ)
      → P r.acts
      → P (unpacked m r i f ext k).0.acts
  unfolding unpacked
  unpacked-Calm m r i f ext none p = p
  unpacked-Calm m r i f ext (some k) p =
      let p1 = calm (unzipped (full_name f) (codes "/ext/tms/")) r.acts tt p in
      let p2 = calm (deleted (full_name f)) _ tt p1 in
      elim (Bool-cases (is 0 (m.unzip r.clock))) [
        | inl e ↦ rw e (calm (saved _) _ tt p2)
        | inr e ↦ rw e p2
      ]

  pub unpack-Calm :
      (m : Machine) (r : Run) (i : ℕ) (f : File) (ext : Bytes)
      → P r.acts
      → P (unpack m r i f ext).0.acts
  unfolding unpack
  unpack-Calm m r i f ext p = unpacked-Calm m r i f ext (find (codes ".zip") f.name) p

  settled-Calm : (r : Run) (i : ℕ) (f : File) (b : Bool) → P r.acts → Post P P (settled r i f b)
  unfolding settled
  settled-Calm r i f true p = calm (saved _) r.acts tt p
  settled-Calm r i f false p = delete_all-Calm r p

  unzip_param-Calm :
      (m : Machine) (r : Run) (i : ℕ) (f : File) (k : Option ℕ)
      → P r.acts
      → Post P P (unzip_param m r i f k)
  unfolding unzip_param
  unzip_param-Calm m r i f none p = settled-Calm r i f true p
  unzip_param-Calm m r i f (some k) p =
      let p1 = calm (unzipped (full_name f) (codes "/ext/")) r.acts tt p in
      settled-Calm (act (act r (unzipped (full_name f) (codes "/ext/"))) (deleted (full_name f))) i
        f (is 0 (m.unzip r.clock)) (calm (deleted (full_name f)) _ tt p1)

  pub replace_param-Calm :
      (m : Machine) (r : Run) (i : ℕ) (f : File) → P r.acts → Post P P (replace_param m r i f)
  unfolding replace_param
  replace_param-Calm m r i f p =
      let name = full_name f in
      let p1 = calm (deleted name) r.acts tt p in
      let p2 = calm (renamed (name ++ suffix) name) _ tt p1 in
      let p3 = calm (renamed (name ++ suffix) name) _ tt p2 in
      let r1 = act r (deleted name) in
      let r2 = act r1 (renamed (name ++ suffix) name) in
      let r3 = act r2 (renamed (name ++ suffix) name) in
      elim (Bool-cases (is 0 (m.rename r1.clock))) [
        | inl e ↦ rw e (unzip_param-Calm m r2 i f (find (codes ".zip") f.name) p2)
        | inr e ↦ elim (Bool-cases (is 0 (m.rename r2.clock))) [
          | inl g ↦ rw (e, g) (unzip_param-Calm m r3 i f (find (codes ".zip") f.name) p3)
          | inr g ↦ rw (e, g) (settled-Calm r3 i f false p3)
        ]
      ]

  send_blocks-Calm :
      (m : Machine) (r : Run) (j len fuel : ℕ) → P r.acts → P (send_blocks m r j len fuel).0.acts
  unfolding send_blocks
  send_blocks-Calm m r j len zero p = p
  send_blocks-Calm m r j len (suc fuel) p =
      let p1 = calm (sent (m.read r.clock).1) r.acts tt p in
      elim (Bool-cases (ltb j len)) [
        | inr e ↦ rw e p
        | inl e ↦ elim (Bool-cases (is 0 (m.read r.clock).0)) [
          | inr g ↦ rw (e, g) p
          | inl g ↦ elim (Bool-cases (is 0 (m.send r.clock))) [
            | inr h ↦ rw (e, g, h) p1
            | inl h ↦
                rw (e, g, h)
                  (send_blocks-Calm m (act r (sent (m.read r.clock).1)) (j + (m.read r.clock).1) len
                    fuel p1)
          ]
        ]
      ]

  sent_all-Calm :
      (m : Machine) (i : ℕ) (f : File) (x : Run × End) → P x.0.acts → Post P P (sent_all m i f x)
  unfolding sent_all
  sent_all-Calm m i f (r, waits) p = p
  sent_all-Calm m i f (r, fails k) p = p
  sent_all-Calm m i f (r, next) p =
      let p1 = calm sent_last r.acts tt p in
      elim (Bool-cases (is 0 (m.send r.clock))) [
        | inr e ↦ rw e (delete_all-Calm (act r sent_last) p1)
        | inl e ↦ elim (Bool-cases (is 0 (m.wifi_older f.version (r.clock + 1)))) [
          | inl g ↦ rw (e, g) p1
          | inr g ↦ rw (e, g) (calm (deleted (full_name f)) _ tt (calm (saved _) _ tt p1))
        ]
      ]

  pub update_wifi-Calm :
      (m : Machine) (fuel : ℕ) (r : Run) (i : ℕ) (f : File)
      → P r.acts
      → Post P P (update_wifi m fuel r i f)
  unfolding update_wifi
  update_wifi-Calm m fuel r i f p =
      let u = unpack m r i f (codes ".bin") in
      let p1 : P u.0.acts = unpack-Calm m r i f (codes ".bin") p in
      elim (Bool-cases u.2) [
        | inr e ↦ rw e (delete_all-Calm u.0 p1)
        | inl e ↦ rw e (
            sent_all-Calm m i u.1 (send_blocks m u.0 0 (m.size u.0.clock) fuel)
              (send_blocks-Calm m u.0 0 (m.size u.0.clock) fuel p1))
      ]
