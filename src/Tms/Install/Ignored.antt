-- ===== src/Tms/Install/Ignored.antt =====
-- tms_tms.c, TmsUpdate_Api: answers that the update does not look at.
use service_payment_bridge.Prelude.{
  ℕ, zero, suc, ◌+◌, ◌≡◌, refl, Bool, true, false, ◌&&◌, Option, none, some, List, ◌∷◌, [], Bytes,
  is, codes, find, get_elem?, ltb, Bool-cases, inl, inr,
}
use service_payment_bridge.Tms.Trade.{File, is_complete}
use service_payment_bridge.Tms.Install.{
  app, Machine, Run, End, next, waits, fails, unpack, unpacked, send_blocks, sent_all, update_wifi,
  replace_app, install_as, go_on, each, apps,
}

abbrev pub NoZip : List File → Type 0
NoZip [] = Unit
NoZip (f ∷ fs) = (find (codes ".zip") f.name ≡ none) × NoZip fs

NoZip-get :
    (fs : List File) (i : ℕ) (f : File)
    → NoZip fs
    → get_elem? fs i ≡ some f
    → find (codes ".zip") f.name ≡ none
NoZip-get [] i f z h = cc
NoZip-get (g ∷ fs) zero f z h = let same : g ≡ f = cc in rw same at z.0
NoZip-get (g ∷ fs) (suc i) f z h = NoZip-get fs i f z.1 h

replace_app_plain :
    (m : Machine) (r : Run) (i : ℕ) (f : File)
    → find (codes ".zip") f.name ≡ none
    → replace_app m r i f ≡ (install_as m r app f, next)
unfolding replace_app unpack unpacked
replace_app_plain m r i f z = rw (z, unpacked) refl

apps_turn :
    (m : Machine) (kind : Bytes → Bool) (r : Run) (i n : ℕ) (x : Option File)
    → get_elem? r.trade.files i ≡ x
    → NoZip r.trade.files
    → ((r' : Run) → NoZip r'.trade.files → (each kind (replace_app m) r' (suc i) n).1 ≡ next)
    → (each kind (replace_app m) r i (suc n)).1 ≡ next
unfolding each go_on
apps_turn m kind r i n none e z ih = rw (e, each) refl
apps_turn m kind r i n (some f) e z ih = elim (Bool-cases (is_complete f.status && kind f.kind)) [
  | inl g ↦
      rw (e, each, g, replace_app_plain m r i f (NoZip-get r.trade.files i f z e))
        (ih (install_as m r app f) z)
  | inr g ↦ rw (e, each, g) (ih r z)
]

each_app-next :
    (m : Machine) (kind : Bytes → Bool) (r : Run) (i n : ℕ)
    → NoZip r.trade.files
    → (each kind (replace_app m) r i n).1 ≡ next
each_app-next m kind r i zero z = unfold each in refl
each_app-next m kind r i (suc n) z =
    apps_turn m kind r i n (get_elem? r.trade.files i) refl z
      (λ r' z'. each_app-next m kind r' (suc i) n z')

send_blocks_read_fails :
    (m : Machine) (r : Run) (j len fuel : ℕ)
    → is 0 (m.read r.clock).0 ≡ false
    → (send_blocks m r j len (suc fuel)).1 ≡ next
unfolding send_blocks
send_blocks_read_fails m r j len fuel h = elim (Bool-cases (ltb j len)) [
  | inl e ↦ rw (e, h) refl
  | inr e ↦ rw e refl
]

sent_all-next :
    (m : Machine) (i : ℕ) (f : File) (x : Run × End)
    → x.1 ≡ next
    → is 0 (m.send x.0.clock) ≡ true
    → (sent_all m i f x).1 ≡ next
unfolding sent_all
sent_all-next m i f (r, waits) e h = cc
sent_all-next m i f (r, fails c) e h = cc
sent_all-next m i f (r, next) e h =
    elim (Bool-cases (is 0 (m.wifi_older f.version (r.clock + 1)))) [
      | inl w ↦ rw (h, w) refl
      | inr w ↦ rw (h, w) refl
    ]

-- A firmware file for the Wi-Fi chip whose first block cannot be read lets the update go on to the
-- applications, if the file's name has no ".zip" and the chip takes what it is sent.
pub update_wifi-next :
    (m : Machine) (fuel : ℕ) (r : Run) (i : ℕ) (f : File)
    → find (codes ".zip") f.name ≡ none
    → is 0 (m.read r.clock).0 ≡ false
    → ((t : ℕ) → is 0 (m.send t) ≡ true)
    → (update_wifi m (suc fuel) r i f).1 ≡ next
unfolding update_wifi unpack unpacked
update_wifi-next m fuel r i f z h s =
    let x = send_blocks m r 0 (m.size r.clock) (suc fuel) in
    rw (z, unpacked)
      (sent_all-next m i f x (send_blocks_read_fails m r 0 (m.size r.clock) fuel h) (s x.0.clock))

-- Where no name has a ".zip", the loop that installs the applications goes on to the end, where the
-- status file is removed and 0 is returned, whatever the installer answers.
pub apps-next : (m : Machine) (n : ℕ) (r : Run) → NoZip r.trade.files → (apps m n r).1 ≡ next
apps-next m n r z = each_app-next m _ r 0 n z
