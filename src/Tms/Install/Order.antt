-- ===== src/Tms/Install/Order.antt =====
-- tms_tms.c, TmsUpdate_Api: "firmware must be updating before app because new lib may not work with old
-- firmware".
use service_payment_bridge.Prelude.{
  ℕ, ◌≡◌, true, ◌||◌, List, ◌∷◌, [], Bytes, ℤ, is, codes, str_eq, length, if◌then◌else◌, Bool-cases,
  inl, inr,
}
use service_payment_bridge.Tms.Trade.{
  Trade, File, type_app, type_firmware, type_lib, type_wifibsp, type_param,
}
use service_payment_bridge.Tms.Install.{
  Act, deleted, renamed, unzipped, installed, sent, sent_last, saved, Part, app, firmware, library,
  Machine, Run, full_name, next, waits, fails, Step, unpack, replace_param, update_wifi,
  update_firmware, replace_app, install_as, go_on, all_complete, update_api, params, wifis, systems,
  apps, forget,
}
use service_payment_bridge.Tms.Install.Calm.{
  Calm, Post, Post-imp, go_on-Post, each-Post, delete_all-Calm, unpack-Calm, replace_param-Calm,
  update_wifi-Calm,
}

-- Every installation answered 0, the application's aside.
abbrev pub Good : List Act → Type 0
Good [] = Unit
Good (installed app n z ∷ l) = Good l
Good (installed firmware n z ∷ l) = (is 0 z ≡ true) × Good l
Good (installed library n z ∷ l) = (is 0 z ≡ true) × Good l
Good (deleted n ∷ l) = Good l
Good (renamed a b ∷ l) = Good l
Good (unzipped a b ∷ l) = Good l
Good (sent n ∷ l) = Good l
Good (sent_last ∷ l) = Good l
Good (saved t ∷ l) = Good l

-- No application is installed.
abbrev pub NoApp : List Act → Type 0
NoApp [] = Unit
NoApp (installed app n z ∷ l) = ⊥
NoApp (installed firmware n z ∷ l) = NoApp l
NoApp (installed library n z ∷ l) = NoApp l
NoApp (deleted n ∷ l) = NoApp l
NoApp (renamed a b ∷ l) = NoApp l
NoApp (unzipped a b ∷ l) = NoApp l
NoApp (sent n ∷ l) = NoApp l
NoApp (sent_last ∷ l) = NoApp l
NoApp (saved t ∷ l) = NoApp l

-- Of the calls, the last one first: what comes before an application's installation is good, and what
-- comes before the firmware's or a library's has installed no application.
abbrev pub InOrder : List Act → Type 0
InOrder [] = Unit
InOrder (installed app n z ∷ l) = Good l × InOrder l
InOrder (installed firmware n z ∷ l) = NoApp l × InOrder l
InOrder (installed library n z ∷ l) = NoApp l × InOrder l
InOrder (deleted n ∷ l) = InOrder l
InOrder (renamed a b ∷ l) = InOrder l
InOrder (unzipped a b ∷ l) = InOrder l
InOrder (sent n ∷ l) = InOrder l
InOrder (sent_last ∷ l) = InOrder l
InOrder (saved t ∷ l) = InOrder l

-- Before and while the applications are installed.
abbrev Early : List Act → Type 0
Early l = NoApp l × Good l × InOrder l

abbrev Late : List Act → Type 0
Late l = Good l × InOrder l

Early-Calm : (a : Act) (l : List Act) → Calm a → Early l → Early (a ∷ l)
Early-Calm (deleted n) l c p = p
Early-Calm (renamed a b) l c p = p
Early-Calm (unzipped a b) l c p = p
Early-Calm (installed q n z) l c p = absurd c
Early-Calm (sent n) l c p = p
Early-Calm sent_last l c p = p
Early-Calm (saved t) l c p = p

Late-Calm : (a : Act) (l : List Act) → Calm a → Late l → Late (a ∷ l)
Late-Calm (deleted n) l c p = p
Late-Calm (renamed a b) l c p = p
Late-Calm (unzipped a b) l c p = p
Late-Calm (installed q n z) l c p = absurd c
Late-Calm (sent n) l c p = p
Late-Calm sent_last l c p = p
Late-Calm (saved t) l c p = p

InOrder-Calm : (a : Act) (l : List Act) → Calm a → InOrder l → InOrder (a ∷ l)
InOrder-Calm (deleted n) l c p = p
InOrder-Calm (renamed a b) l c p = p
InOrder-Calm (unzipped a b) l c p = p
InOrder-Calm (installed q n z) l c p = absurd c
InOrder-Calm (sent n) l c p = p
InOrder-Calm sent_last l c p = p
InOrder-Calm (saved t) l c p = p

-- A part of the system is installed.
abbrev IsSystem : Part → Type 0
IsSystem app = ⊥
IsSystem firmware = Unit
IsSystem library = Unit

system_good :
    (p : Part) (n : Bytes) (z : ℤ) (l : List Act)
    → IsSystem p
    → is 0 z ≡ true
    → Early l
    → Early (installed p n z ∷ l)
system_good app n z l s h p = absurd s
system_good firmware n z l s h p = (p.0, (h, p.1), (p.0, p.2))
system_good library n z l s h p = (p.0, (h, p.1), (p.0, p.2))

system_order :
    (p : Part) (n : Bytes) (z : ℤ) (l : List Act)
    → IsSystem p
    → Early l
    → InOrder (installed p n z ∷ l)
system_order app n z l s p = absurd s
system_order firmware n z l s p = (p.0, p.2)
system_order library n z l s p = (p.0, p.2)

update_firmware-Post :
    (m : Machine) (r : Run) (i : ℕ) (f : File)
    → Early r.acts
    → Post Early InOrder (update_firmware m r i f)
unfolding update_firmware
update_firmware-Post m r i f p =
    let u = unpack m r i f (codes ".bin") in
    let p1 : Early u.0.acts = unpack-Calm Early Early-Calm m r i f (codes ".bin") p in
    let part = if str_eq f.kind type_firmware then firmware else library in
    let system : IsSystem part = elim (Bool-cases (str_eq f.kind type_firmware)) [
      | inl e ↦ rw e tt
      | inr e ↦ rw e tt
    ] in
    let z = m.install u.0.clock in
    elim (Bool-cases u.2) [
      | inr e ↦ rw e (delete_all-Calm InOrder InOrder-Calm u.0 p1.2)
      | inl e ↦ elim (Bool-cases (is 0 z)) [
        | inl g ↦ rw (e, g) (system_good part (full_name u.1) z u.0.acts system g p1)
        | inr g ↦
            rw (e, g)
              (delete_all-Calm InOrder InOrder-Calm (install_as m u.0 part u.1)
                (system_order part (full_name u.1) z u.0.acts system p1))
      ]
    ]

replace_app-Post :
    (m : Machine) (r : Run) (i : ℕ) (f : File) → Late r.acts → Post Late Late (replace_app m r i f)
unfolding replace_app
replace_app-Post m r i f p =
    let u = unpack m r i f (codes ".img") in
    let p1 : Late u.0.acts = unpack-Calm Late Late-Calm m r i f (codes ".img") p in
    elim (Bool-cases u.2) [
      | inl e ↦ rw e (p1.0, p1)
      | inr e ↦ rw e (delete_all-Calm Late Late-Calm u.0 p1)
    ]

Post-InOrder : (x : Step) → Post InOrder InOrder x → InOrder x.0.acts
Post-InOrder (r, next) p = p
Post-InOrder (r, waits) p = p
Post-InOrder (r, fails k) p = p

params-Post : (m : Machine) (n : ℕ) (r : Run) → Early r.acts → Post Early InOrder (params m n r)
params-Post m n r p =
    Post-imp Early InOrder (params m n r) (λ l q. q.2)
      (each-Post Early Early (str_eq type_param) (replace_param m)
        (λ r' i f q. replace_param-Calm Early Early-Calm m r' i f q) r 0 n p)

wifis-Post :
    (m : Machine) (fuel n : ℕ) (r : Run) → Early r.acts → Post Early InOrder (wifis m fuel n r)
wifis-Post m fuel n r p =
    Post-imp Early InOrder (wifis m fuel n r) (λ l q. q.2)
      (each-Post Early Early (str_eq type_wifibsp) (update_wifi m fuel)
        (λ r' i f q. update_wifi-Calm Early Early-Calm m fuel r' i f q) r 0 n p)

systems-Post : (m : Machine) (n : ℕ) (r : Run) → Early r.acts → Post Early InOrder (systems m n r)
systems-Post m n r p =
    each-Post Early InOrder (λ k. str_eq type_firmware k || str_eq type_lib k) (update_firmware m)
      (λ r' i f q. update_firmware-Post m r' i f q) r 0 n p

apps-Post : (m : Machine) (n : ℕ) (r : Run) → Early r.acts → Post Late InOrder (apps m n r)
apps-Post m n r p =
    Post-imp Late InOrder (apps m n r) (λ l q. q.1)
      (each-Post Late Late (str_eq type_app) (replace_app m)
        (λ r' i f q. replace_app-Post m r' i f q) r 0 n (p.1, p.2))

-- Whatever the terminal answers, and on every way the update ends: when an application is installed,
-- every firmware and library installation before it has answered 0, and none follows.
pub update_api-InOrder :
    (m : Machine) (fuel : ℕ) (t : Trade)
    → InOrder (update_api m fuel (record { trade = t; acts = []; clock = 0 })).0.acts
unfolding update_api
update_api-InOrder m fuel t =
    let r0 : Run = record { trade = t; acts = []; clock = 0 } in
    let n = length t.files in
    let a = go_on (params m n r0) (wifis m fuel n) in
    let b = go_on a (systems m n) in
    let c = go_on b (apps m n) in
    let pa =
      go_on-Post Early Early InOrder (params m n r0) (wifis m fuel n)
        (params-Post m n r0 (tt, tt, tt)) (wifis-Post m fuel n) in
    let pb = go_on-Post Early Early InOrder a (systems m n) pa (systems-Post m n) in
    let pc = go_on-Post Early Late InOrder b (apps m n) pb (apps-Post m n) in
    elim (Bool-cases (all_complete t.files)) [
      | inr e ↦ rw e tt
      | inl e ↦
          rw e (
            Post-InOrder (go_on c forget)
              (go_on-Post Late InOrder InOrder c forget pc (λ r p. p.1)))
    ]
