-- ===== src/Qris/Protocol/Invariant.antt =====
-- What holds between the menu thread and the MQTT thread, in every interleaving of their steps.
use service_payment_bridge.Prelude.{
  ℕ, ◌+◌, ◌≤◌, ◌≡◌, ◌⊎◌, refl, Bool, true, false, List, [], ◌∷◌, Bytes, cstr, length, arith, inr,
}
use service_payment_bridge.Qris.Message.{Shared, Player, on_topic_message, on_buffer-shared}
use service_payment_bridge.Qris.Protocol.{
  Menu, idle, clearing_paid, storing_amount, storing_pending, waiting, showing, Mqtt, yielding,
  publishing, System, Step, request, clear_paid, put_amount, put_pending, give_up, display, finish,
  message, take_request, publish, Reach, here, next, start,
}

abbrev pub In : ℕ → List ℕ → Type 0
In a [] = ⊥
In a (x ∷ xs) = (a ≡ x) ⊎ In a xs

abbrev pub AllIn : List ℕ → List ℕ → Type 0
AllIn [] rs = Unit
AllIn (p ∷ ps) rs = In p rs × AllIn ps rs

AllIn-cons : (ps : List ℕ) (r : ℕ) (rs : List ℕ) → AllIn ps rs → AllIn ps (r ∷ rs)
AllIn-cons [] r rs h = tt
AllIn-cons (p ∷ ps) r rs h = (inr h.0, AllIn-cons ps r rs h.1)

-- The amount that the menu works on was requested.
abbrev MenuIn : Menu → List ℕ → Type 0
MenuIn idle rs = Unit
MenuIn (clearing_paid n) rs = In n rs
MenuIn (storing_amount n) rs = In n rs
MenuIn (storing_pending n) rs = In n rs
MenuIn (waiting n) rs = In n rs
MenuIn (showing n qr) rs = In n rs

-- From the store of the amount on, the variable holds the menu's amount.
abbrev pub AmountIs : Menu → ℕ → Type 0
AmountIs (storing_pending n) a = a ≡ n
AmountIs (waiting n) a = a ≡ n
AmountIs (showing n qr) a = a ≡ n
AmountIs _ a = Unit

-- A request whose store of the pending flag is still to come.
abbrev starting : Menu → ℕ
starting (clearing_paid n) = 1
starting (storing_amount n) = 1
starting (storing_pending n) = 1
starting _ = 0

abbrev flag : Bool → ℕ
flag true = 1
flag false = 0

abbrev in_publish : Mqtt → ℕ
in_publish yielding = 0
in_publish publishing = 1

pub record Inv (s : System) : Type 0 where
  pub menu_in : MenuIn s.menu s.requested
  pub amount_is : AmountIs s.menu s.shared.req_amount
  pub amount_in :
      (s.shared.req_pending ≡ true) ⊎ (s.mqtt ≡ publishing) → In s.shared.req_amount s.requested
  pub published_in : AllIn s.published s.requested
  pub counted :
      length s.published + flag s.shared.req_pending + in_publish s.mqtt + starting s.menu
      ≤ length s.requested

on_topic_message-request :
    (o : Player) (payload : Bytes) (g : Shared)
    → ((on_topic_message o payload g).shared.req_pending ≡ g.req_pending)
      × ((on_topic_message o payload g).shared.req_amount ≡ g.req_amount)
unfolding on_topic_message
on_topic_message-request o [] g = (refl, refl)
on_topic_message-request o (c ∷ payload) g =
    let r = on_buffer-shared o (cstr (c ∷ payload)) g in (r.0, r.1)

Step-Inv : {s t : System} → Step s t → Inv s → Inv t
Step-Inv {s} (request n h m e) v =
    ground (arith, AllIn-cons s.published n s.requested v.published_in)
Step-Inv (clear_paid n m e) v = ground arith
Step-Inv (put_amount n m e) v = ground arith
Step-Inv (put_pending n m e) v = ground arith
Step-Inv (give_up n m h e) v = ground arith
Step-Inv (display n m h e) v = ground arith
Step-Inv (finish n qr m e) v = ground arith
Step-Inv {s} (message o payload m e) v = ground (arith, on_topic_message-request o payload s.shared)
Step-Inv (take_request m h e) v = ground arith
Step-Inv (publish m e) v = ground arith

start-Inv : Inv start
start-Inv = ground arith

Reach-Inv : {s t : System} → Inv s → Reach s t → Inv t
Reach-Inv v here = v
Reach-Inv v (next r st) = Step-Inv st (Reach-Inv v r)

-- However the two threads and the arriving messages interleave: each amount that is published was
-- requested, no more amounts are published than were requested, and while the device waits for a
-- reply or shows a code the shared amount is the one that was typed.
pub Reach-published :
    {t : System}
    → Reach start t
    → AllIn t.published t.requested
      × (length t.published ≤ length t.requested)
      × AmountIs t.menu t.shared.req_amount
Reach-published r =
    let v = Reach-Inv start-Inv r in (v.published_in, omega (arith, v.counted), v.amount_is)
