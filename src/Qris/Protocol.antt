-- ===== src/Qris/Protocol.antt =====
-- display.c: QrisDinamis, and mqtt.c: the loop of mQTTMainThread, as two threads over the shared
-- variables. Each store that the other thread can see between is a step of its own.
pub mod Invariant
pub mod Stale
use service_payment_bridge.Prelude.{
  ℕ, zero, suc, ◌+◌, ◌≤◌, ◌<◌, ◌≡◌, ◌≢◌, ◌⊎◌, refl, Bool, true, false, Option, none, some, List, [],
  ◌∷◌, Bytes, codes, length, if◌then◌else◌, arith, inl, inr, has_prefix,
}
use service_payment_bridge.Qris.Message.{Shared, Player, on_topic_message}

-- Where the menu thread stands: at the main menu, between the stores of a request of this amount, in
-- the wait for the reply, or with a code on the screen.
pub data Menu : Type 0 where
  idle : Menu
  clearing_paid storing_amount storing_pending : ℕ → Menu
  waiting : ℕ → Menu
  showing : ℕ → Bytes → Menu

-- Where the MQTT thread stands: in MQTTYield, or between "G_qrisReqPending = 0" and the publish.
pub data Mqtt : Type 0 where
  yielding publishing : Mqtt

-- `requested` and `published` are the amounts of all requests so far, the last one first.
pub record System : Type 0 where
  pub shared : Shared
  pub menu : Menu
  pub mqtt : Mqtt
  pub requested : List ℕ
  pub published : List ℕ

-- Stores of one field of the shared variables.
abbrev store_ready : Shared → Bool → Shared
store_ready g b = record g { reply_ready = b }

abbrev store_paid : Shared → Bool → Shared
store_paid g b = record g { paid = b }

abbrev store_amount : Shared → ℕ → Shared
store_amount g n = record g { req_amount = n }

abbrev store_pending : Shared → Bool → Shared
store_pending g b = record g { req_pending = b }

pub data Step (s t : System) : Type 0 where
  -- the amount is typed, and "G_qrisReplyReady = 0"
  request :
      (n : ℕ)
      → 0 < n
      → s.menu ≡ idle
      → t ≡ record s {
        shared = store_ready s.shared false;
        menu = clearing_paid n;
        requested = n ∷ s.requested;
      }
      → Step s t
  -- "G_qrisPaid = 0"
  clear_paid :
      (n : ℕ)
      → s.menu ≡ clearing_paid n
      → t ≡ record s { shared = store_paid s.shared false; menu = storing_amount n }
      → Step s t
  -- "G_qrisReqAmount = amt"
  put_amount :
      (n : ℕ)
      → s.menu ≡ storing_amount n
      → t ≡ record s { shared = store_amount s.shared n; menu = storing_pending n }
      → Step s t
  -- "G_qrisReqPending = 1"
  put_pending :
      (n : ℕ)
      → s.menu ≡ storing_pending n
      → t ≡ record s { shared = store_pending s.shared true; menu = waiting n }
      → Step s t
  -- "if (!G_qrisReplyReady)" holds behind the loop
  give_up :
      (n : ℕ)
      → s.menu ≡ waiting n
      → s.shared.reply_ready ≡ false
      → t ≡ record s { menu = idle }
      → Step s t
  -- QRCodeDispText(G_qrisReply)
  display :
      (n : ℕ)
      → s.menu ≡ waiting n
      → s.shared.reply_ready ≡ true
      → t ≡ record s { menu = showing n s.shared.reply }
      → Step s t
  -- qrisWaitPayment ends
  finish : (n : ℕ) (qr : Bytes) → s.menu ≡ showing n qr → t ≡ record s { menu = idle } → Step s t
  -- MQTTYield calls onTopicMessageArrived
  message :
      (o : Player) (payload : Bytes)
      → s.mqtt ≡ yielding
      → t ≡ record s { shared = (on_topic_message o payload s.shared).shared }
      → Step s t
  -- "if (G_qrisReqPending)", "G_qrisReqPending = 0"
  take_request :
      s.mqtt ≡ yielding
      → s.shared.req_pending ≡ true
      → t ≡ record s { shared = store_pending s.shared false; mqtt = publishing }
      → Step s t
  -- snprintf of G_qrisReqAmount, and MQTTPublish
  publish :
      s.mqtt ≡ publishing
      → t ≡ record s { mqtt = yielding; published = s.shared.req_amount ∷ s.published }
      → Step s t

pub data Reach (s : System) : System → Type 0 where
  here : Reach s s
  next : {t u : System} → Reach s t → Step t u → Reach s u

abbrev pub start : System
start = record {
  shared = record {
    req_pending = false;
    req_amount = 0;
    reply_ready = false;
    reply = [];
    paid = false;
  };
  menu = idle;
  mqtt = yielding;
  requested = [];
  published = [];
}
