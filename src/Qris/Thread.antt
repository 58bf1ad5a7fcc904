-- ===== src/Qris/Thread.antt =====
-- mqtt.c: mQTTMainThread, from the connect to the closing of the socket. What the MQTT client and the
-- network answer is given: the first results, and for each round of the loop what it finds.
use service_payment_bridge.Prelude.{
  ℕ, ◌+◌, ◌≡◌, refl, Bool, true, false, not, ◌&&◌, Option, none, some, List, [], ◌∷◌, ◌++◌, Bytes,
  take, ℤ, is, is_neg, if◌then◌else◌, arith,
}
use service_payment_bridge.Qris.Amount.{decimal}

-- The calls that the thread makes on the connection, in order; announcements are left out.
pub data Act : Type 0 where
  net_connect net_close mqtt_connect mqtt_disconnect : Act
  subscribe : Bytes → ℕ → Act
  publish : Bytes → Bytes → Act

-- A round: MQTTYield's result, the amount that the menu thread has stored meanwhile, before it set
-- G_qrisReqPending, and what MQTTPublish returns.
pub record Round : Type 0 where
  pub yielded : ℤ
  pub requested : Option ℕ
  pub published : ℤ

-- G_qrisReqPending and G_qrisReqAmount
pub record Request : Type 0 where
  pub pending : Bool
  pub amount : ℕ

-- n.netContext: NULL, the handle of a socket, or the (void *)-4 of a socket that could not be made.
pub data Context : Type 0 where
  null handle minus_four : Context

pub record Config : Type 0 where
  pub sn : Bytes
  pub device_topic : Bytes
  pub request_topic : Bytes
  pub qos : ℕ

pub record Answers : Type 0 where
  pub context : Context
  pub connected : ℤ
  pub subscribed : ℤ
  pub request : Request
  pub rounds : List Round

-- "%s|%ld" in the 64 bytes of `req`.
unfoldable pub request_text : Config → ℕ → Bytes
request_text c n = take 63 (c.sn ++ b'|' ∷ decimal n)

abbrev pub put_request : Option ℕ → Request → Request
put_request none q = q
put_request (some n) q = record { pending = true; amount = n }

-- "G_qrisReqPending = 0", where it was set.
unfoldable pub cleared : Request → Request
cleared q = if q.pending then record q { pending = false } else q

-- The loop: the acts, and whether it was left by a `break`. It is not left while the rounds last.
unfoldable pub serve : Config → Request → List Round → List Act × Bool
serve c q [] = ([], false)
serve c q (r ∷ rs) =
    let now : Request = put_request r.requested q in
    let (acts, left) = serve c (cleared now) rs in
    let again : List Act × Bool =
      (publish c.request_topic (request_text c now.amount) ∷ acts, left) in
    let idle : List Act × Bool = (acts, left) in
    if is_neg r.yielded
    then ([], true)
    else if now.pending
    then (if is_neg r.published
        then (publish c.request_topic (request_text c now.amount) ∷ [], true)
        else again)
    else idle

abbrev pub goodbye : List Act
goodbye = mqtt_disconnect ∷ net_close ∷ []

unfoldable pub after_subscribe : Config → Request → List Round → List Act × Bool
after_subscribe c q rs =
    let (acts, left) = serve c q rs in (acts ++ (if left then goodbye else []), left)

-- "n.netContext == NULL"
abbrev pub is_null : Context → Bool
is_null null = true
is_null handle = false
is_null minus_four = false

-- mQTTMainThread: the acts, and whether it has returned.
unfoldable pub mqtt_main_thread : Config → Answers → List Act × Bool
mqtt_main_thread c a =
    if is_null a.context
    then (net_connect ∷ [], true)
    else if not (is 0 a.connected)
    then (net_connect ∷ mqtt_connect ∷ goodbye, true)
    else if not (is 0 a.subscribed)
    then (net_connect ∷ mqtt_connect ∷ subscribe c.device_topic c.qos ∷ goodbye, true)
    else (let (acts, left) = after_subscribe c a.request a.rounds in
        (net_connect ∷ mqtt_connect ∷ subscribe c.device_topic c.qos ∷ acts, left))

abbrev pub is_close : Act → ℕ
is_close net_close = 1
is_close _ = 0

abbrev pub closings : List Act → ℕ
closings [] = 0
closings (x ∷ xs) = is_close x + closings xs

closings-append : (xs ys : List Act) → closings (xs ++ ys) ≡ closings xs + closings ys
closings-append [] ys = omega arith
closings-append (x ∷ xs) ys = omega (arith, closings-append xs ys)

closings-serve : (c : Config) (q : Request) (rs : List Round) → closings (serve c q rs).0 ≡ 0
unfolding serve
closings-serve c q [] = refl
closings-serve c q (r ∷ rs) =
    ground (arith, closings-serve c (cleared (put_request r.requested q)) rs)

closings-after_subscribe :
    (c : Config) (q : Request) (rs : List Round)
    → closings (after_subscribe c q rs).0 ≡ (if (after_subscribe c q rs).1 then 1 else 0)
unfolding after_subscribe
closings-after_subscribe c q rs = ground (
  arith,
  closings-serve c q rs,
  closings-append (serve c q rs).0 goodbye,
  closings-append (serve c q rs).0 [],
)

-- Once the thread has returned, it has closed what net_connect returned exactly once where that is not NULL,
-- also the (void *)-4 that stands for no socket, and has closed nothing where it is NULL; while it serves,
-- it has closed nothing.
pub mqtt_main_thread-closings :
    (c : Config) (a : Answers)
    → closings (mqtt_main_thread c a).0
      ≡ (if (mqtt_main_thread c a).1 then (if is_null a.context then 0 else 1) else 0)
unfolding mqtt_main_thread
mqtt_main_thread-closings c a = ground (arith, closings-after_subscribe c a.request a.rounds)

-- The amounts that the menu thread stores, up to the round that ends the loop: one in which MQTTYield fails,
-- whose request is not served, or one whose request cannot be published.
abbrev pub asked : List Round → List ℕ
asked [] = []
asked (r ∷ rs) = if is_neg r.yielded then [] else elim r.requested [
  | none ↦ asked rs
  | some n ↦ n ∷ (if is_neg r.published then [] else asked rs)
]

-- A request that waits when the thread starts counts in the first round, if no other replaces it.
abbrev pub or_waiting : Option ℕ → Request → Option ℕ
or_waiting none q = if q.pending then some q.amount else none
or_waiting (some n) q = some n

abbrev pub with_waiting : Request → List Round → List Round
with_waiting q [] = []
with_waiting q (r ∷ rs) = record r { requested = or_waiting r.requested q } ∷ rs

abbrev pub sent : Config → List ℕ → List Act
sent c [] = []
sent c (n ∷ ns) = publish c.request_topic (request_text c n) ∷ sent c ns

-- What comes before the loop, and behind it once the thread has returned.
abbrev pub greeting : Config → Answers → List Act
greeting c a =
    net_connect
    ∷ (if is_null a.context
        then []
        else mqtt_connect ∷ (if is 0 a.connected then subscribe c.device_topic c.qos ∷ [] else []))

abbrev pub farewell : Answers → Bool → List Act
farewell a returned = if is_null a.context then [] else if returned then goodbye else []

abbrev pub is_serving : Answers → Bool
is_serving a = not (is_null a.context) && (is 0 a.connected && is 0 a.subscribed)
