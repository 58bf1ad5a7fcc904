-- ===== src/Examples/Payments.antt =====
-- display.c, mqtt.c and func.c at concrete inputs.
use service_payment_bridge.Prelude.{
  ◌+◌, ◌*◌, ◌/◌, ◌≤◌, ◌≡◌, refl, true, false, List, [], ◌∷◌, ◌++◌, Bytes, codes, cstr, length, pos,
  negsuc, arith, take, has_prefix, some, none, if◌then◌else◌, find,
}
use mathlib.Core.List.{reverse}
use service_payment_bridge.Qris.Amount.{
  decimal, value_from, format_rupiah, dots, joined, AllThree, value-format_rupiah,
}
use service_payment_bridge.Qris.Layout.{
  Lcd, Encoder, area_width, area_height, bar_height, qr_code_disp_text, qr_code_disp_text_inside,
  zoom, place,
}
use service_payment_bridge.Qris.Message.{Shared, Player, join_plus, on_buffer, on_buffer-join_plus}
use service_payment_bridge.Qris.Protocol.{
  System, Reach, here, next, request, clear_paid, put_amount, put_pending, take_request, publish,
  start, waiting, showing, yielding,
}
use service_payment_bridge.Qris.Protocol.Invariant.{AllIn, AmountIs, Reach-published}
use service_payment_bridge.Qris.Protocol.Stale.{stale_reply}
use service_payment_bridge.Qris.Thread.{
  Config, Answers, Context, closings, mqtt_main_thread, mqtt_main_thread-closings,
}
use service_payment_bridge.Qris.Wait
use service_payment_bridge.Qris.Wait.{
  Justifies, wait_payment, wait_loop, wait_payment_lem, descending,
}

abbrev wait_rounds : List Wait.Round
wait_rounds =
    record { paid = false; key = false; second = true }
    ∷ record { paid = true; key = false; second = false }
    ∷ []

wait_payment_lem_example : Justifies wait_rounds (wait_payment wait_rounds).0
wait_payment_lem_example = wait_payment_lem wait_rounds

value-format_rupiah_example :
    (h : Bytes) × (ms : List Bytes) × (format_rupiah 125000000 ≡ codes "Rp " ++ (h ++ dots ms))
    × (h ++ joined ms ≡ decimal (125000000 / 100))
    × (1 ≤ length h)
    × (length h ≤ 3)
    × AllThree ms
    × (value_from 0 (h ++ joined ms) ≡ 125000000 / 100)
value-format_rupiah_example = value-format_rupiah 125000000

abbrev screen : Lcd
screen = record { width = 320; height = 480; use_width = 320; use_height = 456 }

abbrev encoder : Encoder
encoder = record { result = λ z. pos 0; bmp_width = λ z. 33 * z }

qr_code_disp_text_inside_example :
    (11 + 297 ≤ area_width screen)
    × (bar_height screen ≤ 103)
    × (103 + 297 ≤ bar_height screen + area_height screen)
unfolding qr_code_disp_text zoom area_width area_height place bar_height
qr_code_disp_text_inside_example =
    qr_code_disp_text_inside screen encoder b'0' (codes "02")
      (record { size = 297; x = 11; y = 103 }) (λ z. omega arith) (omega arith) (omega arith) refl

abbrev player : Player
player log p = pos 0

abbrev quiet : Shared
quiet = record {
  req_pending = false;
  req_amount = 0;
  reply_ready = false;
  reply = [];
  paid = false;
}

abbrev audio : List Bytes
audio = codes "a.mp3" ∷ codes "b.mp3" ∷ []

on_buffer-join_plus_example :
    ((on_buffer player (join_plus audio) quiet).attempts ≡ reverse audio)
    × ((on_buffer player (join_plus audio) quiet).shared ≡ record quiet { paid = true })
unfolding has_prefix find
on_buffer-join_plus_example =
    on_buffer-join_plus player audio quiet (ground arith) (λ l p. refl) refl refl

-- An amount was typed and is published.
abbrev after_publish : System
after_publish = record {
  shared = record {
    req_pending = false;
    req_amount = 500;
    reply_ready = false;
    reply = [];
    paid = false;
  };
  menu = waiting 500;
  mqtt = yielding;
  requested = 500 ∷ [];
  published = 500 ∷ [];
}

Reach-after_publish : Reach start after_publish
Reach-after_publish =
    next
      (next
        (next
          (next (next (next here (request 500 (omega arith) refl refl)) (clear_paid 500 refl refl))
            (put_amount 500 refl refl))
          (put_pending 500 refl refl))
        (take_request refl refl refl))
      (publish refl refl)

Reach-published_example : AllIn (500 ∷ []) (500 ∷ []) × (1 ≤ 1) × AmountIs (waiting 500) 500
Reach-published_example = Reach-published {t = after_publish} Reach-after_publish

stale_reply_example :
    (t : System) × Reach start t
    × (t.menu ≡ showing 900 (take 511 (cstr (codes "0002"))))
    × (t.published ≡ 500 ∷ [])
stale_reply_example = stale_reply 500 900 (codes "0002") (omega arith) (omega arith)

abbrev config : Config
config = record {
  sn = codes "S1";
  device_topic = codes "topic/m/S1";
  request_topic = codes "qris/request/m/S1";
  qos = 1;
}

abbrev session : Answers
session = record {
  context = Context.handle;
  connected = pos 0;
  subscribed = pos 0;
  request = record { pending = false; amount = 0 };
  rounds =
      record { yielded = pos 0; requested = some 500; published = pos 0 }
      ∷ record { yielded = pos 0; requested = none; published = pos 0 }
      ∷ record { yielded = negsuc 0; requested = none; published = pos 0 }
      ∷ [];
}

mqtt_main_thread-closings_example :
    closings (mqtt_main_thread config session).0
    ≡ (if (mqtt_main_thread config session).1 then 1 else 0)
mqtt_main_thread-closings_example = mqtt_main_thread-closings config session
