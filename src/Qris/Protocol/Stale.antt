-- ===== src/Qris/Protocol/Stale.antt =====
-- A reply carries no mark of the request that it answers.
use service_payment_bridge.Prelude.{ℕ, ◌<◌, ◌≡◌, refl, [], ◌∷◌, Bytes, cstr, take, has_prefix, pos}
use service_payment_bridge.Qris.Message.{on_buffer, on_topic_message}
use service_payment_bridge.Qris.Protocol.{
  showing, System, request, clear_paid, put_amount, put_pending, give_up, display, message,
  take_request, publish, Reach, here, next, start,
}

-- For all amounts `a` and `b` and every text, the device can come to show that text as the code for
-- `b` although `a` is the only request that was ever published: a reply that arrives after the
-- wait for `a` was given up answers the next request.
pub stale_reply :
    (a b : ℕ) (qr : Bytes)
    → 0 < a
    → 0 < b
    → (t : System) × Reach start t
      × (t.menu ≡ showing b (take 511 (cstr qr)))
      × (t.published ≡ a ∷ [])
unfolding on_topic_message on_buffer has_prefix cstr
stale_reply a b qr h k = (
  _,
  next
      (next
        (next
          (next
            (next
              (next
                (next
                  (next
                    (next
                      (next
                        (next (next (next here (request a h refl refl)) (clear_paid a refl refl))
                          (put_amount a refl refl))
                        (put_pending a refl refl))
                      (take_request refl refl refl))
                    (publish refl refl))
                  (give_up a refl refl refl))
                (request b k refl refl))
              (clear_paid b refl refl))
            (put_amount b refl refl))
          (put_pending b refl refl))
        (message (λ l p. pos 0) (81 ∷ 82 ∷ 58 ∷ qr) refl refl))
      (display b refl refl refl),
  refl,
  refl,
)
