-- ===== src/Card/Contactless/Pin.antt =====
-- EnterPIN and its callers: what the PIN pad answers is lost.
use service_payment_bridge.Prelude.{
  ℕ, zero, suc, ◌+◌, ◌≡◌, refl, ap, Option, none, some, [], ◌∷◌, Bytes, ℤ, pos, negsuc, is,
  if◌then◌else◌, inl, inr, Bool-cases,
}
use service_payment_bridge.Card.Track.{Conversion}
use service_payment_bridge.Card.Kernel.{
  Kernel, paypass, paywave, quics, rupay, select_next, init, read_data, offline_auth, restrictions,
  verify, risk, term_act, card_act, mag_stripe, complete_mag, complete, ReadPath, mag, chip,
  Platform, Run, Result, ok, stop, overrun, Action, logged, is_select_next,
}
use service_payment_bridge.Card.Contactless.{
  paypass_rest, paypass_body, paywave_online, paywave_trans_complete, completed, Issuer,
  paywave_rest, paywave_body, quics_body, quics_rest, app_rupay_trans, app_paywave_trans,
  app_quics_trans, behind, finish, settle, transaction, app_paypass_trans,
}
use service_payment_bridge.Card.Contactless.Alike.{
  with_pin, Same, Alike, bind, before, Alike-output, Alike-pure, Alike-leave, Alike-change,
  Alike-check, Alike-get_pan, Alike-result_of, Alike-calls, Alike-pin_if_asked,
}

module _ (p : Platform) (f : ℕ → ℤ) (g : ℕ → Bytes) where
  paypass_rest-alike : (h : ReadPath) → Alike (paypass_rest p h) (paypass_rest (with_pin p f g) h)
  unfolding paypass_rest
  paypass_rest-alike mag =
      before (Alike-calls p f g (mag_stripe paypass ∷ complete_mag paypass ∷ []) (refl, (refl, tt)))
        (bind (Alike-output p.cvm) (λ c. before (Alike-pin_if_asked p f g c) (Alike-pure (pos 0))))
  paypass_rest-alike chip =
      before (Alike-calls p f g (restrictions paypass ∷ verify paypass ∷ []) (refl, (refl, tt))) (
        bind (Alike-output p.cvm) (λ c.
          before (Alike-calls p f g (term_act paypass ∷ card_act paypass ∷ []) (refl, (refl, tt))) (
            bind (Alike-result_of p f g (complete paypass) refl) (λ z.
              bind (Alike-output p.online) (λ o.
                before (Alike-change (λ r. record r { icc_online = o }) (λ r s e. e)) (
                  before (Alike-check z)
                    (before (Alike-pin_if_asked p f g c) (Alike-pure (pos 0)))))))))

  paypass_body-alike : (v : Conversion) → Alike (paypass_body v p) (paypass_body v (with_pin p f g))
  unfolding paypass_body
  paypass_body-alike v = before (Alike-calls p f g (init paypass ∷ []) (refl, tt)) (
      bind (Alike-output p.path) (λ h.
        before (Alike-calls p f g (read_data paypass ∷ []) (refl, tt))
          (before (Alike-get_pan p f g v) (paypass_rest-alike h))))

  paywave_online-alike :
      (i : Issuer) (n : ℕ) → Alike (paywave_online p i n) (paywave_online (with_pin p f g) i n)
  unfolding paywave_online paywave_trans_complete
  paywave_online-alike i zero = Alike-pure (pos 0)
  paywave_online-alike i (suc n) =
      bind (Alike-result_of p f g (complete paywave) refl) (λ z. Alike-pure (completed i z))

  paywave_rest-alike :
      (v : Conversion) (i : Issuer) (h : ReadPath)
      → Alike (paywave_rest v p i h) (paywave_rest v (with_pin p f g) i h)
  unfolding paywave_rest
  paywave_rest-alike v i mag = Alike-leave (negsuc 1016)
  paywave_rest-alike v i chip = before (Alike-calls p f g (read_data paywave ∷ []) (refl, tt)) (
      before (Alike-get_pan p f g v) (
        before
          (Alike-calls p f g (restrictions paywave ∷ offline_auth paywave ∷ verify paywave ∷ [])
            (refl, (refl, (refl, tt))))
          (bind (Alike-output p.cvm) (λ c. bind (Alike-output p.online) (λ o.
            before (Alike-pin_if_asked p f g c) (
              before (Alike-change (λ r. record r { icc_online = o }) (λ r s e. e))
                (paywave_online-alike i o)))))))

  paywave_body-alike :
      (v : Conversion) (i : Issuer) → Alike (paywave_body v p i) (paywave_body v (with_pin p f g) i)
  unfolding paywave_body
  paywave_body-alike v i =
      before (Alike-calls p f g (init paywave ∷ []) (refl, tt))
        (bind (Alike-output p.path) (λ h. paywave_rest-alike v i h))

  quics_body-alike : Alike (quics_body p) (quics_body (with_pin p f g))
  unfolding quics_body
  quics_body-alike = before (Alike-calls p f g (init quics ∷ []) (refl, tt)) (Alike-pure (pos 0))

  quics_rest-alike : Alike (quics_rest p) (quics_rest (with_pin p f g))
  unfolding quics_rest
  quics_rest-alike =
      before (Alike-calls p f g (read_data quics ∷ offline_auth quics ∷ []) (refl, (refl, tt))) (
        before (Alike-change (λ r. record r { trans_online = 0 }) (λ r s e. e)) (
          bind (Alike-result_of p f g (verify quics) refl) (λ z. bind (Alike-output p.cvm) (λ c.
            bind (Alike-output p.online) (λ o.
              before (Alike-change (λ r. record r { trans_online = o }) (λ r s e. e)) (
                before (Alike-check z)
                  (before (Alike-pin_if_asked p f g c) (Alike-pure (pos 0)))))))))

  app_rupay_trans-alike : Alike (app_rupay_trans p) (app_rupay_trans (with_pin p f g))
  unfolding app_rupay_trans
  app_rupay_trans-alike =
      before
        (Alike-calls p f g
          (init rupay
            ∷ read_data rupay
            ∷ offline_auth rupay
            ∷ restrictions rupay
            ∷ verify rupay
            ∷ [])
          (refl, (refl, (refl, (refl, (refl, tt))))))
        (bind (Alike-output p.cvm) (λ c. before (Alike-calls p f g (risk rupay ∷ []) (refl, tt)) (
          before (Alike-change (λ r. record r { trans_online = 0 }) (λ r s e. e)) (
            bind (Alike-result_of p f g (term_act rupay) refl) (λ z.
              bind (Alike-output p.online) (λ o.
                before (Alike-change (λ r. record r { trans_online = o }) (λ r s e. e)) (
                  before (Alike-check z)
                    (before (Alike-pin_if_asked p f g c) (Alike-pure (pos 0))))))))))

  -- The same code, and states that differ in their logs only.
  abbrev Ends : Option (Result ℤ) × Run → Option (Result ℤ) × Run → Type 0
  Ends x y = (x.0 ≡ y.0) × Same x.1 y.1

  settle-alike :
      (x : Result ℤ) (r s : Run) (n m : ℤ → Run → Option (Result ℤ) × Run)
      → Same r s
      → ((z : ℤ) (r s : Run) → Same r s → Ends (n z r) (m z s))
      → Ends (settle (x, r) n) (settle (x, s) m)
  unfolding settle
  settle-alike (ok z) r s n m e k = (refl, e)
  settle-alike overrun r s n m e k = (refl, e)
  settle-alike (stop z) r s n m e k = elim (Bool-cases (is_select_next z)) [
    | inl q ↦ rw q (k z r s e)
    | inr q ↦ rw q (refl, e)
  ]

  settle_pair-alike :
      (x y : Result ℤ × Run) (n m : ℤ → Run → Option (Result ℤ) × Run)
      → (x.0 ≡ y.0) × Same x.1 y.1
      → ((z : ℤ) (r s : Run) → Same r s → Ends (n z r) (m z s))
      → Ends (settle x n) (settle y m)
  settle_pair-alike (a, r) (b, s) n m h k = rw h.0 (settle-alike b r s n m h.1 k)

  attempt-alike :
      (b c : Action ℤ) (z : ℤ) (r s : Run)
      → Alike b c
      → Same r s
      → ((if is 0 z then b r else (stop z, r)).0 ≡ (if is 0 z then c s else (stop z, s)).0)
        × Same (if is 0 z then b r else (stop z, r)).1 (if is 0 z then c s else (stop z, s)).1
  attempt-alike b c z r s h e = elim (Bool-cases (is 0 z)) [
    | inl q ↦ rw q (h.run r s e)
    | inr q ↦ rw q (refl, e)
  ]

  transaction-alike :
      (k : Kernel) (b c : Action ℤ) (fuel : ℕ) (y z : ℤ) (r s : Run)
      → Alike b c
      → y ≡ z
      → Same r s
      → Ends
          (transaction p (select_next k) b fuel y r)
          (transaction (with_pin p f g) (select_next k) c fuel z s)
  unfolding transaction
  transaction-alike k b c zero y z r s h q e = (refl, e)
  transaction-alike k b c (suc fuel) y z r s h q e = rw q (
      settle_pair-alike (if is 0 z then b r else (stop z, r)) (if is 0 z then c s else (stop z, s))
        _ _ (attempt-alike b c z r s h e)
        (λ _ r' s' e'.
          transaction-alike k b c fuel (p.answer r'.clock (select_next k))
            (p.answer s'.clock (select_next k))
            (logged r' (select_next k) (p.answer r'.clock (select_next k)))
            (logged s' (select_next k) (p.answer s'.clock (select_next k))) h
            (ap (λ t. p.answer t (select_next k)) e'.0) (ap (λ t. t + 1) e'.0, e'.1)))

  finish-alike : (a b : Result ℤ) (r s : Run) → a ≡ b → Same r s → Ends (finish a r) (finish b s)
  unfolding finish
  finish-alike a (ok y) r s q e = rw q (refl, e)
  finish-alike a (stop y) r s q e = rw q (refl, e)
  finish-alike a overrun r s q e = rw q (refl, e)

  behind-alike :
      (x : Option (Result ℤ)) (r s : Run) (m n : Action ℤ)
      → Same r s
      → Alike m n
      → Ends (behind (x, r) m) (behind (x, s) n)
  unfolding behind
  behind-alike none r s m n e h = (refl, e)
  behind-alike (some overrun) r s m n e h = (refl, e)
  behind-alike (some (stop z)) r s m n e h = (refl, e)
  behind-alike (some (ok z)) r s m n e h = elim (Bool-cases (is 0 z)) [
    | inl q ↦ rw q (finish-alike (m r).0 (n s).0 (m r).1 (n s).1 (h.run r s e).0 (h.run r s e).1)
    | inr q ↦ rw q (refl, e)
  ]

  behind_pair-alike :
      (x y : Option (Result ℤ) × Run) (m n : Action ℤ)
      → Ends x y
      → Alike m n
      → Ends (behind x m) (behind y n)
  behind_pair-alike (a, r) (b, s) m n e h = rw e.0 (behind-alike b r s m n e.1 h)

  -- Whatever the PIN pad answers to EnterPIN, a cancel, a time-out or a missing key, and whatever block it
  -- leaves, each of the four contactless transactions ends with the code that it ends with for any other
  -- answers of the PIN pad.
  pub contactless_pin_lost :
      (v : Conversion) (i : Issuer) (fuel : ℕ) (r : Run)
      → ((app_paypass_trans v p fuel r).0 ≡ (app_paypass_trans v (with_pin p f g) fuel r).0)
        × ((app_paywave_trans v p i fuel r).0 ≡ (app_paywave_trans v (with_pin p f g) i fuel r).0)
        × ((app_quics_trans p fuel r).0 ≡ (app_quics_trans (with_pin p f g) fuel r).0)
        × ((app_rupay_trans p r).0 ≡ (app_rupay_trans (with_pin p f g) r).0)
  unfolding app_paypass_trans app_paywave_trans app_quics_trans
  contactless_pin_lost v i fuel r = (
    (transaction-alike paypass _ _ fuel (pos 0) (pos 0) r r (paypass_body-alike v) refl
        (refl, refl)).0,
    (transaction-alike paywave _ _ fuel (pos 0) (pos 0) r r (paywave_body-alike v i) refl
        (refl, refl)).0,
    (behind_pair-alike (transaction p (select_next quics) (quics_body p) fuel (pos 0) r)
        (transaction (with_pin p f g) (select_next quics) (quics_body (with_pin p f g)) fuel (pos 0)
          r)
        _ _
        (transaction-alike quics _ _ fuel (pos 0) (pos 0) r r quics_body-alike refl (refl, refl))
        quics_rest-alike).0,
    (app_rupay_trans-alike.run r r (refl, refl)).0,
  )
