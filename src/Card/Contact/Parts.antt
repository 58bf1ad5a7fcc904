-- ===== src/Card/Contact/Parts.antt =====
-- EmvCommon.c, App_EmvTrans: the calls behind its parts.
use service_payment_bridge.Prelude.{
  ◌+◌, ◌≡◌, refl, ap, sym, ◌∙◌, Bool, false, Option, none, some, List, [], ◌∷◌, ℤ, pos, negsuc, is,
  ◌==◌, if◌then◌else◌, arith, inl, inr, Bool-cases,
}
use service_payment_bridge.Card.Track.{Conversion}
use service_payment_bridge.Card.Data.{Trans, emv_save_data_online, get_emv_track_data}
use service_payment_bridge.Card.Kernel.{
  Call, emv_init, emv_read, emv_auth, emv_restrictions, emv_verify, emv_risk, emv_term_act,
  read_serial, set_serial, Platform, Run, ok, stop, ◌>>=◌, pure, result_of, call, calls,
}
use service_payment_bridge.Card.Contactless.{check}
use service_payment_bridge.Card.Contact.{
  tell_serial, keep_card, keep_read, not_negative, read_track, save_online, save_all,
  term_act_analyse, emv_rest, emv_body,
}
use service_payment_bridge.Card.Contact.Log.{
  Entry, must, made, maybe, Adds, code, bind, before, zero_of, Adds-pure, Adds-check, check-ok,
}

abbrev decided : List Entry
decided =
    must emv_auth ∷ must emv_restrictions ∷ must emv_verify ∷ must emv_risk ∷ must emv_term_act ∷ []

-- The calls behind a selection.
abbrev pub full_transaction : List Entry
full_transaction = must emv_init ∷ must emv_read ∷ made read_serial ∷ maybe set_serial ∷ decided

Adds-not_negative : (z : ℤ) → Adds [] (not_negative z)
Adds-not_negative (pos n) = Adds-pure tt
Adds-not_negative (negsuc n) = record {
  done = λ r b e. cc;
  left = λ r y e. rw (sym (ap code e)) refl;
}

call-check : (z : ℤ) (r : Run) → (check z r).0 ≡ (if is 0 z then ok tt else stop z)
call-check z r = elim (Bool-cases (is 0 z)) [ inl q ↦ rw q refl | inr q ↦ rw q refl ]

call-ok :
    (p : Platform) (c : Call) (r : Run) (b : Unit {0})
    → (call p c r).0 ≡ ok b
    → p.answer r.clock c ≡ pos 0
unfolding call
call-ok p c r b e = elim (Bool-cases (is 0 (p.answer r.clock c))) [
  | inl q ↦ zero_of (p.answer r.clock c) q
  | inr q ↦ ground (arith, q, e)
]

Adds-keep_card : (o : Option Trans) → Adds [] (keep_card o)
unfolding keep_card
Adds-keep_card none = record { done = λ r b e. cc; left = λ r y e. cc }
Adds-keep_card (some t) = record { done = λ r b e. refl; left = λ r y e. cc }

Adds-keep_read : (o : Option (ℤ × Trans)) → Adds [] (keep_read o)
unfolding keep_read
Adds-keep_read none = record { done = λ r b e. cc; left = λ r y e. cc }
Adds-keep_read (some (z, t)) = record { done = λ r b e. refl; left = λ r y e. cc }

module _ (p : Platform) where
  Adds-call : (c : Call) → Adds (must c ∷ []) (call p c)
  unfolding call
  Adds-call c = record {
    done = λ r b e. rw (call-ok p c r b e) refl;
    left =
        λ r z e. (Adds-check (p.answer r.clock c)).left r z (call-check (p.answer r.clock c) r ∙ e);
  }

  Adds-result_of : (c : Call) → Adds (made c ∷ []) (result_of p c)
  unfolding result_of
  Adds-result_of c = record { done = λ r b e. (p.answer r.clock c, refl); left = λ r z e. cc }

  abbrev musts : List Call → List Entry
  musts [] = []
  musts (c ∷ cs) = must c ∷ musts cs

  Adds-calls : (cs : List Call) → Adds (musts cs) (calls p cs)
  unfolding calls
  Adds-calls [] = Adds-pure tt
  Adds-calls (c ∷ cs) = before (Adds-call c) (Adds-calls cs)

  abbrev analysed : Run → Run
  analysed r = record r {
    log = (emv_term_act, p.answer r.clock emv_term_act) ∷ r.log;
    clock = r.clock + 1;
    trans_online = p.online (r.clock + 1);
  }

  Adds-term_act_analyse : Adds (must emv_term_act ∷ []) (term_act_analyse p)
  unfolding term_act_analyse result_of
  Adds-term_act_analyse = record {
    done = λ r b e.
        let h = check-ok (p.answer r.clock emv_term_act) (analysed r) b e in rw (h.1, h.0) refl;
    left = λ r z e. (Adds-check (p.answer r.clock emv_term_act)).left (analysed r) z e;
  }

  Adds-tell_serial : Adds (made read_serial ∷ maybe set_serial ∷ []) (tell_serial p)
  unfolding tell_serial result_of
  Adds-tell_serial = bind (Adds-result_of read_serial) set_if_read
    where
      set_if_read :
          (z : ℤ)
          → Adds
              (maybe set_serial ∷ [])
              (if is 0 z then result_of p set_serial >>= (λ _. pure tt) else pure tt)
      set_if_read z = elim (Bool-cases (is 0 z)) [
        | inl q ↦
            rw q (record {
              done = λ r b e. inr (p.answer r.clock set_serial, refl);
              left = λ r y e. cc;
            })
        | inr q ↦ rw q (record { done = λ r b e. inl refl; left = λ r y e. cc })
      ]

  Adds-save_online : Adds [] (save_online p)
  unfolding save_online
  Adds-save_online = record {
    done = λ r b e. (kept r).done r b e;
    left = λ r z e. (kept r).left r z e;
  }
    where
      kept :
          (s : Run)
          → Adds [] (λ r.
            if s.trans_online == 1
            then keep_card (emv_save_data_online (p.tlv s.clock) s.card) r
            else (ok tt, r))
      kept s = elim (Bool-cases (s.trans_online == 1)) [
        | inl q ↦ rw q (Adds-keep_card (emv_save_data_online (p.tlv s.clock) s.card))
        | inr q ↦ rw q (Adds-pure tt)
      ]

  Adds-save_all : (sale : Bool) → Adds [] (save_all p sale)
  unfolding save_all
  Adds-save_all sale = record {
    done = λ r b e. (Adds-keep_card _).done r b e;
    left = λ r z e. (Adds-keep_card _).left r z e;
  }

  Adds-read_track : (v : Conversion) → Adds [] (read_track v p)
  unfolding read_track
  Adds-read_track v =
      bind {es = []}
        (record {
          done = λ r b e. (Adds-keep_read (get_emv_track_data v (p.tlv r.clock) r.card)).done r b e;
          left = λ r z e. (Adds-keep_read (get_emv_track_data v (p.tlv r.clock) r.card)).left r z e;
        })
        Adds-not_negative

  Adds-emv_rest : (sale : Bool) → Adds decided (emv_rest p sale false)
  unfolding emv_rest
  Adds-emv_rest sale =
      before (Adds-calls (emv_auth ∷ emv_restrictions ∷ emv_verify ∷ emv_risk ∷ [])) (
        before Adds-term_act_analyse
          (before Adds-save_online (before (Adds-save_all sale) (Adds-pure (pos 0)))))

  pub Adds-emv_body :
      (v : Conversion) (sale : Bool) → Adds full_transaction (emv_body v p sale false)
  unfolding emv_body
  Adds-emv_body v sale =
      before (Adds-calls (emv_init ∷ emv_read ∷ []))
        (before Adds-tell_serial (before (Adds-read_track v) (Adds-emv_rest sale)))
