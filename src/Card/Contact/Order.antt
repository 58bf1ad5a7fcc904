-- ===== src/Card/Contact/Order.antt =====
-- EmvCommon.c, App_EmvTrans: the calls of the kernel behind a result of EMV_OK, and their order.
use service_payment_bridge.Prelude.{
  ℕ, zero, suc, ◌≡◌, refl, ap, sym, ◌∙◌, Bool, true, false, Option, some, List, ◌∷◌, ℤ, pos, is,
  if◌then◌else◌, arith, inl, inr, Bool-cases, ◌⊎◌,
}
use service_payment_bridge.Card.Track.{Conversion}
use service_payment_bridge.Card.Kernel.{
  emv_select, emv_reselect, Platform, Run, Result, ok, stop, overrun, Action, is_select_next,
}
use service_payment_bridge.Card.Contactless.{settle, transaction}
use service_payment_bridge.Card.Contact.{emv_body, app_emv_trans}
use service_payment_bridge.Card.Contact.Log.{Entry, must, Log, Passed, Adds, code, zero_of}
use service_payment_bridge.Card.Contact.Parts.{full_transaction, Adds-emv_body}

abbrev Goal : Type 1
Goal = Log → Type 0

attempt-done :
    {es : List Entry} (b : Action ℤ) (z : ℤ) (r : Run) (y : ℤ)
    → Adds es b
    → (if is 0 z then b r else (stop z, r)).0 ≡ ok y
    → (z ≡ pos 0) × Passed es r.log (if is 0 z then b r else (stop z, r)).1.log
attempt-done b z r y h e = elim (Bool-cases (is 0 z)) [
  | inl q ↦ (zero_of z q, rw q (h.done r y (rw q at e)))
  | inr q ↦ ground (arith, q, e)
]

attempt-left :
    {es : List Entry} (b : Action ℤ) (z : ℤ) (r : Run) (y : ℤ)
    → Adds es b
    → (if is 0 z then b r else (stop z, r)).0 ≡ stop y
    → is 0 y ≡ false
attempt-left b z r y h e = elim (Bool-cases (is 0 z)) [
  | inl q ↦ h.left r y (rw q at e)
  | inr q ↦ ap (λ x. is 0 x) (sym (ap code (rw q at e))) ∙ q
]

settle-done :
    (g : Goal) (x : Result ℤ) (s : Run) (next : ℤ → Run → Option (Result ℤ) × Run)
    → (settle (x, s) next).0 ≡ some (ok (pos 0))
    → ((y : ℤ) → x ≡ ok y → g s.log)
    → ((y : ℤ) → x ≡ stop y → is 0 y ≡ false)
    → ((y : ℤ) → (next y s).0 ≡ some (ok (pos 0)) → g (next y s).1.log)
    → g (settle (x, s) next).1.log
unfolding settle
settle-done g (ok y) s next e h k n = h y refl
settle-done g overrun s next e h k n = cc
settle-done g (stop y) s next e h k n = elim (Bool-cases (is_select_next y)) [
  | inl q ↦ rw q (n y (rw q at e))
  | inr q ↦ absurd (nonzero y (k y refl) (rw q at e))
]
  where
    nonzero :
        (y : ℤ) → is 0 y ≡ false → ◌≡◌ {A = Option (Result ℤ)} (some (ok y)) (some (ok (pos 0))) → ⊥
    nonzero y h q = let w : y ≡ pos 0 = cc in let u : is 0 y ≡ true = rw w refl in cc

-- The log ends with a selection of an application and, behind it, these calls.
abbrev pub Approved : List Entry → Log → Type 0
Approved es m =
    (l : Log) × (Passed (must emv_select ∷ es) l m ⊎ Passed (must emv_reselect ∷ es) l m)

abbrev Selected : ℤ → Log → Type 0
Selected z m = (l : Log) × ((m ≡ (emv_select, z) ∷ l) ⊎ (m ≡ (emv_reselect, z) ∷ l))

Passed-log : (es : List Entry) (l k m : Log) → l ≡ k → Passed es l m → Passed es k m
Passed-log es l k m q h = rw q at h

transaction-Approved :
    (p : Platform) (es : List Entry) (b : Action ℤ) (fuel : ℕ) (z : ℤ) (r : Run)
    → Adds es b
    → Selected z r.log
    → (transaction p emv_reselect b fuel z r).0 ≡ some (ok (pos 0))
    → Approved es (transaction p emv_reselect b fuel z r).1.log
unfolding transaction
transaction-Approved p es b zero z r h s e = cc
transaction-Approved p es b (suc fuel) z r h s e =
    settle-done (Approved es) (if is 0 z then b r else (stop z, r)).0
      (if is 0 z then b r else (stop z, r)).1 _ e (λ y q. behind _ s (attempt-done b z r y h q))
      (λ y q. attempt-left b z r y h q)
      (λ y q. transaction-Approved p es b fuel _ _ h (_, inr refl) q)
  where
    behind : (m : Log) → Selected z r.log → (z ≡ pos 0) × Passed es r.log m → Approved es m
    behind m (l, inl q) k = (
      l,
      inl (
          Passed-log es r.log ((emv_select, pos 0) ∷ l) m (q ∙ ap (λ x. (emv_select, x) ∷ l) k.0)
            k.1),
    )
    behind m (l, inr q) k = (
      l,
      inr (
          Passed-log es r.log ((emv_reselect, pos 0) ∷ l) m
            (q ∙ ap (λ x. (emv_reselect, x) ∷ l) k.0) k.1),
    )

-- A sale by a card in the slot whose transaction ends with EMV_OK: the last selection of an application, its
-- start, the reading of its data, the offline authentication, the restrictions, the cardholder's
-- verification, the risk management and the terminal's action analysis have been called in this order, and
-- each was answered EMV_OK; only the PIN pad's serial number was handled between them.
pub app_emv_trans-Approved :
    (v : Conversion) (p : Platform) (sale : Bool) (fuel : ℕ) (r : Run)
    → (app_emv_trans v p sale false fuel r).0 ≡ some (ok (pos 0))
    → Approved full_transaction (app_emv_trans v p sale false fuel r).1.log
unfolding app_emv_trans
app_emv_trans-Approved v p sale fuel r e =
    transaction-Approved p full_transaction (emv_body v p sale false) fuel
      (p.answer r.clock emv_select) _ (Adds-emv_body p v sale) (r.log, inl refl) e
