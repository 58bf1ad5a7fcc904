-- ===== src/Card/Contact/Log.antt =====
-- EmvCommon.c: what the log shows of the calls behind a part of a transaction that went on.
use service_payment_bridge.Prelude.{
  ℕ, ◌≡◌, refl, ap, sym, true, false, List, [], ◌∷◌, ◌++◌, ℤ, pos, negsuc, is, arith, inl, inr,
  Bool-cases, ◌⊎◌,
}
use service_payment_bridge.Card.Kernel.{
  Call, Run, Result, ok, stop, overrun, Action, ◌>>=◌, ◌>>◌, pure, change, output, resumed,
}
use service_payment_bridge.Card.Contactless.{check}

-- What a log shows of a call: it was answered EMV_OK; it was made; it may have been made.
pub data Entry : Type 0 where
  must made maybe : Call → Entry

abbrev pub Log : Type 0
Log = List (Call × ℤ)

-- The second log is the first one with calls in this order.
abbrev pub Passed : List Entry → Log → Log → Type 0
Passed [] l m = m ≡ l
Passed (must c ∷ es) l m = Passed es ((c, pos 0) ∷ l) m
Passed (made c ∷ es) l m = (z : ℤ) × Passed es ((c, z) ∷ l) m
Passed (maybe c ∷ es) l m = Passed es l m ⊎ ((z : ℤ) × Passed es ((c, z) ∷ l) m)

Passed-append :
    (es fs : List Entry) (l m n : Log) → Passed es l m → Passed fs m n → Passed (es ++ fs) l n
Passed-append [] fs l m n h k = rw (sym h) k
Passed-append (must c ∷ es) fs l m n h k = Passed-append es fs ((c, pos 0) ∷ l) m n h k
Passed-append (made c ∷ es) fs l m n (z, h) k = (z, Passed-append es fs ((c, z) ∷ l) m n h k)
Passed-append (maybe c ∷ es) fs l m n (inl h) k = inl (Passed-append es fs l m n h k)
Passed-append (maybe c ∷ es) fs l m n (inr (z, h)) k =
    inr (z, Passed-append es fs ((c, z) ∷ l) m n h k)

-- A part that goes on only behind these calls, and does not leave with EMV_OK.
pub record Adds {A : Type 0} (es : List Entry) (m : Action A) : Type 0 where
  pub done : (r : Run) (a : A) → (m r).0 ≡ ok a → Passed es r.log (m r).1.log
  pub left : (r : Run) (z : ℤ) → (m r).0 ≡ stop z → is 0 z ≡ false

resumed-done :
    {A B : Type 0} (es fs : List Entry) (x : Result A) (f : A → Action B) (s : Run) (b : B)
    (l : Log)
    → (resumed x f s).0 ≡ ok b
    → ((a : A) → x ≡ ok a → Passed es l s.log)
    → ((a : A) → Adds fs (f a))
    → Passed (es ++ fs) l (resumed x f s).1.log
resumed-done es fs (ok a) f s b l e h k =
    Passed-append es fs l s.log _ (h a refl) ((k a).done s b e)
resumed-done es fs (stop z) f s b l e h k = cc
resumed-done es fs overrun f s b l e h k = cc

resumed-left :
    {A B : Type 0} (fs : List Entry) (x : Result A) (f : A → Action B) (s : Run) (z : ℤ)
    → (resumed x f s).0 ≡ stop z
    → ((y : ℤ) → x ≡ stop y → is 0 y ≡ false)
    → ((a : A) → Adds fs (f a))
    → is 0 z ≡ false
resumed-left fs (ok a) f s z e h k = (k a).left s z e
resumed-left fs (stop y) f s z e h k = h z cc
resumed-left fs overrun f s z e h k = cc

pub bind :
    {A B : Type 0} {es fs : List Entry} {m : Action A} {f : A → Action B}
    → Adds es m
    → ((a : A) → Adds fs (f a))
    → Adds (es ++ fs) (m >>= f)
bind {es} {fs} {m} {f} h k = record {
  done = λ r b e. resumed-done es fs (m r).0 f (m r).1 b r.log e (h.done r) k;
  left = λ r z e. resumed-left fs (m r).0 f (m r).1 z e (h.left r) k;
}

pub before :
    {B : Type 0} {es fs : List Entry} {m : Action (Unit {0})} {k : Action B}
    → Adds es m
    → Adds fs k
    → Adds (es ++ fs) (m >> k)
before h q = bind h (λ _. q)

pub Adds-pure : {A : Type 0} (a : A) → Adds [] (pure a)
Adds-pure a = record { done = λ r b e. refl; left = λ r z e. cc }

pub Adds-output : {A : Type 0} (o : ℕ → A) → Adds [] (output o)
Adds-output o = record { done = λ r b e. refl; left = λ r z e. cc }

pub Adds-check : (z : ℤ) → Adds [] (check z)
Adds-check z = elim (Bool-cases (is 0 z)) [
  | inl q ↦ rw q (record { done = λ r b e. refl; left = λ r y e. cc })
  | inr q ↦ rw q (record { done = λ r b e. cc; left = λ r y e. cc })
]

pub zero_of : (z : ℤ) → is 0 z ≡ true → z ≡ pos 0
zero_of (pos n) h = ap pos (ground (arith, h))
zero_of (negsuc n) h = cc

abbrev pub code : {A : Type 0} → Result A → ℤ
code (ok a) = pos 1
code (stop z) = z
code overrun = pos 1

-- A change that leaves the log alone.
pub Adds-change : (f : Run → Run) → ((r : Run) → (f r).log ≡ r.log) → Adds [] (change f)
Adds-change f h = record { done = λ r b e. h r; left = λ r z e. cc }

-- "if (ret != EMV_OK)" goes on with EMV_OK only.
pub check-ok :
    (z : ℤ) (s : Run) (b : Unit {0}) → (check z s).0 ≡ ok b → (z ≡ pos 0) × ((check z s).1 ≡ s)
check-ok z s b e = elim (Bool-cases (is 0 z)) [
  | inl q ↦ (zero_of z q, rw q refl)
  | inr q ↦ ground (arith, q, e)
]
