-- ===== src/Card/Contactless/Alike.antt =====
-- EnterPIN and its callers: parts of functions that go the same way whatever the PIN pad answers.
use service_payment_bridge.Prelude.{
  ℕ, ◌+◌, ◌≡◌, refl, ap, Bool, true, false, Option, none, some, List, [], ◌∷◌, Bytes, ℤ, is,
  if◌then◌else◌, inl, inr, Bool-cases,
}
use service_payment_bridge.Card.Track.{Conversion, get_pan_number}
use service_payment_bridge.Card.Kernel.{
  Call, ped_get_pwd, Cvm, no_cvm, signature, online_pin, Platform, Run, Result, ok, stop, overrun,
  Action, ◌>>=◌, ◌>>◌, pure, leave, change, output, resumed, result_of, call, calls,
}
use service_payment_bridge.Card.Contactless.{keep_pan, get_pan, enter_pin, check, pin_if_asked}

-- The PIN pad's part of a platform's answers.
abbrev is_pin : Call → Bool
is_pin ped_get_pwd = true
is_pin c = false

-- The same platform with another PIN pad: it answers `f` and leaves `g`.
abbrev pub with_pin : Platform → (ℕ → ℤ) → (ℕ → Bytes) → Platform
with_pin p f g = record p { answer = λ t c. if is_pin c then f t else p.answer t c; pin_block = g }

abbrev pub Same : Run → Run → Type 0
Same r s = (r.clock ≡ s.clock) × (r.main_acc ≡ s.main_acc)

-- Two parts of functions that go the same way from states that differ in their logs only.
pub record Alike {A : Type 0} (m n : Action A) : Type 0 where
  pub run : (r s : Run) → Same r s → ((m r).0 ≡ (n s).0) × Same (m r).1 (n s).1

resumed-alike :
    {A B : Type 0} (x : Result A) (f g : A → Action B) (r s : Run)
    → Same r s
    → ((a : A) → Alike (f a) (g a))
    → ((resumed x f r).0 ≡ (resumed x g s).0) × Same (resumed x f r).1 (resumed x g s).1
resumed-alike (ok a) f g r s e k = (k a).run r s e
resumed-alike (stop z) f g r s e k = (refl, e)
resumed-alike overrun f g r s e k = (refl, e)

pub bind :
    {A B : Type 0} {m n : Action A} {f g : A → Action B}
    → Alike m n
    → ((a : A) → Alike (f a) (g a))
    → Alike (m >>= f) (n >>= g)
bind {m} {n} {f} {g} h k = record {
  run = λ r s e. rw (h.run r s e).0 (resumed-alike (n s).0 f g (m r).1 (n s).1 (h.run r s e).1 k);
}

pub before :
    {A : Type 0} {m n : Action (Unit {0})} {k l : Action A}
    → Alike m n
    → Alike k l
    → Alike (m >> k) (n >> l)
before h q = bind h (λ _. q)

pub Alike-output : {A : Type 0} (o : ℕ → A) → Alike (output o) (output o)
Alike-output o = record { run = λ r s e. (ap (λ t. ok (o t)) e.0, e) }

pub Alike-pure : {A : Type 0} (a : A) → Alike (pure a) (pure a)
Alike-pure a = record { run = λ r s e. (refl, e) }

pub Alike-leave : {A : Type 0} (z : ℤ) → Alike {A = A} (leave z) (leave z)
Alike-leave z = record { run = λ r s e. (refl, e) }

pub Alike-change :
    (f : Run → Run) → ((r s : Run) → Same r s → Same (f r) (f s)) → Alike (change f) (change f)
Alike-change f h = record { run = λ r s e. (refl, h r s e) }

pub Alike-check : (z : ℤ) → Alike (check z) (check z)
Alike-check z = record {
  run = λ r s e. elim (Bool-cases (is 0 z)) [ inl q ↦ rw q (refl, e) | inr q ↦ rw q (refl, e) ];
}

Alike-keep_pan : (o : Option Bytes) → Alike (keep_pan o) (keep_pan o)
unfolding keep_pan
Alike-keep_pan none = record { run = λ r s e. (refl, e) }
Alike-keep_pan (some a) = record { run = λ r s e. (refl, (e.0, refl)) }

-- No call of the PIN pad.
abbrev NoPin : List Call → Type 0
NoPin [] = Unit
NoPin (c ∷ cs) = (is_pin c ≡ false) × NoPin cs

module _ (p : Platform) (f : ℕ → ℤ) (g : ℕ → Bytes) where
  pub Alike-get_pan : (v : Conversion) → Alike (get_pan v p) (get_pan v (with_pin p f g))
  unfolding get_pan
  Alike-get_pan v = record {
    run = λ r s e.
        simp (e.0, e.1) ((Alike-keep_pan (get_pan_number v (p.tlv s.clock) s.main_acc)).run r s e);
  }

  pub Alike-result_of :
      (c : Call) → is_pin c ≡ false → Alike (result_of p c) (result_of (with_pin p f g) c)
  unfolding result_of
  Alike-result_of c h = record { run = λ r s e. rw (h, e.0) (refl, (refl, e.1)) }

  Alike-call : (c : Call) → is_pin c ≡ false → Alike (call p c) (call (with_pin p f g) c)
  unfolding call
  Alike-call c h = record { run = λ r s e. rw (h, e.0) (refl, (refl, e.1)) }

  pub Alike-calls : (cs : List Call) → NoPin cs → Alike (calls p cs) (calls (with_pin p f g) cs)
  unfolding calls
  Alike-calls [] h = Alike-pure tt
  Alike-calls (c ∷ cs) h = before (Alike-call c h.0) (Alike-calls cs h.1)

  pub Alike-pin_if_asked : (c : Cvm) → Alike (pin_if_asked p c) (pin_if_asked (with_pin p f g) c)
  unfolding pin_if_asked enter_pin result_of
  Alike-pin_if_asked no_cvm = Alike-pure tt
  Alike-pin_if_asked signature = Alike-pure tt
  Alike-pin_if_asked online_pin = record { run = λ r s e. (refl, (ap (λ t. t + 1) e.0, e.1)) }
