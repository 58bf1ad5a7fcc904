-- ===== src/Tms/Account/Flag.antt =====
-- tms_tms.c, TmsTermAuth_Api: GtermAuthFlag.
use service_payment_bridge.Prelude.{
  ℕ, zero, suc, ◌≡◌, refl, ap, arith, ◌↔◌, Bool, true, false, Option, none, some, inl, inr, ◌⊎◌,
}
use service_payment_bridge.Tms.Reply.{Session, Answer}
use service_payment_bridge.Tms.Account.{
  Account, Exchange, with_session, device_authentication, term_info_upload, term_location_upload,
  uploaded, authenticated_with, tms_term_auth_api,
}

-- What the flag is, if the code gives a result.
abbrev flag_or : Bool → Option (ℕ × Account) → Bool
flag_or b none = b
flag_or b (some (c, a)) = a.authenticated

abbrev code_or : ℕ → Answer → ℕ
code_or n none = n
code_or n (some (c, s)) = c

with_session-flag : (b : Bool) (o : Answer) → flag_or b (with_session b o) ≡ b
with_session-flag b none = refl
with_session-flag b (some (c, s)) = refl

uploaded-flag : (x : Exchange) (o : Answer) → flag_or true (uploaded x o) ≡ true
unfolding uploaded
uploaded-flag x none = refl
uploaded-flag x (some (c, s)) = with_session-flag true (term_location_upload x s)

authenticated_with-flag :
    (x : Exchange) (o : Answer) (c : ℕ) (b : Account)
    → authenticated_with x o ≡ some (c, b)
    → (b.authenticated ≡ true) ↔ ((s : Session) × (o ≡ some (0, s)))
unfolding authenticated_with
authenticated_with-flag x none c b e = cc
authenticated_with-flag x (some (suc n, s)) c b e =
    let w : false ≡ b.authenticated = ap (flag_or false) e in
    (λ h. cc, λ q. elim (code_suc (ap (code_or 0) q.1)) [ ])
  where
    code_suc : {m : ℕ} → suc m ≡ 0 → ⊥
    code_suc h = omega (arith, h)
authenticated_with-flag x (some (zero, s)) c b e =
    let u : flag_or true (uploaded x (term_info_upload x s)) ≡ true =
      uploaded-flag x (term_info_upload x s) in
    let w : flag_or true (uploaded x (term_info_upload x s)) ≡ b.authenticated =
      ap (flag_or true) e in
    (λ h. (s, refl), λ q. cc)

-- Where TmsTermAuth_Api returns, the terminal counts as authenticated exactly if there was memory for the
-- buffers and the exchange of the authentication itself returned 0, whatever the two uploads behind it
-- return, or if there was no memory, so that nothing was sent, and it counted as authenticated before.
pub tms_term_auth_api-flag :
    (x : Exchange) (memory : Bool) (a b : Account) (c : ℕ)
    → tms_term_auth_api x memory a ≡ some (c, b)
    → (b.authenticated ≡ true) ↔ (
        ((memory ≡ true) × ((s : Session) × (device_authentication x a.session ≡ some (0, s))))
        ⊎ ((memory ≡ false) × (a.authenticated ≡ true)))
unfolding tms_term_auth_api
tms_term_auth_api-flag x true a b c e =
    let (f, g) = authenticated_with-flag x (device_authentication x a.session) c b e in
    (λ h. inl (refl, f h), λ q. elim q [ inl u ↦ g u.1 | inr u ↦ cc ])
tms_term_auth_api-flag x false a b c e =
    let w : a.authenticated ≡ b.authenticated = ap (flag_or false) e in
    (λ h. inr (refl, cc), λ q. elim q [ inl u ↦ cc | inr u ↦ cc ])
