-- ===== src/Tms/Messages.antt =====
-- tms_tms.c: what the terminal says of an error (Tms_GetErrMsgByCode, Tms_GetErrorMsg).
use service_payment_bridge.Prelude.{
  ℕ, List, [], ◌∷◌, ◌++◌, Bytes, codes, length, take, str_eq, ltb, ◌==◌, if◌then◌else◌,
}
use service_payment_bridge.Qris.Amount.{decimal}

-- The text of the first code that fits, or another one.
unfoldable pub text_for : Bytes → List (Bytes × Bytes) → Bytes
text_for code [] = codes "Other error"
text_for code ((c, t) ∷ more) =
    let rest = text_for code more in if str_eq (take 2 code) c then t else rest

abbrev code_texts : List (Bytes × Bytes)
code_texts =
    (codes "11", codes "Verify token failed")
    ∷ (codes "12", codes "Token expired")
    ∷ (codes "21", codes "Upload TERM Info first")
    ∷ (codes "31", codes "TERM No. mismatch")
    ∷ (codes "35", codes "Task ID mismatch")
    ∷ (codes "36", codes "Item ID mismatch")
    ∷ (codes "41", codes "MSG ID mismatch")
    ∷ (codes "51", codes "Locate failed")
    ∷ (codes "93", codes "HTTP body NULL")
    ∷ (codes "94", codes "SIGN data NULL")
    ∷ (codes "95", codes "Timestamp  NULL")
    ∷ (codes "96", codes "version NULL")
    ∷ (codes "97", codes "Sign data mismatch")
    ∷ (codes "98", codes "Parameters missed")
    ∷ (codes "99", codes "Internal system error")
    ∷ []

unfoldable pub get_err_msg_by_code : Bytes → Bytes
unfolding text_for
get_err_msg_by_code code = code ++ (codes ":" ++ text_for code code_texts)

-- The numbers of inc/tms_tms.h.
unfoldable pub of_number : ℕ → List (ℕ × Bytes) → Bytes
unfolding decimal
of_number n [] = codes "Error:" ++ decimal n
of_number n ((c, t) ∷ more) = let rest = of_number n more in if n == c then t else rest

abbrev number_texts : List (ℕ × Bytes)
number_texts =
    (2, codes "Transaction failed")
    ∷ (3, codes "Not authenticated")
    ∷ (5, codes "Connect server failed")
    ∷ (6, codes "Send failed")
    ∷ (7, codes "Receive failed")
    ∷ (8, codes "Resolve failed")
    ∷ (9, codes "Pre-add failed")
    ∷ (10, codes "Too many updates")
    ∷ (11, codes "Not for this terminal")
    ∷ (13, codes "Write failed")
    ∷ (14, codes "MD5 error")
    ∷ (15, codes "Download uncomplete")
    ∷ (16, codes "File seek error")
    ∷ (25, codes "File size error")
    ∷ (28, codes "No update")
    ∷ (29, codes "Malloc error")
    ∷ []

-- Tms_GetErrorMsg, of a code that is not negative.
unfoldable pub get_error_msg : Bytes → Bytes → ℕ → Bytes
unfolding get_err_msg_by_code of_number
get_error_msg resp_code resp_msg n =
    if length resp_code == 2
    then if ltb 0 (length resp_msg)
      then resp_code ++ (codes ":" ++ resp_msg)
      else get_err_msg_by_code resp_code
    else of_number n number_texts
