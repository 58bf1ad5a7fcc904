-- ===== src/Card/Callback.antt =====
-- EmvCallBack.c: callbacks of the contact kernel (CEmvWaitAppSel, CEmvGetAllAmt); file.c: ReadLog.
use service_payment_bridge.Prelude.{
  ℕ, zero, suc, ◌+◌, ◌-◌, ◌*◌, ◌<◌, ◌≡◌, ap, replicate, Bool, ◌&&◌, not, Option, none, some, List,
  [], ◌∷◌, Bytes, length, str_eq, leb, ◌==◌, if◌then◌else◌, arith, ℤ, pos, negsuc, is,
}

-- What CEmvWaitAppSel tells apart of the keys.
pub data Press : Type 0 where
  enter escape up down other : Press

-- "while (1)" from the selection `cur` on: ERR_USERCANCEL is -5; `none` waits for a further key. With no
-- application, UP would leave -1.
unfoldable pub select_app : ℕ → ℕ → List Press → Option ℤ
select_app n cur [] = none
select_app n cur (enter ∷ ks) = some (pos cur)
select_app n cur (escape ∷ ks) = some (negsuc 4)
select_app n cur (up ∷ ks) = select_app n (if cur == 0 then n - 1 else cur - 1) ks
select_app n cur (down ∷ ks) = select_app n (if leb (n - 1) cur then 0 else cur + 1) ks
select_app n cur (other ∷ ks) = select_app n cur ks

-- CEmvWaitAppSel for at least one application.
unfoldable pub cemv_wait_app_sel : ℕ → List Press → Option ℤ
unfolding select_app
cemv_wait_app_sel app_num keys = select_app app_num 0 keys

-- LOG_STRC, what the callback reads of it: MainAcc, ucRecFalg, EntryMode[0], TradeAmount.
pub record Entry : Type 0 where
  pub main_acc : Bytes
  pub rec_falg : ℕ
  pub entry_mode : ℕ
  pub trade_amount : Bytes

-- ReadLog: what ReadFile_Api gives for a record, its result with the record, if it is whole. The code is 0
-- for a record that is cut off too, with *pLog as it was.
unfoldable pub read_log : ℕ → (ℕ → ℤ × Option Entry) → ℕ → Entry → ℕ × Entry
read_log trans_num read_file i before =
    let code : ℕ = if is 0 (read_file i).0 then 0 else 13 in
    let entry : Entry = elim (read_file i).1 [ none ↦ before | some e ↦ e ] in
    if trans_num == 0 then (1, before) else (code, entry)

-- CEmvGetAllAmt with a card number: BcdAdd_Api over the records of that number, by a chip and not void.
unfoldable pub counts : Bytes → Entry → Bool
counts pan e = str_eq e.main_acc pan && (not (e.rec_falg == 1) && e.entry_mode == 5)

unfoldable pub add_entries :
    (Bytes → Bytes → Bytes) → ℕ → (ℕ → ℤ × Option Entry) → Bytes → ℕ → ℕ → Entry → Bytes → Bytes
unfolding read_log counts
add_entries bcd_add trans_num read_file pan zero i e total = total
add_entries bcd_add trans_num read_file pan (suc left) i e total =
    let r : ℕ × Entry = read_log trans_num read_file i e in
    let sum : Bytes =
      if r.0 == 0 && counts pan r.1 then bcd_add total r.1.trade_amount else total in
    add_entries bcd_add trans_num read_file pan left (i + 1) r.1 sum

-- With the total cleared first; without a card number the amount itself. PANData is used before it is
-- compared with NULL.
unfoldable pub cemv_get_all_amt :
    (Bytes → Bytes → Bytes)
    → (Bytes → ℕ → Bytes)
    → ℕ
    → (ℕ → ℤ × Option Entry)
    → Bytes
    → Bytes
    → Bytes
unfolding add_entries
cemv_get_all_amt bcd_add bcd_to_asc trans_num read_file pan_data auth_amt =
    let pan : Bytes = bcd_to_asc pan_data (length pan_data * 2) in
    let empty : Entry = record {
      main_acc = [];
      rec_falg = 0;
      entry_mode = 0;
      trade_amount = replicate 6 0;
    } in
    let sum : Bytes =
      add_entries bcd_add trans_num read_file pan trans_num 0 empty (replicate 6 0) in
    if length pan_data == 0 then auth_amt else sum

abbrev value_or : Option ℤ → ℤ
value_or none = pos 0
value_or (some z) = z

abbrev index_or : ℤ → ℕ
index_or (pos n) = n
index_or (negsuc n) = n

-- Whatever keys are pressed, an application that is selected is one of the list.
select_app-Below :
    (n cur : ℕ) (ks : List Press) (k : ℕ) → cur < n → select_app n cur ks ≡ some (pos k) → k < n
unfolding select_app
select_app-Below n cur [] k h e = cc
select_app-Below n cur (enter ∷ ks) k h e =
    let w : cur ≡ k = ap index_or (ap value_or e) in omega (arith, h, w)
select_app-Below n cur (escape ∷ ks) k h e = cc
select_app-Below n cur (up ∷ ks) k h e =
    select_app-Below n (if cur == 0 then n - 1 else cur - 1) ks k (ground (arith, h)) e
select_app-Below n cur (down ∷ ks) k h e =
    select_app-Below n (if leb (n - 1) cur then 0 else cur + 1) ks k (ground (arith, h)) e
select_app-Below n cur (other ∷ ks) k h e = select_app-Below n cur ks k h e
