-- ===== src/Menu/Settings.antt =====
-- display.c: SelectSettingsMenu, SelectAPDULogMenu, SelectMainMenuForSmallDisplay and
-- SelectMainMenuForLargeDisplay. What an item starts is listed, the last one first; the branches that only
-- print on the second screen are one of them.
use service_payment_bridge.Prelude.{
  zero, suc, Bool, true, false, List, [], ◌∷◌, Bytes, codes, get_elem?, Option, none, some, ◌-◌,
  ◌==◌, if◌then◌else◌, arith,
}
use service_payment_bridge.Menu.{
  Key, Choice, pressed, overrun, waiting, escape, timeout, up, down, other, digit,
}
use service_payment_bridge.Menu.Loop.{After, leaves, again, stops, menu_of, menu_of-keeps}
use service_payment_bridge.Menu.Pages.{Allowed}

pub data Command : Type 0 where
  volume comm_mode scan_code vtms_log apdu_log : Command
  debug_on debug_off debug_output : Command
  amount_display tap_card insert_card qris_dinamis remote_upgrade settings : Command

-- "switch (nSelcItem)": the n-th case starts the n-th command; ESC leaves, all else shows the menu again.
abbrev pub started : List Command → Option Command → List Command
started l none = l
started l (some c) = c ∷ l

unfoldable pub choose : List Command → List Command → Choice → List Command × After
choose cases l overrun = (l, stops)
choose cases l waiting = (l, stops)
choose cases l (pressed escape) = (l, leaves)
choose cases l (pressed timeout) = (l, again)
choose cases l (pressed up) = (l, again)
choose cases l (pressed down) = (l, again)
choose cases l (pressed other) = (l, again)
choose cases l (pressed (digit n)) =
    (if n == 0 then l else started l (get_elem? cases (n - 1)), again)

abbrev pub settings_items : List Bytes
settings_items =
    codes "1.Volum"
    ∷ codes "2.COMM mode"
    ∷ codes "3.Scan code"
    ∷ codes "4.Output Vtms log"
    ∷ codes "5.Output APDU log"
    ∷ []

abbrev pub settings_cases : List Command
settings_cases = volume ∷ comm_mode ∷ scan_code ∷ vtms_log ∷ apdu_log ∷ []

-- SelectSettingsMenu
unfoldable pub select_settings_menu : Bool → List Command → List (List Key) → List Command × After
unfolding choose menu_of
select_settings_menu small l calls =
    menu_of (choose settings_cases) small settings_items 1 4 l calls

abbrev pub apdu_items : List Bytes
apdu_items = codes "1.Enable APDU log" ∷ codes "2.Disable APDU log" ∷ codes "3.Output APDU log" ∷ []

-- SelectAPDULogMenu
unfoldable pub select_apdu_log_menu : Bool → List Command → List (List Key) → List Command × After
unfolding choose menu_of
select_apdu_log_menu small l calls =
    menu_of (choose (debug_on ∷ debug_off ∷ debug_output ∷ [])) small apdu_items 1 4 l calls

abbrev pub small_items : List Bytes
small_items =
    codes "1.Amt Display(BackScr)"
    ∷ codes "2.Tran By Tap Card"
    ∷ codes "3.Tran By Insert Card"
    ∷ codes "4.RemoteUpgrade"
    ∷ codes "5.Settings"
    ∷ []

abbrev pub small_cases : List Command
small_cases = amount_display ∷ tap_card ∷ insert_card ∷ remote_upgrade ∷ settings ∷ []

-- SelectMainMenuForSmallDisplay
unfoldable pub select_main_menu_for_small_display :
    List Command → List (List Key) → List Command × After
unfolding choose menu_of
select_main_menu_for_small_display l calls =
    menu_of (choose small_cases) true small_items 1 5 l calls

abbrev pub large_items : List Bytes
large_items =
    codes "1.Amt Display(BackScr)"
    ∷ codes "2.Tran By Tap Card"
    ∷ codes "3.Tran By Insert Card"
    ∷ codes "4.QRIS Dinamis"
    ∷ codes "5.RemoteUpgrade"
    ∷ codes "6.Settings"
    ∷ []

abbrev pub large_cases : List Command
large_cases =
    amount_display ∷ tap_card ∷ insert_card ∷ qris_dinamis ∷ remote_upgrade ∷ settings ∷ []

-- SelectMainMenuForLargeDisplay
unfoldable pub select_main_menu_for_large_display :
    List Command → List (List Key) → List Command × After
unfolding choose menu_of
select_main_menu_for_large_display l calls =
    menu_of (choose large_cases) false large_items 1 6 l calls

-- The menu of the APDU log is not opened.
abbrev pub NoApdu : List Command → Type 0
NoApdu [] = Unit
NoApdu (apdu_log ∷ l) = ⊥
NoApdu (c ∷ l) = NoApdu l

choose-NoApdu :
    (l : List Command) (c : Choice)
    → Allowed 1 4 c
    → NoApdu l
    → NoApdu (choose settings_cases l c).0
unfolding choose
choose-NoApdu l overrun a h = h
choose-NoApdu l waiting a h = h
choose-NoApdu l (pressed escape) a h = h
choose-NoApdu l (pressed timeout) a h = h
choose-NoApdu l (pressed up) a h = h
choose-NoApdu l (pressed down) a h = h
choose-NoApdu l (pressed other) a h = h
choose-NoApdu l (pressed (digit zero)) a h = h
choose-NoApdu l (pressed (digit (suc zero))) a h = h
choose-NoApdu l (pressed (digit (suc (suc zero)))) a h = h
choose-NoApdu l (pressed (digit (suc (suc (suc zero))))) a h = h
choose-NoApdu l (pressed (digit (suc (suc (suc (suc zero)))))) a h = h
choose-NoApdu l (pressed (digit (suc (suc (suc (suc (suc n))))))) a h = absurd (omega (arith, a.1))

-- Whatever keys are pressed in the settings menu, its fifth item, the APDU log, is never opened.
pub select_settings_menu-NoApdu :
    (small : Bool) (calls : List (List Key)) → NoApdu (select_settings_menu small [] calls).0
unfolding select_settings_menu
select_settings_menu-NoApdu small calls =
    menu_of-keeps NoApdu (choose settings_cases) small settings_items 1 4 (omega arith)
      (omega arith) (omega arith) choose-NoApdu [] calls tt
