-- ===== src/Examples/Menus.antt =====
-- display.c's menus at concrete inputs.
use service_payment_bridge.Prelude.{true, false, List, [], ◌∷◌, pos, arith}
use service_payment_bridge.Menu.{
  Key, escape, up, down, other, digit, texts, show_menu_item, one_screen_lines,
}
use service_payment_bridge.Menu.Pages.{Allowed, Inside, show_menu_item-Fine}
use service_payment_bridge.Menu.Volume.{Volume, IsKept, select_volum_menu, select_volum_menu-IsKept}
use service_payment_bridge.Menu.Settings.{
  settings_items, NoApdu, select_settings_menu, select_settings_menu-NoApdu,
}

-- Down twice on a small screen, a key without a meaning, up, and the third item.
abbrev some_keys : List Key
some_keys = down ∷ down ∷ other ∷ up ∷ digit 3 ∷ []

show_menu_item-Fine_example :
    Allowed 1 4 (show_menu_item true true (texts settings_items) 1 4 some_keys).0
    × Inside settings_items
        (one_screen_lines true true)
        (show_menu_item true true (texts settings_items) 1 4 some_keys).1
show_menu_item-Fine_example =
    show_menu_item-Fine true true settings_items 1 4 some_keys
      (omega arith, (omega arith, (omega arith, (omega arith, (omega arith, tt))))) (omega arith)
      (omega arith)

abbrev at_four : Volume
at_four = record { level = pos 4; saved = []; tips = [] }

-- Up to the maximum, once more, and down.
select_volum_menu-IsKept_example :
    IsKept
      (select_volum_menu true at_four
        ((digit 1 ∷ []) ∷ (digit 1 ∷ []) ∷ (down ∷ digit 2 ∷ []) ∷ (escape ∷ []) ∷ [])).0
select_volum_menu-IsKept_example =
    select_volum_menu-IsKept true at_four
      ((digit 1 ∷ []) ∷ (digit 1 ∷ []) ∷ (down ∷ digit 2 ∷ []) ∷ (escape ∷ []) ∷ [])
      ((omega arith, omega arith), tt)

select_settings_menu-NoApdu_example :
    NoApdu (select_settings_menu false [] ((digit 5 ∷ digit 4 ∷ []) ∷ (digit 1 ∷ []) ∷ [])).0
select_settings_menu-NoApdu_example =
    select_settings_menu-NoApdu false ((digit 5 ∷ digit 4 ∷ []) ∷ (digit 1 ∷ []) ∷ [])
